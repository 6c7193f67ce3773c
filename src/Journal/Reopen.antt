-- ===== src/Journal/Reopen.antt =====
-- remote_robot/journal.py: a file journal from its creation, through any appends, to a restart.
use mathlib.Core.List.{append_assoc, append-nil}
use remote_robot.Prelude.{
  ℕ, suc, ◌+◌, String, ◌≡◌, refl, ◌≢◌, true, false, none, some, List, [], ◌∷◌, ◌++◌, string_eq,
  ==_iff, length, arith, inl, inr, Option-cases, sym, ap, ◌∙◌, contains, same_set,
}
use remote_robot.Dict
use remote_robot.Dict.{Dict, get-put, get-empty, contains-keys}
use remote_robot.Value.{Value, get, keys, text_keys, are_texts}
use remote_robot.Journal.Data.{
  Codec, Writing, succeeds, fails, Moment, JournalEvent, Result, ok, raise, >>=-eq-ok,
}
use remote_robot.Journal.Frame.{frame, record_fields, record_of, header, header_fields, magic}
use remote_robot.Journal.Load.{load_events, load_frames, load, open_file, expected_of}
use remote_robot.Journal.{Journal, Store, file, events_of, append, persist, write_frame}
use remote_robot.Journal.Outcome.{Outcome, refused, unwritten, written, append-Outcome, next_event}
use remote_robot.Journal.Sequence.{events_of-put, events_of-open, persist-StoreLeft}
use remote_robot.Journal.Backed.{Reads, decode_frame-frame}
use remote_robot.Journal.Restart.{
  Recorded, Recorded-append, own, own-snoc, frames, frames-append, load_events-frames, list_of,
}

-- The journal's file is the magic, the header and the frames of the events that it holds, in the
-- order in which they were written.
pub record IsBacked (c : Codec) (j : Journal) : Type 0 where
  pub log : List JournalEvent
  pub head : List ℕ
  pub body : List ℕ
  pub head_framed : frame c header ≡ ok head
  pub body_framed : frames c log ≡ ok body
  pub recorded : Recorded c [] log
  pub stored : j.store ≡ file (magic ++ (head ++ body))
  pub kept : (r : String) → events_of j r ≡ own r log

pub new_file-IsBacked : (c : Codec) (j : Journal) → open_file c none ≡ ok j → IsBacked c j
unfolding open_file frames events_of
new_file-IsBacked c j h =
    let (head, framed, made) = >>=-eq-ok (frame c header) _ h in
    record {
      log = [];
      head = head;
      body = [];
      head_framed = framed;
      body_framed = refl;
      recorded = tt;
      stored = ground (arith, made, append-nil head);
      kept = λ r. ground (arith, made, get-empty {V = List JournalEvent} r);
    }

write_frame-ok :
    (writing : Writing) (bs : List ℕ) (made : Result (List ℕ)) (store : Store)
    → write_frame writing bs made ≡ (ok tt, store)
    → (framed : List ℕ) × (made ≡ ok framed) × (store ≡ file (bs ++ framed))
unfolding write_frame
write_frame-ok writing bs (raise e) store h = absurd (ground (arith, h))
write_frame-ok succeeds bs (ok framed) store h = (framed, refl, ground (arith, h))
write_frame-ok (fails n) bs (ok framed) store h = absurd (ground (arith, h))

persist-file :
    (c : Codec) (writing : Writing) (s : Store) (bs : List ℕ) (v : Value) (store : Store)
    → s ≡ file bs
    → persist c writing s v ≡ (ok tt, store)
    → (framed : List ℕ) × (frame c v ≡ ok framed) × (store ≡ file (bs ++ framed))
unfolding persist
persist-file c writing s bs v store at_file h =
    write_frame-ok writing bs (frame c v) store (rw at_file at h)

Outcome-IsBacked :
    (c : Codec) (j : Journal) (owner : String) (now : Moment) (out : Result JournalEvent × Journal)
    → Outcome c j owner now out
    → IsBacked c j
    → now.writing ≡ succeeds
    → ((e : JournalEvent) → out.0 ≡ ok e → Reads c (record_fields e))
    → IsBacked c out.1
Outcome-IsBacked c j owner now out (refused e eq) b works reads = rw eq b
Outcome-IsBacked c j owner now out (unwritten event e store failed eq) b works reads =
    rw eq (record {
      log = b.log;
      head = b.head;
      body = b.body;
      head_framed = b.head_framed;
      body_framed = b.body_framed;
      recorded = b.recorded;
      stored = elim (persist-StoreLeft c j owner now event j.store e store refl failed) [
        | inl same ↦ same ∙ b.stored
        | inr (_, _, _, n, _, stopped, _, _, _) ↦ absurd (ground (arith, works, stopped))
      ];
      kept = λ r. events_of-open j store owner r ∙ b.kept r;
    })
Outcome-IsBacked c j owner now out (written event store unshut fresh named safe done eq) b works
      reads =
    let item = next_event j owner event now in
    let (framed, made, grown) =
      persist-file c now.writing j.store (magic ++ (b.head ++ b.body)) (record_of item) store
        b.stored done in
    rw eq (record {
      log = b.log ++ item ∷ [];
      head = b.head;
      body = b.body ++ framed;
      head_framed = b.head_framed;
      body_framed = frames-append c b.log item b.body framed b.body_framed made;
      recorded = Recorded-append c [] b.log item b.recorded (record {
        named = named;
        safe = safe;
        next = ap (λ (x : List JournalEvent). length x + 1) (b.kept owner);
        reads = reads item (ground arith);
      });
      stored = grown ∙ ap (λ (x : List ℕ). file (magic ++ x)) (append_assoc b.head b.body framed);
      kept = λ r. ground (
        arith,
        events_of-put j store owner r (events_of j owner) (events_of j owner ++ item ∷ []),
        own-snoc r b.log item,
        b.kept r,
        b.kept owner,
        ==_iff owner r,
      );
    })

-- One call of `append`: the run id, the event, and the clock and the file as it meets them.
abbrev pub Call : Type 0
Call = String × Value × Moment

unfoldable pub run : Codec → Journal → List Call → Journal
run c j [] = j
run c j ((run_id, event, now) ∷ calls) = run c (append c j run_id event now).1 calls

-- The codec reads back each event that the calls write.
abbrev pub AllRead : Codec → Journal → List Call → Type 0
AllRead c j [] = Unit
AllRead c j ((run_id, event, now) ∷ calls) =
    ((e : JournalEvent) → (append c j run_id event now).0 ≡ ok e → Reads c (record_fields e))
    × AllRead c (append c j run_id event now).1 calls

-- No call fails in writing, flushing or syncing the file.
abbrev pub AllWritten : List Call → Type 0
AllWritten [] = Unit
AllWritten ((run_id, event, now) ∷ calls) = (now.writing ≡ succeeds) × AllWritten calls

run-IsBacked :
    (c : Codec) (j : Journal) (calls : List Call)
    → IsBacked c j
    → AllWritten calls
    → AllRead c j calls
    → IsBacked c (run c j calls)
unfolding run
run-IsBacked c j [] b works reads = b
run-IsBacked c j ((run_id, event, now) ∷ calls) b works reads =
    run-IsBacked c (append c j run_id event now).1 calls
      (Outcome-IsBacked c j run_id now _ (append-Outcome c j run_id event now) b works.0 reads.0)
      works.1 reads.1

load-header :
    (c : Codec) (head body : List ℕ)
    → Reads c header_fields
    → frame c header ≡ ok head
    → load c (magic ++ (head ++ body))
      ≡ load_events c (suc (length body)) body Dict.empty Dict.empty
unfolding load get keys text_keys are_texts same_set contains
load-header c head body reads framed =
    rw (decode_frame-frame c header_fields reads head body framed, load_frames) refl

expected_of-empty : (r : String) → expected_of Dict.empty r ≡ 1
unfolding expected_of
expected_of-empty r = rw (get-empty r, expected_of)

load-IsBacked :
    (c : Codec) (j : Journal) (b : IsBacked c j)
    → Reads c header_fields
    → (d : Dict String (List JournalEvent)) × (load c (magic ++ (b.head ++ b.body)) ≡ ok d)
      × ((r : String) → list_of d r ≡ events_of j r)
load-IsBacked c j b reads =
    let (d, loaded, same) =
      load_events-frames c (suc (length b.body)) [] b.log b.body Dict.empty Dict.empty b.body_framed
        (omega arith) b.recorded (λ r. rw (get-empty r, list_of)) expected_of-empty in
    (d, load-header c b.head b.body reads b.head_framed ∙ loaded, λ r. same r ∙ sym (b.kept r))

contains-keys-list_of :
    (d : Dict String (List JournalEvent)) (r : String)
    → list_of d r ≢ []
    → contains (Dict.keys d) r ≡ true
contains-keys-list_of d r ne = elim (Option-cases (Dict.get d r)) [
  | inl e ↦ absurd (ne (rw (e, list_of) refl))
  | inr (es, e) ↦ rw (contains-keys d r, e)
]

-- A file journal made anew, after any appends, refused or not, of which none fails in writing,
-- flushing or syncing the file, and then opened again from its file by a restart: the restart
-- succeeds, every run has the events that it had, and every run that has events is read-only. The
-- codec reads back the header and each written event.
pub open_file-run :
    (c : Codec) (j : Journal) (calls : List Call) (bs : List ℕ)
    → open_file c none ≡ ok j
    → Reads c header_fields
    → AllWritten calls
    → AllRead c j calls
    → (run c j calls).store ≡ file bs
    → (j' : Journal) × (open_file c (some bs) ≡ ok j')
      × ((r : String) → events_of j' r ≡ events_of (run c j calls) r)
      × ((r : String) → events_of (run c j calls) r ≢ [] → contains j'.recovered_run_ids r ≡ true)
unfolding open_file events_of
open_file-run c j calls bs made reads works all at_file =
    let b = run-IsBacked c j calls (new_file-IsBacked c j made) works all in
    let (d, loaded, same) = load-IsBacked c (run c j calls) b reads in
    let whole : bs ≡ magic ++ (b.head ++ b.body) = ground (arith, b.stored, at_file) in
    (
      record {
        events_by_run = d;
        recovered_run_ids = Dict.keys d;
        closed = false;
        store = file bs;
      },
      rw (whole, loaded),
      same,
      λ r ne. contains-keys-list_of d r (rw same ne),
    )
