-- ===== src/Journal/Restart.antt =====
-- remote_robot/journal.py: a restart on the file of a journal reads every event back.
use mathlib.Core.List.{append_assoc, append-nil}
use remote_robot.Prelude.{
  ℕ, pos, zero, suc, ◌+◌, ◌<◌, String, ◌≡◌, refl, none, some, List, [], ◌∷◌, ◌++◌, ◌==◌, string_eq,
  nat_eq, ==_iff, if◌then◌else◌, length, length-append, keep, arith, inl, inr, Bool-cases, sym, ap,
  ◌∙◌, contains, same_set,
}
use remote_robot.Dict
use remote_robot.Dict.{Dict, get-put, get-empty, contains-keys}
use remote_robot.Value.{Value, Fields, dict, get, keys, text_keys, are_texts}
use remote_robot.Journal.Data.{
  Codec, JournalEvent, Result, ok, ◌>>=◌, >>=-eq-ok, check_run_id, event_data,
}
use remote_robot.Journal.Frame.{frame, decode_frame, record_fields, record_of}
use remote_robot.Journal.Load.{
  event_from_record, load_events, add_event, expected_of, has_keys, is_two, owner_of_record,
  sequence_of, timestamp_of, event_of,
}
use remote_robot.Journal.Backed.{Reads, decode_frame-frame, frame-ne-nil}

owner_of_record-str :
    (s : String) → check_run_id s ≡ ok s → owner_of_record (some (Value.str s)) ≡ ok s
unfolding owner_of_record
owner_of_record-str s h = rw (h, owner_of_record)

sequence_of-int : (n m : ℕ) → n ≡ m → sequence_of (some (Value.int (pos n))) m ≡ ok n
unfolding sequence_of
sequence_of-int n m h = ground arith

event_of-dict :
    (c : Codec) (fs : Fields) → event_data c (dict fs) ≡ ok fs → event_of c (some (dict fs)) ≡ ok fs
unfolding event_of
event_of-dict c fs h = rw (h, event_of)

-- An event's record passes the checks of a restart, where the next number of its run is its own.
event_from_record-record_fields :
    (c : Codec) (e : JournalEvent) (expected : Dict String ℕ)
    → check_run_id e.run_id ≡ ok e.run_id
    → event_data c (dict e.event) ≡ ok e.event
    → e.event_seq ≡ expected_of expected e.run_id
    → event_from_record c (record_fields e) expected
      ≡ ok (e, Dict.put expected e.run_id e.event_seq)
unfolding event_from_record record_fields get keys text_keys are_texts same_set contains has_keys
    is_two timestamp_of
event_from_record-record_fields c e expected named safe next =
    rw
      (
        owner_of_record-str e.run_id named,
        sequence_of-int e.event_seq _ next,
        event_of-dict c e.event safe,
      )
      refl

-- The events of run `r` among the events of a file.
abbrev pub own : String → List JournalEvent → List JournalEvent
own r = keep (λ e. e.run_id == r)

own-append : (r : String) (xs ys : List JournalEvent) → own r (xs ++ ys) ≡ own r xs ++ own r ys
own-append r [] ys = refl
own-append r (x ∷ xs) ys = ground (arith, own-append r xs ys)

-- What a journal promises of each event that it writes after the events `done`.
pub record IsRecorded (c : Codec) (done : List JournalEvent) (e : JournalEvent) : Type 0 where
  pub named : check_run_id e.run_id ≡ ok e.run_id
  pub safe : event_data c (dict e.event) ≡ ok e.event
  pub next : e.event_seq ≡ length (own e.run_id done) + 1
  pub reads : Reads c (record_fields e)

-- `es` are written one after the other, after `done`.
abbrev pub Recorded : Codec → List JournalEvent → List JournalEvent → Type 0
Recorded c done [] = Unit
Recorded c done (e ∷ es) = IsRecorded c done e × Recorded c (done ++ e ∷ []) es

pub Recorded-append :
    (c : Codec) (done es : List JournalEvent) (e : JournalEvent)
    → Recorded c done es
    → IsRecorded c (done ++ es) e
    → Recorded c done (es ++ e ∷ [])
Recorded-append c done [] e h i = (rw (append-nil done) at i, tt)
Recorded-append c done (x ∷ es) e h i =
    (h.0, Recorded-append c (done ++ x ∷ []) es e h.1 (rw append_assoc i))

-- The frames of some events, in a row.
unfoldable pub frames : Codec → List JournalEvent → Result (List ℕ)
frames c [] = ok []
frames c (e ∷ es) = do head ← frame c (record_of e); rest ← frames c es; ok (head ++ rest)

pub frames-append :
    (c : Codec) (es : List JournalEvent) (e : JournalEvent) (bs head : List ℕ)
    → frames c es ≡ ok bs
    → frame c (record_of e) ≡ ok head
    → frames c (es ++ e ∷ []) ≡ ok (bs ++ head)
unfolding frames
frames-append c [] e bs head h k = ground (arith, h, k, append-nil head)
frames-append c (x ∷ es) e bs head h k =
    let (first, framed, more) = >>=-eq-ok (frame c (record_of x)) _ h in
    let (others, rest, joined) = >>=-eq-ok (frames c es) _ more in
    ground (
      arith,
      framed,
      joined,
      frames-append c es e others head rest k,
      append_assoc first others head,
    )

abbrev pub list_of : Dict String (List JournalEvent) → String → List JournalEvent
list_of d r = elim (Dict.get d r) [ none ↦ [] | some es ↦ es ]

list_of-add_event :
    (events : Dict String (List JournalEvent)) (e : JournalEvent) (r : String)
    → list_of (add_event events e) r
      ≡ (if e.run_id == r then list_of events r ++ e ∷ [] else list_of events r)
unfolding add_event
list_of-add_event events e r =
    ground (arith, get-put events e.run_id r (list_of events e.run_id ++ e ∷ []), ==_iff e.run_id r)

pub own-snoc :
    (r : String) (done : List JournalEvent) (e : JournalEvent)
    → own r (done ++ e ∷ []) ≡ (if e.run_id == r then own r done ++ e ∷ [] else own r done)
own-snoc r done e = ground (arith, own-append r done (e ∷ []), append-nil (own r done))

expected_of-put :
    (expected : Dict String ℕ) (e : JournalEvent) (r : String)
    → expected_of (Dict.put expected e.run_id e.event_seq) r
      ≡ (if e.run_id == r then e.event_seq + 1 else expected_of expected r)
unfolding expected_of
expected_of-put expected e r = ground (arith, get-put expected e.run_id r e.event_seq)

load_step :
    (c : Codec) (fuel : ℕ) (e : JournalEvent) (head rest : List ℕ)
    (events : Dict String (List JournalEvent)) (expected : Dict String ℕ)
    → frame c (record_of e) ≡ ok head
    → Reads c (record_fields e)
    → event_from_record c (record_fields e) expected
      ≡ ok (e, Dict.put expected e.run_id e.event_seq)
    → load_events c (suc fuel) (head ++ rest) events expected
      ≡ load_events c fuel rest (add_event events e) (Dict.put expected e.run_id e.event_seq)
unfolding load_events
load_step c fuel e head rest events expected framed reads good =
    rw (decode_frame-frame c (record_fields e) reads head rest framed, load_events) (rw good)

frames-cons :
    (c : Codec) (e : JournalEvent) (es : List JournalEvent) (bs : List ℕ)
    → frames c (e ∷ es) ≡ ok bs
    → (head : List ℕ) × (rest : List ℕ) × (frame c (record_of e) ≡ ok head)
      × (frames c es ≡ ok rest)
      × (head ++ rest ≡ bs)
unfolding frames
frames-cons c e es bs h =
    let (head, framed, more) = >>=-eq-ok (frame c (record_of e)) _ h in
    let (rest, others, joined) = >>=-eq-ok (frames c es) _ more in
    (head, rest, framed, others, ground arith)

counted_next :
    (c : Codec) (done : List JournalEvent) (e : JournalEvent) (expected : Dict String ℕ)
    (r : String)
    → e.event_seq ≡ length (own e.run_id done) + 1
    → expected_of expected r ≡ length (own r done) + 1
    → expected_of (Dict.put expected e.run_id e.event_seq) r ≡ length (own r (done ++ e ∷ [])) + 1
counted_next c done e expected r next counted = elim (Bool-cases (e.run_id == r)) [
  | inl same ↦
      let id = (==_iff e.run_id r).0 same in
      rw (expected_of-put expected e r, own-snoc r done e, same)
        (omega (
          arith,
          length-append (own r done) (e ∷ []),
          next ∙ ap (λ (x : String). length (own x done) + 1) id,
        ))
  | inr other ↦ rw (expected_of-put expected e r, own-snoc r done e, other) counted
]

-- The loop of `_load` reads back all the frames, the fuel being more than their bytes.
pub load_events-frames :
    (c : Codec) (fuel : ℕ) (done es : List JournalEvent) (bs : List ℕ)
    (events : Dict String (List JournalEvent)) (expected : Dict String ℕ)
    → frames c es ≡ ok bs
    → length bs < fuel
    → Recorded c done es
    → ((r : String) → list_of events r ≡ own r done)
    → ((r : String) → expected_of expected r ≡ length (own r done) + 1)
    → (d : Dict String (List JournalEvent)) × (load_events c fuel bs events expected ≡ ok d)
      × ((r : String) → list_of d r ≡ own r (done ++ es))
unfolding frames load_events decode_frame
load_events-frames c zero done es bs events expected h l rec sofar counted = absurd (omega arith)
load_events-frames c (suc fuel) done [] bs events expected h l rec sofar counted =
    (events, rw (← (let e : [] ≡ bs = ground arith in e)) refl, λ r. rw (append-nil done) (sofar r))
load_events-frames c (suc fuel) done (e ∷ es) bs events expected h l rec sofar counted =
    let (head, rest, framed, others, whole) = frames-cons c e es bs h in
    let good =
      event_from_record-record_fields c e expected rec.0.named rec.0.safe
        (rec.0.next ∙ sym (counted e.run_id)) in
    let (d, loaded, same) =
      load_events-frames c fuel (done ++ e ∷ []) es rest (add_event events e)
        (Dict.put expected e.run_id e.event_seq) others
        (omega (
          arith,
          length-append head rest,
          ap length whole,
          frame-ne-nil c (record_fields e) rec.0.reads head framed,
        ))
        rec.1 (λ r. ground (arith, list_of-add_event events e r, own-snoc r done e, sofar r))
        (λ r. counted_next c done e expected r rec.0.next (counted r)) in
    (
      d,
      rw (← whole) (load_step c fuel e head rest events expected framed rec.0.reads good ∙ loaded),
      λ r. rw append_assoc at (same r),
    )
