-- ===== src/Journal/Sequence.antt =====
-- remote_robot/journal.py: the numbering of events, and what `append` and `replay` promise.
use remote_robot.Prelude.{
  ℕ, zero, suc, ◌+◌, ◌≤◌, String, ==_refl, ◌≡◌, refl, false, some, List, [], ◌∷◌, ◌++◌, ◌==◌,
  string_eq, ==_iff, contains, if◌then◌else◌, length, keep, ltb, last?-append, drop, take, arith,
  sym, ◌∙◌, ◌⊎◌, inl, inr, Bool-cases,
}
use remote_robot.Dict
use remote_robot.Dict.{Dict, get-put, get-empty}
use remote_robot.Value.{Value, Fields}
use remote_robot.Journal.Data.{
  Codec, Writing, succeeds, fails, os_error, Moment, JournalEvent, JournalError, Result, ok, raise,
  check_run_id,
}
use remote_robot.Journal.Frame.{frame, record_of}
use remote_robot.Journal.{
  Journal, Store, in_memory, file, write_frame, persist, events_of, append, replay, latest,
}
use remote_robot.Journal.Outcome.{Outcome, refused, unwritten, written, append-Outcome, next_event}

-- `es` are the events of run `r` from number `n + 1` on, without a gap.
abbrev pub Numbered : String → ℕ → List JournalEvent → Type 0
Numbered r n [] = Unit
Numbered r n (e ∷ es) = (e.run_id ≡ r) × (e.event_seq ≡ suc n) × Numbered r (suc n) es

-- The events of each run are its own and are numbered 1, 2, 3, ….
abbrev pub IsSequenced : Journal → Type 0
IsSequenced j = (r : String) → Numbered r 0 (events_of j r)

Numbered-append :
    (r : String) (n : ℕ) (es : List JournalEvent) (e : JournalEvent)
    → Numbered r n es
    → e.run_id ≡ r
    → e.event_seq ≡ n + length es + 1
    → Numbered r n (es ++ e ∷ [])
Numbered-append r n [] e h p q = (p, omega arith, tt)
Numbered-append r n (x ∷ es) e h p q =
    (h.0, h.1, Numbered-append r (suc n) es e h.2 p (omega arith))

-- The events of each run once an `append` for `owner` has written.
pub events_of-put :
    (j : Journal) (store : Store) (owner r : String) (es fs : List JournalEvent)
    → events_of
        (record j {
          events_by_run = Dict.put (Dict.put j.events_by_run owner es) owner fs;
          store = store;
        })
        r
      ≡ (if owner == r then fs else events_of j r)
unfolding events_of
events_of-put j store owner r es fs = ground (
  arith,
  get-put (Dict.put j.events_by_run owner es) owner r fs,
  get-put j.events_by_run owner r es,
)

pub events_of-open :
    (j : Journal) (store : Store) (owner r : String)
    → events_of
        (record j {
          events_by_run = Dict.put j.events_by_run owner (events_of j owner);
          store = store;
        })
        r
      ≡ events_of j r
unfolding events_of
events_of-open j store owner r =
    ground (arith, get-put j.events_by_run owner r (events_of j owner), ==_iff owner r)

Outcome-IsSequenced :
    (c : Codec) (j : Journal) (owner : String) (now : Moment) (out : Result JournalEvent × Journal)
    → Outcome c j owner now out
    → IsSequenced j
    → IsSequenced out.1
Outcome-IsSequenced c j owner now out (refused e eq) s = rw eq s
Outcome-IsSequenced c j owner now out (unwritten event e store _ eq) s =
    rw eq (λ r. rw (events_of-open j store owner r) (s r))
Outcome-IsSequenced c j owner now out (written event store _ _ _ _ _ eq) s = rw eq λ r.
    rw
      (events_of-put j store owner r (events_of j owner)
        (events_of j owner ++ next_event j owner event now ∷ []))
      (elim (Bool-cases (owner == r)) [
        | inl own ↦ rw own (
            rw (← (==_iff owner r).0 own)
              (Numbered-append owner 0 (events_of j owner) _ (s owner) refl (omega arith)))
        | inr other ↦ rw other (s r)
      ])

-- Whatever `append` does, the events of each run stay numbered from 1 without a gap.
pub append-IsSequenced :
    (c : Codec) (j : Journal) (run_id : String) (event : Value) (now : Moment)
    → IsSequenced j
    → IsSequenced (append c j run_id event now).1
append-IsSequenced c j run_id event now s =
    Outcome-IsSequenced c j run_id now _ (append-Outcome c j run_id event now) s

Numbered-keep_all :
    (r : String) (n m : ℕ) (es : List JournalEvent)
    → Numbered r n es
    → m ≤ n
    → keep (λ e. ltb m e.event_seq) es ≡ es
Numbered-keep_all r n m [] h l = refl
Numbered-keep_all r n m (e ∷ es) h l =
    ground (arith, h.1, Numbered-keep_all r (suc n) m es h.2 (omega arith))

Numbered-keep :
    (r : String) (n m k : ℕ) (es : List JournalEvent)
    → Numbered r n es
    → m ≡ n + k
    → keep (λ e. ltb m e.event_seq) es ≡ drop k es
Numbered-keep r n m zero es h l = Numbered-keep_all r n m es h (omega arith)
Numbered-keep r n m (suc k) [] h l = refl
Numbered-keep r n m (suc k) (e ∷ es) h l =
    ground (arith, h.1, Numbered-keep r (suc n) m k es h.2 (omega arith))

-- `replay` of a numbered run gives the events past the first `n`, for a valid run id.
pub replay-drop :
    (j : Journal) (run_id : String) (n : ℕ)
    → IsSequenced j
    → check_run_id run_id ≡ ok run_id
    → replay j run_id n ≡ ok (drop n (events_of j run_id))
unfolding replay
replay-drop j run_id n s named =
    rw (named, Numbered-keep run_id 0 n n (events_of j run_id) (s run_id) (omega arith))

-- An `append` that returns an event: its number is one more than the run's events so far, it is
-- the last of them afterwards, also to `latest`, and no other run changes. The run was not
-- recovered from a file and the journal was open.
pub append_returned :
    (c : Codec) (j : Journal) (run_id : String) (event : Value) (now : Moment) (item : JournalEvent)
    → (append c j run_id event now).0 ≡ ok item
    → (item.event_seq ≡ length (events_of j run_id) + 1)
      × (latest (append c j run_id event now).1 run_id ≡ ok (some item))
      × ((r : String)
          → events_of (append c j run_id event now).1 r
            ≡ (if run_id == r then events_of j run_id ++ item ∷ [] else events_of j r))
      × (contains j.recovered_run_ids run_id ≡ false)
      × (j.closed ≡ false)
unfolding latest
append_returned c j run_id event now item h = go _ (append-Outcome c j run_id event now) h
  where
    go :
        (out : Result JournalEvent × Journal)
        → Outcome c j run_id now out
        → out.0 ≡ ok item
        → (item.event_seq ≡ length (events_of j run_id) + 1)
          × (latest out.1 run_id ≡ ok (some item))
          × ((r : String)
              → events_of out.1 r
                ≡ (if run_id == r then events_of j run_id ++ item ∷ [] else events_of j r))
          × (contains j.recovered_run_ids run_id ≡ false)
          × (j.closed ≡ false)
    go out (refused f eq) p = absurd (ground arith)
    go out (unwritten ev f store _ eq) p = absurd (ground arith)
    go out (written ev store unshut fresh named safe done eq) p =
        let same : next_event j run_id ev now ≡ item = ground arith in
        let lists : (r : String)
            → events_of out.1 r
              ≡ (if run_id == r then events_of j run_id ++ item ∷ [] else events_of j r) =
          λ r.
            rw (eq, ← same)
              (events_of-put j store run_id r (events_of j run_id)
                (events_of j run_id ++ next_event j run_id ev now ∷ [])) in
        (
          ground (arith, same),
          rw (named, lists run_id, ==_refl run_id, last?-append (events_of j run_id) item),
          lists,
          fresh,
          unshut,
        )

-- The store as a failed append leaves it: as it was, or, if the write, flush or fsync of the frame of
-- the run's next event raised, with the first bytes of that frame behind it.
abbrev pub StoreLeft : Codec → Journal → String → Moment → JournalError → Store → Type 0
StoreLeft c j run_id now e store =
    (store ≡ j.store)
    ⊎ ((event : Fields) × (bs framed : List ℕ) × (n : ℕ) × (e ≡ os_error)
        × (now.writing ≡ fails n)
        × (j.store ≡ file bs)
        × (frame c (record_of (next_event j run_id event now)) ≡ ok framed)
        × (store ≡ file (bs ++ take n framed)))

write_frame-raised :
    (c : Codec) (writing : Writing) (bs : List ℕ) (made : Result (List ℕ)) (e : JournalError)
    (store : Store)
    → write_frame writing bs made ≡ (raise e, store)
    → (store ≡ file bs)
      ⊎ ((framed : List ℕ) × (n : ℕ) × (e ≡ os_error)
          × (writing ≡ fails n)
          × (made ≡ ok framed)
          × (store ≡ file (bs ++ take n framed)))
unfolding write_frame
write_frame-raised c writing bs (raise f) e store h = inl (ground (arith, h))
write_frame-raised c succeeds bs (ok framed) e store h = absurd (ground (arith, h))
write_frame-raised c (fails n) bs (ok framed) e store h =
    inr (framed, n, ground (arith, h), refl, refl, ground (arith, h))

pub persist-StoreLeft :
    (c : Codec) (j : Journal) (run_id : String) (now : Moment) (event : Fields) (s : Store)
    (e : JournalError) (store : Store)
    → j.store ≡ s
    → persist c now.writing s (record_of (next_event j run_id event now)) ≡ (raise e, store)
    → StoreLeft c j run_id now e store
unfolding persist
persist-StoreLeft c j run_id now event in_memory e store same h = absurd (ground (arith, h))
persist-StoreLeft c j run_id now event (file bs) e store same h =
    elim (write_frame-raised c now.writing bs (frame c (record_of (next_event j run_id event now)))
      e store h) [
        | inl kept ↦ inl (kept ∙ sym same)
        | inr (framed, n, cause, failed, made, left) ↦
            inr (event, bs, framed, n, cause, failed, same, made, left)
      ]

-- An `append` that raises leaves the events of every run as they were. The file is as it was too,
-- unless the write, flush or fsync of the frame of the run's next event raised, at the byte `n`: then
-- the first `n` bytes of that frame are behind what the file held.
pub append_raised :
    (c : Codec) (j : Journal) (run_id : String) (event : Value) (now : Moment) (e : JournalError)
    → (append c j run_id event now).0 ≡ raise e
    → ((r : String) → events_of (append c j run_id event now).1 r ≡ events_of j r)
      × StoreLeft c j run_id now e (append c j run_id event now).1.store
append_raised c j run_id event now e h = go _ (append-Outcome c j run_id event now) h
  where
    go :
        (out : Result JournalEvent × Journal)
        → Outcome c j run_id now out
        → out.0 ≡ raise e
        → ((r : String) → events_of out.1 r ≡ events_of j r)
          × StoreLeft c j run_id now e out.1.store
    go out (refused f eq) p = rw eq ((λ r. refl), inl refl)
    go out (unwritten ev f store failed eq) p =
        let same : f ≡ e = ground arith in
        rw eq (
          (λ r. events_of-open j store run_id r),
          rw (← same) (persist-StoreLeft c j run_id now ev j.store f store refl failed),
        )
    go out (written ev store _ _ _ _ _ eq) p = absurd (ground arith)
