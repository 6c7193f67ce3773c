-- ===== src/Orchestrator/Rounds.antt =====
-- remote_robot/orchestrator.py, `_execute_leased`: the starts of a phase whose round returns.
use remote_robot.Prelude.{
  ℕ, ◌+◌, ◌≤◌, String, ◌≡◌, refl, sym, ap, ◌∙◌, true, not, Option, none, some, List, [], ◌∷◌, ◌++◌,
  map, string_eq, arith, inl, inr, Bool-cases,
}
use remote_robot.Text.{sort_texts}
use remote_robot.Value.{Fields, str, dict, get}
use remote_robot.Journal
use remote_robot.Journal.{Journal, events_of}
use remote_robot.Journal.Data
use remote_robot.Journal.Data.{JournalEvent}
use remote_robot.Journal.Written.{append_data}
use remote_robot.Orchestrator.{
  Result, ok, raise, phase_execution, Reply, returned, max_start_skew_us, is_over,
}
use remote_robot.Orchestrator.Plans.{safe_results}
use remote_robot.Orchestrator.Events.{phase_event}
use remote_robot.Orchestrator.Port.{
  Port, Run, Step, pure, ◌>>=◌, lift, append, from_journal, waited, wait_for, wait_each, wait_all,
}
use remote_robot.Orchestrator.Leased.{
  Setting, write, phase_round, round_started, events_in, require, none_raised,
}
use remote_robot.Orchestrator.Ensures.{Holds, Ensures, Ensures->>=, Ensures-lift, Ensures-after}
use remote_robot.Orchestrator.Steps.{grown}
use remote_robot.Orchestrator.Protocol.{workers_of, workers_of-planned}
use remote_robot.Orchestrator.Skew.{StartsOf, AreNear, observed_start_skew_us_lem}

module _ {W : Type 0} where
  -- Inversion of steps in turn that return.
  >>=-eq-ok :
      {A B : Type 0} (m : Step W A) (f : A → Step W B) (r r' : Run W) (b : B)
      → (m >>= f) r ≡ (ok b, r')
      → (a : A) × (r1 : Run W) × (m r ≡ (ok a, r1)) × (f a r1 ≡ (ok b, r'))
  unfolding ◌>>=◌
  >>=-eq-ok {A} {B} m f r r' b h = go (m r) h
    where
      go :
          (out : Result A × Run W)
          → ((λ _. out) >>= f) r ≡ (ok b, r')
          → (a : A) × (r1 : Run W) × (out ≡ (ok a, r1)) × (f a r1 ≡ (ok b, r'))
      go (ok a, r1) k = (a, r1, refl, k)
      go (raise e, r1) k = absurd (ground (arith, k))

  lift-eq-ok :
      {A B : Type 0} (v : Result A) (f : A → Step W B) (r r' : Run W) (b : B)
      → (lift v >>= f) r ≡ (ok b, r')
      → (a : A) × (v ≡ ok a) × (f a r ≡ (ok b, r'))
  unfolding ◌>>=◌ lift
  lift-eq-ok (ok a) f r r' b h = (a, refl, h)
  lift-eq-ok (raise e) f r r' b h = absurd (ground (arith, h))

  from_journal-eq-ok :
      (r r1 : Run W) (out : Data.Result JournalEvent × Journal) (item : JournalEvent)
      → from_journal r out ≡ (ok item, r1)
      → (out.0 ≡ Data.ok item) × (r1.journal ≡ out.1)
  unfolding from_journal
  from_journal-eq-ok r r1 (Data.ok made, j) item h =
      let same : made ≡ item = ground (arith, h) in
      (
        ap (λ (x : JournalEvent). Data.ok x) same,
        sym (ap (λ (x : Result JournalEvent × Run W). x.1.journal) h),
      )
  from_journal-eq-ok r r1 (Data.raise e, j) item h = absurd (ground (arith, h))

  module _ (s : Setting W) where
    write-eq-ok :
        (event : Fields) (r r1 : Run W) (item : JournalEvent)
        → write s event r ≡ (ok item, r1)
        → (item.event ≡ event)
          × (events_of r1.journal s.run_id ≡ events_of r.journal s.run_id ++ item ∷ [])
    unfolding write append
    write-eq-ok event r r1 item h =
        let now = s.port.moment r.world in
        let out = Journal.append s.codec r.journal s.run_id (dict event) now in
        let (made, left) = from_journal-eq-ok r r1 out item h in
        (
          append_data s.codec r.journal s.run_id event now item made,
          ap (λ j. events_of j s.run_id) left
              ∙ grown s.run_id s.port s.codec r.journal event now item made,
        )

    waited_journal :
        (p : Port W) (name : String) (out : Option (Result (Fields × List Fields))) (r r1 : Run W)
        (event : Fields)
        → waited p name out r ≡ (ok event, r1)
        → r1.journal ≡ r.journal
    unfolding waited
    waited_journal p name none r r1 event h = absurd (ground (arith, h))
    waited_journal p name (some (raise e)) r r1 event h = absurd (ground (arith, h))
    waited_journal p name (some (ok (found, rest))) r r1 event h =
        sym (ap (λ (x : Result Fields × Run W). x.1.journal) h)

    -- A wait for all workers has an event of each, in their order, and leaves the journal.
    wait_each_lem :
        (execution expected_type : String) (names : List String) (r r1 : Run W)
        (replies : List (String × Reply))
        → wait_each s.port s.run_id execution expected_type names r ≡ (ok replies, r1)
        → (map (λ reply. reply.0) replies ≡ names)
          × (none_raised replies ≡ true)
          × (r1.journal ≡ r.journal)
    unfolding wait_each wait_for pure none_raised
    wait_each_lem execution expected_type [] r r1 replies h =
        let none_left : [] ≡ replies = ground (arith, h) in
        (
          rw (← none_left) refl,
          rw (← none_left) refl,
          sym (ap (λ (x : Result (List (String × Reply)) × Run W). x.1.journal) h),
        )
    wait_each_lem execution expected_type (name ∷ names) r r1 replies h =
        let (event, r2, one, h2) = >>=-eq-ok _ _ r r1 replies h in
        let (events, r3, more, h3) = >>=-eq-ok _ _ r2 r1 replies h2 in
        let (named, good, kept) = wait_each_lem execution expected_type names r2 r3 events more in
        let whole : (name, returned event) ∷ events ≡ replies = ground (arith, h3) in
        (
          ap (λ (x : List (String × Reply)). map (λ reply. reply.0) x) (sym whole)
              ∙ ap (◌∷◌ name) named,
          rw (← whole) good,
          sym (ap (λ (x : Result (List (String × Reply)) × Run W). x.1.journal) h3)
              ∙ (kept ∙ waited_journal s.port name _ r r2 event one),
        )

    wait_all_lem :
        (execution expected_type : String) (names : List String) (r r1 : Run W)
        (replies : List (String × Reply))
        → wait_all s.port s.run_id execution expected_type names r ≡ (ok replies, r1)
        → (map (λ reply. reply.0) replies ≡ names)
          × (none_raised replies ≡ true)
          × (r1.journal ≡ r.journal)
    unfolding wait_all
    wait_all_lem execution expected_type names r r1 replies h =
        elim (Bool-cases (s.port.is_cancelled r.world)) [
          | inl stopped ↦ absurd (ground (arith, h, stopped))
          | inr running ↦ wait_each_lem execution expected_type names r r1 replies (rw running at h)
        ]

    is_over_le :
        (limit : Option ℕ) (observed bound : ℕ)
        → require (not (is_over limit observed)) phase_execution ≡ ok tt
        → limit ≡ some bound
        → observed ≤ bound
    unfolding is_over
    is_over_le limit observed bound h same = ground (arith, h, same)

    -- What the events of a run say once a round has returned: the last but one is `phase.started`
    -- with a reply of each of the workers `names`, in their order, none of them an exception, and no two
    -- of their `actual_start_us` are further apart than `limit`.
    abbrev pub HasStarted : ℕ → List String → Run W → Type 0
    HasStarted limit names r =
        (started : List (String × Reply)) × (ns : List ℕ) × (before : List JournalEvent) × (item
          last : JournalEvent)
        × (events_of r.journal s.run_id ≡ (before ++ item ∷ []) ++ last ∷ [])
        × (get "type" item.event ≡ some (str "phase.started"))
        × (get "workers" item.event ≡ some (safe_results started))
        × (map (λ reply. reply.0) started ≡ names)
        × (none_raised started ≡ true)
        × StartsOf (events_in started) ns
        × AreNear limit ns

    round_started_near :
        (index : ℕ) (phase : Fields) (phase_id execution : String) (start_at : ℕ)
        (names : List String) (started : List (String × Reply)) (r r' : Run W) (limit : ℕ)
        → round_started s index phase phase_id execution start_at names started r ≡ (ok tt, r')
        → max_start_skew_us s.root_manifest ≡ ok (some limit)
        → map (λ reply. reply.0) started ≡ names
        → none_raised started ≡ true
        → HasStarted limit names r'
    unfolding round_started phase_event get pure
    round_started_near index phase phase_id execution start_at names started r r' limit h bound
          named good =
        let (observed, seen, h1) = lift-eq-ok _ _ r r' tt h in
        let (most, has_limit, h2) = lift-eq-ok _ _ r r' tt h1 in
        let (item, r3, logged, h3) = >>=-eq-ok _ _ r r' tt h2 in
        let (_, near, h4) = lift-eq-ok _ _ r3 r' tt h3 in
        let (duration, _, h5) = lift-eq-ok _ _ r3 r' tt h4 in
        let (completed, r6, ended, h6) = >>=-eq-ok _ _ r3 r' tt h5 in
        let (last, r7, done, h7) = >>=-eq-ok _ _ r6 r' tt h6 in
        let (_, _, kept) = wait_all_lem execution "phase_completed" names r3 r6 completed ended in
        let (same, grown_by) = write-eq-ok _ r r3 item logged in
        let (_, grown_last) = write-eq-ok _ r6 r7 last done in
        let has : most ≡ some limit = ground (arith, has_limit, bound) in
        let (ns, starts, close, _) =
          observed_start_skew_us_lem (events_in started) observed limit seen
            (is_over_le most observed limit near has) in
        (
          started,
          ns,
          events_of r.journal s.run_id,
          item,
          last,
          ap (λ (x : Result (Unit {0}) × Run W). events_of x.1.journal s.run_id) (sym h7)
              ∙ (grown_last
                  ∙ ap (λ es. es ++ last ∷ []) (ap (λ j. events_of j s.run_id) kept ∙ grown_by)),
          rw same refl,
          rw same refl,
          named,
          good,
          starts,
          close,
        )

    round_started-Holds :
        (names : List String) (limit : ℕ) (r : Run W) (out : Result (Unit {0}) × Run W)
        → ((r' : Run W) → out ≡ (ok tt, r') → HasStarted limit names r')
        → Holds (λ _ r'. HasStarted limit names r') out
    round_started-Holds names limit r (ok tt, r') h = h r' refl
    round_started-Holds names limit r (raise e, r') h = tt

    phase_round-Ensures :
        (index : ℕ) (phase : Fields) (limit : ℕ)
        → max_start_skew_us s.root_manifest ≡ ok (some limit)
        → Ensures
            (λ _ r'. HasStarted limit (workers_of s.run_id s.program index phase) r')
            (phase_round s index phase)
    unfolding phase_round
    phase_round-Ensures index phase limit bound = Ensures->>= _ λ phase_id. Ensures->>= _ λ _.
        Ensures-lift _ λ planned known.
          rw (workers_of-planned s.run_id s.program index phase planned known) (
            let names = sort_texts (map (λ plan. plan.0) planned.1) in
            Ensures->>= _ λ _. Ensures->>= _ λ _. Ensures->>= _ λ _. Ensures->>= _ λ _.
              Ensures->>= _ λ now. Ensures->>= _ λ scheduled. Ensures->>= _ λ _.
                Ensures-after _ _ λ r r1 started waited_for.
                  let (named, good, _) =
                    wait_all_lem planned.0 "phase_started" names r r1 started waited_for in
                  round_started-Holds names limit r1 _ (λ r' h.
                    round_started_near index phase phase_id planned.0 (now + s.start_lead_us) names
                      started r1 r' limit h bound named good))

    -- The round of a phase that returns, where the root's manifest has a limit on the skew: the last
    -- event of the run but one is `phase.started` with a reply of each worker of the phase, in their
    -- order, none of them an exception, and no two of their `actual_start_us` are further apart than
    -- the limit.
    pub phase_round_starts :
        (index : ℕ) (phase : Fields) (r r' : Run W) (limit : ℕ)
        → phase_round s index phase r ≡ (ok tt, r')
        → max_start_skew_us s.root_manifest ≡ ok (some limit)
        → HasStarted limit (workers_of s.run_id s.program index phase) r'
    phase_round_starts index phase r r' limit h bound =
        rw h at ((phase_round-Ensures index phase limit bound).holds r)
