-- ===== src/Orchestrator/Steps.antt =====
-- remote_robot/orchestrator.py: what the single steps of a run add to its events and requests.
use mathlib.Core.List.{append_assoc, append-nil}
use remote_robot.Prelude.{
  ℕ, String, ◌≡◌, refl, sym, ap, ◌∙◌, Option, none, some, List, [], ◌∷◌, ◌++◌, ==_refl, string_eq,
  arith, inl, inr, Bool-cases, zero, suc, take,
}
use remote_robot.Value.{Fields, dict}
use remote_robot.Journal
use remote_robot.Journal.{Journal, events_of}
use remote_robot.Journal.Data
use remote_robot.Journal.Data.{Codec, Moment, JournalEvent}
use remote_robot.Journal.Sequence.{append_returned, append_raised}
use remote_robot.Journal.Written.{append_data}
use remote_robot.Orchestrator.{Result, ok, raise, cancelled, Reply, returned, wait_one}
use remote_robot.Orchestrator.Port.{
  Request, Port, Run, Step, pure, ◌>>=◌, set_phase, set_execution, clock, append, from_journal,
  gather, cut_at, gather_cut, gather_all, waited, wait_for, wait_each, wait_all,
}
use remote_robot.Orchestrator.Trace.{
  Kind, kind_of, to_all, kinds, event_type, event_types, types, event_types-append, kinds-append,
  Begins, Grows, Adds, Follows, Grows-refl, Grows-trans, Adds-quiet,
}

module _ {W : Type 0} (run_id : String) (p : Port W) where
  same-Grows :
      {r r' : Run W} → r'.journal ≡ r.journal → r'.requests ≡ r.requests → Grows run_id r r' [] []
  unfolding types
  same-Grows {r} {r'} j q = record {
    logged = rw j (sym (append-nil (event_types (events_of r.journal run_id))));
    sent = rw q (sym (append-nil (kinds r.requests)));
  }

  pub pure-Adds : {A : Type 0} (a : A) → Adds {W = W} run_id [] [] [] (pure a)
  unfolding pure
  pure-Adds a = record { follows = λ r. same-Grows refl refl }

  pub set_phase-Adds : (phase : String) → Adds {W = W} run_id [] [] [] (set_phase phase)
  unfolding set_phase
  set_phase-Adds phase = record { follows = λ r. same-Grows refl refl }

  pub set_execution-Adds :
      (execution : String) → Adds {W = W} run_id [] [] [] (set_execution execution)
  unfolding set_execution
  set_execution-Adds execution = record { follows = λ r. same-Grows refl refl }

  pub clock-Adds : Adds {W = W} run_id [] [] [] (clock p)
  unfolding clock
  clock-Adds = record { follows = λ r. same-Grows refl refl }

  -- The events of the run after a call of the journal's `append`.
  from_journal-Follows :
      (r : Run W) (event : Fields) (out : Data.Result JournalEvent × Journal)
      → ((item : JournalEvent)
          → out.0 ≡ Data.ok item
          → (item.event ≡ event)
            × (events_of out.1 run_id ≡ events_of r.journal run_id ++ item ∷ []))
      → ((e : Data.JournalError)
          → out.0 ≡ Data.raise e
          → events_of out.1 run_id ≡ events_of r.journal run_id)
      → Follows run_id [] (event_type event ∷ []) [] r (from_journal r out)
  unfolding from_journal types event_types
  from_journal-Follows r event (Data.ok item, j) good bad =
      let (same, grown) = good item refl in
      record {
        logged = rw (grown, event_types-append (events_of r.journal run_id) (item ∷ []), same) refl;
        sent = sym (append-nil (kinds r.requests));
      }
  from_journal-Follows r event (Data.raise e, j) good bad = (
    [],
    [],
    ([], refl),
    ([], refl),
    record {
      logged = rw (bad e refl) (sym (append-nil (event_types (events_of r.journal run_id))));
      sent = sym (append-nil (kinds r.requests));
    },
  )

  pub grown :
      (c : Codec) (j : Journal) (event : Fields) (now : Moment) (item : JournalEvent)
      → (Journal.append c j run_id (dict event) now).0 ≡ Data.ok item
      → events_of (Journal.append c j run_id (dict event) now).1 run_id
        ≡ events_of j run_id ++ item ∷ []
  grown c j event now item e =
      let (_, _, lists, _, _) = append_returned c j run_id (dict event) now item e in
      ground (arith, lists run_id, ==_refl run_id)

  pub append-Follows :
      (c : Codec) (event : Fields) (t : String) (r : Run W)
      → event_type event ≡ t
      → Follows run_id [] (t ∷ []) [] r (append p c run_id event r)
  unfolding append
  append-Follows c event t r h =
      let now = p.moment r.world in
      rw (← h) (
        from_journal-Follows r event (Journal.append c r.journal run_id (dict event) now)
          (λ item e.
            (append_data c r.journal run_id event now item e, grown c r.journal event now item e))
          (λ e h'. (append_raised c r.journal run_id (dict event) now e h').0 run_id))

  -- A step that adds its whole list or nothing.
  pub Follows-weaken :
      {A : Type 0} (ts : List String) (qs : List (String × Kind)) (r : Run W)
      (out : Result A × Run W)
      → Follows run_id [] ts qs r out
      → Follows run_id ts ts qs r out
  Follows-weaken ts qs r (ok a, r') g = g
  Follows-weaken ts qs r (raise e, r') (us, vs, (zs, q), more, g) =
      (us, vs, (zs ++ ts, ap (λ x. x ++ ts) q ∙ append_assoc us zs ts), more, g)

  gather-Grows :
      (request : String → Request) (k : Kind)
      → ((name : String) → kind_of (request name) ≡ k)
      → (names : List String) (r : Run W)
      → Grows run_id r (gather p request names r).1 [] (to_all k names)
  unfolding gather to_all types kinds
  gather-Grows request k same [] r = same-Grows refl refl
  gather-Grows request k same (name ∷ names) r =
      let sent : Run W = record r {
        world = (p.call name (request name) r.world).1;
        requests = r.requests ++ (name, request name) ∷ [];
      } in
      let one : Grows run_id r sent [] ((name, k) ∷ []) = record {
        logged = sym (append-nil (types run_id r));
        sent = rw (kinds-append r.requests ((name, request name) ∷ [])) (rw (same name) refl);
      } in
      Grows-trans run_id one (gather-Grows request k same names sent)

  -- All calls are made, or the run is cancelled and the first of them were.
  abbrev pub CallsAll : {A : Type 0} → List (String × Kind) → Run W → Result A × Run W → Type 0
  CallsAll qs r (ok a, r') = Grows run_id r r' [] qs
  CallsAll qs r (raise e, r') =
      (e ≡ cancelled) × (vs : List (String × Kind)) × Begins qs vs × Grows run_id r r' [] vs

  to_all-take :
      (k : Kind) (names : List String) (n : ℕ) → Begins (to_all k names) (to_all k (take n names))
  unfolding to_all
  to_all-take k names zero = (to_all k names, refl)
  to_all-take k [] (suc n) = ([], refl)
  to_all-take k (name ∷ names) (suc n) =
      let (zs, q) = to_all-take k names n in (zs, ap (◌∷◌ (name, k)) q)

  gather_cut-CallsAll :
      (request : String → Request) (k : Kind)
      → ((name : String) → kind_of (request name) ≡ k)
      → (names : List String) (cut : Option ℕ) (r : Run W)
      → CallsAll (to_all k names) r (gather_cut p request names cut r)
  unfolding gather_cut
  gather_cut-CallsAll request k same names none r = gather-Grows request k same names r
  gather_cut-CallsAll request k same names (some n) r = (
    refl,
    to_all k (take n names),
    to_all-take k names n,
    gather-Grows request k same (take n names) r,
  )

  pub gather_all-CallsAll :
      (request : String → Request) (k : Kind)
      → ((name : String) → kind_of (request name) ≡ k)
      → (names : List String) (r : Run W)
      → CallsAll (to_all k names) r (gather_all p request names r)
  unfolding gather_all
  gather_all-CallsAll request k same names r =
      gather_cut-CallsAll request k same names (cut_at p names r.world) r

  pub gather_all-Adds :
      (request : String → Request) (k : Kind)
      → ((name : String) → kind_of (request name) ≡ k)
      → (names : List String) → Adds run_id [] [] (to_all k names) (gather_all p request names)
  gather_all-Adds request k same names = record {
    follows = λ r. go r _ (gather_all-CallsAll request k same names r);
  }
    where
      go :
          {A : Type 0} (r : Run W) (out : Result A × Run W)
          → CallsAll (to_all k names) r out
          → Follows run_id [] [] (to_all k names) r out
      go r (ok a, r') g = g
      go r (raise e, r') (_, vs, b, g) = ([], vs, ([], refl), b, g)

  waited-Follows :
      (name : String) (out : Option (Result (Fields × List Fields))) (r : Run W)
      → Follows run_id [] [] [] r (waited p name out r)
  unfolding waited
  waited-Follows name none r = ([], [], ([], refl), ([], refl), Grows-refl run_id)
  waited-Follows name (some (raise e)) r = ([], [], ([], refl), ([], refl), Grows-refl run_id)
  waited-Follows name (some (ok (event, rest))) r = same-Grows refl refl

  wait_for-Adds :
      (execution expected_type name : String)
      → Adds {W = W} run_id [] [] [] (wait_for p run_id execution expected_type name)
  unfolding wait_for
  wait_for-Adds execution expected_type name = record {
    follows = λ r.
        waited-Follows name (wait_one run_id execution expected_type (p.arrivals name r.world)) r;
  }

  wait_each-Adds :
      (execution expected_type : String) (names : List String)
      → Adds {W = W} run_id [] [] [] (wait_each p run_id execution expected_type names)
  unfolding wait_each
  wait_each-Adds execution expected_type [] = pure-Adds {A = List (String × Reply)} []
  wait_each-Adds execution expected_type (name ∷ names) =
      Adds-quiet run_id (wait_for-Adds execution expected_type name) λ event.
        Adds-quiet run_id (wait_each-Adds execution expected_type names)
          λ events. pure-Adds ((name, returned event) ∷ events)

  pub wait_all-Adds :
      (execution expected_type : String) (names : List String)
      → Adds {W = W} run_id [] [] [] (wait_all p run_id execution expected_type names)
  unfolding wait_all
  wait_all-Adds execution expected_type names = record {
    follows = λ r. elim (Bool-cases (p.is_cancelled r.world)) [
      | inl stopped ↦ rw stopped ([], [], ([], refl), ([], refl), Grows-refl run_id)
      | inr running ↦ rw running ((wait_each-Adds execution expected_type names).follows r)
    ];
  }

  -- A step whose value is passed on in another form.
  pub pure-after-Adds :
      {A B : Type 0} {ps ts : List String} {qs : List (String × Kind)} {m : Step W A} (g : A → B)
      → Adds run_id ps ts qs m
      → Adds run_id ps ts qs (m >>= λ a. pure (g a))
  unfolding ◌>>=◌ pure
  pure-after-Adds {A} {B} {ps} {ts} {qs} {m} g h = record {
    follows = λ r. go r (m r) (h.follows r);
  }
    where
      go :
          (r : Run W) (out : Result A × Run W)
          → Follows run_id ps ts qs r out
          → Follows run_id ps ts qs r (((λ _. out) >>= λ a. pure (g a)) r)
      go r (ok a, r') k = k
      go r (raise e, r') k = k
