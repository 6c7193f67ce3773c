-- ===== src/Orchestrator/Trace.antt =====
-- remote_robot/orchestrator.py, `_execute_leased`: what a step of a run adds to the events of the run
-- and to the requests to its workers, whether it returns or raises, and the rules for steps in turn.
use mathlib.Core.Path.{subst}
use mathlib.Core.List.{append_assoc, append-nil}
use remote_robot.Prelude.{String, ◌≡◌, refl, sym, none, some, List, [], ◌∷◌, ◌++◌, string_eq, arith}
use remote_robot.Value.{Value, Fields, str, get}
use remote_robot.Journal.{events_of}
use remote_robot.Journal.Data.{JournalEvent}
use remote_robot.Orchestrator.{Result, ok, raise}
use remote_robot.Orchestrator.Port.{
  Request, prepare_disabled, prepare_phase, start_phase, stop, Run, Step, ◌>>=◌, lift,
}

-- A request, less the plan of the worker and the time of the start.
pub data Kind : Type 0 where
  disables prepares starts : Kind
  stops : Value → Kind

unfoldable pub code_of : Fields → Value
code_of context = elim (get "code" context) [ none ↦ str "" | some code ↦ code ]

unfoldable pub kind_of : Request → Kind
unfolding code_of
kind_of prepare_disabled = disables
kind_of (prepare_phase plan) = prepares
kind_of (start_phase start_at) = starts
kind_of (stop context) = stops (code_of context)

-- a call of all workers
unfoldable pub to_all : Kind → List String → List (String × Kind)
to_all k [] = []
to_all k (name ∷ names) = (name, k) ∷ to_all k names

unfoldable pub kinds : List (String × Request) → List (String × Kind)
unfolding kind_of
kinds [] = []
kinds ((name, request) ∷ requests) = (name, kind_of request) ∷ kinds requests

-- The type of an event.
unfoldable pub event_type : Fields → String
event_type event = elim (get "type" event) [ some (str s) ↦ s | _ ↦ "" ]

unfoldable pub event_types : List JournalEvent → List String
unfolding event_type
event_types [] = []
event_types (item ∷ items) = event_type item.event ∷ event_types items

-- The types of the events of run `run_id`.
unfoldable pub types : {W : Type 0} → String → Run W → List String
unfolding event_types
types run_id r = event_types (events_of r.journal run_id)

-- `xs` begins with `ys`.
abbrev pub Begins {ℓ} : {A : Type ℓ} → List A → List A → Type ℓ
Begins xs ys = (zs : List _) × (xs ≡ ys ++ zs)

Begins-nil {ℓ} : {A : Type ℓ} (ys : List A) → Begins [] ys → ys ≡ []
Begins-nil [] b = refl
Begins-nil (y ∷ ys) b = absurd (ground (arith, b.1))

pub event_types-append :
    (xs ys : List JournalEvent) → event_types (xs ++ ys) ≡ event_types xs ++ event_types ys
unfolding event_types
event_types-append [] ys = refl
event_types-append (x ∷ xs) ys = rw (event_types-append xs ys) refl

pub kinds-append : (xs ys : List (String × Request)) → kinds (xs ++ ys) ≡ kinds xs ++ kinds ys
unfolding kinds
kinds-append [] ys = refl
kinds-append (x ∷ xs) ys = rw (kinds-append xs ys) refl

module _ {W : Type 0} (run_id : String) where
  -- From `r` on, events of types `ts` and requests of kinds `qs` came after those so far.
  pub record Grows (r r' : Run W) (ts : List String) (qs : List (String × Kind)) : Type 0 where
    pub logged : types run_id r' ≡ types run_id r ++ ts
    pub sent : kinds r'.requests ≡ kinds r.requests ++ qs

  -- A step adds `ts` and `qs` if it returns, and the first of `ps` and of `qs` if it raises.
  abbrev pub Follows :
      {A : Type 0}
      → List String
      → List String
      → List (String × Kind)
      → Run W
      → Result A × Run W
      → Type 0
  Follows ps ts qs r (ok a, r') = Grows r r' ts qs
  Follows ps ts qs r (raise e, r') =
      (us : List String) × (vs : List (String × Kind)) × Begins ps us
      × Begins qs vs
      × Grows r r' us vs

  pub record Adds {A : Type 0} (ps ts : List String) (qs : List (String × Kind)) (m : Step W A)
      : Type 0 where
    pub follows : (r : Run W) → Follows ps ts qs r (m r)

  pub Grows-trans :
      {r r' r'' : Run W} {ts us : List String} {qs vs : List (String × Kind)}
      → Grows r r' ts qs
      → Grows r' r'' us vs
      → Grows r r'' (ts ++ us) (qs ++ vs)
  Grows-trans {r} {r'} {r''} {ts} {us} {qs} {vs} g h = record {
    logged = rw (h.logged, g.logged) (append_assoc (types run_id r) ts us);
    sent = rw (h.sent, g.sent) (append_assoc (kinds r.requests) qs vs);
  }

  pub Grows-refl : {r : Run W} → Grows r r [] []
  Grows-refl {r} = record {
    logged = sym (append-nil (types run_id r));
    sent = sym (append-nil (kinds r.requests));
  }

  then_out :
      {A B : Type 0} (ts ps us : List String) (qs vs : List (String × Kind)) (r : Run W)
      (f : A → Step W B) (out : Result A × Run W)
      → Follows ts ts qs r out
      → ((a : A) → out.0 ≡ ok a → Adds ps us vs (f a))
      → Follows (ts ++ ps) (ts ++ us) (qs ++ vs) r (((λ _. out) >>= f) r)
  unfolding ◌>>=◌
  then_out ts ps us qs vs r f (raise e, r') (ts', qs', (zs, p), (ws, q), g) h = (
    ts',
    qs',
    (zs ++ ps, rw (p) (append_assoc ts' zs ps)),
    (ws ++ vs, rw (q) (append_assoc qs' ws vs)),
    g,
  )
  then_out {A} {B} ts ps us qs vs r f (ok a, r') g h = next (f a r') ((h a refl).follows r')
    where
      next :
          (out : Result B × Run W)
          → Follows ps us vs r' out
          → Follows (ts ++ ps) (ts ++ us) (qs ++ vs) r out
      next (ok b, r'') k = Grows-trans g k
      next (raise e, r'') (us', vs', (zs, p), (ws, q), k) = (
        ts ++ us',
        qs ++ vs',
        (zs, rw p (sym (append_assoc ts us' zs))),
        (ws, rw q (sym (append_assoc qs vs' ws))),
        Grows-trans g k,
      )

  -- One step after another.
  pub Adds->>= :
      {A B : Type 0} {ts ps us : List String} {qs vs : List (String × Kind)} {m : Step W A}
      {f : A → Step W B}
      → Adds ts ts qs m
      → ((a : A) → Adds ps us vs (f a))
      → Adds (ts ++ ps) (ts ++ us) (qs ++ vs) (m >>= f)
  unfolding ◌>>=◌
  Adds->>= {A} {B} {ts} {ps} {us} {qs} {vs} {m} {f} g h = record {
    follows = λ r. then_out ts ps us qs vs r f (m r) (g.follows r) (λ a _. h a);
  }

  -- A step that adds nothing before another.
  pub Adds-quiet :
      {A B : Type 0} {ps us : List String} {vs : List (String × Kind)} {m : Step W A}
      {f : A → Step W B}
      → Adds [] [] [] m
      → ((a : A) → Adds ps us vs (f a))
      → Adds ps us vs (m >>= f)
  Adds-quiet g h = Adds->>= g h

  -- A value that is computed without the run, before a step.
  pub Adds-lift :
      {A B : Type 0} {ps us : List String} {vs : List (String × Kind)} {a : Result A}
      {f : A → Step W B}
      → ((x : A) → a ≡ ok x → Adds ps us vs (f x))
      → Adds ps us vs (lift a >>= f)
  unfolding ◌>>=◌ lift
  Adds-lift {a = ok x} h = record { follows = λ r. (h x refl).follows r }
  Adds-lift {ps = ps} {vs = vs} {a = raise e} h = record {
    follows = λ r. ([], [], (ps, refl), (vs, refl), Grows-refl);
  }

  -- Events without a request.
  pub Grows-log :
      {r r' r'' : Run W} {ts us : List String} {qs : List (String × Kind)}
      → Grows r r' ts qs
      → Grows r' r'' us []
      → Grows r r'' (ts ++ us) qs
  Grows-log {r} {r'} {r''} {ts} {us} {qs} g h =
      subst (λ vs. Grows r r'' (ts ++ us) vs) (append-nil qs) (Grows-trans g h)

  -- What begins an empty list adds nothing.
  pub Grows-none :
      {r r' r'' : Run W} {ts us : List String} {qs vs : List (String × Kind)}
      → Grows r r' ts qs
      → Begins [] us
      → Begins [] vs
      → Grows r' r'' us vs
      → Grows r r'' ts qs
  Grows-none {r} {r'} {r''} {ts} {us} {qs} {vs} g no_us no_vs h =
      let h' =
        subst (λ xs. Grows r' r'' xs []) (Begins-nil us no_us)
          (subst (λ ys. Grows r' r'' us ys) (Begins-nil vs no_vs) h) in
      subst (λ xs. Grows r r'' xs qs) (append-nil ts) (Grows-log g h')

  -- Requests without an event.
  pub Grows-request :
      {r r' r'' : Run W} {ts : List String} {qs vs : List (String × Kind)}
      → Grows r r' ts qs
      → Grows r' r'' [] vs
      → Grows r r'' ts (qs ++ vs)
  Grows-request {r} {r'} {r''} {ts} {qs} {vs} g h =
      subst (λ xs. Grows r r'' xs (qs ++ vs)) (append-nil ts) (Grows-trans g h)
