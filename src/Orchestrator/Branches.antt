-- ===== src/Orchestrator/Branches.antt =====
-- remote_robot/orchestrator.py: the locks of a target cover every manifest on its branch.
use remote_robot.Prelude.{
  String, Bool, true, false, ◌||◌, ◌≡◌, refl, arith, List, [], ◌∷◌, ◌++◌, string_eq, if◌then◌else◌,
  contains, some, ◌==◌, inl, inr, ◌⊎◌, ap, ◌∙◌,
}
use remote_robot.Value.{Items, Fields, str, list, nil, cons, get}
use remote_robot.Orchestrator.{OrchestratorError, Result, ok, raise, program_error}
use remote_robot.Orchestrator.Locks.{
  both, joined, own_locks, strings, string_list, child_manifest, collect_role_branch_locks,
}

Result-cases {ℓ} :
    {A : Type ℓ} (r : Result A) → ((a : A) × (r ≡ ok a)) ⊎ ((e : OrchestratorError) × (r ≡ raise e))
Result-cases (ok a) = inl (a, refl)
Result-cases (raise e) = inr (e, refl)

-- The second manifest is met on the way down a path of roles from the first.
pub data OnBranch : Fields → List String → Fields → Type 0 where
  here : {m : Fields} {path : List String} → OnBranch m path m
  below :
      {m child n : Fields} {role next : String} {path : List String}
      → child_manifest m role ≡ ok child
      → OnBranch child (next ∷ path) n
      → OnBranch m (role ∷ next ∷ path) n

-- A name is among the resources, or among the safety domains.
abbrev pub is_locked : Bool → List String × List String → String → Bool
is_locked true locks name = contains locks.0 name
is_locked false locks name = contains locks.1 name

contains-append :
    (xs ys : List String) (s : String) → contains (xs ++ ys) s ≡ (contains xs s || contains ys s)
unfolding contains
contains-append [] ys s = refl
contains-append (x ∷ xs) ys s = ground (arith, contains-append xs ys s)

is_locked_first :
    (kind : Bool) (own others : List String × List String) (s : String)
    → is_locked kind own s ≡ true
    → is_locked kind (both own others) s ≡ true
is_locked_first true own others s h = rw (contains-append own.0 others.0 s, h) refl
is_locked_first false own others s h = rw (contains-append own.1 others.1 s, h) refl

is_locked_rest :
    (kind : Bool) (own others : List String × List String) (s : String)
    → is_locked kind others s ≡ true
    → is_locked kind (both own others) s ≡ true
is_locked_rest true own others s h = ground (arith, h, contains-append own.0 others.0 s)
is_locked_rest false own others s h = ground (arith, h, contains-append own.1 others.1 s)

joined_parts :
    (own rest : Result (List String × List String)) (locks : List String × List String)
    → joined own rest ≡ ok locks
    → (o r : List String × List String) × (own ≡ ok o) × (rest ≡ ok r) × (locks ≡ both o r)
unfolding joined
joined_parts (raise e) rest locks h = absurd (ground arith)
joined_parts (ok o) (raise e) locks h = absurd (ground arith)
joined_parts (ok o) (ok r) locks h = (o, r, refl, refl, ground (arith, h))

own_covered :
    (m : Fields) (path : List String) (physical_id : String) (locks : List String × List String)
    → collect_role_branch_locks m path physical_id ≡ ok locks
    → (own r : List String × List String) × (own_locks m ≡ ok own) × (locks ≡ both own r)
unfolding collect_role_branch_locks
own_covered m [] physical_id locks h = absurd (ground arith)
own_covered m (leaf ∷ []) physical_id locks h =
    let (own, r, own_is, _, eq) = joined_parts (own_locks m) _ locks h in (own, r, own_is, eq)
own_covered m (role ∷ next ∷ path) physical_id locks h =
    let (own, r, own_is, _, eq) = joined_parts (own_locks m) _ locks h in (own, r, own_is, eq)

descends :
    (b : Bool) (found : Result Fields) (child : Fields)
    (f : Fields → Result (List String × List String)) (r : List String × List String)
    → (if b
        then (elim found as (λ _. Result (List String × List String)) [
          | raise e ↦ raise e
          | ok c ↦ f c
        ])
        else raise program_error)
      ≡ ok r
    → found ≡ ok child
    → f child ≡ ok r
descends true (ok x) child f r h c = ground (arith, h, c)
descends true (raise e) child f r h c = absurd (ground arith)
descends false found child f r h c = absurd (ground arith)

child_covered :
    (m child : Fields) (role next : String) (path : List String) (physical_id : String)
    (locks : List String × List String)
    → collect_role_branch_locks m (role ∷ next ∷ path) physical_id ≡ ok locks
    → child_manifest m role ≡ ok child
    → (o r : List String × List String) × (collect_role_branch_locks child (next ∷ path) physical_id
        ≡ ok r)
      × (locks ≡ both o r)
unfolding collect_role_branch_locks
child_covered m child role next path physical_id locks h c =
    let (o, r, _, rest, eq) = joined_parts (own_locks m) _ locks h in
    (
      o,
      r,
      descends _ (child_manifest m role) child
          (λ x. collect_role_branch_locks x (next ∷ path) physical_id) r rest c,
      eq,
    )

-- The entry of a manifest, and the texts in its list.
abbrev pub key_of : Bool → String
key_of true = "resources"
key_of false = "safety_domains"

unfoldable pub mentions : Items → String → Bool
mentions nil name = false
mentions (cons (str s) xs) name = s == name || mentions xs name
mentions (cons _ xs) name = mentions xs name

contains-strings :
    (xs : Items) (ss : List String) (name : String)
    → strings xs ≡ ok ss
    → contains ss name ≡ mentions xs name
unfolding strings mentions contains
contains-strings nil ss name h = ground (arith, h)
contains-strings (cons (str s) xs) ss name h = elim (Result-cases (strings xs)) [
  | inl (ts, more) ↦
      let whole : s ∷ ts ≡ ss = ground (arith, h, more) in
      rw (← whole) (ground (arith, contains-strings xs ts name more))
  | inr (e, bad) ↦ absurd (ground (arith, h, bad))
]
contains-strings (cons _ xs) ss name h = absurd (ground (arith, h))

own_parts :
    (n : Fields) (own : List String × List String)
    → own_locks n ≡ ok own
    → (string_list (get "resources" n) ≡ ok own.0)
      × (string_list (get "safety_domains" n) ≡ ok own.1)
unfolding own_locks
own_parts n own h = elim (Result-cases (string_list (get "resources" n))) [
  | inr (e, bad) ↦ absurd (ground (arith, h, bad))
  | inl (rs, first) ↦ elim (Result-cases (string_list (get "safety_domains" n))) [
    | inr (e, bad) ↦ absurd (ground (arith, h, first, bad))
    | inl (ds, second) ↦
        let same : (rs, ds) ≡ own = ground (arith, h, first, second) in
        (
          first ∙ ap (λ (x : List String × List String). ok x.0) same,
          second ∙ ap (λ (x : List String × List String). ok x.1) same,
        )
  ]
]

own_named :
    (n : Fields) (own : List String × List String) (kind : Bool) (xs : Items) (name : String)
    → own_locks n ≡ ok own
    → get (key_of kind) n ≡ some (list xs)
    → mentions xs name ≡ true
    → is_locked kind own name ≡ true
unfolding string_list
own_named n own true xs name o entry held =
    contains-strings xs own.0 name (rw entry at (own_parts n own o).0) ∙ held
own_named n own false xs name o entry held =
    contains-strings xs own.1 name (rw entry at (own_parts n own o).1) ∙ held

-- Where the locks of a target are found, they hold each text in the `resources` and each text in the
-- `safety_domains` of each manifest on the branch from the root to the target.
pub collect_role_branch_locks_covers :
    (m n : Fields) (path : List String) (physical_id : String) (locks : List String × List String)
    (kind : Bool) (xs : Items) (name : String)
    → collect_role_branch_locks m path physical_id ≡ ok locks
    → OnBranch m path n
    → get (key_of kind) n ≡ some (list xs)
    → mentions xs name ≡ true
    → is_locked kind locks name ≡ true
collect_role_branch_locks_covers m n path physical_id locks kind xs name h here entry held =
    let (own, r, o, eq) = own_covered m path physical_id locks h in
    rw eq (is_locked_first kind own r name (own_named n own kind xs name o entry held))
collect_role_branch_locks_covers m n path physical_id locks kind xs name h
      (below {child = child} {role = role} {next = next} {path = rest} c b) entry held =
    let (p, r, found, eq) = child_covered m child role next rest physical_id locks h c in
    rw eq (
      is_locked_rest kind p r name (
        collect_role_branch_locks_covers child n (next ∷ rest) physical_id r kind xs name found b
          entry held))
