-- ===== src/Orchestrator/Locks.antt =====
-- remote_robot/orchestrator.py, `_collect_role_branch_locks`: the resources and safety domains of
-- the manifests from the root to a physical node.
use remote_robot.Prelude.{String, Option, none, some, List, [], ◌∷◌, ◌++◌, string_eq, if◌then◌else◌}
use remote_robot.Value.{Value, Items, Fields, null, str, list, dict, nil, cons, get}
use remote_robot.Orchestrator.{Result, ok, raise, program_error, is_str}

-- `_string_list` of a list, from its first entry on
unfoldable pub strings : Items → Result (List String)
strings nil = ok []
strings (cons (str s) xs) = elim (strings xs) [ raise e ↦ raise e | ok ss ↦ ok (s ∷ ss) ]
strings (cons _ xs) = raise program_error

-- `_string_list(current.get(key, []), …)`
unfoldable pub string_list : Option Value → Result (List String)
unfolding strings
string_list none = ok []
string_list (some null) = ok []
string_list (some (list xs)) = strings xs
string_list (some _) = raise program_error

-- the children of a role
unfoldable pub matching : String → Items → List Fields
matching role nil = []
matching role (cons (dict child) xs) =
    let rest = matching role xs in if is_str (get "role" child) role then child ∷ rest else rest
matching role (cons _ xs) = matching role xs

-- `_plain_mapping(matching[0].get("manifest"), …)`, of the one child that there is
unfoldable pub only_manifest : List Fields → Result Fields
only_manifest (child ∷ []) = elim (get "manifest" child) [
  | some (dict manifest) ↦ ok manifest
  | _ ↦ raise program_error
]
only_manifest _ = raise program_error

unfoldable pub child_manifest : Fields → String → Result Fields
unfolding matching only_manifest
child_manifest manifest role = elim (get "children" manifest) [
  | some (list children) ↦ only_manifest (matching role children)
  | _ ↦ raise program_error
]

-- The names that `collect` adds for one manifest.
unfoldable pub own_locks : Fields → Result (List String × List String)
unfolding string_list
own_locks manifest = elim (string_list (get "resources" manifest)) [
  | raise e ↦ raise e
  | ok resources ↦ elim (string_list (get "safety_domains" manifest)) [
    | raise e ↦ raise e
    | ok domains ↦ ok (resources, domains)
  ]
]

abbrev pub both : List String × List String → List String × List String → List String × List String
both (r, d) (s, e) = (r ++ s, d ++ e)

unfoldable pub joined :
    Result (List String × List String)
    → Result (List String × List String)
    → Result (List String × List String)
joined (raise e) rest = raise e
joined (ok own) (raise e) = raise e
joined (ok own) (ok others) = ok (both own others)

-- `_collect_role_branch_locks`: the names in the order in which they are added to the sets. The
-- loop goes on only where it takes a segment off the path.
unfoldable pub collect_role_branch_locks :
    Fields → List String → String → Result (List String × List String)
unfolding own_locks child_manifest joined
collect_role_branch_locks manifest [] physical_id = raise program_error
collect_role_branch_locks manifest (leaf ∷ []) physical_id = joined (own_locks manifest) (
    if is_str (get "kind" manifest) "physical"
    then (if is_str (get "node_id" manifest) physical_id then ok ([], []) else raise program_error)
    else raise program_error)
collect_role_branch_locks manifest (role ∷ next ∷ path) physical_id = joined (own_locks manifest) (
    if is_str (get "kind" manifest) "composite"
    then (elim (child_manifest manifest role) [
      | raise e ↦ raise e
      | ok child ↦ collect_role_branch_locks child (next ∷ path) physical_id
    ])
    else raise program_error)
