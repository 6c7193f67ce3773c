-- ===== src/Registry/Aliases.antt =====
-- remote_robot/registry.py: what the checks on aliases and on the scopes of an identity ensure.
use mathlib.Core.List.{append_assoc, append-nil}
use remote_robot.Prelude.{
  ◌≤◌, String, ◌≡◌, refl, sym, ap, ◌∙◌, ◌≢◌, Bool, true, false, not, ◌&&◌, ◌⊎◌, some, List, [], ◌∷◌,
  ◌++◌, string_eq, nat_eq, ==_iff, ◌==◌, contains, is_some, length, keep, arith, inl, inr,
  Bool-cases, if◌then◌else◌,
}
use remote_robot.Dict
use remote_robot.Dict.{Dict}
use remote_robot.Registry.Model.{ok, require, registry_error}
use remote_robot.Registry.Nodes.{ControlNode, IdentitySpec, ResolvedGroup}
use remote_robot.Registry.Graph.{Leaf, leaf_paths, depth, resolve_group}
use remote_robot.Registry.Scopes.{
  ByLeaf, add_path, add_paths, is_unambiguous, check_paths, validate_composite_aliases,
  partition_dot, check_role, check_control, check_controls, check_scopes, validate_identity_scopes,
}
use remote_robot.Registry.Acyclic.{>>=-eq-ok}

-- The paths to a group, with their alias flags, in their order.
unfoldable pub paths_to : List Leaf → String → String → List (String × Bool)
paths_to [] node_id group_id = []
paths_to (l ∷ ls) node_id group_id =
    let rest = paths_to ls node_id group_id in
    if l.node_id == node_id && l.group_id == group_id then (l.path, l.aliased) ∷ rest else rest

-- What `by_leaf` holds for a group.
entry_of : ByLeaf → String → String → List (String × Bool)
entry_of [] node_id group_id = []
entry_of (((n, g), paths) ∷ rest) node_id group_id =
    let others = entry_of rest node_id group_id in
    if n == node_id && g == group_id then paths else others

entry_of-add_path :
    (b : ByLeaf) (l : Leaf) (node_id group_id : String)
    → entry_of (add_path b l) node_id group_id
      ≡ entry_of b node_id group_id ++ paths_to (l ∷ []) node_id group_id
unfolding entry_of add_path paths_to
entry_of-add_path [] l node_id group_id = refl
entry_of-add_path (((n, g), paths) ∷ rest) l node_id group_id = ground (
  arith,
  entry_of-add_path rest l node_id group_id,
  ==_iff n l.node_id,
  ==_iff g l.group_id,
  ==_iff n node_id,
  ==_iff g group_id,
  ==_iff l.node_id node_id,
  ==_iff l.group_id group_id,
  append-nil (entry_of rest node_id group_id),
  append-nil paths,
)

paths_to-cons :
    (l : Leaf) (ls : List Leaf) (node_id group_id : String)
    → paths_to (l ∷ []) node_id group_id ++ paths_to ls node_id group_id
      ≡ paths_to (l ∷ ls) node_id group_id
unfolding paths_to
paths_to-cons l ls node_id group_id =
    elim (Bool-cases (l.node_id == node_id && l.group_id == group_id)) [
      | inl this ↦ rw this refl
      | inr other ↦ rw other refl
    ]

entry_of-add_paths :
    (ls : List Leaf) (b : ByLeaf) (node_id group_id : String)
    → entry_of (add_paths ls b) node_id group_id
      ≡ entry_of b node_id group_id ++ paths_to ls node_id group_id
unfolding add_paths paths_to
entry_of-add_paths [] b node_id group_id = sym (append-nil (entry_of b node_id group_id))
entry_of-add_paths (l ∷ ls) b node_id group_id =
    entry_of-add_paths ls (add_path b l) node_id group_id
    ∙ (ap (λ ps. ps ++ paths_to ls node_id group_id) (entry_of-add_path b l node_id group_id)
        ∙ (append_assoc (entry_of b node_id group_id) (paths_to (l ∷ []) node_id group_id)
              (paths_to ls node_id group_id)
            ∙ ap (λ ps. entry_of b node_id group_id ++ ps) (paths_to-cons l ls node_id group_id)))

require-true : (b : Bool) {u : Unit {0}} → require b registry_error ≡ ok u → b ≡ true
require-true true h = refl
require-true false h = absurd (ground (arith, h))

check_paths-entry_of :
    (b : ByLeaf) (node_id group_id : String)
    → check_paths b ≡ ok tt
    → (is_unambiguous (entry_of b node_id group_id) ≡ true) ⊎ (entry_of b node_id group_id ≡ [])
unfolding check_paths entry_of
check_paths-entry_of [] node_id group_id h = inr refl
check_paths-entry_of (((n, g), paths) ∷ rest) node_id group_id h =
    let (_, one, others) = >>=-eq-ok (require (is_unambiguous paths) registry_error) _ tt h in
    elim (Bool-cases (n == node_id && g == group_id)) [
      | inl this ↦ inl (rw this (require-true (is_unambiguous paths) one))
      | inr other ↦ rw other (check_paths-entry_of rest node_id group_id others)
    ]

one_primary :
    (paths : List (String × Bool))
    → is_unambiguous paths ≡ true
    → 2 ≤ length paths
    → length (keep (λ p. not p.1) paths) ≡ 1
unfolding is_unambiguous
one_primary paths h two = ground (arith, h, two)

-- In a composite node that passes the check, a group that is reached by two paths or more is reached
-- by exactly one path that is not an alias.
pub validate_composite_aliases_lem :
    (nodes : Dict String ControlNode) (node_id : String) (ls : List Leaf)
    → validate_composite_aliases nodes node_id ≡ ok tt
    → leaf_paths nodes (depth nodes) node_id [] false ≡ ok ls
    → (physical_id group_id : String) → 2 ≤ length (paths_to ls physical_id group_id)
    → length (keep (λ p. not p.1) (paths_to ls physical_id group_id)) ≡ 1
unfolding validate_composite_aliases entry_of paths_to
validate_composite_aliases_lem nodes node_id ls h e physical_id group_id two =
    let (ls', found, checked) =
      >>=-eq-ok (leaf_paths nodes (depth nodes) node_id [] false) _ tt h in
    let same : ls' ≡ ls = ground (arith, found, e) in
    let held : entry_of (add_paths ls' []) physical_id group_id ≡ paths_to ls physical_id group_id =
      entry_of-add_paths ls' [] physical_id group_id
      ∙ ap (λ x. paths_to x physical_id group_id) same in
    elim (check_paths-entry_of (add_paths ls' []) physical_id group_id checked) [
      | inl good ↦ one_primary (paths_to ls physical_id group_id) (rw held at good) two
      | inr nothing ↦ absurd (omega (arith, two, ap (λ ps. length ps) (sym held ∙ nothing)))
    ]

check_controls-contains :
    (nodes : Dict String ControlNode) (values : List String) (value : String)
    → check_controls nodes values ≡ ok tt
    → contains values value ≡ true
    → check_control nodes value ≡ ok tt
unfolding check_controls contains
check_controls-contains nodes [] value h m = absurd (ground (arith, m))
check_controls-contains nodes (x ∷ values) value h m =
    let (_, one, others) = >>=-eq-ok (check_control nodes x) _ tt h in
    elim (Bool-cases (x == value)) [
      | inl same ↦ rw (← (==_iff x value).0 same) one
      | inr other ↦ check_controls-contains nodes values value others (ground (arith, m, other))
    ]

check_control-resolves :
    (nodes : Dict String ControlNode) (value role_path : String)
    → check_control nodes value ≡ ok tt
    → value ≢ "*"
    → (partition_dot value).1 ≡ some role_path
    → role_path ≢ "*"
    → (r : ResolvedGroup) × (resolve_group nodes (partition_dot value).0 role_path ≡ ok r)
unfolding check_control check_role
check_control-resolves nodes value role_path h plain split named =
    elim (Bool-cases (value == "*")) [
      | inl star ↦ absurd (plain ((==_iff value "*").0 star))
      | inr other ↦
          let (_, _, role) =
            >>=-eq-ok (require (is_some (Dict.get nodes (partition_dot value).0)) registry_error) _
              tt (rw (other, check_control) at h) in
          elim (Bool-cases (role_path == "*")) [
            | inl star ↦ absurd (named ((==_iff role_path "*").0 star))
            | inr path ↦
                let (r, resolved, _) =
                  >>=-eq-ok (resolve_group nodes (partition_dot value).0 role_path) _ tt
                    (rw (path, check_role) at (rw split at role)) in
                (r, resolved)
          ]
    ]

-- A scope of an identity that passes the check, of a root and a role path, names a group: the path
-- resolves.
pub validate_identity_scopes_lem :
    (nodes : Dict String ControlNode) (i : IdentitySpec) (value role_path : String)
    → validate_identity_scopes nodes i ≡ ok tt
    → contains i.control value ≡ true
    → value ≢ "*"
    → (partition_dot value).1 ≡ some role_path
    → role_path ≢ "*"
    → (r : ResolvedGroup) × (resolve_group nodes (partition_dot value).0 role_path ≡ ok r)
unfolding validate_identity_scopes
validate_identity_scopes_lem nodes i value role_path h m plain split named =
    let (_, _, h1) = >>=-eq-ok (check_scopes nodes i.discover) _ tt h in
    let (_, _, h2) = >>=-eq-ok (check_scopes nodes i.observe) _ tt h1 in
    let (_, _, h3) = >>=-eq-ok (check_scopes nodes i.emergency_stop) _ tt h2 in
    check_control-resolves nodes value role_path
      (check_controls-contains nodes i.control value h3 m) plain split named
