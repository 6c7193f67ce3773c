-- ===== src/Registry/Paths.antt =====
-- remote_robot/registry.py: a role path that resolves is one of the paths that `_leaf_paths` lists.
use mathlib.Core.Path.{subst}
use mathlib.Core.List.{append_assoc}
use remote_robot.Prelude.{
  ℕ, zero, suc, String, ◌≡◌, refl, ap, ◌∙◌, Bool, false, not, ◌||◌, ◌⊎◌, some, List, [], ◌∷◌, ◌++◌,
  string_eq, ==_iff, ◌==◌, arith, inl, inr, Bool-cases, Option-cases,
}
use remote_robot.Dict
use remote_robot.Dict.{Dict}
use remote_robot.Text.{split_dots}
use remote_robot.Journal.Data.{ends_with}
use remote_robot.Registry.Model.{Result, ok, raise, require, registry_error, ActuatorGroupSpec}
use remote_robot.Registry.Nodes.{
  ControlNode, physical, composite, PhysicalNode, ChildRef, ResolvedGroup, find_group, find_child,
  group, child,
}
use remote_robot.Registry.Graph.{
  Leaf, node, found, none_empty, starts_dot, resolve_from, resolve_group, join_dots, group_leaves,
  extend_all, leaf_paths,
}
use remote_robot.Registry.Dots.{join_dots-split_dots}
use remote_robot.Registry.Acyclic.{>>=-eq-ok}

-- The leaf is one of the list.
abbrev pub Listed : List Leaf → Leaf → Type 0
Listed [] l = ⊥
Listed (x ∷ xs) l = (x ≡ l) ⊎ Listed xs l

Listed-append : (xs ys : List Leaf) (l : Leaf) → Listed xs l ⊎ Listed ys l → Listed (xs ++ ys) l
Listed-append [] ys l (inl h) = absurd h
Listed-append [] ys l (inr h) = h
Listed-append (x ∷ xs) ys l (inl (inl h)) = inl h
Listed-append (x ∷ xs) ys l (inl (inr h)) = inr (Listed-append xs ys l (inl h))
Listed-append (x ∷ xs) ys l (inr h) = inr (Listed-append xs ys l (inr h))

-- The leaf of a group by a path.
abbrev leaf : String → String → List String → Bool → Leaf
leaf node_id group_id names aliased = record {
  node_id = node_id;
  group_id = group_id;
  path = join_dots names;
  aliased = aliased;
}

find_group-Listed :
    (group_id node_id : String) (prefix : List String) (aliased : Bool)
    (gs : List ActuatorGroupSpec) (g : ActuatorGroupSpec)
    → find_group group_id gs ≡ ok g
    → Listed
        (group_leaves node_id prefix aliased gs)
        (leaf node_id g.group_id (prefix ++ group_id ∷ []) aliased)
unfolding find_group group_leaves
find_group-Listed group_id node_id prefix aliased [] g h = absurd (ground (arith, h))
find_group-Listed group_id node_id prefix aliased (x ∷ gs) g h =
    elim (Bool-cases (x.group_id == group_id)) [
      | inl this ↦
          let same : x ≡ g = ground (arith, h, this) in
          let named : x.group_id ≡ group_id = (==_iff x.group_id group_id).0 this in
          inl (rw (← same) (rw (← named) refl))
      | inr other ↦
          inr (find_group-Listed group_id node_id prefix aliased gs g (ground (arith, h, other)))
    ]

find_child-Listed :
    (role : String) (leaves : ChildRef → Result (List Leaf)) (cs : List ChildRef) (c : ChildRef)
    (ls : List Leaf)
    → find_child role cs ≡ ok c
    → extend_all leaves cs ≡ ok ls
    → (c.role ≡ role)
      × ((here : List Leaf) × (leaves c ≡ ok here) × ((l : Leaf) → Listed here l → Listed ls l))
unfolding find_child extend_all
find_child-Listed role leaves [] c ls h e = absurd (ground (arith, h))
find_child-Listed role leaves (x ∷ cs) c ls h e =
    let (here, one, rest) = >>=-eq-ok (leaves x) _ ls e in
    let (others, more, last) = >>=-eq-ok (extend_all leaves cs) _ ls rest in
    let joined : here ++ others ≡ ls = ground (arith, last) in
    elim (Bool-cases (x.role == role)) [
      | inl this ↦
          let same : x ≡ c = ground (arith, h, this) in
          rw (← same) (
            (==_iff x.role role).0 this,
            (here, one, (λ l m. rw (← joined) (Listed-append here others l (inl m)))),
          )
      | inr other ↦
          let (named, (found_here, lists, passes)) =
            find_child-Listed role leaves cs c others (ground (arith, h, other)) more in
          (
            named,
            (
              found_here,
              lists,
              (λ l m. rw (← joined) (Listed-append here others l (inr (passes l m)))),
            ),
          )
    ]

pub found-ok {ℓ} : {A : Type ℓ} (r : Result A) (a : A) → found r ≡ ok a → r ≡ ok a
unfolding found
found-ok (ok x) a h = h
found-ok (raise e) a h = absurd (ground (arith, h))

pub node-ok :
    (nodes : Dict String ControlNode) (node_id : String) (n : ControlNode)
    → node nodes node_id ≡ ok n
    → Dict.get nodes node_id ≡ some n
unfolding node
node-ok nodes node_id n h = elim (Option-cases (Dict.get nodes node_id)) [
  | inl missing ↦ absurd (ground (arith, rw (missing, node) at h))
  | inr (m, there) ↦ let same : m ≡ n = ground (arith, rw (there, node) at h) in rw (← same) there
]

resolve_from-Listed :
    (nodes : Dict String ControlNode) (fuel : ℕ) (node_id : String) (n : ControlNode)
    (prefix names : List String) (aliased : Bool) (p : PhysicalNode) (g : ActuatorGroupSpec)
    (ls : List Leaf)
    → Dict.get nodes node_id ≡ some n
    → resolve_from nodes n names ≡ ok (p, g)
    → leaf_paths nodes fuel node_id prefix aliased ≡ ok ls
    → (a : Bool) × Listed ls (leaf p.node_id g.group_id (prefix ++ names) a)
unfolding resolve_from leaf_paths
resolve_from-Listed nodes zero node_id n prefix names aliased p g ls there h e =
    absurd (ground (arith, e))
resolve_from-Listed nodes (suc fuel) node_id (physical q) prefix [] aliased p g ls there h e =
    absurd (ground (arith, h))
resolve_from-Listed nodes (suc fuel) node_id (physical q) prefix (x ∷ y ∷ names) aliased p g ls
      there h e =
    absurd (ground (arith, h))
resolve_from-Listed nodes (suc fuel) node_id (physical q) prefix (name ∷ []) aliased p g ls there h
      e =
    let (g', found_group, last) = >>=-eq-ok (found (group q name)) _ (p, g) h in
    let same_node : q ≡ p = ground (arith, last) in
    let same_group : g' ≡ g = ground (arith, last) in
    let listed : group_leaves q.node_id prefix aliased q.groups ≡ ls =
      ground (arith, rw (there, leaf_paths) at e) in
    (
      aliased,
      rw (← listed) (
          rw (← same_node) (
            rw (← same_group) (
              find_group-Listed name q.node_id prefix aliased q.groups g'
                (found-ok (group q name) g' found_group)))),
    )
resolve_from-Listed nodes (suc fuel) node_id (composite c) prefix [] aliased p g ls there h e =
    absurd (ground (arith, h))
resolve_from-Listed nodes (suc fuel) node_id (composite c) prefix (role ∷ names) aliased p g ls
      there h e =
    let (ref, found_child, rest) = >>=-eq-ok (found (child c role)) _ (p, g) h in
    let (next, found_node, deeper) = >>=-eq-ok (node nodes ref.node_id) _ (p, g) rest in
    let leaves : ChildRef → Result (List Leaf) =
      λ r. leaf_paths nodes fuel r.node_id (prefix ++ r.role ∷ []) (aliased || r.alias) in
    let (named, (here, lists, passes)) =
      find_child-Listed role leaves c.children ref ls (found-ok (child c role) ref found_child)
        (rw (there, leaf_paths) at e) in
    let (a, m) =
      resolve_from-Listed nodes fuel ref.node_id next (prefix ++ ref.role ∷ []) names
        (aliased || ref.alias) p g here (node-ok nodes ref.node_id next found_node) deeper lists in
    let path : (prefix ++ ref.role ∷ []) ++ names ≡ prefix ++ role ∷ names =
      append_assoc prefix (ref.role ∷ []) names ∙ ap (λ r. prefix ++ r ∷ names) named in
    (a, passes _ (subst (λ ns. Listed here (leaf p.node_id g.group_id ns a)) path m))

relabel :
    (ls : List Leaf) (node_id node_id' group_id group_id' path path' : String) (a : Bool)
    → node_id ≡ node_id'
    → group_id ≡ group_id'
    → path ≡ path'
    → Listed ls (record { node_id = node_id; group_id = group_id; path = path; aliased = a })
    → Listed ls (record { node_id = node_id'; group_id = group_id'; path = path'; aliased = a })
relabel ls node_id node_id' group_id group_id' path path' a n g p m = rw (← n, ← g, ← p) m

-- Where a role path resolves, it is among the paths from the root to its groups, with the node and the
-- group that it resolves to.
pub resolve_group-leaf_paths :
    (nodes : Dict String ControlNode) (fuel : ℕ) (root_id role_path : String) (r : ResolvedGroup)
    (ls : List Leaf)
    → resolve_group nodes root_id role_path ≡ ok r
    → leaf_paths nodes fuel root_id [] false ≡ ok ls
    → (a : Bool) × Listed ls (record {
      node_id = r.physical_node_id;
      group_id = r.group_id;
      path = role_path;
      aliased = a;
    })
unfolding resolve_group
resolve_group-leaf_paths nodes fuel root_id role_path r ls h e =
    let (_, _, h1) =
      >>=-eq-ok
        (require (not (role_path == "" || starts_dot role_path || ends_with "." role_path))
          registry_error)
        _ r h in
    let (_, _, h2) =
      >>=-eq-ok (require (none_empty (split_dots role_path)) registry_error) _ r h1 in
    let (root, at_root, h3) = >>=-eq-ok (node nodes root_id) _ r h2 in
    let (found, resolved, last) =
      >>=-eq-ok (resolve_from nodes root (split_dots role_path)) _ r h3 in
    let (a, m) =
      resolve_from-Listed nodes fuel root_id root [] (split_dots role_path) false (found.0)
        (found.1) ls (node-ok nodes root_id root at_root) resolved e in
    let physical_id : found.0.node_id ≡ r.physical_node_id = ground (arith, last) in
    let group_id : found.1.group_id ≡ r.group_id = ground (arith, last) in
    (a, relabel ls _ _ _ _ _ _ a physical_id group_id (join_dots-split_dots role_path) m)
