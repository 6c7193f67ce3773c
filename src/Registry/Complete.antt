-- ===== src/Registry/Complete.antt =====
-- remote_robot/registry.py: in a graph that `_validate_graph` accepts, `_leaf_paths` ends on each node.
use remote_robot.Prelude.{
  ℕ, zero, suc, ◌≤◌, String, ◌≡◌, refl, Bool, true, ◌||◌, some, List, [], ◌∷◌, ◌++◌, string_eq,
  ==_iff, ◌==◌, contains, length, arith, inl, inr, Bool-cases, contains-sort_by,
}
use remote_robot.Dict
use remote_robot.Dict.{Dict, contains-keys}
use remote_robot.Text.{sort_texts}
use remote_robot.Registry.Model.{Result, ok}
use remote_robot.Registry.Nodes.{ControlNode, physical, composite, ChildRef}
use remote_robot.Registry.Graph.{
  Leaf, check_references, children_of, depth, validate_graph, group_leaves, extend_all, leaf_paths,
}
use remote_robot.Registry.Distinct.{IsDistinct, Within, length-IsDistinct}
use remote_robot.Registry.Acyclic.{ids_of, IsOrdered, >>=-eq-ok, visit_nodes-Grown}

extend_all-ok :
    (leaves : ChildRef → Result (List Leaf)) (cs : List ChildRef)
    → ((c : ChildRef)
        → contains (ids_of cs) c.node_id ≡ true
        → (ls : List Leaf) × (leaves c ≡ ok ls))
    → (ls : List Leaf) × (extend_all leaves cs ≡ ok ls)
unfolding extend_all contains
extend_all-ok leaves [] h = ([], refl)
extend_all-ok leaves (c ∷ cs) h =
    let (here, one) = h c (ground (arith, ==_iff c.node_id c.node_id)) in
    let (rest, others) = extend_all-ok leaves cs (λ d m. h d (ground (arith, m))) in
    (here ++ rest, rw one (rw others refl))

node_paths-ok :
    (nodes : Dict String ControlNode) (xs : List String) (fuel : ℕ) (id : String)
    (prefix : List String) (aliased : Bool) (n : ControlNode)
    → Dict.get nodes id ≡ some n
    → Within (ids_of (children_of n)) xs
    → ((kid : String) (prefix' : List String) (aliased' : Bool)
        → contains xs kid ≡ true
        → (ls : List Leaf) × (leaf_paths nodes fuel kid prefix' aliased' ≡ ok ls))
    → (ls : List Leaf) × (leaf_paths nodes (suc fuel) id prefix aliased ≡ ok ls)
unfolding leaf_paths children_of
node_paths-ok nodes xs fuel id prefix aliased (physical p) there below kids =
    (group_leaves p.node_id prefix aliased p.groups, rw (there, leaf_paths) refl)
node_paths-ok nodes xs fuel id prefix aliased (composite c) there below kids =
    let (ls, all_ok) =
      extend_all-ok
        (λ ref. leaf_paths nodes fuel ref.node_id (prefix ++ ref.role ∷ []) (aliased || ref.alias))
        c.children
        (λ ref kid.
          kids ref.node_id (prefix ++ ref.role ∷ []) (aliased || ref.alias)
            (below ref.node_id kid)) in
    (ls, rw (there, leaf_paths) all_ok)

leaf_paths-ok :
    (nodes : Dict String ControlNode) (ids : List String) (fuel : ℕ) (id : String)
    (prefix : List String) (aliased : Bool)
    → IsOrdered nodes ids
    → length ids ≤ fuel
    → contains ids id ≡ true
    → (ls : List Leaf) × (leaf_paths nodes fuel id prefix aliased ≡ ok ls)
unfolding leaf_paths contains
leaf_paths-ok nodes [] fuel id prefix aliased o l m = absurd (ground (arith, m))
leaf_paths-ok nodes (x ∷ xs) zero id prefix aliased o l m = absurd (omega (arith, l))
leaf_paths-ok nodes (x ∷ xs) (suc fuel) id prefix aliased (next, o) l m =
    elim (Bool-cases (x == id)) [
      | inr other ↦
          leaf_paths-ok nodes xs (suc fuel) id prefix aliased o (omega (arith, l))
            (ground (arith, m, other))
      | inl same ↦ rw (← (==_iff x id).0 same) (
          node_paths-ok nodes xs fuel x prefix aliased next.found next.there next.below
            (λ kid prefix' aliased' k.
              leaf_paths-ok nodes xs fuel kid prefix' aliased' o (omega (arith, l)) k))
    ]

IsOrdered-IsDistinct :
    (nodes : Dict String ControlNode) (ids : List String) → IsOrdered nodes ids → IsDistinct ids
IsOrdered-IsDistinct nodes [] o = tt
IsOrdered-IsDistinct nodes (id ∷ ids) (next, o) = (next.new, IsOrdered-IsDistinct nodes ids o)

IsOrdered-Within :
    (nodes : Dict String ControlNode) (ids : List String)
    → IsOrdered nodes ids
    → Within ids (Dict.keys nodes)
unfolding contains
IsOrdered-Within nodes [] o a m = absurd (ground (arith, m))
IsOrdered-Within nodes (id ∷ ids) (next, o) a m = elim (Bool-cases (id == a)) [
  | inl same ↦ rw (← (==_iff id a).0 same) (ground (arith, next.there, contains-keys nodes id))
  | inr other ↦ IsOrdered-Within nodes ids o a (ground (arith, m, other))
]

-- In a graph that passes the validation, the paths from each node to its groups are found within the
-- fuel: no path comes back to a node.
pub validate_graph-leaf_paths :
    (nodes : Dict String ControlNode) (visited : List String) (id : String) (n : ControlNode)
    → validate_graph nodes ≡ ok visited
    → Dict.get nodes id ≡ some n
    → (prefix : List String) (aliased : Bool)
    → (ls : List Leaf) × (leaf_paths nodes (depth nodes) id prefix aliased ≡ ok ls)
unfolding validate_graph depth sort_texts
validate_graph-leaf_paths nodes visited id n h there prefix aliased =
    let (_, _, searched) = >>=-eq-ok (check_references nodes nodes.entries) _ visited h in
    let (grown, all_ids) =
      visit_nodes-Grown nodes (depth nodes) (sort_texts (Dict.keys nodes)) [] visited searched tt in
    let here = all_ids id (rw (contains-sort_by) (rw (contains-keys nodes id) (rw there refl))) in
    let short =
      length-IsDistinct visited (Dict.keys nodes) (IsOrdered-IsDistinct nodes visited grown.ordered)
        (IsOrdered-Within nodes visited grown.ordered) in
    leaf_paths-ok nodes visited (depth nodes) id prefix aliased grown.ordered (omega (arith, short))
      here
