-- ===== src/Registry/Ends.antt =====
-- remote_robot/registry.py, `_validate_graph`: the search ends, whatever the nodes are.
use remote_robot.Prelude.{
  ℕ, zero, suc, ◌+◌, ◌<◌, String, ◌≡◌, ◌≢◌, some, List, [], ◌∷◌, string_eq, ==_iff, contains,
  length, arith, inl, inr, Bool-cases, Option-cases,
}
use remote_robot.Dict
use remote_robot.Dict.{Dict, contains-keys}
use remote_robot.Text.{sort_texts}
use remote_robot.Registry.Model.{
  Result, ok, raise, ◌>>=◌, registry_error, value_error, key_error, out_of_fuel,
}
use remote_robot.Registry.Nodes.{ControlNode, ChildRef}
use remote_robot.Registry.Graph.{
  check_children, check_references, children_of, visit, visit_all, visit_nodes, depth,
  validate_graph,
}
use remote_robot.Registry.Distinct.{IsDistinct, Within, length-IsDistinct}

-- The fuel is enough.
abbrev Ends {ℓ} : {A : Type ℓ} → Result A → Type 0
Ends (ok a) = Unit
Ends (raise out_of_fuel) = ⊥
Ends (raise _) = Unit

Ends->>= {ℓ κ} :
    {A : Type ℓ} {B : Type κ} (a : Result A) (f : A → Result B)
    → Ends a
    → ((x : A) → Ends (f x))
    → Ends (a >>= f)
Ends->>= (ok x) f e h = h x
Ends->>= (raise registry_error) f e h = tt
Ends->>= (raise value_error) f e h = tt
Ends->>= (raise key_error) f e h = tt
Ends->>= (raise out_of_fuel) f e h = e

visit_all-Ends :
    (search : String → List String → Result (List String)) (cs : List ChildRef)
    (visited : List String)
    → ((node_id : String) (v : List String) → Ends (search node_id v))
    → Ends (visit_all search cs visited)
unfolding visit_all
visit_all-Ends search [] visited h = tt
visit_all-Ends search (c ∷ cs) visited h =
    Ends->>= (search c.node_id visited) _ (h c.node_id visited)
      (λ more. visit_all-Ends search cs more h)

Within-cons :
    (nodes : Dict String ControlNode) (visiting : List String) (node_id : String) (n : ControlNode)
    → Within visiting (Dict.keys nodes)
    → Dict.get nodes node_id ≡ some n
    → Within (node_id ∷ visiting) (Dict.keys nodes)
unfolding contains
Within-cons nodes visiting node_id n w there a m =
    ground (arith, m, w a, ==_iff node_id a, there, contains-keys nodes node_id)

visit-Ends :
    (nodes : Dict String ControlNode) (fuel : ℕ) (visiting : List String) (node_id : String)
    (visited : List String)
    → IsDistinct visiting
    → Within visiting (Dict.keys nodes)
    → length (Dict.keys nodes) < fuel + length visiting
    → Ends (visit nodes fuel visiting node_id visited)
unfolding visit
visit-Ends nodes zero visiting node_id visited d w l =
    absurd (omega (arith, l, length-IsDistinct visiting (Dict.keys nodes) d w))
visit-Ends nodes (suc fuel) visiting node_id visited d w l =
    elim (Bool-cases (contains visiting node_id)) [
      | inl cycle ↦ rw (cycle, visit) tt
      | inr new ↦ elim (Bool-cases (contains visited node_id)) [
        | inl old ↦ rw (new, visit) (rw (old, visit) tt)
        | inr fresh ↦ elim (Option-cases (Dict.get nodes node_id)) [
          | inl missing ↦ rw (new, visit) (rw (fresh, visit) (rw (missing, visit) tt))
          | inr (n, there) ↦
              rw (new, visit)
                (rw (fresh, visit)
                  (rw (there, visit)
                    (Ends->>=
                      (visit_all (visit nodes fuel (node_id ∷ visiting)) (children_of n) visited) _
                      (visit_all-Ends (visit nodes fuel (node_id ∷ visiting)) (children_of n)
                        visited
                        (λ child v.
                          visit-Ends nodes fuel (node_id ∷ visiting) child v (new, d)
                            (Within-cons nodes visiting node_id n w there) (omega (arith, l))))
                      (λ more. tt))))
        ]
      ]
    ]

visit_nodes-Ends :
    (nodes : Dict String ControlNode) (ids visited : List String)
    → Ends (visit_nodes nodes (depth nodes) ids visited)
unfolding visit_nodes depth contains
visit_nodes-Ends nodes [] visited = tt
visit_nodes-Ends nodes (node_id ∷ ids) visited =
    Ends->>= (visit nodes (depth nodes) [] node_id visited) _
      (visit-Ends nodes (depth nodes) [] node_id visited tt (λ a m. absurd (ground (arith, m)))
        (omega arith))
      (λ more. visit_nodes-Ends nodes ids more)

check_children-Ends :
    (nodes : Dict String ControlNode) (cs : List ChildRef) → Ends (check_children nodes cs)
unfolding check_children
check_children-Ends nodes [] = tt
check_children-Ends nodes (c ∷ cs) = elim (Option-cases (Dict.get nodes c.node_id)) [
  | inl missing ↦ rw (missing, check_children) tt
  | inr (n, there) ↦ rw (there, check_children) (check_children-Ends nodes cs)
]

check_references-Ends :
    (nodes : Dict String ControlNode) (entries : List (String × ControlNode))
    → Ends (check_references nodes entries)
unfolding check_references
check_references-Ends nodes [] = tt
check_references-Ends nodes ((node_id, n) ∷ rest) =
    Ends->>= (check_children nodes (children_of n)) _ (check_children-Ends nodes (children_of n))
      (λ _. check_references-Ends nodes rest)

Ends-ne : {A : Type 0} (r : Result A) → Ends r → r ≢ raise out_of_fuel
Ends-ne r e h = rw h at e

-- The search for cycles ends, whatever the nodes and their children are: one more step than there are
-- nodes is enough for the path that is being visited.
pub validate_graph_ends :
    (nodes : Dict String ControlNode) → validate_graph nodes ≢ raise out_of_fuel
unfolding validate_graph
validate_graph_ends nodes = Ends-ne (validate_graph nodes) (
    Ends->>= (check_references nodes nodes.entries) _ (check_references-Ends nodes nodes.entries)
      (λ _. visit_nodes-Ends nodes (sort_texts (Dict.keys nodes)) []))
