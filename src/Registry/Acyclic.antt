-- ===== src/Registry/Acyclic.antt =====
-- remote_robot/registry.py: a graph that `_validate_graph` accepts has no cycle: the visited ids are
-- nodes in an order in which the children of each come behind it.
use remote_robot.Prelude.{
  ℕ, zero, suc, String, ◌≡◌, refl, true, false, some, List, [], ◌∷◌, map, string_eq, ==_iff, ◌==◌,
  contains, arith, inl, inr, Bool-cases, Option-cases, set_add,
}
use remote_robot.Dict
use remote_robot.Dict.{Dict, contains-keys}
use remote_robot.Registry.Model.{Result, ok, raise, ◌>>=◌}
use remote_robot.Registry.Nodes.{ControlNode, ChildRef}
use remote_robot.Registry.Graph.{children_of, visit, visit_all, visit_nodes}
use remote_robot.Registry.Distinct.{Within}

pub >>=-eq-ok {κ ℓ} :
    {X : Type κ} {Y : Type ℓ} (r : Result X) (f : X → Result Y) (y : Y)
    → (r >>= f) ≡ ok y
    → (x : X) × (r ≡ ok x) × (f x ≡ ok y)
>>=-eq-ok (ok x) f y h = (x, refl, h)
>>=-eq-ok (raise e) f y h = absurd (ground (arith, h))

-- The ids of children.
abbrev pub ids_of : List ChildRef → List String
ids_of cs = map (λ c. c.node_id) cs

-- Each id is a node whose children come behind it, and no id comes twice.
pub record IsNext (nodes : Dict String ControlNode) (id : String) (behind : List String)
    : Type 0 where
  pub found : ControlNode
  pub there : Dict.get nodes id ≡ some found
  pub below : Within (ids_of (children_of found)) behind
  pub new : contains behind id ≡ false

abbrev pub IsOrdered : Dict String ControlNode → List String → Type 0
IsOrdered nodes [] = Unit
IsOrdered nodes (id ∷ ids) = IsNext nodes id ids × IsOrdered nodes ids

-- What a search leaves: more ids, in order.
pub record Grown (nodes : Dict String ControlNode) (before after : List String) : Type 0 where
  pub ordered : IsOrdered nodes after
  pub more : Within before after

visit_all-Grown :
    (nodes : Dict String ControlNode) (search : String → List String → Result (List String))
    → ((id : String) (v v' : List String)
        → search id v ≡ ok v'
        → IsOrdered nodes v
        → Grown nodes v v' × (contains v' id ≡ true))
    → (cs : List ChildRef) (v v' : List String) → visit_all search cs v ≡ ok v'
    → IsOrdered nodes v
    → Grown nodes v v' × Within (ids_of cs) v'
unfolding visit_all contains
visit_all-Grown nodes search post [] v v' h o =
    let same : v ≡ v' = ground (arith, h) in
    rw (← same) (record { ordered = o; more = λ a m. m }, (λ a m. absurd (ground (arith, m))))
visit_all-Grown nodes search post (c ∷ cs) v v' h o =
    let (w, one, rest) = >>=-eq-ok (search c.node_id v) _ v' h in
    let (grown, here) = post c.node_id v w one o in
    let (grown', others) = visit_all-Grown nodes search post cs w v' rest grown.ordered in
    (
      record { ordered = grown'.ordered; more = λ a m. grown'.more a (grown.more a m) },
      (λ a m. elim (Bool-cases (c.node_id == a)) [
        | inl same ↦ rw (← (==_iff c.node_id a).0 same) (grown'.more c.node_id here)
        | inr other ↦ others a (ground (arith, m, other))
      ]),
    )

add-Grown :
    (nodes : Dict String ControlNode) (id : String) (n : ControlNode) (v w : List String)
    → Dict.get nodes id ≡ some n
    → Grown nodes v w
    → Within (ids_of (children_of n)) w
    → Grown nodes v (set_add id w) × (contains (set_add id w) id ≡ true)
unfolding set_add contains
add-Grown nodes id n v w there grown kids = elim (Bool-cases (contains w id)) [
  | inl old ↦ rw (old, set_add) (grown, old)
  | inr fresh ↦
      rw (fresh, set_add)
        (
          record {
            ordered =
                (record { found = n; there = there; below = kids; new = fresh }, grown.ordered);
            more = λ a m. ground (arith, grown.more a m);
          },
          ground (arith, ==_iff id id),
        )
]

visit-Grown :
    (nodes : Dict String ControlNode) (fuel : ℕ) (visiting : List String) (id : String)
    (v v' : List String)
    → visit nodes fuel visiting id v ≡ ok v'
    → IsOrdered nodes v
    → Grown nodes v v' × (contains v' id ≡ true)
unfolding visit set_add contains
visit-Grown nodes zero visiting id v v' h o = absurd (ground (arith, h))
visit-Grown nodes (suc fuel) visiting id v v' h o = elim (Bool-cases (contains visiting id)) [
  | inl cycle ↦ absurd (ground (arith, rw (cycle, visit) at h))
  | inr new ↦
      let h1 = rw (new, visit) at h in
      elim (Bool-cases (contains v id)) [
        | inl old ↦
            let same : v ≡ v' = ground (arith, rw (old, visit) at h1) in
            rw (← same) (record { ordered = o; more = λ a m. m }, old)
        | inr fresh ↦
            let h2 = rw (fresh, visit) at h1 in
            elim (Option-cases (Dict.get nodes id)) [
              | inl missing ↦ absurd (ground (arith, rw missing at h2))
              | inr (n, there) ↦
                  let (w, one, last) =
                    >>=-eq-ok (visit_all (visit nodes fuel (id ∷ visiting)) (children_of n) v) _ v'
                      (rw there at h2) in
                  let (grown, kids) =
                    visit_all-Grown nodes (visit nodes fuel (id ∷ visiting))
                      (visit-Grown nodes fuel (id ∷ visiting)) (children_of n) v w one o in
                  let same : set_add id w ≡ v' = ground (arith, last) in
                  rw (← same) (add-Grown nodes id n v w there grown kids)
            ]
      ]
]

pub visit_nodes-Grown :
    (nodes : Dict String ControlNode) (fuel : ℕ) (ids v v' : List String)
    → visit_nodes nodes fuel ids v ≡ ok v'
    → IsOrdered nodes v
    → Grown nodes v v' × Within ids v'
unfolding visit_nodes contains
visit_nodes-Grown nodes fuel [] v v' h o =
    let same : v ≡ v' = ground (arith, h) in
    rw (← same) (record { ordered = o; more = λ a m. m }, (λ a m. absurd (ground (arith, m))))
visit_nodes-Grown nodes fuel (id ∷ ids) v v' h o =
    let (w, one, rest) = >>=-eq-ok (visit nodes fuel [] id v) _ v' h in
    let (grown, here) = visit-Grown nodes fuel [] id v w one o in
    let (grown', others) = visit_nodes-Grown nodes fuel ids w v' rest grown.ordered in
    (
      record { ordered = grown'.ordered; more = λ a m. grown'.more a (grown.more a m) },
      (λ a m. elim (Bool-cases (id == a)) [
        | inl same ↦ rw (← (==_iff id a).0 same) (grown'.more id here)
        | inr other ↦ others a (ground (arith, m, other))
      ]),
    )
