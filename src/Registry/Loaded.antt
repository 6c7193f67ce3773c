-- ===== src/Registry/Loaded.antt =====
-- remote_robot/registry.py, `load`: what holds of a registry that is loaded.
use mathlib.Core.Path.{subst}
use remote_robot.Prelude.{
  ◌++◌, ℕ, ℤ, String, ◌≡◌, sym, ap, not, some, List, [], ◌∷◌, string_eq, ==_iff, ◌==◌, is_some,
  arith, inl, inr, Bool-cases,
}
use remote_robot.Dict
use remote_robot.Dict.{Dict, get-put, get-empty, contains-keys}
use remote_robot.Text.{sort_texts}
use remote_robot.Value.{Value, Fields, get}
use remote_robot.Registry.Model.{Letters, RegistryError, ok, raise, ◌>>=◌, require, registry_error}
use remote_robot.Registry.Nodes.{
  ControlNode, physical, composite, PhysicalNode, CompositeNode, check_physical, check_composite,
}
use remote_robot.Registry.Graph.{CapabilityRegistry, found}
use remote_robot.Registry.Scopes.{validate}
use remote_robot.Registry.Parse.{
  check_keys, item, mapping_of, list_of, str_of, int_of, bool_of, optional_strings, optional,
  parse_groups, parse_watchdog,
}
use remote_robot.Registry.ParseNode.{
  common_required, common_optional, connection_of, parse_children, parse_physical, parse_composite,
}
use remote_robot.Registry.Load.{
  str_in, parse_kind, parse_node, id_of, load_nodes, load_identities, check_manifests,
  make_registry, load, is_version, has_entries,
}
use remote_robot.Registry.Acyclic.{>>=-eq-ok}
use remote_robot.Registry.Paths.{found-ok}

ok-ne-raise : {A : Type 0} {x : A} {e : RegistryError} → ok x ≡ raise e → ⊥
ok-ne-raise h = ground (arith, h)

ok-same : {A : Type 0} {x y : A} → ok x ≡ ok y → x ≡ y
ok-same {A} {x} {y} h = ap (λ r. elim r [ ok a ↦ a | raise e ↦ x ]) h

-- The node passes the checks of its class.
abbrev pub Passes : Letters → ControlNode → Type 0
Passes l (physical p) = check_physical l p ≡ ok tt
Passes l (composite c) = check_composite l c ≡ ok tt

parse_composite-Passes :
    (l : Letters) (table : Fields) (n : ControlNode) → parse_composite l table ≡ ok n → Passes l n
unfolding parse_composite
parse_composite-Passes l table n h =
    let (_, _, h1) =
      >>=-eq-ok
        (check_keys table (common_required ++ "children" ∷ [])
          (common_optional ++ "max_start_skew_us" ∷ []))
        _ n h in
    let (raw_children, _, h2) = >>=-eq-ok (item "children" table >>= list_of) _ n h1 in
    let (children, _, h3) = >>=-eq-ok (parse_children l raw_children) _ n h2 in
    let (id, _, h4) = >>=-eq-ok (item "id" table >>= str_of) _ n h3 in
    let (revision, _, h5) = >>=-eq-ok (item "revision" table >>= int_of) _ n h4 in
    let (exposed, _, h6) = >>=-eq-ok (item "exposed_as_run_root" table >>= bool_of) _ n h5 in
    let (resources, _, h7) = >>=-eq-ok (optional_strings table "resources") _ n h6 in
    let (safety_domains, _, h8) = >>=-eq-ok (optional_strings table "safety_domains") _ n h7 in
    let (safety_policies, _, h9) = >>=-eq-ok (optional_strings table "safety_policies") _ n h8 in
    let (cross, _, h10) = >>=-eq-ok (item "cross_collision_checked" table >>= bool_of) _ n h9 in
    let (max_start_skew_us, _, h11) =
      >>=-eq-ok (optional int_of (get "max_start_skew_us" table)) _ n h10 in
    let made : CompositeNode = record {
      node_id = id;
      revision = revision;
      exposed_as_run_root = exposed;
      children = children;
      resources = resources;
      safety_domains = safety_domains;
      safety_policies = safety_policies;
      cross_collision_checked = cross;
      max_start_skew_us = max_start_skew_us;
    } in
    let (tt, checked, last) = >>=-eq-ok (found (check_composite l made)) _ n h11 in
    let same : composite made ≡ n = ok-same last in
    subst (Passes l) same (found-ok (check_composite l made) tt checked)

parse_physical-Passes :
    (l : Letters) (to_float : ℤ → ℕ) (table : Fields) (n : ControlNode)
    → parse_physical l to_float table ≡ ok n
    → Passes l n
unfolding parse_physical
parse_physical-Passes l to_float table n h =
    let (_, _, h1) =
      >>=-eq-ok
        (check_keys table
          (common_required
            ++ "adapter" ∷ "adapter_revision" ∷ "configuration_revision" ∷ "groups" ∷ "watchdog"
              ∷ [])
          (common_optional ++ "connection" ∷ []))
        _ n h in
    let (raw_groups, _, h2) = >>=-eq-ok (item "groups" table >>= list_of) _ n h1 in
    let (groups, _, h3) = >>=-eq-ok (parse_groups l to_float raw_groups) _ n h2 in
    let (connection, _, h4) = >>=-eq-ok (connection_of (get "connection" table)) _ n h3 in
    let (id, _, h5) = >>=-eq-ok (item "id" table >>= str_of) _ n h4 in
    let (revision, _, h6) = >>=-eq-ok (item "revision" table >>= int_of) _ n h5 in
    let (exposed, _, h7) = >>=-eq-ok (item "exposed_as_run_root" table >>= bool_of) _ n h6 in
    let (adapter, _, h8) = >>=-eq-ok (item "adapter" table >>= str_of) _ n h7 in
    let (adapter_revision, _, h9) = >>=-eq-ok (item "adapter_revision" table >>= int_of) _ n h8 in
    let (configuration_revision, _, h10) =
      >>=-eq-ok (item "configuration_revision" table >>= int_of) _ n h9 in
    let (resources, _, h11) = >>=-eq-ok (optional_strings table "resources") _ n h10 in
    let (safety_domains, _, h12) = >>=-eq-ok (optional_strings table "safety_domains") _ n h11 in
    let (safety_policies, _, h13) = >>=-eq-ok (optional_strings table "safety_policies") _ n h12 in
    let (cross, _, h14) = >>=-eq-ok (item "cross_collision_checked" table >>= bool_of) _ n h13 in
    let (watchdog, _, h15) = >>=-eq-ok (item "watchdog" table >>= parse_watchdog) _ n h14 in
    let made : PhysicalNode = record {
      node_id = id;
      revision = revision;
      exposed_as_run_root = exposed;
      adapter = adapter;
      adapter_revision = adapter_revision;
      configuration_revision = configuration_revision;
      groups = groups;
      resources = resources;
      safety_domains = safety_domains;
      safety_policies = safety_policies;
      cross_collision_checked = cross;
      watchdog = some watchdog;
      connection = connection;
    } in
    let (tt, checked, last) = >>=-eq-ok (found (check_physical l made)) _ n h15 in
    let same : physical made ≡ n = ok-same last in
    subst (Passes l) same (found-ok (check_physical l made) tt checked)

parse_kind-Passes :
    (l : Letters) (to_float : ℤ → ℕ) (kind : String) (table : Fields) (n : ControlNode)
    → parse_kind l to_float kind table ≡ ok n
    → Passes l n
unfolding parse_kind
parse_kind-Passes l to_float kind table n h = elim (Bool-cases (kind == "physical")) [
  | inl is_physical ↦ parse_physical-Passes l to_float table n (rw (is_physical, parse_kind) at h)
  | inr other ↦
      let h' = rw (other, parse_kind) at h in
      elim (Bool-cases (kind == "composite")) [
        | inl is_composite ↦ parse_composite-Passes l table n (rw is_composite at h')
        | inr neither ↦ absurd (ok-ne-raise (sym (rw neither at h')))
      ]
]

parse_node-Passes :
    (l : Letters) (to_float : ℤ → ℕ) (document : Fields) (n : ControlNode)
    → parse_node l to_float document ≡ ok n
    → Passes l n
unfolding parse_node
parse_node-Passes l to_float document n h =
    let (_, _, h1) = >>=-eq-ok (check_keys document ("node" ∷ []) []) _ n h in
    let (table, _, h2) = >>=-eq-ok (item "node" document >>= mapping_of) _ n h1 in
    let (kind, _, h3) = >>=-eq-ok (str_in (get "kind" table)) _ n h2 in
    parse_kind-Passes l to_float kind table n h3

-- Each node is filed under its id and passes the checks of its class.
abbrev AreFiled : Letters → Dict String ControlNode → Type 0
AreFiled l nodes =
    (node_id : String) (n : ControlNode)
    → Dict.get nodes node_id ≡ some n
    → (id_of n ≡ node_id) × Passes l n

put-AreFiled :
    (l : Letters) (nodes : Dict String ControlNode) (n : ControlNode)
    → Passes l n
    → AreFiled l nodes
    → AreFiled l (Dict.put nodes (id_of n) n)
put-AreFiled l nodes n p filed node_id m h = elim (Bool-cases (id_of n == node_id)) [
  | inl here ↦
      let same : n ≡ m = ground (arith, h, here, get-put nodes (id_of n) node_id n) in
      rw (← same) ((==_iff (id_of n) node_id).0 here, p)
  | inr other ↦ filed node_id m (ground (arith, h, other, get-put nodes (id_of n) node_id n))
]

load_nodes-AreFiled :
    (l : Letters) (to_float : ℤ → ℕ) (documents : List Fields)
    (nodes nodes' : Dict String ControlNode)
    → load_nodes l to_float documents nodes ≡ ok nodes'
    → AreFiled l nodes
    → AreFiled l nodes'
unfolding load_nodes
load_nodes-AreFiled l to_float [] nodes nodes' h filed = subst (AreFiled l) (ok-same h) filed
load_nodes-AreFiled l to_float (document ∷ documents) nodes nodes' h filed =
    let (n, parsed, h1) = >>=-eq-ok (parse_node l to_float document) _ nodes' h in
    let (_, _, h2) =
      >>=-eq-ok (require (not (is_some (Dict.get nodes (id_of n)))) registry_error) _ nodes' h1 in
    load_nodes-AreFiled l to_float documents (Dict.put nodes (id_of n) n) nodes' h2
      (put-AreFiled l nodes n (parse_node-Passes l to_float document n parsed) filed)

empty-AreFiled : (l : Letters) → AreFiled l Dict.empty
empty-AreFiled l node_id n h = ground (arith, h, get-empty {V = ControlNode} node_id)

-- In a registry that load returns, a node that is found under an id has that id and passes the checks
-- of its class, and the registry passes its validation.
pub load_lem :
    (digest : Value → String) (l : Letters) (to_float : ℤ → ℕ) (server_document : Fields)
    (robots identities : List Fields) (r : CapabilityRegistry) (node_id : String) (n : ControlNode)
    → load digest l to_float server_document robots identities ≡ ok r
    → Dict.get r.nodes node_id ≡ some n
    → ((id_of n ≡ node_id) × Passes l n) × (validate r ≡ ok tt)
unfolding load make_registry
load_lem digest l to_float server_document robots identities r node_id n h located =
    let (_, _, h1) = >>=-eq-ok (check_keys server_document ("server" ∷ []) []) _ r h in
    let (server, _, h2) = >>=-eq-ok (item "server" server_document >>= mapping_of) _ r h1 in
    let (_, _, h3) = >>=-eq-ok (check_keys server ("id" ∷ "registry_version" ∷ []) []) _ r h2 in
    let (version, _, h4) = >>=-eq-ok (item "registry_version" server >>= int_of) _ r h3 in
    let (_, _, h5) = >>=-eq-ok (require (is_version version) registry_error) _ r h4 in
    let (server_id, _, h6) = >>=-eq-ok (item "id" server >>= str_of) _ r h5 in
    let (nodes, loaded, h7) = >>=-eq-ok (load_nodes l to_float robots Dict.empty) _ r h6 in
    let (_, _, h8) = >>=-eq-ok (require (has_entries nodes) registry_error) _ r h7 in
    let (known, _, h9) = >>=-eq-ok (load_identities l identities Dict.empty) _ r h8 in
    let made = found-ok (make_registry digest server_id nodes known) r h9 in
    let read : CapabilityRegistry = record {
      server_id = server_id;
      nodes = nodes;
      identities = known;
    } in
    let (tt, checked, h10) = >>=-eq-ok (validate read) _ r made in
    let (_, _, last) =
      >>=-eq-ok (check_manifests digest server_id nodes (sort_texts (Dict.keys nodes))) _ r h10 in
    let same : read ≡ r = ok-same last in
    let filed : AreFiled l nodes =
      load_nodes-AreFiled l to_float robots Dict.empty nodes loaded (empty-AreFiled l) in
    (
      filed node_id n (subst (λ r. Dict.get r.nodes node_id ≡ some n) (sym same) located),
      subst (λ r. validate r ≡ ok tt) same checked,
    )
