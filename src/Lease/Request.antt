-- ===== src/Lease/Request.antt =====
-- remote_robot/lease.py, the requests: keys, targets, requests, receipts and the exceptions.
-- A frozenset is a list without repetitions, compared as a set.
use Prim.Native.String.{compare}
use text.Mathlib.Text.{is_le}
use remote_robot.Prelude.{
  ℕ, String, ◌≡◌, refl, ◌↔◌, Bool, true, false, ◌&&◌, List, [], ◌∷◌, ◌++◌, map, Eq, ◌==◌, string_eq,
  ==_iff, arith, set_add, same_set, if◌then◌else◌, sort_by,
}
use remote_robot.Text.{is_canonical}

-- `LeaseKind`
pub data LeaseKind : Type 0 where
  leaf resource safety_domain : LeaseKind

pub record LeaseTarget : Type 0 where
  pub kind : LeaseKind
  pub key : String

pub record LeaseRequest : Type 0 where
  pub leaf_ids : List String
  pub resource_keys : List String
  pub safety_domain_keys : List String

pub record LeaseConflictItem : Type 0 where
  pub target : LeaseTarget
  pub owner_run_id : String

pub record LeaseReceipt : Type 0 where
  pub run_id : String
  pub leaves : List String
  pub resources : List String
  pub safety_domains : List String
  pub acquired_at_monotonic_ns : ℕ

pub data LeaseError : Type 0 where
  value_error : LeaseError
  conflict : String → List LeaseConflictItem → LeaseError
  request_mismatch : LeaseError

pub data Result {ℓ} (A : Type ℓ) : Type ℓ where
  ok : A → Result A
  raise : LeaseError → Result A

infixl 5 ◌>>=◌
abbrev pub ◌>>=◌ {κ ℓ} : {X : Type κ} {Y : Type ℓ} → Result X → (X → Result Y) → Result Y
raise e >>= next = raise e
ok x >>= next = next x

-- Inversion of a successful bind.
pub >>=-eq-ok {κ ℓ} :
    {X : Type κ} {Y : Type ℓ} (first : Result X) (next : X → Result Y) {y : Y}
    → (first >>= next) ≡ ok y
    → (x : X) × (first ≡ ok x) × (next x ≡ ok y)
>>=-eq-ok (raise e) next done = cc
>>=-eq-ok (ok x) next done = (x, refl, done)

abbrev pub same_kind : LeaseKind → LeaseKind → Bool
same_kind leaf leaf = true
same_kind resource resource = true
same_kind safety_domain safety_domain = true
same_kind _ _ = false

abbrev pub same_target : LeaseTarget → LeaseTarget → Bool
same_target s t = same_kind s.kind t.kind && s.key == t.key

pub same_kind_iff : (j k : LeaseKind) → (same_kind j k ≡ true) ↔ (j ≡ k)
same_kind_iff j k = ground arith

pub same_target_iff : (s t : LeaseTarget) → (same_target s t ≡ true) ↔ (s ≡ t)
same_target_iff s t = ground (arith, same_kind_iff s.kind t.kind, ==_iff s.key t.key)

instance unfoldable pub target_eq : Eq LeaseTarget
target_eq = record { same = same_target; same_iff = same_target_iff }

-- `_run_id`
unfoldable pub check_run_id : String → Result String
check_run_id value = if is_canonical value then ok value else raise value_error

-- `_canonical_keys`
unfoldable pub canonical_keys : List String → Result (List String)
unfolding check_run_id
canonical_keys [] = ok []
canonical_keys (value ∷ values) = do
  key ← check_run_id value
  rest ← canonical_keys values
  ok (set_add key rest)

-- `LeaseRequest(...)` with its `__post_init__`
unfoldable pub lease_request : List String → List String → List String → Result LeaseRequest
lease_request leaves resources safety_domains = do
  leaf_ids ← canonical_keys leaves
  resource_keys ← canonical_keys resources
  safety_domain_keys ← canonical_keys safety_domains
  ok (record {
    leaf_ids = leaf_ids;
    resource_keys = resource_keys;
    safety_domain_keys = safety_domain_keys;
  })

-- `LeaseRequest.__eq__`, of frozen sets
unfoldable pub same_request : LeaseRequest → LeaseRequest → Bool
same_request q r =
    same_set q.leaf_ids r.leaf_ids
    && same_set q.resource_keys r.resource_keys
    && same_set q.safety_domain_keys r.safety_domain_keys

-- `kind` as the text that the source sorts by
abbrev pub kind_text : LeaseKind → String
kind_text leaf = "leaf"
kind_text resource = "resource"
kind_text safety_domain = "safety_domain"

-- `(a.kind, a.key) <= (b.kind, b.key)`
unfoldable pub target_le : LeaseTarget → LeaseTarget → Bool
target_le a b =
    if kind_text a.kind == kind_text b.kind
    then is_le (compare a.key b.key)
    else is_le (compare (kind_text a.kind) (kind_text b.kind))

abbrev pub target_of : LeaseKind → String → LeaseTarget
target_of kind key = record { kind = kind; key = key }

-- `LeaseRequest.targets`
unfoldable pub targets : LeaseRequest → List LeaseTarget
unfolding sort_by target_le
targets q = sort_by target_le (
    map (target_of leaf) q.leaf_ids
    ++ (map (target_of resource) q.resource_keys
        ++ map (target_of safety_domain) q.safety_domain_keys))

-- `LeaseReceipt.request`: the receipt's sets go through `__post_init__` again
unfoldable pub request : LeaseReceipt → Result LeaseRequest
unfolding lease_request
request g = lease_request g.leaves g.resources g.safety_domains
