-- ===== src/Ipc/Depth.antt =====
-- remote_robot/ipc.py: what a value that passes `_validate_value` is made of.
use remote_robot.Prelude.{
  ℕ, suc, ◌+◌, ◌≤◌, ◌≡◌, refl, Bool, true, false, arith, ◌&&◌, ◌↔◌, ◌∙◌, leb, &&_parts,
}
use Prim.Native.Nat.{max}
use remote_robot.Value.{
  Value, Items, Fields, null, bool, int, float, str, bytes, list, dict, other, nil, cons, end,
  field, is_finite,
}
use remote_robot.Ipc.{
  Result, ok, ◌>>◌, is_int64, validate_value, validate_items, validate_fields, require, schema,
}

-- How deep values are nested below this one.
unfoldable mutual
  pub depth : Value → ℕ
  depth (list xs) = depth_items xs
  depth (dict fs) = depth_fields fs
  depth _ = 0

  pub depth_items : Items → ℕ
  depth_items nil = 0
  depth_items (cons x xs) = max (suc (depth x)) (depth_items xs)

  pub depth_fields : Fields → ℕ
  depth_fields end = 0
  depth_fields (field k v fs) = max (suc (depth v)) (depth_fields fs)

-- Every integer has 64 bits, every float is finite, every key is a text and every value is of a
-- plain type, at any depth.
unfoldable mutual
  pub is_plain : Value → Bool
  is_plain (int n) = is_int64 n
  is_plain (float bits) = is_finite bits
  is_plain (other type_name) = false
  is_plain (list xs) = are_plain xs
  is_plain (dict fs) = are_plain_fields fs
  is_plain _ = true

  pub are_plain : Items → Bool
  are_plain nil = true
  are_plain (cons x xs) = is_plain x && are_plain xs

  pub are_plain_fields : Fields → Bool
  are_plain_fields end = true
  are_plain_fields (field (str k) v fs) = is_plain v && are_plain_fields fs
  are_plain_fields (field _ v fs) = false

abbrev Sound : ℕ → ℕ → Bool → Type 0
Sound n d plain = (n + d ≤ 32) × (plain ≡ true)

guarded :
    (n : ℕ) (m : Result (Unit {0}))
    → (require (leb n 32) schema >> m) ≡ ok tt
    → (n ≤ 32) × (m ≡ ok tt)
guarded n m h = ground arith

guard_then : (n : ℕ) (m : Result (Unit {0})) → n ≤ 32 → (require (leb n 32) schema >> m) ≡ m
guard_then n m h = ground arith

both : (a b : Result (Unit {0})) → (a >> b) ≡ ok tt → (a ≡ ok tt) × (b ≡ ok tt)
both a b h = ground arith

join :
    (n d ds : ℕ) {p q : Bool} → Sound (n + 1) d p → Sound n ds q → Sound n (max (suc d) ds) (p && q)
join n d ds s t = (omega arith, rw (s.1, t.1))

part :
    (n d ds : ℕ) {p q : Bool} → Sound n (max (suc d) ds) (p && q) → Sound (n + 1) d p × Sound n ds q
part n d ds {p} {q} s =
    let (first, others) = &&_parts p q s.1 in ((omega arith, first), (omega arith, others))

-- Items and fields are checked one level down, where no limit holds of an empty container.
mutual
  unfolding validate_value depth is_plain

  validated : (v : Value) (n : ℕ) → validate_value v n ≡ ok tt → Sound n (depth v) (is_plain v)
  validated null n h = ground arith
  validated (bool b) n h = ground arith
  validated (int z) n h = ground arith
  validated (float b) n h = ground arith
  validated (str s) n h = ground arith
  validated (bytes b) n h = ground arith
  validated (other type_name) n h = absurd (ground arith)
  validated (list xs) n h =
      let (l, rest) = guarded n (validate_items xs (n + 1)) h in validated_items xs n l rest
  validated (dict fs) n h =
      let (l, rest) = guarded n (validate_fields fs (n + 1)) h in validated_fields fs n l rest

  validated_items :
      (xs : Items) (n : ℕ)
      → n ≤ 32
      → validate_items xs (n + 1) ≡ ok tt
      → Sound n (depth_items xs) (are_plain xs)
  validated_items nil n l h = ground arith
  validated_items (cons x xs) n l h =
      let (first, others) = both (validate_value x (n + 1)) (validate_items xs (n + 1)) h in
      join n (depth x) (depth_items xs) (validated x (n + 1) first) (validated_items xs n l others)

  validated_fields :
      (fs : Fields) (n : ℕ)
      → n ≤ 32
      → validate_fields fs (n + 1) ≡ ok tt
      → Sound n (depth_fields fs) (are_plain_fields fs)
  validated_fields end n l h = ground arith
  validated_fields (field (str k) v fs) n l h =
      let (first, others) = both (validate_value v (n + 1)) (validate_fields fs (n + 1)) h in
      join n (depth v) (depth_fields fs) (validated v (n + 1) first)
        (validated_fields fs n l others)
  validated_fields (field _ v fs) n l h = absurd (ground arith)

mutual
  unfolding validate_value depth is_plain

  complete : (v : Value) (n : ℕ) → Sound n (depth v) (is_plain v) → validate_value v n ≡ ok tt
  complete null n h = ground arith
  complete (bool b) n h = ground arith
  complete (int z) n h = ground arith
  complete (float b) n h = ground arith
  complete (str s) n h = ground arith
  complete (bytes b) n h = ground arith
  complete (other type_name) n h = absurd (ground arith)
  complete (list xs) n h =
      guard_then n (validate_items xs (n + 1)) (omega arith) ∙ complete_items xs n h
  complete (dict fs) n h =
      guard_then n (validate_fields fs (n + 1)) (omega arith) ∙ complete_fields fs n h

  complete_items :
      (xs : Items) (n : ℕ)
      → Sound n (depth_items xs) (are_plain xs)
      → validate_items xs (n + 1) ≡ ok tt
  complete_items nil n h = refl
  complete_items (cons x xs) n h =
      let (first, others) = part n (depth x) (depth_items xs) h in
      rw (complete x (n + 1) first) (complete_items xs n others)

  complete_fields :
      (fs : Fields) (n : ℕ)
      → Sound n (depth_fields fs) (are_plain_fields fs)
      → validate_fields fs (n + 1) ≡ ok tt
  complete_fields end n h = refl
  complete_fields (field (str k) v fs) n h =
      let (first, others) = part n (depth v) (depth_fields fs) h in
      rw (complete v (n + 1) first) (complete_fields fs n others)
  complete_fields (field _ v fs) n h = absurd (ground arith)

-- The checks pass at a depth exactly when no value is nested below the limit of 32, every integer
-- has 64 bits, every float is finite, every key is a text and every value is of a plain type.
pub validate_value_iff :
    (v : Value) (n : ℕ) → (validate_value v n ≡ ok tt) ↔ ((n + depth v ≤ 32) × (is_plain v ≡ true))
validate_value_iff v n = (validated v n, complete v n)
