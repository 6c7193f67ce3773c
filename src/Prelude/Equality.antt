-- ===== src/Prelude/Equality.antt =====
-- Python's `==` on the types that the program compares: one operator for every type with an
-- instance of `Eq`, and membership in a collection.
use Prim.Native.Nat.{ℕ}
use Prim.Native.String.{String}
use mathlib.Core.Path.{◌≡◌, refl}
use mathlib.Core.Logic.{◌↔◌, inl, inr}
use mathlib.Core.Bool.{Bool, true, false, ◌&&◌, ◌||◌}
use mathlib.Core.List.{List, [], ◌∷◌}
use native.Mathlib.Omega.{arith}
use text.Mathlib.Text.{◌==◌ as str_eq}
use text.Mathlib.TextEquality.{eq_iff}
use remote_robot.Prelude.Tests.{eqb, eqb_iff, if◌then◌else◌, Bool-cases}

pub record Eq {ℓ} (A : Type ℓ) : Type ℓ where
  pub same : A → A → Bool
  pub same_iff : (a b : A) → (same a b ≡ true) ↔ (a ≡ b)

infix 50 ◌==◌
abbrev pub ◌==◌ {ℓ} : {A : Type ℓ} ⦃i : Eq A⦄ → A → A → Bool
◌==◌ ⦃i⦄ = i.same

instance abbrev pub string_eq : Eq String
string_eq = record { same = str_eq; same_iff = eq_iff }

instance abbrev pub nat_eq : Eq ℕ
nat_eq = record { same = eqb; same_iff = eqb_iff }

module _ {ℓ} {A : Type ℓ} ⦃e : Eq A⦄ where
  pub ==_iff : (a b : A) → ((a == b) ≡ true) ↔ (a ≡ b)
  ==_iff a b = e.same_iff a b

  pub ==_refl : (a : A) → (a == a) ≡ true
  ==_refl a = (e.same_iff a a).1 refl

  -- Python's `a in xs`.
  unfoldable pub contains : List A → A → Bool
  contains [] a = false
  contains (x ∷ xs) a = x == a || contains xs a

  -- Python's `xs.add(a)` on a set, kept as a list without repetitions.
  unfoldable pub set_add : A → List A → List A
  set_add a xs = if contains xs a then xs else a ∷ xs

  -- Python's `xs <= ys` on sets.
  unfoldable pub subset : List A → List A → Bool
  subset [] ys = true
  subset (x ∷ xs) ys = contains ys x && subset xs ys

  -- Python's `xs == ys` on sets.
  unfoldable pub same_set : List A → List A → Bool
  unfolding subset
  same_set xs ys = subset xs ys && subset ys xs

  pub contains-set_add :
      (a b : A) (xs : List A) → contains (set_add a xs) b ≡ (a == b || contains xs b)
  unfolding set_add contains
  contains-set_add a b xs = elim (Bool-cases (contains xs a)) [
    | inl old ↦ ground (arith, old, e.same_iff a b)
    | inr new ↦ rw new
  ]

  pub subset-contains :
      (xs ys : List A) (a : A) → subset xs ys ≡ true → contains xs a ≡ true → contains ys a ≡ true
  unfolding subset contains
  subset-contains [] ys a h m = ground arith
  subset-contains (x ∷ xs) ys a h m = ground (arith, e.same_iff x a, subset-contains xs ys a)

  subset_weaken : (x : A) (xs ys : List A) → subset xs ys ≡ true → subset xs (x ∷ ys) ≡ true
  unfolding subset contains
  subset_weaken x [] ys h = refl
  subset_weaken x (y ∷ xs) ys h = ground (arith, subset_weaken x xs ys)

  subset_refl : (xs : List A) → subset xs xs ≡ true
  unfolding subset contains
  subset_refl [] = refl
  subset_refl (x ∷ xs) = ground (arith, e.same_iff x x, subset_weaken x xs xs (subset_refl xs))

  pub same_set_refl : (xs : List A) → same_set xs xs ≡ true
  unfolding same_set
  same_set_refl xs = ground (arith, subset_refl xs)

-- `sorted(xs, key=...)` by an order: a stable insertion sort.
module _ {ℓ} {A : Type ℓ} (le : A → A → Bool) where
  unfoldable pub insert_by : A → List A → List A
  insert_by x [] = x ∷ []
  insert_by x (y ∷ ys) = if le x y then x ∷ y ∷ ys else y ∷ insert_by x ys

  unfoldable pub sort_by : List A → List A
  unfolding insert_by
  sort_by [] = []
  sort_by (x ∷ xs) = insert_by x (sort_by xs)

module _ {ℓ} {A : Type ℓ} ⦃e : Eq A⦄ where
  contains-insert_by :
      (le : A → A → Bool) (x a : A) (ys : List A)
      → contains (insert_by le x ys) a ≡ (x == a || contains ys a)
  unfolding insert_by contains
  contains-insert_by le x a [] = refl
  contains-insert_by le x a (y ∷ ys) = ground (arith, contains-insert_by le x a ys)

  -- Sorting keeps the members.
  pub contains-sort_by :
      (le : A → A → Bool) (xs : List A) (a : A) → contains (sort_by le xs) a ≡ contains xs a
  unfolding sort_by contains
  contains-sort_by le [] a = refl
  contains-sort_by le (x ∷ xs) a = rw (contains-insert_by, contains-sort_by le xs a)
