-- ===== src/Registry/Distinct.antt =====
-- Lists without repetitions: one whose entries are all in another is not longer than it.
use remote_robot.Prelude.{
  suc, ◌≤◌, ◌≡◌, true, false, List, [], ◌∷◌, Eq, ◌==◌, ==_iff, ==_refl, contains, length,
  if◌then◌else◌, arith, inl, inr, Bool-cases,
}

module _ {ℓ} {A : Type ℓ} ⦃e : Eq A⦄ where
  abbrev pub IsDistinct : List A → Type 0
  IsDistinct [] = Unit
  IsDistinct (x ∷ xs) = (contains xs x ≡ false) × IsDistinct xs

  -- Each entry of `xs` is one of `ys`.
  abbrev pub Within : List A → List A → Type ℓ
  Within xs ys = (a : A) → contains xs a ≡ true → contains ys a ≡ true

  drop_first : A → List A → List A
  drop_first x [] = []
  drop_first x (y ∷ ys) = let rest = drop_first x ys in if y == x then ys else y ∷ rest

  length-drop_first :
      (x : A) (ys : List A) → contains ys x ≡ true → suc (length (drop_first x ys)) ≡ length ys
  unfolding drop_first contains
  length-drop_first x [] h = absurd (ground arith)
  length-drop_first x (y ∷ ys) h = ground (arith, length-drop_first x ys)

  contains-drop_first :
      (x a : A) (ys : List A)
      → (x == a) ≡ false
      → contains ys a ≡ true
      → contains (drop_first x ys) a ≡ true
  unfolding drop_first contains
  contains-drop_first x a [] n h = absurd (ground arith)
  contains-drop_first x a (y ∷ ys) n h =
      ground (arith, contains-drop_first x a ys, ==_iff y x, ==_iff y a, ==_iff x a)

  distinct_eq :
      (x a : A) (xs : List A) → contains xs x ≡ false → contains xs a ≡ true → (x == a) ≡ false
  distinct_eq x a xs new m = elim (Bool-cases (x == a)) [
    | inl same ↦ absurd (ground (arith, same, ==_iff x a, new, m))
    | inr other ↦ other
  ]

  pub length-IsDistinct : (xs ys : List A) → IsDistinct xs → Within xs ys → length xs ≤ length ys
  unfolding contains
  length-IsDistinct [] ys d w = omega arith
  length-IsDistinct (x ∷ xs) ys (new, d) w =
      let found : contains ys x ≡ true = w x (ground (arith, ==_refl x)) in
      let shorter : length xs ≤ length (drop_first x ys) =
        length-IsDistinct xs (drop_first x ys) d (λ a m.
          contains-drop_first x a ys (distinct_eq x a xs new m) (w a (ground (arith, m)))) in
      ground (arith, shorter, length-drop_first x ys found)
