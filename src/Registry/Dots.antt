-- ===== src/Registry/Dots.antt =====
-- `str.split(".")` and `".".join`, which remote_robot/registry.py uses on role paths.
use Prim.Native.String
use Prim.Native.Char.{Char, code}
use text.Mathlib.TextEquality.{Char-path}
use text.Mathlib.TextLemmas.{cons-append, nil-append}
use remote_robot.Prelude.{
  String, ◌≡◌, refl, sym, ap, ◌∙◌, List, [], ◌∷◌, string_eq, eqb, eqb_iff, inl, inr, Bool-cases,
}
use remote_robot.Text.{split_dots}
use remote_robot.Registry.Graph.{join_dots}

split_dots-cons : (s : String) → (seg : String) × (segs : List String) × (split_dots s ≡ seg ∷ segs)
unfolding split_dots
split_dots-cons String.[] = ("", [], refl)
split_dots-cons (String.◌∷◌ c s) =
    let (seg, segs, h) = split_dots-cons s in
    elim (Bool-cases (eqb (code c) b'.')) [
      | inl dot ↦ ("", seg ∷ segs, rw h (rw dot refl))
      | inr other ↦ (String.◌∷◌ c seg, segs, rw h (rw other refl))
    ]

dot-cons :
    (c : Char) (s : String) → code c ≡ b'.' → String.◌++◌ "" (String.◌++◌ "." s) ≡ String.◌∷◌ c s
dot-cons c s h =
    nil-append (String.◌++◌ "." s)
    ∙ (cons-append "." "" s
        ∙ (ap (λ t. String.◌∷◌ "." t) (nil-append s)
            ∙ ap (λ d. String.◌∷◌ d s) (sym (Char-path c "." h))))

join_dots-cons :
    (c : Char) (seg : String) (segs : List String)
    → join_dots (String.◌∷◌ c seg ∷ segs) ≡ String.◌∷◌ c (join_dots (seg ∷ segs))
unfolding join_dots
join_dots-cons c seg [] = refl
join_dots-cons c seg (t ∷ segs) = cons-append c seg _

pub join_dots-split_dots : (s : String) → join_dots (split_dots s) ≡ s
unfolding split_dots join_dots
join_dots-split_dots String.[] = refl
join_dots-split_dots (String.◌∷◌ c s) =
    let (seg, segs, h) = split_dots-cons s in
    let same : join_dots (seg ∷ segs) ≡ s = rw (← h) (join_dots-split_dots s) in
    elim (Bool-cases (eqb (code c) b'.')) [
      | inl dot ↦ rw h (rw dot (rw same (dot-cons c s ((eqb_iff (code c) b'.').0 dot))))
      | inr other ↦ rw h (rw other (join_dots-cons c seg segs ∙ ap (λ t. String.◌∷◌ c t) same))
    ]
