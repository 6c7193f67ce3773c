-- ===== src/Text.antt =====
-- Text as the program reads it: Python's `str.strip`, `len`, `isspace`, `split(".")` and sorting of
-- texts, and the check that run ids and lease keys share.
use Prim.Native.Char.{code}
use Prim.Native.String.{compare}
use text.Mathlib.Text.{is_le}
use remote_robot.Prelude.{
  ℕ, suc, String, Bool, false, not, ◌&&◌, ◌||◌, List, [], ◌∷◌, ltb, leb, eqb, ◌==◌, string_eq,
  sort_by, if◌then◌else◌,
}

-- `len(s)`
unfoldable pub count : String → ℕ
count String.[] = 0
count (String.◌∷◌ c s) = suc (count s)

-- `c.isspace()`, as `str.strip` reads it
unfoldable pub is_space : ℕ → Bool
is_space c =
    (leb 9 c && leb c 13)
    || (leb 28 c && leb c 32)
    || eqb c 0x85
    || eqb c 0xa0
    || eqb c 0x1680
    || (leb 0x2000 c && leb c 0x200a)
    || eqb c 0x2028
    || eqb c 0x2029
    || eqb c 0x202f
    || eqb c 0x205f
    || eqb c 0x3000

unfoldable pub lstrip : String → String
unfolding is_space
lstrip String.[] = String.[]
lstrip (String.◌∷◌ c s) = let rest = lstrip s in if is_space (code c) then rest else String.◌∷◌ c s

unfoldable pub rstrip : String → String
unfolding is_space
rstrip String.[] = String.[]
rstrip (String.◌∷◌ c s) = elim (rstrip s) [
  | String.[] ↦ if is_space (code c) then String.[] else String.◌∷◌ c String.[]
  | String.◌∷◌ d r ↦ String.◌∷◌ c (String.◌∷◌ d r)
]

-- `s.strip()`
unfoldable pub strip : String → String
unfolding lstrip rstrip
strip s = lstrip (rstrip s)

-- `any(ord(character) < 32 for character in s)`
unfoldable pub has_control : String → Bool
has_control String.[] = false
has_control (String.◌∷◌ c s) = ltb (code c) 32 || has_control s

-- What `_run_id`, `_validate_run_id` and `_canonical_keys` ask of one text: it is not empty, not
-- padded, at most 512 characters, with no control characters.
unfoldable pub is_canonical : String → Bool
unfolding strip count has_control
is_canonical s = not (s == "") && s == strip s && not (ltb 512 (count s)) && not (has_control s)

-- `s.split(".")`
unfoldable pub split_dots : String → List String
split_dots String.[] = "" ∷ []
split_dots (String.◌∷◌ c s) = elim (split_dots s) [
  | [] ↦ []
  | seg ∷ segs ↦ if eqb (code c) b'.' then "" ∷ seg ∷ segs else String.◌∷◌ c seg ∷ segs
]

-- `sorted(texts)`: a stable sort by code points, which is the order of UTF-8 bytes.
unfoldable pub sort_texts : List String → List String
unfolding sort_by
sort_texts = sort_by (λ s t. is_le (compare s t))
