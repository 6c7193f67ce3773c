-- ===== src/Bytes.antt =====
-- Bytes as Python's `bytes` and `struct` have them: equality, and a length in four bytes.
use remote_robot.Prelude.{
  ℕ, ◌+◌, ◌*◌, ◌/◌, ◌%◌, ◌<◌, ◌≡◌, refl, Bool, true, false, ◌&&◌, List, [], ◌∷◌, eqb, eqb_iff,
  arith,
}

-- The bytes of a file or a frame, compared as Python compares `bytes`.
unfoldable pub same_bytes : List ℕ → List ℕ → Bool
same_bytes [] [] = true
same_bytes (x ∷ xs) (y ∷ ys) = eqb x y && same_bytes xs ys
same_bytes _ _ = false

-- `struct.pack(">I", n)`, of a number below 2 ^ 32
unfoldable pub pack : ℕ → List ℕ
pack n = n / 16777216 % 256 ∷ n / 65536 % 256 ∷ n / 256 % 256 ∷ n % 256 ∷ []

-- `struct.unpack(">I", b)[0]`, of four bytes
unfoldable pub unpack : List ℕ → ℕ
unpack (a ∷ b ∷ c ∷ d ∷ []) = ((a * 256 + b) * 256 + c) * 256 + d
unpack _ = 0

pub same_bytes_refl : (xs : List ℕ) → same_bytes xs xs ≡ true
unfolding same_bytes
same_bytes_refl [] = refl
same_bytes_refl (x ∷ xs) = ground (arith, same_bytes_refl xs, eqb_iff x x)

pub unpack-pack : (n : ℕ) → n < 4294967296 → unpack (pack n) ≡ n
unfolding unpack pack
unpack-pack n h = omega arith
