-- ===== src/Dict.antt =====
-- Python's `dict` over any type of keys with an equality: entries in the order of insertion, and
-- a write to a present key keeps its place. The operations are those that the program calls.
use remote_robot.Prelude.{
  ◌≡◌, refl, Option, none, some, List, [], ◌∷◌, map, arith, Eq, ◌==◌, contains, if◌then◌else◌,
  is_some,
}

pub record Dict {ℓ} (K V : Type ℓ) : Type ℓ where
  pub entries : List (K × V)

module _ {ℓ} {K V : Type ℓ} where
  unfoldable pub empty : Dict K V
  empty = record { entries = [] }

  -- `list(d)`
  unfoldable pub keys : Dict K V → List K
  keys d = map (λ e. e.0) d.entries

module _ {ℓ} {K V : Type ℓ} ⦃e : Eq K⦄ where
  unfoldable pub lookup : K → List (K × V) → Option V
  lookup k [] = none
  lookup k ((j, v) ∷ l) = if j == k then some v else lookup k l

  unfoldable pub insert : K → V → List (K × V) → List (K × V)
  insert k v [] = (k, v) ∷ []
  insert k v ((j, w) ∷ l) = if j == k then (j, v) ∷ l else (j, w) ∷ insert k v l

  unfoldable pub without : K → List (K × V) → List (K × V)
  without k [] = []
  without k ((j, w) ∷ l) = let rest = without k l in if j == k then rest else (j, w) ∷ rest

  -- `d.get(k)`
  unfoldable pub get : Dict K V → K → Option V
  unfolding lookup
  get d k = lookup k d.entries

  -- `d[k] = v`
  unfoldable pub put : Dict K V → K → V → Dict K V
  unfolding insert
  put d k v = record { entries = insert k v d.entries }

  -- `del d[k]`, `d.pop(k, None)`
  unfoldable pub remove : Dict K V → K → Dict K V
  unfolding without
  remove d k = record { entries = without k d.entries }

  lookup-insert :
      (k j : K) (v : V) (l : List (K × V))
      → lookup j (insert k v l) ≡ (if k == j then some v else lookup j l)
  unfolding lookup insert
  lookup-insert k j v [] = refl
  lookup-insert k j v ((i, w) ∷ l) =
      ground (arith, e.same_iff k j, e.same_iff i k, e.same_iff i j, lookup-insert k j v l)

  lookup-without :
      (gone k : K) (l : List (K × V))
      → lookup k (without gone l) ≡ (if gone == k then none else lookup k l)
  unfolding lookup without
  lookup-without gone k [] = ground arith
  lookup-without gone k ((j, w) ∷ rest) =
      ground
        (arith, e.same_iff j k, e.same_iff gone k, e.same_iff j gone, lookup-without gone k rest)

  pub get-put :
      (d : Dict K V) (k j : K) (v : V) → get (put d k v) j ≡ (if k == j then some v else get d j)
  unfolding get put
  get-put d k j v = lookup-insert k j v d.entries

  pub get-remove :
      (d : Dict K V) (k j : K) → get (remove d k) j ≡ (if k == j then none else get d j)
  unfolding get remove
  get-remove d k j = lookup-without k j d.entries

  pub get-empty : (k : K) → get (empty {V = V}) k ≡ none
  unfolding get empty
  get-empty k = refl

  lookup-contains :
      (l : List (K × V)) (k : K) → contains (map (λ x. x.0) l) k ≡ is_some (lookup k l)
  unfolding lookup contains
  lookup-contains [] k = refl
  lookup-contains ((j, v) ∷ l) k = ground (arith, lookup-contains l k)

  pub contains-keys : (d : Dict K V) (k : K) → contains (keys d) k ≡ is_some (get d k)
  unfolding get keys
  contains-keys d k = lookup-contains d.entries k

pub ruleset dict_laws = (get-put, get-remove, get-empty)
