-- ===== src/Value.antt =====
-- Python's plain data, as the journal, the wire format and the compiled programs hold it. A float
-- is its 64 bits. A dict is its entries in the key order of canonical CBOR, so that two dicts that
-- Python calls equal are one value here; a key need not be a text. A value of another type is `other`,
-- with the name of the type; a tuple too where the code refuses it, and where it takes it a list.
use remote_robot.Prelude.{
  ℕ, ℤ, String, Bool, true, false, not, Option, none, some, List, [], ◌∷◌, ◌==◌, string_eq, nat_eq,
  if◌then◌else◌, ◌/◌, ◌%◌, ◌^◌,
}

mutual
  pub data Value : Type 0 where
    null : Value
    bool : Bool → Value
    int : ℤ → Value
    float : ℕ → Value
    str : String → Value
    bytes : List ℕ → Value
    list : Items → Value
    dict : Fields → Value
    other : String → Value

  pub data Items : Type 0 where
    nil : Items
    cons : Value → Items → Items

  pub data Fields : Type 0 where
    end : Fields
    field : Value → Value → Fields → Fields

-- `math.isfinite`: the exponent bits of the float are not all ones.
unfoldable pub is_finite : ℕ → Bool
is_finite bits = not (bits / 2 ^ 52 % 2048 == 2047)

-- `d.get(key)`
unfoldable pub get : String → Fields → Option Value
get k end = none
get k (field (str j) v fs) = if j == k then some v else get k fs
get k (field _ v fs) = get k fs

-- `list(d)`
unfoldable pub keys : Fields → List Value
keys end = []
keys (field k v fs) = k ∷ keys fs

-- The keys that are texts.
unfoldable pub text_keys : List Value → List String
text_keys [] = []
text_keys (str s ∷ ks) = s ∷ text_keys ks
text_keys (_ ∷ ks) = text_keys ks

-- All keys are texts.
unfoldable pub are_texts : List Value → Bool
are_texts [] = true
are_texts (str s ∷ ks) = are_texts ks
are_texts (_ ∷ ks) = false
