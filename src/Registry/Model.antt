-- ===== src/Registry/Model.antt =====
-- remote_robot/model.py: what a registered robot can do, with the checks that each class makes when it
-- is built. A float is its 64 bits, as in Value. Which characters are letters and digits is a parameter.
use Prim.Native.Char.{Char, code}
use remote_robot.Prelude.{
  ℕ, ℤ, pos, negsuc, ◌+◌, ◌*◌, ◌/◌, ◌%◌, ◌^◌, String, Bool, true, false, not, ◌&&◌, ◌||◌, Option,
  none, some, List, [], ◌∷◌, ◌++◌, map, ◌==◌, string_eq, nat_eq, if◌then◌else◌, ltb, eqb, contains,
}
use remote_robot.Value.{is_finite}

pub data RegistryError : Type 0 where
  registry_error value_error key_error out_of_fuel : RegistryError

pub data Result {ℓ} (A : Type ℓ) : Type ℓ where
  ok : A → Result A
  raise : RegistryError → Result A

infixl 5 ◌>>=◌ ◌>>◌
abbrev pub ◌>>=◌ {κ ℓ} : {X : Type κ} {Y : Type ℓ} → Result X → (X → Result Y) → Result Y
raise e >>= next = raise e
ok x >>= next = next x

abbrev pub ◌>>◌ {ℓ} : {Y : Type ℓ} → Result (Unit {0}) → Result Y → Result Y
check >> next = check >>= λ _. next

abbrev pub require : Bool → RegistryError → Result (Unit {0})
require true e = ok tt
require false e = raise e

-- `str.isalpha` and `str.isalnum` of one character
pub record Letters : Type 0 where
  pub is_alpha : Char → Bool
  pub is_alnum : Char → Bool

-- `character.isalnum() or character in "_-"`
unfoldable pub is_word : Letters → Char → Bool
is_word l c = l.is_alnum c || eqb (code c) 95 || eqb (code c) 45

unfoldable pub all_word : Letters → String → Bool
unfolding is_word
all_word l String.[] = true
all_word l (String.◌∷◌ c s) = is_word l c && all_word l s

-- `value and value[0].isalpha()`
unfoldable pub starts_alpha : Letters → String → Bool
starts_alpha l String.[] = false
starts_alpha l (String.◌∷◌ c s) = l.is_alpha c

-- `_require_identifier`
unfoldable pub require_identifier : Letters → String → Result (Unit {0})
unfolding starts_alpha all_word
require_identifier l s = do
  require (starts_alpha l s) value_error
  require (all_word l s) value_error
  ok tt

unfoldable pub is_unique : List String → Bool
unfolding contains
is_unique [] = true
is_unique (x ∷ xs) = not (contains xs x) && is_unique xs

-- `_require_unique`
unfoldable pub require_unique : List String → Result (Unit {0})
unfolding is_unique
require_unique names = require (is_unique names) value_error

-- The sign and the magnitude of a float; a NaN has a magnitude above that of infinity.
unfoldable pub is_negative : ℕ → Bool
is_negative bits = bits / 2 ^ 63 % 2 == 1

unfoldable pub magnitude : ℕ → ℕ
magnitude bits = bits % 2 ^ 63

-- `a < b`, of finite floats
unfoldable pub float_lt : ℕ → ℕ → Bool
unfolding is_negative magnitude
float_lt a b = elim (is_negative a) [
  | true ↦ elim (is_negative b) [
    | true ↦ ltb (magnitude b) (magnitude a)
    | false ↦ ltb 0 (magnitude a + magnitude b)
  ]
  | false ↦ elim (is_negative b) [ true ↦ false | false ↦ ltb (magnitude a) (magnitude b) ]
]

-- `0` and `1` as floats
abbrev pub float_zero : ℕ
float_zero = 0

abbrev pub float_one : ℕ
float_one = 1023 * 2 ^ 52

-- `n > 0`
unfoldable pub is_positive : ℤ → Bool
is_positive (pos n) = ltb 0 n
is_positive (negsuc n) = false

pub record AxisSpec : Type 0 where
  pub axis_id : String
  pub kind : String
  pub unit : String
  pub minimum : ℕ
  pub maximum : ℕ
  pub max_velocity : Option ℕ

-- `_CANONICAL_UNITS`
unfoldable pub canonical_unit : String → Option String
canonical_unit kind =
    if kind == "revolute"
    then some "rad"
    else (if kind == "prismatic"
        then some "m"
        else (if kind == "normalized" then some "1" else none))

unfoldable pub is_velocity : Option ℕ → Bool
unfolding float_lt is_finite
is_velocity none = true
is_velocity (some v) = is_finite v && float_lt float_zero v

-- `AxisSpec.__post_init__`
unfoldable pub check_axis : Letters → AxisSpec → Result (Unit {0})
unfolding require_identifier canonical_unit is_finite float_lt is_velocity
check_axis l a = do
  require_identifier l a.axis_id
  elim (canonical_unit a.kind) [
    | none ↦ raise value_error
    | some unit ↦ require (a.unit == unit) value_error
  ]
  require (is_finite a.minimum && is_finite a.maximum) value_error
  require (float_lt a.minimum a.maximum) value_error
  require (is_velocity a.max_velocity) value_error
  require
      (not
        (a.kind == "normalized" && (float_lt a.minimum float_zero || float_lt float_one a.maximum)))
      value_error

pub record ActuatorGroupSpec : Type 0 where
  pub group_id : String
  pub axes : List AxisSpec
  pub command_schemas : List String
  pub telemetry_schemas : List String
  pub control_rate_hz : ℕ

abbrev pub is_empty {ℓ} : {A : Type ℓ} → List A → Bool
is_empty [] = true
is_empty (x ∷ xs) = false

-- `"/" in s`
unfoldable pub has_slash : String → Bool
has_slash String.[] = false
has_slash (String.◌∷◌ c s) = eqb (code c) 47 || has_slash s

unfoldable pub all_versioned : List String → Bool
unfolding has_slash
all_versioned [] = true
all_versioned (s ∷ ss) = has_slash s && all_versioned ss

-- `ActuatorGroupSpec.__post_init__`
unfoldable pub check_group : Letters → ActuatorGroupSpec → Result (Unit {0})
unfolding require_identifier require_unique all_versioned is_velocity
check_group l g = do
  require_identifier l g.group_id
  require (not (is_empty g.axes)) value_error
  require_unique (map (λ a. a.axis_id) g.axes)
  require (not (is_empty g.command_schemas)) value_error
  require (not (is_empty g.telemetry_schemas)) value_error
  require_unique g.command_schemas
  require_unique g.telemetry_schemas
  require (all_versioned (g.command_schemas ++ g.telemetry_schemas)) value_error
  require (is_velocity (some g.control_rate_hz)) value_error
