-- ===== src/Orchestrator/Authorizer.antt =====
-- remote_robot/orchestrator.py, `RegistryControlAuthorizer`: which roles an identity may move.
use remote_robot.Prelude.{
  String, ◌≡◌, refl, Bool, true, not, Option, none, some, List, [], ◌∷◌, string_eq, ==_iff, keep,
  contains, arith, ◌↔◌, Bool-cases, inl, inr,
}
use remote_robot.Dict
use remote_robot.Dict.{Dict}
use remote_robot.Registry.Nodes.{IdentitySpec, can_control}
use remote_robot.Orchestrator.{Result, ok, raise, authorization}

-- the roles that the identity may not control
unfoldable pub denied : IdentitySpec → String → List String → List String
unfolding can_control
denied i root_id role_paths = keep (λ path. not (can_control i root_id path)) role_paths

unfoldable pub refuse : List String → Result (Unit {0})
refuse [] = ok tt
refuse (path ∷ paths) = raise authorization

-- `require_control` of the identity, if it is known
unfoldable pub judge : Option IdentitySpec → String → List String → Result (Unit {0})
unfolding denied refuse
judge none root_id role_paths = raise authorization
judge (some i) root_id role_paths = refuse (denied i root_id role_paths)

-- `require_control`
unfoldable pub require_control :
    Dict String IdentitySpec → String → String → List String → Result (Unit {0})
unfolding judge
require_control identities identity_id root_id role_paths =
    judge (Dict.get identities identity_id) root_id role_paths

refuse-keep :
    (p : String → Bool) (paths : List String)
    → (refuse (keep (λ path. not (p path)) paths) ≡ ok tt)
      ↔ ((path : String) → contains paths path ≡ true → p path ≡ true)
unfolding refuse contains
refuse-keep p [] = ((λ h path c. absurd (ground arith)), (λ h. refl))
refuse-keep p (x ∷ xs) =
    let (allowed, passes) = refuse-keep p xs in
    elim (Bool-cases (p x)) [
      | inl fits ↦ (
        (λ h path c. ground (arith, allowed (ground (arith, fits)) path, ==_iff x path, fits)),
        (λ h. ground (arith, fits, passes (λ path c. h path (ground (arith, c))))),
      )
      | inr refused ↦ (
        (λ h. absurd (ground (arith, refused))),
        (λ h. absurd (ground (arith, h x, ==_iff x x, refused))),
      )
    ]

judge_iff :
    (known : Option IdentitySpec) (root_id : String) (role_paths : List String)
    → (judge known root_id role_paths ≡ ok tt) ↔ (
        (i : IdentitySpec) × (known ≡ some i)
        × ((path : String) → contains role_paths path ≡ true → can_control i root_id path ≡ true))
unfolding judge denied
judge_iff none root_id role_paths =
    ((λ h. absurd (ground (arith, h))), (λ (i, e, c). absurd (ground (arith, e))))
judge_iff (some i) root_id role_paths =
    let (allowed, passes) = refuse-keep (can_control i root_id) role_paths in
    ((λ h. (i, refl, allowed h)), (λ (j, e, c). passes (λ path m. ground (arith, e, c path m))))

-- A run is allowed exactly when the identity is known and may control every role of the run.
pub require_control_iff :
    (identities : Dict String IdentitySpec) (identity_id root_id : String)
    (role_paths : List String)
    → (require_control identities identity_id root_id role_paths ≡ ok tt) ↔ (
        (i : IdentitySpec) × (Dict.get identities identity_id ≡ some i)
        × ((path : String) → contains role_paths path ≡ true → can_control i root_id path ≡ true))
unfolding require_control
require_control_iff identities identity_id root_id role_paths =
    judge_iff (Dict.get identities identity_id) root_id role_paths
