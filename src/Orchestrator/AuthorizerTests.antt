-- ===== src/Orchestrator/AuthorizerTests.antt =====
-- `RegistryControlAuthorizer` of remote_robot/orchestrator.py at concrete inputs.
use remote_robot.Prelude.{◌↔◌, true, String, ◌≡◌, refl, some, [], ◌∷◌, contains, string_eq}
use remote_robot.Orchestrator.{ok, raise, authorization}
use remote_robot.Dict
use remote_robot.Registry.Nodes.{IdentitySpec, can_control}
use remote_robot.Orchestrator.Authorizer
use remote_robot.Orchestrator.Authorizer.{require_control, require_control_iff}

abbrev operator : IdentitySpec
operator = record {
  identity_id = "me";
  credential_env = "ME";
  discover = [];
  observe = [];
  control = "root.arm.wrist" ∷ [];
  emergency_stop = [];
}

abbrev known : Dict.Dict String IdentitySpec
known = record { entries = ("me", operator) ∷ [] }

-- A role that the identity may not move.
denied : require_control known "me" "root" ("arm.wrist" ∷ "leg.foot" ∷ []) ≡ raise authorization
unfolding require_control Authorizer.judge Authorizer.denied Authorizer.refuse can_control contains
    Dict.get Dict.lookup
denied = refl

require_control_iff_example : (require_control known "me" "root" ("arm.wrist" ∷ []) ≡ ok tt) ↔ (
    (i : IdentitySpec) × (Dict.get known "me" ≡ some i)
    × ((path : String)
        → contains ("arm.wrist" ∷ []) path ≡ true
        → can_control i "root" path ≡ true))
require_control_iff_example = require_control_iff known "me" "root" ("arm.wrist" ∷ [])
