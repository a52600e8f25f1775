-- ===== src/Fleet/Auth.antt =====
-- auth.py: principals and the ladder of scopes.
use aiggp_agentic_framework.Base.{String, Bool, true, false, List, Result, require, any}
use aiggp_agentic_framework.Fleet.Values.{is_request_id}

pub data Scope : Type 0 where
  fleet_read fleet_plan fleet_apply fleet_admin : Scope

pub data PrincipalKind : Type 0 where
  operator system service : PrincipalKind

-- A refusal names the scope that was required.
pub data AuthorizationError : Type 0 where
  bad_principal : AuthorizationError
  needs : Scope → AuthorizationError

pub record Principal : Type 0 where
  pub principal_id : String
  pub kind : PrincipalKind
  pub scopes : List Scope

-- `Principal.__post_init__`
unfoldable pub check_principal : Principal → Result AuthorizationError (Unit {0})
check_principal p = require (is_request_id p.principal_id) bad_principal

-- `_SATISFIED_BY`: the granted scope is among those that satisfy the required one.
unfoldable pub satisfied_by : Scope → Scope → Bool
satisfied_by fleet_read _ = true
satisfied_by fleet_plan fleet_read = false
satisfied_by fleet_plan _ = true
satisfied_by fleet_apply fleet_apply = true
satisfied_by fleet_apply fleet_admin = true
satisfied_by fleet_apply _ = false
satisfied_by fleet_admin fleet_admin = true
satisfied_by fleet_admin _ = false

unfoldable pub holds : Principal → Scope → Bool
unfolding satisfied_by
holds p scope = any (satisfied_by scope) p.scopes

unfoldable pub require_scope : Principal → Scope → Result AuthorizationError (Unit {0})
require_scope p scope = require (holds p scope) (needs scope)
