-- ===== src/Tests/Fleet.antt =====
-- A fleet of one pool and one host, and a plan that places one job.
use aiggp_agentic_framework.Base.{
  ◌+◌, ◌++◌, length, arith, String, ◌≡◌, refl, Bool, true, false, none, some, List, [], ◌∷◌, ok,
  err, ◌>>=◌, string_dec,
}
use aiggp_agentic_framework.Fleet.Values.{
  Pool, Host, HostState, TrustClass, Runtime, check_pool, check_host, check_assignment, refusal_for,
  make_capacity, is_identifier, is_digest, is_text, is_repository, is_request_id,
}
use aiggp_agentic_framework.Fleet.Desired.{
  DesiredState, check_state, find_pool, find_host, capacity, in_use, bumped, with_assignment,
}
use aiggp_agentic_framework.Fleet.Desired.Soundness.{IsSound}
use aiggp_agentic_framework.Fleet.Desired.Spec.{Operation, Step}
use aiggp_agentic_framework.Fleet.Plan.Simulation.{Asks, simulate-Step, simulate-IsSound}
use aiggp_agentic_framework.Fleet.Apply.Outcomes.{Written}
use aiggp_agentic_framework.Fleet.Apply.Faults.{Expected}
use aiggp_agentic_framework.Fleet.Apply.Contract.{
  apply_plan-IsSound, apply_plan_once, apply_plan_authorized, apply_plan_again, apply_plan_faults,
}
use aiggp_agentic_framework.Fleet.Auth.{Principal, PrincipalKind, Scope, holds, require_scope}
use aiggp_agentic_framework.Fleet.Plan.{
  Outside, Plan, Change, ChangeKind, simulate, simulate_kind, parameter, destructive_plan,
  check_plan, plan_id_for,
}
use aiggp_agentic_framework.Fleet.Audit.{
  AuditEvent, Outcome, Refusal, stale, append, check_event, check_log, is_action,
}
use aiggp_agentic_framework.Fleet.Apply.{
  ApplyFault, ApplyResult, apply_plan, execute, run_changes, is_key, except_unauthorized,
  required_scopes, lookup, except_model, with_applied, check_ledger, record_event, replay, refuse,
}

-- every text is an instant, and digests are constant
abbrev outside : Outside
outside = record { instant = λ t. some 7; iso = λ n. "now"; digest32 = λ n cs. "d1" }

abbrev pub image_a : String
image_a = "sha256:aaaaaaaaaaaaaaaaaaaaaaaaaaaaaaaaaaaaaaaaaaaaaaaaaaaaaaaaaaaaaaaa"

abbrev image_b : String
image_b = "sha256:bbbbbbbbbbbbbbbbbbbbbbbbbbbbbbbbbbbbbbbbbbbbbbbbbbbbbbbbbbbbbbbb"

abbrev pub pool : Pool
pool = record {
  pool_id = "linux";
  revision = 1;
  trust_class = TrustClass.private;
  required_labels = ("os", "linux") ∷ [];
  runtime = Runtime.docker;
  image_digest = image_a;
  architectures = "amd64" ∷ [];
  warm_min = 0;
  warm_max = 1;
  scale_ceiling = 2;
  idle_timeout_seconds = 60;
  job_timeout_seconds = 60;
  cleanup_timeout_seconds = 60;
  network_profile = "default";
  filesystem_profile = "default";
  secret_profile = "default";
  update_channel = "stable";
  rollback_image_digest = image_b;
  maintenance_window = "sunday";
  max_parallel = 1;
  owner = "ops";
  escalation = "ops";
  allowed_repositories = "o/r" ∷ [];
  runner_group = none;
  ephemeral = true;
}

pub pool_is_valid : check_pool pool ≡ ok tt
unfolding check_pool string_dec ◌>>=◌ is_identifier is_digest is_text is_repository
pool_is_valid = refl

abbrev pub host : Host
host = record {
  host_id = "h1";
  architectures = "amd64" ∷ [];
  runtimes = Runtime.docker ∷ [];
  labels = [];
  allowed_pools = "linux" ∷ [];
  slots = 1;
  state = HostState.active;
}

pub host_is_valid : check_host host ≡ ok tt
unfolding check_host string_dec ◌>>=◌ is_identifier
host_is_valid = refl

abbrev pub world : DesiredState
world = record {
  revision = 1;
  repositories = [];
  pools = pool ∷ [];
  hosts = host ∷ [];
  assignments = [];
  drains = [];
  rollouts = [];
}

pub world_is_valid : check_state world ≡ ok tt
unfolding check_state string_dec ◌>>=◌
world_is_valid = refl

-- what a run of the model computes through
runs : Unit {0}
unfolding ◌>>=◌ string_dec is_identifier is_request_id is_digest is_text is_repository check_pool
    check_host check_assignment check_state refusal_for make_capacity find_pool find_host capacity
    in_use bumped with_assignment parameter simulate simulate_kind holds require_scope append
    check_event check_log is_action is_key except_unauthorized required_scopes lookup except_model
    with_applied check_ledger record_event execute replay run_changes apply_plan refuse
runs = tt

abbrev operator : Principal
operator = record {
  principal_id = "ops";
  kind = PrincipalKind.operator;
  scopes = Scope.fleet_apply ∷ [];
}

abbrev place : Change
place = record {
  kind = ChangeKind.assign;
  subject = "a1";
  parameters =
      ("assignment_id", "a1")
      ∷ ("request_id", "r1")
      ∷ ("pool_id", "linux")
      ∷ ("host_id", "h1")
      ∷ [];
}

abbrev plan : Plan
plan = record {
  plan_id = "plan:d1";
  base_revision = 1;
  changes = place ∷ [];
  impacts = [];
  resulting_revision = 2;
}

abbrev calm : Refusal → Bool
calm r = false

abbrev after_place : DesiredState
after_place = record world {
  revision = 2;
  assignments =
      record {
        assignment_id = "a1";
        request_id = "r1";
        pool_id = "linux";
        host_id = "h1";
        issued_at = "now";
        released_at = none;
      }
      ∷ [];
}

place_runs : simulate outside "now" world place ≡ ok after_place
unfolding runs
place_runs = refl

abbrev placed : AuditEvent
placed = record {
  seq = 1;
  at = "now";
  actor = operator;
  action = "assign";
  subject = "a1";
  outcome = Outcome.applied;
  plan_id = some "plan:d1";
  idempotency_key = some "k1";
  reason = none;
}

abbrev result : ApplyResult
result = record {
  state = after_place;
  audit_log = placed ∷ [];
  ledger = record { key = "k1"; plan_id = "plan:d1"; revision = 2 } ∷ [];
  plan_id = "plan:d1";
  base_revision = 1;
  resulting_revision = 2;
  replayed = false;
}

plan_applies : apply_plan outside calm world plan operator "now" "k1" [] [] ≡ ok result
unfolding runs
plan_applies = refl

world-IsSound : IsSound world
unfolding in_use
world-IsSound = record {
  ids_unique = refl;
  fits = λ id h e. omega arith;
  drained_idle = λ id h e d. refl;
}

simulate-IsSound_example : IsSound after_place
simulate-IsSound_example =
    simulate-IsSound outside "now" world after_place place place_runs world-IsSound

simulate-Step_example :
    (op : Operation) × Asks place op × Step outside.instant "now" world after_place op
simulate-Step_example = simulate-Step outside "now" world after_place place place_runs

apply_plan-IsSound_example : IsSound after_place
apply_plan-IsSound_example =
    apply_plan-IsSound outside calm world plan operator "now" "k1" [] [] result plan_applies
      world-IsSound

apply_plan_once_example :
    (plan.base_revision ≡ world.revision)
    × (result.state.revision ≡ world.revision + length plan.changes)
    × (result.state.revision ≡ plan.resulting_revision)
    × Written outside calm "now" operator plan "k1" plan.changes [] result.audit_log
    × (result.ledger
        ≡ []
          ++ record { key = "k1"; plan_id = plan.plan_id; revision = result.state.revision } ∷ [])
apply_plan_once_example =
    apply_plan_once outside calm world plan operator "now" "k1" [] [] result plan_applies refl

apply_plan_authorized_example :
    (holds operator Scope.fleet_apply ≡ true)
    × (destructive_plan plan ≡ true → holds operator Scope.fleet_admin ≡ true)
apply_plan_authorized_example =
    apply_plan_authorized outside calm world plan operator "now" "k1" [] [] result plan_applies

-- the same key again, on the world that the first apply left
abbrev again : ApplyResult
again = record result {
  audit_log =
      placed
      ∷ record {
        seq = 2;
        at = "now";
        actor = operator;
        action = "apply";
        subject = "plan:d1";
        outcome = Outcome.replayed;
        plan_id = some "plan:d1";
        idempotency_key = some "k1";
        reason = none;
      }
      ∷ [];
  replayed = true;
}

plan_replays :
    apply_plan outside calm after_place plan operator "now" "k1" result.ledger (placed ∷ [])
    ≡ ok again
unfolding runs
plan_replays = refl

apply_plan_again_example :
    (plan.plan_id ≡ plan.plan_id)
    × (again.replayed ≡ true)
    × (again.state ≡ after_place)
    × (again.ledger ≡ result.ledger)
    × (again.resulting_revision ≡ result.resulting_revision)
apply_plan_again_example =
    apply_plan_again outside calm world plan operator "now" "k1" [] [] result plan_applies
      after_place plan operator "now" (placed ∷ []) again plan_replays

-- a plan against another revision
abbrev stale_reason : Refusal
stale_reason = stale 1 2

abbrev refused_log : List AuditEvent
refused_log =
    record {
      seq = 1;
      at = "now";
      actor = operator;
      action = "apply";
      subject = "plan:d1";
      outcome = Outcome.refused;
      plan_id = some "plan:d1";
      idempotency_key = some "k1";
      reason = some stale_reason;
    }
    ∷ []

stale_plan_is_refused :
    apply_plan outside calm after_place plan operator "now" "k1" [] []
    ≡ err (ApplyFault.refused stale_reason refused_log)
unfolding runs
stale_plan_is_refused = refl

plan_is_valid : check_plan outside plan ≡ ok tt
unfolding check_plan plan_id_for string_dec ◌>>=◌
plan_is_valid = refl

no_entries_is_valid : check_ledger [] ≡ ok tt
unfolding runs
no_entries_is_valid = refl

apply_plan_faults_example :
    Expected outside calm "now" operator plan "k1" [] (ApplyFault.refused stale_reason refused_log)
apply_plan_faults_example =
    apply_plan_faults outside calm after_place plan operator "now" "k1" [] []
      (ApplyFault.refused stale_reason refused_log) plan_is_valid no_entries_is_valid (omega arith)
      stale_plan_is_refused
