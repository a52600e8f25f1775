-- ===== src/Fleet/Apply.antt =====
-- apply.py: the one place where a plan becomes a new revision.
pub mod Outcomes
pub mod Contract
pub mod Faults
use text.Mathlib.Text.{starts_with}
use aiggp_agentic_framework.Base.{
  ℕ, zero, suc, ◌+◌, String, Bool, true, false, not, Option, none, some, List, [], ◌∷◌, ◌++◌,
  Result, ok, err, ◌>>=◌, ◌>>◌, require, refuse_if, map_err, each, unique, leb, nat_eq, ◌==◌,
  if◌then◌else◌,
}
use aiggp_agentic_framework.Base.Text.{codes, headed, up_to, is_alnum, one_of}
use aiggp_agentic_framework.Fleet.Values.{ModelError, timestamp}
use aiggp_agentic_framework.Fleet.Desired.{DesiredState}
use aiggp_agentic_framework.Fleet.Auth.{
  AuthorizationError, Principal, Scope, require_scope, fleet_apply, fleet_admin,
}
use aiggp_agentic_framework.Fleet.Plan.{
  Outside, Plan, Change, ChangeKind, PlanError, model, simulate, destructive_plan,
}
use aiggp_agentic_framework.Fleet.Audit.{
  AuditLog, AuditError, Outcome, applied, replayed, Refusal, unauthorized, key_reused, stale,
  not_possible, append,
}

-- `data` with a constructor for each way an apply ends without a result: a refusal with the log
-- that records it, an error of `apply.py`, or one that its calls raise and nothing catches.
pub data ApplyFault : Type 0 where
  refused : Refusal → AuditLog → ApplyFault
  bad_key : String → ApplyFault
  bad_ledger : String → ApplyFault
  bad_instant : ModelError → ApplyFault
  recorded_twice : ApplyFault
  wrong_revision : ℕ → ℕ → ApplyFault
  from_audit : AuditError → ApplyFault
  from_plan : PlanError → ApplyFault

abbrev key_rest : ℕ → Bool
key_rest c = if is_alnum c then true else one_of (b'.' ∷ b'_' ∷ b':' ∷ b'-' ∷ []) c

unfoldable pub is_key : String → Bool
unfolding headed up_to
is_key s = headed is_alnum key_rest 127 (codes s)

abbrev check_key : String → String → Result ApplyFault (Unit {0})
check_key value place = require (is_key value) (bad_key place)

pub record Entry : Type 0 where
  pub key : String
  pub plan_id : String
  pub revision : ℕ

abbrev pub IdempotencyLedger : Type 0
IdempotencyLedger = List Entry

entry_keys : List Entry → List String
entry_keys [] = []
entry_keys (e ∷ es) = e.key ∷ entry_keys es

check_entry : Entry → Result ApplyFault (Unit {0})
check_entry e = do
  check_key e.key "idempotency.entries.key"
  require (starts_with e.plan_id "plan:") (bad_ledger "plan_id")
  require (leb 2 e.revision) (bad_ledger "revision")

-- `IdempotencyLedger.__post_init__`
unfoldable pub check_ledger : IdempotencyLedger → Result ApplyFault (Unit {0})
unfolding each check_entry entry_keys
check_ledger entries = do
  each check_entry entries
  require (unique (entry_keys entries)) (bad_ledger "key appears twice")

unfoldable pub lookup : String → IdempotencyLedger → Option (String × ℕ)
lookup key [] = none
lookup key (e ∷ es) = if e.key == key then some (e.plan_id, e.revision) else lookup key es

abbrev unrecorded : Option (String × ℕ) → Result ApplyFault (Unit {0})
unrecorded none = ok tt
unrecorded (some p) = err recorded_twice

unfoldable pub with_applied :
    String → String → ℕ → IdempotencyLedger → Result ApplyFault IdempotencyLedger
with_applied key plan_id revision entries = do
  check_key key "idempotency.key"
  unrecorded (lookup key entries)
  let grown = entries ++ record { key = key; plan_id = plan_id; revision = revision } ∷ []
  check_ledger grown
  ok grown

pub record ApplyResult : Type 0 where
  pub state : DesiredState
  pub audit_log : AuditLog
  pub ledger : IdempotencyLedger
  pub plan_id : String
  pub base_revision : ℕ
  pub resulting_revision : ℕ
  pub replayed : Bool

-- the spelling of a change in the log
abbrev pub kind_name : ChangeKind → String
kind_name ChangeKind.assign = "assign"
kind_name ChangeKind.release = "release"
kind_name ChangeKind.drain = "drain"
kind_name ChangeKind.complete_drain = "complete_drain"
kind_name ChangeKind.return_to_service = "return_to_service"
kind_name ChangeKind.rollout = "rollout"

-- the scopes that the plan needs: of every plan `fleet.apply`, of a destructive one `fleet.admin`
unfoldable pub required_scopes : Principal → Plan → Result AuthorizationError (Unit {0})
required_scopes principal plan = do
  require_scope principal fleet_apply
  if destructive_plan plan then require_scope principal fleet_admin else ok tt

module _ (out : Outside) (secret_shaped : Refusal → Bool) where
  -- one entry of the log
  unfoldable pub record_event :
      String
      → Principal
      → Plan
      → String
      → String
      → String
      → Outcome
      → Option Refusal
      → AuditLog
      → Result ApplyFault AuditLog
  record_event at principal plan key action subject outcome reason log = map_err from_audit (
      append out.instant secret_shaped at principal action subject outcome plan.plan_id key reason
        log)

  -- `raise refused(message)`
  unfoldable pub refuse :
      {A : Type 0} → String → Principal → Plan → String → AuditLog → Refusal → Result ApplyFault A
  refuse at principal plan key log reason = do
    log' ← record_event at principal plan key "apply" plan.plan_id Outcome.refused (some reason) log
    err (refused reason log')

  -- `except ModelError`: another error goes through
  unfoldable pub except_model :
      {A : Type 0}
      → String
      → Principal
      → Plan
      → String
      → AuditLog
      → ℕ
      → ChangeKind
      → Result PlanError A
      → Result ApplyFault A
  except_model at principal plan key log index kind (ok a) = ok a
  except_model at principal plan key log index kind (err (model e)) =
      refuse at principal plan key log (not_possible index kind e)
  except_model at principal plan key log index kind (err e) = err (from_plan e)

  -- The loop over the changes: the working state and the pending log. A refusal is recorded on
  -- the log that the apply began with.
  unfoldable pub run_changes :
      String
      → Principal
      → Plan
      → String
      → AuditLog
      → ℕ
      → List Change
      → DesiredState
      → AuditLog
      → Result ApplyFault (DesiredState × AuditLog)
  run_changes at principal plan key log index [] working pending = ok (working, pending)
  run_changes at principal plan key log index (c ∷ cs) working pending = do
    next ← except_model at principal plan key log index c.kind (simulate out at working c)
    longer ← record_event at principal plan key (kind_name c.kind) c.subject applied none pending
    run_changes at principal plan key log (suc index) cs next longer

  -- `except AuthorizationError`: a refusal, which is recorded
  unfoldable pub except_unauthorized :
      String
      → Principal
      → Plan
      → String
      → AuditLog
      → Result AuthorizationError (Unit {0})
      → Result ApplyFault (Unit {0})
  except_unauthorized at principal plan key log (ok u) = ok tt
  except_unauthorized at principal plan key log (err e) =
      refuse at principal plan key log (unauthorized e)

  -- the work, for a key that is not in the ledger
  unfoldable pub execute :
      DesiredState
      → Plan
      → Principal
      → String
      → String
      → IdempotencyLedger
      → AuditLog
      → Result ApplyFault ApplyResult
  execute s plan principal at key book log =
      if nat_eq plan.base_revision s.revision
      then (do
        done ← run_changes at principal plan key log 0 plan.changes s log
        require (nat_eq done.0.revision plan.resulting_revision)
            (wrong_revision done.0.revision plan.resulting_revision)
        book' ← with_applied key plan.plan_id done.0.revision book
        ok (record {
          state = done.0;
          audit_log = done.1;
          ledger = book';
          plan_id = plan.plan_id;
          base_revision = plan.base_revision;
          resulting_revision = done.0.revision;
          replayed = false;
        }))
      else refuse at principal plan key log (stale plan.base_revision s.revision)

  -- a key that is in the ledger: the same plan is replayed, another is refused
  unfoldable pub replay :
      DesiredState
      → Plan
      → Principal
      → String
      → String
      → IdempotencyLedger
      → AuditLog
      → String × ℕ
      → Result ApplyFault ApplyResult
  replay s plan principal at key book log (recorded_plan, recorded_revision) =
      if recorded_plan == plan.plan_id
      then (do
        log' ← record_event at principal plan key "apply" plan.plan_id Outcome.replayed none log
        ok (record {
          state = s;
          audit_log = log';
          ledger = book;
          plan_id = plan.plan_id;
          base_revision = plan.base_revision;
          resulting_revision = recorded_revision;
          replayed = true;
        }))
      else refuse at principal plan key log (key_reused recorded_plan plan.plan_id)

  unfoldable pub apply_plan :
      DesiredState
      → Plan
      → Principal
      → String
      → String
      → IdempotencyLedger
      → AuditLog
      → Result ApplyFault ApplyResult
  apply_plan s plan principal at key book log = do
    check_key key "apply.idempotency_key"
    map_err bad_instant (timestamp out.instant at "apply.at")
    except_unauthorized at principal plan key log (required_scopes principal plan)
    elim (lookup key book) [
      | some previous ↦ replay s plan principal at key book log previous
      | none ↦ execute s plan principal at key book log
    ]
