-- ===== src/Fleet/Audit.antt =====
-- audit.py: the append-only log of what was applied, refused and replayed. A reason is the error
-- that the message of the log spells; `secret_shaped` is the search of `re` in that message.
pub mod Growth
use aiggp_agentic_framework.Base.{
  ℕ, zero, suc, ◌+◌, String, Bool, true, false, not, Option, none, some, List, [], ◌∷◌, ◌++◌,
  Result, ok, err, ◌>>=◌, ◌>>◌, require, refuse_if, map_err, length, keep, ltb, leb, nat_eq, ◌==◌,
  if◌then◌else◌,
}
use aiggp_agentic_framework.Base.Text.{codes, headed, up_to, is_lower, is_digit, one_of}
use aiggp_agentic_framework.Fleet.Values.{ModelError, timestamp}
use aiggp_agentic_framework.Fleet.Auth.{AuthorizationError, Principal}
use aiggp_agentic_framework.Fleet.Plan.{ChangeKind}

pub data Outcome : Type 0 where
  applied refused replayed : Outcome

-- Why an apply is refused.
pub data Refusal : Type 0 where
  unauthorized : AuthorizationError → Refusal
  key_reused : String → String → Refusal
  stale : ℕ → ℕ → Refusal
  not_possible : ℕ → ChangeKind → ModelError → Refusal

pub data AuditError : Type 0 where
  bad_field : String → AuditError
  bad_instant : ModelError → AuditError
  secret_reason : AuditError
  broken_sequence : ℕ → AuditError
  runs_backwards : ℕ → AuditError

pub record AuditEvent : Type 0 where
  pub seq : ℕ
  pub at : String
  pub actor : Principal
  pub action : String
  pub subject : String
  pub outcome : Outcome
  pub plan_id : Option String
  pub idempotency_key : Option String
  pub reason : Option Refusal

abbrev pub AuditLog : Type 0
AuditLog = List AuditEvent

abbrev action_rest : ℕ → Bool
action_rest c =
    if is_lower c then true else if is_digit c then true else one_of (b'.' ∷ b'_' ∷ b'-' ∷ []) c

unfoldable pub is_action : String → Bool
unfolding headed up_to
is_action s = headed is_lower action_rest 63 (codes s)

module _ (instant : String → Option ℕ) (secret_shaped : Refusal → Bool) where
  abbrev event_instant : String → Result AuditError ℕ
  event_instant at = map_err bad_instant (timestamp instant at "audit_event.at")

  abbrev no_secret : Option Refusal → Result AuditError (Unit {0})
  no_secret none = ok tt
  no_secret (some r) = refuse_if (secret_shaped r) secret_reason

  -- `AuditEvent.__post_init__`
  unfoldable pub check_event : AuditEvent → Result AuditError (Unit {0})
  check_event e = do
    require (leb 1 e.seq) (bad_field "audit_event.seq")
    event_instant e.at
    require (is_action e.action) (bad_field "audit_event.action")
    refuse_if (e.subject == "") (bad_field "audit_event.subject")
    no_secret e.reason

  -- the loop of `AuditLog.__post_init__` from the entry at `index`, after the one before it
  unfoldable pub check_from : ℕ → Option AuditEvent → List AuditEvent → Result AuditError (Unit {0})
  check_from index previous [] = ok tt
  check_from index previous (e ∷ es) = do
    require (nat_eq e.seq (index + 1)) (broken_sequence index)
    elim previous [
      | none ↦ ok tt
      | some p ↦ (do
        now ← event_instant e.at
        before ← event_instant p.at
        refuse_if (ltb now before) (runs_backwards index))
    ]
    check_from (suc index) (some e) es

  unfoldable pub check_log : AuditLog → Result AuditError (Unit {0})
  unfolding check_from
  check_log events = check_from 0 none events

  -- `AuditLog.append`: the next number, then both constructors.
  unfoldable pub append :
      String
      → Principal
      → String
      → String
      → Outcome
      → String
      → String
      → Option Refusal
      → AuditLog
      → Result AuditError AuditLog
  append at actor action subject outcome plan_id key reason log = do
    let event : AuditEvent = record {
      seq = length log + 1;
      at = at;
      actor = actor;
      action = action;
      subject = subject;
      outcome = outcome;
      plan_id = some plan_id;
      idempotency_key = some key;
      reason = reason;
    }
    check_event event
    check_log (log ++ event ∷ [])
    ok (log ++ event ∷ [])

abbrev names_plan : String → Option String → Bool
names_plan id none = false
names_plan id (some p) = p == id

unfoldable pub for_plan : String → AuditLog → List AuditEvent
for_plan id log = keep (λ (e : AuditEvent). names_plan id e.plan_id) log

unfoldable pub after : ℕ → AuditLog → List AuditEvent
after seq log = keep (λ (e : AuditEvent). ltb seq e.seq) log
