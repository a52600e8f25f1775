-- ===== src/Fleet/Audit/Growth.antt =====
-- What an append does to a log.
use aiggp_agentic_framework.Base.{
  ℕ, ◌+◌, String, ◌≡◌, refl, sym, Bool, Option, some, [], ◌∷◌, ◌++◌, ok, >>=-eq-ok, length,
  ok-injective,
}
use aiggp_agentic_framework.Fleet.Auth.{Principal}
use aiggp_agentic_framework.Fleet.Audit.{AuditLog, AuditEvent, Outcome, Refusal, append, check_log}

-- One entry at the end of a log, and what it says.
pub record Records (at : String) (actor : Principal) (action subject : String) (outcome : Outcome)
    (plan_id key : String) (reason : Option Refusal) (log log' : AuditLog) (e : AuditEvent)
    : Type 0 where
  pub grown : log' ≡ log ++ e ∷ []
  pub numbered : e.seq ≡ length log + 1
  pub stamped : e.at ≡ at
  pub by : e.actor ≡ actor
  pub says : e.action ≡ action
  pub about : e.subject ≡ subject
  pub how : e.outcome ≡ outcome
  pub plan : e.plan_id ≡ some plan_id
  pub under : e.idempotency_key ≡ some key
  pub why : e.reason ≡ reason

module _ (instant : String → Option ℕ) (secret_shaped : Refusal → Bool) where
  pub append-Records :
      (at : String) (actor : Principal) (action subject : String) (outcome : Outcome)
      (plan_id key : String) (reason : Option Refusal) (log log' : AuditLog)
      → append instant secret_shaped at actor action subject outcome plan_id key reason log
        ≡ ok log'
      → (e : AuditEvent) × Records at actor action subject outcome plan_id key reason log log' e
        × (check_log instant secret_shaped log' ≡ ok tt)
  unfolding append
  append-Records at actor action subject outcome plan_id key reason log log' h =
      let (x, fine, h1) = >>=-eq-ok _ _ h in
      let (y, whole, h2) = >>=-eq-ok _ _ h1 in
      let same = ok-injective _ _ h2 in
      (
        record {
          seq = length log + 1;
          at = at;
          actor = actor;
          action = action;
          subject = subject;
          outcome = outcome;
          plan_id = some plan_id;
          idempotency_key = some key;
          reason = reason;
        },
        record {
          grown = sym same;
          numbered = refl;
          stamped = refl;
          by = refl;
          says = refl;
          about = refl;
          how = refl;
          plan = refl;
          under = refl;
          why = refl;
        },
        rw (← same) whole,
      )
