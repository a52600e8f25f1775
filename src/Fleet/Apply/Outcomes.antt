-- ===== src/Fleet/Apply/Outcomes.antt =====
-- What `apply_plan` does to the desired state, the log and the ledger, whatever its outcome.
use mathlib.Core.Path.{subst}
use aiggp_agentic_framework.Base.{
  ℕ, suc, ◌+◌, String, ◌≡◌, refl, sym, ap, ok-pair, ok-injective, Bool, true, false, Option, none,
  some, List, [], ◌∷◌, ◌++◌, Result, ok, err, ◌>>=◌, >>=-eq-ok, require-ok, nat_eq, nat_eq-to_eq,
  map_err-ok, length, arith, Bool-cases, Option-cases, inl, inr, ◌⊎◌,
}
use aiggp_agentic_framework.Fleet.Desired.{DesiredState}
use aiggp_agentic_framework.Fleet.Desired.Soundness.{IsSound}
use aiggp_agentic_framework.Fleet.Auth.{Principal}
use aiggp_agentic_framework.Fleet.Plan.{Outside, Plan, Change, ChangeKind, PlanError, model}
use aiggp_agentic_framework.Fleet.Plan.Simulation.{simulate-IsSound, simulate-revision}
use aiggp_agentic_framework.Fleet.Audit.{AuditLog, AuditEvent, Outcome, applied, Refusal}
use aiggp_agentic_framework.Fleet.Audit.Growth.{Records, append-Records}
use aiggp_agentic_framework.Fleet.Apply.{
  ApplyResult, IdempotencyLedger, lookup, check_ledger, with_applied, execute, replay, apply_plan,
  from_audit, kind_name, record_event, refuse, except_model, run_changes,
}

module _ (out : Outside) (secret_shaped : Refusal → Bool) (at : String) (principal : Principal)
    (plan : Plan) (key : String) where
  pub record_event-Records :
      (action subject : String) (outcome : Outcome) (reason : Option Refusal) (log log' : AuditLog)
      → record_event out secret_shaped at principal plan key action subject outcome reason log
        ≡ ok log'
      → (e : AuditEvent) × Records at principal action subject outcome plan.plan_id key reason log
          log' e
  unfolding record_event
  record_event-Records action subject outcome reason log log' h =
      let (e, said, whole) =
        append-Records out.instant secret_shaped at principal action subject outcome plan.plan_id
          key reason log log' (map_err-ok from_audit _ h) in
      (e, said)

  -- an `except_model` that returns passes its value on
  except_model-ok :
      {A : Type 0} (log : AuditLog) (index : ℕ) (kind : ChangeKind) (r : Result PlanError A) {a : A}
      → except_model out secret_shaped at principal plan key log index kind r ≡ ok a
      → r ≡ ok a
  unfolding except_model refuse ◌>>=◌
  except_model-ok log index kind (ok x) h = ground arith
  except_model-ok log index kind (err (model e)) h = ground arith
  except_model-ok log index kind (err e) h = ground arith

  module _ (log : AuditLog) where
    pub run_changes-revision :
        (index : ℕ) (cs : List Change) (s u : DesiredState) (pending grown : AuditLog)
        → run_changes out secret_shaped at principal plan key log index cs s pending ≡ ok (u, grown)
        → u.revision ≡ s.revision + length cs
    unfolding run_changes
    run_changes-revision index [] s u pending grown h =
        omega (arith, ap (λ (t : DesiredState). t.revision) (ok-pair _ _ _ _ h).0)
    run_changes-revision index (c ∷ cs) s u pending grown h =
        let (next, stepped, h1) = >>=-eq-ok _ _ h in
        let (longer, written, h2) = >>=-eq-ok _ _ h1 in
        omega (
          arith,
          simulate-revision out at s next c (except_model-ok log index c.kind _ stepped),
          run_changes-revision (suc index) cs next u longer grown h2,
        )

    pub run_changes-IsSound :
        (index : ℕ) (cs : List Change) (s u : DesiredState) (pending grown : AuditLog)
        → run_changes out secret_shaped at principal plan key log index cs s pending ≡ ok (u, grown)
        → IsSound s
        → IsSound u
    unfolding run_changes
    run_changes-IsSound index [] s u pending grown h v = subst IsSound (ok-pair _ _ _ _ h).0 v
    run_changes-IsSound index (c ∷ cs) s u pending grown h v =
        let (next, stepped, h1) = >>=-eq-ok _ _ h in
        let (longer, written, h2) = >>=-eq-ok _ _ h1 in
        run_changes-IsSound (suc index) cs next u longer grown h2
          (simulate-IsSound out at s next c (except_model-ok log index c.kind _ stepped) v)

  -- The entries that a run adds: one for each change, in order.
  abbrev pub Written : List Change → AuditLog → AuditLog → Type 0
  Written [] log log' = log' ≡ log
  Written (c ∷ cs) log log' =
      (mid : AuditLog) × (e : AuditEvent) × Records at principal (kind_name c.kind) c.subject
        applied plan.plan_id key none log mid e
      × Written cs mid log'

  pub run_changes-Written :
      (log : AuditLog) (index : ℕ) (cs : List Change) (s u : DesiredState)
      (pending grown : AuditLog)
      → run_changes out secret_shaped at principal plan key log index cs s pending ≡ ok (u, grown)
      → Written cs pending grown
  unfolding run_changes
  run_changes-Written log index [] s u pending grown h = sym (ok-pair _ _ _ _ h).1
  run_changes-Written log index (c ∷ cs) s u pending grown h =
      let (next, stepped, h1) = >>=-eq-ok _ _ h in
      let (longer, written, h2) = >>=-eq-ok _ _ h1 in
      let (e, said) = record_event-Records _ _ _ _ pending longer written in
      (longer, e, said, run_changes-Written log (suc index) cs next u longer grown h2)

refuse-ne-ok :
    (out : Outside) (secret_shaped : Refusal → Bool) (at : String) (principal : Principal)
    (plan : Plan) (key : String) {A : Type 0} (log : AuditLog) (reason : Refusal) (a : A)
    → refuse out secret_shaped at principal plan key log reason ≡ ok a
    → ⊥
unfolding refuse ◌>>=◌
refuse-ne-ok out secret_shaped at principal plan key log reason a h = ground arith

with_applied-eq :
    (key id : String) (n : ℕ) (entries grown : IdempotencyLedger)
    → with_applied key id n entries ≡ ok grown
    → (grown ≡ entries ++ record { key = key; plan_id = id; revision = n } ∷ [])
      × (check_ledger grown ≡ ok tt)
unfolding with_applied
with_applied-eq key id n entries grown h =
    let (x, good, h1) = >>=-eq-ok _ _ h in
    let (y, fresh, h2) = >>=-eq-ok _ _ h1 in
    let (z, fine, h3) = >>=-eq-ok _ _ h2 in let e = ok-injective _ _ h3 in (sym e, rw (← e) fine)

-- How `apply_plan` ends: what the result is made of.
module _ (out : Outside) (secret_shaped : Refusal → Bool) (s : DesiredState) (plan : Plan)
    (principal : Principal) (at key : String) (book : IdempotencyLedger) (log : AuditLog) where
  -- a result that is not a replay
  pub record Executed (r : ApplyResult) : Type 0 where
    pub on_base : plan.base_revision ≡ s.revision
    pub fresh : lookup key book ≡ none
    pub ran :
        run_changes out secret_shaped at principal plan key log 0 plan.changes s log
        ≡ ok (r.state, r.audit_log)
    pub as_planned : r.state.revision ≡ plan.resulting_revision
    pub ledger :
        r.ledger
        ≡ book ++ record { key = key; plan_id = plan.plan_id; revision = r.state.revision } ∷ []
    pub valid_ledger : check_ledger r.ledger ≡ ok tt
    pub reported : r.resulting_revision ≡ r.state.revision
    pub not_replayed : r.replayed ≡ false

  -- a replay
  pub record Replayed (r : ApplyResult) : Type 0 where
    pub recorded : lookup key book ≡ some (plan.plan_id, r.resulting_revision)
    pub same_state : r.state ≡ s
    pub same_ledger : r.ledger ≡ book
    pub was_replayed : r.replayed ≡ true

  execute-Executed :
      (r : ApplyResult)
      → execute out secret_shaped s plan principal at key book log ≡ ok r
      → lookup key book ≡ none
      → Executed r
  unfolding execute
  execute-Executed r h fresh = elim (Bool-cases (nat_eq plan.base_revision s.revision)) [
    | inl same ↦
        (let g = rw same at h in
          let (done, ran, h1) = >>=-eq-ok _ _ g in
          let (x, planned, h2) = >>=-eq-ok _ _ h1 in
          let (book', written, h3) = >>=-eq-ok _ _ h2 in
          let e = ok-injective _ _ h3 in
          rw (← e) (record {
            on_base = nat_eq-to_eq _ _ same;
            fresh = fresh;
            ran = ran;
            as_planned = nat_eq-to_eq _ _ (require-ok _ _ planned);
            ledger = (with_applied-eq key plan.plan_id done.0.revision book book' written).0;
            valid_ledger = (with_applied-eq key plan.plan_id done.0.revision book book' written).1;
            reported = refl;
            not_replayed = refl;
          }))
    | inr other ↦
        absurd (refuse-ne-ok out secret_shaped at principal plan key log _ r (rw other at h))
  ]

  replay-Replayed :
      (previous : String × ℕ) (r : ApplyResult)
      → replay out secret_shaped s plan principal at key book log previous ≡ ok r
      → lookup key book ≡ some previous
      → Replayed r
  unfolding replay refuse ◌>>=◌
  replay-Replayed (id, n) r h found = ground (arith)

  -- an apply that returns has either executed the plan or replayed it, and had the scopes
  pub apply_plan-cases :
      (r : ApplyResult)
      → apply_plan out secret_shaped s plan principal at key book log ≡ ok r
      → Executed r ⊎ Replayed r
  unfolding apply_plan
  apply_plan-cases r h =
      let (x, good_key, h1) = >>=-eq-ok _ _ h in
      let (t, good_time, h2) = >>=-eq-ok _ _ h1 in
      let (y, allowed, h3) = >>=-eq-ok _ _ h2 in
      elim (Option-cases (lookup key book)) [
        | inl fresh ↦ inl (execute-Executed r (rw fresh at h3) fresh)
        | inr (previous, found) ↦ inr (replay-Replayed previous r (rw found at h3) found)
      ]
