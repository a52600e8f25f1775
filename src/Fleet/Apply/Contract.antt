-- ===== src/Fleet/Apply/Contract.antt =====
-- The promises of `apply_plan` to its caller.
use mathlib.Core.Path.{subst}
use aiggp_agentic_framework.Base.{
  ℕ, ◌+◌, ◌≤◌, String, ◌≡◌, refl, sym, Bool, true, false, none, some, [], ◌∷◌, ◌++◌, Result, ok,
  err, ◌>>=◌, >>=-eq-ok, >>=-eq-err, map_err-err, require-ok, require-err, length, arith,
  Option-cases, inl, inr,
}
use aiggp_agentic_framework.Fleet.Desired.{DesiredState}
use aiggp_agentic_framework.Fleet.Desired.Soundness.{IsSound}
use aiggp_agentic_framework.Fleet.Auth.{
  Principal, AuthorizationError, fleet_apply, fleet_admin, holds, require_scope,
}
use aiggp_agentic_framework.Fleet.Plan.{Outside, Plan, check_plan, destructive_plan}
use aiggp_agentic_framework.Fleet.Audit.{AuditLog, Refusal}
use aiggp_agentic_framework.Fleet.Apply.{
  ApplyFault, ApplyResult, IdempotencyLedger, lookup, check_ledger, apply_plan, bad_instant,
  except_unauthorized, required_scopes, refuse,
}
use aiggp_agentic_framework.Fleet.Apply.Outcomes.{
  Written, apply_plan-cases, run_changes-IsSound, run_changes-revision, run_changes-Written,
}
use aiggp_agentic_framework.Fleet.Apply.Faults.{
  Expected, replay-Expected, execute-Expected, except_unauthorized-Expected,
}

lookup-append_self :
    (key id : String) (n : ℕ) (book : IdempotencyLedger)
    → lookup key book ≡ none
    → lookup key (book ++ record { key = key; plan_id = id; revision = n } ∷ []) ≡ some (id, n)
unfolding lookup
lookup-append_self key id n [] h = ground arith
lookup-append_self key id n (e ∷ book) h = ground (arith, lookup-append_self key id n book)

required_scopes-holds :
    (principal : Principal) (plan : Plan) {x : Unit {0}}
    → required_scopes principal plan ≡ ok x
    → (holds principal fleet_apply ≡ true)
      × (destructive_plan plan ≡ true → holds principal fleet_admin ≡ true)
unfolding required_scopes require_scope
required_scopes-holds principal plan h =
    let (x, p, h1) = >>=-eq-ok _ _ h in (require-ok _ _ p, λ d. require-ok _ _ (rw d at h1))

except_unauthorized-ok :
    (out : Outside) (secret_shaped : Refusal → Bool) (at : String) (principal : Principal)
    (plan : Plan) (key : String) (log : AuditLog) (r : Result AuthorizationError (Unit {0}))
    {x : Unit {0}}
    → except_unauthorized out secret_shaped at principal plan key log r ≡ ok x
    → r ≡ ok tt
unfolding except_unauthorized refuse ◌>>=◌
except_unauthorized-ok out secret_shaped at principal plan key log (ok u) h = refl
except_unauthorized-ok out secret_shaped at principal plan key log (err e) h = ground arith

module _ (out : Outside) (secret_shaped : Refusal → Bool) (s : DesiredState) (plan : Plan)
    (principal : Principal) (at key : String) (book : IdempotencyLedger) (log : AuditLog) where
  -- An apply that fails, of a plan and a ledger that their constructors have checked, at a
  -- revision of at least 1, fails in an expected way: a refusal carries the log it was given with
  -- exactly one entry more, which names the actor, the plan, the key and the reason; the other
  -- faults are a malformed key or instant, or an error of the log or of the plan's changes. The
  -- branches for a revision that disagrees with the plan, a key recorded twice and an invalid
  -- ledger are never taken.
  pub apply_plan_faults :
      (f : ApplyFault)
      → check_plan out plan ≡ ok tt
      → check_ledger book ≡ ok tt
      → 1 ≤ s.revision
      → apply_plan out secret_shaped s plan principal at key book log ≡ err f
      → Expected out secret_shaped at principal plan key log f
  unfolding apply_plan
  apply_plan_faults f valid fine floor h = elim (>>=-eq-err _ _ h) [
    | inl e ↦ rw (require-err _ _ e).1 tt
    | inr (x, good, h1) ↦ elim (>>=-eq-err _ _ h1) [
      | inl e ↦ (let (m, p, q) = map_err-err bad_instant _ e in rw q tt)
      | inr (t, timed, h2) ↦ elim (>>=-eq-err _ _ h2) [
        | inl e ↦ except_unauthorized-Expected out secret_shaped at principal plan key log _ f e
        | inr (y, allowed, h3) ↦ elim (Option-cases (lookup key book)) [
          | inl fresh ↦
              execute-Expected out secret_shaped at principal plan key log s book f valid
                (require-ok _ _ good) fresh fine floor (rw fresh at h3)
          | inr (previous, found) ↦
              replay-Expected out secret_shaped at principal plan key log s book previous f
                (rw found at h3)
        ]
      ]
    ]
  ]

  module _ (r : ApplyResult)
      (h : apply_plan out secret_shaped s plan principal at key book log ≡ ok r) where
    -- An apply that returns leaves a sound desired state sound, whatever changes its plan has.
    pub apply_plan-IsSound : IsSound s → IsSound r.state
    apply_plan-IsSound v =
        elim (apply_plan-cases out secret_shaped s plan principal at key book log r h) [
          | inl e ↦
              run_changes-IsSound out secret_shaped at principal plan key log 0 plan.changes s
                r.state log r.audit_log e.ran v
          | inr e ↦ subst IsSound (sym e.same_state) v
        ]

    -- An apply that is not a replay moves the state on by one revision for each change of the
    -- plan, to the revision that the plan declares, writes one entry for each change to the log,
    -- in their order, and records the key in the ledger with the plan and that revision.
    pub apply_plan_once :
        r.replayed ≡ false
        → (plan.base_revision ≡ s.revision)
          × (r.state.revision ≡ s.revision + length plan.changes)
          × (r.state.revision ≡ plan.resulting_revision)
          × Written out secret_shaped at principal plan key plan.changes log r.audit_log
          × (r.ledger
              ≡ book
                ++ record { key = key; plan_id = plan.plan_id; revision = r.state.revision } ∷ [])
    apply_plan_once new =
        elim (apply_plan-cases out secret_shaped s plan principal at key book log r h) [
          | inl e ↦ (
            e.on_base,
            run_changes-revision out secret_shaped at principal plan key log 0 plan.changes s
                r.state log r.audit_log e.ran,
            e.as_planned,
            run_changes-Written out secret_shaped at principal plan key log 0 plan.changes s r.state
                log r.audit_log e.ran,
            e.ledger,
          )
          | inr e ↦ absurd (cc (e.was_replayed))
        ]

    -- The ledger that an apply returns answers its key with its plan and its revision.
    ledger_after : lookup key r.ledger ≡ some (plan.plan_id, r.resulting_revision)
    ledger_after = elim (apply_plan-cases out secret_shaped s plan principal at key book log r h) [
      | inl e ↦
          rw e.ledger
            (rw e.reported (lookup-append_self key plan.plan_id r.state.revision book e.fresh))
      | inr e ↦ rw e.same_ledger e.recorded
    ]

    -- Whoever applies a plan holds `fleet.apply`, and `fleet.admin` too where the plan is
    -- destructive, a replay included.
    pub apply_plan_authorized :
        (holds principal fleet_apply ≡ true)
        × (destructive_plan plan ≡ true → holds principal fleet_admin ≡ true)
    unfolding apply_plan
    apply_plan_authorized =
        let (x, good, h1) = >>=-eq-ok _ _ h in
        let (t, timed, h2) = >>=-eq-ok _ _ h1 in
        let (y, allowed, h3) = >>=-eq-ok _ _ h2 in
        required_scopes-holds principal plan
          (except_unauthorized-ok out secret_shaped at principal plan key log _ allowed)

    -- Sending a key again, with the ledger that its first use returned, to whatever state, by
    -- whoever and at whatever time: if an apply returns, its plan has the id of the first one, it
    -- is a replay, the state and the ledger are untouched and the revision reported is the first
    -- one's.
    pub apply_plan_again :
        (s' : DesiredState) (plan' : Plan) (principal' : Principal) (at' : String) (log' : AuditLog)
        (r' : ApplyResult)
        → apply_plan out secret_shaped s' plan' principal' at' key r.ledger log' ≡ ok r'
        → (plan'.plan_id ≡ plan.plan_id)
          × (r'.replayed ≡ true)
          × (r'.state ≡ s')
          × (r'.ledger ≡ r.ledger)
          × (r'.resulting_revision ≡ r.resulting_revision)
    apply_plan_again s' plan' principal' at' log' r' h' =
        elim (apply_plan-cases out secret_shaped s' plan' principal' at' key r.ledger log' r' h') [
          | inl e ↦ absurd (cc (e.fresh, ledger_after))
          | inr e ↦ (
            cc (e.recorded, ledger_after),
            e.was_replayed,
            e.same_state,
            e.same_ledger,
            cc (e.recorded, ledger_after),
          )
        ]
