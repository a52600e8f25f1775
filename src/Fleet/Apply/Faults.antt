-- ===== src/Fleet/Apply/Faults.antt =====
-- How an apply fails: the faults that can reach its caller, and what they carry.
use text.Mathlib.Text.{starts_with}
use text.Mathlib.TextPositions.{starts_with-append}
use aiggp_agentic_framework.Base.{
  ℕ, suc, ◌+◌, ◌≤◌, String, ◌≡◌, refl, ap, Bool, true, false, Option, none, some, List, [], ◌∷◌,
  ◌++◌, Result, ok, err, ◌>>=◌, >>=-eq-ok, >>=-eq-err, map_err-err, err-injective, require-ok,
  require-err, refuse_if-ok, require_of, each, each-append, length, null, contains, nat_eq,
  nat_eq-to_eq, arith, Bool-cases, inl, inr, ◌==◌, ==_to_eq,
}
use aiggp_agentic_framework.Fleet.Desired.{DesiredState}
use aiggp_agentic_framework.Fleet.Desired.Occupancy.{unique-append}
use aiggp_agentic_framework.Fleet.Auth.{Principal, AuthorizationError}
use aiggp_agentic_framework.Fleet.Plan.{
  Outside, Plan, Change, ChangeKind, PlanError, model, check_plan, plan_id_for,
}
use aiggp_agentic_framework.Fleet.Audit.{AuditLog, AuditEvent, Outcome, Refusal}
use aiggp_agentic_framework.Fleet.Audit.Growth.{Records}
use aiggp_agentic_framework.Fleet.Apply.{
  ApplyFault, IdempotencyLedger, Entry, entry_keys, check_entry, is_key, lookup, check_ledger,
  with_applied, execute, replay, except_unauthorized, from_audit, refused, bad_ledger,
  recorded_twice, wrong_revision, record_event, refuse, except_model, run_changes,
}
use aiggp_agentic_framework.Fleet.Apply.Outcomes.{record_event-Records, run_changes-revision}

-- The ledger after a new entry.
keys-absent :
    (key : String) (book : IdempotencyLedger)
    → lookup key book ≡ none
    → contains (entry_keys book) key ≡ false
unfolding lookup entry_keys
keys-absent key [] h = refl
keys-absent key (e ∷ es) h = ground (arith, keys-absent key es)

entry_keys-append :
    (book : IdempotencyLedger) (e : Entry)
    → entry_keys (book ++ e ∷ []) ≡ entry_keys book ++ e.key ∷ []
unfolding entry_keys
entry_keys-append [] e = refl
entry_keys-append (b ∷ book) e = ap (λ xs. b.key ∷ xs) (entry_keys-append book e)

check_entry-ok :
    (e : Entry)
    → is_key e.key ≡ true
    → starts_with e.plan_id "plan:" ≡ true
    → 2 ≤ e.revision
    → each check_entry (e ∷ []) ≡ ok tt
unfolding check_entry each ◌>>=◌
check_entry-ok e k s r = ground arith

check_ledger-append :
    (e : Entry) (book : IdempotencyLedger)
    → each check_entry (e ∷ []) ≡ ok tt
    → lookup e.key book ≡ none
    → check_ledger book ≡ ok tt
    → check_ledger (book ++ e ∷ []) ≡ ok tt
unfolding check_ledger
check_ledger-append e book good fresh fine =
    let (x, entries, h1) = >>=-eq-ok _ _ fine in
    rw (each-append check_entry book (e ∷ []) entries good) (
      rw entry_keys-append (
        unfold ◌>>=◌ in
        require_of _ (bad_ledger "key appears twice")
          (unique-append _ _ (require-ok _ _ h1) (keys-absent e.key book fresh))))

with_applied_ok :
    (key id : String) (n : ℕ) (book : IdempotencyLedger)
    → is_key key ≡ true
    → starts_with id "plan:" ≡ true
    → 2 ≤ n
    → lookup key book ≡ none
    → check_ledger book ≡ ok tt
    → (grown : IdempotencyLedger) × (with_applied key id n book ≡ ok grown)
unfolding with_applied ◌>>=◌
with_applied_ok key id n book k s r fresh fine =
    let e : Entry = record { key = key; plan_id = id; revision = n } in
    let whole = check_ledger-append e book (check_entry-ok e k s r) fresh fine in
    (book ++ e ∷ [], rw (k, fresh, whole))

-- What the constructor of a plan has checked.
check_plan-facts :
    (out : Outside) (plan : Plan)
    → check_plan out plan ≡ ok tt
    → (1 ≤ length plan.changes)
      × (starts_with plan.plan_id "plan:" ≡ true)
      × (plan.resulting_revision ≡ plan.base_revision + length plan.changes)
unfolding check_plan plan_id_for
check_plan-facts out plan h =
    let (x, some_change, h1) = >>=-eq-ok _ _ h in
    let (y, named, h2) = >>=-eq-ok _ _ h1 in
    (
      not_null plan.changes (refuse_if-ok _ _ some_change),
      rw (==_to_eq _ _ (require-ok _ _ named)) (starts_with-append "plan:" _),
      nat_eq-to_eq _ _ (require-ok _ _ h2),
    )
  where
    not_null : (cs : List Change) → null cs ≡ false → 1 ≤ length cs
    not_null [] e = absurd (cc)
    not_null (c ∷ cs) e = omega arith

mismatch : (n m : ℕ) → nat_eq n m ≡ false → n ≡ m → ⊥
mismatch n m e h = ground arith

module _ (out : Outside) (secret_shaped : Refusal → Bool) (at : String) (principal : Principal)
    (plan : Plan) (key : String) (log : AuditLog) where
  -- A refusal carries the log it was given, with one entry more, which records the refusal. The
  -- ledger and the revision are never at fault.
  abbrev pub Expected : ApplyFault → Type 0
  Expected (refused reason log') =
      (e : AuditEvent) × Records at principal "apply" plan.plan_id Outcome.refused plan.plan_id key
        (some reason) log log' e
  Expected (bad_ledger x) = ⊥
  Expected recorded_twice = ⊥
  Expected (wrong_revision n m) = ⊥
  Expected _ = Unit

  record_event-Expected :
      (action subject : String) (outcome : Outcome) (reason : Option Refusal) (pending : AuditLog)
      (f : ApplyFault)
      → record_event out secret_shaped at principal plan key action subject outcome reason pending
        ≡ err f
      → Expected f
  unfolding record_event
  record_event-Expected action subject outcome reason pending f h =
      let (e, p, q) = map_err-err from_audit _ h in rw q tt

  refuse-Expected :
      {A : Type 0} (reason : Refusal) (f : ApplyFault)
      → refuse out secret_shaped {A = A} at principal plan key log reason ≡ err f
      → Expected f
  unfolding refuse
  refuse-Expected reason f h = elim (>>=-eq-err _ _ h) [
    | inl e ↦ record_event-Expected _ _ _ _ _ f e
    | inr (log', p, q) ↦
        rw (← err-injective _ _ q)
          (record_event-Records out secret_shaped at principal plan key _ _ _ _ log log' p)
  ]

  except_model-Expected :
      {A : Type 0} (index : ℕ) (kind : ChangeKind) (r : Result PlanError A) (f : ApplyFault)
      → except_model out secret_shaped at principal plan key log index kind r ≡ err f
      → Expected f
  unfolding except_model
  except_model-Expected index kind (ok x) f h = absurd (cc)
  except_model-Expected index kind (err (model e)) f h = refuse-Expected _ f h
  except_model-Expected index kind (err e) f h = rw (← err-injective _ _ h) tt

  run_changes-Expected :
      (index : ℕ) (cs : List Change) (s : DesiredState) (pending : AuditLog) (f : ApplyFault)
      → run_changes out secret_shaped at principal plan key log index cs s pending ≡ err f
      → Expected f
  unfolding run_changes
  run_changes-Expected index [] s pending f h = absurd (cc)
  run_changes-Expected index (c ∷ cs) s pending f h = elim (>>=-eq-err _ _ h) [
    | inl e ↦ except_model-Expected index c.kind _ f e
    | inr (next, p, q) ↦ elim (>>=-eq-err _ _ q) [
      | inl e ↦ record_event-Expected _ _ _ _ _ f e
      | inr (longer, p', q') ↦ run_changes-Expected (suc index) cs next longer f q'
    ]
  ]

  pub except_unauthorized-Expected :
      (r : Result AuthorizationError (Unit {0})) (f : ApplyFault)
      → except_unauthorized out secret_shaped at principal plan key log r ≡ err f
      → Expected f
  unfolding except_unauthorized
  except_unauthorized-Expected (ok u) f h = absurd (cc)
  except_unauthorized-Expected (err e) f h = refuse-Expected _ f h

  pub replay-Expected :
      (s : DesiredState) (book : IdempotencyLedger) (previous : String × ℕ) (f : ApplyFault)
      → replay out secret_shaped s plan principal at key book log previous ≡ err f
      → Expected f
  unfolding replay
  replay-Expected s book (id, n) f h = elim (Bool-cases (id == plan.plan_id)) [
    | inl same ↦ elim (>>=-eq-err _ _ (rw same at h)) [
      | inl e ↦ record_event-Expected _ _ _ _ _ f e
      | inr (l, p, q) ↦ absurd (cc)
    ]
    | inr other ↦ refuse-Expected _ f (rw other at h)
  ]

  pub execute-Expected :
      (s : DesiredState) (book : IdempotencyLedger) (f : ApplyFault)
      → check_plan out plan ≡ ok tt
      → is_key key ≡ true
      → lookup key book ≡ none
      → check_ledger book ≡ ok tt
      → 1 ≤ s.revision
      → execute out secret_shaped s plan principal at key book log ≡ err f
      → Expected f
  unfolding execute
  execute-Expected s book f valid good fresh fine floor h =
      elim (Bool-cases (nat_eq plan.base_revision s.revision)) [
        | inr other ↦ refuse-Expected _ f (rw other at h)
        | inl same ↦ elim (>>=-eq-err _ _ (rw same at h)) [
          | inl e ↦ run_changes-Expected 0 plan.changes s log f e
          | inr (done, ran, q) ↦
              (let (some_change, named, counted) = check_plan-facts out plan valid in
                let longer =
                  run_changes-revision out secret_shaped at principal plan key log 0 plan.changes s
                    done.0 log done.1 ran in
                elim (>>=-eq-err _ _ q) [
                  | inl e ↦ absurd (
                      mismatch _ _ (require-err _ _ e).0
                        (omega (arith, counted, longer, nat_eq-to_eq _ _ same)))
                  | inr (x, planned, q') ↦
                      (let (grown, kept) =
                          with_applied_ok key plan.plan_id done.0.revision book good named
                            (omega (arith, longer, some_change)) fresh fine in
                        elim (>>=-eq-err _ _ q') [
                          | inl e ↦ absurd (cc)
                          | inr (book', p, q'') ↦ absurd (cc)
                        ])
                ])
        ]
      ]
