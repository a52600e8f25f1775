-- ===== src/Hub/Requests/Resubmission.antt =====
-- toolchain_transitions.py, `decide`, for a decision that was applied before.
use aiggp_agentic_framework.Base.{
  ℕ, ◌+◌, String, Bool, true, false, Option, none, some, List, [], ◌∷◌, ◌++◌, ◌≡◌, refl, ap, arith,
  ok, err, ◌>>=◌, require_some_of, inl, inr, Bool-cases, ==_refl, nat_eq, ==_to_eq, if◌then◌else◌,
  ◌==◌,
}
use aiggp_agentic_framework.Hub.Requests.{
  happened, AuditRecord, Row, audit_record, append_history, same_text,
}
use aiggp_agentic_framework.Hub.Requests.Decide
use aiggp_agentic_framework.Hub.Requests.Decide.{
  Decision, Answer, decide, decide_row, row_nonces_after,
}
use aiggp_agentic_framework.Hub.Requests.Change.{Refusal-success}
use aiggp_agentic_framework.Hub.Requests.Decisions.{Applied, decide-cases}

-- the same decision at the version that it produced, under any nonce
abbrev pub again_at : ℕ → Option String → Decision → Decision
again_at v nonce d = record d { expected_version = some v; nonce = nonce }

some-of-if :
    {A : Type 0} (b : Bool) (x : A) (o : Option A)
    → (h : A) × (o ≡ some h)
    → (h : A) × ((if b then some x else o) ≡ some h)
some-of-if true x o e = (x, refl)
some-of-if false x o e = e

same_text_refl : (o : Option String) → same_text o o ≡ true
same_text_refl none = refl
same_text_refl (some s) = ==_refl s

is_event_own :
    (d : Decision) → Decide.is_event (Decide.event_of d) (happened (Decide.event_of d)) ≡ true
is_event_own d = elim (Bool-cases (d.action == "approve")) [ inl p ↦ rw p refl | inr p ↦ rw p refl ]

prior-snoc :
    (d : Decision) (v : ℕ) (hs : List AuditRecord) (r : AuditRecord)
    → r.version_after ≡ v
    → r.event ≡ happened (Decide.event_of d)
    → r.actor ≡ d.actor
    → r.note ≡ d.note
    → (h : AuditRecord) × (Decide.prior d v (hs ++ r ∷ []) ≡ some h)
unfolding Decide.prior
prior-snoc d v [] r at event actor reason = (
  r,
  rw (at, event, actor, reason, is_event_own d, same_text_refl d.actor, same_text_refl d.note)
      (ground arith),
)
prior-snoc d v (x ∷ hs) r at event actor reason =
    some-of-if _ x _ (prior-snoc d v hs r at event actor reason)

same_text-some : (o : Option String) (s : String) → same_text o (some s) ≡ true → o ≡ some s
same_text-some none s h = absurd (cc)
same_text-some (some t) s h = ap some (==_to_eq t s h)

may_decide-class :
    (d : Decision) → Decide.may_decide d ≡ true → d.credential_class ≡ some "operator"
unfolding Decide.may_decide
may_decide-class d h = same_text-some d.credential_class "operator" (ground (arith, h))

check_class-of :
    (d : Decision) (row : Row) → Decide.may_decide d ≡ true → Decide.check_class d row ≡ ok tt
unfolding Decide.check_class ◌>>=◌
check_class-of d row may =
    rw
      (
        require_some_of {E = Row × Answer} d.credential_class (row, Decide.unknown_credential)
            (may_decide-class d may),
        may,
      )
      refl

nat_eq_refl : (n : ℕ) → nat_eq n n ≡ true
nat_eq_refl n = ground arith

check_version-of :
    (d : Decision) (row : Row)
    → d.expected_version ≡ some row.version
    → Decide.check_version d row ≡ ok tt
unfolding Decide.check_version
check_version-of d row h = rw (h, nat_eq_refl row.version) refl

check_prior-of :
    (d : Decision) (row : Row) (r : AuditRecord)
    → d.expected_version ≡ some row.version
    → Decide.prior d row.version row.history ≡ some r
    → Decide.check_prior d row ≡ err (row, Decide.already_applied r.at row.version row.state)
unfolding Decide.check_prior
check_prior-of d row r h found = rw (found, h, nat_eq_refl row.version) refl

-- `decide` answers a decision that finds itself in the history with what was applied.
decide-prior :
    (f : String → String) (d : Decision) (consumed : String → Bool) (row : Row) (r : AuditRecord)
    → Decide.may_decide d ≡ true
    → d.expected_version ≡ some row.version
    → Decide.prior d row.version row.history ≡ some r
    → decide f d consumed row ≡ (row, Decide.already_applied r.at row.version row.state)
unfolding decide Decide.decide_steps ◌>>=◌
decide-prior f d consumed row r may version found =
    rw
      (
        check_class-of d row may,
        check_version-of d row version,
        check_prior-of d row r version found,
      )
      refl

-- When `decide` has applied a decision, the same decision at the version it produced changes
-- nothing and is answered as already applied, whatever its nonce and whichever nonces are consumed:
-- its own nonce, by then consumed, is not refused as a replay.
pub decide_again :
    (f : String → String) (d : Decision) (consumed : String → Bool) (row : Row)
    → Decide.is_applied (decide f d consumed row).1 ≡ true
    → (n : Option String) (consumed' : String → Bool)
    → let row' = (decide f d consumed row).0 in
      (at : String) × (decide f (again_at row'.version n d) consumed' row'
        ≡ (row', Decide.already_applied at row'.version row'.state))
unfolding Decide.may_decide Decide.apply_decision append_history audit_record
decide_again f d consumed row h n consumed' = elim (decide-cases f d consumed row) [
  | inr r ↦ absurd (ground (arith, Refusal-success r, h))
  | inl a ↦
      let row' = (decide f d consumed row).0 in
      let (r, p) = recorded_prior a in
      (r.at, decide-prior f (again_at row'.version n d) consumed' row' r a.permitted refl p)
]
  where
    recorded_prior :
        Applied f d consumed row (decide f d consumed row)
        → (r : AuditRecord) × (Decide.prior
              (again_at (decide f d consumed row).0.version n d)
              (decide f d consumed row).0.version
              (decide f d consumed row).0.history
            ≡ some r)
    recorded_prior a =
        rw (a.result)
          (prior-snoc (again_at _ n d) (row.version + 1) row.history _ refl refl refl refl)
