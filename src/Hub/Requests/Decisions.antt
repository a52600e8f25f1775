-- ===== src/Hub/Requests/Decisions.antt =====
-- What `decide` of toolchain_transitions.py checks before it applies a decision.
use aiggp_agentic_framework.Base.{
  ℕ, ◌+◌, String, Bool, true, false, some, ◌≡◌, refl, sym, ap, ◌∙◌, arith, ok, err, require_some-ok,
  require_some-err, Result-cases, ◌⊎◌, inl, inr, Option-cases, Bool-cases, nat_eq-to_eq, >>=-eq-ok,
  >>=-eq-err, require-ok, refuse_if-ok, err-injective, ok-injective, ◌==◌, ◌||◌,
}
use aiggp_agentic_framework.Hub.Requests.{State, Row, transition, append_history, present}
use aiggp_agentic_framework.Hub.Requests.Decide
use aiggp_agentic_framework.Hub.Requests.Decide.{
  Decision, Answer, decide, decide_row, row_nonces_after,
}
use aiggp_agentic_framework.Hub.Requests.Change.{
  Change, moved, Refusal, untouched, recorded, Refusal-Change, Refusal-success, require-Refusal,
  refuse_if-Refusal, is_handled,
}

check_class-Refusal :
    (d : Decision) (row : Row) (x : Row × Answer)
    → Decide.check_class d row ≡ err x
    → Refusal Decide.is_applied row x
unfolding Decide.check_class
check_class-Refusal d row x h = elim (>>=-eq-err _ _ h) [
  | inl e ↦ rw (require_some-err _ _ e) (untouched _ refl)
  | inr (c, p, e) ↦ require-Refusal row _ _ x (recorded _ _ _ _ _ refl) e
]

check_version-Refusal :
    (d : Decision) (row : Row) (x : Row × Answer)
    → Decide.check_version d row ≡ err x
    → Refusal Decide.is_applied row x
unfolding Decide.check_version
check_version-Refusal d row x h = elim (Option-cases d.expected_version) [
  | inl p ↦ absurd (ground (arith, rw p at h))
  | inr (c, p) ↦ require-Refusal row _ _ x (recorded _ _ _ _ _ refl) (rw p at h)
]

check_prior-Refusal :
    (d : Decision) (row : Row) (x : Row × Answer)
    → Decide.check_prior d row ≡ err x
    → Refusal Decide.is_applied row x
unfolding Decide.check_prior
check_prior-Refusal d row x h =
    elim (Bool-cases (Decide.is_version d.expected_version row.version)) [
      | inr q ↦ absurd (ground (arith, rw q at h))
      | inl q ↦ elim (Option-cases (Decide.prior d row.version row.history)) [
        | inl p ↦ absurd (ground (arith, rw (q, p) at h))
        | inr (r, p) ↦ rw (sym (err-injective _ x (rw (q, p) at h))) (untouched _ refl)
      ]
    ]

check_claim-Refusal :
    (d : Decision) (row : Row) (x : Row × Answer)
    → Decide.check_claim d row ≡ err x
    → Refusal Decide.is_applied row x
unfolding Decide.check_claim
check_claim-Refusal d row x h = elim (Option-cases d.nonce) [
  | inl p ↦ rw (sym (err-injective _ x (rw p at h))) (untouched _ refl)
  | inr (n, p) ↦ elim (>>=-eq-err _ _ (rw p at h)) [
    | inl f ↦ require-Refusal row _ _ x (untouched _ refl) f
    | inr (u, q, f) ↦ absurd (cc)
  ]
]

check_notes-Refusal :
    (d : Decision) (row : Row) (x : Row × Answer)
    → Decide.check_notes d row ≡ err x
    → Refusal Decide.is_applied row x
unfolding Decide.check_notes
check_notes-Refusal d row x h = elim (>>=-eq-err _ _ h) [
  | inl f ↦ refuse_if-Refusal row _ _ x (untouched _ refl) f
  | inr (u, q, f) ↦ require-Refusal row _ _ x (recorded _ _ _ _ _ refl) f
]

find_rule-Refusal :
    (d : Decision) (row : Row) (x : Row × Answer)
    → Decide.find_rule d row ≡ err x
    → Refusal Decide.is_applied row x
unfolding Decide.find_rule
find_rule-Refusal d row x h = rw (require_some-err _ _ h) (recorded _ _ _ _ _ refl)

decide_steps-Refusal :
    (f : String → String) (d : Decision) (consumed : String → Bool) (row : Row) (x : Row × Answer)
    → Decide.decide_steps f d consumed row ≡ err x
    → Refusal Decide.is_applied row x
unfolding Decide.decide_steps
decide_steps-Refusal f d consumed row x h = elim (>>=-eq-err _ _ h) [
  | inl e ↦ check_class-Refusal d row x e
  | inr (u1, p1, h1) ↦ elim (>>=-eq-err _ _ h1) [
    | inl e ↦ check_version-Refusal d row x e
    | inr (u2, p2, h2) ↦ elim (>>=-eq-err _ _ h2) [
      | inl e ↦ check_prior-Refusal d row x e
      | inr (u3, p3, h3) ↦ elim (>>=-eq-err _ _ h3) [
        | inl e ↦ check_claim-Refusal d row x e
        | inr (n, p4, h4) ↦ elim (>>=-eq-err _ _ h4) [
          | inl e ↦ refuse_if-Refusal row _ _ x (recorded _ _ _ _ _ refl) e
          | inr (u5, p5, h5) ↦ elim (>>=-eq-err _ _ h5) [
            | inl e ↦ check_notes-Refusal d row x e
            | inr (u6, p6, h6) ↦ elim (>>=-eq-err _ _ h6) [
              | inl e ↦ find_rule-Refusal d row x e
              | inr (to, p7, h7) ↦ absurd (cc)
            ]
          ]
        ]
      ]
    ]
  ]
]

check_class-ok :
    (d : Decision) (row : Row) {u : Unit {0}}
    → Decide.check_class d row ≡ ok u
    → Decide.may_decide d ≡ true
unfolding Decide.check_class
check_class-ok d row h = let (c, p, q) = >>=-eq-ok _ _ h in require-ok _ _ q

check_version-ok :
    (d : Decision) (row : Row) {u : Unit {0}}
    → Decide.check_version d row ≡ ok u
    → (v : ℕ) → d.expected_version ≡ some v
    → v ≡ row.version
unfolding Decide.check_version
check_version-ok d row h v p = nat_eq-to_eq v row.version (require-ok _ _ (rw p at h))

check_claim-ok :
    (d : Decision) (row : Row) {n : String} → Decide.check_claim d row ≡ ok n → d.nonce ≡ some n
unfolding Decide.check_claim
check_claim-ok d row h = elim (Option-cases d.nonce) [
  | inl p ↦ absurd (ground (arith, rw p at h))
  | inr (n, p) ↦ let (u, q, r) = >>=-eq-ok _ _ (rw p at h) in p ∙ ap some (ok-injective _ _ r)
]

check_notes-ok :
    (d : Decision) (row : Row) {u : Unit {0}}
    → Decide.check_notes d row ≡ ok u
    → d.action == "approve" || present d.note ≡ true
unfolding Decide.check_notes
check_notes-ok d row h = let (u, q, r) = >>=-eq-ok _ _ h in require-ok _ _ r

find_rule-ok :
    (d : Decision) (row : Row) {to : State}
    → Decide.find_rule d row ≡ ok to
    → transition row.state (Decide.event_of d) ≡ some to
unfolding Decide.find_rule
find_rule-ok d row h = require_some-ok _ _ h

-- An applied decision: what every check of `decide` found.
pub record Applied (f : String → String) (d : Decision) (consumed : String → Bool) (row : Row)
    (x : Row × Answer) : Type 0 where
  pub permitted : Decide.may_decide d ≡ true
  pub current : (v : ℕ) → d.expected_version ≡ some v → v ≡ row.version
  pub nonce : String
  pub has_nonce : d.nonce ≡ some nonce
  pub fresh : consumed nonce ≡ false
  pub reason : d.action == "approve" || present d.note ≡ true
  pub to : State
  pub rule : transition row.state (Decide.event_of d) ≡ some to
  pub result : x ≡ (Decide.apply_decision f d nonce row to, Decide.applied (row.version + 1) to)

pub decide_steps-Applied :
    (f : String → String) (d : Decision) (consumed : String → Bool) (row : Row) (x : Row × Answer)
    → Decide.decide_steps f d consumed row ≡ ok x
    → Applied f d consumed row x
unfolding Decide.decide_steps
decide_steps-Applied f d consumed row x h =
    let (u1, p1, h1) = >>=-eq-ok _ _ h in
    let (u2, p2, h2) = >>=-eq-ok _ _ h1 in
    let (u3, p3, h3) = >>=-eq-ok _ _ h2 in
    let (n, p4, h4) = >>=-eq-ok _ _ h3 in
    let (u5, p5, h5) = >>=-eq-ok _ _ h4 in
    let (u6, p6, h6) = >>=-eq-ok _ _ h5 in
    let (to, p7, h7) = >>=-eq-ok _ _ h6 in
    record {
      permitted = check_class-ok d row p1;
      current = check_version-ok d row p2;
      nonce = n;
      has_nonce = check_claim-ok d row p4;
      fresh = refuse_if-ok _ _ p5;
      reason = check_notes-ok d row p6;
      to = to;
      rule = find_rule-ok d row p7;
      result = sym (ok-injective _ x h7);
    }

handled : (d : Decision) → is_handled (Decide.event_of d) ≡ true
handled d = elim (Bool-cases (d.action == "approve")) [ inl p ↦ rw p refl | inr p ↦ rw p refl ]

Applied-Change :
    (f : String → String) (d : Decision) (consumed : String → Bool) (row : Row) (x : Row × Answer)
    → Applied f d consumed row x
    → Change row x.0
unfolding Decide.apply_decision
Applied-Change f d consumed row x a =
    rw (a.result) (moved _ _ _ (Decide.event_of d) a.to _ refl refl refl (handled d) a.rule)

-- `decide` either applies the decision, having checked it, or leaves the row with at most a
-- refusal noted.
pub decide-cases :
    (f : String → String) (d : Decision) (consumed : String → Bool) (row : Row)
    → Applied f d consumed row (decide f d consumed row)
      ⊎ Refusal Decide.is_applied row (decide f d consumed row)
unfolding decide
decide-cases f d consumed row = elim (Result-cases (Decide.decide_steps f d consumed row)) [
  | inl (x, p) ↦ inl (rw p (decide_steps-Applied f d consumed row x p))
  | inr (x, p) ↦ inr (rw p (decide_steps-Refusal f d consumed row x p))
]

pub decide-Change :
    (f : String → String) (d : Decision) (consumed : String → Bool) (row : Row)
    → Change row (decide f d consumed row).0
decide-Change f d consumed row = elim (decide-cases f d consumed row) [
  | inl a ↦ Applied-Change f d consumed row _ a
  | inr r ↦ Refusal-Change r
]

-- A decision that `decide` applies came with an operator's credential and the scope to decide, was
-- made at the row's version when it names one, carried a nonce not consumed before and, when it is
-- no approval, a note; the row's state follows the table and its version grows by one.
pub decide_guarded :
    (f : String → String) (d : Decision) (consumed : String → Bool) (row : Row)
    → Decide.is_applied (decide f d consumed row).1 ≡ true
    → (Decide.may_decide d ≡ true)
      × ((v : ℕ) → d.expected_version ≡ some v → v ≡ row.version)
      × ((n : String) × (d.nonce ≡ some n) × (consumed n ≡ false))
      × (d.action == "approve" || present d.note ≡ true)
      × (transition row.state (Decide.event_of d) ≡ some (decide f d consumed row).0.state)
      × ((decide f d consumed row).0.version ≡ row.version + 1)
unfolding Decide.apply_decision append_history
decide_guarded f d consumed row h = elim (decide-cases f d consumed row) [
  | inr r ↦ absurd (ground (arith, Refusal-success r, h))
  | inl a ↦ (
    a.permitted,
    a.current,
    (a.nonce, a.has_nonce, a.fresh),
    a.reason,
    a.rule ∙ ap (λ x. some x.0.state) (sym a.result),
    ap (λ x. x.0.version) a.result,
  )
]
