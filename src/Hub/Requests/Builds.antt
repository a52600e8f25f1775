-- ===== src/Hub/Requests/Builds.antt =====
-- What `report_build` of toolchain_evidence.py checks before it applies a report.
use aiggp_agentic_framework.Base.{
  ◌+◌, String, Bool, true, false, some, List, [], ◌∷◌, ◌≡◌, refl, sym, ap, ◌∙◌, arith, ok, err,
  require_some-ok, require_some-err, Result-cases, ◌⊎◌, inl, inr, Bool-cases, nat_eq-to_eq,
  ==_to_eq, null, >>=-eq-ok, >>=-eq-err, require-ok, ok-injective, if◌then◌else◌, ◌||◌,
}
use aiggp_agentic_framework.Hub.Requests.{
  State, approved, built, report_built, build_failed, Row, transition, append_history,
}
use aiggp_agentic_framework.Hub.Requests.Build
use aiggp_agentic_framework.Hub.Requests.Build.{Report, Reply, report_build}
use aiggp_agentic_framework.Hub.Requests.Change.{
  Change, moved, Refusal, untouched, recorded, Refusal-Change, Refusal-success, require-Refusal,
  refuse_if-Refusal, is_handled,
}

module _ (r : Report) (row : Row) where
  check_builder-Refusal :
      (x : Row × Reply) → Build.check_builder r row ≡ err x → Refusal Build.is_reported row x
  unfolding Build.check_builder
  check_builder-Refusal x h = elim (>>=-eq-err _ _ h) [
    | inl e ↦ rw (require_some-err _ _ e) (untouched _ refl)
    | inr (c, p, h1) ↦ elim (>>=-eq-err _ _ h1) [
      | inl e ↦ require-Refusal row _ _ x (recorded _ _ _ _ _ refl) e
      | inr (u, q, e) ↦ require-Refusal row _ _ x (untouched _ refl) e
    ]
  ]

  check_report-Refusal :
      (x : Row × Reply) → Build.check_report r row ≡ err x → Refusal Build.is_reported row x
  unfolding Build.check_report
  check_report-Refusal x h = elim (>>=-eq-err _ _ h) [
    | inl e ↦ require-Refusal row _ _ x (untouched _ refl) e
    | inr (c, p, h1) ↦ elim (>>=-eq-err _ _ h1) [
      | inl e ↦ refuse_if-Refusal row _ _ x (untouched _ refl) e
      | inr (u, q, e) ↦ require-Refusal row _ _ x (recorded _ _ _ _ _ refl) e
    ]
  ]

  check_expected-Refusal :
      (x : Row × Reply) → Build.check_expected r row ≡ err x → Refusal Build.is_reported row x
  unfolding Build.check_expected
  check_expected-Refusal x h = elim (>>=-eq-err _ _ h) [
    | inl e ↦ rw (require_some-err _ _ e) (untouched _ refl)
    | inr (u, q, e) ↦ require-Refusal row _ _ x (recorded _ _ _ _ _ refl) e
  ]

  report_steps-Refusal :
      (x : Row × Reply) → Build.report_steps r row ≡ err x → Refusal Build.is_reported row x
  unfolding Build.report_steps Build.find_rule Build.check_profile
  report_steps-Refusal x h = elim (>>=-eq-err _ _ h) [
    | inl e ↦ check_builder-Refusal x e
    | inr (u1, p1, h1) ↦ elim (>>=-eq-err _ _ h1) [
      | inl e ↦ check_report-Refusal x e
      | inr (u2, p2, h2) ↦ elim (>>=-eq-err _ _ h2) [
        | inl e ↦ check_expected-Refusal x e
        | inr (u3, p3, h3) ↦ elim (>>=-eq-err _ _ h3) [
          | inl e ↦ rw (require_some-err _ _ e) (recorded _ _ _ _ _ refl)
          | inr (to, p4, h4) ↦ elim (>>=-eq-err _ _ h4) [
            | inl e ↦ require-Refusal row _ _ x (recorded _ _ _ _ _ refl) e
            | inr (u5, p5, e) ↦ absurd (cc)
          ]
        ]
      ]
    ]
  ]

-- An applied report: what every check of `report_build` found.
pub record Taken (r : Report) (row : Row) (x : Row × Reply) : Type 0 where
  pub from_builder : r.credential_class ≡ some "builder"
  pub complete : Build.is_failure r || null (Build.missing_fields r) ≡ true
  pub current : r.expected_version ≡ some row.version
  pub profile : Build.is_failure r || Build.same_profile row.required_profile r.profile_id ≡ true
  pub to : State
  pub rule : transition row.state (Build.build_event r) ≡ some to
  pub result : x ≡ (Build.apply_report r row to, Build.reported to (row.version + 1))

report_steps-Taken :
    (r : Report) (row : Row) (x : Row × Reply) → Build.report_steps r row ≡ ok x → Taken r row x
unfolding Build.report_steps Build.check_builder Build.check_report Build.check_expected
    Build.find_rule Build.check_profile
report_steps-Taken r row x h =
    let (u1, p1, h1) = >>=-eq-ok _ _ h in
    let (u2, p2, h2) = >>=-eq-ok _ _ h1 in
    let (u3, p3, h3) = >>=-eq-ok _ _ h2 in
    let (to, p4, h4) = >>=-eq-ok _ _ h3 in
    let (u5, p5, h5) = >>=-eq-ok _ _ h4 in
    let (c, b1, b2) = >>=-eq-ok _ _ p1 in
    let (b, b3, b4) = >>=-eq-ok _ _ b2 in
    let (z, c1, c2) = >>=-eq-ok _ _ p2 in
    let (v, v1, v2) = >>=-eq-ok _ _ p3 in
    record {
      from_builder = require_some-ok _ _ b1 ∙ ap some (==_to_eq c "builder" (require-ok _ _ b3));
      complete = require-ok _ _ c1;
      current = require_some-ok _ _ v1 ∙ ap some (nat_eq-to_eq v row.version (require-ok _ _ v2));
      profile = require-ok _ _ p5;
      to = to;
      rule = require_some-ok _ _ p4;
      result = sym (ok-injective _ x h5);
    }

handled : (r : Report) → is_handled (Build.build_event r) ≡ true
handled r = elim (Bool-cases (Build.is_failure r)) [ inl p ↦ rw p refl | inr p ↦ rw p refl ]

Taken-Change : (r : Report) (row : Row) (x : Row × Reply) → Taken r row x → Change row x.0
unfolding Build.apply_report
Taken-Change r row x a =
    rw (a.result) (moved _ _ _ (Build.build_event r) a.to _ refl refl refl (handled r) a.rule)

-- `report_build` either applies the report, having checked it, or leaves the row with at most a
-- refusal noted.
pub report_build-cases :
    (r : Report) (row : Row)
    → Taken r row (report_build r row) ⊎ Refusal Build.is_reported row (report_build r row)
unfolding report_build
report_build-cases r row = elim (Result-cases (Build.report_steps r row)) [
  | inl (x, p) ↦ inl (rw p (report_steps-Taken r row x p))
  | inr (x, p) ↦ inr (rw p (report_steps-Refusal r row x p))
]

pub report_build-Change : (r : Report) (row : Row) → Change row (report_build r row).0
report_build-Change r row = elim (report_build-cases r row) [
  | inl a ↦ Taken-Change r row _ a
  | inr q ↦ Refusal-Change q
]

rule_to_built :
    (s : State) (failed : Bool)
    → transition s (if failed then build_failed else report_built) ≡ some built
    → (failed ≡ false) × (s ≡ approved)
unfolding transition
rule_to_built s true h = ground arith
rule_to_built s false h = ground arith

null-nil : (xs : List String) → null xs ≡ true → xs ≡ []
null-nil [] h = refl
null-nil (x ∷ xs) h = absurd (cc)

-- A report that takes a row to built came from a builder's credential at the row's version, with the
-- build id, profile id and digest that evidence needs, for the profile that the approved request
-- requires; the row then awaits the reported digest.
pub report_build_guarded :
    (r : Report) (row : Row)
    → Build.is_reported (report_build r row).1 ≡ true
    → (report_build r row).0.state ≡ built
    → (r.credential_class ≡ some "builder")
      × (r.expected_version ≡ some row.version)
      × (Build.missing_fields r ≡ [])
      × (row.state ≡ approved)
      × (Build.same_profile row.required_profile r.profile_id ≡ true)
      × ((report_build r row).0.lane_image_digest ≡ r.digest)
unfolding Build.apply_report append_history
report_build_guarded r row h s = elim (report_build-cases r row) [
  | inr q ↦ absurd (ground (arith, Refusal-success q, h))
  | inl a ↦
      let to_built = sym (ap (λ x. x.0.state) a.result) ∙ s in
      let (good, from_approved) = rule_to_built row.state _ (a.rule ∙ ap some to_built) in
      (
        a.from_builder,
        a.current,
        null-nil _ (rw good at a.complete),
        from_approved,
        rw good at a.profile,
        rw (a.result, good) refl,
      )
]
