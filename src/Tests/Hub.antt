-- ===== src/Tests/Hub.antt =====
-- A request from its opening to its fulfilment, and one that is denied.
use aiggp_agentic_framework.Base.{
  ℕ, ◌+◌, String, Bool, true, false, none, some, List, [], ◌∷◌, ◌++◌, ◌≡◌, refl, string_dec, ◌==◌,
  ◌||◌, ◌>>=◌,
}
use aiggp_agentic_framework.Hub.Requests.{
  approved, built, fulfilled, denied, Row, AuditRecord, new_request_row, transition, append_history,
  audit_record, note_too_long, present,
}
use aiggp_agentic_framework.Hub.Requests.Decide
use aiggp_agentic_framework.Hub.Requests.Decide.{
  Decision, Answer, decide, decide_row, Document, decide_request,
}
use aiggp_agentic_framework.Hub.Requests.Build
use aiggp_agentic_framework.Hub.Requests.Build.{Report, report_build}
use aiggp_agentic_framework.Hub.Requests.Heartbeat
use aiggp_agentic_framework.Hub.Requests.Heartbeat.{Evidence, note_evidence}
use aiggp_agentic_framework.Hub.Requests.Trail.{IsTrailed, has_evidence}
use aiggp_agentic_framework.Hub.Requests.Decisions.{decide_guarded}
use aiggp_agentic_framework.Hub.Requests.Resubmission.{again_at, decide_again}
use aiggp_agentic_framework.Hub.Requests.Builds.{report_build_guarded}
use aiggp_agentic_framework.Hub.Requests.Nonces.{applies, decide_all, nonce_once}
use aiggp_agentic_framework.Hub.Requests.Reach.{
  Act, perform_all, perform_all-IsTrailed, perform_all-has_evidence, perform_all-history,
  denied_for_good,
}

abbrev until : String → String
until now = "2026-02-01T00:00:00Z"

abbrev unused : String → Bool
unused n = false

abbrev first : Row
first = new_request_row "lane" "cargo" (some "rust") "t0" "tcr-0001"

abbrev approval : Decision
approval = record {
  action = "approve";
  credential_class = some "operator";
  scope = some "toolchain:decide";
  credential_id = some "c1";
  actor = some "ann";
  principal = some "ann@example";
  nonce = some "n1";
  expected_version = some 1;
  note = none;
  now = "t1";
}

abbrev denial : Decision
denial = record approval { action = "deny"; note = some "not now"; nonce = some "n2" }

abbrev build : Report
build = record {
  credential_class = some "builder";
  credential_id = some "b1";
  builder_identity = some "ci";
  profile_id = some "rust";
  build_id = some "42";
  digest = some "sha256:aa";
  note = none;
  expected_version = some 2;
  now = "t2";
}

abbrev evidence : Evidence
evidence = record {
  reported_digest = some "sha256:aa";
  missing = some [];
  probe_complete = some true;
  now = "t3";
}

abbrev acts : List Act
acts = Act.decision approval unused ∷ Act.build_report build ∷ Act.heartbeat "lane" evidence ∷ []

abbrev approved_row : Row
approved_row = (decide until approval unused first).0

-- the rows of an approved and of a built request
abbrev ready : Row
ready = record first { state = approved; version = 2 }

abbrev awaiting : Row
awaiting = record ready { state = built; version = 3; lane_image_digest = some "sha256:aa" }

converges : (note_evidence "lane" evidence awaiting).state ≡ fulfilled
unfolding note_evidence Heartbeat.converge_or_clear string_dec new_request_row
    Heartbeat.converge_or_clear_at Heartbeat.probe_passes transition append_history
converges = refl

decide_guarded_example :
    (Decide.may_decide approval ≡ true)
    × ((v : ℕ) → approval.expected_version ≡ some v → v ≡ first.version)
    × ((n : String) × (approval.nonce ≡ some n) × (unused n ≡ false))
    × (approval.action == "approve" || present approval.note ≡ true)
    × (transition first.state (Decide.event_of approval) ≡ some approved_row.state)
    × (approved_row.version ≡ first.version + 1)
unfolding decide Decide.decide_steps ◌>>=◌ Decide.check_class Decide.may_decide string_dec
    Decide.check_version new_request_row Decide.check_prior Decide.prior Decide.check_claim
    Decide.check_notes note_too_long Decide.find_rule transition
decide_guarded_example = decide_guarded until approval unused first refl

decide_again_example :
    (at : String) × (decide until
        (again_at approved_row.version (some "n1") approval)
        (λ n. true)
        approved_row
      ≡ (approved_row, Decide.already_applied at approved_row.version approved_row.state))
unfolding decide Decide.decide_steps ◌>>=◌ Decide.check_class Decide.may_decide string_dec
    Decide.check_version new_request_row Decide.check_prior Decide.prior Decide.check_claim
    Decide.check_notes note_too_long Decide.find_rule transition
decide_again_example = decide_again until approval unused first refl (some "n1") (λ n. true)

report_build_guarded_example :
    (build.credential_class ≡ some "builder")
    × (build.expected_version ≡ some ready.version)
    × (Build.missing_fields build ≡ [])
    × (ready.state ≡ approved)
    × (Build.same_profile ready.required_profile build.profile_id ≡ true)
    × ((report_build build ready).0.lane_image_digest ≡ build.digest)
unfolding report_build Build.report_steps ◌>>=◌ Build.check_builder string_dec Build.check_report
    Build.is_failure Build.missing_fields note_too_long Build.check_expected Build.find_rule
    transition Build.check_profile new_request_row Build.apply_report append_history audit_record
report_build_guarded_example = report_build_guarded build ready refl refl

perform_all-IsTrailed_example : IsTrailed (perform_all until acts first)
perform_all-IsTrailed_example =
    perform_all-IsTrailed until "lane" "cargo" (some "rust") "t0" "tcr-0001" acts

perform_all-has_evidence_example :
    let row = perform_all until acts first in has_evidence row.state row.history ≡ true
perform_all-has_evidence_example =
    perform_all-has_evidence until "lane" "cargo" (some "rust") "t0" "tcr-0001" acts

abbrev denied_row : Row
denied_row = (decide until denial unused first).0

denied_for_good_example : (perform_all until acts denied_row).state ≡ denied
unfolding decide Decide.decide_steps ◌>>=◌ Decide.check_class Decide.may_decide string_dec
    Decide.check_version new_request_row Decide.check_prior Decide.prior Decide.check_claim
    Decide.check_notes note_too_long Decide.find_rule transition Decide.apply_decision
    append_history
denied_for_good_example = denied_for_good until denied_row acts refl

perform_all-history_example :
    (rest : List AuditRecord) × ((perform_all until acts first).history ≡ first.history ++ rest)
perform_all-history_example = perform_all-history until first acts

abbrev doc : Document
doc = record { requests = first ∷ record first { id = "tcr-0002" } ∷ []; consumed_nonces = [] }

abbrev after_approval : Document
after_approval = (decide_request until "tcr-0001" approval doc).0

nonce_once_example :
    applies until "tcr-0002" approval (decide_all until (("tcr-0002", denial) ∷ []) after_approval)
    ≡ false
unfolding decide_request Decide.at_row decide_row decide Decide.decide_steps ◌>>=◌
    Decide.check_class Decide.may_decide string_dec Decide.check_version new_request_row
    Decide.check_prior Decide.prior Decide.check_claim Decide.check_notes note_too_long
    Decide.find_rule transition
nonce_once_example =
    nonce_once until "tcr-0001" approval doc "n1" refl refl (("tcr-0002", denial) ∷ []) "tcr-0002"
      approval refl
