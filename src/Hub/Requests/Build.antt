-- ===== src/Hub/Requests/Build.antt =====
-- toolchain_evidence.py, `report_build`, over the row with the reported id. The fields of a report
-- are texts or missing; a value of another JSON type is not modelled.
use aiggp_agentic_framework.Base.{
  ℕ, ◌+◌, String, Bool, true, false, not, ◌||◌, Option, none, some, List, [], ◌∷◌, ◌++◌, ◌==◌,
  nat_eq, null, if◌then◌else◌, Result, ok, err, ◌>>=◌, ◌>>◌, require, require_some, refuse_if,
}
use aiggp_agentic_framework.Hub.Requests.{
  State, built, Event, report_built, build_failed, happened, rejected_credential_class,
  rejected_conflict, rejected_missing_note, rejected_transition, Row, transition, Author,
  audit_record, append_history, note_refusal, present, same_text, note_too_long,
}

pub record Report : Type 0 where
  pub credential_class : Option String
  pub credential_id : Option String
  pub builder_identity : Option String
  pub profile_id : Option String
  pub build_id : Option String
  pub digest : Option String
  pub note : Option String
  pub expected_version : Option ℕ
  pub now : String

pub data Reply : Type 0 where
  unknown_credential : Reply
  rejected_class : String → Reply
  builder_identity_missing : Reply
  evidence_incomplete : List String → Reply
  note_over_cap failure_requires_note expected_version_required : Reply
  version_conflict : (current submitted : ℕ) → Reply
  not_in_table : State → Event → Reply
  profile_mismatch : Option String → Reply
  reported : State → ℕ → Reply

abbrev pub is_reported : Reply → Bool
is_reported (reported s v) = true
is_reported _ = false

abbrev pub builder : Report → Author
builder r = record {
  actor = r.builder_identity;
  principal = r.builder_identity;
  credential_id = r.credential_id;
}

abbrev missing_if : Bool → String → List String
missing_if true s = []
missing_if false s = s ∷ []

-- `_missing_fields`
unfoldable pub missing_fields : Report → List String
missing_fields r =
    missing_if (present r.build_id) "build_id"
    ++ missing_if (present r.profile_id) "profile_id"
    ++ missing_if (present r.digest) "digest"

-- a report without a digest
unfoldable pub is_failure : Report → Bool
is_failure r = elim r.digest [ none ↦ true | some d ↦ false ]

abbrev pub build_event : Report → Event
build_event r = if is_failure r then build_failed else report_built

abbrev pub Early : Type 0 → Type 0
Early = Result (Row × Reply)

abbrev class_name : String → String
class_name c = if c == "" then "unknown" else c

-- the guards that read the report only
unfoldable pub check_builder : Report → Row → Early (Unit {0})
check_builder r row = do
  c ← require_some r.credential_class (row, unknown_credential)
  require (c == "builder") (
    note_refusal row r.now (builder r) rejected_credential_class none,
    rejected_class (class_name c),
  )
  require (present r.builder_identity) (row, builder_identity_missing)

unfoldable pub check_report : Report → Row → Early (Unit {0})
check_report r row = do
  require (is_failure r || null (missing_fields r)) (row, evidence_incomplete (missing_fields r))
  refuse_if (note_too_long r.note) (row, note_over_cap)
  require (not (is_failure r) || present r.note)
      (note_refusal row r.now (builder r) rejected_missing_note none, failure_requires_note)

-- the guards that compare it with the row
unfoldable pub check_expected : Report → Row → Early (Unit {0})
check_expected r row = do
  v ← require_some r.expected_version (row, expected_version_required)
  require (nat_eq v row.version)
      (note_refusal row r.now (builder r) rejected_conflict none, version_conflict row.version v)

unfoldable pub find_rule : Report → Row → Early State
find_rule r row = require_some (transition row.state (build_event r)) (
  note_refusal row r.now (builder r) rejected_transition none,
  not_in_table row.state (build_event r),
)

-- the approved profile is one, and it is the report's
abbrev pub same_profile : Option String → Option String → Bool
same_profile none q = false
same_profile (some p) q = same_text (some p) q

unfoldable pub check_profile : Report → Row → Early (Unit {0})
check_profile r row = require (is_failure r || same_profile row.required_profile r.profile_id) (
  note_refusal row r.now (builder r) rejected_transition (some "profile_mismatch"),
  profile_mismatch row.required_profile,
)

abbrev is_built : State → Bool
is_built built = true
is_built _ = false

unfoldable pub apply_report : Report → Row → State → Row
apply_report r row to =
    append_history
      (record row {
        state = to;
        version = row.version + 1;
        builder_identity = r.builder_identity;
        build_id = if is_failure r then none else r.build_id;
        lane_image_digest = if is_failure r then none else r.digest;
        fulfilled_at = if is_built to then row.fulfilled_at else none;
      })
      (audit_record row r.now (builder r) (happened (build_event r)) row.state to row.version
        (row.version + 1) r.note)

unfoldable pub report_steps : Report → Row → Early (Row × Reply)
report_steps r row = do
  check_builder r row
  check_report r row
  check_expected r row
  to ← find_rule r row
  check_profile r row
  ok (apply_report r row to, reported to (row.version + 1))

abbrev pub either_way : {A : Type 0} → Result A A → A
either_way (ok a) = a
either_way (err a) = a

-- `report_build`
unfoldable pub report_build : Report → Row → Row × Reply
report_build r row = either_way (report_steps r row)
