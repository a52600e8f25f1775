-- ===== src/Hub/Requests.antt =====
-- toolchain_transitions.py and toolchain_store.py: the rows of the requests, their history, and the
-- table of transitions. A text of the source that may be None is an option.
pub mod Decide
pub mod Build
pub mod Heartbeat
pub mod Trail
pub mod Change
pub mod Reach
pub mod Builds
pub mod Decisions
pub mod Resubmission
pub mod Nonces
use aiggp_agentic_framework.Base.{
  ℕ, ◌+◌, String, Bool, true, false, not, ◌&&◌, Option, none, some, List, [], ◌∷◌, ◌++◌, ◌==◌,
  length, ltb,
}
use aiggp_agentic_framework.Base.Text.{codes}

-- `STATES`
pub data State : Type 0 where
  open_request approved built fulfilled denied : State

-- the events of `TRANSITIONS`
pub data Event : Type 0 where
  decide_approve decide_deny report_built converge build_failed gap_regressed report_suppressed
        report_after_window :
      Event

-- what a history record is about
pub data Entry : Type 0 where
  gap_reported : Entry
  happened : Event → Entry
  rejected_credential_class rejected_conflict rejected_replay rejected_missing_note
        rejected_transition awaiting_cleared :
      Entry

pub record AuditRecord : Type 0 where
  pub seq : ℕ
  pub at : String
  pub actor : Option String
  pub principal : Option String
  pub credential_id : Option String
  pub event : Entry
  pub from_state : Option State
  pub to_state : State
  pub version_before : Option ℕ
  pub version_after : ℕ
  pub note : Option String

pub record Row : Type 0 where
  pub id : String
  pub lane : String
  pub tool : String
  pub required_profile : Option String
  pub state : State
  pub version : ℕ
  pub last_seen : String
  pub last_reported_at : String
  pub actor : Option String
  pub principal : Option String
  pub credential_id : Option String
  pub decided_at : Option String
  pub decision_note : Option String
  pub nonces : List String
  pub build_id : Option String
  pub builder_identity : Option String
  pub lane_image_digest : Option String
  pub fulfilled_at : Option String
  pub suppression_until : Option String
  pub cleared : Option String  -- awaiting_cleared
  pub history : List AuditRecord

-- `TRANSITIONS`, the target of each row of the table
unfoldable pub transition : State → Event → Option State
transition open_request decide_approve = some approved
transition open_request decide_deny = some denied
transition approved report_built = some built
transition built converge = some fulfilled
transition approved build_failed = some open_request
transition built build_failed = some open_request
transition fulfilled gap_regressed = some open_request
transition denied report_suppressed = some denied
transition denied report_after_window = some open_request
transition _ _ = none

abbrev pub last_seq : List AuditRecord → Option ℕ
last_seq [] = none
last_seq (r ∷ []) = some r.seq
last_seq (r ∷ s ∷ rs) = last_seq (s ∷ rs)

abbrev pub after_seq : Option ℕ → ℕ
after_seq none = 0
after_seq (some n) = n + 1

-- the number of the next history record
abbrev pub next_seq : List AuditRecord → ℕ
next_seq h = after_seq (last_seq h)

-- who a record names: actor, principal and credential
pub record Author : Type 0 where
  pub actor : Option String
  pub principal : Option String
  pub credential_id : Option String

abbrev pub nobody : Author
nobody = record { actor = none; principal = none; credential_id = none }

-- `audit_record`
unfoldable pub audit_record :
    Row → String → Author → Entry → State → State → ℕ → ℕ → Option String → AuditRecord
audit_record row at who event from_state to_state before after note = record {
  seq = next_seq row.history;
  at = at;
  actor = who.actor;
  principal = who.principal;
  credential_id = who.credential_id;
  event = event;
  from_state = some from_state;
  to_state = to_state;
  version_before = some before;
  version_after = after;
  note = note;
}

-- `append_history`
unfoldable pub append_history : Row → AuditRecord → Row
append_history row r = record row { history = row.history ++ r ∷ [] }

-- A refusal in the history: the state and the version stand.
unfoldable pub note_refusal : Row → String → Author → Entry → Option String → Row
note_refusal row at who event note =
    append_history row
      (audit_record row at who event row.state row.state row.version row.version note)

-- `new_request_row`
unfoldable pub new_request_row : String → String → Option String → String → String → Row
new_request_row lane tool profile now id = record {
  id = id;
  lane = lane;
  tool = tool;
  required_profile = profile;
  state = open_request;
  version = 1;
  last_seen = now;
  last_reported_at = now;
  actor = none;
  principal = none;
  credential_id = none;
  decided_at = none;
  decision_note = none;
  nonces = [];
  build_id = none;
  builder_identity = none;
  lane_image_digest = none;
  fulfilled_at = none;
  suppression_until = none;
  cleared = none;
  history =
      record {
        seq = 0;
        at = now;
        actor = none;
        principal = none;
        credential_id = none;
        event = gap_reported;
        from_state = none;
        to_state = open_request;
        version_before = none;
        version_after = 1;
        note = none;
      }
      ∷ [];
}

-- Python's truth of a text that may be None
abbrev pub present : Option String → Bool
present none = false
present (some s) = not (s == "")

abbrev pub same_text : Option String → Option String → Bool
same_text none none = true
same_text (some s) (some t) = s == t
same_text _ _ = false

-- `note_too_long`, by DECISION_NOTE_MAX_CHARS
unfoldable pub note_too_long : Option String → Bool
note_too_long none = false
note_too_long (some s) = ltb 512 (length (codes s))
