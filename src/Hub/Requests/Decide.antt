-- ===== src/Hub/Requests/Decide.antt =====
-- toolchain_transitions.py, `decide`, and toolchain_creds.py, `decide_request`. The statements that
-- return early are errors of a chain, which carry the row as it is then.
use aiggp_agentic_framework.Base.{
  ℕ, ◌+◌, String, Bool, true, false, not, ◌&&◌, ◌||◌, Option, none, some, List, [], ◌∷◌, ◌++◌, ◌==◌,
  nat_eq, if◌then◌else◌, Result, ok, err, ◌>>=◌, ◌>>◌, require, require_some, refuse_if, contains,
}
use aiggp_agentic_framework.Hub.Requests.{
  State, denied, Event, decide_approve, decide_deny, Entry, happened, rejected_credential_class,
  rejected_conflict, rejected_replay, rejected_missing_note, rejected_transition, AuditRecord, Row,
  transition, Author, audit_record, append_history, note_refusal, present, same_text, note_too_long,
}

-- What `decide` is called with.
pub record Decision : Type 0 where
  pub action : String
  pub credential_class : Option String
  pub scope : Option String
  pub credential_id : Option String
  pub actor : Option String
  pub principal : Option String
  pub nonce : Option String
  pub expected_version : Option ℕ
  pub note : Option String
  pub now : String

pub data Answer : Type 0 where
  unknown_credential : Answer
  rejected_class : String → Answer
  version_conflict : (current submitted : ℕ) → Answer
  already_applied : (at : String) → ℕ → State → Answer
  claim_incomplete replayed_nonce note_over_cap deny_requires_note : Answer
  not_in_table : State → Event → Answer
  applied : ℕ → State → Answer
  request_not_found : Answer

-- the HTTP status
abbrev pub status_of : Answer → ℕ
status_of unknown_credential = 401
status_of (rejected_class c) = 403
status_of (version_conflict v w) = 409
status_of (already_applied at v s) = 200
status_of claim_incomplete = 400
status_of replayed_nonce = 409
status_of note_over_cap = 400
status_of deny_requires_note = 400
status_of (not_in_table s e) = 409
status_of (applied v s) = 200
status_of request_not_found = 404

abbrev pub decide_scope : String
decide_scope = "toolchain:decide"

-- `credential_class == "operator" and scope == DECIDE_SCOPE`
unfoldable pub may_decide : Decision → Bool
may_decide d =
    same_text d.credential_class (some "operator") && same_text d.scope (some decide_scope)

abbrev pub author : Decision → Author
author d = record { actor = d.actor; principal = d.principal; credential_id = d.credential_id }

abbrev pub event_of : Decision → Event
event_of d = if d.action == "approve" then decide_approve else decide_deny

abbrev pub is_event : Event → Entry → Bool
is_event decide_approve (happened decide_approve) = true
is_event decide_deny (happened decide_deny) = true
is_event _ _ = false

-- the first record of the identical decision at this version
unfoldable pub prior : Decision → ℕ → List AuditRecord → Option AuditRecord
prior d version [] = none
prior d version (h ∷ hs) =
    let rest = prior d version hs in
    if nat_eq h.version_after version
      && is_event (event_of d) h.event
      && same_text h.actor d.actor
      && same_text h.note d.note
    then some h
    else rest

abbrev pub is_version : Option ℕ → ℕ → Bool
is_version none v = false
is_version (some w) v = nat_eq w v

abbrev class_name : String → String
class_name c = if c == "" then "unknown" else c

abbrev pub Early : Type 0 → Type 0
Early = Result (Row × Answer)

unfoldable pub check_class : Decision → Row → Early (Unit {0})
check_class d row = do
  c ← require_some d.credential_class (row, unknown_credential)
  require (may_decide d) (
    note_refusal row d.now (author d) rejected_credential_class none,
    rejected_class (class_name c),
  )

unfoldable pub check_version : Decision → Row → Early (Unit {0})
check_version d row = elim d.expected_version [
  | none ↦ ok tt
  | some v ↦
      require (nat_eq v row.version)
        (note_refusal row d.now (author d) rejected_conflict d.note, version_conflict row.version v)
]

unfoldable pub check_prior : Decision → Row → Early (Unit {0})
check_prior d row =
    if is_version d.expected_version row.version
    then elim (prior d row.version row.history) [
      | none ↦ ok tt
      | some h ↦ err (row, already_applied h.at row.version row.state)
    ]
    else ok tt

-- the nonce, of a complete claim
unfoldable pub check_claim : Decision → Row → Early String
check_claim d row = elim d.nonce [
  | none ↦ err (row, claim_incomplete)
  | some n ↦ do
    require (present d.actor && present d.principal && not (n == "")) (row, claim_incomplete)
    ok n
]

unfoldable pub check_notes : Decision → Row → Early (Unit {0})
check_notes d row = do
  refuse_if (note_too_long d.note) (row, note_over_cap)
  require (d.action == "approve" || present d.note)
      (note_refusal row d.now (author d) rejected_missing_note none, deny_requires_note)

unfoldable pub find_rule : Decision → Row → Early State
find_rule d row = require_some (transition row.state (event_of d)) (
  note_refusal row d.now (author d) rejected_transition none,
  not_in_table row.state (event_of d),
)

abbrev is_denied : State → Bool
is_denied denied = true
is_denied _ = false

abbrev pub either_way : {A : Type 0} → Result A A → A
either_way (ok a) = a
either_way (err a) = a

-- `suppress_until` adds the days of the suppression window to an instant, by the datetime library.
module _ (suppress_until : String → String) where
  unfoldable pub apply_decision : Decision → String → Row → State → Row
  apply_decision d nonce row to =
      append_history
        (record row {
          state = to;
          version = row.version + 1;
          actor = d.actor;
          principal = d.principal;
          credential_id = d.credential_id;
          decided_at = some d.now;
          decision_note = d.note;
          nonces = row.nonces ++ nonce ∷ [];
          suppression_until =
              if is_denied to then some (suppress_until d.now) else row.suppression_until;
        })
        (audit_record row d.now (author d) (happened (event_of d)) row.state to row.version
          (row.version + 1) d.note)

  unfoldable pub decide_steps : Decision → (String → Bool) → Row → Early (Row × Answer)
  decide_steps d consumed row = do
    check_class d row
    check_version d row
    check_prior d row
    nonce ← check_claim d row
    refuse_if (consumed nonce)
        (note_refusal row d.now (author d) rejected_replay none, replayed_nonce)
    check_notes d row
    to ← find_rule d row
    ok (apply_decision d nonce row to, applied (row.version + 1) to)

  -- `decide`
  unfoldable pub decide : Decision → (String → Bool) → Row → Row × Answer
  decide d consumed row = either_way (decide_steps d consumed row)

-- The part of the registry's document that decisions read and write.
pub record Document : Type 0 where
  pub requests : List Row  -- toolchain_requests
  pub consumed_nonces : List String

-- `is_nonce_consumed`
abbrev pub is_nonce_consumed : Document → String → Bool
is_nonce_consumed doc n = contains doc.consumed_nonces n

-- `consume_nonce`
abbrev pub add_once : List String → String → List String
add_once ns n = if contains ns n then ns else ns ++ n ∷ []

-- `result.get("idempotent")`
abbrev pub is_idempotent : Answer → Bool
is_idempotent (already_applied at v s) = true
is_idempotent _ = false

abbrev pub is_success : Answer → Bool
is_success a = nat_eq (status_of a) 200

-- a success that is no repetition
abbrev pub is_applied : Answer → Bool
is_applied a = is_success a && not (is_idempotent a)

abbrev pub add_if_any : Option String → List String → List String
add_if_any none ns = ns
add_if_any (some n) ns = add_once ns n

-- What a decision's answer leaves of the nonces: those of the document, and those of the row.
unfoldable pub consumed_after : Answer → Option String → List String → List String
consumed_after a nonce ns =
    if is_success a && not (is_idempotent a) then add_if_any nonce ns else ns

unfoldable pub row_nonces_after : Answer → Option String → Row → Row
row_nonces_after a nonce row =
    if is_success a then record row { nonces = add_if_any nonce row.nonces } else row

-- The first row with the id, changed by `f`, and `f`'s answer.
unfoldable pub at_row : String → (Row → Row × Answer) → List Row → List Row × Answer
at_row id f [] = ([], request_not_found)
at_row id f (r ∷ rs) =
    let rest = at_row id f rs in
    let here = f r in if r.id == id then (here.0 ∷ rs, here.1) else (r ∷ rest.0, rest.1)

-- the decision of one row, with what `decide_request` does to its nonces
unfoldable pub decide_row : (String → String) → Decision → (String → Bool) → Row → Row × Answer
decide_row suppress_until d consumed row =
    let (row', answer) = decide suppress_until d consumed row in
    (row_nonces_after answer d.nonce row', answer)

-- `decide_request`
unfoldable pub decide_request : (String → String) → String → Decision → Document → Document × Answer
decide_request suppress_until id d doc =
    let (rows, answer) =
      at_row id (decide_row suppress_until d (is_nonce_consumed doc)) doc.requests in
    (
      record {
        requests = rows;
        consumed_nonces = consumed_after answer d.nonce doc.consumed_nonces;
      },
      answer,
    )
