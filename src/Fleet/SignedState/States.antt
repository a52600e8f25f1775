-- ===== src/Fleet/SignedState/States.antt =====
-- state.py: signed states, the bytes that their signature covers, and their wire form.
use aiggp_agentic_framework.Base.{
  ℕ, ◌+◌, ◌*◌, String, Bool, Option, none, some, List, [], ◌∷◌, Result, ok, err, ◌>>=◌, ◌>>◌,
  require, refuse_if, require_some, map_err, each, contains, length, ltb, leb, nat_eq, ◌==◌,
}
use aiggp_agentic_framework.Base.Text.{codes}
use aiggp_agentic_framework.Fleet.Values.{is_identifier}
use aiggp_agentic_framework.Fleet.Wire.{
  Json, natural, string, object, Members, no_member, member, member_of, member_names, Platform,
  second,
}
use aiggp_agentic_framework.Fleet.Channel.Credentials.{timestamp}
use aiggp_agentic_framework.Fleet.Channel.Envelopes.{is_object, is_hex}
use aiggp_agentic_framework.Fleet.Documents.Read.{from_document}

abbrev pub state_schema : String
state_schema = "fleet-manager-signed-state/1"

abbrev pub max_state_lifetime : ℕ
max_state_lifetime = 3600 * second

abbrev pub max_state_clock_skew : ℕ
max_state_clock_skew = 60 * second

abbrev pub max_state_body_bytes : ℕ
max_state_body_bytes = 256 * 1024

abbrev pub max_sequence : ℕ
max_sequence = 9223372036854775807

pub data StateError : Type 0 where
  bad : String → StateError
  signer_raised other_audience has_expired too_early provider_raised not_verified : StateError
  not_newer : ℕ → StateError

abbrev any_error : {E A : Type 0} → StateError → Result E A → Result StateError A
any_error e r = map_err (λ x. e) r

-- `_timestamp`, whose refusal becomes a `StateError`
abbrev pub instant_of : Platform → String → String → Result StateError ℕ
instant_of p value place = any_error (bad place) (timestamp p value place)

abbrev pub audience_name : String → String → Result StateError (Unit {0})
audience_name value place = require (is_identifier value) (bad place)

-- `_body_json`
unfoldable pub body_json : Platform → Json → String → Result StateError String
body_json p value place = do
  require (is_object value) (bad place)
  line ← require_some (p.dumps value) (bad place)
  refuse_if (ltb max_state_body_bytes (p.size line)) (bad place)
  ok line

-- `_document_body`
unfoldable pub document_body : Platform → String → String → Result StateError (Unit {0})
document_body p line place = do
  refuse_if (line == "") (bad place)
  parsed ← require_some (p.loads line) (bad place)
  canonical ← body_json p parsed place
  require (canonical == line) (bad place)
  any_error (bad place) (from_document p.instant parsed)
  ok tt

pub record SignedState : Type 0 where
  pub audience : String
  pub revision : ℕ
  pub sequence_number : ℕ
  pub issued_at : String
  pub expires_at : String
  pub body_text : String
  pub signature : String

abbrev counted : ℕ → String → Result StateError (Unit {0})
counted value place = do
  refuse_if (ltb value 1) (bad place)
  refuse_if (ltb max_sequence value) (bad place)

-- `SignedState.__post_init__`
unfoldable pub check_signed_state : Platform → SignedState → Result StateError (Unit {0})
check_signed_state p s = do
  audience_name s.audience "signed_state.audience"
  counted s.revision "signed_state.revision"
  counted s.sequence_number "signed_state.sequence"
  issued ← instant_of p s.issued_at "signed_state.issued_at"
  expires ← instant_of p s.expires_at "signed_state.expires_at"
  refuse_if (leb expires issued) (bad "signed_state.expires_at")
  refuse_if (ltb (issued + max_state_lifetime) expires) (bad "signed_state.expires_at")
  document_body p s.body_text "signed_state.body_json"
  require (is_hex s.signature) (bad "signed_state.signature")
  require (nat_eq (length (codes s.signature)) 128) (bad "signed_state.signature")

-- `SignedState.expired`
unfoldable pub expired : Platform → ℕ → SignedState → Result StateError Bool
expired p at s = do
  expires ← instant_of p s.expires_at "signed_state.expires_at"
  ok (ltb expires at)

-- The canonical text of every field but the signature, where the body is JSON.
unfoldable pub signed_bytes : Platform → SignedState → Option String
signed_bytes p s = elim (p.loads s.body_text) [
  | none ↦ none
  | some body ↦ p.dumps (
      object (
        member "audience" (string s.audience) (
          member "body" body (
            member "expires_at" (string s.expires_at) (
              member "issued_at" (string s.issued_at) (
                member "revision" (natural s.revision) (
                  member "schema" (string state_schema)
                    (member "sequence" (natural s.sequence_number) no_member))))))))
]

unfoldable pub state_to_document : Platform → SignedState → Option Json
state_to_document p s = elim (p.loads s.body_text) [
  | none ↦ none
  | some body ↦ some (
      object (
        member "schema" (string state_schema) (
          member "audience" (string s.audience) (
            member "revision" (natural s.revision) (
              member "sequence" (natural s.sequence_number) (
                member "issued_at" (string s.issued_at) (
                  member "expires_at" (string s.expires_at)
                    (member "body" body (member "signature" (string s.signature) no_member)))))))))
]

abbrev state_fields : List String
state_fields =
    "schema" ∷ "audience" ∷ "revision" ∷ "sequence" ∷ "issued_at" ∷ "expires_at" ∷ "body"
    ∷ "signature" ∷ []

abbrev members_of : Json → Result StateError Members
members_of (object fields) = ok fields
members_of _ = err (bad "signed_state")

-- A value of another type reads as the empty text, or as 0, which the check of its field refuses.
abbrev text_of : Json → String
text_of (string s) = s
text_of _ = ""

abbrev number_of : Json → ℕ
number_of (natural n) = n
number_of _ = 0

abbrev field_of : String → Members → Result StateError Json
field_of name fields = require_some (member_of name fields) (bad name)

abbrev present : Members → String → Result StateError (Unit {0})
present fields name = do field_of name fields; ok tt

unfoldable pub state_from_document : Platform → Json → Result StateError SignedState
state_from_document p doc = do
  fields ← members_of doc
  each (present fields) state_fields
  each (λ name. require (contains state_fields name) (bad name)) (member_names fields)
  schema ← field_of "schema" fields
  require (text_of schema == state_schema) (bad "schema")
  body ← field_of "body" fields
  line ← body_json p body "body"
  audience ← field_of "audience" fields
  revision ← field_of "revision" fields
  number ← field_of "sequence" fields
  issued_at ← field_of "issued_at" fields
  expires_at ← field_of "expires_at" fields
  signature ← field_of "signature" fields
  let s : SignedState = record {
    audience = text_of audience;
    revision = number_of revision;
    sequence_number = number_of number;
    issued_at = text_of issued_at;
    expires_at = text_of expires_at;
    body_text = line;
    signature = text_of signature;
  }
  check_signed_state p s
  ok s
