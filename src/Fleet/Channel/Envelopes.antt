-- ===== src/Fleet/Channel/Envelopes.antt =====
-- channel.py: signed reports, their wire form, and the bytes that a host signs.
use aiggp_agentic_framework.Base.{
  ℕ, zero, suc, ◌+◌, String, Bool, true, false, ◌&&◌, ◌||◌, Option, none, some, List, [], ◌∷◌,
  Result, ok, err, ◌>>=◌, ◌>>◌, require, refuse_if, require_some, each, length, contains, ltb, leb,
  nat_eq, ◌==◌,
}
use aiggp_agentic_framework.Base.Text.{codes, is_lower, is_digit, up_to, many}
use aiggp_agentic_framework.Fleet.Values.{hex_char}
use aiggp_agentic_framework.Fleet.Wire.{
  Json, natural, string, object, Members, no_member, member, member_of, member_names, Platform,
}
use aiggp_agentic_framework.Fleet.Channel.Credentials.{
  ChannelError, bad, not_hex, identifier, timestamp, max_message_lifetime, max_body_bytes,
  max_sequence,
}

abbrev nonce_char : ℕ → Bool
nonce_char c = is_lower c || is_digit c || nat_eq c b'-'

-- `n` characters, then at most 56
nonce_from : ℕ → List ℕ → Bool
nonce_from zero s = up_to nonce_char 56 s
nonce_from (suc n) [] = false
nonce_from (suc n) (c ∷ s) = nonce_char c && nonce_from n s

unfoldable pub is_nonce : String → Bool
unfolding up_to nonce_from
is_nonce s = nonce_from 8 (codes s)

abbrev some_hex : List ℕ → Bool
some_hex [] = false
some_hex (c ∷ s) = hex_char c && many hex_char s

unfoldable pub is_hex : String → Bool
unfolding many
is_hex s = some_hex (codes s)

unfoldable pub is_object : Json → Bool
is_object (object fields) = true
is_object _ = false

-- `_body_json`
unfoldable pub body_json : Platform → Json → String → Result ChannelError String
body_json p value place = do
  require (is_object value) (bad place)
  line ← require_some (p.dumps value) (bad place)
  refuse_if (ltb max_body_bytes (p.size line)) (bad place)
  ok line

abbrev pub sequence : ℕ → String → Result ChannelError (Unit {0})
sequence value place = refuse_if (ltb value 1 || ltb max_sequence value) (bad place)

pub record ChannelEnvelope : Type 0 where
  pub host_id : String
  pub key_id : String
  pub sequence_number : ℕ
  pub nonce : String
  pub issued_at : String
  pub expires_at : String
  pub body_text : String
  pub signature : String

-- `ChannelEnvelope.__post_init__`
unfoldable pub check_envelope : Platform → ChannelEnvelope → Result ChannelError (Unit {0})
check_envelope p e = do
  identifier e.host_id "envelope.host_id"
  identifier e.key_id "envelope.key_id"
  sequence e.sequence_number "envelope.sequence"
  require (is_nonce e.nonce) (bad "envelope.nonce")
  issued ← timestamp p e.issued_at "envelope.issued_at"
  expires ← timestamp p e.expires_at "envelope.expires_at"
  refuse_if (leb expires issued) (bad "envelope.expires_at")
  refuse_if (ltb (issued + max_message_lifetime) expires) (bad "envelope.expires_at")
  refuse_if (e.body_text == "") (bad "envelope.body_json")
  body ← require_some (p.loads e.body_text) (bad "envelope.body_json")
  again ← body_json p body "envelope.body_json"
  require (again == e.body_text) (bad "envelope.body_json")
  require (nat_eq (length (codes e.signature)) 64) (bad "envelope.signature")

pub record AcceptedReport : Type 0 where
  pub host_id : String
  pub key_id : String
  pub sequence_number : ℕ
  pub issued_at : String
  pub body_text : String

abbrev pub channel_schema : String
channel_schema = "fleet-manager-agent-envelope/1"

abbrev fields_before : ChannelEnvelope → Json → Members → Members
fields_before e body rest = member "schema" (string channel_schema) (
    member "host_id" (string e.host_id) (
      member "key_id" (string e.key_id) (
        member "sequence" (natural e.sequence_number) (
          member "nonce" (string e.nonce) (
            member "issued_at" (string e.issued_at)
              (member "expires_at" (string e.expires_at) (member "body" body rest)))))))

-- The canonical text of the document less its signature, where the body is JSON.
unfoldable pub signed_bytes : Platform → ChannelEnvelope → Option String
signed_bytes p e = elim (p.loads e.body_text) [
  | none ↦ none
  | some body ↦ p.dumps (object (fields_before e body no_member))
]

unfoldable pub envelope_to_document : Platform → ChannelEnvelope → Option Json
envelope_to_document p e = elim (p.loads e.body_text) [
  | none ↦ none
  | some body ↦
      some
        (object (fields_before e body (member "signature" (string (p.hex e.signature)) no_member)))
]

abbrev required_fields : List String
required_fields =
    "schema" ∷ "host_id" ∷ "key_id" ∷ "sequence" ∷ "nonce" ∷ "issued_at" ∷ "expires_at" ∷ "body"
    ∷ "signature" ∷ []

abbrev members_of : Json → Result ChannelError Members
members_of (object fields) = ok fields
members_of _ = err (bad "envelope")

-- A value of another type reads as the empty text, or as 0, which the check of its field refuses.
abbrev text_of : Json → String
text_of (string s) = s
text_of _ = ""

abbrev number_of : Json → ℕ
number_of (natural n) = n
number_of _ = 0

abbrev field_of : String → Members → Result ChannelError Json
field_of name fields = require_some (member_of name fields) (bad name)

abbrev present : Members → String → Result ChannelError (Unit {0})
present fields name = do field_of name fields; ok tt

unfoldable pub envelope_from_document : Platform → Json → Result ChannelError ChannelEnvelope
envelope_from_document p doc = do
  fields ← members_of doc
  each (present fields) required_fields
  each (λ name. require (contains required_fields name) (bad name)) (member_names fields)
  schema ← field_of "schema" fields
  require (text_of schema == channel_schema) (bad "schema")
  hex ← field_of "signature" fields
  require (is_hex (text_of hex)) (bad "signature")
  signature ← require_some (p.unhex (text_of hex)) not_hex
  body ← field_of "body" fields
  line ← body_json p body "body"
  host_id ← field_of "host_id" fields
  key_id ← field_of "key_id" fields
  number ← field_of "sequence" fields
  nonce ← field_of "nonce" fields
  issued_at ← field_of "issued_at" fields
  expires_at ← field_of "expires_at" fields
  let e : ChannelEnvelope = record {
    host_id = text_of host_id;
    key_id = text_of key_id;
    sequence_number = number_of number;
    nonce = text_of nonce;
    issued_at = text_of issued_at;
    expires_at = text_of expires_at;
    body_text = line;
    signature = signature;
  }
  check_envelope p e
  ok e
