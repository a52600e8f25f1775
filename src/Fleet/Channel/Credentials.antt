-- ===== src/Fleet/Channel/Credentials.antt =====
-- channel.py: enrolment tokens and the credentials of hosts, with the checks of their constructors.
use Prim.Native.String.{◌++◌ as ◌<>◌}
use aiggp_agentic_framework.Base.{
  ℕ, ◌+◌, ◌*◌, String, Bool, true, false, Option, none, some, List, Result, ok, err, ◌>>=◌, ◌>>◌,
  require, refuse_if, each, length, null, unique, ltb, leb, nat_eq, ◌==◌,
}
use aiggp_agentic_framework.Base.Text.{codes}
use aiggp_agentic_framework.Fleet.Values.{is_identifier}
use aiggp_agentic_framework.Fleet.Wire.{Platform, second}

abbrev pub max_message_lifetime : ℕ
max_message_lifetime = 300 * second

abbrev pub max_clock_skew : ℕ
max_clock_skew = 60 * second

abbrev pub default_rotation_overlap : ℕ
default_rotation_overlap = 600 * second

abbrev pub max_token_lifetime : ℕ
max_token_lifetime = 3600 * second

abbrev pub max_body_bytes : ℕ
max_body_bytes = 64 * 1024

abbrev pub max_sequence : ℕ
max_sequence = 9223372036854775807

-- A refusal names the field, or the rule; `not_hex` is the `ValueError` of `bytes.fromhex`.
pub data ChannelError : Type 0 where
  bad : String → ChannelError
  token_used token_unknown token_expired token_early : ChannelError
  key_held : String → ChannelError
  already_enrolled not_found rotates_revoked not_active before_issue same_key : ChannelError
  already_revoked none_active : ChannelError
  many_active : ℕ → ChannelError
  not_usable report_expired report_early provider_raised not_verified : ChannelError
  sequence_not_new : ℕ → ChannelError
  nonce_used not_hex : ChannelError

pub data CredentialStatus : Type 0 where
  active retiring revoked : CredentialStatus

abbrev pub is_active : CredentialStatus → Bool
is_active active = true
is_active _ = false

abbrev pub is_revoked : CredentialStatus → Bool
is_revoked revoked = true
is_revoked _ = false

abbrev pub identifier : String → String → Result ChannelError (Unit {0})
identifier value place = require (is_identifier value) (bad place)

-- `_timestamp`
unfoldable pub timestamp : Platform → String → String → Result ChannelError ℕ
timestamp p value place = do
  refuse_if (value == "") (bad place)
  elim (p.instant value) [ none ↦ err (bad place) | some t ↦ ok t ]

abbrev pub public_key : String → String → Result ChannelError (Unit {0})
public_key value place = require (nat_eq (length (codes value)) 32) (bad place)

unfoldable pub key_id_for : Platform → String → String
key_id_for p key = "key-" <> p.digest16 key

pub record EnrollmentToken : Type 0 where
  pub host_id : String
  pub pools : List String
  pub issued_at : String
  pub expires_at : String
  pub token_id : String

-- `EnrollmentToken.__post_init__`
unfoldable pub check_token : Platform → EnrollmentToken → Result ChannelError (Unit {0})
check_token p t = do
  identifier t.host_id "enrollment_token.host_id"
  refuse_if (null t.pools) (bad "enrollment_token.pools")
  each (λ pool. identifier pool "enrollment_token.pools") t.pools
  require (unique t.pools) (bad "enrollment_token.pools")
  issued ← timestamp p t.issued_at "enrollment_token.issued_at"
  expires ← timestamp p t.expires_at "enrollment_token.expires_at"
  refuse_if (leb expires issued) (bad "enrollment_token.expires_at")
  refuse_if (ltb (issued + max_token_lifetime) expires) (bad "enrollment_token.expires_at")
  refuse_if (t.token_id == "") (bad "enrollment_token.token_id")

-- `EnrollmentToken.expired`
unfoldable pub expired : Platform → ℕ → EnrollmentToken → Result ChannelError Bool
expired p at t = do
  expires ← timestamp p t.expires_at "enrollment_token.expires_at"
  ok (ltb expires at)

pub record HostCredential : Type 0 where
  pub host_id : String
  pub key_id : String
  pub public_key : String
  pub issued_at : String
  pub not_after : String
  pub generation : ℕ
  pub status : CredentialStatus
  pub retires_at : Option String

abbrev check_retires : Platform → CredentialStatus → Option String → Result ChannelError (Unit {0})
check_retires p retiring none = err (bad "host_credential.retires_at")
check_retires p retiring (some at) = do timestamp p at "host_credential.retires_at"; ok tt
check_retires p _ none = ok tt
check_retires p _ (some at) = err (bad "host_credential.retires_at")

-- `HostCredential.__post_init__`
unfoldable pub check_credential : Platform → HostCredential → Result ChannelError (Unit {0})
check_credential p c = do
  identifier c.host_id "host_credential.host_id"
  identifier c.key_id "host_credential.key_id"
  public_key c.public_key "host_credential.public_key"
  require (key_id_for p c.public_key == c.key_id) (bad "host_credential.key_id")
  issued ← timestamp p c.issued_at "host_credential.issued_at"
  last ← timestamp p c.not_after "host_credential.not_after"
  refuse_if (leb last issued) (bad "host_credential.not_after")
  refuse_if (ltb c.generation 1) (bad "host_credential.generation")
  check_retires p c.status c.retires_at

abbrev before_retirement :
    Platform → CredentialStatus → Option String → ℕ → Result ChannelError Bool
before_retirement p retiring (some retires) at = do
  last ← timestamp p retires "host_credential.retires_at"
  ok (leb at last)
before_retirement p retiring none at = err (bad "host_credential.retires_at")
before_retirement p _ _ at = ok true

abbrev within : Bool → Result ChannelError Bool → Result ChannelError Bool
within true r = ok false
within false r = r

-- `HostCredential.usable_at`
unfoldable pub usable_at : Platform → HostCredential → ℕ → Result ChannelError Bool
usable_at p c at = within (is_revoked c.status) (do
  last ← timestamp p c.not_after "host_credential.not_after"
  within (ltb last at) (before_retirement p c.status c.retires_at at))
