-- ===== src/Fleet/SignedState/Issue.antt =====
-- state.py: `StateIssuer`, and `accept_state` of the host. A signer that raises is one that gives
-- nothing. A refused issue returns no state, as it raises before it writes.
use Prim.Native.String.{◌++◌ as ◌<>◌}
use aiggp_agentic_framework.Base.{
  ℕ, ◌+◌, String, Bool, Option, none, some, Result, ok, err, ◌>>=◌, ◌>>◌, require, refuse_if,
  require_some, map_err, ltb, leb, ◌==◌,
}
use aiggp_agentic_framework.Base.Dict.{Dict, lookup, insert}
use aiggp_agentic_framework.Fleet.Wire.{Json, Platform, Verifier}
use aiggp_agentic_framework.Fleet.Documents.Read.{from_document}
use aiggp_agentic_framework.Fleet.SignedState.States.{
  StateError, bad, signer_raised, other_audience, has_expired, too_early, provider_raised,
  not_verified, not_newer, SignedState, check_signed_state, instant_of, audience_name, body_json,
  expired, signed_bytes, max_state_lifetime, max_state_clock_skew,
}

abbrev pub Signer : Type 0
Signer = String → Option String

-- The last sequence of each audience.
abbrev pub StateIssuer : Type 0
StateIssuer = Dict ℕ

abbrev pub or_zero : Option ℕ → ℕ
or_zero none = 0
or_zero (some n) = n

unfoldable pub last_sequence : String → StateIssuer → Option ℕ
last_sequence audience issuer = lookup audience issuer

-- the revision given, or that of the body
abbrev pub revision_of : Platform → Json → Option ℕ → Result StateError ℕ
revision_of p body (some revision) = ok revision
revision_of p body none =
    map_err (λ e. bad "state_issuer.body") (do s ← from_document p.instant body; ok s.revision)

-- `"00" * 64`
abbrev no_signature : String
no_signature =
    "0000000000000000000000000000000000000000000000000000000000000000"
    <> "0000000000000000000000000000000000000000000000000000000000000000"

abbrev pub sign : Signer → Option String → Result StateError String
sign signer none = err signer_raised
sign signer (some line) = require_some (signer line) signer_raised

pub record AcceptedState : Type 0 where
  pub audience : String
  pub revision : ℕ
  pub sequence_number : ℕ
  pub body_text : String

abbrev pub accepted_state : SignedState → AcceptedState
accepted_state s = record {
  audience = s.audience;
  revision = s.revision;
  sequence_number = s.sequence_number;
  body_text = s.body_text;
}

abbrev pub verdict_of : Option Bool → Result StateError (Unit {0})
verdict_of none = err provider_raised
verdict_of (some verified) = require verified not_verified

-- The call of the provider, within the `try` that also covers the bytes and `bytes.fromhex`.
abbrev pub provider_takes :
    Verifier → String → Option String → Option String → Result StateError (Unit {0})
provider_takes verifier key none signature = err provider_raised
provider_takes verifier key (some line) none = err provider_raised
provider_takes verifier key (some line) (some signature) = verdict_of (verifier key line signature)

abbrev pub is_newer : ℕ → Option ℕ → Result StateError (Unit {0})
is_newer n none = ok tt
is_newer n (some last) = refuse_if (leb n last) (not_newer last)

module _ (p : Platform) where
  abbrev pub unsigned : String → ℕ → ℕ → ℕ → ℕ → String → SignedState
  unsigned audience revision n issued_at ttl line = record {
    audience = audience;
    revision = revision;
    sequence_number = n;
    issued_at = p.stamp issued_at;
    expires_at = p.stamp (issued_at + ttl);
    body_text = line;
    signature = no_signature;
  }

  abbrev pub with_signature : String → SignedState → SignedState
  with_signature signature s = record s { signature = p.hex signature }

  unfoldable pub issue :
      Signer
      → Json
      → String
      → ℕ
      → ℕ
      → Option ℕ
      → StateIssuer
      → Result StateError (SignedState × StateIssuer)
  issue signer body audience issued_at ttl revision issuer = do
    audience_name audience "state_issuer.audience"
    refuse_if (leb ttl 0) (bad "state_issuer.ttl")
    refuse_if (ltb max_state_lifetime ttl) (bad "state_issuer.ttl")
    line ← body_json p body "state_issuer.body"
    number ← revision_of p body revision
    let n = or_zero (lookup audience issuer) + 1
    let s : SignedState = unsigned audience number n issued_at ttl line
    check_signed_state p s
    signature ← sign signer (signed_bytes p s)
    let signed : SignedState = with_signature signature s
    check_signed_state p signed
    ok (signed, insert audience n issuer)

  unfoldable pub accept_state :
      Verifier → String → String → Option ℕ → ℕ → SignedState → Result StateError AcceptedState
  accept_state verifier key audience last at s = do
    audience_name audience "accept_state.audience"
    require (s.audience == audience) other_audience
    late ← expired p at s
    refuse_if late has_expired
    issued ← instant_of p s.issued_at "signed_state.issued_at"
    refuse_if (ltb (at + max_state_clock_skew) issued) too_early
    provider_takes verifier key (signed_bytes p s) (p.unhex s.signature)
    is_newer s.sequence_number last
    ok (accepted_state s)
