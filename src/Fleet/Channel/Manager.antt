-- ===== src/Fleet/Channel/Manager.antt =====
-- channel.py, `AgentChannel`: what the manager keeps, and its operations as functions of it. An
-- operation that raises returns no state, as it raises before it writes; `accept` may drop the
-- nonces that have expired and then raise, so it returns its state always.
use aiggp_agentic_framework.Base.{
  ℕ, ◌+◌, String, Bool, ◌&&◌, Option, none, some, List, [], ◌∷◌, Result, ok, err, ◌>>=◌, ◌>>◌,
  require, require_some, refuse_if, length, any, keep, null, contains, ltb, leb, ◌==◌,
  if◌then◌else◌,
}
use aiggp_agentic_framework.Base.Text.{sort}
use aiggp_agentic_framework.Base.Dict.{Dict, lookup, insert, erase}
use aiggp_agentic_framework.Base.Pairs.{Pair, PairDict, find, store}
use aiggp_agentic_framework.Fleet.Wire.{Platform, Verifier}
use aiggp_agentic_framework.Fleet.Channel.Credentials.{
  ChannelError, bad, token_used, token_unknown, token_expired, token_early, key_held,
  already_enrolled, not_found, rotates_revoked, not_active, before_issue, same_key, already_revoked,
  none_active, many_active, not_usable, report_expired, report_early, provider_raised, not_verified,
  sequence_not_new, nonce_used, active, retiring, revoked, is_active, is_revoked, identifier,
  timestamp, public_key, key_id_for, EnrollmentToken, check_token, expired, HostCredential,
  check_credential, usable_at, max_token_lifetime, max_clock_skew,
}
use aiggp_agentic_framework.Fleet.Channel.Envelopes.{ChannelEnvelope, AcceptedReport, signed_bytes}

pub record AgentChannel : Type 0 where
  pub rotation_overlap : ℕ
  pub credential_lifetime : ℕ
  pub tokens : Dict EnrollmentToken
  pub consumed : List String
  pub credentials : PairDict HostCredential
  pub holders : Dict String
  pub last_sequences : PairDict ℕ
  pub nonces : PairDict (Dict ℕ)

-- `AgentChannel.__init__`
unfoldable pub new_channel : ℕ → ℕ → Result ChannelError AgentChannel
new_channel overlap lifetime = do
  refuse_if (leb overlap 0) (bad "channel.rotation_overlap")
  refuse_if (leb lifetime 0) (bad "channel.credential_lifetime")
  ok (record {
    rotation_overlap = overlap;
    credential_lifetime = lifetime;
    tokens = [];
    consumed = [];
    credentials = [];
    holders = [];
    last_sequences = [];
    nonces = [];
  })

-- A host and the id of one of its keys, as the key of a dict.
abbrev pub key_of : String → String → Pair
key_of host_id key_id = record { first = host_id; second = key_id }

abbrev pub place_of : HostCredential → Pair
place_of c = key_of c.host_id c.key_id

abbrev pub enrolled : String → PairDict HostCredential → Bool
enrolled host_id credentials =
    any (λ (row : Pair × HostCredential). (row.0).first == host_id) credentials

abbrev given_or : Option String → String → String
given_or none fresh = fresh
given_or (some id) fresh = id

-- the test of `self._keys.get(public_key)`
abbrev pub unheld : Option String → Result ChannelError (Unit {0})
unheld none = ok tt
unheld (some holder) = err (key_held holder)

module _ (p : Platform) where
  -- `fresh` is what the generator of secrets gives, used where the caller names no token.
  unfoldable pub issue_token :
      String
      → List String
      → ℕ
      → ℕ
      → Option String
      → String
      → AgentChannel
      → Result ChannelError (EnrollmentToken × AgentChannel)
  issue_token host_id pools at ttl token_id fresh s = do
    identifier host_id "channel.issue_token.host_id"
    refuse_if (null pools) (bad "channel.issue_token.pools")
    refuse_if (leb ttl 0) (bad "channel.issue_token.ttl")
    refuse_if (ltb max_token_lifetime ttl) (bad "channel.issue_token.ttl")
    refuse_if (enrolled host_id s.credentials) already_enrolled
    let token : EnrollmentToken = record {
      host_id = host_id;
      pools = sort pools;
      issued_at = p.stamp at;
      expires_at = p.stamp (at + ttl);
      token_id = given_or token_id fresh;
    }
    check_token p token
    ok (token, record s { tokens = insert token.token_id token s.tokens })

  abbrev pub new_credential : String → String → ℕ → ℕ → ℕ → HostCredential
  new_credential host_id key at lifetime generation = record {
    host_id = host_id;
    key_id = key_id_for p key;
    public_key = key;
    issued_at = p.stamp at;
    not_after = p.stamp (at + lifetime);
    generation = generation;
    status = active;
    retires_at = none;
  }

  unfoldable pub enroll :
      String → String → ℕ → AgentChannel → Result ChannelError (HostCredential × AgentChannel)
  enroll token_id key at s = do
    public_key key "channel.enroll.public_key"
    refuse_if (token_id == "") (bad "channel.enroll.token_id")
    refuse_if (contains s.consumed token_id) token_used
    token ← require_some (lookup token_id s.tokens) token_unknown
    late ← expired p at token
    refuse_if late token_expired
    issued ← timestamp p token.issued_at "enrollment_token.issued_at"
    refuse_if (ltb at issued) token_early
    unheld (lookup key s.holders)
    let c : HostCredential = new_credential token.host_id key at s.credential_lifetime 1
    check_credential p c
    ok (
      c,
      record s {
        tokens = erase token_id s.tokens;
        consumed = token_id ∷ s.consumed;
        credentials = store (place_of c) c s.credentials;
        holders = insert key c.host_id s.holders;
      },
    )

  unfoldable pub credential :
      String → String → String → AgentChannel → Result ChannelError HostCredential
  credential host_id key_id place s = do
    identifier host_id place
    identifier key_id place
    require_some (find (key_of host_id key_id) s.credentials) not_found

  abbrev pub retired : HostCredential → ℕ → HostCredential
  retired c until = record c { status = retiring; retires_at = some (p.stamp until) }

  unfoldable pub rotate :
      String
      → String
      → String
      → ℕ
      → AgentChannel
      → Result ChannelError ((HostCredential × HostCredential) × AgentChannel)
  rotate host_id key_id key at s = do
    public_key key "channel.rotate.public_key"
    current ← credential host_id key_id "channel.rotate" s
    refuse_if (is_revoked current.status) rotates_revoked
    require (is_active current.status) not_active
    issued ← timestamp p current.issued_at "host_credential.issued_at"
    refuse_if (ltb at issued) before_issue
    refuse_if (key == current.public_key) same_key
    unheld (lookup key s.holders)
    let old : HostCredential = retired current (at + s.rotation_overlap)
    check_credential p old
    let c : HostCredential =
        new_credential current.host_id key at s.credential_lifetime (current.generation + 1)
    check_credential p c
    ok (
      (c, old),
      record s {
        credentials = store (place_of c) c (store (place_of old) old s.credentials);
        holders = insert key c.host_id s.holders;
      },
    )

  abbrev pub as_revoked : HostCredential → HostCredential
  as_revoked c = record c { status = revoked; retires_at = none }

  unfoldable pub revoke :
      String → String → ℕ → AgentChannel → Result ChannelError (HostCredential × AgentChannel)
  revoke host_id key_id at s = do
    current ← credential host_id key_id "channel.revoke" s
    refuse_if (is_revoked current.status) already_revoked
    issued ← timestamp p current.issued_at "host_credential.issued_at"
    refuse_if (ltb at issued) before_issue
    let c : HostCredential = as_revoked current
    check_credential p c
    ok (c, record s { credentials = store (place_of c) c s.credentials })

  -- the active credentials of a host, in the order of the ledger
  abbrev pub active_of : String → PairDict HostCredential → List HostCredential
  active_of host_id [] = []
  active_of host_id ((k, c) ∷ rest) =
      let others = active_of host_id rest in
      if k.first == host_id && is_active c.status then c ∷ others else others

  abbrev only_one : List HostCredential → Result ChannelError HostCredential
  only_one [] = err none_active
  only_one (c ∷ []) = ok c
  only_one (c ∷ d ∷ cs) = err (many_active (length (c ∷ d ∷ cs)))

  -- `AgentChannel.active`
  unfoldable pub active_credential : String → AgentChannel → Result ChannelError HostCredential
  active_credential host_id s = do
    identifier host_id "channel.active.host_id"
    only_one (active_of host_id s.credentials)

  abbrev pub verdict_of : Option Bool → Result ChannelError (Unit {0})
  verdict_of none = err provider_raised
  verdict_of (some verified) = require verified not_verified

  -- The call of the provider, within the `try` that also covers `signed_bytes`.
  abbrev pub signature_holds :
      Verifier → String → Option String → String → Result ChannelError (Unit {0})
  signature_holds verifier key none signature = err provider_raised
  signature_holds verifier key (some line) signature = verdict_of (verifier key line signature)

  abbrev pub sequence_is_new : Option ℕ → ℕ → Result ChannelError (Unit {0})
  sequence_is_new none n = ok tt
  sequence_is_new (some last) n = refuse_if (leb n last) (sequence_not_new last)

  abbrev pub identity : ChannelEnvelope → Pair
  identity e = key_of e.host_id e.key_id

  -- `accept` up to the nonce: the instant at which the report expires.
  unfoldable pub judge : Verifier → ChannelEnvelope → ℕ → AgentChannel → Result ChannelError ℕ
  judge verifier e at s = do
    c ← credential e.host_id e.key_id "channel.accept" s
    usable ← usable_at p c at
    require usable not_usable
    issued ← timestamp p e.issued_at "envelope.issued_at"
    expires ← timestamp p e.expires_at "envelope.expires_at"
    refuse_if (leb expires at) report_expired
    refuse_if (ltb (at + max_clock_skew) issued) report_early
    signature_holds verifier c.public_key (signed_bytes p e) e.signature
    sequence_is_new (find (identity e) s.last_sequences) e.sequence_number
    ok expires

  -- The nonces that have not expired.
  abbrev pub live_nonces : ℕ → Option (Dict ℕ) → Dict ℕ
  live_nonces at none = []
  live_nonces at (some seen) = keep (λ (row : String × ℕ). leb at row.1) seen

  abbrev pub report_of : ChannelEnvelope → AcceptedReport
  report_of e = record {
    host_id = e.host_id;
    key_id = e.key_id;
    sequence_number = e.sequence_number;
    issued_at = e.issued_at;
    body_text = e.body_text;
  }

  abbrev pub admit_nonce :
      ChannelEnvelope
      → ℕ
      → Dict ℕ
      → Option ℕ
      → AgentChannel
      → AgentChannel × Result ChannelError AcceptedReport
  admit_nonce e expires seen (some used) s =
      (record s { nonces = store (identity e) seen s.nonces }, err nonce_used)
  admit_nonce e expires seen none s = (
    record s {
      last_sequences = store (identity e) e.sequence_number s.last_sequences;
      nonces = store (identity e) (insert e.nonce expires seen) s.nonces;
    },
    ok (report_of e),
  )

  abbrev pub admit_report :
      ChannelEnvelope
      → ℕ
      → Result ChannelError ℕ
      → AgentChannel
      → AgentChannel × Result ChannelError AcceptedReport
  admit_report e at (err x) s = (s, err x)
  admit_report e at (ok expires) s =
      let seen = live_nonces at (find (identity e) s.nonces) in
      admit_nonce e expires seen (lookup e.nonce seen) s

  unfoldable pub accept :
      Verifier
      → ChannelEnvelope
      → ℕ
      → AgentChannel
      → AgentChannel × Result ChannelError AcceptedReport
  accept verifier e at s = admit_report e at (judge verifier e at s) s

unfoldable pub last_sequence : String → String → AgentChannel → Option ℕ
last_sequence host_id key_id s = find (key_of host_id key_id) s.last_sequences
