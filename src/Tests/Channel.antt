-- ===== src/Tests/Channel.antt =====
-- A channel on which one host enrols, rotates its key, reports and is revoked.
use aiggp_agentic_framework.Base.{
  ℕ, ◌≤◌, String, ◌≡◌, refl, Bool, true, false, Option, none, some, List, [], ◌∷◌, Result, ok, err,
  ◌>>=◌, each, is_ok, nat_eq, ◌==◌, if◌then◌else◌, string_dec, arith, require_some,
}
use aiggp_agentic_framework.Base.Dict.{lookup, insert, erase}
use aiggp_agentic_framework.Base.Pairs.{Pair, find, store}
use aiggp_agentic_framework.Fleet.Values.{is_identifier}
use aiggp_agentic_framework.Fleet.Wire.{Platform, Verifier, object, no_member}
use aiggp_agentic_framework.Fleet.Channel.Credentials.{
  active, many_active, HostCredential, check_token, expired, check_credential, timestamp, usable_at,
  key_id_for,
}
use aiggp_agentic_framework.Fleet.Channel.Envelopes.{ChannelEnvelope, signed_bytes}
use aiggp_agentic_framework.Fleet.Channel.Manager.{
  AgentChannel, key_of, as_revoked, new_channel, issue_token, enroll, revoke, credential, judge,
  accept, active_credential,
}
use aiggp_agentic_framework.Fleet.Channel.Runs.{Call, issues, enrolls, rotates, step, run}
use aiggp_agentic_framework.Fleet.Channel.Ledger.{one_host_per_key}
use aiggp_agentic_framework.Fleet.Channel.Revocation.{revoked_for_good}
use aiggp_agentic_framework.Fleet.Channel.Once.{redeem_once, replay_refused}

abbrev clock : List (ℕ × String)
clock =
    (1, "t1")
    ∷ (2, "t2")
    ∷ (3, "t3")
    ∷ (8, "t8")
    ∷ (9, "t9")
    ∷ (11, "t11")
    ∷ (102, "t102")
    ∷ (103, "t103")
    ∷ []

abbrev print : ℕ → List (ℕ × String) → String
print n [] = ""
print n ((m, s) ∷ rest) = if nat_eq n m then s else print n rest

abbrev parse : String → List (ℕ × String) → Option ℕ
parse s [] = none
parse s ((m, t) ∷ rest) = if t == s then some m else parse s rest

-- digests and hexadecimal forms are constant, and every body is the empty object
abbrev signature_a : String
signature_a = "ssssssssssssssssssssssssssssssssssssssssssssssssssssssssssssssss"

abbrev platform : Platform
platform = record {
  instant = λ s. parse s clock;
  stamp = λ n. print n clock;
  digest16 = λ key. if key == "bbbbbbbbbbbbbbbbbbbbbbbbbbbbbbbb" then "b1" else "a1";
  hex = λ s. "a5";
  unhex = λ s. some signature_a;
  loads = λ s. some (object no_member);
  dumps = λ v. some "{}";
  size = λ s. 2;
}

abbrev key_a : String
key_a = "aaaaaaaaaaaaaaaaaaaaaaaaaaaaaaaa"

abbrev key_b : String
key_b = "bbbbbbbbbbbbbbbbbbbbbbbbbbbbbbbb"

abbrev trusting : Verifier
trusting key line signature = some true

abbrev fresh_channel : AgentChannel
fresh_channel = record {
  rotation_overlap = 5;
  credential_lifetime = 100;
  tokens = [];
  consumed = [];
  credentials = [];
  holders = [];
  last_sequences = [];
  nonces = [];
}

abbrev pools : List String
pools = "linux" ∷ []

abbrev joins : List Call
joins = issues "h1" pools 1 10 (some "k1") "" ∷ enrolls "k1" key_a 2 ∷ []

abbrev issued_channel : AgentChannel
issued_channel = record fresh_channel {
  tokens =
      (
        "k1",
        record {
          host_id = "h1";
          pools = pools;
          issued_at = "t1";
          expires_at = "t11";
          token_id = "k1";
        },
      )
      ∷ [];
}

abbrev joined : HostCredential
joined = record {
  host_id = "h1";
  key_id = "key-a1";
  public_key = key_a;
  issued_at = "t2";
  not_after = "t102";
  generation = 1;
  status = active;
  retires_at = none;
}

abbrev joined_channel : AgentChannel
joined_channel = record fresh_channel {
  consumed = "k1" ∷ [];
  credentials = (key_of "h1" "key-a1", joined) ∷ [];
  holders = (key_a, "h1") ∷ [];
}

issues_to : step platform (issues "h1" pools 1 10 (some "k1") "") fresh_channel ≡ issued_channel
unfolding step issue_token check_token timestamp each ◌>>=◌ insert string_dec is_identifier
    aiggp_agentic_framework.Base.Text.sort
issues_to = refl

enrolled_joined : enroll platform "k1" key_a 2 issued_channel ≡ ok (joined, joined_channel)
unfolding enroll check_credential expired timestamp ◌>>=◌ lookup insert erase store string_dec
    key_id_for is_identifier
enrolled_joined = refl

enrolls_to : step platform (enrolls "k1" key_a 2) issued_channel ≡ joined_channel
unfolding step
enrolls_to = rw enrolled_joined refl

joins_to : run platform joins fresh_channel ≡ joined_channel
unfolding run
joins_to = rw (issues_to, enrolls_to) refl

opened : new_channel 5 100 ≡ ok fresh_channel
unfolding new_channel ◌>>=◌
opened = refl

abbrev again : List Call
again = issues "h2" pools 3 5 (some "k1") "" ∷ []

redeem_once_example :
    is_ok (enroll platform "k1" key_b 3 (run platform again joined_channel)) ≡ false
redeem_once_example =
    redeem_once platform "k1" key_a 2 issued_channel joined_channel joined enrolled_joined again
      key_b 3

stands : find (key_of "h1" "key-a1") (run platform joins fresh_channel).credentials ≡ some joined
unfolding find string_dec
stands = rw joins_to refl

abbrev at_h1 : Pair
at_h1 = key_of "h1" "key-a1"

one_host_per_key_example : (at_h1.first ≡ "h1") × (at_h1.second ≡ "key-a1")
one_host_per_key_example =
    one_host_per_key platform 5 100 fresh_channel opened joins at_h1 (key_of "h1" "key-a1") joined
      joined stands stands refl

abbrev report : ChannelEnvelope
report = record {
  host_id = "h1";
  key_id = "key-a1";
  sequence_number = 1;
  nonce = "nonce-01";
  issued_at = "t3";
  expires_at = "t9";
  body_text = "{}";
  signature = signature_a;
}

abbrev refused_key : HostCredential
refused_key = as_revoked platform joined

abbrev revoked_channel : AgentChannel
revoked_channel = record joined_channel { credentials = (key_of "h1" "key-a1", refused_key) ∷ [] }

revokes_joined : revoke platform "h1" "key-a1" 3 joined_channel ≡ ok (refused_key, revoked_channel)
unfolding revoke credential find store check_credential timestamp ◌>>=◌ string_dec is_identifier
    key_id_for
revokes_joined = refl

revoked_for_good_example : is_ok (accept platform trusting report 8 revoked_channel).1 ≡ false
unfolding find string_dec run
revoked_for_good_example =
    revoked_for_good platform 5 100 fresh_channel opened joins "h1" "key-a1" 3 refused_key
      revoked_channel (rw joins_to revokes_joined) [] trusting report 8 refused_key refl refl

accepts_report : is_ok (accept platform trusting report 3 joined_channel).1 ≡ true
unfolding accept judge credential find usable_at timestamp signed_bytes lookup ◌>>=◌ string_dec
    is_identifier
accepts_report = refl

replay_refused_example :
    is_ok
      (accept platform trusting report 8 (
        run platform
          (rotates "h1" "key-a1" key_b 3 ∷ [])
          (accept platform trusting report 3 joined_channel).0)).1
    ≡ false
replay_refused_example =
    replay_refused platform trusting report 3 joined_channel accepts_report
      (rotates "h1" "key-a1" key_b 3 ∷ []) trusting report 8 refl (omega arith)

-- two tokens that are issued before either is redeemed give a host two active keys
abbrev twice : List Call
twice =
    issues "h1" pools 1 10 (some "k1") ""
    ∷ issues "h1" pools 1 10 (some "k2") ""
    ∷ enrolls "k1" key_a 2
    ∷ enrolls "k2" key_b 3
    ∷ []

two_active :
    active_credential platform "h1" (run platform twice fresh_channel) ≡ err (many_active 2)
unfolding active_credential run step issue_token enroll ◌>>=◌ is_identifier string_dec check_token
    aiggp_agentic_framework.Base.Text.sort each timestamp lookup insert expired check_credential
    key_id_for erase store
two_active = refl
