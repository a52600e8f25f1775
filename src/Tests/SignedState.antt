-- ===== src/Tests/SignedState.antt =====
-- A desired state that is written, read back, signed for a host and accepted by it.
use Prim.Native.String.{◌++◌ as ◌<>◌}
use aiggp_agentic_framework.Base.{
  ℕ, ◌+◌, ◌≤◌, String, ◌≡◌, refl, Bool, true, false, Option, none, some, List, [], ◌∷◌, Result, ok,
  err, ◌>>=◌, is_ok, each, string_dec, arith, ◌==◌, if◌then◌else◌, nat_eq,
}
use aiggp_agentic_framework.Base.Dict.{lookup, insert}
use aiggp_agentic_framework.Fleet.Values.{is_identifier}
use aiggp_agentic_framework.Fleet.Desired.{check_state}
use aiggp_agentic_framework.Fleet.Wire.{
  Json, object, no_member, member, string, natural, Platform, Verifier, member_of, member_names,
}
use aiggp_agentic_framework.Fleet.Channel.Credentials.{timestamp}
use aiggp_agentic_framework.Fleet.Channel.Envelopes.{is_hex, is_object}
use aiggp_agentic_framework.Fleet.Documents.Fields.{
  is_secret, read_items, clean, shape, open_document,
}
use aiggp_agentic_framework.Fleet.Documents.Write.{to_document}
use aiggp_agentic_framework.Fleet.Documents.Read.{from_document}
use aiggp_agentic_framework.Fleet.Documents.RoundTrip.{IsBuilt, from-to_document}
use aiggp_agentic_framework.Fleet.SignedState.States.{
  SignedState, check_signed_state, body_json, document_body, signed_bytes,
}
use aiggp_agentic_framework.Fleet.SignedState.Issue.{
  Signer, issue, accepted_state, accept_state, with_signature, unsigned,
}
use aiggp_agentic_framework.Fleet.SignedState.Accept.{
  Request, serve, serve_all, accept-issue, rollback_refused,
}
use aiggp_agentic_framework.Tests.Fleet.{world, pool_is_valid, host_is_valid, world_is_valid}

any_instant : String → Option ℕ
any_instant s = some 7

world-IsBuilt : IsBuilt any_instant world
unfolding is_secret aiggp_agentic_framework.Base.Sort.sort_by
    aiggp_agentic_framework.Base.Sort.place_by string_dec
world-IsBuilt = record {
  whole = world_is_valid;
  each_repository = tt;
  each_pool =
      ((pool_is_valid, record { in_order = refl; names_once = refl; no_secret = refl }), tt);
  each_host =
      ((host_is_valid, record { in_order = refl; names_once = refl; no_secret = refl }), tt);
  each_assignment = tt;
  each_drain = tt;
  each_rollout = tt;
}

from-to_document_example : from_document any_instant (to_document world) ≡ ok world
from-to_document_example = from-to_document any_instant world world-IsBuilt

-- an empty desired state at revision 3
abbrev body : Json
body = object (
    member "schema" (string "fleet-manager-desired-state/1")
      (member "revision" (natural 3) no_member))

abbrev printed : ℕ → String
printed n =
    if nat_eq n 5 then "t5" else if nat_eq n 9 then "t9" else if nat_eq n 15 then "t15" else ""

abbrev parsed : String → Option ℕ
parsed s =
    if s == "t5" then some 5 else if s == "t9" then some 9 else if s == "t15" then some 15 else none

abbrev signature_a : String
signature_a =
    "aaaaaaaaaaaaaaaaaaaaaaaaaaaaaaaaaaaaaaaaaaaaaaaaaaaaaaaaaaaaaaaa"
    <> "aaaaaaaaaaaaaaaaaaaaaaaaaaaaaaaaaaaaaaaaaaaaaaaaaaaaaaaaaaaaaaaa"

-- `bytes` values stand as their hexadecimal texts
abbrev platform : Platform
platform = record {
  instant = parsed;
  stamp = printed;
  digest16 = λ key. "a1";
  hex = λ s. s;
  unhex = λ s. some s;
  loads = λ s. some body;
  dumps = λ v. some "{}";
  size = λ s. 2;
}

abbrev signer : Signer
signer line = some signature_a

abbrev trusting : Verifier
trusting key line signature = some true

abbrev first : SignedState
first = with_signature platform signature_a (unsigned platform "h1" 3 1 5 10 "{}")

abbrev second : SignedState
second = with_signature platform signature_a (unsigned platform "h1" 3 2 5 10 "{}")

-- what an issue computes through
issues : Unit {0}
unfolding issue serve ◌>>=◌ is_identifier body_json is_object from_document open_document clean
    is_secret string_dec shape each member_of member_names read_items check_state check_signed_state
    lookup insert timestamp is_hex document_body signed_bytes
issues = tt

issued_first : issue platform signer body "h1" 5 10 none [] ≡ ok (first, ("h1", 1) ∷ [])
unfolding issues
issued_first = refl

accept-issue_example :
    accept_state platform trusting "key" "h1" none 9 first ≡ ok (accepted_state first)
unfolding lookup string_dec
accept-issue_example =
    accept-issue platform signer trusting "key" (λ line signature h. refl) (λ signature. refl) body
      "h1" 5 10 none [] (("h1", 1) ∷ []) first 9 issued_first (refl, refl) (refl, refl)
      (omega arith) (omega arith)

abbrev request : Request
request = record {
  signer = signer;
  body = body;
  audience = "h1";
  issued_at = 5;
  ttl = 10;
  revision = none;
}

abbrev elsewhere : Request
elsewhere = record request { audience = "h2" }

served_first : serve platform request [] ≡ ok (first, ("h1", 1) ∷ [])
unfolding serve
served_first = issued_first

served_between : serve_all platform (elsewhere ∷ []) (("h1", 1) ∷ []) ≡ ("h1", 1) ∷ ("h2", 1) ∷ []
unfolding serve_all issues
served_between = refl

served_second :
    serve platform request (serve_all platform (elsewhere ∷ []) (("h1", 1) ∷ []))
    ≡ ok (second, ("h1", 2) ∷ ("h2", 1) ∷ [])
unfolding issues
served_second = rw served_between refl

rollback_refused_example :
    is_ok (accept_state platform trusting "key" "h1" (some 2) 9 first) ≡ false
rollback_refused_example =
    rollback_refused platform "h1" request [] (("h1", 1) ∷ []) first served_first refl
      (elsewhere ∷ []) request (("h1", 2) ∷ ("h2", 1) ∷ []) second served_second refl trusting "key"
      9
