-- ===== src/Fleet/Channel/Runs.antt =====
-- channel.py: runs of calls of `AgentChannel`. A call that raises leaves the state of the caller.
use aiggp_agentic_framework.Base.{ℕ, String, Option, List, [], ◌∷◌, Result, ok, err}
use aiggp_agentic_framework.Fleet.Wire.{Platform, Verifier}
use aiggp_agentic_framework.Fleet.Channel.Credentials.{ChannelError}
use aiggp_agentic_framework.Fleet.Channel.Envelopes.{ChannelEnvelope}
use aiggp_agentic_framework.Fleet.Channel.Manager.{
  AgentChannel, issue_token, enroll, rotate, revoke, accept,
}

pub data Call : Type 0 where
  issues :
      (host_id : String) (pools : List String) (at ttl : ℕ) (token_id : Option String)
      (fresh : String)
      → Call
  enrolls : (token_id key : String) (at : ℕ) → Call
  rotates : (host_id key_id key : String) (at : ℕ) → Call
  revokes : (host_id key_id : String) (at : ℕ) → Call
  accepts : (verifier : Verifier) (e : ChannelEnvelope) (at : ℕ) → Call

abbrev pub after :
    {A : Type 0} → AgentChannel → Result ChannelError (A × AgentChannel) → AgentChannel
after s (ok (a, t)) = t
after s (err x) = s

unfoldable pub step : Platform → Call → AgentChannel → AgentChannel
step p (issues host_id pools at ttl token_id fresh) s =
    after s (issue_token p host_id pools at ttl token_id fresh s)
step p (enrolls token_id key at) s = after s (enroll p token_id key at s)
step p (rotates host_id key_id key at) s = after s (rotate p host_id key_id key at s)
step p (revokes host_id key_id at) s = after s (revoke p host_id key_id at s)
step p (accepts verifier e at) s = (accept p verifier e at s).0

unfoldable pub run : Platform → List Call → AgentChannel → AgentChannel
run p [] s = s
run p (c ∷ cs) s = run p cs (step p c s)
