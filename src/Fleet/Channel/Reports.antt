-- ===== src/Fleet/Channel/Reports.antt =====
-- channel.py: which reports `accept` takes, and what a refusal leaves.
use aiggp_agentic_framework.Base.{
  ℕ, ◌+◌, ◌<◌, ◌≤◌, String, true, Option, none, some, ok, err, Result-cases, ◌≡◌, refl, inl, inr,
  ◌⊎◌, arith,
}
use aiggp_agentic_framework.Base.Dict.{Dict, lookup}
use aiggp_agentic_framework.Base.Pairs.{PairDict, find}
use aiggp_agentic_framework.Fleet.Values.{is_identifier}
use aiggp_agentic_framework.Fleet.Wire.{Platform, Verifier}
use aiggp_agentic_framework.Fleet.Channel.Credentials.{
  ChannelError, nonce_used, timestamp, HostCredential, usable_at, max_clock_skew,
}
use aiggp_agentic_framework.Fleet.Channel.Envelopes.{ChannelEnvelope, signed_bytes}
use aiggp_agentic_framework.Fleet.Channel.Manager.{
  AgentChannel, identity, judge, accept, live_nonces, admit_nonce,
}
use aiggp_agentic_framework.Fleet.Channel.Moves.{IsNew}

-- What the manager has checked of a report that it accepts.
pub record IsGenuine (p : Platform) (verifier : Verifier) (e : ChannelEnvelope) (at : ℕ)
    (s : AgentChannel) : Type 0 where
  pub names_host : is_identifier e.host_id ≡ true
  pub names_key : is_identifier e.key_id ≡ true
  pub sender : HostCredential
  pub enrolled : find (identity p e) s.credentials ≡ some sender
  pub usable : usable_at p sender at ≡ ok true
  pub line : String
  pub covered : signed_bytes p e ≡ some line
  pub verified : verifier sender.public_key line e.signature ≡ some true
  pub issued : ℕ
  pub is_issued : timestamp p e.issued_at "envelope.issued_at" ≡ ok issued
  pub not_early : issued ≤ at + max_clock_skew
  pub expires : ℕ
  pub is_expires : timestamp p e.expires_at "envelope.expires_at" ≡ ok expires
  pub not_late : at < expires
  pub newer : IsNew (find (identity p e) s.last_sequences) e.sequence_number

module _ (p : Platform) (verifier : Verifier) (e : ChannelEnvelope) (at : ℕ)
    (s : AgentChannel) where
  -- A report that is refused leaves the whole state as it was, unless its nonce is the reason: it
  -- then leaves all but the nonces. So a forged report uses up no sequence number.
  pub accept-refused :
      (x : ChannelError)
      → (accept p verifier e at s).1 ≡ err x
      → ((accept p verifier e at s).0 ≡ s)
        ⊎ ((x ≡ nonce_used)
            × ((d : PairDict (Dict ℕ)) × ((accept p verifier e at s).0 ≡ record s { nonces = d })))
  unfolding accept
  accept-refused x h = elim (Result-cases (judge p verifier e at s)) [
    | inl (expires, q) ↦ rw q (cases expires _ _ (rw q at h))
    | inr (y, q) ↦ inl (rw q refl)
  ]
    where
      cases :
          (expires : ℕ) (seen : Dict ℕ) (o : Option ℕ)
          → (admit_nonce p e expires seen o s).1 ≡ err x
          → ((admit_nonce p e expires seen o s).0 ≡ s)
            ⊎ ((x ≡ nonce_used)
                × ((d : PairDict (Dict ℕ)) × ((admit_nonce p e expires seen o s).0
                      ≡ record s { nonces = d })))
      cases expires seen none k = absurd (cc)
      cases expires seen (some used) k = inr (ground arith, (_, refl))

  -- No report with this nonce was accepted under this host and key that has not expired by now.
  abbrev pub NonceUnused : Type 0
  NonceUnused = lookup e.nonce (live_nonces p at (find (identity p e) s.nonces)) ≡ none
