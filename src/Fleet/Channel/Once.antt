-- ===== src/Fleet/Channel/Once.antt =====
-- channel.py: what is taken once: an enrolment token, and a sequence number.
use aiggp_agentic_framework.Base.{
  ℕ, ◌≤◌, String, true, false, Option, none, some, List, [], ◌∷◌, ok, is_ok, Bool-cases,
  Result-cases, >>=-eq-ok, ok-pair, refuse_if-ok, contains, ◌≡◌, refl, ap, inl, inr, arith,
}
use aiggp_agentic_framework.Base.Dict.{Dict}
use aiggp_agentic_framework.Base.Pairs.{
  Pair, PairDict, same_pair, same_pair_refl, same_pair_eq, find, store, find-store,
}
use aiggp_agentic_framework.Fleet.Wire.{Platform, Verifier}
use aiggp_agentic_framework.Fleet.Channel.Credentials.{HostCredential}
use aiggp_agentic_framework.Fleet.Channel.Envelopes.{ChannelEnvelope}
use aiggp_agentic_framework.Fleet.Channel.Manager.{
  AgentChannel, identity, admit_nonce, enroll, judge, accept,
}
use aiggp_agentic_framework.Fleet.Channel.Runs.{Call, run}
use aiggp_agentic_framework.Fleet.Channel.Moves.{
  Move, stays, token_issued, host_enrolled, key_rotated, key_revoked, report_accepted,
  nonces_pruned, step-Move, IsNew, judge-IsNew,
}

module _ (p : Platform) where
  Move-consumed :
      (id : String) (s t : AgentChannel)
      → Move p s t
      → contains s.consumed id ≡ true
      → contains t.consumed id ≡ true
  Move-consumed id s t (stays e) h = rw e h
  Move-consumed id s t (token_issued token free e) h = rw e h
  Move-consumed id s t (host_enrolled other key token at unused fresh e) h = rw e (ground arith)
  Move-consumed id s t (key_rotated at current key time until here live fresh e) h = rw e h
  Move-consumed id s t (key_revoked at current here e) h = rw e h
  Move-consumed id s t (report_accepted r nonces new e) h = rw e h
  Move-consumed id s t (nonces_pruned r nonces e) h = rw e h

  run-consumed :
      (id : String) (cs : List Call) (s : AgentChannel)
      → contains s.consumed id ≡ true
      → contains (run p cs s).consumed id ≡ true
  unfolding run
  run-consumed id [] s h = h
  run-consumed id (c ∷ cs) s h = run-consumed id cs _ (Move-consumed id s _ (step-Move p c s) h)

  enroll-consumes :
      (id key : String) (at : ℕ) (s t : AgentChannel) (c : HostCredential)
      → enroll p id key at s ≡ ok (c, t)
      → contains t.consumed id ≡ true
  unfolding enroll
  enroll-consumes id key at s t c h =
      let (x1, p1, h1) = >>=-eq-ok _ _ h in
      let (x2, p2, h2) = >>=-eq-ok _ _ h1 in
      let (x3, p3, h3) = >>=-eq-ok _ _ h2 in
      let (token, p4, h4) = >>=-eq-ok _ _ h3 in
      let (x5, p5, h5) = >>=-eq-ok _ _ h4 in
      let (x6, p6, h6) = >>=-eq-ok _ _ h5 in
      let (x7, p7, h7) = >>=-eq-ok _ _ h6 in
      let (x8, p8, h8) = >>=-eq-ok _ _ h7 in
      let (x9, p9, h9) = >>=-eq-ok _ _ h8 in
      let (x10, p10, h10) = >>=-eq-ok _ _ h9 in rw (← (ok-pair _ _ _ _ h10).1) (ground arith)

  enroll-refused :
      (id key : String) (at : ℕ) (s : AgentChannel)
      → contains s.consumed id ≡ true
      → is_ok (enroll p id key at s) ≡ false
  unfolding enroll
  enroll-refused id key at s h = elim (Result-cases (enroll p id key at s)) [
    | inr (x, q) ↦ ap is_ok q
    | inl ((c, t), q) ↦
        let (x1, p1, h1) = >>=-eq-ok _ _ q in
        let (x2, p2, h2) = >>=-eq-ok _ _ h1 in
        let (x3, p3, h3) = >>=-eq-ok _ _ h2 in let n = refuse_if-ok _ _ p3 in absurd (ground arith)
  ]

  -- An enrolment token that has been redeemed is refused for good: after any further calls, also
  -- one that issues a token with the same id, it enrols no key.
  pub redeem_once :
      (id key : String) (at : ℕ) (s t : AgentChannel) (c : HostCredential)
      → enroll p id key at s ≡ ok (c, t)
      → (cs : List Call) (key' : String) (at' : ℕ)
      → is_ok (enroll p id key' at' (run p cs t)) ≡ false
  redeem_once id key at s t c h cs key' at' =
      enroll-refused id key' at' (run p cs t)
        (run-consumed id cs t (enroll-consumes id key at s t c h))

  -- The last accepted sequence of an identity is at least `n`.
  abbrev AtLeast : ℕ → Option ℕ → Type 0
  AtLeast n none = ⊥
  AtLeast n (some last) = n ≤ last

  AtLeast-IsNew : (n m : ℕ) (o : Option ℕ) → AtLeast n o → IsNew o m → n ≤ m
  AtLeast-IsNew n m none h new = absurd h
  AtLeast-IsNew n m (some last) h new = omega arith

  find-raised :
      (n : ℕ) (at at' : Pair) (m : ℕ) (d : PairDict ℕ)
      → IsNew (find at' d) m
      → AtLeast n (find at d)
      → AtLeast n (find at (store at' m d))
  find-raised n at at' m d new h = elim (Bool-cases (same_pair at' at)) [
    | inl same ↦
        rw (find-store at at' m d, same)
          (AtLeast-IsNew n m (find at d) h (rw (← same_pair_eq at' at same) new))
    | inr other ↦ rw (find-store at at' m d, other) h
  ]

  Move-sequence :
      (n : ℕ) (at : Pair) (s t : AgentChannel)
      → Move p s t
      → AtLeast n (find at s.last_sequences)
      → AtLeast n (find at t.last_sequences)
  Move-sequence n at s t (stays e) h = rw e h
  Move-sequence n at s t (token_issued token free e) h = rw e h
  Move-sequence n at s t (host_enrolled other key token time unused fresh e) h = rw e h
  Move-sequence n at s t (key_rotated place current key time until here live fresh e) h = rw e h
  Move-sequence n at s t (key_revoked place current here e) h = rw e h
  Move-sequence n at s t (report_accepted r nonces new e) h =
      rw e (find-raised n at (identity p r) r.sequence_number s.last_sequences new h)
  Move-sequence n at s t (nonces_pruned r nonces e) h = rw e h

  run-sequence :
      (n : ℕ) (at : Pair) (cs : List Call) (s : AgentChannel)
      → AtLeast n (find at s.last_sequences)
      → AtLeast n (find at (run p cs s).last_sequences)
  unfolding run
  run-sequence n at [] s h = h
  run-sequence n at (c ∷ cs) s h =
      run-sequence n at cs _ (Move-sequence n at s _ (step-Move p c s) h)

  admit_nonce-sequence :
      (e : ChannelEnvelope) (expires : ℕ) (seen : Dict ℕ) (o : Option ℕ) (s : AgentChannel)
      → is_ok (admit_nonce p e expires seen o s).1 ≡ true
      → AtLeast e.sequence_number
          (find (identity p e) (admit_nonce p e expires seen o s).0.last_sequences)
  admit_nonce-sequence e expires seen none s h =
      rw
        (
          find-store (identity p e) (identity p e) e.sequence_number s.last_sequences,
          same_pair_refl (identity p e),
        )
        (omega arith)
  admit_nonce-sequence e expires seen (some used) s h = absurd (cc)

  accept-sequence :
      (verifier : Verifier) (e : ChannelEnvelope) (at : ℕ) (s : AgentChannel)
      → is_ok (accept p verifier e at s).1 ≡ true
      → AtLeast e.sequence_number (find (identity p e) (accept p verifier e at s).0.last_sequences)
  unfolding accept
  accept-sequence verifier e at s h = elim (Result-cases (judge p verifier e at s)) [
    | inl (expires, q) ↦ rw q (admit_nonce-sequence e expires _ _ s (rw q at h))
    | inr (x, q) ↦ absurd (ground arith)
  ]

  stale_refused :
      (verifier : Verifier) (e : ChannelEnvelope) (at n : ℕ) (s : AgentChannel)
      → AtLeast n (find (identity p e) s.last_sequences)
      → e.sequence_number ≤ n
      → is_ok (accept p verifier e at s).1 ≡ false
  unfolding accept
  stale_refused verifier e at n s h old = elim (Result-cases (judge p verifier e at s)) [
    | inl (expires, q) ↦
        let new = judge-IsNew p verifier e at s q in
        absurd (not_both n e.sequence_number _ h new old)
    | inr (x, q) ↦ rw q refl
  ]
    where
      not_both : (n m : ℕ) (o : Option ℕ) → AtLeast n o → IsNew o m → m ≤ n → ⊥
      not_both n m none h new old = h
      not_both n m (some last) h new old = omega arith

  -- After a report has been accepted and any calls have followed, a report of the same host and key
  -- with the same or a smaller sequence number is refused: no report is delivered twice or late.
  pub replay_refused :
      (verifier : Verifier) (e : ChannelEnvelope) (at : ℕ) (s : AgentChannel)
      → is_ok (accept p verifier e at s).1 ≡ true
      → (cs : List Call) (verifier' : Verifier) (e' : ChannelEnvelope) (at' : ℕ)
      → identity p e' ≡ identity p e
      → e'.sequence_number ≤ e.sequence_number
      → is_ok (accept p verifier' e' at' (run p cs (accept p verifier e at s).0)).1 ≡ false
  replay_refused verifier e at s h cs verifier' e' at' same old =
      stale_refused verifier' e' at' e.sequence_number _
        (rw same
          (run-sequence e.sequence_number (identity p e) cs _ (accept-sequence verifier e at s h)))
        old
