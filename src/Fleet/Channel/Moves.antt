-- ===== src/Fleet/Channel/Moves.antt =====
-- channel.py: what each operation of `AgentChannel` may write, as a relation between two states.
use aiggp_agentic_framework.Base.{
  ℕ, ◌+◌, ◌<◌, String, true, false, Option, none, some, List, ◌∷◌, ok, >>=-eq-ok, require-ok,
  refuse_if-ok, require_some-ok, ok-pair, Result-cases, ◌≡◌, refl, sym, inl, inr, contains, arith,
}
use aiggp_agentic_framework.Base.Dict.{Dict, lookup, insert, erase}
use aiggp_agentic_framework.Base.Pairs.{Pair, find, store}
use aiggp_agentic_framework.Fleet.Wire.{Platform, Verifier}
use aiggp_agentic_framework.Fleet.Channel.Credentials.{is_active, EnrollmentToken, HostCredential}
use aiggp_agentic_framework.Fleet.Channel.Envelopes.{ChannelEnvelope}
use aiggp_agentic_framework.Fleet.Channel.Manager.{
  AgentChannel, place_of, enrolled, unheld, new_credential, retired, as_revoked, sequence_is_new,
  identity, admit_nonce, issue_token, enroll, credential, rotate, revoke, judge, accept,
}
use aiggp_agentic_framework.Fleet.Channel.Runs.{
  Call, issues, enrolls, rotates, revokes, accepts, step,
}

abbrev pub IsNew : Option ℕ → ℕ → Type 0
IsNew none n = Unit
IsNew (some last) n = last < n

pub data Move (p : Platform) (s t : AgentChannel) : Type 0 where
  stays : t ≡ s → Move p s t
  token_issued :
      (token : EnrollmentToken)
      → enrolled token.host_id s.credentials ≡ false
      → t ≡ record s { tokens = insert token.token_id token s.tokens }
      → Move p s t
  host_enrolled :
      (token_id key : String) (token : EnrollmentToken) (at : ℕ)
      → contains s.consumed token_id ≡ false
      → lookup key s.holders ≡ none
      → t ≡ record s {
        tokens = erase token_id s.tokens;
        consumed = token_id ∷ s.consumed;
        credentials =
            (let c = new_credential p token.host_id key at s.credential_lifetime 1 in
              store (place_of c) c s.credentials);
        holders = insert key token.host_id s.holders;
      }
      → Move p s t
  key_rotated :
      (at : Pair) (current : HostCredential) (key : String) (time until : ℕ)
      → find at s.credentials ≡ some current
      → is_active current.status ≡ true
      → lookup key s.holders ≡ none
      → t ≡ record s {
        credentials =
            (let c =
                new_credential p current.host_id key time s.credential_lifetime
                  (current.generation + 1) in
              store
                (place_of c)
                c
                (store (place_of current) (retired p current until) s.credentials));
        holders = insert key current.host_id s.holders;
      }
      → Move p s t
  key_revoked :
      (at : Pair) (current : HostCredential)
      → find at s.credentials ≡ some current
      → t ≡ record s { credentials = store (place_of current) (as_revoked p current) s.credentials }
      → Move p s t
  report_accepted :
      (e : ChannelEnvelope) (nonces : Dict ℕ)
      → IsNew (find (identity p e) s.last_sequences) e.sequence_number
      → t ≡ record s {
        last_sequences = store (identity p e) e.sequence_number s.last_sequences;
        nonces = store (identity p e) nonces s.nonces;
      }
      → Move p s t
  nonces_pruned :
      (e : ChannelEnvelope) (nonces : Dict ℕ)
      → t ≡ record s { nonces = store (identity p e) nonces s.nonces }
      → Move p s t

pub unheld-ok : (o : Option String) {u : Unit {0}} → unheld o ≡ ok u → o ≡ none
unheld-ok none h = refl
unheld-ok (some holder) h = absurd (cc)

pub sequence_is_new-ok :
    (p : Platform) (o : Option ℕ) (n : ℕ) {u : Unit {0}} → sequence_is_new p o n ≡ ok u → IsNew o n
sequence_is_new-ok p none n h = tt
sequence_is_new-ok p (some last) n h = ground arith

module _ (p : Platform) where
  pub credential-find :
      (host_id key_id place : String) (s : AgentChannel) {c : HostCredential}
      → credential p host_id key_id place s ≡ ok c
      → find (record { first = host_id; second = key_id }) s.credentials ≡ some c
  unfolding credential
  credential-find host_id key_id place s h =
      let (x1, p1, h1) = >>=-eq-ok _ _ h in
      let (x2, p2, h2) = >>=-eq-ok _ _ h1 in require_some-ok _ _ h2

  issue_token-Move :
      (host_id : String) (pools : List String) (at ttl : ℕ) (token_id : Option String)
      (fresh : String) (s t : AgentChannel) {token : EnrollmentToken}
      → issue_token p host_id pools at ttl token_id fresh s ≡ ok (token, t)
      → Move p s t
  unfolding issue_token
  issue_token-Move host_id pools at ttl token_id fresh s t h =
      let (x1, p1, h1) = >>=-eq-ok _ _ h in
      let (x2, p2, h2) = >>=-eq-ok _ _ h1 in
      let (x3, p3, h3) = >>=-eq-ok _ _ h2 in
      let (x4, p4, h4) = >>=-eq-ok _ _ h3 in
      let (x5, p5, h5) = >>=-eq-ok _ _ h4 in
      let (x6, p6, h6) = >>=-eq-ok _ _ h5 in
      token_issued _ (refuse_if-ok _ _ p5) (sym ((ok-pair _ _ _ _ h6).1))

  enroll-Move :
      (token_id key : String) (at : ℕ) (s t : AgentChannel) {c : HostCredential}
      → enroll p token_id key at s ≡ ok (c, t)
      → Move p s t
  unfolding enroll
  enroll-Move token_id key at s t h =
      let (x1, p1, h1) = >>=-eq-ok _ _ h in
      let (x2, p2, h2) = >>=-eq-ok _ _ h1 in
      let (x3, p3, h3) = >>=-eq-ok _ _ h2 in
      let (token, p4, h4) = >>=-eq-ok _ _ h3 in
      let (x5, p5, h5) = >>=-eq-ok _ _ h4 in
      let (x6, p6, h6) = >>=-eq-ok _ _ h5 in
      let (x7, p7, h7) = >>=-eq-ok _ _ h6 in
      let (x8, p8, h8) = >>=-eq-ok _ _ h7 in
      let (x9, p9, h9) = >>=-eq-ok _ _ h8 in
      let (x10, p10, h10) = >>=-eq-ok _ _ h9 in
      host_enrolled token_id key token at (refuse_if-ok _ _ p3) (unheld-ok _ p9)
        (sym ((ok-pair _ _ _ _ h10).1))

  rotate-Move :
      (host_id key_id key : String) (at : ℕ) (s t : AgentChannel)
      {c : HostCredential × HostCredential}
      → rotate p host_id key_id key at s ≡ ok (c, t)
      → Move p s t
  unfolding rotate
  rotate-Move host_id key_id key at s t h =
      let (x1, p1, h1) = >>=-eq-ok _ _ h in
      let (current, p2, h2) = >>=-eq-ok _ _ h1 in
      let (x3, p3, h3) = >>=-eq-ok _ _ h2 in
      let (x4, p4, h4) = >>=-eq-ok _ _ h3 in
      let (x5, p5, h5) = >>=-eq-ok _ _ h4 in
      let (x6, p6, h6) = >>=-eq-ok _ _ h5 in
      let (x7, p7, h7) = >>=-eq-ok _ _ h6 in
      let (x8, p8, h8) = >>=-eq-ok _ _ h7 in
      let (x9, p9, h9) = >>=-eq-ok _ _ h8 in
      let (x10, p10, h10) = >>=-eq-ok _ _ h9 in
      key_rotated _ current key at _ (credential-find host_id key_id _ s p2) (require-ok _ _ p4)
        (unheld-ok _ p8) (sym ((ok-pair _ _ _ _ h10).1))

  revoke-Move :
      (host_id key_id : String) (at : ℕ) (s t : AgentChannel) {c : HostCredential}
      → revoke p host_id key_id at s ≡ ok (c, t)
      → Move p s t
  unfolding revoke
  revoke-Move host_id key_id at s t h =
      let (current, p1, h1) = >>=-eq-ok _ _ h in
      let (x2, p2, h2) = >>=-eq-ok _ _ h1 in
      let (x3, p3, h3) = >>=-eq-ok _ _ h2 in
      let (x4, p4, h4) = >>=-eq-ok _ _ h3 in
      let (x5, p5, h5) = >>=-eq-ok _ _ h4 in
      key_revoked _ current (credential-find host_id key_id _ s p1) (sym ((ok-pair _ _ _ _ h5).1))

  pub judge-IsNew :
      (verifier : Verifier) (e : ChannelEnvelope) (at : ℕ) (s : AgentChannel) {n : ℕ}
      → judge p verifier e at s ≡ ok n
      → IsNew (find (identity p e) s.last_sequences) e.sequence_number
  unfolding judge
  judge-IsNew verifier e at s h =
      let (c, p1, h1) = >>=-eq-ok _ _ h in
      let (x2, p2, h2) = >>=-eq-ok _ _ h1 in
      let (x3, p3, h3) = >>=-eq-ok _ _ h2 in
      let (x4, p4, h4) = >>=-eq-ok _ _ h3 in
      let (x5, p5, h5) = >>=-eq-ok _ _ h4 in
      let (x6, p6, h6) = >>=-eq-ok _ _ h5 in
      let (x7, p7, h7) = >>=-eq-ok _ _ h6 in
      let (x8, p8, h8) = >>=-eq-ok _ _ h7 in
      let (x9, p9, h9) = >>=-eq-ok _ _ h8 in sequence_is_new-ok p _ _ p9

  admit_nonce-Move :
      (e : ChannelEnvelope) (expires : ℕ) (seen : Dict ℕ) (o : Option ℕ) (s : AgentChannel)
      → IsNew (find (identity p e) s.last_sequences) e.sequence_number
      → Move p s (admit_nonce p e expires seen o s).0
  admit_nonce-Move e expires seen none s new = report_accepted e _ new refl
  admit_nonce-Move e expires seen (some used) s new = nonces_pruned e seen refl

  accept-Move :
      (verifier : Verifier) (e : ChannelEnvelope) (at : ℕ) (s : AgentChannel)
      → Move p s (accept p verifier e at s).0
  unfolding accept
  accept-Move verifier e at s = elim (Result-cases (judge p verifier e at s)) [
    | inl (expires, q) ↦ rw q (admit_nonce-Move e expires _ _ s (judge-IsNew verifier e at s q))
    | inr (x, q) ↦ rw q (stays refl)
  ]

  -- Every call is one move.
  pub step-Move : (c : Call) (s : AgentChannel) → Move p s (step p c s)
  unfolding step
  step-Move (issues host_id pools at ttl token_id fresh) s =
      elim (Result-cases (issue_token p host_id pools at ttl token_id fresh s)) [
        | inl ((token, t), q) ↦ rw q (issue_token-Move host_id pools at ttl token_id fresh s t q)
        | inr (x, q) ↦ rw q (stays refl)
      ]
  step-Move (enrolls token_id key at) s = elim (Result-cases (enroll p token_id key at s)) [
    | inl ((c, t), q) ↦ rw q (enroll-Move token_id key at s t q)
    | inr (x, q) ↦ rw q (stays refl)
  ]
  step-Move (rotates host_id key_id key at) s =
      elim (Result-cases (rotate p host_id key_id key at s)) [
        | inl ((c, t), q) ↦ rw q (rotate-Move host_id key_id key at s t q)
        | inr (x, q) ↦ rw q (stays refl)
      ]
  step-Move (revokes host_id key_id at) s = elim (Result-cases (revoke p host_id key_id at s)) [
    | inl ((c, t), q) ↦ rw q (revoke-Move host_id key_id at s t q)
    | inr (x, q) ↦ rw q (stays refl)
  ]
  step-Move (accepts verifier e at) s = accept-Move verifier e at s
