-- ===== src/Fleet/Channel/Revocation.antt =====
-- channel.py: a revoked key in every later state.
use aiggp_agentic_framework.Base.{
  ℕ, String, Bool, true, false, Option, none, some, List, [], ◌∷◌, ok, is_ok, Bool-cases,
  Result-cases, some-injective, >>=-eq-ok, ok-pair, require-ok, ◌≡◌, refl, sym, ap, ◌∙◌, inl, inr,
  arith,
}
use aiggp_agentic_framework.Base.Dict.{Dict, lookup, insert, lookup-insert}
use aiggp_agentic_framework.Base.Pairs.{Pair, PairDict, same_pair, find, store, find-store}
use aiggp_agentic_framework.Fleet.Wire.{Platform, Verifier}
use aiggp_agentic_framework.Fleet.Channel.Credentials.{
  CredentialStatus, active, retiring, revoked, is_active, is_revoked, key_id_for, HostCredential,
  usable_at,
}
use aiggp_agentic_framework.Fleet.Channel.Envelopes.{ChannelEnvelope}
use aiggp_agentic_framework.Fleet.Channel.Manager.{
  AgentChannel, place_of, identity, retired, as_revoked, new_channel, revoke, judge, accept,
}
use aiggp_agentic_framework.Fleet.Channel.Runs.{Call, run}
use aiggp_agentic_framework.Fleet.Channel.Moves.{
  Move, stays, token_issued, host_enrolled, key_rotated, key_revoked, report_accepted,
  nonces_pruned, step-Move, credential-find,
}
use aiggp_agentic_framework.Fleet.Channel.Ledger.{IsLedger, reached-IsLedger}

abbrev has : Option String → Bool
has none = false
has (some holder) = true

active_not_revoked : (x : CredentialStatus) → is_active x ≡ true → is_revoked x ≡ true → ⊥
active_not_revoked active h k = cc
active_not_revoked retiring h k = cc
active_not_revoked revoked h k = cc

-- The key is known, and every credential that carries it is revoked.
record IsDead (key : String) (s : AgentChannel) : Type 0 where
  known : has (lookup key s.holders) ≡ true
  each_revoked :
      (at : Pair) (c : HostCredential)
      → find at s.credentials ≡ some c
      → c.public_key ≡ key
      → is_revoked c.status ≡ true

module _ (p : Platform) (key : String) where
  store-revoked :
      (at : Pair) (new : HostCredential) (credentials : PairDict HostCredential)
      → (new.public_key ≡ key → is_revoked new.status ≡ true)
      → ((at : Pair) (c : HostCredential)
          → find at credentials ≡ some c
          → c.public_key ≡ key
          → is_revoked c.status ≡ true)
      → (at' : Pair) (c : HostCredential) → find at' (store at new credentials) ≡ some c
      → c.public_key ≡ key
      → is_revoked c.status ≡ true
  store-revoked at new credentials f all at' c h same = elim (Bool-cases (same_pair at at')) [
    | inl here ↦
        let e : new ≡ c = some-injective (ground (arith, find-store at' at new credentials)) in
        ap (λ (d : HostCredential). is_revoked d.status) (sym e)
        ∙ f (ap (λ (d : HostCredential). d.public_key) e ∙ same)
    | inr other ↦ all at' c (ground (arith, find-store at' at new credentials)) same
  ]

  insert-known :
      (other host : String) (holders : Dict String)
      → has (lookup key holders) ≡ true
      → has (lookup key (insert other host holders)) ≡ true
  insert-known other host holders h = ground (arith, lookup-insert key other host holders)

  fresh_differs :
      (other : String) (holders : Dict String) {A : Type 0}
      → has (lookup key holders) ≡ true
      → lookup other holders ≡ none
      → other ≡ key
      → A
  fresh_differs other holders h fresh same =
      let e : lookup key holders ≡ none = ap (λ k. lookup k holders) (sym same) ∙ fresh in
      absurd (ground arith)

  Move-IsDead : (s t : AgentChannel) → Move p s t → IsDead key s → IsDead key t
  Move-IsDead s t (stays e) v = rw e v
  Move-IsDead s t (token_issued token free e) v =
      rw e (record { known = v.known; each_revoked = v.each_revoked })
  Move-IsDead s t (host_enrolled token_id other token at unused fresh e) v = rw e (record {
    known = insert-known other token.host_id s.holders v.known;
    each_revoked =
        store-revoked _ _ s.credentials (fresh_differs other s.holders v.known fresh)
          v.each_revoked;
  })
  Move-IsDead s t (key_rotated at current other time until here live fresh e) v = rw e (record {
    known = insert-known other current.host_id s.holders v.known;
    each_revoked = store-revoked _ _ _ (fresh_differs other s.holders v.known fresh) (
        store-revoked _ (retired p current until) s.credentials
          (λ same. absurd (active_not_revoked _ live (v.each_revoked at current here same)))
          v.each_revoked);
  })
  Move-IsDead s t (key_revoked at current here e) v = rw e (record {
    known = v.known;
    each_revoked =
        store-revoked _ (as_revoked p current) s.credentials (λ same. refl) v.each_revoked;
  })
  Move-IsDead s t (report_accepted r nonces new e) v =
      rw e (record { known = v.known; each_revoked = v.each_revoked })
  Move-IsDead s t (nonces_pruned r nonces e) v =
      rw e (record { known = v.known; each_revoked = v.each_revoked })

  run-IsDead : (cs : List Call) (s : AgentChannel) → IsDead key s → IsDead key (run p cs s)
  unfolding run
  run-IsDead [] s v = v
  run-IsDead (c ∷ cs) s v = run-IsDead cs _ (Move-IsDead s _ (step-Move p c s) v)

module _ (p : Platform) where
  usable-not_revoked :
      (c : HostCredential) (at : ℕ) → usable_at p c at ≡ ok true → is_revoked c.status ≡ false
  unfolding usable_at
  usable-not_revoked c at h = ground arith

  pub judge-credential :
      (verifier : Verifier) (e : ChannelEnvelope) (at : ℕ) (s : AgentChannel) {n : ℕ}
      → judge p verifier e at s ≡ ok n
      → (c : HostCredential) × (find (identity p e) s.credentials ≡ some c)
        × (usable_at p c at ≡ ok true)
  unfolding judge
  judge-credential verifier e at s h =
      let (c, p1, h1) = >>=-eq-ok _ _ h in
      let (usable, p2, h2) = >>=-eq-ok _ _ h1 in
      let (x3, p3, h3) = >>=-eq-ok _ _ h2 in
      (c, credential-find p e.host_id e.key_id _ s p1, p2 ∙ ap ok (require-ok _ _ p3))

  accept-dead :
      (verifier : Verifier) (e : ChannelEnvelope) (at : ℕ) (s : AgentChannel) (c : HostCredential)
      → find (identity p e) s.credentials ≡ some c
      → is_revoked c.status ≡ true
      → is_ok (accept p verifier e at s).1 ≡ false
  unfolding accept
  accept-dead verifier e at s c here dead = elim (Result-cases (judge p verifier e at s)) [
    | inl (expires, q) ↦
        let (d, found, usable) = judge-credential verifier e at s q in
        let same : c ≡ d = some-injective (sym here ∙ found) in
        let alive = usable-not_revoked d at usable in absurd (ground arith)
    | inr (x, q) ↦ rw q refl
  ]

  one_place :
      (s : AgentChannel) (at at' : Pair) (c d : HostCredential)
      → IsLedger p s
      → find at s.credentials ≡ some c
      → find at' s.credentials ≡ some d
      → d.public_key ≡ c.public_key
      → same_pair (place_of c) at' ≡ true
  one_place s at at' c d v here there same =
      let f = v at c here in
      let g = v at' d there in
      let host : d.host_id ≡ c.host_id =
        some-injective (sym g.held ∙ ap (λ k. lookup k s.holders) same ∙ f.held) in
      let id : d.key_id ≡ c.key_id = g.its_key ∙ ap (key_id_for p) same ∙ sym f.its_key in
      ground (arith, g.under_host ∙ host, g.under_key ∙ id)

  revoked-IsDead :
      (at : Pair) (c : HostCredential) (s : AgentChannel)
      → IsLedger p s
      → find at s.credentials ≡ some c
      → IsDead c.public_key
          (record s { credentials = store (place_of c) (as_revoked p c) s.credentials })
  revoked-IsDead at c s v here = record {
    known = rw ((v at c here).held) refl;
    each_revoked = λ at' d there same. elim (Bool-cases (same_pair (place_of c) at')) [
      | inl found ↦
          let e : as_revoked p c ≡ d =
            some-injective
              (ground (arith, find-store at' (place_of c) (as_revoked p c) s.credentials)) in
          ap (λ (x : HostCredential). is_revoked x.status) (sym e)
      | inr other ↦
          let old : find at' s.credentials ≡ some d =
            ground (arith, find-store at' (place_of c) (as_revoked p c) s.credentials) in
          absurd (ground (arith, one_place s at at' c d v here old same))
    ];
  }

  revoke-IsDead :
      (host_id key_id : String) (at : ℕ) (s t : AgentChannel) (c : HostCredential)
      → IsLedger p s
      → revoke p host_id key_id at s ≡ ok (c, t)
      → IsDead c.public_key t
  unfolding revoke
  revoke-IsDead host_id key_id at s t c v h =
      let (current, p1, h1) = >>=-eq-ok _ _ h in
      let (x2, p2, h2) = >>=-eq-ok _ _ h1 in
      let (x3, p3, h3) = >>=-eq-ok _ _ h2 in
      let (x4, p4, h4) = >>=-eq-ok _ _ h3 in
      let (x5, p5, h5) = >>=-eq-ok _ _ h4 in
      let (e, f) = ok-pair _ _ _ _ h5 in
      let k : current.public_key ≡ c.public_key = ap (λ (x : HostCredential). x.public_key) e in
      rw (← f, ← k) (revoked-IsDead _ current s v (credential-find p host_id key_id _ s p1))

  -- Take a new channel after any calls, revoke a credential of it, and make any further calls. A
  -- report that names a credential with the revoked public key is then refused, whatever the
  -- verifier says of it: no call brings a revoked key back.
  pub revoked_for_good :
      (overlap lifetime : ℕ) (s : AgentChannel)
      → new_channel overlap lifetime ≡ ok s
      → (before : List Call) (host_id key_id : String) (at : ℕ) (c : HostCredential)
        (t : AgentChannel)
      → revoke p host_id key_id at (run p before s) ≡ ok (c, t)
      → (later : List Call) (verifier : Verifier) (e : ChannelEnvelope) (at' : ℕ)
        (d : HostCredential)
      → find (identity p e) (run p later t).credentials ≡ some d
      → d.public_key ≡ c.public_key
      → is_ok (accept p verifier e at' (run p later t)).1 ≡ false
  revoked_for_good overlap lifetime s h before host_id key_id at c t r later verifier e at' d q
        same =
      let dead = run-IsDead p c.public_key later t (
        revoke-IsDead host_id key_id at _ t c (reached-IsLedger p overlap lifetime s h before) r) in
      accept-dead verifier e at' (run p later t) d q (dead.each_revoked (identity p e) d q same)
