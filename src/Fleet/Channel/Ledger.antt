-- ===== src/Fleet/Channel/Ledger.antt =====
-- channel.py: the ledger of credentials in every state that calls can reach.
use aiggp_agentic_framework.Base.{
  ℕ, String, true, none, some, List, [], ◌∷◌, ok, Bool-cases, some-injective, >>=-eq-ok,
  ok-injective, ◌≡◌, refl, sym, ap, ◌∙◌, inl, inr, arith,
}
use aiggp_agentic_framework.Base.Dict.{Dict, lookup, insert, lookup-insert}
use aiggp_agentic_framework.Base.Pairs.{
  Pair, PairDict, same_pair, same_pair_to_eq, find, store, find-store, find-nil,
}
use aiggp_agentic_framework.Fleet.Wire.{Platform}
use aiggp_agentic_framework.Fleet.Channel.Credentials.{key_id_for, HostCredential}
use aiggp_agentic_framework.Fleet.Channel.Manager.{
  AgentChannel, place_of, new_credential, retired, as_revoked, new_channel,
}
use aiggp_agentic_framework.Fleet.Channel.Runs.{Call, run}
use aiggp_agentic_framework.Fleet.Channel.Moves.{
  Move, stays, token_issued, host_enrolled, key_rotated, key_revoked, report_accepted,
  nonces_pruned, step-Move,
}

-- A credential stands under its own host and key id, its key id is that of its public key, and the
-- ledger of keys names its host.
pub record Fits (p : Platform) (holders : Dict String) (at : Pair) (c : HostCredential)
    : Type 0 where
  pub under_host : at.first ≡ c.host_id
  pub under_key : at.second ≡ c.key_id
  pub its_key : c.key_id ≡ key_id_for p c.public_key
  pub held : lookup c.public_key holders ≡ some c.host_id

abbrev pub IsLedger : Platform → AgentChannel → Type 0
IsLedger p s =
    (at : Pair) (c : HostCredential) → find at s.credentials ≡ some c → Fits p s.holders at c

module _ (p : Platform) where
  Fits-insert :
      (holders : Dict String) (key host : String) (at : Pair) (c : HostCredential)
      → lookup key holders ≡ none
      → Fits p holders at c
      → Fits p (insert key host holders) at c
  Fits-insert holders key host at c fresh f = record {
    under_host = f.under_host;
    under_key = f.under_key;
    its_key = f.its_key;
    held = lookup-insert c.public_key key host holders ∙ ground (arith, f.held, fresh);
  }

  Fits-new :
      (holders : Dict String) (host key : String) (time lifetime n : ℕ)
      → (let c = new_credential p host key time lifetime n in
          Fits p (insert key host holders) (place_of c) c)
  Fits-new holders host key time lifetime n = record {
    under_host = refl;
    under_key = refl;
    its_key = refl;
    held = lookup-insert key key host holders ∙ ground arith;
  }

  Fits-at :
      (holders : Dict String) (at at' : Pair) (c : HostCredential)
      → same_pair at at' ≡ true
      → Fits p holders at c
      → Fits p holders at' c
  Fits-at holders at at' c same f = record {
    under_host = sym (same_pair_to_eq at at' same).0 ∙ f.under_host;
    under_key = sym (same_pair_to_eq at at' same).1 ∙ f.under_key;
    its_key = f.its_key;
    held = f.held;
  }

  -- A credential that is written where it fits leaves a ledger.
  store-Fits :
      (holders : Dict String) (new : HostCredential) (credentials : PairDict HostCredential)
      → Fits p holders (place_of new) new
      → ((at : Pair) (c : HostCredential) → find at credentials ≡ some c → Fits p holders at c)
      → (at : Pair) (c : HostCredential) → find at (store (place_of new) new credentials) ≡ some c
      → Fits p holders at c
  store-Fits holders new credentials f all at c h =
      elim (Bool-cases (same_pair (place_of new) at)) [
        | inl same ↦
            let e : new ≡ c =
              some-injective (ground (arith, find-store at (place_of new) new credentials)) in
            rw (← e) (Fits-at holders (place_of new) at new same f)
        | inr other ↦ all at c (ground (arith, find-store at (place_of new) new credentials))
      ]

  Fits-same :
      (holders : Dict String) (at : Pair) (c d : HostCredential)
      → c.host_id ≡ d.host_id
      → c.key_id ≡ d.key_id
      → c.public_key ≡ d.public_key
      → Fits p holders at c
      → Fits p holders (place_of d) d
  Fits-same holders at c d a b k f = record {
    under_host = refl;
    under_key = refl;
    its_key = sym b ∙ f.its_key ∙ ap (key_id_for p) k;
    held = ground (arith, f.held);
  }

  pub Move-IsLedger : (s t : AgentChannel) → Move p s t → IsLedger p s → IsLedger p t
  Move-IsLedger s t (stays e) v = rw e v
  Move-IsLedger s t (token_issued token free e) v = rw e v
  Move-IsLedger s t (host_enrolled token_id key token at unused fresh e) v = rw e (
      store-Fits _ _ s.credentials (Fits-new s.holders token.host_id key at _ 1)
        (λ a c h. Fits-insert s.holders key token.host_id a c fresh (v a c h)))
  Move-IsLedger s t (key_rotated at current key time until here live fresh e) v = rw e (
      store-Fits _ _ _ (Fits-new s.holders current.host_id key time _ _) (
        store-Fits _ (retired p current until) s.credentials
          (Fits-insert s.holders key current.host_id _ _ fresh (
            Fits-same s.holders at current (retired p current until) refl refl refl
              (v at current here)))
          (λ a c h. Fits-insert s.holders key current.host_id a c fresh (v a c h))))
  Move-IsLedger s t (key_revoked at current here e) v = rw e (
      store-Fits s.holders (as_revoked p current) s.credentials
        (Fits-same s.holders at current (as_revoked p current) refl refl refl (v at current here))
        v)
  Move-IsLedger s t (report_accepted r nonces new e) v = rw e v
  Move-IsLedger s t (nonces_pruned r nonces e) v = rw e v

  run-IsLedger : (cs : List Call) (s : AgentChannel) → IsLedger p s → IsLedger p (run p cs s)
  unfolding run
  run-IsLedger [] s v = v
  run-IsLedger (c ∷ cs) s v = run-IsLedger cs _ (Move-IsLedger s _ (step-Move p c s) v)

  new_channel-IsLedger :
      (overlap lifetime : ℕ) (s : AgentChannel) → new_channel overlap lifetime ≡ ok s → IsLedger p s
  unfolding new_channel
  new_channel-IsLedger overlap lifetime s h at c q =
      let (x1, p1, h1) = >>=-eq-ok _ _ h in
      let (x2, p2, h2) = >>=-eq-ok _ _ h1 in
      absurd (ground (arith, ok-injective _ _ h2, find-nil {V = HostCredential} at, q))

  module _ (overlap lifetime : ℕ) (s : AgentChannel) (h : new_channel overlap lifetime ≡ ok s)
      (cs : List Call) where
    pub reached-IsLedger : IsLedger p (run p cs s)
    reached-IsLedger = run-IsLedger cs s (new_channel-IsLedger overlap lifetime s h)

    -- After any calls on a new channel, two credentials of the ledger with the same public key
    -- stand under the same host and key id: a key belongs to exactly one host.
    pub one_host_per_key :
        (at at' : Pair) (c c' : HostCredential)
        → find at (run p cs s).credentials ≡ some c
        → find at' (run p cs s).credentials ≡ some c'
        → c.public_key ≡ c'.public_key
        → (at.first ≡ at'.first) × (at.second ≡ at'.second)
    one_host_per_key at at' c c' q q' same =
        let f = reached-IsLedger at c q in
        let g = reached-IsLedger at' c' q' in
        (
          f.under_host
              ∙ some-injective (sym f.held ∙ ap (λ k. lookup k (run p cs s).holders) same ∙ g.held)
              ∙ sym g.under_host,
          f.under_key ∙ f.its_key ∙ ap (key_id_for p) same ∙ sym g.its_key ∙ sym g.under_key,
        )
