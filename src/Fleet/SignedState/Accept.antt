-- ===== src/Fleet/SignedState/Accept.antt =====
-- state.py: what the host accepts of what the manager issues.
use aiggp_agentic_framework.Base.{
  ℕ, ◌+◌, ◌≤◌, String, true, false, Option, none, some, List, [], ◌∷◌, Result, ok, err, is_ok,
  ◌>>=◌, >>=-eq-ok, ok-pair, require-ok, require_some-ok, refuse_if-ok, Result-cases, ltb, ◌==◌,
  ==_refl, if◌then◌else◌, ◌≡◌, refl, sym, ap, inl, inr, arith,
}
use aiggp_agentic_framework.Base.Dict.{lookup, insert, lookup-insert}
use aiggp_agentic_framework.Fleet.Values.{is_identifier}
use aiggp_agentic_framework.Fleet.Wire.{Json, Platform, Verifier}
use aiggp_agentic_framework.Fleet.Channel.Credentials.{timestamp}
use aiggp_agentic_framework.Fleet.SignedState.States.{
  StateError, SignedState, check_signed_state, instant_of, expired, signed_bytes,
  max_state_clock_skew,
}
use aiggp_agentic_framework.Fleet.SignedState.Issue.{
  Signer, StateIssuer, or_zero, sign, unsigned, with_signature, issue, accepted_state, is_newer,
  accept_state,
}

-- What an issue that returns has established.
record Issued (p : Platform) (signer : Signer) (audience : String) (issued_at ttl : ℕ)
    (issuer : StateIssuer) (s : SignedState) (after : StateIssuer) : Type 0 where
  named : is_identifier audience ≡ true
  revision : ℕ
  line : String
  raw : String
  signature : String
  covered :
      signed_bytes p
        (unsigned p audience revision (or_zero (lookup audience issuer) + 1) issued_at ttl line)
      ≡ some raw
  signed : signer raw ≡ some signature
  valid : check_signed_state p s ≡ ok tt
  its_state :
      s
      ≡ with_signature p signature
          (unsigned p audience revision (or_zero (lookup audience issuer) + 1) issued_at ttl line)
  its_issuer : after ≡ insert audience (or_zero (lookup audience issuer) + 1) issuer

module _ (p : Platform) (signer : Signer) where
  sign-ok :
      (o : Option String) {signature : String}
      → sign signer o ≡ ok signature
      → (raw : String) × (o ≡ some raw) × (signer raw ≡ some signature)
  sign-ok none h = absurd (cc)
  sign-ok (some raw) h = (raw, refl, require_some-ok _ _ h)

  issue-Issued :
      (body : Json) (audience : String) (issued_at ttl : ℕ) (revision : Option ℕ)
      (issuer after : StateIssuer) (s : SignedState)
      → issue p signer body audience issued_at ttl revision issuer ≡ ok (s, after)
      → Issued p signer audience issued_at ttl issuer s after
  unfolding issue
  issue-Issued body audience issued_at ttl revision issuer after s h =
      let (x1, p1, h1) = >>=-eq-ok _ _ h in
      let (x2, p2, h2) = >>=-eq-ok _ _ h1 in
      let (x3, p3, h3) = >>=-eq-ok _ _ h2 in
      let (line, p4, h4) = >>=-eq-ok _ _ h3 in
      let (number, p5, h5) = >>=-eq-ok _ _ h4 in
      let (x6, p6, h6) = >>=-eq-ok _ _ h5 in
      let (signature, p7, h7) = >>=-eq-ok _ _ h6 in
      let (x8, p8, h8) = >>=-eq-ok _ _ h7 in
      let (e, f) = ok-pair _ _ _ _ h8 in
      let (raw, covered, signed) = sign-ok _ p7 in
      record {
        named = require-ok _ _ p1;
        revision = number;
        line = line;
        raw = raw;
        signature = signature;
        covered = covered;
        signed = signed;
        valid = rw (← e) p8;
        its_state = sym e;
        its_issuer = sym f;
      }

-- The printed instant is a text that reads back as the instant.
abbrev pub IsPrinted : Platform → ℕ → Type 0
IsPrinted p t = ((p.stamp t == "") ≡ false) × (p.instant (p.stamp t) ≡ some t)

instant_of-stamp :
    (p : Platform) (t : ℕ) (place : String) → IsPrinted p t → instant_of p (p.stamp t) place ≡ ok t
unfolding timestamp ◌>>=◌
instant_of-stamp p t place (full, back) = rw (full, back) refl

signed_bytes-with_signature :
    (p : Platform) (signature : String) (s : SignedState)
    → signed_bytes p (with_signature p signature s) ≡ signed_bytes p s
unfolding signed_bytes
signed_bytes-with_signature p signature s = refl

newer_than_last : (o : Option ℕ) → is_newer (or_zero o + 1) o ≡ ok tt
newer_than_last none = refl
newer_than_last (some last) = ground arith

module _ (p : Platform) (signer : Signer) (verifier : Verifier) (key : String)
    (honest : (line signature : String)
      → signer line ≡ some signature
      → verifier key line signature ≡ some true)
    (unhex-hex : (signature : String) → p.unhex (p.hex signature) ≡ some signature) where
  -- What the manager issues its host accepts: with a verifier that takes what the signer signs, and
  -- instants and signatures that read back as they were printed, a state that is issued for an audience
  -- is accepted by that audience whose last state is the issuer's last, from the clock skew before its
  -- issue to the end of its lifetime.
  pub accept-issue :
      (body : Json) (audience : String) (issued_at ttl : ℕ) (revision : Option ℕ)
      (issuer after : StateIssuer) (s : SignedState) (at : ℕ)
      → issue p signer body audience issued_at ttl revision issuer ≡ ok (s, after)
      → IsPrinted p issued_at
      → IsPrinted p (issued_at + ttl)
      → issued_at ≤ at + max_state_clock_skew
      → at ≤ issued_at + ttl
      → accept_state p verifier key audience (lookup audience issuer) at s ≡ ok (accepted_state s)
  unfolding accept_state expired ◌>>=◌
  accept-issue body audience issued_at ttl revision issuer after s at h from until early late =
      let i = issue-Issued p signer body audience issued_at ttl revision issuer after s h in
      let not_late : ltb (issued_at + ttl) at ≡ false = ground arith in
      let not_early : ltb (at + max_state_clock_skew) issued_at ≡ false = ground arith in
      rw
        (
          i.its_state,
          i.named,
          ==_refl audience,
          instant_of-stamp p issued_at "signed_state.issued_at" from,
          instant_of-stamp p (issued_at + ttl) "signed_state.expires_at" until,
          not_late,
          not_early,
          signed_bytes-with_signature p i.signature,
          i.covered,
          unhex-hex i.signature,
          honest i.raw i.signature i.signed,
          newer_than_last (lookup audience issuer),
        )
        refl

-- A call of `issue`.
pub record Request : Type 0 where
  pub signer : Signer
  pub body : Json
  pub audience : String
  pub issued_at : ℕ
  pub ttl : ℕ
  pub revision : Option ℕ

unfoldable pub serve :
    Platform → Request → StateIssuer → Result StateError (SignedState × StateIssuer)
serve p q issuer = issue p q.signer q.body q.audience q.issued_at q.ttl q.revision issuer

-- A call that raises leaves the issuer.
abbrev pub issuer_after : StateIssuer → Result StateError (SignedState × StateIssuer) → StateIssuer
issuer_after issuer (ok (s, after)) = after
issuer_after issuer (err x) = issuer

unfoldable pub serve_all : Platform → List Request → StateIssuer → StateIssuer
serve_all p [] issuer = issuer
serve_all p (q ∷ qs) issuer = serve_all p qs (issuer_after issuer (serve p q issuer))

module _ (p : Platform) (audience : String) where
  serve-advances :
      (q : Request) (issuer after : StateIssuer) (s : SignedState)
      → serve p q issuer ≡ ok (s, after)
      → (or_zero (lookup audience after) ≡ (
          if q.audience == audience
          then or_zero (lookup audience issuer) + 1
          else or_zero (lookup audience issuer)))
        × (s.audience ≡ q.audience)
        × (s.sequence_number ≡ or_zero (lookup q.audience issuer) + 1)
  unfolding serve
  serve-advances q issuer after s h =
      let i =
        issue-Issued p q.signer q.body q.audience q.issued_at q.ttl q.revision issuer after s h in
      (
        rw i.its_issuer (
            ground (
              arith,
              lookup-insert audience q.audience (or_zero (lookup q.audience issuer) + 1) issuer,
            )),
        ap (λ (t : SignedState). t.audience) i.its_state,
        ap (λ (t : SignedState). t.sequence_number) i.its_state,
      )

  serve_all-le :
      (qs : List Request) (issuer : StateIssuer)
      → or_zero (lookup audience issuer) ≤ or_zero (lookup audience (serve_all p qs issuer))
  unfolding serve_all
  serve_all-le [] issuer = omega arith
  serve_all-le (q ∷ qs) issuer = elim (Result-cases (serve p q issuer)) [
    | inl ((s, after), e) ↦
        rw e (ground (arith, (serve-advances q issuer after s e).0, serve_all-le qs after))
    | inr (x, e) ↦ rw e (serve_all-le qs issuer)
  ]

  accept_state-old :
      (verifier : Verifier) (key : String) (last at : ℕ) (s : SignedState)
      → s.sequence_number ≤ last
      → is_ok (accept_state p verifier key audience (some last) at s) ≡ false
  unfolding accept_state
  accept_state-old verifier key last at s old =
      elim (Result-cases (accept_state p verifier key audience (some last) at s)) [
        | inr (x, e) ↦ ap is_ok e
        | inl (a, e) ↦
            let (x1, p1, h1) = >>=-eq-ok _ _ e in
            let (x2, p2, h2) = >>=-eq-ok _ _ h1 in
            let (x3, p3, h3) = >>=-eq-ok _ _ h2 in
            let (x4, p4, h4) = >>=-eq-ok _ _ h3 in
            let (x5, p5, h5) = >>=-eq-ok _ _ h4 in
            let (x6, p6, h6) = >>=-eq-ok _ _ h5 in
            let (x7, p7, h7) = >>=-eq-ok _ _ h6 in
            let (x8, p8, h8) = >>=-eq-ok _ _ h7 in
            let new = refuse_if-ok _ _ p8 in absurd (ground arith)
      ]

  -- Of two states that one issuer made for the same audience, with any issues between them, the
  -- first is refused by a host that has accepted the second: no earlier state comes back.
  pub rollback_refused :
      (q : Request) (issuer after : StateIssuer) (s : SignedState)
      → serve p q issuer ≡ ok (s, after)
      → q.audience ≡ audience
      → (between : List Request) (q' : Request) (after' : StateIssuer) (s' : SignedState)
      → serve p q' (serve_all p between after) ≡ ok (s', after')
      → q'.audience ≡ audience
      → (verifier : Verifier) (key : String) (at : ℕ)
      → is_ok (accept_state p verifier key audience (some s'.sequence_number) at s) ≡ false
  rollback_refused q issuer after s h own between q' after' s' h' own' verifier key at =
      accept_state-old verifier key s'.sequence_number at s (
        ground (
          arith,
          serve-advances q issuer after s h,
          serve_all-le between after,
          serve-advances q' (serve_all p between after) after' s' h',
          own,
          own',
        ))
