-- ===== src/Coherence/ReplayGuard/Once.antt =====
-- What an admitted claim leaves in the SQLite backend of replay_guard.py, and later claims on it.
use aiggp_agentic_framework.Base.{
  ℕ, String, Bool, true, false, ◌||◌, Option, none, some, List, [], ◌∷◌, ◌==◌, if◌then◌else◌, ◌≡◌,
  refl, ◌∙◌, arith,
}
use aiggp_agentic_framework.Coherence.ReplayGuard.{
  admitted, denies, ReplayScope, scope_key, ReplayRecord, verdict, claimed, first_of_two,
}
use aiggp_agentic_framework.Coherence.ReplayGuard.Sqlite
use aiggp_agentic_framework.Coherence.ReplayGuard.Sqlite.{Rows, row_of_key, row_of_scope}
use aiggp_agentic_framework.Coherence.ReplayGuard.Keys.{
  bare, settled_row, row_of_key-append, row_of_scope-append, row_of_key-record_outcome,
  row_of_scope-record_outcome,
}
use aiggp_agentic_framework.Coherence.ReplayGuard.Runs.{
  Request, submit, report, serve_rows, rows_after,
}

abbrev found : Option ReplayRecord → Bool
found none = false
found (some r) = true

-- a row stands under the key, or under the scope
abbrev taken : String → String → Rows → Bool
taken key at rows = found (row_of_key key rows) || found (row_of_scope at rows)

found-bare : (o p : Option ReplayRecord) → bare o ≡ bare p → found o ≡ found p
found-bare none none h = refl
found-bare (some r) (some q) h = refl
found-bare none (some q) h = absurd (cc)
found-bare (some r) none h = absurd (cc)

found-first_of_two : (o p : Option ReplayRecord) → found (first_of_two o p) ≡ found o || found p
found-first_of_two none p = refl
found-first_of_two (some r) p = refl

found-settled : (result : String) (o : Option ReplayRecord) → found (settled_row result o) ≡ found o
found-settled result none = refl
found-settled result (some r) = refl

row_of_key-found_claim :
    (k key at : String) (v : Option ℕ) (now ttl : ℕ) (rows : Rows) (o : Option ReplayRecord)
    → found (row_of_key k rows) ≡ true
    → found (row_of_key k (Sqlite.decided key at v now ttl rows o).0) ≡ true
row_of_key-found_claim k key at v now ttl rows (some r) h = h
row_of_key-found_claim k key at v now ttl rows none h =
    rw
      (
        row_of_key-append k rows (claimed key at v now ttl),
        found-first_of_two (row_of_key k rows)
            (if key == k then some (claimed key at v now ttl) else none),
        h,
      )
      refl

row_of_scope-found_claim :
    (s key at : String) (v : Option ℕ) (now ttl : ℕ) (rows : Rows) (o : Option ReplayRecord)
    → found (row_of_scope s rows) ≡ true
    → found (row_of_scope s (Sqlite.decided key at v now ttl rows o).0) ≡ true
row_of_scope-found_claim s key at v now ttl rows (some r) h = h
row_of_scope-found_claim s key at v now ttl rows none h =
    rw
      (
        row_of_scope-append s rows (claimed key at v now ttl),
        found-first_of_two (row_of_scope s rows)
            (if at == s then some (claimed key at v now ttl) else none),
        h,
      )
      refl

module _ (ttl : ℕ) where
  row_of_key-kept :
      (k : String) (q : Request) (rows : Rows)
      → found (row_of_key k rows) ≡ true
      → found (row_of_key k (serve_rows ttl q rows).0) ≡ true
  unfolding serve_rows Sqlite.claim
  row_of_key-kept k (submit key scope v now) rows h =
      row_of_key-found_claim k key _ v now ttl rows _ h
  row_of_key-kept k (report key result) rows h =
      ground (
        arith,
        row_of_key-record_outcome k key result rows,
        found-settled result (row_of_key k rows),
      )

  row_of_scope-kept :
      (s : String) (q : Request) (rows : Rows)
      → found (row_of_scope s rows) ≡ true
      → found (row_of_scope s (serve_rows ttl q rows).0) ≡ true
  unfolding serve_rows Sqlite.claim
  row_of_scope-kept s (submit key scope v now) rows h =
      row_of_scope-found_claim s key _ v now ttl rows _ h
  row_of_scope-kept s (report key result) rows h =
      found-bare _ _ (row_of_scope-record_outcome s key result rows) ∙ h

  row_of_key-after :
      (k : String) (qs : List Request) (rows : Rows)
      → found (row_of_key k rows) ≡ true
      → found (row_of_key k (rows_after ttl qs rows)) ≡ true
  unfolding rows_after
  row_of_key-after k [] rows h = h
  row_of_key-after k (q ∷ qs) rows h = row_of_key-after k qs _ (row_of_key-kept k q rows h)

  row_of_scope-after :
      (s : String) (qs : List Request) (rows : Rows)
      → found (row_of_scope s rows) ≡ true
      → found (row_of_scope s (rows_after ttl qs rows)) ≡ true
  unfolding rows_after
  row_of_scope-after s [] rows h = h
  row_of_scope-after s (q ∷ qs) rows h = row_of_scope-after s qs _ (row_of_scope-kept s q rows h)

  verdict-denies :
      (r : ReplayRecord) (at : String) (v : Option ℕ) (now : ℕ) → denies (verdict r at v now) ≡ true
  unfolding verdict
  verdict-denies r at v now = ground arith

  decided-found :
      (key at : String) (v : Option ℕ) (now : ℕ) (rows : Rows) (o : Option ReplayRecord)
      → (Sqlite.decided key at v now ttl rows o).1 ≡ admitted
      → (found (row_of_key key (Sqlite.decided key at v now ttl rows o).0) ≡ true)
        × (found (row_of_scope at (Sqlite.decided key at v now ttl rows o).0) ≡ true)
  decided-found key at v now rows (some r) h = absurd (ground (arith, verdict-denies r at v now, h))
  decided-found key at v now rows none h =
      let c = claimed key at v now ttl in
      (
        ground (
          arith,
          row_of_key-append key rows c,
          found-first_of_two (row_of_key key rows) (some c),
        ),
        ground (
          arith,
          row_of_scope-append at rows c,
          found-first_of_two (row_of_scope at rows) (some c),
        ),
      )

  decided-denies :
      (key at : String) (v : Option ℕ) (now : ℕ) (rows : Rows) (o : Option ReplayRecord)
      → found o ≡ true
      → denies (Sqlite.decided key at v now ttl rows o).1 ≡ true
  decided-denies key at v now rows (some r) h = verdict-denies r at v now
  decided-denies key at v now rows none h = absurd (cc)

  -- Once the SQLite backend has admitted a claim, it denies every later claim with the same
  -- idempotency key or the same scope, whatever requests came between, at every instant and with
  -- every revocation version.
  pub claim_once :
      (key : String) (scope : ReplayScope) (v : Option ℕ) (now : ℕ) (rows : Rows)
      → (Sqlite.claim key scope v now ttl rows).1 ≡ admitted
      → (qs : List Request) → (key' : String) (scope' : ReplayScope) (v' : Option ℕ) (now' : ℕ)
      → key' == key || scope_key scope' == scope_key scope ≡ true
      → denies
          (Sqlite.claim key' scope' v' now' ttl
            (rows_after ttl qs (Sqlite.claim key scope v now ttl rows).0)).1
        ≡ true
  unfolding Sqlite.claim
  claim_once key scope v now rows h qs key' scope' v' now' same =
      let (k, s) = decided-found key (scope_key scope) v now rows _ h in
      let rows' = rows_after ttl qs (Sqlite.claim key scope v now ttl rows).0 in
      decided-denies key' (scope_key scope') v' now' rows' _ (
        found-first_of_two (row_of_key key' rows') (row_of_scope (scope_key scope') rows')
        ∙ ground (
          arith,
          row_of_key-after key qs (Sqlite.claim key scope v now ttl rows).0 k,
          row_of_scope-after (scope_key scope) qs (Sqlite.claim key scope v now ttl rows).0 s,
          same,
        ))
