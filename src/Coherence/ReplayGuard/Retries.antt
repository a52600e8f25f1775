-- ===== src/Coherence/ReplayGuard/Retries.antt =====
-- What a retry is told after its outcome was recorded, in each backend of replay_guard.py.
use aiggp_agentic_framework.Base.{
  ℕ, ◌+◌, String, true, Option, none, some, [], ◌∷◌, ◌++◌, ltb, ◌==◌, if◌then◌else◌, ◌≡◌, refl, inl,
  inr, arith, ==_refl, Bool-cases,
}
use aiggp_agentic_framework.Base.Dict.{lookup, insert, lookup-insert}
use aiggp_agentic_framework.Coherence.ReplayGuard.{
  Status, duplicate, ReplayScope, scope_key, ReplayRecord, verdict, claimed,
}
use aiggp_agentic_framework.Coherence.ReplayGuard.InMemory
use aiggp_agentic_framework.Coherence.ReplayGuard.InMemory.{Memory}
use aiggp_agentic_framework.Coherence.ReplayGuard.Sqlite
use aiggp_agentic_framework.Coherence.ReplayGuard.Sqlite.{
  Rows, row_of_key, row_of_scope, record_outcome, settled,
}
use aiggp_agentic_framework.Coherence.ReplayGuard.Keys.{row_of_key-append, row_of_scope-append}

verdict-duplicate :
    (r : ReplayRecord) (at : String) (now : ℕ)
    → r.scope ≡ at
    → ltb now r.expires_at ≡ true
    → verdict r at none now ≡ duplicate
unfolding verdict
verdict-duplicate r at now h k = ground (arith, h, k)

record_outcome-fresh :
    (key result : String) (rows : Rows) (c : ReplayRecord)
    → row_of_key key rows ≡ none
    → c.idempotency_key ≡ key
    → c.outcome ≡ none
    → record_outcome key result (rows ++ c ∷ []) ≡ (rows ++ settled result c ∷ [], true)
unfolding record_outcome row_of_key
record_outcome-fresh key result [] c h p q = ground (arith, p, q)
record_outcome-fresh key result (x ∷ xs) c h p q =
    ground (arith, record_outcome-fresh key result xs c, p, q)

-- What the claim, the report of its outcome and a retry of the scope under `again` end in.
unfoldable pub retry_on_rows :
    (key result : String) (scope : ReplayScope) (now : ℕ) (again : String) (later ttl : ℕ)
    → Rows
    → Status × Option String
retry_on_rows key result scope now again later ttl rows =
    let reported = record_outcome key result (Sqlite.claim key scope none now ttl rows).0 in
    let (rows', status, old) = Sqlite.claim again scope none later ttl reported.0 in (status, old)

unfoldable pub retry_in_memory :
    (key result : String) (scope : ReplayScope) (now : ℕ) (again : String) (later ttl : ℕ)
    → Memory
    → Status × Option String
retry_in_memory key result scope now again later ttl m =
    let reported = InMemory.record_outcome key result (InMemory.claim key scope none now ttl m).0 in
    let (m', status, old) = InMemory.claim again scope none later ttl reported.0 in (status, old)

module _ (key result again : String) (scope : ReplayScope) (now later ttl : ℕ) where
  -- In the SQLite backend, a submission whose key and scope have no row is claimed, its outcome is
  -- reported, and its scope is claimed again before it expires, under a key that had no row before the
  -- submission, with nothing between and no revocation version: that retry is a duplicate, and it is
  -- given the recorded outcome.
  pub retry_on_rows_lem :
      (rows : Rows)
      → row_of_key key rows ≡ none
      → row_of_scope (scope_key scope) rows ≡ none
      → row_of_key again rows ≡ none
      → ltb later (now + ttl) ≡ true
      → retry_on_rows key result scope now again later ttl rows ≡ (duplicate, some result)
  unfolding retry_on_rows Sqlite.claim verdict
  retry_on_rows_lem rows no_key no_scope no_again alive =
      let at = scope_key scope in
      let c = claimed key at none now ttl in
      rw
        (
          no_key,
          no_scope,
          record_outcome-fresh key result rows c no_key refl refl,
          row_of_key-append again rows (settled result c),
          row_of_scope-append at rows (settled result c),
          no_again,
          no_scope,
          ==_refl at,
        )
        (elim (Bool-cases (key == again)) [
          | inl same ↦ rw same (ground (arith, alive))
          | inr other ↦ rw other (ground (arith, alive))
        ])

  -- In the in-memory backend, a submission whose key and scope have no record is claimed, its outcome
  -- is reported, and its scope is claimed again before it expires, under a key that had no record
  -- before the submission, with nothing between and no revocation version: that retry is a duplicate,
  -- and it is given the recorded outcome under the key of the submission and none under another.
  pub retry_in_memory_lem :
      (m : Memory)
      → lookup key m.by_key ≡ none
      → lookup (scope_key scope) m.by_scope ≡ none
      → lookup again m.by_key ≡ none
      → ltb later (now + ttl) ≡ true
      → retry_in_memory key result scope now again later ttl m
        ≡ (duplicate, (if key == again then some result else none))
  unfolding retry_in_memory InMemory.claim InMemory.record_outcome verdict
  retry_in_memory_lem m no_key no_scope no_again alive =
      let at = scope_key scope in
      let c = claimed key at none now ttl in
      rw
        (
          no_key,
          no_scope,
          lookup-insert key key c m.by_key,
          ==_refl key,
          lookup-insert again key (settled result c) (insert key c m.by_key),
          lookup-insert again key c m.by_key,
          lookup-insert at at c m.by_scope,
          ==_refl at,
          no_again,
        )
        (elim (Bool-cases (key == again)) [
          | inl same ↦ rw same (ground (arith, alive))
          | inr other ↦ rw other (ground (arith, alive))
        ])
