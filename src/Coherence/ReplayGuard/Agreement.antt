-- ===== src/Coherence/ReplayGuard/Agreement.antt =====
-- The two backends of replay_guard.py side by side.
use aiggp_agentic_framework.Base.{
  ℕ, String, true, false, Option, none, some, List, [], ◌∷◌, ◌++◌, ◌==◌, if◌then◌else◌, ◌≡◌, refl,
  sym, ap, ◌∙◌, inl, inr, Option-cases, arith, unique, contains, contains-snoc,
}
use aiggp_agentic_framework.Base.Dict.{lookup, lookup-insert, lookup-nil}
use aiggp_agentic_framework.Coherence.ReplayGuard.{
  Status, admitted, ReplayScope, scope_key, ReplayRecord, verdict, claimed, first_of_two,
}
use aiggp_agentic_framework.Coherence.ReplayGuard.InMemory
use aiggp_agentic_framework.Coherence.ReplayGuard.InMemory.{Memory, empty}
use aiggp_agentic_framework.Coherence.ReplayGuard.Sqlite
use aiggp_agentic_framework.Coherence.ReplayGuard.Sqlite.{Rows, row_of_key, row_of_scope}
use aiggp_agentic_framework.Coherence.ReplayGuard.Keys.{
  bare, row_keys, row_of_key-append, row_of_scope-append, row_of_key-record_outcome,
  row_of_scope-record_outcome, row_keys-record_outcome, contains-row_keys, record_outcome-done,
  is_open, settled_row,
}
use aiggp_agentic_framework.Coherence.ReplayGuard.Runs.{
  Request, submit, report, answered, written, serve_memory, serve_rows, run_memory, run_rows,
}

-- The dicts hold what the SELECTs find; under a scope, up to the outcome.
pub record Agree (m : Memory) (rows : Rows) : Type 0 where
  pub same_keys : (k : String) → lookup k m.by_key ≡ row_of_key k rows
  pub same_scopes : (s : String) → bare (lookup s m.by_scope) ≡ bare (row_of_scope s rows)
  pub keys_unique : unique (row_keys rows) ≡ true

-- the status of a claim that finds a record, or none
abbrev status_of : String → Option ℕ → ℕ → Option ReplayRecord → Status
status_of at v now none = admitted
status_of at v now (some r) = verdict r at v now

status_of-forget :
    (at : String) (v : Option ℕ) (now : ℕ) (o : Option ReplayRecord)
    → status_of at v now o ≡ status_of at v now (bare o)
unfolding verdict
status_of-forget at v now none = refl
status_of-forget at v now (some r) = refl

status_of-bare :
    (at : String) (v : Option ℕ) (now : ℕ) (o p : Option ReplayRecord)
    → bare o ≡ bare p
    → status_of at v now o ≡ status_of at v now p
status_of-bare at v now o p h =
    status_of-forget at v now o ∙ ap (status_of at v now) h ∙ sym (status_of-forget at v now p)

first_of_two-bare :
    (a b c d : Option ReplayRecord)
    → a ≡ c
    → bare b ≡ bare d
    → bare (first_of_two a b) ≡ bare (first_of_two c d)
first_of_two-bare none b c d h k = rw (sym h) k
first_of_two-bare (some r) b c d h k = rw (sym h) refl

bare-none : (o : Option ReplayRecord) → bare o ≡ none → o ≡ none
bare-none none h = refl
bare-none (some r) h = absurd (cc)

row_keys-append :
    (rows : Rows) (r : ReplayRecord)
    → row_keys (rows ++ r ∷ []) ≡ row_keys rows ++ r.idempotency_key ∷ []
row_keys-append [] r = refl
row_keys-append (x ∷ xs) r = ground (arith, row_keys-append xs r)

unique-snoc :
    (ks : List String) (k : String)
    → unique ks ≡ true
    → contains ks k ≡ false
    → unique (ks ++ k ∷ []) ≡ true
unique-snoc [] k h p = refl
unique-snoc (x ∷ xs) k h p = ground (arith, unique-snoc xs k, contains-snoc xs x k)

settle-Agree :
    (key result : String) (m : Memory) (rows : Rows)
    → Agree m rows
    → (o : Option ReplayRecord) → lookup key m.by_key ≡ o
    → ((Sqlite.record_outcome key result rows).1 ≡ (InMemory.settle key result o m).1)
      × Agree (InMemory.settle key result o m).0 (Sqlite.record_outcome key result rows).0
settle-Agree key result m rows a o p = (
  record_outcome-done key result rows a.keys_unique ∙ opened o p,
  record {
    same_keys = λ k. keys_of o p k ∙ sym (row_of_key-record_outcome k key result rows);
    same_scopes =
        λ s. scopes_of o s ∙ a.same_scopes s ∙ sym (row_of_scope-record_outcome s key result rows);
    keys_unique = rw (row_keys-record_outcome key result rows) a.keys_unique;
  },
)
  where
    opened :
        (o : Option ReplayRecord)
        → lookup key m.by_key ≡ o
        → is_open (row_of_key key rows) ≡ (InMemory.settle key result o m).1
    opened none p = rw (sym (a.same_keys key), p) refl
    opened (some r) p =
        rw (sym (a.same_keys key), p)
          (elim (Option-cases r.outcome) [ inl q ↦ rw q refl | inr (x, q) ↦ rw q refl ])

    keys_of :
        (o : Option ReplayRecord)
        → lookup key m.by_key ≡ o
        → (k : String)
        → lookup k (InMemory.settle key result o m).0.by_key
          ≡ (if key == k then settled_row result (row_of_key k rows) else row_of_key k rows)
    keys_of none p k = rw (sym (a.same_keys k)) (ground (arith, p))
    keys_of (some r) p k = rw (sym (a.same_keys k)) (elim (Option-cases r.outcome) [
      | inl q ↦ rw q (lookup-insert k key _ m.by_key ∙ ground (arith, p, q))
      | inr (x, q) ↦ rw q (ground (arith, p, q))
    ])

    scopes_of :
        (o : Option ReplayRecord) (s : String)
        → bare (lookup s (InMemory.settle key result o m).0.by_scope) ≡ bare (lookup s m.by_scope)
    scopes_of none s = refl
    scopes_of (some r) s = elim (Option-cases r.outcome) [
      | inl q ↦ rw q refl
      | inr (x, q) ↦ rw q refl
    ]

pub report-Agree :
    (key result : String) (m : Memory) (rows : Rows)
    → Agree m rows
    → ((Sqlite.record_outcome key result rows).1 ≡ (InMemory.record_outcome key result m).1)
      × Agree (InMemory.record_outcome key result m).0 (Sqlite.record_outcome key result rows).0
unfolding InMemory.record_outcome
report-Agree key result m rows a = settle-Agree key result m rows a (lookup key m.by_key) refl

first_of_two-none : (a b : Option ReplayRecord) → first_of_two a b ≡ none → (a ≡ none) × (b ≡ none)
first_of_two-none none b h = (refl, h)
first_of_two-none (some r) b h = absurd (cc)

first_of_two_right : (o : Option ReplayRecord) → first_of_two o none ≡ o
first_of_two_right none = refl
first_of_two_right (some r) = refl

decided-Agree :
    (key at : String) (v : Option ℕ) (now ttl : ℕ) (m : Memory) (rows : Rows)
    → Agree m rows
    → (o p : Option ReplayRecord) → InMemory.existing key at m ≡ o
    → Sqlite.existing key at rows ≡ p
    → bare o ≡ bare p
    → ((InMemory.decided key at v now ttl m o).1 ≡ (Sqlite.decided key at v now ttl rows p).1)
      × Agree (InMemory.decided key at v now ttl m o).0 (Sqlite.decided key at v now ttl rows p).0
decided-Agree key at v now ttl m rows a none none f g h =
    let (no_key, no_scope) = first_of_two-none (row_of_key key rows) (row_of_scope at rows) g in
    let c = claimed key at v now ttl in
    (
      refl,
      record {
        same_keys = λ k. ground (
          arith,
          lookup-insert k key c m.by_key,
          row_of_key-append k rows c,
          a.same_keys k,
          no_key,
          first_of_two_right (row_of_key k rows),
        );
        same_scopes = λ s. ground (
          arith,
          lookup-insert s at c m.by_scope,
          row_of_scope-append s rows c,
          a.same_scopes s,
          no_scope,
          first_of_two_right (row_of_scope s rows),
        );
        keys_unique =
            rw (row_keys-append rows c)
              (unique-snoc (row_keys rows) key a.keys_unique (contains-row_keys key rows no_key));
      },
    )
decided-Agree key at v now ttl m rows a (some r) (some q) f g h =
    (status_of-bare at v now (some r) (some q) h, a)
decided-Agree key at v now ttl m rows a none (some q) f g h = absurd (cc)
decided-Agree key at v now ttl m rows a (some r) none f g h = absurd (cc)

pub submit-Agree :
    (key : String) (scope : ReplayScope) (v : Option ℕ) (now ttl : ℕ) (m : Memory) (rows : Rows)
    → Agree m rows
    → ((InMemory.claim key scope v now ttl m).1 ≡ (Sqlite.claim key scope v now ttl rows).1)
      × Agree (InMemory.claim key scope v now ttl m).0 (Sqlite.claim key scope v now ttl rows).0
unfolding InMemory.claim Sqlite.claim
submit-Agree key scope v now ttl m rows a =
    decided-Agree key (scope_key scope) v now ttl m rows a _ _ refl refl
      (first_of_two-bare _ _ _ _ (a.same_keys key) (a.same_scopes (scope_key scope)))

pub serve-Agree :
    (ttl : ℕ) (q : Request) (m : Memory) (rows : Rows)
    → Agree m rows
    → ((serve_memory ttl q m).1 ≡ (serve_rows ttl q rows).1)
      × Agree (serve_memory ttl q m).0 (serve_rows ttl q rows).0
unfolding serve_memory serve_rows
serve-Agree ttl (submit key scope v now) m rows a =
    let (same, still) = submit-Agree key scope v now ttl m rows a in (ap answered same, still)
serve-Agree ttl (report key result) m rows a =
    let (same, still) = report-Agree key result m rows a in (ap written (sym same), still)

run-Agree :
    (ttl : ℕ) (qs : List Request) (m : Memory) (rows : Rows)
    → Agree m rows
    → run_memory ttl qs m ≡ run_rows ttl qs rows
unfolding run_memory run_rows
run-Agree ttl [] m rows a = refl
run-Agree ttl (q ∷ qs) m rows a =
    let (same, still) = serve-Agree ttl q m rows a in
    ground (arith, same, run-Agree ttl qs _ _ still)

empty-Agree : Agree empty []
unfolding row_of_key row_of_scope
empty-Agree = record {
  same_keys = λ k. lookup-nil k;
  same_scopes = λ s. ap bare (lookup-nil s);
  keys_unique = refl;
}

-- From empty stores, the in-memory backend and the SQLite backend answer every run of submissions
-- and outcome reports alike: the same statuses, and the same reports taken.
pub run_memory-run_rows :
    (ttl : ℕ) (qs : List Request) → run_memory ttl qs empty ≡ run_rows ttl qs []
run_memory-run_rows ttl qs = run-Agree ttl qs empty [] empty-Agree
