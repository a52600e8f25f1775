-- ===== src/Coherence/ReplayGuard/Keys.antt =====
-- How the statements of the SQLite backend change what its two SELECTs find.
use aiggp_agentic_framework.Base.{
  String, Bool, true, false, Option, none, some, List, [], ◌∷◌, ◌++◌, ◌==◌, if◌then◌else◌, ◌≡◌,
  refl, arith, contains, unique, Option-cases, inl, inr,
}
use aiggp_agentic_framework.Coherence.ReplayGuard.{ReplayRecord, first_of_two}
use aiggp_agentic_framework.Coherence.ReplayGuard.Sqlite.{
  Rows, row_of_key, row_of_scope, record_outcome, settled, open_row,
}

-- a record without its outcome, which is all that a verdict reads
abbrev pub bare : Option ReplayRecord → Option ReplayRecord
bare none = none
bare (some r) = some (record r { outcome = none })

abbrev pub settled_row : String → Option ReplayRecord → Option ReplayRecord
settled_row result none = none
settled_row result (some r) = some (settled result r)

abbrev pub is_open : Option ReplayRecord → Bool
is_open none = false
is_open (some r) = elim r.outcome [ none ↦ true | some o ↦ false ]

abbrev pub row_keys : Rows → List String
row_keys [] = []
row_keys (r ∷ rs) = r.idempotency_key ∷ row_keys rs

pub row_of_key-append :
    (j : String) (rows : Rows) (r : ReplayRecord)
    → row_of_key j (rows ++ r ∷ [])
      ≡ first_of_two (row_of_key j rows) (if r.idempotency_key == j then some r else none)
unfolding row_of_key
row_of_key-append j [] r = refl
row_of_key-append j (x ∷ xs) r = ground (arith, row_of_key-append j xs r)

pub row_of_scope-append :
    (s : String) (rows : Rows) (r : ReplayRecord)
    → row_of_scope s (rows ++ r ∷ [])
      ≡ first_of_two (row_of_scope s rows) (if r.scope == s then some r else none)
unfolding row_of_scope
row_of_scope-append s [] r = refl
row_of_scope-append s (x ∷ xs) r = ground (arith, row_of_scope-append s xs r)

settled-other :
    (key result : String) (r : ReplayRecord)
    → open_row key r ≡ false
    → (r.idempotency_key == key) ≡ true
    → settled result r ≡ r
settled-other key result r h p = elim (Option-cases r.outcome) [
  | inl none_yet ↦ absurd (ground arith)
  | inr (o, done) ↦ rw done refl
]

pub row_of_key-record_outcome :
    (j key result : String) (rows : Rows)
    → row_of_key j (record_outcome key result rows).0
      ≡ (if key == j then settled_row result (row_of_key j rows) else row_of_key j rows)
unfolding row_of_key record_outcome
row_of_key-record_outcome j key result [] = ground arith
row_of_key-record_outcome j key result (x ∷ xs) =
    ground (arith, row_of_key-record_outcome j key result xs, settled-other key result x)

pub row_of_scope-record_outcome :
    (s key result : String) (rows : Rows)
    → bare (row_of_scope s (record_outcome key result rows).0) ≡ bare (row_of_scope s rows)
unfolding row_of_scope record_outcome
row_of_scope-record_outcome s key result [] = refl
row_of_scope-record_outcome s key result (x ∷ xs) =
    ground (arith, row_of_scope-record_outcome s key result xs)

pub row_keys-record_outcome :
    (key result : String) (rows : Rows)
    → row_keys (record_outcome key result rows).0 ≡ row_keys rows
unfolding record_outcome
row_keys-record_outcome key result [] = refl
row_keys-record_outcome key result (x ∷ xs) = ground (arith, row_keys-record_outcome key result xs)

pub contains-row_keys :
    (key : String) (rows : Rows) → row_of_key key rows ≡ none → contains (row_keys rows) key ≡ false
unfolding row_of_key
contains-row_keys key [] h = refl
contains-row_keys key (x ∷ xs) h = ground (arith, contains-row_keys key xs)

record_outcome-closed :
    (key result : String) (rows : Rows)
    → contains (row_keys rows) key ≡ false
    → (record_outcome key result rows).1 ≡ false
unfolding record_outcome
record_outcome-closed key result [] h = refl
record_outcome-closed key result (x ∷ xs) h = ground (arith, record_outcome-closed key result xs)

pub record_outcome-done :
    (key result : String) (rows : Rows)
    → unique (row_keys rows) ≡ true
    → (record_outcome key result rows).1 ≡ is_open (row_of_key key rows)
unfolding record_outcome row_of_key
record_outcome-done key result [] h = refl
record_outcome-done key result (x ∷ xs) h =
    ground (arith, record_outcome-done key result xs, record_outcome-closed key result xs)
