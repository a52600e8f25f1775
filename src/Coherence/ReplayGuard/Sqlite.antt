-- ===== src/Coherence/ReplayGuard/Sqlite.antt =====
-- replay_guard.py, `SQLiteReplayBackend`: the SQL statements over the rows of one table.
use aiggp_agentic_framework.Base.{
  ℕ, String, Bool, true, false, ◌&&◌, Option, none, some, List, [], ◌∷◌, ◌++◌, ◌==◌, if◌then◌else◌,
}
use aiggp_agentic_framework.Coherence.ReplayGuard.{
  Status, admitted, ReplayScope, scope_key, ReplayRecord, verdict, claimed, first_of_two,
}

-- `SQLiteReplayBackend`: the rows of `replay_claims`, in the order of insertion. Each method is one
-- transaction over them.
abbrev pub Rows : Type 0
Rows = List ReplayRecord

-- `SELECT … WHERE idempotency_key = ?` and `… WHERE scope_key = ?`
unfoldable pub row_of_key : String → Rows → Option ReplayRecord
row_of_key key [] = none
row_of_key key (r ∷ rs) = if r.idempotency_key == key then some r else row_of_key key rs

unfoldable pub row_of_scope : String → Rows → Option ReplayRecord
row_of_scope scope [] = none
row_of_scope scope (r ∷ rs) = if r.scope == scope then some r else row_of_scope scope rs

abbrev pub existing : String → String → Rows → Option ReplayRecord
existing key scope rows = first_of_two (row_of_key key rows) (row_of_scope scope rows)

-- the rest of `claim`, after the SELECTs
abbrev pub decided :
    String → String → Option ℕ → ℕ → ℕ → Rows → Option ReplayRecord → Rows × Status × Option String
decided key at version now ttl rows (some r) = (rows, verdict r at version now, r.outcome)
decided key at version now ttl rows none =
    (rows ++ claimed key at version now ttl ∷ [], admitted, none)

unfoldable pub claim :
    String → ReplayScope → Option ℕ → ℕ → ℕ → Rows → Rows × Status × Option String
claim key scope version now ttl rows =
    let at = scope_key scope in decided key at version now ttl rows (existing key at rows)

-- `UPDATE … SET outcome = ? WHERE idempotency_key = ? AND outcome IS NULL`, and whether a row
-- was changed
abbrev pub settled : String → ReplayRecord → ReplayRecord
settled result r = elim r.outcome [ none ↦ record r { outcome = some result } | some o ↦ r ]

abbrev pub open_row : String → ReplayRecord → Bool
open_row key r = r.idempotency_key == key && elim r.outcome [ none ↦ true | some o ↦ false ]

unfoldable pub record_outcome : String → String → Rows → Rows × Bool
record_outcome key result [] = ([], false)
record_outcome key result (r ∷ rs) =
    let rest = record_outcome key result rs in
    if open_row key r then (settled result r ∷ rest.0, true) else (r ∷ rest.0, rest.1)

abbrev outcome_of_row : Option ReplayRecord → Option String
outcome_of_row none = none
outcome_of_row (some r) = r.outcome

unfoldable pub outcome : String → Rows → Option String
outcome key rows = outcome_of_row (row_of_key key rows)
