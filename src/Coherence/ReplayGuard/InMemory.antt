-- ===== src/Coherence/ReplayGuard/InMemory.antt =====
-- replay_guard.py, `InMemoryReplayBackend`: each method runs under the lock.
use aiggp_agentic_framework.Base.{ℕ, String, Bool, true, false, Option, none, some, []}
use aiggp_agentic_framework.Base.Dict.{Dict, lookup, insert}
use aiggp_agentic_framework.Coherence.ReplayGuard.{
  Status, admitted, ReplayScope, scope_key, ReplayRecord, verdict, claimed, first_of_two,
}

-- `InMemoryReplayBackend`: two dicts of records.
pub record Memory : Type 0 where
  pub by_key : Dict ReplayRecord
  pub by_scope : Dict ReplayRecord

abbrev pub empty : Memory
empty = record { by_key = []; by_scope = [] }

abbrev pub existing : String → String → Memory → Option ReplayRecord
existing key scope m = first_of_two (lookup key m.by_key) (lookup scope m.by_scope)

-- the rest of `claim`, after the look-up
abbrev pub decided :
    String
    → String
    → Option ℕ
    → ℕ
    → ℕ
    → Memory
    → Option ReplayRecord
    → Memory × Status × Option String
decided key at version now ttl m (some r) = (m, verdict r at version now, r.outcome)
decided key at version now ttl m none =
    let r = claimed key at version now ttl in
    (record { by_key = insert key r m.by_key; by_scope = insert at r m.by_scope }, admitted, none)

unfoldable pub claim :
    String → ReplayScope → Option ℕ → ℕ → ℕ → Memory → Memory × Status × Option String
claim key scope version now ttl m =
    let at = scope_key scope in decided key at version now ttl m (existing key at m)

abbrev pub settle : String → String → Option ReplayRecord → Memory → Memory × Bool
settle key result none m = (m, false)
settle key result (some r) m = elim r.outcome [
  | some o ↦ (m, false)
  | none ↦ (record m { by_key = insert key (record r { outcome = some result }) m.by_key }, true)
]

-- Only the record under the key is replaced: the one under the scope keeps its outcome.
unfoldable pub record_outcome : String → String → Memory → Memory × Bool
record_outcome key result m = settle key result (lookup key m.by_key) m

abbrev outcome_of : Option ReplayRecord → Option String
outcome_of none = none
outcome_of (some r) = r.outcome

unfoldable pub outcome : String → Memory → Option String
outcome key m = outcome_of (lookup key m.by_key)
