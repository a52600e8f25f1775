-- ===== src/Coherence/ReplayGuard/Runs.antt =====
-- replay_guard.py, `ReplayGuard` over either backend, and runs of requests.
use aiggp_agentic_framework.Base.{ℕ, String, Bool, Option, List, [], ◌∷◌}
use aiggp_agentic_framework.Coherence.ReplayGuard.{Status, ReplayScope}
use aiggp_agentic_framework.Coherence.ReplayGuard.InMemory
use aiggp_agentic_framework.Coherence.ReplayGuard.InMemory.{Memory}
use aiggp_agentic_framework.Coherence.ReplayGuard.Sqlite
use aiggp_agentic_framework.Coherence.ReplayGuard.Sqlite.{Rows}

-- What a client sends to the guard.
pub data Request : Type 0 where
  submit : (key : String) (scope : ReplayScope) (version : Option ℕ) (now : ℕ) → Request
  report : (key result : String) → Request

-- What it is told: a status, or whether the outcome was recorded.
pub data Reply : Type 0 where
  answered : Status → Reply
  written : Bool → Reply

-- the guard's lifetime of a claim, `ttl_seconds`
module _ (ttl : ℕ) where
  unfoldable pub serve_memory : Request → Memory → Memory × Reply
  serve_memory (submit key scope version now) m =
      let (m', status, old) = InMemory.claim key scope version now ttl m in (m', answered status)
  serve_memory (report key result) m =
      let (m', done) = InMemory.record_outcome key result m in (m', written done)

  unfoldable pub serve_rows : Request → Rows → Rows × Reply
  serve_rows (submit key scope version now) rows =
      let (rows', status, old) = Sqlite.claim key scope version now ttl rows in
      (rows', answered status)
  serve_rows (report key result) rows =
      let (rows', done) = Sqlite.record_outcome key result rows in (rows', written done)

  -- a run of requests, and the replies in order
  unfoldable pub run_memory : List Request → Memory → List Reply
  run_memory [] m = []
  run_memory (q ∷ qs) m = let (m', reply) = serve_memory q m in reply ∷ run_memory qs m'

  unfoldable pub run_rows : List Request → Rows → List Reply
  run_rows [] rows = []
  run_rows (q ∷ qs) rows = let (rows', reply) = serve_rows q rows in reply ∷ run_rows qs rows'

  -- the rows after a run
  unfoldable pub rows_after : List Request → Rows → Rows
  rows_after [] rows = rows
  rows_after (q ∷ qs) rows = rows_after qs (serve_rows q rows).0
