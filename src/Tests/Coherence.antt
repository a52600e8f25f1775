-- ===== src/Tests/Coherence.antt =====
-- Two submissions of one scope, under two keys, and a report between them.
use aiggp_agentic_framework.Base.{true, false, none, some, List, [], ◌∷◌, ◌≡◌, refl, string_dec}
use aiggp_agentic_framework.Base.Dict.{lookup}
use aiggp_agentic_framework.Coherence.ReplayGuard.{
  duplicate, conflict, expired, admitted, denies, ReplayScope, scope_key, verdict,
}
use aiggp_agentic_framework.Coherence.ReplayGuard.InMemory.{empty}
use aiggp_agentic_framework.Coherence.ReplayGuard.Sqlite
use aiggp_agentic_framework.Coherence.ReplayGuard.Sqlite.{row_of_key, row_of_scope}
use aiggp_agentic_framework.Coherence.ReplayGuard.Runs.{
  Request, submit, report, answered, written, run_memory, run_rows, rows_after, serve_rows,
}
use aiggp_agentic_framework.Coherence.ReplayGuard.Agreement.{run_memory-run_rows}
use aiggp_agentic_framework.Coherence.ReplayGuard.Once.{claim_once}
use aiggp_agentic_framework.Coherence.ReplayGuard.Retries.{retry_in_memory, retry_in_memory_lem}

abbrev scope : ReplayScope
scope = record {
  producer_id = "p";
  tenant = "t";
  direction = "out";
  audience = "a";
  operation = "op";
  subject = "s";
  payload_digest = "d";
}

abbrev other_scope : ReplayScope
other_scope = record scope { payload_digest = "e" }

abbrev requests : List Request
requests =
    submit "k1" scope (some 3) 10
    ∷ report "k1" "done"
    ∷ submit "k2" scope (some 3) 20
    ∷ submit "k1" other_scope none 30
    ∷ submit "k1" scope none 400
    ∷ report "k1" "again"
    ∷ []

-- an admission, its report, a duplicate, a conflict, an expiry and a second report
replies :
    run_rows 300 requests []
    ≡ answered admitted
      ∷ written true
      ∷ answered duplicate
      ∷ answered conflict
      ∷ answered expired
      ∷ written false
      ∷ []
unfolding run_rows serve_rows Sqlite.claim Sqlite.record_outcome row_of_key row_of_scope verdict
    scope_key string_dec
replies = refl

run_memory-run_rows_example : run_memory 300 requests empty ≡ run_rows 300 requests []
run_memory-run_rows_example = run_memory-run_rows 300 requests

claim_once_example :
    denies
      (Sqlite.claim "k2" scope
        (some 4)
        500
        300
        (rows_after 300 requests (Sqlite.claim "k1" scope none 10 300 []).0)).1
    ≡ true
unfolding Sqlite.claim row_of_key row_of_scope string_dec scope_key
claim_once_example = claim_once 300 "k1" scope none 10 [] refl requests "k2" scope (some 4) 500 refl

retry_in_memory_lem_example :
    retry_in_memory "k1" "done" scope 10 "k2" 20 300 empty ≡ (duplicate, none)
unfolding lookup string_dec
retry_in_memory_lem_example =
    retry_in_memory_lem "k1" "done" "k2" scope 10 20 300 empty refl refl refl refl
