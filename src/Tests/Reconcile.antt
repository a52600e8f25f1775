-- ===== src/Tests/Reconcile.antt =====
-- A batch of a drain and a rollout on the fleet of one pool and one host.
use aiggp_agentic_framework.Base.{
  ℕ, ◌+◌, ◌≤◌, String, ◌≡◌, refl, Bool, true, false, Option, some, none, List, [], ◌∷◌, Result, ok,
  err, ◌>>=◌, each, null, All, string_dec, arith,
}
use aiggp_agentic_framework.Base.Dict.{lookup}
use aiggp_agentic_framework.Fleet.Desired.{find_host}
use aiggp_agentic_framework.Fleet.Plan.{Change, ChangeKind}
use aiggp_agentic_framework.Base.Sort.{place_by, sort_by}
use aiggp_agentic_framework.Fleet.Reconcile.Candidates.{
  candidate_le, parameters_le, check_candidates, validated_candidates,
}
use aiggp_agentic_framework.Fleet.Reconcile.Bound.{
  default_limits, Deferred, pool_budget, exhausted, first_spent, budget, charge, charge_pools,
  disrupted_pools, mutates_host, bound_from, bound_candidates, is_drain_kind, is_rollout_kind,
}
use aiggp_agentic_framework.Fleet.Reconcile.Caps.{
  tally, changes_of, disrupts, bound_candidates-partition, bound_candidates-within,
}
use aiggp_agentic_framework.Fleet.Reconcile.Progress.{bound_candidates-progress}
use aiggp_agentic_framework.Fleet.Reconcile.Observations.{
  Observation, check_runner, check_observation, observation_to_document, observation_from_document,
}
use aiggp_agentic_framework.Fleet.Reconcile.Reports.{observation_from-to}
use aiggp_agentic_framework.Fleet.Values.{is_identifier}
use aiggp_agentic_framework.Tests.Fleet.{pool, world}

abbrev drains : Change
drains = record { kind = ChangeKind.drain; subject = "h1"; parameters = ("reason", "disk") ∷ [] }

abbrev rolls : Change
rolls = record {
  kind = ChangeKind.rollout;
  subject = "linux";
  parameters = ("rollout_id", "r1") ∷ ("to_image_digest", "sha256:b") ∷ [];
}

abbrev waits : List Deferred
waits = record { change = rolls; reason = pool_budget "linux" 1 } ∷ []

-- the rollout comes first in the list, and the drain in the order
bounded :
    bound_candidates world default_limits false (rolls ∷ drains ∷ []) ≡ ok (drains ∷ [], waits)
unfolding bound_candidates ◌>>=◌ validated_candidates check_candidates each string_dec bound_from
    sort_by place_by candidate_le exhausted mutates_host first_spent disrupted_pools find_host
    budget lookup charge charge_pools aiggp_agentic_framework.Base.Dict.insert parameters_le
    aiggp_agentic_framework.Fleet.Plan.parameter
bounded = refl

bound_candidates-partition_example :
    tally (λ c. is_drain_kind c.kind) (rolls ∷ drains ∷ [])
    ≡ tally (λ c. is_drain_kind c.kind) (drains ∷ [])
      + tally (λ c. is_drain_kind c.kind) (changes_of waits)
bound_candidates-partition_example =
    bound_candidates-partition world default_limits false (rolls ∷ drains ∷ []) (drains ∷ []) waits
      bounded (λ c. is_drain_kind c.kind)

bound_candidates-within_example :
    (tally (λ c. is_drain_kind c.kind) (drains ∷ []) ≤ 1)
    × (tally (λ c. is_rollout_kind c.kind) (drains ∷ []) ≤ 1)
    × (tally mutates_host (drains ∷ []) ≤ 1)
    × ((pool_id : String) (limit : ℕ)
        → budget pool_id (pool ∷ []) ≡ some limit
        → tally (disrupts world pool_id) (drains ∷ []) ≤ limit)
    × (false ≡ true → drains ∷ [] ≡ [])
bound_candidates-within_example =
    bound_candidates-within world default_limits false (rolls ∷ drains ∷ []) (drains ∷ []) waits
      bounded

budgets_are_positive :
    (pool_id : String) (limit : ℕ) → budget pool_id (pool ∷ []) ≡ some limit → 1 ≤ limit
unfolding budget
budgets_are_positive pool_id limit h = ground arith

bound_candidates-progress_example : null (drains ∷ []) ≡ false
bound_candidates-progress_example =
    bound_candidates-progress world default_limits (omega arith) (omega arith) (omega arith)
      budgets_are_positive rolls (drains ∷ []) (drains ∷ []) waits bounded

abbrev seen : Observation
seen = record {
  host_id = "h1";
  observed_at = "2026-01-01T00:00:00Z";
  runners =
      record { runner_id = "r1"; pool_id = "linux"; started_at = "2026-01-01"; job_id = some "j1" }
      ∷ record { runner_id = "r2"; pool_id = "linux"; started_at = "2026-01-01"; job_id = none }
      ∷ [];
  agent_version = none;
}

seen_checked : check_observation seen ≡ ok tt
unfolding check_observation ◌>>=◌ string_dec is_identifier
seen_checked = refl

runners_checked : All (λ r. check_runner r ≡ ok tt) seen.runners
unfolding check_runner ◌>>=◌ string_dec is_identifier
runners_checked = (refl, (refl, tt))

observation_from-to_example : observation_from_document (observation_to_document seen) ≡ ok seen
observation_from-to_example = observation_from-to seen seen_checked runners_checked
