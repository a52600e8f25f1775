-- ===== src/Fleet/Reconcile/Bound.antt =====
-- reconcile.py, `bound_candidates`: which candidates a batch submits, and why the others wait.
use aiggp_agentic_framework.Base.{
  ℕ, ◌+◌, String, Bool, true, false, ◌&&◌, Option, none, some, List, [], ◌∷◌, Result, ok, err,
  ◌>>=◌, leb, ◌==◌, if◌then◌else◌,
}
use aiggp_agentic_framework.Base.Dict.{Dict, lookup, insert}
use aiggp_agentic_framework.Fleet.Values.{ModelError, Pool, Host, Assignment}
use aiggp_agentic_framework.Fleet.Desired.{DesiredState, find_host, find_assignment}
use aiggp_agentic_framework.Fleet.Plan.{
  PlanError, ChangeKind, assign, release, drain, complete_drain, return_to_service, rollout, Change,
  destructive, parameter,
}
use aiggp_agentic_framework.Fleet.Reconcile.Candidates.{ReconcileError, validated_candidates}

pub record ConvergenceLimits : Type 0 where
  pub max_drains : ℕ
  pub max_replacements : ℕ
  pub max_host_mutations : ℕ

-- The defaults of `ConvergenceLimits`.
abbrev pub default_limits : ConvergenceLimits
default_limits = record { max_drains = 1; max_replacements = 1; max_host_mutations = 1 }

pub data Reason : Type 0 where
  is_halted : Reason
  drain_cap replacement_cap host_cap : ℕ → Reason
  pool_budget : String → ℕ → Reason

pub record Deferred : Type 0 where
  pub change : Change
  pub reason : Reason

-- `used` and `per_pool`
pub record Used : Type 0 where
  pub drains : ℕ
  pub replacements : ℕ
  pub host_mutations : ℕ
  pub per_pool : Dict ℕ

abbrev pub unused : Used
unused = record { drains = 0; replacements = 0; host_mutations = 0; per_pool = [] }

abbrev pub is_drain_kind : ChangeKind → Bool
is_drain_kind drain = true
is_drain_kind complete_drain = true
is_drain_kind _ = false

abbrev pub is_rollout_kind : ChangeKind → Bool
is_rollout_kind rollout = true
is_rollout_kind _ = false

abbrev value_or_none : Result PlanError String → Option String
value_or_none (ok x) = some x
value_or_none (err e) = none

-- `_host_of`, of a change with its required parameters
abbrev pub host_of_kind : ChangeKind → Change → Option String
host_of_kind assign c = value_or_none (parameter "host_id" c)
host_of_kind drain c = some c.subject
host_of_kind complete_drain c = some c.subject
host_of_kind return_to_service c = some c.subject
host_of_kind _ c = none

abbrev is_some : Option String → Bool
is_some none = false
is_some (some x) = true

unfoldable pub mutates_host : Change → Bool
mutates_host c = is_some (host_of_kind c.kind c)

abbrev pool_named : Result PlanError String → List String
pool_named (ok pool_id) = pool_id ∷ []
pool_named (err e) = []

abbrev pool_assigned : Result ModelError Assignment → List String
pool_assigned (ok a) = a.pool_id ∷ []
pool_assigned (err e) = []

abbrev pools_allowed : Result ModelError Host → List String
pools_allowed (ok h) = h.allowed_pools
pools_allowed (err e) = []

abbrev pools_of_kind : DesiredState → ChangeKind → Change → List String
pools_of_kind s assign c = pool_named (parameter "pool_id" c)
pools_of_kind s release c = pool_assigned (find_assignment c.subject s.assignments)
pools_of_kind s rollout c = c.subject ∷ []
pools_of_kind s _ c = pools_allowed (find_host c.subject s.hosts)

-- `_disrupted_pools`
unfoldable pub disrupted_pools : DesiredState → Change → List String
disrupted_pools s c = pools_of_kind s c.kind c

-- `_budget`
unfoldable pub budget : String → List Pool → Option ℕ
budget pool_id [] = none
budget pool_id (p ∷ ps) = if p.pool_id == pool_id then some p.max_parallel else budget pool_id ps

abbrev pub or_zero : Option ℕ → ℕ
or_zero none = 0
or_zero (some n) = n

abbrev pub spent : String → Used → ℕ
spent pool_id u = or_zero (lookup pool_id u.per_pool)

abbrev pub over_budget : String → Option ℕ → ℕ → Option Reason
over_budget pool_id none n = none
over_budget pool_id (some limit) n = if leb limit n then some (pool_budget pool_id limit) else none

abbrev or_else : Option Reason → Option Reason → Option Reason
or_else none o = o
or_else (some r) o = some r

-- the loop over the pools that a destructive change disrupts
unfoldable pub first_spent : DesiredState → Used → List String → Option Reason
first_spent s u [] = none
first_spent s u (pool_id ∷ rest) =
    or_else (over_budget pool_id (budget pool_id s.pools) (spent pool_id u)) (first_spent s u rest)

-- `_exhausted`
unfoldable pub exhausted : DesiredState → ConvergenceLimits → Bool → Used → Change → Option Reason
exhausted s limits halted u c =
    if halted
    then some is_halted
    else if is_drain_kind c.kind && leb limits.max_drains u.drains
    then some (drain_cap limits.max_drains)
    else if is_rollout_kind c.kind && leb limits.max_replacements u.replacements
    then some (replacement_cap limits.max_replacements)
    else if mutates_host c && leb limits.max_host_mutations u.host_mutations
    then some (host_cap limits.max_host_mutations)
    else if destructive c
    then first_spent s u (disrupted_pools s c)
    else none

abbrev pub one_if : Bool → ℕ
one_if true = 1
one_if false = 0

unfoldable pub charge_pools : List String → Dict ℕ → Dict ℕ
charge_pools [] d = d
charge_pools (pool_id ∷ rest) d =
    charge_pools rest (insert pool_id (or_zero (lookup pool_id d) + 1) d)

-- `_charge`
unfoldable pub charge : DesiredState → Change → Used → Used
charge s c u = record {
  drains = u.drains + one_if (is_drain_kind c.kind);
  replacements = u.replacements + one_if (is_rollout_kind c.kind);
  host_mutations = u.host_mutations + one_if (mutates_host c);
  per_pool = if destructive c then charge_pools (disrupted_pools s c) u.per_pool else u.per_pool;
}

-- One round of the loop: the candidate waits or is submitted and charged; `rest` is what follows.
abbrev pub settle :
    DesiredState
    → Change
    → Used
    → (Used → List Change × List Deferred)
    → Option Reason
    → List Change × List Deferred
settle s c u rest (some why) =
    let (submitted, waiting) = rest u in (submitted, record { change = c; reason = why } ∷ waiting)
settle s c u rest none = let (submitted, waiting) = rest (charge s c u) in (c ∷ submitted, waiting)

module _ (s : DesiredState) (limits : ConvergenceLimits) (halted : Bool) where
  unfoldable pub bound_from : List Change → Used → List Change × List Deferred
  bound_from [] u = ([], [])
  bound_from (c ∷ cs) u = settle s c u (bound_from cs) (exhausted s limits halted u c)

  unfoldable pub bound_candidates :
      List Change → Result ReconcileError (List Change × List Deferred)
  bound_candidates candidates = do
    ordered ← validated_candidates candidates
    ok (bound_from ordered unused)
