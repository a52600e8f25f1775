-- ===== src/Fleet/Values/Hosts.antt =====
-- model.py: hosts, which pools they run, and their capacity.
use aiggp_agentic_framework.Base.{
  ℕ, String, Bool, true, false, not, ◌||◌, Option, none, some, List, [], ◌∷◌, Result, ok, err, ◌>>◌,
  refuse_if, each, null, contains, ltb, ◌==◌, if◌then◌else◌,
}
use aiggp_agentic_framework.Fleet.Values.Rules.{ModelError, bad, identifier, count}
use aiggp_agentic_framework.Fleet.Values.Pools.{Pool, Runtime, docker, podman}

pub data HostState : Type 0 where
  active draining drained maintenance : HostState

pub record Host : Type 0 where
  pub host_id : String
  pub architectures : List String
  pub runtimes : List Runtime
  pub labels : List (String × String)
  pub allowed_pools : List String
  pub slots : ℕ
  pub state : HostState

check_host_label : String × String → Result ModelError (Unit {0})
check_host_label (key, item) = do
  identifier key "host.labels"
  refuse_if (item == "") (bad "host.labels")

unfoldable pub check_host : Host → Result ModelError (Unit {0})
unfolding check_host_label each
check_host h = do
  identifier h.host_id "host.host_id"
  refuse_if (null h.architectures) (bad "host.architectures")
  each (λ arch. identifier arch "host.architectures") h.architectures
  refuse_if (null h.runtimes) (bad "host.runtimes")
  each check_host_label h.labels
  refuse_if (null h.allowed_pools) (bad "host.allowed_pools")
  each (λ p. identifier p "host.allowed_pools") h.allowed_pools
  count h.slots "host.slots" 1

abbrev pub is_active : HostState → Bool
is_active HostState.active = true
is_active _ = false

abbrev pub is_draining_host : HostState → Bool
is_draining_host HostState.draining = true
is_draining_host _ = false

abbrev pub is_drained_host : HostState → Bool
is_drained_host HostState.drained = true
is_drained_host _ = false

abbrev same_runtime : Runtime → Runtime → Bool
same_runtime docker docker = true
same_runtime podman podman = true
same_runtime _ _ = false

pub offers : List Runtime → Runtime → Bool
offers [] r = false
offers (x ∷ xs) r = same_runtime x r || offers xs r

pub intersects : List String → List String → Bool
intersects [] ys = false
intersects (x ∷ xs) ys = contains ys x || intersects xs ys

-- `Host.refusal_for`: why the host cannot run the pool, or nothing when it can
unfoldable pub refusal_for : Host → Pool → Option String
unfolding offers intersects
refusal_for h p =
    if not (is_active h.state)
    then some "host is not active"
    else if not (offers h.runtimes p.runtime)
    then some "host does not offer runtime"
    else if not (intersects p.architectures h.architectures)
    then some "host architectures do not intersect the pool's"
    else if not (contains h.allowed_pools p.pool_id)
    then some "pool is not on the host's allow-list"
    else none

-- Capacity: its constructor refuses a host with more work than slots.
pub record Capacity : Type 0 where
  pub total : ℕ
  pub in_use : ℕ

unfoldable pub make_capacity : ℕ → ℕ → Result ModelError Capacity
make_capacity total in_use =
    if ltb total in_use
    then err (bad "capacity.in_use")
    else ok (record { total = total; in_use = in_use })
