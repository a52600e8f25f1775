-- ===== src/Fleet/Desired.antt =====
-- model.py: `DesiredState`, one complete world at one revision, with its lookups and its
-- transitions. A transition returns a new world at the next revision, whose constructor checks it.
pub mod Spec
pub mod Steps
pub mod Soundness
pub mod Occupancy
use aiggp_agentic_framework.Base.{
  ℕ, ◌+◌, ◌-◌, String, Bool, true, false, not, ◌&&◌, ◌||◌, Option, none, some, List, [], ◌∷◌, ◌++◌,
  Result, ok, err, ◌>>=◌, ◌>>◌, require, refuse_if, each, contains, unique, any, keep, map, nat_eq,
  ◌==◌, if◌then◌else◌,
}
use aiggp_agentic_framework.Fleet.Values.{
  ModelError, bad, unknown, duplicate, refused, digest, text, count, timestamp, Repository, Pool,
  Host, HostState, Assignment, Drain, DrainState, Rollout, RolloutState, Capacity, check_pool,
  check_host, check_assignment, check_drain, check_rollout, make_capacity, with_image, refusal_for,
  is_active, is_draining_host, is_drained_host, is_assigned, is_draining, is_drained, is_ended,
}

pub record DesiredState : Type 0 where
  pub revision : ℕ
  pub repositories : List Repository
  pub pools : List Pool
  pub hosts : List Host
  pub assignments : List Assignment
  pub drains : List Drain
  pub rollouts : List Rollout

abbrev pub pool_ids : DesiredState → List String
pool_ids s = map (λ (p : Pool). p.pool_id) s.pools

abbrev pub host_ids : DesiredState → List String
host_ids s = map (λ (h : Host). h.host_id) s.hosts

abbrev pub assignment_ids : DesiredState → List String
assignment_ids s = map (λ (a : Assignment). a.assignment_id) s.assignments

check_assignment_links : List String → List String → Assignment → Result ModelError (Unit {0})
check_assignment_links pools hosts a = do
  require (contains pools a.pool_id) (unknown "desired_state.assignments" a.pool_id)
  require (contains hosts a.host_id) (unknown "desired_state.assignments" a.host_id)

-- `DesiredState.__post_init__`
unfoldable pub check_state : DesiredState → Result ModelError (Unit {0})
unfolding each check_assignment_links
check_state s = do
  count s.revision "desired_state.revision" 1
  require (unique (map (λ (r : Repository). r.name) s.repositories)) (duplicate "name")
  require (unique (pool_ids s)) (duplicate "pool_id")
  require (unique (host_ids s)) (duplicate "host_id")
  require (unique (assignment_ids s)) (duplicate "assignment_id")
  require (unique (map (λ (r : Rollout). r.rollout_id) s.rollouts)) (duplicate "rollout_id")
  each (check_assignment_links (pool_ids s) (host_ids s)) s.assignments
  each
      (λ (d : Drain).
        require (contains (host_ids s) d.host_id) (unknown "desired_state.drains" d.host_id))
      s.drains
  each
      (λ (r : Rollout).
        require (contains (pool_ids s) r.pool_id) (unknown "desired_state.rollouts" r.pool_id))
      s.rollouts

-- Lookups: the first value with the id.
unfoldable pub find_pool : String → List Pool → Result ModelError Pool
find_pool id [] = err (unknown "pool" id)
find_pool id (p ∷ ps) = if p.pool_id == id then ok p else find_pool id ps

unfoldable pub find_host : String → List Host → Result ModelError Host
find_host id [] = err (unknown "host" id)
find_host id (h ∷ hs) = if h.host_id == id then ok h else find_host id hs

unfoldable pub find_assignment : String → List Assignment → Result ModelError Assignment
find_assignment id [] = err (unknown "assignment" id)
find_assignment id (a ∷ rest) = if a.assignment_id == id then ok a else find_assignment id rest

-- `active_drain` goes through the drains from the last
last_drain : String → List Drain → Option Drain → Option Drain
last_drain id [] found = found
last_drain id (d ∷ ds) found =
    last_drain id ds (if d.host_id == id && not (is_ended d.state) then some d else found)

unfoldable pub active_drain : String → DesiredState → Option Drain
unfolding last_drain
active_drain id s = last_drain id s.drains none

-- How many assignments of the host are not released.
unfoldable pub in_use : String → List Assignment → ℕ
in_use id [] = 0
in_use id (a ∷ rest) = (if a.host_id == id && is_assigned a then 1 else 0) + in_use id rest

unfoldable pub capacity : String → DesiredState → Result ModelError Capacity
capacity id s = do host ← find_host id s.hosts; make_capacity host.slots (in_use id s.assignments)

-- `_bumped`
unfoldable pub bumped : DesiredState → Result ModelError DesiredState
bumped s = let t = record s { revision = s.revision + 1 } in do check_state t; ok t

-- `_with_host` and `_with_pool`: each value replaced is checked again by its constructor.
unfoldable pub set_host_state : String → HostState → List Host → List Host
set_host_state id st [] = []
set_host_state id st (h ∷ hs) =
    (if h.host_id == id then record h { state = st } else h) ∷ set_host_state id st hs

unfoldable pub set_image : String → Pool → List Pool → List Pool
set_image id q [] = []
set_image id q (p ∷ ps) =
    (if p.pool_id == id
      then record p {
        revision = q.revision;
        image_digest = q.image_digest;
        rollback_image_digest = q.rollback_image_digest;
      }
      else p)
    ∷ set_image id q ps

unfoldable pub with_host : String → HostState → List Host → Result ModelError (List Host)
with_host id st hosts =
    let replaced = set_host_state id st hosts in
    do each check_host (keep (λ (h : Host). h.host_id == id) replaced); ok replaced

unfoldable pub with_pool : String → Pool → List Pool → Result ModelError (List Pool)
with_pool id q pools =
    let replaced = set_image id q pools in
    do each check_pool (keep (λ (p : Pool). p.pool_id == id) replaced); ok replaced

unfoldable pub release : String → String → List Assignment → List Assignment
release id at [] = []
release id at (a ∷ rest) =
    (if a.assignment_id == id then record a { released_at = some at } else a) ∷ release id at rest

-- the drains of one host that are in one state, moved to the next
abbrev pub complete_drain : String → String → Drain → Drain
complete_drain id at d =
    if d.host_id == id && is_draining d.state
    then record d { state = DrainState.drained; completed_at = some at }
    else d

abbrev pub end_drain : String → String → Drain → Drain
end_drain id at d =
    if d.host_id == id && is_drained d.state
    then record d { state = DrainState.ended; ended_at = some at }
    else d

abbrev pub refuse_some : Option String → Result ModelError (Unit {0})
refuse_some none = ok tt
refuse_some (some reason) = err (refused reason)

module _ (instant : String → Option ℕ) where
  unfoldable pub with_assignment :
      String → String → String → String → String → DesiredState → Result ModelError DesiredState
  with_assignment assignment_id request_id pool_id host_id at s = do
    pool ← find_pool pool_id s.pools
    host ← find_host host_id s.hosts
    refuse_some (refusal_for host pool)
    room ← capacity host_id s
    refuse_if (nat_eq (room.total - room.in_use) 0) (refused "host is at capacity")
    let assignment : Assignment = record {
      assignment_id = assignment_id;
      request_id = request_id;
      pool_id = pool_id;
      host_id = host_id;
      issued_at = at;
      released_at = none;
    }
    check_assignment instant assignment
    refuse_if (contains (assignment_ids s) assignment_id) (refused "assignment already exists")
    bumped (record s { assignments = s.assignments ++ assignment ∷ [] })

  unfoldable pub with_release : String → String → DesiredState → Result ModelError DesiredState
  with_release assignment_id at s = do
    assignment ← find_assignment assignment_id s.assignments
    require (is_assigned assignment) (refused "already released")
    timestamp instant at "release.at"
    let releases = release assignment_id at s.assignments
    each (check_assignment instant)
        (keep (λ (a : Assignment). a.assignment_id == assignment_id) releases)
    bumped (record s { assignments = releases })

  unfoldable pub with_drain :
      String → String → String → DesiredState → Result ModelError DesiredState
  with_drain host_id reason at s = do
    host ← find_host host_id s.hosts
    require (is_active host.state) (refused "drain")
    let drain : Drain = record {
      host_id = host_id;
      reason = reason;
      requested_at = at;
      state = DrainState.draining;
      completed_at = none;
      ended_at = none;
    }
    check_drain instant drain
    hosts ← with_host host_id HostState.draining s.hosts
    bumped (record s { hosts = hosts; drains = s.drains ++ drain ∷ [] })

  unfoldable pub with_drain_complete :
      String → String → DesiredState → Result ModelError DesiredState
  with_drain_complete host_id at s = do
    host ← find_host host_id s.hosts
    require (is_draining_host host.state) (refused "drain completion")
    room ← capacity host_id s
    require (nat_eq room.in_use 0) (refused "assignments still on the host")
    let drains = map (complete_drain host_id at) s.drains
    each (check_drain instant) (
        map (complete_drain host_id at)
          (keep (λ (d : Drain). d.host_id == host_id && is_draining d.state) s.drains))
    hosts ← with_host host_id HostState.drained s.hosts
    bumped (record s { hosts = hosts; drains = drains })

  unfoldable pub with_host_returned :
      String → String → DesiredState → Result ModelError DesiredState
  with_host_returned host_id at s = do
    host ← find_host host_id s.hosts
    require (is_drained_host host.state) (refused "return")
    let drains = map (end_drain host_id at) s.drains
    each (check_drain instant) (
        map (end_drain host_id at)
          (keep (λ (d : Drain). d.host_id == host_id && is_drained d.state) s.drains))
    hosts ← with_host host_id HostState.active s.hosts
    bumped (record s { hosts = hosts; drains = drains })

  unfoldable pub with_rollout :
      String → String → String → String → DesiredState → Result ModelError DesiredState
  with_rollout rollout_id pool_id to_image_digest at s = do
    pool ← find_pool pool_id s.pools
    digest to_image_digest "rollout.to_image_digest"
    refuse_if (to_image_digest == pool.image_digest) (refused "the pool already runs that image")
    let rollout : Rollout = record {
      rollout_id = rollout_id;
      pool_id = pool_id;
      from_image_digest = pool.image_digest;
      to_image_digest = to_image_digest;
      started_at = at;
      state = RolloutState.in_progress;
    }
    check_rollout instant rollout
    let updated = with_image to_image_digest pool.image_digest pool
    check_pool updated
    pools ← with_pool pool_id updated s.pools
    bumped (record s { pools = pools; rollouts = s.rollouts ++ rollout ∷ [] })
