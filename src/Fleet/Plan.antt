-- ===== src/Fleet/Plan.antt =====
-- plan.py: a plan is a list of changes against one revision, simulated before anything is done.
pub mod Simulation
use Prim.Native.String.{◌++◌ as ◌<>◌}
use aiggp_agentic_framework.Base.{
  ℕ, zero, suc, ◌+◌, ◌-◌, String, Bool, true, false, not, ◌&&◌, ◌||◌, Option, none, some, List, [],
  ◌∷◌, ◌++◌, Result, ok, err, ◌>>=◌, ◌>>◌, require, refuse_if, map_err, length, any, null, unique,
  map, leb, nat_eq, ◌==◌, if◌then◌else◌,
}
use aiggp_agentic_framework.Base.Text.{sort}
use aiggp_agentic_framework.Base.Dict.{Dict, lookup, insert, keys}
use aiggp_agentic_framework.Fleet.Values.{
  ModelError, Assignment, Drain, Rollout, Capacity, timestamp,
}
use aiggp_agentic_framework.Fleet.Desired.{
  DesiredState, capacity, find_assignment, with_assignment, with_release, with_drain,
  with_drain_complete, with_host_returned, with_rollout,
}

pub data ChangeKind : Type 0 where
  assign release drain complete_drain return_to_service rollout : ChangeKind

-- `DESTRUCTIVE`
abbrev pub destructive_kind : ChangeKind → Bool
destructive_kind release = true
destructive_kind drain = true
destructive_kind complete_drain = true
destructive_kind rollout = true
destructive_kind _ = false

pub data PlanError : Type 0 where
  no_change : PlanError
  bad_change : String → PlanError
  missing : String → PlanError
  impossible : ℕ → ChangeKind → ModelError → PlanError
  malformed : ℕ → ChangeKind → PlanError → PlanError
  not_its_id : PlanError
  wrong_revision : PlanError
  model : ModelError → PlanError

pub record Change : Type 0 where
  pub kind : ChangeKind
  pub subject : String
  pub parameters : List (String × String)

names : List (String × String) → List String
names [] = []
names ((name, value) ∷ rest) = name ∷ names rest

-- `Change.__post_init__`
unfoldable pub check_change : Change → Result PlanError (Unit {0})
unfolding names
check_change c = do
  refuse_if (c.subject == "") (bad_change "change.subject")
  refuse_if (any (λ name. name == "") (names c.parameters)) (bad_change "change.parameters")
  require (unique (names c.parameters)) (bad_change "change.parameters")

abbrev pub destructive : Change → Bool
destructive c = destructive_kind c.kind

value_of : String → List (String × String) → Result PlanError String
value_of name [] = err (missing name)
value_of name ((key, value) ∷ rest) = if key == name then ok value else value_of name rest

unfoldable pub parameter : String → Change → Result PlanError String
unfolding value_of
parameter name c = value_of name c.parameters

-- Code outside the repository: `datetime` reads and prints instants, and `hashlib` digests the
-- canonical JSON of a base revision and its changes.
pub record Outside : Type 0 where
  pub instant : String → Option ℕ
  pub iso : ℕ → String
  pub digest32 : ℕ → List Change → String

assignment_stamps : List Assignment → List String
assignment_stamps [] = []
assignment_stamps (a ∷ rest) =
    a.issued_at
    ∷ elim a.released_at [ none ↦ assignment_stamps rest | some t ↦ t ∷ assignment_stamps rest ]

abbrev given : Option String → List String
given none = []
given (some t) = t ∷ []

drain_stamps : List Drain → List String
drain_stamps [] = []
drain_stamps (d ∷ rest) =
    d.requested_at ∷ (given d.completed_at ++ (given d.ended_at ++ drain_stamps rest))

-- `_state_timestamps`
unfoldable pub state_timestamps : DesiredState → List String
unfolding assignment_stamps drain_stamps
state_timestamps s =
    assignment_stamps s.assignments
    ++ (drain_stamps s.drains ++ map (λ (r : Rollout). r.started_at) s.rollouts)

instants : (String → Option ℕ) → List String → Result ModelError (List ℕ)
instants instant [] = ok []
instants instant (t ∷ ts) = do
  n ← timestamp instant t "plan_clock"
  ns ← instants instant ts
  ok (n ∷ ns)

greatest : ℕ → List ℕ → ℕ
greatest n [] = n
greatest n (m ∷ ms) = greatest (if leb n m then m else n) ms

abbrev plan_clock_floor : String
plan_clock_floor = "1970-01-01T00:00:00+00:00"

abbrev newest : (ℕ → String) → List ℕ → String
newest iso [] = plan_clock_floor
newest iso (n ∷ ns) = iso (greatest n ns)

unfoldable pub plan_clock : Outside → DesiredState → Result ModelError String
unfolding instants greatest state_timestamps
plan_clock out s = do ns ← instants out.instant (state_timestamps s); ok (newest out.iso ns)

-- The branches of `simulate`.
unfoldable pub simulate_kind :
    Outside → ChangeKind → Change → String → DesiredState → Result PlanError DesiredState
simulate_kind out assign c at s = do
  assignment_id ← parameter "assignment_id" c
  request_id ← parameter "request_id" c
  pool_id ← parameter "pool_id" c
  host_id ← parameter "host_id" c
  map_err model (with_assignment out.instant assignment_id request_id pool_id host_id at s)
simulate_kind out release c at s = map_err model (with_release out.instant c.subject at s)
simulate_kind out drain c at s = do
  reason ← parameter "reason" c
  map_err model (with_drain out.instant c.subject reason at s)
simulate_kind out complete_drain c at s =
    map_err model (with_drain_complete out.instant c.subject at s)
simulate_kind out return_to_service c at s =
    map_err model (with_host_returned out.instant c.subject at s)
simulate_kind out rollout c at s = do
  rollout_id ← parameter "rollout_id" c
  to_image_digest ← parameter "to_image_digest" c
  map_err model (with_rollout out.instant rollout_id c.subject to_image_digest at s)

-- `simulate(state, change, at=at)`
unfoldable pub simulate : Outside → String → DesiredState → Change → Result PlanError DesiredState
simulate out at s c = simulate_kind out c.kind c at s

-- `simulate(state, change)`: at the clock of the state
unfoldable pub simulate_now : Outside → DesiredState → Change → Result PlanError DesiredState
simulate_now out s c = do at ← map_err model (plan_clock out s); simulate out at s c

pub record CapacityImpact : Type 0 where
  pub host_id : String
  pub before_free : ℕ
  pub after_free : ℕ

pub record Plan : Type 0 where
  pub plan_id : String
  pub base_revision : ℕ
  pub changes : List Change
  pub impacts : List CapacityImpact
  pub resulting_revision : ℕ

unfoldable pub plan_id_for : Outside → ℕ → List Change → String
plan_id_for out base changes = "plan:" <> out.digest32 base changes

-- `Plan.__post_init__`
unfoldable pub check_plan : Outside → Plan → Result PlanError (Unit {0})
check_plan out p = do
  refuse_if (null p.changes) no_change
  require (p.plan_id == plan_id_for out p.base_revision p.changes) not_its_id
  require (nat_eq p.resulting_revision (p.base_revision + length p.changes)) wrong_revision

abbrev pub destructive_plan : Plan → Bool
destructive_plan p = any destructive p.changes

-- `_free`
unfoldable pub free : DesiredState → String → ℕ
free s id = elim (capacity id s) [ ok c ↦ c.total - c.in_use | err e ↦ 0 ]

-- the host that a change names, looked up in the state for a release
host_of_kind : ChangeKind → Change → DesiredState → Result PlanError (Option String)
host_of_kind assign c s = do host ← parameter "host_id" c; ok (some host)
host_of_kind release c s = do
  a ← map_err model (find_assignment c.subject s.assignments)
  ok (some a.host_id)
host_of_kind rollout c s = ok none
host_of_kind _ c s = ok (some c.subject)

-- an error of `simulate` becomes one that names the change
blame : ℕ → Change → PlanError → PlanError
blame index c (model e) = impossible index c.kind e
blame index c e = malformed index c.kind e

abbrev set_default : String → ℕ → Dict ℕ → Dict ℕ
set_default k v d = elim (lookup k d) [ some w ↦ d | none ↦ insert k v d ]

-- The loop of `build_plan`: the last state, and the free slots of each host before its first
-- change and after its last.
record Impacts : Type 0 where
  working : DesiredState
  first_before : Dict ℕ
  last_after : Dict ℕ

note_impact : Option String → DesiredState → DesiredState → Impacts → Impacts
note_impact none now next i = record i { working = next }
note_impact (some host) now next i = record {
  working = next;
  first_before = set_default host (free now host) i.first_before;
  last_after = insert host (free next host) i.last_after;
}

plan_changes : Outside → ℕ → List Change → Impacts → Result PlanError Impacts
plan_changes out index [] i = ok i
plan_changes out index (c ∷ cs) i = do
  following ← map_err (blame index c) (simulate_now out i.working c)
  host ← host_of_kind c.kind c i.working
  plan_changes out (suc index) cs (note_impact host i.working following i)

abbrev or_else : Option ℕ → ℕ → ℕ
or_else none d = d
or_else (some n) d = n

impact_of : Dict ℕ → Dict ℕ → String → CapacityImpact
impact_of before after host =
    let first = or_else (lookup host before) 0 in
    record { host_id = host; before_free = first; after_free = or_else (lookup host after) first }

unfoldable pub build_plan : Outside → DesiredState → List Change → Result PlanError Plan
unfolding plan_changes impact_of blame host_of_kind note_impact
build_plan out s changes = do
  refuse_if (null changes) no_change
  i ← plan_changes out 0 changes (record { working = s; first_before = []; last_after = [] })
  let plan : Plan = record {
    plan_id = plan_id_for out s.revision changes;
    base_revision = s.revision;
    changes = changes;
    impacts = map (impact_of i.first_before i.last_after) (sort (keys i.first_before));
    resulting_revision = s.revision + length changes;
  }
  check_plan out plan
  ok plan
