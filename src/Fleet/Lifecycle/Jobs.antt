-- ===== src/Fleet/Lifecycle/Jobs.antt =====
-- lifecycle.py, `JobState` and `JobLifecycle`.
use aiggp_agentic_framework.Base.{
  String, Bool, true, false, not, ◌&&◌, Option, none, some, List, [], ◌∷◌, ◌==◌, Result, ok, err,
  ◌>>◌, require, refuse_if,
}
use aiggp_agentic_framework.Fleet.Values.{is_identifier}
use aiggp_agentic_framework.Fleet.Lifecycle.{
  ErrorKind, invalid_desired_state, cleanup_failure, policy_denial, unknown_state, is_pinned,
  CleanupEvidence, Quarantine, admissible,
}

pub data JobState : Type 0 where
  prepulled assigned running refused completed timed_out cancelled disconnected destroyed
        proven_clean quarantined :
      JobState

-- `_TRANSITIONS`: the second state is among those that follow the first
unfoldable pub follows : JobState → JobState → Bool
follows prepulled assigned = true
follows prepulled destroyed = true
follows assigned running = true
follows assigned refused = true
follows assigned cancelled = true
follows running completed = true
follows running timed_out = true
follows running cancelled = true
follows running disconnected = true
follows refused destroyed = true
follows completed destroyed = true
follows timed_out destroyed = true
follows cancelled destroyed = true
follows disconnected destroyed = true
follows destroyed proven_clean = true
follows destroyed quarantined = true
follows _ _ = false

-- `_JOB_NAMED_STATES`
unfoldable pub names_job : JobState → Bool
names_job prepulled = false
names_job destroyed = false
names_job proven_clean = false
names_job quarantined = false
names_job _ = true

abbrev pub is_prepulled : JobState → Bool
is_prepulled prepulled = true
is_prepulled _ = false

pub record JobLifecycle : Type 0 where
  pub instance_id : String
  pub image_digest : String
  pub state : JobState
  pub job_id : Option String

abbrev pub given {ℓ} : {A : Type ℓ} → Option A → Bool
given none = false
given (some a) = true

-- `JobLifecycle.__post_init__`
unfoldable pub check_lifecycle : JobLifecycle → Result ErrorKind (Unit {0})
check_lifecycle x = do
  require (is_identifier x.instance_id) invalid_desired_state
  require (is_pinned x.image_digest) invalid_desired_state
  refuse_if (is_prepulled x.state && given x.job_id) unknown_state
  refuse_if (names_job x.state && not (given x.job_id)) unknown_state

-- `replace` runs the constructor's checks on the changed value.
abbrev pub checked : JobLifecycle → Result ErrorKind JobLifecycle
checked x = do check_lifecycle x; ok x

-- `_transition`, with the job that the change may name
unfoldable pub transition_to :
    JobState → Option String → JobLifecycle → Result ErrorKind JobLifecycle
transition_to to job x = do
  require (follows x.state to) unknown_state
  checked (record x { state = to; job_id = job })

-- `move`
unfoldable pub move : JobState → JobLifecycle → Result ErrorKind JobLifecycle
move to x = transition_to to x.job_id x

unfoldable pub offer : String → JobLifecycle → Result ErrorKind JobLifecycle
offer job x = do
  require (is_prepulled x.state) policy_denial
  refuse_if (job == "") policy_denial
  require (is_identifier job) policy_denial
  transition_to assigned (some job) x

abbrev pub same : Option String → String → Bool
same none s = false
same (some t) s = t == s

unfoldable pub prove_job : CleanupEvidence → JobLifecycle → Result ErrorKind JobLifecycle
prove_job e x = do
  require (admissible e) cleanup_failure
  require (same e.instance_id x.instance_id) cleanup_failure
  require (same e.image_digest x.image_digest) cleanup_failure
  move proven_clean x

unfoldable pub quarantine_job : Quarantine → JobLifecycle → Result ErrorKind JobLifecycle
quarantine_job q x = do
  require (same q.instance_id x.instance_id) cleanup_failure
  move quarantined x

-- the methods of `JobLifecycle`; `start`, `refuse`, `finish` and `destroy` are moves
pub data Operation : Type 0 where
  offered : (job : String) → Operation
  moves : (to : JobState) → Operation
  proves : (e : CleanupEvidence) → Operation
  quarantines : (q : Quarantine) → Operation

unfoldable pub operate : Operation → JobLifecycle → Result ErrorKind JobLifecycle
operate (offered job) x = offer job x
operate (moves to) x = move to x
operate (proves e) x = prove_job e x
operate (quarantines q) x = quarantine_job q x

abbrev pub or_keep : JobLifecycle → Result ErrorKind JobLifecycle → JobLifecycle
or_keep x (ok y) = y
or_keep x (err e) = x

-- the value after operations, of which a refused one changes nothing
unfoldable pub operate_all : List Operation → JobLifecycle → JobLifecycle
operate_all [] x = x
operate_all (o ∷ os) x = operate_all os (or_keep x (operate o x))
