-- ===== src/Fleet/Documents/Read.antt =====
-- documents.py: the readers of documents. `instant` parses the instants of the values' constructors.
use aiggp_agentic_framework.Base.{
  ℕ, String, Bool, Option, none, some, List, [], ◌∷◌, Result, ok, ◌>>=◌, ◌>>◌, require, map_err,
  ◌==◌, if◌then◌else◌,
}
use aiggp_agentic_framework.Fleet.Values.{
  TrustClass, public, private, isolated, Runtime, docker, podman, Repository, Pool, HostState, Host,
  Assignment, DrainState, Drain, RolloutState, Rollout, check_repository, check_pool, check_host,
  check_assignment, check_drain, check_rollout,
}
use aiggp_agentic_framework.Fleet.Desired.{DesiredState, check_state}
use aiggp_agentic_framework.Fleet.Wire.{Json, boolean, null, string, array, no_item, Members}
use aiggp_agentic_framework.Fleet.Documents.Fields.{
  DocumentError, wrong_schema, invalid, object_of, shape, open_document, as_flag, at_or, text_at,
  number_at, optional_at, list_of, read_items, texts_at, labels_at, choice,
}
use aiggp_agentic_framework.Fleet.Documents.Write.{document_schema}

abbrev pub trust_named : String → Option TrustClass
trust_named s =
    if s == "public"
    then some public
    else if s == "private"
    then some private
    else if s == "isolated"
    then some isolated
    else none

abbrev pub runtime_named : String → Option Runtime
runtime_named s = if s == "docker" then some docker else if s == "podman" then some podman else none

abbrev pub host_state_named : String → Option HostState
host_state_named s =
    if s == "active"
    then some HostState.active
    else if s == "draining"
    then some HostState.draining
    else if s == "drained"
    then some HostState.drained
    else if s == "maintenance"
    then some HostState.maintenance
    else none

abbrev pub drain_state_named : String → Option DrainState
drain_state_named s =
    if s == "draining"
    then some DrainState.draining
    else if s == "drained"
    then some DrainState.drained
    else if s == "ended"
    then some DrainState.ended
    else none

abbrev pub rollout_state_named : String → Option RolloutState
rollout_state_named s =
    if s == "in_progress"
    then some RolloutState.in_progress
    else if s == "completed"
    then some RolloutState.completed
    else if s == "rolled_back"
    then some RolloutState.rolled_back
    else none

abbrev pub runtime_of : Json → Result DocumentError Runtime
runtime_of value = choice runtime_named "runtimes" value

unfoldable pub repository_from_document : Json → Result DocumentError Repository
repository_from_document doc = do
  fields ← open_document ("name" ∷ "trust_class" ∷ []) ("runner_group" ∷ []) doc
  name ← text_at "name" fields
  trust_class ← choice trust_named "trust_class" (at_or null "trust_class" fields)
  runner_group ← optional_at "runner_group" fields
  let r : Repository = record {
    name = name;
    trust_class = trust_class;
    runner_group = runner_group;
  }
  map_err invalid (check_repository r)
  ok r

abbrev pub pool_required : List String
pool_required =
    "pool_id" ∷ "revision" ∷ "trust_class" ∷ "required_labels" ∷ "runtime" ∷ "image_digest"
    ∷ "architectures" ∷ "warm_min" ∷ "warm_max" ∷ "scale_ceiling" ∷ "idle_timeout_seconds"
    ∷ "job_timeout_seconds" ∷ "cleanup_timeout_seconds" ∷ "network_profile" ∷ "filesystem_profile"
    ∷ "secret_profile" ∷ "update_channel" ∷ "rollback_image_digest" ∷ "maintenance_window"
    ∷ "disruption_budget" ∷ "owner" ∷ "escalation" ∷ []

unfoldable pub pool_from_document : Json → Result DocumentError Pool
pool_from_document doc = do
  fields ←
      open_document pool_required ("allowed_repositories" ∷ "runner_group" ∷ "ephemeral" ∷ []) doc
  budget ← object_of (at_or null "disruption_budget" fields)
  shape ("max_parallel" ∷ []) [] budget
  pool_id ← text_at "pool_id" fields
  revision ← number_at "revision" fields
  trust_class ← choice trust_named "trust_class" (at_or null "trust_class" fields)
  allowed_repositories ← texts_at "allowed_repositories" (array no_item) fields
  runner_group ← optional_at "runner_group" fields
  required_labels ← labels_at "required_labels" fields
  runtime ← choice runtime_named "runtime" (at_or null "runtime" fields)
  image_digest ← text_at "image_digest" fields
  architectures ← texts_at "architectures" null fields
  ephemeral ← as_flag "ephemeral" (at_or (boolean Bool.true) "ephemeral" fields)
  warm_min ← number_at "warm_min" fields
  warm_max ← number_at "warm_max" fields
  scale_ceiling ← number_at "scale_ceiling" fields
  idle_timeout_seconds ← number_at "idle_timeout_seconds" fields
  job_timeout_seconds ← number_at "job_timeout_seconds" fields
  cleanup_timeout_seconds ← number_at "cleanup_timeout_seconds" fields
  network_profile ← text_at "network_profile" fields
  filesystem_profile ← text_at "filesystem_profile" fields
  secret_profile ← text_at "secret_profile" fields
  update_channel ← text_at "update_channel" fields
  rollback_image_digest ← text_at "rollback_image_digest" fields
  maintenance_window ← text_at "maintenance_window" fields
  max_parallel ← number_at "max_parallel" budget
  owner ← text_at "owner" fields
  escalation ← text_at "escalation" fields
  let p : Pool = record {
    pool_id = pool_id;
    revision = revision;
    trust_class = trust_class;
    required_labels = required_labels;
    runtime = runtime;
    image_digest = image_digest;
    architectures = architectures;
    warm_min = warm_min;
    warm_max = warm_max;
    scale_ceiling = scale_ceiling;
    idle_timeout_seconds = idle_timeout_seconds;
    job_timeout_seconds = job_timeout_seconds;
    cleanup_timeout_seconds = cleanup_timeout_seconds;
    network_profile = network_profile;
    filesystem_profile = filesystem_profile;
    secret_profile = secret_profile;
    update_channel = update_channel;
    rollback_image_digest = rollback_image_digest;
    maintenance_window = maintenance_window;
    max_parallel = max_parallel;
    owner = owner;
    escalation = escalation;
    allowed_repositories = allowed_repositories;
    runner_group = runner_group;
    ephemeral = ephemeral;
  }
  map_err invalid (check_pool p)
  ok p

abbrev host_required : List String
host_required = "host_id" ∷ "architectures" ∷ "runtimes" ∷ "labels" ∷ "allowed_pools" ∷ "slots" ∷ []

unfoldable pub host_from_document : Json → Result DocumentError Host
host_from_document doc = do
  fields ← open_document host_required ("state" ∷ []) doc
  host_id ← text_at "host_id" fields
  architectures ← texts_at "architectures" null fields
  listed ← list_of (at_or null "runtimes" fields)
  runtimes ← read_items runtime_of listed
  labels ← labels_at "labels" fields
  allowed_pools ← texts_at "allowed_pools" null fields
  slots ← number_at "slots" fields
  state ← choice host_state_named "state" (at_or (string "active") "state" fields)
  let h : Host = record {
    host_id = host_id;
    architectures = architectures;
    runtimes = runtimes;
    labels = labels;
    allowed_pools = allowed_pools;
    slots = slots;
    state = state;
  }
  map_err invalid (check_host h)
  ok h

module _ (instant : String → Option ℕ) where
  unfoldable pub assignment_from_document : Json → Result DocumentError Assignment
  assignment_from_document doc = do
    fields ←
        open_document ("assignment_id" ∷ "request_id" ∷ "pool_id" ∷ "host_id" ∷ "issued_at" ∷ [])
          ("released_at" ∷ []) doc
    assignment_id ← text_at "assignment_id" fields
    request_id ← text_at "request_id" fields
    pool_id ← text_at "pool_id" fields
    host_id ← text_at "host_id" fields
    issued_at ← text_at "issued_at" fields
    released_at ← optional_at "released_at" fields
    let a : Assignment = record {
      assignment_id = assignment_id;
      request_id = request_id;
      pool_id = pool_id;
      host_id = host_id;
      issued_at = issued_at;
      released_at = released_at;
    }
    map_err invalid (check_assignment instant a)
    ok a

  unfoldable pub drain_from_document : Json → Result DocumentError Drain
  drain_from_document doc = do
    fields ←
        open_document ("host_id" ∷ "reason" ∷ "requested_at" ∷ [])
          ("state" ∷ "completed_at" ∷ "ended_at" ∷ []) doc
    host_id ← text_at "host_id" fields
    reason ← text_at "reason" fields
    requested_at ← text_at "requested_at" fields
    state ← choice drain_state_named "state" (at_or (string "draining") "state" fields)
    completed_at ← optional_at "completed_at" fields
    ended_at ← optional_at "ended_at" fields
    let d : Drain = record {
      host_id = host_id;
      reason = reason;
      requested_at = requested_at;
      state = state;
      completed_at = completed_at;
      ended_at = ended_at;
    }
    map_err invalid (check_drain instant d)
    ok d

  unfoldable pub rollout_from_document : Json → Result DocumentError Rollout
  rollout_from_document doc = do
    fields ←
        open_document
          ("rollout_id" ∷ "pool_id" ∷ "from_image_digest" ∷ "to_image_digest" ∷ "started_at" ∷ [])
          ("state" ∷ []) doc
    rollout_id ← text_at "rollout_id" fields
    pool_id ← text_at "pool_id" fields
    from_image_digest ← text_at "from_image_digest" fields
    to_image_digest ← text_at "to_image_digest" fields
    started_at ← text_at "started_at" fields
    state ← choice rollout_state_named "state" (at_or (string "in_progress") "state" fields)
    let r : Rollout = record {
      rollout_id = rollout_id;
      pool_id = pool_id;
      from_image_digest = from_image_digest;
      to_image_digest = to_image_digest;
      started_at = started_at;
      state = state;
    }
    map_err invalid (check_rollout instant r)
    ok r

  abbrev pub list_read :
      {A : Type 0}
      → (Json → Result DocumentError A)
      → String
      → Members
      → Result DocumentError (List A)
  list_read read name fields = do
    items ← list_of (at_or (array no_item) name fields)
    read_items read items

  unfoldable pub from_document : Json → Result DocumentError DesiredState
  from_document doc = do
    fields ←
        open_document ("schema" ∷ "revision" ∷ [])
          ("repositories" ∷ "pools" ∷ "hosts" ∷ "assignments" ∷ "drains" ∷ "rollouts" ∷ []) doc
    schema ← text_at "schema" fields
    require (schema == document_schema) wrong_schema
    revision ← number_at "revision" fields
    repositories ← list_read repository_from_document "repositories" fields
    pools ← list_read pool_from_document "pools" fields
    hosts ← list_read host_from_document "hosts" fields
    assignments ← list_read assignment_from_document "assignments" fields
    drains ← list_read drain_from_document "drains" fields
    rollouts ← list_read rollout_from_document "rollouts" fields
    let s : DesiredState = record {
      revision = revision;
      repositories = repositories;
      pools = pools;
      hosts = hosts;
      assignments = assignments;
      drains = drains;
      rollouts = rollouts;
    }
    map_err invalid (check_state s)
    ok s
