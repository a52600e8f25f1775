-- ===== src/Fleet/Reconcile/Observations.antt =====
-- observation.py: what a host reports, and the documents of reports in reconcile.py.
use aiggp_agentic_framework.Base.{
  ℕ, String, Option, none, some, List, [], ◌∷◌, Result, ok, ◌>>=◌, ◌>>◌, require, refuse_if,
  require_some, map_err, length, ◌==◌,
}
use aiggp_agentic_framework.Fleet.Values.{is_identifier}
use aiggp_agentic_framework.Fleet.Wire.{Json, string, array, object, no_member, member, member_of}
use aiggp_agentic_framework.Fleet.Documents.Fields.{
  DocumentError, missing, bad_field, object_of, list_of, shape, text_at, optional_at, read_items,
}
use aiggp_agentic_framework.Fleet.Documents.Write.{items_of, optional_text}

-- `ObservationError` names the field.
pub data ObservationError : Type 0 where
  bad : String → ObservationError

pub record ObservedRunner : Type 0 where
  pub runner_id : String
  pub pool_id : String
  pub started_at : String
  pub job_id : Option String

pub record Observation : Type 0 where
  pub host_id : String
  pub observed_at : String
  pub runners : List ObservedRunner
  pub agent_version : Option String

abbrev not_empty : String → Option String → Result ObservationError (Unit {0})
not_empty place none = ok tt
not_empty place (some s) = refuse_if (s == "") (bad place)

-- `ObservedRunner.__post_init__`
unfoldable pub check_runner : ObservedRunner → Result ObservationError (Unit {0})
check_runner r = do
  require (is_identifier r.runner_id) (bad "observed_runner.runner_id")
  require (is_identifier r.pool_id) (bad "observed_runner.pool_id")
  refuse_if (r.started_at == "") (bad "observed_runner.started_at")
  not_empty "observed_runner.job_id" r.job_id

-- `Observation.__post_init__`
unfoldable pub check_observation : Observation → Result ObservationError (Unit {0})
check_observation o = do
  require (is_identifier o.host_id) (bad "observation.host_id")
  refuse_if (o.observed_at == "") (bad "observation.observed_at")
  not_empty "observation.agent_version" o.agent_version

abbrev pub runner_count : Observation → ℕ
runner_count o = length o.runners

unfoldable pub runner_to_document : ObservedRunner → Json
runner_to_document r = object (
    member "runner_id" (string r.runner_id) (
      member "pool_id" (string r.pool_id) (
        member "started_at" (string r.started_at)
          (member "job_id" (optional_text r.job_id) no_member))))

unfoldable pub observation_to_document : Observation → Json
observation_to_document o = object (
    member "host_id" (string o.host_id) (
      member "observed_at" (string o.observed_at) (
        member "agent_version" (optional_text o.agent_version)
          (member "runners" (array (items_of runner_to_document o.runners)) no_member))))

abbrev field_error : ObservationError → DocumentError
field_error (bad place) = bad_field place

-- A field of the wrong type is refused where it is read; in the source its constructor refuses it.
unfoldable pub runner_from_document : Json → Result DocumentError ObservedRunner
runner_from_document doc = do
  fields ← object_of doc
  shape ("runner_id" ∷ "pool_id" ∷ "started_at" ∷ []) ("job_id" ∷ []) fields
  runner_id ← text_at "runner_id" fields
  pool_id ← text_at "pool_id" fields
  started_at ← text_at "started_at" fields
  job_id ← optional_at "job_id" fields
  let r : ObservedRunner = record {
    runner_id = runner_id;
    pool_id = pool_id;
    started_at = started_at;
    job_id = job_id;
  }
  map_err field_error (check_runner r)
  ok r

unfoldable pub observation_from_document : Json → Result DocumentError Observation
observation_from_document doc = do
  fields ← object_of doc
  shape ("host_id" ∷ "observed_at" ∷ "runners" ∷ []) ("agent_version" ∷ []) fields
  listed ← require_some (member_of "runners" fields) (missing "runners")
  items ← list_of listed
  runners ← read_items runner_from_document items
  host_id ← text_at "host_id" fields
  observed_at ← text_at "observed_at" fields
  agent_version ← optional_at "agent_version" fields
  let o : Observation = record {
    host_id = host_id;
    observed_at = observed_at;
    runners = runners;
    agent_version = agent_version;
  }
  map_err field_error (check_observation o)
  ok o
