-- ===== src/Fleet/Operations/Typed.antt =====
-- operations.py: operations with a closed set of parameters for each kind, and what an agent may be
-- told to do. `secret_shaped` is the search of audit.py's regular expression in a text.
use aiggp_agentic_framework.Base.{
  ℕ, String, Bool, true, false, not, ◌&&◌, Option, none, some, List, [], ◌∷◌, ◌++◌, Result, ok,
  ◌>>=◌, ◌>>◌, require, refuse_if, map_err, each, map, length, any, null, contains, ltb, ◌==◌,
}
use aiggp_agentic_framework.Base.Text.{codes}
use aiggp_agentic_framework.Base.Sort.{pair_le, sort_by}
use aiggp_agentic_framework.Fleet.Values.{
  Runtime, is_identifier, is_request_id, is_digest, is_reference,
}
use aiggp_agentic_framework.Fleet.Wire.{Platform}
use aiggp_agentic_framework.Fleet.Channel.Credentials.{timestamp}

pub data OperationRefused : Type 0 where
  bad : String → OperationRefused
  shell_shaped not_a_parameter given_twice secret_value : String → OperationRefused
  requires : String → OperationRefused
  no_adapter not_allowed needs_policy : OperationRefused
  widened not_issued nothing_to_attest other_host : OperationRefused
  already_answered no_receipt no_contract : OperationRefused

pub data OperationKind : Type 0 where
  ensure_image create_runner mark_drain destroy_runner : OperationKind
  cancel_or_timeout observe_runner prove_cleanup rollback_adapter : OperationKind

pub data SubjectKind : Type 0 where
  host pool runner : SubjectKind

-- `READ_ONLY`
abbrev pub read_only : OperationKind → Bool
read_only observe_runner = true
read_only prove_cleanup = true
read_only _ = false

-- `_PARAMETERS`: every kind's parameters are required.
abbrev pub kind_parameters : OperationKind → List String
kind_parameters ensure_image = "image_digest" ∷ []
kind_parameters create_runner = "registration_ref" ∷ "runner_name" ∷ "pool_id" ∷ []
kind_parameters mark_drain = "reason" ∷ []
kind_parameters cancel_or_timeout = "reason" ∷ []
kind_parameters rollback_adapter = "image_digest" ∷ []
kind_parameters _ = []

-- `_SUBJECTS`
abbrev pub acts_on : OperationKind → SubjectKind → Bool
acts_on ensure_image host = true
acts_on ensure_image _ = false
acts_on rollback_adapter host = true
acts_on rollback_adapter _ = false
acts_on mark_drain host = true
acts_on _ runner = true
acts_on _ _ = false

-- `_CONTRACT_OPERATION`
abbrev pub contract_operation : OperationKind → Option String
contract_operation ensure_image = some "apply"
contract_operation create_runner = some "assign"
contract_operation mark_drain = some "drain"
contract_operation destroy_runner = some "release"
contract_operation cancel_or_timeout = some "release"
contract_operation rollback_adapter = some "apply"
contract_operation _ = none

-- `_SHELL_SHAPED`
abbrev pub shell_names : List String
shell_names =
    "args" ∷ "argv" ∷ "bash" ∷ "cmd" ∷ "command" ∷ "commands" ∷ "entrypoint" ∷ "env" ∷ "environment"
    ∷ "exec" ∷ "script" ∷ "sh" ∷ "shell" ∷ "stdin" ∷ "stdout" ∷ []

abbrev pub max_value : ℕ
max_value = 512

pub record Subject : Type 0 where
  pub kind : SubjectKind
  pub subject_id : String

unfoldable pub check_subject : Subject → Result OperationRefused (Unit {0})
check_subject s = require (is_identifier s.subject_id) (bad "subject.subject_id")

pub record Operation : Type 0 where
  pub operation_key : String
  pub host_id : String
  pub kind : OperationKind
  pub subject : Subject
  pub issued_at : String
  pub parameters : List (String × String)

module _ (p : Platform) (secret_shaped : String → Bool) where
  -- `_value`
  unfoldable pub value_of : String → String → Result OperationRefused (Unit {0})
  value_of name value = do
    refuse_if (value == "") (bad name)
    refuse_if (ltb max_value (length (codes value))) (bad name)
    refuse_if (secret_shaped value) (secret_value name)

  -- `_checked_value`
  unfoldable pub checked_value : String → String → Result OperationRefused (Unit {0})
  checked_value name value = do
    refuse_if (name == "image_digest" && not (is_digest value)) (bad name)
    refuse_if (name == "registration_ref" && not (is_reference value)) (bad name)
    refuse_if (name == "pool_id" && not (is_identifier value)) (bad name)
    refuse_if (name == "runner_name" && not (is_identifier value)) (bad name)

  abbrev pub names_of : List (String × String) → List String
  names_of pairs = map (λ (pair : String × String). pair.0) pairs

  -- the loop over the parameters, after those that were `seen`
  unfoldable pub check_parameters :
      OperationKind
      → List (String × String)
      → List (String × String)
      → Result OperationRefused (List (String × String))
  check_parameters kind seen [] = ok seen
  check_parameters kind seen ((name, value) ∷ rest) = do
    refuse_if (contains shell_names name) (shell_shaped name)
    require (contains (kind_parameters kind) name) (not_a_parameter name)
    refuse_if (contains (names_of seen) name) (given_twice name)
    value_of name value
    checked_value name value
    check_parameters kind (seen ++ (name, value) ∷ []) rest

  -- `Operation.__post_init__`: the operation with its parameters in order
  unfoldable pub make_operation : Operation → Result OperationRefused Operation
  make_operation o = do
    require (is_request_id o.operation_key) (bad "operation.operation_key")
    require (is_identifier o.host_id) (bad "operation.host_id")
    require (acts_on o.kind o.subject.kind) (bad "operation.subject.kind")
    map_err (λ e. bad "operation.issued_at") (timestamp p o.issued_at "operation.issued_at")
    seen ← check_parameters o.kind [] o.parameters
    each (λ name. require (contains (names_of seen) name) (requires name)) (kind_parameters o.kind)
    ok (record o { parameters = sort_by pair_le seen })

abbrev pub kind_text : OperationKind → String
kind_text ensure_image = "ensure_image"
kind_text create_runner = "create_runner"
kind_text mark_drain = "mark_drain"
kind_text destroy_runner = "destroy_runner"
kind_text cancel_or_timeout = "cancel_or_timeout"
kind_text observe_runner = "observe_runner"
kind_text prove_cleanup = "prove_cleanup"
kind_text rollback_adapter = "rollback_adapter"

abbrev pub subject_text : SubjectKind → String
subject_text host = "host"
subject_text pool = "pool"
subject_text runner = "runner"

pub record AgentCapabilities : Type 0 where
  pub adapters : List Runtime
  pub operations : List OperationKind
  pub allow_cancel_or_timeout : Bool

-- `AgentCapabilities.permits`
unfoldable pub permits : AgentCapabilities → OperationKind → Bool
permits c kind = any (λ k. kind_text k == kind_text kind) c.operations

abbrev pub is_cancel : OperationKind → Bool
is_cancel cancel_or_timeout = true
is_cancel _ = false

unfoldable pub permit : Operation → AgentCapabilities → Result OperationRefused (Unit {0})
permit o c = do
  refuse_if (null c.adapters) no_adapter
  require (permits c o.kind) not_allowed
  refuse_if (is_cancel o.kind && not c.allow_cancel_or_timeout) needs_policy
