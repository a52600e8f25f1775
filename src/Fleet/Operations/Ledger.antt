-- ===== src/Fleet/Operations/Ledger.antt =====
-- operations.py, `OperationLedger`: the operations that were issued and the receipt each may have.
use aiggp_agentic_framework.Base.{
  String, Bool, true, false, ◌&&◌, Option, none, some, List, [], ◌∷◌, Result, ok, err, ◌>>=◌, ◌>>◌,
  require, refuse_if, require_some, ◌==◌,
}
use aiggp_agentic_framework.Base.Dict.{Dict, lookup, insert}
use aiggp_agentic_framework.Fleet.Operations.Typed.{
  OperationRefused, widened, not_issued, nothing_to_attest, other_host, already_answered,
  no_receipt, no_contract, Subject, Operation, AgentCapabilities, permit, read_only, kind_text,
  subject_text, contract_operation,
}
use aiggp_agentic_framework.Fleet.Operations.Receipts.{
  AgentReceipt, Evidence, outcome_text, same_receipt,
}

pub record OperationLedger : Type 0 where
  pub issued_operations : Dict Operation
  pub receipts : Dict AgentReceipt

abbrev pub empty_ledger : OperationLedger
empty_ledger = record { issued_operations = []; receipts = [] }

abbrev same_parameters : List (String × String) → List (String × String) → Bool
same_parameters [] [] = true
same_parameters ((a, x) ∷ xs) ((b, y) ∷ ys) =
    let rest = same_parameters xs ys in a == b && (x == y && rest)
same_parameters _ _ = false

-- Equality of the frozen values, field by field.
unfoldable pub same_operation : Operation → Operation → Bool
same_operation o q =
    o.operation_key == q.operation_key
    && (o.host_id == q.host_id
        && (kind_text o.kind == kind_text q.kind
            && (subject_text o.subject.kind == subject_text q.subject.kind
                && (o.subject.subject_id == q.subject.subject_id
                    && (o.issued_at == q.issued_at && same_parameters o.parameters q.parameters)))))

abbrev pub issue_known :
    Operation
    → Option Operation
    → OperationLedger
    → Result OperationRefused (Operation × OperationLedger)
issue_known o (some existing) s = do require (same_operation existing o) widened; ok (existing, s)
issue_known o none s =
    ok (o, record s { issued_operations = insert o.operation_key o s.issued_operations })

-- `OperationLedger.issue`
unfoldable pub issue :
    Operation
    → AgentCapabilities
    → OperationLedger
    → Result OperationRefused (Operation × OperationLedger)
issue o c s = do permit o c; issue_known o (lookup o.operation_key s.issued_operations) s

-- `OperationLedger.issued`
unfoldable pub issued : String → OperationLedger → Result OperationRefused Operation
issued key s = require_some (lookup key s.issued_operations) not_issued

abbrev pub record_known :
    AgentReceipt
    → Option AgentReceipt
    → OperationLedger
    → Result OperationRefused (AgentReceipt × OperationLedger)
record_known r (some existing) s = do
  require (same_receipt existing r) already_answered
  ok (existing, s)
record_known r none s = ok (r, record s { receipts = insert r.operation_key r s.receipts })

-- `OperationLedger.record`
unfoldable pub record_receipt :
    AgentReceipt → OperationLedger → Result OperationRefused (AgentReceipt × OperationLedger)
record_receipt r s = do
  o ← issued r.operation_key s
  refuse_if (read_only o.kind) nothing_to_attest
  require (r.host_id == o.host_id) other_host
  record_known r (lookup r.operation_key s.receipts) s

-- `OperationLedger.receipt`
unfoldable pub receipt : String → OperationLedger → Result OperationRefused AgentReceipt
receipt key s = require_some (lookup key s.receipts) no_receipt

-- What `authoritative_receipt` gives to `build_receipt` of contracts.py.
pub record ContractReceipt : Type 0 where
  pub receipt_id : String
  pub issued_at : String
  pub subject : Subject
  pub operation : String
  pub outcome : String
  pub actor_id : String
  pub evidence : Option Evidence
  pub detail : Option String

unfoldable pub authoritative_receipt :
    String → String → String → String → OperationLedger → Result OperationRefused ContractReceipt
authoritative_receipt key receipt_id issued_at actor_id s = do
  o ← issued key s
  r ← receipt key s
  operation ← require_some (contract_operation o.kind) no_contract
  ok (record {
    receipt_id = receipt_id;
    issued_at = issued_at;
    subject = o.subject;
    operation = operation;
    outcome = outcome_text r.outcome;
    actor_id = actor_id;
    evidence = r.evidence;
    detail = r.detail;
  })

-- Calls of the ledger, and runs of them. A call that raises leaves the ledger.
pub data Call : Type 0 where
  issues : (o : Operation) (c : AgentCapabilities) → Call
  records : (r : AgentReceipt) → Call

abbrev pub after :
    {A : Type 0} → OperationLedger → Result OperationRefused (A × OperationLedger) → OperationLedger
after s (ok (a, t)) = t
after s (err x) = s

unfoldable pub step : Call → OperationLedger → OperationLedger
step (issues o c) s = after s (issue o c s)
step (records r) s = after s (record_receipt r s)

unfoldable pub run : List Call → OperationLedger → OperationLedger
run [] s = s
run (c ∷ cs) s = run cs (step c s)
