-- ===== src/Fleet/Operations/Receipts.antt =====
-- operations.py: evidence and an agent's receipt for one operation.
use aiggp_agentic_framework.Base.{
  String, Bool, true, false, ◌&&◌, Option, none, some, Result, ok, ◌>>◌, require, refuse_if,
  map_err, length, ltb, ◌==◌,
}
use aiggp_agentic_framework.Base.Text.{codes}
use aiggp_agentic_framework.Fleet.Values.{is_identifier, is_request_id, is_digest}
use aiggp_agentic_framework.Fleet.Wire.{Platform}
use aiggp_agentic_framework.Fleet.Channel.Credentials.{timestamp}
use aiggp_agentic_framework.Fleet.Operations.Typed.{OperationRefused, bad, secret_value, max_value}

pub data ReceiptOutcome : Type 0 where
  completed failed rejected : ReceiptOutcome

abbrev pub outcome_text : ReceiptOutcome → String
outcome_text completed = "completed"
outcome_text failed = "failed"
outcome_text rejected = "rejected"

pub record Evidence : Type 0 where
  pub digest : String
  pub location : String

unfoldable pub check_evidence : Evidence → Result OperationRefused (Unit {0})
check_evidence e = do
  require (is_digest e.digest) (bad "evidence.digest")
  refuse_if (e.location == "") (bad "evidence.location")
  refuse_if (ltb max_value (length (codes e.location))) (bad "evidence.location")

pub record AgentReceipt : Type 0 where
  pub operation_key : String
  pub host_id : String
  pub outcome : ReceiptOutcome
  pub finished_at : String
  pub evidence : Option Evidence
  pub detail : Option String

abbrev pub has_evidence : ReceiptOutcome → Option Evidence → Bool
has_evidence completed none = false
has_evidence _ _ = true

module _ (p : Platform) (secret_shaped : String → Bool) where
  abbrev check_detail : Option String → Result OperationRefused (Unit {0})
  check_detail none = ok tt
  check_detail (some line) = do
    refuse_if (line == "") (bad "receipt.detail")
    refuse_if (ltb max_value (length (codes line))) (bad "receipt.detail")
    refuse_if (secret_shaped line) (secret_value "receipt.detail")

  -- `AgentReceipt.__post_init__`
  unfoldable pub check_receipt : AgentReceipt → Result OperationRefused (Unit {0})
  check_receipt r = do
    require (is_request_id r.operation_key) (bad "receipt.operation_key")
    require (is_identifier r.host_id) (bad "receipt.host_id")
    map_err (λ e. bad "receipt.finished_at") (timestamp p r.finished_at "receipt.finished_at")
    require (has_evidence r.outcome r.evidence) (bad "receipt.evidence")
    check_detail r.detail

-- Equality of the frozen values, field by field.
abbrev same_evidence : Option Evidence → Option Evidence → Bool
same_evidence none none = true
same_evidence (some e) (some f) = e.digest == f.digest && e.location == f.location
same_evidence _ _ = false

abbrev same_detail : Option String → Option String → Bool
same_detail none none = true
same_detail (some x) (some y) = x == y
same_detail _ _ = false

unfoldable pub same_receipt : AgentReceipt → AgentReceipt → Bool
same_receipt r s =
    r.operation_key == s.operation_key
    && (r.host_id == s.host_id
        && (outcome_text r.outcome == outcome_text s.outcome
            && (r.finished_at == s.finished_at
                && (same_evidence r.evidence s.evidence && same_detail r.detail s.detail))))
