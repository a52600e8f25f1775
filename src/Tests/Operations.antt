-- ===== src/Tests/Operations.antt =====
-- A ledger that issues one operation and takes its receipt.
use aiggp_agentic_framework.Base.{
  ◌≡◌, refl, true, false, none, List, [], ◌∷◌, ok, ◌>>=◌, string_dec,
}
use aiggp_agentic_framework.Base.Dict.{lookup, insert}
use aiggp_agentic_framework.Fleet.Values.{Runtime}
use aiggp_agentic_framework.Fleet.Operations.Typed.{
  OperationKind, SubjectKind, Operation, AgentCapabilities, permit, permits,
}
use aiggp_agentic_framework.Fleet.Operations.Receipts.{AgentReceipt, ReceiptOutcome, same_receipt}
use aiggp_agentic_framework.Fleet.Operations.Ledger.{
  OperationLedger, empty_ledger, issue, issued, record_receipt, Call, issues, records, step, run,
}
use aiggp_agentic_framework.Fleet.Operations.Backed.{IsBacked, run-IsBacked}
use aiggp_agentic_framework.Fleet.Operations.First.{first_receipt_stands}

abbrev operation : Operation
operation = record {
  operation_key = "op1";
  host_id = "h1";
  kind = OperationKind.destroy_runner;
  subject = record { kind = SubjectKind.runner; subject_id = "r1" };
  issued_at = "t1";
  parameters = [];
}

abbrev agent : AgentCapabilities
agent = record {
  adapters = Runtime.docker ∷ [];
  operations = OperationKind.destroy_runner ∷ [];
  allow_cancel_or_timeout = false;
}

abbrev failure : AgentReceipt
failure = record {
  operation_key = "op1";
  host_id = "h1";
  outcome = ReceiptOutcome.failed;
  finished_at = "t2";
  evidence = none;
  detail = none;
}

abbrev calls : List Call
calls = issues operation agent ∷ records failure ∷ []

abbrev issued_ledger : OperationLedger
issued_ledger = record { issued_operations = ("op1", operation) ∷ []; receipts = [] }

abbrev full_ledger : OperationLedger
full_ledger = record issued_ledger { receipts = ("op1", failure) ∷ [] }

records_failure : record_receipt failure issued_ledger ≡ ok (failure, full_ledger)
unfolding record_receipt issued lookup insert ◌>>=◌ string_dec
records_failure = refl

calls_to : run calls empty_ledger ≡ full_ledger
unfolding run step issue permit permits record_receipt issued lookup insert ◌>>=◌ string_dec
calls_to = refl

run-IsBacked_example : IsBacked (run calls empty_ledger) "op1" failure
unfolding lookup string_dec
run-IsBacked_example = run-IsBacked calls "op1" failure (rw calls_to refl)

again_failure : record_receipt failure (run calls full_ledger) ≡ ok (failure, full_ledger)
unfolding run step issue permit permits record_receipt issued lookup insert ◌>>=◌ string_dec
    same_receipt aiggp_agentic_framework.Fleet.Operations.Ledger.same_operation
again_failure = refl

first_receipt_stands_example :
    (failure ≡ failure)
    × (full_ledger ≡ run calls full_ledger)
    × (same_receipt failure failure ≡ true)
first_receipt_stands_example =
    first_receipt_stands failure issued_ledger full_ledger failure records_failure calls failure
      failure full_ledger refl again_failure
