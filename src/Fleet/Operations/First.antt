-- ===== src/Fleet/Operations/First.antt =====
-- operations.py: the first receipt of an operation.
use aiggp_agentic_framework.Base.{
  true, Option, none, some, List, ok, >>=-eq-ok, ok-pair, require-ok, ◌≡◌, refl, sym, ◌∙◌, arith,
}
use aiggp_agentic_framework.Base.Dict.{lookup, lookup-insert}
use aiggp_agentic_framework.Fleet.Operations.Receipts.{AgentReceipt, same_receipt}
use aiggp_agentic_framework.Fleet.Operations.Ledger.{
  OperationLedger, record_known, record_receipt, Call, run,
}
use aiggp_agentic_framework.Fleet.Operations.Moves.{run-receipt}

record_known-first :
    (r : AgentReceipt) (found : Option AgentReceipt) (s t : OperationLedger) {a : AgentReceipt}
    → lookup r.operation_key s.receipts ≡ found
    → record_known r found s ≡ ok (a, t)
    → lookup r.operation_key t.receipts ≡ some a
record_known-first r (some existing) s t q h =
    let (x1, p1, h1) = >>=-eq-ok _ _ h in let (e, f) = ok-pair _ _ _ _ h1 in rw (← e, ← f) q
record_known-first r none s t q h =
    let (e, f) = ok-pair _ _ _ _ h in
    rw (← e, ← f) (lookup-insert r.operation_key r.operation_key r s.receipts ∙ ground arith)

record_receipt-first :
    (r : AgentReceipt) (s t : OperationLedger) (a : AgentReceipt)
    → record_receipt r s ≡ ok (a, t)
    → lookup r.operation_key t.receipts ≡ some a
unfolding record_receipt
record_receipt-first r s t a h =
    let (o, p1, h1) = >>=-eq-ok _ _ h in
    let (x2, p2, h2) = >>=-eq-ok _ _ h1 in
    let (x3, p3, h3) = >>=-eq-ok _ _ h2 in record_known-first r _ s t refl h3

record_receipt-again :
    (r : AgentReceipt) (s t : OperationLedger) (a b : AgentReceipt)
    → lookup r.operation_key s.receipts ≡ some a
    → record_receipt r s ≡ ok (b, t)
    → (b ≡ a) × (t ≡ s) × (same_receipt a r ≡ true)
unfolding record_receipt
record_receipt-again r s t a b q h =
    let (o, p1, h1) = >>=-eq-ok _ _ h in
    let (x2, p2, h2) = >>=-eq-ok _ _ h1 in
    let (x3, p3, h3) = >>=-eq-ok _ _ h2 in
    let (x4, p4, h4) = >>=-eq-ok _ _ (rw q at h3) in
    let (e, f) = ok-pair _ _ _ _ h4 in (sym e, sym f, require-ok _ _ p4)

-- The first receipt of an operation is its receipt for good: after any further calls, a receipt under
-- the same key is either refused or agrees with the first in every field, and then it is answered with
-- the first and changes nothing.
pub first_receipt_stands :
    (r : AgentReceipt) (s t : OperationLedger) (a : AgentReceipt)
    → record_receipt r s ≡ ok (a, t)
    → (cs : List Call) (r' : AgentReceipt) (b : AgentReceipt) (u : OperationLedger)
    → r'.operation_key ≡ r.operation_key
    → record_receipt r' (run cs t) ≡ ok (b, u)
    → (b ≡ a) × (u ≡ run cs t) × (same_receipt a r' ≡ true)
first_receipt_stands r s t a h cs r' b u same h' =
    record_receipt-again r' (run cs t) u a b
      (rw same (run-receipt r.operation_key a cs t (record_receipt-first r s t a h))) h'
