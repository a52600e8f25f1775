-- ===== src/Fleet/Operations/Moves.antt =====
-- operations.py: what a call of the ledger may write.
use aiggp_agentic_framework.Base.{
  String, false, Option, none, some, List, [], ◌∷◌, ok, >>=-eq-ok, ok-pair, require-ok,
  require_some-ok, refuse_if-ok, Result-cases, Bool-cases, ◌==◌, ==_to_eq, ◌≡◌, refl, sym, ap, ◌∙◌,
  inl, inr,
}
use aiggp_agentic_framework.Base.Dict.{Dict, lookup, insert, lookup-insert}
use aiggp_agentic_framework.Fleet.Operations.Typed.{Operation, AgentCapabilities, read_only}
use aiggp_agentic_framework.Fleet.Operations.Receipts.{AgentReceipt}
use aiggp_agentic_framework.Fleet.Operations.Ledger.{
  OperationLedger, issue_known, issue, issued, record_known, record_receipt, Call, issues, records,
  step, run,
}

-- What a call may write.
pub data Move (s t : OperationLedger) : Type 0 where
  stays : t ≡ s → Move s t
  adds_operation :
      (o : Operation)
      → lookup o.operation_key s.issued_operations ≡ none
      → t ≡ record s { issued_operations = insert o.operation_key o s.issued_operations }
      → Move s t
  adds_receipt :
      (r : AgentReceipt) (o : Operation)
      → lookup r.operation_key s.receipts ≡ none
      → lookup r.operation_key s.issued_operations ≡ some o
      → r.host_id ≡ o.host_id
      → read_only o.kind ≡ false
      → t ≡ record s { receipts = insert r.operation_key r s.receipts }
      → Move s t

issue_known-Move :
    (o : Operation) (found : Option Operation) (s t : OperationLedger) {a : Operation}
    → lookup o.operation_key s.issued_operations ≡ found
    → issue_known o found s ≡ ok (a, t)
    → Move s t
issue_known-Move o (some existing) s t q h =
    let (x1, p1, h1) = >>=-eq-ok _ _ h in stays (sym (ok-pair _ _ _ _ h1).1)
issue_known-Move o none s t q h = adds_operation o q (sym (ok-pair _ _ _ _ h).1)

issue-Move :
    (o : Operation) (c : AgentCapabilities) (s t : OperationLedger) {a : Operation}
    → issue o c s ≡ ok (a, t)
    → Move s t
unfolding issue
issue-Move o c s t h = let (x1, p1, h1) = >>=-eq-ok _ _ h in issue_known-Move o _ s t refl h1

record_known-Move :
    (r : AgentReceipt) (o : Operation) (found : Option AgentReceipt) (s t : OperationLedger)
    {a : AgentReceipt}
    → lookup r.operation_key s.receipts ≡ found
    → lookup r.operation_key s.issued_operations ≡ some o
    → r.host_id ≡ o.host_id
    → read_only o.kind ≡ false
    → record_known r found s ≡ ok (a, t)
    → Move s t
record_known-Move r o (some existing) s t q there same mutates h =
    let (x1, p1, h1) = >>=-eq-ok _ _ h in stays (sym (ok-pair _ _ _ _ h1).1)
record_known-Move r o none s t q there same mutates h =
    adds_receipt r o q there same mutates (sym (ok-pair _ _ _ _ h).1)

record_receipt-Move :
    (r : AgentReceipt) (s t : OperationLedger) {a : AgentReceipt}
    → record_receipt r s ≡ ok (a, t)
    → Move s t
unfolding record_receipt issued
record_receipt-Move r s t h =
    let (o, p1, h1) = >>=-eq-ok _ _ h in
    let (x2, p2, h2) = >>=-eq-ok _ _ h1 in
    let (x3, p3, h3) = >>=-eq-ok _ _ h2 in
    record_known-Move r o _ s t refl (require_some-ok _ _ p1) (==_to_eq _ _ (require-ok _ _ p3))
      (refuse_if-ok _ _ p2) h3

pub step-Move : (c : Call) (s : OperationLedger) → Move s (step c s)
unfolding step
step-Move (issues o c) s = elim (Result-cases (issue o c s)) [
  | inl ((a, t), e) ↦ rw e (issue-Move o c s t e)
  | inr (x, e) ↦ rw e (stays refl)
]
step-Move (records r) s = elim (Result-cases (record_receipt r s)) [
  | inl ((a, t), e) ↦ rw e (record_receipt-Move r s t e)
  | inr (x, e) ↦ rw e (stays refl)
]

-- A key that is taken keeps its value when another, new one is added.
insert-kept :
    {A : Type 0} (key other : String) (a b : A) (d : Dict A)
    → lookup key d ≡ some a
    → lookup other d ≡ none
    → lookup key (insert other b d) ≡ some a
insert-kept key other a b d here fresh = elim (Bool-cases (other == key)) [
  | inl same ↦ let e = ap (λ k. lookup k d) (==_to_eq other key same) in absurd (cc)
  | inr differ ↦ lookup-insert key other b d ∙ rw differ here
]

pub Move-operation :
    (key : String) (o : Operation) (s t : OperationLedger)
    → Move s t
    → lookup key s.issued_operations ≡ some o
    → lookup key t.issued_operations ≡ some o
Move-operation key o s t (stays e) h = rw e h
Move-operation key o s t (adds_operation q fresh e) h =
    rw e (insert-kept key q.operation_key o q s.issued_operations h fresh)
Move-operation key o s t (adds_receipt r q fresh there same mutates e) h = rw e h

pub Move-receipt :
    (key : String) (r : AgentReceipt) (s t : OperationLedger)
    → Move s t
    → lookup key s.receipts ≡ some r
    → lookup key t.receipts ≡ some r
Move-receipt key r s t (stays e) h = rw e h
Move-receipt key r s t (adds_operation q fresh e) h = rw e h
Move-receipt key r s t (adds_receipt q o fresh there same mutates e) h =
    rw e (insert-kept key q.operation_key r q s.receipts h fresh)

pub run-receipt :
    (key : String) (r : AgentReceipt) (cs : List Call) (s : OperationLedger)
    → lookup key s.receipts ≡ some r
    → lookup key (run cs s).receipts ≡ some r
unfolding run
run-receipt key r [] s h = h
run-receipt key r (c ∷ cs) s h =
    run-receipt key r cs (step c s) (Move-receipt key r s _ (step-Move c s) h)
