-- ===== src/Fleet/Operations/Backed.antt =====
-- operations.py: what stands behind a receipt of the ledger.
use aiggp_agentic_framework.Base.{
  String, false, some, List, [], ◌∷◌, Bool-cases, some-injective, ◌==◌, ==_to_eq, ◌≡◌, sym, ap, ◌∙◌,
  inl, inr,
}
use aiggp_agentic_framework.Base.Dict.{lookup, lookup-insert, lookup-nil}
use aiggp_agentic_framework.Fleet.Operations.Typed.{Operation, read_only}
use aiggp_agentic_framework.Fleet.Operations.Receipts.{AgentReceipt}
use aiggp_agentic_framework.Fleet.Operations.Ledger.{OperationLedger, empty_ledger, Call, step, run}
use aiggp_agentic_framework.Fleet.Operations.Moves.{
  Move, stays, adds_operation, adds_receipt, step-Move, Move-operation,
}

-- The receipt is of an operation that was issued under its key, to its host, and that changes
-- something.
pub record IsBacked (s : OperationLedger) (key : String) (r : AgentReceipt) : Type 0 where
  pub its_key : r.operation_key ≡ key
  pub operation : Operation
  pub was_issued : lookup key s.issued_operations ≡ some operation
  pub to_its_host : r.host_id ≡ operation.host_id
  pub mutates : read_only operation.kind ≡ false

abbrev AllBacked : OperationLedger → Type 0
AllBacked s = (key : String) (r : AgentReceipt) → lookup key s.receipts ≡ some r → IsBacked s key r

Move-IsBacked :
    (s t : OperationLedger) (key : String) (r : AgentReceipt)
    → Move s t
    → IsBacked s key r
    → IsBacked t key r
Move-IsBacked s t key r m b = record {
  its_key = b.its_key;
  operation = b.operation;
  was_issued = Move-operation key b.operation s t m b.was_issued;
  to_its_host = b.to_its_host;
  mutates = b.mutates;
}

Move-AllBacked : (s t : OperationLedger) → Move s t → AllBacked s → AllBacked t
Move-AllBacked s t (stays e) v = rw e v
Move-AllBacked s t (adds_operation q fresh e) v =
    λ key r h. Move-IsBacked s t key r (adds_operation q fresh e) (v key r (rw e at h))
Move-AllBacked s t (adds_receipt q o fresh there same mutates e) v = λ key r h.
    let found = sym (lookup-insert key q.operation_key q s.receipts) ∙ (rw e at h) in
    elim (Bool-cases (q.operation_key == key)) [
      | inl here ↦
          let own : q.operation_key ≡ key = ==_to_eq q.operation_key key here in
          let it : q ≡ r = some-injective (rw here at found) in
          rw (← it) (record {
            its_key = own;
            operation = o;
            was_issued = rw e (ap (λ k. lookup k s.issued_operations) (sym own) ∙ there);
            to_its_host = same;
            mutates = mutates;
          })
      | inr other ↦
          Move-IsBacked s t key r (adds_receipt q o fresh there same mutates e)
            (v key r (rw other at found))
    ]

run-AllBacked : (cs : List Call) (s : OperationLedger) → AllBacked s → AllBacked (run cs s)
unfolding run
run-AllBacked [] s v = v
run-AllBacked (c ∷ cs) s v = run-AllBacked cs (step c s) (Move-AllBacked s _ (step-Move c s) v)

-- After any calls on an empty ledger, every receipt stands under its own operation key, and an
-- operation was issued under that key to the receipt's host that is not read-only.
pub run-IsBacked :
    (cs : List Call) (key : String) (r : AgentReceipt)
    → lookup key (run cs empty_ledger).receipts ≡ some r
    → IsBacked (run cs empty_ledger) key r
run-IsBacked cs =
    run-AllBacked cs empty_ledger
      λ key r h. absurd (let e = lookup-nil {V = AgentReceipt} key in cc)
