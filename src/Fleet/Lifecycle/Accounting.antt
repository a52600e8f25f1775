-- ===== src/Fleet/Lifecycle/Accounting.antt =====
-- lifecycle.py, `AdmissionGate`: the instances that its operations leave waiting.
use aiggp_agentic_framework.Base.{
  String, Bool, true, false, not, ◌&&◌, none, some, List, [], ◌∷◌, ◌++◌, ◌==◌, Result, ok, err,
  ◌>>=◌, >>=-eq-ok, require-ok, require_some-ok, require_some_of, >>=-ok, ok-injective, ◌≡◌, refl,
  sym, ap, ◌∙◌, arith, contains, contains-snoc, some-injective, ==_refl,
}
use aiggp_agentic_framework.Fleet.Values.{is_identifier}
use aiggp_agentic_framework.Fleet.Lifecycle.{
  ErrorKind, policy_denial, cleanup_failure, CleanupEvidence,
}
use aiggp_agentic_framework.Fleet.Lifecycle.Gate.{
  AdmissionGate, add_destroyed, gate_prove, gate_quarantine, GateOperation, destroys, accounts,
  holds_back, gate_operate, gate_operate_all, or_same, others, WarmPool, WarmInstance,
  admit_replacement, check_gate,
}

-- the operation accounts for the instance
abbrev pub concerns : String → GateOperation → Bool
concerns id (destroys i) = false
concerns id (accounts e) = elim e.instance_id [ none ↦ false | some i ↦ i == id ]
concerns id (holds_back q) = elim q.instance_id [ none ↦ false | some i ↦ i == id ]

abbrev pub none_concern : String → List GateOperation → Bool
none_concern id [] = true
none_concern id (o ∷ os) = not (concerns id o) && none_concern id os

others-contains :
    (i id : String) (ids : List String)
    → contains ids id ≡ true
    → (i == id) ≡ false
    → contains (others i ids) id ≡ true
others-contains i id [] h n = h
others-contains i id (x ∷ xs) h n = ground (arith, others-contains i id xs)

others-drops : (id : String) (ids : List String) → contains (others id ids) id ≡ false
others-drops id [] = refl
others-drops id (x ∷ xs) = ground (arith, others-drops id xs)

kept-waiting :
    (id : String) (o : GateOperation) (g h : AdmissionGate)
    → gate_operate o g ≡ ok h
    → concerns id o ≡ false
    → contains g.unaccounted id ≡ true
    → contains h.unaccounted id ≡ true
unfolding gate_operate add_destroyed gate_prove gate_quarantine
kept-waiting id (destroys i) g h p n w =
    let (a, a1, h1) = >>=-eq-ok _ _ p in
    let (b, b1, h2) = >>=-eq-ok _ _ h1 in
    let (c, c1, h3) = >>=-eq-ok _ _ h2 in
    rw (sym (ok-injective _ h h3)) (rw (contains-snoc g.unaccounted id i, w) refl)
kept-waiting id (accounts e) g h p n w =
    let (i, a1, h1) = >>=-eq-ok _ _ p in
    let (b, b1, h2) = >>=-eq-ok _ _ h1 in
    let (c, c1, h3) = >>=-eq-ok _ _ h2 in
    rw (sym (ok-injective _ h h3))
      (others-contains i id g.unaccounted w (rw (require_some-ok _ _ a1) at n))
kept-waiting id (holds_back q) g h p n w =
    let (i, a1, h1) = >>=-eq-ok _ _ p in
    let (b, b1, h2) = >>=-eq-ok _ _ h1 in
    let (c, c1, h3) = >>=-eq-ok _ _ h2 in
    rw (sym (ok-injective _ h h3))
      (others-contains i id g.unaccounted w (rw (require_some-ok _ _ a1) at n))

or_same-waiting :
    (id : String) (o : GateOperation) (g : AdmissionGate) (r : Result ErrorKind AdmissionGate)
    → gate_operate o g ≡ r
    → concerns id o ≡ false
    → contains g.unaccounted id ≡ true
    → contains (or_same g r).unaccounted id ≡ true
or_same-waiting id o g (ok h) p n w = kept-waiting id o g h p n w
or_same-waiting id o g (err e) p n w = w

still_waiting :
    (id : String) (os : List GateOperation) (g : AdmissionGate)
    → none_concern id os ≡ true
    → contains g.unaccounted id ≡ true
    → contains (gate_operate_all os g).unaccounted id ≡ true
unfolding gate_operate_all
still_waiting id [] g n w = w
still_waiting id (o ∷ os) g n w =
    still_waiting id os (or_same g (gate_operate o g)) (ground (arith, n))
      (or_same-waiting id o g (gate_operate o g) refl (ground (arith, n)) w)

destroyed-waiting :
    (id : String) (g h : AdmissionGate)
    → add_destroyed id g ≡ ok h
    → (contains h.unaccounted id ≡ true) × (is_identifier id ≡ true)
unfolding add_destroyed
destroyed-waiting id g h p =
    let (a, a1, h1) = >>=-eq-ok _ _ p in
    let (b, b1, h2) = >>=-eq-ok _ _ h1 in
    let (c, c1, h3) = >>=-eq-ok _ _ h2 in
    (
      rw (sym (ok-injective _ h h3))
          (rw (contains-snoc g.unaccounted id id, ==_refl id) (ground arith)),
      require-ok _ _ a1,
    )

-- Once the gate has recorded an instance as destroyed, a replacement for it is refused by policy,
-- whatever the pool and the new instance, until some operation proves or quarantines that instance.
pub admit_replacement-waits :
    (id : String) (g h : AdmissionGate)
    → add_destroyed id g ≡ ok h
    → (os : List GateOperation) → none_concern id os ≡ true
    → (w : WarmPool) (i : WarmInstance)
    → admit_replacement (gate_operate_all os h) w i (some id) ≡ err policy_denial
unfolding admit_replacement ◌>>=◌
admit_replacement-waits id g h p os n w i =
    let (waits, named) = destroyed-waiting id g h p in
    rw (named, still_waiting id os h n waits) refl

-- An instance whose proof the gate takes is no longer waited for, and any other evidence that names
-- it is taken in the same way, with the same instances left waiting: the disposals that it reports,
-- failed ones included, play no part.
pub gate_prove-accounts :
    (e : CleanupEvidence) (id : String) (g h : AdmissionGate)
    → e.instance_id ≡ some id
    → gate_prove e g ≡ ok h
    → (contains h.unaccounted id ≡ false)
      × ((other : CleanupEvidence)
          → other.instance_id ≡ some id
          → (h' : AdmissionGate) × (gate_prove other g ≡ ok h') × (h'.unaccounted ≡ h.unaccounted))
unfolding gate_prove check_gate
gate_prove-accounts e id g h named p =
    let (i, a1, h1) = >>=-eq-ok _ _ p in
    let (b, b1, h2) = >>=-eq-ok _ _ h1 in
    let (c, c1, h3) = >>=-eq-ok _ _ h2 in
    let same = some-injective (sym (require_some-ok _ _ a1) ∙ named) in
    let left = sym (ap (λ (k : AdmissionGate). k.unaccounted) (ok-injective _ h h3)) in
    (
      rw left (rw same (others-drops id g.unaccounted)),
      λ other named'. (
        record g { unaccounted = others id g.unaccounted; proven = g.proven ++ other ∷ [] },
        >>=-ok _ _ (require_some_of other.instance_id cleanup_failure named')
            ∙ >>=-ok _ _ (rw same at b1)
            ∙ >>=-ok _ _ (rw same at c1),
        rw left (rw same refl),
      ),
    )
