-- ===== src/Fleet/Lifecycle/Gate.antt =====
-- lifecycle.py, `AdmissionGate` and `admit_replacement`, and adapters.py, `WarmPool`.
use aiggp_agentic_framework.Base.{
  nat_eq, String, Bool, true, false, not, Option, none, some, List, [], ◌∷◌, ◌++◌, ◌==◌, Result, ok,
  err, ◌>>=◌, ◌>>◌, require, refuse_if, require_some, map_err, contains, keep, unique, each, length,
  leb, ltb, map,
}
use aiggp_agentic_framework.Fleet.Values.{is_identifier, Pool}
use aiggp_agentic_framework.Fleet.Lifecycle.{
  ErrorKind, invalid_desired_state, cleanup_failure, policy_denial, capacity_exhaustion, is_pinned,
  CleanupEvidence, Quarantine,
}

pub record AdmissionGate : Type 0 where
  pub unaccounted : List String
  pub proven : List CleanupEvidence
  pub quarantined : List Quarantine

-- `AdmissionGate.__post_init__`
unfoldable pub check_gate : AdmissionGate → Result ErrorKind (Unit {0})
check_gate g = do
  each (λ (id : String). require (is_identifier id) policy_denial) g.unaccounted
  require (unique g.unaccounted) policy_denial

abbrev pub checked_gate : AdmissionGate → Result ErrorKind AdmissionGate
checked_gate g = do check_gate g; ok g

-- `destroyed`
unfoldable pub add_destroyed : String → AdmissionGate → Result ErrorKind AdmissionGate
add_destroyed id g = do
  require (is_identifier id) policy_denial
  refuse_if (contains g.unaccounted id) policy_denial
  checked_gate (record g { unaccounted = g.unaccounted ++ id ∷ [] })

abbrev pub others : String → List String → List String
others id ids = keep (λ (item : String). not (item == id)) ids

-- `prove`, by the identity of the evidence alone
unfoldable pub gate_prove : CleanupEvidence → AdmissionGate → Result ErrorKind AdmissionGate
gate_prove e g = do
  id ← require_some e.instance_id cleanup_failure
  require (contains g.unaccounted id) cleanup_failure
  checked_gate (record g { unaccounted = others id g.unaccounted; proven = g.proven ++ e ∷ [] })

unfoldable pub gate_quarantine : Quarantine → AdmissionGate → Result ErrorKind AdmissionGate
gate_quarantine q g = do
  id ← require_some q.instance_id cleanup_failure
  require (contains g.unaccounted id) cleanup_failure
  checked_gate
      (record g { unaccounted = others id g.unaccounted; quarantined = g.quarantined ++ q ∷ [] })

-- adapters.py: the warm stock of a pool
pub data InstanceState : Type 0 where
  stock_prepulled stopped_clean stock_running used stock_quarantined : InstanceState

pub record WarmInstance : Type 0 where
  pub instance_id : String
  pub pool_id : String
  pub image_digest : String
  pub state : InstanceState

-- `is_warm`
unfoldable pub is_warm : WarmInstance → Bool
is_warm i = elim i.state [ stock_prepulled ↦ true | stopped_clean ↦ true | _ ↦ false ]

pub record WarmPool : Type 0 where
  pub pool : Pool
  pub instances : List WarmInstance

-- `AdapterContractError`
pub data ContractError : Type 0 where
  contract : String → ContractError

unfoldable pub check_instance : WarmInstance → Result ContractError (Unit {0})
check_instance i = do
  require (is_identifier i.instance_id) (contract "warm_instance.instance_id")
  require (is_identifier i.pool_id) (contract "warm_instance.pool_id")
  require (is_pinned i.image_digest) (contract "warm_instance.image_digest")

abbrev pub instance_ids : List WarmInstance → List String
instance_ids is = map (λ (i : WarmInstance). i.instance_id) is

-- `WarmPool.__post_init__`
unfoldable pub check_warm_pool : WarmPool → Result ContractError (Unit {0})
check_warm_pool w = do
  require (unique (instance_ids w.instances)) (contract "duplicate instance id")
  each
      (λ (i : WarmInstance). (do
        require (i.pool_id == w.pool.pool_id) (contract "another pool")
        require (i.image_digest == w.pool.image_digest) (contract "another image")
        require (is_warm i) (contract "not warm stock")))
      w.instances
  require (leb (length w.instances) w.pool.warm_max) (contract "capacity exhaustion")

-- `WarmPool.admit`
unfoldable pub admit : WarmInstance → WarmPool → Result ContractError WarmPool
admit i w = do
  let bigger : WarmPool = record w { instances = w.instances ++ i ∷ [] }
  check_warm_pool bigger
  ok bigger

abbrev pub without : String → List WarmInstance → List WarmInstance
without id is = keep (λ (i : WarmInstance). not (i.instance_id == id)) is

-- `WarmPool.retire`
unfoldable pub retire : String → WarmPool → Result ContractError WarmPool
retire id w = do
  let left = without id w.instances
  refuse_if (nat_eq (length left) (length w.instances)) (contract "no such instance")
  let smaller : WarmPool = record w { instances = left }
  check_warm_pool smaller
  ok smaller

abbrev pub check_replacing : AdmissionGate → Option String → Result ErrorKind (Unit {0})
check_replacing g none = ok tt
check_replacing g (some id) = do
  require (is_identifier id) policy_denial
  refuse_if (contains g.unaccounted id) policy_denial

unfoldable pub admit_replacement :
    AdmissionGate → WarmPool → WarmInstance → Option String → Result ErrorKind WarmPool
admit_replacement g w i replacing = do
  check_replacing g replacing
  require (ltb (length w.instances) w.pool.warm_max) capacity_exhaustion
  map_err (λ e. invalid_desired_state) (admit i w)

-- the operations of the gate
pub data GateOperation : Type 0 where
  destroys : (id : String) → GateOperation
  accounts : (e : CleanupEvidence) → GateOperation
  holds_back : (q : Quarantine) → GateOperation

unfoldable pub gate_operate : GateOperation → AdmissionGate → Result ErrorKind AdmissionGate
gate_operate (destroys id) g = add_destroyed id g
gate_operate (accounts e) g = gate_prove e g
gate_operate (holds_back q) g = gate_quarantine q g

abbrev pub or_same : AdmissionGate → Result ErrorKind AdmissionGate → AdmissionGate
or_same g (ok h) = h
or_same g (err e) = g

unfoldable pub gate_operate_all : List GateOperation → AdmissionGate → AdmissionGate
gate_operate_all [] g = g
gate_operate_all (o ∷ os) g = gate_operate_all os (or_same g (gate_operate o g))
