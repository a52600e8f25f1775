-- ===== src/Tests/Lifecycle.antt =====
-- One instance from its job to its proof, and a gate that waits for it.
use aiggp_agentic_framework.Base.{
  String, length, ◌++◌, ◌+◌, ◌≤◌, true, false, some, List, [], ◌∷◌, ok, err, ◌≡◌, refl, ◌⊎◌,
  string_dec, contains, each, ◌>>=◌,
}
use aiggp_agentic_framework.Fleet.Values.{is_identifier}
use aiggp_agentic_framework.Tests.Fleet.{pool, image_a}
use aiggp_agentic_framework.Fleet.Lifecycle.{
  policy_denial, is_pinned, disposed, absent, failed, CleanupEvidence, admissible,
}
use aiggp_agentic_framework.Fleet.Lifecycle.Jobs.{
  running, completed, destroyed, proven_clean, JobLifecycle, check_lifecycle, follows, names_job,
  move, transition_to, prove_job, Operation, offered, moves, proves, operate, operate_all, same,
}
use aiggp_agentic_framework.Fleet.Lifecycle.Gate.{
  check_warm_pool, is_warm, admit, AdmissionGate, check_gate, add_destroyed, gate_prove, destroys,
  gate_operate_all, WarmInstance, WarmPool, stock_prepulled, admit_replacement,
}
use aiggp_agentic_framework.Fleet.Lifecycle.Advance.{
  rank, one_job, accepted, accepted-rank, proven_clean_by,
}
use aiggp_agentic_framework.Fleet.Lifecycle.Stock.{admit_replacement-fits}
use aiggp_agentic_framework.Fleet.Lifecycle.Accounting.{
  admit_replacement-waits, gate_prove-accounts,
}

abbrev ran : JobLifecycle
ran = record { instance_id = "i1"; image_digest = image_a; state = running; job_id = some "j1" }

abbrev gone : JobLifecycle
gone = record ran { state = destroyed }

abbrev proof : CleanupEvidence
proof = record {
  instance_id = some "i1";
  image_digest = some image_a;
  volume_disposal = some disposed;
  network_disposal = some absent;
  started_at = some "2026-01-01T00:00:00Z";
  finished_at = some "2026-01-01T00:01:00Z";
  job_id = some "j1";
}

abbrev failing : CleanupEvidence
failing = record proof { volume_disposal = some failed }

abbrev operations : List Operation
operations = moves completed ∷ offered "j2" ∷ moves destroyed ∷ proves proof ∷ []

one_job_example : (operate_all operations ran).job_id ≡ some "j1"
unfolding check_lifecycle ◌>>=◌ is_identifier is_pinned names_job
one_job_example = one_job ran "j1" refl refl operations

accepted-rank_example : accepted operations ran + rank running ≤ 5
accepted-rank_example = accepted-rank operations ran

proven_clean_by_example :
    (gone.state ≡ destroyed)
    × ((proves proof ≡ moves proven_clean)
        ⊎ ((e : CleanupEvidence) × (proves proof ≡ proves e)
            × (admissible e ≡ true)
            × (same e.instance_id gone.instance_id ≡ true)
            × (same e.image_digest gone.image_digest ≡ true)))
unfolding operate prove_job ◌>>=◌ admissible string_dec move transition_to follows check_lifecycle
    is_identifier is_pinned names_job
proven_clean_by_example =
    proven_clean_by (proves proof) gone (record gone { state = proven_clean }) refl refl

abbrev waiting : AdmissionGate
waiting = record { unaccounted = "i1" ∷ []; proven = []; quarantined = [] }

abbrev nothing : AdmissionGate
nothing = record waiting { unaccounted = [] }

abbrev stock : WarmPool
stock = record { pool = pool; instances = [] }

abbrev fresh : WarmInstance
fresh = record {
  instance_id = "i2";
  pool_id = "linux";
  image_digest = image_a;
  state = stock_prepulled;
}

admit_replacement-waits_example :
    admit_replacement (gate_operate_all (destroys "i3" ∷ []) waiting) stock fresh (some "i1")
    ≡ err policy_denial
unfolding add_destroyed ◌>>=◌ is_identifier check_gate each
admit_replacement-waits_example =
    admit_replacement-waits "i1" nothing waiting refl (destroys "i3" ∷ []) refl stock fresh

gate_prove-accounts_example :
    (contains nothing.unaccounted "i1" ≡ false)
    × ((other : CleanupEvidence)
        → other.instance_id ≡ some "i1"
        → (h : AdmissionGate) × (gate_prove other waiting ≡ ok h)
          × (h.unaccounted ≡ nothing.unaccounted))
unfolding gate_prove ◌>>=◌ string_dec check_gate each
gate_prove-accounts_example =
    gate_prove-accounts failing "i1" waiting (record nothing { proven = failing ∷ [] }) refl refl

-- the pool with the new instance
abbrev stocked : WarmPool
stocked = record stock { instances = fresh ∷ [] }

admit_replacement-fits_example :
    (stocked ≡ record stock { instances = stock.instances ++ fresh ∷ [] })
    × (check_warm_pool stocked ≡ ok tt)
    × (length stocked.instances ≤ stocked.pool.warm_max)
    × ((id : String) → some "i1" ≡ some id → contains nothing.unaccounted id ≡ false)
unfolding admit_replacement ◌>>=◌ is_identifier admit check_warm_pool each string_dec is_warm
admit_replacement-fits_example = admit_replacement-fits nothing stock stocked fresh (some "i1") refl
