-- ===== src/Fleet/Lifecycle.antt =====
-- lifecycle.py: the job of one instance, the proof of its cleanup, and quarantine. `instant` parses
-- an ISO-8601 text that carries an offset.
pub mod Jobs
pub mod Gate
pub mod Advance
pub mod Accounting
pub mod Stock
use aiggp_agentic_framework.Base.{
  ℕ, String, Bool, true, false, not, ◌&&◌, ◌||◌, Option, none, some, List, [], ◌∷◌, ◌==◌, Result,
  ok, err, ◌>>=◌, ◌>>◌, require, require_some, leb, ltb, nat_eq, length, all, if◌then◌else◌,
}
use aiggp_agentic_framework.Base.Text.{codes, is_digit, in_range}
use aiggp_agentic_framework.Fleet.Values.{is_identifier}

-- adapters.py, `ErrorKind`
pub data ErrorKind : Type 0 where
  invalid_desired_state unavailable_host registration_failure runtime_failure cleanup_failure
        capacity_exhaustion policy_denial unknown_state :
      ErrorKind

-- adapters.py, `_digest`: the prefix, then 64 lowercase hexadecimal digits and nothing else
abbrev strip : List ℕ → List ℕ → Option (List ℕ)
strip [] s = some s
strip (p ∷ ps) [] = none
strip (p ∷ ps) (c ∷ s) = if nat_eq c p then strip ps s else none

abbrev hex : ℕ → Bool
hex c = is_digit c || in_range b'a' b'f' c

abbrev is_hex_64 : Option (List ℕ) → Bool
is_hex_64 none = false
is_hex_64 (some r) = nat_eq (length r) 64 && all hex r

unfoldable pub is_pinned : String → Bool
is_pinned s = is_hex_64 (strip (codes "sha256:") (codes s))

pub data Disposal : Type 0 where
  disposed absent failed : Disposal

-- The fields of a proof are optional, and all but the job are required by its constructor.
pub record CleanupEvidence : Type 0 where
  pub instance_id : Option String
  pub image_digest : Option String
  pub volume_disposal : Option Disposal
  pub network_disposal : Option Disposal
  pub started_at : Option String
  pub finished_at : Option String
  pub job_id : Option String

pub record Quarantine : Type 0 where
  pub instance_id : Option String
  pub failure_kind : Option String
  pub quarantined_at : Option String

abbrev check_job : Option String → Result ErrorKind (Unit {0})
check_job none = ok tt
check_job (some j) = require (not (j == "") && is_identifier j) cleanup_failure

module _ (instant : String → Option ℕ) where
  unfoldable pub check_evidence : CleanupEvidence → Result ErrorKind (Unit {0})
  unfolding ◌>>=◌
  check_evidence e = do
    id ← require_some e.instance_id cleanup_failure
    image ← require_some e.image_digest cleanup_failure
    volume ← require_some e.volume_disposal cleanup_failure
    network ← require_some e.network_disposal cleanup_failure
    started_at ← require_some e.started_at cleanup_failure
    finished_at ← require_some e.finished_at cleanup_failure
    require (is_identifier id) cleanup_failure
    require (is_pinned image) cleanup_failure
    started ← require_some (instant started_at) cleanup_failure
    finished ← require_some (instant finished_at) cleanup_failure
    require (leb started finished) cleanup_failure
    check_job e.job_id

  unfoldable pub check_quarantine : Quarantine → Result ErrorKind (Unit {0})
  unfolding ◌>>=◌
  check_quarantine q = do
    id ← require_some q.instance_id cleanup_failure
    kind ← require_some q.failure_kind cleanup_failure
    at ← require_some q.quarantined_at cleanup_failure
    require (is_identifier id) cleanup_failure
    require (not (kind == "")) cleanup_failure
    require (leb (length (codes kind)) 512) cleanup_failure
    held ← require_some (instant at) cleanup_failure
    ok tt

abbrev is_failed : Option Disposal → Bool
is_failed (some failed) = true
is_failed _ = false

-- `CleanupEvidence.admissible`
unfoldable pub admissible : CleanupEvidence → Bool
admissible e = not (is_failed e.volume_disposal) && not (is_failed e.network_disposal)
