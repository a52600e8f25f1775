-- ===== src/Coherence/ReplayGuard.antt =====
-- replay_guard.py: admission of effect-bearing submissions, once per idempotency key and scope.
-- Instants and lifetimes are whole numbers of one unit. A revocation version is `none` where the
-- source has `None`, and where it stores -1 for it: no version is below either.
pub mod InMemory
pub mod Sqlite
pub mod Runs
pub mod Keys
pub mod Agreement
pub mod Once
pub mod Retries
use Prim.Native.String.{◌++◌ as ◌<>◌}
use aiggp_agentic_framework.Base.{
  ℕ, ◌+◌, String, Bool, true, false, not, ◌&&◌, ◌||◌, Option, none, some, List, [], ◌∷◌, ◌++◌, ltb,
  leb, ◌==◌, if◌then◌else◌,
}

pub data Status : Type 0 where
  admitted duplicate conflict expired stale_revocation_snapshot : Status

-- `DENYING`
abbrev pub denies : Status → Bool
denies admitted = false
denies _ = true

pub record ReplayScope : Type 0 where
  pub producer_id : String
  pub tenant : String
  pub direction : String
  pub audience : String
  pub operation : String
  pub subject : String
  pub payload_digest : String

abbrev nul : String
nul = "\0"

infixr 66 ◌<0>◌
abbrev ◌<0>◌ : String → String → String
a <0> b = a <> nul <> b

-- the fields in the order of `SCOPE_FIELDS`, joined by NUL
unfoldable pub scope_key : ReplayScope → String
scope_key s =
    s.producer_id <0> s.tenant <0> s.direction <0> s.audience <0> s.operation <0> s.subject
    <0> s.payload_digest

pub record ReplayRecord : Type 0 where
  pub idempotency_key : String
  pub scope : String  -- scope_key
  pub revocation_version : Option ℕ
  pub created_at : ℕ
  pub expires_at : ℕ
  pub outcome : Option String

-- `revocation_version is not None and revocation_version < recorded`
abbrev pub older : Option ℕ → Option ℕ → Bool
older none recorded = false
older (some v) none = false
older (some v) (some w) = ltb v w

-- The verdict on a claim that meets a record, the same tests in both backends.
unfoldable pub verdict : ReplayRecord → String → Option ℕ → ℕ → Status
verdict r key version now =
    if older version r.revocation_version
    then stale_revocation_snapshot
    else if leb r.expires_at now
    then expired
    else if not (r.scope == key)
    then conflict
    else duplicate

-- the record that an admitted claim leaves
abbrev pub claimed : String → String → Option ℕ → ℕ → ℕ → ReplayRecord
claimed key scope version now ttl = record {
  idempotency_key = key;
  scope = scope;
  revocation_version = version;
  created_at = now;
  expires_at = now + ttl;
  outcome = none;
}

-- `a if a is not None else b`
abbrev pub first_of_two : Option ReplayRecord → Option ReplayRecord → Option ReplayRecord
first_of_two none o = o
first_of_two (some r) o = some r
