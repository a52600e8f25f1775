-- ===== src/Fleet/Values/Pools.antt =====
-- model.py: repositories and pools, and what their constructors check.
use aiggp_agentic_framework.Base.{
  ℕ, ◌+◌, String, Bool, not, ◌&&◌, Option, none, some, List, [], ◌∷◌, Result, ◌>>◌, require,
  refuse_if, each, length, null, contains, leb, ◌==◌,
}
use aiggp_agentic_framework.Base.Text.{codes}
use aiggp_agentic_framework.Fleet.Values.Rules.{
  ModelError, bad, identifier, repository_name, digest, text, count, optional,
}

pub data TrustClass : Type 0 where
  public private isolated : TrustClass

pub data Runtime : Type 0 where
  docker podman : Runtime

pub record Repository : Type 0 where
  pub name : String
  pub trust_class : TrustClass
  pub runner_group : Option String

unfoldable pub check_repository : Repository → Result ModelError (Unit {0})
check_repository r = do
  repository_name r.name "repository.name"
  optional (λ g. identifier g "repository.runner_group") r.runner_group

pub record Pool : Type 0 where
  pub pool_id : String
  pub revision : ℕ
  pub trust_class : TrustClass
  pub required_labels : List (String × String)
  pub runtime : Runtime
  pub image_digest : String
  pub architectures : List String
  pub warm_min : ℕ
  pub warm_max : ℕ
  pub scale_ceiling : ℕ
  pub idle_timeout_seconds : ℕ
  pub job_timeout_seconds : ℕ
  pub cleanup_timeout_seconds : ℕ
  pub network_profile : String
  pub filesystem_profile : String
  pub secret_profile : String
  pub update_channel : String
  pub rollback_image_digest : String
  pub maintenance_window : String
  pub max_parallel : ℕ  -- disruption_budget.max_parallel
  pub owner : String
  pub escalation : String
  pub allowed_repositories : List String
  pub runner_group : Option String
  pub ephemeral : Bool

-- `1 <= len(text) <= 96`
abbrev label_fits : String → Bool
label_fits s = let n = length (codes s) in leb 1 n && leb n 96

check_label : String × String → Result ModelError (Unit {0})
check_label (key, item) = do
  identifier key "pool.required_labels"
  require (label_fits item) (bad "pool.required_labels")

-- exactly one of the repositories and the runner group: `bool(repositories) != (group is not None)`
abbrev pub one_scope : Pool → Bool
one_scope p = elim p.runner_group [
  | none ↦ not (null p.allowed_repositories)
  | some g ↦ null p.allowed_repositories
]

unfoldable pub check_pool : Pool → Result ModelError (Unit {0})
unfolding check_label each
check_pool p = do
  identifier p.pool_id "pool.pool_id"
  count p.revision "pool.revision" 1
  digest p.image_digest "pool.image_digest"
  digest p.rollback_image_digest "pool.rollback_image_digest"
  refuse_if (p.rollback_image_digest == p.image_digest) (bad "pool")
  refuse_if (null p.required_labels) (bad "pool.required_labels")
  each check_label p.required_labels
  refuse_if (null p.architectures) (bad "pool.architectures")
  each (λ arch. identifier arch "pool.architectures") p.architectures
  require p.ephemeral (bad "pool.ephemeral")
  count p.warm_min "pool.warm_min" 0
  count p.warm_max "pool.warm_max" 1
  count p.scale_ceiling "pool.scale_ceiling" 1
  require (leb p.warm_min p.warm_max && leb p.warm_max p.scale_ceiling) (bad "pool warm bounds")
  count p.idle_timeout_seconds "pool.idle_timeout_seconds" 1
  count p.job_timeout_seconds "pool.job_timeout_seconds" 1
  count p.cleanup_timeout_seconds "pool.cleanup_timeout_seconds" 1
  identifier p.network_profile "pool.network_profile"
  identifier p.filesystem_profile "pool.filesystem_profile"
  identifier p.secret_profile "pool.secret_profile"
  require (contains ("stable" ∷ "canary" ∷ "pinned" ∷ []) p.update_channel)
      (bad "pool.update_channel")
  text p.maintenance_window "pool.maintenance_window"
  count p.max_parallel "disruption_budget.max_parallel" 1
  text p.owner "pool.owner"
  text p.escalation "pool.escalation"
  each (λ name. repository_name name "pool.allowed_repositories") p.allowed_repositories
  require (one_scope p) (bad "pool scope")
  optional (λ g. identifier g "pool.runner_group") p.runner_group

-- `with_image`, before the new value is checked
abbrev pub with_image : String → String → Pool → Pool
with_image image rollback p = record p {
  revision = p.revision + 1;
  image_digest = image;
  rollback_image_digest = rollback;
}
