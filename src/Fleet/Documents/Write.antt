-- ===== src/Fleet/Documents/Write.antt =====
-- documents.py: the values of the desired state as documents.
use aiggp_agentic_framework.Base.{String, Option, none, some, List, [], ◌∷◌, ◌==◌, if◌then◌else◌}
use aiggp_agentic_framework.Fleet.Values.{
  TrustClass, public, private, isolated, Runtime, docker, podman, Repository, Pool, HostState, Host,
  Assignment, DrainState, Drain, RolloutState, Rollout,
}
use aiggp_agentic_framework.Fleet.Desired.{DesiredState}
use aiggp_agentic_framework.Fleet.Wire.{
  Json, null, boolean, natural, string, array, object, Items, no_item, item, Members, no_member,
  member, member_of,
}

abbrev pub document_schema : String
document_schema = "fleet-manager-desired-state/1"

abbrev pub trust_text : TrustClass → String
trust_text public = "public"
trust_text private = "private"
trust_text isolated = "isolated"

abbrev pub runtime_text : Runtime → String
runtime_text docker = "docker"
runtime_text podman = "podman"

abbrev pub host_state_text : HostState → String
host_state_text HostState.active = "active"
host_state_text HostState.draining = "draining"
host_state_text HostState.drained = "drained"
host_state_text HostState.maintenance = "maintenance"

abbrev pub drain_state_text : DrainState → String
drain_state_text DrainState.draining = "draining"
drain_state_text DrainState.drained = "drained"
drain_state_text DrainState.ended = "ended"

abbrev pub rollout_state_text : RolloutState → String
rollout_state_text RolloutState.in_progress = "in_progress"
rollout_state_text RolloutState.completed = "completed"
rollout_state_text RolloutState.rolled_back = "rolled_back"

abbrev pub optional_text : Option String → Json
optional_text none = null
optional_text (some s) = string s

unfoldable pub items_of : {A : Type 0} → (A → Json) → List A → Items
items_of f [] = no_item
items_of f (x ∷ xs) = item (f x) (items_of f xs)

-- A name of a dict that is given again keeps its first place and takes the last value.
unfoldable pub drop_member : String → Members → Members
drop_member name no_member = no_member
drop_member name (member key value rest) =
    let others = drop_member name rest in if key == name then others else member key value others

abbrev first_member : String → Json → Option Json → Members → Members
first_member key value none rest = member key value rest
first_member key value (some last) rest = member key last (drop_member key rest)

-- `dict(labels)`
unfoldable pub labels_document : List (String × String) → Members
labels_document [] = no_member
labels_document ((key, value) ∷ labels) =
    let rest = labels_document labels in first_member key (string value) (member_of key rest) rest

unfoldable pub repository_to_document : Repository → Json
repository_to_document r = object (
    member "name" (string r.name) (
      member "trust_class" (string (trust_text r.trust_class))
        (member "runner_group" (optional_text r.runner_group) no_member)))

abbrev second_half : Pool → Members
second_half p = member "scale_ceiling" (natural p.scale_ceiling) (
    member "idle_timeout_seconds" (natural p.idle_timeout_seconds) (
      member "job_timeout_seconds" (natural p.job_timeout_seconds) (
        member "cleanup_timeout_seconds" (natural p.cleanup_timeout_seconds) (
          member "network_profile" (string p.network_profile) (
            member "filesystem_profile" (string p.filesystem_profile) (
              member "secret_profile" (string p.secret_profile) (
                member "update_channel" (string p.update_channel) (
                  member "rollback_image_digest" (string p.rollback_image_digest) (
                    member "maintenance_window" (string p.maintenance_window) (
                      member "disruption_budget"
                        (object (member "max_parallel" (natural p.max_parallel) no_member))
                        (member "owner" (string p.owner)
                          (member "escalation" (string p.escalation) no_member))))))))))))

unfoldable pub pool_to_document : Pool → Json
pool_to_document p = object (
    member "pool_id" (string p.pool_id) (
      member "revision" (natural p.revision) (
        member "trust_class" (string (trust_text p.trust_class)) (
          member "allowed_repositories" (array (items_of string p.allowed_repositories)) (
            member "runner_group" (optional_text p.runner_group) (
              member "required_labels" (object (labels_document p.required_labels)) (
                member "runtime" (string (runtime_text p.runtime)) (
                  member "image_digest" (string p.image_digest) (
                    member "architectures" (array (items_of string p.architectures)) (
                      member "ephemeral" (boolean p.ephemeral) (
                        member "warm_min" (natural p.warm_min)
                          (member "warm_max" (natural p.warm_max) (second_half p)))))))))))))

unfoldable pub host_to_document : Host → Json
host_to_document h = object (
    member "host_id" (string h.host_id) (
      member "architectures" (array (items_of string h.architectures)) (
        member "runtimes" (array (items_of (λ r. string (runtime_text r)) h.runtimes)) (
          member "labels" (object (labels_document h.labels)) (
            member "allowed_pools" (array (items_of string h.allowed_pools)) (
              member "slots" (natural h.slots)
                (member "state" (string (host_state_text h.state)) no_member)))))))

unfoldable pub assignment_to_document : Assignment → Json
assignment_to_document a = object (
    member "assignment_id" (string a.assignment_id) (
      member "request_id" (string a.request_id) (
        member "pool_id" (string a.pool_id) (
          member "host_id" (string a.host_id) (
            member "issued_at" (string a.issued_at)
              (member "released_at" (optional_text a.released_at) no_member))))))

unfoldable pub drain_to_document : Drain → Json
drain_to_document d = object (
    member "host_id" (string d.host_id) (
      member "reason" (string d.reason) (
        member "requested_at" (string d.requested_at) (
          member "state" (string (drain_state_text d.state)) (
            member "completed_at" (optional_text d.completed_at)
              (member "ended_at" (optional_text d.ended_at) no_member))))))

unfoldable pub rollout_to_document : Rollout → Json
rollout_to_document r = object (
    member "rollout_id" (string r.rollout_id) (
      member "pool_id" (string r.pool_id) (
        member "from_image_digest" (string r.from_image_digest) (
          member "to_image_digest" (string r.to_image_digest) (
            member "started_at" (string r.started_at)
              (member "state" (string (rollout_state_text r.state)) no_member))))))

unfoldable pub to_document : DesiredState → Json
to_document s = object (
    member "schema" (string document_schema) (
      member "revision" (natural s.revision) (
        member "repositories" (array (items_of repository_to_document s.repositories)) (
          member "pools" (array (items_of pool_to_document s.pools)) (
            member "hosts" (array (items_of host_to_document s.hosts)) (
              member "assignments" (array (items_of assignment_to_document s.assignments)) (
                member "drains" (array (items_of drain_to_document s.drains)) (
                  member "rollouts" (array (items_of rollout_to_document s.rollouts))
                    no_member))))))))
