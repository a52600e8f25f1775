-- ===== src/Fleet/Documents/Parts.antt =====
-- documents.py: fields that are written and read back, and the smaller values.
use aiggp_agentic_framework.Base.{
  ℕ, String, true, Option, none, some, ok, ◌>>=◌, each, string_dec, ◌≡◌, refl,
}
use aiggp_agentic_framework.Fleet.Values.{
  TrustClass, public, private, isolated, Runtime, docker, podman, Repository, HostState, Assignment,
  DrainState, Drain, RolloutState, Rollout, check_repository, check_assignment, check_drain,
  check_rollout,
}
use aiggp_agentic_framework.Fleet.Wire.{member_of, member_names}
use aiggp_agentic_framework.Fleet.Documents.Fields.{
  is_secret, clean, shape, open_document, as_optional,
}
use aiggp_agentic_framework.Fleet.Documents.Write.{
  trust_text, runtime_text, host_state_text, drain_state_text, rollout_state_text, optional_text,
  repository_to_document, assignment_to_document, drain_to_document, rollout_to_document,
}
use aiggp_agentic_framework.Fleet.Documents.Read.{
  trust_named, runtime_named, host_state_named, drain_state_named, rollout_state_named,
  repository_from_document, assignment_from_document, drain_from_document, rollout_from_document,
}

pub clean-optional : (o : Option String) → clean (optional_text o) ≡ true
unfolding clean
clean-optional none = refl
clean-optional (some s) = refl

pub as_optional-text :
    (name : String) (o : Option String) → as_optional name (optional_text o) ≡ ok o
as_optional-text name none = refl
as_optional-text name (some s) = refl

pub trust_named-text : (t : TrustClass) → trust_named (trust_text t) ≡ some t
unfolding string_dec
trust_named-text public = refl
trust_named-text private = refl
trust_named-text isolated = refl

pub runtime_named-text : (r : Runtime) → runtime_named (runtime_text r) ≡ some r
unfolding string_dec
runtime_named-text docker = refl
runtime_named-text podman = refl

pub host_state_named-text : (s : HostState) → host_state_named (host_state_text s) ≡ some s
unfolding string_dec
host_state_named-text HostState.active = refl
host_state_named-text HostState.draining = refl
host_state_named-text HostState.drained = refl
host_state_named-text HostState.maintenance = refl

pub drain_state_named-text : (s : DrainState) → drain_state_named (drain_state_text s) ≡ some s
unfolding string_dec
drain_state_named-text DrainState.draining = refl
drain_state_named-text DrainState.drained = refl
drain_state_named-text DrainState.ended = refl

pub rollout_state_named-text :
    (s : RolloutState) → rollout_state_named (rollout_state_text s) ≡ some s
unfolding string_dec
rollout_state_named-text RolloutState.in_progress = refl
rollout_state_named-text RolloutState.completed = refl
rollout_state_named-text RolloutState.rolled_back = refl

pub repository_from-to :
    (r : Repository)
    → check_repository r ≡ ok tt
    → (clean (repository_to_document r) ≡ true)
      × (repository_from_document (repository_to_document r) ≡ ok r)
unfolding repository_from_document repository_to_document open_document ◌>>=◌ each shape clean
    is_secret member_of member_names string_dec
repository_from-to r valid = (
  rw (clean-optional r.runner_group) refl,
  rw
      (
        clean-optional r.runner_group,
        as_optional-text "runner_group" r.runner_group,
        trust_named-text r.trust_class,
        valid,
      )
      refl,
)

module _ (instant : String → Option ℕ) where
  pub assignment_from-to :
      (a : Assignment)
      → check_assignment instant a ≡ ok tt
      → (clean (assignment_to_document a) ≡ true)
        × (assignment_from_document instant (assignment_to_document a) ≡ ok a)
  unfolding assignment_from_document assignment_to_document open_document ◌>>=◌ each shape clean
      is_secret member_of member_names string_dec
  assignment_from-to a valid = (
    rw (clean-optional a.released_at) refl,
    rw (clean-optional a.released_at, as_optional-text "released_at" a.released_at, valid) refl,
  )

  pub drain_from-to :
      (d : Drain)
      → check_drain instant d ≡ ok tt
      → (clean (drain_to_document d) ≡ true)
        × (drain_from_document instant (drain_to_document d) ≡ ok d)
  unfolding drain_from_document drain_to_document open_document ◌>>=◌ each shape clean is_secret
      member_of member_names string_dec
  drain_from-to d valid = (
    rw (clean-optional d.completed_at, clean-optional d.ended_at) refl,
    rw
        (
          clean-optional d.completed_at,
          clean-optional d.ended_at,
          as_optional-text "completed_at" d.completed_at,
          as_optional-text "ended_at" d.ended_at,
          drain_state_named-text d.state,
          valid,
        )
        refl,
  )

  pub rollout_from-to :
      (r : Rollout)
      → check_rollout instant r ≡ ok tt
      → (clean (rollout_to_document r) ≡ true)
        × (rollout_from_document instant (rollout_to_document r) ≡ ok r)
  unfolding rollout_from_document rollout_to_document open_document ◌>>=◌ each shape clean is_secret
      member_of member_names string_dec
  rollout_from-to r valid = (refl, rw (rollout_state_named-text r.state, valid) refl)
