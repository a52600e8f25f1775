-- ===== src/Fleet/Plan/Simulation.antt =====
-- plan.py, `simulate`, against the step relation of the desired state.
use aiggp_agentic_framework.Base.{◌+◌, String, ◌≡◌, refl, ok, >>=-eq-ok, map_err-ok}
use aiggp_agentic_framework.Fleet.Desired.{DesiredState}
use aiggp_agentic_framework.Fleet.Desired.Spec.{
  Operation, assigns, releases, drains, completes, returns, rolls_out, Step,
}
use aiggp_agentic_framework.Fleet.Desired.Steps.{
  with_assignment-Step, with_release-Step, with_drain-Step, with_drain_complete-Step,
  with_host_returned-Step, with_rollout-Step,
}
use aiggp_agentic_framework.Fleet.Desired.Soundness.{IsSound, Step-IsSound, Step-revision}
use aiggp_agentic_framework.Fleet.Plan.{
  Outside, ChangeKind, assign, release, drain, complete_drain, return_to_service, rollout, Change,
  model, parameter, simulate_kind, simulate,
}

-- A change of this kind asks for the operation, with the values that its subject and its parameters
-- give.
abbrev pub AsksAs : ChangeKind → Change → Operation → Type 0
AsksAs kind c (assigns id request pool host) =
    (kind ≡ ChangeKind.assign)
    × (parameter "assignment_id" c ≡ ok id)
    × (parameter "request_id" c ≡ ok request)
    × (parameter "pool_id" c ≡ ok pool)
    × (parameter "host_id" c ≡ ok host)
AsksAs kind c (releases id) = (kind ≡ ChangeKind.release) × (c.subject ≡ id)
AsksAs kind c (drains host reason) =
    (kind ≡ ChangeKind.drain) × (c.subject ≡ host) × (parameter "reason" c ≡ ok reason)
AsksAs kind c (completes host) = (kind ≡ ChangeKind.complete_drain) × (c.subject ≡ host)
AsksAs kind c (returns host) = (kind ≡ ChangeKind.return_to_service) × (c.subject ≡ host)
AsksAs kind c (rolls_out id pool image) =
    (kind ≡ ChangeKind.rollout)
    × (c.subject ≡ pool)
    × (parameter "rollout_id" c ≡ ok id)
    × (parameter "to_image_digest" c ≡ ok image)

abbrev pub Asks : Change → Operation → Type 0
Asks c op = AsksAs c.kind c op

simulate_kind-Step :
    (out : Outside) (kind : ChangeKind) (c : Change) (at : String) (s u : DesiredState)
    → simulate_kind out kind c at s ≡ ok u
    → (op : Operation) × AsksAs kind c op × Step out.instant at s u op
unfolding simulate_kind
simulate_kind-Step out assign c at s u h =
    let (id, p, h1) = >>=-eq-ok _ _ h in
    let (request, q, h2) = >>=-eq-ok _ _ h1 in
    let (pool, v, h3) = >>=-eq-ok _ _ h2 in
    let (host, w, h4) = >>=-eq-ok _ _ h3 in
    (
      assigns id request pool host,
      (refl, p, q, v, w),
      with_assignment-Step out.instant id request pool host at s u (map_err-ok model _ h4),
    )
simulate_kind-Step out release c at s u h = (
  releases c.subject,
  (refl, refl),
  with_release-Step out.instant c.subject at s u (map_err-ok model _ h),
)
simulate_kind-Step out drain c at s u h =
    let (reason, p, h1) = >>=-eq-ok _ _ h in
    (
      drains c.subject reason,
      (refl, refl, p),
      with_drain-Step out.instant c.subject reason at s u (map_err-ok model _ h1),
    )
simulate_kind-Step out complete_drain c at s u h = (
  completes c.subject,
  (refl, refl),
  with_drain_complete-Step out.instant c.subject at s u (map_err-ok model _ h),
)
simulate_kind-Step out return_to_service c at s u h = (
  returns c.subject,
  (refl, refl),
  with_host_returned-Step out.instant c.subject at s u (map_err-ok model _ h),
)
simulate_kind-Step out rollout c at s u h =
    let (id, p, h1) = >>=-eq-ok _ _ h in
    let (image, q, h2) = >>=-eq-ok _ _ h1 in
    (
      rolls_out id c.subject image,
      (refl, refl, p, q),
      with_rollout-Step out.instant id c.subject image at s u (map_err-ok model _ h2),
    )

module _ (out : Outside) (at : String) (s u : DesiredState) (c : Change) where
  -- A change that the simulation accepts asks, by its kind, subject and parameters, for an operation
  -- of the specification, and the state that comes back is one that this operation makes of the state
  -- at that instant: its requirements hold, it changes what it says and no other value, and the
  -- result is a state that its constructor accepts.
  pub simulate-Step :
      simulate out at s c ≡ ok u → (op : Operation) × Asks c op × Step out.instant at s u op
  unfolding simulate
  simulate-Step h = simulate_kind-Step out c.kind c at s u h

  -- A change that the simulation accepts keeps the desired state sound: the assignment ids stay
  -- unique, no host is given more work than it has slots, and a drained host carries no work.
  pub simulate-IsSound : simulate out at s c ≡ ok u → IsSound s → IsSound u
  simulate-IsSound h =
      let (op, asked, step) = simulate-Step h in Step-IsSound out.instant at s u op step

  pub simulate-revision : simulate out at s c ≡ ok u → u.revision ≡ s.revision + 1
  simulate-revision h =
      let (op, asked, step) = simulate-Step h in Step-revision out.instant at s u op step
