-- ===== src/Fleet/Values/Work.antt =====
-- model.py: assignments, drains and rollouts, and what their constructors check.
use aiggp_agentic_framework.Base.{
  ℕ, String, Bool, true, false, Option, none, some, Result, ok, ◌>>=◌, ◌>>◌, refuse_if, ltb, ◌==◌,
}
use aiggp_agentic_framework.Fleet.Values.Rules.{
  ModelError, bad, identifier, request_id, digest, text, timestamp,
}

pub data DrainState : Type 0 where
  draining drained ended : DrainState

pub data RolloutState : Type 0 where
  in_progress completed rolled_back : RolloutState

pub record Assignment : Type 0 where
  pub assignment_id : String
  pub request_id : String
  pub pool_id : String
  pub host_id : String
  pub issued_at : String
  pub released_at : Option String

-- `Assignment.state is AssignmentState.ASSIGNED`
abbrev pub is_assigned : Assignment → Bool
is_assigned a = elim a.released_at [ none ↦ true | some t ↦ false ]

pub record Drain : Type 0 where
  pub host_id : String
  pub reason : String
  pub requested_at : String
  pub state : DrainState
  pub completed_at : Option String
  pub ended_at : Option String

abbrev pub is_draining : DrainState → Bool
is_draining DrainState.draining = true
is_draining _ = false

abbrev pub is_drained : DrainState → Bool
is_drained DrainState.drained = true
is_drained _ = false

abbrev pub is_ended : DrainState → Bool
is_ended DrainState.ended = true
is_ended _ = false

pub record Rollout : Type 0 where
  pub rollout_id : String
  pub pool_id : String
  pub from_image_digest : String
  pub to_image_digest : String
  pub started_at : String
  pub state : RolloutState

module _ (instant : String → Option ℕ) where
  check_interval : String → Option String → Result ModelError (Unit {0})
  check_interval issued none = ok tt
  check_interval issued (some released) = do
    end ← timestamp instant released "assignment.released_at"
    start ← timestamp instant issued "assignment.issued_at"
    refuse_if (ltb end start) (bad "assignment.released_at")

  unfoldable pub check_assignment : Assignment → Result ModelError (Unit {0})
  unfolding check_interval
  check_assignment a = do
    identifier a.assignment_id "assignment.assignment_id"
    request_id a.request_id "assignment.request_id"
    identifier a.pool_id "assignment.pool_id"
    identifier a.host_id "assignment.host_id"
    timestamp instant a.issued_at "assignment.issued_at"
    check_interval a.issued_at a.released_at

  unfoldable pub check_drain : Drain → Result ModelError (Unit {0})
  check_drain d = do
    identifier d.host_id "drain.host_id"
    text d.reason "drain.reason"
    timestamp instant d.requested_at "drain.requested_at"
    ok tt

  unfoldable pub check_rollout : Rollout → Result ModelError (Unit {0})
  check_rollout r = do
    identifier r.rollout_id "rollout.rollout_id"
    identifier r.pool_id "rollout.pool_id"
    digest r.from_image_digest "rollout.from_image_digest"
    digest r.to_image_digest "rollout.to_image_digest"
    refuse_if (r.from_image_digest == r.to_image_digest) (bad "rollout")
    timestamp instant r.started_at "rollout.started_at"
    ok tt
