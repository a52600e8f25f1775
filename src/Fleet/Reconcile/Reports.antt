-- ===== src/Fleet/Reconcile/Reports.antt =====
-- observation.py and reconcile.py: a host's report that is written as a document and read back.
use aiggp_agentic_framework.Base.{List, [], ◌∷◌, ok, ◌>>=◌, each, All, string_dec, ◌≡◌, refl}
use aiggp_agentic_framework.Fleet.Wire.{member_of, member_names}
use aiggp_agentic_framework.Fleet.Documents.Fields.{shape, read_items}
use aiggp_agentic_framework.Fleet.Documents.Write.{items_of}
use aiggp_agentic_framework.Fleet.Documents.Parts.{as_optional-text}
use aiggp_agentic_framework.Fleet.Reconcile.Observations.{
  ObservedRunner, Observation, check_runner, check_observation, runner_to_document,
  runner_from_document, observation_to_document, observation_from_document,
}

runner_from-to :
    (r : ObservedRunner)
    → check_runner r ≡ ok tt
    → runner_from_document (runner_to_document r) ≡ ok r
unfolding runner_from_document runner_to_document ◌>>=◌ each shape member_of member_names string_dec
runner_from-to r valid = rw (as_optional-text "job_id" r.job_id, valid) refl

runners_from-to :
    (rs : List ObservedRunner)
    → All (λ r. check_runner r ≡ ok tt) rs
    → read_items runner_from_document (items_of runner_to_document rs) ≡ ok rs
unfolding read_items items_of ◌>>=◌
runners_from-to [] h = refl
runners_from-to (r ∷ rs) (h, k) = rw (runner_from-to r h, runners_from-to rs k) refl

-- A report whose constructor, and those of its runners, have checked their fields reads back from its
-- document as it was.
pub observation_from-to :
    (o : Observation)
    → check_observation o ≡ ok tt
    → All (λ r. check_runner r ≡ ok tt) o.runners
    → observation_from_document (observation_to_document o) ≡ ok o
unfolding observation_from_document observation_to_document ◌>>=◌ each shape member_of member_names
    string_dec
observation_from-to o valid each_valid =
    rw
      (
        runners_from-to o.runners each_valid,
        as_optional-text "agent_version" o.agent_version,
        valid,
      )
      refl
