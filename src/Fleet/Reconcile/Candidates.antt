-- ===== src/Fleet/Reconcile/Candidates.antt =====
-- reconcile.py: the candidate changes, the check of their parameters, and their one order.
use aiggp_agentic_framework.Base.{
  ℕ, suc, String, Bool, true, false, List, [], ◌∷◌, Result, ok, ◌>>◌, require, each, map, contains,
  leb, nat_eq, ◌==◌, if◌then◌else◌,
}
use aiggp_agentic_framework.Base.Sort.{text_le, pair_le, sort_by}
use aiggp_agentic_framework.Fleet.Plan.{
  ChangeKind, assign, release, drain, complete_drain, return_to_service, rollout, Change,
}

pub data ReconcileError : Type 0 where
  lacks : ℕ → String → ReconcileError

-- `_CANDIDATE_ORDER`
abbrev pub candidate_order : ChangeKind → ℕ
candidate_order complete_drain = 0
candidate_order return_to_service = 1
candidate_order drain = 2
candidate_order release = 3
candidate_order rollout = 4
candidate_order assign = 5

-- `_REQUIRED_PARAMETERS`
abbrev pub required_parameters : ChangeKind → List String
required_parameters assign = "assignment_id" ∷ "request_id" ∷ "pool_id" ∷ "host_id" ∷ []
required_parameters drain = "reason" ∷ []
required_parameters rollout = "rollout_id" ∷ "to_image_digest" ∷ []
required_parameters _ = []

abbrev same_parameter : String × String → String × String → Bool
same_parameter (a, x) (b, y) = if a == b then x == y else false

unfoldable pub parameters_le : List (String × String) → List (String × String) → Bool
parameters_le [] ys = true
parameters_le (x ∷ xs) [] = false
parameters_le (x ∷ xs) (y ∷ ys) =
    let rest = parameters_le xs ys in if same_parameter x y then rest else pair_le x y

-- the order of `_candidate_key`
unfoldable pub candidate_le : Change → Change → Bool
candidate_le c d =
    if nat_eq (candidate_order c.kind) (candidate_order d.kind)
    then if c.subject == d.subject
      then parameters_le (sort_by pair_le c.parameters) (sort_by pair_le d.parameters)
      else text_le c.subject d.subject
    else leb (candidate_order c.kind) (candidate_order d.kind)

abbrev parameter_names : Change → List String
parameter_names c = map (λ (parameter : String × String). parameter.0) c.parameters

-- the loop of `_validated_candidates` from the candidate at `index`
unfoldable pub check_candidates : ℕ → List Change → Result ReconcileError (Unit {0})
check_candidates index [] = ok tt
check_candidates index (c ∷ cs) = do
  each (λ name. require (contains (parameter_names c) name) (lacks index name))
      (required_parameters c.kind)
  check_candidates (suc index) cs

unfoldable pub validated_candidates : List Change → Result ReconcileError (List Change)
validated_candidates candidates = do
  check_candidates 0 candidates
  ok (sort_by candidate_le candidates)
