-- ===== src/Fleet/Reconcile/Progress.antt =====
-- reconcile.py: a batch that may submit something does.
use aiggp_agentic_framework.Base.{
  ℕ, ◌≤◌, String, false, Option, none, some, List, [], ◌∷◌, ok, null, ◌≡◌, refl, sym, ap, ◌∙◌,
  arith,
}
use aiggp_agentic_framework.Base.Dict.{lookup-nil}
use aiggp_agentic_framework.Fleet.Desired.{DesiredState}
use aiggp_agentic_framework.Fleet.Plan.{Change}
use aiggp_agentic_framework.Base.Sort.{place_by, sort_by}
use aiggp_agentic_framework.Fleet.Reconcile.Candidates.{candidate_le}
use aiggp_agentic_framework.Fleet.Reconcile.Bound.{
  ConvergenceLimits, Deferred, unused, budget, spent, over_budget, first_spent, exhausted,
  disrupted_pools, bound_from, bound_candidates,
}
use aiggp_agentic_framework.Fleet.Reconcile.Caps.{split_of}

place_by-full : (c : Change) (ds : List Change) → null (place_by candidate_le c ds) ≡ false
unfolding place_by
place_by-full c [] = refl
place_by-full c (d ∷ ds) = ground arith

sort_by-full : (c : Change) (cs : List Change) → null (sort_by candidate_le (c ∷ cs)) ≡ false
unfolding sort_by
sort_by-full c cs = place_by-full c (sort_by candidate_le cs)

module _ (s : DesiredState) (limits : ConvergenceLimits) (drains : 1 ≤ limits.max_drains)
    (replacements : 1 ≤ limits.max_replacements) (mutations : 1 ≤ limits.max_host_mutations)
    (budgets : (pool_id : String) (limit : ℕ)
      → budget pool_id s.pools ≡ some limit
      → 1 ≤ limit) where
  under_budget :
      (pool_id : String) (o : Option ℕ)
      → budget pool_id s.pools ≡ o
      → over_budget pool_id o (spent pool_id unused) ≡ none
  under_budget pool_id none h = refl
  under_budget pool_id (some limit) h =
      let b = budgets pool_id limit h in rw (lookup-nil {V = ℕ} pool_id) (ground arith)

  first_spent-unused : (pools : List String) → first_spent s unused pools ≡ none
  unfolding first_spent
  first_spent-unused [] = refl
  first_spent-unused (pool_id ∷ pools) = rw (under_budget pool_id _ refl) (first_spent-unused pools)

  first_passes : (c : Change) → exhausted s limits false unused c ≡ none
  unfolding exhausted
  first_passes c = ground (arith, first_spent-unused (disrupted_pools s c))

  bound_from-full :
      (cs : List Change) → null cs ≡ false → null (bound_from s limits false cs unused).0 ≡ false
  unfolding bound_from
  bound_from-full [] h = h
  bound_from-full (c ∷ cs) h = rw (first_passes c) refl

  -- A reconciler that is not halted makes progress: with caps and disruption budgets of at least 1, a
  -- batch of one candidate or more submits at least one.
  pub bound_candidates-progress :
      (c : Change) (cs : List Change) (submitted : List Change) (waiting : List Deferred)
      → bound_candidates s limits false (c ∷ cs) ≡ ok (submitted, waiting)
      → null submitted ≡ false
  bound_candidates-progress c cs submitted waiting h =
      let split = split_of s limits false (c ∷ cs) submitted waiting h in
      ap (λ (r : List Change × List Deferred). null r.0) (sym split)
      ∙ bound_from-full (sort_by candidate_le (c ∷ cs)) (sort_by-full c cs)
