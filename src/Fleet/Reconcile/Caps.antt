-- ===== src/Fleet/Reconcile/Caps.antt =====
-- reconcile.py: what the bounds of a batch guarantee.
use aiggp_agentic_framework.Base.{
  ℕ, ◌+◌, ◌≤◌, ◌<◌, String, Bool, true, ◌&&◌, none, some, List, [], ◌∷◌, ok, >>=-eq-ok,
  ok-injective, Option-cases, map, contains, ◌==◌, ◌≡◌, refl, sym, ap, ◌∙◌, inl, inr, ◌⊎◌, arith,
}
use aiggp_agentic_framework.Base.Dict.{Dict, lookup, insert, lookup-insert}
use aiggp_agentic_framework.Fleet.Desired.{DesiredState}
use aiggp_agentic_framework.Fleet.Plan.{Change, destructive}
use aiggp_agentic_framework.Base.Sort.{place_by, sort_by}
use aiggp_agentic_framework.Fleet.Reconcile.Candidates.{candidate_le, validated_candidates}
use aiggp_agentic_framework.Fleet.Reconcile.Bound.{
  ConvergenceLimits, Deferred, Used, unused, is_drain_kind, is_rollout_kind, mutates_host,
  disrupted_pools, budget, or_zero, spent, first_spent, exhausted, one_if, charge_pools, charge,
  bound_from, bound_candidates,
}

-- How many changes of a list pass a test.
abbrev pub tally : (Change → Bool) → List Change → ℕ
tally q [] = 0
tally q (c ∷ cs) = one_if (q c) + tally q cs

abbrev pub changes_of : List Deferred → List Change
changes_of waiting = map (λ (d : Deferred). d.change) waiting

-- a destructive change that disrupts the pool
abbrev pub disrupts : DesiredState → String → Change → Bool
disrupts s pool_id c = destructive c && contains (disrupted_pools s c) pool_id

tally-place :
    (q : Change → Bool) (c : Change) (cs : List Change)
    → tally q (place_by candidate_le c cs) ≡ one_if (q c) + tally q cs
unfolding place_by
tally-place q c [] = refl
tally-place q c (d ∷ cs) = ground (arith, tally-place q c cs)

tally-sort : (q : Change → Bool) (cs : List Change) → tally q (sort_by candidate_le cs) ≡ tally q cs
unfolding sort_by
tally-sort q [] = refl
tally-sort q (c ∷ cs) =
    tally-place q c (sort_by candidate_le cs) ∙ ap (λ n. one_if (q c) + n) (tally-sort q cs)

module _ (s : DesiredState) (limits : ConvergenceLimits) (halted : Bool) where
  tally-bound_from :
      (q : Change → Bool) (cs : List Change) (u : Used)
      → tally q cs
        ≡ tally q (bound_from s limits halted cs u).0
          + tally q (changes_of (bound_from s limits halted cs u).1)
  unfolding bound_from
  tally-bound_from q [] u = refl
  tally-bound_from q (c ∷ cs) u = elim (Option-cases (exhausted s limits halted u c)) [
    | inl e ↦ rw e (omega (arith, tally-bound_from q cs (charge s c u)))
    | inr (why, e) ↦ rw e (omega (arith, tally-bound_from q cs u))
  ]

  -- Of the candidates, the submitted ones that pass the test, when each of them was charged for it.
  module _ (q : Change → Bool) (count : Used → ℕ) (cap : ℕ)
      (charged : (u : Used) (c : Change) → count u + one_if (q c) ≤ count (charge s c u))
      (capped : (u : Used) (c : Change)
        → q c ≡ true
        → exhausted s limits halted u c ≡ none
        → count u < cap) where
    tally-within :
        (cs : List Change) (u : Used)
        → (tally q (bound_from s limits halted cs u).0 ≡ 0)
          ⊎ (tally q (bound_from s limits halted cs u).0 + count u ≤ cap)
    unfolding bound_from
    tally-within [] u = inl refl
    tally-within (c ∷ cs) u = elim (Option-cases (exhausted s limits halted u c)) [
      | inl e ↦ rw e (ground (arith, charged u c, capped u c, tally-within cs (charge s c u), e))
      | inr (why, e) ↦ rw e (tally-within cs u)
    ]

    tally-at_most :
        (cs : List Change) (u : Used) → tally q (bound_from s limits halted cs u).0 ≤ cap
    tally-at_most cs u = ground (arith, tally-within cs u)

  halted_submits :
      (cs : List Change) (u : Used) → halted ≡ true → (bound_from s limits halted cs u).0 ≡ []
  unfolding bound_from exhausted
  halted_submits [] u off = refl
  halted_submits (c ∷ cs) u off = ground (arith, halted_submits cs u off)

  drains-charged :
      (u : Used) (c : Change) → u.drains + one_if (is_drain_kind c.kind) ≤ (charge s c u).drains
  unfolding charge
  drains-charged u c = omega arith

  drains-capped :
      (u : Used) (c : Change)
      → is_drain_kind c.kind ≡ true
      → exhausted s limits halted u c ≡ none
      → u.drains < limits.max_drains
  unfolding exhausted
  drains-capped u c k h = ground arith

  replacements-charged :
      (u : Used) (c : Change)
      → u.replacements + one_if (is_rollout_kind c.kind) ≤ (charge s c u).replacements
  unfolding charge
  replacements-charged u c = omega arith

  replacements-capped :
      (u : Used) (c : Change)
      → is_rollout_kind c.kind ≡ true
      → exhausted s limits halted u c ≡ none
      → u.replacements < limits.max_replacements
  unfolding exhausted
  replacements-capped u c k h = ground arith

  mutations-charged :
      (u : Used) (c : Change)
      → u.host_mutations + one_if (mutates_host c) ≤ (charge s c u).host_mutations
  unfolding charge
  mutations-charged u c = omega arith

  mutations-capped :
      (u : Used) (c : Change)
      → mutates_host c ≡ true
      → exhausted s limits halted u c ≡ none
      → u.host_mutations < limits.max_host_mutations
  unfolding exhausted
  mutations-capped u c k h = ground arith

  module _ (pool_id : String) where
    insert-spent :
        (other : String) (d : Dict ℕ)
        → or_zero (lookup pool_id (insert other (or_zero (lookup other d) + 1) d))
          ≡ or_zero (lookup pool_id d) + one_if (other == pool_id)
    insert-spent other d =
        ground (arith, lookup-insert pool_id other (or_zero (lookup other d) + 1) d)

    charge_pools-spent :
        (pools : List String) (d : Dict ℕ)
        → or_zero (lookup pool_id d) + one_if (contains pools pool_id)
          ≤ or_zero (lookup pool_id (charge_pools pools d))
    unfolding charge_pools
    charge_pools-spent [] d = omega arith
    charge_pools-spent (other ∷ pools) d = ground (
      arith,
      insert-spent other d,
      charge_pools-spent pools (insert other (or_zero (lookup other d) + 1) d),
    )

    budget-charged :
        (u : Used) (c : Change)
        → spent pool_id u + one_if (disrupts s pool_id c) ≤ spent pool_id (charge s c u)
    unfolding charge
    budget-charged u c = ground (arith, charge_pools-spent (disrupted_pools s c) u.per_pool)

    module _ (limit : ℕ) (its_budget : budget pool_id s.pools ≡ some limit) where
      first_spent-none :
          (u : Used) (pools : List String)
          → contains pools pool_id ≡ true
          → first_spent s u pools ≡ none
          → spent pool_id u < limit
      unfolding first_spent
      first_spent-none u [] k h = absurd (cc)
      first_spent-none u (other ∷ pools) k h = ground (arith, first_spent-none u pools, its_budget)

      budget-capped :
          (u : Used) (c : Change)
          → disrupts s pool_id c ≡ true
          → exhausted s limits halted u c ≡ none
          → spent pool_id u < limit
      unfolding exhausted
      budget-capped u c k h = ground (arith, first_spent-none u (disrupted_pools s c))

module _ (s : DesiredState) (limits : ConvergenceLimits) (halted : Bool)
    (candidates submitted : List Change) (waiting : List Deferred)
    (h : bound_candidates s limits halted candidates ≡ ok (submitted, waiting)) where
  pub split_of :
      bound_from s limits halted (sort_by candidate_le candidates) unused ≡ (submitted, waiting)
  unfolding bound_candidates validated_candidates
  split_of =
      let (ordered, p1, h1) = >>=-eq-ok _ _ h in
      let (x2, p2, h2) = >>=-eq-ok _ _ p1 in
      ap (λ cs. bound_from s limits halted cs unused) (ok-injective _ _ h2) ∙ ok-injective _ _ h1

  -- Every candidate is either submitted or deferred, never both and never neither: under every test of
  -- changes, as many candidates pass as submitted and deferred changes together.
  pub bound_candidates-partition :
      (q : Change → Bool) → tally q candidates ≡ tally q submitted + tally q (changes_of waiting)
  bound_candidates-partition q =
      sym (tally-sort q candidates)
      ∙ tally-bound_from s limits halted q (sort_by candidate_le candidates) unused
      ∙ ap (λ (r : List Change × List Deferred). tally q r.0 + tally q (changes_of r.1)) split_of

  -- A batch stays within its bounds: it submits at most `max_drains` drains and completions of drains,
  -- at most `max_replacements` rollouts and at most `max_host_mutations` changes that name a host, and
  -- for each pool with a disruption budget, at most that many destructive changes that disrupt it. A halted batch submits nothing.
  pub bound_candidates-within :
      (tally (λ c. is_drain_kind c.kind) submitted ≤ limits.max_drains)
      × (tally (λ c. is_rollout_kind c.kind) submitted ≤ limits.max_replacements)
      × (tally mutates_host submitted ≤ limits.max_host_mutations)
      × ((pool_id : String) (limit : ℕ)
          → budget pool_id s.pools ≡ some limit
          → tally (disrupts s pool_id) submitted ≤ limit)
      × (halted ≡ true → submitted ≡ [])
  bound_candidates-within = (
    rw (← submitted_of) (
        tally-at_most s limits halted _ (λ u. u.drains) _ (drains-charged s limits halted)
          (drains-capped s limits halted) cs unused),
    rw (← submitted_of) (
        tally-at_most s limits halted _ (λ u. u.replacements) _
          (replacements-charged s limits halted) (replacements-capped s limits halted) cs unused),
    rw (← submitted_of) (
        tally-at_most s limits halted _ (λ u. u.host_mutations) _
          (mutations-charged s limits halted) (mutations-capped s limits halted) cs unused),
    λ pool_id limit its_budget. rw (← submitted_of) (
        tally-at_most s limits halted _ (spent pool_id) limit
          (budget-charged s limits halted pool_id)
          (budget-capped s limits halted pool_id limit its_budget) cs unused),
    λ off. sym submitted_of ∙ halted_submits s limits halted cs unused off,
  )
    where
      cs : List Change
      cs = sort_by candidate_le candidates

      submitted_of : (bound_from s limits halted cs unused).0 ≡ submitted
      submitted_of = ap (λ (r : List Change × List Deferred). r.0) split_of
