-- ===== src/Fleet/Reconcile/Best.antt =====
-- reconcile.py: which host `_placement_host` gives.
use aiggp_agentic_framework.Base.{
  ℕ, ◌-◌, ◌≤◌, String, Option, none, some, some-injective, List, [], ◌∷◌, Result, ok, err, ◌>>=◌,
  >>=-eq-ok, ok-injective, All, AnyOf, Bool-cases, ◌∙◌, if◌then◌else◌, ◌≡◌, refl, sym, ap, ◌⊎◌, inl,
  inr, arith,
}
use aiggp_agentic_framework.Base.Sort.{All-sort_by, AnyOf-sort_by}
use aiggp_agentic_framework.Fleet.Values.{ModelError, Pool, Host, Capacity}
use aiggp_agentic_framework.Fleet.Desired.{DesiredState, find_pool, capacity}
use aiggp_agentic_framework.Fleet.Reconcile.Offers.{
  IsNoBetter, IsNoBetter-refl, IsNoBetter-trans, AtMost, Covers, consider-cases,
}
use aiggp_agentic_framework.Fleet.Reconcile.Placement.{
  consider, skipped, next_best, place_among, host_le, hosts_in_order, chosen, placement_host,
}

module _ (working : DesiredState) (pool : Pool) (reported active : List String) where
  -- The slots that a host offers to the pool: its free ones, or none where it may not be used.
  unfoldable pub slots_for : Host → Result ModelError ℕ
  slots_for h =
      if skipped working pool reported active h
      then ok 0
      else do room ← capacity h.host_id working; ok (room.total - room.in_use)

  next_best-eq :
      (h : Host) (best next : Option (ℕ × String))
      → next_best working pool reported active h best ≡ ok next
      → (n : ℕ) × (slots_for h ≡ ok n) × (next ≡ consider n h.host_id best)
  unfolding slots_for ◌>>=◌
  next_best-eq h best next p = elim (Bool-cases (skipped working pool reported active h)) [
    | inl out ↦
        let q : ok best ≡ ok next = rw out at p in (0, rw out refl, sym (ok-injective _ _ q))
    | inr fit ↦ rw fit (counted (capacity h.host_id working) (rw fit at p))
  ]
    where
      counted :
          (m : Result ModelError Capacity)
          → (do room ← m; ok (consider (room.total - room.in_use) h.host_id best)) ≡ ok next
          → (n : ℕ) × ((do room ← m; ok (room.total - room.in_use)) ≡ ok n)
            × (next ≡ consider n h.host_id best)
      counted (ok room) q = (room.total - room.in_use, refl, sym (ok-injective _ _ q))
      counted (err e) q = cc

  -- The host of this id offers this many slots to the pool, and at least one.
  abbrev pub IsChosen : ℕ → String → Host → Type 0
  IsChosen f id h = (h.host_id ≡ id) × (slots_for h ≡ ok f) × (1 ≤ f)

  -- The host offers no slots, or no better than these of this id.
  abbrev pub OffersAtMost : ℕ → String → Host → Type 0
  OffersAtMost f id h = (n : ℕ) × (slots_for h ≡ ok n) × ((n ≡ 0) ⊎ IsNoBetter n h.host_id f id)

  Leads : Option (ℕ × String) → List Host → Option (ℕ × String) → Type 0
  Leads best hs none = (best ≡ none) × All (λ h. slots_for h ≡ ok 0) hs
  Leads best hs (some (f, id)) =
      ((best ≡ some (f, id)) ⊎ AnyOf (IsChosen f id) hs)
      × AtMost best f id
      × All (OffersAtMost f id) hs

  covered :
      (best : Option (ℕ × String)) (n f : ℕ) (g id : String)
      → Covers best n g
      → AtMost best f id
      → (n ≡ 0) ⊎ IsNoBetter n g f id
  unfolding Covers AtMost
  covered none n f g id c m = inl c
  covered (some (k, b)) n f g id (inl c) m = inl c
  covered (some (k, b)) n f g id (inr c) m = inr (IsNoBetter-trans n k f g b id c m)

  Leads-kept :
      (h : Host) (n : ℕ) (best : Option (ℕ × String)) (hs : List Host) (out : Option (ℕ × String))
      → slots_for h ≡ ok n
      → Covers best n h.host_id
      → Leads best hs out
      → Leads best (h ∷ hs) out
  unfolding Leads Covers
  Leads-kept h n none hs none p c (e, rest) = (e, (rw c at p, rest))
  Leads-kept h n (some b) hs none p c (e, rest) = cc
  Leads-kept h n best hs (some (f, id)) p c (source, most, rest) = (
    elim source [ inl e ↦ inl e | inr k ↦ inr (inr k) ],
    most,
    ((n, p, covered best n f h.host_id id c most), rest),
  )

  IsChosen-eq :
      (h : Host) (n f : ℕ) (id : String)
      → slots_for h ≡ ok n
      → 1 ≤ n
      → ◌≡◌ {A = ℕ × String} (n, h.host_id) (f, id)
      → IsChosen f id h
  IsChosen-eq h n f id p more e =
      let same : n ≡ f = ap (λ (x : ℕ × String). x.0) e in
      (ap (λ (x : ℕ × String). x.1) e, p ∙ ap ok same, omega (arith, more, same))

  AtMost-le :
      (best : Option (ℕ × String)) (n f : ℕ) (g id : String)
      → AtMost best n g
      → IsNoBetter n g f id
      → AtMost best f id
  unfolding AtMost
  AtMost-le none n f g id m k = tt
  AtMost-le (some (l, b)) n f g id m k = IsNoBetter-trans l n f b g id m k

  Leads-taken :
      (h : Host) (n : ℕ) (best : Option (ℕ × String)) (hs : List Host) (out : Option (ℕ × String))
      → slots_for h ≡ ok n
      → 1 ≤ n
      → AtMost best n h.host_id
      → Leads (some (n, h.host_id)) hs out
      → Leads best (h ∷ hs) out
  unfolding Leads AtMost
  Leads-taken h n best hs none p more most (e, rest) = cc
  Leads-taken h n best hs (some (f, id)) p more most (source, bound, rest) = (
    elim source [
      | inl e ↦ inr (inl (IsChosen-eq h n f id p more (some-injective e)))
      | inr k ↦ inr (inr k)
    ],
    AtMost-le best n f h.host_id id most bound,
    ((n, p, inr bound), rest),
  )

  place_among-Leads :
      (hs : List Host) (best out : Option (ℕ × String))
      → place_among working pool reported active hs best ≡ ok out
      → Leads best hs out
  unfolding place_among Leads AtMost
  place_among-Leads [] best none p = (ok-injective _ _ p, tt)
  place_among-Leads [] best (some (f, id)) p =
      let e = ok-injective _ _ p in (inl e, rw e (IsNoBetter-refl f id), tt)
  place_among-Leads (h ∷ hs) best out p =
      let (next, q, r) = >>=-eq-ok _ _ p in
      let (n, counted, e) = next_best-eq h best next q in
      let found = place_among-Leads hs next out r in
      elim (consider-cases n h.host_id best) [
        | inl (kept, c) ↦ Leads-kept h n best hs out counted c (rw (← kept, ← e) found)
        | inr (taken, more, most) ↦
            Leads-taken h n best hs out counted more most (rw (← taken, ← e) found)
      ]

  -- What a placement must be: no host where none offers a slot to the pool, and otherwise the id of a
  -- host that offers one, and that no other host's offer is better than.
  abbrev pub IsPlacement : List Host → Option String → Type 0
  IsPlacement hs none = All (λ h. slots_for h ≡ ok 0) hs
  IsPlacement hs (some id) = (f : ℕ) × AnyOf (IsChosen f id) hs × All (OffersAtMost f id) hs

  Leads-IsPlacement :
      (s : DesiredState) (out : Option (ℕ × String))
      → Leads none (hosts_in_order s) out
      → IsPlacement s.hosts (chosen out)
  unfolding Leads
  Leads-IsPlacement s none (e, h) = All-sort_by (λ h. slots_for h ≡ ok 0) host_le s.hosts h
  Leads-IsPlacement s (some (f, id)) (source, most, h) = (
    f,
    AnyOf-sort_by (IsChosen f id) host_le s.hosts (elim source [ inl e ↦ cc | inr k ↦ k ]),
    All-sort_by (OffersAtMost f id) host_le s.hosts h,
  )

-- Where a placement returns, the pool exists, and the answer is no host where every host offers none
-- of its slots to the pool, and otherwise the id of a host that offers at least one slot and as many
-- as any other, the lowest such id. A host offers its free slots in the working state if it is
-- active, has reported and accepts the pool, and none if not.
pub placement_host-IsPlacement :
    (working s : DesiredState) (pool_id : String) (reported active : List String)
    (out : Option String)
    → placement_host working s pool_id reported active ≡ ok out
    → (pool : Pool) × (find_pool pool_id s.pools ≡ ok pool)
      × IsPlacement working pool reported active s.hosts out
unfolding placement_host
placement_host-IsPlacement working s pool_id reported active out p =
    let (pool, found, q) = >>=-eq-ok _ _ p in
    let (best, ranked, r) = >>=-eq-ok _ _ q in
    let led = place_among-Leads working pool reported active (hosts_in_order s) none best ranked in
    let placed = Leads-IsPlacement working pool reported active s best led in
    (pool, found, rw (← ok-injective _ _ r) placed)
