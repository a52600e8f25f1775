-- ===== src/Fleet/Reconcile/Offers.antt =====
-- reconcile.py: the order of the offers that `_placement_host` compares.
use aiggp_agentic_framework.Base.{
  ℕ, ◌≤◌, String, true, Option, none, some, Bool-cases, ltb, nat_eq, ◌≡◌, refl, ◌⊎◌, inl, inr,
  arith,
}
use aiggp_agentic_framework.Base.Sort.{text_le, text_le_refl, text_le_total, text_le_trans}
use aiggp_agentic_framework.Fleet.Reconcile.Placement.{consider}

-- An offer of `n` slots by `g` is no better than one of `f` by `h`: it has fewer slots, or as many and
-- no lower id.
pub record IsNoBetter (n : ℕ) (g : String) (f : ℕ) (h : String) : Type 0 where
  pub no_more : n ≤ f
  pub in_order : n ≡ f → text_le h g ≡ true

pub IsNoBetter-refl : (n : ℕ) (g : String) → IsNoBetter n g n g
IsNoBetter-refl n g = record { no_more = omega arith; in_order = λ e. text_le_refl g }

pub IsNoBetter-trans :
    (l n f : ℕ) (g h k : String) → IsNoBetter l g n h → IsNoBetter n h f k → IsNoBetter l g f k
IsNoBetter-trans l n f g h k p q = record {
  no_more = omega (arith, p.no_more, q.no_more);
  in_order = λ e.
      text_le_trans k h g (q.in_order (omega (arith, p.no_more, q.no_more, e)))
        (p.in_order (omega (arith, p.no_more, q.no_more, e)));
}

unfoldable pub AtMost : Option (ℕ × String) → ℕ → String → Type 0
AtMost none f id = Unit
AtMost (some (m, best)) f id = IsNoBetter m best f id

unfoldable pub Covers : Option (ℕ × String) → ℕ → String → Type 0
Covers none n id = n ≡ 0
Covers (some (m, best)) n id = (n ≡ 0) ⊎ IsNoBetter n id m best

pub consider-cases :
    (n : ℕ) (id : String) (best : Option (ℕ × String))
    → ((consider n id best ≡ best) × Covers best n id)
      ⊎ ((consider n id best ≡ some (n, id)) × (1 ≤ n) × AtMost best n id)
unfolding AtMost Covers
consider-cases n id none = elim (Bool-cases (nat_eq n 0)) [
  | inl zero_lem ↦ inl (rw zero_lem refl, ground arith)
  | inr more ↦ inr (rw more refl, ground arith, tt)
]
consider-cases n id (some (m, best)) = elim (Bool-cases (nat_eq n 0)) [
  | inl zero_lem ↦ inl (rw zero_lem refl, inl (ground arith))
  | inr more ↦ rw more (elim (Bool-cases (ltb m n)) [
    | inl over ↦ inr (
      rw over refl,
      ground arith,
      record { no_more = ground arith; in_order = λ e. ground arith },
    )
    | inr under ↦ elim (Bool-cases (nat_eq m n)) [
      | inl tie ↦ elim (Bool-cases (text_le best id)) [
        | inl stays ↦ inl (
          rw (under, tie, stays) refl,
          inr (record { no_more = ground arith; in_order = λ e. stays }),
        )
        | inr goes ↦ inr (
          rw (under, tie, goes) refl,
          ground arith,
          record { no_more = ground arith; in_order = λ e. text_le_total best id goes },
        )
      ]
      | inr less ↦ inl (
        rw (under, less) refl,
        inr (record { no_more = ground arith; in_order = λ e. ground arith }),
      )
    ]
  ])
]
