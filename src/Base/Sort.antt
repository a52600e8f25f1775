-- ===== src/Base/Sort.antt =====
-- Python's stable sort, and its order of pairs of texts.
use Prim.Native.Nat.{ℕ}
use Prim.Native.String.{String}
use mathlib.Core.Bool.{Bool, true, false}
use mathlib.Core.Path.{◌≡◌, refl}
use native.Mathlib.Omega.{arith}
use mathlib.Core.Logic.{◌⊎◌, inl, inr}
use mathlib.Core.List.{List, [], ◌∷◌}
use aiggp_agentic_framework.Base.Tests.{◌==◌, if◌then◌else◌, Bool-cases}
use aiggp_agentic_framework.Base.Lists.{All, AnyOf}
use aiggp_agentic_framework.Base.Text.{codes, codes_le}

abbrev pub text_le : String → String → Bool
text_le s t = codes_le (codes s) (codes t)

abbrev pub pair_le : String × String → String × String → Bool
pair_le (a, x) (b, y) = if a == b then text_le x y else text_le a b

module _ {A : Type 0} (le : A → A → Bool) where
  unfoldable pub place_by : A → List A → List A
  place_by x [] = x ∷ []
  place_by x (y ∷ ys) = let rest = place_by x ys in if le x y then x ∷ y ∷ ys else y ∷ rest

  unfoldable pub sort_by : List A → List A
  sort_by [] = []
  sort_by (x ∷ xs) = place_by x (sort_by xs)

-- sorting neither adds nor drops an item
module _ {A : Type 0} (P : A → Type 0) (le : A → A → Bool) where
  All-place_by : (x : A) (xs : List A) → All P (place_by le x xs) → P x × All P xs
  unfolding place_by
  All-place_by x [] h = h
  All-place_by x (y ∷ ys) h = elim (Bool-cases (le x y)) [
    | inl first ↦ rw first at h
    | inr later ↦
        let (p, rest) = rw later at h in let (q, k) = All-place_by x ys rest in (q, (p, k))
  ]

  pub All-sort_by : (xs : List A) → All P (sort_by le xs) → All P xs
  unfolding sort_by
  All-sort_by [] h = h
  All-sort_by (x ∷ xs) h = let (p, k) = All-place_by x (sort_by le xs) h in (p, All-sort_by xs k)

  AnyOf-place_by : (x : A) (xs : List A) → AnyOf P (place_by le x xs) → P x ⊎ AnyOf P xs
  unfolding place_by
  AnyOf-place_by x [] h = h
  AnyOf-place_by x (y ∷ ys) h = elim (Bool-cases (le x y)) [
    | inl first ↦ rw first at h
    | inr later ↦ elim (rw later at h) [
      | inl p ↦ inr (inl p)
      | inr k ↦ elim (AnyOf-place_by x ys k) [ inl p ↦ inl p | inr q ↦ inr (inr q) ]
    ]
  ]

  pub AnyOf-sort_by : (xs : List A) → AnyOf P (sort_by le xs) → AnyOf P xs
  unfolding sort_by
  AnyOf-sort_by [] h = h
  AnyOf-sort_by (x ∷ xs) h = elim (AnyOf-place_by x (sort_by le xs) h) [
    | inl p ↦ inl p
    | inr k ↦ inr (AnyOf-sort_by xs k)
  ]

codes_le_total : (s t : List ℕ) → codes_le s t ≡ false → codes_le t s ≡ true
codes_le_total [] t h = cc
codes_le_total (a ∷ s) [] h = refl
codes_le_total (a ∷ s) (b ∷ t) h = ground (arith, codes_le_total s t)

codes_le_trans : (s t u : List ℕ) → codes_le s t ≡ true → codes_le t u ≡ true → codes_le s u ≡ true
codes_le_trans [] t u h k = refl
codes_le_trans (a ∷ s) [] u h k = cc
codes_le_trans (a ∷ s) (b ∷ t) [] h k = cc
codes_le_trans (a ∷ s) (b ∷ t) (c ∷ u) h k = ground (arith, codes_le_trans s t u)

codes_le_refl : (s : List ℕ) → codes_le s s ≡ true
codes_le_refl [] = refl
codes_le_refl (a ∷ s) = ground (arith, codes_le_refl s)

pub text_le_total : (s t : String) → text_le s t ≡ false → text_le t s ≡ true
text_le_total s t = codes_le_total (codes s) (codes t)

pub text_le_trans : (s t u : String) → text_le s t ≡ true → text_le t u ≡ true → text_le s u ≡ true
text_le_trans s t u = codes_le_trans (codes s) (codes t) (codes u)

pub text_le_refl : (s : String) → text_le s s ≡ true
text_le_refl s = codes_le_refl (codes s)
