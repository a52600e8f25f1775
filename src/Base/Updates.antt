-- ===== src/Base/Updates.antt =====
-- Lists in which the items that pass a test are replaced, and the others stay.
use mathlib.Core.Path.{◌≡◌, refl, sym, ◌∙◌}
use mathlib.Core.Bool.{Bool, true, false}
use mathlib.Core.Logic.{inl, inr}
use mathlib.Core.List.{List, [], ◌∷◌}
use aiggp_agentic_framework.Base.Tests.{if◌then◌else◌, Bool-cases}

module _ {A : Type 0} (picked : A → Bool) (new : A → A) where
  -- The second list has an item for each of the first, in its place: the new one for an item that is
  -- picked, and the same one for any other.
  abbrev pub Updates : List A → List A → Type 0
  Updates [] [] = Unit
  Updates (x ∷ xs) (y ∷ ys) =
      ((picked x ≡ true → y ≡ new x) × (picked x ≡ false → y ≡ x)) × Updates xs ys
  Updates _ _ = ⊥

  updated : List A → List A
  updated [] = []
  updated (x ∷ xs) = (if picked x then new x else x) ∷ updated xs

  Updates-updated : (xs ys : List A) → Updates xs ys → ys ≡ updated xs
  unfolding updated
  Updates-updated [] [] u = refl
  Updates-updated [] (y ∷ ys) u = absurd u
  Updates-updated (x ∷ xs) [] u = absurd u
  Updates-updated (x ∷ xs) (y ∷ ys) ((h, k), u) = elim (Bool-cases (picked x)) [
    | inl p ↦ rw (p, h p, Updates-updated xs ys u) refl
    | inr p ↦ rw (p, k p, Updates-updated xs ys u) refl
  ]

  -- There is one such list.
  pub Updates-unique : (xs ys zs : List A) → Updates xs ys → Updates xs zs → ys ≡ zs
  Updates-unique xs ys zs u v = Updates-updated xs ys u ∙ sym (Updates-updated xs zs v)
