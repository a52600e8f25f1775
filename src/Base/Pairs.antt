-- ===== src/Base/Pairs.antt =====
-- Python dicts whose keys are pairs of texts, in insertion order.
use Prim.Native.String.{String}
use mathlib.Core.Path.{◌≡◌, refl}
use mathlib.Core.Bool.{Bool, ◌&&◌}
use mathlib.Core.Option.{Option, none, some}
use mathlib.Core.List.{List, [], ◌∷◌}
use native.Mathlib.Omega.{arith}
use aiggp_agentic_framework.Base.Tests.{◌==◌, if◌then◌else◌}

pub record Pair : Type 0 where
  pub first : String
  pub second : String

abbrev pub same_pair : Pair → Pair → Bool
same_pair p q = p.first == q.first && p.second == q.second

abbrev pub PairDict {ℓ} : Type ℓ → Type ℓ
PairDict V = List (Pair × V)

module _ {ℓ} {V : Type ℓ} where
  unfoldable pub find : Pair → PairDict V → Option V
  find k [] = none
  find k ((j, v) ∷ d) = if same_pair j k then some v else find k d

  -- `d[k] = v`
  unfoldable pub store : Pair → V → PairDict V → PairDict V
  store k v [] = (k, v) ∷ []
  store k v ((j, w) ∷ d) = if same_pair j k then (j, v) ∷ d else (j, w) ∷ store k v d

  pub find-nil : (k : Pair) → find k [] ≡ none
  unfolding find
  find-nil k = refl

  pub find-store :
      (j k : Pair) (v : V) (d : PairDict V)
      → find j (store k v d) ≡ (if same_pair k j then some v else find j d)
  unfolding find store
  find-store j k v [] = refl
  find-store j k v ((i, w) ∷ d) = ground (arith, find-store j k v d)

pub same_pair_refl : (p : Pair) → same_pair p p ≡ Bool.true
same_pair_refl p = ground arith

pub same_pair_to_eq :
    (p q : Pair) → same_pair p q ≡ Bool.true → (p.first ≡ q.first) × (p.second ≡ q.second)
same_pair_to_eq p q h = ground arith

pub same_pair_eq : (p q : Pair) → same_pair p q ≡ Bool.true → p ≡ q
same_pair_eq p q h = ground (arith, same_pair_to_eq p q h)
