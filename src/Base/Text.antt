-- ===== src/Base/Text.antt =====
-- The regular expressions of the source, as tests on the code points of a text. Python's `$` also
-- matches before a final newline, and so do these.
use Prim.Native.Nat.{ℕ, zero, suc}
use Prim.Native.Char.{code}
use Prim.Native.String.{String}
use mathlib.Core.Bool.{Bool, true, false, ◌&&◌, ◌||◌}
use mathlib.Core.List.{List, [], ◌∷◌}
use aiggp_agentic_framework.Base.Tests.{leb, nat_eq, if◌then◌else◌}

abbrev pub codes : String → List ℕ
codes String.[] = []
codes (String.◌∷◌ c s) = code c ∷ codes s

abbrev pub in_range : ℕ → ℕ → ℕ → Bool
in_range lo hi c = leb lo c && leb c hi

abbrev pub is_lower : ℕ → Bool
is_lower c = in_range b'a' b'z' c

abbrev pub is_digit : ℕ → Bool
is_digit c = in_range b'0' b'9' c

abbrev pub is_alnum : ℕ → Bool
is_alnum c = in_range b'A' b'Z' c || is_lower c || is_digit c

abbrev pub one_of : List ℕ → ℕ → Bool
one_of [] c = false
one_of (x ∷ xs) c = nat_eq c x || one_of xs c

-- `$`: the end of the text, or a newline that ends it.
abbrev pub at_end : List ℕ → Bool
at_end [] = true
at_end (c ∷ []) = nat_eq c 10
at_end _ = false

-- `p{0,max}$`
unfoldable pub up_to : (ℕ → Bool) → ℕ → List ℕ → Bool
up_to p max [] = true
up_to p zero (c ∷ s) = at_end (c ∷ s)
up_to p (suc max) (c ∷ s) = at_end (c ∷ s) || (p c && up_to p max s)

-- `p{n}$`
unfoldable pub exactly : (ℕ → Bool) → ℕ → List ℕ → Bool
exactly p zero s = at_end s
exactly p (suc n) [] = false
exactly p (suc n) (c ∷ s) = p c && exactly p n s

-- `^first rest{0,max}$`
unfoldable pub headed : (ℕ → Bool) → (ℕ → Bool) → ℕ → List ℕ → Bool
headed first rest max [] = false
headed first rest max (c ∷ s) = first c && up_to rest max s

-- `p*$`
unfoldable pub many : (ℕ → Bool) → List ℕ → Bool
many p [] = true
many p (c ∷ s) = at_end (c ∷ s) || (p c && many p s)

-- Python's order of texts, by code points.
abbrev pub codes_le : List ℕ → List ℕ → Bool
codes_le [] t = true
codes_le (a ∷ s) [] = false
codes_le (a ∷ s) (b ∷ t) = let rest = codes_le s t in if nat_eq a b then rest else leb a b

place_in : String → List String → List String
place_in x [] = x ∷ []
place_in x (y ∷ ys) = if codes_le (codes x) (codes y) then x ∷ y ∷ ys else y ∷ place_in x ys

-- `sorted` of texts
unfoldable pub sort : List String → List String
unfolding place_in
sort [] = []
sort (x ∷ xs) = place_in x (sort xs)
