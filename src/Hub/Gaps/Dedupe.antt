-- ===== src/Hub/Gaps/Dedupe.antt =====
-- toolchain_requests.py, `dedupe`.
use aiggp_agentic_framework.Base.{
  String, true, not, ◌&&◌, List, [], ◌∷◌, contains, unique, ◌≡◌, refl, arith,
}
use aiggp_agentic_framework.Hub.Gaps.{dedupe_from, dedupe}

dedupe_from-contains :
    (seen tools : List String) (t : String)
    → contains (dedupe_from seen tools) t ≡ contains tools t && not (contains seen t)
dedupe_from-contains seen [] t = ground arith
dedupe_from-contains seen (x ∷ xs) t =
    ground (arith, dedupe_from-contains seen xs t, dedupe_from-contains (x ∷ seen) xs t)

dedupe_from-unique : (seen tools : List String) → unique (dedupe_from seen tools) ≡ true
dedupe_from-unique seen [] = refl
dedupe_from-unique seen (x ∷ xs) = ground (
  arith,
  dedupe_from-unique seen xs,
  dedupe_from-unique (x ∷ seen) xs,
  dedupe_from-contains (x ∷ seen) xs x,
)

-- De-duplication leaves no tool twice and keeps every tool that was reported, and no other.
pub dedupe_lem :
    (tools : List String)
    → (unique (dedupe tools) ≡ true) × ((t : String) → contains (dedupe tools) t ≡ contains tools t)
unfolding dedupe
dedupe_lem tools =
    (dedupe_from-unique [] tools, λ t. ground (arith, dedupe_from-contains [] tools t))
