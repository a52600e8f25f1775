-- ===== src/Tests/Gaps.antt =====
-- A report of a Rust lane without its compiler.
use aiggp_agentic_framework.Base.{String, ◌&&◌, some, [], ◌∷◌, ok, ◌≡◌, map, contains}
use aiggp_agentic_framework.Hub.Gaps.{
  tool_name, entries, validate_missing_tools, profile_tools, gap_for_profile,
}
use aiggp_agentic_framework.Hub.Gaps.Validation.{is_missing, with_tools, gap_for_profile_lem}

gap_for_profile_lem_example :
    ((tool : String)
      → contains (gap_for_profile (some "rust") (some ("make" ∷ []))) tool
        ≡ contains (profile_tools (some "rust")) tool && is_missing (some ("make" ∷ [])) tool)
    × (validate_missing_tools
          (entries (map tool_name (gap_for_profile (some "rust") (some ("make" ∷ [])))))
        ≡ ok (gap_for_profile (some "rust") (some ("make" ∷ []))))
    × (gap_for_profile
          (some "rust")
          (with_tools (gap_for_profile (some "rust") (some ("make" ∷ []))) (some ("make" ∷ [])))
        ≡ [])
gap_for_profile_lem_example = gap_for_profile_lem (some "rust") (some ("make" ∷ []))
