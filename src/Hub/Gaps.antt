-- ===== src/Hub/Gaps.antt =====
-- toolchain_requests.py: the vocabulary of tools, the profiles, and the validation of a reported gap.
pub mod Validation
pub mod Dedupe
use aiggp_agentic_framework.Base.{
  ℕ, String, Bool, true, false, not, Option, none, some, List, [], ◌∷◌, Result, ok, err, ◌>>=◌,
  ◌>>◌, require, refuse_if, ltb, length, contains, keep, if◌then◌else◌,
}
use aiggp_agentic_framework.Base.Dict.{Dict, lookup}

-- `VOCABULARY`
abbrev pub vocabulary : List String
vocabulary =
    "cargo" ∷ "cmake" ∷ "dotnet" ∷ "gcc" ∷ "g++" ∷ "gitleaks" ∷ "go" ∷ "gradle" ∷ "java" ∷ "make"
    ∷ "maven" ∷ "node" ∷ "npm" ∷ "pnpm" ∷ "pip" ∷ "python" ∷ "shellcheck" ∷ []

-- `PROFILES`
abbrev pub profiles : Dict (List String)
profiles =
    ("none", [])
    ∷ ("base", "gcc" ∷ "make" ∷ "python" ∷ "pip" ∷ [])
    ∷ ("rust", "cargo" ∷ "gcc" ∷ "make" ∷ [])
    ∷ ("node", "node" ∷ "npm" ∷ [])
    ∷ ("go", "go" ∷ [])
    ∷ ("jvm", "java" ∷ "maven" ∷ "gradle" ∷ [])
    ∷ ("dotnet", "dotnet" ∷ [])
    ∷ ("web-js", "node" ∷ "npm" ∷ "pnpm" ∷ [])
    ∷ ("ci-hygiene", "shellcheck" ∷ "gitleaks" ∷ [])
    ∷ []

-- what a spoke submits: a JSON list, whose entries are texts or not, or another JSON value
pub data Item : Type 0 where
  tool_name : String → Item
  other_value : Item

pub data Submitted : Type 0 where
  entries : List Item → Submitted
  no_list : Submitted

-- the `REJECT_…` codes of a list
pub data Rejection : Type 0 where
  not_a_list too_many not_a_string outside_vocabulary : Rejection

unfoldable pub check_entries : List Item → Result Rejection (List String)
check_entries [] = ok []
check_entries (other_value ∷ items) = err not_a_string
check_entries (tool_name s ∷ items) = do
  require (contains vocabulary s) outside_vocabulary
  rest ← check_entries items
  ok (s ∷ rest)

-- `validate_missing_tools`, by MISSING_TOOLS_MAX_ENTRIES
unfoldable pub validate_missing_tools : Submitted → Result Rejection (List String)
validate_missing_tools no_list = err not_a_list
validate_missing_tools (entries items) = do
  refuse_if (ltb 32 (length items)) too_many
  check_entries items

abbrev pub dedupe_from : List String → List String → List String
dedupe_from seen [] = []
dedupe_from seen (tool ∷ tools) =
    let skipped = dedupe_from seen tools in
    let taken = dedupe_from (tool ∷ seen) tools in
    if contains seen tool then skipped else tool ∷ taken

-- `dedupe`
unfoldable pub dedupe : List String → List String
dedupe tools = dedupe_from [] tools

abbrev pub or_none : Option (List String) → List String
or_none none = []
or_none (some tools) = tools

abbrev pub or_empty : Option String → String
or_empty none = ""
or_empty (some id) = id

-- the tools of a profile, none for an id outside the table
unfoldable pub profile_tools : Option String → List String
profile_tools id = or_none (lookup (or_empty id) profiles)

-- `gap_for_profile`
unfoldable pub gap_for_profile : Option String → Option (List String) → List String
gap_for_profile id none = []
gap_for_profile id (some observed) =
    keep (λ (tool : String). not (contains observed tool)) (profile_tools id)
