-- ===== src/Hub/Gaps/Validation.antt =====
-- toolchain_requests.py, `validate_missing_tools` and `gap_for_profile`.
use aiggp_agentic_framework.Base.{
  ◌≤◌, String, Bool, true, false, not, ◌&&◌, ◌||◌, ◌++◌, ==_refl, Option, none, some, List, [], ◌∷◌,
  ok, >>=-eq-ok, >>=-ok, require-ok, require_of, refuse_if-ok, ok-injective, ltb, leb, length,
  contains, all, keep, map, ◌≡◌, refl, sym, ap, ◌∙◌, arith, string_dec,
}
use aiggp_agentic_framework.Base.Dict.{Dict, lookup}
use aiggp_agentic_framework.Hub.Gaps.{
  vocabulary, profiles, Item, tool_name, other_value, Submitted, entries, no_list, check_entries,
  validate_missing_tools, or_none, or_empty, profile_tools, gap_for_profile,
}

check_entries-ok :
    (items : List Item) (xs : List String)
    → check_entries items ≡ ok xs
    → (items ≡ map tool_name xs) × (all (contains vocabulary) xs ≡ true)
unfolding check_entries
check_entries-ok [] xs h = let e = ok-injective _ xs h in (rw (sym e) refl, rw (sym e) refl)
check_entries-ok (other_value ∷ items) xs h = absurd (cc)
check_entries-ok (tool_name s ∷ items) xs h =
    let (u, p, h1) = >>=-eq-ok _ _ h in
    let (ys, q, h2) = >>=-eq-ok _ _ h1 in
    let (same, inside) = check_entries-ok items ys q in
    let e = ok-injective _ xs h2 in
    (rw (sym e) (ap (λ r. tool_name s ∷ r) same), rw (sym e) (rw (require-ok _ _ p, inside) refl))

length-map_name : (xs : List String) → length (map tool_name xs) ≡ length xs
length-map_name [] = refl
length-map_name (x ∷ xs) = omega (arith, length-map_name xs)

-- An accepted gap report is a list of at most 32 texts, each of the vocabulary, and what is recorded
-- is that very list.
pub validate_missing_tools-ok :
    (s : Submitted) (xs : List String)
    → validate_missing_tools s ≡ ok xs
    → (s ≡ entries (map tool_name xs)) × (length xs ≤ 32) × (all (contains vocabulary) xs ≡ true)
unfolding validate_missing_tools
validate_missing_tools-ok no_list xs h = absurd (cc)
validate_missing_tools-ok (entries items) xs h =
    let (u, p, h1) = >>=-eq-ok _ _ h in
    let (same, inside) = check_entries-ok items xs h1 in
    let short : ltb 32 (length (map tool_name xs)) ≡ false = rw same at (refuse_if-ok _ _ p) in
    (ap entries same, ground (arith, short, length-map_name xs), inside)

check_entries-names :
    (xs : List String)
    → all (contains vocabulary) xs ≡ true
    → check_entries (map tool_name xs) ≡ ok xs
unfolding check_entries
check_entries-names [] h = refl
check_entries-names (x ∷ xs) h =
    >>=-ok _ _ (require_of _ _ (ground (arith, h)))
    ∙ >>=-ok _ _ (check_entries-names xs (ground (arith, h)))

all-keep : (p q : String → Bool) (xs : List String) → all p xs ≡ true → all p (keep q xs) ≡ true
all-keep p q [] h = refl
all-keep p q (x ∷ xs) h = ground (arith, all-keep p q xs)

length-keep : (q : String → Bool) (xs : List String) → length (keep q xs) ≤ length xs
length-keep q [] = omega arith
length-keep q (x ∷ xs) = ground (arith, length-keep q xs)

-- every list of tools in the table is of the vocabulary, and short
abbrev fits : List String → Bool
fits xs = all (contains vocabulary) xs && leb (length xs) 32

lookup-fits :
    (k : String) (d : Dict (List String))
    → all (λ (e : String × List String). fits e.1) d ≡ true
    → fits (or_none (lookup k d)) ≡ true
unfolding lookup
lookup-fits k [] h = refl
lookup-fits k ((j, v) ∷ d) h = ground (arith, lookup-fits k d)

profiles-fits : all (λ (e : String × List String). fits e.1) profiles ≡ true
unfolding string_dec
profiles-fits = refl

profile_tools-fits : (id : Option String) → fits (profile_tools id) ≡ true
unfolding profile_tools
profile_tools-fits id = lookup-fits (or_empty id) profiles profiles-fits

gap_for_profile-fits :
    (id : Option String) (observed : Option (List String))
    → (all (contains vocabulary) (gap_for_profile id observed) ≡ true)
      × (length (gap_for_profile id observed) ≤ 32)
unfolding gap_for_profile
gap_for_profile-fits id none = (refl, omega arith)
gap_for_profile-fits id (some observed) =
    let tools = profile_tools id in
    let outside = λ (tool : String). not (contains observed tool) in
    let both = profile_tools-fits id in
    let inside : all (contains vocabulary) tools ≡ true = ground (arith, both) in
    let short : length tools ≤ 32 = ground (arith, both) in
    (
      all-keep (contains vocabulary) outside tools inside,
      omega (arith, length-keep outside tools, short),
    )

gap_for_profile-accepted :
    (id : Option String) (observed : Option (List String))
    → validate_missing_tools (entries (map tool_name (gap_for_profile id observed)))
      ≡ ok (gap_for_profile id observed)
unfolding validate_missing_tools
gap_for_profile-accepted id observed =
    let (inside, short) = gap_for_profile-fits id observed in
    let gap = gap_for_profile id observed in
    let named : ltb 32 (length (map tool_name gap)) ≡ false =
      ground (arith, short, length-map_name gap) in
    rw named (>>=-ok _ _ refl ∙ check_entries-names gap inside)

contains-keep :
    (q : String → Bool) (xs : List String) (t : String)
    → contains (keep q xs) t ≡ contains xs t && q t
contains-keep q [] t = refl
contains-keep q (x ∷ xs) t = ground (arith, contains-keep q xs t)

contains-append :
    (xs ys : List String) (t : String) → contains (xs ++ ys) t ≡ contains xs t || contains ys t
contains-append [] ys t = refl
contains-append (x ∷ xs) ys t = ground (arith, contains-append xs ys t)

keep-none :
    (q : String → Bool) (xs : List String)
    → ((t : String) → contains xs t ≡ true → q t ≡ false)
    → keep q xs ≡ []
keep-none q [] h = refl
keep-none q (x ∷ xs) h =
    let here : q x ≡ false = h x (ground (arith, ==_refl x)) in
    rw here (keep-none q xs (λ t k. h t (ground (arith, k))))

-- What the observation says is not there: nothing, where nothing was observed.
abbrev pub is_missing : Option (List String) → String → Bool
is_missing none tool = false
is_missing (some observed) tool = not (contains observed tool)

-- The observation after the tools are put there.
abbrev pub with_tools : List String → Option (List String) → Option (List String)
with_tools tools none = none
with_tools tools (some observed) = some (observed ++ tools)

contains-gap :
    (id : Option String) (observed : Option (List String)) (tool : String)
    → contains (gap_for_profile id observed) tool
      ≡ contains (profile_tools id) tool && is_missing observed tool
unfolding gap_for_profile
contains-gap id none tool = ground arith
contains-gap id (some observed) tool = contains-keep _ (profile_tools id) tool

gap_closes :
    (id : Option String) (observed : Option (List String))
    → gap_for_profile id (with_tools (gap_for_profile id observed) observed) ≡ []
unfolding gap_for_profile
gap_closes id none = refl
gap_closes id (some observed) =
    let gap = keep (λ tool. not (contains observed tool)) (profile_tools id) in
    keep-none _ (profile_tools id) (λ t h. ground (
      arith,
      contains-append observed gap t,
      contains-keep (λ tool. not (contains observed tool)) (profile_tools id) t,
      h,
    ))

-- The gap that the profile's rule computes, for any profile id and any observed tools, holds exactly
-- the tools of the profile that the observation does not name, and none where nothing was observed;
-- the hub's validation accepts it as it stands; and an observation that names its tools too has no
-- gap.
pub gap_for_profile_lem :
    (id : Option String) (observed : Option (List String))
    → ((tool : String)
        → contains (gap_for_profile id observed) tool
          ≡ contains (profile_tools id) tool && is_missing observed tool)
      × (validate_missing_tools (entries (map tool_name (gap_for_profile id observed)))
          ≡ ok (gap_for_profile id observed))
      × (gap_for_profile id (with_tools (gap_for_profile id observed) observed) ≡ [])
gap_for_profile_lem id observed =
    (contains-gap id observed, gap_for_profile-accepted id observed, gap_closes id observed)
