-- ===== src/Fleet/Desired/Occupancy.antt =====
-- How the transitions change the work of a host: `in_use`, and the host that a lookup finds.
use aiggp_agentic_framework.Base.{
  ℕ, ◌+◌, ◌≤◌, String, ◌≡◌, refl, true, false, ◌&&◌, ◌||◌, List, [], ◌∷◌, ◌++◌, ok, arith, ◌==◌,
  contains, unique, map, inl, inr, Bool-cases, if◌then◌else◌,
}
use aiggp_agentic_framework.Fleet.Values.{Host, HostState, Assignment, is_assigned}
use aiggp_agentic_framework.Fleet.Desired.{
  find_host, find_assignment, in_use, set_host_state, release,
}

-- what one more assignment adds to the host's work
abbrev pub weight : String → Assignment → ℕ
weight id a = if a.host_id == id && is_assigned a then 1 else 0

pub in_use-append :
    (id : String) (a : Assignment) (rest : List Assignment)
    → in_use id (rest ++ a ∷ []) ≡ in_use id rest + weight id a
unfolding in_use
in_use-append id a [] = omega arith
in_use-append id a (b ∷ rest) = omega (arith, in_use-append id a rest)

pub in_use-release_le :
    (id k at : String) (rest : List Assignment) → in_use id (release k at rest) ≤ in_use id rest
unfolding in_use release
in_use-release_le id k at [] = omega arith
in_use-release_le id k at (b ∷ rest) = ground (arith, in_use-release_le id k at rest)

abbrev pub ids : List Assignment → List String
ids rest = map (λ (a : Assignment). a.assignment_id) rest

release_absent :
    (id k at : String) (rest : List Assignment)
    → contains (ids rest) k ≡ false
    → in_use id (release k at rest) ≡ in_use id rest
unfolding in_use release
release_absent id k at [] h = refl
release_absent id k at (b ∷ rest) h = ground (arith, release_absent id k at rest)

-- Where the ids are unique, a release takes one assignment off its host, and off no other.
pub in_use-release :
    (id k at : String) (a : Assignment) (rest : List Assignment)
    → unique (ids rest) ≡ true
    → find_assignment k rest ≡ ok a
    → in_use id (release k at rest) + weight id a ≡ in_use id rest
unfolding in_use release find_assignment
in_use-release id k at a [] u h = cc
in_use-release id k at a (b ∷ rest) u h =
    ground (arith, in_use-release id k at a rest, release_absent id k at rest)

pub ids-release : (k at : String) (rest : List Assignment) → ids (release k at rest) ≡ ids rest
unfolding release
ids-release k at [] = refl
ids-release k at (b ∷ rest) = ground (arith, ids-release k at rest)

pub contains-append :
    (xs : List String) (x y : String) → contains (xs ++ x ∷ []) y ≡ (contains xs y || y == x)
contains-append [] x y = ground arith
contains-append (z ∷ xs) x y = ground (arith, contains-append xs x y)

pub unique-append :
    (xs : List String) (x : String)
    → unique xs ≡ true
    → contains xs x ≡ false
    → unique (xs ++ x ∷ []) ≡ true
unique-append [] x u h = refl
unique-append (z ∷ xs) x u h = ground (arith, unique-append xs x, contains-append xs x z)

-- A host found after its neighbours changed state is the host found before.
pub find_host-set_host_state :
    (id k : String) (st : HostState) (hs : List Host) (h' : Host)
    → find_host id (set_host_state k st hs) ≡ ok h'
    → (h : Host) × (find_host id hs ≡ ok h)
      × (h'.slots ≡ h.slots)
      × (h'.state ≡ (if id == k then st else h.state))
unfolding find_host set_host_state
find_host-set_host_state id k st [] h' e = absurd (cc)
find_host-set_host_state id k st (h ∷ hs) h' e = elim (Bool-cases (h.host_id == id)) [
  | inl same ↦ (h, ground arith, ground arith, ground arith)
  | inr other ↦
      (let (g, found, slots, state) = find_host-set_host_state id k st hs h' (ground arith) in
        (g, ground arith, slots, state))
]
