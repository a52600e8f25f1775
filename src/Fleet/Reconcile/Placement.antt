-- ===== src/Fleet/Reconcile/Placement.antt =====
-- reconcile.py: the host that a new assignment goes to.
use aiggp_agentic_framework.Base.{
  ℕ, ◌-◌, String, Bool, true, false, not, ◌||◌, Option, none, some, List, [], ◌∷◌, Result, ok,
  ◌>>=◌, contains, ltb, nat_eq, if◌then◌else◌,
}
use aiggp_agentic_framework.Base.Sort.{text_le, sort_by}
use aiggp_agentic_framework.Fleet.Values.{ModelError, Pool, Host, refusal_for}
use aiggp_agentic_framework.Fleet.Desired.{DesiredState, find_pool, capacity}

-- the best (free slots, host id) so far
abbrev pub better : Option (ℕ × String) → ℕ → String → Option (ℕ × String)
better none free host_id = some (free, host_id)
better (some (most, best)) free host_id =
    if ltb most free
    then some (free, host_id)
    else if nat_eq most free
    then if text_le best host_id then some (most, best) else some (free, host_id)
    else some (most, best)

abbrev refuses : Option String → Bool
refuses none = false
refuses (some why) = true

abbrev pub consider : ℕ → String → Option (ℕ × String) → Option (ℕ × String)
consider free host_id best = if nat_eq free 0 then best else better best free host_id

abbrev pub skipped : DesiredState → Pool → List String → List String → Host → Bool
skipped working pool reported active h =
    not (contains active h.host_id)
    || (not (contains reported h.host_id) || refuses (refusal_for h pool))

-- one round of the loop of `_placement_host`
abbrev pub next_best :
    DesiredState
    → Pool
    → List String
    → List String
    → Host
    → Option (ℕ × String)
    → Result ModelError (Option (ℕ × String))
next_best working pool reported active h best =
    if skipped working pool reported active h then ok best else do
      room ← capacity h.host_id working
      ok (consider (room.total - room.in_use) h.host_id best)

unfoldable pub place_among :
    DesiredState
    → Pool
    → List String
    → List String
    → List Host
    → Option (ℕ × String)
    → Result ModelError (Option (ℕ × String))
place_among working pool reported active [] best = ok best
place_among working pool reported active (h ∷ hs) best = do
  next ← next_best working pool reported active h best
  place_among working pool reported active hs next

abbrev pub host_le : Host → Host → Bool
host_le g h = text_le g.host_id h.host_id

abbrev pub hosts_in_order : DesiredState → List Host
hosts_in_order s = sort_by host_le s.hosts

abbrev pub chosen : Option (ℕ × String) → Option String
chosen none = none
chosen (some (free, host_id)) = some host_id

-- `_placement_host`
unfoldable pub placement_host :
    DesiredState
    → DesiredState
    → String
    → List String
    → List String
    → Result ModelError (Option String)
placement_host working s pool_id reported active = do
  pool ← find_pool pool_id s.pools
  best ← place_among working pool reported active (hosts_in_order s) none
  ok (chosen best)
