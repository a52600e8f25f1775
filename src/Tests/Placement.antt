-- ===== src/Tests/Placement.antt =====
-- The assignment of a runner of one pool between three hosts.
use aiggp_agentic_framework.Base.{String, some, List, [], ◌∷◌, ok, ◌≡◌, refl, ◌>>=◌, string_dec}
use aiggp_agentic_framework.Base.Sort.{sort_by, place_by}
use aiggp_agentic_framework.Fleet.Values.{Pool, Host, make_capacity, refusal_for}
use aiggp_agentic_framework.Fleet.Desired.{DesiredState, find_pool, find_host, in_use, capacity}
use aiggp_agentic_framework.Fleet.Reconcile.Placement.{place_among, placement_host}
use aiggp_agentic_framework.Fleet.Reconcile.Best.{IsPlacement, placement_host-IsPlacement}
use aiggp_agentic_framework.Tests.Fleet.{host, world}

abbrev roomy : String → Host
roomy id = record host { host_id = id; slots = 2 }

abbrev fleet : DesiredState
fleet = record world { hosts = roomy "h3" ∷ host ∷ roomy "h2" ∷ [] }

abbrev known : List String
known = "h1" ∷ "h2" ∷ "h3" ∷ []

placed : placement_host fleet fleet "linux" known known ≡ ok (some "h2")
unfolding placement_host place_among find_pool find_host in_use capacity make_capacity refusal_for
    sort_by place_by ◌>>=◌ string_dec
placed = refl

placement_host-IsPlacement_example :
    (p : Pool) × (find_pool "linux" fleet.pools ≡ ok p)
    × IsPlacement fleet p known known fleet.hosts (some "h2")
placement_host-IsPlacement_example =
    placement_host-IsPlacement fleet fleet "linux" known known (some "h2") placed
