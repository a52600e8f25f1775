-- ===== src/Fleet/Desired/Spec.antt =====
-- What the manager may do to the desired state, as a step relation: what each operation requires of
-- the state, and the state that it makes. A step leaves every value that it does not name.
use aiggp_agentic_framework.Base.{
  ℕ, ◌+◌, ◌<◌, String, ◌≡◌, true, false, ◌&&◌, Option, none, some, List, [], ◌∷◌, ◌++◌, ok,
  contains, ◌==◌,
}
use aiggp_agentic_framework.Base.Updates.{Updates}
use aiggp_agentic_framework.Fleet.Values.{
  Pool, Host, HostState, Assignment, Drain, DrainState, Rollout, RolloutState, digest,
  check_assignment, check_drain, check_rollout, is_active, is_draining_host, is_drained_host,
  is_assigned, is_draining, is_drained, refusal_for,
}
use aiggp_agentic_framework.Fleet.Desired.{
  DesiredState, assignment_ids, check_state, find_pool, find_host, find_assignment, in_use,
}

pub data Operation : Type 0 where
  assigns : (assignment_id request_id pool_id host_id : String) → Operation
  releases : (assignment_id : String) → Operation
  drains : (host_id reason : String) → Operation
  completes : (host_id : String) → Operation
  returns : (host_id : String) → Operation
  rolls_out : (rollout_id pool_id image : String) → Operation

abbrev pub issued : String → String → String → String → String → Assignment
issued id request pool host at = record {
  assignment_id = id;
  request_id = request;
  pool_id = pool;
  host_id = host;
  issued_at = at;
  released_at = none;
}

abbrev pub requested : String → String → String → Drain
requested host reason at = record {
  host_id = host;
  reason = reason;
  requested_at = at;
  state = DrainState.draining;
  completed_at = none;
  ended_at = none;
}

abbrev pub started : String → String → String → String → String → Rollout
started id pool old image at = record {
  rollout_id = id;
  pool_id = pool;
  from_image_digest = old;
  to_image_digest = image;
  started_at = at;
  state = RolloutState.in_progress;
}

-- the one host's values before and after
abbrev pub HostMoves : String → HostState → List Host → List Host → Type 0
HostMoves id st = Updates (λ h. h.host_id == id) (λ h. record h { state = st })

abbrev pub Releases : String → String → List Assignment → List Assignment → Type 0
Releases id at = Updates (λ a. a.assignment_id == id) (λ a. record a { released_at = some at })

abbrev pub DrainsComplete : String → String → List Drain → List Drain → Type 0
DrainsComplete id at =
    Updates (λ d. d.host_id == id && is_draining d.state)
      (λ d. record d { state = DrainState.drained; completed_at = some at })

abbrev pub DrainsEnd : String → String → List Drain → List Drain → Type 0
DrainsEnd id at =
    Updates (λ d. d.host_id == id && is_drained d.state)
      (λ d. record d { state = DrainState.ended; ended_at = some at })

abbrev pub ImageMoves : String → ℕ → String → String → List Pool → List Pool → Type 0
ImageMoves id revision image old =
    Updates (λ p. p.pool_id == id)
      (λ p. record p { revision = revision; image_digest = image; rollback_image_digest = old })

pub data Step (instant : String → Option ℕ) (at : String) (s u : DesiredState)
    : Operation → Type 0 where
  assigned :
      {id request pool host : String} (p : Pool) (h : Host)
      → find_pool pool s.pools ≡ ok p
      → find_host host s.hosts ≡ ok h
      → refusal_for h p ≡ none
      → in_use host s.assignments < h.slots
      → check_assignment instant (issued id request pool host at) ≡ ok tt
      → contains (assignment_ids s) id ≡ false
      → u ≡ record s {
        revision = s.revision + 1;
        assignments = s.assignments ++ issued id request pool host at ∷ [];
      }
      → check_state u ≡ ok tt
      → Step instant at s u (assigns id request pool host)
  released :
      {id : String} (a : Assignment) (assignments : List Assignment)
      → find_assignment id s.assignments ≡ ok a
      → is_assigned a ≡ true
      → Releases id at s.assignments assignments
      → u ≡ record s { revision = s.revision + 1; assignments = assignments }
      → check_state u ≡ ok tt
      → Step instant at s u (releases id)
  drain_begun :
      {host reason : String} (h : Host) (hosts : List Host)
      → find_host host s.hosts ≡ ok h
      → is_active h.state ≡ true
      → check_drain instant (requested host reason at) ≡ ok tt
      → HostMoves host HostState.draining s.hosts hosts
      → u ≡ record s {
        revision = s.revision + 1;
        hosts = hosts;
        drains = s.drains ++ requested host reason at ∷ [];
      }
      → check_state u ≡ ok tt
      → Step instant at s u (drains host reason)
  drain_completed :
      {host : String} (h : Host) (hosts : List Host) (drains : List Drain)
      → find_host host s.hosts ≡ ok h
      → is_draining_host h.state ≡ true
      → in_use host s.assignments ≡ 0
      → HostMoves host HostState.drained s.hosts hosts
      → DrainsComplete host at s.drains drains
      → u ≡ record s { revision = s.revision + 1; hosts = hosts; drains = drains }
      → check_state u ≡ ok tt
      → Step instant at s u (completes host)
  returned :
      {host : String} (h : Host) (hosts : List Host) (drains : List Drain)
      → find_host host s.hosts ≡ ok h
      → is_drained_host h.state ≡ true
      → HostMoves host HostState.active s.hosts hosts
      → DrainsEnd host at s.drains drains
      → u ≡ record s { revision = s.revision + 1; hosts = hosts; drains = drains }
      → check_state u ≡ ok tt
      → Step instant at s u (returns host)
  rolled_out :
      {id pool image : String} (p : Pool) (pools : List Pool)
      → find_pool pool s.pools ≡ ok p
      → digest image "rollout.to_image_digest" ≡ ok tt
      → (image == p.image_digest) ≡ false
      → check_rollout instant (started id pool p.image_digest image at) ≡ ok tt
      → ImageMoves pool (p.revision + 1) image p.image_digest s.pools pools
      → u ≡ record s {
        revision = s.revision + 1;
        pools = pools;
        rollouts = s.rollouts ++ started id pool p.image_digest image at ∷ [];
      }
      → check_state u ≡ ok tt
      → Step instant at s u (rolls_out id pool image)
