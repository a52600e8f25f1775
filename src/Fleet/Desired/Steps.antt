-- ===== src/Fleet/Desired/Steps.antt =====
-- The operations of the desired state are steps of its specification.
use aiggp_agentic_framework.Base.{
  ℕ, ◌+◌, ◌-◌, ◌<◌, String, ◌≡◌, refl, sym, ◌∙◌, >>=-eq-ok, ok-injective, require-ok, refuse_if-ok,
  nat_eq-to_eq, false, Option, none, some, List, [], ◌∷◌, ok, ◌>>=◌, map, arith, nat_eq,
}
use aiggp_agentic_framework.Fleet.Values.{
  Pool, Host, HostState, Assignment, Drain, make_capacity, Capacity, with_image,
}
use aiggp_agentic_framework.Fleet.Desired.{
  DesiredState, check_state, find_host, in_use, capacity, bumped, refuse_some, set_host_state,
  set_image, with_host, with_pool, release, complete_drain, end_drain, with_assignment,
  with_release, with_drain, with_drain_complete, with_host_returned, with_rollout,
}
use aiggp_agentic_framework.Fleet.Desired.Spec.{
  assigns, releases, drains, completes, returns, rolls_out, Step, assigned, released, drain_begun,
  drain_completed, returned, rolled_out, HostMoves, Releases, DrainsComplete, DrainsEnd, ImageMoves,
}

bumped-check : (t u : DesiredState) → bumped t ≡ ok u → check_state u ≡ ok tt
unfolding bumped ◌>>=◌
bumped-check t u h =
    let (x, p, q) = >>=-eq-ok _ _ h in
    let e : record t { revision = t.revision + 1 } ≡ u = ok-injective _ _ q in rw (← e) p

pub set_host_state-HostMoves :
    (id : String) (st : HostState) (hs : List Host) → HostMoves id st hs (set_host_state id st hs)
unfolding set_host_state
set_host_state-HostMoves id st [] = tt
set_host_state-HostMoves id st (h ∷ hs) =
    ((λ e. rw e refl, λ e. rw e refl), set_host_state-HostMoves id st hs)

pub release-Releases :
    (id at : String) (xs : List Assignment) → Releases id at xs (release id at xs)
unfolding release
release-Releases id at [] = tt
release-Releases id at (a ∷ rest) = ((λ e. rw e refl, λ e. rw e refl), release-Releases id at rest)

complete_drain-DrainsComplete :
    (id at : String) (ds : List Drain) → DrainsComplete id at ds (map (complete_drain id at) ds)
complete_drain-DrainsComplete id at [] = tt
complete_drain-DrainsComplete id at (d ∷ ds) =
    ((λ e. rw e refl, λ e. rw e refl), complete_drain-DrainsComplete id at ds)

end_drain-DrainsEnd :
    (id at : String) (ds : List Drain) → DrainsEnd id at ds (map (end_drain id at) ds)
end_drain-DrainsEnd id at [] = tt
end_drain-DrainsEnd id at (d ∷ ds) =
    ((λ e. rw e refl, λ e. rw e refl), end_drain-DrainsEnd id at ds)

set_image-ImageMoves :
    (id : String) (q : Pool) (ps : List Pool)
    → ImageMoves id q.revision q.image_digest q.rollback_image_digest ps (set_image id q ps)
unfolding set_image
set_image-ImageMoves id q [] = tt
set_image-ImageMoves id q (p ∷ ps) =
    ((λ e. rw e refl, λ e. rw e refl), set_image-ImageMoves id q ps)

bumped-eq : (t u : DesiredState) → bumped t ≡ ok u → u ≡ record t { revision = t.revision + 1 }
unfolding bumped ◌>>=◌
bumped-eq t u h = ground arith

with_host-eq :
    (id : String) (st : HostState) (hs hs' : List Host)
    → with_host id st hs ≡ ok hs'
    → hs' ≡ set_host_state id st hs
unfolding with_host ◌>>=◌
with_host-eq id st hs hs' h = ground arith

with_pool-eq :
    (id : String) (q : Pool) (ps ps' : List Pool)
    → with_pool id q ps ≡ ok ps'
    → ps' ≡ set_image id q ps
unfolding with_pool ◌>>=◌
with_pool-eq id q ps ps' h = ground arith

room_left :
    (host : Host) (n : ℕ) {c : Capacity}
    → make_capacity host.slots n ≡ ok c
    → nat_eq (c.total - c.in_use) 0 ≡ false
    → n < host.slots
unfolding make_capacity
room_left host n h k = ground arith

capacity-in_use :
    (id : String) (s : DesiredState) (h : Host) {c : Capacity}
    → find_host id s.hosts ≡ ok h
    → capacity id s ≡ ok c
    → make_capacity h.slots (in_use id s.assignments) ≡ ok c
unfolding capacity ◌>>=◌
capacity-in_use id s h found k = ground arith

in_use-of_capacity : (n m : ℕ) {c : Capacity} → make_capacity n m ≡ ok c → c.in_use ≡ m
unfolding make_capacity
in_use-of_capacity n m h = ground arith

refuse_some-ok : (o : Option String) {x : Unit {0}} → refuse_some o ≡ ok x → o ≡ none
refuse_some-ok none h = refl
refuse_some-ok (some r) h = cc

module _ (instant : String → Option ℕ) where
  pub with_release-Step :
      (id at : String) (s u : DesiredState)
      → with_release instant id at s ≡ ok u
      → Step instant at s u (releases id)
  unfolding with_release
  with_release-Step id at s u h =
      let (a, found, h1) = >>=-eq-ok _ _ h in
      let (x, live, h2) = >>=-eq-ok _ _ h1 in
      let (t, ts, h3) = >>=-eq-ok _ _ h2 in
      let (y, checked, h4) = >>=-eq-ok _ _ h3 in
      released a (release id at s.assignments) found (require-ok _ _ live)
        (release-Releases id at s.assignments) (bumped-eq _ u h4) (bumped-check _ u h4)

  pub with_assignment-Step :
      (id request pool host at : String) (s u : DesiredState)
      → with_assignment instant id request pool host at s ≡ ok u
      → Step instant at s u (assigns id request pool host)
  unfolding with_assignment
  with_assignment-Step id request pool host at s u h =
      let (p, pool_found, h1) = >>=-eq-ok _ _ h in
      let (k, host_found, h2) = >>=-eq-ok _ _ h1 in
      let (x, allowed, h3) = >>=-eq-ok _ _ h2 in
      let (room, known, h4) = >>=-eq-ok _ _ h3 in
      let (y, left, h5) = >>=-eq-ok _ _ h4 in
      let (z, checked, h6) = >>=-eq-ok _ _ h5 in
      let (w, fresh, h7) = >>=-eq-ok _ _ h6 in
      assigned p k pool_found host_found (refuse_some-ok _ allowed)
        (room_left k _ (capacity-in_use host s k host_found known) (refuse_if-ok _ _ left)) checked
        (refuse_if-ok _ _ fresh) (bumped-eq _ u h7) (bumped-check _ u h7)

  pub with_drain-Step :
      (id reason at : String) (s u : DesiredState)
      → with_drain instant id reason at s ≡ ok u
      → Step instant at s u (drains id reason)
  unfolding with_drain
  with_drain-Step id reason at s u h =
      let (k, found, h1) = >>=-eq-ok _ _ h in
      let (x, live, h2) = >>=-eq-ok _ _ h1 in
      let (y, checked, h3) = >>=-eq-ok _ _ h2 in
      let (hosts, moved, h4) = >>=-eq-ok _ _ h3 in
      drain_begun k hosts found (require-ok _ _ live) checked
        (rw (with_host-eq id HostState.draining s.hosts hosts moved)
          (set_host_state-HostMoves id HostState.draining s.hosts))
        (bumped-eq _ u h4) (bumped-check _ u h4)

  pub with_drain_complete-Step :
      (id at : String) (s u : DesiredState)
      → with_drain_complete instant id at s ≡ ok u
      → Step instant at s u (completes id)
  unfolding with_drain_complete
  with_drain_complete-Step id at s u h =
      let (k, found, h1) = >>=-eq-ok _ _ h in
      let (x, live, h2) = >>=-eq-ok _ _ h1 in
      let (room, known, h3) = >>=-eq-ok _ _ h2 in
      let (y, idle, h4) = >>=-eq-ok _ _ h3 in
      let (z, checked, h5) = >>=-eq-ok _ _ h4 in
      let (hosts, moved, h6) = >>=-eq-ok _ _ h5 in
      drain_completed k hosts _ found (require-ok _ _ live)
        (sym (in_use-of_capacity _ _ (capacity-in_use id s k found known))
          ∙ nat_eq-to_eq _ _ (require-ok _ _ idle))
        (rw (with_host-eq id HostState.drained s.hosts hosts moved)
          (set_host_state-HostMoves id HostState.drained s.hosts))
        (complete_drain-DrainsComplete id at s.drains) (bumped-eq _ u h6) (bumped-check _ u h6)

  pub with_host_returned-Step :
      (id at : String) (s u : DesiredState)
      → with_host_returned instant id at s ≡ ok u
      → Step instant at s u (returns id)
  unfolding with_host_returned
  with_host_returned-Step id at s u h =
      let (k, found, h1) = >>=-eq-ok _ _ h in
      let (x, live, h2) = >>=-eq-ok _ _ h1 in
      let (y, checked, h3) = >>=-eq-ok _ _ h2 in
      let (hosts, moved, h4) = >>=-eq-ok _ _ h3 in
      returned k hosts _ found (require-ok _ _ live)
        (rw (with_host-eq id HostState.active s.hosts hosts moved)
          (set_host_state-HostMoves id HostState.active s.hosts))
        (end_drain-DrainsEnd id at s.drains) (bumped-eq _ u h4) (bumped-check _ u h4)

  pub with_rollout-Step :
      (id pool image at : String) (s u : DesiredState)
      → with_rollout instant id pool image at s ≡ ok u
      → Step instant at s u (rolls_out id pool image)
  unfolding with_rollout
  with_rollout-Step id pool image at s u h =
      let (p, found, h1) = >>=-eq-ok _ _ h in
      let (x, pinned, h2) = >>=-eq-ok _ _ h1 in
      let (y, other, h3) = >>=-eq-ok _ _ h2 in
      let (z, checked, h4) = >>=-eq-ok _ _ h3 in
      let (v, fits, h5) = >>=-eq-ok _ _ h4 in
      let (pools, moved, h6) = >>=-eq-ok _ _ h5 in
      rolled_out p pools found pinned (refuse_if-ok _ _ other) checked
        (rw (with_pool-eq pool (with_image image p.image_digest p) s.pools pools moved)
          (set_image-ImageMoves pool (with_image image p.image_digest p) s.pools))
        (bumped-eq _ u h6) (bumped-check _ u h6)
