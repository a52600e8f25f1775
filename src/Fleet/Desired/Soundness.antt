-- ===== src/Fleet/Desired/Soundness.antt =====
-- What holds of the desired state at every revision.
use aiggp_agentic_framework.Base.{
  ℕ, Option, ◌+◌, ◌≤◌, String, ◌≡◌, refl, ap, true, none, List, [], ◌∷◌, ◌++◌, ok, arith, unique,
}
use aiggp_agentic_framework.Fleet.Values.{
  Pool, Host, HostState, Assignment, Drain, is_active, is_drained_host, refusal_for,
}
use aiggp_agentic_framework.Fleet.Desired.{
  DesiredState, assignment_ids, find_host, in_use, set_host_state, release,
}
use aiggp_agentic_framework.Base.Updates.{Updates-unique}
use aiggp_agentic_framework.Fleet.Desired.Spec.{
  Operation, Step, assigned, released, drain_begun, drain_completed, returned, rolled_out,
  HostMoves, Releases, issued,
}
use aiggp_agentic_framework.Fleet.Desired.Steps.{set_host_state-HostMoves, release-Releases}
use aiggp_agentic_framework.Fleet.Desired.Occupancy.{
  ids, in_use-append, in_use-release_le, ids-release, unique-append, find_host-set_host_state,
}

-- No assignment id stands twice, no host carries more work than it has slots, and a drained host
-- carries none.
pub record IsSound (s : DesiredState) : Type 0 where
  pub ids_unique : unique (assignment_ids s) ≡ true
  pub fits :
      (id : String) (h : Host) → find_host id s.hosts ≡ ok h → in_use id s.assignments ≤ h.slots
  pub drained_idle :
      (id : String) (h : Host)
      → find_host id s.hosts ≡ ok h
      → is_drained_host h.state ≡ true
      → in_use id s.assignments ≡ 0

refusal-active : (h : Host) (p : Pool) → refusal_for h p ≡ none → is_active h.state ≡ true
unfolding refusal_for
refusal-active h p e = ground arith

same_host :
    (id : String) (hs : List Host) (h k : Host)
    → find_host id hs ≡ ok h
    → find_host id hs ≡ ok k
    → h ≡ k
same_host id hs h k p q = cc

ids-append :
    (rest : List Assignment) (a : Assignment)
    → ids (rest ++ a ∷ []) ≡ ids rest ++ a.assignment_id ∷ []
ids-append [] a = refl
ids-append (b ∷ rest) a = ap (λ xs. b.assignment_id ∷ xs) (ids-append rest a)

-- a host whose state was set carries the work that it carried, on the slots that it had
module _ (id k : String) (st : HostState) (hs : List Host) (rest : List Assignment) (h' : Host)
    (found : find_host id (set_host_state k st hs) ≡ ok h') where
  fits_after :
      ((g : Host) → find_host id hs ≡ ok g → in_use id rest ≤ g.slots) → in_use id rest ≤ h'.slots
  fits_after fit =
      let (g, p, slots, state) = find_host-set_host_state id k st hs h' found in
      omega (arith, fit g p, slots)

  idle_after :
      ((g : Host) → find_host id hs ≡ ok g → is_drained_host g.state ≡ true → in_use id rest ≡ 0)
      → (is_drained_host st ≡ true → in_use k rest ≡ 0)
      → is_drained_host h'.state ≡ true
      → in_use id rest ≡ 0
  idle_after idle set d =
      let (g, p, slots, state) = find_host-set_host_state id k st hs h' found in
      ground (arith, idle g p, set)

moved_hosts :
    (id : String) (st : HostState) (hs hs' : List Host)
    → HostMoves id st hs hs'
    → hs' ≡ set_host_state id st hs
moved_hosts id st hs hs' m = Updates-unique _ _ hs _ _ m (set_host_state-HostMoves id st hs)

released_assignments :
    (id at : String) (xs ys : List Assignment) → Releases id at xs ys → ys ≡ release id at xs
released_assignments id at xs ys m = Updates-unique _ _ xs _ _ m (release-Releases id at xs)

-- A state that differs in the state of one host, in its drains and in its revision is sound too, if
-- the host is idle where it is drained.
after_move :
    {s : DesiredState} {n : ℕ} {ds : List Drain} (k : String) (st : HostState)
    → IsSound s
    → (is_drained_host st ≡ true → in_use k s.assignments ≡ 0)
    → IsSound (record s { revision = n; hosts = set_host_state k st s.hosts; drains = ds })
after_move {s} k st v set = record {
  ids_unique = v.ids_unique;
  fits = λ id g q. fits_after id k st s.hosts s.assignments g q (v.fits id);
  drained_idle = λ id g q. idle_after id k st s.hosts s.assignments g q (v.drained_idle id) set;
}

module _ (instant : String → Option ℕ) (at : String) (s u : DesiredState) where
  pub Step-IsSound : (op : Operation) → Step instant at s u op → IsSound s → IsSound u
  Step-IsSound op
        (assigned {id = id} {request = request} {pool = pool} {host = host} p h _ found allowed room
          checked fresh e valid)
        v =
      rw e (record {
        ids_unique = rw ids-append (unique-append _ _ v.ids_unique fresh);
        fits = λ k g q. ground (
          arith,
          in_use-append k (issued id request pool host at) s.assignments,
          v.fits k g q,
          same_host k s.hosts h g,
        );
        drained_idle = λ k g q d. ground (
          arith,
          in_use-append k (issued id request pool host at) s.assignments,
          v.drained_idle k g q d,
          same_host k s.hosts h g,
          refusal-active h p allowed,
        );
      })
  Step-IsSound op (released {id = k} a xs found live r e valid) v =
      rw (e, released_assignments k at s.assignments xs r)
        (record {
          ids_unique = rw ids-release v.ids_unique;
          fits = λ id h q. omega (arith, in_use-release_le id k at s.assignments, v.fits id h q);
          drained_idle = λ id h q d.
              omega (arith, in_use-release_le id k at s.assignments, v.drained_idle id h q d);
        })
  Step-IsSound op (drain_begun {host = k} h hs found live checked m e valid) v =
      rw (e, moved_hosts k HostState.draining s.hosts hs m)
        (after_move k HostState.draining v (λ x. cc))
  Step-IsSound op (drain_completed {host = k} h hs ds found live idle m d e valid) v =
      rw (e, moved_hosts k HostState.drained s.hosts hs m)
        (after_move k HostState.drained v (λ x. idle))
  Step-IsSound op (returned {host = k} h hs ds found live m d e valid) v =
      rw (e, moved_hosts k HostState.active s.hosts hs m)
        (after_move k HostState.active v (λ x. cc))
  Step-IsSound op (rolled_out p ps found pinned other checked m e valid) v =
      rw e (record { ids_unique = v.ids_unique; fits = v.fits; drained_idle = v.drained_idle })

  pub Step-revision : (op : Operation) → Step instant at s u op → u.revision ≡ s.revision + 1
  Step-revision op (assigned p h _ found allowed room checked fresh e valid) = rw e
  Step-revision op (released a xs found live r e valid) = rw e
  Step-revision op (drain_begun h hs found live checked m e valid) = rw e
  Step-revision op (drain_completed h hs ds found live idle m d e valid) = rw e
  Step-revision op (returned h hs ds found live m d e valid) = rw e
  Step-revision op (rolled_out p ps found pinned other checked m e valid) = rw e
