-- ===== src/Fleet/Lifecycle/Advance.antt =====
-- lifecycle.py, `JobLifecycle`: the effect of its operations.
use mathlib.Core.Path.{subst}
use aiggp_agentic_framework.Base.{
  ℕ, ◌+◌, ◌≤◌, String, true, false, Option, some, List, [], ◌∷◌, Result, ok, err, Result-cases,
  is_ok, if◌then◌else◌, >>=-eq-ok, require-ok, refuse_if-ok, ok-injective, ◌≡◌, refl, sym, ap, ◌∙◌,
  ◌⊎◌, inl, inr, arith,
}
use aiggp_agentic_framework.Fleet.Lifecycle.{ErrorKind, CleanupEvidence, Quarantine, admissible}
use aiggp_agentic_framework.Fleet.Lifecycle.Jobs

-- how far a state is along the machine
unfoldable pub rank : Jobs.JobState → ℕ
rank Jobs.prepulled = 0
rank Jobs.assigned = 1
rank Jobs.running = 2
rank Jobs.destroyed = 4
rank Jobs.proven_clean = 5
rank Jobs.quarantined = 5
rank _ = 3

-- what an accepted operation did
pub record Moved (x y : Jobs.JobLifecycle) : Type 0 where
  pub arrow : Jobs.follows x.state y.state ≡ true
  pub same_instance : y.instance_id ≡ x.instance_id
  pub same_image : y.image_digest ≡ x.image_digest
  pub job_kept :
      Jobs.check_lifecycle x ≡ ok tt → (j : String) → x.job_id ≡ some j → y.job_id ≡ some j
  pub fit : Jobs.check_lifecycle y ≡ ok tt

transition_to-Moved :
    (to : Jobs.JobState) (job : Option String) (x y : Jobs.JobLifecycle)
    → (Jobs.check_lifecycle x ≡ ok tt → (j : String) → x.job_id ≡ some j → job ≡ some j)
    → Jobs.transition_to to job x ≡ ok y
    → Moved x y × (y.state ≡ to)
unfolding Jobs.transition_to
transition_to-Moved to job x y keeps h =
    let (u, p, h1) = >>=-eq-ok _ _ h in
    let (w, q, h2) = >>=-eq-ok _ _ h1 in
    let same = ok-injective _ y h2 in
    (
      subst (Moved x) same (record {
        arrow = require-ok _ _ p;
        same_instance = refl;
        same_image = refl;
        job_kept = keeps;
        fit = q;
      }),
      sym (ap (λ z. z.state) same),
    )

move-Moved :
    (to : Jobs.JobState) (x y : Jobs.JobLifecycle)
    → Jobs.move to x ≡ ok y
    → Moved x y × (y.state ≡ to)
unfolding Jobs.move
move-Moved to x y h = transition_to-Moved to x.job_id x y (λ c j p. p) h

no_job_yet :
    (x : Jobs.JobLifecycle)
    → Jobs.check_lifecycle x ≡ ok tt
    → Jobs.is_prepulled x.state ≡ true
    → Jobs.given x.job_id ≡ false
unfolding Jobs.check_lifecycle
no_job_yet x h p =
    let (a, a1, h1) = >>=-eq-ok _ _ h in
    let (b, b1, h2) = >>=-eq-ok _ _ h1 in
    let (c, c1, h3) = >>=-eq-ok _ _ h2 in ground (arith, refuse_if-ok _ _ c1, p)

offer-Moved :
    (job : String) (x y : Jobs.JobLifecycle)
    → Jobs.offer job x ≡ ok y
    → Moved x y × (y.state ≡ Jobs.assigned)
unfolding Jobs.offer
offer-Moved job x y h =
    let (a, fresh, h1) = >>=-eq-ok _ _ h in
    let (b, b1, h2) = >>=-eq-ok _ _ h1 in
    let (c, c1, h3) = >>=-eq-ok _ _ h2 in
    transition_to-Moved Jobs.assigned (some job) x y
      (λ c j p. absurd (ground (arith, no_job_yet x c (require-ok _ _ fresh), p))) h3

prove_job-Moved :
    (e : CleanupEvidence) (x y : Jobs.JobLifecycle)
    → Jobs.prove_job e x ≡ ok y
    → (Moved x y × (y.state ≡ Jobs.proven_clean))
      × (admissible e ≡ true)
      × (Jobs.same e.instance_id x.instance_id ≡ true)
      × (Jobs.same e.image_digest x.image_digest ≡ true)
unfolding Jobs.prove_job
prove_job-Moved e x y h =
    let (a, a1, h1) = >>=-eq-ok _ _ h in
    let (b, b1, h2) = >>=-eq-ok _ _ h1 in
    let (c, c1, h3) = >>=-eq-ok _ _ h2 in
    (move-Moved Jobs.proven_clean x y h3, require-ok _ _ a1, require-ok _ _ b1, require-ok _ _ c1)

quarantine_job-Moved :
    (q : Quarantine) (x y : Jobs.JobLifecycle)
    → Jobs.quarantine_job q x ≡ ok y
    → Moved x y × (y.state ≡ Jobs.quarantined)
unfolding Jobs.quarantine_job
quarantine_job-Moved q x y h =
    let (a, a1, h1) = >>=-eq-ok _ _ h in move-Moved Jobs.quarantined x y h1

operate-Moved : (o : Jobs.Operation) (x y : Jobs.JobLifecycle) → Jobs.operate o x ≡ ok y → Moved x y
unfolding Jobs.operate
operate-Moved (Jobs.offered job) x y h = (offer-Moved job x y h).0
operate-Moved (Jobs.moves to) x y h = (move-Moved to x y h).0
operate-Moved (Jobs.proves e) x y h = (prove_job-Moved e x y h).0.0
operate-Moved (Jobs.quarantines q) x y h = (quarantine_job-Moved q x y h).0

-- the value after one operation keeps a job that it names
or_keep-job :
    (x : Jobs.JobLifecycle) (o : Jobs.Operation) (r : Result ErrorKind Jobs.JobLifecycle)
    → Jobs.operate o x ≡ r
    → Jobs.check_lifecycle x ≡ ok tt
    → (j : String) → x.job_id ≡ some j
    → (Jobs.check_lifecycle (Jobs.or_keep x r) ≡ ok tt) × ((Jobs.or_keep x r).job_id ≡ some j)
or_keep-job x o (ok y) h c j p = let m = operate-Moved o x y h in (m.fit, m.job_kept c j p)
or_keep-job x o (err e) h c j p = (c, p)

-- A valid instance that names a job names the same job after any operations: it never takes
-- another, accepted or not.
pub one_job :
    (x : Jobs.JobLifecycle) (j : String)
    → Jobs.check_lifecycle x ≡ ok tt
    → x.job_id ≡ some j
    → (os : List Jobs.Operation) → (Jobs.operate_all os x).job_id ≡ some j
unfolding Jobs.operate_all
one_job x j c p [] = p
one_job x j c p (o ∷ os) =
    let (c', p') = or_keep-job x o (Jobs.operate o x) refl c j p in
    one_job (Jobs.or_keep x (Jobs.operate o x)) j c' p' os

follows-rank : (s t : Jobs.JobState) → Jobs.follows s t ≡ true → rank s + 1 ≤ rank t
unfolding rank Jobs.follows
follows-rank s t h = ground arith

rank-top : (s : Jobs.JobState) → rank s ≤ 5
unfolding rank
rank-top s = ground arith

-- how many operations were accepted
unfoldable pub accepted : List Jobs.Operation → Jobs.JobLifecycle → ℕ
accepted [] x = 0
accepted (o ∷ os) x =
    let y = Jobs.operate o x in
    let rest = accepted os (Jobs.or_keep x y) in if is_ok y then rest + 1 else rest

-- Of any operations on an instance, at most five are accepted, less the rank of its state: the
-- machine has no cycle.
pub accepted-rank :
    (os : List Jobs.Operation) (x : Jobs.JobLifecycle) → accepted os x + rank x.state ≤ 5
unfolding accepted
accepted-rank [] x = omega (arith, rank-top x.state)
accepted-rank (o ∷ os) x = elim (Result-cases (Jobs.operate o x)) [
  | inl (y, p) ↦ rw p (
      omega (arith, accepted-rank os y, follows-rank x.state y.state (operate-Moved o x y p).arrow))
  | inr (e, p) ↦ rw p (accepted-rank os x)
]

into_clean : (s : Jobs.JobState) → Jobs.follows s Jobs.proven_clean ≡ true → s ≡ Jobs.destroyed
unfolding Jobs.follows
into_clean s h = ground arith

-- An operation that makes an instance proven clean finds it destroyed, and is the bare move along
-- the table or a proof that is admissible and names this instance and this image.
pub proven_clean_by :
    (o : Jobs.Operation) (x y : Jobs.JobLifecycle)
    → Jobs.operate o x ≡ ok y
    → y.state ≡ Jobs.proven_clean
    → (x.state ≡ Jobs.destroyed)
      × ((o ≡ Jobs.moves Jobs.proven_clean)
          ⊎ ((e : CleanupEvidence) × (o ≡ Jobs.proves e)
              × (admissible e ≡ true)
              × (Jobs.same e.instance_id x.instance_id ≡ true)
              × (Jobs.same e.image_digest x.image_digest ≡ true)))
unfolding Jobs.operate
proven_clean_by o x y h s =
    (into_clean x.state (rw (sym s) ((operate-Moved o x y h).arrow)), how o h)
  where
    how :
        (o : Jobs.Operation)
        → Jobs.operate o x ≡ ok y
        → ((o ≡ Jobs.moves Jobs.proven_clean)
            ⊎ ((e : CleanupEvidence) × (o ≡ Jobs.proves e)
                × (admissible e ≡ true)
                × (Jobs.same e.instance_id x.instance_id ≡ true)
                × (Jobs.same e.image_digest x.image_digest ≡ true)))
    how (Jobs.offered job) h = absurd (ground (arith, sym s ∙ (offer-Moved job x y h).1))
    how (Jobs.moves to) h = inl (ap Jobs.moves (sym (move-Moved to x y h).1 ∙ s))
    how (Jobs.proves e) h =
        let (m, good, instance_, image) = prove_job-Moved e x y h in
        inr (e, refl, good, instance_, image)
    how (Jobs.quarantines q) h = absurd (ground (arith, sym s ∙ (quarantine_job-Moved q x y h).1))
