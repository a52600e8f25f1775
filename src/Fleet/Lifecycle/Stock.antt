-- ===== src/Fleet/Lifecycle/Stock.antt =====
-- adapters.py, `WarmPool`, and lifecycle.py, `admit_replacement`: what an admission adds.
use aiggp_agentic_framework.Base.{
  ℕ, ◌+◌, ◌≤◌, String, true, false, Option, some, List, [], ◌∷◌, ◌++◌, ok, map_err-ok, >>=-eq-ok,
  >>=-ok, require-ok, refuse_if-ok, ok-injective, leb→le, nat_eq, length, length-append, contains,
  contains-snoc, unique, ◌≡◌, refl, sym, ap, ◌∙◌, arith,
}
use aiggp_agentic_framework.Fleet.Lifecycle.Gate.{
  AdmissionGate, WarmPool, WarmInstance, instance_ids, check_warm_pool, admit, retire, without,
  check_replacing, admit_replacement,
}

admit-ok :
    (i : WarmInstance) (w w' : WarmPool)
    → admit i w ≡ ok w'
    → (w' ≡ record w { instances = w.instances ++ i ∷ [] }) × (check_warm_pool w' ≡ ok tt)
unfolding admit
admit-ok i w w' h =
    let (u, p, q) = >>=-eq-ok _ _ h in let same = ok-injective _ w' q in (sym same, rw (sym same) p)

check_warm_pool-facts :
    (w : WarmPool)
    → check_warm_pool w ≡ ok tt
    → (unique (instance_ids w.instances) ≡ true) × (length w.instances ≤ w.pool.warm_max)
unfolding check_warm_pool
check_warm_pool-facts w h =
    let (a, a1, h1) = >>=-eq-ok _ _ h in
    let (b, b1, h2) = >>=-eq-ok _ _ h1 in (require-ok _ _ a1, leb→le _ _ (require-ok _ _ h2))

-- An admission that succeeds puts the new instance at the end of the stock, leaves a pool that its
-- constructor accepts and that is not over its ceiling, and is for no instance that the gate waits
-- for.
pub admit_replacement-fits :
    (g : AdmissionGate) (w w' : WarmPool) (i : WarmInstance) (replacing : Option String)
    → admit_replacement g w i replacing ≡ ok w'
    → (w' ≡ record w { instances = w.instances ++ i ∷ [] })
      × (check_warm_pool w' ≡ ok tt)
      × (length w'.instances ≤ w'.pool.warm_max)
      × ((id : String) → replacing ≡ some id → contains g.unaccounted id ≡ false)
unfolding admit_replacement
admit_replacement-fits g w w' i replacing h =
    let (a, a1, h1) = >>=-eq-ok _ _ h in
    let (b, b1, h2) = >>=-eq-ok _ _ h1 in
    let (grown, good) = admit-ok i w w' (map_err-ok _ _ h2) in
    (grown, good, (check_warm_pool-facts w' good).1, λ id named. free id (rw named at a1))
  where
    free : (id : String) → check_replacing g (some id) ≡ ok tt → contains g.unaccounted id ≡ false
    free id p = let (c, c1, p1) = >>=-eq-ok _ _ p in refuse_if-ok _ _ p1

unique-snoc_absent :
    (xs : List String) (x : String) → unique (xs ++ x ∷ []) ≡ true → contains xs x ≡ false
unique-snoc_absent [] x h = refl
unique-snoc_absent (y ∷ ys) x h = ground (arith, unique-snoc_absent ys x, contains-snoc ys y x)

instance_ids-snoc :
    (is : List WarmInstance) (i : WarmInstance)
    → instance_ids (is ++ i ∷ []) ≡ instance_ids is ++ i.instance_id ∷ []
instance_ids-snoc [] i = refl
instance_ids-snoc (x ∷ xs) i = ap (λ r. x.instance_id ∷ r) (instance_ids-snoc xs i)

without-snoc :
    (is : List WarmInstance) (i : WarmInstance)
    → contains (instance_ids is) i.instance_id ≡ false
    → without i.instance_id (is ++ i ∷ []) ≡ is
without-snoc [] i h = ground arith
without-snoc (x ∷ xs) i h = ground (arith, without-snoc xs i)

longer : (n : ℕ) → nat_eq n (n + 1) ≡ false
longer n = ground arith

-- Retiring the instance that was just admitted to a valid pool gives the pool back.
pub retire-admit :
    (i : WarmInstance) (w w' : WarmPool)
    → check_warm_pool w ≡ ok tt
    → admit i w ≡ ok w'
    → retire i.instance_id w' ≡ ok w
unfolding retire
retire-admit i w w' valid h =
    let (grown, good) = admit-ok i w w' h in
    let ids_unique = (check_warm_pool-facts w' good).0 in
    let absent =
      unique-snoc_absent (instance_ids w.instances) i.instance_id
        (rw (grown, instance_ids-snoc w.instances i) at ids_unique) in
    let left = without-snoc w.instances i absent in
    rw grown (
      rw (left, length-append w.instances (i ∷ []), longer (length w.instances))
        (>>=-ok _ _ refl ∙ >>=-ok _ _ valid))
