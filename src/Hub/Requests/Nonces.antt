-- ===== src/Hub/Requests/Nonces.antt =====
-- toolchain_creds.py, `decide_request`: runs of decisions and their nonces.
use aiggp_agentic_framework.Base.{
  String, Bool, true, false, Option, none, some, List, [], ◌∷◌, ◌≡◌, refl, sym, ap, ◌∙◌, arith, inl,
  inr, Bool-cases, contains, contains-snoc, ==_refl, some-injective, if◌then◌else◌, ◌==◌,
}
use aiggp_agentic_framework.Hub.Requests.{Row}
use aiggp_agentic_framework.Hub.Requests.Decide
use aiggp_agentic_framework.Hub.Requests.Decide.{
  Decision, Document, decide_request, at_row, consumed_after, is_nonce_consumed, is_applied, Answer,
  decide, decide_row, row_nonces_after,
}
use aiggp_agentic_framework.Hub.Requests.Change.{Refusal-success}
use aiggp_agentic_framework.Hub.Requests.Decisions.{Applied, decide-cases}

-- a run of decisions, each with the id of its request
module _ (suppress_until : String → String) where
  unfoldable pub decide_all : List (String × Decision) → Document → Document
  decide_all [] doc = doc
  decide_all ((id, d) ∷ ds) doc = decide_all ds (decide_request suppress_until id d doc).0

  -- whether a decision applies to the request with the id
  abbrev pub applies : String → Decision → Document → Bool
  applies id d doc = is_applied (decide_request suppress_until id d doc).1

  at_row-applied :
      (id : String) (f : Row → Row × Answer) (rows : List Row)
      → ((row : Row) → is_applied (f row).1 ≡ false)
      → is_applied (at_row id f rows).1 ≡ false
  unfolding at_row
  at_row-applied id f [] none_ = refl
  at_row-applied id f (r ∷ rs) none_ = elim (Bool-cases (r.id == id)) [
    | inl p ↦ rw p (none_ r)
    | inr p ↦ rw p (at_row-applied id f rs none_)
  ]

  consumed-not_applied :
      (d : Decision) (consumed : String → Bool) (n : String)
      → d.nonce ≡ some n
      → consumed n ≡ true
      → (row : Row) → is_applied (decide_row suppress_until d consumed row).1 ≡ false
  unfolding decide_row
  consumed-not_applied d consumed n has spent row =
      elim (decide-cases suppress_until d consumed row) [
        | inl a ↦ absurd (clash a)
        | inr r ↦ Refusal-success r
      ]
    where
      clash : Applied suppress_until d consumed row (decide suppress_until d consumed row) → ⊥
      clash a =
          absurd
            (ground (arith, a.fresh, spent, ap consumed (some-injective (sym has ∙ a.has_nonce))))

  add_once-contains :
      (ns : List String) (m n : String)
      → contains ns n ≡ true
      → contains (Decide.add_once ns m) n ≡ true
  add_once-contains ns m n h = elim (Bool-cases (contains ns m)) [
    | inl p ↦ rw p h
    | inr p ↦ rw (p, contains-snoc ns n m, h) refl
  ]

  add_once_own : (ns : List String) (n : String) → contains (Decide.add_once ns n) n ≡ true
  add_once_own ns n = elim (Bool-cases (contains ns n)) [
    | inl p ↦ rw p p
    | inr p ↦ rw (p, contains-snoc ns n n, p) (==_refl n)
  ]

  kept_if :
      (b : Bool) (o : Option String) (ns : List String) (n : String)
      → contains ns n ≡ true
      → contains (if b then Decide.add_if_any o ns else ns) n ≡ true
  kept_if true (some m) ns n h = add_once-contains ns m n h
  kept_if true none ns n h = h
  kept_if false o ns n h = h

  consumed-kept :
      (id : String) (d : Decision) (doc : Document) (n : String)
      → is_nonce_consumed doc n ≡ true
      → is_nonce_consumed (decide_request suppress_until id d doc).0 n ≡ true
  unfolding decide_request consumed_after
  consumed-kept id d doc n h = kept_if _ d.nonce doc.consumed_nonces n h

  consumed-after_all :
      (ds : List (String × Decision)) (doc : Document) (n : String)
      → is_nonce_consumed doc n ≡ true
      → is_nonce_consumed (decide_all ds doc) n ≡ true
  unfolding decide_all
  consumed-after_all [] doc n h = h
  consumed-after_all ((id, d) ∷ ds) doc n h = consumed-after_all ds _ n (consumed-kept id d doc n h)

  applied-consumes :
      (id : String) (d : Decision) (doc : Document) (n : String)
      → d.nonce ≡ some n
      → applies id d doc ≡ true
      → is_nonce_consumed (decide_request suppress_until id d doc).0 n ≡ true
  unfolding decide_request consumed_after
  applied-consumes id d doc n has h = rw (h, has) (add_once_own doc.consumed_nonces n)

  -- When a decision with a nonce has applied to some request, no later decision with that nonce
  -- applies to any request of the document, whatever decisions came between.
  pub nonce_once :
      (id : String) (d : Decision) (doc : Document) (n : String)
      → d.nonce ≡ some n
      → applies id d doc ≡ true
      → (between : List (String × Decision)) → (id' : String) (d' : Decision) → d'.nonce ≡ some n
      → applies id' d' (decide_all between (decide_request suppress_until id d doc).0) ≡ false
  unfolding decide_request
  nonce_once id d doc n has h between id' d' has' =
      let doc' = decide_all between (decide_request suppress_until id d doc).0 in
      at_row-applied id' _ doc'.requests (
        consumed-not_applied d' (is_nonce_consumed doc') n has'
          (consumed-after_all between _ n (applied-consumes id d doc n has h)))
