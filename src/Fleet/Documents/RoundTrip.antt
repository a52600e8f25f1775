-- ===== src/Fleet/Documents/RoundTrip.antt =====
-- documents.py: a desired state that is written as a document and read back.
use aiggp_agentic_framework.Base.{
  ℕ, String, true, Option, List, [], ◌∷◌, Result, ok, ◌>>=◌, each, All, string_dec, ◌≡◌, refl,
}
use aiggp_agentic_framework.Fleet.Values.{
  Pool, Host, check_repository, check_pool, check_host, check_assignment, check_drain,
  check_rollout,
}
use aiggp_agentic_framework.Fleet.Desired.{DesiredState, check_state}
use aiggp_agentic_framework.Fleet.Wire.{Json, string, member_of, member_names}
use aiggp_agentic_framework.Fleet.Documents.Fields.{
  DocumentError, is_secret, clean, clean_items, shape, open_document, as_text, read_items,
}
use aiggp_agentic_framework.Fleet.Documents.Write.{
  runtime_text, items_of, pool_to_document, host_to_document, to_document, repository_to_document,
  assignment_to_document, drain_to_document, rollout_to_document,
}
use aiggp_agentic_framework.Fleet.Documents.Read.{
  runtime_of, pool_from_document, host_from_document, from_document, repository_from_document,
  assignment_from_document, drain_from_document, rollout_from_document,
}
use aiggp_agentic_framework.Fleet.Documents.Parts.{
  clean-optional, as_optional-text, trust_named-text, runtime_named-text, host_state_named-text,
  repository_from-to, assignment_from-to, drain_from-to, rollout_from-to,
}
use aiggp_agentic_framework.Fleet.Documents.Labels.{
  ReadsBack, read_items-items_of, clean_items-items_of, texts-ReadsBack, runtimes-ReadsBack,
  IsLabels, labels_of-document, clean_members-labels,
}

texts_back :
    (name : String) (xs : List String) → read_items (as_text name) (items_of string xs) ≡ ok xs
texts_back name xs = read_items-items_of string (as_text name) xs (texts-ReadsBack name xs)

texts_clean : (xs : List String) → clean_items (items_of string xs) ≡ true
texts_clean xs = clean_items-items_of string (as_text "") xs (texts-ReadsBack "" xs)

host_from-to :
    (h : Host)
    → check_host h ≡ ok tt
    → IsLabels h.labels
    → (clean (host_to_document h) ≡ true) × (host_from_document (host_to_document h) ≡ ok h)
unfolding host_from_document host_to_document open_document ◌>>=◌ each shape clean is_secret
    member_of member_names string_dec
host_from-to h valid plain =
    let c1 = texts_clean h.architectures in
    let c2 =
      clean_items-items_of (λ r. string (runtime_text r)) runtime_of h.runtimes
        (runtimes-ReadsBack h.runtimes) in
    let c3 = clean_members-labels h.labels plain.names_once plain.no_secret in
    let c4 = texts_clean h.allowed_pools in
    (
      rw (c1, c2, c3, c4) refl,
      rw
          (
            c1,
            c2,
            c3,
            c4,
            texts_back "architectures" h.architectures,
            read_items-items_of (λ r. string (runtime_text r)) runtime_of h.runtimes
                (runtimes-ReadsBack h.runtimes),
            labels_of-document h.labels plain.names_once,
            plain.in_order,
            texts_back "allowed_pools" h.allowed_pools,
            host_state_named-text h.state,
            valid,
          )
          refl,
    )

pool_from-to :
    (p : Pool)
    → check_pool p ≡ ok tt
    → IsLabels p.required_labels
    → (clean (pool_to_document p) ≡ true) × (pool_from_document (pool_to_document p) ≡ ok p)
unfolding pool_from_document pool_to_document open_document ◌>>=◌ each shape clean is_secret
    member_of member_names string_dec
pool_from-to p valid plain =
    let c1 = texts_clean p.allowed_repositories in
    let c2 = clean-optional p.runner_group in
    let c3 = clean_members-labels p.required_labels plain.names_once plain.no_secret in
    let c4 = texts_clean p.architectures in
    (
      rw (c1, c2, c3, c4) refl,
      rw
          (
            c1,
            c2,
            c3,
            c4,
            texts_back "allowed_repositories" p.allowed_repositories,
            as_optional-text "runner_group" p.runner_group,
            labels_of-document p.required_labels plain.names_once,
            plain.in_order,
            texts_back "architectures" p.architectures,
            trust_named-text p.trust_class,
            runtime_named-text p.runtime,
            valid,
          )
          refl,
    )

-- A desired state whose values their constructors have checked, with label sets as documents have
-- them.
pub record IsBuilt (instant : String → Option ℕ) (s : DesiredState) : Type 0 where
  pub whole : check_state s ≡ ok tt
  pub each_repository : All (λ r. check_repository r ≡ ok tt) s.repositories
  pub each_pool : All (λ p. (check_pool p ≡ ok tt) × IsLabels p.required_labels) s.pools
  pub each_host : All (λ h. (check_host h ≡ ok tt) × IsLabels h.labels) s.hosts
  pub each_assignment : All (λ a. check_assignment instant a ≡ ok tt) s.assignments
  pub each_drain : All (λ d. check_drain instant d ≡ ok tt) s.drains
  pub each_rollout : All (λ r. check_rollout instant r ≡ ok tt) s.rollouts

All-ReadsBack :
    {A : Type 0} {P : A → Type 0} (write : A → Json) (read : Json → Result DocumentError A)
    → ((x : A) → P x → (clean (write x) ≡ true) × (read (write x) ≡ ok x))
    → (xs : List A) → All P xs
    → (clean_items (items_of write xs) ≡ true) × (read_items read (items_of write xs) ≡ ok xs)
All-ReadsBack {A} {P} write read back xs h =
    (clean_items-items_of write read xs (go xs h), read_items-items_of write read xs (go xs h))
  where
    go : (ys : List A) → All P ys → ReadsBack write read ys
    go [] k = tt
    go (y ∷ ys) (k, rest) = (back y k, go ys rest)

-- A desired state whose values have passed their constructors, and whose label sets have unique names
-- in order that do not look like secrets, reads back from its document as it was.
pub from-to_document :
    (instant : String → Option ℕ) (s : DesiredState)
    → IsBuilt instant s
    → from_document instant (to_document s) ≡ ok s
unfolding from_document to_document open_document ◌>>=◌ each shape clean is_secret member_of
    member_names string_dec
from-to_document instant s b =
    let (c1, r1) =
      All-ReadsBack repository_to_document repository_from_document repository_from-to
        s.repositories b.each_repository in
    let (c2, r2) =
      All-ReadsBack pool_to_document pool_from_document (λ p (v, l). pool_from-to p v l) s.pools
        b.each_pool in
    let (c3, r3) =
      All-ReadsBack host_to_document host_from_document (λ h (v, l). host_from-to h v l) s.hosts
        b.each_host in
    let (c4, r4) =
      All-ReadsBack assignment_to_document (assignment_from_document instant)
        (assignment_from-to instant) s.assignments b.each_assignment in
    let (c5, r5) =
      All-ReadsBack drain_to_document (drain_from_document instant) (drain_from-to instant) s.drains
        b.each_drain in
    let (c6, r6) =
      All-ReadsBack rollout_to_document (rollout_from_document instant) (rollout_from-to instant)
        s.rollouts b.each_rollout in
    rw (c1, c2, c3, c4, c5, c6, r1, r2, r3, r4, r5, r6, b.whole) refl
