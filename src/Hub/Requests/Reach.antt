-- ===== src/Hub/Requests/Reach.antt =====
-- The rows that the operations of toolchain_transitions.py, toolchain_evidence.py and
-- toolchain_store.py reach from a new request.
use mathlib.Core.List.{append-nil, append_assoc}
use aiggp_agentic_framework.Base.{
  ◌+◌, String, Bool, true, false, Option, none, some, List, [], ◌∷◌, ◌++◌, ◌≡◌, refl, sym, ap, ◌∙◌,
  arith, if◌then◌else◌,
}
use aiggp_agentic_framework.Hub.Requests.{
  State, open_request, approved, built, fulfilled, denied, Event, converge, gap_regressed, happened,
  AuditRecord, Row, transition, audit_record, append_history, note_refusal, new_request_row,
}
use aiggp_agentic_framework.Hub.Requests.Decide
use aiggp_agentic_framework.Hub.Requests.Decide.{
  Decision, Answer, decide, decide_row, row_nonces_after,
}
use aiggp_agentic_framework.Hub.Requests.Build.{Report, report_build}
use aiggp_agentic_framework.Hub.Requests.Heartbeat.{
  Evidence, note_evidence, seen_again, converge_or_clear, converge_or_clear_at, regress_if_reported,
}
use aiggp_agentic_framework.Hub.Requests.Trail.{
  IsTrailed, note_refusal-IsTrailed, move-IsTrailed, new_request_row-IsTrailed, has_evidence,
  Trail-has_evidence,
}
use aiggp_agentic_framework.Hub.Requests.Change.{Change, kept, noted, moved, is_handled}
use aiggp_agentic_framework.Hub.Requests.Decisions.{decide-Change}
use aiggp_agentic_framework.Hub.Requests.Builds.{report_build-Change}
use aiggp_agentic_framework.Hub.Requests.Heartbeat
use aiggp_agentic_framework.Hub.Requests.Trail.{
  IsTrailed, note_refusal-IsTrailed, move-IsTrailed, new_request_row-IsTrailed, has_evidence,
  Trail-has_evidence,
}

unchanged : (row : Row) → Change row row
unchanged row = kept row refl refl refl

along-Change :
    (row : Row) (f : State → Row) (o : Option State)
    → ((to : State) → o ≡ some to → Change row (f to))
    → Change row (Heartbeat.along o f row)
along-Change row f none step = unchanged row
along-Change row f (some to) step = step to refl

if-Change :
    (row : Row) (b : Bool) (x y : Row)
    → Change row x
    → Change row y
    → Change row (if b then x else y)
if-Change row true x y c d = c
if-Change row false x y c d = d

converge_or_clear_at-Change :
    (row : Row) (e : Evidence) (awaiting seen : String)
    → Change row (converge_or_clear_at row e awaiting seen)
unfolding converge_or_clear_at
converge_or_clear_at-Change row e awaiting seen =
    if-Change row _ _ _ (if-Change row _ _ _ (unchanged row) (noted _ refl refl refl _ _ _ _)) (
      if-Change row _ _ _ (unchanged row)
        (along-Change row _ _ (λ to rule. moved _ _ _ converge to _ refl refl refl refl rule)))

awaited-Change :
    (row : Row) (e : Evidence) (o p : Option String) → Change row (Heartbeat.awaited row e o p)
awaited-Change row e (some awaiting) (some seen) =
    if-Change row _ _ _ (unchanged row) (converge_or_clear_at-Change row e awaiting seen)
awaited-Change row e (some awaiting) none = unchanged row
awaited-Change row e none p = unchanged row

by_state-Change : (s : State) (row : Row) (e : Evidence) → Change row (Heartbeat.by_state s row e)
unfolding converge_or_clear regress_if_reported
by_state-Change built row e = awaited-Change row e _ _
by_state-Change fulfilled row e =
    if-Change row _ _ _ (unchanged row)
      (along-Change row _ _ (λ to rule. moved _ _ _ gap_regressed to _ refl refl refl refl rule))
by_state-Change open_request row e = unchanged row
by_state-Change approved row e = unchanged row
by_state-Change denied row e = unchanged row

pub note_evidence-Change :
    (lane : String) (e : Evidence) (row : Row) → Change row (note_evidence lane e row)
unfolding note_evidence
note_evidence-Change lane e row =
    if-Change row _ _ _ (unchanged row) (by_state-Change row.state row e)

-- What comes to a row: an operator's decision, a builder's report, a heartbeat, a repeated report
-- of the gap.
pub data Act : Type 0 where
  decision : (d : Decision) (consumed : String → Bool) → Act
  build_report : (r : Report) → Act
  heartbeat : (lane : String) (e : Evidence) → Act
  gap_again : (now : String) → Act

module _ (suppress_until : String → String) where
  unfoldable pub perform : Act → Row → Row
  perform (decision d consumed) row = (decide_row suppress_until d consumed row).0
  perform (build_report r) row = (report_build r row).0
  perform (heartbeat lane e) row = note_evidence lane e row
  perform (gap_again now) row = seen_again now row

  unfoldable pub perform_all : List Act → Row → Row
  perform_all [] row = row
  perform_all (a ∷ acts) row = perform_all acts (perform a row)

  row_nonces_after-Change :
      (a : Answer) (n : Option String) (row : Row) → Change row (row_nonces_after a n row)
  unfolding row_nonces_after
  row_nonces_after-Change a n row =
      if-Change row (Decide.is_success a) (record row { nonces = Decide.add_if_any n row.nonces })
        row (kept _ refl refl refl) (unchanged row)

  decide_row-Change :
      (d : Decision) (consumed : String → Bool) (row : Row)
      → Change row (decide suppress_until d consumed row).0
        × Change
            (decide suppress_until d consumed row).0
            (decide_row suppress_until d consumed row).0
  unfolding decide_row
  decide_row-Change d consumed row =
      (decide-Change suppress_until d consumed row, row_nonces_after-Change _ d.nonce _)

  -- A relation that every change respects, and that composes, holds of every act.
  perform-respects :
      (R : Row → Row → Type 0)
      → ((row new : Row) → Change row new → R row new)
      → ((x y z : Row) → R x y → R y z → R x z)
      → (a : Act) (row : Row) → R row (perform a row)
  unfolding perform seen_again
  perform-respects R c t (decision d consumed) row =
      let (first, then_) = decide_row-Change d consumed row in t row _ _ (c _ _ first) (c _ _ then_)
  perform-respects R c t (build_report r) row = c _ _ (report_build-Change r row)
  perform-respects R c t (heartbeat lane e) row = c _ _ (note_evidence-Change lane e row)
  perform-respects R c t (gap_again now) row = c _ _ (kept _ refl refl refl)

  perform_all-respects :
      (R : Row → Row → Type 0)
      → ((row new : Row) → Change row new → R row new)
      → ((x y z : Row) → R x y → R y z → R x z)
      → (acts : List Act) (row : Row) → R row (perform_all acts row)
  unfolding perform_all
  perform_all-respects R c t [] row = c _ _ (unchanged row)
  perform_all-respects R c t (a ∷ acts) row =
      t row _ _ (perform-respects R c t a row) (perform_all-respects R c t acts _)

  Change-IsTrailed : (row new : Row) → Change row new → IsTrailed row → IsTrailed new
  Change-IsTrailed row _ (kept new p q r) (n, t) = (n, rw (p, q, r) t)
  Change-IsTrailed row _ (noted mid p q r at who entry why) (n, t) =
      note_refusal-IsTrailed mid at who entry why (n, rw (p, q, r) t)
  Change-IsTrailed row _ (moved new at who e to why p q r s rule) t =
      move-IsTrailed row new at who e to why p q r rule t

  Change-denied : (row new : Row) → Change row new → row.state ≡ denied → new.state ≡ denied
  unfolding note_refusal append_history transition
  Change-denied row _ (kept new p q r) d = q ∙ d
  Change-denied row _ (noted mid p q r at who entry why) d = q ∙ d
  Change-denied row _ (moved new at who e to why p q r live rule) d =
      absurd (no_rule e live (rw d at rule))
    where
      no_rule : (e : Event) → is_handled e ≡ true → ¬ (transition denied e ≡ some to)
      no_rule e live rule = ground (arith, live, rule)

  Change-history :
      (row new : Row)
      → Change row new
      → (rest : List AuditRecord) × (new.history ≡ row.history ++ rest)
  unfolding note_refusal append_history
  Change-history row _ (kept new p q r) = ([], rw p (sym (append-nil row.history)))
  Change-history row _ (noted mid p q r at who entry why) =
      let record_ = audit_record mid at who entry mid.state mid.state mid.version mid.version why in
      (record_ ∷ [], ap (λ h. h ++ record_ ∷ []) p)
  Change-history row _ (moved new at who e to why p q r live rule) =
      let record_ =
        audit_record row at who (happened e) row.state to row.version (row.version + 1) why in
      (record_ ∷ [], ap (λ h. h ++ record_ ∷ []) p)

  -- After any acts on a new request, its history accounts for its state and its version: the
  -- records are numbered from 0, the first opens the request at version 1, and each later one either
  -- leaves both as they are or moves them along the table, the version by one.
  pub perform_all-IsTrailed :
      (lane tool : String) (profile : Option String) (now id : String) (acts : List Act)
      → IsTrailed (perform_all acts (new_request_row lane tool profile now id))
  perform_all-IsTrailed lane tool profile now id acts =
      perform_all-respects (λ x y. IsTrailed x → IsTrailed y) Change-IsTrailed
        (λ x y z f g t. g (f t)) acts _ (new_request_row-IsTrailed lane tool profile now id)

  -- Whatever acts came to a new request, an approved row has an approval in its history, a built
  -- row an approval and a builder's report, a fulfilled row also a convergence, and a denied row a
  -- denial.
  pub perform_all-has_evidence :
      (lane tool : String) (profile : Option String) (now id : String) (acts : List Act)
      → let row = perform_all acts (new_request_row lane tool profile now id) in
        has_evidence row.state row.history ≡ true
  perform_all-has_evidence lane tool profile now id acts =
      let (n, t) = perform_all-IsTrailed lane tool profile now id acts in Trail-has_evidence t

  -- A denied request stays denied under every sequence of decisions, builder reports, heartbeats and
  -- repeated gap reports, the suppression window's end included.
  pub denied_for_good :
      (row : Row) (acts : List Act) → row.state ≡ denied → (perform_all acts row).state ≡ denied
  denied_for_good row acts =
      perform_all-respects (λ x y. x.state ≡ denied → y.state ≡ denied) Change-denied
        (λ x y z f g d. g (f d)) acts row

  -- No act takes a record out of the history or changes one: the history before stands at the front
  -- of the history after.
  pub perform_all-history :
      (row : Row) (acts : List Act)
      → (rest : List AuditRecord) × ((perform_all acts row).history ≡ row.history ++ rest)
  perform_all-history row acts =
      perform_all-respects (λ x y. (rest : List AuditRecord) × (y.history ≡ x.history ++ rest))
        Change-history
        (λ x y z. λ (r, p) (s, q). (r ++ s, q ∙ ap (λ h. h ++ s) p ∙ append_assoc x.history r s))
        acts row
