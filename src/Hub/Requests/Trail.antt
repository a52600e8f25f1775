-- ===== src/Hub/Requests/Trail.antt =====
-- What the history of a request row records: an account of its path through the table.
use aiggp_agentic_framework.Base.{
  ℕ, ◌+◌, String, Bool, true, false, Option, some, List, [], ◌∷◌, ◌++◌, ◌≡◌, refl, ap, ◌∙◌, arith,
  ◌||◌, ◌&&◌, any,
}
use aiggp_agentic_framework.Hub.Requests.{
  State, open_request, approved, built, fulfilled, denied, Event, decide_approve, report_built,
  converge, decide_deny, Entry, happened, AuditRecord, Row, transition, Author, audit_record,
  append_history, note_refusal, last_seq, next_seq, after_seq, new_request_row,
}

-- The history numbers its records from 0, opens the request, and each later record either leaves
-- the state and the version, or moves them along the table: the state to the event's target, the
-- version by one.
pub data Trail : List AuditRecord → ℕ → State → ℕ → Type 0 where
  opened :
      (r : AuditRecord)
      → r.seq ≡ 0
      → r.to_state ≡ open_request
      → r.version_after ≡ 1
      → Trail (r ∷ []) 1 open_request 1
  kept :
      {h : List AuditRecord} {n v : ℕ} {s : State}
      → Trail h n s v
      → (r : AuditRecord) → r.seq ≡ n
      → r.from_state ≡ some s
      → r.to_state ≡ s
      → r.version_before ≡ some v
      → r.version_after ≡ v
      → Trail (h ++ r ∷ []) (n + 1) s v
  moved :
      {h : List AuditRecord} {n v : ℕ} {s t : State}
      → Trail h n s v
      → (r : AuditRecord) (e : Event) → transition s e ≡ some t
      → r.event ≡ happened e
      → r.seq ≡ n
      → r.from_state ≡ some s
      → r.to_state ≡ t
      → r.version_before ≡ some v
      → r.version_after ≡ v + 1
      → Trail (h ++ r ∷ []) (n + 1) t (v + 1)

-- the row's history accounts for its state and its version
abbrev pub IsTrailed : Row → Type 0
IsTrailed row = (n : ℕ) × Trail row.history n row.state row.version

last_seq-append : (h : List AuditRecord) (r : AuditRecord) → last_seq (h ++ r ∷ []) ≡ some r.seq
last_seq-append [] r = refl
last_seq-append (x ∷ []) r = refl
last_seq-append (x ∷ y ∷ h) r = last_seq-append (y ∷ h) r

next_seq-append : (h : List AuditRecord) (r : AuditRecord) → next_seq (h ++ r ∷ []) ≡ r.seq + 1
next_seq-append h r = ap after_seq (last_seq-append h r)

pub next_seq-Trail : {h : List AuditRecord} {n v : ℕ} {s : State} → Trail h n s v → next_seq h ≡ n
next_seq-Trail (opened r p q w) = rw p refl
next_seq-Trail (kept {h = h} t r p a b c d) = next_seq-append h r ∙ ap (λ k. k + 1) p
next_seq-Trail (moved {h = h} t r e i j p a b c d) = next_seq-append h r ∙ ap (λ k. k + 1) p

pub new_request_row-IsTrailed :
    (lane tool : String) (profile : Option String) (now id : String)
    → IsTrailed (new_request_row lane tool profile now id)
unfolding new_request_row
new_request_row-IsTrailed lane tool profile now id = (1, opened _ refl refl refl)

pub note_refusal-IsTrailed :
    (row : Row) (at : String) (who : Author) (event : Entry) (note : Option String)
    → IsTrailed row
    → IsTrailed (note_refusal row at who event note)
unfolding note_refusal append_history audit_record
note_refusal-IsTrailed row at who event why (n, t) =
    (n + 1, kept t _ (next_seq-Trail t) refl refl refl refl)

-- A move along the table, with its record.
pub move-IsTrailed :
    (row new : Row) (at : String) (who : Author) (e : Event) (to : State) (note : Option String)
    → new.history ≡ row.history
    → new.state ≡ to
    → new.version ≡ row.version + 1
    → transition row.state e ≡ some to
    → IsTrailed row
    → IsTrailed (
        append_history new
          (audit_record row at who (happened e) row.state to row.version (row.version + 1) note))
unfolding append_history audit_record
move-IsTrailed row new at who e to why same_history at_state at_version rule (n, t) = (
  n + 1,
  rw (same_history, at_state, at_version)
      (moved t _ e rule refl (next_seq-Trail t) refl refl refl refl),
)

-- a record of an event is in the history
abbrev pub records : (Entry → Bool) → List AuditRecord → Bool
records p h = any (λ r. p r.event) h

abbrev pub is_approval : Entry → Bool
is_approval (happened decide_approve) = true
is_approval _ = false

abbrev pub is_denial : Entry → Bool
is_denial (happened decide_deny) = true
is_denial _ = false

abbrev pub is_build : Entry → Bool
is_build (happened report_built) = true
is_build _ = false

abbrev pub is_convergence : Entry → Bool
is_convergence (happened converge) = true
is_convergence _ = false

-- the records that a state needs behind it
unfoldable pub has_evidence : State → List AuditRecord → Bool
has_evidence open_request h = true
has_evidence approved h = records is_approval h
has_evidence built h = records is_approval h && records is_build h
has_evidence fulfilled h = records is_approval h && records is_build h && records is_convergence h
has_evidence denied h = records is_denial h

records-append :
    (p : Entry → Bool) (h : List AuditRecord) (r : AuditRecord)
    → records p (h ++ r ∷ []) ≡ records p h || p r.event
records-append p [] r = ground arith
records-append p (x ∷ h) r = ground (arith, records-append p h r)

has_evidence-kept :
    (s : State) (h : List AuditRecord) (r : AuditRecord)
    → has_evidence s h ≡ true
    → has_evidence s (h ++ r ∷ []) ≡ true
unfolding has_evidence
has_evidence-kept open_request h r e = refl
has_evidence-kept approved h r e = ground (arith, records-append is_approval h r)
has_evidence-kept denied h r e = ground (arith, records-append is_denial h r)
has_evidence-kept built h r e =
    ground (arith, records-append is_approval h r, records-append is_build h r)
has_evidence-kept fulfilled h r e = ground (
  arith,
  records-append is_approval h r,
  records-append is_build h r,
  records-append is_convergence h r,
)

has_evidence-moved :
    (s t : State) (e : Event) (h : List AuditRecord) (r : AuditRecord)
    → transition s e ≡ some t
    → r.event ≡ happened e
    → has_evidence s h ≡ true
    → has_evidence t (h ++ r ∷ []) ≡ true
unfolding has_evidence transition
has_evidence-moved s t e h r rule event before = ground (
  arith,
  records-append is_approval h r,
  records-append is_build h r,
  records-append is_convergence h r,
  records-append is_denial h r,
)

pub Trail-has_evidence :
    {h : List AuditRecord} {n v : ℕ} {s : State} → Trail h n s v → has_evidence s h ≡ true
unfolding has_evidence
Trail-has_evidence (opened r p q w) = refl
Trail-has_evidence (kept {h = h} {s = s} t r p a b c d) =
    has_evidence-kept s h r (Trail-has_evidence t)
Trail-has_evidence (moved {h = h} {s = s} {t = to} t r e i j p a b c d) =
    has_evidence-moved s to e h r i j (Trail-has_evidence t)
