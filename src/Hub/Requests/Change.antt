-- ===== src/Hub/Requests/Change.antt =====
-- What the operations of toolchain_transitions.py and toolchain_evidence.py may do to a row.
use aiggp_agentic_framework.Base.{
  ◌+◌, String, Bool, true, false, Option, some, ◌≡◌, refl, sym, err, require, refuse_if,
  require-err, err-injective,
}
use aiggp_agentic_framework.Hub.Requests.{
  State, Event, report_suppressed, report_after_window, Entry, happened, Row, transition, Author,
  audit_record, append_history, note_refusal,
}

-- the events that some operation applies: all but those of a report on a denied row
abbrev pub is_handled : Event → Bool
is_handled report_suppressed = false
is_handled report_after_window = false
is_handled _ = true

-- A row's history, state and version stand; or a refusal is noted; or it moves along the table.
pub data Change (row : Row) : Row → Type 0 where
  kept :
      (new : Row)
      → new.history ≡ row.history
      → new.state ≡ row.state
      → new.version ≡ row.version
      → Change row new
  noted :
      (mid : Row)
      → mid.history ≡ row.history
      → mid.state ≡ row.state
      → mid.version ≡ row.version
      → (at : String) (who : Author) (entry : Entry) (why : Option String)
      → Change row (note_refusal mid at who entry why)
  moved :
      (new : Row) (at : String) (who : Author) (e : Event) (to : State) (why : Option String)
      → new.history ≡ row.history
      → new.state ≡ to
      → new.version ≡ row.version + 1
      → is_handled e ≡ true
      → transition row.state e ≡ some to
      → Change row (
          append_history new
            (audit_record row at who (happened e) row.state to row.version (row.version + 1) why))

-- How a chain that decides on a row returns early: with an answer that is no success, and the row as
-- it was, or with a refusal noted.
pub data Refusal {A : Type 0} (success : A → Bool) (row : Row) : Row × A → Type 0 where
  untouched : (a : A) → success a ≡ false → Refusal success row (row, a)
  recorded :
      (at : String) (who : Author) (entry : Entry) (why : Option String) (a : A)
      → success a ≡ false
      → Refusal success row (note_refusal row at who entry why, a)

module _ {A : Type 0} {success : A → Bool} where
  pub Refusal-Change : {row : Row} {x : Row × A} → Refusal success row x → Change row x.0
  Refusal-Change {row = row} (untouched a q) = kept row refl refl refl
  Refusal-Change {row = row} (recorded at who entry why a q) =
      noted row refl refl refl at who entry why

  pub Refusal-success : {row : Row} {x : Row × A} → Refusal success row x → success x.1 ≡ false
  Refusal-success (untouched a q) = q
  Refusal-success (recorded at who entry why a q) = q

  pub require-Refusal :
      (row : Row) (b : Bool) (x y : Row × A)
      → Refusal success row x
      → require b x ≡ err y
      → Refusal success row y
  require-Refusal row b x y r h = let (p, q) = require-err b x h in rw q r

  pub refuse_if-Refusal :
      (row : Row) (b : Bool) (x y : Row × A)
      → Refusal success row x
      → refuse_if b x ≡ err y
      → Refusal success row y
  refuse_if-Refusal row true x y r h = rw (sym (err-injective x y h)) r
  refuse_if-Refusal row false x y r h = absurd (cc)
