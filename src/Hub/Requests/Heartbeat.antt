-- ===== src/Hub/Requests/Heartbeat.antt =====
-- toolchain_evidence.py, `note_lane_evidence`, and toolchain_store.py, `record_gap_report`: what a
-- lane's heartbeat does to a row of the lane.
use aiggp_agentic_framework.Base.{
  ◌+◌, String, Bool, false, not, ◌||◌, Option, none, some, List, ◌==◌, if◌then◌else◌, contains,
}
use aiggp_agentic_framework.Hub.Requests.{
  State, built, fulfilled, denied, Event, converge, gap_regressed, report_suppressed,
  report_after_window, happened, awaiting_cleared, Row, transition, nobody, audit_record,
  append_history, note_refusal,
}

-- The evidence of one heartbeat: the digest now stored for the lane, the accepted list of missing
-- tools, whether the probe run was complete, and the instant.
pub record Evidence : Type 0 where
  pub reported_digest : Option String
  pub missing : Option (List String)
  pub probe_complete : Option Bool
  pub now : String

-- `_probe_passes`
unfoldable pub probe_passes : Row → Evidence → Bool
probe_passes row e = elim e.probe_complete [
  | some false ↦ false
  | _ ↦ elim e.missing [ none ↦ false | some tools ↦ not (contains tools row.tool) ]
]

abbrev pub cleared_note : String
cleared_note =
    "lane reported a different image digest; the awaited build will never converge. State stays built and visible (mon-tc-06)."

abbrev pub regressed_note : String
regressed_note = "lane re-reported this tool missing after fulfillment"

abbrev pub moved : Row → String → Event → State → Option String → Row → Row
moved old now event to note new =
    append_history new
      (audit_record old now nobody (happened event) old.state to old.version (old.version + 1) note)

-- the move of a rule of the table, or the row when there is none
abbrev pub along : Option State → (State → Row) → Row → Row
along none f row = row
along (some to) f row = f to

abbrev pub same_digest : Option String → String → Bool
same_digest none d = false
same_digest (some c) d = c == d

-- `_converge_or_clear`, for the digests that are awaited and reported
unfoldable pub converge_or_clear_at : Row → Evidence → (awaiting seen : String) → Row
converge_or_clear_at row e awaiting seen =
    if not (seen == awaiting)
    then if same_digest row.cleared seen
      then row
      else note_refusal (record row { lane_image_digest = none; cleared = some seen }) e.now nobody
          awaiting_cleared (some cleared_note)
    else if not (probe_passes row e)
    then row
    else along (transition row.state converge)
        (λ to. moved row e.now converge to none (record row {
          state = to;
          version = row.version + 1;
          fulfilled_at = some e.now;
          cleared = none;
        }))
        row

abbrev pub awaited : Row → Evidence → Option String → Option String → Row
awaited row e (some awaiting) (some seen) =
    if awaiting == "" || seen == "" then row else converge_or_clear_at row e awaiting seen
awaited row e _ _ = row

unfoldable pub converge_or_clear : Row → Evidence → Row
converge_or_clear row e = awaited row e row.lane_image_digest e.reported_digest

abbrev pub reports_missing : Row → Evidence → Bool
reports_missing row e = elim e.missing [ none ↦ false | some tools ↦ contains tools row.tool ]

-- `_regress_if_reported`
unfoldable pub regress_if_reported : Row → Evidence → Row
regress_if_reported row e =
    if not (reports_missing row e)
    then row
    else along (transition row.state gap_regressed)
        (λ to. moved row e.now gap_regressed to (some regressed_note) (record row {
          state = to;
          version = row.version + 1;
          fulfilled_at = none;
          build_id = none;
          lane_image_digest = none;
        }))
        row

-- the body of the loop of `note_lane_evidence`
abbrev pub by_state : State → Row → Evidence → Row
by_state built row e = converge_or_clear row e
by_state fulfilled row e = regress_if_reported row e
by_state _ row e = row

unfoldable pub note_evidence : String → Evidence → Row → Row
note_evidence lane e row = if not (row.lane == lane) then row else by_state row.state row e

-- what `record_gap_report` does to the row of a tool that is reported again
unfoldable pub seen_again : String → Row → Row
seen_again now row = record row { last_seen = now; last_reported_at = now }

-- `report_event`, which no other function calls
unfoldable pub report_event : State → Bool → Option Event
report_event fulfilled within = some gap_regressed
report_event denied within = some (if within then report_suppressed else report_after_window)
report_event _ within = none
