-- ===== src/Tests/Reports.antt =====
-- The checks of an execution: a trajectory, decisions that are traced and not, and fault windows.
use rule2llm_orch_lab.Prelude.{ℕ, ◌≡◌, ◌↔◌, refl, false, Option, none, some, List, [], ◌∷◌, any}
use rule2llm_orch_lab.Prelude.Table.{Table, get, insert}
use rule2llm_orch_lab.Contract.Vocabulary.{EventType, EventSource}
use rule2llm_orch_lab.Contract.Envelope.{no_payload}
use rule2llm_orch_lab.Contract.Decision.{valid}
use rule2llm_orch_lab.Reports.Artifacts.{TaskEventRecord}
use rule2llm_orch_lab.Reports.Trajectories
use rule2llm_orch_lab.Reports.Trajectories.{check_task, check_trajectories, unexpected_seq}
use rule2llm_orch_lab.Reports.Trajectories.Findings.{
  Opens, Gapless, distinct, Agrees, first_in, check_task-Gapless,
}
use rule2llm_orch_lab.Reports.Records
use rule2llm_orch_lab.Reports.Records.{
  RecordError, DecisionLine, check_decisions, FaultLine, FaultEventType, started, ended,
  check_fault_events, not_closed, no_state, duplicated_decision,
}
use rule2llm_orch_lab.Reports.Records.Findings.{
  AreNew, ids_of, Traceable, check_decisions-Traceable, check_fault_events_iff, is_foreign,
}
use rule2llm_orch_lab.Reports.Trajectories.{trajectory}
use rule2llm_orch_lab.Reports.Records.{States, check_state}
use rule2llm_orch_lab.Tests.Engine.{retry}

abbrev creation : TaskEventRecord
creation = record {
  execution_id = 1;
  task_id = 1;
  message_id = none;
  event_seq = 1;
  event_type = EventType.task_created;
  service = EventSource.orders;
  target = none;
  timestamp = 0;
  published_at = none;
  redelivered = false;
  attempt_number = 1;
  payload = no_payload;
}

abbrev sent : TaskEventRecord
sent = record creation {
  message_id = some 100;
  event_seq = 2;
  event_type = EventType.stock_reservation_requested;
}

abbrev reply : TaskEventRecord
reply = record creation {
  message_id = some 200;
  event_seq = 3;
  event_type = EventType.stock_reservation_succeeded;
}

-- A trajectory with a redelivered reply, and one with a gap
abbrev good : List TaskEventRecord
good = creation ∷ sent ∷ reply ∷ reply ∷ []

abbrev gap : List TaskEventRecord
gap = creation ∷ reply ∷ []

good_passes : check_task 1 good ≡ []
unfolding check_task Trajectories.check_events Trajectories.start_errors Trajectories.check_event
    Trajectories.check_first Trajectories.check_repeated get insert
good_passes = refl

gap_found : check_task 1 gap ≡ unexpected_seq 1 3 2 ∷ []
unfolding check_task Trajectories.check_events Trajectories.start_errors Trajectories.check_event
    Trajectories.check_first Trajectories.check_repeated get insert
gap_found = refl

check_task-Gapless_example :
    Opens good × Gapless 1 (distinct [] good) × Agrees (λ m. first_in m good) good
check_task-Gapless_example = check_task-Gapless 1 good good_passes

abbrev line : DecisionLine
line = record {
  execution_id = 1;
  task_id = 1;
  state_id = 4;
  decision_id = 7;
  proposed_decision = none;
  validation = valid;
  executed_decision = retry;
}

abbrev states : Table ℕ
states = (4, 1) ∷ (5, 2) ∷ []

abbrev lines : List (Option DecisionLine)
lines = some line ∷ some (record line { state_id = 5; task_id = 2; decision_id = 8 }) ∷ []

lines_pass : check_decisions 1 states [] lines ≡ []
unfolding check_decisions Records.decision_errors get
lines_pass = refl

stray_found :
    check_decisions 1 states [] (some line ∷ some (record line { state_id = 5 }) ∷ [])
    ≡ duplicated_decision 7 ∷ no_state 7 ∷ []
unfolding check_decisions Records.decision_errors get
stray_found = refl

check_decisions-Traceable_example : AreNew [] (ids_of lines) × Traceable 1 states lines
check_decisions-Traceable_example = check_decisions-Traceable 1 states [] lines lines_pass

abbrev opening : FaultLine
opening = record { execution_id = some 1; fault_id = 3; event_type = FaultEventType.fault_started }

open_found : check_fault_events 1 (opening ∷ []) ≡ not_closed 3 ∷ []
unfolding check_fault_events Records.window_balance Records.fault_ids Records.count_faults
open_found = refl

check_fault_events_iff_example : (check_fault_events 1 (opening ∷ []) ≡ []) ↔ (
    (any (is_foreign 1) (opening ∷ []) ≡ false)
    × ((id : ℕ) → started id (opening ∷ []) ≡ ended id (opening ∷ [])))
check_fault_events_iff_example = check_fault_events_iff 1 (opening ∷ [])
