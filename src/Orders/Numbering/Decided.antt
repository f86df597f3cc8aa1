-- ===== src/Orders/Numbering/Decided.antt =====
-- The rows of messages and the states of tasks under a decision and under the dispatch of a scheduled
-- attempt (executor.py).
use rule2llm_orch_lab.Prelude.{ℕ, ◌≡◌, true, false, Option, none, some, arith, Keeps}
use rule2llm_orch_lab.Prelude.Table.{Table, get, get-update}
use rule2llm_orch_lab.Contract.Vocabulary.{EventType, Target}
use rule2llm_orch_lab.Contract.Config.{MessagingConfig}
use rule2llm_orch_lab.Contract.Decision.{Decision}
use rule2llm_orch_lab.Contract.Envelope.{Payload}
use rule2llm_orch_lab.Orders.Db.{OrdersDb}
use rule2llm_orch_lab.Orders.Executor.{Supply, publish_request, execute, dispatch_scheduled_attempt}
use rule2llm_orch_lab.Orders.Numbering.{first_seq, Traced, Recorded}
use rule2llm_orch_lab.Orders.Numbering.Handlers.{internal-Traced, internal-Recorded}
use rule2llm_orch_lab.Orders.Numbering.Known.{Drawn, AreKnown, internal-Known}
use rule2llm_orch_lab.Orders.Numbering.Quiet.{Closed}
use rule2llm_orch_lab.Orders.Numbering.Executor.{execute-Leads, dispatch-Leads}
use rule2llm_orch_lab.Orders.Numbering.Quiet.{is_completed}
use rule2llm_orch_lab.Orders.Numbering.Events.{SameNumbers-Traced}
use rule2llm_orch_lab.Orders.Trajectory.{record_internal_event}
use rule2llm_orch_lab.Orders.Numbering.Published.{publish-Traced, publish-Recorded, publish-Known}
use rule2llm_orch_lab.Prelude.{Unless-state}

module _ (j k : ℕ) where
  abbrev TracedFresh : OrdersDb → Type 0
  TracedFresh db = ((id : ℕ) → first_seq id k db.task_events ≡ none) × Traced j db

  internal-fresh :
      (id now : ℕ) (event_type : EventType) (details : Payload) (db : OrdersDb) (id' : ℕ)
      → first_seq id' k db.task_events ≡ none
      → first_seq id' k (record_internal_event id event_type now details db).1.task_events ≡ none
  unfolding record_internal_event first_seq
  internal-fresh id now event_type details db id' fresh = grind arith

  TracedFresh-Closed : Closed TracedFresh
  TracedFresh-Closed = record {
    quiet = λ db after q r. (rw q.0 r.0, SameNumbers-Traced j db after (q.0, q.2 j, q.3 j) r.1);
    internal = λ id event_type now details db r. (
      λ id'. internal-fresh id now event_type details db id' (r.0 id'),
      internal-Traced id event_type now details db j r.1,
    );
  }

module _ (j seq : ℕ) (target : Option Target) where
  abbrev OnRecord : OrdersDb → Type 0
  OnRecord db = Recorded j seq target db.task_events

  OnRecord-Closed : Closed OnRecord
  OnRecord-Closed = record {
    quiet = λ db after q r. rw q.0 r;
    internal = λ id event_type now details db r.
        internal-Recorded id event_type now details db j seq target r;
  }

module _ (ids : Table Drawn) where
  AreKnown-Closed : Closed (AreKnown ids)
  AreKnown-Closed = record {
    quiet = λ db after q r. rw (q.0, q.1) r;
    internal = λ id event_type now details. internal-Known ids id now event_type details;
  }

-- A task is completed only where a fact holds.
abbrev pub CompletedIf : Type 0 → ℕ → OrdersDb → Type 0
CompletedIf P j db = is_completed (get j db.tasks) ≡ true → P

module _ (P : Type 0) (j : ℕ) where
  pub internal-CompletedIf :
      (id : ℕ) (event_type : EventType) (now : ℕ) (details : Payload)
      → Keeps (CompletedIf P j) (record_internal_event id event_type now details)
  unfolding record_internal_event
  internal-CompletedIf id event_type now details db h = grind (arith, get-update)

  CompletedIf-Closed : Closed (CompletedIf P j)
  CompletedIf-Closed = record {
    quiet = λ db after q r done. r (q.4 j done);
    internal = internal-CompletedIf;
  }

  publish-CompletedIf :
      (c : MessagingConfig) (i : Supply) (id decision_id : ℕ)
      → Keeps (CompletedIf P j) (publish_request c i id decision_id)
  unfolding publish_request
  publish-CompletedIf c i id decision_id db h = grind (arith, get-update)

-- What one action on the task `id` with the fresh identifier `k` does to the rows of messages: the
-- numbering, the identifiers and the requests on record are kept, and no task is completed.
pub record Follows (id k : ℕ) (db after : OrdersDb) : Type 0 where
  pub traced :
      ((task : ℕ) → first_seq task k db.task_events ≡ none) → (j : ℕ) → Traced j db → Traced j after
  pub known :
      (ids : Table Drawn)
      → get k ids ≡ some (record { task_id = id; is_reply = false })
      → AreKnown ids db
      → AreKnown ids after
  pub on_record :
      (j seq : ℕ) (target : Option Target)
      → Recorded j seq target db.task_events
      → Recorded j seq target after.task_events
  pub completed :
      (j : ℕ) → is_completed (get j after.tasks) ≡ true → is_completed (get j db.tasks) ≡ true

module _ (c : MessagingConfig) (i : Supply) (id decision_id : ℕ) (db : OrdersDb) where
  pub execute-Follows :
      (d : Decision) → Follows id i.message_id db (execute c i d id decision_id db).1
  execute-Follows d = record {
    traced = λ fresh j h.
        execute-Leads (TracedFresh j i.message_id) (Traced j) (TracedFresh-Closed j i.message_id)
          (λ t r. r.1) c i id decision_id
          (λ t r. publish-Traced c i id decision_id t j r.1 (r.0 id)) d db (fresh, h);
    known = λ ids drawn h.
        execute-Leads (AreKnown ids) (AreKnown ids) (AreKnown-Closed ids) (λ t r. r) c i id
          decision_id
          (λ t r.
            Unless-state (AreKnown ids) (publish_request c i id decision_id t)
              (publish-Known c i id decision_id t ids drawn r))
          d db h;
    on_record = λ j seq target h.
        execute-Leads (OnRecord j seq target) (OnRecord j seq target) (OnRecord-Closed j seq target)
          (λ t r. r) c i id decision_id
          (λ t r.
            Unless-state (OnRecord j seq target) (publish_request c i id decision_id t)
              (publish-Recorded c i id decision_id t j seq target r))
          d db h;
    completed = λ j.
        let P : Type 0 = is_completed (get j db.tasks) ≡ true in
        execute-Leads (CompletedIf P j) (CompletedIf P j) (CompletedIf-Closed P j) (λ t r. r) c i id
          decision_id
          (λ t r.
            Unless-state (CompletedIf P j) (publish_request c i id decision_id t)
              (publish-CompletedIf P j c i id decision_id t r))
          d db (λ done. done);
  }

  pub dispatch-Follows :
      Follows id i.message_id db (dispatch_scheduled_attempt c i id decision_id db).1
  dispatch-Follows = record {
    traced = λ fresh j h.
        dispatch-Leads (TracedFresh j i.message_id) (Traced j) (TracedFresh-Closed j i.message_id)
          (λ t r. r.1) c i id decision_id
          (λ t r. publish-Traced c i id decision_id t j r.1 (r.0 id)) db (fresh, h);
    known = λ ids drawn h.
        dispatch-Leads (AreKnown ids) (AreKnown ids) (AreKnown-Closed ids) (λ t r. r) c i id
          decision_id
          (λ t r.
            Unless-state (AreKnown ids) (publish_request c i id decision_id t)
              (publish-Known c i id decision_id t ids drawn r))
          db h;
    on_record = λ j seq target h.
        dispatch-Leads (OnRecord j seq target) (OnRecord j seq target)
          (OnRecord-Closed j seq target) (λ t r. r) c i id decision_id
          (λ t r.
            Unless-state (OnRecord j seq target) (publish_request c i id decision_id t)
              (publish-Recorded c i id decision_id t j seq target r))
          db h;
    completed = λ j.
        let P : Type 0 = is_completed (get j db.tasks) ≡ true in
        dispatch-Leads (CompletedIf P j) (CompletedIf P j) (CompletedIf-Closed P j) (λ t r. r) c i
          id decision_id
          (λ t r.
            Unless-state (CompletedIf P j) (publish_request c i id decision_id t)
              (publish-CompletedIf P j c i id decision_id t r))
          db (λ done. done);
  }
