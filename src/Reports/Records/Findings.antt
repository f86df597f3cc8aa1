-- ===== src/Reports/Records/Findings.antt =====
-- What the records are that check_traceability.py finds no error in.
use rule2llm_orch_lab.Prelude.{
  ℕ, ◌≡◌, ◌≢◌, ◌++◌, ◌∙◌, ◌↔◌, refl, sym, arith, Bool, true, false, Option, none, some, List, [],
  ◌∷◌, ◌==◌, not, any, Bool-cases, inl, inr,
}
use rule2llm_orch_lab.Prelude.Table.{Table, get}
use rule2llm_orch_lab.Reports.Records.{
  RecordError, DecisionLine, decision_errors, check_decisions, error_if, FaultLine, count_faults,
  started, ended, fault_ids, window_balance, check_fault_events, foreign_faults,
  duplicated_decision, foreign_decision, no_state, not_closed, is_id,
}

append_nil_inv : (xs ys : List RecordError) → xs ++ ys ≡ [] → (xs ≡ []) × (ys ≡ [])
append_nil_inv [] ys h = (refl, h)
append_nil_inv (x ∷ xs) ys h = absurd (cons_not_nil h)
  where
    cons_not_nil : x ∷ (xs ++ ys) ≢ []
    cons_not_nil h = cc

error_if_inv : (b : Bool) (e : RecordError) → error_if b e ≡ [] → b ≡ false
error_if_inv true e h = cc
error_if_inv false e h = refl

is_id-some : (o : Option ℕ) (k : ℕ) → is_id o k ≡ true → o ≡ some k
is_id-some none k h = ground arith
is_id-some (some j) k h = ground arith

decision_errors_inv :
    (x : ℕ) (states : Table ℕ) (seen : List ℕ) (d : DecisionLine)
    → decision_errors x states seen d ≡ []
    → (any (λ k. k == d.decision_id) seen ≡ false)
      × (d.execution_id ≡ x)
      × (get d.state_id states ≡ some d.task_id)
unfolding decision_errors
decision_errors_inv x states seen d h =
    let duplicated : RecordError = duplicated_decision d.decision_id in
    let foreign = error_if (not (d.execution_id == x)) (foreign_decision d.decision_id) in
    let lost = error_if (not (is_id (get d.state_id states) d.task_id)) (no_state d.decision_id) in
    let (a, rest) =
      append_nil_inv (error_if (any (λ k. k == d.decision_id) seen) duplicated) (foreign ++ lost)
        h in
    let (b, c) = append_nil_inv foreign lost rest in
    let own = error_if_inv (not (d.execution_id == x)) (foreign_decision d.decision_id) b in
    let found =
      error_if_inv (not (is_id (get d.state_id states) d.task_id)) (no_state d.decision_id) c in
    (
      error_if_inv (any (λ k. k == d.decision_id) seen) duplicated a,
      ground arith,
      is_id-some (get d.state_id states) d.task_id (ground arith),
    )

-- The identifiers of the records that were read
unfoldable pub ids_of : List (Option DecisionLine) → List ℕ
ids_of [] = []
ids_of (none ∷ ds) = ids_of ds
ids_of (some d ∷ ds) = d.decision_id ∷ ids_of ds

-- No identifier is one of a list, and none comes twice.
unfoldable pub AreNew : List ℕ → List ℕ → Type 0
AreNew old [] = Unit
AreNew old (k ∷ ks) = (any (λ j. j == k) old ≡ false) × AreNew (k ∷ old) ks

-- Every record was read, is of the execution, and names a state of its task.
unfoldable pub Traceable : ℕ → Table ℕ → List (Option DecisionLine) → Type 0
Traceable x states [] = Unit
Traceable x states (none ∷ ds) = ⊥
Traceable x states (some d ∷ ds) =
    (d.execution_id ≡ x) × (get d.state_id states ≡ some d.task_id) × Traceable x states ds

-- Where `check_decisions` finds no error, every record was read, no identifier comes twice, and each
-- record is of the execution and points to a recorded state of its own task.
pub check_decisions-Traceable :
    (x : ℕ) (states : Table ℕ) (seen : List ℕ) (ds : List (Option DecisionLine))
    → check_decisions x states seen ds ≡ []
    → AreNew seen (ids_of ds) × Traceable x states ds
unfolding check_decisions ids_of AreNew Traceable
check_decisions-Traceable x states seen [] h = (tt, tt)
check_decisions-Traceable x states seen (none ∷ ds) h = cc
check_decisions-Traceable x states seen (some d ∷ ds) h =
    let (now, later) =
      append_nil_inv (decision_errors x states seen d)
        (check_decisions x states (d.decision_id ∷ seen) ds) h in
    let (new, own, found) = decision_errors_inv x states seen d now in
    let (rest_new, rest) = check_decisions-Traceable x states (d.decision_id ∷ seen) ds later in
    ((new, rest_new), (own, found, rest))

-- A fault that has no window has no record of one.
no_window :
    (id : ℕ) (faults : List FaultLine)
    → any (λ k. k == id) (fault_ids faults) ≡ false
    → (started id faults ≡ 0) × (ended id faults ≡ 0)
unfolding fault_ids count_faults
no_window id [] h = (refl, refl)
no_window id (f ∷ faults) h = grind (arith, no_window id faults)

window_balance_inv :
    (ids : List ℕ) (faults : List FaultLine) (id : ℕ)
    → window_balance ids faults ≡ []
    → any (λ k. k == id) ids ≡ true
    → started id faults ≡ ended id faults
unfolding window_balance
window_balance_inv [] faults id h is = ground arith
window_balance_inv (k ∷ ids) faults id h is =
    let (now, later) =
      append_nil_inv (error_if (not (started k faults == ended k faults)) (not_closed k))
        (window_balance ids faults) h in
    let balanced = error_if_inv (not (started k faults == ended k faults)) (not_closed k) now in
    elim (Bool-cases (k == id)) [
      | inl same ↦ ground arith
      | inr other ↦ window_balance_inv ids faults id later (ground arith)
    ]

window_balance-none :
    (ids : List ℕ) (faults : List FaultLine)
    → ((id : ℕ) → started id faults ≡ ended id faults)
    → window_balance ids faults ≡ []
unfolding window_balance
window_balance-none [] faults h = refl
window_balance-none (k ∷ ids) faults h =
    let balanced = h k in let rest = window_balance-none ids faults h in ground arith

abbrev pub is_foreign : ℕ → FaultLine → Bool
is_foreign x f = not (is_id f.execution_id x)

-- `check_fault_events` finds no error exactly when all records are of the execution and every fault was
-- started as often as it was ended.
pub check_fault_events_iff :
    (x : ℕ) (faults : List FaultLine)
    → (check_fault_events x faults ≡ [])
      ↔ ((any (is_foreign x) faults ≡ false) × ((id : ℕ) → started id faults ≡ ended id faults))
unfolding check_fault_events
check_fault_events_iff x faults = (
  λ h.
      let (own, balanced) =
        append_nil_inv (error_if (any (is_foreign x) faults) foreign_faults)
          (window_balance (fault_ids faults) faults) h in
      (
        error_if_inv (any (is_foreign x) faults) foreign_faults own,
        λ id. elim (Bool-cases (any (λ k. k == id) (fault_ids faults))) [
          | inl has ↦ window_balance_inv (fault_ids faults) faults id balanced has
          | inr no_one ↦ let (a, b) = no_window id faults no_one in a ∙ sym b
        ],
      ),
  λ h. rw (h.0, window_balance-none (fault_ids faults) faults h.1) refl,
)
