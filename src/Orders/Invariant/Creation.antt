-- ===== src/Orders/Invariant/Creation.antt =====
-- The invariant of tasks under `create_order_with_task` (repositories.py).
use rule2llm_orch_lab.Prelude.{
  ℕ, ◌+◌, ◌≤◌, ◌<◌, ◌≡◌, ◌≢◌, refl, true, false, Option, none, some, List, [], ◌∷◌, arith, Post,
  any, ◌==◌,
}
use rule2llm_orch_lab.Prelude.Table.{Table, get, get-insert_self, get-insert_ne, insert}
use rule2llm_orch_lab.Contract.Vocabulary.{EventType, order_status_for}
use rule2llm_orch_lab.Contract.Config.{MessagingConfig}
use rule2llm_orch_lab.Contract.Envelope.{Item, validate_payload, reservation_request}
use rule2llm_orch_lab.Orders.Db.{OrdersDb, OrderRow, TaskRow}
use rule2llm_orch_lab.Orders.Trajectory.{latest_request}
use rule2llm_orch_lab.Orders.Repositories.{
  OrderView, max_key, next_order_number, create_order_with_task,
}
use rule2llm_orch_lab.Orders.Invariant.{Sound, IsSound, IsReady, budget, created}
use rule2llm_orch_lab.Orders.Invariant.Frame.{Frame, OwnOrders}

get-above_max {ℓ} : {V : Type ℓ} (k : ℕ) (t : Table V) → max_key t < k → get k t ≡ none
unfolding max_key get
get-above_max k [] h = refl
get-above_max k ((j, v) ∷ t) h = ground (arith, get-above_max k t)

-- The number of a new order is free.
next_number-free : (t : Table OrderRow) → get (next_order_number t) t ≡ none
unfolding next_order_number
next_number-free t = get-above_max (max_key t + 1) t (omega arith)

-- No task refers to an order whose number no task has.
no_task_of_order :
    (n : ℕ) (t : Table TaskRow)
    → OwnOrders t
    → get n t ≡ none
    → any (λ (e : ℕ × TaskRow). e.1.order_id == n) t ≡ false
unfolding get
no_task_of_order n [] o h = refl
no_task_of_order n ((j, row) ∷ t) o h = ground (arith, no_task_of_order n t)

OwnOrders-insert :
    (n : ℕ) (row : TaskRow) (t : Table TaskRow)
    → OwnOrders t
    → row.order_id ≡ n
    → OwnOrders (insert n row t)
unfolding insert
OwnOrders-insert n row [] o h = (h, tt)
OwnOrders-insert n row (e ∷ t) o h = (o.0, OwnOrders-insert n row t o.1 h)

-- The contract of a request does not look at the number of the order.
items_of_any :
    (n : ℕ) (items : List Item)
    → validate_payload EventType.stock_reservation_requested (reservation_request 0 items) ≡ true
    → validate_payload EventType.stock_reservation_requested (reservation_request n items) ≡ true
unfolding validate_payload
items_of_any n [] h = h
items_of_any n (i ∷ is) h = h

-- Neither has any task the number of a new order.
pub free_number :
    (c : MessagingConfig) (db : OrdersDb)
    → ((j : ℕ) → IsSound c db j)
    → get (next_order_number db.orders) db.tasks ≡ none
free_number c db sound =
    let n = next_order_number db.orders in
    go (get n db.tasks) (get n db.orders) (sound n).0 (next_number-free db.orders)
  where
    go :
        (t : Option TaskRow) (o : Option OrderRow)
        → Sound c
            (next_order_number db.orders)
            t
            o
            (latest_request (next_order_number db.orders) db.task_events)
        → o ≡ none
        → t ≡ none
    go none o s e = refl
    go (some row) none s e = absurd s
    go (some row) (some order) s e = cc

module _ (c : MessagingConfig) (execution_id now : ℕ) (items : List Item) (db : OrdersDb)
    (attempts : 0 < c.max_attempts)
    (fits : validate_payload EventType.stock_reservation_requested (reservation_request 0 items)
      ≡ true)
    (sound : (j : ℕ) → IsSound c db j) (own : OwnOrders db.tasks) where
  abbrev pub number : ℕ
  number = next_order_number db.orders

  pub free_task : get number db.tasks ≡ none
  free_task = free_number c db sound

  free_request : latest_request number db.task_events ≡ none
  free_request =
      let s : Sound c number none (get number db.orders) (latest_request number db.task_events) =
        rw free_task at (sound number).0 in
      s

  -- The view that is returned, and the database, after a creation.
  abbrev pub Created : OrderView → OrdersDb → Type 0
  Created view after =
      (view.task_id ≡ number)
      × (view.order_id ≡ number)
      × IsSound c after number
      × IsReady after number
      × (created (get number after.tasks) ≡ now)
      × (budget c (get number after.tasks) ≤ c.max_attempts + c.max_waits + 1)
      × OwnOrders after.tasks

  pub create-Created : Post Created (create_order_with_task execution_id items now db)
  unfolding create_order_with_task latest_request order_status_for
  create-Created = grind (
    arith,
    get-insert_self,
    no_task_of_order number db.tasks own free_task,
    next_number-free db.orders,
    free_task,
    free_request,
    items_of_any number items fits,
    OwnOrders-insert,
    sound number,
  )

  pub create-Frame :
      (j : ℕ) → j ≢ number → Frame j db (create_order_with_task execution_id items now db).1
  unfolding create_order_with_task latest_request
  create-Frame j other = grind (
    arith,
    get-insert_ne,
    get-insert_self,
    no_task_of_order number db.tasks own free_task,
    next_number-free db.orders,
    free_task,
    OwnOrders-insert,
  )
