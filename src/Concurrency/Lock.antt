-- ===== src/Concurrency/Lock.antt =====
-- `LockManager` (src/concurrency/lock_manager.cpp), `Transaction` (concurrency/transaction.h) and
-- `TransactionManager` (concurrency/transaction_manager.cpp). A method holds the latch but where it
-- waits on a queue's condition variable, so it is one step up to the wait, and one step from the
-- wake-up on. A request carries the number of its list node, by which a waiting thread's iterator
-- finds it again.
pub mod Compat
pub mod Safe
pub mod Enqueue
pub mod Calls
pub mod Steps
mod Examples
use one_base.Base.{
  ℕ, ◌+◌, Bool, true, false, ◌&&◌, ◌||◌, not, Option, none, some, List, [], ◌∷◌, ◌++◌, ◌==◌,
  if◌then◌else◌, update,
}
use one_base.Rid.{Rid, rid_eq, update_rid}

pub data LockMode : Type 0 where
  shared exclusive : LockMode

pub data TransactionState : Type 0 where
  growing shrinking committed aborted : TransactionState

-- The isolation level of the source is stored and never read.
pub record Transaction : Type 0 where
  pub state : TransactionState
  pub shared_lock_set : List Rid
  pub exclusive_lock_set : List Rid

pub record LockRequest : Type 0 where
  pub node : ℕ
  pub txn_id : ℕ
  pub lock_mode : LockMode
  pub granted : Bool

pub record LockRequestQueue : Type 0 where
  pub request_queue : List LockRequest
  pub upgrading : Bool

-- The lock table, where a RID that was never asked for has an empty queue; the transactions by
-- their ids; and the next list node.
pub record System : Type 0 where
  pub lock_table : Rid → LockRequestQueue
  pub txns : ℕ → Transaction
  pub next_node : ℕ

abbrev pub is_aborted : TransactionState → Bool
is_aborted aborted = true
is_aborted _ = false

abbrev pub is_exclusive : LockMode → Bool
is_exclusive exclusive = true
is_exclusive shared = false

unfoldable pub in_set : List Rid → Rid → Bool
in_set [] rid = false
in_set (r ∷ rs) rid = rid_eq r rid || in_set rs rid

unfoldable pub insert_set : List Rid → Rid → List Rid
unfolding in_set
insert_set rs rid = if in_set rs rid then rs else rid ∷ rs

unfoldable pub erase_set : List Rid → Rid → List Rid
erase_set [] rid = []
erase_set (r ∷ rs) rid = let rest = erase_set rs rid in if rid_eq r rid then rest else r ∷ rest

unfoldable pub set_state : System → ℕ → TransactionState → System
set_state s t state = record s { txns = update s.txns t (record (s.txns t) { state = state }) }

unfoldable pub set_queue : System → Rid → List LockRequest → System
set_queue s rid rs = record s {
  lock_table = update_rid s.lock_table rid (record (s.lock_table rid) { request_queue = rs });
}

unfoldable pub set_upgrading : System → Rid → Bool → System
set_upgrading s rid b = record s {
  lock_table = update_rid s.lock_table rid (record (s.lock_table rid) { upgrading = b });
}

-- The loop of the predicate in `LockShared`: no exclusive lock is granted.
unfoldable pub no_exclusive : List LockRequest → Bool
no_exclusive [] = true
no_exclusive (r ∷ rs) = if r.granted && is_exclusive r.lock_mode then false else no_exclusive rs

-- The loop of the predicates in `LockExclusive` and `LockUpgrade`: no other transaction's lock is
-- granted.
unfoldable pub no_other : ℕ → List LockRequest → Bool
no_other t [] = true
no_other t (r ∷ rs) = if r.granted && not (r.txn_id == t) then false else no_other t rs

-- `request_queue_.erase(it)`, for the one request with the node `n`.
unfoldable pub erase_node : ℕ → List LockRequest → List LockRequest
erase_node n [] = []
erase_node n (r ∷ rs) = let rest = erase_node n rs in if r.node == n then rest else r ∷ rest

-- `it->granted_ = true`.
unfoldable pub grant_node : ℕ → List LockRequest → List LockRequest
grant_node n [] = []
grant_node n (r ∷ rs) = (if r.node == n then record r { granted = true } else r) ∷ grant_node n rs

-- `it->lock_mode_ = LockMode::EXCLUSIVE; it->granted_ = false`.
unfoldable pub upgrade_node : ℕ → List LockRequest → List LockRequest
upgrade_node n [] = []
upgrade_node n (r ∷ rs) =
    (if r.node == n then record r { lock_mode = exclusive; granted = false } else r)
    ∷ upgrade_node n rs

-- The loop of `LockUpgrade`: the first granted request of the transaction.
unfoldable pub find_granted : ℕ → List LockRequest → Option ℕ
find_granted t [] = none
find_granted t (r ∷ rs) = if r.txn_id == t && r.granted then some r.node else find_granted t rs

-- The loop of `Unlock`: the first request of the transaction is erased, granted or not.
unfoldable pub erase_first : ℕ → List LockRequest → List LockRequest
erase_first t [] = []
erase_first t (r ∷ rs) = let rest = erase_first t rs in if r.txn_id == t then rs else r ∷ rest

-- Which call a thread waits in.
pub data Kind : Type 0 where
  for_shared for_exclusive for_upgrade : Kind

-- The predicate of the wait.
unfoldable pub can_proceed : System → Kind → ℕ → Rid → Bool
unfolding no_exclusive no_other
can_proceed s for_shared t rid =
    is_aborted (s.txns t).state || no_exclusive (s.lock_table rid).request_queue
can_proceed s for_exclusive t rid =
    is_aborted (s.txns t).state || no_other t (s.lock_table rid).request_queue
can_proceed s for_upgrade t rid =
    is_aborted (s.txns t).state || no_other t (s.lock_table rid).request_queue

-- The lock enters the transaction's sets.
abbrev pub noted : Kind → Rid → Transaction → Transaction
noted for_shared rid txn = record txn { shared_lock_set = insert_set txn.shared_lock_set rid }
noted for_exclusive rid txn = record txn {
  exclusive_lock_set = insert_set txn.exclusive_lock_set rid;
}
noted for_upgrade rid txn = record txn {
  shared_lock_set = erase_set txn.shared_lock_set rid;
  exclusive_lock_set = insert_set txn.exclusive_lock_set rid;
}

-- `it->granted_ = true` and the insertion into the lock sets, at the end of the three calls.
unfoldable pub grant : System → Kind → ℕ → Rid → ℕ → System
unfolding set_queue grant_node insert_set erase_set
grant s kind t rid n =
    let s' = set_queue s rid (grant_node n (s.lock_table rid).request_queue) in
    record s' { txns = update s'.txns t (noted kind rid (s'.txns t)) }

-- What follows the wait of an aborted transaction: the two plain calls take their request back,
-- an upgrade leaves it.
unfoldable pub give_up : System → Kind → Rid → ℕ → System
unfolding set_queue erase_node
give_up s for_upgrade rid n = s
give_up s _ rid n = set_queue s rid (erase_node n (s.lock_table rid).request_queue)

-- `queue.upgrading_ = false`, which comes first after the wait of an upgrade.
unfoldable pub clear_upgrading : System → Kind → Rid → System
unfolding set_upgrading
clear_upgrading s for_upgrade rid = set_upgrading s rid false
clear_upgrading s _ rid = s

-- From the wait on: `none` if the thread goes on waiting, else what the call returns.
unfoldable pub resume : System → Kind → ℕ → Rid → ℕ → System × Option Bool
unfolding can_proceed grant give_up clear_upgrading
resume s kind t rid n =
    if can_proceed s kind t rid
    then (let s' = clear_upgrading s kind rid in
        if is_aborted (s'.txns t).state
        then (give_up s' kind rid n, some false)
        else (grant s' kind t rid n, some true))
    else (s, none)

-- The head of the three calls: a transaction that shrinks is aborted, and an aborted one refused.
abbrev pub checked : System → ℕ → System × Option Bool → TransactionState → System × Option Bool
checked s t rest shrinking = (set_state s t aborted, some false)
checked s t rest aborted = (s, some false)
checked s t rest _ = rest

-- `emplace_back` of a request that is not granted.
unfoldable pub enqueue : System → ℕ → Rid → LockMode → System
unfolding set_queue
enqueue s t rid mode =
    record (set_queue s rid (
      (s.lock_table rid).request_queue
      ++ (record { node = s.next_node; txn_id = t; lock_mode = mode; granted = false } ∷ []))) {
        next_node = s.next_node + 1;
      }

unfoldable pub lock_shared : System → ℕ → Rid → System × Option Bool
unfolding set_state in_set enqueue resume
lock_shared s t rid =
    checked s t
      (if in_set (s.txns t).shared_lock_set rid || in_set (s.txns t).exclusive_lock_set rid
        then (s, some true)
        else resume (enqueue s t rid shared) for_shared t rid s.next_node)
      (s.txns t).state

unfoldable pub lock_exclusive : System → ℕ → Rid → System × Option Bool
unfolding set_state in_set enqueue resume
lock_exclusive s t rid =
    checked s t
      (if in_set (s.txns t).exclusive_lock_set rid
        then (s, some true)
        else resume (enqueue s t rid exclusive) for_exclusive t rid s.next_node)
      (s.txns t).state

-- `LockUpgrade` from the search for the granted request on. The flag of the queue is set while
-- the search runs, and is false again if it finds nothing.
unfoldable pub upgrade_found : System → ℕ → Rid → Option ℕ → System × Option Bool
unfolding set_upgrading set_queue upgrade_node resume
upgrade_found s t rid none = (set_upgrading s rid false, some false)
upgrade_found s t rid (some n) =
    let s' = set_upgrading s rid true in
    resume (set_queue s' rid (upgrade_node n (s'.lock_table rid).request_queue)) for_upgrade t rid n

unfoldable pub lock_upgrade : System → ℕ → Rid → System × Option Bool
unfolding set_state find_granted upgrade_found
lock_upgrade s t rid =
    checked s t
      (if (s.lock_table rid).upgrading
        then (set_state s t aborted, some false)
        else upgrade_found s t rid (find_granted t (s.lock_table rid).request_queue))
      (s.txns t).state

abbrev pub after_unlock : TransactionState → TransactionState
after_unlock growing = shrinking
after_unlock state = state

unfoldable pub unlock : System → ℕ → Rid → System × Bool
unfolding set_queue erase_first erase_set
unlock s t rid =
    let s' = set_queue s rid (erase_first t (s.lock_table rid).request_queue) in
    (
      record s' {
        txns = update s'.txns t (record {
          state = after_unlock (s'.txns t).state;
          shared_lock_set = erase_set (s'.txns t).shared_lock_set rid;
          exclusive_lock_set = erase_set (s'.txns t).exclusive_lock_set rid;
        });
      },
      true,
    )

-- A thread inside the wait of a call.
pub record Waiter : Type 0 where
  pub kind : Kind
  pub txn_id : ℕ
  pub rid : Rid
  pub node : ℕ

-- The lock manager, and the threads that wait in it.
pub record State : Type 0 where
  pub system : System
  pub waiting : List Waiter

-- A lock manager that was not used yet, over the given transactions.
unfoldable pub new : (ℕ → Transaction) → State
new txns = record {
  system = record {
    lock_table = λ rid. record { request_queue = []; upgrading = false };
    txns = txns;
    next_node = 0;
  };
  waiting = [];
}

-- The thread of a call returns, or joins those that wait.
abbrev pub settle : List Waiter → Waiter → System × Option Bool → State
settle ws w (s, none) = record { system = s; waiting = w ∷ ws }
settle ws w (s, some b) = record { system = s; waiting = ws }

abbrev pub node_or : ℕ → Option ℕ → ℕ
node_or d none = d
node_or d (some n) = n

-- A thread that waits, out of the list of those that do.
pub data Picks (w : Waiter) : List Waiter → List Waiter → Type 0 where
  here : {ws : List Waiter} → Picks w (w ∷ ws) ws
  there : {x : Waiter} {ws rs : List Waiter} → Picks w ws rs → Picks w (x ∷ ws) (x ∷ rs)

-- What can happen: a call of a method by any transaction, the wake-up of a waiting thread, and a
-- change of a transaction's state by `SetState` from outside the lock manager, as in `Commit` and
-- `Abort`.
pub data Step (st : State) : State → Type 0 where
  call_shared :
      (t : ℕ) (rid : Rid)
      → Step st (
          settle st.waiting
            (record { kind = for_shared; txn_id = t; rid = rid; node = st.system.next_node })
            (lock_shared st.system t rid))
  call_exclusive :
      (t : ℕ) (rid : Rid)
      → Step st (
          settle st.waiting
            (record { kind = for_exclusive; txn_id = t; rid = rid; node = st.system.next_node })
            (lock_exclusive st.system t rid))
  call_upgrade :
      (t : ℕ) (rid : Rid)
      → Step st (
          settle st.waiting
            (record {
              kind = for_upgrade;
              txn_id = t;
              rid = rid;
              node = node_or 0 (find_granted t (st.system.lock_table rid).request_queue);
            })
            (lock_upgrade st.system t rid))
  call_unlock : (t : ℕ) (rid : Rid) → Step st (record st { system = (unlock st.system t rid).0 })
  wake :
      (w : Waiter) {rest : List Waiter}
      → Picks w st.waiting rest
      → Step st (settle rest w (resume st.system w.kind w.txn_id w.rid w.node))
  outside :
      (t : ℕ) (state : TransactionState)
      → Step st (record st { system = set_state st.system t state })

pub data Reach (st : State) : State → Type 0 where
  start : Reach st st
  next : {u x : State} → Reach st u → Step u x → Reach st x
