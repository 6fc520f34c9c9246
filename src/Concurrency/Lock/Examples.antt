-- ===== src/Concurrency/Lock/Examples.antt =====
-- Schedules of two transactions on one row.
use one_base.Base.{ℕ, ◌≡◌, refl, true, none, [], Memᴰ}
use one_base.Rid.{Rid}
use one_base.Concurrency.Lock.{
  exclusive, LockRequest, System, Transaction, growing, no_exclusive, no_other, grant_node,
  erase_node, upgrade_node, erase_first, find_granted, in_set, insert_set, erase_set, set_queue,
  set_upgrading, set_state, enqueue, resume, can_proceed, grant, give_up, clear_upgrading,
  lock_shared, lock_exclusive, lock_upgrade, upgrade_found, unlock, new, call_exclusive, Reach,
  start, next,
}
use one_base.Concurrency.Lock.Steps.{Reach-exclusive}

program : Unit {0}
unfolding no_exclusive no_other grant_node erase_node upgrade_node erase_first find_granted in_set
    insert_set erase_set set_queue set_upgrading set_state enqueue resume can_proceed grant give_up
    clear_upgrading lock_shared lock_exclusive lock_upgrade upgrade_found unlock new
program = tt

abbrev row : Rid
row = record { page_id = 3; slot_num = 1 }

abbrev idle : ℕ → Transaction
idle t = record { state = growing; shared_lock_set = []; exclusive_lock_set = [] }

abbrev first : System
first = (lock_exclusive (new idle).system 1 row).0

abbrev held : LockRequest
held = record { node = 0; txn_id = 1; lock_mode = exclusive; granted = true }

locked : Reach (new idle) (record { system = first; waiting = [] })
unfolding program
locked = next start (call_exclusive 1 row)

Reach-exclusive_example : held.txn_id ≡ held.txn_id
unfolding program
Reach-exclusive_example =
    Reach-exclusive idle row held held locked (Memᴰ.head refl) (Memᴰ.head refl) refl refl refl

-- A second transaction waits for the row.
second_waits : (lock_shared first 2 row).1 ≡ none
unfolding program
second_waits = refl
