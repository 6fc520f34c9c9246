-- ===== src/Concurrency/Lock/Steps.antt =====
-- Locks stay compatible under every interleaving of calls, wake-ups and changes of state.
use one_base.Base.{ℕ, ◌≡◌, ◌≢◌, inl, inr, sym, ◌∙◌, true, List, All, Memᴰ, All-Memᴰ}
use one_base.Rid.{Rid, rid_eq, rid_eq→eq, rid_eq_self}
use one_base.Concurrency.Lock.{
  exclusive, LockRequest, System, State, Waiter, Transaction, Picks, here, there, Step, call_shared,
  call_exclusive, call_upgrade, call_unlock, wake, outside, Reach, start, next, new,
}
use one_base.Concurrency.Lock.Calls.{
  set_state-Safe, lock_shared-Safe, lock_exclusive-Safe, unlock-Safe, lock_upgrade-Safe,
}
use one_base.Concurrency.Lock.Safe.{WaiterIsPending, Apart, SafeState, resume-Safe}
use one_base.Concurrency.Lock.Compat.{Compat}

picked :
    (owner : ℕ → ℕ) (s : System) (w : Waiter) {ws rest : List Waiter}
    → Picks w ws rest
    → All (WaiterIsPending owner s) ws
    → WaiterIsPending owner s w × All (WaiterIsPending owner s) rest
picked owner s w here h = h
picked owner s w (there p) h = let k = picked owner s w p h.1 in (k.0, (h.0, k.1))

abbrev Distinguished : Waiter → List Waiter → Type 0
Distinguished w = All (λ x. rid_eq w.rid x.rid ≡ true → x.node ≢ w.node)

Distinguished-picked :
    (v w : Waiter) {ws rest : List Waiter}
    → Picks w ws rest
    → Distinguished v ws
    → (rid_eq v.rid w.rid ≡ true → w.node ≢ v.node) × Distinguished v rest
Distinguished-picked v w here h = h
Distinguished-picked v w (there p) h = let k = Distinguished-picked v w p h.1 in (k.0, (h.0, k.1))

flipped :
    (v w : Waiter)
    → (rid_eq v.rid w.rid ≡ true → w.node ≢ v.node)
    → rid_eq w.rid v.rid ≡ true
    → v.node ≢ w.node
flipped v w h e k = h (rw (rid_eq→eq w.rid v.rid e) (rid_eq_self v.rid)) (sym k)

picked-Apart :
    (w : Waiter) {ws rest : List Waiter}
    → Picks w ws rest
    → Apart ws
    → Distinguished w rest × Apart rest
picked-Apart w here h = h
picked-Apart w (there {x = x} p) h =
    let k = picked-Apart w p h.1 in
    let d = Distinguished-picked x w p h.0 in ((flipped x w d.0, k.0), (d.1, k.1))

-- Every step keeps the invariant.
Step-Safe : {st u : State} → Step st u → SafeState st → SafeState u
Step-Safe {st} (call_shared t rid) (o, h) = lock_shared-Safe o st.system st.waiting t rid h
Step-Safe {st} (call_exclusive t rid) (o, h) = lock_exclusive-Safe o st.system st.waiting t rid h
Step-Safe {st} (call_upgrade t rid) (o, h) = lock_upgrade-Safe o st.system st.waiting t rid h
Step-Safe {st} (call_unlock t rid) (o, h) = (o, unlock-Safe o st.system st.waiting t rid h)
Step-Safe {st} (wake w {rest = rest} p) (o, h) =
    let waiters = picked o st.system w p h.pending in
    let apart = picked-Apart w p h.apart in
    resume-Safe o st.system w rest
      (record { owned = h.owned; compat = h.compat; pending = waiters; apart = apart })
Step-Safe {st} (outside t state) (o, h) = (o, set_state-Safe o st.system st.waiting t state h)

Reach-Safe : {st u : State} → SafeState st → Reach st u → SafeState u
Reach-Safe h start = h
Reach-Safe h (next r s) = Step-Safe s (Reach-Safe h r)

new-Safe : (txns : ℕ → Transaction) → SafeState (new txns)
unfolding new
new-Safe txns =
    (λ n. 0, record { owned = λ rid. tt; compat = λ rid. inl tt; pending = tt; apart = tt })

Compat-exclusive :
    (rs : List LockRequest) (a b : LockRequest)
    → Compat rs
    → Memᴰ a rs
    → Memᴰ b rs
    → a.granted ≡ true
    → a.lock_mode ≡ exclusive
    → b.granted ≡ true
    → b.txn_id ≡ a.txn_id
Compat-exclusive rs a b (inl h) m k ga xa gb = absurd (let s = All-Memᴰ _ m h ga in cc)
Compat-exclusive rs a b (inr (t, h)) m k ga xa gb = All-Memᴰ _ k h gb ∙ sym (All-Memᴰ _ m h ga)

-- From a fresh lock manager, whatever calls, wake-ups and changes of state follow in whatever
-- order: while a transaction's exclusive lock on a row is granted, no lock of another transaction
-- on that row is.
pub Reach-exclusive :
    (txns : ℕ → Transaction) {st : State} (rid : Rid) (a b : LockRequest)
    → Reach (new txns) st
    → Memᴰ a (st.system.lock_table rid).request_queue
    → Memᴰ b (st.system.lock_table rid).request_queue
    → a.granted ≡ true
    → a.lock_mode ≡ exclusive
    → b.granted ≡ true
    → b.txn_id ≡ a.txn_id
Reach-exclusive txns {st} rid a b r m k ga xa gb =
    let (o, h) = Reach-Safe (new-Safe txns) r in
    Compat-exclusive (st.system.lock_table rid).request_queue a b (h.compat rid) m k ga xa gb
