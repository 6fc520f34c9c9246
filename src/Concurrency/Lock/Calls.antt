-- ===== src/Concurrency/Lock/Calls.antt =====
-- Every call of the lock manager keeps the invariant, whether it returns or waits.
use one_base.Base.{
  ℕ, ◌≡◌, ◌≢◌, refl, sym, ◌∙◌, subst, Bool, true, false, Option, none, some, List, [], ◌∷◌, arith,
  if◌then◌else◌, All, ◌||◌,
}
use one_base.Rid.{Rid, rid_eq, rid_eq→eq, rid_eq_self}
use one_base.Concurrency.Lock.{
  shared, exclusive, LockRequest, System, Waiter, Kind, for_shared, for_exclusive, for_upgrade,
  upgrade_node, find_granted, erase_first, node_or, set_queue, set_upgrading, resume, settle,
  lock_shared, lock_exclusive, lock_upgrade, upgrade_found, unlock, enqueue, set_state, checked,
  growing, shrinking, committed, aborted, TransactionState, in_set,
}
use one_base.Concurrency.Lock.Enqueue.{call-Safe}
use one_base.Concurrency.Lock.Safe.{
  queue, WaiterIsPending, Safe, SafeState, same-Safe, queue-set_queue, queue-set_upgrading,
  resume-Safe, requeue-Safe,
}
use one_base.Concurrency.Lock.Compat.{
  Pending, All-erase_first, upgrade-Compat, map-Compat, upgrade-Owned, upgrade-Pending,
  upgrade-Pending_self, find_granted-owner, find_granted-Pending,
}

pub set_state-Safe :
    (owner : ℕ → ℕ) (s : System) (ws : List Waiter) (t : ℕ) (state : TransactionState)
    → Safe owner s ws
    → Safe owner (set_state s t state) ws
set_state-Safe owner s ws t state h =
    same-Safe owner s (set_state s t state) ws (λ r. unfold set_state in refl)
      (unfold set_state in refl) h

-- The head of a call: it returns at once, or goes on.
checked-Safe :
    (owner : ℕ → ℕ) (s : System) (ws : List Waiter) (w : Waiter) (t : ℕ)
    (rest : System × Option Bool) (state : TransactionState)
    → Safe owner s ws
    → SafeState (settle ws w rest)
    → SafeState (settle ws w (checked s t rest state))
checked-Safe owner s ws w t rest growing h k = k
checked-Safe owner s ws w t rest shrinking h k = (owner, set_state-Safe owner s ws t aborted h)
checked-Safe owner s ws w t rest committed h k = k
checked-Safe owner s ws w t rest aborted h k = (owner, h)

either-Safe :
    (owner : ℕ → ℕ) (s : System) (ws : List Waiter) (w : Waiter) (b : Bool)
    (rest : System × Option Bool) (out : Bool)
    → Safe owner s ws
    → SafeState (settle ws w rest)
    → SafeState (settle ws w (if b then (s, some out) else rest))
either-Safe owner s ws w true rest out h k = (owner, h)
either-Safe owner s ws w false rest out h k = k

-- A change of the queue that keeps every pending request of the waiting threads.
keeps_Pending :
    (s : System) (rid : Rid) (rs : List LockRequest) (ws : List Waiter)
    → All
        (λ w.
          rid_eq rid w.rid ≡ true → Pending w.kind w.node (queue s rid) → Pending w.kind w.node rs)
        ws
    → All
        (λ w.
          rid_eq rid w.rid ≡ true
          → Pending w.kind w.node (queue s w.rid)
          → Pending w.kind w.node rs)
        ws
keeps_Pending s rid rs [] k = tt
keeps_Pending s rid rs (w ∷ ws) k = (
  λ e p.
      k.0 e
        (subst (λ (r : Rid). Pending w.kind w.node (queue s r)) (sym (rid_eq→eq rid w.rid e)) p),
  keeps_Pending s rid rs ws k.1,
)

module _ (owner : ℕ → ℕ) (s : System) (ws : List Waiter) (t : ℕ) (rid : Rid)
    (h : Safe owner s ws) where
  abbrev pub waiter : Kind → ℕ → Waiter
  waiter kind n = record { kind = kind; txn_id = t; rid = rid; node = n }

  pub lock_shared-Safe : SafeState (settle ws (waiter for_shared s.next_node) (lock_shared s t rid))
  unfolding lock_shared
  lock_shared-Safe =
      let w = waiter for_shared s.next_node in
      let rest = resume (enqueue s t rid shared) for_shared t rid s.next_node in
      let held =
        in_set (s.txns t).shared_lock_set rid || in_set (s.txns t).exclusive_lock_set rid in
      checked-Safe owner s ws w t (if held then (s, some true) else rest) (s.txns t).state h
        (either-Safe owner s ws w held rest true h (call-Safe owner s t rid for_shared ws h))

  pub lock_exclusive-Safe :
      SafeState (settle ws (waiter for_exclusive s.next_node) (lock_exclusive s t rid))
  unfolding lock_exclusive
  lock_exclusive-Safe =
      let w = waiter for_exclusive s.next_node in
      let rest = resume (enqueue s t rid exclusive) for_exclusive t rid s.next_node in
      let held = in_set (s.txns t).exclusive_lock_set rid in
      checked-Safe owner s ws w t (if held then (s, some true) else rest) (s.txns t).state h
        (either-Safe owner s ws w held rest true h (call-Safe owner s t rid for_exclusive ws h))

  unlocked-Pending :
      (xs : List Waiter)
      → All
          (λ w.
            rid_eq rid w.rid ≡ true
            → Pending w.kind w.node (queue s rid)
            → Pending w.kind w.node (erase_first t (queue s rid)))
          xs
  unlocked-Pending [] = tt
  unlocked-Pending (x ∷ xs) = (λ e. All-erase_first _ t (queue s rid), unlocked-Pending xs)

  pub unlock-Safe : Safe owner (unlock s t rid).0 ws
  unlock-Safe =
      let rs = queue s rid in
      requeue-Safe owner s (unlock s t rid).0 rid (erase_first t rs)
        (λ r. unfold unlock in queue-set_queue s rid (erase_first t rs) r) (unfold unlock in refl)
        (All-erase_first _ t rs (h.owned rid))
        (map-Compat (erase_first t) (λ P. All-erase_first P t) rs (h.compat rid)) ws
        (keeps_Pending s rid (erase_first t rs) ws (unlocked-Pending ws)) h

  -- The queue after an upgrade has marked the request that it found.
  marked : ℕ → System
  marked n = let s' = set_upgrading s rid true in set_queue s' rid (upgrade_node n (queue s' rid))

  marked-queue :
      (n : ℕ) (r : Rid)
      → queue (marked n) r ≡ (if rid_eq rid r then upgrade_node n (queue s rid) else queue s r)
  unfolding marked
  marked-queue n r =
      let s' = set_upgrading s rid true in
      queue-set_queue s' rid (upgrade_node n (queue s' rid)) r
      ∙ rw (queue-set_upgrading s rid true rid, queue-set_upgrading s rid true r) refl

  marked-rest : (n : ℕ) → (marked n).next_node ≡ s.next_node
  unfolding marked set_queue set_upgrading
  marked-rest n = refl

  -- No waiting thread has the request that the upgrade found.
  others :
      (n : ℕ)
      → find_granted t (queue s rid) ≡ some n
      → (xs : List Waiter) → All (WaiterIsPending owner s) xs
      → All (λ x. rid_eq rid x.rid ≡ true → x.node ≢ n) xs
  others n found [] k = tt
  others n found (x ∷ xs) k = (
    λ e.
        find_granted-Pending x.kind t x.node (queue s rid) {n = n}
          (subst (λ (r : Rid). Pending x.kind x.node (queue s r)) (sym (rid_eq→eq rid x.rid e))
            k.0.2)
          found,
    others n found xs k.1,
  )

  upgraded-Pending :
      (n : ℕ) (xs : List Waiter)
      → All (λ x. rid_eq rid x.rid ≡ true → x.node ≢ n) xs
      → All
          (λ x.
            rid_eq rid x.rid ≡ true
            → Pending x.kind x.node (queue s rid)
            → Pending x.kind x.node (upgrade_node n (queue s rid)))
          xs
  upgraded-Pending n [] a = tt
  upgraded-Pending n (x ∷ xs) a =
      (λ e p. upgrade-Pending x.kind n x.node (queue s rid) (a.0 e) p, upgraded-Pending n xs a.1)

  marked-Safe :
      (n : ℕ)
      → find_granted t (queue s rid) ≡ some n
      → Safe owner (marked n) (waiter for_upgrade n ∷ ws)
  marked-Safe n found =
      let rs = queue s rid in
      let apart = others n found ws h.pending in
      let own = find_granted-owner owner s.next_node t rs {n = n} (h.owned rid) found in
      let base =
        requeue-Safe owner s (marked n) rid (upgrade_node n rs) (marked-queue n) (marked-rest n)
          (upgrade-Owned owner s.next_node n rs (h.owned rid)) (upgrade-Compat n rs (h.compat rid))
          ws (keeps_Pending s rid (upgrade_node n rs) ws (upgraded-Pending n ws apart)) h in
      record {
        owned = base.owned;
        compat = base.compat;
        pending = (
          (
            own.0,
            omega (arith, own.1, marked-rest n),
            rw (marked-queue n rid, rid_eq_self rid) (upgrade-Pending_self n rs),
          ),
          base.pending,
        );
        apart = (apart, base.apart);
      }

  found-Safe :
      (o : Option ℕ)
      → find_granted t (queue s rid) ≡ o
      → SafeState (settle ws (waiter for_upgrade (node_or 0 o)) (upgrade_found s t rid o))
  unfolding upgrade_found marked
  found-Safe none e = (
    owner,
    same-Safe owner s (set_upgrading s rid false) ws (queue-set_upgrading s rid false)
        (unfold set_upgrading in refl) h,
  )
  found-Safe (some n) e = resume-Safe owner (marked n) (waiter for_upgrade n) ws (marked-Safe n e)

  pub lock_upgrade-Safe : SafeState (
      settle ws
        (waiter for_upgrade (node_or 0 (find_granted t (queue s rid))))
        (lock_upgrade s t rid))
  unfolding lock_upgrade
  lock_upgrade-Safe =
      let w = waiter for_upgrade (node_or 0 (find_granted t (queue s rid))) in
      let rest = upgrade_found s t rid (find_granted t (queue s rid)) in
      checked-Safe owner s ws w t
        (if (s.lock_table rid).upgrading then (set_state s t aborted, some false) else rest)
        (s.txns t).state h
        (either-Safe owner (set_state s t aborted) ws w (s.lock_table rid).upgrading rest false
          (set_state-Safe owner s ws t aborted h) (found-Safe (find_granted t (queue s rid)) refl))
