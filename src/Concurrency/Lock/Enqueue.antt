-- ===== src/Concurrency/Lock/Enqueue.antt =====
-- A new request in a queue, and the thread that waits with it, keep the invariant.
use one_base.Base.{
  ℕ, ◌+◌, ◌≡◌, ◌≢◌, inl, inr, refl, sym, subst, Bool-cases, true, false, List, [], ◌∷◌, ◌++◌, arith,
  ◌==◌, if◌then◌else◌, All,
}
use one_base.Rid.{Rid, rid_eq, rid_eq→eq, rid_eq_self}
use one_base.Concurrency.Lock.{LockRequest, System, Waiter, Kind, resume, settle, enqueue}
use one_base.Concurrency.Lock.Safe.{
  queue, WaiterIsPending, Safe, SafeState, queue-set_queue, resume-Safe,
}
use one_base.Concurrency.Lock.Compat.{
  Compat, Pending, Owned, mode_of, All-append, Owned-Pending, Owned-next,
}

-- A request of `t` enters the queue, and a thread that waits with it.
module _ (owner : ℕ → ℕ) (s : System) (t : ℕ) (rid : Rid) (kind : Kind) (ws : List Waiter) where
  entering : LockRequest
  entering = record { node = s.next_node; txn_id = t; lock_mode = mode_of kind; granted = false }

  pub owner' : ℕ → ℕ
  owner' m = if s.next_node == m then t else owner m

  queue-enqueue :
      (r : Rid)
      → queue (enqueue s t rid (mode_of kind)) r
        ≡ (if rid_eq rid r then queue s rid ++ (entering ∷ []) else queue s r)
  unfolding enqueue entering
  queue-enqueue r = queue-set_queue s rid (queue s rid ++ (entering ∷ [])) r

  enqueue-Pending :
      (xs : List Waiter)
      → All (WaiterIsPending owner s) xs
      → All (WaiterIsPending owner' (enqueue s t rid (mode_of kind))) xs
        × All (λ x. rid_eq rid x.rid ≡ true → x.node ≢ s.next_node) xs
  unfolding owner'
  enqueue-Pending [] h = (tt, tt)
  enqueue-Pending (x ∷ xs) h =
      let more = enqueue-Pending xs h.1 in
      (
        (
          (
            ground (arith, h.0.0, h.0.1),
            unfold enqueue in omega (arith, h.0.1),
            elim (Bool-cases (rid_eq rid x.rid)) [
              | inl e ↦
                  rw (queue-enqueue x.rid, e)
                    (All-append _ (queue s rid) (entering ∷ [])
                      (subst (λ (r : Rid). Pending x.kind x.node (queue s r))
                        (sym (rid_eq→eq rid x.rid e)) h.0.2)
                      (λ k. absurd (unfold entering in omega (arith, h.0.1)), tt))
              | inr e ↦ rw (queue-enqueue x.rid, e) h.0.2
            ],
          ),
          more.0,
        ),
        (λ e k. omega (arith, h.0.1), more.1),
      )

  appended-Compat : Compat (queue s rid) → Compat (queue s rid ++ (entering ∷ []))
  unfolding entering
  appended-Compat (inl h) =
      inl (All-append _ (queue s rid) (entering ∷ []) h (λ g. absurd (cc), tt))
  appended-Compat (inr (o, h)) =
      inr (o, All-append _ (queue s rid) (entering ∷ []) h (λ g. absurd (cc), tt))

  appended-Owned :
      Owned owner s.next_node (queue s rid)
      → Owned owner' (s.next_node + 1) (queue s rid ++ (entering ∷ []))
  unfolding entering owner'
  appended-Owned h =
      All-append _ (queue s rid) (entering ∷ []) (Owned-next owner s.next_node t (queue s rid) h)
        ((omega arith, ground arith), tt)

  appended-Pending :
      Owned owner s.next_node (queue s rid)
      → Pending kind s.next_node (queue s rid ++ (entering ∷ []))
  unfolding entering
  appended-Pending h =
      All-append _ (queue s rid) (entering ∷ [])
        (Owned-Pending owner s.next_node kind (queue s rid) h) (λ k. (refl, refl), tt)

  enqueue-next : (enqueue s t rid (mode_of kind)).next_node ≡ s.next_node + 1
  unfolding enqueue
  enqueue-next = refl

  enqueue-Safe :
      Safe owner s ws
      → Safe owner'
          (enqueue s t rid (mode_of kind))
          (record { kind = kind; txn_id = t; rid = rid; node = s.next_node } ∷ ws)
  unfolding owner'
  enqueue-Safe h =
      let waiters = enqueue-Pending ws h.pending in
      record {
        owned = λ r. elim (Bool-cases (rid_eq rid r)) [
          | inl e ↦ rw (queue-enqueue r, e, enqueue-next) (appended-Owned (h.owned rid))
          | inr e ↦
              rw (queue-enqueue r, e, enqueue-next)
                (Owned-next owner s.next_node t (queue s r) (h.owned r))
        ];
        compat = λ r. elim (Bool-cases (rid_eq rid r)) [
          | inl e ↦ rw (queue-enqueue r, e) (appended-Compat (h.compat rid))
          | inr e ↦ rw (queue-enqueue r, e) (h.compat r)
        ];
        pending = (
          (
            ground arith,
            omega (arith, enqueue-next),
            rw (queue-enqueue rid, rid_eq_self rid) (appended-Pending (h.owned rid)),
          ),
          waiters.0,
        );
        apart = (waiters.1, h.apart);
      }

  pub call-Safe :
      Safe owner s ws
      → SafeState (
          settle ws
            (record { kind = kind; txn_id = t; rid = rid; node = s.next_node })
            (resume (enqueue s t rid (mode_of kind)) kind t rid s.next_node))
  call-Safe h =
      resume-Safe owner' (enqueue s t rid (mode_of kind))
        (record { kind = kind; txn_id = t; rid = rid; node = s.next_node }) ws (enqueue-Safe h)
