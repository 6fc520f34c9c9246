-- ===== src/Concurrency/Lock/Safe.antt =====
-- The invariant of the lock table and the waiting threads, and that what a thread does from its
-- wait on keeps it.
use one_base.Base.{
  ℕ, ◌<◌, ◌≡◌, ◌≢◌, inl, inr, refl, ap, sym, ◌∙◌, subst, Bool-cases, Bool, true, false, List, [],
  ◌∷◌, arith, if◌then◌else◌, All,
}
use one_base.Rid.{Rid, rid_eq, rid_eq→eq}
use one_base.Concurrency.Lock.{
  LockRequest, LockRequestQueue, System, State, Waiter, Kind, for_shared, for_exclusive,
  for_upgrade, Transaction, no_exclusive, no_other, erase_node, grant_node, set_queue,
  set_upgrading, resume, can_proceed, is_aborted, grant, give_up, clear_upgrading, settle,
}
use one_base.Concurrency.Lock.Compat.{
  Compat, Pending, Owned, All-erase_node, map-Compat, grant-Compat, grant-Owned, grant-Pending,
}

abbrev pub queue : System → Rid → List LockRequest
queue s rid = (s.lock_table rid).request_queue

-- The request of a waiting thread is its own transaction's, and pending.
abbrev pub WaiterIsPending : (ℕ → ℕ) → System → Waiter → Type 0
WaiterIsPending owner s w =
    (owner w.node ≡ w.txn_id) × (w.node < s.next_node) × Pending w.kind w.node (queue s w.rid)

-- Two threads that wait on one RID wait with two requests.
abbrev pub Apart : List Waiter → Type 0
Apart [] = Unit
Apart (w ∷ ws) = All (λ x. rid_eq w.rid x.rid ≡ true → x.node ≢ w.node) ws × Apart ws

pub record Safe (owner : ℕ → ℕ) (s : System) (ws : List Waiter) : Type 0 where
  pub owned : (rid : Rid) → Owned owner s.next_node (queue s rid)
  pub compat : (rid : Rid) → Compat (queue s rid)
  pub pending : All (WaiterIsPending owner s) ws
  pub apart : Apart ws

-- One queue changes, and the requests of the waiting threads stay pending.
module _ (owner : ℕ → ℕ) (s s' : System) (rid : Rid) (rs : List LockRequest)
    (queues : (r : Rid) → queue s' r ≡ (if rid_eq rid r then rs else queue s r))
    (next : s'.next_node ≡ s.next_node) (own : Owned owner s.next_node rs) (comp : Compat rs) where
  requeue-Pending :
      (ws : List Waiter)
      → All
          (λ w.
            rid_eq rid w.rid ≡ true
            → Pending w.kind w.node (queue s w.rid)
            → Pending w.kind w.node rs)
          ws
      → All (WaiterIsPending owner s) ws
      → All (WaiterIsPending owner s') ws
  requeue-Pending [] keep h = tt
  requeue-Pending (w ∷ ws) keep h = (
    (
      h.0.0,
      omega arith,
      elim (Bool-cases (rid_eq rid w.rid)) [
        | inl e ↦ rw (queues w.rid, e) (keep.0 e h.0.2)
        | inr e ↦ rw (queues w.rid, e) h.0.2
      ],
    ),
    requeue-Pending ws keep.1 h.1,
  )

  pub requeue-Safe :
      (ws : List Waiter)
      → All
          (λ w.
            rid_eq rid w.rid ≡ true
            → Pending w.kind w.node (queue s w.rid)
            → Pending w.kind w.node rs)
          ws
      → Safe owner s ws
      → Safe owner s' ws
  requeue-Safe ws keep h = record {
    owned = λ r. elim (Bool-cases (rid_eq rid r)) [
      | inl e ↦ rw (queues r, e, next) own
      | inr e ↦ rw (queues r, e, next) (h.owned r)
    ];
    compat = λ r. elim (Bool-cases (rid_eq rid r)) [
      | inl e ↦ rw (queues r, e) comp
      | inr e ↦ rw (queues r, e) (h.compat r)
    ];
    pending = requeue-Pending ws keep h.pending;
    apart = h.apart;
  }

-- A change of the lock table's flags and of the transactions only.
pub same-Safe :
    (owner : ℕ → ℕ) (s s' : System) (ws : List Waiter)
    → ((r : Rid) → queue s' r ≡ queue s r)
    → s'.next_node ≡ s.next_node
    → Safe owner s ws
    → Safe owner s' ws
same-Safe owner s s' ws queues next h = record {
  owned = λ r. rw (queues r, next) (h.owned r);
  compat = λ r. rw (queues r) (h.compat r);
  pending = same ws h.pending;
  apart = h.apart;
}
  where
    same : (xs : List Waiter) → All (WaiterIsPending owner s) xs → All (WaiterIsPending owner s') xs
    same [] k = tt
    same (w ∷ xs) k = ((k.0.0, omega arith, rw (queues w.rid) k.0.2), same xs k.1)

queue_of_if :
    (b : Bool) (x y : LockRequestQueue)
    → (if b then x else y).request_queue ≡ (if b then x.request_queue else y.request_queue)
queue_of_if true x y = refl
queue_of_if false x y = refl

pub queue-set_queue :
    (s : System) (rid : Rid) (rs : List LockRequest) (r : Rid)
    → queue (set_queue s rid rs) r ≡ (if rid_eq rid r then rs else queue s r)
unfolding set_queue
queue-set_queue s rid rs r =
    queue_of_if (rid_eq rid r) (record (s.lock_table rid) { request_queue = rs }) (s.lock_table r)

queue_same :
    (s : System) (rid r : Rid) → (if rid_eq rid r then queue s rid else queue s r) ≡ queue s r
queue_same s rid r = elim (Bool-cases (rid_eq rid r)) [
  | inl e ↦ rw e (ap (λ (x : Rid). queue s x) (rid_eq→eq rid r e))
  | inr e ↦ rw e refl
]

pub queue-set_upgrading :
    (s : System) (rid : Rid) (b : Bool) (r : Rid) → queue (set_upgrading s rid b) r ≡ queue s r
unfolding set_upgrading
queue-set_upgrading s rid b r =
    queue_of_if (rid_eq rid r) (record (s.lock_table rid) { upgrading = b }) (s.lock_table r)
    ∙ queue_same s rid r

queue-clear_upgrading :
    (s : System) (kind : Kind) (rid r : Rid) → queue (clear_upgrading s kind rid) r ≡ queue s r
unfolding clear_upgrading
queue-clear_upgrading s for_upgrade rid r = queue-set_upgrading s rid false r
queue-clear_upgrading s for_shared rid r = refl
queue-clear_upgrading s for_exclusive rid r = refl

clear_upgrading-rest :
    (s : System) (kind : Kind) (rid : Rid)
    → ((clear_upgrading s kind rid).next_node ≡ s.next_node)
      × ((clear_upgrading s kind rid).txns ≡ s.txns)
unfolding clear_upgrading set_upgrading
clear_upgrading-rest s for_upgrade rid = (refl, refl)
clear_upgrading-rest s for_shared rid = (refl, refl)
clear_upgrading-rest s for_exclusive rid = (refl, refl)

-- What a granted lock or a request taken back does to the threads that still wait.
module _ (owner : ℕ → ℕ) (s : System) (w : Waiter) where
  apart-Pending :
      (rs : List LockRequest)
      → ((kind : Kind) (m : ℕ) → m ≢ w.node → Pending kind m (queue s w.rid) → Pending kind m rs)
      → (ws : List Waiter) → All (λ x. rid_eq w.rid x.rid ≡ true → x.node ≢ w.node) ws
      → All
          (λ x.
            rid_eq w.rid x.rid ≡ true
            → Pending x.kind x.node (queue s x.rid)
            → Pending x.kind x.node rs)
          ws
  apart-Pending rs keep [] a = tt
  apart-Pending rs keep (x ∷ ws) a = (
    λ e p.
        keep x.kind x.node (a.0 e) (
          subst (λ (r : Rid). Pending x.kind x.node (queue s r)) (sym (rid_eq→eq w.rid x.rid e)) p),
    apart-Pending rs keep ws a.1,
  )

  granted-Safe :
      (ws : List Waiter)
      → Safe owner s (w ∷ ws)
      → (w.kind ≡ for_shared → no_exclusive (queue s w.rid) ≡ true)
      → (w.kind ≢ for_shared → no_other w.txn_id (queue s w.rid) ≡ true)
      → Safe owner (grant s w.kind w.txn_id w.rid w.node) ws
  unfolding grant
  granted-Safe ws h alone mine =
      let rs = queue s w.rid in
      let own = h.owned w.rid in
      let (owns, used, pends) = h.pending.0 in
      requeue-Safe owner s (grant s w.kind w.txn_id w.rid w.node) w.rid (grant_node w.node rs)
        (queue-set_queue s w.rid (grant_node w.node rs)) refl
        (grant-Owned owner s.next_node w.node rs own)
        (grant-Compat owner s.next_node w.node w.kind rs own pends alone (λ e. rw owns (mine e))) ws
        (apart-Pending (grant_node w.node rs) (λ kind m ne p. grant-Pending kind w.node m rs ne p)
          ws h.apart.0)
        (record { owned = h.owned; compat = h.compat; pending = h.pending.1; apart = h.apart.1 })

  leave-Safe : (ws : List Waiter) → Safe owner s (w ∷ ws) → Safe owner s ws
  leave-Safe ws h = record {
    owned = h.owned;
    compat = h.compat;
    pending = h.pending.1;
    apart = h.apart.1;
  }

  erased-Safe :
      (ws : List Waiter)
      → Safe owner s (w ∷ ws)
      → Safe owner (set_queue s w.rid (erase_node w.node (queue s w.rid))) ws
  erased-Safe ws h =
      let rs = queue s w.rid in
      requeue-Safe owner s (set_queue s w.rid (erase_node w.node rs)) w.rid (erase_node w.node rs)
        (queue-set_queue s w.rid (erase_node w.node rs)) (unfold set_queue in refl)
        (All-erase_node _ w.node rs (h.owned w.rid))
        (map-Compat (erase_node w.node) (λ P. All-erase_node P w.node) rs (h.compat w.rid)) ws
        (apart-Pending (erase_node w.node rs) (λ kind m ne. All-erase_node _ w.node rs) ws
          h.apart.0)
        (leave-Safe ws h)

give_up-Safe :
    (owner : ℕ → ℕ) (s : System) (kind : Kind) (t : ℕ) (rid : Rid) (n : ℕ) (ws : List Waiter)
    → Safe owner s (record { kind = kind; txn_id = t; rid = rid; node = n } ∷ ws)
    → Safe owner (give_up s kind rid n) ws
unfolding give_up
give_up-Safe owner s for_upgrade t rid n ws h = leave-Safe owner s _ ws h
give_up-Safe owner s for_shared t rid n ws h = erased-Safe owner s _ ws h
give_up-Safe owner s for_exclusive t rid n ws h = erased-Safe owner s _ ws h

-- The predicate of a wait, read off.
proceeds :
    (s : System) (kind : Kind) (t : ℕ) (rid : Rid)
    → can_proceed s kind t rid ≡ true
    → is_aborted (s.txns t).state ≡ false
    → (kind ≡ for_shared → no_exclusive (queue s rid) ≡ true)
      × (kind ≢ for_shared → no_other t (queue s rid) ≡ true)
unfolding can_proceed
proceeds s for_shared t rid h a = (λ e. ground arith, λ e. absurd (e refl))
proceeds s for_exclusive t rid h a = (λ e. absurd (cc), λ e. ground arith)
proceeds s for_upgrade t rid h a = (λ e. absurd (cc), λ e. ground arith)

abbrev pub SafeState : State → Type 0
SafeState st = (o : ℕ → ℕ) × Safe o st.system st.waiting

-- What a thread does from its wait on keeps the locks safe.
module _ (owner : ℕ → ℕ) (s : System) (w : Waiter) (ws : List Waiter) where
  pub resume-Safe :
      Safe owner s (w ∷ ws) → SafeState (settle ws w (resume s w.kind w.txn_id w.rid w.node))
  unfolding resume
  resume-Safe h = elim (Bool-cases (can_proceed s w.kind w.txn_id w.rid)) [
    | inr e ↦ rw e (owner, h)
    | inl e ↦
        let s' = clear_upgrading s w.kind w.rid in
        let rest = clear_upgrading-rest s w.kind w.rid in
        let h' = same-Safe owner s s' (w ∷ ws) (queue-clear_upgrading s w.kind w.rid) rest.0 h in
        elim (Bool-cases (is_aborted (s'.txns w.txn_id).state)) [
          | inl a ↦ rw (e, a) (owner, give_up-Safe owner s' w.kind w.txn_id w.rid w.node ws h')
          | inr a ↦
              let alive : is_aborted (s.txns w.txn_id).state ≡ false =
                ap (λ (m : ℕ → Transaction). is_aborted (m w.txn_id).state) (sym rest.1) ∙ a in
              let may = proceeds s w.kind w.txn_id w.rid e alive in
              let same = sym (queue-clear_upgrading s w.kind w.rid w.rid) in
              rw (e, a)
                (
                  owner,
                  granted-Safe owner s' w ws h'
                      (λ k. subst (λ (q : List LockRequest). no_exclusive q ≡ true) same (may.0 k))
                      (λ k.
                        subst (λ (q : List LockRequest). no_other w.txn_id q ≡ true) same
                          (may.1 k)),
                )
        ]
  ]
