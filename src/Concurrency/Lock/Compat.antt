-- ===== src/Concurrency/Lock/Compat.antt =====
-- Compatibility of the locks granted on one RID, and what each change of a queue does to it.
use one_base.Base.{
  ℕ, ◌+◌, ◌<◌, ◌≡◌, ◌≢◌, ◌⊎◌, inl, inr, refl, ap, Bool-cases, true, false, some, List, [], ◌∷◌,
  ◌++◌, arith, ◌==◌, if◌then◌else◌, All,
}
use one_base.Concurrency.Lock.{
  LockMode, shared, exclusive, LockRequest, Kind, for_shared, for_exclusive, for_upgrade,
  no_exclusive, no_other, erase_node, grant_node, upgrade_node, find_granted, erase_first,
}

-- No exclusive lock is granted.
abbrev pub NoExclusive : List LockRequest → Type 0
NoExclusive = All (λ r. r.granted ≡ true → r.lock_mode ≡ shared)

-- Every granted lock is the transaction `t`'s.
abbrev pub OnlyOf : ℕ → List LockRequest → Type 0
OnlyOf t = All (λ r. r.granted ≡ true → r.txn_id ≡ t)

-- Shared locks of any transactions, or locks of one transaction.
abbrev pub Compat : List LockRequest → Type 0
Compat rs = NoExclusive rs ⊎ ((t : ℕ) × OnlyOf t rs)

abbrev pub mode_of : Kind → LockMode
mode_of for_shared = shared
mode_of for_exclusive = exclusive
mode_of for_upgrade = exclusive

-- The request of a thread that waits: of the mode that it asks for, and not granted.
abbrev pub Pending : Kind → ℕ → List LockRequest → Type 0
Pending kind n = All (λ r. r.node ≡ n → (r.lock_mode ≡ mode_of kind) × (r.granted ≡ false))

-- Nodes in use are below `next`, and `owner` names their transactions.
abbrev pub Owned : (ℕ → ℕ) → ℕ → List LockRequest → Type 0
Owned owner next = All (λ r. (r.node < next) × (r.txn_id ≡ owner r.node))

no_exclusive_sound : (rs : List LockRequest) → no_exclusive rs ≡ true → NoExclusive rs
unfolding no_exclusive
no_exclusive_sound [] h = tt
no_exclusive_sound (r ∷ rs) h = ground (arith, no_exclusive_sound rs)

no_other_sound : (t : ℕ) (rs : List LockRequest) → no_other t rs ≡ true → OnlyOf t rs
unfolding no_other
no_other_sound t [] h = tt
no_other_sound t (r ∷ rs) h = ground (arith, no_other_sound t rs)

grant-NoExclusive :
    (n : ℕ) (rs : List LockRequest)
    → Pending for_shared n rs
    → NoExclusive rs
    → NoExclusive (grant_node n rs)
unfolding grant_node
grant-NoExclusive n [] p h = tt
grant-NoExclusive n (r ∷ rs) p h = ground (arith, grant-NoExclusive n rs p.1 h.1)

grant-OnlyOf :
    (owner : ℕ → ℕ) (next n : ℕ) (rs : List LockRequest)
    → Owned owner next rs
    → OnlyOf (owner n) rs
    → OnlyOf (owner n) (grant_node n rs)
unfolding grant_node
grant-OnlyOf owner next n [] o h = tt
grant-OnlyOf owner next n (r ∷ rs) o h =
    ground (arith, grant-OnlyOf owner next n rs o.1 h.1, ap owner)

-- Changes that grant nothing keep each half of compatibility.
module _ {κ} (P : LockRequest → Type κ) where
  pub All-erase_node : (n : ℕ) (rs : List LockRequest) → All P rs → All P (erase_node n rs)
  unfolding erase_node
  All-erase_node n [] h = tt
  All-erase_node n (r ∷ rs) h = elim (Bool-cases (r.node == n)) [
    | inl e ↦ rw e (All-erase_node n rs h.1)
    | inr e ↦ rw e (h.0, All-erase_node n rs h.1)
  ]

  pub All-erase_first : (t : ℕ) (rs : List LockRequest) → All P rs → All P (erase_first t rs)
  unfolding erase_first
  All-erase_first t [] h = tt
  All-erase_first t (r ∷ rs) h = elim (Bool-cases (r.txn_id == t)) [
    | inl e ↦ rw e h.1
    | inr e ↦ rw e (h.0, All-erase_first t rs h.1)
  ]

  pub All-append : (rs qs : List LockRequest) → All P rs → All P qs → All P (rs ++ qs)
  All-append [] qs h k = k
  All-append (r ∷ rs) qs h k = (h.0, All-append rs qs h.1 k)

upgrade-NoExclusive :
    (n : ℕ) (rs : List LockRequest) → NoExclusive rs → NoExclusive (upgrade_node n rs)
unfolding upgrade_node
upgrade-NoExclusive n [] h = tt
upgrade-NoExclusive n (r ∷ rs) h = ground (arith, upgrade-NoExclusive n rs h.1)

upgrade-OnlyOf : (t n : ℕ) (rs : List LockRequest) → OnlyOf t rs → OnlyOf t (upgrade_node n rs)
unfolding upgrade_node
upgrade-OnlyOf t n [] h = tt
upgrade-OnlyOf t n (r ∷ rs) h = ground (arith, upgrade-OnlyOf t n rs h.1)

pub upgrade-Compat : (n : ℕ) (rs : List LockRequest) → Compat rs → Compat (upgrade_node n rs)
upgrade-Compat n rs (inl h) = inl (upgrade-NoExclusive n rs h)
upgrade-Compat n rs (inr (t, h)) = inr (t, upgrade-OnlyOf t n rs h)

-- A change that keeps every predicate of all requests keeps compatibility.
pub map-Compat :
    (f : List LockRequest → List LockRequest)
    → ((P : LockRequest → Type 0) (rs : List LockRequest) → All P rs → All P (f rs))
    → (rs : List LockRequest) → Compat rs
    → Compat (f rs)
map-Compat f keep rs (inl h) = inl (keep _ rs h)
map-Compat f keep rs (inr (t, h)) = inr (t, keep _ rs h)

-- Granting the pending request of a waiting thread, once its predicate holds, is compatible.
pub grant-Compat :
    (owner : ℕ → ℕ) (next n : ℕ) (kind : Kind) (rs : List LockRequest)
    → Owned owner next rs
    → Pending kind n rs
    → (kind ≡ for_shared → no_exclusive rs ≡ true)
    → (kind ≢ for_shared → no_other (owner n) rs ≡ true)
    → Compat (grant_node n rs)
grant-Compat owner next n for_shared rs o p x y =
    inl (grant-NoExclusive n rs p (no_exclusive_sound rs (x refl)))
grant-Compat owner next n for_exclusive rs o p x y =
    inr (owner n, grant-OnlyOf owner next n rs o (no_other_sound (owner n) rs (y (λ e. cc))))
grant-Compat owner next n for_upgrade rs o p x y =
    inr (owner n, grant-OnlyOf owner next n rs o (no_other_sound (owner n) rs (y (λ e. cc))))

pub grant-Owned :
    (owner : ℕ → ℕ) (next n : ℕ) (rs : List LockRequest)
    → Owned owner next rs
    → Owned owner next (grant_node n rs)
unfolding grant_node
grant-Owned owner next n [] o = tt
grant-Owned owner next n (r ∷ rs) o = ground (arith, grant-Owned owner next n rs o.1)

pub upgrade-Owned :
    (owner : ℕ → ℕ) (next n : ℕ) (rs : List LockRequest)
    → Owned owner next rs
    → Owned owner next (upgrade_node n rs)
unfolding upgrade_node
upgrade-Owned owner next n [] o = tt
upgrade-Owned owner next n (r ∷ rs) o = ground (arith, upgrade-Owned owner next n rs o.1)

pub grant-Pending :
    (kind : Kind) (n m : ℕ) (rs : List LockRequest)
    → m ≢ n
    → Pending kind m rs
    → Pending kind m (grant_node n rs)
unfolding grant_node
grant-Pending kind n m [] ne p = tt
grant-Pending kind n m (r ∷ rs) ne p = ground (arith, grant-Pending kind n m rs ne p.1)

pub upgrade-Pending :
    (kind : Kind) (n m : ℕ) (rs : List LockRequest)
    → m ≢ n
    → Pending kind m rs
    → Pending kind m (upgrade_node n rs)
unfolding upgrade_node
upgrade-Pending kind n m [] ne p = tt
upgrade-Pending kind n m (r ∷ rs) ne p = ground (arith, upgrade-Pending kind n m rs ne p.1)

pub upgrade-Pending_self :
    (n : ℕ) (rs : List LockRequest) → Pending for_upgrade n (upgrade_node n rs)
unfolding upgrade_node
upgrade-Pending_self n [] = tt
upgrade-Pending_self n (r ∷ rs) = ground (arith, upgrade-Pending_self n rs)

-- The request that `LockUpgrade` finds is the transaction's own, and no waiting thread's.
pub find_granted-owner :
    (owner : ℕ → ℕ) (next t : ℕ) (rs : List LockRequest) {n : ℕ}
    → Owned owner next rs
    → find_granted t rs ≡ some n
    → (owner n ≡ t) × (n < next)
unfolding find_granted
find_granted-owner owner next t [] o h = cc
find_granted-owner owner next t (r ∷ rs) {n} o h =
    ground (arith, find_granted-owner owner next t rs {n = n} o.1, ap owner)

pub find_granted-Pending :
    (kind : Kind) (t m : ℕ) (rs : List LockRequest) {n : ℕ}
    → Pending kind m rs
    → find_granted t rs ≡ some n
    → m ≢ n
unfolding find_granted
find_granted-Pending kind t m [] p h e = cc
find_granted-Pending kind t m (r ∷ rs) {n} p h e =
    ground (arith, find_granted-Pending kind t m rs {n = n} p.1)

-- A node that is not yet in use has no request.
pub Owned-Pending :
    (owner : ℕ → ℕ) (next : ℕ) (kind : Kind) (rs : List LockRequest)
    → Owned owner next rs
    → Pending kind next rs
Owned-Pending owner next kind [] o = tt
Owned-Pending owner next kind (r ∷ rs) o = ground (arith, Owned-Pending owner next kind rs o.1)

pub Owned-next :
    (owner : ℕ → ℕ) (next t : ℕ) (rs : List LockRequest)
    → Owned owner next rs
    → Owned (λ m. if next == m then t else owner m) (next + 1) rs
Owned-next owner next t [] o = tt
Owned-next owner next t (r ∷ rs) o = ground (arith, Owned-next owner next t rs o.1)
