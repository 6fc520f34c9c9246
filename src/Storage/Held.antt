-- ===== src/Storage/Held.antt =====
-- A client with one page pinned at a time: the pool between its steps, with the contents of the
-- pages named.
use one_base.Base.{
  ℕ, zero, suc, ◌+◌, ◌-◌, ◌≤◌, ◌<◌, ◌≡◌, sym, ap, ◌∙◌, Bool, true, some, update, subst, arith,
}
use one_base.Storage.Pages.{PagePool, PagePoolLaws}

-- The fetches that were left when `h` levels were to go, where `n` are left at the end.
abbrev pub spent : ℕ → ℕ → ℕ
spent zero n = n
spent (suc h) n = suc (spent h n)

module _ {S A : Type 0} {ops : PagePool S A} (laws : PagePoolLaws ops) where
  -- No page is pinned, `n` fetches are left, and the pages are these.
  pub record Idle (content : ℕ → A) (next n : ℕ) (s : S) : Type 0 where
    pub idle : laws.IsIdle n s
    pub same_content : laws.content s ≡ content
    pub same_next : laws.next_id s ≡ next

  pub record Holding (content : ℕ → A) (next n id f : ℕ) (s : S) : Type 0 where
    pub held : laws.HoldsPage n s id f
    pub same_content : laws.content s ≡ content
    pub same_next : laws.next_id s ≡ next

  module _ (content : ℕ → A) (next : ℕ) where
    pub read-held : (n id f : ℕ) (s : S) → Holding content next n id f s → ops.read s f ≡ content id
    read-held n id f s w = laws.held_read n s id f w.held ∙ ap (λ c. c id) w.same_content

    pub fetch-Holding :
        (n : ℕ) (s : S) (id : ℕ)
        → Idle content next (suc n) s
        → id < next
        → (s' : S) × (f : ℕ) × (ops.fetch_page s id ≡ (s', some f)) × Holding content next n id f s'
    fetch-Holding n s id w less =
        let (s', f, got, held, same, bound) =
          laws.idle_fetch n s id w.idle (subst (λ n. id < n) (sym w.same_next) less) in
        (
          s',
          f,
          got,
          record {
            held = held;
            same_content = same ∙ w.same_content;
            same_next = bound ∙ w.same_next;
          },
        )

    pub unpin-Idle :
        (n id f : ℕ) (s : S) (is_dirty : Bool)
        → Holding content next n id f s
        → Idle content next n (ops.unpin_page s id is_dirty).0
    unpin-Idle n id f s is_dirty w =
        let (idle, same, bound) = laws.holds_unpin n s id f is_dirty w.held in
        record {
          idle = idle;
          same_content = same ∙ w.same_content;
          same_next = bound ∙ w.same_next;
        }

    pub store-Idle :
        (n id f : ℕ) (s : S) (a : A)
        → Holding content next n id f s
        → Idle (update content id a) next n (ops.unpin_page (ops.write s f a) id true).0
    store-Idle n id f s a w =
        let (idle, same, bound) = laws.holds_store n s id f a w.held in
        record {
          idle = idle;
          same_content = same ∙ ap (λ c. update c id a) w.same_content;
          same_next = bound ∙ w.same_next;
        }

    pub Idle-fewer : (h n : ℕ) (s : S) → Idle content next (spent h n) s → Idle content next n s
    Idle-fewer zero n s w = w
    Idle-fewer (suc h) n s w = Idle-fewer h n s (record {
      idle = laws.idle_fewer (spent h n) s w.idle;
      same_content = w.same_content;
      same_next = w.same_next;
    })

    spent-sum : (h n : ℕ) → spent h n ≡ h + n
    spent-sum zero n = omega arith
    spent-sum (suc h) n = omega (arith, spent-sum h n)

    pub Idle-le : (k m : ℕ) (s : S) → k ≤ m → Idle content next m s → Idle content next k s
    Idle-le k m s le w =
        let same : m ≡ spent (m - k) k = omega (arith, le, spent-sum (m - k) k) in
        Idle-fewer (m - k) k s (subst (λ n. Idle content next n s) same w)

    pub Idle-spent :
        (h g n : ℕ) (s : S)
        → h ≤ g
        → Idle content next (spent g n) s
        → Idle content next (spent h n) s
    Idle-spent h g n s le w =
        Idle-le (spent h n) (spent g n) s (omega (arith, le, spent-sum h n, spent-sum g n)) w
