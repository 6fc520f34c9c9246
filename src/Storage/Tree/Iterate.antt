-- ===== src/Storage/Tree/Iterate.antt =====
-- `operator++` of the iterator, on a tree in the buffer pool.
use one_base.Base.{
  ℕ, suc, ◌+◌, ◌≤◌, ◌<◌, ◌≡◌, ◌≢◌, refl, sym, ap, ◌∙◌, inl, inr, Bool, false, Option, some, arith,
  leb, lookup, Option-cases, Bool-cases,
}
use one_base.Buffer.Pool.{Pool, unpin_page}
use one_base.Buffer.Pool.View.{view}
use one_base.Buffer.Pool.Contents.{view_present}
use one_base.Buffer.Client.{buffer_pool, IsIdle, HoldsPage, idle_fetches, unpinned-IsIdle}
use one_base.Storage.Leaf.{Leaf}
use one_base.Storage.Tree.State.{TreePage, leaf_page, Tree, read_leaf, ◌>>=◌}
use one_base.Storage.Tree.Search.{Iterator, is_end, advance}

module _ {A : Type 0} where
  -- Unpinning a page that nobody has pinned does nothing.
  unpin_page_other :
      (n : ℕ) (p : Pool A) (id f other : ℕ) (is_dirty : Bool)
      → HoldsPage n p id f
      → other ≢ id
      → unpin_page p other is_dirty ≡ (p, false)
  unfolding unpin_page
  unpin_page_other n p id f other is_dirty w ne = elim (Option-cases (lookup other p.page_table)) [
    | inl absent ↦ rw (unpin_page, absent) refl
    | inr (g, found) ↦
        let there = w.valid.mapped other g found in
        let here = w.valid.mapped id f w.found in
        let apart : g ≢ f =
          λ e. ne (sym there.same_id ∙ ap (λ x. (p.pages x).page_id) e ∙ here.same_id) in
        let free : (p.pages g).pin_count ≡ 0 = w.unpinned g there.frame_in_pool apart in
        rw (unpin_page, found, free) refl
  ]

module _ {K V : Type 0} (zeroed : TreePage K V) (n : ℕ) (t : Tree (Pool (TreePage K V)))
    (i : Iterator) (on : is_end i ≡ false) (ready : IsIdle (suc n) t.pool)
    (allocated : i.page_id < t.pool.disk.next_page_id) (l : Leaf K V)
    (at : view t.pool i.page_id ≡ leaf_page l) where
  -- The state behind a step of the iterator.
  pub record Advances (result : Option (Iterator × Tree (Pool (TreePage K V)))) : Type 0 where
    pub pool : Pool (TreePage K V)
    pub same_view : view pool ≡ view t.pool
    pub inside :
        i.index + 1 < l.size
        → (result ≡ some (record i { index = i.index + 1 }, record t { pool = pool }))
          × IsIdle n pool
    pub across :
        l.size ≤ i.index + 1
        → l.next_page_id ≢ i.page_id
        → (result ≡ some (record { page_id = l.next_page_id; index = 0 }, record t { pool = pool }))
          × ((f : ℕ) × HoldsPage n pool i.page_id f)

  -- On a page of a leaf, with no page pinned and time for a fetch, `operator++` changes no content.
  -- Where the leaf has more entries it goes to the next one and leaves no page pinned. Where it
  -- stood on the last entry it goes to the first entry of the next leaf, if that is another page,
  -- but the leaf that it comes from stays pinned.
  pub advance-Advances : Advances (advance (buffer_pool zeroed) i t)
  unfolding advance
  advance-Advances =
      let (q, f, got, held, same, next) = idle_fetches n t.pool i.page_id ready allocated in
      let found : (q.pages f).content ≡ leaf_page l =
        sym (view_present q i.page_id f held.found) ∙ ap (λ c. c i.page_id) same ∙ at in
      elim (Bool-cases (leb l.size (i.index + 1))) [
        | inl last ↦ record {
          pool = q;
          same_view = same;
          inside = λ more. absurd (ground (arith, last, more));
          across = λ past ne. (
            rw
                (
                  advance,
                  on,
                  got,
                  ◌>>=◌,
                  read_leaf,
                  found,
                  last,
                  unpin_page_other n q i.page_id f l.next_page_id false held ne,
                )
                refl,
            (f, held),
          );
        }
        | inr more ↦
            let (idle, kept, bound) = unpinned-IsIdle n q i.page_id f false held in
            record {
              pool = (unpin_page q i.page_id false).0;
              same_view = kept ∙ same;
              inside = λ less. (rw (advance, on, got, ◌>>=◌, read_leaf, found, more) refl, idle);
              across = λ past ne. absurd (ground (arith, more, past));
            }
      ]
