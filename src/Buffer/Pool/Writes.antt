-- ===== src/Buffer/Pool/Writes.antt =====
-- What new pages, unpinning and flushing do to the pages' contents.
use one_base.Base.{
  ℕ, ◌+◌, ◌≤◌, ◌<◌, ◌≡◌, ◌≢◌, refl, sym, ap, ◌∙◌, inl, inr, Bool, true, false, Option, none, some,
  arith, ◌==◌, if◌then◌else◌, lookup, update, Bool-cases, Option-cases, ==→eq, ==-self, ==-ne,
}
use one_base.Buffer.Replacer.{Replacer, set_evictable}
use one_base.Buffer.Pool.{
  Page, Disk, Pool, is_positive, can_write, take_frame, allocate_page, new_page, unpinned,
  unpin_page, flush_frame, flush_page,
}
use one_base.Buffer.Pool.Valid.{IsValid}
use one_base.Buffer.Pool.Vacate.{take_frame-TakesFrame}
use one_base.Buffer.Pool.View.{
  view, IsSynced, install-IsSynced, emptied, emptied-IsSynced, emptied-vacant, emptied-next,
}
use one_base.Buffer.Pool.Contents.{view_absent, view_present, install_self, installed-view}

module _ {ℓ} {A : Type ℓ} (zeroed : A) (p : Pool A) (v : IsValid p) (synced : IsSynced p) where
  -- What a client has after `NewPage`: a null pointer if every frame is pinned, and else the next
  -- page id, a pinned frame of zeros for it, and every other page's content as it was.
  abbrev pub Creates : Pool A → Option (ℕ × ℕ) → Type ℓ
  Creates q none = (q ≡ p) × ((f : ℕ) → f < p.pool_size → 0 < (p.pages f).pin_count)
  Creates q (some (page_id, f)) =
      (page_id ≡ p.disk.next_page_id)
      × (q.disk.next_page_id ≡ p.disk.next_page_id + 1)
      × ((q.pages f).content ≡ zeroed)
      × ((q.pages f).pin_count ≡ 1)
      × (lookup page_id q.page_table ≡ some f)
      × ((i : ℕ) → view q i ≡ (if page_id == i then zeroed else view p i))
      × IsSynced q

  -- On a valid, synced pool, so with a stream that has not failed, with page ids left, `NewPage`
  -- does what `Creates` says.
  pub new_page-Creates :
      p.disk.next_page_id + 1 < 2147483648 → Creates (new_page zeroed p).0 (new_page zeroed p).1
  unfolding new_page allocate_page view
  new_page-Creates room = elim (Option-cases (take_frame p).1) [
    | inl e ↦ rw (new_page, e) (rw e at (take_frame-TakesFrame p v))
    | inr (f, e) ↦
        let c = emptied p v synced f e in
        let next = emptied-next p v synced f e in
        let held =
          install_self (record c { disk = (allocate_page c.disk).0 }) f c.disk.next_page_id
            zeroed in
        rw (new_page, e)
          (
            next,
            ground (arith, next),
            held.0,
            held.2,
            held.3,
            λ i. installed-view p v synced c.disk.next_page_id f e zeroed i,
            install-IsSynced (record c { disk = (allocate_page c.disk).0 }) f c.disk.next_page_id
                zeroed (emptied-vacant p v synced f e)
                (record {
                  good = (emptied-IsSynced p v synced f e).good;
                  clean = (emptied-IsSynced p v synced f e).clean;
                }),
          )
  ]

module _ {ℓ} {A : Type ℓ} (p : Pool A) (f : ℕ) (page : Page A) (r : Replacer)
    (same : page.content ≡ (p.pages f).content) where
  -- Pins and flags are no part of what a client sees.
  view-repin :
      (i : ℕ) → view (record p { pages = update p.pages f page; replacer = r }) i ≡ view p i
  unfolding view
  view-repin i = elim (Option-cases (lookup i p.page_table)) [
    | inl e ↦ ground (arith, e)
    | inr (g, e) ↦ ground (arith, e)
  ]

module _ {ℓ} {A : Type ℓ} (p : Pool A) (f : ℕ) (page : Page A) (r : Replacer) (d : Disk A)
    (clean_page : (i : ℕ)
      → lookup i p.page_table ≡ some f
      → page.is_dirty ≡ false
      → (page.content ≡ d.stored i) × (i < d.file_pages))
    (others : (i g : ℕ)
      → lookup i p.page_table ≡ some g
      → (f == g) ≡ false
      → d.stored i ≡ p.disk.stored i)
    (more : p.disk.file_pages ≤ d.file_pages) (good : d.failed ≡ false) where
  repin-IsSynced :
      IsSynced p → IsSynced (record p { pages = update p.pages f page; replacer = r; disk = d })
  repin-IsSynced synced = record {
    good = good;
    clean = λ i g h still unmarked. elim (Bool-cases (f == g)) [
      | inl e ↦ rw e (clean_page i (h ∙ ap some (sym (==→eq f g e))) (rw e at unmarked))
      | inr e ↦
          let (same, within) = synced.clean i g h (rw e at still) (rw e at unmarked) in
          (rw (e, others i g h e) same, omega (arith, within, more))
    ];
  }

module _ {ℓ} {A : Type ℓ} (p : Pool A) (v : IsValid p) (synced : IsSynced p) where
  -- Two ids do not share a frame.
  same_page : (i j f : ℕ) → lookup i p.page_table ≡ some f → lookup j p.page_table ≡ some f → i ≡ j
  same_page i j f h k = sym (v.mapped i f h).same_id ∙ (v.mapped j f k).same_id

  unpinned_clean :
      (page_id f i : ℕ) (is_dirty : Bool)
      → lookup page_id p.page_table ≡ some f
      → (is_dirty ≡ false
          → (p.pages f).is_dirty ≡ false
          → ((p.pages f).content ≡ p.disk.stored page_id) × (page_id < p.disk.file_pages))
      → lookup i p.page_table ≡ some f
      → (unpinned (p.pages f) is_dirty).is_dirty ≡ false
      → ((p.pages f).content ≡ p.disk.stored i) × (i < p.disk.file_pages)
  unpinned_clean page_id f i true found honest h clean = cc
  unpinned_clean page_id f i false found honest h clean =
      rw (same_page i page_id f h found) (honest refl clean)

  -- On a valid, synced pool `UnpinPage` changes no content. The pool stays synced if a client that
  -- passes `false` for a page not yet marked dirty left the content as the file has it.
  pub unpin_page-view :
      (page_id : ℕ) (is_dirty : Bool)
      → ((f : ℕ)
          → lookup page_id p.page_table ≡ some f
          → is_dirty ≡ false
          → (p.pages f).is_dirty ≡ false
          → ((p.pages f).content ≡ p.disk.stored page_id) × (page_id < p.disk.file_pages))
      → ((i : ℕ) → view (unpin_page p page_id is_dirty).0 i ≡ view p i)
        × IsSynced (unpin_page p page_id is_dirty).0
  unfolding unpin_page
  unpin_page-view page_id is_dirty honest = elim (Option-cases (lookup page_id p.page_table)) [
    | inl e ↦ rw (unpin_page, e) (λ i. refl, synced)
    | inr (f, e) ↦ elim (Bool-cases (is_positive (p.pages f).pin_count)) [
      | inr z ↦ rw (unpin_page, e, z) (λ i. refl, synced)
      | inl z ↦
          rw (unpin_page, e, z)
            (
              λ i.
                  view-repin p f (unpinned (p.pages f) is_dirty)
                    (if (unpinned (p.pages f) is_dirty).pin_count == 0
                      then set_evictable p.replacer f true
                      else p.replacer)
                    refl i,
              repin-IsSynced p f (unpinned (p.pages f) is_dirty)
                  (if (unpinned (p.pages f) is_dirty).pin_count == 0
                    then set_evictable p.replacer f true
                    else p.replacer)
                  p.disk (λ i. unpinned_clean page_id f i is_dirty e (honest f e))
                  (λ i g h ne. refl) (omega arith) synced.good synced,
            )
    ]
  ]

  writable :
      (page_id f : ℕ) → lookup page_id p.page_table ≡ some f → can_write p.disk page_id ≡ true
  writable page_id f found = ground (arith, synced.good, v.mapped page_id f found, v.ids)

  stored-flush :
      (page_id f i : ℕ)
      → lookup page_id p.page_table ≡ some f
      → (flush_frame p page_id f).disk.stored i
        ≡ (if page_id == i then (p.pages f).content else p.disk.stored i)
  unfolding flush_frame
  stored-flush page_id f i found = rw (writable page_id f found) refl

  flush-file_pages :
      (page_id f : ℕ)
      → lookup page_id p.page_table ≡ some f
      → (page_id < (flush_frame p page_id f).disk.file_pages)
        × (p.disk.file_pages ≤ (flush_frame p page_id f).disk.file_pages)
  unfolding flush_frame
  flush-file_pages page_id f found =
      let can = writable page_id f found in (ground (arith, can), ground (arith, can))

  flush-good :
      (page_id f : ℕ)
      → lookup page_id p.page_table ≡ some f
      → (flush_frame p page_id f).disk.failed ≡ false
  unfolding flush_frame
  flush-good page_id f found = rw (writable page_id f found) refl

  absent_ne :
      (page_id i f : ℕ)
      → lookup page_id p.page_table ≡ some f
      → lookup i p.page_table ≡ none
      → page_id ≢ i
  absent_ne page_id i f found n e =
      let clash : some f ≡ none = sym found ∙ ap (λ (x : ℕ). lookup x p.page_table) e ∙ n in cc

  flushed_content :
      (page_id f g : ℕ) → ((flush_frame p page_id f).pages g).content ≡ (p.pages g).content
  unfolding flush_frame
  flushed_content page_id f g = elim (Bool-cases (f == g)) [
    | inl e ↦ rw (e, ==→eq f g e) refl
    | inr e ↦ rw e refl
  ]

  flushed_table :
      (page_id f i : ℕ) → lookup i (flush_frame p page_id f).page_table ≡ lookup i p.page_table
  unfolding flush_frame
  flushed_table page_id f i = refl

  flushed-IsSynced :
      (page_id f : ℕ) → lookup page_id p.page_table ≡ some f → IsSynced (flush_frame p page_id f)
  unfolding flush_frame
  flushed-IsSynced page_id f found =
      repin-IsSynced p f (record (p.pages f) { is_dirty = false }) p.replacer
        (flush_frame p page_id f).disk
        (λ i h clean.
          let same = same_page i page_id f h found in
          let (within, _) = flush-file_pages page_id f found in
          (
            rw (same) (sym (stored-flush page_id f page_id found ∙ rw (==-self page_id) refl)),
            rw (same) within,
          ))
        (λ i g h ne. elim (Bool-cases (page_id == i)) [
          | inl e ↦
              let shared : some f ≡ some g =
                sym found ∙ ap (λ (x : ℕ). lookup x p.page_table) (==→eq _ _ e) ∙ h in
              absurd (ground arith)
          | inr e ↦ stored-flush page_id f i found ∙ rw e refl
        ])
        (flush-file_pages page_id f found).1 (flush-good page_id f found) synced

  flush_frame-view :
      (page_id f : ℕ)
      → lookup page_id p.page_table ≡ some f
      → ((flush_frame p page_id f).disk.stored page_id ≡ view p page_id)
        × ((i : ℕ) → view (flush_frame p page_id f) i ≡ view p i)
        × IsSynced (flush_frame p page_id f)
  flush_frame-view page_id f found = (
    stored-flush page_id f page_id found
        ∙ rw (==-self page_id) (sym (view_present p page_id f found)),
    λ i. elim (Option-cases (lookup i p.page_table)) [
      | inl n ↦
          view_absent (flush_frame p page_id f) i (flushed_table page_id f i ∙ n)
          ∙ stored-flush page_id f i found
          ∙ rw (==-ne page_id i (absent_ne page_id i f found n)) (sym (view_absent p i n))
      | inr (g, h) ↦
          view_present (flush_frame p page_id f) i g (flushed_table page_id f i ∙ h)
          ∙ flushed_content page_id f g
          ∙ sym (view_present p i g h)
    ],
    flushed-IsSynced page_id f found,
  )

  -- On a valid, synced pool `FlushPage` of a page in the pool leaves the page's content on disk;
  -- no page's content changes, and the pool stays synced.
  pub flush_page-view :
      (page_id f : ℕ)
      → lookup page_id p.page_table ≡ some f
      → ((flush_page p page_id).0.disk.stored page_id ≡ view p page_id)
        × ((i : ℕ) → view (flush_page p page_id).0 i ≡ view p i)
        × IsSynced (flush_page p page_id).0
  unfolding flush_page
  flush_page-view page_id f found = rw (flush_page, found) (flush_frame-view page_id f found)
