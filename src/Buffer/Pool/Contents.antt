-- ===== src/Buffer/Pool/Contents.antt =====
-- What the methods do to the pages' contents.
use one_base.Base.{
  ℕ, ◌+◌, ◌<◌, ◌≡◌, refl, sym, true, ap, subst, ◌∙◌, inl, inr, Option, none, some, arith, ◌==◌,
  if◌then◌else◌, lookup, lookup-insert, Option-cases,
}
use one_base.Buffer.Pool.{
  Pool, take_frame, install, can_read, read_page, load_page, pin_page, fetch_page,
}
use one_base.Buffer.Pool.Valid.{IsValid}
use one_base.Buffer.Pool.Vacate.{take_frame-TakesFrame}
use one_base.Buffer.Pool.Install.{CountsPins}
use one_base.Buffer.Pool.View.{
  view, IsSynced, view-install, install-IsSynced, emptied, view-emptied, emptied-IsSynced,
  emptied-vacant, emptied-absent, emptied-file_pages, emptied-in_file, emptied-next,
}

-- Every allocated page is in the pool or in the file.
abbrev pub Covered {ℓ} : {A : Type ℓ} → Pool A → Type 0
Covered q = (i : ℕ) → i < q.disk.next_page_id → lookup i q.page_table ≡ none → i < q.disk.file_pages

pub view_absent {ℓ} :
    {A : Type ℓ} (p : Pool A) (i : ℕ) → lookup i p.page_table ≡ none → view p i ≡ p.disk.stored i
unfolding view
view_absent p i e = ground (arith, e)

pub view_present {ℓ} :
    {A : Type ℓ} (p : Pool A) (i f : ℕ)
    → lookup i p.page_table ≡ some f
    → view p i ≡ (p.pages f).content
unfolding view
view_present p i f e = ground (arith, e)

pub install_self {ℓ} :
    {A : Type ℓ} (p : Pool A) (f page_id : ℕ) (content : A)
    → let q = install p f page_id content in
      ((q.pages f).content ≡ content)
      × ((q.pages f).page_id ≡ page_id)
      × ((q.pages f).pin_count ≡ 1)
      × (lookup page_id q.page_table ≡ some f)
unfolding install
install_self p f page_id content = (
  ground arith,
  ground arith,
  ground arith,
  ground (arith, lookup-insert page_id page_id f p.page_table),
)

module _ {ℓ} {A : Type ℓ} (p : Pool A) (v : IsValid p) (synced : IsSynced p) where
  -- What a client has after `FetchPage` of `page_id` gave the pool `q` and the frame `f`.
  pub record IsFetched (page_id : ℕ) (q : Pool A) (f : ℕ) : Type ℓ where
    pub whole : (q.pages f).content ≡ view p page_id
    pub right_page : (q.pages f).page_id ≡ page_id
    pub pinned : 0 < (q.pages f).pin_count
    pub in_table : lookup page_id q.page_table ≡ some f

  abbrev pub Fetches : ℕ → Pool A → Option ℕ → Type ℓ
  Fetches page_id q none =
      (q ≡ p)
      × (lookup page_id p.page_table ≡ none)
      × ((f : ℕ) → f < p.pool_size → 0 < (p.pages f).pin_count)
  Fetches page_id q (some f) = IsFetched page_id q f

  -- The pool after the read of a page behind the write-back.
  abbrev after_read : (f : ℕ) → (take_frame p).1 ≡ some f → ℕ → Pool A
  after_read f got page_id =
      let c = emptied p v synced f got in record c { disk = (read_page c.disk page_id).1 }

  module _ (page_id f : ℕ) (got : (take_frame p).1 ≡ some f) (allocated : page_id < 2147483648)
      (there : page_id < p.disk.file_pages) where
    pub readable : can_read (emptied p v synced f got).disk page_id ≡ true
    readable = ground (
      arith,
      (emptied-IsSynced p v synced f got).good,
      allocated,
      there,
      emptied-file_pages p v synced f got,
    )

    read-content :
        (read_page (emptied p v synced f got).disk page_id).0
        ≡ (emptied p v synced f got).disk.stored page_id
    unfolding read_page
    read-content = rw (readable) refl

    after_read-IsSynced : IsSynced (after_read f got page_id)
    unfolding read_page
    after_read-IsSynced = record {
      good = rw (readable) refl;
      clean = (emptied-IsSynced p v synced f got).clean;
    }

  after_read-view :
      (page_id f : ℕ) (got : (take_frame p).1 ≡ some f) (i : ℕ)
      → view (after_read f got page_id) i ≡ view (emptied p v synced f got) i
  unfolding view read_page
  after_read-view page_id f got i = refl

  loaded :
      (page_id f : ℕ) (got : (take_frame p).1 ≡ some f)
      → lookup page_id p.page_table ≡ none
      → (emptied p v synced f got).disk.stored page_id ≡ view p page_id
  loaded page_id f got absent =
      sym (
        view_absent (emptied p v synced f got) page_id
          (emptied-absent p v synced f got page_id absent))
      ∙ view-emptied p v synced f got page_id

  pub installed-view :
      (page_id f : ℕ) (got : (take_frame p).1 ≡ some f) (content : A) (i : ℕ)
      → view (install (emptied p v synced f got) f page_id content) i
        ≡ (if page_id == i then content else view p i)
  installed-view page_id f got content i = ground (
    arith,
    view-install (emptied p v synced f got) f page_id content (emptied-vacant p v synced f got) i,
    view-emptied p v synced f got i,
  )

  load_page-Fetches :
      (page_id : ℕ)
      → lookup page_id p.page_table ≡ none
      → page_id < 2147483648
      → page_id < p.disk.file_pages
      → Fetches page_id (load_page p page_id).0 (load_page p page_id).1
        × ((i : ℕ) → view (load_page p page_id).0 i ≡ view p i)
        × IsSynced (load_page p page_id).0
  unfolding load_page
  load_page-Fetches page_id absent allocated there = elim (Option-cases (take_frame p).1) [
    | inl e ↦
        let refused = rw e at (take_frame-TakesFrame p v) in
        rw (load_page, e)
          (
            (refused.0, absent, refused.1),
            λ i. ap (λ (q : Pool A). view q i) refused.0,
            subst (λ (q : Pool A). IsSynced q) (sym refused.0) synced,
          )
    | inr (f, e) ↦
        let c = emptied p v synced f e in
        let q = after_read f e page_id in
        let content = (read_page c.disk page_id).0 in
        let right : content ≡ view p page_id =
          read-content page_id f e allocated there ∙ loaded page_id f e absent in
        let held = install_self q f page_id content in
        let vacant = emptied-vacant p v synced f e in
        let same = λ (i : ℕ). after_read-view page_id f e i ∙ view-emptied p v synced f e i in
        rw (load_page, e)
          (
            record {
              whole = held.0 ∙ right;
              right_page = held.1;
              pinned = omega (arith, held.2);
              in_table = held.3;
            },
            λ i. ground (arith, view-install q f page_id content vacant i, right, same i),
            install-IsSynced q f page_id content vacant
                (after_read-IsSynced page_id f e allocated there),
          )
  ]

  pin_page-Fetches :
      (page_id f : ℕ)
      → lookup page_id p.page_table ≡ some f
      → (p.pages f).pin_count + 1 < 2147483648
      → IsFetched page_id (pin_page p f) f
        × ((i : ℕ) → view (pin_page p f) i ≡ view p i)
        × IsSynced (pin_page p f)
  unfolding pin_page view
  pin_page-Fetches page_id f found room =
      let m = v.mapped page_id f found in
      (
        record {
          whole = ground (arith, found);
          right_page = ground (arith, m.same_id);
          pinned = ground (arith, room);
          in_table = found;
        },
        λ i. elim (Option-cases (lookup i p.page_table)) [
          | inl e ↦ ground (arith, e)
          | inr (g, e) ↦ ground (arith, e)
        ],
        record {
          good = synced.good;
          clean = λ i g h unpinned clean. ground (arith, room, synced.clean i g h);
        },
      )

  -- On a valid, synced pool `FetchPage` of an allocated page, one that is in the file when it is
  -- not in the pool and whose pins an `int` can still count, changes the content of no page, and
  -- leaves the pool synced, so with a stream that has not failed. Where it returns a frame, that
  -- frame holds the page asked for, whole and pinned, and the page table leads to it; where it
  -- returns a null pointer the page was not in the pool, every frame was pinned, and nothing
  -- changed.
  pub fetch_page-Fetches :
      (page_id : ℕ)
      → page_id < p.disk.next_page_id
      → (lookup page_id p.page_table ≡ none → page_id < p.disk.file_pages)
      → CountsPins p page_id
      → Fetches page_id (fetch_page p page_id).0 (fetch_page p page_id).1
        × ((i : ℕ) → view (fetch_page p page_id).0 i ≡ view p i)
        × IsSynced (fetch_page p page_id).0
  unfolding fetch_page
  fetch_page-Fetches page_id allocated there room =
      elim (Option-cases (lookup page_id p.page_table)) [
        | inl e ↦
            rw (fetch_page, e)
              (load_page-Fetches page_id e (omega (arith, allocated, v.ids)) (there e))
        | inr (f, e) ↦ rw (fetch_page, e) (pin_page-Fetches page_id f e (room f e))
      ]

  load_page-Covered : (page_id : ℕ) → Covered p → Covered (load_page p page_id).0
  unfolding load_page read_page install
  load_page-Covered page_id covered = elim (Option-cases (take_frame p).1) [
    | inl e ↦
        let refused = rw e at (take_frame-TakesFrame p v) in
        rw (load_page, e) (subst (λ (q : Pool A). Covered q) (sym refused.0) covered)
    | inr (f, e) ↦
        rw (load_page, e)
          (λ i allocated gone.
            let c = emptied p v synced f e in
            let absent : lookup i c.page_table ≡ none =
              ground (arith, gone, lookup-insert page_id i f c.page_table) in
            elim (Option-cases (lookup i p.page_table)) [
              | inl before ↦ omega (
                arith,
                covered i (omega (arith, allocated, emptied-next p v synced f e)) before,
                emptied-file_pages p v synced f e,
              )
              | inr (g, here) ↦ emptied-in_file p v synced f e i g here absent
            ])
  ]

  -- `FetchPage` keeps every allocated page in the pool or in the file.
  pub fetch_page-Covered : (page_id : ℕ) → Covered p → Covered (fetch_page p page_id).0
  unfolding fetch_page pin_page
  fetch_page-Covered page_id covered = elim (Option-cases (lookup page_id p.page_table)) [
    | inl e ↦ rw (fetch_page, e) (load_page-Covered page_id covered)
    | inr (f, e) ↦ rw (fetch_page, e) covered
  ]
