-- ===== src/Buffer/Pool/View.antt =====
-- The pool as a client sees it: one content for each page id, wherever it is kept. Fetching, and
-- the eviction that it causes, lose nothing.
use one_base.Base.{
  ℕ, ◌≤◌, ◌<◌, ◌≡◌, ◌≢◌, sym, ap, ◌∙◌, inl, inr, true, false, none, some, List, arith, ◌==◌, ◌&&◌,
  if◌then◌else◌, lookup, lookup-insert, Bool-cases, Option-cases, ==→eq,
}
use one_base.Buffer.Pool.{Page, Disk, Pool, take_frame, write_back, install}
use one_base.Buffer.Pool.Valid.{IsValidBut, IsValid}
use one_base.Buffer.Pool.Vacate.{
  IsLeaving, TakesFrame, take_frame-TakesFrame, lookup-write_back, unmapped,
  write_back-next_page_id,
}

-- The content of a page: its frame's, or what the disk stores.
unfoldable pub view {ℓ} : {A : Type ℓ} → Pool A → ℕ → A
view p page_id = elim (lookup page_id p.page_table) [
  | none ↦ p.disk.stored page_id
  | some f ↦ (p.pages f).content
]

-- The stream is good, and a page that nobody holds, and that is not marked dirty, is in the file,
-- as it is in its frame. A client keeps this by unpinning with `is_dirty` what it wrote to, also
-- the zeros of a new page.
pub record IsSynced {ℓ} {A : Type ℓ} (p : Pool A) : Type ℓ where
  pub good : p.disk.failed ≡ false
  pub clean :
      (page_id f : ℕ)
      → lookup page_id p.page_table ≡ some f
      → (p.pages f).pin_count ≡ 0
      → (p.pages f).is_dirty ≡ false
      → ((p.pages f).content ≡ p.disk.stored page_id) × (page_id < p.disk.file_pages)

module _ {ℓ} {A : Type ℓ} (p : Pool A) (f : ℕ) (v : IsValidBut p f) (old : IsLeaving p f)
    (unpinned : (p.pages f).pin_count ≡ 0) (synced : IsSynced p) where
  old_id : (p.pages f).is_dirty ≡ true → (p.pages f).page_id < 2147483648
  old_id dirty = elim old [
    | inl (empty, clean) ↦ absurd (let both : true ≡ false = sym dirty ∙ clean in cc)
    | inr (named, found) ↦ omega (arith, v.mapped (p.pages f).page_id f found, v.ids)
  ]

  -- The stream stays good, the file keeps its pages, and has the one that was dirty.
  pub write_back-good : (write_back p f).disk.failed ≡ false
  unfolding write_back
  write_back-good = ground (arith, synced.good, old_id)

  pub write_back-file_pages : p.disk.file_pages ≤ (write_back p f).disk.file_pages
  unfolding write_back
  write_back-file_pages = ground arith

  pub write_back-in_file :
      (p.pages f).is_dirty ≡ true → (p.pages f).page_id < (write_back p f).disk.file_pages
  unfolding write_back
  write_back-in_file dirty = ground (arith, synced.good, old_id)

  -- What the disk stores after the write-back.
  stored-write_back :
      (i : ℕ)
      → (write_back p f).disk.stored i ≡ (
          if (p.pages f).is_dirty && (p.pages f).page_id == i
          then (p.pages f).content
          else p.disk.stored i)
  unfolding write_back
  stored-write_back i = ground (arith, synced.good, old_id)

  pages-write_back : (g : ℕ) → ((write_back p f).pages g).content ≡ (p.pages g).content
  unfolding write_back
  pages-write_back g = ground arith

  -- A page that is not the old one of the frame is where it was.
  view-write_back_ne :
      (i : ℕ) → ((p.pages f).page_id == i) ≡ false → view (write_back p f) i ≡ view p i
  unfolding view
  view-write_back_ne i ne = elim (Option-cases (lookup i p.page_table)) [
    | inl e ↦ ground (arith, lookup-write_back p f v old i, stored-write_back i, e)
    | inr (g, e) ↦ ground (arith, lookup-write_back p f v old i, pages-write_back g, e)
  ]

  -- The old page of the frame is then on disk.
  view-write_back_self : (i : ℕ) → (p.pages f).page_id ≡ i → view (write_back p f) i ≡ view p i
  unfolding view
  view-write_back_self i same =
      let after = lookup-write_back p f v old i in
      elim old [
        | inl (empty, clean) ↦ elim (Option-cases (lookup i p.page_table)) [
          | inl e ↦ ground (arith, after, stored-write_back i, e)
          | inr (g, e) ↦ absurd (omega (arith, v.mapped i g e, v.ids))
        ]
        | inr (named, found) ↦
            let here : lookup i p.page_table ≡ some f = rw (← same) found in
            ground (arith, after, stored-write_back i, here, synced.clean i f here)
      ]

  -- Writing the old page of an unpinned frame back changes no page's content.
  pub view-write_back : (i : ℕ) → view (write_back p f) i ≡ view p i
  view-write_back i = elim (Bool-cases ((p.pages f).page_id == i)) [
    | inl e ↦ view-write_back_self i (==→eq _ _ e)
    | inr e ↦ view-write_back_ne i e
  ]

  pages-write_back_ne : (g : ℕ) → f ≢ g → (write_back p f).pages g ≡ p.pages g
  unfolding write_back
  pages-write_back_ne g ne = ground arith

  pub write_back-IsSynced : IsSynced (write_back p f)
  write_back-IsSynced = record {
    good = write_back-good;
    clean = λ i g h still unmarked. elim (Bool-cases (f == g)) [
      | inl e ↦ absurd (unmapped p f v old i (h ∙ ap some (sym (==→eq f g e))))
      | inr e ↦
          let pages = pages-write_back_ne g (ground arith) in
          let there : lookup i p.page_table ≡ some g =
            ground (arith, lookup-write_back p f v old i) in
          let (same, within) = synced.clean i g there (rw pages at still) (rw pages at unmarked) in
          (
            ground (arith, lookup-write_back p f v old i, stored-write_back i, pages, same),
            omega (arith, within, write_back-file_pages),
          )
    ];
  }

-- A page in a frame that no page is in.
module _ {ℓ} {A : Type ℓ} (p : Pool A) (f page_id : ℕ) (content : A)
    (vacant : (q : ℕ) → lookup q p.page_table ≢ some f) where
  pub view-install :
      (i : ℕ) → view (install p f page_id content) i ≡ (if page_id == i then content else view p i)
  unfolding view install
  view-install i = elim (Option-cases (lookup i p.page_table)) [
    | inl e ↦ ground (arith, lookup-insert page_id i f p.page_table, e)
    | inr (g, e) ↦ ground (arith, lookup-insert page_id i f p.page_table, e, vacant i)
  ]

  pub install-IsSynced : IsSynced p → IsSynced (install p f page_id content)
  unfolding install
  install-IsSynced synced = record {
    good = synced.good;
    clean = λ i g h still unmarked.
        ground (arith, lookup-insert page_id i f p.page_table, synced.clean i g, vacant i);
  }

-- The replacer and the free list are no part of what a client sees.
module _ {ℓ} {A : Type ℓ} (p q : Pool A) (pages : q.pages ≡ p.pages) (disk : q.disk ≡ p.disk)
    (table : q.page_table ≡ p.page_table) where
  view_transfer : (i : ℕ) → view q i ≡ view p i
  unfolding view
  view_transfer i =
      let tables = ap (λ (t : List (ℕ × ℕ)). lookup i t) table in
      let disks = ap (λ (d : Disk A). d.stored i) disk in
      elim (Option-cases (lookup i p.page_table)) [
        | inl e ↦ ground (arith, tables, disks, e)
        | inr (g, e) ↦ ground (arith, tables, ap (λ (t : ℕ → Page A). (t g).content) pages, e)
      ]

  IsSynced_transfer : IsSynced p → IsSynced q
  IsSynced_transfer synced = record {
    good = rw (disk) synced.good;
    clean = λ i g h unpinned clean.
        rw (pages, disk)
          (synced.clean i g (rw table at h) (rw pages at unpinned) (rw pages at clean));
  }

module _ {ℓ} {A : Type ℓ} (p : Pool A) (v : IsValid p) (synced : IsSynced p) (f : ℕ)
    (got : (take_frame p).1 ≡ some f) where
  -- The pool after a frame was taken and its old page written back.
  abbrev pub emptied : Pool A
  emptied = write_back (take_frame p).0 f

  taken : TakesFrame p v (take_frame p).0 (some f)
  taken = rw got at (take_frame-TakesFrame p v)

  taken-IsSynced : IsSynced (take_frame p).0
  taken-IsSynced = IsSynced_transfer p (take_frame p).0 taken.1 taken.2 taken.3 synced

  still_unpinned : ((take_frame p).0.pages f).pin_count ≡ 0
  still_unpinned = ap (λ (t : ℕ → Page A). (t f).pin_count) taken.1 ∙ taken.4

  pub view-emptied : (i : ℕ) → view emptied i ≡ view p i
  view-emptied i =
      view-write_back (take_frame p).0 f taken.0 taken.5 still_unpinned taken-IsSynced i
      ∙ view_transfer p (take_frame p).0 taken.1 taken.2 taken.3 i

  pub emptied-IsSynced : IsSynced emptied
  emptied-IsSynced =
      write_back-IsSynced (take_frame p).0 f taken.0 taken.5 still_unpinned taken-IsSynced

  pub emptied-vacant : (q : ℕ) → lookup q emptied.page_table ≢ some f
  emptied-vacant = unmapped (take_frame p).0 f taken.0 taken.5

  pub emptied-absent : (q : ℕ) → lookup q p.page_table ≡ none → lookup q emptied.page_table ≡ none
  emptied-absent q absent = ground (
    arith,
    lookup-write_back (take_frame p).0 f taken.0 taken.5 q,
    ap (λ (t : List (ℕ × ℕ)). lookup q t) taken.3,
  )

  pub emptied-file_pages : p.disk.file_pages ≤ emptied.disk.file_pages
  emptied-file_pages =
      let more =
        write_back-file_pages (take_frame p).0 f taken.0 taken.5 still_unpinned taken-IsSynced in
      omega (arith, more, ap (λ (d : Disk A). d.file_pages) taken.2)

  -- A page that the write-back put out of the page table is in the file.
  pub emptied-in_file :
      (i g : ℕ)
      → lookup i p.page_table ≡ some g
      → lookup i emptied.page_table ≡ none
      → i < emptied.disk.file_pages
  emptied-in_file i g here gone =
      let q : Pool A = (take_frame p).0 in
      let there : lookup i q.page_table ≡ some g =
        ap (λ (t : List (ℕ × ℕ)). lookup i t) taken.3 ∙ here in
      let after = lookup-write_back q f taken.0 taken.5 i in
      let same : (q.pages f).page_id ≡ i = ground (arith, after, there, gone) in
      elim (Bool-cases (q.pages f).is_dirty) [
        | inl dirty ↦
            let within =
              write_back-in_file q f taken.0 taken.5 still_unpinned taken-IsSynced dirty in
            omega (arith, within, same)
        | inr clean ↦ elim taken.5 [
          | inl (empty, _) ↦
              absurd (omega (arith, taken.0.mapped i g there, taken.0.ids, same, empty))
          | inr (named, found) ↦
              let here_f : lookup i q.page_table ≡ some f = rw (← same) found in
              let within = (taken-IsSynced.clean i f here_f still_unpinned clean).1 in
              let more = write_back-file_pages q f taken.0 taken.5 still_unpinned taken-IsSynced in
              omega (arith, within, more)
        ]
      ]

  pub emptied-next : emptied.disk.next_page_id ≡ p.disk.next_page_id
  emptied-next =
      write_back-next_page_id (take_frame p).0 f ∙ ap (λ (d : Disk A). d.next_page_id) taken.2
