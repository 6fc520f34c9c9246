-- ===== src/Buffer/Client.antt =====
-- The buffer pool as the pool of pages that the storage structures use.
use one_base.Base.{
  ℕ, suc, ◌+◌, ◌<◌, ◌≡◌, ◌≢◌, sym, ap, refl, ◌∙◌, inl, inr, Bool, true, false, none, some, List,
  arith, ◌==◌, lookup, update, Bool-cases, Option-cases, ==→eq, size_mod,
}
use one_base.Buffer.Pool.{Pool, fetch_page, new_page, unpin_page, delete_page}
use one_base.Buffer.Pool.Valid.{IsValid, IsHeld_transfer}
use one_base.Buffer.Pool.View.{view, IsSynced}
use one_base.Buffer.Pool.Methods.{fetch_page-IsValid}
use one_base.Buffer.Pool.Release.{unpin_page-IsValid}
use one_base.Buffer.Pool.Install.{CountsPins}
use one_base.Buffer.Pool.Contents.{
  view_present, IsFetched, Covered, fetch_page-Fetches, fetch_page-Covered,
}
use one_base.Buffer.Pool.Writes.{unpin_page-view}
use one_base.Buffer.Pool.Pins.{fetch_page-Pins, unpin_page-pins}
use one_base.Storage.Pages.{PagePool, PagePoolLaws}

module _ {A : Type 0} where
  -- The pool after a write through the pointer to a frame.
  abbrev pub written : Pool A → ℕ → A → Pool A
  written p f content = record p {
    pages = update p.pages f (record (p.pages f) { content = content });
  }

module _ {A : Type 0} (zeroed : A) where
  abbrev pub buffer_pool : PagePool (Pool A) A
  buffer_pool = record {
    fetch_page = fetch_page;
    new_page = new_page zeroed;
    unpin_page = unpin_page;
    delete_page = λ p page_id. (delete_page zeroed p page_id).0;
    read = λ p f. (p.pages f).content;
    write = written;
  }

module _ {A : Type 0} where
  -- A pool that can make `n` fetches before its clock wraps, with no page pinned, a stream that has
  -- not failed, and every allocated page in the pool or in the file.
  pub record IsIdle (n : ℕ) (p : Pool A) : Type 0 where
    pub valid : IsValid p
    pub synced : IsSynced p
    pub covered : Covered p
    pub some_frame : 0 < p.pool_size
    pub time : p.replacer.current_timestamp + n < size_mod
    pub unpinned : (f : ℕ) → f < p.pool_size → (p.pages f).pin_count ≡ 0

  -- A pool with one pin, on the page `page_id` in the frame `f`, whose flag is honest.
  pub record HoldsPage (n : ℕ) (p : Pool A) (page_id f : ℕ) : Type 0 where
    pub valid : IsValid p
    pub synced : IsSynced p
    pub covered : Covered p
    pub some_frame : 0 < p.pool_size
    pub time : p.replacer.current_timestamp + n < size_mod
    pub found : lookup page_id p.page_table ≡ some f
    pub pinned : (p.pages f).pin_count ≡ 1
    pub unpinned : (g : ℕ) → g < p.pool_size → g ≢ f → (p.pages g).pin_count ≡ 0
    pub honest :
        (p.pages f).is_dirty ≡ false
        → ((p.pages f).content ≡ p.disk.stored page_id) × (page_id < p.disk.file_pages)

  idle-CountsPins : (n : ℕ) (p : Pool A) (page_id : ℕ) → IsIdle n p → CountsPins p page_id
  idle-CountsPins n p page_id w f there =
      omega (arith, w.unpinned f (w.valid.mapped page_id f there).frame_in_pool)

  pub fetched-HoldsPage :
      (n : ℕ) (p : Pool A) (page_id f : ℕ)
      → IsIdle (suc n) p
      → page_id < p.disk.next_page_id
      → (fetch_page p page_id).1 ≡ some f
      → HoldsPage n (fetch_page p page_id).0 page_id f
        × (view (fetch_page p page_id).0 ≡ view p)
        × ((fetch_page p page_id).0.disk.next_page_id ≡ p.disk.next_page_id)
  fetched-HoldsPage n p page_id f w allocated got =
      let q : Pool A = (fetch_page p page_id).0 in
      let room = idle-CountsPins (suc n) p page_id w in
      let there = w.covered page_id allocated in
      let hold = fetch_page-Fetches p w.valid w.synced page_id allocated there room in
      let fetched : IsFetched p w.valid w.synced page_id q f = rw got at (hold.0) in
      let pins = fetch_page-Pins p w.valid w.synced page_id allocated there f room got in
      let valid : IsValid q =
        fetch_page-IsValid p w.valid page_id allocated room (omega (arith, w.time)) in
      let mapped = valid.mapped page_id f fetched.in_table in
      let free : (p.pages f).pin_count ≡ 0 =
        w.unpinned f (omega (arith, mapped.frame_in_pool, pins.same_size)) in
      (
        record {
          valid = valid;
          synced = hold.2;
          covered = fetch_page-Covered p w.valid w.synced page_id w.covered;
          some_frame = omega (arith, pins.same_size, w.some_frame);
          time = omega (arith, pins.ticked, w.time);
          found = fetched.in_table;
          pinned = omega (arith, pins.self, free);
          unpinned =
              λ g less ne. pins.others g ne ∙ w.unpinned g (omega (arith, less, pins.same_size));
          honest = pins.honest (λ here clean. w.synced.clean page_id f here free clean);
        },
        λ t i. hold.1 i t,
        pins.same_next,
      )

  -- The same without the promise about the flag: the client may have written to the page.
  record HasPinned (n : ℕ) (p : Pool A) (page_id f : ℕ) : Type 0 where
    valid : IsValid p
    synced : IsSynced p
    covered : Covered p
    some_frame : 0 < p.pool_size
    time : p.replacer.current_timestamp + n < size_mod
    found : lookup page_id p.page_table ≡ some f
    pinned : (p.pages f).pin_count ≡ 1
    unpinned : (g : ℕ) → g < p.pool_size → g ≢ f → (p.pages g).pin_count ≡ 0

  pinned-IsIdle :
      (n : ℕ) (p : Pool A) (page_id f : ℕ) (is_dirty : Bool)
      → HasPinned n p page_id f
      → (is_dirty ≡ false
          → (p.pages f).is_dirty ≡ false
          → ((p.pages f).content ≡ p.disk.stored page_id) × (page_id < p.disk.file_pages))
      → IsIdle n (unpin_page p page_id is_dirty).0
        × (view (unpin_page p page_id is_dirty).0 ≡ view p)
        × ((unpin_page p page_id is_dirty).0.disk.next_page_id ≡ p.disk.next_page_id)
  pinned-IsIdle n p page_id f is_dirty w honest =
      let q : Pool A = (unpin_page p page_id is_dirty).0 in
      let (self, others, disk, size, time, table) =
        unpin_page-pins p page_id f is_dirty w.found w.pinned in
      let kept = unpin_page-view p w.valid w.synced page_id is_dirty (λ g there flag clean.
        let other : some f ≡ some g = sym w.found ∙ there in
        let same : f ≡ g = cc in
        let (whole, within) = honest flag (ap (λ x. (p.pages x).is_dirty) same ∙ clean) in
        (ap (λ x. (p.pages x).content) (sym same) ∙ whole, within)) in
      (
        record {
          valid = unpin_page-IsValid p w.valid page_id is_dirty;
          synced = kept.1;
          covered = λ i less absent.
              let before : lookup i p.page_table ≡ none =
                ap (λ (t : List (ℕ × ℕ)). lookup i t) (sym table) ∙ absent in
              let next : q.disk.next_page_id ≡ p.disk.next_page_id =
                ap (λ d. d.next_page_id) disk in
              let more : q.disk.file_pages ≡ p.disk.file_pages = ap (λ d. d.file_pages) disk in
              omega (arith, w.covered i (omega (arith, less, next)) before, more);
          some_frame = omega (arith, size, w.some_frame);
          time = omega (arith, time, w.time);
          unpinned = λ g less. elim (Bool-cases (g == f)) [
            | inl here ↦ ap (λ x. (q.pages x).pin_count) (==→eq g f here) ∙ self
            | inr other ↦
                let ne : g ≢ f = λ e. ground (arith, e, other) in
                others g ne ∙ w.unpinned g (omega (arith, less, size)) ne
          ];
        },
        λ t i. kept.0 i t,
        ap (λ d. d.next_page_id) disk,
      )

  pub unpinned-IsIdle :
      (n : ℕ) (p : Pool A) (page_id f : ℕ) (is_dirty : Bool)
      → HoldsPage n p page_id f
      → IsIdle n (unpin_page p page_id is_dirty).0
        × (view (unpin_page p page_id is_dirty).0 ≡ view p)
        × ((unpin_page p page_id is_dirty).0.disk.next_page_id ≡ p.disk.next_page_id)
  unpinned-IsIdle n p page_id f is_dirty w =
      pinned-IsIdle n p page_id f is_dirty
        (record {
          valid = w.valid;
          synced = w.synced;
          covered = w.covered;
          some_frame = w.some_frame;
          time = w.time;
          found = w.found;
          pinned = w.pinned;
          unpinned = w.unpinned;
        })
        (λ flag clean. w.honest clean)

  -- Only the content changes.
  written_header :
      (p : Pool A) (f : ℕ) (content : A) (g : ℕ)
      → (((written p f content).pages g).page_id ≡ (p.pages g).page_id)
        × (((written p f content).pages g).pin_count ≡ (p.pages g).pin_count)
        × (((written p f content).pages g).is_dirty ≡ (p.pages g).is_dirty)
  written_header p f content g = (ground arith, ground arith, ground arith)

  written-IsValid : (p : Pool A) (f : ℕ) (content : A) → IsValid p → IsValid (written p f content)
  written-IsValid p f content v =
      let q : Pool A = written p f content in
      record {
        small = v.small;
        ids = v.ids;
        replacer_valid = v.replacer_valid;
        distinct = v.distinct;
        no_repeat = v.no_repeat;
        few_pins = λ g.
            let (_, same_pin, _) = written_header p f content g in
            omega (arith, v.few_pins g, same_pin);
        free = λ g h.
            let own = v.free g h in
            let (same_id, same_pin, same_flag) = written_header p f content g in
            record {
              in_pool = own.in_pool;
              empty = same_id ∙ own.empty;
              free_unpinned = same_pin ∙ own.free_unpinned;
              free_clean = same_flag ∙ own.free_clean;
            };
        held = λ g less h.
            let (same_id, same_pin, _) = written_header p f content g in
            IsHeld_transfer p q g same_id same_pin refl refl (v.held g less h);
        mapped = λ i g h.
            let m = v.mapped i g h in
            record {
              allocated = m.allocated;
              frame_in_pool = m.frame_in_pool;
              not_free = m.not_free;
              same_id = (written_header p f content g).0 ∙ m.same_id;
            };
        entered = v.entered;
      }

  written-IsSynced :
      (p : Pool A) (f : ℕ) (content : A)
      → (p.pages f).pin_count ≡ 1
      → IsSynced p
      → IsSynced (written p f content)
  written-IsSynced p f content pinned synced = record {
    good = synced.good;
    clean = λ i g there still clean. elim (Bool-cases (f == g)) [
      | inl e ↦ absurd (ground (arith, e, still, pinned, ==→eq f g e))
      | inr e ↦ ground (arith, e, synced.clean i g there, still, clean)
    ];
  }

  view-written :
      (p : Pool A) (page_id f : ℕ) (content : A)
      → IsValid p
      → lookup page_id p.page_table ≡ some f
      → (i : ℕ) → view (written p f content) i ≡ update (view p) page_id content i
  unfolding view
  view-written p page_id f content v found i = elim (Option-cases (lookup i p.page_table)) [
    | inl e ↦ ground (arith, e, found)
    | inr (g, e) ↦ elim (Bool-cases (f == g)) [
      | inl same ↦
          let there : lookup i p.page_table ≡ some f = e ∙ ap some (sym (==→eq f g same)) in
          let one : page_id ≡ i =
            sym (v.mapped page_id f found).same_id ∙ (v.mapped i f there).same_id in
          ground (arith, e, same, one)
      | inr other ↦
          let apart : (page_id == i) ≡ false = ground (arith, e, found, other) in
          ground (arith, e, other, apart)
    ]
  ]

  pub stored-IsIdle :
      (n : ℕ) (p : Pool A) (page_id f : ℕ) (content : A)
      → HoldsPage n p page_id f
      → IsIdle n (unpin_page (written p f content) page_id true).0
        × (view (unpin_page (written p f content) page_id true).0 ≡ update (view p) page_id content)
        × ((unpin_page (written p f content) page_id true).0.disk.next_page_id
            ≡ p.disk.next_page_id)
  stored-IsIdle n p page_id f content w =
      let (_, same_pin, _) = written_header p f content f in
      let (idle, same, next) =
        pinned-IsIdle n (written p f content) page_id f true
          (record {
            valid = written-IsValid p f content w.valid;
            synced = written-IsSynced p f content w.pinned w.synced;
            covered = w.covered;
            some_frame = w.some_frame;
            time = w.time;
            found = w.found;
            pinned = same_pin ∙ w.pinned;
            unpinned = λ g less ne. (written_header p f content g).1 ∙ w.unpinned g less ne;
          })
          (λ flag. absurd cc) in
      (idle, same ∙ (λ t i. view-written p page_id f content w.valid w.found i t), next)

  -- On a valid, synced pool, so with a stream that has not failed, that has at least one frame, no
  -- page pinned, every allocated page in the pool or in the file, and time for a fetch, `FetchPage`
  -- of an allocated page always returns a frame; the page is then the only one pinned, its frame
  -- reads as the page, and no page's content and no id changes.
  pub idle_fetches :
      (n : ℕ) (p : Pool A) (page_id : ℕ)
      → IsIdle (suc n) p
      → page_id < p.disk.next_page_id
      → (q : Pool A) × (f : ℕ) × (fetch_page p page_id ≡ (q, some f))
        × HoldsPage n q page_id f
        × (view q ≡ view p)
        × (q.disk.next_page_id ≡ p.disk.next_page_id)
  idle_fetches n p page_id w allocated = elim (Option-cases (fetch_page p page_id).1) [
    | inl refused ↦
        let hold =
          fetch_page-Fetches p w.valid w.synced page_id allocated (w.covered page_id allocated)
            (idle-CountsPins (suc n) p page_id w) in
        let full = (rw refused at hold.0).2 in
        absurd (omega (arith, full 0 w.some_frame, w.unpinned 0 w.some_frame))
    | inr (f, got) ↦
        let (held, same, next) = fetched-HoldsPage n p page_id f w allocated got in
        ((fetch_page p page_id).0, f, λ i. ((fetch_page p page_id).0, got i), held, same, next)
  ]

  pub idle_once_less : (n : ℕ) (p : Pool A) → IsIdle (suc n) p → IsIdle n p
  idle_once_less n p w = record {
    valid = w.valid;
    synced = w.synced;
    covered = w.covered;
    some_frame = w.some_frame;
    time = omega (arith, w.time);
    unpinned = w.unpinned;
  }

  -- The buffer pool keeps the promises of the interface.
  abbrev pub buffer_pool_laws : (zeroed : A) → PagePoolLaws (buffer_pool zeroed)
  buffer_pool_laws zeroed = record {
    content = view;
    next_id = λ p. p.disk.next_page_id;
    IsIdle = IsIdle;
    HoldsPage = HoldsPage;
    idle_fewer = idle_once_less;
    held_read = λ n p page_id f w. sym (view_present p page_id f w.found);
    idle_fetch = idle_fetches;
    holds_unpin = unpinned-IsIdle;
    holds_store = stored-IsIdle;
  }
