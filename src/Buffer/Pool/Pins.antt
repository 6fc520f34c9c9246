-- ===== src/Buffer/Pool/Pins.antt =====
-- What `FetchPage` and `UnpinPage` do to pins, flags and the clock of the replacer.
use one_base.Base.{
  ℕ, ◌+◌, ◌%◌, ◌<◌, ◌≡◌, ◌≢◌, refl, sym, subst, ap, ◌∙◌, inl, inr, Bool, true, false, none, some,
  List, [], ◌∷◌, arith, lookup, Option-cases, size_mod,
}
use one_base.Buffer.Replacer.{Replacer, record_access, set_evictable}
use one_base.Buffer.Pool.{
  Page, Disk, Pool, take_from, take_frame, write_back, install, can_read, read_page, load_page,
  pin_page, fetch_page, unpin_page,
}
use one_base.Buffer.Pool.Valid.{IsValid}
use one_base.Buffer.Pool.Install.{CountsPins}
use one_base.Buffer.Pool.View.{IsSynced}
use one_base.Buffer.Pool.Contents.{readable}
use one_base.Buffer.Pool.Vacate.{TakesFrame, take_frame-TakesFrame, write_back-next_page_id}

set_evictable-timestamp :
    (r : Replacer) (f : ℕ) (flag : Bool)
    → (set_evictable r f flag).current_timestamp ≡ r.current_timestamp
unfolding set_evictable
set_evictable-timestamp r f flag = ground arith

touched-timestamp :
    (r : Replacer) (f : ℕ)
    → (set_evictable (record_access r f) f false).current_timestamp
      ≡ (r.current_timestamp + 1) % size_mod
unfolding record_access
touched-timestamp r f = set_evictable-timestamp (record_access r f) f false

module _ {ℓ} {A : Type ℓ} where
  -- One more pin on the frame `f`, and one more tick of the clock; a page that was in the pool is
  -- as dirty as before, one that was not is as the disk has it.
  pub record Pins (p q : Pool A) (page_id f : ℕ) : Type ℓ where
    pub self : (q.pages f).pin_count ≡ (p.pages f).pin_count + 1
    pub others : (g : ℕ) → g ≢ f → (q.pages g).pin_count ≡ (p.pages g).pin_count
    pub honest :
        (lookup page_id p.page_table ≡ some f
          → (p.pages f).is_dirty ≡ false
          → ((p.pages f).content ≡ p.disk.stored page_id) × (page_id < p.disk.file_pages))
        → (q.pages f).is_dirty ≡ false
        → ((q.pages f).content ≡ q.disk.stored page_id) × (page_id < q.disk.file_pages)
    pub same_next : q.disk.next_page_id ≡ p.disk.next_page_id
    pub same_size : q.pool_size ≡ p.pool_size
    pub ticked : q.replacer.current_timestamp ≡ (p.replacer.current_timestamp + 1) % size_mod

  record Installs (c q : Pool A) (f : ℕ) : Type ℓ where
    self : (q.pages f).pin_count ≡ (c.pages f).pin_count + 1
    others : (g : ℕ) → g ≢ f → (q.pages g).pin_count ≡ (c.pages g).pin_count
    same_next : q.disk.next_page_id ≡ c.disk.next_page_id
    same_size : q.pool_size ≡ c.pool_size
    ticked : q.replacer.current_timestamp ≡ (c.replacer.current_timestamp + 1) % size_mod

  take_from-pool_size : (p : Pool A) (fs : List ℕ) → (take_from p fs).0.pool_size ≡ p.pool_size
  unfolding take_from
  take_from-pool_size p [] = refl
  take_from-pool_size p (f ∷ fs) = refl

  take_frame-pool_size : (p : Pool A) → (take_frame p).0.pool_size ≡ p.pool_size
  unfolding take_frame
  take_frame-pool_size p = take_from-pool_size p p.free_list

  write_back-pins :
      (p : Pool A) (f g : ℕ) → ((write_back p f).pages g).pin_count ≡ (p.pages g).pin_count
  unfolding write_back
  write_back-pins p f g = ground arith

  write_back-pool_size : (p : Pool A) (f : ℕ) → (write_back p f).pool_size ≡ p.pool_size
  unfolding write_back
  write_back-pool_size p f = refl

  write_back-replacer : (p : Pool A) (f : ℕ) → (write_back p f).replacer ≡ p.replacer
  unfolding write_back
  write_back-replacer p f = refl

  install-Installs :
      (c : Pool A) (f page_id : ℕ) (content : A)
      → (c.pages f).pin_count ≡ 0
      → Installs c (install c f page_id content) f
  unfolding install
  install-Installs c f page_id content free = record {
    self = ground (arith, free);
    others = λ g ne. ground (arith, ne);
    same_next = refl;
    same_size = refl;
    ticked = touched-timestamp c.replacer f;
  }

  -- A read of a page that is in the file.
  read-honest :
      (c : Pool A) (f page_id : ℕ)
      → can_read c.disk page_id ≡ true
      → let (content, disk) = read_page c.disk page_id in
        let q = install (record c { disk = disk }) f page_id content in
        ((q.pages f).content ≡ q.disk.stored page_id) × (page_id < q.disk.file_pages)
  unfolding install read_page
  read-honest c f page_id can = (ground (arith, can), ground (arith, can))

  read-next : (d : Disk A) (page_id : ℕ) → (read_page d page_id).1.next_page_id ≡ d.next_page_id
  unfolding read_page
  read-next d page_id = refl

  module _ (p : Pool A) (v : IsValid p) (synced : IsSynced p) (page_id : ℕ)
      (allocated : page_id < p.disk.next_page_id)
      (there : lookup page_id p.page_table ≡ none → page_id < p.disk.file_pages) where
    load_page-Pins :
        (f : ℕ)
        → lookup page_id p.page_table ≡ none
        → (take_frame p).1 ≡ some f
        → Pins p (load_page p page_id).0 page_id f
    unfolding load_page
    load_page-Pins f absent got =
        let taken : TakesFrame p v (take_frame p).0 (some f) =
          rw got at (take_frame-TakesFrame p v) in
        let c : Pool A = write_back (take_frame p).0 f in
        let pins : (g : ℕ) → (c.pages g).pin_count ≡ (p.pages g).pin_count = λ g.
          write_back-pins (take_frame p).0 f g ∙ ap (λ (t : ℕ → Page A). (t g).pin_count) taken.1 in
        let (content, disk) = read_page c.disk page_id in
        let loaded =
          install-Installs (record c { disk = disk }) f page_id content (pins f ∙ taken.4) in
        let can =
          readable p v synced page_id f got (omega (arith, allocated, v.ids)) (there absent) in
        let clock : c.replacer.current_timestamp ≡ p.replacer.current_timestamp =
          ap (λ (r : Replacer). r.current_timestamp) (write_back-replacer (take_frame p).0 f)
          ∙ taken.6 in
        rw (load_page, got)
          (record {
            self = loaded.self ∙ ap (λ n. n + 1) (pins f);
            others = λ g ne. loaded.others g ne ∙ pins g;
            honest = λ before clean. read-honest c f page_id can;
            same_next =
                loaded.same_next
                ∙ read-next c.disk page_id
                ∙ write_back-next_page_id (take_frame p).0 f
                ∙ ap (λ (d : Disk A). d.next_page_id) taken.2;
            same_size =
                loaded.same_size ∙ write_back-pool_size (take_frame p).0 f ∙ take_frame-pool_size p;
            ticked = loaded.ticked ∙ ap (λ n. (n + 1) % size_mod) clock;
          })

    pin_page_kept :
        (f : ℕ)
        → (((pin_page p f).pages f).content ≡ (p.pages f).content)
          × (((pin_page p f).pages f).is_dirty ≡ (p.pages f).is_dirty)
    unfolding pin_page
    pin_page_kept f = (ground arith, ground arith)

    pin_page-Pins :
        (f : ℕ)
        → lookup page_id p.page_table ≡ some f
        → (p.pages f).pin_count + 1 < 2147483648
        → Pins p (pin_page p f) page_id f
    unfolding pin_page
    pin_page-Pins f found room = record {
      self = ground (arith, room);
      others = λ g ne. ground (arith, ne);
      honest = λ before clean.
          let (same, mark) = pin_page_kept f in rw (same) (before found (sym mark ∙ clean));
      same_next = refl;
      same_size = refl;
      ticked = touched-timestamp p.replacer f;
    }

    -- A fetch that returns a frame pins it once more, where an `int` can count its pins.
    pub fetch_page-Pins :
        (f : ℕ)
        → CountsPins p page_id
        → (fetch_page p page_id).1 ≡ some f
        → Pins p (fetch_page p page_id).0 page_id f
    unfolding fetch_page
    fetch_page-Pins f room got = elim (Option-cases (lookup page_id p.page_table)) [
      | inl absent ↦ elim (Option-cases (take_frame p).1) [
        | inl refused ↦
            let none_got : none ≡ some f = rw (fetch_page, absent, load_page, refused) at got in
            absurd (cc)
        | inr (g, taken) ↦
            let here : some g ≡ some f = rw (fetch_page, absent, load_page, taken) at got in
            let same : g ≡ f = cc in
            rw (fetch_page, absent)
              (subst (λ x. Pins p (load_page p page_id).0 page_id x) same
                (load_page-Pins g absent taken))
      ]
      | inr (g, found) ↦
          let here : some g ≡ some f = rw (fetch_page, found) at got in
          let same : g ≡ f = cc in
          rw (fetch_page, found)
            (subst (λ x. Pins p (pin_page p g) page_id x) same
              (pin_page-Pins g found (room g found)))
    ]

module _ {ℓ} {A : Type ℓ} (p : Pool A) (page_id f : ℕ) (is_dirty : Bool)
    (found : lookup page_id p.page_table ≡ some f) (pinned : (p.pages f).pin_count ≡ 1) where
  -- Giving the last pin of a page back.
  pub unpin_page-pins :
      (((unpin_page p page_id is_dirty).0.pages f).pin_count ≡ 0)
      × ((g : ℕ)
          → g ≢ f
          → ((unpin_page p page_id is_dirty).0.pages g).pin_count ≡ (p.pages g).pin_count)
      × ((unpin_page p page_id is_dirty).0.disk ≡ p.disk)
      × ((unpin_page p page_id is_dirty).0.pool_size ≡ p.pool_size)
      × ((unpin_page p page_id is_dirty).0.replacer.current_timestamp
          ≡ p.replacer.current_timestamp)
      × ((unpin_page p page_id is_dirty).0.page_table ≡ p.page_table)
  unfolding unpin_page
  unpin_page-pins =
      rw (unpin_page, found)
        (
          ground (arith, pinned),
          λ g ne. ground (arith, pinned, ne),
          ground (arith, pinned),
          ground (arith, pinned),
          ground (arith, pinned, set_evictable-timestamp p.replacer f true),
          ground (arith, pinned),
        )
