-- ===== src/Buffer/Pool/Vacate.antt =====
-- Taking a frame and writing its old page back leave the rest of the pool in order.
use one_base.Base.{
  ℕ, ◌<◌, ◌≡◌, ◌≢◌, ◌⊎◌, ◌∙◌, refl, sym, ap, inl, inr, true, false, Option, none, some, List, [],
  ◌∷◌, arith, ◌==◌, if◌then◌else◌, lookup, lookup-erase, Distinct, Distinct-erase, Option-cases,
  Bool-cases, ==→eq,
}
use one_base.Buffer.Replacer.{FrameEntry, evict}
use one_base.Buffer.Replacer.Valid.{count-zero}
use one_base.Buffer.Replacer.Victim.{
  evict-timestamp, evict_refused, evict-none_iff, evict-Precedes, evict-IsValid,
}
use one_base.Buffer.Pool.{Pool, invalid_page_id, take_from, take_frame, write_back}
use one_base.Buffer.Pool.Valid.{contains, NoRepeat, IsHeld, IsValidBut, IsValid, IsHeld_transfer}

-- The page that a taken frame still shows: none, or one that the page table leads to.
abbrev pub IsLeaving {ℓ} : {A : Type ℓ} → Pool A → ℕ → Type 0
IsLeaving p f =
    ((p.pages f).page_id ≡ invalid_page_id) × ((p.pages f).is_dirty ≡ false)
    ⊎ ((p.pages f).page_id ≢ invalid_page_id) × (lookup (p.pages f).page_id p.page_table ≡ some f)

module _ {ℓ} {A : Type ℓ} (p : Pool A) (v : IsValid p) where
  pub free_untracked : (f : ℕ) → contains p.free_list f ≡ true → lookup f p.replacer.entries ≡ none
  free_untracked f was = elim (Option-cases (lookup f p.replacer.entries)) [
    | inl h ↦ h
    | inr (d, h) ↦ absurd (let is_out = (v.entered f d h).1 in cc)
  ]

  take_free :
      (f : ℕ) (fs : List ℕ) → p.free_list ≡ f ∷ fs → IsValidBut (record p { free_list = fs }) f
  unfolding contains
  take_free f fs e =
      let fresh : NoRepeat (f ∷ fs) = rw e at v.no_repeat in
      let was = λ (g : ℕ). ap (λ (l : List ℕ). contains l g) e in
      record {
        small = v.small;
        ids = v.ids;
        replacer_valid = v.replacer_valid;
        distinct = v.distinct;
        no_repeat = fresh.1;
        few_pins = v.few_pins;
        free = λ g h. ground (arith, v.free g, was g);
        held = λ g ne lt h.
            IsHeld_transfer p (record p { free_list = fs }) g refl refl refl refl
              (v.held g lt (ground (arith, was g)));
        mapped = λ page_id g h. ground (arith, v.mapped page_id g h, was g);
        entered = λ g d h. ground (arith, v.entered g d h, was g);
        out_in_pool = (v.free f (ground (arith, was f))).in_pool;
        out_not_free = fresh.0;
        out_untracked = free_untracked f (ground (arith, was f));
      }

  take_evicted :
      (f : ℕ) (e : FrameEntry)
      → (evict p.replacer).1 ≡ some f
      → lookup f p.replacer.entries ≡ some e
      → ((g : ℕ)
          → lookup g (evict p.replacer).0.entries
            ≡ (if f == g then none else lookup g p.replacer.entries))
      → IsValidBut (record p { replacer = (evict p.replacer).0 }) f
  take_evicted f e taken found gone =
      let q : Pool A = record p { replacer = (evict p.replacer).0 } in
      record {
        small = v.small;
        ids = v.ids;
        replacer_valid = evict-IsValid p.replacer v.replacer_valid;
        distinct = v.distinct;
        no_repeat = v.no_repeat;
        few_pins = v.few_pins;
        free = λ g h. ground (arith, v.free g h);
        held = λ g ne lt h.
            IsHeld_transfer p q g refl refl refl (ground (arith, gone g)) (v.held g lt h);
        mapped = λ page_id g h. ground (arith, v.mapped page_id g h);
        entered = λ g d h. ground (arith, v.entered g d, gone g);
        out_in_pool = (v.entered f e found).0;
        out_not_free = (v.entered f e found).1;
        out_untracked = ground (arith, gone f);
      }

  -- What `TakesFrame` says of a frame that is taken, or of a refusal.
  abbrev pub TakesFrame : Pool A → Option ℕ → Type ℓ
  TakesFrame q none = (q ≡ p) × ((f : ℕ) → f < p.pool_size → 0 < (p.pages f).pin_count)
  TakesFrame q (some f) =
      IsValidBut q f
      × (q.pages ≡ p.pages)
      × (q.disk ≡ p.disk)
      × (q.page_table ≡ p.page_table)
      × ((p.pages f).pin_count ≡ 0)
      × IsLeaving q f
      × (q.replacer.current_timestamp ≡ p.replacer.current_timestamp)

  all_pinned :
      p.free_list ≡ []
      → (evict p.replacer).1 ≡ none
      → (f : ℕ) → f < p.pool_size
      → 0 < (p.pages f).pin_count
  unfolding contains
  all_pinned e refused f lt =
      let nothing = (evict-none_iff p.replacer v.replacer_valid).0 refused in
      let h = v.held f lt (rw e refl) in
      let off = count-zero f h.entry p.replacer.entries nothing h.tracked in
      let pinned = h.evictable_unpinned in ground arith

  take_from-TakesFrame :
      (fs : List ℕ) → p.free_list ≡ fs → TakesFrame (take_from p fs).0 (take_from p fs).1
  unfolding take_from contains
  take_from-TakesFrame (f ∷ fs) e =
      let free = v.free f (rw e (ground arith)) in
      (
        take_free f fs e,
        refl,
        refl,
        refl,
        free.free_unpinned,
        inl (free.empty, free.free_clean),
        refl,
      )
  take_from-TakesFrame [] e = elim (Bool-cases (p.replacer.curr_size == 0)) [
    | inl z ↦
        let refused =
          (evict-none_iff p.replacer v.replacer_valid).1
            (omega (arith, ==→eq _ _ z, v.replacer_valid.counted)) in
        let same : record p { replacer = (evict p.replacer).0 } ≡ p =
          rw (evict_refused p.replacer refused) refl in
        rw refused (same, all_pinned e refused)
    | inr more ↦
        let (f, d, taken, found, on, first, gone, fewer) =
          evict-Precedes p.replacer v.replacer_valid (ground arith) in
        let h = v.held f (v.entered f d found).0 (v.entered f d found).1 in
        let same : some h.entry ≡ some d = sym h.tracked ∙ found in
        let unpinned = h.evictable_unpinned in
        rw taken (
          take_evicted f d taken found gone,
          refl,
          refl,
          refl,
          ground arith,
          inr (h.named, h.found),
          evict-timestamp p.replacer,
        )
  ]

  -- A frame that `take_frame` gives is unpinned, and out of the free list and of the replacer,
  -- with the rest of the pool in order, and the pages, the page table and the disk as before. A
  -- frame is refused, and nothing changed, only if every frame of the pool is pinned.
  pub take_frame-TakesFrame : TakesFrame (take_frame p).0 (take_frame p).1
  unfolding take_frame
  take_frame-TakesFrame = take_from-TakesFrame p.free_list refl

module _ {ℓ} {A : Type ℓ} (p : Pool A) (f : ℕ) (v : IsValidBut p f) (old : IsLeaving p f) where
  pub lookup-write_back :
      (page_id : ℕ)
      → lookup page_id (write_back p f).page_table
        ≡ (if (p.pages f).page_id == page_id then none else lookup page_id p.page_table)
  unfolding write_back
  lookup-write_back page_id = elim (Bool-cases ((p.pages f).page_id == invalid_page_id)) [
    | inl e ↦ elim (Option-cases (lookup page_id p.page_table)) [
      | inl n ↦ ground (arith, e, n)
      | inr (g, h) ↦ ground (arith, e, v.mapped page_id g h)
    ]
    | inr e ↦ ground (arith, e, lookup-erase (p.pages f).page_id page_id p.page_table)
  ]

  -- After the write-back no page is in the frame `f`.
  pub unmapped : (page_id : ℕ) → lookup page_id (write_back p f).page_table ≢ some f
  unmapped page_id h = ground (arith, lookup-write_back page_id, v.mapped page_id f)

  table_ne :
      (page_id g : ℕ)
      → lookup page_id p.page_table ≡ some g
      → g ≢ f
      → lookup page_id (write_back p f).page_table ≡ some g
  table_ne page_id g h ne = ground (arith, lookup-write_back page_id, v.mapped page_id g h)

  pub write_back-Distinct : Distinct (write_back p f).page_table
  unfolding write_back
  write_back-Distinct =
      ground (arith, v.distinct, Distinct-erase (p.pages f).page_id p.page_table v.distinct)

  write_back-IsHeld : (g : ℕ) → g ≢ f → IsHeld p g → IsHeld (write_back p f) g
  unfolding write_back
  write_back-IsHeld g ne h =
      IsHeld_transfer p (write_back p f) g (ground arith) (ground arith)
        (table_ne (p.pages g).page_id g h.found ne ∙ sym h.found) refl h

  write_back-ids : (write_back p f).disk.next_page_id < 2147483648
  unfolding write_back
  write_back-ids = ground (arith, v.ids)

  -- The write-back keeps the rest of the pool in order.
  pub write_back-IsValidBut : IsValidBut (write_back p f) f
  unfolding write_back
  write_back-IsValidBut = record {
    small = v.small;
    ids = write_back-ids;
    replacer_valid = v.replacer_valid;
    distinct = write_back-Distinct;
    no_repeat = v.no_repeat;
    few_pins = λ g. ground (arith, v.few_pins g);
    free = λ g h. ground (arith, v.free g h, v.out_not_free);
    held = λ g ne lt h. write_back-IsHeld g ne (v.held g ne lt h);
    mapped = λ page_id g h. ground (arith, lookup-write_back page_id, v.mapped page_id g);
    entered = v.entered;
    out_in_pool = v.out_in_pool;
    out_not_free = v.out_not_free;
    out_untracked = v.out_untracked;
  }

module _ {ℓ} {A : Type ℓ} (p : Pool A) (f : ℕ) where
  pub write_back-replacer : (write_back p f).replacer ≡ p.replacer
  unfolding write_back
  write_back-replacer = refl

  pub write_back-next_page_id : (write_back p f).disk.next_page_id ≡ p.disk.next_page_id
  unfolding write_back
  write_back-next_page_id = ground arith
