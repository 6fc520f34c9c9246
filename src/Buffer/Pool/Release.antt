-- ===== src/Buffer/Pool/Release.antt =====
-- Giving pages back, deleting and flushing them keep the pool valid.
use one_base.Base.{
  ℕ, ◌<◌, ◌≡◌, ◌≢◌, refl, sym, subst, ◌∙◌, inl, inr, Bool, true, false, none, some, List, [], ◌∷◌,
  ◌++◌, arith, ◌==◌, if◌then◌else◌, lookup, erase, lookup-erase, update, Distinct-erase, Bool-cases,
  Option-cases, ==→eq,
}
use one_base.Buffer.Replacer.{FrameEntry, Replacer, set_evictable, remove}
use one_base.Buffer.Replacer.Valid.{
  IsValid as ReplacerIsValid, set_evictable-IsValid, remove-IsValid,
}
use one_base.Buffer.Replacer.Entries.{lookup-set_evictable, remove-some}
use one_base.Buffer.Pool.{
  Page, Pool, is_positive, blank, unpinned, unpin_page, delete_page, flush_frame, flush_page,
  flush_entries, flush_all_pages,
}
use one_base.Buffer.Pool.Valid.{
  contains, contains-append, NoRepeat-append, IsHeld, IsValid, IsHeld_transfer,
}

module _ {ℓ} {A : Type ℓ} (p : Pool A) (v : IsValid p) where
  -- What `UnpinPage` makes of the replacer.
  released : (f : ℕ) → Bool → Replacer
  released f last = if last then set_evictable p.replacer f true else p.replacer

  released_ne :
      (f g : ℕ) (last : Bool)
      → f ≢ g
      → lookup g (released f last).entries ≡ lookup g p.replacer.entries
  unfolding released
  released_ne f g last ne = ground (arith, lookup-set_evictable p.replacer f true g)

  released-IsValid : (f : ℕ) (last : Bool) → ReplacerIsValid (released f last)
  unfolding released
  released-IsValid f true = set_evictable-IsValid p.replacer f v.replacer_valid true
  released-IsValid f false = v.replacer_valid

  released_self :
      (f : ℕ) (last : Bool) (own : IsHeld p f)
      → (p.pages f).pin_count ≢ 0
      → (e : FrameEntry) × (lookup f (released f last).entries ≡ some e) × (e.is_evictable ≡ last)
  unfolding released
  released_self f true own pinned = (
    record own.entry { is_evictable = true },
    ground (arith, lookup-set_evictable p.replacer f true f, own.tracked),
    refl,
  )
  released_self f false own pinned =
      (own.entry, own.tracked, ground (arith, own.evictable_unpinned))

  -- A held frame with another pin count and flag, and the replacer told so.
  repin-IsValid :
      (f : ℕ) (page : Page A) (last : Bool)
      → f < p.pool_size
      → contains p.free_list f ≡ false
      → (p.pages f).pin_count ≢ 0
      → page.page_id ≡ (p.pages f).page_id
      → last ≡ (page.pin_count == 0)
      → page.pin_count < 2147483648
      → IsValid (record p { pages = update p.pages f page; replacer = released f last })
  repin-IsValid f page last in_pool not_free pinned same_id is_last few =
      let q : Pool A = record p { pages = update p.pages f page; replacer = released f last } in
      let own = v.held f in_pool not_free in
      let (entry, tracked, flag) = released_self f last own pinned in
      record {
        small = v.small;
        ids = v.ids;
        replacer_valid = released-IsValid f last;
        distinct = v.distinct;
        no_repeat = v.no_repeat;
        few_pins = λ g. ground (arith, v.few_pins g, few);
        free = λ g h. ground (arith, v.free g h, not_free);
        held = λ g lt h. elim (Bool-cases (f == g)) [
          | inl e ↦
              subst (λ (x : ℕ). IsHeld q x) (==→eq f g e)
                (record {
                  named = ground (arith, own.named);
                  found = ground (arith, own.found);
                  entry = entry;
                  tracked = tracked;
                  evictable_unpinned = ground arith;
                })
          | inr e ↦
              IsHeld_transfer p q g (ground arith) (ground arith) refl
                (released_ne f g last (ground arith)) (v.held g lt h)
        ];
        mapped = λ i g h. ground (arith, v.mapped i g h);
        entered = λ g d h. elim (Bool-cases (f == g)) [
          | inl e ↦ ground (arith, in_pool, not_free)
          | inr e ↦ v.entered g d (sym (released_ne f g last (ground arith)) ∙ h)
        ];
      }

  -- `UnpinPage` keeps a valid pool valid.
  pub unpin_page-IsValid :
      (page_id : ℕ) (is_dirty : Bool) → IsValid (unpin_page p page_id is_dirty).0
  unfolding unpin_page released
  unpin_page-IsValid page_id is_dirty = elim (Option-cases (lookup page_id p.page_table)) [
    | inl e ↦ rw (unpin_page, e) v
    | inr (f, e) ↦
        let m = v.mapped page_id f e in
        elim (Bool-cases (is_positive (p.pages f).pin_count)) [
          | inr z ↦ rw (unpin_page, e, z) v
          | inl z ↦
              rw (unpin_page, e, z)
                (repin-IsValid f (unpinned (p.pages f) is_dirty)
                  ((unpinned (p.pages f) is_dirty).pin_count == 0) m.frame_in_pool m.not_free
                  (ground (arith, v.few_pins f)) refl refl (ground (arith, v.few_pins f)))
        ]
  ]

module _ {ℓ} {A : Type ℓ} (p : Pool A) (v : IsValid p) where
  -- The frame `f` leaves the page table and the replacer for the free list.
  freed-IsValid :
      (zeroed : A) (page_id f : ℕ) (r : Replacer)
      → lookup page_id p.page_table ≡ some f
      → ReplacerIsValid r
      → ((g : ℕ) → lookup g r.entries ≡ (if f == g then none else lookup g p.replacer.entries))
      → IsValid (record p {
        page_table = erase page_id p.page_table;
        replacer = r;
        pages = update p.pages f (blank zeroed);
        free_list = p.free_list ++ (f ∷ []);
      })
  freed-IsValid zeroed page_id f r found ok gone =
      let m = v.mapped page_id f found in
      let q : Pool A = record p {
        page_table = erase page_id p.page_table;
        replacer = r;
        pages = update p.pages f (blank zeroed);
        free_list = p.free_list ++ (f ∷ []);
      } in
      record {
        small = v.small;
        ids = v.ids;
        replacer_valid = ok;
        distinct = Distinct-erase page_id p.page_table v.distinct;
        no_repeat = NoRepeat-append p.free_list f m.not_free v.no_repeat;
        few_pins = λ g. ground (arith, v.few_pins g);
        free = λ g h. ground (arith, v.free g, contains-append p.free_list f g, m.frame_in_pool);
        held = λ g lt h.
            let other : f ≢ g = ground (arith, contains-append p.free_list f g) in
            let own = v.held g lt (ground (arith, contains-append p.free_list f g)) in
            IsHeld_transfer p q g (ground arith) (ground arith)
              (ground
                (arith, lookup-erase page_id (p.pages g).page_id p.page_table, own.found, found))
              (ground (arith, gone g)) own;
        mapped = λ i g h. ground (
          arith,
          lookup-erase page_id i p.page_table,
          v.mapped i g,
          m.same_id,
          contains-append p.free_list f g,
        );
        entered = λ g d h. ground (arith, gone g, v.entered g d, contains-append p.free_list f g);
      }

  unpinned_evictable :
      (page_id f : ℕ)
      → lookup page_id p.page_table ≡ some f
      → ((p.pages f).pin_count == 0) ≡ true
      → (r : Replacer) × (remove p.replacer f ≡ some r)
        × ((g : ℕ) → lookup g r.entries ≡ (if f == g then none else lookup g p.replacer.entries))
  unpinned_evictable page_id f found unpinned =
      let m = v.mapped page_id f found in
      let own = v.held f m.frame_in_pool m.not_free in
      remove-some p.replacer f own.entry own.tracked (own.evictable_unpinned ∙ unpinned)

  -- On a valid pool `DeletePage` never meets the exception of `LRUKReplacer::Remove`, and it
  -- keeps the pool valid.
  pub delete_page-IsValid :
      (zeroed : A) (page_id : ℕ)
      → IsValid (delete_page zeroed p page_id).0 × ((delete_page zeroed p page_id).1 ≢ none)
  unfolding delete_page
  delete_page-IsValid zeroed page_id = elim (Option-cases (lookup page_id p.page_table)) [
    | inl e ↦ rw (delete_page, e) (v, λ h. cc)
    | inr (f, e) ↦ elim (Bool-cases (is_positive (p.pages f).pin_count)) [
      | inr z ↦
          let unpinned : ((p.pages f).pin_count == 0) ≡ true = ground (arith, z, v.few_pins f) in
          let (r, made, gone) = unpinned_evictable page_id f e unpinned in
          rw (delete_page, e, z, made)
            (
              freed-IsValid zeroed page_id f r e (remove-IsValid p.replacer f v.replacer_valid made)
                  gone,
              λ h. cc,
            )
      | inl z ↦ rw (delete_page, e, z) (v, λ h. cc)
    ]
  ]

  flush_frame-IsValid : (page_id f : ℕ) → IsValid (flush_frame p page_id f)
  unfolding flush_frame
  flush_frame-IsValid page_id f = record {
    small = v.small;
    ids = v.ids;
    replacer_valid = v.replacer_valid;
    distinct = v.distinct;
    no_repeat = v.no_repeat;
    few_pins = λ g. ground (arith, v.few_pins g);
    free = λ g h. ground (arith, v.free g h);
    held = λ g lt h.
        IsHeld_transfer p (flush_frame p page_id f) g (ground arith) (ground arith) refl refl
          (v.held g lt h);
    mapped = λ i g h. ground (arith, v.mapped i g h);
    entered = v.entered;
  }

  -- `FlushPage` keeps a valid pool valid.
  pub flush_page-IsValid : (page_id : ℕ) → IsValid (flush_page p page_id).0
  unfolding flush_page
  flush_page-IsValid page_id = elim (Option-cases (lookup page_id p.page_table)) [
    | inl e ↦ rw (flush_page, e) v
    | inr (f, e) ↦ rw (flush_page, e) (flush_frame-IsValid page_id f)
  ]

flush_entries-IsValid {ℓ} :
    {A : Type ℓ} (p : Pool A) (m : List (ℕ × ℕ)) → IsValid p → IsValid (flush_entries p m)
unfolding flush_entries
flush_entries-IsValid p [] v = v
flush_entries-IsValid p ((i, f) ∷ m) v =
    flush_entries-IsValid (flush_frame p i f) m (flush_frame-IsValid p v i f)

-- `FlushAllPages` keeps a valid pool valid.
pub flush_all_pages-IsValid {ℓ} :
    {A : Type ℓ} (p : Pool A) → IsValid p → IsValid (flush_all_pages p)
unfolding flush_all_pages
flush_all_pages-IsValid p v = flush_entries-IsValid p p.page_table v
