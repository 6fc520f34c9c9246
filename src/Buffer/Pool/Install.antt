-- ===== src/Buffer/Pool/Install.antt =====
-- Putting a page into a frame that is out of the pool's order restores the order.
use one_base.Base.{
  ℕ, ◌+◌, ◌≤◌, ◌<◌, ◌≡◌, ◌≢◌, refl, sym, subst, ◌∙◌, inl, inr, false, none, some, arith, ◌==◌,
  lookup, lookup-insert, Distinct-insert, Bool-cases, ==→eq, size_mod,
}
use one_base.Buffer.Replacer.{FrameEntry, record_access, set_evictable}
use one_base.Buffer.Replacer.Valid.{
  IsValid as ReplacerIsValid, record_access-IsValid, set_evictable-IsValid,
}
use one_base.Buffer.Replacer.Entries.{touched_self, touched_ne}
use one_base.Buffer.Pool.{Disk, Pool, install}
use one_base.Buffer.Pool.Valid.{contains, IsHeld, IsValidBut, IsValid, IsHeld_transfer}

-- The replacer's clock can still tick.
abbrev pub HasTime {ℓ} : {A : Type ℓ} → Pool A → Type 0
HasTime p = p.replacer.current_timestamp + 1 < size_mod

-- The pins of the page, when it is in the pool, can still be counted by an `int`.
abbrev pub CountsPins {ℓ} : {A : Type ℓ} → Pool A → ℕ → Type 0
CountsPins p page_id =
    (f : ℕ) → lookup page_id p.page_table ≡ some f → (p.pages f).pin_count + 1 < 2147483648

module _ {ℓ} {A : Type ℓ} (p : Pool A) (f : ℕ) (v : IsValidBut p f) (page_id : ℕ) (content : A)
    (new_id : page_id < p.disk.next_page_id) (absent : lookup page_id p.page_table ≡ none)
    (unmapped : (q : ℕ) → lookup q p.page_table ≢ some f) (time : HasTime p) where
  touched-IsValid : ReplacerIsValid (set_evictable (record_access p.replacer f) f false)
  touched-IsValid =
      set_evictable-IsValid (record_access p.replacer f) f
        (record_access-IsValid p.replacer f v.replacer_valid (omega (arith, v.small, v.out_in_pool))
          time)
        false

  install-IsHeld :
      (g : ℕ)
      → g < p.pool_size
      → contains p.free_list g ≡ false
      → IsHeld (install p f page_id content) g
  unfolding install
  install-IsHeld g lt h = elim (Bool-cases (f == g)) [
    | inl e ↦
        let (entry, tracked, off) = touched_self p.replacer f in
        subst (λ (x : ℕ). IsHeld (install p f page_id content) x) (==→eq f g e)
          (record {
            named = ground (arith, v.ids);
            found = ground (arith, lookup-insert page_id page_id f p.page_table);
            entry = entry;
            tracked = tracked;
            evictable_unpinned = ground arith;
          })
    | inr e ↦
        let old = v.held g (ground arith) lt h in
        IsHeld_transfer p (install p f page_id content) g (ground arith) (ground arith)
          (ground (arith, lookup-insert page_id (p.pages g).page_id f p.page_table, old.found))
          (touched_ne p.replacer f g (ground arith)) old
  ]

  install-entered :
      (g : ℕ) (e : FrameEntry)
      → lookup g (install p f page_id content).replacer.entries ≡ some e
      → (g < p.pool_size) × (contains p.free_list g ≡ false)
  unfolding install
  install-entered g e h = elim (Bool-cases (f == g)) [
    | inl same ↦ ground (arith, v.out_in_pool, v.out_not_free)
    | inr other ↦ v.entered g e (sym (touched_ne p.replacer f g (ground arith)) ∙ h)
  ]

  -- The pool is valid once the frame holds a new page.
  pub install-IsValid : IsValid (install p f page_id content)
  unfolding install
  install-IsValid = record {
    small = v.small;
    ids = v.ids;
    replacer_valid = touched-IsValid;
    distinct = Distinct-insert page_id f p.page_table v.distinct;
    no_repeat = v.no_repeat;
    few_pins = λ g. ground (arith, v.few_pins g);
    free = λ g h. ground (arith, v.free g h, v.out_not_free);
    held = install-IsHeld;
    mapped = λ q g h. ground (
      arith,
      lookup-insert page_id q f p.page_table,
      v.mapped q g,
      unmapped q,
      v.out_in_pool,
      v.out_not_free,
      new_id,
    );
    entered = install-entered;
  }

module _ {ℓ} {A : Type ℓ} (p : Pool A) (f : ℕ) (v : IsValidBut p f) (d : Disk A) where
  -- Validity asks of the disk only how many ids it has handed out.
  pub IsValidBut-disk :
      p.disk.next_page_id ≤ d.next_page_id
      → d.next_page_id < 2147483648
      → IsValidBut (record p { disk = d }) f
  IsValidBut-disk le room = record {
    small = v.small;
    ids = room;
    replacer_valid = v.replacer_valid;
    distinct = v.distinct;
    no_repeat = v.no_repeat;
    few_pins = v.few_pins;
    free = λ g h. ground (arith, v.free g h);
    held = λ g ne lt h.
        IsHeld_transfer p (record p { disk = d }) g refl refl refl refl (v.held g ne lt h);
    mapped = λ q g h. ground (arith, v.mapped q g h);
    entered = v.entered;
    out_in_pool = v.out_in_pool;
    out_not_free = v.out_not_free;
    out_untracked = v.out_untracked;
  }
