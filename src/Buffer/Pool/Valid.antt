-- ===== src/Buffer/Pool/Valid.antt =====
-- What holds of a buffer pool between two calls.
use one_base.Base.{
  ℕ, ◌≤◌, ◌<◌, ◌≡◌, ◌≢◌, refl, Bool, true, false, none, some, List, [], ◌∷◌, ◌++◌, arith, ◌==◌,
  lookup, Distinct, ◌||◌,
}
use one_base.Buffer.Replacer.{FrameEntry}
use one_base.Buffer.Replacer.Valid.{IsValid as ReplacerIsValid}
use one_base.Buffer.Pool.{Pool, invalid_page_id}

unfoldable pub contains : List ℕ → ℕ → Bool
contains [] f = false
contains (g ∷ gs) f = g == f || contains gs f

pub contains-append :
    (gs : List ℕ) (f g : ℕ) → contains (gs ++ (f ∷ [])) g ≡ (contains gs g || f == g)
unfolding contains
contains-append [] f g = ground arith
contains-append (h ∷ gs) f g = ground (arith, contains-append gs f g)

-- No frame stands twice.
abbrev pub NoRepeat : List ℕ → Type 0
NoRepeat [] = Unit
NoRepeat (f ∷ fs) = (contains fs f ≡ false) × NoRepeat fs

pub NoRepeat-append :
    (fs : List ℕ) (f : ℕ) → contains fs f ≡ false → NoRepeat fs → NoRepeat (fs ++ (f ∷ []))
unfolding contains
NoRepeat-append [] f h d = (refl, tt)
NoRepeat-append (g ∷ fs) f h d =
    ground (arith, contains-append fs f g, NoRepeat-append fs f (ground arith) d.1)

module _ {ℓ} {A : Type ℓ} where
  -- A frame of the free list.
  pub record IsFree (p : Pool A) (f : ℕ) : Type 0 where
    pub in_pool : f < p.pool_size
    pub empty : (p.pages f).page_id ≡ invalid_page_id
    pub free_unpinned : (p.pages f).pin_count ≡ 0
    pub free_clean : (p.pages f).is_dirty ≡ false

  -- A frame that holds a page: the page table leads to it, and the replacer may take it exactly
  -- when no pin is left.
  pub record IsHeld (p : Pool A) (f : ℕ) : Type 0 where
    pub named : (p.pages f).page_id ≢ invalid_page_id
    pub found : lookup (p.pages f).page_id p.page_table ≡ some f
    pub entry : FrameEntry
    pub tracked : lookup f p.replacer.entries ≡ some entry
    pub evictable_unpinned : entry.is_evictable ≡ ((p.pages f).pin_count == 0)

  -- What a page table's entry says.
  pub record IsMapped (p : Pool A) (page_id f : ℕ) : Type 0 where
    pub allocated : page_id < p.disk.next_page_id
    pub frame_in_pool : f < p.pool_size
    pub not_free : contains p.free_list f ≡ false
    pub same_id : (p.pages f).page_id ≡ page_id

  -- All but the frame `f`, which is out of the free list and of the replacer.
  pub record IsValidBut (p : Pool A) (f : ℕ) : Type 0 where
    pub small : p.pool_size ≤ 2147483648
    pub ids : p.disk.next_page_id < 2147483648
    pub replacer_valid : ReplacerIsValid p.replacer
    pub distinct : Distinct p.page_table
    pub no_repeat : NoRepeat p.free_list
    pub few_pins : (g : ℕ) → (p.pages g).pin_count < 2147483648
    pub free : (g : ℕ) → contains p.free_list g ≡ true → IsFree p g
    pub held : (g : ℕ) → g ≢ f → g < p.pool_size → contains p.free_list g ≡ false → IsHeld p g
    pub mapped : (page_id g : ℕ) → lookup page_id p.page_table ≡ some g → IsMapped p page_id g
    pub entered :
        (g : ℕ) (e : FrameEntry)
        → lookup g p.replacer.entries ≡ some e
        → (g < p.pool_size) × (contains p.free_list g ≡ false)
    pub out_in_pool : f < p.pool_size
    pub out_not_free : contains p.free_list f ≡ false
    pub out_untracked : lookup f p.replacer.entries ≡ none

  pub record IsValid (p : Pool A) : Type 0 where
    pub small : p.pool_size ≤ 2147483648
    pub ids : p.disk.next_page_id < 2147483648
    pub replacer_valid : ReplacerIsValid p.replacer
    pub distinct : Distinct p.page_table
    pub no_repeat : NoRepeat p.free_list
    pub few_pins : (g : ℕ) → (p.pages g).pin_count < 2147483648
    pub free : (g : ℕ) → contains p.free_list g ≡ true → IsFree p g
    pub held : (g : ℕ) → g < p.pool_size → contains p.free_list g ≡ false → IsHeld p g
    pub mapped : (page_id g : ℕ) → lookup page_id p.page_table ≡ some g → IsMapped p page_id g
    pub entered :
        (g : ℕ) (e : FrameEntry)
        → lookup g p.replacer.entries ≡ some e
        → (g < p.pool_size) × (contains p.free_list g ≡ false)

module _ {ℓ} {A : Type ℓ} (p q : Pool A) (g : ℕ) where
  -- A frame stays held where nothing that concerns it changes.
  pub IsHeld_transfer :
      (q.pages g).page_id ≡ (p.pages g).page_id
      → (q.pages g).pin_count ≡ (p.pages g).pin_count
      → lookup (p.pages g).page_id q.page_table ≡ lookup (p.pages g).page_id p.page_table
      → lookup g q.replacer.entries ≡ lookup g p.replacer.entries
      → IsHeld p g
      → IsHeld q g
  IsHeld_transfer same_id same_pin same_table same_entry h = record {
    named = rw same_id h.named;
    found = rw same_id (rw same_table h.found);
    entry = h.entry;
    tracked = rw same_entry h.tracked;
    evictable_unpinned = rw same_pin h.evictable_unpinned;
  }
