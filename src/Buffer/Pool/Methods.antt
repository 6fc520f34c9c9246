-- ===== src/Buffer/Pool/Methods.antt =====
-- Every method of the pool keeps it valid.
use one_base.Base.{
  ℕ, ◌+◌, ◌≤◌, ◌<◌, ◌≡◌, refl, sym, ap, subst, ◌∙◌, inl, inr, false, none, some, List, arith, ◌==◌,
  lookup, Bool-cases, Option-cases, ==→eq,
}
use one_base.Buffer.Replacer.{record_access}
use one_base.Buffer.Replacer.Valid.{record_access-IsValid, set_evictable-IsValid}
use one_base.Buffer.Replacer.Entries.{touched_self, touched_ne}
use one_base.Buffer.Pool.{
  Disk, Pool, take_frame, write_back, install, allocate_page, new_page, load_page, pin_page,
  read_page, fetch_page, unpinned,
}
use one_base.Buffer.Pool.Valid.{IsHeld, IsValid, IsHeld_transfer}
use one_base.Buffer.Pool.Vacate.{
  TakesFrame, take_frame-TakesFrame, write_back-IsValidBut, lookup-write_back, unmapped,
  write_back-replacer, write_back-next_page_id,
}
use one_base.Buffer.Pool.Install.{HasTime, CountsPins, install-IsValid, IsValidBut-disk}

module _ {ℓ} {A : Type ℓ} (p : Pool A) (v : IsValid p) where
  -- A page in the frame `f` with one pin more.
  pin_page-IsValid :
      (page_id f : ℕ)
      → lookup page_id p.page_table ≡ some f
      → (p.pages f).pin_count + 1 < 2147483648
      → HasTime p
      → IsValid (pin_page p f)
  unfolding pin_page
  pin_page-IsValid page_id f found room time =
      let m = v.mapped page_id f found in
      let own = v.held f m.frame_in_pool m.not_free in
      let (entry, tracked, off) = touched_self p.replacer f in
      record {
        small = v.small;
        ids = v.ids;
        replacer_valid =
            set_evictable-IsValid (record_access p.replacer f) f
              (record_access-IsValid p.replacer f v.replacer_valid
                (omega (arith, v.small, m.frame_in_pool)) time)
              false;
        distinct = v.distinct;
        no_repeat = v.no_repeat;
        few_pins = λ g. ground (arith, v.few_pins g, room);
        free = λ g h. ground (arith, v.free g h, m.not_free);
        held = λ g lt h. elim (Bool-cases (f == g)) [
          | inl e ↦
              subst (λ (x : ℕ). IsHeld (pin_page p f) x) (==→eq f g e)
                (record {
                  named = ground (arith, own.named);
                  found = ground (arith, own.found);
                  entry = entry;
                  tracked = tracked;
                  evictable_unpinned = ground (arith, room);
                })
          | inr e ↦
              IsHeld_transfer p (pin_page p f) g (ground arith) (ground arith) refl
                (touched_ne p.replacer f g (ground arith)) (v.held g lt h)
        ];
        mapped = λ q g h. ground (arith, v.mapped q g h);
        entered = λ g d h. elim (Bool-cases (f == g)) [
          | inl e ↦ ground (arith, m.frame_in_pool, m.not_free)
          | inr e ↦ v.entered g d (sym (touched_ne p.replacer f g (ground arith)) ∙ h)
        ];
      }

module _ {ℓ} {A : Type ℓ} (p : Pool A) (v : IsValid p) (f : ℕ)
    (got : (take_frame p).1 ≡ some f) where
  taken : TakesFrame p v (take_frame p).0 (some f)
  taken = rw got at (take_frame-TakesFrame p v)

  claimed : Pool A
  claimed = write_back (take_frame p).0 f

  claimed-absent :
      (page_id : ℕ) → lookup page_id p.page_table ≡ none → lookup page_id claimed.page_table ≡ none
  unfolding claimed
  claimed-absent page_id absent =
      let (rest, pages, disk, table, unpinned, leaving, clock) = taken in
      ground (
        arith,
        lookup-write_back (take_frame p).0 f rest leaving page_id,
        ap (λ (t : List (ℕ × ℕ)). lookup page_id t) table,
        absent,
      )

  claimed-next : claimed.disk.next_page_id ≡ p.disk.next_page_id
  unfolding claimed
  claimed-next = rw (write_back-next_page_id (take_frame p).0 f, taken.2) refl

  claimed-clock : claimed.replacer.current_timestamp ≡ p.replacer.current_timestamp
  unfolding claimed
  claimed-clock = rw (write_back-replacer (take_frame p).0 f) taken.6

  -- A page, mapped nowhere yet, in the frame that was taken, on a disk that may have handed out
  -- more ids.
  claim-IsValid :
      (page_id : ℕ) (content : A) (d : Disk A)
      → page_id < d.next_page_id
      → p.disk.next_page_id ≤ d.next_page_id
      → d.next_page_id < 2147483648
      → lookup page_id p.page_table ≡ none
      → HasTime p
      → IsValid (install (record claimed { disk = d }) f page_id content)
  unfolding claimed
  claim-IsValid page_id content d allocated more room absent time =
      let (rest, pages, disk, table, unpinned, leaving, clock) = taken in
      let q = (take_frame p).0 in
      install-IsValid (record claimed { disk = d }) f
        (IsValidBut-disk claimed f (write_back-IsValidBut q f rest leaving) d
          (omega (arith, claimed-next)) room)
        page_id content allocated (claimed-absent page_id absent) (unmapped q f rest leaving)
        (omega (arith, claimed-clock))

module _ {ℓ} {A : Type ℓ} (p : Pool A) (v : IsValid p) where
  pub refused-eq : (take_frame p).1 ≡ none → (take_frame p).0 ≡ p
  refused-eq e = (rw e at (take_frame-TakesFrame p v)).0

  load_page-IsValid :
      (page_id : ℕ)
      → page_id < p.disk.next_page_id
      → lookup page_id p.page_table ≡ none
      → HasTime p
      → IsValid (load_page p page_id).0
  unfolding load_page claimed read_page
  load_page-IsValid page_id allocated absent time = elim (Option-cases (take_frame p).1) [
    | inl e ↦ rw (load_page, e) (rw (refused-eq e) v)
    | inr (f, e) ↦
        let next = claimed-next p v f e in
        rw (load_page, e)
          (claim-IsValid p v f e page_id (read_page (claimed p v f e).disk page_id).0
            (read_page (claimed p v f e).disk page_id).1 (omega arith) (omega arith)
            (omega (arith, v.ids)) absent time)
  ]

  -- `FetchPage` of an allocated page keeps a valid pool valid, while pins can be counted.
  pub fetch_page-IsValid :
      (page_id : ℕ)
      → page_id < p.disk.next_page_id
      → CountsPins p page_id
      → HasTime p
      → IsValid (fetch_page p page_id).0
  unfolding fetch_page
  fetch_page-IsValid page_id allocated room time =
      elim (Option-cases (lookup page_id p.page_table)) [
        | inl e ↦ rw (fetch_page, e) (load_page-IsValid page_id allocated e time)
        | inr (f, e) ↦ rw (fetch_page, e) (pin_page-IsValid p v page_id f e (room f e) time)
      ]

  pub fresh : lookup p.disk.next_page_id p.page_table ≡ none
  fresh = elim (Option-cases (lookup p.disk.next_page_id p.page_table)) [
    | inl e ↦ e
    | inr (f, e) ↦ absurd (omega (arith, v.mapped p.disk.next_page_id f e))
  ]

  -- `NewPage` keeps a valid pool valid, while page ids last.
  pub new_page-IsValid :
      (zeroed : A)
      → p.disk.next_page_id + 1 < 2147483648
      → HasTime p
      → IsValid (new_page zeroed p).0
  unfolding new_page claimed allocate_page
  new_page-IsValid zeroed room time = elim (Option-cases (take_frame p).1) [
    | inl e ↦ rw (new_page, e) (rw (refused-eq e) v)
    | inr (f, e) ↦
        let next = claimed-next p v f e in
        rw (new_page, e)
          (claim-IsValid p v f e (claimed p v f e).disk.next_page_id zeroed
            (allocate_page (claimed p v f e).disk).0 (omega arith) (omega arith)
            (omega (arith, v.ids)) (rw next fresh) time)
  ]
