-- ===== src/Buffer/Pool/Start.antt =====
-- A new buffer pool is in order: every frame is free, and no page is in the pool.
use one_base.Base.{
  ℕ, zero, suc, ◌+◌, ◌%◌, ◌≤◌, ◌<◌, ◌≡◌, ◌&&◌, false, u32_mod, arith, ltb, leb, lookup,
}
use one_base.Buffer.Replacer.Valid.{new-IsValid as new_replacer-IsValid}
use one_base.Buffer.Pool.{Disk, frames_from, new}
use one_base.Buffer.Pool.Valid.{contains, NoRepeat, IsValid}
use one_base.Buffer.Pool.View.{IsSynced}

contains-frames_from :
    (i n g : ℕ) → i + n ≤ 2147483648 → contains (frames_from i n) g ≡ (leb i g && ltb g (i + n))
unfolding contains frames_from
contains-frames_from i zero g h = ground arith
contains-frames_from i (suc n) g h =
    let same : i % u32_mod ≡ i = omega (arith, h) in
    rw (frames_from, contains, same)
      (ground (arith, contains-frames_from (i + 1) n g (omega (arith, h))))

frames_from-NoRepeat : (i n : ℕ) → i + n ≤ 2147483648 → NoRepeat (frames_from i n)
unfolding frames_from
frames_from-NoRepeat i zero h = tt
frames_from-NoRepeat i (suc n) h =
    let same : i % u32_mod ≡ i = omega (arith, h) in
    let rest : i + 1 + n ≤ 2147483648 = omega (arith, h) in
    (
      rw same (ground (arith, contains-frames_from (i + 1) n i rest)),
      frames_from-NoRepeat (i + 1) n rest,
    )

module _ {ℓ} {A : Type ℓ} (zeroed : A) (pool_size replacer_k : ℕ) (disk : Disk A) where
  -- A new pool over a disk with page ids left is valid, if it asks the replacer for at least one
  -- access and has no more frames than there are frame ids, and synced, if the stream is good.
  pub new-IsValid :
      0 < replacer_k
      → pool_size ≤ 2147483648
      → disk.next_page_id < 2147483648
      → IsValid (new zeroed pool_size replacer_k disk)
        × (disk.failed ≡ false → IsSynced (new zeroed pool_size replacer_k disk))
  unfolding new lookup
  new-IsValid positive small ids = (
    record {
      small = small;
      ids = ids;
      replacer_valid = new_replacer-IsValid pool_size replacer_k positive;
      distinct = tt;
      no_repeat = frames_from-NoRepeat 0 pool_size (omega (arith, small));
      few_pins = λ g. omega arith;
      free = λ g h. ground (arith, contains-frames_from 0 pool_size g (omega (arith, small)));
      held = λ g lt h.
          absurd (ground (arith, contains-frames_from 0 pool_size g (omega (arith, small))));
      mapped = λ i g h. absurd (cc);
      entered = λ g e h. absurd (cc);
    },
    λ good. record { good = good; clean = λ i g h. absurd (cc) },
  )
