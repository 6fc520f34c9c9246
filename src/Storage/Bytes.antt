-- ===== src/Storage/Bytes.antt =====
-- Memory as a function from addresses to bytes, with little-endian words and runs of bytes in it.
use one_base.Base.{
  ℕ, ◌+◌, ◌*◌, ◌/◌, ◌%◌, ◌≤◌, ◌<◌, ◌≡◌, ◌⊎◌, inl, inr, refl, ◌∙◌, List, [], ◌∷◌, arith, update,
  length,
}
use one_base.Storage.Slots.{run}

unfoldable pub read_u16 : (ℕ → ℕ) → ℕ → ℕ
read_u16 d at = d at + 256 * d (at + 1)

unfoldable pub write_u16 : (ℕ → ℕ) → ℕ → ℕ → (ℕ → ℕ)
write_u16 d at v = update (update d at (v % 256)) (at + 1) (v / 256 % 256)

unfoldable pub read_u32 : (ℕ → ℕ) → ℕ → ℕ
unfolding read_u16
read_u32 d at = read_u16 d at + 65536 * read_u16 d (at + 2)

unfoldable pub write_u32 : (ℕ → ℕ) → ℕ → ℕ → (ℕ → ℕ)
unfolding write_u16
write_u32 d at v = write_u16 (write_u16 d at (v % 65536)) (at + 2) (v / 65536)

-- `memcpy` of the bytes to `at`.
unfoldable pub write_bytes : (ℕ → ℕ) → ℕ → List ℕ → (ℕ → ℕ)
write_bytes d at [] = d
write_bytes d at (b ∷ bs) = write_bytes (update d at b) (at + 1) bs

pub read-write_u16 : (d : ℕ → ℕ) (at v : ℕ) → v < 65536 → read_u16 (write_u16 d at v) at ≡ v
unfolding read_u16 write_u16
read-write_u16 d at v h = ground arith

pub write_u16_other : (d : ℕ → ℕ) (at v j : ℕ) → (j < at) ⊎ (at + 2 ≤ j) → write_u16 d at v j ≡ d j
unfolding write_u16
write_u16_other d at v j (inl h) = ground arith
write_u16_other d at v j (inr h) = ground arith

pub read_u16-ext :
    (d e : ℕ → ℕ) (at : ℕ) → d at ≡ e at → d (at + 1) ≡ e (at + 1) → read_u16 d at ≡ read_u16 e at
unfolding read_u16
read_u16-ext d e at h k = λ t. h t + 256 * k t

pub read_u32-ext :
    (d e : ℕ → ℕ) (at : ℕ)
    → ((i : ℕ) → at ≤ i → i < at + 4 → d i ≡ e i)
    → read_u32 d at ≡ read_u32 e at
unfolding read_u32
read_u32-ext d e at h =
    let low : read_u16 d at ≡ read_u16 e at =
      read_u16-ext d e at (h at (omega arith) (omega arith))
        (h (at + 1) (omega arith) (omega arith)) in
    let high : read_u16 d (at + 2) ≡ read_u16 e (at + 2) =
      read_u16-ext d e (at + 2) (h (at + 2) (omega arith) (omega arith))
        (h (at + 2 + 1) (omega arith) (omega arith)) in
    λ t. low t + 65536 * high t

pub write_u32_other : (d : ℕ → ℕ) (at v j : ℕ) → (j < at) ⊎ (at + 4 ≤ j) → write_u32 d at v j ≡ d j
unfolding write_u32
write_u32_other d at v j (inl h) =
    write_u16_other (write_u16 d at (v % 65536)) (at + 2) (v / 65536) j (inl (omega (arith, h)))
    ∙ write_u16_other d at (v % 65536) j (inl h)
write_u32_other d at v j (inr h) =
    write_u16_other (write_u16 d at (v % 65536)) (at + 2) (v / 65536) j (inr (omega (arith, h)))
    ∙ write_u16_other d at (v % 65536) j (inr (omega (arith, h)))

pub read-write_u32 : (d : ℕ → ℕ) (at v : ℕ) → v < 4294967296 → read_u32 (write_u32 d at v) at ≡ v
unfolding read_u32 write_u32
read-write_u32 d at v h =
    let first : ℕ → ℕ = write_u16 d at (v % 65536) in
    let low : read_u16 (write_u16 first (at + 2) (v / 65536)) at ≡ v % 65536 =
      read_u16-ext (write_u16 first (at + 2) (v / 65536)) first at
        (write_u16_other first (at + 2) (v / 65536) at (inl (omega arith)))
        (write_u16_other first (at + 2) (v / 65536) (at + 1) (inl (omega arith)))
      ∙ read-write_u16 d at (v % 65536) (omega arith) in
    let high : read_u16 (write_u16 first (at + 2) (v / 65536)) (at + 2) ≡ v / 65536 =
      read-write_u16 first (at + 2) (v / 65536) (omega (arith, h)) in
    omega (arith, low, high)

pub write_bytes_other :
    (d : ℕ → ℕ) (at : ℕ) (bs : List ℕ) (j : ℕ)
    → (j < at) ⊎ (at + length bs ≤ j)
    → write_bytes d at bs j ≡ d j
unfolding write_bytes
write_bytes_other d at [] j h = refl
write_bytes_other d at (b ∷ bs) j (inl h) =
    ground (arith, write_bytes_other (update d at b) (at + 1) bs j (inl (omega (arith, h))), h)
write_bytes_other d at (b ∷ bs) j (inr h) =
    ground (arith, write_bytes_other (update d at b) (at + 1) bs j (inr (omega (arith, h))), h)

-- The bytes copied to an address are read there.
pub read-write_bytes :
    (d : ℕ → ℕ) (at : ℕ) (bs : List ℕ) → run at (length bs) (write_bytes d at bs) ≡ bs
unfolding run write_bytes
read-write_bytes d at [] = refl
read-write_bytes d at (b ∷ bs) =
    let first : write_bytes (update d at b) (at + 1) bs at ≡ b =
      write_bytes_other (update d at b) (at + 1) bs at (inl (omega arith)) ∙ ground arith in
    let rest : run (at + 1) (length bs) (write_bytes (update d at b) (at + 1) bs) ≡ bs =
      read-write_bytes (update d at b) (at + 1) bs in
    λ t. first t ∷ rest t
