-- ===== src/Values/Binary.antt =====
-- The binary form of a `Value` reads back.
use one_base.Base.{
  ℕ, ◌+◌, ◌%◌, ◌≤◌, ◌<◌, ◌≡◌, ◌⊎◌, inl, inr, refl, ◌∙◌, Bool, true, false, List, [], ◌∷◌, arith,
  u32_mod, length, take, update,
}
use one_base.Storage.Slots.{run}
use one_base.Storage.Bytes.{
  read_u32, write_u32, write_bytes, read-write_u32, read-write_bytes, write_bytes_other,
  write_u32_other, read_u32-ext,
}
use one_base.Values.{
  integer, float, Value, ok, boolean_value, word_value, varchar_value, serialize_to,
  deserialize_from, serialized_size,
}

-- A value as the constructors make it, not NULL, of a type that has a binary form.
pub data IsStored : Value → Type 0 where
  stored_boolean : (b : Bool) → IsStored (boolean_value b)
  stored_integer : (w : ℕ) → w < u32_mod → IsStored (word_value integer w)
  stored_float : (w : ℕ) → w < u32_mod → IsStored (word_value float w)
  stored_varchar : (s : List ℕ) → length s + 4 < u32_mod → IsStored (varchar_value s)

-- The value is written to the memory at `storage`, over the bytes of its serialized size alone, and
-- reads back there.
pub record Written (v : Value) (memory : ℕ → ℕ) (storage : ℕ) : Type 0 where
  pub size : ℕ
  pub after : ℕ → ℕ
  pub sized : serialized_size v ≡ ok size
  pub returned : serialize_to v memory storage ≡ ok after
  pub read_back : deserialize_from after storage v.type_id ≡ ok v
  pub untouched : (j : ℕ) → (j < storage) ⊎ (storage + size ≤ j) → after j ≡ memory j

take_all : (s : List ℕ) → take (length s) s ≡ s
unfolding take
take_all [] = refl
take_all (x ∷ xs) = λ i. x ∷ take_all xs i

-- The string of a VARCHAR behind its length.
module _ (s : List ℕ) (bound : length s + 4 < u32_mod) (memory : ℕ → ℕ) (storage : ℕ) where
  abbrev headed : ℕ → ℕ
  headed = write_u32 memory storage (length s)

  abbrev filled : ℕ → ℕ
  filled = write_bytes headed (storage + 4) s

  whole : length s % u32_mod ≡ length s
  whole = omega (arith, bound)

  length-filled : read_u32 filled storage ≡ length s
  length-filled =
      read_u32-ext filled headed storage
        (λ i h k. write_bytes_other headed (storage + 4) s i (inl (omega (arith, k))))
      ∙ read-write_u32 memory storage (length s) (omega (arith, bound))

  filled-other : (j : ℕ) → (j < storage) ⊎ (storage + (4 + length s) ≤ j) → filled j ≡ memory j
  filled-other j (inl h) =
      write_bytes_other headed (storage + 4) s j (inl (omega (arith, h)))
      ∙ write_u32_other memory storage (length s) j (inl h)
  filled-other j (inr h) =
      write_bytes_other headed (storage + 4) s j (inr (omega (arith, h)))
      ∙ write_u32_other memory storage (length s) j (inr (omega (arith, h)))

  varchar-Written : Written (varchar_value s) memory storage
  unfolding serialize_to deserialize_from serialized_size
  varchar-Written = record {
    size = 4 + length s;
    after = filled;
    sized =
        let e : (4 + length s % u32_mod) % u32_mod ≡ 4 + length s = omega (arith, bound) in
        λ i. ok (e i);
    returned =
        (λ i.
          ok (write_bytes (write_u32 memory storage (whole i)) (storage + 4) (take (whole i) s)))
        ∙ (λ i. ok (write_bytes headed (storage + 4) (take_all s i)));
    read_back =
        (λ i. ok (varchar_value (run (storage + 4) (length-filled i) filled)))
        ∙ (λ i. ok (varchar_value (read-write_bytes headed (storage + 4) s i)));
    untouched = filled-other;
  }

-- A value that is not NULL, with a Boolean, a 32-bit pattern or a string that `uint32_t` can count
-- with its header, is written over the bytes of its serialized size alone, and reads back there.
pub serialize_to-Written :
    (v : Value) → IsStored v → (memory : ℕ → ℕ) (storage : ℕ) → Written v memory storage
unfolding serialize_to deserialize_from serialized_size
serialize_to-Written v (stored_boolean true) memory storage = record {
  size = 1;
  after = update memory storage 1;
  sized = refl;
  returned = refl;
  read_back = ground arith;
  untouched = λ j h. ground arith;
}
serialize_to-Written v (stored_boolean false) memory storage = record {
  size = 1;
  after = update memory storage 0;
  sized = refl;
  returned = refl;
  read_back = ground arith;
  untouched = λ j h. ground arith;
}
serialize_to-Written v (stored_integer w bound) memory storage = record {
  size = 4;
  after = write_u32 memory storage w;
  sized = refl;
  returned = refl;
  read_back = λ i. ok (word_value integer (read-write_u32 memory storage w bound i));
  untouched = λ j h. write_u32_other memory storage w j h;
}
serialize_to-Written v (stored_float w bound) memory storage = record {
  size = 4;
  after = write_u32 memory storage w;
  sized = refl;
  returned = refl;
  read_back = λ i. ok (word_value float (read-write_u32 memory storage w bound i));
  untouched = λ j h. write_u32_other memory storage w j h;
}
serialize_to-Written v (stored_varchar s bound) memory storage =
    varchar-Written s bound memory storage
