-- ===== src/Tuples/Layout.antt =====
-- The bytes of a tuple: every value of the constructor's list can be read back at the place that
-- the values before it leave.
use one_base.Base.{
  ℕ, suc, zero, ◌+◌, ◌≤◌, ◌<◌, ◌≡◌, inl, refl, sym, ap, subst, ◌∙◌, true, false, some, List, [],
  ◌∷◌, arith, length, All, get_elem?, get_elem?-nil, get_elem?-zero, get_elem?-suc,
}
use one_base.Storage.Slots.{run, run-ext}
use one_base.Storage.Bytes.{read_u32, read_u32-ext}
use one_base.Values.{
  varchar, Value, varchar_value, ok, thrown, undefined, serialized_size, serialize_to,
  deserialize_from,
}
use one_base.Values.Binary.{
  IsStored, stored_boolean, stored_integer, stored_float, stored_varchar, serialize_to-Written,
}
use one_base.Tuples.{Bytes, resize, append_value, append_values, new_tuple, Tuple, no_rid}

-- The bytes that a value takes.
abbrev pub footprint : Value → ℕ
footprint v = elim (serialized_size v) [ ok n ↦ n | thrown e ↦ 0 | undefined ↦ 0 ]

-- Where the value at an index starts.
abbrev pub position : List Value → ℕ → ℕ
position [] i = 0
position (v ∷ vs) zero = 0
position (v ∷ vs) (suc i) = footprint v + position vs i

abbrev pub total : List Value → ℕ
total [] = 0
total (v ∷ vs) = footprint v + total vs

pub footprint-size : (v : Value) {n : ℕ} → serialized_size v ≡ ok n → footprint v ≡ n
footprint-size v h = rw (footprint, h) refl

length-run : {A : Type 0} (from n : ℕ) (a : ℕ → A) → length (run from n a) ≡ n
unfolding run
length-run from zero a = refl
length-run from (suc n) a = λ i. suc (length-run (from + 1) n a i)

-- What is read at an address depends on the bytes of the value alone.
module _ (m other : ℕ → ℕ) (at : ℕ) where
  reads-word : ((j : ℕ) → at ≤ j → j < at + 4 → m j ≡ other j) → read_u32 m at ≡ read_u32 other at
  reads-word same = read_u32-ext m other at same

  reads-varchar :
      (s : List ℕ)
      → deserialize_from m at varchar ≡ ok (varchar_value s)
      → ((j : ℕ) → at ≤ j → j < at + (4 + length s) → m j ≡ other j)
      → deserialize_from other at varchar ≡ ok (varchar_value s)
  unfolding deserialize_from
  reads-varchar s h same =
      let text : run (at + 4) (read_u32 m at) m ≡ s = cc in
      let len : read_u32 m at ≡ length s =
        sym (length-run (at + 4) (read_u32 m at) m) ∙ (λ i. length (text i)) in
      let word = reads-word (λ j h k. same j h (omega (arith, k))) in
      let moved : run (at + 4) (read_u32 m at) other ≡ run (at + 4) (read_u32 m at) m =
        run-ext (at + 4) (at + 4) (read_u32 m at) other m
          (λ j k. sym (same (at + 4 + j) (omega arith) (omega (arith, k, len)))) in
      (λ i. ok (varchar_value (run (at + 4) (sym word i) other)))
      ∙ (λ i. ok (varchar_value ((moved ∙ text) i)))

  -- Where the bytes of a value agree, it is read from both.
  reads-same :
      (v : Value)
      → IsStored v
      → deserialize_from m at v.type_id ≡ ok v
      → ((j : ℕ) → at ≤ j → j < at + footprint v → m j ≡ other j)
      → deserialize_from other at v.type_id ≡ ok v
  unfolding deserialize_from serialized_size
  reads-same v (stored_boolean true) h same =
      let first : m at ≡ other at = same at (omega arith) (omega arith) in rw (sym first) h
  reads-same v (stored_boolean false) h same =
      let first : m at ≡ other at = same at (omega arith) (omega arith) in rw (sym first) h
  reads-same v (stored_integer w bound) h same = rw (sym (reads-word same)) h
  reads-same v (stored_float w bound) h same = rw (sym (reads-word same)) h
  reads-same v (stored_varchar s bound) h same =
      reads-varchar s h (λ j k l. same j k (omega (arith, l, bound)))

-- Every value of a list can be read at its place behind `start`.
abbrev Readable : (ℕ → ℕ) → ℕ → List Value → Type 0
Readable m start vs =
    (i : ℕ) (v : Value)
    → get_elem? vs i ≡ some v
    → deserialize_from m (start + position vs i) v.type_id ≡ ok v

-- The values are appended to the bytes: those before stay, and every value can be read at its
-- place.
record Appended (d : Bytes) (vs : List Value) : Type 0 where
  after : Bytes
  returned : append_values d vs ≡ ok after
  sized : after.size ≡ d.size + total vs
  kept : (j : ℕ) → j < d.size → after.byte j ≡ d.byte j
  readable : Readable after.byte d.size vs

append_value-ok :
    (d : Bytes) (v : Value) (n : ℕ) (after : ℕ → ℕ)
    → serialized_size v ≡ ok n
    → serialize_to v (resize d (d.size + n)).byte d.size ≡ ok after
    → append_value d v ≡ ok (record { size = d.size + n; byte = after })
unfolding append_value
append_value-ok d v n after sized returned = rw (append_value, sized, returned) refl

append_values-nil : (d : Bytes) → append_values d [] ≡ ok d
unfolding append_values
append_values-nil d = refl

append_values-next :
    (d e : Bytes) (v : Value) (vs : List Value)
    → append_value d v ≡ ok e
    → append_values d (v ∷ vs) ≡ append_values e vs
unfolding append_values
append_values-next d e v vs h = rw (append_values, h) refl

Readable-cons :
    (m : ℕ → ℕ) (start : ℕ) (v : Value) (vs : List Value)
    → deserialize_from m start v.type_id ≡ ok v
    → Readable m (start + footprint v) vs
    → Readable m start (v ∷ vs)
Readable-cons m start v vs first rest zero u e =
    let same : v ≡ u = get_elem?-zero vs e in
    let place : start + 0 ≡ start = omega arith in
    (λ t. deserialize_from m (place t) u.type_id)
    ∙ subst (λ x. deserialize_from m start x.type_id ≡ ok x) same first
Readable-cons m start v vs first rest (suc i) u e =
    let place : start + (footprint v + position vs i) ≡ start + footprint v + position vs i =
      omega arith in
    (λ t. deserialize_from m (place t) u.type_id) ∙ rest i u (sym (get_elem?-suc v vs i) ∙ e)

append_values-Appended : (d : Bytes) (vs : List Value) → All IsStored vs → Appended d vs
append_values-Appended d [] stored = record {
  after = d;
  returned = append_values-nil d;
  sized = omega arith;
  kept = λ j h. refl;
  readable = λ i v e. absurd (get_elem?-nil i e);
}
append_values-Appended d (v ∷ vs) (first, stored) =
    let n = footprint v in
    let w = serialize_to-Written v first (resize d (d.size + n)).byte d.size in
    let size_n : w.size ≡ n = sym (footprint-size v w.sized) in
    let e : Bytes = record { size = d.size + n; byte = w.after } in
    let rest = append_values-Appended e vs stored in
    let sized = rest.sized in
    record {
      after = rest.after;
      returned =
          append_values-next d e v vs
            (append_value-ok d v n w.after (w.sized ∙ ap ok size_n) w.returned)
          ∙ rest.returned;
      sized = omega (arith, sized);
      kept = λ j h. rest.kept j (omega (arith, h)) ∙ w.untouched j (inl h) ∙ ground (arith, h);
      readable =
          Readable-cons rest.after.byte d.size v vs
            (reads-same w.after rest.after.byte d.size v first w.read_back
              (λ j h k. sym (rest.kept j k)))
            rest.readable;
    }

-- The tuple that the constructor makes of the values.
pub record Lays (vs : List Value) : Type 0 where
  pub tuple : Tuple
  pub returned : new_tuple vs ≡ ok tuple
  pub kept_values : tuple.values ≡ vs
  pub sized : tuple.contents.size ≡ total vs
  pub readable : Readable tuple.contents.byte 0 vs

new_tuple-ok :
    (vs : List Value) (d : Bytes)
    → append_values (record { size = 0; byte = λ _. 0 }) vs ≡ ok d
    → new_tuple vs ≡ ok (record { rid = no_rid; contents = d; values = vs })
unfolding new_tuple
new_tuple-ok vs d h = rw (new_tuple, h) refl

-- The constructor of a tuple does not throw on values that are not NULL and have a binary form; it
-- keeps the values, its bytes are as many as those of the values together, and every value can be
-- deserialized at the sum of the sizes of the values before it.
pub new_tuple-Lays : (vs : List Value) → All IsStored vs → Lays vs
new_tuple-Lays vs stored =
    let a = append_values-Appended (record { size = 0; byte = λ _. 0 }) vs stored in
    record {
      tuple = record { rid = no_rid; contents = a.after; values = vs };
      returned = new_tuple-ok vs a.after a.returned;
      kept_values = refl;
      sized = let sized = a.sized in omega (arith, sized);
      readable = a.readable;
    }
