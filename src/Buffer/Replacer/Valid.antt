-- ===== src/Buffer/Replacer/Valid.antt =====
-- What holds of a replacer between two calls, and that every method keeps it.
use one_base.Base.{
  ◌%◌, ℕ, ◌+◌, ◌≤◌, ◌<◌, ◌≡◌, ◌≢◌, refl, subst, inl, inr, Bool, true, false, Option, none, some,
  List, [], ◌∷◌, ◌++◌, arith, length, length-append, All, size_mod, sub_size, lookup, insert, erase,
  Distinct, Distinct-insert, Distinct-erase, length-insert-le, length-insert_old, length-erase-le,
  All-lookup, All-insert, All-erase, Option-cases, Bool-cases,
}
use one_base.Buffer.Replacer.{
  FrameEntry, Replacer, invalid_frame_id, new, front, pushed, entry_or_new, resized, record_access,
  set_evictable, remove,
}

abbrev pub flag_size : Option FrameEntry → ℕ
flag_size none = 0
flag_size (some e) = elim e.is_evictable [ true ↦ 1 | false ↦ 0 ]

-- How many frames can be evicted.
unfoldable pub count_evictable : List (ℕ × FrameEntry) → ℕ
count_evictable [] = 0
count_evictable ((f, e) ∷ es) = flag_size (some e) + count_evictable es

pub count-insert :
    (f : ℕ) (e : FrameEntry) (es : List (ℕ × FrameEntry))
    → count_evictable (insert f e es) + flag_size (lookup f es)
      ≡ count_evictable es + flag_size (some e)
unfolding count_evictable insert lookup
count-insert f e [] = omega arith
count-insert f e ((g, d) ∷ es) = ground (arith, count-insert f e es)

pub count-erase :
    (f : ℕ) (es : List (ℕ × FrameEntry))
    → Distinct es
    → count_evictable (erase f es) + flag_size (lookup f es) ≡ count_evictable es
unfolding count_evictable erase lookup
count-erase f [] d = omega arith
count-erase f ((g, e) ∷ es) d = ground (arith, count-erase f es d.1)

pub count-le-length : (es : List (ℕ × FrameEntry)) → count_evictable es ≤ length es
unfolding count_evictable
count-le-length [] = omega arith
count-le-length ((f, e) ∷ es) = ground (arith, count-le-length es)

-- With none evictable, no entry is.
pub count-zero :
    (f : ℕ) (e : FrameEntry) (es : List (ℕ × FrameEntry))
    → count_evictable es ≡ 0
    → lookup f es ≡ some e
    → e.is_evictable ≡ false
unfolding count_evictable lookup
count-zero f e [] z h = cc
count-zero f e ((g, d) ∷ es) z h = ground (arith, count-zero f e es)

-- The accesses of a history: at least one, the earliest first, all before `now`.
abbrev pub IsRising : ℕ → List ℕ → Type 0
IsRising now [] = ⊥
IsRising now (t ∷ []) = t < now
IsRising now (t ∷ u ∷ ts) = (t < u) × IsRising now (u ∷ ts)

pub front-lt : (now : ℕ) (ts : List ℕ) → IsRising now ts → front ts < now
front-lt now [] h = elim h [ ]
front-lt now (t ∷ []) h = h
front-lt now (t ∷ u ∷ ts) h = omega (arith, front-lt now (u ∷ ts) h.1)

IsRising-le : (now later : ℕ) (ts : List ℕ) → now ≤ later → IsRising now ts → IsRising later ts
IsRising-le now later [] le h = elim h [ ]
IsRising-le now later (t ∷ []) le h = omega arith
IsRising-le now later (t ∷ u ∷ ts) le h = (h.0, IsRising-le now later (u ∷ ts) le h.1)

IsRising-append : (now : ℕ) (ts : List ℕ) → IsRising now ts → IsRising (now + 1) (ts ++ (now ∷ []))
IsRising-append now [] h = elim h [ ]
IsRising-append now (t ∷ []) h = (h, omega arith)
IsRising-append now (t ∷ u ∷ ts) h = (h.0, IsRising-append now (u ∷ ts) h.1)

-- What holds of the entry of a frame.
pub record EntryIsValid (k now : ℕ) (x : ℕ × FrameEntry) : Type 0 where
  pub real : x.0 ≢ invalid_frame_id
  pub bounded : length (x.1.history) ≤ k
  pub rising : IsRising now (x.1.history)

pub record IsValid (r : Replacer) : Type 0 where
  pub positive : 0 < r.k
  pub in_range : r.current_timestamp < size_mod
  pub counted : r.curr_size ≡ count_evictable r.entries
  pub accessed : length r.entries ≤ r.current_timestamp
  pub distinct : Distinct r.entries
  pub valid_entries : All (EntryIsValid r.k r.current_timestamp) r.entries

-- A new replacer is valid.
pub new-IsValid : (num_frames k : ℕ) → 0 < k → IsValid (new num_frames k)
unfolding new count_evictable
new-IsValid num_frames k h = ground arith

pushed-IsRising :
    (k now : ℕ) (ts : List ℕ) → 0 < k → IsRising now ts → IsRising (now + 1) (pushed k now ts)
unfolding pushed
pushed-IsRising k now [] pos h = elim h [ ]
pushed-IsRising k now (t ∷ []) pos h = ground arith
pushed-IsRising k now (t ∷ u ∷ ts) pos h =
    ground (arith, IsRising-append now (t ∷ u ∷ ts) h, IsRising-append now (u ∷ ts) h.1)

length-pushed-le : (k now : ℕ) (ts : List ℕ) → 0 < k → length ts ≤ k → length (pushed k now ts) ≤ k
unfolding pushed
length-pushed-le k now [] pos h = ground arith
length-pushed-le k now (t ∷ ts) pos h = ground (arith, length-append ts (now ∷ []))

All-EntryIsValid-le :
    (k now later : ℕ) (es : List (ℕ × FrameEntry))
    → now ≤ later
    → All (EntryIsValid k now) es
    → All (EntryIsValid k later) es
All-EntryIsValid-le k now later [] le a = tt
All-EntryIsValid-le k now later ((f, e) ∷ es) le a = (
  record {
    real = a.0.real;
    bounded = a.0.bounded;
    rising = IsRising-le now later e.history le a.0.rising;
  },
  All-EntryIsValid-le k now later es le a.1,
)

module _ (r : Replacer) (f : ℕ) (v : IsValid r) where
  accessed_entry :
      f ≢ invalid_frame_id
      → (o : Option FrameEntry) → lookup f r.entries ≡ o
      → EntryIsValid r.k (r.current_timestamp + 1) (
        f,
        record (entry_or_new o) {
          history = pushed r.k r.current_timestamp (entry_or_new o).history;
        },
      )
  unfolding pushed
  accessed_entry real none e = ground arith
  accessed_entry real (some d) e =
      let old = All-lookup (EntryIsValid r.k r.current_timestamp) f r.entries v.valid_entries e in
      record {
        real = real;
        bounded = length-pushed-le r.k r.current_timestamp d.history v.positive old.bounded;
        rising = pushed-IsRising r.k r.current_timestamp d.history v.positive old.rising;
      }

  -- An access of a real frame keeps the replacer valid, until the clock would wrap.
  pub record_access-IsValid :
      f ≢ invalid_frame_id → r.current_timestamp + 1 < size_mod → IsValid (record_access r f)
  unfolding record_access
  record_access-IsValid real room =
      let later = r.current_timestamp + 1 in
      let ticked : later % size_mod ≡ later = omega arith in
      let entry = entry_or_new (lookup f r.entries) in
      let entry' : FrameEntry = record entry {
        history = pushed r.k r.current_timestamp entry.history;
      } in
      record {
        positive = v.positive;
        in_range = omega arith;
        counted = ground (arith, v.counted, count-insert f entry' r.entries);
        accessed = omega (arith, v.accessed, length-insert-le f entry' r.entries);
        distinct = Distinct-insert f entry' r.entries v.distinct;
        valid_entries = rw ticked (
            All-insert (EntryIsValid r.k later) f entry' r.entries
              (All-EntryIsValid-le r.k r.current_timestamp later r.entries (omega arith)
                v.valid_entries)
              (accessed_entry real (lookup f r.entries) refl));
      }

  flagged-IsValid :
      (flag : Bool) (e : FrameEntry)
      → lookup f r.entries ≡ some e
      → IsValid (record r {
        curr_size = resized r.curr_size e.is_evictable flag;
        entries = insert f (record e { is_evictable = flag }) r.entries;
      })
  flagged-IsValid flag e found =
      let e' : FrameEntry = record e { is_evictable = flag } in
      let old =
        All-lookup (EntryIsValid r.k r.current_timestamp) f r.entries v.valid_entries found in
      let counts = rw found at (count-insert f e' r.entries) in
      record {
        positive = v.positive;
        in_range = v.in_range;
        counted = ground (
          arith,
          counts,
          v.counted,
          v.accessed,
          v.in_range,
          count-le-length r.entries,
          count-le-length (insert f e' r.entries),
          length-insert_old f e' e r.entries found,
        );
        accessed = omega (arith, v.accessed, length-insert_old f e' e r.entries found);
        distinct = Distinct-insert f e' r.entries v.distinct;
        valid_entries =
            All-insert (EntryIsValid r.k r.current_timestamp) f e' r.entries v.valid_entries
              (record { real = old.real; bounded = old.bounded; rising = old.rising });
      }

  -- Setting a flag keeps the replacer valid.
  pub set_evictable-IsValid : (flag : Bool) → IsValid (set_evictable r f flag)
  unfolding set_evictable
  set_evictable-IsValid flag = elim (Option-cases (lookup f r.entries)) [
    | inl e ↦ rw (set_evictable, e) v
    | inr (d, e) ↦ rw (set_evictable, e) (flagged-IsValid flag d e)
  ]

  pub erase-IsValid :
      (e : FrameEntry)
      → lookup f r.entries ≡ some e
      → e.is_evictable ≡ true
      → IsValid (record r { curr_size = sub_size r.curr_size 1; entries = erase f r.entries })
  erase-IsValid e found flag =
      let counts = rw found at (count-erase f r.entries v.distinct) in
      record {
        positive = v.positive;
        in_range = v.in_range;
        counted =
            ground
              (arith, counts, flag, v.counted, v.accessed, v.in_range, count-le-length r.entries);
        accessed = omega (arith, v.accessed, length-erase-le f r.entries);
        distinct = Distinct-erase f r.entries v.distinct;
        valid_entries =
            All-erase (EntryIsValid r.k r.current_timestamp) f r.entries v.valid_entries;
      }

  -- Removing a frame keeps the replacer valid.
  pub remove-IsValid : {r' : Replacer} → remove r f ≡ some r' → IsValid r'
  unfolding remove
  remove-IsValid {r'} h = elim (Option-cases (lookup f r.entries)) [
    | inl e ↦
        let same : some r ≡ some r' = rw (remove, e) at h in
        let eq : r ≡ r' = cc in subst (λ (x : Replacer). IsValid x) eq v
    | inr (d, e) ↦ elim (Bool-cases d.is_evictable) [
      | inl on ↦
          let gone : Replacer = record r {
            curr_size = sub_size r.curr_size 1;
            entries = erase f r.entries;
          } in
          let same : some gone ≡ some r' = rw (remove, e, on) at h in
          let eq : gone ≡ r' = cc in subst (λ (x : Replacer). IsValid x) eq (erase-IsValid d e on)
      | inr off ↦ let none_some : none ≡ some r' = rw (remove, e, off) at h in absurd (cc)
    ]
  ]
