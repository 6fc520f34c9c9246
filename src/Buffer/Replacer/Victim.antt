-- ===== src/Buffer/Replacer/Victim.antt =====
-- `Evict` picks the frame that the LRU-K policy names.
use one_base.Base.{
  ℕ, ◌+◌, ◌≤◌, ◌<◌, ◌≡◌, ◌≢◌, ◌↔◌, ◌⊎◌, refl, subst, inl, inr, true, false, Option, none, some,
  List, [], ◌∷◌, arith, ltb, ◌==◌, if◌then◌else◌, length, All, size_mod, lookup, erase, Distinct,
  lookup-erase, Option-cases, Bool-cases, All-lookup, sub_size,
}
use one_base.Buffer.Replacer.{
  FrameEntry, Replacer, Scan, invalid_frame_id, front, scan_entry, scan, scan_start, victim, evict,
}
use one_base.Buffer.Replacer.Valid.{
  EntryIsValid, IsValid, front-lt, count_evictable, count-le-length, erase-IsValid,
}

-- The policy: an entry with fewer than `k` accesses goes before any other, and otherwise the one
-- whose oldest recorded access, its k-th last, is the earlier.
abbrev pub Precedes : ℕ → FrameEntry → FrameEntry → Type 0
Precedes k e d =
    if ltb (length e.history) k
    then (if ltb (length d.history) k then front e.history ≤ front d.history else Unit {0})
    else (if ltb (length d.history) k then ⊥ else front e.history ≤ front d.history)

-- The frame that the loop holds after some entries, if it holds one.
abbrev Best : Type 0
Best = Option (ℕ × FrameEntry)

-- The loop's variables, as that frame determines them.
abbrev Holds : ℕ → ℕ → Best → Scan → Type 0
Holds k now none s =
    (s.victim_frame ≡ invalid_frame_id) × (s.found_inf_frame ≡ false) × (s.max_k_distance ≡ 0)
Holds k now (some (f, e)) s =
    (s.victim_frame ≡ f)
    × (if ltb (length e.history) k
        then (s.found_inf_frame ≡ true) × (s.earliest_first_access ≡ front e.history)
        else (s.found_inf_frame ≡ false)
          × (s.max_k_distance + front e.history ≡ now)
          × (front e.history < now))

-- `now` is not behind an entry: nothing evictable was seen, or what is held precedes it.
abbrev Covers : ℕ → Best → FrameEntry → Type 0
Covers k none d = d.is_evictable ≡ false
Covers k (some (f, e)) d = (d.is_evictable ≡ false) ⊎ Precedes k e d

-- What a step keeps if it does not take the new entry, and what it takes else.
abbrev better : ℕ → Best → ℕ → FrameEntry → Best
better k none f d = if d.is_evictable then some (f, d) else none
better k (some (g, e)) f d =
    if d.is_evictable
    then (if ltb (length d.history) k
        then (if ltb (length e.history) k
            then (if ltb (front d.history) (front e.history) then some (f, d) else some (g, e))
            else some (f, d))
        else (if ltb (length e.history) k
            then some (g, e)
            else (if ltb (front d.history) (front e.history) then some (f, d) else some (g, e))))
    else some (g, e)

scan_entry-Holds :
    (k now : ℕ) (b : Best) (f : ℕ) (d : FrameEntry) (s : Scan)
    → front d.history < now
    → now < size_mod
    → Holds k now b s
    → Holds k now (better k b f d) (scan_entry k now f d s)
unfolding scan_entry
scan_entry-Holds k now none f d s past small h = ground arith
scan_entry-Holds k now (some (g, e)) f d s past small h = ground arith

better-Covers : (k : ℕ) (b : Best) (f : ℕ) (d : FrameEntry) → Covers k (better k b f d) d
better-Covers k none f d = ground arith
better-Covers k (some (g, e)) f d = ground arith

better-keeps :
    (k : ℕ) (b : Best) (f : ℕ) (d x : FrameEntry) → Covers k b x → Covers k (better k b f d) x
better-keeps k none f d x h = ground arith
better-keeps k (some (g, e)) f d x h = ground arith

best : ℕ → Best → List (ℕ × FrameEntry) → Best
best k b [] = b
best k b ((f, d) ∷ es) = best k (better k b f d) es

scan-Holds :
    (k now : ℕ) (b : Best) (es : List (ℕ × FrameEntry)) (s : Scan)
    → now < size_mod
    → All (EntryIsValid k now) es
    → Holds k now b s
    → Holds k now (best k b es) (scan k now es s)
unfolding scan best
scan-Holds k now b [] s small a h = h
scan-Holds k now b ((f, d) ∷ es) s small a h =
    scan-Holds k now (better k b f d) es (scan_entry k now f d s) small a.1
      (scan_entry-Holds k now b f d s (front-lt now d.history a.0.rising) small h)

best-keeps :
    (k : ℕ) (b : Best) (es : List (ℕ × FrameEntry)) (x : FrameEntry)
    → Covers k b x
    → Covers k (best k b es) x
unfolding best
best-keeps k b [] x h = h
best-keeps k b ((f, d) ∷ es) x h = best-keeps k (better k b f d) es x (better-keeps k b f d x h)

best-Covers :
    (k : ℕ) (b : Best) (es : List (ℕ × FrameEntry)) (g : ℕ) {x : FrameEntry}
    → lookup g es ≡ some x
    → Covers k (best k b es) x
unfolding best lookup
best-Covers k b [] g h = cc
best-Covers k b ((f, d) ∷ es) g {x} h = elim (Bool-cases (f == g)) [
  | inl e ↦
      let shown : some d ≡ some x = rw e at h in
      let same : d ≡ x = cc in
      subst (λ (y : FrameEntry). Covers k (best k (better k b f d) es) y) same
        (best-keeps k (better k b f d) es d (better-Covers k b f d))
  | inr e ↦ best-Covers k (better k b f d) es g (rw e at h)
]

-- Where the frame that is held comes from.
abbrev Comes : Best → List (ℕ × FrameEntry) → ℕ → FrameEntry → Type 0
Comes b es f e = (b ≡ some (f, e)) ⊎ ((lookup f es ≡ some e) × (e.is_evictable ≡ true))

Comes-step :
    (k : ℕ) (b : Best) (g : ℕ) (d : FrameEntry) (es : List (ℕ × FrameEntry)) (f : ℕ)
    (e : FrameEntry)
    → lookup g es ≡ none
    → Comes (better k b g d) es f e
    → Comes b ((g, d) ∷ es) f e
unfolding lookup
Comes-step k none g d es f e new h = ground arith
Comes-step k (some (i, c)) g d es f e new h = ground arith

best-Comes :
    (k : ℕ) (b : Best) (es : List (ℕ × FrameEntry)) (f : ℕ) (e : FrameEntry)
    → Distinct es
    → best k b es ≡ some (f, e)
    → Comes b es f e
unfolding best
best-Comes k b [] f e d h = inl h
best-Comes k b ((g, x) ∷ es) f e d h =
    Comes-step k b g x es f e d.0 (best-Comes k (better k b g x) es f e d.1 h)

best-some : (k f : ℕ) (e : FrameEntry) (es : List (ℕ × FrameEntry)) → best k (some (f, e)) es ≢ none
unfolding best
best-some k f e [] h = cc
best-some k f e ((g, d) ∷ es) h = ground (arith, best-some k f e es, best-some k g d es)

best-none : (k : ℕ) (es : List (ℕ × FrameEntry)) → best k none es ≡ none → count_evictable es ≡ 0
unfolding best count_evictable
best-none k [] h = refl
best-none k ((g, d) ∷ es) h = ground (arith, best-none k es, best-some k g d es)

none-best : (k : ℕ) (es : List (ℕ × FrameEntry)) → count_evictable es ≡ 0 → best k none es ≡ none
unfolding best count_evictable
none-best k [] h = refl
none-best k ((g, d) ∷ es) h = ground (arith, none-best k es)

-- `Evict` does not move the clock.
pub evict-timestamp : (r : Replacer) → (evict r).0.current_timestamp ≡ r.current_timestamp
unfolding evict
evict-timestamp r = ground arith

-- A refusal changes nothing.
pub evict_refused : (r : Replacer) → (evict r).1 ≡ none → (evict r).0 ≡ r
unfolding evict
evict_refused r h = ground arith

-- What `Evict` does when it finds a frame: it returns an evictable frame that the policy puts
-- before every evictable frame, forgets that frame, keeps every other entry, and counts one
-- evictable frame less.
abbrev pub EvictsPreferred : Replacer → Type 0
EvictsPreferred r =
    (f : ℕ) × (e : FrameEntry) × ((evict r).1 ≡ some f)
    × (lookup f r.entries ≡ some e)
    × (e.is_evictable ≡ true)
    × ((g : ℕ) (d : FrameEntry)
        → lookup g r.entries ≡ some d
        → d.is_evictable ≡ true
        → Precedes r.k e d)
    × ((g : ℕ) → lookup g (evict r).0.entries ≡ (if f == g then none else lookup g r.entries))
    × ((evict r).0.curr_size + 1 ≡ r.curr_size)

module _ (r : Replacer) (v : IsValid r) where
  held : Best
  held = best r.k none r.entries

  victim-Holds :
      Holds r.k r.current_timestamp held
        (scan r.k r.current_timestamp r.entries (scan_start r.current_timestamp))
  unfolding held
  victim-Holds =
      scan-Holds r.k r.current_timestamp none r.entries (scan_start r.current_timestamp) v.in_range
        v.valid_entries (refl, refl, refl)

  victim-none : held ≡ none → victim r ≡ invalid_frame_id
  unfolding victim
  victim-none h = (rw h at victim-Holds).0

  victim-some : (f : ℕ) (e : FrameEntry) → held ≡ some (f, e) → victim r ≡ f
  unfolding victim
  victim-some f e h = (rw h at victim-Holds).0

  held_found :
      (f : ℕ) (e : FrameEntry)
      → held ≡ some (f, e)
      → (lookup f r.entries ≡ some e) × (e.is_evictable ≡ true)
  unfolding held
  held_found f e h = elim (best-Comes r.k none r.entries f e v.distinct h) [
    | inl bad ↦ absurd (cc)
    | inr found ↦ found
  ]

  -- `r` without the frame `f`.
  without : ℕ → Replacer
  without f = record r { entries = erase f r.entries; curr_size = sub_size r.curr_size 1 }

  evict-some :
      (f : ℕ) (e : FrameEntry)
      → held ≡ some (f, e)
      → 0 < r.curr_size
      → evict r ≡ (without f, some f)
  unfolding evict without
  evict-some f e h pos =
      let found = held_found f e h in
      let real =
        (All-lookup (EntryIsValid r.k r.current_timestamp) f r.entries v.valid_entries
          found.0).real in
      rw (victim-some f e h) (ground arith)

  held_pos : (f : ℕ) (e : FrameEntry) → held ≡ some (f, e) → 0 < r.curr_size
  unfolding held
  held_pos f e h = elim (Bool-cases (r.curr_size == 0)) [
    | inl z ↦
        let empty : count_evictable r.entries ≡ 0 = ground (arith, v.counted) in
        let nothing = none-best r.k r.entries empty in absurd (cc)
    | inr more ↦ ground arith
  ]

  held_zero : held ≡ none → r.curr_size ≡ 0
  unfolding held
  held_zero h = omega (arith, v.counted, best-none r.k r.entries h)

  evict_nothing : held ≡ none → evict r ≡ (r, none)
  unfolding evict
  evict_nothing h = ground (arith, held_zero h)

  -- On a valid replacer `Evict` answers `false` exactly when no frame is evictable.
  pub evict-none_iff : ((evict r).1 ≡ none) ↔ (count_evictable r.entries ≡ 0)
  evict-none_iff = elim (Option-cases held) [
    | inl h ↦ (λ _. omega (arith, v.counted, held_zero h), λ _. rw (evict_nothing h))
    | inr ((f, e), h) ↦
        let made = evict-some f e h (held_pos f e h) in
        (
          λ n. absurd (let bad : some f ≡ none = rw made at n in cc),
          λ z. absurd (omega (arith, v.counted, held_pos f e h)),
        )
  ]

  -- With an evictable frame, `Evict` on a valid replacer returns an evictable frame that the
  -- policy puts before every evictable frame, forgets that frame, keeps every other entry, and
  -- counts one evictable frame less.
  pub evict-Precedes : 0 < r.curr_size → EvictsPreferred r
  unfolding held without
  evict-Precedes pos = elim (Option-cases held) [
    | inl h ↦ absurd (omega (arith, held_zero h))
    | inr ((f, e), h) ↦
        let made = evict-some f e h pos in
        let found = held_found f e h in
        (
          f,
          e,
          rw made,
          found.0,
          found.1,
          λ g d is on. elim (rw h at (best-Covers r.k none r.entries g is)) [
            | inl off ↦ absurd (cc)
            | inr first ↦ first
          ],
          λ g. rw made (lookup-erase f g r.entries),
          rw made (omega (arith, v.counted, v.accessed, v.in_range, count-le-length r.entries)),
        )
  ]

  -- `Evict` keeps a valid replacer valid.
  pub evict-IsValid : IsValid (evict r).0
  unfolding without
  evict-IsValid = elim (Option-cases held) [
    | inl h ↦ rw (evict_nothing h) v
    | inr ((f, e), h) ↦
        let found = held_found f e h in
        let kept = erase-IsValid r f v e found.0 found.1 in
        rw (evict-some f e h (held_pos f e h)) (record {
          positive = kept.positive;
          in_range = kept.in_range;
          counted = kept.counted;
          accessed = kept.accessed;
          distinct = kept.distinct;
          valid_entries = kept.valid_entries;
        })
  ]
