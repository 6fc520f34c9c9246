-- ===== src/Buffer/Guard/Balance.antt =====
-- Every pin that a guard takes over is given back once.
use one_base.Base.{
  ℕ, zero, suc, ◌+◌, ◌≤◌, ◌<◌, ◌≡◌, inl, inr, refl, sym, ap, ◌∙◌, Bool, true, false, Option, none,
  some, List, [], ◌∷◌, ◌++◌, arith, ◌==◌, if◌then◌else◌, update, Bool-cases, Option-cases, ==→eq,
  ==-self,
}
use one_base.Buffer.Guard.{
  Kind, basic, read, write, Call, unpin, Guard, Guards, latches, construct, releases, drop,
  move_construct, move_assign, get_data_mut,
}

-- 1 for a guard that owns a pin of the page.
abbrev pub owns : ℕ → Guard → ℕ
owns id g = elim g.page [ none ↦ 0 | some page_id ↦ if page_id == id then 1 else 0 ]

-- How many of the guards with names below `n` own a pin of the page.
abbrev pub held : ℕ → ℕ → (ℕ → Guard) → ℕ
held id zero guard = 0
held id (suc n) guard = owns id (guard n) + held id n guard

-- How often the page was unpinned.
abbrev pub unpins : ℕ → List Call → ℕ
unpins id [] = 0
unpins id (unpin page_id is_dirty ∷ calls) = (if page_id == id then 1 else 0) + unpins id calls
unpins id (_ ∷ calls) = unpins id calls

held_beyond :
    (id n g : ℕ) (guard : ℕ → Guard) (x : Guard)
    → n ≤ g
    → held id n (update guard g x) ≡ held id n guard
held_beyond id zero g guard x h = refl
held_beyond id (suc n) g guard x h =
    ground (arith, held_beyond id n g guard x (omega (arith, h)), h)

-- One guard replaced by another.
held-update :
    (id n g : ℕ) (guard : ℕ → Guard) (x : Guard)
    → g < n
    → held id n (update guard g x) + owns id (guard g) ≡ held id n guard + owns id x
held-update id zero g guard x h = absurd (omega (arith, h))
held-update id (suc n) g guard x h = elim (Bool-cases (g == n)) [
  | inl e ↦
      let same : g ≡ n = ==→eq g n e in
      let new : owns id (update guard g x n) ≡ owns id x = rw (e) refl in
      let old : owns id (guard g) ≡ owns id (guard n) = ap (λ j. owns id (guard j)) same in
      let rest = held_beyond id n g guard x (omega (arith, same)) in omega (arith, new, old, rest)
  | inr e ↦
      let other : owns id (update guard g x n) ≡ owns id (guard n) = rw (e) refl in
      let less : g < n = ground (arith, e, h) in
      let rest = held-update id n g guard x less in omega (arith, other, rest)
]

unpins-latches :
    (id : ℕ) (kind : Kind) (page : Option ℕ) (calls : List Call)
    → unpins id (latches kind page ++ calls) ≡ unpins id calls
unpins-latches id basic page calls = refl
unpins-latches id read none calls = refl
unpins-latches id read (some page_id) calls = refl
unpins-latches id write none calls = refl
unpins-latches id write (some page_id) calls = refl

unpins-releases :
    (id : ℕ) (kind : Kind) (is_dirty : Bool) (page_id : ℕ) (calls : List Call)
    → unpins id (releases kind is_dirty page_id ++ calls)
      ≡ (if page_id == id then 1 else 0) + unpins id calls
unpins-releases id basic is_dirty page_id calls = refl
unpins-releases id read is_dirty page_id calls = refl
unpins-releases id write is_dirty page_id calls = refl

-- The pins of a page that are held, and those that were given back.
abbrev pub pins : ℕ → ℕ → Guards → ℕ
pins id n s = unpins id s.calls + held id n s.guard

-- A constructor on an unused name takes over the pins that come with the page.
construct-pins :
    (id n g : ℕ) (s : Guards) (kind : Kind) (page : Option ℕ)
    → g < n
    → (s.guard g).page ≡ none
    → pins id n (construct s g kind page)
      ≡ pins id n s + owns id (record { kind = kind; page = page; is_dirty = false })
unfolding construct
construct-pins id n g s kind page h unused =
    let calls = unpins-latches id kind page s.calls in
    let old : owns id (s.guard g) ≡ 0 = rw (unused) refl in
    let moved =
      held-update id n g s.guard (record { kind = kind; page = page; is_dirty = false }) h in
    omega (arith, calls, old, moved)

drop-pins : (id n g : ℕ) (s : Guards) → g < n → pins id n (drop s g) ≡ pins id n s
unfolding drop
drop-pins id n g s h = elim (Option-cases (s.guard g).page) [
  | inl unused ↦ rw (drop, unused) refl
  | inr (page_id, e) ↦
      let empty : Guard = record { kind = (s.guard g).kind; page = none; is_dirty = false } in
      let calls = unpins-releases id (s.guard g).kind (s.guard g).is_dirty page_id s.calls in
      let old : owns id (s.guard g) ≡ (if page_id == id then 1 else 0) = rw (e) refl in
      let moved = held-update id n g s.guard empty h in
      rw (drop, e) (omega (arith, calls, old, moved))
]

move_construct-pins :
    (id n g that : ℕ) (s : Guards)
    → g < n
    → that < n
    → (g == that) ≡ false
    → (s.guard g).page ≡ none
    → pins id n (move_construct s g that) ≡ pins id n s
unfolding move_construct
move_construct-pins id n g that s h k apart unused =
    let old : owns id (s.guard g) ≡ 0 = rw (unused) refl in
    let first = held-update id n g s.guard (s.guard that) h in
    let source : owns id (update s.guard g (s.guard that) that) ≡ owns id (s.guard that) =
      rw (apart) refl in
    let second =
      held-update id n that (update s.guard g (s.guard that))
        (record (s.guard that) { page = none }) k in
    omega (arith, old, first, source, second)

drop_empties : (s : Guards) (g : ℕ) → ((drop s g).guard g).page ≡ none
unfolding drop
drop_empties s g = elim (Option-cases (s.guard g).page) [
  | inl unused ↦ rw (drop, unused) unused
  | inr (page_id, e) ↦ rw (drop, e, ==-self g) refl
]

move_assign-pins :
    (id n g that : ℕ) (s : Guards)
    → g < n
    → that < n
    → pins id n (move_assign s g that) ≡ pins id n s
unfolding move_assign
move_assign-pins id n g that s h k = elim (Bool-cases (g == that)) [
  | inl same ↦ rw (move_assign, same) refl
  | inr apart ↦
      rw (move_assign, apart)
        (move_construct-pins id n g that (drop s g) h k apart (drop_empties s g)
          ∙ drop-pins id n g s h)
]

get_data_mut-pins : (id n g : ℕ) (s : Guards) → g < n → pins id n (get_data_mut s g) ≡ pins id n s
unfolding get_data_mut
get_data_mut-pins id n g s h =
    let moved = held-update id n g s.guard (record (s.guard g) { is_dirty = true }) h in
    omega (arith, moved)

-- The states that the methods of guards with names below `n` reach from guards without pages, with
-- the pages that the constructors were handed.
pub data Run (n : ℕ) : List (Option ℕ) → Guards → Type 0 where
  started : (s : Guards) → ((g : ℕ) → (s.guard g).page ≡ none) → s.calls ≡ [] → Run n [] s
  constructed :
      {pages : List (Option ℕ)} {s : Guards} (g : ℕ) (kind : Kind) (page : Option ℕ)
      → g < n
      → (s.guard g).page ≡ none
      → Run n pages s
      → Run n (page ∷ pages) (construct s g kind page)
  dropped :
      {pages : List (Option ℕ)} {s : Guards} (g : ℕ)
      → g < n
      → Run n pages s
      → Run n pages (drop s g)
  move_constructed :
      {pages : List (Option ℕ)} {s : Guards} (g that : ℕ)
      → g < n
      → that < n
      → (g == that) ≡ false
      → (s.guard g).page ≡ none
      → Run n pages s
      → Run n pages (move_construct s g that)
  move_assigned :
      {pages : List (Option ℕ)} {s : Guards} (g that : ℕ)
      → g < n
      → that < n
      → Run n pages s
      → Run n pages (move_assign s g that)
  marked :
      {pages : List (Option ℕ)} {s : Guards} (g : ℕ)
      → g < n
      → Run n pages s
      → Run n pages (get_data_mut s g)

-- How often constructors were handed the page.
abbrev pub handed : ℕ → List (Option ℕ) → ℕ
handed id [] = 0
handed id (none ∷ pages) = handed id pages
handed id (some page_id ∷ pages) = (if page_id == id then 1 else 0) + handed id pages

handed-cons :
    (id : ℕ) (kind : Kind) (page : Option ℕ) (pages : List (Option ℕ))
    → handed id (page ∷ pages)
      ≡ handed id pages + owns id (record { kind = kind; page = page; is_dirty = false })
handed-cons id kind none pages = omega arith
handed-cons id kind (some page_id) pages = omega arith

held_none : (id n : ℕ) (guard : ℕ → Guard) → ((g : ℕ) → (guard g).page ≡ none) → held id n guard ≡ 0
held_none id zero guard none_left = refl
held_none id (suc n) guard none_left =
    let this : owns id (guard n) ≡ 0 = rw (none_left n) refl in
    let rest = held_none id n guard none_left in omega (arith, this, rest)

-- In every run of constructors, moves, assignments and drops of guards, the times that a page was
-- unpinned and the guards that still own a pin of it are together the times that a constructor was
-- handed the page: no pin is given back twice, and none is lost.
pub Run-balanced :
    (n id : ℕ) (pages : List (Option ℕ)) (s : Guards)
    → Run n pages s
    → unpins id s.calls + held id n s.guard ≡ handed id pages
Run-balanced n id pages s (started _ none_left no_calls) =
    let empty = held_none id n s.guard none_left in
    let calls : unpins id s.calls ≡ 0 = ap (λ c. unpins id c) no_calls in
    omega (arith, empty, calls)
Run-balanced n id pages s (constructed {pages = ps} {s = t} g kind page h unused run) =
    construct-pins id n g t kind page h unused
    ∙ (λ i.
        Run-balanced n id ps t run i
        + owns id (record { kind = kind; page = page; is_dirty = false }))
    ∙ sym (handed-cons id kind page ps)
Run-balanced n id pages s (dropped {s = t} g h run) =
    drop-pins id n g t h ∙ Run-balanced n id pages t run
Run-balanced n id pages s (move_constructed {s = t} g that h k apart unused run) =
    move_construct-pins id n g that t h k apart unused ∙ Run-balanced n id pages t run
Run-balanced n id pages s (move_assigned {s = t} g that h k run) =
    move_assign-pins id n g that t h k ∙ Run-balanced n id pages t run
Run-balanced n id pages s (marked {s = t} g h run) =
    get_data_mut-pins id n g t h ∙ Run-balanced n id pages t run
