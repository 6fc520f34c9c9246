-- ===== src/Storage/TableHeap/Chain.antt =====
-- The pages of a table heap as a list, and the places of its tuples in order.
use one_base.Base.{
  ℕ, zero, suc, ◌+◌, ◌-◌, ◌%◌, ◌≤◌, ◌<◌, ◌≡◌, ◌≢◌, ◌⊎◌, inl, inr, refl, ◌∙◌, none, some, List, [],
  ◌∷◌, ◌++◌, arith, ltb, if◌then◌else◌, u16_mod, length, Bool-cases,
}
use one_base.Rid.{Rid}
use one_base.Buffer.Pool.{invalid_page_id}
use one_base.Storage.TablePage.{get_next_page_id, get_num_tuples, get_length_at}
use one_base.Storage.TablePage.Insert.{IsValid, few_tuples}
use one_base.Storage.TableHeap.{end_rid, live_slot}

-- The pages that the links lead through from `page_id` on are those of the list, and all are
-- well-formed.
abbrev pub IsChain : (ℕ → ℕ → ℕ) → ℕ → ℕ → List ℕ → Type 0
IsChain content next page_id [] = page_id ≡ invalid_page_id
IsChain content next page_id (p ∷ ps) =
    (page_id ≡ p)
    × (p < next)
    × (p ≢ invalid_page_id)
    × IsValid (content p)
    × IsChain content next (get_next_page_id (content p)) ps

-- The places of the tuples in the `n` slots from `slot` on.
abbrev pub page_rids : (ℕ → ℕ) → ℕ → ℕ → ℕ → List Rid
page_rids d page_id slot zero = []
page_rids d page_id slot (suc n) =
    if ltb 0 (get_length_at d slot)
    then record { page_id = page_id; slot_num = slot } ∷ page_rids d page_id (slot + 1) n
    else page_rids d page_id (slot + 1) n

abbrev pub chain_rids : (ℕ → ℕ → ℕ) → List ℕ → List Rid
chain_rids content [] = []
chain_rids content (p ∷ ps) =
    page_rids (content p) p 0 (get_num_tuples (content p)) ++ chain_rids content ps

-- The places from a slot of the first page on.
abbrev pub rids_from : (ℕ → ℕ → ℕ) → ℕ → ℕ → List ℕ → List Rid
rids_from content page_id slot ps =
    page_rids (content page_id) page_id slot (get_num_tuples (content page_id) - slot)
    ++ chain_rids content ps

abbrev pub first_rid : List Rid → Rid
first_rid [] = end_rid
first_rid (r ∷ rs) = r

-- The first of the places in a run of slots, and those behind it.
pub record Splits (d : ℕ → ℕ) (page_id slot n : ℕ) (rs : List Rid) (found : ℕ) : Type 0 where
  pub within : found < slot + n
  pub behind : slot ≤ found
  pub split :
      page_rids d page_id slot n ++ rs
      ≡ record { page_id = page_id; slot_num = found }
        ∷ (page_rids d page_id (found + 1) (slot + n - (found + 1)) ++ rs)

-- The loop over the slots finds the first place, if there is one.
pub live_slot-Splits :
    (d : ℕ → ℕ) (page_id slot n : ℕ) (rs : List Rid)
    → slot + n < u16_mod
    → ((found : ℕ) × (live_slot d slot n ≡ some found) × Splits d page_id slot n rs found)
      ⊎ ((live_slot d slot n ≡ none) × (page_rids d page_id slot n ++ rs ≡ rs))
unfolding live_slot
live_slot-Splits d page_id slot zero rs bound = inr (refl, refl)
live_slot-Splits d page_id slot (suc n) rs bound =
    let next : (slot + 1) % u16_mod ≡ slot + 1 = omega (arith, bound) in
    elim (Bool-cases (ltb 0 (get_length_at d slot))) [
      | inl live ↦
          let rest : n ≡ slot + suc n - (slot + 1) = omega arith in
          inl (
            slot,
            rw (live_slot, live) refl,
            record {
              within = omega arith;
              behind = omega arith;
              split =
                  rw (page_rids, live)
                    (λ i.
                      record { page_id = page_id; slot_num = slot }
                      ∷ (page_rids d page_id (slot + 1) (rest i) ++ rs));
            },
          )
      | inr empty ↦ elim (live_slot-Splits d page_id (slot + 1) n rs (omega (arith, bound))) [
        | inl (found, e, first) ↦
            let less = first.within in
            let later = first.behind in
            let shift : slot + 1 + n - (found + 1) ≡ slot + suc n - (found + 1) = omega arith in
            inl (
              found,
              rw (live_slot, empty, next) e,
              record {
                within = omega (arith, less);
                behind = omega (arith, later);
                split =
                    rw (page_rids, empty)
                      (first.split ∙ (λ i.
                        record { page_id = page_id; slot_num = found }
                        ∷ (page_rids d page_id (found + 1) (shift i) ++ rs)));
              },
            )
        | inr (e, none_here) ↦ inr (rw (live_slot, empty, next) e, rw (page_rids, empty) none_here)
      ]
    ]

module _ (content : ℕ → ℕ → ℕ) (next : ℕ) where
  -- The list starts with a place in the chain, and goes on with the places behind it.
  pub record StartsAt (rs : List Rid) (most : ℕ) : Type 0 where
    pub page_id : ℕ
    pub slot : ℕ
    pub pages : List ℕ
    pub chain : IsChain content next page_id (page_id ∷ pages)
    pub bound : slot + 1 < u16_mod
    pub present : slot < get_num_tuples (content page_id)
    pub shorter : length pages ≤ most
    pub list :
        rs
        ≡ record { page_id = page_id; slot_num = slot } ∷ rids_from content page_id (slot + 1) pages

  -- The list is empty, or starts in the chain.
  abbrev pub Ahead : List Rid → ℕ → Type 0
  Ahead rs most = (rs ≡ []) ⊎ StartsAt rs most

  pub Ahead-more : (rs rs' : List Rid) (k m : ℕ) → rs ≡ rs' → k ≤ m → Ahead rs' k → Ahead rs m
  Ahead-more rs rs' k m same le (inl e) = inl (same ∙ e)
  Ahead-more rs rs' k m same le (inr a) =
      let less = a.shorter in
      inr (record {
        page_id = a.page_id;
        slot = a.slot;
        pages = a.pages;
        chain = a.chain;
        bound = a.bound;
        present = a.present;
        shorter = omega (arith, le, less);
        list = same ∙ a.list;
      })

  pub rids-Ahead :
      (page_id slot : ℕ) (ps : List ℕ)
      → IsChain content next page_id (page_id ∷ ps)
      → slot < u16_mod
      → Ahead (chain_rids content ps) (length ps)
      → Ahead (rids_from content page_id slot ps) (length ps)
  rids-Ahead page_id slot ps chain small rest =
      let (_, _, _, valid, _) = chain in
      let few = few_tuples (content page_id) valid in
      elim (live_slot-Splits (content page_id) page_id slot
        (get_num_tuples (content page_id) - slot) (chain_rids content ps)
        (omega (arith, few, small))) [
          | inr (_, none_here) ↦
              Ahead-more (rids_from content page_id slot ps) (chain_rids content ps) (length ps)
                (length ps) none_here (omega arith) rest
          | inl (found, _, at) ↦
              let within = at.within in
              let behind = at.behind in
              let place : slot + (get_num_tuples (content page_id) - slot) - (found + 1)
                  ≡ get_num_tuples (content page_id) - (found + 1) =
                omega (arith, within, behind) in
              inr (record {
                page_id = page_id;
                slot = found;
                pages = ps;
                chain = chain;
                bound = omega (arith, within, behind, few);
                present = omega (arith, within, behind);
                shorter = omega arith;
                list = at.split ∙ (λ i.
                    record { page_id = page_id; slot_num = found }
                    ∷ (page_rids (content page_id) page_id (found + 1) (place i)
                        ++ chain_rids content ps));
              })
        ]

  pub chain_rids-Ahead :
      (page_id : ℕ) (ps : List ℕ)
      → IsChain content next page_id ps
      → Ahead (chain_rids content ps) (length ps)
  chain_rids-Ahead page_id [] chain = inl refl
  chain_rids-Ahead page_id (p ∷ ps) (same, allocated, real, few, chain) =
      let whole : get_num_tuples (content p) ≡ get_num_tuples (content p) - 0 = omega arith in
      Ahead-more (chain_rids content (p ∷ ps)) (rids_from content p 0 ps) (length ps)
        (length (p ∷ ps)) (λ i. page_rids (content p) p 0 (whole i) ++ chain_rids content ps)
        (omega arith)
        (rids-Ahead p 0 ps (refl, allocated, real, few, chain) (omega arith)
          (chain_rids-Ahead (get_next_page_id (content p)) ps chain))
