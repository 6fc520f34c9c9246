-- ===== src/Storage/TableHeap/Insert.antt =====
-- `InsertTuple` of a table heap puts the tuple on the first page that has room for it.
use one_base.Base.{ℕ, ◌<◌, ◌≡◌, ◌≢◌, Option, none, some, List, [], ◌∷◌, update}
use one_base.Rid.{Rid}
use one_base.Buffer.Pool.{invalid_page_id}
use one_base.Storage.Pages.{PagePool, PagePoolLaws}
use one_base.Storage.Held.{Idle}
use one_base.Storage.TablePage.{insert_tuple, get_tuple, get_next_page_id, get_num_tuples}
use one_base.Storage.TablePage.Insert.{IsValid}
use one_base.Storage.TableHeap.{get_tuple_at, bytes_of}
use one_base.Tuples.{Tuple}

module _ {S : Type 0} {ops : PagePool S (ℕ → ℕ)} (laws : PagePoolLaws ops) (content : ℕ → ℕ → ℕ)
    (next : ℕ) (bytes : List ℕ) where
  -- The links lead from `page_id` over the pages of the list, none of which has room, to the page
  -- `p`.
  abbrev pub LeadsTo : ℕ → ℕ → List ℕ → Type 0
  LeadsTo p page_id [] = page_id ≡ p
  LeadsTo p page_id (q ∷ qs) =
      (page_id ≡ q)
      × (q < next)
      × (q ≢ invalid_page_id)
      × ((insert_tuple (content q) bytes).1 ≡ none)
      × (get_next_page_id (content q) ≢ invalid_page_id)
      × LeadsTo p (get_next_page_id (content q)) qs

  -- The tuple was put into a slot of the page `p`, and no page is pinned.
  record Puts (n p slot : ℕ) (result : Option (Option Rid × S)) : Type 0 where
    pool : S
    returned : result ≡ some (some (record { page_id = p; slot_num = slot }), pool)
    idle : Idle laws (update content p (insert_tuple (content p) bytes).0) next n pool

module _ {S : Type 0} {ops : PagePool S (ℕ → ℕ)} (laws : PagePoolLaws ops) (content : ℕ → ℕ → ℕ)
    (next : ℕ) (bytes : List ℕ) where
  -- What an insertion into the page `p` leaves: the tuple's place, at which `GetTuple` finds its
  -- bytes, all other tuples where they were, and no page pinned.
  pub record Stores (n p : ℕ) (result : Option (Option Rid × S)) : Type 0 where
    pub rid : Rid
    pub pool : S
    pub returned : result ≡ some (some rid, pool)
    pub on_page : rid.page_id ≡ p
    pub new_slot : rid.slot_num ≡ get_num_tuples (content p)
    pub tuple : Tuple
    pub later : S
    pub fetched : get_tuple_at ops rid pool ≡ some (tuple, later)
    pub read_back : bytes_of tuple ≡ bytes
    pub after : ℕ → ℕ → ℕ
    pub idle : Idle laws after next n later
    pub valid : IsValid (after p)
    pub other_pages : (q : ℕ) → q ≢ p → after q ≡ content q
    pub other_tuples :
        (slot : ℕ)
        → slot < get_num_tuples (content p)
        → get_tuple (after p) slot ≡ get_tuple (content p) slot
