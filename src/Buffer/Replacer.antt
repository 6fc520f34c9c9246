-- ===== src/Buffer/Replacer.antt =====
-- `LRUKReplacer` (src/buffer/lru_k_replacer.cpp and its header): the histories of the frames, and
-- each method as a function from the replacer to the new one. Every method holds the latch from
-- start to end, so a method is one step. A `frame_id_t` is the 32-bit pattern of its `int32_t`, a
-- `size_t` a number below 2 ^ 64, and the hash map is the list of its entries in the order in which
-- the loop of `Evict` walks it.
pub mod Valid
pub mod Entries
pub mod Victim
pub mod Runs
mod Examples
use one_base.Base.{
  ℕ, ◌+◌, ◌%◌, Bool, true, false, ◌&&◌, not, Option, none, some, List, [], ◌∷◌, ◌++◌, ltb, ◌==◌,
  if◌then◌else◌, length, size_mod, u32_mod, sub_size, lookup, insert, erase,
}

pub record FrameEntry : Type 0 where
  pub history : List ℕ
  pub is_evictable : Bool

pub record Replacer : Type 0 where
  pub max_frames : ℕ
  pub k : ℕ
  pub curr_size : ℕ
  pub current_timestamp : ℕ
  pub entries : List (ℕ × FrameEntry)

-- `frame_id_t` -1.
abbrev pub invalid_frame_id : ℕ
invalid_frame_id = 4294967295

unfoldable pub new : ℕ → ℕ → Replacer
new num_frames k = record {
  max_frames = num_frames;
  k = k;
  curr_size = 0;
  current_timestamp = 0;
  entries = [];
}

-- `history_.front()`. On an empty list the source has no defined value, and this is 0; a valid
-- replacer has no empty history.
abbrev pub front : List ℕ → ℕ
front [] = 0
front (t ∷ ts) = t

abbrev pub pop_front : List ℕ → List ℕ
pop_front [] = []
pop_front (t ∷ ts) = ts

-- The local variables of `Evict`.
pub record Scan : Type 0 where
  pub victim_frame : ℕ
  pub max_k_distance : ℕ
  pub earliest_first_access : ℕ
  pub found_inf_frame : Bool

-- The body of the loop of `Evict`, at the entry `entry` of the frame `fid`.
unfoldable pub scan_entry : ℕ → ℕ → ℕ → FrameEntry → Scan → Scan
scan_entry k now fid entry s =
    if not entry.is_evictable
    then s
    else (if ltb (length entry.history) k
        then (if not s.found_inf_frame
            then (record s {
              found_inf_frame = true;
              victim_frame = fid;
              earliest_first_access = front entry.history;
            })
            else (if ltb (front entry.history) s.earliest_first_access
                then (record s { earliest_first_access = front entry.history; victim_frame = fid })
                else s))
        else (if not s.found_inf_frame
            then (if ltb s.max_k_distance (sub_size now (front entry.history))
                then (record s {
                  max_k_distance = sub_size now (front entry.history);
                  victim_frame = fid;
                })
                else s)
            else s))

unfoldable pub scan : ℕ → ℕ → List (ℕ × FrameEntry) → Scan → Scan
scan k now [] s = s
scan k now ((fid, entry) ∷ es) s = scan k now es (scan_entry k now fid entry s)

abbrev pub scan_start : ℕ → Scan
scan_start now = record {
  victim_frame = invalid_frame_id;
  max_k_distance = 0;
  earliest_first_access = now;
  found_inf_frame = false;
}

-- The frame that the loop of `Evict` ends with.
unfoldable pub victim : Replacer → ℕ
victim r = (scan r.k r.current_timestamp r.entries (scan_start r.current_timestamp)).victim_frame

-- `Evict`: `none` for `false`, else the frame that it writes to `*frame_id`.
unfoldable pub evict : Replacer → Replacer × Option ℕ
evict r =
    if r.curr_size == 0
    then (r, none)
    else (if victim r == invalid_frame_id then (r, none) else (
      record r { entries = erase (victim r) r.entries; curr_size = sub_size r.curr_size 1 },
      some (victim r),
    ))

-- `entries_[frame_id]`, which makes an entry with an empty history where there is none.
abbrev pub entry_or_new : Option FrameEntry → FrameEntry
entry_or_new none = record { history = []; is_evictable = false }
entry_or_new (some e) = e

-- The history after `push_back` and, when it is then longer than `k`, `pop_front`.
unfoldable pub pushed : ℕ → ℕ → List ℕ → List ℕ
pushed k now h =
    if ltb k (length (h ++ (now ∷ []))) then pop_front (h ++ (now ∷ [])) else h ++ (now ∷ [])

unfoldable pub record_access : Replacer → ℕ → Replacer
record_access r frame_id =
    let entry = entry_or_new (lookup frame_id r.entries) in
    record r {
      entries =
          insert frame_id (record entry { history = pushed r.k r.current_timestamp entry.history })
            r.entries;
      current_timestamp = (r.current_timestamp + 1) % size_mod;
    }

-- `curr_size_` after an entry's flag goes from `was` to `now`.
abbrev pub resized : ℕ → Bool → Bool → ℕ
resized n true false = sub_size n 1
resized n false true = (n + 1) % size_mod
resized n _ _ = n

unfoldable pub set_evictable : Replacer → ℕ → Bool → Replacer
set_evictable r frame_id flag = elim (lookup frame_id r.entries) [
  | none ↦ r
  | some entry ↦ record r {
    curr_size = resized r.curr_size entry.is_evictable flag;
    entries = insert frame_id (record entry { is_evictable = flag }) r.entries;
  }
]

-- `OneBaseException("Cannot remove non-evictable frame")` is `none`.
unfoldable pub remove : Replacer → ℕ → Option Replacer
remove r frame_id = elim (lookup frame_id r.entries) [
  | none ↦ some r
  | some entry ↦
      if not entry.is_evictable
      then none
      else some
          (record r { curr_size = sub_size r.curr_size 1; entries = erase frame_id r.entries })
]

unfoldable pub size : Replacer → ℕ
size r = r.curr_size
