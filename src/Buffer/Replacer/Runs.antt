-- ===== src/Buffer/Replacer/Runs.antt =====
-- Any sequence of calls of the replacer, from a new one.
use one_base.Base.{ℕ, ◌+◌, ◌<◌, ◌≡◌, ◌≢◌, Bool, some, size_mod}
use one_base.Buffer.Replacer.{
  Replacer, new, invalid_frame_id, record_access, set_evictable, remove, evict,
}
use one_base.Buffer.Replacer.Valid.{
  IsValid, new-IsValid, record_access-IsValid, set_evictable-IsValid, remove-IsValid,
}
use one_base.Buffer.Replacer.Victim.{evict-IsValid}

-- One call. `RecordAccess` is called while the clock does not wrap and with a frame's number;
-- `Remove` is called where it does not throw.
pub data Step : Replacer → Replacer → Type 0 where
  accessed :
      (r : Replacer) (f : ℕ)
      → f ≢ invalid_frame_id
      → r.current_timestamp + 1 < size_mod
      → Step r (record_access r f)
  marked : (r : Replacer) (f : ℕ) (flag : Bool) → Step r (set_evictable r f flag)
  removed : (r : Replacer) (f : ℕ) (r' : Replacer) → remove r f ≡ some r' → Step r r'
  evicted : (r : Replacer) → Step r ((evict r).0)

pub data Run (start : Replacer) : Replacer → Type 0 where
  here : Run start start
  next : {r r' : Replacer} → Run start r → Step r r' → Run start r'

Step-IsValid : {r r' : Replacer} → Step r r' → IsValid r → IsValid r'
Step-IsValid (accessed r f real room) v = record_access-IsValid r f v real room
Step-IsValid (marked r f flag) v = set_evictable-IsValid r f v flag
Step-IsValid (removed r f r' made) v = remove-IsValid r f v made
Step-IsValid (evicted r) v = evict-IsValid r v

Run-keeps : {s r : Replacer} → IsValid s → Run s r → IsValid r
Run-keeps v here = v
Run-keeps v (next run step) = Step-IsValid step (Run-keeps v run)

-- Every replacer that calls reach from a new one with a positive `k` is valid: `curr_size` counts
-- the evictable frames, no frame stands twice, and every history is rising, below the clock, and
-- has from one to `k` entries.
pub Run-IsValid : (num_frames k : ℕ) (r : Replacer) → 0 < k → Run (new num_frames k) r → IsValid r
Run-IsValid num_frames k r positive run = Run-keeps (new-IsValid num_frames k positive) run
