-- ===== src/Buffer/Replacer/Examples.antt =====
-- Runs of the replacer, and its theorems at them.
use one_base.Base.{◌≡◌, ◌↔◌, refl, true, false, none, some, arith, lookup, insert, erase}
use one_base.Buffer.Replacer.{
  Replacer, new, evict, victim, scan, scan_entry, pushed, record_access, set_evictable, remove,
}
use one_base.Buffer.Replacer.Valid.{
  IsValid, count_evictable, new-IsValid, record_access-IsValid, set_evictable-IsValid,
  remove-IsValid,
}
use one_base.Buffer.Replacer.Runs.{Run-IsValid, next, here, accessed, marked, evicted}
use one_base.Buffer.Replacer.Victim.{EvictsPreferred, evict-Precedes, evict-none_iff, evict-IsValid}

program : Unit {0}
unfolding lookup insert erase new evict victim scan scan_entry pushed record_access set_evictable
    remove count_evictable
program = tt

-- Frame 1 is accessed twice, then frame 2 once; both can be evicted.
abbrev once : Replacer
once = record_access (new 4 2) 1

abbrev two : Replacer
two = set_evictable (set_evictable (record_access (record_access once 1) 2) 1 true) 2 true

-- Frame 2 has fewer than two accesses, so it goes first, though it was used last.
evict-two : (evict two).1 ≡ some 2
unfolding program
evict-two = refl

evict_again : (evict (evict two).0).1 ≡ some 1
unfolding program
evict_again = refl

once-IsValid : IsValid once
unfolding program
once-IsValid =
    record_access-IsValid (new 4 2) 1 (new-IsValid 4 2 (omega arith)) (omega arith) (omega arith)

record_access-IsValid_run : IsValid (record_access once 1)
unfolding program
record_access-IsValid_run = record_access-IsValid once 1 once-IsValid (omega arith) (omega arith)

two-IsValid : IsValid two
unfolding program
two-IsValid =
    set_evictable-IsValid (set_evictable (record_access (record_access once 1) 2) 1 true) 2
      (set_evictable-IsValid (record_access (record_access once 1) 2) 1
        (record_access-IsValid (record_access once 1) 2 record_access-IsValid_run (omega arith)
          (omega arith))
        true)
      true

set_evictable-IsValid_run : IsValid (set_evictable two 1 false)
set_evictable-IsValid_run = set_evictable-IsValid two 1 two-IsValid false

evict-Precedes_example : EvictsPreferred two
unfolding program
evict-Precedes_example = evict-Precedes two two-IsValid (omega arith)

evict-none_iff_example : ((evict two).1 ≡ none) ↔ (count_evictable two.entries ≡ 0)
evict-none_iff_example = evict-none_iff two two-IsValid

evict-IsValid_run : IsValid (evict two).0
evict-IsValid_run = evict-IsValid two two-IsValid

abbrev left : Replacer
left = record two { curr_size = 1; entries = erase 2 two.entries }

remove-IsValid_run : IsValid left
unfolding program
remove-IsValid_run = remove-IsValid two 2 two-IsValid refl

Run-IsValid_example : IsValid (evict two).0
unfolding program
Run-IsValid_example = Run-IsValid 4 2 ((evict two).0) (omega arith) (
    next
      (next
        (next
          (next
            (next (next here (accessed (new 4 2) 1 (omega arith) (omega arith)))
              (accessed once 1 (omega arith) (omega arith)))
            (accessed (record_access once 1) 2 (omega arith) (omega arith)))
          (marked (record_access (record_access once 1) 2) 1 true))
        (marked (set_evictable (record_access (record_access once 1) 2) 1 true) 2 true))
      (evicted two))
