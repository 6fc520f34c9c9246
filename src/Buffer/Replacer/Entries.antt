-- ===== src/Buffer/Replacer/Entries.antt =====
-- What the methods do to the entry of each frame.
use one_base.Base.{
  ℕ, ◌≡◌, ◌≢◌, refl, inl, inr, Bool, true, false, Option, none, some, arith, ◌==◌, if◌then◌else◌,
  lookup, erase, sub_size, lookup-insert, lookup-erase, Option-cases, ==-self, ==-ne,
}
use one_base.Buffer.Replacer.{
  FrameEntry, Replacer, pushed, entry_or_new, record_access, set_evictable, remove,
}

abbrev pub flagged : Bool → Option FrameEntry → Option FrameEntry
flagged flag none = none
flagged flag (some e) = some (record e { is_evictable = flag })

module _ (r : Replacer) (f : ℕ) where
  pub lookup-set_evictable :
      (flag : Bool) (g : ℕ)
      → lookup g (set_evictable r f flag).entries
        ≡ (if f == g then flagged flag (lookup f r.entries) else lookup g r.entries)
  unfolding set_evictable
  lookup-set_evictable flag g = elim (Option-cases (lookup f r.entries)) [
    | inl e ↦ ground (arith, e)
    | inr (d, e) ↦ ground (arith, e, lookup-insert f g (record d { is_evictable = flag }) r.entries)
  ]

  lookup-record_access :
      (g : ℕ)
      → lookup g (record_access r f).entries ≡ (
          if f == g
          then some (record (entry_or_new (lookup f r.entries)) {
            history = pushed r.k r.current_timestamp (entry_or_new (lookup f r.entries)).history;
          })
          else lookup g r.entries)
  unfolding record_access
  lookup-record_access g = lookup-insert f g _ r.entries

module _ (r : Replacer) (f : ℕ) where
  -- After an access and a pin the frame has an entry that cannot be evicted.
  pub touched_self :
      (e : FrameEntry) × (lookup f (set_evictable (record_access r f) f false).entries ≡ some e)
      × (e.is_evictable ≡ false)
  touched_self = (
    record {
      history = pushed r.k r.current_timestamp (entry_or_new (lookup f r.entries)).history;
      is_evictable = false;
    },
    rw (lookup-set_evictable (record_access r f) f false f, ==-self f)
        (rw (lookup-record_access r f f, ==-self f) refl),
    refl,
  )

  -- Other frames keep theirs.
  pub touched_ne :
      (g : ℕ)
      → f ≢ g
      → lookup g (set_evictable (record_access r f) f false).entries ≡ lookup g r.entries
  touched_ne g ne =
      rw (lookup-set_evictable (record_access r f) f false g, ==-ne f g ne)
        (rw (lookup-record_access r f g, ==-ne f g ne) refl)

-- Frames that can be evicted are not refused.
pub remove-some :
    (r : Replacer) (f : ℕ) (e : FrameEntry)
    → lookup f r.entries ≡ some e
    → e.is_evictable ≡ true
    → (r' : Replacer) × (remove r f ≡ some r')
      × ((g : ℕ) → lookup g r'.entries ≡ (if f == g then none else lookup g r.entries))
unfolding remove
remove-some r f e found on = (
  record r { curr_size = sub_size r.curr_size 1; entries = erase f r.entries },
  rw (remove, found, on) refl,
  λ g. lookup-erase f g r.entries,
)
