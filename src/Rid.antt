-- ===== src/Rid.antt =====
-- `RID` (src/include/onebase/common/rid.h): a page id, as the 32-bit pattern of its `int32_t`, and
-- a slot number.
use one_base.Base.{ℕ, Bool, true, ◌&&◌, ◌≡◌, arith, ◌==◌, if◌then◌else◌}

pub record Rid : Type 0 where
  pub page_id : ℕ
  pub slot_num : ℕ

-- `operator==`.
abbrev pub rid_eq : Rid → Rid → Bool
rid_eq a b = a.page_id == b.page_id && a.slot_num == b.slot_num

pub rid_eq→eq : (a b : Rid) → rid_eq a b ≡ true → a ≡ b
rid_eq→eq a b h = ground arith

pub rid_eq_self : (a : Rid) → rid_eq a a ≡ true
rid_eq_self a = ground arith

-- A map from RIDs with the value `v` at `a`.
abbrev pub update_rid {ℓ} : {V : Type ℓ} → (Rid → V) → Rid → V → Rid → V
update_rid m a v b = if rid_eq a b then v else m b
