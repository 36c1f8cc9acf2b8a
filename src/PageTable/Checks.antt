-- ===== src/PageTable/Checks.antt =====
-- What the checks that both stages make on an entry let through.
use riscv_iommu_dv_model.Prelude.{
  ℕ, ◌%◌, ◌^◌, ◌<◌, Bool, true, false, not, ◌&&◌, ◌||◌, ◌==◌, ◌≡◌, arith, ◌⊎◌, or-intro,
}
use riscv_iommu_dv_model.Iommu.Pte.{Pte}
use riscv_iommu_dv_model.Iommu.Regs.{Capabilities}
use riscv_iommu_dv_model.PageTable.{pte_of, invalid_pte, is_leaf, lacks, bad_napot}

-- An entry that is present and sets nothing that is reserved.
pub record IsWellFormed (c : Capabilities) (p : Pte) : Type 0 where
  pub present : p.v ≡ 1
  pub writes_need_reads : p.w ≡ 1 → p.r ≡ 1
  pub memory_type : (p.pbmt ≡ 0) ⊎ ((p.pbmt < 3) × (c.svpbmt ≡ true))
  pub unreserved : p.reserved ≡ 0
  pub software : (p.rsw60t59b ≡ 0) ⊎ (c.svrsw60t59b ≡ true)

-- The entry grants what the access asks for.
pub record Permits (is_read is_write is_exec : Bool) (p : Pte) : Type 0 where
  pub executable : is_exec ≡ true → p.x ≡ 1
  pub readable : is_read ≡ true → p.r ≡ 1
  pub writable : is_write ≡ true → p.w ≡ 1

-- The widths of the fields that the checks read.
pub record IsWide (p : Pte) : Type 0 where
  pub v : p.v < 2
  pub r : p.r < 2
  pub w : p.w < 2
  pub x : p.x < 2
  pub u : p.u < 2
  pub a : p.a < 2
  pub d : p.d < 2
  pub pbmt : p.pbmt < 4
  pub ppn : p.ppn < 2 ^ 44

pub pte_of-IsWide : (raw : ℕ) → IsWide (pte_of raw)
unfolding pte_of
pte_of-IsWide raw = record {
  v = omega arith;
  r = omega arith;
  w = omega arith;
  x = omega arith;
  u = omega arith;
  a = omega arith;
  d = omega arith;
  pbmt = omega arith;
  ppn = omega arith;
}

pub present_lem : (v : ℕ) → v < 2 → (v == 0) ≡ false → v ≡ 1
present_lem v h b = ground arith

writes_lem : (r w : ℕ) → r < 2 → (r == 0 && w == 1) ≡ false → w ≡ 1 → r ≡ 1
writes_lem r w h b k = ground arith

memory_lem :
    (t : ℕ) (b : Bool)
    → t < 4
    → (not (t == 0) && not b) ≡ false
    → (t == 3) ≡ false
    → (t ≡ 0) ⊎ ((t < 3) × (b ≡ true))
memory_lem t b h k l = ground arith

software_lem : (t : ℕ) (b : Bool) → (not (t == 0) && not b) ≡ false → (t ≡ 0) ⊎ (b ≡ true)
software_lem t b k = ground arith

needs_lem : (b : Bool) (t : ℕ) → t < 2 → (b && t == 0) ≡ false → b ≡ true → t ≡ 1
needs_lem b t h k e = ground arith

or-intro6 :
    (a b c d e f : Bool)
    → (a || b || c || d || e || f) ≡ false
    → (a ≡ false) × (b ≡ false) × (c ≡ false) × (d ≡ false) × (e ≡ false) × (f ≡ false)
or-intro6 a b c d e f h = ground arith

pub invalid_pte-IsWellFormed :
    (c : Capabilities) (p : Pte) → IsWide p → invalid_pte c p ≡ false → IsWellFormed c p
unfolding invalid_pte
invalid_pte-IsWellFormed c p h b =
    let (e0, e1, e2, e3, e4, e5) =
      or-intro6 (p.v == 0) (p.r == 0 && p.w == 1) (not (p.pbmt == 0) && not c.svpbmt) (p.pbmt == 3)
        (not (p.reserved == 0)) (not (p.rsw60t59b == 0) && not c.svrsw60t59b) b in
    record {
      present = present_lem p.v h.v e0;
      writes_need_reads = writes_lem p.r p.w h.r e1;
      memory_type = memory_lem p.pbmt c.svpbmt h.pbmt e2 e3;
      unreserved = ground arith;
      software = software_lem p.rsw60t59b c.svrsw60t59b e5;
    }

pub lacks-Permits :
    (check is_read is_write is_exec : Bool) (p : Pte)
    → IsWide p
    → lacks check is_read is_write is_exec p ≡ false
    → check ≡ true
    → Permits is_read is_write is_exec p
unfolding lacks
lacks-Permits true is_read is_write is_exec p h b e =
    let (r, e2) =
      or-intro ((is_exec && p.x == 0) || (is_read && p.r == 0)) (is_write && p.w == 0) b in
    let (e0, e1) = or-intro (is_exec && p.x == 0) (is_read && p.r == 0) r in
    record {
      executable = needs_lem is_exec p.x h.x e0;
      readable = needs_lem is_read p.r h.r e1;
      writable = needs_lem is_write p.w h.w e2;
    }
lacks-Permits false is_read is_write is_exec p h b e = absurd cc

pub is_leaf_lem : (p : Pte) → is_leaf p ≡ true → (p.r ≡ 1) ⊎ (p.x ≡ 1)
unfolding is_leaf
is_leaf_lem p h = ground arith

pub bad_napot_lem :
    (i : ℕ) (p : Pte)
    → (not (i == 0) && not (p.n == 0)) ≡ false
    → bad_napot i p ≡ false
    → (p.n ≡ 0) ⊎ ((i ≡ 0) × (p.ppn % 16 ≡ 8))
unfolding bad_napot
bad_napot_lem i p h k = ground arith
