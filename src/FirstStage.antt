-- ===== src/FirstStage.antt =====
-- The first stage: `two_stage_address_translation` of
-- iommu_ref_model/libiommu/src/iommu_two_stage_trans.c, which has every address of an entry translated by
-- the second stage.
mod Checks
pub mod Frame
pub mod Leaf
pub mod Outcome
pub mod Returns
unfoldable pub use Checks.*
use riscv_iommu_dv_model.Prelude.{
  ℕ, zero, suc, ◌+◌, ◌-◌, ◌*◌, ◌/◌, ◌%◌, ◌^◌, Bool, true, false, not, ◌&&◌, ◌||◌, ◌==◌, ◌⊎◌, inl,
  inr, Option, none, some, if◌then◌else◌, bit_or, clear_low, get_bits, test_bit, bit,
}
use riscv_iommu_dv_model.Iommu.{Iommu}
use riscv_iommu_dv_model.Iommu.Platform.{Platform, Access}
use riscv_iommu_dv_model.Iommu.Pte.{Pte}
use riscv_iommu_dv_model.Fault.{is_access_fault, is_data_corruption}
use riscv_iommu_dv_model.Hpm.{Event, count_events}
use riscv_iommu_dv_model.PageTable.{
  Format, sv32, sv39, sv48, sv57, top_of, pte_size, pte_of, misaligned, page_size_at, invalid_pte,
  is_leaf, bad_pointer, bad_napot, lacks, marked_word, napot_pte, physical,
}
use riscv_iommu_dv_model.SecondStage.{
  GuestAccess, GstFault, Mapping, page_fault, access_fault, data_corruption, guest_format,
  second_stage_address_translation,
}

-- How a pass from `step_2` on goes on: with a table and NL_G, or again. `unanswered` is a translation
-- that gives no answer.
pub data VsVisit : Type 0 where
  vs_fails : TransFault → VsVisit
  vs_pointer : (a nl_g : ℕ) → VsVisit
  vs_leaf : Mapping → VsVisit
  vs_changed : VsVisit
  unanswered : VsVisit

module _ {W : Type 0} where
  -- The page size of Bare.
  unfoldable pub vs_bare_page_sz : Iommu W → (sxl : Bool) → (page_sz : ℕ) → ℕ
  vs_bare_page_sz s sxl page_sz =
      let c = s.reg_file.capabilities in
      if c.sv57
      then s.sv57_bare_pg_sz
      else if c.sv48
      then s.sv48_bare_pg_sz
      else if c.sv39 && not sxl
      then s.sv39_bare_pg_sz
      else if c.sv32 && sxl
      then s.sv32_bare_pg_sz
      else page_sz

module _ {W : Type 0} (P : Platform W) (retries : ℕ) (q : IovaAccess) (f : Format) where
  -- The update of A and D, from the second call of `count_events` on.
  unfoldable pub update_pte : (i nl_g : ℕ) → Iommu W → (g : Mapping) → (raw : ℕ) → VsVisit × Iommu W
  update_pte i nl_g s g raw =
      let t = count_events P (vs_pt_walk q) s in
      let (status, amo, w) = P.read_memory_for_amo (pte_access q f g) t.world in
      let same = amo == raw in
      let dirty = q.is_write && test_bit amo 2 in
      let (status', w') =
        P.write_memory (if same then marked_word dirty amo else amo) (pte_access q f g) w in
      if is_access_fault status
      then (vs_fails (access_faulted q), record t { world = w })
      else if is_data_corruption status
      then (vs_fails corrupted, record t { world = w })
      else if is_access_fault status'
      then (vs_fails (access_faulted q), record t { world = w' })
      else if is_data_corruption status'
      then (vs_fails corrupted, record t { world = w' })
      else if not same
      then (vs_changed, record t { world = w' })
      else (
        vs_leaf (vs_mapping_of q.iova (page_size_at f i) nl_g (pte_of raw)),
        record t { world = w' },
      )

  -- `step_5`, for the table at `a_gpa`.
  unfoldable pub vs_visit_leaf :
      (i nl_g : ℕ) → Iommu W → (a_gpa : ℕ) → (g : Mapping) → (raw : ℕ) → VsVisit × Iommu W
  vs_visit_leaf i nl_g s a_gpa g raw =
      let p = pte_of raw in
      if lacks q.check_access_perms q.is_read q.is_write q.is_exec p
      then (vs_fails (page_faulted q), s)
      else if privilege_denies q p
      then (vs_fails (page_faulted q), s)
      else if misaligned f i raw
      then (vs_fails (page_faulted q), s)
      else if bad_napot i p
      then (vs_fails (page_faulted q), s)
      else if is_marked q p
      then (vs_leaf (vs_mapping_of q.iova (page_size_at f i) nl_g p), s)
      else if not q.sade
      then (vs_fails (page_faulted q), s)
      else if g.pte.w == 0
      then (vs_fails (guest_page_faulted q a_gpa true), s)
      else update_pte i nl_g s g raw

  -- From the read of the entry on, which the second stage maps to `g`.
  unfoldable pub visit_pte :
      (i nl_g : ℕ) → Iommu W → (a_gpa : ℕ) → (g : Mapping) → VsVisit × Iommu W
  visit_pte i nl_g s a_gpa g =
      let t = count_events P (vs_pt_walk q) s in
      let (status, raw, w) = P.read_memory (pte_access q f g) t.world in
      let u : Iommu W = record t { world = w } in
      let p = pte_of raw in
      if not (clear_low g.pa s.reg_file.capabilities.pas == 0)
      then (vs_fails (access_faulted q), s)
      else if is_access_fault status
      then (vs_fails (access_faulted q), u)
      else if is_data_corruption status
      then (vs_fails corrupted, u)
      else if invalid_pte u.reg_file.capabilities p
      then (vs_fails (page_faulted q), u)
      else if not (i == 0) && not (p.n == 0)
      then (vs_fails (page_faulted q), u)
      else if is_leaf p
      then vs_visit_leaf i nl_g u a_gpa g raw
      else if bad_pointer p
      then (vs_fails (page_faulted q), u)
      else (vs_pointer (p.ppn * 4096) (bit_or nl_g p.g), u)

  -- `step_2`: the table at `a`, NL_G, and whether an update was begun before.
  unfoldable pub vs_visit :
      (i nl_g : ℕ) → (is_implicit_write : Bool) → Iommu W → (a : ℕ) → VsVisit × Iommu W
  vs_visit i nl_g is_implicit_write s a =
      let (o, t) =
        second_stage_address_translation P retries s
          (implicit_access q (a + vpn f i q.iova * pte_size f)) in
      elim o [
        | none ↦ (unanswered, t)
        | some (inl g) ↦ (vs_fails (vs_fault q a is_implicit_write g), t)
        | some (inr g) ↦ visit_pte i nl_g t a g
      ]

-- What follows a pass: its result, the next level, or the pass again.
abbrev pub vs_resume :
    {W : Type 0}
    → (Iommu W → (a nl_g : ℕ) → Option (TransFault ⊎ Mapping) × Iommu W)
    → (Iommu W → Option (TransFault ⊎ Mapping) × Iommu W)
    → VsVisit × Iommu W
    → Option (TransFault ⊎ Mapping) × Iommu W
vs_resume descend again (vs_fails e, t) = (some (inl e), t)
vs_resume descend again (vs_pointer a g, t) = descend t a g
vs_resume descend again (vs_leaf m, t) = (some (inr m), t)
vs_resume descend again (vs_changed, t) = again t
vs_resume descend again (unanswered, t) = (none, t)

module _ {W : Type 0} (P : Platform W) (retries : ℕ) (q : IovaAccess) (f : Format) where
  -- The walk from level `i` on, with at most `n` entries that change under it; none where more do.
  unfoldable pub vs_walk :
      (n i nl_g : ℕ)
      → (is_implicit_write : Bool) → Iommu W
      → (a : ℕ) → Option (TransFault ⊎ Mapping) × Iommu W
  vs_walk zero zero g w s a =
      vs_resume (λ t b h. (some (inl (page_faulted q)), t)) (λ t. (none, t))
        (vs_visit P retries q f zero g w s a)
  vs_walk zero (suc i) g w s a =
      vs_resume (λ t b h. vs_walk zero i h w t b) (λ t. (none, t))
        (vs_visit P retries q f (suc i) g w s a)
  vs_walk (suc k) zero g w s a =
      vs_resume (λ t b h. (some (inl (page_faulted q)), t)) (λ t. vs_walk k zero g true t a)
        (vs_visit P retries q f zero g w s a)
  vs_walk (suc k) (suc i) g w s a =
      vs_resume (λ t b h. vs_walk (suc k) i h w t b) (λ t. vs_walk k (suc i) g true t a)
        (vs_visit P retries q f (suc i) g w s a)

module _ {W : Type 0} (P : Platform W) (retries : ℕ) where
  -- `two_stage_address_translation`: the fault or the mapping, and the state; none where the retries, which
  -- bound those of both stages, do not suffice, or where a mode names no format. `page_sz` is what
  -- `*page_sz` holds before.
  unfoldable pub two_stage_address_translation :
      Iommu W → IovaAccess → (page_sz : ℕ) → Option (TransFault ⊎ Mapping) × Iommu W
  two_stage_address_translation s q page_sz =
      let mode = get_bits 63 60 q.iosatp in
      if mode == 0
      then (
        some (
            inr
              (record { pa = q.iova; page_sz = vs_bare_page_sz s q.sxl page_sz; pte = bare_pte })),
        s,
      )
      else elim (guest_format q.sxl mode) [
        | none ↦ (none, s)
        | some f ↦
            if not_canonical f q.sxl q.iova
            then (some (inl (page_faulted q)), s)
            else vs_walk P retries q f retries (top_of f) 0 false s (get_bits 43 0 q.iosatp * 4096)
      ]
