-- ===== src/Invalidate/Directory.antt =====
-- IODIR.INVAL_DDT and IODIR.INVAL_PDT against the lookups of the directory caches.
use riscv_iommu_dv_model.Prelude.{ℕ, ◌≡◌, ◌≢◌, ◌⊎◌, inl, inr, none, arith, refl, ◌∙◌, sym, map}
use riscv_iommu_dv_model.Iommu.{Iommu}
use riscv_iommu_dv_model.Iommu.Caches.{DdtCache, PdtCache}
use riscv_iommu_dv_model.Atc.{lookup_ioatc_dc, lookup_ioatc_pc, dc_matches}
use riscv_iommu_dv_model.Atc.Device.{dc_view, lookup_ioatc_dc-dc_view}
use riscv_iommu_dv_model.Atc.Process.{pc_key_matches, pc_view, lookup_ioatc_pc-pc_view}
use riscv_iommu_dv_model.Atc.Keyed.{view-erased, view-spared}
use riscv_iommu_dv_model.Invalidate.{
  inval_ddt_entry, inval_ddt_pdt_entry, inval_pdt_entry, do_inval_ddt, do_inval_pdt,
}

module _ {W : Type 0} (s : Iommu W) where
  dc_erased :
      (dv did other : ℕ)
      → (dv ≡ 0) ⊎ ((dv ≡ 1) × (other ≡ did))
      → dc_view (map (inval_ddt_entry dv did) s.ddt_cache) other ≡ none
  dc_erased dv did other h =
      view-erased dc_matches DdtCache.dc (inval_ddt_entry dv did) s.ddt_cache other
        (λ e. ground arith)

  dc_spared :
      (did other : ℕ)
      → other ≢ did
      → dc_view (map (inval_ddt_entry 1 did) s.ddt_cache) other ≡ dc_view s.ddt_cache other
  dc_spared did other h =
      view-spared dc_matches DdtCache.dc (inval_ddt_entry 1 did) s.ddt_cache other
        (λ e p. ground arith) (λ e p. ground arith)

  pc_erased :
      (dv did other pid : ℕ)
      → (dv ≡ 0) ⊎ ((dv ≡ 1) × (other ≡ did))
      → pc_view (map (inval_ddt_pdt_entry dv did) s.pdt_cache) (other, pid) ≡ none
  pc_erased dv did other pid h =
      view-erased pc_key_matches PdtCache.pc (inval_ddt_pdt_entry dv did) s.pdt_cache (other, pid)
        (λ e. ground arith)

  pc_spared :
      (did other pid : ℕ)
      → other ≢ did
      → pc_view (map (inval_ddt_pdt_entry 1 did) s.pdt_cache) (other, pid)
        ≡ pc_view s.pdt_cache (other, pid)
  pc_spared did other pid h =
      view-spared pc_key_matches PdtCache.pc (inval_ddt_pdt_entry 1 did) s.pdt_cache (other, pid)
        (λ e p. ground arith) (λ e p. ground arith)

  -- IODIR.INVAL_DDT with DV = 0 leaves no device context and no process context cached. With
  -- DV = 1 the device DID and all its processes miss, and every other device and its processes get
  -- the answers that they got before.
  pub do_inval_ddt_lem :
      (did other pid : ℕ)
      → other ≢ did
      → let all = do_inval_ddt s 0 did in
        let one = do_inval_ddt s 1 did in
        (((lookup_ioatc_dc all did).0 ≡ none) × ((lookup_ioatc_pc all did pid).0 ≡ none))
        × (((lookup_ioatc_dc all other).0 ≡ none) × ((lookup_ioatc_pc all other pid).0 ≡ none))
        × (((lookup_ioatc_dc one did).0 ≡ none) × ((lookup_ioatc_pc one did pid).0 ≡ none))
        × (((lookup_ioatc_dc one other).0 ≡ (lookup_ioatc_dc s other).0)
            × ((lookup_ioatc_pc one other pid).0 ≡ (lookup_ioatc_pc s other pid).0))
  unfolding do_inval_ddt
  do_inval_ddt_lem did other pid ne =
      let all = do_inval_ddt s 0 did in
      let one = do_inval_ddt s 1 did in
      (
        (
          lookup_ioatc_dc-dc_view all did ∙ dc_erased 0 did did (inl refl),
          lookup_ioatc_pc-pc_view all did pid ∙ pc_erased 0 did did pid (inl refl),
        ),
        (
          lookup_ioatc_dc-dc_view all other ∙ dc_erased 0 did other (inl refl),
          lookup_ioatc_pc-pc_view all other pid ∙ pc_erased 0 did other pid (inl refl),
        ),
        (
          lookup_ioatc_dc-dc_view one did ∙ dc_erased 1 did did (inr (refl, refl)),
          lookup_ioatc_pc-pc_view one did pid ∙ pc_erased 1 did did pid (inr (refl, refl)),
        ),
        (
          lookup_ioatc_dc-dc_view one other
              ∙ dc_spared did other ne
              ∙ sym (lookup_ioatc_dc-dc_view s other),
          lookup_ioatc_pc-pc_view one other pid
              ∙ pc_spared did other pid ne
              ∙ sym (lookup_ioatc_pc-pc_view s other pid),
        ),
      )

  -- IODIR.INVAL_PDT makes the process PID of the device DID miss, and changes the answer neither for
  -- a process that differs in one of the two ids nor for any device.
  do_inval_pdt_lem :
      (did pid did' pid' : ℕ)
      → (did' ≢ did) ⊎ (pid' ≢ pid)
      → let t = do_inval_pdt s did pid in
        ((lookup_ioatc_pc t did pid).0 ≡ none)
        × ((lookup_ioatc_pc t did' pid').0 ≡ (lookup_ioatc_pc s did' pid').0)
        × ((lookup_ioatc_dc t did').0 ≡ (lookup_ioatc_dc s did').0)
  unfolding do_inval_pdt
  do_inval_pdt_lem did pid did' pid' ne =
      let t = do_inval_pdt s did pid in
      let g = inval_pdt_entry did pid in
      (
        lookup_ioatc_pc-pc_view t did pid
            ∙ view-erased pc_key_matches PdtCache.pc g s.pdt_cache (did, pid) (λ e. ground arith),
        lookup_ioatc_pc-pc_view t did' pid'
            ∙ view-spared pc_key_matches PdtCache.pc g s.pdt_cache (did', pid')
                (λ e p. ground arith) (λ e p. ground arith)
            ∙ sym (lookup_ioatc_pc-pc_view s did' pid'),
        lookup_ioatc_dc-dc_view t did' ∙ sym (lookup_ioatc_dc-dc_view s did'),
      )
