-- ===== src/Atc/Device.antt =====
-- The device directory cache of iommu_atc.c as a partial map from device ids to device contexts.
use native.Mathlib.Decide.{ℕ_discrete}
use riscv_iommu_dv_model.Prelude.{
  ℕ, ◌<◌, ◌≡◌, ◌≢◌, ◌⊎◌, inl, inr, List, map, length, find, some, none, Option, false, arith,
  Option-cases, refl, ◌∙◌, sym,
}
use riscv_iommu_dv_model.Iommu.{Iommu}
use riscv_iommu_dv_model.Iommu.Caches.{DeviceContext, DdtCache}
use riscv_iommu_dv_model.Atc.{replaced, cache_ioatc_dc, lookup_ioatc_dc, dc_matches}
use riscv_iommu_dv_model.Atc.Replace.{replaced-lt, length-map}
use riscv_iommu_dv_model.Atc.Keyed.{
  view, IsUnique, view-insert, view-insert_ne, insert-IsUnique, view-touch,
}

abbrev pub dc_view : List DdtCache → ℕ → Option DeviceContext
dc_view = view dc_matches DdtCache.dc

-- No device has two valid entries.
abbrev pub IsDcUnique : List DdtCache → Type 0
IsDcUnique = IsUnique dc_matches DdtCache.dc

pub lookup_ioatc_dc-dc_view :
    {W : Type 0} (s : Iommu W) (did : ℕ) → (lookup_ioatc_dc s did).0 ≡ dc_view s.ddt_cache did
unfolding lookup_ioatc_dc
lookup_ioatc_dc-dc_view s did = elim (Option-cases (find (dc_matches did) s.ddt_cache)) [
  | inl e ↦ rw (e, lookup_ioatc_dc)
  | inr (m, e) ↦ rw (e, lookup_ioatc_dc)
]

module _ {W : Type 0} (s : Iommu W) where
  dc_view-lookup :
      (did other : ℕ)
      → dc_view (lookup_ioatc_dc s did).1.ddt_cache other ≡ dc_view s.ddt_cache other
  unfolding lookup_ioatc_dc
  dc_view-lookup did other = elim (Option-cases (find (dc_matches did) s.ddt_cache)) [
    | inl e ↦ rw (e, lookup_ioatc_dc)
    | inr ((i, e), h) ↦
        rw (h, lookup_ioatc_dc)
          (view-touch dc_matches DdtCache.dc (λ e. record e { lru = s.dc_lru_time }) (λ k e. refl)
            (λ e. refl) s.ddt_cache i other)
  ]

  -- A lookup ages an entry and changes the answer to no later lookup.
  pub lookup_ioatc_dc-lookup :
      (did other : ℕ)
      → (lookup_ioatc_dc (lookup_ioatc_dc s did).1 other).0 ≡ (lookup_ioatc_dc s other).0
  lookup_ioatc_dc-lookup did other =
      let t = (lookup_ioatc_dc s did).1 in
      lookup_ioatc_dc-dc_view t other
      ∙ dc_view-lookup did other
      ∙ sym (lookup_ioatc_dc-dc_view s other)

module _ {W : Type 0} (s : Iommu W) (did : ℕ) (dc : DeviceContext) (uninitialized : ℕ) where
  abbrev slot : ℕ
  slot = replaced (map DdtCache.valid s.ddt_cache) (map DdtCache.lru s.ddt_cache) uninitialized

  abbrev fill : DdtCache → DdtCache
  fill e = record e { dc = dc; did = did; valid = 1 }

  fill_other : (other : ℕ) → other ≢ did → (e : DdtCache) → dc_matches other (fill e) ≡ false
  fill_other other ne e = ground arith

  slot-lt : uninitialized < length s.ddt_cache → slot < length s.ddt_cache
  slot-lt h =
      let c = s.ddt_cache in
      let lv = length-map DdtCache.valid c in
      let ll = length-map DdtCache.lru c in
      let lt =
        replaced-lt (map DdtCache.valid c) (map DdtCache.lru c) uninitialized (lv ∙ sym ll)
          (omega (arith, ll)) in
      omega (arith, ll, lt)

  -- After `cache_ioatc_dc` of a device that missed, the device hits with exactly that context; any
  -- other device gets the answer that it got before, or misses if its entry was replaced; and still
  -- no device has two entries. The `replace` that C leaves uninitialised must lie inside the cache.
  pub cache_ioatc_dc-lookup :
      (other : ℕ)
      → other ≢ did
      → IsDcUnique s.ddt_cache
      → (lookup_ioatc_dc s did).0 ≡ none
      → uninitialized < length s.ddt_cache
      → let t = cache_ioatc_dc s did dc uninitialized in
        ((lookup_ioatc_dc t did).0 ≡ some dc)
        × (((lookup_ioatc_dc t other).0 ≡ (lookup_ioatc_dc s other).0)
            ⊎ ((lookup_ioatc_dc t other).0 ≡ none))
        × IsDcUnique t.ddt_cache
  unfolding cache_ioatc_dc
  cache_ioatc_dc-lookup other ne unique missed inside =
      let t = cache_ioatc_dc s did dc uninitialized in
      let miss = sym (lookup_ioatc_dc-dc_view s did) ∙ missed in
      let c = s.ddt_cache in
      (
        lookup_ioatc_dc-dc_view t did
            ∙ view-insert dc_matches DdtCache.dc c slot fill did dc (λ e. ground arith) (λ e. refl)
                miss (slot-lt inside),
        rw (lookup_ioatc_dc-dc_view t other, lookup_ioatc_dc-dc_view s other)
            (view-insert_ne dc_matches DdtCache.dc c slot fill did dc other (fill_other other ne)
              unique),
        insert-IsUnique dc_matches DdtCache.dc c slot fill did dc (λ e. ground arith)
            (λ k. elim (ℕ_discrete k did) [ yes e ↦ inl e | no differ ↦ inr (fill_other k differ) ])
            miss unique,
      )
