-- ===== src/Atc/Process.antt =====
-- The process directory cache of iommu_atc.c as a partial map from pairs of a device id and a process
-- id to process contexts.
use native.Mathlib.Decide.{ℕ_discrete}
use riscv_iommu_dv_model.Prelude.{
  ℕ, ◌<◌, ◌≡◌, ◌≢◌, ◌⊎◌, inl, inr, List, map, length, find, some, none, Option, Bool, false, arith,
  Option-cases, refl, ◌∙◌, sym,
}
use riscv_iommu_dv_model.Iommu.{Iommu}
use riscv_iommu_dv_model.Iommu.Caches.{ProcessContext, PdtCache}
use riscv_iommu_dv_model.Atc.{replaced, cache_ioatc_pc, lookup_ioatc_pc, pc_matches}
use riscv_iommu_dv_model.Atc.Replace.{replaced-lt, length-map}
use riscv_iommu_dv_model.Atc.Keyed.{
  view, IsUnique, view-insert, view-insert_ne, insert-IsUnique, view-touch,
}

abbrev pub pc_key_matches : ℕ × ℕ → PdtCache → Bool
pc_key_matches (did, pid) = pc_matches did pid

abbrev pub pc_view : List PdtCache → ℕ × ℕ → Option ProcessContext
pc_view = view pc_key_matches PdtCache.pc

-- No process of a device has two valid entries.
abbrev pub IsPcUnique : List PdtCache → Type 0
IsPcUnique = IsUnique pc_key_matches PdtCache.pc

pub lookup_ioatc_pc-pc_view :
    {W : Type 0} (s : Iommu W) (did pid : ℕ)
    → (lookup_ioatc_pc s did pid).0 ≡ pc_view s.pdt_cache (did, pid)
unfolding lookup_ioatc_pc
lookup_ioatc_pc-pc_view s did pid = elim (Option-cases (find (pc_matches did pid) s.pdt_cache)) [
  | inl e ↦ rw (e, lookup_ioatc_pc)
  | inr (m, e) ↦ rw (e, lookup_ioatc_pc)
]

module _ {W : Type 0} (s : Iommu W) where
  pc_view-lookup :
      (did pid : ℕ) (other : ℕ × ℕ)
      → pc_view (lookup_ioatc_pc s did pid).1.pdt_cache other ≡ pc_view s.pdt_cache other
  unfolding lookup_ioatc_pc
  pc_view-lookup did pid other = elim (Option-cases (find (pc_matches did pid) s.pdt_cache)) [
    | inl e ↦ rw (e, lookup_ioatc_pc)
    | inr ((i, e), h) ↦
        rw (h, lookup_ioatc_pc)
          (view-touch pc_key_matches PdtCache.pc (λ e. record e { lru = s.pc_lru_time })
            (λ k e. refl) (λ e. refl) s.pdt_cache i other)
  ]

  -- A lookup ages an entry and changes the answer to no later lookup.
  pub lookup_ioatc_pc-lookup :
      (did pid did' pid' : ℕ)
      → (lookup_ioatc_pc (lookup_ioatc_pc s did pid).1 did' pid').0
        ≡ (lookup_ioatc_pc s did' pid').0
  lookup_ioatc_pc-lookup did pid did' pid' =
      lookup_ioatc_pc-pc_view (lookup_ioatc_pc s did pid).1 did' pid'
      ∙ pc_view-lookup did pid (did', pid')
      ∙ sym (lookup_ioatc_pc-pc_view s did' pid')

module _ {W : Type 0} (s : Iommu W) (did pid : ℕ) (pc : ProcessContext) where
  abbrev slot : ℕ
  slot = replaced (map PdtCache.valid s.pdt_cache) (map PdtCache.lru s.pdt_cache) 0

  abbrev fill : PdtCache → PdtCache
  fill e = record e { pc = pc; did = did; pid = pid; valid = 1 }

  fill_other :
      (did' pid' : ℕ)
      → (did' ≢ did) ⊎ (pid' ≢ pid)
      → (e : PdtCache) → pc_matches did' pid' (fill e) ≡ false
  fill_other did' pid' ne e = ground arith

  slot-lt : 0 < length s.pdt_cache → slot < length s.pdt_cache
  slot-lt h =
      let c = s.pdt_cache in
      let lv = length-map PdtCache.valid c in
      let ll = length-map PdtCache.lru c in
      let lt =
        replaced-lt (map PdtCache.valid c) (map PdtCache.lru c) 0 (lv ∙ sym ll)
          (omega (arith, ll)) in
      omega (arith, ll, lt)

  -- After `cache_ioatc_pc` of a process that missed, the process hits with exactly that context; a
  -- process that differs in its device id or its process id gets the answer that it got before, or
  -- misses if its entry was replaced; and still no process has two entries. The cache has an entry
  -- at least.
  pub cache_ioatc_pc-lookup :
      (did' pid' : ℕ)
      → (did' ≢ did) ⊎ (pid' ≢ pid)
      → IsPcUnique s.pdt_cache
      → (lookup_ioatc_pc s did pid).0 ≡ none
      → 0 < length s.pdt_cache
      → let t = cache_ioatc_pc s did pid pc in
        ((lookup_ioatc_pc t did pid).0 ≡ some pc)
        × (((lookup_ioatc_pc t did' pid').0 ≡ (lookup_ioatc_pc s did' pid').0)
            ⊎ ((lookup_ioatc_pc t did' pid').0 ≡ none))
        × IsPcUnique t.pdt_cache
  unfolding cache_ioatc_pc
  cache_ioatc_pc-lookup did' pid' ne unique missed inside =
      let t = cache_ioatc_pc s did pid pc in
      let miss = sym (lookup_ioatc_pc-pc_view s did pid) ∙ missed in
      let c = s.pdt_cache in
      (
        lookup_ioatc_pc-pc_view t did pid
            ∙ view-insert pc_key_matches PdtCache.pc c slot fill (did, pid) pc (λ e. ground arith)
                (λ e. refl) miss (slot-lt inside),
        rw (lookup_ioatc_pc-pc_view t did' pid', lookup_ioatc_pc-pc_view s did' pid')
            (view-insert_ne pc_key_matches PdtCache.pc c slot fill (did, pid) pc (did', pid')
              (fill_other did' pid' ne) unique),
        insert-IsUnique pc_key_matches PdtCache.pc c slot fill (did, pid) pc (λ e. ground arith)
            same_or_other miss unique,
      )
    where
      same_or_other :
          (k : ℕ × ℕ) → (k ≡ (did, pid)) ⊎ ((e : PdtCache) → pc_key_matches k (fill e) ≡ false)
      same_or_other (d, p) = elim (ℕ_discrete d did) [
        | no ne ↦ inr (fill_other d p (inl ne))
        | yes e ↦ elim (ℕ_discrete p pid) [
          | no ne ↦ inr (fill_other d p (inr ne))
          | yes e' ↦ inl (λ i. (e i, e' i))
        ]
      ]
