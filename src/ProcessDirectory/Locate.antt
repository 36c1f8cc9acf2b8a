-- ===== src/ProcessDirectory/Locate.antt =====
-- How `locate_process_context` of iommu_ref_model/libiommu/src/iommu_process_context.c ends.
use mathlib.Core.Path.{subst}
use riscv_iommu_dv_model.Prelude.{
  ℕ, zero, suc, ◌+◌, ◌*◌, ◌≡◌, refl, ◌∙◌, sym, ap, ◌⊎◌, inl, inr, true, not, ◌||◌, ◌==◌, arith,
  Bool, false, Option-cases, Option, none, some, if◌then◌else◌, test_bit, get_bits, ◌%◌, ◌/◌, ◌^◌,
  ◌<◌, length, bit_or, clear_low,
}
use riscv_iommu_dv_model.Iommu.{Iommu}
use riscv_iommu_dv_model.Iommu.Platform.{Platform}
use riscv_iommu_dv_model.Iommu.Caches.{DeviceContext, ProcessContext}
use riscv_iommu_dv_model.Fault.{is_access_fault, is_data_corruption}
use riscv_iommu_dv_model.Atc.{lookup_ioatc_pc, cache_ioatc_pc}
use riscv_iommu_dv_model.Atc.Process.{
  IsPcUnique, pc_view, lookup_ioatc_pc-pc_view, cache_ioatc_pc-lookup, lookup_ioatc_pc-lookup,
}
use riscv_iommu_dv_model.Hpm.{count_events}
use riscv_iommu_dv_model.Hpm.Frame.{SameButEvents, SameButEvents-trans, count_events-SameButEvents}
use riscv_iommu_dv_model.SecondStage.{
  GstFault, Mapping, page_fault, access_fault, data_corruption, second_stage_address_translation,
}
use riscv_iommu_dv_model.SecondStage.Mapped.{second_stage-SameButEvents}
use riscv_iommu_dv_model.DeviceDirectory.{mode_of}
use riscv_iommu_dv_model.ProcessDirectory.{
  PdtFault, OrigAccess, guest_fault, pdt_access, pdt_walk, pdt_read, pdt_entry, load_pc, translated,
  descend, walk_pdt, locate_process_context, pdi, pdt_top_level,
  do_process_context_configuration_checks,
}
use riscv_iommu_dv_model.ProcessDirectory.Format.{IsPcConfigured, process_checks_lem}

-- The faults: a guest page fault of the original access, with the address that the second stage did not
-- translate; or a PDT entry that cannot be loaded, is not valid, is misconfigured, or is corrupt.
pub data IsPdtFault (o : OrigAccess) (e : PdtFault) : Type 0 where
  guest :
      ((o.is_orig_exec ≡ true) × (e.cause ≡ 20))
        ⊎ (((o.is_orig_exec ≡ false) × ((o.is_orig_read ≡ true) × (e.cause ≡ 21)))
            ⊎ ((o.is_orig_exec ≡ false) × ((o.is_orig_read ≡ false) × (e.cause ≡ 23))))
      → (a : ℕ) → e.iotval2 ≡ some (bit_or (clear_low a 2) 1)
      → IsPdtFault o e
  entry :
      (e.cause ≡ 265) ⊎ (e.cause ≡ 266) ⊎ (e.cause ≡ 267) ⊎ (e.cause ≡ 269)
      → e.iotval2 ≡ none
      → IsPdtFault o e

-- The numbers of the guest page faults.
abbrev guest_cause : (exec read : Bool) → ℕ
guest_cause exec read = if exec then 20 else if read then 21 else 23

guest_cause_lem :
    (x r : Bool)
    → ((x ≡ true) × (guest_cause x r ≡ 20))
      ⊎ (((x ≡ false) × ((r ≡ true) × (guest_cause x r ≡ 21)))
          ⊎ ((x ≡ false) × ((r ≡ false) × (guest_cause x r ≡ 23))))
guest_cause_lem true r = inl (refl, refl)
guest_cause_lem false true = inr (inl (refl, (refl, refl)))
guest_cause_lem false false = inr (inr (refl, (refl, refl)))

is_set : (b : Bool) → not b ≡ false → b ≡ true
is_set b h = ground arith

guest_fault-IsPdtFault : (o : OrigAccess) (a : ℕ) (g : GstFault) → IsPdtFault o (guest_fault o a g)
unfolding guest_fault
guest_fault-IsPdtFault o a page_fault = guest (guest_cause_lem o.is_orig_exec o.is_orig_read) a refl
guest_fault-IsPdtFault o a access_fault = entry (inl refl) refl
guest_fault-IsPdtFault o a data_corruption = entry (inr (inr (inr refl))) refl

module _ {W : Type 0} (dc : DeviceContext) (device_id process_id : ℕ) (o : OrigAccess) where
  -- The answer and the state after the walk, and what is left of the state before it.
  pub data PdtEnds (s : Iommu W) (r : Option (PdtFault ⊎ ProcessContext) × Iommu W) : Type 0 where
    unanswered : r.0 ≡ none → SameButEvents s r.1 → PdtEnds s r
    rejected :
        (e : PdtFault) → r.0 ≡ some (inl e) → IsPdtFault o e → SameButEvents s r.1 → PdtEnds s r
    loaded :
        (pc : ProcessContext) (u : Iommu W)
        → r.0 ≡ some (inr pc)
        → test_bit pc.ta 0 ≡ true
        → IsPcConfigured s dc pc
        → SameButEvents s u
        → r.1 ≡ cache_ioatc_pc u device_id process_id pc
        → PdtEnds s r

  checks-SameButEvents :
      (s t : Iommu W) (pc : ProcessContext)
      → SameButEvents s t
      → do_process_context_configuration_checks t dc pc
        ≡ do_process_context_configuration_checks s dc pc
  unfolding do_process_context_configuration_checks
  checks-SameButEvents s t pc e = ap (λ x. do_process_context_configuration_checks x dc pc) e

  PdtEnds-trans :
      (s t : Iommu W) (r : Option (PdtFault ⊎ ProcessContext) × Iommu W)
      → SameButEvents s t
      → PdtEnds t r
      → PdtEnds s r
  PdtEnds-trans s t r h (unanswered e k) = unanswered e (SameButEvents-trans s t r.1 h k)
  PdtEnds-trans s t r h (rejected c e i k) = rejected c e i (SameButEvents-trans s t r.1 h k)
  PdtEnds-trans s t r h (loaded pc u e v c k f) =
      let fine = sym (checks-SameButEvents s t pc h) ∙ (process_checks_lem t dc pc).1 c in
      loaded pc u e v ((process_checks_lem s dc pc).0 fine) (SameButEvents-trans s t u h k) f

  -- What an inner entry gives.
  pub data EntryEnds (s : Iommu W) (r : (PdtFault ⊎ ℕ) × Iommu W) : Type 0 where
    inner : (a : ℕ) → r.0 ≡ inr a → SameButEvents s r.1 → EntryEnds s r
    refused : (e : PdtFault) → r.0 ≡ inl e → IsPdtFault o e → SameButEvents s r.1 → EntryEnds s r

module _ {W : Type 0} (P : Platform W) (n : ℕ) (dc : DeviceContext) (did pid : ℕ)
    (o : OrigAccess) where
  branch :
      {A : Type 0} (Q : A → Type 0) (b : Bool) (x y : A)
      → Q x
      → (b ≡ false → Q y)
      → Q (if b then x else y)
  branch Q true x y h k = h
  branch Q false x y h k = k refl

  pub pdt_entry-EntryEnds :
      (s : Iommu W) (m : Mapping) → EntryEnds dc did pid o s (pdt_entry P n dc did pid o s m)
  unfolding pdt_entry
  pdt_entry-EntryEnds s m =
      let t = count_events P (pdt_walk did pid) s in
      let (status, pdte, u) = pdt_read P n dc did pid o t m 8 in
      let same : SameButEvents s u =
        SameButEvents-trans s t u (count_events-SameButEvents P (pdt_walk did pid) s) refl in
      let Q = EntryEnds dc did pid o s in
      branch Q (is_access_fault status) _ _ (refused _ refl (entry (inl refl) refl) same) (λ _.
        branch Q (is_data_corruption status) _ _
          (refused _ refl (entry (inr (inr (inr refl))) refl) same)
          (λ _.
            branch Q (not (test_bit pdte 0)) _ _ (refused _ refl (entry (inr (inl refl)) refl) same)
              (λ _.
                branch Q (not (get_bits 9 1 pdte == 0) || not (get_bits 63 54 pdte == 0)) _ _
                  (refused _ refl (entry (inr (inr (inl refl))) refl) same)
                  (λ _. inner _ refl same))))

  load_pc-PdtEnds :
      (s : Iommu W) (m : Mapping)
      → let r = load_pc P n dc did pid o s m in PdtEnds dc did pid o s (some r.0, r.1)
  unfolding load_pc
  load_pc-PdtEnds s m =
      let t = count_events P (pdt_walk did pid) s in
      let (status, raw, u) = pdt_read P n dc did pid o t m 16 in
      let pc : ProcessContext = record { ta = raw % 2 ^ 64; fsc = raw / 2 ^ 64 % 2 ^ 64 } in
      let same : SameButEvents s u =
        SameButEvents-trans s t u (count_events-SameButEvents P (pdt_walk did pid) s) refl in
      let Q : (PdtFault ⊎ ProcessContext) × Iommu W → Type 0 =
        λ r. PdtEnds dc did pid o s (some r.0, r.1) in
      branch Q (is_access_fault status) _ _ (rejected _ refl (entry (inl refl) refl) same) (λ _.
        branch Q (is_data_corruption status) _ _
          (rejected _ refl (entry (inr (inr (inr refl))) refl) same)
          (λ _.
            branch Q (not (test_bit pc.ta 0)) _ _
              (rejected _ refl (entry (inr (inl refl)) refl) same)
              (λ v.
                branch Q (do_process_context_configuration_checks u dc pc) _ _
                  (rejected _ refl (entry (inr (inr (inl refl))) refl) same)
                  (λ y.
                    loaded pc u refl (is_set (test_bit pc.ta 0) v)
                      ((process_checks_lem s dc pc).0
                        (sym (checks-SameButEvents dc did pid o s u pc same) ∙ y))
                      same refl))))

  translated-PdtEnds :
      (s : Iommu W) (b : ℕ)
      (next : Iommu W → Mapping → Option (PdtFault ⊎ ProcessContext) × Iommu W)
      (r : Option (GstFault ⊎ Mapping) × Iommu W)
      → SameButEvents s r.1
      → ((m : Mapping) → PdtEnds dc did pid o r.1 (next r.1 m))
      → PdtEnds dc did pid o s (translated P n dc did pid o b next r)
  translated-PdtEnds s b next (none, t) h k = unanswered refl h
  translated-PdtEnds s b next (some (inl g), t) h k =
      rejected _ refl (guest_fault-IsPdtFault o b g) h
  translated-PdtEnds s b next (some (inr m), t) h k =
      PdtEnds-trans dc did pid o s t (next t m) h (k m)

  descend-PdtEnds :
      (s : Iommu W) (next : Iommu W → ℕ → Option (PdtFault ⊎ ProcessContext) × Iommu W)
      (r : (PdtFault ⊎ ℕ) × Iommu W)
      → EntryEnds dc did pid o s r
      → ((t : Iommu W) (a : ℕ) → PdtEnds dc did pid o t (next t a))
      → PdtEnds dc did pid o s (descend P n dc did pid o next r)
  descend-PdtEnds s next (inl e, t) (refused x h i k) f =
      let same : e ≡ x = cc in rejected e refl (subst (IsPdtFault o) (sym same) i) k
  descend-PdtEnds s next (inl e, t) (inner x h k) f = absurd cc
  descend-PdtEnds s next (inr a, t) (refused x h i k) f = absurd cc
  descend-PdtEnds s next (inr a, t) (inner x h k) f =
      PdtEnds-trans dc did pid o s t (next t a) k (f t a)

  walk_pdt-PdtEnds :
      (i : ℕ) (s : Iommu W) (a : ℕ) → PdtEnds dc did pid o s (walk_pdt P n dc did pid o i s a)
  unfolding walk_pdt
  walk_pdt-PdtEnds zero s a =
      let b = a + pdi pid 0 * 16 in
      let q = pdt_access dc did pid b in
      translated-PdtEnds s b _ (second_stage_address_translation P n s q)
        (second_stage-SameButEvents P n s q)
        (λ m. load_pc-PdtEnds (second_stage_address_translation P n s q).1 m)
  walk_pdt-PdtEnds (suc i) s a =
      let b = a + pdi pid (suc i) * 8 in
      let q = pdt_access dc did pid b in
      let t = (second_stage_address_translation P n s q).1 in
      translated-PdtEnds s b _ (second_stage_address_translation P n s q)
        (second_stage-SameButEvents P n s q)
        (λ m.
          descend-PdtEnds t _ (pdt_entry P n dc did pid o t m) (pdt_entry-EntryEnds t m)
            (λ u c. walk_pdt-PdtEnds i u c))

-- How the whole function ends: with a context from the cache, or by a walk.
module _ {W : Type 0} (dc : DeviceContext) (did pid : ℕ) (o : OrigAccess) where
  pub data PcEnds (s : Iommu W) (r : Option (PdtFault ⊎ ProcessContext) × Iommu W) : Type 0 where
    hits :
        (pc : ProcessContext)
        → lookup_ioatc_pc s did pid ≡ (some pc, r.1)
        → r.0 ≡ some (inr pc)
        → PcEnds s r
    walks : (lookup_ioatc_pc s did pid).0 ≡ none → PdtEnds dc did pid o s r → PcEnds s r

module _ {W : Type 0} (P : Platform W) (n : ℕ) (dc : DeviceContext) (did pid : ℕ)
    (o : OrigAccess) where
  -- `locate_process_context` returns the cached context of a process that hits. Of one that misses it
  -- returns a context with V set that the checks' specification allows, and has cached exactly it. Or it
  -- fails: with a guest page fault of the original access (cause 20 where that executes, 21 where it reads
  -- and 23 otherwise), and then with an address marked as an implicit one in iotval2, or with cause 265, 266, 267 or 269, and then without. Or a
  -- translation of the second stage gives no answer. Apart from the cached context, a walk changes only
  -- the world and what counting events changes, so a failure is never cached.
  pub locate_process_context-PcEnds :
      (s : Iommu W) (no_levels : ℕ)
      → PcEnds dc did pid o s (locate_process_context P n dc did pid o s no_levels)
  unfolding locate_process_context
  locate_process_context-PcEnds s no_levels =
      let i = pdt_top_level (mode_of dc.fsc) no_levels in
      let a = get_bits 43 0 dc.fsc * 4096 in
      elim (Option-cases (lookup_ioatc_pc s did pid).0) [
        | inr (pc, e) ↦
            rw (e, locate_process_context)
              (hits pc (ap (λ x. (x, (lookup_ioatc_pc s did pid).1)) e) refl)
        | inl e ↦ rw (e, locate_process_context) (walks e (walk_pdt-PdtEnds P n dc did pid o i s a))
      ]

  -- A process that was located is found again: over a cache that has an entry, and in which no process of
  -- a device has two, the next lookup returns the context that `locate_process_context` returned.
  pub locate_process_context-lookup_ioatc_pc :
      (s : Iommu W) (no_levels : ℕ) (pc : ProcessContext)
      → IsPcUnique s.pdt_cache
      → 0 < length s.pdt_cache
      → (locate_process_context P n dc did pid o s no_levels).0 ≡ some (inr pc)
      → (lookup_ioatc_pc (locate_process_context P n dc did pid o s no_levels).1 did pid).0
        ≡ some pc
  locate_process_context-lookup_ioatc_pc s no_levels pc unique inside h =
      elim (locate_process_context-PcEnds s no_levels) [
        | hits x e q ↦
            let same : x ≡ pc = cc in
            ap (λ r. (lookup_ioatc_pc r.1 did pid).0) (sym e)
            ∙ lookup_ioatc_pc-lookup s did pid did pid
            ∙ ap (λ r. r.0) e
            ∙ ap some same
        | walks _ (unanswered e _) ↦ absurd cc
        | walks _ (rejected c e _ _) ↦ absurd cc
        | walks miss (loaded x u e _ _ k f) ↦
            let same : x ≡ pc = cc in
            let cache : u.pdt_cache ≡ s.pdt_cache = ap (λ t. t.pdt_cache) k in
            let missed : (lookup_ioatc_pc u did pid).0 ≡ none =
              lookup_ioatc_pc-pc_view u did pid
              ∙ ap (λ l. pc_view l (did, pid)) cache
              ∙ sym (lookup_ioatc_pc-pc_view s did pid)
              ∙ miss in
            let found =
              cache_ioatc_pc-lookup u did pid x (did + 1) pid (inl (omega arith))
                (subst IsPcUnique (sym cache) unique) missed
                (subst (λ l. 0 < length l) (sym cache) inside) in
            ap (λ t. (lookup_ioatc_pc t did pid).0) f ∙ found.0 ∙ ap some same
      ]
