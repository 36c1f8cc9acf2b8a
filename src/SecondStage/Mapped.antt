-- ===== src/SecondStage/Mapped.antt =====
-- What `second_stage_address_translation` returns, over any memory.
use mathlib.Core.Path.{subst}
use riscv_iommu_dv_model.Prelude.{
  ℕ, zero, suc, ◌+◌, ◌*◌, ◌≤◌, Bool, true, false, not, ◌&&◌, ◌||◌, ◌==◌, ◌≡◌, refl, sym, ap, ◌∙◌,
  arith, inl, inr, ◌⊎◌, if◌then◌else◌, get_bits, Bool-cases, bit_or, clear_low, test_bit, some,
  none, Option,
}
use riscv_iommu_dv_model.Iommu.{Iommu}
use riscv_iommu_dv_model.Iommu.Platform.{Platform}
use riscv_iommu_dv_model.Iommu.Pte.{Pte}
use riscv_iommu_dv_model.Fault.{is_access_fault, is_data_corruption}
use riscv_iommu_dv_model.Hpm.{count_events}
use riscv_iommu_dv_model.Hpm.Frame.{SameButEvents, SameButEvents-trans, count_events-SameButEvents}
use riscv_iommu_dv_model.PageTable.{
  Format, top_of, pte_of, pte_size, page_size_at, misaligned, bad_napot, invalid_pte, is_leaf,
  lacks, napot_pte, bad_pointer, marked_word,
}
use riscv_iommu_dv_model.PageTable.Checks.{pte_of-IsWide}
use riscv_iommu_dv_model.PageTable.Frames.{SameButEvents-IsFrame}
use riscv_iommu_dv_model.SecondStage.{
  GuestAccess, Mapping, mapping_of, is_settled, Visit, GstFault, fault, leaf, pointer, changed,
  visit, visit_leaf, update_gpte, walk, resume, page_fault, gst_access, g_pt_walk, guest_vpn,
  second_stage_address_translation, guest_format, upper_bits,
}
use riscv_iommu_dv_model.SecondStage.Leaf.{
  Grants, Grants-intro, IsTarget, span, mapping_of-IsTarget,
}
use riscv_iommu_dv_model.SecondStage.Frame.{visit-frame, second_stage-frame}

-- A property of both branches, each under its condition.
pub branches :
    {A : Type 0} (Q : A → Type 0) (b : Bool) (x y : A)
    → (b ≡ true → Q x)
    → (b ≡ false → Q y)
    → Q (if b then x else y)
branches Q true x y h k = h refl
branches Q false x y h k = k refl

module _ {W : Type 0} where
  -- A visit that ends in a mapping ends in one that `Q` holds of.
  record EndsIn (Q : Mapping → Type 0) (v : Visit × Iommu W) : Type 0 where
    ends : (m : Mapping) → v.0 ≡ leaf m → Q m

  stops : (Q : Mapping → Type 0) (g : GstFault) (t : Iommu W) → EndsIn Q (fault g, t)
  stops Q g t = record { ends = λ m h. absurd cc }

  again : (Q : Mapping → Type 0) (t : Iommu W) → EndsIn Q (changed, t)
  again Q t = record { ends = λ m h. absurd cc }

  descends : (Q : Mapping → Type 0) (b : ℕ) (t : Iommu W) → EndsIn Q (pointer b, t)
  descends Q b t = record { ends = λ m h. absurd cc }

  found : (Q : Mapping → Type 0) (m : Mapping) (t : Iommu W) → Q m → EndsIn Q (leaf m, t)
  found Q m t k = record { ends = λ n h. let e : m ≡ n = cc in subst Q e k }

pub ==_zero : (n : ℕ) → not (n == 0) ≡ false → n ≡ 0
==_zero n h = ground arith

pub lowest : {n i m : ℕ} → (n ≡ 0) ⊎ ((i ≡ 0) × (m ≡ 8)) → (n ≡ 0) ⊎ (i ≡ 0)
lowest (inl h) = inl h
lowest (inr (h, _)) = inr h

module _ {W : Type 0} (P : Platform W) (q : GuestAccess) (f : Format) where
  update_gpte-leaf :
      (Q : Mapping → Type 0) (i : ℕ) (s : Iommu W) (a raw : ℕ)
      → Q (mapping_of q.gpa (page_size_at f i) (pte_of raw))
      → EndsIn Q (update_gpte P q f i s a raw)
  unfolding update_gpte
  update_gpte-leaf Q i s a raw h =
      let t = count_events P (g_pt_walk q) s in
      let access = gst_access t q (a + guest_vpn f i q.gpa * pte_size f) (pte_size f) in
      let (status, amo, w) = P.read_memory_for_amo access t.world in
      let same = amo == raw in
      let dirty = (q.is_write || q.is_implicit) && test_bit amo 2 in
      let (status', w') = P.write_memory (if same then marked_word dirty amo else amo) access w in
      branches (EndsIn Q) (is_access_fault status) _ _ (λ _. stops Q _ _)
        (λ _.
          branches (EndsIn Q) (is_data_corruption status) _ _ (λ _. stops Q _ _)
            (λ _.
              branches (EndsIn Q) (is_access_fault status') _ _ (λ _. stops Q _ _)
                (λ _.
                  branches (EndsIn Q) (is_data_corruption status') _ _ (λ _. stops Q _ _)
                    (λ _.
                      branches (EndsIn Q) (not same) _ _ (λ _. again Q _) (λ _. found Q _ _ h)))))

  visit_leaf-leaf :
      (Q : Mapping → Type 0) (i : ℕ) (s : Iommu W) (a raw : ℕ)
      → (lacks q.check_access_perms q.is_read q.is_write q.is_exec (pte_of raw) ≡ false
          → ((pte_of raw).u == 0) ≡ false
          → misaligned f i raw ≡ false
          → bad_napot i (pte_of raw) ≡ false
          → (is_settled q (pte_of raw) ≡ true) ⊎ (q.gade ≡ true)
          → Q (mapping_of q.gpa (page_size_at f i) (pte_of raw)))
      → EndsIn Q (visit_leaf P q f i s a raw)
  unfolding visit_leaf
  visit_leaf-leaf Q i s a raw h =
      let p = pte_of raw in
      branches (EndsIn Q) (lacks q.check_access_perms q.is_read q.is_write q.is_exec p) _ _
        (λ _. stops Q _ _)
        (λ n1.
          branches (EndsIn Q) (p.u == 0) _ _ (λ _. stops Q _ _)
            (λ n2.
              branches (EndsIn Q) (misaligned f i raw) _ _ (λ _. stops Q _ _)
                (λ n3.
                  branches (EndsIn Q) (bad_napot i p) _ _ (λ _. stops Q _ _)
                    (λ n4.
                      branches (EndsIn Q) (is_settled q p) _ _
                        (λ y. found Q _ _ (h n1 n2 n3 n4 (inl y)))
                        (λ _.
                          branches (EndsIn Q) (not q.gade) _ _ (λ _. stops Q _ _)
                            (λ y.
                              update_gpte-leaf Q i s a raw
                                (h n1 n2 n3 n4 (inr (ground arith)))))))))

  -- The entry that a mapping comes from: what a table's read gave, granted to the access; and what the
  -- mapping makes of it.
  pub record Maps (s : Iommu W) (m : Mapping) : Type 0 where
    pub i : ℕ
    pub table : ℕ
    pub world : W
    pub raw : ℕ
    pub read :
        (P.read_memory
          (gst_access s q (bit_or table (guest_vpn f i q.gpa * pte_size f)) (pte_size f))
          world).1
        ≡ raw
    pub in_memory : clear_low table s.reg_file.capabilities.pas ≡ 0
    pub grants : Grants s.reg_file.capabilities q f i (pte_of raw)
    pub page_sz : m.page_sz ≡ page_size_at f i
    pub pte : m.pte ≡ napot_pte (pte_of raw) q.gpa
    pub pa : IsTarget m.pa (span f i (pte_of raw)) (pte_of raw) q.gpa

  page_sz_of :
      (i : ℕ) (p : Pte) → (mapping_of q.gpa (page_size_at f i) p).page_sz ≡ page_size_at f i
  unfolding mapping_of
  page_sz_of i p = refl

  pte_of_mapping :
      (i : ℕ) (p : Pte) → (mapping_of q.gpa (page_size_at f i) p).pte ≡ napot_pte p q.gpa
  unfolding mapping_of
  pte_of_mapping i p = refl

  visit-leaf :
      (s t : Iommu W) (i a : ℕ)
      → SameButEvents s t
      → i ≤ top_of f
      → EndsIn (Maps s) (visit P q f i t a)
  unfolding visit
  visit-leaf s t0 i a same l =
      let Q = Maps s in
      let t = count_events P (g_pt_walk q) t0 in
      let access = gst_access t q (bit_or a (guest_vpn f i q.gpa * pte_size f)) (pte_size f) in
      let (status, raw, w) = P.read_memory access t.world in
      let u : Iommu W = record t { world = w } in
      let p = pte_of raw in
      let still : SameButEvents s t =
        SameButEvents-trans s t0 t same (count_events-SameButEvents P (g_pt_walk q) t0) in
      let c : t.reg_file.capabilities ≡ s.reg_file.capabilities =
        ap (λ x. x.reg_file.capabilities) still in
      branches (EndsIn Q) (not (clear_low a t.reg_file.capabilities.pas == 0)) _ _
        (λ _. stops Q _ _)
        (λ n1.
          branches (EndsIn Q) (is_access_fault status) _ _ (λ _. stops Q _ _)
            (λ _.
              branches (EndsIn Q) (is_data_corruption status) _ _ (λ _. stops Q _ _)
                (λ _.
                  branches (EndsIn Q) (invalid_pte t.reg_file.capabilities p) _ _ (λ _. stops Q _ _)
                    (λ n2.
                      branches (EndsIn Q) (not (i == 0) && not (p.n == 0)) _ _ (λ _. stops Q _ _)
                        (λ n3.
                          branches (EndsIn Q) (is_leaf p) _ _
                            (λ y. visit_leaf-leaf Q i u a raw (λ m1 m2 m3 m4 m5.
                              let valid : invalid_pte s.reg_file.capabilities p ≡ false =
                                ap (λ x. invalid_pte x p) (sym c) ∙ n2 in
                              let g =
                                Grants-intro s.reg_file.capabilities q f i raw l valid n3 y m1 m2 m3
                                  m4 m5 in
                              record {
                                i = i;
                                table = a;
                                world = t.world;
                                raw = raw;
                                read =
                                    ap
                                      (λ b.
                                        (P.read_memory (record access { big_endian = b })
                                          t.world).1)
                                      (sym (ap (λ x. x.reg_file.fctl.be) still));
                                in_memory = ap (λ x. clear_low a x.pas) (sym c) ∙ ==_zero _ n1;
                                grants = g;
                                page_sz = page_sz_of i p;
                                pte = pte_of_mapping i p;
                                pa =
                                    mapping_of-IsTarget f i q.gpa p l (pte_of-IsWide raw).ppn
                                      (lowest g.napot);
                              }))
                            (λ _.
                              branches (EndsIn Q) (bad_pointer p) _ _ (λ _. stops Q _ _)
                                (λ _. descends Q _ _)))))))

  -- A result that is a mapping is one that `Q` holds of.
  record Returns (Q : Mapping → Type 0) (r : Option (GstFault ⊎ Mapping) × Iommu W) : Type 0 where
    returns : (m : Mapping) → r.0 ≡ some (inr m) → Q m

  resume-Returns :
      (Q : Mapping → Type 0) (descend : Iommu W → ℕ → Option (GstFault ⊎ Mapping) × Iommu W)
      (retry : Iommu W → Option (GstFault ⊎ Mapping) × Iommu W) (v : Visit × Iommu W)
      → EndsIn Q v
      → ((b : ℕ) → Returns Q (descend v.1 b))
      → Returns Q (retry v.1)
      → Returns Q (resume descend retry v)
  resume-Returns Q descend retry (fault g, t) h k l = record { returns = λ m e. absurd cc }
  resume-Returns Q descend retry (pointer b, t) h k l = k b
  resume-Returns Q descend retry (leaf n, t) h k l = record {
    returns = λ m e. let same : n ≡ m = cc in subst Q same (h.ends n refl);
  }
  resume-Returns Q descend retry (changed, t) h k l = l

  nothing : (Q : Mapping → Type 0) (t : Iommu W) → Returns Q (some (inl page_fault), t)
  nothing Q t = record { returns = λ m e. absurd cc }

  unknown : (Q : Mapping → Type 0) (t : Iommu W) → Returns Q (none, t)
  unknown Q t = record { returns = λ m e. absurd cc }

  after : (s t : Iommu W) (i a : ℕ) → SameButEvents s t → SameButEvents s (visit P q f i t a).1
  after s t i a e =
      SameButEvents-trans s t (visit P q f i t a).1 e
        (visit-frame P SameButEvents (SameButEvents-IsFrame P) q f i t a)

  module _ (s : Iommu W) where
    walk-Returns :
        (n i : ℕ) (t : Iommu W) (a : ℕ)
        → SameButEvents s t
        → i ≤ top_of f
        → Returns (Maps s) (walk P q f n i t a)
    unfolding walk
    walk-Returns zero zero t a e l =
        let v = visit P q f zero t a in
        resume-Returns (Maps s) _ _ v (visit-leaf s t zero a e l) (λ b. nothing _ v.1)
          (unknown _ v.1)
    walk-Returns zero (suc i) t a e l =
        let v = visit P q f (suc i) t a in
        let k = after s t (suc i) a e in
        resume-Returns (Maps s) _ _ v (visit-leaf s t (suc i) a e l)
          (λ b. walk-Returns zero i v.1 b k (omega arith)) (unknown _ v.1)
    walk-Returns (suc n) zero t a e l =
        let v = visit P q f zero t a in
        let k = after s t zero a e in
        resume-Returns (Maps s) _ _ v (visit-leaf s t zero a e l) (λ b. nothing _ v.1)
          (walk-Returns n zero v.1 a k l)
    walk-Returns (suc n) (suc i) t a e l =
        let v = visit P q f (suc i) t a in
        let k = after s t (suc i) a e in
        resume-Returns (Maps s) _ _ v (visit-leaf s t (suc i) a e l)
          (λ b. walk-Returns (suc n) i v.1 b k (omega arith)) (walk-Returns n (suc i) v.1 a k l)

module _ {W : Type 0} (P : Platform W) where
  -- `second_stage_address_translation` changes the world and what counting events changes, and nothing
  -- else.
  pub second_stage-SameButEvents :
      (n : ℕ) (s : Iommu W) (q : GuestAccess)
      → SameButEvents s (second_stage_address_translation P n s q).1
  second_stage-SameButEvents n s q =
      second_stage-frame P SameButEvents (SameButEvents-IsFrame P) n s q

  -- Over any memory: a mapping that `second_stage_address_translation` returns in a mode other than Bare
  -- comes from an entry that a read of some table gave, at the table's index that the guest address
  -- has there. The entry is well formed, a leaf and for user mode, permits the access where permissions
  -- are checked, is aligned to its level's page, and is marked as accessed, and as dirty for a write, or
  -- GADE is on. The address is the entry's base and the offset of the guest address in what the entry
  -- maps, which is 64 KiB for a NAPOT entry.
  pub second_stage-Maps :
      (n : ℕ) (s : Iommu W) (q : GuestAccess) (f : Format) (m : Mapping)
      → (get_bits 63 60 q.iohgatp == 0) ≡ false
      → guest_format s.reg_file.fctl.gxl (get_bits 63 60 q.iohgatp) ≡ some f
      → (second_stage_address_translation P n s q).0 ≡ some (inr m)
      → Maps P q f s m
  unfolding second_stage_address_translation
  second_stage-Maps n s q f m other e =
      rw (other, second_stage_address_translation)
        (rw (e, second_stage_address_translation)
          (elim (Bool-cases (not (upper_bits f q.sxl q.gpa == 0))) [
            | inl y ↦ rw y (λ h. absurd cc)
            | inr y ↦ rw y (λ h.
                (walk-Returns P q f s n (top_of f) s (get_bits 43 0 q.iohgatp * 4096) refl
                    (omega arith)).returns
                  m h)
          ]))
