-- ===== src/SecondStage/Returns.antt =====
-- When `second_stage_address_translation` returns: where no entry changes between its read and its update.
use mathlib.Core.Path.{subst}
use native.Mathlib.Nat.{div-add-mod, mul_comm}
use riscv_iommu_dv_model.Prelude.{
  ℕ, zero, suc, ◌+◌, ◌*◌, ◌/◌, ◌%◌, ◌^◌, ◌≤◌, ◌<◌, Bool, true, false, not, ◌&&◌, ◌||◌, ◌==◌, ◌≡◌,
  refl, sym, ap, ◌∙◌, arith, inl, inr, ◌⊎◌, if◌then◌else◌, get_bits, Bool-cases, bit_or, bit_and,
  clear_low, test_bit, some, Option,
}
use riscv_iommu_dv_model.Iommu.{Iommu}
use riscv_iommu_dv_model.Iommu.Platform.{Platform, Access}
use riscv_iommu_dv_model.Iommu.Caches.{DeviceContext}
use riscv_iommu_dv_model.Fault.{is_access_fault, is_data_corruption}
use riscv_iommu_dv_model.Hpm.{Event, count_events}
use riscv_iommu_dv_model.Hpm.Frame.{SameButEvents, count_events-SameButEvents, count_events_silent}
use riscv_iommu_dv_model.SecondStage.Frame.{visit-frame}
use riscv_iommu_dv_model.PageTable.Frames.{SameButEvents-IsFrame}
use riscv_iommu_dv_model.PageTable.{
  Format, sv32, sv39, sv48, sv57, top_of, pte_of, pte_size, misaligned, bad_napot, invalid_pte,
  is_leaf, lacks, bad_pointer, marked_word,
}
use riscv_iommu_dv_model.PageTable.Physical.{bit_or_disjoint, bit_and_low}
use riscv_iommu_dv_model.SecondStage.{
  GuestAccess, Mapping, is_settled, Visit, GstFault, fault, leaf, pointer, changed, page_fault,
  visit, visit_leaf, update_gpte, walk, resume, gst_access, g_pt_walk, guest_vpn,
  second_stage_address_translation, guest_format, upper_bits,
}
use riscv_iommu_dv_model.SecondStage.Mapped.{branches}
use riscv_iommu_dv_model.DeviceDirectory.{sxl, mode_of}
use riscv_iommu_dv_model.Iommu.Regs.{Capabilities}
use riscv_iommu_dv_model.DeviceDirectory.Format.{
  IsAccepted, GuestMode, bare, sv32x4, sv39x4, sv48x4, sv57x4,
}

-- The offset of an entry in its table.
entry_offset-lt :
    (f : Format) (i gpa : ℕ)
    → (f ≡ sv32 → get_bits 63 34 gpa ≡ 0)
    → i ≤ top_of f
    → (guest_vpn f i gpa * pte_size f < 2 ^ 14)
      × (i < top_of f → guest_vpn f i gpa * pte_size f < 2 ^ 12)
unfolding guest_vpn pte_size top_of
entry_offset-lt sv32 zero gpa b h = (omega arith, λ k. omega arith)
entry_offset-lt sv32 (suc i) gpa b h = let e = b refl in (omega arith, λ k. absurd (omega arith))
entry_offset-lt f zero gpa b h = (omega arith, λ k. omega arith)
entry_offset-lt f (suc zero) gpa b h = (omega arith, λ k. omega arith)
entry_offset-lt sv39 (suc (suc i)) gpa b h = (omega arith, λ k. absurd (omega arith))
entry_offset-lt f (suc (suc zero)) gpa b h = (omega arith, λ k. omega arith)
entry_offset-lt sv48 (suc (suc (suc i))) gpa b h = (omega arith, λ k. absurd (omega arith))
entry_offset-lt f (suc (suc (suc zero))) gpa b h = (omega arith, λ k. omega arith)
entry_offset-lt f (suc (suc (suc (suc i)))) gpa b h = (omega arith, λ k. absurd (omega arith))

-- The address that the update computes with `+` is the one that the read computes with `|`.
abbrev SameEntry : Format → (i a gpa : ℕ) → Type 0
SameEntry f i a gpa = bit_or a (guest_vpn f i gpa * pte_size f) ≡ a + guest_vpn f i gpa * pte_size f

disjoint : (k a x : ℕ) → a % 2 ^ k ≡ 0 → x < 2 ^ k → bit_or a x ≡ a + x
disjoint k a x h l =
    let e : a / 2 ^ k * 2 ^ k ≡ a =
      mul_comm (a / 2 ^ k) (2 ^ k) ∙ omega (arith, div-add-mod a (2 ^ k)) in
    ap (λ y. bit_or y x) (sym e) ∙ bit_or_disjoint k (a / 2 ^ k) x l ∙ ap (λ y. y + x) e

module _ (f : Format) (gpa : ℕ) (b : f ≡ sv32 → get_bits 63 34 gpa ≡ 0) where
  root-SameEntry : (a : ℕ) → a % 2 ^ 14 ≡ 0 → SameEntry f (top_of f) a gpa
  root-SameEntry a h = disjoint 14 a _ h (entry_offset-lt f (top_of f) gpa b (omega arith)).0

  inner-SameEntry : (i a : ℕ) → i < top_of f → a % 2 ^ 12 ≡ 0 → SameEntry f i a gpa
  inner-SameEntry i a l h = disjoint 12 a _ h ((entry_offset-lt f i gpa b (omega arith)).1 l)

-- A read that begins an update gives what a read just before it gave.
abbrev pub ReadsAgree : {W : Type 0} → Platform W → Type 0
ReadsAgree {W} P =
    (a : Access) (w : W) → (P.read_memory_for_amo a (P.read_memory a w).2).1 ≡ (P.read_memory a w).1

-- What makes an entry the same when it is read and when its update begins: two such reads agree, and
-- counting an event writes no memory, since interrupts are wires or no counter is implemented.
pub record IsSteady {W : Type 0} (P : Platform W) (s : Iommu W) : Type 0 where
  pub agree : ReadsAgree P
  pub silent :
      (s.reg_file.fctl.wsi ≡ true) ⊎ ((s.reg_file.capabilities.hpm ≡ false) ⊎ (s.num_hpm ≡ 0))

pub IsSteady-SameButEvents :
    {W : Type 0} (P : Platform W) (s t : Iommu W) → SameButEvents s t → IsSteady P s → IsSteady P t
IsSteady-SameButEvents P s t e h = record {
  agree = h.agree;
  silent =
      subst
        (λ x.
          (x.reg_file.fctl.wsi ≡ true) ⊎ ((x.reg_file.capabilities.hpm ≡ false) ⊎ (x.num_hpm ≡ 0)))
        (sym e) h.silent;
}

pub IsSteady-read :
    {W : Type 0} (P : Platform W) (s : Iommu W) (v : Event) (a : Access)
    → IsSteady P s
    → (P.read_memory_for_amo a
        (count_events P v (record s { world = (P.read_memory a s.world).2 })).world).1
      ≡ (P.read_memory a s.world).1
IsSteady-read {W} P s v a h =
    let u : Iommu W = record s { world = (P.read_memory a s.world).2 } in
    ap (λ w. (P.read_memory_for_amo a w).1) (count_events_silent P v u h.silent) ∙ h.agree a s.world

-- How a pass goes on where its entry does not change; it goes on to a table that is a page.
data Goes : Visit → Type 0 where
  faults : (g : GstFault) → Goes (fault g)
  points : (b : ℕ) → b % 2 ^ 12 ≡ 0 → Goes (pointer b)
  maps : (m : Mapping) → Goes (leaf m)

module _ {W : Type 0} (P : Platform W) (q : GuestAccess) (f : Format) where
  abbrev Settles : Visit × Iommu W → Type 0
  Settles v = Goes v.0

  update_gpte-Settles :
      (i : ℕ) (s : Iommu W) (a raw : ℕ)
      → (P.read_memory_for_amo
          (gst_access
            (count_events P (g_pt_walk q) s)
            q
            (a + guest_vpn f i q.gpa * pte_size f)
            (pte_size f))
          (count_events P (g_pt_walk q) s).world).1
        ≡ raw
      → Settles (update_gpte P q f i s a raw)
  unfolding update_gpte
  update_gpte-Settles i s a raw h =
      let t = count_events P (g_pt_walk q) s in
      let access = gst_access t q (a + guest_vpn f i q.gpa * pte_size f) (pte_size f) in
      let (status, amo, w) = P.read_memory_for_amo access t.world in
      let same = amo == raw in
      let dirty = (q.is_write || q.is_implicit) && test_bit amo 2 in
      let (status', w') = P.write_memory (if same then marked_word dirty amo else amo) access w in
      branches Settles (is_access_fault status) _ _ (λ _. faults _)
        (λ _.
          branches Settles (is_data_corruption status) _ _ (λ _. faults _)
            (λ _.
              branches Settles (is_access_fault status') _ _ (λ _. faults _)
                (λ _.
                  branches Settles (is_data_corruption status') _ _ (λ _. faults _)
                    (λ _.
                      branches Settles (not same) _ _ (λ y. absurd (ground arith)) (λ _. maps _)))))

  visit_leaf-Settles :
      (i : ℕ) (s : Iommu W) (a raw : ℕ)
      → (q.gade ≡ true
          → (P.read_memory_for_amo
              (gst_access
                (count_events P (g_pt_walk q) s)
                q
                (a + guest_vpn f i q.gpa * pte_size f)
                (pte_size f))
              (count_events P (g_pt_walk q) s).world).1
            ≡ raw)
      → Settles (visit_leaf P q f i s a raw)
  unfolding visit_leaf
  visit_leaf-Settles i s a raw h =
      let p = pte_of raw in
      branches Settles (lacks q.check_access_perms q.is_read q.is_write q.is_exec p) _ _
        (λ _. faults _)
        (λ _.
          branches Settles (p.u == 0) _ _ (λ _. faults _)
            (λ _.
              branches Settles (misaligned f i raw) _ _ (λ _. faults _)
                (λ _.
                  branches Settles (bad_napot i p) _ _ (λ _. faults _)
                    (λ _.
                      branches Settles (is_settled q p) _ _ (λ _. maps _)
                        (λ _.
                          branches Settles (not q.gade) _ _ (λ _. faults _)
                            (λ y. update_gpte-Settles i s a raw (h (ground arith))))))))

  -- The two accesses are the same one.
  same_access :
      (u t : Iommu W) (i a : ℕ)
      → SameEntry f i a q.gpa
      → u.reg_file.fctl ≡ t.reg_file.fctl
      → gst_access
          (count_events P (g_pt_walk q) u)
          q
          (a + guest_vpn f i q.gpa * pte_size f)
          (pte_size f)
        ≡ gst_access t q (bit_or a (guest_vpn f i q.gpa * pte_size f)) (pte_size f)
  same_access u t i a e k =
      let be : (count_events P (g_pt_walk q) u).reg_file.fctl.be ≡ t.reg_file.fctl.be =
        ap (λ x. x.reg_file.fctl.be) (count_events-SameButEvents P (g_pt_walk q) u)
        ∙ ap (λ c. c.be) k in
      ap
        (λ b. record (gst_access t q (a + guest_vpn f i q.gpa * pte_size f) (pte_size f)) {
          big_endian = b;
        })
        be
      ∙ ap (λ x. gst_access t q x (pte_size f)) (sym e)

  visit-Settles :
      (i : ℕ) (s : Iommu W) (a : ℕ)
      → (q.gade ≡ true → IsSteady P s)
      → SameEntry f i a q.gpa
      → Settles (visit P q f i s a)
  unfolding visit
  visit-Settles i s a quiet e =
      let v = g_pt_walk q in
      let t = count_events P v s in
      let access = gst_access t q (bit_or a (guest_vpn f i q.gpa * pte_size f)) (pte_size f) in
      let (status, raw, w) = P.read_memory access t.world in
      let u : Iommu W = record t { world = w } in
      let p = pte_of raw in
      branches Settles (not (clear_low a t.reg_file.capabilities.pas == 0)) _ _ (λ _. faults _)
        (λ n1.
          branches Settles (is_access_fault status) _ _ (λ _. faults _)
            (λ _.
              branches Settles (is_data_corruption status) _ _ (λ _. faults _)
                (λ _.
                  branches Settles (invalid_pte t.reg_file.capabilities p) _ _ (λ _. faults _)
                    (λ n2.
                      branches Settles (not (i == 0) && not (p.n == 0)) _ _ (λ _. faults _)
                        (λ n3.
                          branches Settles (is_leaf p) _ _
                            (λ _. visit_leaf-Settles i u a raw (λ y.
                              ap (λ c. (P.read_memory_for_amo c (count_events P v u).world).1)
                                (same_access u t i a e refl)
                              ∙ IsSteady-read P t v access (
                                  IsSteady-SameButEvents P s t (count_events-SameButEvents P v s)
                                    (quiet y))))
                            (λ _.
                              branches Settles (bad_pointer p) _ _ (λ _. faults _)
                                (λ _. points _ (omega arith))))))))

  abbrev Answers : Option (GstFault ⊎ Mapping) × Iommu W → Type 0
  Answers r = (o : GstFault ⊎ Mapping) × (r.0 ≡ some o)

  resume-Answers :
      (descend : Iommu W → ℕ → Option (GstFault ⊎ Mapping) × Iommu W)
      (retry : Iommu W → Option (GstFault ⊎ Mapping) × Iommu W) (v : Visit × Iommu W)
      → Settles v
      → ((b : ℕ) → b % 2 ^ 12 ≡ 0 → Answers (descend v.1 b))
      → Answers (resume descend retry v)
  resume-Answers descend retry (fault g, t) h k = (inl g, refl)
  resume-Answers descend retry (pointer b, t) (points _ e) k = k b e
  resume-Answers descend retry (leaf m, t) h k = (inr m, refl)
  resume-Answers descend retry (changed, t) h k = elim h [ ]

  module _ (b : f ≡ sv32 → get_bits 63 34 q.gpa ≡ 0) where
    still :
        (i : ℕ) (s : Iommu W) (a : ℕ)
        → (q.gade ≡ true → IsSteady P s)
        → q.gade ≡ true
        → IsSteady P (visit P q f i s a).1
    still i s a quiet y =
        IsSteady-SameButEvents P s (visit P q f i s a).1
          (visit-frame P SameButEvents (SameButEvents-IsFrame P) q f i s a) (quiet y)

    walk-Answers :
        (n i : ℕ) (s : Iommu W) (a : ℕ)
        → (q.gade ≡ true → IsSteady P s)
        → i ≤ top_of f
        → SameEntry f i a q.gpa
        → Answers (walk P q f n i s a)
    unfolding walk
    walk-Answers zero zero s a quiet l e =
        resume-Answers _ _ (visit P q f zero s a) (visit-Settles zero s a quiet e)
          (λ c k. (inl page_fault, refl))
    walk-Answers zero (suc i) s a quiet l e =
        let v = visit P q f (suc i) s a in
        resume-Answers _ _ v (visit-Settles (suc i) s a quiet e) (λ c k.
          walk-Answers zero i v.1 c (still (suc i) s a quiet) (omega arith)
            (inner-SameEntry f q.gpa b i c (omega arith) k))
    walk-Answers (suc n) zero s a quiet l e =
        resume-Answers _ _ (visit P q f zero s a) (visit-Settles zero s a quiet e)
          (λ c k. (inl page_fault, refl))
    walk-Answers (suc n) (suc i) s a quiet l e =
        let v = visit P q f (suc i) s a in
        resume-Answers _ _ v (visit-Settles (suc i) s a quiet e) (λ c k.
          walk-Answers (suc n) i v.1 c (still (suc i) s a quiet) (omega arith)
            (inner-SameEntry f q.gpa b i c (omega arith) k))

-- The format that a mode other than Bare names, and what the address must satisfy for Sv32x4.
module _ (c : Capabilities) (gxl : Bool) (m : ℕ) where
  format_of :
      (m == 0) ≡ false
      → GuestMode c gxl m
      → (f : Format) × (guest_format gxl m ≡ some f) × (f ≡ sv32 → gxl ≡ true)
  unfolding guest_format
  format_of h (bare e) = absurd (ground arith)
  format_of h (sv32x4 g e k) = (sv32, rw (g, e) refl, λ _. g)
  format_of h (sv39x4 g e k) = (sv39, rw (g, e) refl, λ x. absurd cc)
  format_of h (sv48x4 g e k) = (sv48, rw (g, e) refl, λ x. absurd cc)
  format_of h (sv57x4 g e k) = (sv57, rw (g, e) refl, λ x. absurd cc)

-- Where the width of a supervisor is 32 bits the address has 34.
narrow :
    (f : Format) (gpa : ℕ) (w : Bool)
    → not (upper_bits f w gpa == 0) ≡ false
    → (f ≡ sv32 → w ≡ true)
    → f ≡ sv32
    → get_bits 63 34 gpa ≡ 0
unfolding upper_bits
narrow f gpa true h k e = ground arith
narrow f gpa false h k e = absurd (let x = k e in cc)

same_width :
    {W : Type 0} (s : Iommu W) (dc : DeviceContext)
    → IsAccepted s dc
    → s.reg_file.fctl.gxl ≡ true
    → sxl dc ≡ true
same_width s dc ok g = elim ok.configured.options.width [ inl e ↦ e ∙ g | inr (e, _) ↦ absurd cc ]

aligned_root : (n : ℕ) → bit_and n 3 ≡ 0 → n * 4096 % 2 ^ 14 ≡ 0
aligned_root n h = let e = bit_and_low 2 n in omega arith

root_of :
    {W : Type 0} (s : Iommu W) (dc : DeviceContext)
    → IsAccepted s dc
    → (mode_of dc.iohgatp == 0) ≡ false
    → get_bits 43 0 dc.iohgatp * 4096 % 2 ^ 14 ≡ 0
root_of s dc ok other = elim ok.configured.second_stage.aligned [
  | inl e ↦ absurd (ground arith)
  | inr e ↦ aligned_root (get_bits 43 0 dc.iohgatp) e
]

module _ {W : Type 0} (P : Platform W) where
  -- `second_stage_address_translation` returns a fault or a mapping, with any number of retries and so
  -- without one, with the iohgatp and the SXL of a device context that the configuration checks accept.
  -- If GADE is on, two reads of an entry with no write between them have to agree, and the counting of
  -- events must not write to memory: interrupts are wires, or no counter is implemented.
  pub second_stage-returns :
      (n : ℕ) (s : Iommu W) (q : GuestAccess) (dc : DeviceContext)
      → (q.gade ≡ true → IsSteady P s)
      → IsAccepted s dc
      → q.iohgatp ≡ dc.iohgatp
      → q.sxl ≡ sxl dc
      → (o : GstFault ⊎ Mapping) × ((second_stage_address_translation P n s q).0 ≡ some o)
  unfolding second_stage_address_translation
  second_stage-returns n s q dc quiet ok e k =
      let c = s.reg_file.capabilities in
      let gxl = s.reg_file.fctl.gxl in
      let mode = get_bits 63 60 q.iohgatp in
      let guest : GuestMode c gxl mode =
        subst (λ w. GuestMode c gxl (get_bits 63 60 w)) (sym e) ok.configured.second_stage.guest in
      elim (Bool-cases (mode == 0)) [
        | inl y ↦ rw (y, second_stage_address_translation) (inr _, refl)
        | inr other ↦
            let (f, known, wide) = format_of c gxl mode other guest in
            let a = get_bits 43 0 q.iohgatp * 4096 in
            let root : a % 2 ^ 14 ≡ 0 =
              ap (λ w. get_bits 43 0 w * 4096 % 2 ^ 14) e
              ∙ root_of s dc ok (ap (λ w. get_bits 63 60 w == 0) (sym e) ∙ other) in
            rw (other, second_stage_address_translation)
              (rw (known, second_stage_address_translation)
                (elim (Bool-cases (not (upper_bits f q.sxl q.gpa == 0))) [
                  | inl y ↦ rw y (inl page_fault, refl)
                  | inr y ↦
                      let b = narrow f q.gpa q.sxl y (λ x. k ∙ same_width s dc ok (wide x)) in
                      rw y (
                        walk-Answers P q f b n (top_of f) s a quiet (omega arith)
                          (root-SameEntry f q.gpa b a root))
                ]))
      ]
