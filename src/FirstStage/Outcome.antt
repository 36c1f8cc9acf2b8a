-- ===== src/FirstStage/Outcome.antt =====
-- What `two_stage_address_translation` of iommu_ref_model/libiommu/src/iommu_two_stage_trans.c returns,
-- over any memory.
use riscv_iommu_dv_model.Prelude.{
  ℕ, zero, suc, ◌+◌, ◌*◌, ◌%◌, ◌≤◌, Bool, true, false, not, ◌&&◌, ◌==◌, ◌≡◌, refl, sym, ap, ◌∙◌,
  arith, inl, inr, ◌⊎◌, if◌then◌else◌, get_bits, Bool-cases, Option-cases, bit_or, clear_low,
  test_bit, bit, some, none, Option,
}
use riscv_iommu_dv_model.Iommu.{Iommu}
use riscv_iommu_dv_model.Iommu.Platform.{Platform}
use riscv_iommu_dv_model.Fault.{is_access_fault, is_data_corruption}
use riscv_iommu_dv_model.Hpm.{count_events}
use riscv_iommu_dv_model.Hpm.Frame.{SameButEvents, SameButEvents-trans, count_events-SameButEvents}
use riscv_iommu_dv_model.PageTable.{
  Format, top_of, pte_of, pte_size, page_size_at, misaligned, bad_napot, invalid_pte, is_leaf,
  lacks, bad_pointer, marked_word,
}
use riscv_iommu_dv_model.PageTable.Checks.{pte_of-IsWide}
use riscv_iommu_dv_model.PageTable.Frames.{SameButEvents-IsFrame}
use riscv_iommu_dv_model.SecondStage.{
  GstFault, Mapping, page_fault, access_fault, data_corruption, guest_format,
  second_stage_address_translation,
}
use riscv_iommu_dv_model.SecondStage.Leaf.{IsTarget, span}
use riscv_iommu_dv_model.SecondStage.Mapped.{branches, lowest, ==_zero, second_stage-SameButEvents}
use riscv_iommu_dv_model.FirstStage.{
  IovaAccess, TransFault, by_access, page_faulted, access_faulted, corrupted, guest_page_faulted,
  vs_fault, vpn, not_canonical, privilege_denies, is_marked, vs_mapping_of, vs_pt_walk,
  implicit_access, pte_access, VsVisit, vs_fails, vs_pointer, vs_leaf, vs_changed, unanswered,
  update_pte, vs_visit_leaf, visit_pte, vs_visit, vs_resume, vs_walk, two_stage_address_translation,
}
use riscv_iommu_dv_model.FirstStage.Frame.{vs_visit-frame}
use riscv_iommu_dv_model.FirstStage.Leaf.{
  VsGrants, VsGrants-intro, vs_mapping_of-IsTarget, page_sz-vs_mapping_of,
}

-- What iotval2 gives for the table at `a`: its page, bit 0 for an implicit access, and bit 1 for a write.
abbrev pub table_info : (a : ℕ) → (write : Bool) → ℕ
table_info a write = bit_or (bit_or (clear_low a 2) 1) (bit write * 2)

-- The faults, by the original access; `G` holds of what a guest page fault reports in iotval2.
pub data IsVsFault (q : IovaAccess) (G : ℕ → Type 0) (e : TransFault) : Type 0 where
  page : e.cause ≡ by_access q 12 13 15 → e.iotval2 ≡ 0 → IsVsFault q G e
  access : e.cause ≡ by_access q 1 5 7 → e.iotval2 ≡ 0 → IsVsFault q G e
  corrupt : e.cause ≡ 274 → e.iotval2 ≡ 0 → IsVsFault q G e
  guest : e.cause ≡ by_access q 20 21 23 → G e.iotval2 → IsVsFault q G e

module _ (q : IovaAccess) (G : ℕ → Type 0) where
  is_page : IsVsFault q G (page_faulted q)
  unfolding page_faulted
  is_page = page refl refl

  is_access : IsVsFault q G (access_faulted q)
  unfolding access_faulted
  is_access = access refl refl

  is_corrupt : IsVsFault q G corrupted
  is_corrupt = corrupt refl refl

  is_guest : (a : ℕ) (b : Bool) → G (table_info a b) → IsVsFault q G (guest_page_faulted q a b)
  unfolding guest_page_faulted
  is_guest a b h = guest refl h

  vs_fault-IsVsFault :
      (a : ℕ) (b : Bool) (g : GstFault)
      → (g ≡ page_fault → G (table_info a b))
      → IsVsFault q G (vs_fault q a b g)
  unfolding vs_fault
  vs_fault-IsVsFault a b page_fault h = is_guest a b (h refl)
  vs_fault-IsVsFault a b access_fault h = is_access
  vs_fault-IsVsFault a b data_corruption h = is_corrupt

-- What a pass may end in.
data Ends (q : IovaAccess) (G : ℕ → Type 0) (Q : Mapping → Type 0) : VsVisit → Type 0 where
  fails : (e : TransFault) → IsVsFault q G e → Ends q G Q (vs_fails e)
  points : (a g : ℕ) → a % 4096 ≡ 0 → Ends q G Q (vs_pointer a g)
  maps : (m : Mapping) → Q m → Ends q G Q (vs_leaf m)
  changes : Ends q G Q vs_changed
  gives_up : Ends q G Q unanswered

module _ {W : Type 0} (P : Platform W) (n : ℕ) (q : IovaAccess) (f : Format) where
  -- The entry that a mapping comes from: what a read gave at the address that the second stage made of
  -- the entry's guest address, granted to the access; and what the mapping makes of it.
  pub record VsMaps (s : Iommu W) (m : Mapping) : Type 0 where
    pub i : ℕ
    pub table : ℕ
    pub before : Iommu W
    pub same : SameButEvents s before
    pub guest : Mapping
    pub translated :
        (second_stage_address_translation P n before
          (implicit_access q (table + vpn f i q.iova * pte_size f))).0
        ≡ some (inr guest)
    pub in_memory : clear_low guest.pa s.reg_file.capabilities.pas ≡ 0
    pub world : W
    pub raw : ℕ
    pub read : (P.read_memory (pte_access q f guest) world).1 ≡ raw
    pub grants : VsGrants s.reg_file.capabilities q f i (not (guest.pte.w == 0)) (pte_of raw)
    pub page_sz : m.page_sz ≡ page_size_at f i
    pub pa : IsTarget m.pa (span f i (pte_of raw)) (pte_of raw) q.iova

  -- The passes that a walk from the table at `root` makes: the first; one a level below a pass that met a
  -- pointer; and one again at an entry that changed when its update began, which is marked as a write.
  pub data Pass (root : ℕ) (s : Iommu W) : ℕ → Bool → ℕ → Iommu W → Type 0 where
    starts : Pass root s (top_of f) false root s
    descends :
        (i g : ℕ) (w : Bool) (a b h : ℕ) (t : Iommu W)
        → Pass root s (suc i) w a t
        → (vs_visit P n q f (suc i) g w t a).0 ≡ vs_pointer b h
        → Pass root s i w b (vs_visit P n q f (suc i) g w t a).1
    repeats :
        (i g : ℕ) (w : Bool) (a : ℕ) (t : Iommu W)
        → Pass root s i w a t
        → (vs_visit P n q f i g w t a).0 ≡ vs_changed
        → Pass root s i true a (vs_visit P n q f i g w t a).1

  -- The guest page faults: the second stage refuses the implicit access to the entry, and iotval2 gives the
  -- table of the pass and whether it is marked as a write; or it maps the entry as one that cannot be
  -- written where an update is needed, and iotval2 gives the table and a write.
  pub data GuestInfo (root : ℕ) (s : Iommu W) (iotval2 : ℕ) : Type 0 where
    refused :
        (i a : ℕ) (w : Bool) (t : Iommu W)
        → Pass root s i w a t
        → a % 4096 ≡ 0
        → (second_stage_address_translation P n t
            (implicit_access q (a + vpn f i q.iova * pte_size f))).0
          ≡ some (inl page_fault)
        → iotval2 ≡ table_info a w
        → GuestInfo root s iotval2
    unwritable :
        (i a : ℕ) (w : Bool) (t : Iommu W) (m : Mapping)
        → Pass root s i w a t
        → a % 4096 ≡ 0
        → (second_stage_address_translation P n t
            (implicit_access q (a + vpn f i q.iova * pte_size f))).0
          ≡ some (inr m)
        → m.pte.w ≡ 0
        → q.sade ≡ true
        → iotval2 ≡ table_info a true
        → GuestInfo root s iotval2

  module _ (G : ℕ → Type 0) (Q : Mapping → Type 0) where
    abbrev EndsIn : VsVisit × Iommu W → Type 0
    EndsIn v = Ends q G Q v.0

    update_pte-Ends :
        (i g : ℕ) (s : Iommu W) (m : Mapping) (raw : ℕ)
        → Q (vs_mapping_of q.iova (page_size_at f i) g (pte_of raw))
        → EndsIn (update_pte P n q f i g s m raw)
    unfolding update_pte
    update_pte-Ends i g s m raw h =
        let t = count_events P (vs_pt_walk q) s in
        let (status, amo, w) = P.read_memory_for_amo (pte_access q f m) t.world in
        let same = amo == raw in
        let dirty = q.is_write && test_bit amo 2 in
        let (status', w') =
          P.write_memory (if same then marked_word dirty amo else amo) (pte_access q f m) w in
        branches EndsIn (is_access_fault status) _ _ (λ _. fails _ (is_access q G))
          (λ _.
            branches EndsIn (is_data_corruption status) _ _ (λ _. fails _ (is_corrupt q G))
              (λ _.
                branches EndsIn (is_access_fault status') _ _ (λ _. fails _ (is_access q G))
                  (λ _.
                    branches EndsIn (is_data_corruption status') _ _ (λ _. fails _ (is_corrupt q G))
                      (λ _. branches EndsIn (not same) _ _ (λ _. changes) (λ _. maps _ h)))))

    vs_visit_leaf-Ends :
        (i g : ℕ) (s : Iommu W) (a : ℕ) (m : Mapping) (raw : ℕ)
        → (m.pte.w ≡ 0 → q.sade ≡ true → G (table_info a true))
        → (lacks q.check_access_perms q.is_read q.is_write q.is_exec (pte_of raw) ≡ false
            → privilege_denies q (pte_of raw) ≡ false
            → misaligned f i raw ≡ false
            → bad_napot i (pte_of raw) ≡ false
            → (is_marked q (pte_of raw) ≡ true) ⊎ ((q.sade ≡ true) × (not (m.pte.w == 0) ≡ true))
            → Q (vs_mapping_of q.iova (page_size_at f i) g (pte_of raw)))
        → EndsIn (vs_visit_leaf P n q f i g s a m raw)
    unfolding vs_visit_leaf
    vs_visit_leaf-Ends i g s a m raw z h =
        let p = pte_of raw in
        branches EndsIn (lacks q.check_access_perms q.is_read q.is_write q.is_exec p) _ _
          (λ _. fails _ (is_page q G))
          (λ n1.
            branches EndsIn (privilege_denies q p) _ _ (λ _. fails _ (is_page q G))
              (λ n2.
                branches EndsIn (misaligned f i raw) _ _ (λ _. fails _ (is_page q G))
                  (λ n3.
                    branches EndsIn (bad_napot i p) _ _ (λ _. fails _ (is_page q G))
                      (λ n4.
                        branches EndsIn (is_marked q p) _ _ (λ y. maps _ (h n1 n2 n3 n4 (inl y)))
                          (λ _.
                            branches EndsIn (not q.sade) _ _ (λ _. fails _ (is_page q G))
                              (λ y.
                                branches EndsIn (m.pte.w == 0) _ _
                                  (λ x.
                                    fails _ (is_guest q G a true (z (ground arith) (ground arith))))
                                  (λ x.
                                    update_pte-Ends i g s m raw
                                      (h n1 n2 n3 n4 (inr (ground arith, ap not x))))))))))

  module _ (G : ℕ → Type 0) (s : Iommu W) where
    visit_pte-Ends :
        (i g : ℕ) (before t0 : Iommu W) (a : ℕ) (m : Mapping)
        → SameButEvents s before
        → SameButEvents s t0
        → (second_stage_address_translation P n before
            (implicit_access q (a + vpn f i q.iova * pte_size f))).0
          ≡ some (inr m)
        → (m.pte.w ≡ 0 → q.sade ≡ true → G (table_info a true))
        → i ≤ top_of f
        → Ends q G (VsMaps s) (visit_pte P n q f i g t0 a m).0
    unfolding visit_pte
    visit_pte-Ends i g before t0 a m first same known z l =
        let Q = VsMaps s in
        let t = count_events P (vs_pt_walk q) t0 in
        let (status, raw, w) = P.read_memory (pte_access q f m) t.world in
        let u : Iommu W = record t { world = w } in
        let p = pte_of raw in
        let still : SameButEvents s t =
          SameButEvents-trans s t0 t same (count_events-SameButEvents P (vs_pt_walk q) t0) in
        let c : t.reg_file.capabilities ≡ s.reg_file.capabilities =
          ap (λ x. x.reg_file.capabilities) still in
        let c0 : t0.reg_file.capabilities ≡ s.reg_file.capabilities =
          ap (λ x. x.reg_file.capabilities) same in
        branches (EndsIn G Q) (not (clear_low m.pa t0.reg_file.capabilities.pas == 0)) _ _
          (λ _. fails _ (is_access q G))
          (λ n1.
            branches (EndsIn G Q) (is_access_fault status) _ _ (λ _. fails _ (is_access q G))
              (λ _.
                branches (EndsIn G Q) (is_data_corruption status) _ _
                  (λ _. fails _ (is_corrupt q G))
                  (λ _.
                    branches (EndsIn G Q) (invalid_pte u.reg_file.capabilities p) _ _
                      (λ _. fails _ (is_page q G))
                      (λ n2.
                        branches (EndsIn G Q) (not (i == 0) && not (p.n == 0)) _ _
                          (λ _. fails _ (is_page q G))
                          (λ n3.
                            branches (EndsIn G Q) (is_leaf p) _ _
                              (λ y. vs_visit_leaf-Ends G Q i g u a m raw z (λ m1 m2 m3 m4 m5.
                                let valid : invalid_pte s.reg_file.capabilities p ≡ false =
                                  ap (λ x. invalid_pte x p) (sym c) ∙ n2 in
                                let grants =
                                  VsGrants-intro s.reg_file.capabilities q f i (not (m.pte.w == 0))
                                    raw l valid n3 y m1 m2 m3 m4 m5 in
                                record {
                                  i = i;
                                  table = a;
                                  before = before;
                                  same = first;
                                  guest = m;
                                  translated = known;
                                  in_memory =
                                      ap (λ x. clear_low m.pa x.pas) (sym c0) ∙ ==_zero _ n1;
                                  world = t.world;
                                  raw = raw;
                                  read = refl;
                                  grants = grants;
                                  page_sz = page_sz-vs_mapping_of f i q.iova g p;
                                  pa =
                                      vs_mapping_of-IsTarget f i q.iova g p l
                                        (pte_of-IsWide raw).ppn (lowest grants.napot);
                                }))
                              (λ _.
                                branches (EndsIn G Q) (bad_pointer p) _ _
                                  (λ _. fails _ (is_page q G)) (λ _. points _ _ (omega arith))))))))

    vs_visit-Ends :
        (i g : ℕ) (b : Bool) (t : Iommu W) (a : ℕ)
        → SameButEvents s t
        → ((second_stage_address_translation P n t
                (implicit_access q (a + vpn f i q.iova * pte_size f))).0
              ≡ some (inl page_fault)
            → G (table_info a b))
        → ((m : Mapping)
            → (second_stage_address_translation P n t
                (implicit_access q (a + vpn f i q.iova * pte_size f))).0
              ≡ some (inr m)
            → m.pte.w ≡ 0
            → q.sade ≡ true
            → G (table_info a true))
        → i ≤ top_of f
        → Ends q G (VsMaps s) (vs_visit P n q f i g b t a).0
    unfolding vs_visit
    vs_visit-Ends i g b t a same z zw l =
        let c = implicit_access q (a + vpn f i q.iova * pte_size f) in
        let u = (second_stage_address_translation P n t c).1 in
        elim (Option-cases (second_stage_address_translation P n t c).0) [
          | inl e ↦ rw (e, vs_visit) gives_up
          | inr (inl x, e) ↦
              rw (e, vs_visit)
                (fails _ (vs_fault-IsVsFault q G a b x (λ p. z (e ∙ ap (λ y. some (inl y)) p))))
          | inr (inr m, e) ↦
              rw (e, vs_visit)
                (visit_pte-Ends i g t u a m same
                  (SameButEvents-trans s t u same (second_stage-SameButEvents P n t c)) e (zw m e)
                  l)
        ]

-- What a call may answer: nothing, a fault, or a mapping that `Q` holds of.
pub data Answers (q : IovaAccess) (G : ℕ → Type 0) (Q : Mapping → Type 0)
    : Option (TransFault ⊎ Mapping) → Type 0 where
  no_answer : Answers q G Q none
  faulted : (e : TransFault) → IsVsFault q G e → Answers q G Q (some (inl e))
  mapped : (m : Mapping) → Q m → Answers q G Q (some (inr m))

module _ {W : Type 0} (P : Platform W) (n : ℕ) (q : IovaAccess) (f : Format) (root : ℕ)
    (s : Iommu W) where
  abbrev G : ℕ → Type 0
  G = GuestInfo P n q f root s

  abbrev Good : Option (TransFault ⊎ Mapping) × Iommu W → Type 0
  Good r = Answers q G (VsMaps P n q f s) r.0

  vs_resume-Answers :
      (descend : Iommu W → ℕ → ℕ → Option (TransFault ⊎ Mapping) × Iommu W)
      (again : Iommu W → Option (TransFault ⊎ Mapping) × Iommu W) (v : VsVisit × Iommu W)
      → Ends q G (VsMaps P n q f s) v.0
      → ((b g : ℕ) → b % 4096 ≡ 0 → v.0 ≡ vs_pointer b g → Good (descend v.1 b g))
      → (v.0 ≡ vs_changed → Good (again v.1))
      → Good (vs_resume descend again v)
  vs_resume-Answers descend again (vs_fails e, t) (fails _ h) k l = faulted e h
  vs_resume-Answers descend again (vs_pointer b g, t) (points _ _ h) k l = k b g h refl
  vs_resume-Answers descend again (vs_leaf m, t) (maps _ h) k l = mapped m h
  vs_resume-Answers descend again (vs_changed, t) h k l = l refl
  vs_resume-Answers descend again (unanswered, t) h k l = no_answer

  after :
      (i g : ℕ) (b : Bool) (t : Iommu W) (a : ℕ)
      → SameButEvents s t
      → SameButEvents s (vs_visit P n q f i g b t a).1
  after i g b t a e =
      SameButEvents-trans s t (vs_visit P n q f i g b t a).1 e
        (vs_visit-frame P SameButEvents (SameButEvents-IsFrame P) n q f i g b t a)

  visit_of :
      (i g : ℕ) (b : Bool) (t : Iommu W) (a : ℕ)
      → SameButEvents s t
      → a % 4096 ≡ 0
      → i ≤ top_of f
      → Pass P n q f root s i b a t
      → Ends q G (VsMaps P n q f s) (vs_visit P n q f i g b t a).0
  visit_of i g b t a e z l pass =
      vs_visit-Ends P n q f G s i g b t a e (λ h. refused i a b t pass z h refl)
        (λ m h w y. unwritable i a b t m pass z h w y refl) l

  vs_walk-Answers :
      (k i g : ℕ) (b : Bool) (t : Iommu W) (a : ℕ)
      → SameButEvents s t
      → a % 4096 ≡ 0
      → i ≤ top_of f
      → Pass P n q f root s i b a t
      → Good (vs_walk P n q f k i g b t a)
  unfolding vs_walk
  vs_walk-Answers zero zero g b t a e z l pass =
      vs_resume-Answers _ _ (vs_visit P n q f zero g b t a) (visit_of zero g b t a e z l pass)
        (λ c h x y. faulted _ (is_page q G)) (λ y. no_answer)
  vs_walk-Answers zero (suc i) g b t a e z l pass =
      let v = vs_visit P n q f (suc i) g b t a in
      vs_resume-Answers _ _ v (visit_of (suc i) g b t a e z l pass)
        (λ c h x y.
          vs_walk-Answers zero i h b v.1 c (after (suc i) g b t a e) x (omega arith)
            (descends i g b a c h t pass y))
        (λ y. no_answer)
  vs_walk-Answers (suc k) zero g b t a e z l pass =
      let v = vs_visit P n q f zero g b t a in
      vs_resume-Answers _ _ v (visit_of zero g b t a e z l pass)
        (λ c h x y. faulted _ (is_page q G))
        (λ y.
          vs_walk-Answers k zero g true v.1 a (after zero g b t a e) z l
            (repeats zero g b a t pass y))
  vs_walk-Answers (suc k) (suc i) g b t a e z l pass =
      let v = vs_visit P n q f (suc i) g b t a in
      vs_resume-Answers _ _ v (visit_of (suc i) g b t a e z l pass)
        (λ c h x y.
          vs_walk-Answers (suc k) i h b v.1 c (after (suc i) g b t a e) x (omega arith)
            (descends i g b a c h t pass y))
        (λ y.
          vs_walk-Answers k (suc i) g true v.1 a (after (suc i) g b t a e) z l
            (repeats (suc i) g b a t pass y))

module _ {W : Type 0} (P : Platform W) (n : ℕ) where
  -- Over any memory, in a mode other than Bare: `two_stage_address_translation` fails with a page fault, an
  -- access fault or a guest page fault of the original access, or with cause 274; or it returns a mapping.
  -- That comes from an entry that was read where the second stage maps the address of the table's index
  -- for the IOVA. The entry is well formed, a leaf, permits the access where permissions are checked, is
  -- not a supervisor's page for user mode, is not a user's page for supervisor mode unless SUM is on and
  -- nothing is executed, is aligned, and is marked as accessed, and as dirty for a write, or SADE is on
  -- and the second stage lets it be written. The address is the entry's base and the offset of the IOVA.
  -- A guest page fault is one that the second stage reports for the entry of some pass of the walk, and then
  -- iotval2 gives the page of that pass's table, with bit 0 for an implicit access, and bit 1 if the walk
  -- met an entry that changed when its update began; or the second stage maps that entry as one that cannot
  -- be written where an update is needed, and then iotval2 gives the same page with bits 0 and 1. All other
  -- faults give 0 in iotval2. Or the call gives no answer, where the retries do not suffice.
  pub two_stage-Answers :
      (s : Iommu W) (q : IovaAccess) (size : ℕ) (f : Format)
      → (get_bits 63 60 q.iosatp == 0) ≡ false
      → guest_format q.sxl (get_bits 63 60 q.iosatp) ≡ some f
      → Answers q
          (GuestInfo P n q f (get_bits 43 0 q.iosatp * 4096) s)
          (VsMaps P n q f s)
          (two_stage_address_translation P n s q size).0
  unfolding two_stage_address_translation
  two_stage-Answers s q size f other e =
      rw (other, two_stage_address_translation)
        (rw (e, two_stage_address_translation)
          (elim (Bool-cases (not_canonical f q.sxl q.iova)) [
            | inl y ↦
                rw y (faulted _ (is_page q (GuestInfo P n q f (get_bits 43 0 q.iosatp * 4096) s)))
            | inr y ↦ rw y (
                vs_walk-Answers P n q f (get_bits 43 0 q.iosatp * 4096) s n (top_of f) 0 false s
                  (get_bits 43 0 q.iosatp * 4096) refl (omega arith) (omega arith) starts)
          ]))
