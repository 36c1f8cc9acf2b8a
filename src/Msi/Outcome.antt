-- ===== src/Msi/Outcome.antt =====
-- How `msi_address_translation` of iommu_ref_model/libiommu/src/iommu_msi_trans.c ends.
use riscv_iommu_dv_model.Prelude.{
  ℕ, ◌+◌, ◌*◌, ◌%◌, ◌^◌, ◌<◌, ◌≡◌, ◌≢◌, ◌⊎◌, inl, inr, refl, arith, Bool, true, false, not, ◌&&◌,
  ◌||◌, ◌==◌, clear_low, get_bits, test_bit, Bool-cases,
}
use riscv_iommu_dv_model.Iommu.{Iommu}
use riscv_iommu_dv_model.Iommu.Platform.{Platform, Access}
use riscv_iommu_dv_model.Iommu.Regs.{Capabilities}
use riscv_iommu_dv_model.Iommu.Caches.{DeviceContext}
use riscv_iommu_dv_model.Fault.{is_access_fault, is_data_corruption}
use riscv_iommu_dv_model.PageTable.Physical.{bit_or_disjoint}
use riscv_iommu_dv_model.SecondStage.Mapped.{branches}
use riscv_iommu_dv_model.Msi.{
  is_msi, msipte_addr, msi_gpte, MsiOutcome, not_msi, msi_fault, translate_rw, mrif,
  interpret_msipte, msi_address_translation,
}

-- An entry of the mode for reads and writes, with its reserved bits 0.
pub record IsReadWrite (raw : ℕ) : Type 0 where
  pub not_custom : test_bit raw 63 ≡ false
  pub mode : get_bits 2 1 raw ≡ 3
  pub high : get_bits 62 54 raw ≡ 0
  pub low : get_bits 9 3 raw ≡ 0

-- An entry of a memory-resident interrupt file, which the capabilities offer, with its reserved bits 0.
pub record IsFile (c : Capabilities) (raw : ℕ) : Type 0 where
  pub not_custom : test_bit raw 63 ≡ false
  pub mode : get_bits 2 1 raw ≡ 1
  pub offered : c.msi_mrif ≡ true
  pub low : get_bits 6 3 raw ≡ 0
  pub middle : get_bits 62 54 raw ≡ 0
  pub high : get_bits 123 118 raw ≡ 0
  pub top : get_bits 127 125 raw ≡ 0

-- What makes an entry misconfigured.
pub data IsMisconfigured (c : Capabilities) (raw : ℕ) : Type 0 where
  custom : test_bit raw 63 ≡ true → IsMisconfigured c raw
  reserved_mode : (get_bits 2 1 raw ≡ 0) ⊎ (get_bits 2 1 raw ≡ 2) → IsMisconfigured c raw
  page_reserved :
      get_bits 2 1 raw ≡ 3
      → (get_bits 62 54 raw ≢ 0) ⊎ (get_bits 9 3 raw ≢ 0)
      → IsMisconfigured c raw
  no_files : get_bits 2 1 raw ≡ 1 → c.msi_mrif ≡ false → IsMisconfigured c raw
  file_reserved :
      get_bits 2 1 raw ≡ 1
      → (get_bits 6 3 raw ≢ 0)
        ⊎ ((get_bits 62 54 raw ≢ 0) ⊎ ((get_bits 123 118 raw ≢ 0) ⊎ (get_bits 127 125 raw ≢ 0)))
      → IsMisconfigured c raw

-- What an entry makes of an access to `gpa`: a cause; or an address with the offset of `gpa`; or the
-- interrupt file in memory, its notice, and the page that the notice is sent to.
pub data Interprets (c : Capabilities) (gpa : ℕ) (refused : Bool) (raw : ℕ)
    : MsiOutcome → Type 0 where
  not_valid : test_bit raw 0 ≡ false → Interprets c gpa refused raw (msi_fault 262)
  misconfigured :
      test_bit raw 0 ≡ true → IsMisconfigured c raw → Interprets c gpa refused raw (msi_fault 263)
  not_executable :
      test_bit raw 0 ≡ true
      → IsReadWrite raw ⊎ IsFile c raw
      → refused ≡ true
      → Interprets c gpa refused raw (msi_fault 1)
  to_page :
      (pa : ℕ)
      → test_bit raw 0 ≡ true
      → IsReadWrite raw
      → refused ≡ false
      → pa ≡ get_bits 53 10 raw * 4096 + gpa % 4096
      → Interprets c gpa refused raw (translate_rw pa (msi_gpte gpa))
  to_file :
      (file nid pa : ℕ)
      → test_bit raw 0 ≡ true
      → IsFile c raw
      → refused ≡ false
      → file ≡ get_bits 53 7 raw * 512 % 2 ^ 47
      → nid ≡ get_bits 124 124 raw * 1024 + get_bits 73 64 raw
      → pa ≡ get_bits 117 74 raw * 4096
      → Interprets c gpa refused raw (mrif file nid pa (msi_gpte gpa))

and_right : (a b : Bool) → (a && b) ≡ true → b ≡ true
and_right a b h = ground arith

and_false : (a b : Bool) → a ≡ true → (a && b) ≡ false → b ≡ false
and_false a b e h = ground arith

and_left : (m : ℕ) (b : Bool) → (m == 3 && b) ≡ true → m ≡ 3
and_left m b h = ground arith

three : (m : ℕ) → (m == 3) ≡ true → m ≡ 3
three m h = ground arith

not_three : (m : ℕ) (b : Bool) → m ≡ 3 → (m == 3 && b) ≡ false → b ≡ false
not_three m b e h = ground arith

one : (m : ℕ) → m < 4 → (m == 0 || m == 2) ≡ false → (m == 3) ≡ false → m ≡ 1
one m l h k = ground arith

zero_or_two : (m : ℕ) → (m == 0 || m == 2) ≡ true → (m ≡ 0) ⊎ (m ≡ 2)
zero_or_two m h = ground arith

either_set : (a b : ℕ) → (not (a == 0) || not (b == 0)) ≡ true → (a ≢ 0) ⊎ (b ≢ 0)
either_set a b h = ground arith

both_zero : (a b : ℕ) → (not (a == 0) || not (b == 0)) ≡ false → (a ≡ 0) × (b ≡ 0)
both_zero a b h = ground arith

any_set :
    (a b c d : ℕ)
    → (not (a == 0) || not (b == 0) || not (c == 0) || not (d == 0)) ≡ true
    → (a ≢ 0) ⊎ ((b ≢ 0) ⊎ ((c ≢ 0) ⊎ (d ≢ 0)))
any_set a b c d h = ground arith

all_zero :
    (a b c d : ℕ)
    → (not (a == 0) || not (b == 0) || not (c == 0) || not (d == 0)) ≡ false
    → (a ≡ 0) × (b ≡ 0) × (c ≡ 0) × (d ≡ 0)
all_zero a b c d h = ground arith

page_reserved-intro :
    (c : Capabilities) (raw : ℕ)
    → (get_bits 2 1 raw == 3 && (not (get_bits 62 54 raw == 0) || not (get_bits 9 3 raw == 0)))
      ≡ true
    → IsMisconfigured c raw
page_reserved-intro c raw y =
    let m = get_bits 2 1 raw in
    let set = not (get_bits 62 54 raw == 0) || not (get_bits 9 3 raw == 0) in
    page_reserved (and_left m set y) (either_set _ _ (and_right (m == 3) set y))

IsReadWrite-intro :
    (raw : ℕ)
    → test_bit raw 63 ≡ false
    → get_bits 2 1 raw ≡ 3
    → (get_bits 2 1 raw == 3 && (not (get_bits 62 54 raw == 0) || not (get_bits 9 3 raw == 0)))
      ≡ false
    → IsReadWrite raw
IsReadWrite-intro raw c m h =
    let (high, low) = both_zero (get_bits 62 54 raw) (get_bits 9 3 raw) (not_three _ _ m h) in
    record { not_custom = c; mode = m; high = high; low = low }

module _ (c : Capabilities) (gpa : ℕ) (is_exec check : Bool) (raw : ℕ) where
  interpret_msipte-Interprets :
      Interprets c gpa (is_exec && check) raw (interpret_msipte c gpa is_exec check raw)
  unfolding interpret_msipte
  interpret_msipte-Interprets =
      let mode = get_bits 2 1 raw in
      let refused = is_exec && check in
      let Q = Interprets c gpa refused raw in
      branches Q (not (test_bit raw 0)) _ _ (λ y. not_valid (ground arith))
        (λ n.
          let v : test_bit raw 0 ≡ true = ground arith in
          branches Q (test_bit raw 63) _ _ (λ y. misconfigured v (custom y))
            (λ c0.
              branches Q (mode == 0 || mode == 2) _ _
                (λ y. misconfigured v (reserved_mode (zero_or_two mode y)))
                (λ m1.
                  branches Q
                    (mode == 3 && (not (get_bits 62 54 raw == 0) || not (get_bits 9 3 raw == 0))) _
                    _ (λ y. misconfigured v (page_reserved-intro c raw y))
                    (λ r3.
                      branches Q (mode == 3 && refused) _ _
                        (λ y.
                          not_executable v
                            (inl (IsReadWrite-intro raw c0 (and_left mode refused y) r3))
                            (and_right (mode == 3) refused y))
                        (λ m2.
                          branches Q (mode == 3) _ _
                            (λ y.
                              to_page _ v (IsReadWrite-intro raw c0 (three mode y) r3)
                                (and_false (mode == 3) refused y m2)
                                (bit_or_disjoint 12 (get_bits 53 10 raw) (gpa % 4096)
                                  (omega arith)))
                            (λ m3.
                              let m = one mode (omega arith) m1 m3 in
                              branches Q (not c.msi_mrif) _ _
                                (λ y. misconfigured v (no_files m (ground arith)))
                                (λ x.
                                  branches Q
                                    (not (get_bits 6 3 raw == 0)
                                      || not (get_bits 62 54 raw == 0)
                                      || not (get_bits 123 118 raw == 0)
                                      || not (get_bits 127 125 raw == 0))
                                    _ _ (λ y. misconfigured v (file_reserved m (any_set _ _ _ _ y)))
                                    (λ r1.
                                      let z = all_zero _ _ _ _ r1 in
                                      let file : IsFile c raw = record {
                                        not_custom = c0;
                                        mode = m;
                                        offered = ground arith;
                                        low = z.0;
                                        middle = z.1;
                                        high = z.2;
                                        top = z.3;
                                      } in
                                      branches Q refused _ _ (λ y. not_executable v (inr file) y)
                                        (λ y.
                                          to_file _ _ _ v file y refl
                                            (bit_or_disjoint 10 (get_bits 124 124 raw)
                                              (get_bits 73 64 raw) (omega arith))
                                            refl)))))))))

module _ {W : Type 0} (P : Platform W) (s : Iommu W) (gpa : ℕ) (dc : DeviceContext)
    (rcid mcid : ℕ) where
  -- The address of the entry, and what reading it gives.
  abbrev pub entry_at : ℕ
  entry_at = msipte_addr s.reg_file.capabilities dc gpa

  abbrev pub entry_read : ℕ × ℕ × W
  entry_read =
      P.read_memory
        (record {
          addr = entry_at;
          size = 16;
          rcid = rcid;
          mcid = mcid;
          pma = 0;
          big_endian = s.reg_file.fctl.be;
        })
        s.world

  -- The whole function: no MSI; a load that fails; or what the entry at the address that `extract` gives
  -- makes of it.
  pub data MsiEnds (refused : Bool) (r : MsiOutcome × Iommu W) : Type 0 where
    passes :
        (get_bits 63 60 dc.msiptp ≡ 0) ⊎ (is_msi s.reg_file.capabilities dc gpa ≡ false)
        → r ≡ (not_msi, s)
        → MsiEnds refused r
    outside :
        is_msi s.reg_file.capabilities dc gpa ≡ true
        → clear_low entry_at s.reg_file.capabilities.pas ≢ 0
        → r ≡ (msi_fault 261, s)
        → MsiEnds refused r
    unread :
        (cause : ℕ)
        → is_msi s.reg_file.capabilities dc gpa ≡ true
        → clear_low entry_at s.reg_file.capabilities.pas ≡ 0
        → ((is_access_fault entry_read.0 ≡ true) × (cause ≡ 261))
          ⊎ ((is_access_fault entry_read.0 ≡ false)
              × ((is_data_corruption entry_read.0 ≡ true) × (cause ≡ 270)))
        → r ≡ (msi_fault cause, record s { world = entry_read.2 })
        → MsiEnds refused r
    interpreted :
        is_msi s.reg_file.capabilities dc gpa ≡ true
        → clear_low entry_at s.reg_file.capabilities.pas ≡ 0
        → (is_access_fault entry_read.0 ≡ false) × (is_data_corruption entry_read.0 ≡ false)
        → Interprets s.reg_file.capabilities gpa refused entry_read.1 r.0
        → r.1 ≡ record s { world = entry_read.2 }
        → MsiEnds refused r

==_zero : (a k : ℕ) → (clear_low a k == 0) ≡ true → clear_low a k ≡ 0
==_zero a k h = ground arith

==_nonzero : (a k : ℕ) → (clear_low a k == 0) ≡ false → clear_low a k ≢ 0
==_nonzero a k h = ground arith

module _ {W : Type 0} (P : Platform W) where
  -- `msi_address_translation` leaves an access alone, and the state, where the MSI page table is off or the
  -- address is none of an interrupt file. Else it loads the entry at the address that `extract` gives, and
  -- reports cause 261 where the address does not fit or the load is an access fault, and cause 270 where
  -- the load is corrupt. Then it does with the access what the entry says: cause 262 where V is 0; cause
  -- 263 exactly where the entry is misconfigured, that is its custom bit is set, its mode is 0 or 2, a
  -- reserved bit of its mode is set, or its mode is 1 and the capabilities offer no interrupt files; cause 1
  -- for an execution whose permissions are checked; in mode 3 the page of the entry with the offset of the
  -- address; and in mode 1 the address of the interrupt file, of which 47 bits are kept, with the number
  -- and the page of its notice. It changes only the world.
  pub msi_address_translation-MsiEnds :
      (s : Iommu W) (gpa : ℕ) (is_exec : Bool) (dc : DeviceContext) (check : Bool) (rcid mcid : ℕ)
      → MsiEnds P s gpa dc rcid mcid
          (is_exec && check)
          (msi_address_translation P s gpa is_exec dc check rcid mcid)
  unfolding msi_address_translation
  msi_address_translation-MsiEnds s gpa is_exec dc check rcid mcid =
      let c = s.reg_file.capabilities in
      let addr = msipte_addr c dc gpa in
      let access : Access = record {
        addr = addr;
        size = 16;
        rcid = rcid;
        mcid = mcid;
        pma = 0;
        big_endian = s.reg_file.fctl.be;
      } in
      let Q = MsiEnds P s gpa dc rcid mcid (is_exec && check) in
      branches Q (get_bits 63 60 dc.msiptp == 0) _ _ (λ y. passes (inl (ground arith)) refl)
        (λ _. elim (Bool-cases (is_msi c dc gpa)) [
          | inr n ↦ rw n (passes (inr n) refl)
          | inl y ↦ elim (Bool-cases (clear_low addr c.pas == 0)) [
            | inr n ↦ rw y (rw n (outside y (==_nonzero addr c.pas n) refl))
            | inl z ↦
                let (status, raw, w) = P.read_memory access s.world in
                let inside = ==_zero addr c.pas z in
                rw y (
                  rw z (
                    branches Q (is_access_fault status) _ _
                      (λ b. unread _ y inside (inl (b, refl)) refl)
                      (λ n1.
                        branches Q (is_data_corruption status) _ _
                          (λ b. unread _ y inside (inr (n1, (b, refl))) refl)
                          (λ n2.
                            interpreted y inside (n1, n2)
                              (interpret_msipte-Interprets c gpa is_exec check raw) refl))))
          ]
        ])
