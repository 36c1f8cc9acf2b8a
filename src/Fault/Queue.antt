-- ===== src/Fault/Queue.antt =====
-- The fault queue as a ring: `report_fault` never overwrites a record that software has not read.
use Prim.Native.Nat.{◌≤◌}
use native.Mathlib.Nat.{pow-le-pow_right, one-le-pow, mod-eq_of_lt, mod_self}
use native.Mathlib.Decide.{dec_lt}
use riscv_iommu_dv_model.Prelude.{
  ℕ, suc, ◌+◌, ◌-◌, ◌^◌, ◌%◌, ◌<◌, ◌≡◌, ◌≢◌, refl, ◌∙◌, some, arith, leb, ◌==◌, if◌then◌else◌, ◌*◌,
  ◌⊎◌, inl, inr, none, bit_or, ap, sym, Bool-cases, true, false, ◌||◌, clear_low,
}
use riscv_iommu_dv_model.Address.Napot.{pow_split}
use riscv_iommu_dv_model.PageTable.Physical.{bit_or_disjoint}
use riscv_iommu_dv_model.Iommu.{Iommu}
use riscv_iommu_dv_model.Iommu.Regs.{RegFile}
use riscv_iommu_dv_model.Iommu.Platform.{Platform}
use riscv_iommu_dv_model.Fault.{
  IntUnit, fault_queue, accepts, fq_is_full, frec_addr, own_access, own_write, is_access_fault,
  is_data_corruption, store_frec, queue_fault, mark_pending, generate_interrupt, report_fault,
}
use riscv_iommu_dv_model.Fault.Record.{Fault, frec_of, fault_rec_raw}
use riscv_iommu_dv_model.Fault.Relation.{
  IsRespected, generate_interrupt-respects, report_fault-respects,
}

-- How many entries of a ring of `n` lie between the head `h` and the tail `t`.
abbrev pub unread : ℕ → ℕ → ℕ → ℕ
unread n h t = if leb h t then t - h else t + n - h

-- The number of entries of a queue; `log2szm1` is a field of 5 bits.
abbrev pub entries : ℕ → ℕ
entries log2szm1 = 2 ^ (log2szm1 + 1)

pub entries_bounds : (k : ℕ) → k < 32 → (0 < entries k) × (entries k ≤ 2 ^ 32)
entries_bounds k h = (
  one-le-pow (k + 1) 2 (omega arith),
  pow-le-pow_right {n = 2} (omega arith) {i = k + 1} {j = 32} (omega arith),
)

-- Over a ring of at most 2 ^ 32 entries the tail advances by one, and wraps at the end.
pub step_lem :
    (n i : ℕ) → n ≤ 2 ^ 32 → i < n → ((i + 1) % 2 ^ 32) % n ≡ (if i + 1 == n then 0 else i + 1)
step_lem n i k l = elim (dec_lt (i + 1) n) [
  | yes p ↦ ground (arith, mod-eq_of_lt {n = i + 1} {m = n} p)
  | no p ↦
      let e : i + 1 ≡ n = omega arith in
      ground (arith, mod-eq_of_lt {n = 0} {m = n} (omega arith), mod_self n)
]

-- Past a full ring's check, one more record fits: the count goes up by one.
pub unread-step :
    (n h t : ℕ)
    → n ≤ 2 ^ 32
    → h < n
    → t < n
    → ((t + 1) % 2 ^ 32) % n ≢ h
    → (((t + 1) % 2 ^ 32) % n < n) × (unread n h (((t + 1) % 2 ^ 32) % n) ≡ suc (unread n h t))
unread-step n h t k p q ne = ground (arith, step_lem n t k q)

-- The registers of the fault queue hold what fits their fields, and the indices are in the ring.
pub record IsFq (r : RegFile) : Type 0 where
  pub size_field : r.fqb.log2szm1 < 32
  pub head_in : r.fqh < entries r.fqb.log2szm1
  pub tail_in : r.fqt < entries r.fqb.log2szm1

abbrev pub fq_unread : RegFile → ℕ
fq_unread r = unread (entries r.fqb.log2szm1) r.fqh r.fqt

-- From a queue in order to a queue in order: head and ring stay, and no unread record goes away.
pub record FqGrows (r r' : RegFile) : Type 0 where
  pub in_order : IsFq r'
  pub same_ring : r'.fqb ≡ r.fqb
  pub same_head : r'.fqh ≡ r.fqh
  pub kept : fq_unread r ≤ fq_unread r'

FqGrows-refl : {r : RegFile} → IsFq r → FqGrows r r
FqGrows-refl v = record { in_order = v; same_ring = refl; same_head = refl; kept = omega arith }

pub FqGrows-trans : {r r' r'' : RegFile} → FqGrows r r' → FqGrows r' r'' → FqGrows r r''
FqGrows-trans h k = record {
  in_order = k.in_order;
  same_ring = k.same_ring ∙ h.same_ring;
  same_head = k.same_head ∙ h.same_head;
  kept = omega (arith, h.kept, k.kept);
}

module _ {W : Type 0} where
  abbrev pub Grows : Iommu W → Iommu W → Type 0
  Grows s t = IsFq s.reg_file → FqGrows s.reg_file t.reg_file

-- The address of the record with index `k`, and the indices from the head to the tail.
abbrev pub slot : RegFile → ℕ → ℕ
slot r k = r.fqb.ppn * 4096 + k * 32

abbrev pub IsUnread : RegFile → ℕ → Type 0
IsUnread r k = ((r.fqh ≤ k) × (k < r.fqt)) ⊎ ((r.fqt < r.fqh) × ((r.fqh ≤ k) ⊎ (k < r.fqt)))

slots_apart :
    (r : RegFile) (k : ℕ)
    → IsUnread r k
    → (slot r k + 32 ≤ slot r r.fqt) ⊎ (slot r r.fqt + 32 ≤ slot r k)
slots_apart r k (inl (h, l)) = inl (omega arith)
slots_apart r k (inr (h, inl l)) = inr (omega arith)
slots_apart r k (inr (h, inr l)) = inl (omega arith)

-- The queue is aligned to its size in bytes, and its addresses have 64 bits.
pub record IsPlaced (r : RegFile) : Type 0 where
  pub unit : ℕ
  pub aligned : r.fqb.ppn * 4096 ≡ unit * 2 ^ (r.fqb.log2szm1 + 6)
  pub below : r.fqb.ppn * 4096 < 2 ^ 64

slot_size : (k : ℕ) → 2 ^ (k + 6) ≡ entries k * 32
slot_size k = ap (λ n. 2 ^ n) (let e : k + 6 ≡ k + 1 + 5 = omega arith in e) ∙ pow_split (k + 1) 5

slot_lem :
    (r : RegFile)
    → IsFq r
    → IsPlaced r
    → bit_or (r.fqb.ppn * 4096 % 2 ^ 64) (r.fqt * 32 % 2 ^ 64) ≡ slot r r.fqt
slot_lem r v placed =
    let k = r.fqb.log2szm1 in
    let size = slot_size k in
    let top = (entries_bounds k v.size_field).1 in
    let inside : r.fqt * 32 < 2 ^ (k + 6) = rw size (omega (arith, v.tail_in)) in
    let base : r.fqb.ppn * 4096 % 2 ^ 64 ≡ placed.unit * 2 ^ (k + 6) =
      mod-eq_of_lt {n = r.fqb.ppn * 4096} {m = 2 ^ 64} placed.below ∙ placed.aligned in
    let offset : r.fqt * 32 % 2 ^ 64 ≡ r.fqt * 32 =
      mod-eq_of_lt {n = r.fqt * 32} {m = 2 ^ 64} (omega (arith, v.tail_in, top)) in
    rw (base, offset)
      (bit_or_disjoint (k + 6) placed.unit (r.fqt * 32) inside
        ∙ ap (λ n. n + r.fqt * 32) (sym placed.aligned))

-- What `report_fault` does with the record of `f` before it raises the interrupt.
pub data StoresAt {W : Type 0} (P : Platform W) (s : Iommu W) (f : Fault) : Type 0 where
  drops : queue_fault P s f ≡ none → StoresAt P s f
  overflows : (t : Iommu W) → queue_fault P s f ≡ some t → t.world ≡ s.world → StoresAt P s f
  stores :
      (t : Iommu W)
      → queue_fault P s f ≡ some t
      → (t.world
          ≡ (P.write_memory
              (fault_rec_raw (frec_of f))
              (own_access s (slot s.reg_file s.reg_file.fqt) 32)
              s.world).1)
        ⊎ ((clear_low (slot s.reg_file s.reg_file.fqt) s.reg_file.capabilities.pas ≢ 0)
            × (t.world ≡ s.world))
      → StoresAt P s f

module _ {W : Type 0} (P : Platform W) where
  pub Grows-queue_fault : (s t : Iommu W) (f : Fault) → queue_fault P s f ≡ some t → Grows s t
  unfolding queue_fault store_frec
  Grows-queue_fault s t f h v =
      let r = s.reg_file in
      let n = entries r.fqb.log2szm1 in
      let bounds = entries_bounds r.fqb.log2szm1 v.size_field in
      ground (arith, unread-step n r.fqh r.fqt bounds.1 v.head_in v.tail_in)

  Grows-mark_pending :
      (s t : Iommu W) (unit : IntUnit) (vec : ℕ) → mark_pending s unit ≡ some (t, vec) → Grows s t
  unfolding mark_pending
  Grows-mark_pending s t fault_queue vec h v = ground arith
  Grows-mark_pending s t _ vec h v = ground arith

  Grows-IsRespected : IsRespected P Grows
  Grows-IsRespected = record {
    stay = λ s v. FqGrows-refl v;
    chain = λ s t u h k v. FqGrows-trans (h v) (k (h v).in_order);
    world_changes = λ s w v. FqGrows-refl v;
    msi_marked = λ s l v. FqGrows-refl v;
    marked = λ s t unit vec. Grows-mark_pending s t unit vec;
    queued = λ s t f. Grows-queue_fault s t f;
  }

  queue_fault-drops : (s : Iommu W) (f : Fault) → accepts s f ≡ false → queue_fault P s f ≡ none
  unfolding queue_fault
  queue_fault-drops s f n = simp n refl

  queue_fault-world :
      (s : Iommu W) (f : Fault)
      → accepts s f ≡ true
      → fq_is_full s ≡ true
      → (t : Iommu W) × ((queue_fault P s f ≡ some t) × (t.world ≡ s.world))
  unfolding queue_fault
  queue_fault-world s f y z =
      let r = s.reg_file in
      let c = r.fqcsr in
      let t : Iommu W = record s { reg_file = record r { fqcsr = record c { fqof = true } } } in
      (t, (simp (y, z) refl, refl))

  queue_fault-store_frec :
      (s : Iommu W) (f : Fault)
      → accepts s f ≡ true
      → fq_is_full s ≡ false
      → queue_fault P s f ≡ some (store_frec P s f)
  unfolding queue_fault
  queue_fault-store_frec s f y z = simp (y, z) refl

  store_frec-world :
      (s : Iommu W) (f : Fault)
      → (store_frec P s f).world ≡ (own_write P s (fault_rec_raw (frec_of f)) (frec_addr s) 32).1
  unfolding store_frec
  store_frec-world s f =
      let status = (own_write P s (fault_rec_raw (frec_of f)) (frec_addr s) 32).0 in
      elim (Bool-cases (is_access_fault status || is_data_corruption status)) [
        | inl y ↦ rw y refl
        | inr y ↦ rw y refl
      ]

  own_write-world :
      (s : Iommu W) (d a b : ℕ)
      → a ≡ b
      → ((own_write P s d a 32).1 ≡ (P.write_memory d (own_access s b 32) s.world).1)
        ⊎ ((clear_low b s.reg_file.capabilities.pas ≢ 0) × ((own_write P s d a 32).1 ≡ s.world))
  unfolding own_write
  own_write-world s d a b e = elim (Bool-cases (clear_low a s.reg_file.capabilities.pas == 0)) [
    | inl c ↦ inl (rw c (ap (λ x. (P.write_memory d (own_access s x 32) s.world).1) e))
    | inr c ↦ inr (
      (λ z.
          absurd
            (let k = ap (λ x. clear_low x s.reg_file.capabilities.pas) e ∙ z in ground (arith, k))),
      rw c refl,
    )
  ]

  -- Where the record of a fault goes: nowhere, or to the slot of the tail.
  queue_fault-StoresAt :
      (s : Iommu W) (f : Fault) → IsFq s.reg_file → IsPlaced s.reg_file → StoresAt P s f
  queue_fault-StoresAt s f v placed = elim (Bool-cases (accepts s f)) [
    | inr n ↦ drops (queue_fault-drops s f n)
    | inl y ↦ elim (Bool-cases (fq_is_full s)) [
      | inl z ↦ let (t, (e, k)) = queue_fault-world s f y z in overflows t e k
      | inr z ↦
          stores (store_frec P s f) (queue_fault-store_frec s f y z)
            (elim (own_write-world s (fault_rec_raw (frec_of f)) (frec_addr s)
              (slot s.reg_file s.reg_file.fqt) (slot_lem s.reg_file v placed)) [
                | inl e ↦ inl (store_frec-world s f ∙ e)
                | inr e ↦ inr (e.0, store_frec-world s f ∙ e.1)
              ])
    ]
  ]

  -- Reporting a fault loses no record. Whatever interrupts, MSI failures and further faults it
  -- causes, from a fault queue in order it leaves the queue in order, at the same place and with
  -- the same head, and holding at least as many unread records. The record of every fault, if one is
  -- written, is written to the 32 bytes of the tail's slot, and these overlap no unread record. The queue
  -- has to be aligned to its size, and to end below 2 ^ 64.
  pub report_fault-FqGrows :
      (s : Iommu W) (f : Fault)
      → IsFq s.reg_file
      → IsPlaced s.reg_file
      → FqGrows s.reg_file (report_fault P s f).reg_file
        × (StoresAt P s f
            × ((k : ℕ)
                → IsUnread s.reg_file k
                → (slot s.reg_file k + 32 ≤ slot s.reg_file s.reg_file.fqt)
                  ⊎ (slot s.reg_file s.reg_file.fqt + 32 ≤ slot s.reg_file k)))
  report_fault-FqGrows s f v placed = (
    report_fault-respects P Grows Grows-IsRespected s f v,
    (queue_fault-StoresAt s f v placed, slots_apart s.reg_file),
  )

  pub generate_interrupt-FqGrows :
      (s : Iommu W) (unit : IntUnit)
      → IsFq s.reg_file
      → FqGrows s.reg_file (generate_interrupt P s unit).reg_file
  generate_interrupt-FqGrows = generate_interrupt-respects P Grows Grows-IsRespected
