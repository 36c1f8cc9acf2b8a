-- ===== src/Hpm/Counters.antt =====
-- What `count_events` of iommu_hpm.c does to every counter, whatever interrupts the others raise.
use mathlib.Core.Path.{subst}
use native.Mathlib.Nat.{mod-mod_of_dvd, dvd_of_mod-eq-zero, mul-mod_left}
use riscv_iommu_dv_model.Address.Bits.{
  napot_order, napot_order-le, bit_xor-next, bit_and_high, pow_pos,
}
use riscv_iommu_dv_model.Address.Napot.{clear-injective, pow_split}
use riscv_iommu_dv_model.PageTable.Physical.{bit_and_low}
use riscv_iommu_dv_model.Iommu.Regs.{Iohpmevt}
use riscv_iommu_dv_model.Prelude.{
  Bool, false, ◌==◌, ==_iff, ◌||◌, ◌^◌, ◌%◌, ◌*◌, ◌/◌, ◌-◌, bit_and, bit_xor, ◌⊎◌, ◌↔◌, sym,
  get_or-set, ℕ, zero, suc, ◌+◌, ◌<◌, ◌≡◌, ◌≢◌, refl, ◌∙◌, ap, inl, inr, true, not, ◌&&◌, List, [],
  ◌∷◌, ltb, if◌then◌else◌, get_or, set, modify, length, arith, Bool-cases, test_bit, ◌≤◌, ltb→lt,
}
use native.Mathlib.Decide.{ℕ_discrete}
use riscv_iommu_dv_model.Iommu.{Iommu}
use riscv_iommu_dv_model.Iommu.Platform.{Platform}
use riscv_iommu_dv_model.Fault.{hpm, generate_interrupt}
use riscv_iommu_dv_model.Fault.Frame.{generate_interrupt-SameBut}
use riscv_iommu_dv_model.Hpm.{
  Event, id_mask, selects, next_count, selector, counter, counts, counted, overflowed, count_one,
  count_from, count_events,
}

-- The id lies in the range of DID_GSCID: it is the same number of 24 bits, or, with DMASK, agrees with it
-- above the lowest bit that is 0.
abbrev pub IdMatches : Iohpmevt → ℕ → Type 0
IdMatches e id =
    ((e.dmask ≡ false) × (id % 2 ^ 24 ≡ e.did_gscid % 2 ^ 24))
    ⊎ ((e.dmask ≡ true)
        × (id / 2 ^ napot_order 32 e.did_gscid ≡ e.did_gscid / 2 ^ napot_order 32 e.did_gscid))

-- The selector names the event: the same event id and, for each filter that is on, the event's device and
-- process, or its guest and address space where IDT is set.
abbrev pub Selects : Iohpmevt → Event → Type 0
Selects e v =
    (e.event_id ≡ v.event_id)
    × (((e.idt ≡ false)
          × (((e.pv_pscv ≡ false) ⊎ ((v.pv ≢ 0) × (e.pid_pscid ≡ v.pid)))
              × ((e.dv_gscv ≡ false) ⊎ IdMatches e v.did)))
        ⊎ ((e.idt ≡ true)
            × (((e.pv_pscv ≡ false) ⊎ ((v.pscv ≢ 0) × (e.pid_pscid ≡ v.pscid)))
                × ((e.dv_gscv ≡ false) ⊎ ((v.gscv ≢ 0) × IdMatches e v.gscid)))))

-- The ids fit the widths of their C types.
pub record IsSizedEvent (e : Iohpmevt) (v : Event) : Type 0 where
  pub filter : e.did_gscid < 2 ^ 32
  pub device : v.did < 2 ^ 32
  pub guest : v.gscid < 2 ^ 32

abbrev Tests : Bool → Type 0 → Type 0
Tests b A = (b ≡ true) ↔ A

Tests-filter : {A : Type 0} (on b : Bool) → Tests b A → Tests (not on || b) ((on ≡ false) ⊎ A)
Tests-filter true b t = (λ h. inr (t.0 h), λ x. elim x [ inl e ↦ absurd cc | inr a ↦ t.1 a ])
Tests-filter false b t = (λ h. inl refl, λ x. refl)

Tests-and : {A B : Type 0} (a b : Bool) → Tests a A → Tests b B → Tests (a && b) (A × B)
Tests-and true b t u = (λ h. (t.0 refl, u.0 h), λ x. u.1 x.1)
Tests-and false b t u = (λ h. absurd cc, λ x. t.1 x.0)

Tests-eq : (a b : ℕ) → Tests (a == b) (a ≡ b)
Tests-eq a b = (λ h. ground arith, λ h. ground arith)

Tests-set : (a : ℕ) → Tests (not (a == 0)) (a ≢ 0)
Tests-set a = (λ h. ground arith, λ h. ground arith)

Tests-chain :
    {A B C : Type 0} (a i b c : Bool)
    → Tests a A
    → Tests b B
    → Tests c C
    → Tests
        (if not a then false else if not i then b else c)
        (A × (((i ≡ false) × B) ⊎ ((i ≡ true) × C)))
Tests-chain false i b c t u w = (λ h. absurd cc, λ x. t.1 x.0)
Tests-chain true true b c t u w = (
  λ h. (t.0 refl, inr (refl, w.0 h)),
  λ x. elim x.1 [ inl y ↦ absurd (let e = y.0 in cc) | inr y ↦ w.1 y.1 ],
)
Tests-chain true false b c t u w = (
  λ h. (t.0 refl, inl (refl, u.0 h)),
  λ x. elim x.1 [ inl y ↦ u.1 y.1 | inr y ↦ absurd (let e = y.0 in cc) ],
)

id_mask_high :
    (d : ℕ) → d < 2 ^ 32 → 2 ^ 32 - 1 - bit_xor d ((d + 1) % 2 ^ 32) ≡ 2 ^ 32 - 2 ^ napot_order 32 d
id_mask_high d h = omega (arith, bit_xor-next 32 d h, pow_pos (napot_order 32 d))

==_eq : (a b : ℕ) → (a == b) ≡ true → a ≡ b
==_eq a b h = (==_iff a b).0 h

eq_== : (a b : ℕ) → a ≡ b → (a == b) ≡ true
eq_== a b h = (==_iff a b).1 h

Tests-masked : (d id n : ℕ) → 0 < n → Tests (d / n * n == id / n * n) (id / n ≡ d / n)
Tests-masked d id n h = (
  λ q. clear-injective (id / n) (d / n) n h (sym (==_eq _ _ q)),
  λ e. eq_== _ _ (ap (λ c. c * n) (sym e)),
)

Tests-first :
    {A B : Type 0} (b : Bool) → Tests b A → Tests b (((false ≡ false) × A) ⊎ ((false ≡ true) × B))
Tests-first b t =
    (λ q. inl (refl, t.0 q), λ x. elim x [ inl y ↦ t.1 y.1 | inr y ↦ absurd (let e = y.0 in cc) ])

Tests-second :
    {A B : Type 0} (b : Bool) → Tests b B → Tests b (((true ≡ false) × A) ⊎ ((true ≡ true) × B))
Tests-second b t =
    (λ q. inr (refl, t.0 q), λ x. elim x [ inl y ↦ absurd (let e = y.0 in cc) | inr y ↦ t.1 y.1 ])

Tests-id :
    (e : Iohpmevt) (id : ℕ)
    → e.did_gscid < 2 ^ 32
    → id < 2 ^ 32
    → Tests (bit_and e.did_gscid (id_mask e) == bit_and id (id_mask e)) (IdMatches e id)
unfolding id_mask
Tests-id e id h k =
    let d = e.did_gscid in
    let j = napot_order 32 d in
    elim (Bool-cases e.dmask) [
      | inr x ↦ rw x (
          Tests-first (bit_and d 0xFFFFFF == bit_and id 0xFFFFFF) (
            λ q. sym (bit_and_low 24 id) ∙ sym (==_eq _ _ q) ∙ bit_and_low 24 d,
            λ y. eq_== _ _ (bit_and_low 24 d ∙ sym y ∙ sym (bit_and_low 24 id)),
          ))
      | inl x ↦ rw x (
          Tests-second
            (bit_and d (2 ^ 32 - 1 - bit_xor d ((d + 1) % 2 ^ 32))
              == bit_and id (2 ^ 32 - 1 - bit_xor d ((d + 1) % 2 ^ 32)))
            (rw
              (
                id_mask_high d h,
                bit_and_high j 32 d (napot_order-le 32 d) h,
                bit_and_high j 32 id (napot_order-le 32 d) k,
              )
              (Tests-masked d id (2 ^ j) (pow_pos j))))
    ]

selects-Selects : (e : Iohpmevt) (v : Event) → IsSizedEvent e v → Tests (selects e v) (Selects e v)
unfolding selects
selects-Selects e v z =
    let m = id_mask e in
    let d = e.did_gscid in
    Tests-chain (e.event_id == v.event_id) e.idt
      ((not e.pv_pscv || (not (v.pv == 0) && e.pid_pscid == v.pid))
        && (not e.dv_gscv || bit_and d m == bit_and v.did m))
      ((not e.pv_pscv || (not (v.pscv == 0) && e.pid_pscid == v.pscid))
        && (not e.dv_gscv || (not (v.gscv == 0) && bit_and d m == bit_and v.gscid m)))
      (Tests-eq e.event_id v.event_id)
      (Tests-and _ _
        (Tests-filter e.pv_pscv _ (Tests-and _ _ (Tests-set v.pv) (Tests-eq e.pid_pscid v.pid)))
        (Tests-filter e.dv_gscv _ (Tests-id e v.did z.filter z.device)))
      (Tests-and _ _
        (Tests-filter e.pv_pscv _ (Tests-and _ _ (Tests-set v.pscv) (Tests-eq e.pid_pscid v.pscid)))
        (Tests-filter e.dv_gscv _
          (Tests-and _ _ (Tests-set v.gscv) (Tests-id e v.gscid z.filter z.guest))))

low_of : (w k : ℕ) → k ≤ w → 2 ^ w % 2 ^ k ≡ 0
low_of w k h =
    ap (λ n. n % 2 ^ k)
      (ap (λ n. 2 ^ n) (let e : w ≡ w - k + k = omega arith in e) ∙ pow_split (w - k) k)
    ∙ mul-mod_left (2 ^ (w - k)) (2 ^ k)

-- One step of a counter of `bits` bits.
next_count_lem : (bits c : ℕ) → bits ≤ 64 → next_count bits c ≡ (c + 1) % 2 ^ bits
unfolding next_count
next_count_lem bits c h = elim (Bool-cases (bits == 64)) [
  | inl y ↦ let e : bits ≡ 64 = ground arith in rw e refl
  | inr n ↦ simp n (mod-mod_of_dvd _ (c + 1) (dvd_of_mod-eq-zero _ (low_of 64 bits h)))
]

-- What an event does to the counter with index `j` of the state `s`, which holds `after` then.
pub data Counts {W : Type 0} (v : Event) (s : Iommu W) (j after : ℕ) : Type 0 where
  steps :
      s.reg_file.capabilities.hpm ≡ true
      → j < s.num_hpm
      → test_bit s.reg_file.iocountinh j ≡ false
      → Selects (selector s j) v
      → after ≡ (counter s j + 1) % 2 ^ s.hpmctr_bits
      → Counts v s j after
  rests :
      (s.reg_file.capabilities.hpm ≡ false)
        ⊎ ((s.num_hpm ≤ j)
            ⊎ ((test_bit s.reg_file.iocountinh j ≡ true) ⊎ (¬ Selects (selector s j) v)))
      → after ≡ counter s j
      → Counts v s j after

module _ {A : Type 0} where
  get_or-set_ne :
      (xs : List A) (i j : ℕ) (x d : A) → j ≢ i → get_or (set xs i x) j d ≡ get_or xs j d
  get_or-set_ne [] i j x d h = refl
  get_or-set_ne (y ∷ xs) zero zero x d h = absurd (h refl)
  get_or-set_ne (y ∷ xs) zero (suc j) x d h = refl
  get_or-set_ne (y ∷ xs) (suc i) zero x d h = refl
  get_or-set_ne (y ∷ xs) (suc i) (suc j) x d h = get_or-set_ne xs i j x d (λ e. h (ap suc e))

  get_or-modify_ne :
      (xs : List A) (i j : ℕ) (f : A → A) (d : A)
      → j ≢ i
      → get_or (modify xs i f) j d ≡ get_or xs j d
  get_or-modify_ne [] i j f d h = refl
  get_or-modify_ne (y ∷ xs) zero zero f d h = absurd (h refl)
  get_or-modify_ne (y ∷ xs) zero (suc j) f d h = refl
  get_or-modify_ne (y ∷ xs) (suc i) zero f d h = refl
  get_or-modify_ne (y ∷ xs) (suc i) (suc j) f d h = get_or-modify_ne xs i j f d (λ e. h (ap suc e))

  length-set : (xs : List A) (i : ℕ) (x : A) → length (set xs i x) ≡ length xs
  length-set [] i x = refl
  length-set (y ∷ xs) zero x = refl
  length-set (y ∷ xs) (suc i) x = ap suc (length-set xs i x)

-- What the counter with index `j` holds after the event.
abbrev pub counter_after : {W : Type 0} → Event → Iommu W → ℕ → ℕ
counter_after v s j = if counts s v j then next_count s.hpmctr_bits (counter s j) else counter s j

-- One round changes the counter of its index only, and nothing that another round reads.
record Round {W : Type 0} (v : Event) (s t : Iommu W) (i : ℕ) : Type 0 where
  same_bits : t.hpmctr_bits ≡ s.hpmctr_bits
  same_length : length t.reg_file.iohpmctr ≡ length s.reg_file.iohpmctr
  own :
      i < length s.reg_file.iohpmctr
      → counter t i ≡ (if counts s v i then next_count s.hpmctr_bits (counter s i) else counter s i)
  others : (j : ℕ) → j ≢ i → counter t j ≡ counter s j
  other_counts : (j : ℕ) → j ≢ i → counts t v j ≡ counts s v j

module _ {W : Type 0} (P : Platform W) (v : Event) where
  Round-counted : (s : Iommu W) (i : ℕ) → counts s v i ≡ true → Round v s (counted s i) i
  Round-counted s i y = record {
    same_bits = refl;
    same_length = length-set s.reg_file.iohpmctr i _;
    own = λ h. rw y (get_or-set s.reg_file.iohpmctr i _ 0 h);
    others = λ j ne. get_or-set_ne s.reg_file.iohpmctr i j _ 0 ne;
    other_counts = λ j ne. refl;
  }

  Round-interrupt :
      (s t : Iommu W) (i : ℕ) → Round v s t i → Round v s (generate_interrupt P t hpm) i
  Round-interrupt s t i r =
      let e = generate_interrupt-SameBut P t hpm in
      let ctrs = ap (λ x. x.reg_file.iohpmctr) e in
      record {
        same_bits = ap (λ x. x.hpmctr_bits) e ∙ r.same_bits;
        same_length = ap length ctrs ∙ r.same_length;
        own = λ h. ap (λ x. get_or x i 0) ctrs ∙ r.own h;
        others = λ j ne. ap (λ x. get_or x j 0) ctrs ∙ r.others j ne;
        other_counts = λ j ne. ap (λ x. counts x v j) e ∙ r.other_counts j ne;
      }

  Round-overflowed : (s : Iommu W) (i : ℕ) → counts s v i ≡ true → Round v s (overflowed s i) i
  Round-overflowed s i y =
      let r = Round-counted s i y in
      record {
        same_bits = refl;
        same_length = r.same_length;
        own = r.own;
        others = r.others;
        other_counts = λ j ne.
            ap (λ e. not (test_bit s.reg_file.iocountinh j) && selects e v)
              (get_or-modify_ne s.reg_file.iohpmevt i j _ _ ne);
      }

  count_one-Round : (s : Iommu W) (i : ℕ) → Round v s (count_one P v s i) i
  unfolding count_one
  count_one-Round s i = elim (Bool-cases (counts s v i)) [
    | inr n ↦ rw n (record {
      same_bits = refl;
      same_length = refl;
      own = λ h. rw n refl;
      others = λ j ne. refl;
      other_counts = λ j ne. refl;
    })
    | inl y ↦
        elim (Bool-cases (
          ltb (next_count s.hpmctr_bits (counter s i)) (counter s i)
          && not (selector s i).of_bit)) [
            | inl o ↦ rw y (rw o (Round-interrupt s (overflowed s i) i (Round-overflowed s i y)))
            | inr o ↦ rw y (rw o (Round-counted s i y))
          ]
  ]

  counter_after-Round :
      (s t : Iommu W) (i j : ℕ) → Round v s t i → j ≢ i → counter_after v t j ≡ counter_after v s j
  counter_after-Round s t i j r ne = rw (r.other_counts j ne, r.others j ne, r.same_bits) refl

  before : (n i : ℕ) (s : Iommu W) (j : ℕ) → j < i → counter (count_from P v n i s) j ≡ counter s j
  unfolding count_from
  before zero i s j h = refl
  before (suc n) i s j h =
      before n (i + 1) (count_one P v s i) j (omega arith)
      ∙ (count_one-Round s i).others j (λ e. omega (arith, e))

  within :
      (n i : ℕ) (s : Iommu W) (j : ℕ)
      → j < length s.reg_file.iohpmctr
      → i ≤ j
      → j < i + n
      → counter (count_from P v n i s) j ≡ counter_after v s j
  unfolding count_from
  within zero i s j inside lo hi = absurd (omega arith)
  within (suc n) i s j inside lo hi =
      let t = count_one P v s i in
      let r = count_one-Round s i in
      elim (ℕ_discrete j i) [
        | yes e ↦ before n (i + 1) t j (omega (arith, e)) ∙ rw e (r.own (rw (← e) inside))
        | no ne ↦
            within n (i + 1) t j (rw r.same_length inside) (omega arith) (omega arith)
            ∙ counter_after-Round s t i j r ne
      ]

  after :
      (n i : ℕ) (s : Iommu W) (j : ℕ) → i + n ≤ j → counter (count_from P v n i s) j ≡ counter s j
  unfolding count_from
  after zero i s j h = refl
  after (suc n) i s j h =
      after n (i + 1) (count_one P v s i) j (omega arith)
      ∙ (count_one-Round s i).others j (λ e. omega (arith, e))

  counter_after-Counts :
      (s : Iommu W) (j : ℕ)
      → s.hpmctr_bits ≤ 64
      → IsSizedEvent (selector s j) v
      → s.reg_file.capabilities.hpm ≡ true
      → j < s.num_hpm
      → Counts v s j (counter_after v s j)
  counter_after-Counts s j wide sized on inside =
      let t = selects-Selects (selector s j) v sized in
      elim (Bool-cases (test_bit s.reg_file.iocountinh j)) [
        | inl y ↦ simp y (rests (inr (inr (inl y))) refl)
        | inr x ↦ elim (Bool-cases (selects (selector s j) v)) [
          | inl y ↦
              simp (x, y)
                (steps on inside x (t.0 y) (next_count_lem s.hpmctr_bits (counter s j) wide))
          | inr y ↦
              simp (x, y)
                (rests
                  (inr (inr (inr (λ k. let e = t.1 k in let f : true ≡ false = sym e ∙ y in cc))))
                  refl)
        ]
      ]

  -- On an event, each counter of at most 64 bits is one more, modulo 2 to its width, if the monitor is
  -- implemented, its index is below `num_hpm`, the bit of its index in iocountinh is 0, and its selector
  -- names the event: the same event id, and each of its filters met, that of the process by the process id
  -- of the event or, with IDT, its address space, and that of the device by the device id or, with IDT, the
  -- guest, which with DMASK is compared above the lowest bit of the filter that is 0. Otherwise it keeps
  -- its value. The interrupts of overflows in between change none of this. The ids have 32 bits.
  pub count_events_lem :
      (s : Iommu W) (j : ℕ)
      → j < length s.reg_file.iohpmctr
      → s.hpmctr_bits ≤ 64
      → IsSizedEvent (selector s j) v
      → Counts v s j (counter (count_events P v s) j)
  unfolding count_events
  count_events_lem s j inside wide sized = elim (Bool-cases s.reg_file.capabilities.hpm) [
    | inr n ↦ simp n (rests (inl n) refl)
    | inl y ↦ elim (Bool-cases (ltb j s.num_hpm)) [
      | inl below ↦
          let l = ltb→lt j s.num_hpm below in
          let e = within s.num_hpm 0 s j inside (omega arith) (omega (arith, l)) in
          simp y (subst (Counts v s j) (sym e) (counter_after-Counts s j wide sized y l))
      | inr above ↦
          let l : s.num_hpm ≤ j = ground arith in
          simp y (rests (inr (inl l)) (after s.num_hpm 0 s j (omega (arith, l))))
    ]
  ]
