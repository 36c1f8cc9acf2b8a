-- ===== src/CommandQueue/Legal.antt =====
-- The commands that `process_commands` of iommu_command_queue.c refuses are those that the formats do
-- not allow.
use riscv_iommu_dv_model.Prelude.{
  ℕ, Bool, true, false, not, ◌&&◌, if◌then◌else◌, ◌≡◌, ◌≢◌, ◌↔◌, refl, ◌⊎◌, inl, inr, arith,
  Bool-cases, ◌==◌, ==_iff, get_bits,
}
use riscv_iommu_dv_model.Iommu.{Iommu}
use riscv_iommu_dv_model.Iommu.Platform.{Platform}
use riscv_iommu_dv_model.Ats.{do_iofence_c}
use riscv_iommu_dv_model.CommandQueue.{
  Outcome, retired, held, illegal, exec_iotinval, exec_iodir, exec_iofence, exec_ats, execute,
  iotinval_reserved, iofence_of, iodir_reserved, iofence_reserved, ats_reserved, func3, opcode,
  did_too_wide, pid_too_wide, iodir_dv, iodir_pid, iodir_did, iotinval_of,
}
use riscv_iommu_dv_model.CommandQueue.Format.{
  IsLegal, iotinval_vma, iotinval_gvma, iodir_inval_ddt, iodir_inval_pdt, iofence_c, ats_inval,
  ats_prgr, IotinvalClear-intro, IotinvalClear-elim, IodirClear-intro, IodirClear-elim,
  IofenceClear-intro, IofenceClear-elim, AtsClear-intro, AtsClear-elim, PidFits-intro, PidFits-elim,
  clear-intro, clear-elim,
}

-- Whether a command ends as illegal.
abbrev pub is_illegal : {W : Type 0} → Outcome W → Bool
is_illegal (retired t) = false
is_illegal (held t) = false
is_illegal illegal = true

module _ {W : Type 0} where
  is_illegal-eq : (o : Outcome W) → is_illegal o ≡ true → o ≡ illegal
  is_illegal-eq (retired t) h = absurd cc
  is_illegal-eq (held t) h = absurd cc
  is_illegal-eq illegal h = refl

  Outcome-clash : (o : Outcome W) → o ≡ illegal → is_illegal o ≡ false → ⊥
  Outcome-clash o e h = let k : is_illegal o ≡ true = rw e refl in ground arith

  guard-intro :
      (b : Bool) (x : Outcome W)
      → is_illegal (if b then illegal else x) ≡ false
      → (b ≡ false) × (is_illegal x ≡ false)
  guard-intro true x h = absurd cc
  guard-intro false x h = (refl, h)

  guard-elim :
      (b : Bool) (x : Outcome W)
      → b ≡ false
      → is_illegal x ≡ false
      → is_illegal (if b then illegal else x) ≡ false
  guard-elim b x h k = rw h k

  case-intro :
      (n m : ℕ) (x y : Outcome W)
      → is_illegal (if n == m then x else y) ≡ false
      → ((n ≡ m) × (is_illegal x ≡ false)) ⊎ (is_illegal y ≡ false)
  case-intro n m x y h = elim (Bool-cases (n == m)) [
    | inl e ↦ inl ((==_iff n m).0 e, rw e at h)
    | inr e ↦ inr (rw e at h)
  ]

  case_first :
      (n m : ℕ) (x y : Outcome W)
      → n ≡ m
      → is_illegal x ≡ false
      → is_illegal (if n == m then x else y) ≡ false
  case_first n m x y h k = rw ((==_iff n m).1 h) k

  case_next :
      (n m k : ℕ) (x y : Outcome W)
      → n ≡ m
      → (m == k) ≡ false
      → is_illegal y ≡ false
      → is_illegal (if n == k then x else y) ≡ false
  case_next n m k x y e h g = let miss : (n == k) ≡ false = rw e h in rw miss g

did-intro : (b c : Bool) → (b && c) ≡ false → b ≡ true → c ≡ false
did-intro b c h k = ground arith

differs-intro : (n m : ℕ) → not (n == m) ≡ false → n ≡ m
differs-intro n m h = ground arith

differs-elim : (n m : ℕ) → n ≡ m → not (n == m) ≡ false
differs-elim n m h = ground arith

ddt-intro : (n m : ℕ) → (not (n == 0) && not (m == 0)) ≡ false → n ≢ 0 → m ≡ 0
ddt-intro n m h k = ground arith

ddt-elim : (n m : ℕ) → (n ≢ 0 → m ≡ 0) → (not (n == 0) && not (m == 0)) ≡ false
ddt-elim n m h = elim (Bool-cases (n == 0)) [
  | inl y ↦ rw y refl
  | inr y ↦ rw (y, h (λ e. ground arith)) refl
]

module _ {W : Type 0} (s : Iommu W) (c : ℕ) where
  exec_iotinval-intro :
      (i j : ℕ) → opcode c ≡ 1 → is_illegal (exec_iotinval s c i j) ≡ false → IsLegal s c
  unfolding exec_iotinval
  exec_iotinval-intro i j op h =
      let (clear, h1) = guard-intro (iotinval_reserved s c) _ h in
      elim (case-intro (func3 c) 0 _ _ h1) [
        | inl (f, _) ↦ iotinval_vma op f (IotinvalClear-intro s c clear)
        | inr h2 ↦ elim (case-intro (func3 c) 1 _ _ h2) [
          | inl (f, h3) ↦
              let (pscv, _) = guard-intro (not ((iotinval_of c).pscv == 0)) _ h3 in
              iotinval_gvma op f (IotinvalClear-intro s c clear)
                (clear-intro (get_bits 32 32 c) pscv)
          | inr h3 ↦ absurd cc
        ]
      ]

  exec_iodir-intro : opcode c ≡ 3 → is_illegal (exec_iodir s c) ≡ false → IsLegal s c
  unfolding exec_iodir
  exec_iodir-intro op h =
      let (clear, h1) = guard-intro (iodir_reserved c) _ h in
      let fields = IodirClear-intro s c clear in
      elim (case-intro (func3 c) 0 _ _ h1) [
        | inl (f, h2) ↦
            let (pid, h3) = guard-intro (not (iodir_pid c == 0)) _ h2 in
            let (did, _) =
              guard-intro (not (iodir_dv c == 0) && did_too_wide s (iodir_did c)) _ h3 in
            iodir_inval_ddt op f fields (clear-intro (iodir_pid c) pid)
              (ddt-intro (iodir_dv c) _ did)
        | inr h2 ↦ elim (case-intro (func3 c) 1 _ _ h2) [
          | inl (f, h3) ↦
              let (dv, h4) = guard-intro (not (iodir_dv c == 1)) _ h3 in
              let (did, h5) = guard-intro (did_too_wide s (iodir_did c)) _ h4 in
              let (pid, _) = guard-intro (pid_too_wide s (iodir_pid c)) _ h5 in
              iodir_inval_pdt op f fields (differs-intro (iodir_dv c) 1 dv) (clear-intro _ did)
                (PidFits-intro s c pid)
          | inr h3 ↦ absurd cc
        ]
      ]

module _ {W : Type 0} (P : Platform W) (s : Iommu W) (c : ℕ) where
  -- A fence is not illegal, whether it is done or not.
  is_illegal-fence :
      is_illegal (
        if not ((do_iofence_c P s (iofence_of c)).0 == 0)
        then held (do_iofence_c P s (iofence_of c)).1
        else retired (do_iofence_c P s (iofence_of c)).1)
      ≡ false
  is_illegal-fence = elim (Bool-cases (not ((do_iofence_c P s (iofence_of c)).0 == 0))) [
    | inl y ↦ rw y refl
    | inr n ↦ rw n refl
  ]

  exec_iofence-intro : opcode c ≡ 2 → is_illegal (exec_iofence P s c) ≡ false → IsLegal s c
  unfolding exec_iofence
  exec_iofence-intro op h =
      let (clear, h1) = guard-intro (iofence_reserved s c) _ h in
      let (f, _) = guard-intro (not (func3 c == 0)) _ h1 in
      iofence_c op (clear-intro (func3 c) f) (IofenceClear-intro s c clear)

  exec_ats-intro : opcode c ≡ 4 → is_illegal (exec_ats P s c) ≡ false → IsLegal s c
  unfolding exec_ats
  exec_ats-intro op h =
      let (clear, h1) = guard-intro (ats_reserved s c) _ h in
      elim (case-intro (func3 c) 0 _ _ h1) [
        | inl (f, _) ↦ ats_inval op f (AtsClear-intro s c clear)
        | inr h2 ↦ elim (case-intro (func3 c) 1 _ _ h2) [
          | inl (f, _) ↦ ats_prgr op f (AtsClear-intro s c clear)
          | inr h3 ↦ absurd cc
        ]
      ]

  execute-intro : (i j : ℕ) → is_illegal (execute P s c i j) ≡ false → IsLegal s c
  unfolding execute
  execute-intro i j h = elim (case-intro (opcode c) 1 _ _ h) [
    | inl (op, k) ↦ exec_iotinval-intro s c i j op k
    | inr h1 ↦ elim (case-intro (opcode c) 3 _ _ h1) [
      | inl (op, k) ↦ exec_iodir-intro s c op k
      | inr h2 ↦ elim (case-intro (opcode c) 2 _ _ h2) [
        | inl (op, k) ↦ exec_iofence-intro op k
        | inr h3 ↦ elim (case-intro (opcode c) 4 _ _ h3) [
          | inl (op, k) ↦ exec_ats-intro op k
          | inr h4 ↦ absurd cc
        ]
      ]
    ]
  ]

  execute-elim : (i j : ℕ) → IsLegal s c → is_illegal (execute P s c i j) ≡ false
  unfolding execute exec_iotinval exec_iodir exec_iofence exec_ats
  execute-elim i j (iotinval_vma op f r) = case_first (opcode c) 1 _ _ op (
      guard-elim (iotinval_reserved s c) _ (IotinvalClear-elim s c r)
        (case_first (func3 c) 0 _ _ f refl))
  execute-elim i j (iotinval_gvma op f r p) = case_first (opcode c) 1 _ _ op (
      guard-elim (iotinval_reserved s c) _ (IotinvalClear-elim s c r) (
        case_next (func3 c) 1 0 _ _ f refl (
          case_first (func3 c) 1 _ _ f (
            guard-elim (not ((iotinval_of c).pscv == 0)) _ (clear-elim (get_bits 32 32 c) p)
              refl))))
  execute-elim i j (iodir_inval_ddt op f r pid did) = case_next (opcode c) 3 1 _ _ op refl (
      case_first (opcode c) 3 _ _ op (
        guard-elim (iodir_reserved c) _ (IodirClear-elim s c r) (
          case_first (func3 c) 0 _ _ f (
            guard-elim (not (iodir_pid c == 0)) _ (clear-elim (iodir_pid c) pid) (
              guard-elim (not (iodir_dv c == 0) && did_too_wide s (iodir_did c)) _
                (ddt-elim (iodir_dv c) _ did) refl)))))
  execute-elim i j (iodir_inval_pdt op f r dv did pid) = case_next (opcode c) 3 1 _ _ op refl (
      case_first (opcode c) 3 _ _ op (
        guard-elim (iodir_reserved c) _ (IodirClear-elim s c r) (
          case_next (func3 c) 1 0 _ _ f refl (
            case_first (func3 c) 1 _ _ f (
              guard-elim (not (iodir_dv c == 1)) _ (differs-elim (iodir_dv c) 1 dv) (
                guard-elim (did_too_wide s (iodir_did c)) _ (clear-elim _ did)
                  (guard-elim (pid_too_wide s (iodir_pid c)) _ (PidFits-elim s c pid) refl)))))))
  execute-elim i j (iofence_c op f r) = case_next (opcode c) 2 1 _ _ op refl (
      case_next (opcode c) 2 3 _ _ op refl (
        case_first (opcode c) 2 _ _ op (
          guard-elim (iofence_reserved s c) _ (IofenceClear-elim s c r)
            (guard-elim (not (func3 c == 0)) _ (clear-elim (func3 c) f) is_illegal-fence))))
  execute-elim i j (ats_inval op f r) = case_next (opcode c) 4 1 _ _ op refl (
      case_next (opcode c) 4 3 _ _ op refl (
        case_next (opcode c) 4 2 _ _ op refl (
          case_first (opcode c) 4 _ _ op (
            guard-elim (ats_reserved s c) _ (AtsClear-elim s c r)
              (case_first (func3 c) 0 _ _ f refl)))))
  execute-elim i j (ats_prgr op f r) = case_next (opcode c) 4 1 _ _ op refl (
      case_next (opcode c) 4 3 _ _ op refl (
        case_next (opcode c) 4 2 _ _ op refl (
          case_first (opcode c) 4 _ _ op (
            guard-elim (ats_reserved s c) _ (AtsClear-elim s c r)
              (case_next (func3 c) 1 0 _ _ f refl (case_first (func3 c) 1 _ _ f refl))))))

  -- `process_commands` goes to `command_illegal` with exactly the commands that are not legal: those
  -- with an unknown opcode or function, a reserved field that is not 0, a missing capability or an
  -- operand that is too wide. The width of a device id is that of the mask `max_devid_mask`, which
  -- is fixed at the reset, and not that of the mode in `ddtp`; the bit WSI is reserved where `fctl.wsi`
  -- is 0.
  pub execute-IsLegal : (i j : ℕ) → (execute P s c i j ≡ illegal) ↔ (¬ IsLegal s c)
  execute-IsLegal i j = (
    λ e legal. absurd (Outcome-clash (execute P s c i j) e (execute-elim i j legal)),
    λ none_legal. elim (Bool-cases (is_illegal (execute P s c i j))) [
      | inl y ↦ is_illegal-eq (execute P s c i j) y
      | inr n ↦ absurd (none_legal (execute-intro i j n))
    ],
  )
