-- ===== src/Ats/Itag.antt =====
-- The tags of invalidation requests: `allocate_itag` of iommu_ats.c.
use riscv_iommu_dv_model.Prelude.{
  ℕ, zero, suc, ◌+◌, ◌<◌, ◌≡◌, ◌≢◌, refl, ap, inl, inr, arith, Bool-cases, Option, Option-cases,
  some, none, List, [], ◌∷◌, length, get_or, find, modify, count, count_of_find, ◌==◌,
}
use riscv_iommu_dv_model.Iommu.{Iommu}
use riscv_iommu_dv_model.Iommu.Caches.{ItagTracker}
use riscv_iommu_dv_model.Ats.{Destination, is_free, is_busy, allocate_itag}

abbrev pub no_tracker : ItagTracker
no_tracker = record { busy = 0; dsv = 0; dseg = 0; rid = 0; num_rsp_rcvd = 0 }

abbrev pub tracker : List ItagTracker → ℕ → ItagTracker
tracker ts i = get_or ts i no_tracker

-- The tracker of a request that was just sent.
abbrev pub taken : Destination → ItagTracker → ItagTracker
taken d t = record t { busy = 1; dsv = d.dsv; dseg = d.dseg; rid = d.rid; num_rsp_rcvd = 0 }

-- What a list of trackers is after tag `i` is given to `d`.
pub record Taken (d : Destination) (i : ℕ) (ts us : List ItagTracker) : Type 0 where
  in_range : i < length ts
  was_free : (tracker ts i).busy ≡ 0
  is_taken : tracker us i ≡ taken d (tracker ts i)
  one_less : count is_free us + 1 ≡ count is_free ts
  others : (j : ℕ) → j ≢ i → tracker us j ≡ tracker ts j
  seen : find is_busy us ≢ none

tracker-head :
    (x y : ItagTracker) (xs : List ItagTracker) (j : ℕ)
    → j ≢ 0
    → tracker (y ∷ xs) j ≡ tracker (x ∷ xs) j
tracker-head x y xs zero ne = absurd (ne refl)
tracker-head x y xs (suc j) ne = refl

tracker-tail :
    (x : ItagTracker) (i : ℕ) (xs ys : List ItagTracker)
    → ((j : ℕ) → j ≢ i → tracker ys j ≡ tracker xs j)
    → (j : ℕ) → j ≢ suc i
    → tracker (x ∷ ys) j ≡ tracker (x ∷ xs) j
tracker-tail x i xs ys h zero ne = refl
tracker-tail x i xs ys h (suc j) ne = h j (λ e. ne (ap suc e))

Taken-modify :
    (d : Destination) (ts : List ItagTracker) (i : ℕ) (t : ItagTracker)
    → find is_free ts ≡ some (i, t)
    → Taken d i ts (modify ts i (taken d))
Taken-modify d [] i t h = absurd cc
Taken-modify d (x ∷ xs) zero t h =
    let free : x.busy ≡ 0 = elim (Bool-cases (x.busy == 0)) [
      | inl y ↦ ground arith
      | inr n ↦ elim (Option-cases (find is_free xs)) [
        | inl m ↦ absurd (ground arith)
        | inr m ↦ absurd (ground arith)
      ]
    ] in
    record {
      in_range = omega arith;
      was_free = free;
      is_taken = refl;
      one_less = ground arith;
      others = tracker-head x (taken d x) xs;
      seen = λ e. cc;
    }
Taken-modify d (x ∷ xs) (suc i) t h = elim (Bool-cases (x.busy == 0)) [
  | inl y ↦ absurd (ground arith)
  | inr n ↦ elim (Option-cases (find is_free xs)) [
    | inl m ↦ absurd (ground arith)
    | inr ((k, u), m) ↦
        let same : find is_free xs ≡ some (i, t) = ground arith in
        let rest = Taken-modify d xs i t same in
        let seen_rest = rest.seen in
        record {
          in_range = omega (arith, rest.in_range);
          was_free = rest.was_free;
          is_taken = rest.is_taken;
          one_less = omega (arith, rest.one_less);
          others = tracker-tail x i xs (modify xs i (taken d)) rest.others;
          seen = λ e. seen_rest (ground arith);
        }
  ]
]

-- How `allocate_itag` ends.
pub data Allocates {W : Type 0} (s : Iommu W) (d : Destination) (r : Option ℕ × Iommu W)
    : Type 0 where
  exhausted : count is_free s.itag_tracker ≡ 0 → r ≡ (none, s) → Allocates s d r
  fresh :
      (i : ℕ) (ts : List ItagTracker)
      → r ≡ (some i, record s { itag_tracker = ts })
      → Taken d i s.itag_tracker ts
      → Allocates s d r

module _ {W : Type 0} where
  -- `allocate_itag` fails, and changes nothing, only where no tracker is free. Otherwise it returns a
  -- tag in range that was free, whose tracker is now busy with the destination and no response, so
  -- that one tracker less is free and a request is seen as pending; no other tracker changes, and
  -- nothing else of the state.
  pub allocate_itag_lem : (s : Iommu W) (d : Destination) → Allocates s d (allocate_itag s d)
  unfolding allocate_itag
  allocate_itag_lem s d = elim (Option-cases (find is_free s.itag_tracker)) [
    | inl n ↦ exhausted (count_of_find is_free s.itag_tracker n) (rw (n, allocate_itag) refl)
    | inr ((i, t), e) ↦
        fresh i (modify s.itag_tracker i (taken d)) (rw (e, allocate_itag) refl)
          (Taken-modify d s.itag_tracker i t e)
  ]
