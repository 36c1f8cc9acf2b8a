-- ===== src/Prelude/Find.antt =====
-- First matches in an array: the loops of the form `for (i = 0; i < N; i++) if (...) break;`.
use Prim.Native.Nat.{ℕ, zero, suc, ◌+◌, ◌≤◌, ◌<◌}
use mathlib.Core.Path.{◌≡◌, refl, sym, ◌∙◌}
use mathlib.Core.Logic.{◌⊎◌, inl, inr}
use mathlib.Core.Bool.{Bool, true, false}
use mathlib.Core.Option.{Option, none, some}
use mathlib.Core.List.{List, [], ◌∷◌, map}
use native.Mathlib.Omega.{arith}
use riscv_iommu_dv_model.Prelude.Lists.{length}
use riscv_iommu_dv_model.Prelude.Tests.{if◌then◌else◌, Bool-cases, Option-cases}
use riscv_iommu_dv_model.Prelude.Words.{bit}

abbrev shift {ℓ} : {A : Type ℓ} → Option (ℕ × A) → Option (ℕ × A)
shift none = none
shift (some (i, a)) = some (suc i, a)

module _ {ℓ} {A : Type ℓ} where
  -- Change the element at one index.
  abbrev pub modify : List A → ℕ → (A → A) → List A
  modify [] i f = []
  modify (x ∷ xs) zero f = f x ∷ xs
  modify (x ∷ xs) (suc i) f = x ∷ modify xs i f

  -- How many elements match.
  abbrev pub count : (A → Bool) → List A → ℕ
  count p [] = 0
  count p (x ∷ xs) = bit (p x) + count p xs

  -- The index of the first match, and the element.
  abbrev pub find : (A → Bool) → List A → Option (ℕ × A)
  find p [] = none
  find p (x ∷ xs) = if p x then some (0, x) else shift (find p xs)

module _ {ℓ} {A : Type ℓ} (p : A → Bool) where
  pub find-eq-none : (xs : List A) → count p xs ≡ 0 → find p xs ≡ none
  find-eq-none [] h = refl
  find-eq-none (x ∷ xs) h = ground (arith, find-eq-none xs)

  pub count_of_find : (xs : List A) → find p xs ≡ none → count p xs ≡ 0
  count_of_find [] h = refl
  count_of_find (x ∷ xs) h = ground (arith, count_of_find xs)

  pub count-modify :
      (xs : List A) (i : ℕ) (f : A → A) (b : Bool)
      → ((x : A) → p (f x) ≡ b)
      → count p (modify xs i f) ≤ count p xs + bit b
  count-modify [] i f b h = omega arith
  count-modify (x ∷ xs) zero f b h = ground (arith, h x)
  count-modify (x ∷ xs) (suc i) f b h = omega (arith, count-modify xs i f b h)

  -- A change that makes a match, where there was none, is found.
  pub find-modify_new :
      (xs : List A) (i : ℕ) (f : A → A)
      → ((x : A) → p (f x) ≡ true)
      → find p xs ≡ none
      → i < length xs
      → (x : A) × (find p (modify xs i f) ≡ some (i, f x))
  find-modify_new [] i f h n l = absurd (omega arith)
  find-modify_new (x ∷ xs) zero f h n l = (x, ground (arith, h x))
  find-modify_new (x ∷ xs) (suc i) f h n l = elim (Bool-cases (p x)) [
    | inl y ↦ absurd (ground arith)
    | inr y ↦
        let rest : find p xs ≡ none = ground arith in
        let (a, e) = find-modify_new xs i f h rest (omega arith) in (a, rw (y, e))
  ]

  -- A change that makes no match loses at most the match that it overwrites.
  pub find-modify_other :
      (xs : List A) (i : ℕ) (f : A → A)
      → ((x : A) → p (f x) ≡ false)
      → count p xs ≤ 1
      → (find p (modify xs i f) ≡ find p xs) ⊎ (find p (modify xs i f) ≡ none)
  find-modify_other [] i f h u = inl refl
  find-modify_other (x ∷ xs) zero f h u = ground (arith, h x, find-eq-none xs)
  find-modify_other (x ∷ xs) (suc i) f h u =
      let ih = find-modify_other xs i f h (omega arith) in ground (arith, ih)

  -- A change of every element that spares the matches and makes none changes no search.
  pub find-map :
      (xs : List A) (g : A → A)
      → ((x : A) → p x ≡ true → g x ≡ x)
      → ((x : A) → p x ≡ false → p (g x) ≡ false)
      → find p (map g xs) ≡ find p xs
  find-map [] g h k = refl
  find-map (x ∷ xs) g h k = elim (Bool-cases (p x)) [
    | inl y ↦ rw (h x y, y)
    | inr y ↦ rw (y, k x y, find-map xs g h k)
  ]

  pub find-map-none :
      (xs : List A) (g : A → A) → ((x : A) → p (g x) ≡ false) → find p (map g xs) ≡ none
  find-map-none [] g h = refl
  find-map-none (x ∷ xs) g h = rw (h x, find-map-none xs g h)

  pub count-map :
      (xs : List A) (g : A → A)
      → ((x : A) → p x ≡ false → p (g x) ≡ false)
      → count p (map g xs) ≤ count p xs
  count-map [] g h = omega arith
  count-map (x ∷ xs) g h = ground (arith, count-map xs g h, h x)

  pub find-lt-length :
      (xs : List A) {i : ℕ} {x : A} → find p xs ≡ some (i, x) → (i < length xs) × (p x ≡ true)
  find-lt-length [] h = cc
  find-lt-length (y ∷ xs) {i} {x} h = elim (Bool-cases (p y)) [
    | inl e ↦ ground arith
    | inr e ↦ elim (Option-cases (find p xs)) [
      | inl n ↦ absurd (ground arith)
      | inr ((j, z), m) ↦ let (lt, q) = find-lt-length xs m in ground arith
    ]
  ]

-- A predicate of every element.
abbrev pub All {ℓ κ} : {A : Type ℓ} → (A → Type κ) → List A → Type κ
All P [] = Unit
All P (x ∷ xs) = P x × All P xs

module _ {ℓ κ} {A : Type ℓ} (p : A → Bool) (g : A → A) (P : A → Type κ) where
  -- What a search finds after a change of every element is the change of an element.
  pub find-map-some :
      (xs : List A) {i : ℕ} {y : A}
      → All P xs
      → find p (map g xs) ≡ some (i, y)
      → (x : A) × (y ≡ g x) × (p y ≡ true) × P x
  find-map-some [] a h = cc
  find-map-some (x ∷ xs) {i} {y} a h = elim (Bool-cases (p (g x))) [
    | inl e ↦ let q : g x ≡ y = ground arith in (x, sym q, rw (← q) e, a.0)
    | inr e ↦ elim (Option-cases (find p (map g xs))) [
      | inl n ↦ absurd (ground arith)
      | inr ((j, z), m) ↦
          let q : z ≡ y = ground arith in
          let (w, r, s, t) = find-map-some xs a.1 m in (w, sym q ∙ r, rw (← q) s, t)
    ]
  ]
