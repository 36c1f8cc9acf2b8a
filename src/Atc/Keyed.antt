-- ===== src/Atc/Keyed.antt =====
-- A cache as a partial map from keys to values. The device and the process directory cache are two
-- instances; what an insertion, an ageing and an invalidation do to the map is shown here for both.
use mathlib.Core.Option
use riscv_iommu_dv_model.Prelude.{
  ℕ, zero, suc, ◌<◌, ◌≤◌, ◌≡◌, ◌⊎◌, inl, inr, List, [], ◌∷◌, map, length, find, modify, count, some,
  none, Option, Bool, true, false, arith, Option-cases, refl, ap, find-modify_new,
  find-modify_other, count-modify, count_of_find, find-map, find-map-none, count-map,
}

module _ {E K V : Type 0} (matches : K → E → Bool) (value : E → V) where
  -- The value that the first match of a key holds.
  abbrev pub view : List E → K → Option V
  view c k = Option.map (λ (m : ℕ × E). value m.1) (find (matches k) c)

  -- No key has two entries.
  abbrev pub IsUnique : List E → Type 0
  IsUnique c = (k : K) → count (matches k) c ≤ 1

  find_of_view : (c : List E) (k : K) → view c k ≡ none → find (matches k) c ≡ none
  find_of_view c k h = elim (Option-cases (find (matches k) c)) [
    | inl e ↦ e
    | inr (m, e) ↦ absurd (ground arith)
  ]

  -- Write an entry for a key that has none.
  module _ (c : List E) (i : ℕ) (f : E → E) (k : K) (v : V) where
    pub view-insert :
        ((e : E) → matches k (f e) ≡ true)
        → ((e : E) → value (f e) ≡ v)
        → view c k ≡ none
        → i < length c
        → view (modify c i f) k ≡ some v
    view-insert fits holds missed inside =
        let (e, p) = find-modify_new (matches k) c i f fits (find_of_view c k missed) inside in
        rw p (ap some (holds e))

    pub view-insert_ne :
        (k' : K)
        → ((e : E) → matches k' (f e) ≡ false)
        → IsUnique c
        → (view (modify c i f) k' ≡ view c k') ⊎ (view (modify c i f) k' ≡ none)
    view-insert_ne k' misses unique =
        elim (find-modify_other (matches k') c i f misses (unique k')) [
          | inl e ↦ inl (ap (Option.map (λ (m : ℕ × E). value m.1)) e)
          | inr e ↦ inr (ap (Option.map (λ (m : ℕ × E). value m.1)) e)
        ]

    pub insert-IsUnique :
        ((e : E) → matches k (f e) ≡ true)
        → ((k' : K) → (k' ≡ k) ⊎ ((e : E) → matches k' (f e) ≡ false))
        → view c k ≡ none
        → IsUnique c
        → IsUnique (modify c i f)
    insert-IsUnique fits others missed unique k' = elim (others k') [
      | inl e ↦ rw e (
          omega (
            arith,
            count-modify (matches k) c i f true fits,
            count_of_find (matches k) c (find_of_view c k missed),
          ))
      | inr misses ↦ omega (arith, count-modify (matches k') c i f false misses, unique k')
    ]

  -- A change of a field that no search and no reader looks at, such as the age of an entry.
  module _ (f : E → E) (keeps : (k : K) (e : E) → matches k (f e) ≡ matches k e)
      (holds : (e : E) → value (f e) ≡ value e) where
    pub view-touch : (c : List E) (i : ℕ) (k : K) → view (modify c i f) k ≡ view c k
    view-touch [] i k = refl
    view-touch (x ∷ c) zero k = ground (arith, keeps k x, holds x)
    view-touch (x ∷ c) (suc i) k = ground (arith, view-touch c i k)

    pub count-touch :
        (c : List E) (i : ℕ) (k : K) → count (matches k) (modify c i f) ≡ count (matches k) c
    count-touch [] i k = refl
    count-touch (x ∷ c) zero k = rw (keeps k x)
    count-touch (x ∷ c) (suc i) k = rw (count-touch c i k)

  -- An invalidation: a change of every entry.
  module _ (g : E → E) where
    pub view-erased :
        (c : List E) (k : K) → ((e : E) → matches k (g e) ≡ false) → view (map g c) k ≡ none
    view-erased c k h = rw (find-map-none (matches k) c g h)

    pub view-spared :
        (c : List E) (k : K)
        → ((e : E) → matches k e ≡ true → g e ≡ e)
        → ((e : E) → matches k e ≡ false → matches k (g e) ≡ false)
        → view (map g c) k ≡ view c k
    view-spared c k h m = rw (find-map (matches k) c g h m)

    pub erased-IsUnique :
        (c : List E)
        → ((k : K) (e : E) → matches k e ≡ false → matches k (g e) ≡ false)
        → IsUnique c
        → IsUnique (map g c)
    erased-IsUnique c m unique k = omega (arith, count-map (matches k) c g (m k), unique k)
