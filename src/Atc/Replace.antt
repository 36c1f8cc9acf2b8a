-- ===== src/Atc/Replace.antt =====
-- The choice of an entry to replace: it is always inside the cache.
use riscv_iommu_dv_model.Prelude.{
  ℕ, suc, ◌+◌, ◌<◌, ◌≤◌, ◌≡◌, inl, inr, List, [], ◌∷◌, map, length, find, ltb, ◌==◌, if◌then◌else◌,
  arith, Option-cases, find-lt-length, refl, ap,
}
use riscv_iommu_dv_model.Atc.{oldest, replaced}

oldest-lt :
    (i lru replace n : ℕ) (xs : List ℕ)
    → replace < n
    → i + length xs ≤ n
    → oldest i lru replace xs < n
unfolding oldest
oldest-lt i lru replace n [] h k = h
oldest-lt i lru replace n (x ∷ xs) h k =
    oldest-lt (i + 1) (if ltb x lru then x else lru) (if ltb x lru then i else replace) n xs
      (ground arith) (omega arith)

pub length-map {ℓ κ} :
    {A : Type ℓ} {B : Type κ} (f : A → B) (xs : List A) → length (map f xs) ≡ length xs
length-map f [] = refl
length-map f (x ∷ xs) = ap suc (length-map f xs)

-- Entries of one cache: as many `valid` fields as `lru` fields.
pub replaced-lt :
    (valids lrus : List ℕ) (initial : ℕ)
    → length valids ≡ length lrus
    → initial < length lrus
    → replaced valids lrus initial < length lrus
unfolding replaced
replaced-lt valids lrus initial e h = elim (Option-cases (find (λ v. v == 0) valids)) [
  | inl n ↦ rw (n, replaced) (oldest-lt 0 0xFFFFFFFF initial (length lrus) lrus h (omega arith))
  | inr ((i, v), m) ↦
      let (lt, _) = find-lt-length (λ v. v == 0) valids m in rw (m, replaced) (omega arith)
]
