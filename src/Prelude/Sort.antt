-- ===== src/Prelude/Sort.antt =====
-- `sort.Strings` and `sort.Slice` by a text key: ascending in the order of the bytes, which for
-- UTF-8 is the order of the code points. (Where keys are equal, `sort.Slice` fixes no order; the
-- program sorts by names, which are unique.)
use Prim.Native.Nat.{ℕ, compare as compare_ℕ, Ordering}
use Prim.Native.Char.{code}
use Prim.Native.String.{String, compare}
use Prim.Native.String.compare
use mathlib.Core.Path.{◌≡◌}
use mathlib.Core.Logic.{inl, inr}
use mathlib.Core.Bool.{Bool, true, false}
use mathlib.Core.List.{List, [], ◌∷◌, Perm}
use mathlib.Core.List.Perm
use native.Mathlib.Omega.{arith}
use maintenance_orchestrator.Prelude.Tests.{if◌then◌else◌, Bool-cases}

abbrev pub str_le : String → String → Bool
str_le s t = elim (compare s t) [ Ordering.gt ↦ false | _ ↦ true ]

compare_ℕ_flip :
    (m n : ℕ)
    → (compare_ℕ m n ≡ Ordering.gt → compare_ℕ n m ≡ Ordering.lt)
      × (compare_ℕ m n ≡ Ordering.eq → compare_ℕ n m ≡ Ordering.eq)
compare_ℕ_flip m n = ground arith

compare_flip : (s t : String) → compare s t ≡ Ordering.gt → compare t s ≡ Ordering.lt
compare_flip String.[] String.[] h = cc compare.nil-nil
compare_flip String.[] (String.◌∷◌ d t) h = cc (compare.nil-cons d t)
compare_flip (String.◌∷◌ c s) String.[] h = compare.nil-cons c s
compare_flip (String.◌∷◌ c s) (String.◌∷◌ d t) h = ground (
  arith,
  compare.cons-cons c d s t,
  compare.cons-cons d c t s,
  compare_flip s t,
  compare_ℕ_flip (code c) (code d),
)

str_le_total : (s t : String) → str_le s t ≡ false → str_le t s ≡ true
str_le_total s t h = ground (arith, compare_flip s t)

module _ {ℓ} {A : Type ℓ} (key : A → String) where
  unfoldable pub insert_by : A → List A → List A
  insert_by x [] = x ∷ []
  insert_by x (y ∷ ys) = if str_le (key x) (key y) then x ∷ y ∷ ys else y ∷ insert_by x ys

  unfoldable pub sort_by : List A → List A
  unfolding insert_by
  sort_by [] = []
  sort_by (x ∷ xs) = insert_by x (sort_by xs)

  -- Each key is at most its successor.
  abbrev pub IsSortedBy : List A → Type 0
  IsSortedBy [] = Unit
  IsSortedBy (x ∷ []) = Unit
  IsSortedBy (x ∷ y ∷ ys) = (str_le (key x) (key y) ≡ true) × IsSortedBy (y ∷ ys)

  insert_by-IsSortedBy : (x : A) (ys : List A) → IsSortedBy ys → IsSortedBy (insert_by x ys)
  unfolding insert_by
  insert_by-IsSortedBy x [] h = tt
  insert_by-IsSortedBy x (y ∷ []) h = ground (arith, str_le_total (key x) (key y))
  insert_by-IsSortedBy x (y ∷ z ∷ zs) h =
      ground (arith, str_le_total (key x) (key y), insert_by-IsSortedBy x (z ∷ zs) h.1)

  pub sort_by-IsSortedBy : (xs : List A) → IsSortedBy (sort_by xs)
  unfolding sort_by
  sort_by-IsSortedBy [] = tt
  sort_by-IsSortedBy (x ∷ xs) = insert_by-IsSortedBy x (sort_by xs) (sort_by-IsSortedBy xs)

  insert_by-perm : (x : A) (ys : List A) → Perm (insert_by x ys) (x ∷ ys)
  unfolding insert_by
  insert_by-perm x [] = Perm.rfl
  insert_by-perm x (y ∷ ys) = elim (Bool-cases (str_le (key x) (key y))) [
    | inl e ↦ rw e Perm.rfl
    | inr e ↦ rw e (Perm.trans (Perm.cons y (insert_by-perm x ys)) (Perm.swap x y ys))
  ]

  pub sort_by-perm : (xs : List A) → Perm (sort_by xs) xs
  unfolding sort_by
  sort_by-perm [] = Perm.rfl
  sort_by-perm (x ∷ xs) = Perm.trans (insert_by-perm x (sort_by xs)) (Perm.cons x (sort_by-perm xs))

-- `sort.Strings`
unfoldable pub sort : List String → List String
unfolding sort_by
sort = sort_by (λ s. s)

abbrev pub IsSorted : List String → Type 0
IsSorted = IsSortedBy (λ s. s)

pub sort-IsSorted : (ss : List String) → IsSorted (sort ss)
unfolding sort
sort-IsSorted = sort_by-IsSortedBy (λ s. s)

pub sort-perm : (ss : List String) → Perm (sort ss) ss
unfolding sort
sort-perm = sort_by-perm (λ s. s)
