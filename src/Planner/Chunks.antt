-- ===== src/Planner/Chunks.antt =====
-- `chunk` cuts a list into consecutive pieces.
use maintenance_orchestrator.Prelude.{
  ℕ, zero, suc, ◌+◌, ◌-◌, ◌≤◌, ◌<◌, ◌≡◌, refl, sym, ap, ◌∙◌, inl, inr, true, List, [], ◌∷◌, ◌++◌,
  String, ltb, if◌then◌else◌, length, take, drop, All, Bool-cases, take-append-drop, length-drop,
  length-take, arith,
}
use mathlib.Core.Path.{ap₂}
use native.Mathlib.Nat.{suc-add}
use maintenance_orchestrator.Api.Status.{Batch}
use maintenance_orchestrator.Planner.Batches.{chunk_loop, chunk}

-- The node names of the batches, in order.
abbrev pub all_nodes : List Batch → List String
all_nodes [] = []
all_nodes (b ∷ bs) = b.nodes ++ all_nodes bs

-- The batches carry the indices `idx`, `idx + 1`, …
abbrev pub IsNumbered : ℕ → List Batch → Type 0
IsNumbered idx [] = Unit
IsNumbered idx (b ∷ bs) = (b.index ≡ idx) × IsNumbered (idx + 1) bs

module _ {ℓ} {A : Type ℓ} where
  drop_nil : (k : ℕ) → drop {A = A} k [] ≡ []
  drop_nil zero = refl
  drop_nil (suc k) = refl

  drop-drop : (i k : ℕ) (xs : List A) → drop (i + k) xs ≡ drop k (drop i xs)
  drop-drop zero k xs = ground arith
  drop-drop (suc i) k [] = drop_nil (suc i + k) ∙ sym (drop_nil k)
  drop-drop (suc i) k (x ∷ xs) = rw suc-add (drop-drop i k xs)

  drop_beyond : (i : ℕ) (xs : List A) → length xs ≤ i → drop i xs ≡ []
  drop_beyond zero [] h = refl
  drop_beyond zero (x ∷ xs) h = absurd (omega arith)
  drop_beyond (suc i) [] h = refl
  drop_beyond (suc i) (x ∷ xs) h = drop_beyond i xs (omega arith)

  take_beyond : (k : ℕ) (xs : List A) → length xs ≤ k → take k xs ≡ xs
  take_beyond zero [] h = refl
  take_beyond zero (x ∷ xs) h = absurd (omega arith)
  take_beyond (suc k) [] h = refl
  take_beyond (suc k) (x ∷ xs) h = ap (λ ys. x ∷ ys) (take_beyond k xs (omega arith))

  -- The slice `xs[i:end]`, whose end is capped at the length, takes `size` elements behind `i`.
  take_end :
      (i size : ℕ) (xs : List A)
      → i < length xs
      → take ((if ltb (length xs) (i + size) then length xs else i + size) - i) (drop i xs)
        ≡ take size (drop i xs)
  take_end i size xs h = elim (Bool-cases (ltb (length xs) (i + size))) [
    | inl short ↦ rw short (
        take_beyond (length xs - i) (drop i xs) (omega (arith, length-drop i xs))
        ∙ sym (take_beyond size (drop i xs) (ground (arith, length-drop i xs))))
    | inr long ↦ rw long (ap (λ k. take k (drop i xs)) (omega arith))
  ]

module _ (names : List String) (size : ℕ) (positive : 1 ≤ size) where
  -- Every piece from position `i` on holds at least one name and at most `size`.
  abbrev IsPiece : Batch → Type 0
  IsPiece b = (1 ≤ length b.nodes) × (length b.nodes ≤ size)

  all_nodes-chunk_loop :
      (fuel i idx : ℕ)
      → length names ≤ fuel + i
      → all_nodes (chunk_loop fuel names size i idx) ≡ drop i names
  unfolding chunk_loop
  all_nodes-chunk_loop zero i idx enough = sym (drop_beyond i names (omega arith))
  all_nodes-chunk_loop (suc fuel) i idx enough = elim (Bool-cases (ltb i (length names))) [
    | inl more ↦ rw more (
        ap₂ (λ xs ys. xs ++ ys) (take_end i size names (ground arith))
          (all_nodes-chunk_loop fuel (i + size) (idx + 1) (omega arith) ∙ drop-drop i size names)
        ∙ take-append-drop size (drop i names))
    | inr done ↦ rw done (sym (drop_beyond i names (ground arith)))
  ]

  chunk_loop-IsPiece :
      (fuel i idx : ℕ)
      → All IsPiece (chunk_loop fuel names size i idx)
        × IsNumbered idx (chunk_loop fuel names size i idx)
  unfolding chunk_loop
  chunk_loop-IsPiece zero i idx = (tt, tt)
  chunk_loop-IsPiece (suc fuel) i idx = elim (Bool-cases (ltb i (length names))) [
    | inl more ↦
        let (pieces, numbers) = chunk_loop-IsPiece fuel (i + size) (idx + 1) in
        rw more (
          (
            rw (take_end i size names (ground arith)) (
              omega (arith, length-take size (drop i names), length-drop i names, before more),
              omega (arith, length-take size (drop i names)),
            ),
            pieces,
          ),
          (refl, numbers),
        )
    | inr done ↦ rw done (tt, tt)
  ]
    where
      before : ltb i (length names) ≡ true → i < length names
      before more = ground arith

-- The batches of `chunk` hold the names in order, each once; each batch holds at least one name and
-- at most `size`; and the batches are numbered from 0.
pub chunk_lem :
    (names : List String) (size : ℕ)
    → 1 ≤ size
    → (all_nodes (chunk names size) ≡ names)
      × All (λ b. (1 ≤ length b.nodes) × (length b.nodes ≤ size)) (chunk names size)
      × IsNumbered 0 (chunk names size)
unfolding chunk
chunk_lem names size positive =
    let (pieces, numbers) = chunk_loop-IsPiece names size positive (length names) 0 0 in
    (all_nodes-chunk_loop names size positive (length names) 0 0 (omega arith), pieces, numbers)
