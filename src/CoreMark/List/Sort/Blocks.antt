-- ===== src/CoreMark/List/Sort/Blocks.antt =====
-- A list cut into stretches of one length, each of them sorted, and what the sort by a key keeps.
use mathlib.Core.List.{append-nil}
use rsicv_uvm_test.Base.{
  count, ℕ, suc, ◌≤◌, ◌<◌, ◌≡◌, refl, sym, ap, ◌∙◌, arith, leb, leb→le, Bool-cases, inl, inr, List,
  [], ◌∷◌, ◌++◌, length, length-append, All,
}
use rsicv_uvm_test.CoreMark.List.Sort.Reference.{insert, sorted}

pub All-append {ℓ} : (P : ℕ → Type ℓ) (xs ys : List ℕ) → All P (xs ++ ys) → All P xs × All P ys
All-append P [] ys h = (tt, h)
All-append P (x ∷ xs) ys h = let rest = All-append P xs ys h.1 in ((h.0, rest.0), rest.1)

pub append-All {ℓ} : (P : ℕ → Type ℓ) (xs ys : List ℕ) → All P xs → All P ys → All P (xs ++ ys)
append-All P [] ys h k = k
append-All P (x ∷ xs) ys h k = (h.0, append-All P xs ys h.1 k)

pub All-weaken : (P Q : ℕ → Type 0) → ((x : ℕ) → P x → Q x) → (xs : List ℕ) → All P xs → All Q xs
All-weaken P Q weaker [] h = tt
All-weaken P Q weaker (x ∷ xs) h = (weaker x h.0, All-weaken P Q weaker xs h.1)

module _ (key : ℕ → ℕ) where
  length-insert : (x : ℕ) (xs : List ℕ) → length (insert key x xs) ≡ suc (length xs)
  length-insert x [] = refl
  length-insert x (y ∷ xs) = elim (Bool-cases (leb (key x) (key y))) [
    | inl first ↦ rw first refl
    | inr later ↦ rw later (ap suc (length-insert x xs))
  ]

  pub length-sorted : (xs : List ℕ) → length (sorted key xs) ≡ length xs
  length-sorted [] = refl
  length-sorted (x ∷ xs) = length-insert x (sorted key xs) ∙ ap suc (length-sorted xs)

  All-insert : (P : ℕ → Type 0) (x : ℕ) (xs : List ℕ) → P x → All P xs → All P (insert key x xs)
  All-insert P x [] h k = (h, tt)
  All-insert P x (y ∷ xs) h k = elim (Bool-cases (leb (key x) (key y))) [
    | inl first ↦ rw first (h, k)
    | inr later ↦ rw later (k.0, All-insert P x xs h k.1)
  ]

  pub All-sorted : (P : ℕ → Type 0) (xs : List ℕ) → All P xs → All P (sorted key xs)
  All-sorted P [] h = tt
  All-sorted P (x ∷ xs) h = All-insert P x (sorted key xs) h.0 (All-sorted P xs h.1)

  -- No cell stands in front of one with a smaller key.
  unfoldable pub Increasing : List ℕ → Type 0
  Increasing [] = Unit
  Increasing (x ∷ xs) = All (λ y. key x ≤ key y) xs × Increasing xs

  insert-Increasing : (x : ℕ) (xs : List ℕ) → Increasing xs → Increasing (insert key x xs)
  unfolding Increasing
  insert-Increasing x [] h = (tt, tt)
  insert-Increasing x (y ∷ xs) h = elim (Bool-cases (leb (key x) (key y))) [
    | inl first ↦
        let le = leb→le (key x) (key y) first in
        rw first (
          (
            le,
            All-weaken (λ z. key y ≤ key z) (λ z. key x ≤ key z) (λ z k. omega (arith, k)) xs h.0,
          ),
          h,
        )
    | inr later ↦
        let lt : key y ≤ key x = ground (arith, later) in
        rw later (All-insert (λ z. key y ≤ key z) x xs lt h.0, insert-Increasing x xs h.1)
  ]

  pub sorted-Increasing : (xs : List ℕ) → Increasing (sorted key xs)
  unfolding Increasing
  sorted-Increasing [] = tt
  sorted-Increasing (x ∷ xs) = insert-Increasing x (sorted key xs) (sorted-Increasing xs)

  count-insert : (z x : ℕ) (xs : List ℕ) → count z (insert key x xs) ≡ count z (x ∷ xs)
  count-insert z x [] = refl
  count-insert z x (y ∷ xs) = elim (Bool-cases (leb (key x) (key y))) [
    | inl first ↦ rw first refl
    | inr later ↦ rw later (omega (arith, count-insert z x xs))
  ]

  pub count-sorted : (xs : List ℕ) (z : ℕ) → count z (sorted key xs) ≡ count z xs
  count-sorted [] z = refl
  count-sorted (x ∷ xs) z = omega (arith, count-insert z x (sorted key xs), count-sorted xs z)

  -- `m` stretches of length `k`, the last of them perhaps shorter, and the list that has them sorted.
  pub data Blocks (k : ℕ) : (m : ℕ) → (xs current : List ℕ) → Type 0 where
    empty : Blocks k 0 [] []
    last : (b : List ℕ) → 1 ≤ length b → length b ≤ k → Blocks k 1 b (sorted key b)
    block :
        (b : List ℕ) (m : ℕ) (xs current : List ℕ)
        → length b ≡ k
        → Blocks k m xs current
        → Blocks k (suc m) (b ++ xs) (sorted key b ++ current)

  pub Blocks-length :
      (k m : ℕ) (xs current : List ℕ) → Blocks k m xs current → length current ≡ length xs
  Blocks-length k _ _ _ empty = refl
  Blocks-length k _ _ _ (last b h h') = length-sorted b
  Blocks-length k _ _ _ (block b m xs current h bs) = omega (
    arith,
    length-append (sorted key b) current,
    length-append b xs,
    length-sorted b,
    Blocks-length k m xs current bs,
  )

  pub Blocks-All :
      (P : ℕ → Type 0) (k m : ℕ) (xs current : List ℕ)
      → Blocks k m xs current
      → All P xs
      → All P current
  Blocks-All P k _ _ _ empty h = tt
  Blocks-All P k _ _ _ (last b _ _) h = All-sorted P b h
  Blocks-All P k _ _ _ (block b m xs current _ bs) h =
      let parts = All-append P b xs h in
      append-All P (sorted key b) current (All-sorted P b parts.0)
        (Blocks-All P k m xs current bs parts.1)

  Blocks-some :
      (k m : ℕ) (xs current : List ℕ) → 1 ≤ k → 1 ≤ m → Blocks k m xs current → 1 ≤ length xs
  Blocks-some k _ _ _ h pos empty = absurd (omega arith)
  Blocks-some k _ _ _ h pos (last b h2 _) = h2
  Blocks-some k _ _ _ h pos (block b m xs current e bs) = omega (arith, length-append b xs)

  -- More than one stretch are more than `k` cells.
  pub Blocks-long :
      (k m : ℕ) (xs current : List ℕ) → 1 ≤ k → 2 ≤ m → Blocks k m xs current → k < length xs
  Blocks-long k _ _ _ h more empty = absurd (omega arith)
  Blocks-long k _ _ _ h more (last b _ _) = absurd (omega arith)
  Blocks-long k _ _ _ h more (block b m xs current e bs) =
      omega (arith, length-append b xs, Blocks-some k m xs current h (omega arith) bs)

  -- One stretch is the whole list.
  pub Blocks-whole :
      (k m : ℕ) (xs current : List ℕ) → m ≤ 1 → Blocks k m xs current → current ≡ sorted key xs
  Blocks-whole k _ _ _ h empty = refl
  Blocks-whole k _ _ _ h (last b _ _) = refl
  Blocks-whole k _ _ _ h (block b _ _ _ e empty) =
      append-nil (sorted key b) ∙ ap (sorted key) (sym (append-nil b))
  Blocks-whole k _ _ _ h (block b _ _ _ e (last b' _ _)) = absurd (omega arith)
  Blocks-whole k _ _ _ h (block b _ _ _ e (block b' m xs current _ bs)) = absurd (omega arith)

  -- Cells one by one.
  pub Blocks-single : (xs : List ℕ) → Blocks 1 (length xs) xs xs
  Blocks-single [] = empty
  Blocks-single (x ∷ xs) = block (x ∷ []) (length xs) xs xs refl (Blocks-single xs)
