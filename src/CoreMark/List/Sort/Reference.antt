-- ===== src/CoreMark/List/Sort/Reference.antt =====
-- The stable sort of a list of cells by a key, apart from the way the code finds it.
use rsicv_uvm_test.Base.{
  ℕ, ◌≡◌, refl, sym, ap, ◌∙◌, arith, leb, Bool-cases, inl, inr, false, if◌then◌else◌, List, [], ◌∷◌,
  ◌++◌,
}

module _ (key : ℕ → ℕ) where
  -- Before the first cell with the same key or a greater one.
  abbrev pub insert : ℕ → List ℕ → List ℕ
  insert x [] = x ∷ []
  insert x (y ∷ ys) = if leb (key x) (key y) then x ∷ (y ∷ ys) else y ∷ insert x ys

  abbrev pub sorted : List ℕ → List ℕ
  sorted [] = []
  sorted (x ∷ xs) = insert x (sorted xs)

  -- The cell, and what `behind` makes of the cells that are left, merged.
  abbrev pub place : (x : ℕ) → (behind : List ℕ → List ℕ) → List ℕ → List ℕ
  place x behind [] = x ∷ behind []
  place x behind (y ∷ ys) =
      if leb (key x) (key y) then x ∷ behind (y ∷ ys) else y ∷ place x behind ys

  abbrev pub merge : (xs ys : List ℕ) → List ℕ
  merge [] ys = ys
  merge (x ∷ xs) ys = place x (merge xs) ys

  merge-insert : (x : ℕ) (xs ys : List ℕ) → merge (insert x xs) ys ≡ insert x (merge xs ys)
  merge-insert x [] [] = refl
  merge-insert x [] (y ∷ ys) = elim (Bool-cases (leb (key x) (key y))) [
    | inl first ↦ rw first refl
    | inr later ↦ rw later (ap (◌∷◌ y) (merge-insert x [] ys))
  ]
  merge-insert x (a ∷ xs) [] = elim (Bool-cases (leb (key x) (key a))) [
    | inl first ↦ rw first refl
    | inr later ↦ rw later (ap (◌∷◌ a) (merge-insert x xs []))
  ]
  merge-insert x (a ∷ xs) (y ∷ ys) = elim (Bool-cases (leb (key x) (key a))) [
    | inl first ↦
        let here : insert x (a ∷ xs) ≡ x ∷ (a ∷ xs) = rw first refl in
        elim (Bool-cases (leb (key x) (key y))) [
          | inl before ↦ elim (Bool-cases (leb (key a) (key y))) [
            | inl next ↦ rw (first, before, next, first) refl
            | inr next ↦ rw (first, before, next, before) refl
          ]
          | inr behind ↦
              let next : leb (key a) (key y) ≡ false = ground (arith, first, behind) in
              rw (first, behind, next, behind)
                (ap (◌∷◌ y) (ap (λ t. merge t ys) (sym here) ∙ merge-insert x (a ∷ xs) ys))
        ]
    | inr later ↦
        let there : insert x (a ∷ xs) ≡ a ∷ insert x xs = rw later refl in
        elim (Bool-cases (leb (key a) (key y))) [
          | inl before ↦ rw (later, before, later) (ap (◌∷◌ a) (merge-insert x xs (y ∷ ys)))
          | inr behind ↦
              let beyond : leb (key x) (key y) ≡ false = ground (arith, later, behind) in
              rw (later, behind, beyond)
                (ap (◌∷◌ y) (ap (λ t. merge t ys) (sym there) ∙ merge-insert x (a ∷ xs) ys))
        ]
  ]

  pub merge-sorted : (xs ys : List ℕ) → merge (sorted xs) (sorted ys) ≡ sorted (xs ++ ys)
  merge-sorted [] ys = refl
  merge-sorted (x ∷ xs) ys =
      merge-insert x (sorted xs) (sorted ys) ∙ ap (insert x) (merge-sorted xs ys)
