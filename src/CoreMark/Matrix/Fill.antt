-- ===== src/CoreMark/Matrix/Fill.antt =====
-- Loops that fill a block in order, cell by cell or row by row.
use native.Mathlib.Decide.{ℕ_discrete}
use native.Mathlib.Nat.{zero-mul}
use rsicv_uvm_test.Base.{
  ℕ, ◌+◌, ◌*◌, ◌^◌, ◌≤◌, ◌<◌, ◌≡◌, refl, sym, ◌∙◌, arith, Option, List, length, length-set, get_or,
  get_or-set_self, get_or-set_ne, set, store, store_of_lt, for, Returns, returns, Returns-weaken,
  for-Returns,
}
use rsicv_uvm_test.CoreMark.Matrix.{cell}

abbrev pub at : List ℕ → ℕ → ℕ
at m p = get_or m p 0

-- The first `count` cells hold the values of `g`, and the others are as they were.
pub record IsFilled (g : ℕ → ℕ) (before : List ℕ) (count : ℕ) (m : List ℕ) : Type 0 where
  pub same_length : length m ≡ length before
  pub filled : (p : ℕ) → p < count → at m p ≡ g p
  pub rest : (p : ℕ) → count ≤ p → at m p ≡ at before p

pub none-IsFilled : (g : ℕ → ℕ) (before : List ℕ) → IsFilled g before 0 before
none-IsFilled g before = record {
  same_length = refl;
  filled = λ p h. absurd (omega arith);
  rest = λ p h. refl;
}

pub set-IsFilled :
    (g : ℕ → ℕ) (before m : List ℕ) (p : ℕ)
    → IsFilled g before p m
    → p < length before
    → IsFilled g before (p + 1) (set m p (g p))
set-IsFilled g before m p f h = record {
  same_length = length-set m p (g p) ∙ f.same_length;
  filled = λ q k. elim (ℕ_discrete p q) [
    | yes e ↦ rw (← e) (get_or-set_self m p (g p) 0 (omega (arith, f.same_length)))
    | no ne ↦ get_or-set_ne m p q (g p) 0 ne ∙ f.filled q (omega arith)
  ];
  rest = λ q k. get_or-set_ne m p q (g p) 0 (omega arith) ∙ f.rest q (omega arith);
}

-- A place of an `n` by `n` matrix has its index below `n * n`.
pub index_lt : (n i j : ℕ) → i < n → j < n → i * n + j < n * n
index_lt n i j hi hj = grind arith

pub cell_lem : (n i j : ℕ) → i < n → j < n → n * n ≤ 2 ^ 32 → cell n i j ≡ i * n + j
cell_lem n i j hi hj small = let below = index_lt n i j hi hj in omega arith

-- The double loop over the rows and their cells takes a claim from cell to cell.
pub grid_claim :
    {S : Type 0} (n : ℕ) (P : ℕ → S → Type 0) (body : (i j : ℕ) → S → Option S)
    → ((i j : ℕ) (s : S)
        → i < n
        → j < n
        → P (i * n + j) s
        → Returns (P (i * n + j + 1)) (body i j s))
    → (s : S) → P 0 s
    → Returns (P (n * n)) (for n 0 (λ i. for n 0 (λ j. body i j)) s)
grid_claim {S} n P body step s start =
    for-Returns (λ i. P (i * n)) (λ i. for n 0 (λ j. body i j)) n 0 n (omega arith)
      (λ i t low high f.
        Returns-weaken (λ u. moved u (i * n + n) ((i + 1) * n) (grind arith))
          (for-Returns (λ j. P (i * n + j)) (body i) n 0 n (omega arith)
            (λ j u low' high' f'.
              Returns-weaken (λ v. moved v (i * n + j + 1) (i * n + (j + 1)) (omega arith))
                (step i j u high high' f'))
            t (moved t (i * n) (i * n + 0) (omega arith) f)))
      s (moved s 0 (0 * n) (sym (zero-mul n)) start)
  where
    moved : (t : S) (count count' : ℕ) → count ≡ count' → P count t → P count' t
    moved t count count' e p = rw (← e) p

-- The double loop where each round fills its cell.
pub grid-Returns :
    (n : ℕ) (g : ℕ → ℕ) (before : List ℕ) (body : (i j : ℕ) → List ℕ → Option (List ℕ))
    → ((i j : ℕ) (m : List ℕ)
        → i < n
        → j < n
        → IsFilled g before (i * n + j) m
        → Returns (IsFilled g before (i * n + j + 1)) (body i j m))
    → Returns (IsFilled g before (n * n)) (for n 0 (λ i. for n 0 (λ j. body i j)) before)
grid-Returns n g before body step =
    grid_claim n (IsFilled g before) body step before (none-IsFilled g before)

-- The loop over one row of cells.
pub row-Returns :
    (n : ℕ) (g : ℕ → ℕ) (before : List ℕ) (body : (i : ℕ) → List ℕ → Option (List ℕ))
    → ((i : ℕ) (m : List ℕ)
        → i < n
        → IsFilled g before i m
        → Returns (IsFilled g before (i + 1)) (body i m))
    → Returns (IsFilled g before n) (for n 0 body before)
row-Returns n g before body step =
    for-Returns (IsFilled g before) body n 0 n (omega arith) (λ i m low high f. step i m high f)
      before (none-IsFilled g before)

-- One round of such a loop, that computes its value and stores it.
pub store-Returns :
    (g : ℕ → ℕ) (before m : List ℕ) (p v : ℕ)
    → v ≡ g p
    → p < length before
    → IsFilled g before p m
    → Returns (IsFilled g before (p + 1)) (store m p v)
store-Returns g before m p v e h f =
    rw (store_of_lt m p v (omega (arith, f.same_length)), e)
      (returns (set m p (g p)) (set-IsFilled g before m p f h))
