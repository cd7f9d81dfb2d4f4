-- ===== src/CoreMark/List/Reverse.antt =====
-- `core_list_reverse` on a list without a cycle.
use native.Mathlib.Decide.{ℕ_discrete}
use rsicv_uvm_test.Base.{
  ℕ, zero, suc, ◌<◌, ◌≡◌, ◌≢◌, refl, sym, ap, ◌∙◌, arith, Option, none, some, List, [], ◌∷◌, length,
  length-set, get_elem?-eq-get_or, get_or, get_or-set_self, get_or-set_ne, set, All,
}
use rsicv_uvm_test.CoreMark.List.{Ptr, Cell, Returned, reverse_from, core_list_reverse}

abbrev pub no_cell : Cell
no_cell = record { next = none; info = 0 }

abbrev pub at : List Cell → ℕ → Cell
at cells p = get_or cells p no_cell

-- The cells of the list from a pointer on, down to its null.
abbrev pub IsChain : List Cell → Ptr → List ℕ → Type 0
IsChain cells p [] = p ≡ none
IsChain cells p (x ∷ xs) = (p ≡ some x) × ((x < length cells) × IsChain cells (at cells x).next xs)

abbrev pub Avoids : ℕ → List ℕ → Type 0
Avoids x xs = All (λ y. y ≢ x) xs

abbrev pub IsSimple : List ℕ → Type 0
IsSimple [] = Unit
IsSimple (x ∷ xs) = Avoids x xs × IsSimple xs

-- The cells of the first in reverse order, and then the second.
abbrev pub onto : (xs ys : List ℕ) → List ℕ
onto [] ys = ys
onto (x ∷ xs) ys = onto xs (x ∷ ys)

abbrev AreApart : (xs ys : List ℕ) → Type 0
AreApart xs ys = All (λ x. Avoids x ys) xs

AreApart-cons : (x : ℕ) (xs ys : List ℕ) → Avoids x xs → AreApart xs ys → AreApart xs (x ∷ ys)
AreApart-cons x [] ys h k = tt
AreApart-cons x (z ∷ xs) ys h k = ((λ e. h.0 (sym e), k.0), AreApart-cons x xs ys h.1 k.1)

pub IsChain-set :
    (cells : List Cell) (x : ℕ) (c : Cell) (p : Ptr) (ys : List ℕ)
    → Avoids x ys
    → IsChain cells p ys
    → IsChain (set cells x c) p ys
IsChain-set cells x c p [] h k = k
IsChain-set cells x c p (y ∷ ys) h k =
    let kept = get_or-set_ne cells x y c no_cell (λ e. h.0 (sym e)) in
    let rest = IsChain-set cells x c (at cells y).next ys h.1 k.1.1 in
    (k.0, (omega (arith, length-set cells x c, k.1.0), rw kept rest))

pub record IsReversed (cells : List Cell) (xs : List ℕ) (out : Option Returned) : Type 0 where
  pub result : Returned
  pub returned : out ≡ some result
  pub chain : IsChain result.cells result.cell xs
  pub same_length : length result.cells ≡ length cells
  pub same_info : (p : ℕ) → (at result.cells p).info ≡ (at cells p).info

info_kept :
    (cells : List Cell) (x : ℕ) (next : Ptr) (p : ℕ)
    → x < length cells
    → (at (set cells x (record { next = next; info = (at cells x).info })) p).info
      ≡ (at cells p).info
info_kept cells x next p h = elim (ℕ_discrete x p) [
  | yes e ↦ rw (← e) (
      ap (λ (c : Cell). c.info)
        (get_or-set_self cells x (record { next = next; info = (at cells x).info }) no_cell h))
  | no ne ↦
      ap (λ (c : Cell). c.info)
        (get_or-set_ne cells x p (record { next = next; info = (at cells x).info }) no_cell ne)
]

reverse_from-IsReversed :
    (fuel : ℕ) (list next : Ptr) (cells : List Cell) (xs ys : List ℕ)
    → length xs < fuel
    → IsChain cells list xs
    → IsChain cells next ys
    → IsSimple xs
    → AreApart xs ys
    → IsReversed cells (onto xs ys) (reverse_from fuel list next cells)
unfolding reverse_from
reverse_from-IsReversed zero list next cells xs ys h k l m n = absurd (omega arith)
reverse_from-IsReversed (suc fuel) list next cells [] ys h k l m n = rw k (record {
  result = record { cell = next; cells = cells };
  returned = refl;
  chain = l;
  same_length = refl;
  same_info = λ p. refl;
})
reverse_from-IsReversed (suc fuel) list next cells (x ∷ xs) ys h k l m n =
    let cell : Cell = record { next = next; info = (at cells x).info } in
    let there = get_elem?-eq-get_or cells x no_cell k.1.0 in
    let here = get_or-set_self cells x cell no_cell k.1.0 in
    let kept = length-set cells x cell in
    let rest =
      reverse_from-IsReversed fuel (at cells x).next (some x) (set cells x cell) xs (x ∷ ys)
        (omega arith) (IsChain-set cells x cell (at cells x).next xs m.0 k.1.1)
        (refl, (omega (arith, kept, k.1.0), rw here (IsChain-set cells x cell next ys n.0 l))) m.1
        (AreApart-cons x xs ys m.0 n.1) in
    rw (k.0, reverse_from, there)
      (record {
        result = rest.result;
        returned = rest.returned;
        chain = rest.chain;
        same_length = rest.same_length ∙ kept;
        same_info = λ p. rest.same_info p ∙ info_kept cells x next p k.1.0;
      })

-- On a list without a cycle, `core_list_reverse` returns after one step for each cell and one more.
-- The pointer that it returns heads the same cells in reverse order, and each cell has kept its data.
pub core_list_reverse-IsReversed :
    (fuel : ℕ) (list : Ptr) (cells : List Cell) (xs : List ℕ)
    → length xs < fuel
    → IsChain cells list xs
    → IsSimple xs
    → IsReversed cells (onto xs []) (core_list_reverse fuel list cells)
unfolding core_list_reverse
core_list_reverse-IsReversed fuel list cells xs h k l =
    reverse_from-IsReversed fuel list none cells xs [] h k refl l (apart_none xs)
  where
    apart_none : (xs : List ℕ) → AreApart xs []
    apart_none [] = tt
    apart_none (x ∷ xs) = (tt, apart_none xs)
