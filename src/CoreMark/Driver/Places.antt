-- ===== src/CoreMark/Driver/Places.antt =====
-- Where main of core_main.c puts the parts of the block.
use rsicv_uvm_test.Base.{
  ℕ, zero, suc, ◌+◌, ◌*◌, ◌/◌, ◌≤◌, ◌≡◌, arith, Bool, Option, some, ==_of_ne, Returns, returns,
}
use rsicv_uvm_test.CoreMark.Driver.{
  total_data_size, has_algorithm, one_if, num_algorithms, part_size, Parts, parts_of, parts,
}

-- A part ends inside the block, and at most where the next one starts.
abbrev pub EndsBefore : (end size : ℕ) → Option ℕ → Type 0
EndsBefore end size p = (at : ℕ) → p ≡ some at → at + size ≤ end

abbrev pub Precedes : (size : ℕ) → Option ℕ → Option ℕ → Type 0
Precedes size p q = (at next : ℕ) → p ≡ some at → q ≡ some next → at + size ≤ next

pub record ArePlaced (p : Parts) (size : ℕ) : Type 0 where
  pub list_inside : EndsBefore total_data_size size p.list_at
  pub matrix_inside : EndsBefore total_data_size size p.matrix_at
  pub state_inside : EndsBefore total_data_size size p.state_at
  pub list_matrix : Precedes size p.list_at p.matrix_at
  pub list_state : Precedes size p.list_at p.state_at
  pub matrix_state : Precedes size p.matrix_at p.state_at

parts_of-ArePlaced :
    (list matrix state : Bool) (size : ℕ)
    → size * (one_if list + one_if matrix + one_if state) ≤ total_data_size
    → ArePlaced (parts_of list matrix state size) size
parts_of-ArePlaced list matrix state size h = record {
  list_inside = λ at e. ground (arith, h, e);
  matrix_inside = λ at e. ground (arith, h, e);
  state_inside = λ at e. ground (arith, h, e);
  list_matrix = λ at next e f. ground (arith, h, e, f);
  list_state = λ at next e f. ground (arith, h, e, f);
  matrix_state = λ at next e f. ground (arith, h, e, f);
}

quotient_fits : (n : ℕ) → 1 ≤ n → n ≤ 3 → total_data_size / n * n ≤ total_data_size
quotient_fits zero h k = absurd (omega arith)
quotient_fits (suc zero) h k = omega arith
quotient_fits (suc (suc zero)) h k = omega arith
quotient_fits (suc (suc (suc zero))) h k = omega arith
quotient_fits (suc (suc (suc (suc n)))) h k = absurd (omega arith)

-- Every mask with one of the three algorithms gives parts of one size that end inside the block of
-- TOTAL_DATA_SIZE bytes and do not overlap.
pub parts-ArePlaced :
    (execs : ℕ)
    → 1 ≤ num_algorithms execs
    → Returns (λ size. ArePlaced (parts execs size) size) (part_size execs)
parts-ArePlaced execs some_algorithm =
    let few : num_algorithms execs ≤ 3 = ground arith in
    let size = total_data_size / num_algorithms execs in
    rw (==_of_ne (num_algorithms execs) 0 (omega arith)) (
      returns size (
        parts_of-ArePlaced (has_algorithm execs 0) (has_algorithm execs 1) (has_algorithm execs 2)
          size (quotient_fits (num_algorithms execs) some_algorithm few)))
