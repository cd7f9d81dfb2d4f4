-- ===== src/Benchmarks/Towers.antt =====
-- The towers benchmark: riscv-tests/benchmarks/towers/towers_main.c. A `struct Node*` is null or an index of the
-- pool; an `int` is its 32-bit pattern. The size of the free list is not kept by the code.
pub mod Stacks
pub mod Solve
use rsicv_uvm_test.Base.{
  ℕ, zero, suc, ◌+◌, ◌-◌, ◌*◌, ◌^◌, ltb, ◌==◌, not, if◌then◌else◌, Bool, true, false, Option, none,
  some, List, get_elem?, set, ◌>>=◌, u32,
}

pub record Node : Type 0 where
  pub val : ℕ
  pub next : Option ℕ

-- `struct List`.
pub record Stack : Type 0 where
  pub size : ℕ
  pub head : Option ℕ

pub data Peg : Type 0 where
  peg_a peg_b peg_c : Peg

abbrev pub same : Peg → Peg → Bool
same peg_a peg_a = true
same peg_a peg_b = false
same peg_a peg_c = false
same peg_b peg_a = false
same peg_b peg_b = true
same peg_b peg_c = false
same peg_c peg_a = false
same peg_c peg_b = false
same peg_c peg_c = true

-- `struct Towers`, with the pool and the head of the free list.
pub record Towers : Type 0 where
  pub nodes : List Node
  pub free : Option ℕ
  pub num_discs : ℕ
  pub num_moves : ℕ
  pub pegs : Peg → Stack

abbrev pub set_peg : Peg → Stack → (Peg → Stack) → Peg → Stack
set_peg p stack pegs q = if same p q then stack else pegs q

unfoldable pub list_push : Peg → (val : ℕ) → Towers → Option Towers
list_push p val s = do
  new ← s.free
  node ← get_elem? s.nodes new
  let list = s.pegs p
  some (record s {
    free = node.next;
    nodes = set s.nodes new (record { val = val; next = list.head });
    pegs = set_peg p (record { size = u32 (list.size + 1); head = some new }) s.pegs;
  })

pub record Popped : Type 0 where
  pub val : ℕ
  pub towers : Towers

unfoldable pub list_pop : Peg → Towers → Option Popped
list_pop p s = do
  let list = s.pegs p
  freed ← list.head
  node ← get_elem? s.nodes freed
  some (record {
    val = node.val;
    towers = record s {
      nodes = set s.nodes freed (record { val = node.val; next = s.free });
      free = some freed;
      pegs = set_peg p (record { size = u32 (list.size + (2 ^ 32 - 1)); head = node.next }) s.pegs;
    };
  })

abbrev pub empty_stack : Stack
empty_stack = record { size = 0; head = none }

-- `for (i = 0; i < n; i++) list_push(&peg_a, n-i)`: the pushes left are `left`, and the next value too.
abbrev pub push_discs : (left : ℕ) → Towers → Option Towers
push_discs zero s = some s
push_discs (suc left) s = do next ← list_push peg_a (suc left) s; push_discs left next

unfoldable pub towers_init : (n : ℕ) → Towers → Option Towers
towers_init n s = push_discs n (record s { num_discs = n; num_moves = 0; pegs = λ p. empty_stack })

-- `while (list_getSize(list) > 0) list_pop(list);`, for a size that is not negative.
unfoldable pub list_clear : (fuel : ℕ) → Peg → Towers → Option Towers
list_clear zero p s = none
list_clear (suc fuel) p s =
    let rest = (do popped ← list_pop p s; list_clear fuel p popped.towers) in
    if (s.pegs p).size == 0 then some s else rest

unfoldable pub towers_clear : (fuel : ℕ) → Towers → Option Towers
unfolding towers_init list_clear
towers_clear fuel s = do
  s1 ← list_clear fuel peg_a s
  s2 ← list_clear fuel peg_b s1
  s3 ← list_clear fuel peg_c s2
  towers_init s3.num_discs s3

-- The branch for one disc.
unfoldable pub move_disc : (start_peg dest_peg : Peg) → Towers → Option Towers
unfolding list_pop list_push
move_disc start_peg dest_peg s = do
  popped ← list_pop start_peg s
  pushed ← list_push dest_peg popped.val popped.towers
  some (record pushed { num_moves = u32 (pushed.num_moves + 1) })

-- With no disc the recursion does not end.
unfoldable pub towers_solve_h :
    (n : ℕ) → (start_peg temp_peg dest_peg : Peg) → Towers → Option Towers
unfolding move_disc
towers_solve_h zero start_peg temp_peg dest_peg s = none
towers_solve_h (suc zero) start_peg temp_peg dest_peg s = move_disc start_peg dest_peg s
towers_solve_h (suc (suc n)) start_peg temp_peg dest_peg s = do
  s1 ← towers_solve_h (suc n) start_peg dest_peg temp_peg s
  s2 ← move_disc start_peg dest_peg s1
  towers_solve_h (suc n) temp_peg start_peg dest_peg s2

unfoldable pub towers_solve : Towers → Option Towers
unfolding towers_solve_h
towers_solve s = towers_solve_h s.num_discs peg_a peg_b peg_c s

-- The loop over the discs of peg C: 5 for a disc that is out of place, and 0 at the end.
abbrev pub verify_discs : (fuel : ℕ) → (ptr : Option ℕ) → (num_discs : ℕ) → List Node → Option ℕ
verify_discs zero ptr num_discs nodes = none
verify_discs (suc fuel) none num_discs nodes = some 0
verify_discs (suc fuel) (some p) num_discs nodes = do
  node ← get_elem? nodes p
  let rest = verify_discs fuel node.next (u32 (num_discs + 1)) nodes
  if node.val == u32 (num_discs + 1) then rest else some 5

-- `(1 << n) - 1` on an `int`, which is undefined from 31 on.
abbrev pub all_ones : (n : ℕ) → Option ℕ
all_ones n = if ltb n 31 then some (2 ^ n - 1) else none

unfoldable pub towers_verify : (fuel : ℕ) → Towers → Option ℕ
towers_verify fuel s =
    let walk = (do
      discs ← verify_discs fuel (s.pegs peg_c).head 0 s.nodes
      let counted = (do
        expected ← all_ones s.num_discs
        some (if not (s.num_moves == expected) then 6 else 0))
      if not (discs == 0) then some 5 else counted) in
    if not ((s.pegs peg_a).size == 0)
    then some 2
    else if not ((s.pegs peg_b).size == 0)
    then some 3
    else if not ((s.pegs peg_c).size == s.num_discs)
    then some 4
    else walk
