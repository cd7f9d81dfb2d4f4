-- ===== src/Examples/Towers.antt =====
-- The towers with three discs.
use rsicv_uvm_test.Base.{
  ℕ, ◌+◌, ◌≤◌, ◌≡◌, refl, arith, Option, some, none, List, [], ◌∷◌, length, count, Returns, ◌>>=◌,
}
use rsicv_uvm_test.Benchmarks.Towers.{
  Node, Stack, Peg, peg_a, peg_b, peg_c, Towers, empty_stack, towers_init, towers_clear,
  towers_solve, towers_verify, towers_solve_h, move_disc, list_pop, list_push, list_clear,
}
use rsicv_uvm_test.Benchmarks.Towers.Stacks.{at, Chain, IsHolding}
use rsicv_uvm_test.Benchmarks.Towers.Solve.{towers_solve-verify}

abbrev pool : List Node
pool =
    record { val = 1; next = some 1 }
    ∷ (record { val = 2; next = some 2 } ∷ (record { val = 3; next = none } ∷ []))

abbrev indices : Peg → List ℕ
indices peg_a = 0 ∷ (1 ∷ (2 ∷ []))
indices peg_b = []
indices peg_c = []

abbrev stacked : Peg → Stack
stacked peg_a = record { size = 3; head = some 0 }
stacked peg_b = empty_stack
stacked peg_c = empty_stack

abbrev towers : Towers
towers = record { nodes = pool; free = none; num_discs = 3; num_moves = 0; pegs = stacked }

each_once : (x : ℕ) → count x (0 ∷ (1 ∷ (2 ∷ []))) + (0 + 0) ≤ 1
each_once x = ground arith

towers-IsHolding : IsHolding indices (λ x. (at pool x).val) 3 towers
towers-IsHolding = record {
  chains = chains;
  sizes = sizes;
  once = each_once;
  few = omega arith;
  values = λ x. refl;
  discs = refl;
}
  where
    chains : (p : Peg) → Chain pool (stacked p).head (indices p)
    chains peg_a = (refl, (omega arith, (refl, (omega arith, (refl, (omega arith, refl))))))
    chains peg_b = refl
    chains peg_c = refl

    sizes : (p : Peg) → (stacked p).size ≡ length (indices p)
    sizes peg_a = refl
    sizes peg_b = refl
    sizes peg_c = refl

towers_solve-verify_example :
    Returns (λ solved. towers_verify 4 solved ≡ some 0) (towers_solve towers)
towers_solve-verify_example =
    towers_solve-verify indices (λ x. (at pool x).val) 4 towers (omega arith) (omega arith) refl
      refl (refl, (refl, (refl, tt))) towers-IsHolding refl (omega arith)

-- The run of the main program, from a pool on its free list.
main : Option ℕ
main = do
  ready ← towers_init 3 (record towers { free = some 0; pegs = λ p. empty_stack })
  cleared ← towers_clear 4 ready
  solved ← towers_solve cleared
  towers_verify 4 solved

main_accepts : main ≡ some 0
unfolding main towers_init towers_clear towers_solve towers_verify towers_solve_h move_disc list_pop
    list_push list_clear
main_accepts = refl
