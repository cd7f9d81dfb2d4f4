-- ===== src/Examples/Benchmarks.antt =====
-- The benchmark programs on small arrays.
use rsicv_uvm_test.Base.{ℕ, ◌*◌, ◌%◌, ◌^◌, ◌≡◌, refl, arith, some, List, [], ◌∷◌}
use rsicv_uvm_test.Benchmarks.Multiply.{multiply, multiply_from, multiply_lem}
use rsicv_uvm_test.Benchmarks.Median.{median, median_from, middle, IsFiltered, median-IsFiltered}
use rsicv_uvm_test.Benchmarks.Arrays.{vvadd, vvadd_from}
use rsicv_uvm_test.Benchmarks.Verify.{verify, verify_pairs, verify_last}

abbrev noisy : List ℕ
noisy = 5 ∷ 0xffff_ffff ∷ 7 ∷ 3 ∷ []

abbrev blank : List ℕ
blank = 9 ∷ 9 ∷ 9 ∷ 9 ∷ 9 ∷ []

multiplied : multiply 0xffff_fffd 7 ≡ 0xffff_ffeb
unfolding multiply multiply_from
multiplied = refl

filtered : median 4 noisy blank ≡ some (0 ∷ 5 ∷ 3 ∷ 0 ∷ 9 ∷ [])
unfolding median median_from middle
filtered = refl

summed : vvadd 2 noisy noisy blank ≡ some (10 ∷ 0xffff_fffe ∷ 9 ∷ 9 ∷ 9 ∷ [])
unfolding vvadd vvadd_from
summed = refl

third_differs : verify 3 noisy (5 ∷ 0xffff_ffff ∷ 8 ∷ []) ≡ some 3
unfolding verify verify_pairs verify_last
third_differs = refl

multiply_lem_example : multiply 0xffff_fffd 7 ≡ 0xffff_fffd * 7 % 2 ^ 32
multiply_lem_example = multiply_lem 0xffff_fffd 7 (omega arith)

median-IsFiltered_example : IsFiltered 4 noisy blank (median 4 noisy blank)
median-IsFiltered_example =
    median-IsFiltered 4 noisy blank (omega arith) (omega arith) (omega arith)
