-- ===== src/Syscalls/Roundtrip.antt =====
-- `atol` reads what `printnum` puts out.
use rsicv_uvm_test.Base.{ℕ, ◌≤◌, ◌≡◌, Option, some, List, [], ◌∷◌, ◌++◌}
use rsicv_uvm_test.Syscalls.{atol}

StartsWithDigit : List ℕ → Type 0
StartsWithDigit [] = ⊥
StartsWithDigit (c ∷ str) = (48 ≤ c) × (c ≤ 57)

pub record Reads (num : ℕ) (rest : List ℕ) (out : Option (List ℕ)) : Type 0 where
  pub text : List ℕ
  pub returned : out ≡ some text
  pub reads : atol (text ++ (0 ∷ rest)) ≡ some num
