-- ===== src/Vm/Lfsr.antt =====
-- The 6-bit shift register `LFSR_NEXT` of riscv_test.h, which orders the free pages at boot. Its
-- comment says that `MAX_TEST_PAGES` "must be the period of the LFSR".
use native.Mathlib.Nat.{zero-add, suc-add}
use native.Mathlib.Decide.{dec_lt}
use rsicv_uvm_test.Base.{
  ℕ, zero, suc, ◌+◌, ◌-◌, ◌≤◌, ◌<◌, ◌≡◌, ◌≢◌, refl, sym, ap, ◌∙◌, arith, ◌==◌, ltb, leb, ◌&&◌, not,
  true, Bool, bit_and, bit_or, bit_xor, ◌<<<◌, ◌>>>◌, holds_below, holds_at, if◌then◌else◌,
}
use rsicv_uvm_test.Vm.{max_test_pages}

unfoldable pub lfsr_next : ℕ → ℕ
lfsr_next x = bit_or (bit_and (bit_xor x (x >>> 1)) 1 <<< 5) (x >>> 1)

-- `random` after `n` steps.
unfoldable pub lfsr_after : ℕ → ℕ → ℕ
lfsr_after zero x = x
lfsr_after (suc n) x = lfsr_after n (lfsr_next x)

abbrev pub IsSeed : ℕ → Type 0
IsSeed x = (1 ≤ x) × (x ≤ max_test_pages)

-- The orbit of `x` under `n` more steps avoids `from`.
avoids : (n : ℕ) → (from x : ℕ) → Bool
avoids zero from x = true
avoids (suc n) from x = not (x == from) && avoids n from (lfsr_next x)

seed_test : ℕ → Bool
unfolding avoids
seed_test x =
    if x == 0
    then true
    else leb 1 (lfsr_next x)
      && ltb (lfsr_next x) 64
      && (lfsr_after 63 x == x)
      && avoids 62 x (lfsr_next x)

seed_table : holds_below 64 seed_test ≡ true
unfolding holds_below seed_test lfsr_next lfsr_after
seed_table = refl

IsSeed-facts :
    (x : ℕ)
    → IsSeed x
    → IsSeed (lfsr_next x) × (lfsr_after 63 x ≡ x) × (avoids 62 x (lfsr_next x) ≡ true)
unfolding seed_test
IsSeed-facts x h = let table = holds_at 64 seed_test x seed_table (omega arith) in ground arith

lfsr_after-IsSeed : (n x : ℕ) → IsSeed x → IsSeed (lfsr_after n x)
unfolding lfsr_after
lfsr_after-IsSeed zero x h = h
lfsr_after-IsSeed (suc n) x h = lfsr_after-IsSeed n (lfsr_next x) (IsSeed-facts x h).0

lfsr_after-add : (m n x : ℕ) → lfsr_after (m + n) x ≡ lfsr_after n (lfsr_after m x)
unfolding lfsr_after
lfsr_after-add zero n x = rw zero-add
lfsr_after-add (suc m) n x = rw suc-add (lfsr_after-add m n (lfsr_next x))

avoids-ne : (n m from x : ℕ) → avoids n from x ≡ true → m < n → lfsr_after m x ≢ from
unfolding avoids lfsr_after
avoids-ne zero m from x h lt = absurd (omega arith)
avoids-ne (suc n) zero from x h lt = ground arith
avoids-ne (suc n) (suc m) from x h lt =
    avoids-ne n m from (lfsr_next x) (ground arith) (omega arith)

-- A step can be undone, so any number of steps can.
lfsr_after-injective : (n x y : ℕ) → IsSeed x → IsSeed y → lfsr_after n x ≡ lfsr_after n y → x ≡ y
unfolding lfsr_after
lfsr_after-injective zero x y hx hy e = e
lfsr_after-injective (suc n) x y hx hy e =
    let fx = IsSeed-facts x hx in
    let fy = IsSeed-facts y hy in
    let next = lfsr_after-injective n (lfsr_next x) (lfsr_next y) fx.0 fy.0 e in
    sym fx.1 ∙ ap (lfsr_after 62) next ∙ fy.1

lfsr_ordered : (i k x : ℕ) → IsSeed x → k < 62 → lfsr_after i x ≢ lfsr_after (i + suc k) x
unfolding lfsr_after
lfsr_ordered i k x h lt e =
    let shifted = lfsr_after-add (suc k) i x in
    let swap : i + suc k ≡ suc k + i = omega arith in
    let e' : lfsr_after i x ≡ lfsr_after i (lfsr_after (suc k) x) =
      e ∙ ap (λ t. lfsr_after t x) swap ∙ shifted in
    let back =
      lfsr_after-injective i x (lfsr_after (suc k) x) h (lfsr_after-IsSeed (suc k) x h) e' in
    avoids-ne 62 k x (lfsr_next x) (IsSeed-facts x h).2 lt (sym back)

-- From every start from 1 to 63, the register returns to it after 63 steps, its values lie from 1
-- to 63, and the first 63 are all different.
pub lfsr_period :
    (x : ℕ)
    → IsSeed x
    → (lfsr_after max_test_pages x ≡ x)
      × ((i : ℕ) → IsSeed (lfsr_after i x))
      × ((i j : ℕ)
          → i < max_test_pages
          → j < max_test_pages
          → i ≢ j
          → lfsr_after i x ≢ lfsr_after j x)
lfsr_period x h = ((IsSeed-facts x h).1, λ i. lfsr_after-IsSeed i x h, different)
  where
    later : (i j : ℕ) → j < 63 → i < j → lfsr_after i x ≢ lfsr_after j x
    later i j lt less =
        let e : i + suc (j - i - 1) ≡ j = omega arith in
        rw (← e) (lfsr_ordered i (j - i - 1) x h (omega arith))

    different :
        (i j : ℕ)
        → i < max_test_pages
        → j < max_test_pages
        → i ≢ j
        → lfsr_after i x ≢ lfsr_after j x
    different i j hi hj ne = elim (dec_lt i j) [
      | yes less ↦ later i j hj less
      | no not_less ↦ λ e. later j i hi (omega arith) (sym e)
    ]
