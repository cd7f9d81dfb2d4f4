-- ===== src/CoreMark/State/Grammar/Complete.antt =====
-- Every text of the grammar leads the recogniser to its state.
use rsicv_uvm_test.Base.{ℕ, ◌≡◌, ◌⊎◌, inl, inr, refl, ap, ◌∙◌, arith, List, [], ◌∷◌, ◌++◌, All}
use rsicv_uvm_test.CoreMark.State.{
  CoreState, core_start, core_invalid, core_s1, core_s2, core_int, core_float, core_exponent,
  core_scientific,
}
use rsicv_uvm_test.CoreMark.State.Grammar.{
  IsDigit, IsSign, IsExponentMark, OptionalSign, IsMantissa, IsToken, next_state, run,
}

pub run-append : (s : CoreState) (xs ys : List ℕ) → run s (xs ++ ys) ≡ run (run s xs) ys
unfolding run
run-append s [] ys = refl
run-append s (x ∷ xs) ys = run-append (next_state s x) xs ys

next_digit :
    (c : ℕ)
    → IsDigit c
    → (next_state core_start c ≡ core_int)
      × (next_state core_s1 c ≡ core_int)
      × (next_state core_int c ≡ core_int)
      × (next_state core_float c ≡ core_float)
      × (next_state core_exponent c ≡ core_scientific)
      × (next_state core_scientific c ≡ core_scientific)
unfolding next_state
next_digit c h = ground arith

next_sign :
    (c : ℕ)
    → IsSign c
    → (next_state core_start c ≡ core_s1) × (next_state core_s2 c ≡ core_exponent)
unfolding next_state
next_sign c h = ground arith

next_mark : (c : ℕ) → IsExponentMark c → next_state core_float c ≡ core_s2
unfolding next_state
next_mark c h = ground arith

next_point :
    (next_state core_start b'.' ≡ core_float)
    × (next_state core_s1 b'.' ≡ core_float)
    × (next_state core_int b'.' ≡ core_float)
unfolding next_state
next_point = (refl, refl, refl)

-- Digits keep a state that they do not leave.
run_digits :
    (s : CoreState) (ds : List ℕ)
    → ((c : ℕ) → IsDigit c → next_state s c ≡ s)
    → All IsDigit ds
    → run s ds ≡ s
unfolding run
run_digits s [] stays h = refl
run_digits s (d ∷ ds) stays h = rw (stays d h.0) (run_digits s ds stays h.1)

run_sign :
    (sign : List ℕ)
    → OptionalSign sign
    → (run core_start sign ≡ core_start) ⊎ (run core_start sign ≡ core_s1)
unfolding run
run_sign sign (inl e) = inl (rw e)
run_sign sign (inr (c, h, e)) = inr (rw (e, (next_sign c h).0))

abbrev AtFront : CoreState → Type 0
AtFront s = (s ≡ core_start) ⊎ (s ≡ core_s1)

front_digit : (s : CoreState) (c : ℕ) → AtFront s → IsDigit c → next_state s c ≡ core_int
front_digit s c (inl e) h = rw e (next_digit c h).0
front_digit s c (inr e) h = rw e (next_digit c h).1

front_point : (s : CoreState) → AtFront s → next_state s b'.' ≡ core_float
front_point s (inl e) = rw e next_point.0
front_point s (inr e) = rw e next_point.1

run_int :
    (s : CoreState) (d : ℕ) (ds : List ℕ)
    → AtFront s
    → IsDigit d
    → All IsDigit ds
    → run s (d ∷ ds) ≡ core_int
unfolding run
run_int s d ds front h hs =
    rw (front_digit s d front h) (run_digits core_int ds (λ c k. (next_digit c k).2) hs)

run_fraction :
    (s : CoreState) (whole fraction : List ℕ)
    → AtFront s
    → All IsDigit whole
    → All IsDigit fraction
    → run s (whole ++ b'.' ∷ fraction) ≡ core_float
unfolding run
run_fraction s [] fraction front hw hf =
    rw (run, front_point s front) (run_digits core_float fraction (λ c k. (next_digit c k).3) hf)
run_fraction s (d ∷ whole) fraction front hw hf =
    rw
      (
        run-append s (d ∷ whole) (b'.' ∷ fraction),
        run_int s d whole front hw.0 hw.1,
        run,
        next_point.2,
      )
      (run_digits core_float fraction (λ c k. (next_digit c k).3) hf)

run_mantissa : (m : List ℕ) → IsMantissa m → run core_start m ≡ core_float
run_mantissa m h =
    rw (h.spelled, run-append core_start h.sign (h.whole ++ b'.' ∷ h.fraction))
      (run_fraction (run core_start h.sign) h.whole h.fraction (run_sign h.sign h.signed) h.before
        h.after)

run_behind :
    (m : List ℕ) → IsMantissa m → (tail : List ℕ) → run core_start (m ++ tail) ≡ run core_float tail
run_behind m h tail = run-append core_start m tail ∙ ap (λ s. run s tail) (run_mantissa m h)

pub run_of_token : (s : CoreState) (text : List ℕ) → IsToken s text → run core_start text ≡ s
unfolding run
run_of_token core_start text e = rw e
run_of_token core_s1 text (c, h, e) = rw (e, (next_sign c h).0)
run_of_token core_int text (sign, d, ds, o, h, hs, e) =
    rw (e, run-append core_start sign (d ∷ ds))
      (run_int (run core_start sign) d ds (run_sign sign o) h hs)
run_of_token core_float text h = run_mantissa text h
run_of_token core_s2 text (m, e, hm, he, q) =
    rw (q, run_behind m hm (e ∷ []), run, next_mark e he) refl
run_of_token core_exponent text (m, e, s, hm, he, hs, q) =
    rw (q, run_behind m hm (e ∷ s ∷ []), run, next_mark e he, (next_sign s hs).1) refl
run_of_token core_scientific text (m, e, s, d, ds, hm, he, hs, hd, hds, q) =
    rw
      (
        q,
        run_behind m hm (e ∷ s ∷ d ∷ ds),
        run,
        next_mark e he,
        (next_sign s hs).1,
        (next_digit d hd).4,
      )
      (run_digits core_scientific ds (λ c k. (next_digit c k).5) hds)
run_of_token core_invalid text h = absurd h
