-- ===== src/CoreMark/State/Grammar/Sound.antt =====
-- Every text that does not lead the recogniser to the invalid state is in the grammar of the
-- state that it leads to.
use mathlib.Core.List.{append_assoc, append-nil}
use rsicv_uvm_test.Base.{ℕ, ◌≡◌, ◌≢◌, ◌⊎◌, inl, inr, refl, ap, ◌∙◌, arith, List, [], ◌∷◌, ◌++◌, All}
use rsicv_uvm_test.CoreMark.State.{
  CoreState, core_start, core_invalid, core_s1, core_s2, core_int, core_float, core_exponent,
  core_scientific,
}
use rsicv_uvm_test.CoreMark.State.Grammar.{
  IsDigit, IsSign, IsExponentMark, OptionalSign, IsMantissa, IsToken, next_state, run,
}

-- How a symbol can lead to a state that is not the invalid one.
abbrev Move : CoreState → ℕ → CoreState → Type 0
Move core_start c t =
    (IsDigit c × (t ≡ core_int)) ⊎ ((IsSign c × (t ≡ core_s1)) ⊎ ((c ≡ b'.') × (t ≡ core_float)))
Move core_s1 c t = (IsDigit c × (t ≡ core_int)) ⊎ ((c ≡ b'.') × (t ≡ core_float))
Move core_int c t = (IsDigit c × (t ≡ core_int)) ⊎ ((c ≡ b'.') × (t ≡ core_float))
Move core_float c t = (IsDigit c × (t ≡ core_float)) ⊎ (IsExponentMark c × (t ≡ core_s2))
Move core_s2 c t = IsSign c × (t ≡ core_exponent)
Move core_exponent c t = IsDigit c × (t ≡ core_scientific)
Move core_scientific c t = IsDigit c × (t ≡ core_scientific)
Move core_invalid c t = ⊥

next-Move : (s : CoreState) (c : ℕ) → next_state s c ≢ core_invalid → Move s c (next_state s c)
unfolding next_state
next-Move core_start c h = ground arith
next-Move core_s1 c h = ground arith
next-Move core_int c h = ground arith
next-Move core_float c h = ground arith
next-Move core_s2 c h = ground arith
next-Move core_exponent c h = ground arith
next-Move core_scientific c h = ground arith
next-Move core_invalid c h = ground arith

All-snoc : (xs : List ℕ) (c : ℕ) → All IsDigit xs → IsDigit c → All IsDigit (xs ++ c ∷ [])
All-snoc [] c h k = (k, tt)
All-snoc (x ∷ xs) c h k = (h.0, All-snoc xs c h.1 k)

-- A sign and digits, followed by the point.
point-IsMantissa :
    (sign whole text : List ℕ)
    → OptionalSign sign
    → All IsDigit whole
    → text ≡ sign ++ whole
    → IsMantissa (text ++ b'.' ∷ [])
point-IsMantissa sign whole text o h e = record {
  sign = sign;
  whole = whole;
  fraction = [];
  signed = o;
  before = h;
  after = tt;
  spelled = rw (e, append_assoc sign whole (b'.' ∷ [])) refl;
}

digit-IsMantissa : (m : List ℕ) (c : ℕ) → IsMantissa m → IsDigit c → IsMantissa (m ++ c ∷ [])
digit-IsMantissa m c h k = record {
  sign = h.sign;
  whole = h.whole;
  fraction = h.fraction ++ c ∷ [];
  signed = h.signed;
  before = h.before;
  after = All-snoc h.fraction c h.after k;
  spelled =
      ap (λ l. l ++ c ∷ []) h.spelled
      ∙ append_assoc h.sign (h.whole ++ b'.' ∷ h.fraction) (c ∷ [])
      ∙ ap (λ l. h.sign ++ l) (append_assoc h.whole (b'.' ∷ h.fraction) (c ∷ []));
}

-- One more symbol takes a text of the grammar to a text of the next state's grammar.
IsToken-snoc :
    (s : CoreState) (text : List ℕ) (c : ℕ) (t : CoreState)
    → IsToken s text
    → Move s c t
    → IsToken t (text ++ c ∷ [])
IsToken-snoc core_start text c t e (inl (d, q)) = rw q ([], c, [], inl refl, d, tt, rw e refl)
IsToken-snoc core_start text c t e (inr (inl (h, q))) = rw q (c, h, rw e refl)
IsToken-snoc core_start text c t e (inr (inr (p, q))) =
    rw (q, p) (point-IsMantissa [] [] text (inl refl) tt e)
IsToken-snoc core_s1 text c t (s, h, e) (inl (d, q)) =
    rw q (s ∷ [], c, [], inr (s, h, refl), d, tt, rw e refl)
IsToken-snoc core_s1 text c t (s, h, e) (inr (p, q)) =
    rw (q, p) (point-IsMantissa (s ∷ []) [] text (inr (s, h, refl)) tt e)
IsToken-snoc core_int text c t (sign, d, ds, o, h, hs, e) (inl (k, q)) = rw q (
  sign,
  d,
  ds ++ c ∷ [],
  o,
  h,
  All-snoc ds c hs k,
  ap (λ l. l ++ c ∷ []) e ∙ append_assoc sign (d ∷ ds) (c ∷ []),
)
IsToken-snoc core_int text c t (sign, d, ds, o, h, hs, e) (inr (p, q)) =
    rw (q, p) (point-IsMantissa sign (d ∷ ds) text o (h, hs) e)
IsToken-snoc core_float text c t m (inl (k, q)) = rw q (digit-IsMantissa text c m k)
IsToken-snoc core_float text c t m (inr (k, q)) = rw q (text, c, m, k, refl)
IsToken-snoc core_s2 text c t (m, e, hm, he, p) (k, q) =
    rw q (m, e, c, hm, he, k, ap (λ l. l ++ c ∷ []) p ∙ append_assoc m (e ∷ []) (c ∷ []))
IsToken-snoc core_exponent text c t (m, e, s, hm, he, hs, p) (k, q) = rw q (
  m,
  e,
  s,
  c,
  [],
  hm,
  he,
  hs,
  k,
  tt,
  ap (λ l. l ++ c ∷ []) p ∙ append_assoc m (e ∷ s ∷ []) (c ∷ []),
)
IsToken-snoc core_scientific text c t (m, e, s, d, ds, hm, he, hs, hd, hds, p) (k, q) = rw q (
  m,
  e,
  s,
  d,
  ds ++ c ∷ [],
  hm,
  he,
  hs,
  hd,
  All-snoc ds c hds k,
  ap (λ l. l ++ c ∷ []) p ∙ append_assoc m (e ∷ s ∷ d ∷ ds) (c ∷ []),
)
IsToken-snoc core_invalid text c t h k = absurd k

-- The invalid state is never left.
pub run-invalid : (text : List ℕ) → run core_invalid text ≡ core_invalid
unfolding run next_state
run-invalid [] = refl
run-invalid (c ∷ text) = run-invalid text

IsToken-of_run_from :
    (s : CoreState) (text later : List ℕ)
    → IsToken s text
    → run s later ≢ core_invalid
    → IsToken (run s later) (text ++ later)
unfolding run
IsToken-of_run_from s text [] h ok = rw (append-nil text) h
IsToken-of_run_from s text (c ∷ later) h ok =
    let good : next_state s c ≢ core_invalid =
      λ e. ok (ap (λ t. run t later) e ∙ run-invalid later) in
    let grown = IsToken-snoc s text c (next_state s c) h (next-Move s c good) in
    rw (← append_assoc text (c ∷ []) later)
      (IsToken-of_run_from (next_state s c) (text ++ c ∷ []) later grown ok)

pub IsToken-of_run :
    (text : List ℕ) → run core_start text ≢ core_invalid → IsToken (run core_start text) text
IsToken-of_run text ok = IsToken-of_run_from core_start [] text refl ok
