-- ===== src/CoreMark/State/Grammar/Recognise.antt =====
-- `core_state_transition` recognises the grammar, and stops behind the text that it accepts.
use mathlib.Core.Path.{subst}
use rsicv_uvm_test.Base.{
  ℕ, ◌≡◌, ◌≢◌, ◌↔◌, ◌⊎◌, inl, inr, refl, sym, ap, ◌∙◌, arith, ◌==◌, Bool-cases, true, Option, some,
  List, [], ◌∷◌, ◌++◌, All, ==_of_ne, if◌then◌else◌,
}
use rsicv_uvm_test.CoreMark.State.{
  CoreState, core_start, core_invalid, core_s1, core_s2, core_int, core_float, core_exponent,
  core_scientific, on_symbol, Scanned, is_invalid, scan, core_state_transition,
}
use rsicv_uvm_test.CoreMark.State.Grammar.{IsToken, next_state, run}
use rsicv_uvm_test.CoreMark.State.Grammar.Complete.{run_of_token}
use rsicv_uvm_test.CoreMark.State.Grammar.Sound.{IsToken-of_run, run-invalid}

-- A byte inside a text: neither the end of the block nor a comma.
abbrev pub IsSymbol : ℕ → Type 0
IsSymbol c = (c ≢ 0) × (c ≢ b',')

-- The pointer behind a text that ends with `t`: a comma is skipped, a 0 is not.
abbrev pub behind : (t : ℕ) → List ℕ → List ℕ
behind t rest = if t == 0 then t ∷ rest else rest

on_symbol_state : (s : CoreState) (c : ℕ) (n : List ℕ) → (on_symbol s c n).state ≡ next_state s c
unfolding on_symbol next_state
on_symbol_state core_start c n = ground arith
on_symbol_state core_s1 c n = ground arith
on_symbol_state core_int c n = ground arith
on_symbol_state core_float c n = ground arith
on_symbol_state core_s2 c n = ground arith
on_symbol_state core_exponent c n = ground arith
on_symbol_state core_scientific c n = ground arith
on_symbol_state core_invalid c n = refl

-- The loop ended, in the state that the text leads to.
record Ends (o : Option Scanned) (s : CoreState) (rest : List ℕ) : Type 0 where
  result : Scanned
  returned : o ≡ some result
  state : result.state ≡ s
  stopped : result.state ≢ core_invalid → result.rest ≡ rest

invalid_of_test : (s : CoreState) → is_invalid s ≡ true → s ≡ core_invalid
invalid_of_test core_invalid h = refl
invalid_of_test _ h = cc

scan-Ends :
    (s : CoreState) (n text : List ℕ) (t : ℕ) (rest : List ℕ)
    → All IsSymbol text
    → (t ≡ 0) ⊎ (t ≡ b',')
    → Ends (scan s n (text ++ t ∷ rest)) (run s text) (behind t rest)
unfolding scan run
scan-Ends s n [] t rest h (inl e) =
    rw e (record { result = _; returned = refl; state = refl; stopped = λ ok. refl })
scan-Ends s n [] t rest h (inr e) = elim (Bool-cases (is_invalid s)) [
  | inl bad ↦
      rw (e, bad)
        (record {
          result = _;
          returned = refl;
          state = refl;
          stopped = λ ok. absurd (ok (invalid_of_test s bad));
        })
  | inr good ↦
      rw (e, good) (record { result = _; returned = refl; state = refl; stopped = λ ok. refl })
]
scan-Ends s n (c ∷ text) t rest h ends = elim (Bool-cases (is_invalid s)) [
  | inl bad ↦
      let invalid = invalid_of_test s bad in
      rw (==_of_ne c 0 h.0.0, bad)
        (record {
          result = _;
          returned = refl;
          state = invalid ∙ sym (ap (λ s'. run s' (c ∷ text)) invalid ∙ run-invalid (c ∷ text));
          stopped = λ ok. absurd (ok invalid);
        })
  | inr good ↦
      rw (==_of_ne c 0 h.0.0, good, ==_of_ne c b',' h.0.1, ← on_symbol_state s c n)
        (scan-Ends (on_symbol s c n).state (on_symbol s c n).counts text t rest h.1 ends)
]

-- A call on a text of symbols that ends with a comma or with a 0 returns. It reports a state
-- other than the invalid one exactly if the text is in that state's grammar, and it then leaves
-- the pointer at the 0, or behind the comma.
pub transition_recognises :
    (text : List ℕ) (t : ℕ) (rest counts : List ℕ)
    → All IsSymbol text
    → (t ≡ 0) ⊎ (t ≡ b',')
    → (r : Scanned) × (core_state_transition (text ++ t ∷ rest) counts ≡ some r)
      × ((s : CoreState) → s ≢ core_invalid → (r.state ≡ s) ↔ IsToken s text)
      × (r.state ≢ core_invalid → r.rest ≡ behind t rest)
unfolding core_state_transition
transition_recognises text t rest counts h ends = (
  e.result,
  e.returned,
  (λ s ok. (accepted s ok, λ token. e.state ∙ run_of_token s text token)),
  e.stopped,
)
  where
    e : Ends (scan core_start counts (text ++ t ∷ rest)) (run core_start text) (behind t rest)
    e = scan-Ends core_start counts text t rest h ends

    accepted : (s : CoreState) → s ≢ core_invalid → e.result.state ≡ s → IsToken s text
    accepted s ok q =
        subst (λ s'. IsToken s' text) (sym e.state ∙ q)
          (IsToken-of_run text (λ bad. ok (sym q ∙ e.state ∙ bad)))
