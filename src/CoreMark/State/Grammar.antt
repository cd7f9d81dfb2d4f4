-- ===== src/CoreMark/State/Grammar.antt =====
-- The language of the recogniser of core_state.c: for each end state the texts that lead to it,
-- written as a grammar that knows nothing of states.
mod Sound
mod Complete
pub mod Recognise
use rsicv_uvm_test.Base.{ℕ, ◌≤◌, ◌≡◌, ◌≢◌, ◌⊎◌, List, [], ◌∷◌, ◌++◌, All}
use rsicv_uvm_test.CoreMark.State.{
  CoreState, core_start, core_invalid, core_s1, core_s2, core_int, core_float, core_exponent,
  core_scientific, on_symbol,
}

abbrev pub IsDigit : ℕ → Type 0
IsDigit c = (b'0' ≤ c) × (c ≤ b'9')

abbrev pub IsSign : ℕ → Type 0
IsSign c = (c ≡ b'+') ⊎ (c ≡ b'-')

abbrev pub IsExponentMark : ℕ → Type 0
IsExponentMark c = (c ≡ b'E') ⊎ (c ≡ b'e')

abbrev pub OptionalSign : List ℕ → Type 0
OptionalSign sign = (sign ≡ []) ⊎ ((c : ℕ) × IsSign c × (sign ≡ c ∷ []))

-- A sign or none, any digits, a point, and any digits.
pub record IsMantissa (text : List ℕ) : Type 0 where
  pub sign : List ℕ
  pub whole : List ℕ
  pub fraction : List ℕ
  pub signed : OptionalSign sign
  pub before : All IsDigit whole
  pub after : All IsDigit fraction
  pub spelled : text ≡ sign ++ (whole ++ b'.' ∷ fraction)

-- The texts of each end state; no text is described for the invalid one.
abbrev pub IsToken : CoreState → List ℕ → Type 0
IsToken core_start text = text ≡ []
IsToken core_s1 text = (c : ℕ) × IsSign c × (text ≡ c ∷ [])
IsToken core_int text =
    (sign : List ℕ) × (d : ℕ) × (ds : List ℕ) × OptionalSign sign
    × IsDigit d
    × All IsDigit ds
    × (text ≡ sign ++ d ∷ ds)
IsToken core_float text = IsMantissa text
IsToken core_s2 text =
    (m : List ℕ) × (e : ℕ) × IsMantissa m × IsExponentMark e × (text ≡ m ++ e ∷ [])
IsToken core_exponent text =
    (m : List ℕ) × (e s : ℕ) × IsMantissa m × IsExponentMark e × IsSign s × (text ≡ m ++ e ∷ s ∷ [])
IsToken core_scientific text =
    (m : List ℕ) × (e s d : ℕ) × (ds : List ℕ) × IsMantissa m
    × IsExponentMark e
    × IsSign s
    × IsDigit d
    × All IsDigit ds
    × (text ≡ m ++ e ∷ s ∷ d ∷ ds)
IsToken core_invalid text = ⊥

-- The states alone, and the state after a text.
pub next_state : CoreState → ℕ → CoreState
unfolding on_symbol
next_state s c = (on_symbol s c []).state

pub run : CoreState → List ℕ → CoreState
run s [] = s
run s (c ∷ text) = run (next_state s c) text
