-- ===== src/CoreMark/State.antt =====
-- The number recogniser of core_state.c and the benchmark that drives it.
-- A pointer into the block is the list of bytes from there to the end of the block, so a read
-- past the end is the clause for `[]`; it gives `none`.
pub mod Bench
pub mod Init
pub mod Grammar
pub mod Progress
pub mod Corrupt
pub mod Total
use rsicv_uvm_test.Base.{
  ℕ, ◌+◌, u32, leb, ◌==◌, if◌then◌else◌, Bool, ◌&&◌, ◌||◌, true, false, Option, none, some, List,
  [], ◌∷◌, get_or, set,
}

-- `enum CORE_STATE`, in its order.
pub data CoreState : Type 0 where
  core_start core_invalid core_s1 core_s2 core_int core_float core_exponent core_scientific :
      CoreState

abbrev pub state_index : CoreState → ℕ
state_index core_start = 0
state_index core_invalid = 1
state_index core_s1 = 2
state_index core_s2 = 3
state_index core_int = 4
state_index core_float = 5
state_index core_exponent = 6
state_index core_scientific = 7

abbrev pub num_core_states : ℕ
num_core_states = 8

-- `count[s]++` on an array of `ee_u32`.
unfoldable pub bump : CoreState → List ℕ → List ℕ
bump s counts = set counts (state_index s) (u32 (get_or counts (state_index s) 0 + 1))

pub ee_isdigit : ℕ → Bool
ee_isdigit c = leb b'0' c && leb c b'9'

abbrev pub is_sign : ℕ → Bool
is_sign c = c == b'+' || c == b'-'

-- The `switch` of `core_state_transition` on one symbol that is not a comma.
unfoldable pub on_symbol : CoreState → ℕ → List ℕ → record { state : CoreState; counts : List ℕ }
unfolding ee_isdigit
on_symbol core_start c n =
    if ee_isdigit c
    then record { state = core_int; counts = bump core_start n }
    else if is_sign c
    then record { state = core_s1; counts = bump core_start n }
    else if c == b'.'
    then record { state = core_float; counts = bump core_start n }
    else record { state = core_invalid; counts = bump core_start (bump core_invalid n) }
on_symbol core_s1 c n =
    if ee_isdigit c
    then record { state = core_int; counts = bump core_s1 n }
    else if c == b'.'
    then record { state = core_float; counts = bump core_s1 n }
    else record { state = core_invalid; counts = bump core_s1 n }
on_symbol core_int c n =
    if c == b'.'
    then record { state = core_float; counts = bump core_int n }
    else if ee_isdigit c
    then record { state = core_int; counts = n }
    else record { state = core_invalid; counts = bump core_int n }
on_symbol core_float c n =
    if c == b'E' || c == b'e'
    then record { state = core_s2; counts = bump core_float n }
    else if ee_isdigit c
    then record { state = core_float; counts = n }
    else record { state = core_invalid; counts = bump core_float n }
on_symbol core_s2 c n =
    if is_sign c
    then record { state = core_exponent; counts = bump core_s2 n }
    else record { state = core_invalid; counts = bump core_s2 n }
on_symbol core_exponent c n =
    if ee_isdigit c
    then record { state = core_scientific; counts = bump core_exponent n }
    else record { state = core_invalid; counts = bump core_exponent n }
on_symbol core_scientific c n =
    if ee_isdigit c
    then record { state = core_scientific; counts = n }
    else record { state = core_invalid; counts = bump core_invalid n }
on_symbol core_invalid c n = record { state = core_invalid; counts = n }

-- What `core_state_transition` returns: the end state, the counters and the moved pointer.
pub record Scanned : Type 0 where
  pub state : CoreState
  pub counts : List ℕ
  pub rest : List ℕ

abbrev pub is_invalid : CoreState → Bool
is_invalid core_invalid = true
is_invalid _ = false

-- The `for` loop, from the symbol under the pointer.
unfoldable pub scan : CoreState → List ℕ → List ℕ → Option Scanned
scan s n [] = none
scan s n (c ∷ str) =
    let next = scan (on_symbol s c n).state (on_symbol s c n).counts str in
    if c == 0
    then some (record { state = s; counts = n; rest = c ∷ str })
    else if is_invalid s
    then some (record { state = s; counts = n; rest = c ∷ str })
    else if c == b','
    then some (record { state = s; counts = n; rest = str })
    else next

unfoldable pub core_state_transition : (str counts : List ℕ) → Option Scanned
unfolding scan
core_state_transition str counts = scan core_start counts str
