-- ===== src/CoreMark/Driver/Seeds.antt =====
-- The seeds of core_util.c: get_seed_32 on volatile variables, and parseval and get_seed_args on the
-- arguments of the command line. The sizes that check_data_types tests are parameters.
pub mod Decimal
use rsicv_uvm_test.Base.{
  ℕ, ◌+◌, ◌-◌, ◌*◌, ◌^◌, ltb, leb, ◌==◌, if◌then◌else◌, Bool, ◌&&◌, ◌||◌, Option, none, some, List,
  [], ◌∷◌, get_elem?, ◌>>=◌, u32,
}

-- `seed1_volatile` to `seed5_volatile`.
pub record SeedValues : Type 0 where
  pub seed1_volatile : ℕ
  pub seed2_volatile : ℕ
  pub seed3_volatile : ℕ
  pub seed4_volatile : ℕ
  pub seed5_volatile : ℕ

abbrev pub get_seed_32 : SeedValues → (i : ℕ) → ℕ
get_seed_32 v i =
    if i == 1
    then v.seed1_volatile
    else if i == 2
    then v.seed2_volatile
    else if i == 3
    then v.seed3_volatile
    else if i == 4
    then v.seed4_volatile
    else if i == 5
    then v.seed5_volatile
    else 0

-- The loop over hexadecimal digits: the value and what follows.
pub record Parsed : Type 0 where
  pub retval : ℕ
  pub rest : List ℕ

abbrev pub is_decimal : ℕ → Bool
is_decimal c = leb 48 c && leb c 57

abbrev pub is_hex_letter : ℕ → Bool
is_hex_letter c = leb 97 c && leb c 102

-- `*valstring-'0'`, or `10+*valstring-'a'` where that is above 9.
abbrev pub hex_digit : ℕ → ℕ
hex_digit c = if ltb 9 (c - 48) then 10 + c - 97 else c - 48

unfoldable pub parse_hex : (valstring : List ℕ) → (retval : ℕ) → Option Parsed
parse_hex [] retval = none
parse_hex (c ∷ cs) retval =
    let next = parse_hex cs (u32 (u32 (retval * 16) + hex_digit c)) in
    if is_decimal c || is_hex_letter c
    then next
    else some (record { retval = retval; rest = c ∷ cs })

unfoldable pub parse_decimal : (valstring : List ℕ) → (retval : ℕ) → Option Parsed
parse_decimal [] retval = none
parse_decimal (c ∷ cs) retval =
    let next = parse_decimal cs (u32 (u32 (retval * 10) + (c - 48))) in
    if is_decimal c then next else some (record { retval = retval; rest = c ∷ cs })

-- The value with its qualifier: `K` is 75 and `M` 77.
abbrev pub qualified : Parsed → Option ℕ
qualified p = do
  c ← get_elem? p.rest 0
  let by_k = if c == 75 then u32 (p.retval * 1024) else p.retval
  some (if c == 77 then u32 (by_k * (1024 * 1024)) else by_k)

-- The digits, behind `0x` or not.
abbrev pub parse_number : (valstring : List ℕ) → Option Parsed
parse_number [] = none
parse_number (c ∷ []) = parse_decimal (c ∷ []) 0
parse_number (c ∷ (d ∷ cs)) =
    let hex = parse_hex cs 0 in
    let decimal = parse_decimal (c ∷ (d ∷ cs)) 0 in if (c == 48) && (d == 120) then hex else decimal

abbrev pub negated : ℕ → ℕ
negated x = u32 (2 ^ 32 - x)

unfoldable pub parseval : (valstring : List ℕ) → Option ℕ
parseval [] = none
parseval (c ∷ cs) =
    let negative = (do p ← parse_number cs; value ← qualified p; some (negated value)) in
    let positive = (do p ← parse_number (c ∷ cs); qualified p) in
    if c == 45 then negative else positive

-- `argc > i` for an `i` that is not negative.
unfoldable pub get_seed_args : (i argc : ℕ) → (argv : List (List ℕ)) → Option ℕ
get_seed_args i argc argv =
    let parsed = (do arg ← get_elem? argv i; parseval arg) in if ltb i argc then parsed else some 0

-- The `sizeof` of the types of core_portme.h, and of a pointer.
pub record DataTypes : Type 0 where
  pub ee_u8 : ℕ
  pub ee_u16 : ℕ
  pub ee_s16 : ℕ
  pub ee_s32 : ℕ
  pub ee_u32 : ℕ
  pub ee_ptr_int : ℕ
  pub int_ptr : ℕ

abbrev pub wrong_if : (size expected : ℕ) → ℕ
wrong_if size expected = if size == expected then 0 else 1

unfoldable pub check_data_types : DataTypes → ℕ
check_data_types t =
    wrong_if t.ee_u8 1
    + wrong_if t.ee_u16 2
    + wrong_if t.ee_s16 2
    + wrong_if t.ee_s32 4
    + wrong_if t.ee_u32 4
    + wrong_if t.ee_ptr_int t.int_ptr
