-- ===== src/Syscalls.antt =====
-- The number printer and the string functions of riscv-tests/benchmarks/common/syscalls.c. A `char*`
-- is the list of bytes from there to the end of the object; a read behind it gives none.
pub mod Print
pub mod Roundtrip
pub mod Strings
pub mod Format
pub mod Console
use rsicv_uvm_test.Base.{
  ℕ, zero, suc, ◌+◌, ◌-◌, ◌*◌, ◌/◌, ◌%◌, ◌^◌, ltb, leb, ◌==◌, if◌then◌else◌, Bool, true, false,
  ◌&&◌, ◌||◌, Option, none, some, List, [], ◌∷◌, ◌++◌, length, replicate,
}

-- The loop of `printnum` that fills `digs`, lowest digit first; `room` is what the array has left.
unfoldable pub fill_digits : (room num base : ℕ) → Option (List ℕ)
fill_digits zero num base = none
fill_digits (suc room) num base =
    let rest = fill_digits room (num / base) base in
    if ltb num base
    then some (num % base ∷ [])
    else (elim rest [ none ↦ none | some digits ↦ some (num % base ∷ digits) ])

abbrev pub digit_char : ℕ → ℕ
digit_char d = if leb 10 d then d + (b'a' - 10) else d + b'0'

-- `while (pos-- > 0) putch(...)`: the digits from the highest down.
abbrev pub put_digits : List ℕ → List ℕ
put_digits [] = []
put_digits (d ∷ digits) = put_digits digits ++ (digit_char d ∷ [])

-- What `printnum` puts out, for a width that is not negative. `digs` has an entry for each of 64 bits.
unfoldable pub printnum : (num base width padc : ℕ) → Option (List ℕ)
unfolding fill_digits
printnum num base width padc = elim (fill_digits 64 num base) [
  | none ↦ none
  | some digits ↦ some (replicate (width - length digits) padc ++ put_digits digits)
]

abbrev pub u64 : ℕ → ℕ
u64 n = n % 2 ^ 64

-- `while (*str) { res *= 10; res += *str++ - '0'; }`, and the result.
unfoldable pub atol_digits : (negative : Bool) → (res : ℕ) → List ℕ → Option ℕ
atol_digits negative res [] = none
atol_digits negative res (c ∷ str) =
    let rest = atol_digits negative (u64 (res * 10 + c + (2 ^ 64 - b'0'))) str in
    if c == 0 then some (if negative then u64 (2 ^ 64 - res) else res) else rest

abbrev pub atol_sign : List ℕ → Option ℕ
atol_sign [] = none
atol_sign (c ∷ str) =
    if c == b'-' || c == b'+' then atol_digits (c == b'-') 0 str else atol_digits false 0 (c ∷ str)

-- The 64-bit pattern of the `long`.
unfoldable pub atol : List ℕ → Option ℕ
unfolding atol_digits
atol [] = none
atol (c ∷ str) = let rest = atol str in if c == b' ' then rest else atol_sign (c ∷ str)
