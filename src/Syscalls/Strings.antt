-- ===== src/Syscalls/Strings.antt =====
-- The string functions of riscv-tests/benchmarks/common/syscalls.c, and memcmp of
-- riscv-tests/env/v/string.c, which has the others in the same text. A pointer is the list of bytes
-- from there to the end of the object; where the code looks at its alignment, its address stands
-- beside it. What a function writes is the list from the destination on.
pub mod Copy
pub mod Compare
pub mod Text
use rsicv_uvm_test.Base.{
  ℕ, zero, suc, ◌+◌, ◌-◌, ◌*◌, ◌/◌, ◌%◌, ◌^◌, ltb, leb, ◌==◌, if◌then◌else◌, Bool, true, false, not,
  ◌&&◌, Option, none, some, List, [], ◌∷◌, ◌>>=◌, map, u8, u32, ◌<<<◌, bit_and, bit_or,
}
use rsicv_uvm_test.Syscalls.{u64}

-- A machine word in memory: its value from the lowest byte up, and the bytes behind it.
pub record Loaded : Type 0 where
  pub word : ℕ
  pub rest : List ℕ

abbrev pub load : (bytes : ℕ) → List ℕ → Option Loaded
load zero s = some (record { word = 0; rest = s })
load (suc k) [] = none
load (suc k) (c ∷ s) = do
  upper ← load k s
  some (record { word = c + 2 ^ 8 * upper.word; rest = upper.rest })

-- `*d = word` and then `kept`, what is left of the block, goes on with `f`.
abbrev pub save : (bytes word : ℕ) → (List ℕ → Option (List ℕ)) → List ℕ → Option (List ℕ)
save zero word f d = f d
save (suc k) word f [] = none
save (suc k) word f (_ ∷ d) = do behind ← save k (word / 2 ^ 8) f d; some (word % 2 ^ 8 ∷ behind)

-- `while (d < end) *d++ = *s++;` in units of a width.
unfoldable pub copy_units : (width units : ℕ) → (d s : List ℕ) → Option (List ℕ)
copy_units width zero d s = some d
copy_units width (suc units) d s = do
  loaded ← load width s
  save width loaded.word (λ d'. copy_units width units d' loaded.rest) d

abbrev pub is_aligned : ℕ → Bool
is_aligned addresses = bit_and addresses (8 - 1) == 0

unfoldable pub memcpy : (dest_at src_at : ℕ) → (dest src : List ℕ) → (len : ℕ) → Option (List ℕ)
unfolding copy_units
memcpy dest_at src_at dest src len =
    if is_aligned (bit_or (bit_or dest_at src_at) len)
    then copy_units 8 (len / 8) dest src
    else copy_units 1 len dest src

-- `while (d < end) *d++ = word;` in units of a width.
unfoldable pub fill_units : (width units word : ℕ) → List ℕ → Option (List ℕ)
fill_units width zero word d = some d
fill_units width (suc units) word d = save width word (fill_units width units word) d

-- The word of eight equal bytes.
abbrev pub spread : ℕ → ℕ
spread word =
    let word2 = bit_or word (u64 (word <<< 8)) in
    let word4 = bit_or word2 (u64 (word2 <<< 16)) in bit_or word4 (u64 (u64 (word4 <<< 16) <<< 16))

unfoldable pub memset : (dest_at : ℕ) → (dest : List ℕ) → (byte len : ℕ) → Option (List ℕ)
unfolding fill_units
memset dest_at dest byte len =
    if is_aligned (bit_or dest_at len)
    then fill_units 8 (len / 8) (spread (bit_and byte 0xff)) dest
    else fill_units 1 len (u8 byte) dest

abbrev pub strlen : List ℕ → Option ℕ
strlen [] = none
strlen (c ∷ p) = let rest = strlen p in if c == 0 then some 0 else (do n ← rest; some (suc n))

abbrev pub strnlen : List ℕ → (n : ℕ) → Option ℕ
strnlen s zero = some 0
strnlen [] (suc n) = none
strnlen (c ∷ p) (suc n) =
    let rest = strnlen p n in if c == 0 then some 0 else (do m ← rest; some (suc m))

-- The bit pattern of the `int` c1 - c2.
abbrev pub difference : (c1 c2 : ℕ) → ℕ
difference c1 c2 = u32 (c1 + (2 ^ 32 - c2))

abbrev pub strcmp : (s1 s2 : List ℕ) → Option ℕ
strcmp [] s2 = none
strcmp (c1 ∷ s1) [] = none
strcmp (c1 ∷ s1) (c2 ∷ s2) =
    let rest = strcmp s1 s2 in if not (c1 == 0) && (c1 == c2) then rest else some (difference c1 c2)

abbrev pub strcpy : (dest src : List ℕ) → Option (List ℕ)
strcpy [] src = none
strcpy (_ ∷ d) [] = none
strcpy (_ ∷ d) (c ∷ src) =
    let rest = strcpy d src in
    if c == 0 then some (c ∷ d) else (do behind ← rest; some (c ∷ behind))

-- The loop of memcmp over bytes.
abbrev pub compare_bytes : (s1 s2 : List ℕ) → (n : ℕ) → Option ℕ
compare_bytes s1 s2 zero = some 0
compare_bytes [] s2 (suc n) = none
compare_bytes (c1 ∷ s1) [] (suc n) = none
compare_bytes (c1 ∷ s1) (c2 ∷ s2) (suc n) =
    let rest = compare_bytes s1 s2 n in if c1 == c2 then rest else some (difference c1 c2)

-- The loop of memcmp over words, with the loop over bytes behind it: `n` are the bytes left.
unfoldable pub compare_words : (words : ℕ) → (s1 s2 : List ℕ) → (n : ℕ) → Option ℕ
compare_words zero s1 s2 n = compare_bytes s1 s2 n
compare_words (suc words) s1 s2 n = do
  u1 ← load 8 s1
  u2 ← load 8 s2
  let rest = compare_words words u1.rest u2.rest (n - 8)
  if u1.word == u2.word then rest else compare_bytes s1 s2 n

unfoldable pub memcmp : (s1_at s2_at : ℕ) → (s1 s2 : List ℕ) → (n : ℕ) → Option ℕ
unfolding compare_words
memcmp s1_at s2_at s1 s2 n =
    if is_aligned (bit_or s1_at s2_at) then compare_words (n / 8) s1 s2 n else compare_bytes s1 s2 n
