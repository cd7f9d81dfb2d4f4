-- ===== src/CoreMark/State/Init.antt =====
-- `core_init_state` of core_state.c: the block is filled with number patterns between commas.
-- A seed (`ee_s16`) is its bit pattern. `none` is an access outside the block or a table, or a
-- loop out of fuel.
pub mod Writes
pub mod Layout
pub mod Result
use rsicv_uvm_test.Base.{
  ℕ, zero, suc, ◌+◌, ◌-◌, ◌^◌, u16, u32, ◌>>>◌, bit_and, ltb, ◌==◌, if◌then◌else◌, true, false,
  Option, none, some, List, [], ◌∷◌, get_or, set, length, codes,
}

-- The tables, by `(seed>>3) & 0x3`.
pub intpat : ℕ → List ℕ
intpat i = get_or (codes "5012" ∷ codes "1234" ∷ codes "-874" ∷ codes "+122" ∷ []) i []

pub floatpat : ℕ → List ℕ
floatpat i =
    get_or (codes "35.54400" ∷ codes ".1234500" ∷ codes "-110.700" ∷ codes "+0.64400" ∷ []) i []

pub scipat : ℕ → List ℕ
scipat i =
    get_or (codes "5.500e+3" ∷ codes "-.123e-2" ∷ codes "-87e+832" ∷ codes "+0.6e-12" ∷ []) i []

pub errpat : ℕ → List ℕ
errpat i =
    get_or (codes "T0.3e-1F" ∷ codes "-T.T++Tq" ∷ codes "1T3.4e4z" ∷ codes "34.0e-T^" ∷ []) i []

-- The `switch (seed & 0x7)`: the pattern and the number of bytes of it to copy.
unfoldable pub choose : (seed : ℕ) → record { buf : List ℕ; next : ℕ }
unfolding intpat floatpat scipat errpat
choose seed =
    let kind = bit_and seed 0x7 in
    let which = bit_and (seed >>> 3) 0x3 in
    if ltb kind 3
    then record { buf = intpat which; next = 4 }
    else if ltb kind 5
    then record { buf = floatpat which; next = 8 }
    else if ltb kind 7
    then record { buf = scipat which; next = 8 }
    else record { buf = errpat which; next = 8 }

infixl 5 ◌>>=◌
abbrev pub ◌>>=◌ : {A B : Type 0} → Option A → (A → Option B) → Option B
none >>= f = none
some a >>= f = f a

-- `*(p+i)=v`.
unfoldable pub write : (i v : ℕ) → List ℕ → Option (List ℕ)
write i v mem = if ltb i (length mem) then some (set mem i v) else none

-- `for(i=0;i<next;i++) *(p+total+i)=buf[i];` with `left` rounds to go, from `buf+i` and `p+total+i`.
unfoldable pub copy_bytes : (left : ℕ) → (buf : List ℕ) → (dest : ℕ) → List ℕ → Option (List ℕ)
copy_bytes zero buf dest mem = some mem
copy_bytes (suc left) [] dest mem = none
copy_bytes (suc left) (b ∷ buf) dest mem = do
  mem' ← write dest b mem
  copy_bytes left buf (dest + 1) mem'

-- The variables of the filling loop.
pub record Filling : Type 0 where
  pub total : ℕ
  pub next : ℕ
  pub buf : List ℕ
  pub seed : ℕ
  pub mem : List ℕ

-- `if (next>0) { ... }`.
unfoldable pub emit : Filling → Option Filling
emit s = elim (s.next == 0) [
  | true ↦ some s
  | false ↦ do
    copied ← copy_bytes s.next s.buf s.total s.mem
    ended ← write (s.total + s.next) b',' copied
    some (record s { total = u32 (s.total + (s.next + 1)); mem = ended })
]

-- `seed++; switch ...`.
unfoldable pub advance : Filling → Filling
advance s =
    let seed' = u16 (s.seed + 1) in
    record s { seed = seed'; buf = (choose seed').buf; next = (choose seed').next }

-- `while ((total+next+1)<size) { ... }`, where `size` is the one that `size--` left.
pub fill : (fuel size : ℕ) → Filling → Option Filling
fill zero size s = none
fill (suc fuel) size s = elim (ltb (u32 (s.total + s.next + 1)) size) [
  | false ↦ some s
  | true ↦ do emitted ← emit s; fill fuel size (advance emitted)
]

-- `while (total<size) { *(p+total)=0; total++; }`.
pub clear : (fuel size total : ℕ) → List ℕ → Option (List ℕ)
clear zero size total mem = none
clear (suc fuel) size total mem = elim (ltb total size) [
  | false ↦ some mem
  | true ↦ do mem' ← write total 0 mem; clear fuel size (total + 1) mem'
]

unfoldable pub core_init_state : (size seed : ℕ) → List ℕ → Option (List ℕ)
unfolding fill clear
core_init_state size seed p = do
  filled ←
      fill (suc (suc size)) (u32 (size + (2 ^ 32 - 1)))
        (record { total = 0; next = 0; buf = []; seed = seed; mem = p })
  clear (suc size) size filled.total filled.mem
