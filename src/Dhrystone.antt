-- ===== src/Dhrystone.antt =====
-- The Dhrystone program: dhrystone4sim/dhry_1.c, dhry_2.c and the types of dhry.h. An `int` is its
-- 32-bit pattern, a `char` its byte, a `Rec_Pointer` null or an index of the heap; of the variants of
-- a record only the first is used. An access outside an object, and a read of a local variable that
-- has no value yet, give none.
pub mod Program
pub mod Output
pub mod Arrays
pub mod Records
pub mod Final
use rsicv_uvm_test.Base.{
  ℕ, zero, suc, ◌+◌, ◌-◌, ◌*◌, ◌/◌, ◌^◌, ltb, leb, ◌==◌, not, ◌&&◌, if◌then◌else◌, Bool, true,
  false, Option, none, some, List, [], ◌∷◌, get_elem?, store, ◌>>=◌, for, u32, bit_or,
}
use rsicv_uvm_test.Benchmarks.{signed_lt}

-- `struct record` with its first variant.
pub record RecType : Type 0 where
  pub ptr_comp : Option ℕ
  pub discr : ℕ
  pub enum_comp : ℕ
  pub int_comp : ℕ
  pub str_comp : List ℕ

pub record Globals : Type 0 where
  pub heap : List RecType
  pub ptr_glob : Option ℕ
  pub next_ptr_glob : Option ℕ
  pub int_glob : ℕ
  pub bool_glob : ℕ
  pub ch_1_glob : ℕ
  pub ch_2_glob : ℕ
  pub arr_1_glob : List ℕ
  pub arr_2_glob : List (List ℕ)

-- The enumeration.
abbrev pub ident_1 : ℕ
ident_1 = 0

abbrev pub ident_2 : ℕ
ident_2 = 1

abbrev pub ident_3 : ℕ
ident_3 = 2

abbrev pub ident_4 : ℕ
ident_4 = 3

abbrev pub ident_5 : ℕ
ident_5 = 4

-- `Boolean`.
abbrev pub boolean : Bool → ℕ
boolean true = 1
boolean false = 0

-- The difference of two `int`s.
abbrev pub minus : ℕ → ℕ → ℕ
minus a b = u32 (a + (2 ^ 32 - b))

-- `*p`.
abbrev pub deref : Option ℕ → Globals → Option RecType
deref p s = do i ← p; get_elem? s.heap i

-- `*p = r`.
abbrev pub assign : Option ℕ → RecType → Globals → Option Globals
assign p r s = do i ← p; heap' ← store s.heap i r; some (record s { heap = heap' })

-- A store to a field of `*p`.
abbrev pub set_field : Option ℕ → (RecType → RecType) → Globals → Option Globals
set_field p change s = do r ← deref p s; assign p (change r) s

pub record Identified : Type 0 where
  pub enumeration : ℕ
  pub globals : Globals

unfoldable pub func_1 : (ch_1_par_val ch_2_par_val : ℕ) → Globals → Identified
func_1 ch_1_par_val ch_2_par_val s =
    if not (ch_1_par_val == ch_2_par_val)
    then record { enumeration = ident_1; globals = s }
    else record { enumeration = ident_2; globals = record s { ch_1_glob = ch_1_par_val } }

abbrev pub func_3 : (enum_par_val : ℕ) → ℕ
func_3 enum_par_val = boolean (enum_par_val == ident_3)

-- What `*Enum_Ref_Par` is set to.
abbrev pub proc_6 : (enum_val_par int_glob : ℕ) → ℕ
proc_6 enum_val_par int_glob =
    let enum_ref = if func_3 enum_val_par == 0 then ident_4 else enum_val_par in
    if enum_val_par == ident_1
    then ident_1
    else if enum_val_par == ident_2
    then (if signed_lt 100 int_glob then ident_1 else ident_4)
    else if enum_val_par == ident_3
    then ident_2
    else if enum_val_par == ident_4
    then enum_ref
    else if enum_val_par == ident_5
    then ident_3
    else enum_ref

-- What `*Int_Par_Ref` is set to.
abbrev pub proc_7 : (int_1_par_val int_2_par_val : ℕ) → ℕ
proc_7 int_1_par_val int_2_par_val =
    let int_loc = u32 (int_1_par_val + 2) in u32 (int_2_par_val + int_loc)

-- `a[i][j] = v`.
unfoldable pub store_cell : (i j v : ℕ) → List (List ℕ) → Option (List (List ℕ))
store_cell i j v a = do row ← get_elem? a i; row' ← store row j v; store a i row'

-- On the two global arrays.
unfoldable pub proc_8 : (int_1_par_val int_2_par_val : ℕ) → Globals → Option Globals
unfolding for
proc_8 int_1_par_val int_2_par_val s = do
  let int_loc = u32 (int_1_par_val + 5)
  a1 ← store s.arr_1_glob int_loc int_2_par_val
  first ← get_elem? a1 int_loc
  a2 ← store a1 (int_loc + 1) first
  a3 ← store a2 (int_loc + 30) int_loc
  b1 ← for 2 int_loc (λ int_index. store_cell int_loc int_index int_loc) s.arr_2_glob
  row ← get_elem? b1 int_loc
  old ← get_elem? row (minus int_loc 1)
  b2 ← store_cell int_loc (minus int_loc 1) (u32 (old + 1)) b1
  last ← get_elem? a3 int_loc
  b3 ← store_cell (int_loc + 20) int_loc last b2
  some (record s { arr_1_glob = a3; arr_2_glob = b3; int_glob = 5 })

-- `Ptr_Ref_Par` points to the `Ptr_Comp` of `*at`.
unfoldable pub proc_3 : (at : Option ℕ) → Globals → Option Globals
proc_3 at s = do
  s1 ← elim s.ptr_glob [
    | none ↦ some s
    | some g ↦ do
      glob ← deref (some g) s
      set_field at (λ r. record r { ptr_comp = glob.ptr_comp }) s
  ]
  set_field s1.ptr_glob (λ r. record r { int_comp = proc_7 10 s1.int_glob }) s1

-- The branches of `proc_1`.
unfoldable pub finish_record : (ptr_val_par next_record : Option ℕ) → Globals → Option Globals
finish_record ptr_val_par next_record s = do
  s1 ← set_field next_record (λ r. record r { int_comp = 6 }) s
  par ← deref ptr_val_par s1
  s2 ← set_field next_record (λ r. record r { enum_comp = proc_6 par.enum_comp s1.int_glob }) s1
  glob ← deref s2.ptr_glob s2
  s3 ← set_field next_record (λ r. record r { ptr_comp = glob.ptr_comp }) s2
  set_field next_record (λ r. record r { int_comp = proc_7 r.int_comp 10 }) s3

unfoldable pub copy_back : (ptr_val_par : Option ℕ) → Globals → Option Globals
copy_back ptr_val_par s = do
  par ← deref ptr_val_par s
  next ← deref par.ptr_comp s
  assign ptr_val_par next s

unfoldable pub proc_1 : (ptr_val_par : Option ℕ) → Globals → Option Globals
unfolding proc_3 finish_record copy_back
proc_1 ptr_val_par s = do
  par ← deref ptr_val_par s
  let next_record = par.ptr_comp
  glob ← deref s.ptr_glob s
  s1 ← assign next_record glob s
  s2 ← set_field ptr_val_par (λ r. record r { int_comp = 5 }) s1
  par2 ← deref ptr_val_par s2
  s3 ← set_field next_record (λ r. record r { int_comp = par2.int_comp }) s2
  par3 ← deref ptr_val_par s3
  s4 ← set_field next_record (λ r. record r { ptr_comp = par3.ptr_comp }) s3
  s5 ← proc_3 next_record s4
  next ← deref next_record s5
  if next.discr == ident_1
      then finish_record ptr_val_par next_record s5
      else copy_back ptr_val_par s5

abbrev pub proc_4 : Globals → Globals
proc_4 s =
    let bool_loc = boolean (s.ch_1_glob == 65) in
    record s { bool_glob = bit_or bool_loc s.bool_glob; ch_2_glob = 66 }

abbrev pub proc_5 : Globals → Globals
proc_5 s = record s { ch_1_glob = 65; bool_glob = 0 }
