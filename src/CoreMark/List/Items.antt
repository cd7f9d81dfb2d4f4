-- ===== src/CoreMark/List/Items.antt =====
-- The data of the list of CoreMark, and the operations that read and add items: list_data of
-- coremark.h, and core_list_find, core_list_insert_new, copy_info and cmp_idx of core_list_join.c.
pub mod Find
pub mod Insert
use rsicv_uvm_test.Base.{
  ℕ, zero, suc, ◌+◌, ◌-◌, ◌^◌, ◌≤◌, ltb, leb, ◌==◌, if◌then◌else◌, Bool, true, false, not, ◌||◌,
  Option, none, some, List, get_elem?, set, store, ◌>>=◌, u32, bit_and, bit_or, ◌>>>◌,
}
use rsicv_uvm_test.CoreMark.List.{Ptr, Cell, set_next, set_info}

-- The two 16-bit patterns of a `list_data`.
pub record ListData : Type 0 where
  pub data16 : ℕ
  pub idx : ℕ

-- Whether an item is the one that `core_list_find` looks for.
abbrev pub is_wanted : (info item : ListData) → Bool
is_wanted info item =
    if ltb info.idx (2 ^ 15) then item.idx == info.idx else bit_and item.data16 0xff == info.data16

-- `fuel` bounds the steps along the list.
unfoldable pub core_list_find :
    (fuel : ℕ) → (list : Ptr) → (info : ListData) → List Cell → (datas : List ListData) → Option Ptr
core_list_find zero list info cells datas = none
core_list_find (suc fuel) none info cells datas = some none
core_list_find (suc fuel) (some p) info cells datas = do
  c ← get_elem? cells p
  item ← get_elem? datas c.info
  let rest = core_list_find fuel c.next info cells datas
  if is_wanted info item then some (some p) else rest

-- `copy_info`.
abbrev pub copy_info : (to : ℕ) → (from : ListData) → List ListData → Option (List ListData)
copy_info to from datas = do
  d ← get_elem? datas to
  store datas to (record { data16 = from.data16; idx = from.idx })

-- The blocks, and the first free place of each.
pub record Blocks : Type 0 where
  pub cells : List Cell
  pub datas : List ListData
  pub memblock : ℕ
  pub datablock : ℕ

pub record Inserted : Type 0 where
  pub newitem : Ptr
  pub blocks : Blocks

unfoldable pub core_list_insert_new :
    (insert_point : ℕ)
    → (info : ListData) → (memblock_end datablock_end : ℕ) → Blocks
    → Option Inserted
core_list_insert_new insert_point info memblock_end datablock_end s =
    let new = (do
      point ← get_elem? s.cells insert_point
      cells1 ← set_next s.cells s.memblock point.next
      cells2 ← set_next cells1 insert_point (some s.memblock)
      cells3 ← set_info cells2 s.memblock s.datablock
      datas ← copy_info s.datablock info s.datas
      some (record {
        newitem = some s.memblock;
        blocks = record {
          cells = cells3;
          datas = datas;
          memblock = s.memblock + 1;
          datablock = s.datablock + 1;
        };
      })) in
    if leb memblock_end (s.memblock + 1)
    then some (record { newitem = none; blocks = s })
    else if leb datablock_end (s.datablock + 1)
    then some (record { newitem = none; blocks = s })
    else new

-- `(x & 0xff00) | (0x00ff & (x >> 8))` on a 16-bit pattern.
abbrev pub regenerated : ℕ → ℕ
regenerated x = bit_or (bit_and x 0xff00) (bit_and 0x00ff (x >>> 8))

abbrev pub extend16 : ℕ → ℕ
extend16 x = if ltb x (2 ^ 15) then x else x + (2 ^ 32 - 2 ^ 16)

-- What a comparison of two items leaves: the test `<= 0` of its result, and the data that it may change.
pub record Compared (D : Type 0) : Type 0 where
  pub at_most : Bool
  pub datas : D

-- `cmp_idx(a, b, NULL)`.
unfoldable pub cmp_idx : (a b : ℕ) → List ListData → Option (Compared (List ListData))
cmp_idx a b datas = do
  x ← get_elem? datas a
  datas1 ← store datas a (record x { data16 = regenerated x.data16 })
  y ← get_elem? datas1 b
  datas2 ← store datas1 b (record y { data16 = regenerated y.data16 })
  x2 ← get_elem? datas2 a
  y2 ← get_elem? datas2 b
  let difference = u32 (extend16 x2.idx + (2 ^ 32 - extend16 y2.idx))
  some (record { at_most = difference == 0 || leb (2 ^ 31) difference; datas = datas2 })
