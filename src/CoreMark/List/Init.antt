-- ===== src/CoreMark/List/Init.antt =====
-- `core_list_init` of core_list_join.c. The block holds `size` cells and behind them as many data,
-- which are two arrays here. `fuel` bounds the steps along the list, and the passes of the sort.
pub mod Items
pub mod Indices
pub mod Prepared
use rsicv_uvm_test.Base.{
  ℕ, zero, suc, ◌+◌, ◌-◌, ◌/◌, ◌^◌, ltb, if◌then◌else◌, true, false, Option, none, some, List,
  get_elem?, store, ◌>>=◌, for, u16, u32, bit_and, bit_or, bit_xor, ◌<<<◌, ◌>>>◌,
}
use rsicv_uvm_test.CoreMark.List.{Ptr, Cell, set_next, set_info}
use rsicv_uvm_test.CoreMark.List.Items.{
  ListData, copy_info, Blocks, core_list_insert_new, extend16, cmp_idx,
}
use rsicv_uvm_test.CoreMark.List.Sort.{is_null, Sorted, core_list_mergesort}

-- The number of items.
abbrev pub list_size : (blksize : ℕ) → ℕ
list_size blksize = u32 (blksize / (16 + 4) + (2 ^ 32 - 2))

-- The data of the item `i`.
abbrev pub item_data : (seed i : ℕ) → ℕ
item_data seed i =
    let datpat = bit_and (u16 (bit_xor (extend16 seed) i)) 0xf in
    let dat = u16 (bit_or (datpat <<< 3) (bit_and i 0x7)) in u16 (bit_or (dat <<< 8) dat)

-- A round of the loop that inserts items, whose `info.idx` is that of the tail.
unfoldable pub insert_round : (size seed i : ℕ) → Blocks → Option Blocks
insert_round size seed i s = do
  inserted ← core_list_insert_new 0 (record { data16 = item_data seed i; idx = 0x7fff }) size size s
  some inserted.blocks

-- The index of the item that the loop reaches with `i`.
unfoldable pub item_idx : (size seed i : ℕ) → ℕ
item_idx size seed i =
    if ltb i (size / 5)
    then u16 i
    else (let pat = u16 (bit_xor i (extend16 seed)) in
        bit_and 0x3fff (bit_or (bit_and (u32 (i + 1)) 0x07 <<< 8) pat))

-- `while (finder->next!=NULL)`.
unfoldable pub index_loop :
    (fuel size seed i : ℕ) → (finder : Ptr) → List Cell → List ListData → Option (List ListData)
index_loop zero size seed i finder cells datas = none
index_loop (suc fuel) size seed i finder cells datas = do
  f ← finder
  c ← get_elem? cells f
  let rest = (do
    item ← get_elem? datas c.info
    datas' ← store datas c.info (record item { idx = item_idx size seed i })
    index_loop fuel size seed (u32 (i + 1)) c.next cells datas')
  if is_null c.next then some datas else rest

unfoldable pub core_list_init :
    (fuel blksize seed : ℕ) → List Cell → List ListData → Option (Sorted (List ListData))
unfolding for
core_list_init fuel blksize seed cells datas = do
  let size = list_size blksize
  cells1 ← set_next cells 0 none
  cells2 ← set_info cells1 0 0
  datas1 ← copy_info 0 (record { data16 = 0x8080; idx = 0x0000 }) datas
  with_tail ←
      core_list_insert_new 0 (record { data16 = 0xffff; idx = 0x7fff }) size size
        (record { cells = cells2; datas = datas1; memblock = 1; datablock = 1 })
  filled ← for size 0 (insert_round size seed) with_tail.blocks
  head ← get_elem? filled.cells 0
  indexed ← index_loop fuel size seed 1 head.next filled.cells filled.datas
  core_list_mergesort cmp_idx fuel fuel (some 0) filled.cells indexed
