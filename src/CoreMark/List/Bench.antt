-- ===== src/CoreMark/List/Bench.antt =====
-- The benchmark of core_list_join.c: calc_func, cmp_complex, core_bench_list and core_list_init,
-- with core_results of coremark.h. A 16-bit value with a sign is its bit pattern. `fuel` bounds the
-- steps along the list, and the passes of a sort.
pub mod Cache
use rsicv_uvm_test.Base.{
  ℕ, zero, suc, ◌+◌, ◌-◌, ◌*◌, ◌/◌, ◌^◌, ltb, leb, ◌==◌, if◌then◌else◌, Bool, true, false, not,
  ◌||◌, ◌&&◌, Option, none, some, List, get_elem?, set, store, ◌>>=◌, for, u16, u32, bit_and,
  bit_or, bit_xor, ◌<<<◌, ◌>>>◌,
}
use rsicv_uvm_test.CoreMark.Crc.{crcu16, crc16}
use rsicv_uvm_test.CoreMark.State.Bench.{core_bench_state}
use rsicv_uvm_test.CoreMark.Matrix.{core_bench_matrix}
use rsicv_uvm_test.CoreMark.Matrix.Init.{MatParams}
use rsicv_uvm_test.CoreMark.List.{
  Ptr, Cell, set_next, core_list_reverse, core_list_remove, core_list_undo_remove,
}
use rsicv_uvm_test.CoreMark.List.Items.{
  ListData, core_list_find, Blocks, core_list_insert_new, Compared, cmp_idx,
}
use rsicv_uvm_test.CoreMark.List.Sort.{is_null, core_list_mergesort}

-- `core_results`, with the contents of the blocks that its pointers lead to: the cells and the data
-- of the list, the third matrix, and `memblock[3]`.
pub record CoreResults : Type 0 where
  pub seed1 : ℕ
  pub seed2 : ℕ
  pub seed3 : ℕ
  pub state_block : List ℕ
  pub size : ℕ
  pub iterations : ℕ
  pub execs : ℕ
  pub list : Ptr
  pub cells : List Cell
  pub datas : List ListData
  pub mat : MatParams
  pub mat_c : List ℕ
  pub crc : ℕ
  pub crclist : ℕ
  pub crcmatrix : ℕ
  pub crcstate : ℕ
  pub err : ℕ

-- The result of an operation on one value, before it is reduced to 7 bits.
pub record Calculated : Type 0 where
  pub retval : ℕ
  pub results : CoreResults

abbrev pub first_of : (old new : ℕ) → ℕ
first_of old new = if old == 0 then new else old

-- `case 0` and `case 1` of the switch.
unfoldable pub by_state : (dtype : ℕ) → CoreResults → Option Calculated
by_state dtype res = do
  benched ←
      core_bench_state res.size res.state_block res.seed1 res.seed2
        (if ltb dtype 0x22 then 0x22 else dtype) res.crc
  some (record {
    retval = benched.crc;
    results = record res {
      state_block = benched.memblock;
      crcstate = first_of res.crcstate benched.crc;
    };
  })

unfoldable pub by_matrix : (dtype : ℕ) → CoreResults → Option Calculated
by_matrix dtype res = do
  tested ← core_bench_matrix res.mat.n res.mat_c res.mat.a res.mat.b dtype res.crc
  some (record {
    retval = tested.crc;
    results = record res {
      mat = record res.mat { a = tested.a };
      mat_c = tested.c;
      crcmatrix = first_of res.crcmatrix tested.crc;
    };
  })

-- What `calc_func` returns, and what `*pdata` is then.
pub record Returned : Type 0 where
  pub retval : ℕ
  pub data16 : ℕ
  pub results : CoreResults

unfoldable pub calc_func : (value : ℕ) → CoreResults → Option Returned
calc_func value res =
    let flag = bit_and value 0x7 in
    let low = bit_and (value >>> 3) 0xf in
    let dtype = bit_or low (low <<< 4) in
    let calculated =
      if flag == 0
      then by_state dtype res
      else if flag == 1
      then by_matrix dtype res
      else some (record { retval = value; results = res }) in
    let fresh = (do
      c ← calculated
      let retval = bit_and c.retval 0x007f
      some (record {
        retval = retval;
        data16 = bit_or (bit_or (bit_and value 0xff00) 0x0080) retval;
        results = record c.results { crc = crcu16 c.retval c.results.crc };
      })) in
    if bit_and (value >>> 7) 1 == 0
    then fresh
    else some (record { retval = bit_and value 0x007f; data16 = value; results = res })

-- `calc_func(&(a->data16), res)`.
unfoldable pub calc_item : (a : ℕ) → CoreResults → Option Calculated
calc_item a res = do
  x ← get_elem? res.datas a
  called ← calc_func x.data16 res
  datas ← store called.results.datas a (record x { data16 = called.data16 })
  some (record { retval = called.retval; results = record called.results { datas = datas } })

unfoldable pub cmp_complex : (a b : ℕ) → CoreResults → Option (Compared CoreResults)
cmp_complex a b res = do
  val1 ← calc_item a res
  val2 ← calc_item b val1.results
  let difference = u32 (val1.retval + (2 ^ 32 - val2.retval))
  some (record { at_most = difference == 0 || leb (2 ^ 31) difference; datas = val2.results })

-- The variables of the loop that finds values.
pub record Finding : Type 0 where
  pub list : Ptr
  pub cells : List Cell
  pub info : ListData
  pub retval : ℕ
  pub found : ℕ
  pub missed : ℕ

-- `p->info->data16` and `p->next`.
abbrev pub data_at : Ptr → List Cell → List ListData → Option ℕ
data_at p cells datas = do
  i ← p
  c ← get_elem? cells i
  item ← get_elem? datas c.info
  some item.data16

abbrev pub next_at : Ptr → List Cell → Option Ptr
next_at p cells = do i ← p; c ← get_elem? cells i; some c.next

-- `this_find->next = finder->next; finder->next = list->next; list->next = finder;`.
unfoldable pub cache_next : (this_find : ℕ) → (list : Ptr) → List Cell → Option (List Cell)
cache_next this_find list cells = do
  t ← get_elem? cells this_find
  let moved = (do
    finder ← t.next
    f ← get_elem? cells finder
    cells1 ← set_next cells this_find f.next
    head ← list
    h ← get_elem? cells1 head
    cells2 ← set_next cells1 finder h.next
    set_next cells2 head (some finder))
  if is_null t.next then some cells else moved

unfoldable pub find_round : (fuel : ℕ) → List ListData → (i : ℕ) → Finding → Option Finding
find_round fuel datas i s = do
  let info = record s.info { data16 = bit_and i 0xff }
  this_find ← core_list_find fuel s.list info s.cells datas
  reversed ← core_list_reverse fuel s.list s.cells
  let list = reversed.cell
  let info' = if ltb info.idx (2 ^ 15) then record info { idx = u16 (info.idx + 1) } else info
  elim this_find [
    | none ↦ (do
      second ← next_at list reversed.cells
      value ← data_at second reversed.cells datas
      some (record {
        list = list;
        cells = reversed.cells;
        info = info';
        retval = u16 (s.retval + bit_and (value >>> 8) 1);
        found = s.found;
        missed = u16 (s.missed + 1);
      }))
    | some t ↦ (do
      value ← data_at (some t) reversed.cells datas
      cells ← cache_next t list reversed.cells
      some (record {
        list = list;
        cells = cells;
        info = info';
        retval =
            if bit_and value 1 == 0 then s.retval else u16 (s.retval + bit_and (value >>> 9) 1);
        found = u16 (s.found + 1);
        missed = s.missed;
      }))
  ]

-- `while (finder) { retval=crc16(list->info->data16,retval); finder=finder->next; }`.
unfoldable pub crc_list :
    (fuel : ℕ) → (finder list : Ptr) → List Cell → List ListData → (retval : ℕ) → Option ℕ
crc_list zero finder list cells datas retval = none
crc_list (suc fuel) none list cells datas retval = some retval
crc_list (suc fuel) (some p) list cells datas retval = do
  value ← data_at list cells datas
  c ← get_elem? cells p
  crc_list fuel c.next list cells datas (crc16 value retval)

-- `unset` is what `info.data16` holds before its first assignment.
unfoldable pub core_bench_list : (fuel unset finder_idx : ℕ) → CoreResults → Option Calculated
unfolding for
core_bench_list fuel unset finder_idx res = do
  found ←
      for (if ltb res.seed3 (2 ^ 15) then res.seed3 else 0) 0 (find_round fuel res.datas) (record {
        list = res.list;
        cells = res.cells;
        info = record { data16 = unset; idx = finder_idx };
        retval = 0;
        found = 0;
        missed = 0;
      })
  let retval = u16 (found.retval + u16 (found.found * 4 + (2 ^ 16 - found.missed)))
  sorted ←
      if ltb 0 finder_idx && ltb finder_idx (2 ^ 15)
      then core_list_mergesort cmp_complex fuel fuel found.list found.cells res
      else some (record { list = found.list; cells = found.cells; datas = res })
  let res1 = sorted.datas
  second ← next_at sorted.list sorted.cells
  item ← second
  removed ← core_list_remove item sorted.cells
  remover ← removed.cell
  finder ← core_list_find fuel sorted.list found.info removed.cells res1.datas
  after ← next_at sorted.list removed.cells
  retval1 ←
      crc_list fuel (if is_null finder then after else finder) sorted.list removed.cells res1.datas
        retval
  modified ← after
  restored ← core_list_undo_remove remover modified removed.cells
  by_index ← core_list_mergesort cmp_idx fuel fuel sorted.list restored.cells res1.datas
  second' ← next_at by_index.list by_index.cells
  retval2 ← crc_list fuel second' by_index.list by_index.cells by_index.datas retval1
  some (record {
    retval = retval2;
    results = record res1 { cells = by_index.cells; datas = by_index.datas };
  })
