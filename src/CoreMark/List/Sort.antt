-- ===== src/CoreMark/List/Sort.antt =====
-- core_list_mergesort of core_list_join.c. The comparison takes the `info` pointers of two cells and what it
-- may change. `psize`, `qsize` and `nmerges` never pass the length of the list.
pub mod Reference
pub mod Links
pub mod Merge
pub mod Loop
pub mod Blocks
pub mod Pass
pub mod Double
pub mod Close
pub mod Result
pub mod Index
use rsicv_uvm_test.Base.{
  ℕ, zero, suc, ◌+◌, ◌-◌, ◌*◌, ltb, leb, ◌==◌, if◌then◌else◌, Bool, true, false, ◌||◌, ◌&&◌, Option,
  none, some, List, get_elem?, ◌>>=◌, u32,
}
use rsicv_uvm_test.CoreMark.List.{Ptr, Cell, set_next}
use rsicv_uvm_test.CoreMark.List.Items.{Compared}

abbrev pub is_null : Ptr → Bool
is_null none = true
is_null (some p) = false

-- The variables of one merge.
pub record Merging (D : Type 0) : Type 0 where
  pub list : Ptr
  pub tail : Ptr
  pub p : Ptr
  pub q : Ptr
  pub psize : ℕ
  pub qsize : ℕ
  pub cells : List Cell
  pub datas : D

-- `if (tail) tail->next = e; else list = e; tail = e;`.
abbrev pub append : {D : Type 0} → (e : ℕ) → Merging D → Option (Merging D)
append e s = elim s.tail [
  | none ↦ some (record s { list = some e; tail = some e })
  | some t ↦ (do
    cells ← set_next s.cells t (some e)
    some (record s { tail = some e; cells = cells }))
]

abbrev pub from_p : {D : Type 0} → Merging D → Option (Merging D)
from_p s = do
  e ← s.p
  c ← get_elem? s.cells e
  append e (record s { p = c.next; psize = s.psize - 1 })

abbrev pub from_q : {D : Type 0} → Merging D → Option (Merging D)
from_q s = do
  e ← s.q
  c ← get_elem? s.cells e
  append e (record s { q = c.next; qsize = s.qsize - 1 })

module _ {D : Type 0} (cmp : (a b : ℕ) → D → Option (Compared D)) where
  abbrev pub by_comparison : Merging D → Option (Merging D)
  by_comparison s = do
    p ← s.p
    x ← get_elem? s.cells p
    q ← s.q
    y ← get_elem? s.cells q
    compared ← cmp x.info y.info s.datas
    let s' = record s { datas = compared.datas }
    if compared.at_most then from_p s' else from_q s'

  -- A round of the loop that merges.
  unfoldable pub merge_step : Merging D → Option (Merging D)
  merge_step s =
      if s.psize == 0
      then from_q s
      else if s.qsize == 0 || is_null s.q
      then from_p s
      else by_comparison s

  unfoldable pub merge_loop : (fuel : ℕ) → Merging D → Option (Merging D)
  unfolding merge_step
  merge_loop zero s = none
  merge_loop (suc fuel) s =
      let rest = merge_step s >>= merge_loop fuel in
      if ltb 0 s.psize || (ltb 0 s.qsize && (if is_null s.q then false else true))
      then rest
      else some s

-- `for (i = 0; i < insize; i++) { psize++; q = q->next; if (!q) break; }`: q and psize.
pub record Stepped : Type 0 where
  pub q : Ptr
  pub psize : ℕ

abbrev pub step_along : (left : ℕ) → (q : Ptr) → (psize : ℕ) → List Cell → Option Stepped
step_along zero q psize cells = some (record { q = q; psize = psize })
step_along (suc left) q psize cells = do
  i ← q
  c ← get_elem? cells i
  let rest = step_along left c.next (psize + 1) cells
  if is_null c.next then some (record { q = none; psize = psize + 1 }) else rest

-- The variables of one pass.
pub record Passing (D : Type 0) : Type 0 where
  pub list : Ptr
  pub tail : Ptr
  pub p : Ptr
  pub nmerges : ℕ
  pub cells : List Cell
  pub datas : D

-- What the sort leaves.
pub record Sorted (D : Type 0) : Type 0 where
  pub list : Ptr
  pub cells : List Cell
  pub datas : D

module _ {D : Type 0} (cmp : (a b : ℕ) → D → Option (Compared D)) where
  -- A round of `while (p) { ... }`; `fuel` bounds the rounds of the merge.
  unfoldable pub one_merge : (fuel insize : ℕ) → Passing D → Option (Passing D)
  unfolding merge_loop
  one_merge fuel insize s = do
    stepped ← step_along insize s.p 0 s.cells
    merged ← merge_loop cmp fuel (record {
      list = s.list;
      tail = s.tail;
      p = s.p;
      q = stepped.q;
      psize = stepped.psize;
      qsize = insize;
      cells = s.cells;
      datas = s.datas;
    })
    some (record {
      list = merged.list;
      tail = merged.tail;
      p = merged.q;
      nmerges = s.nmerges + 1;
      cells = merged.cells;
      datas = merged.datas;
    })

  unfoldable pub pass_loop : (fuel insize : ℕ) → Passing D → Option (Passing D)
  unfolding one_merge
  pass_loop zero insize s = none
  pass_loop (suc fuel) insize s =
      let rest = one_merge (suc fuel) insize s >>= pass_loop fuel insize in
      if is_null s.p then some s else rest

  -- `while (1) { ... }`.
  unfoldable pub sort_loop :
      (rounds fuel insize : ℕ) → (list : Ptr) → List Cell → D → Option (Sorted D)
  unfolding pass_loop
  sort_loop zero fuel insize list cells datas = none
  sort_loop (suc rounds) fuel insize list cells datas = do
    passed ←
        pass_loop fuel insize
          (record { list = none; tail = none; p = list; nmerges = 0; cells = cells; datas = datas })
    t ← passed.tail
    cells' ← set_next passed.cells t none
    let again = sort_loop rounds fuel (u32 (insize * 2)) passed.list cells' passed.datas
    if leb passed.nmerges 1
        then some (record { list = passed.list; cells = cells'; datas = passed.datas })
        else again

  unfoldable pub core_list_mergesort :
      (rounds fuel : ℕ) → (list : Ptr) → List Cell → D → Option (Sorted D)
  unfolding sort_loop
  core_list_mergesort rounds fuel list cells datas = sort_loop rounds fuel 1 list cells datas
