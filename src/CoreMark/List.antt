-- ===== src/CoreMark/List.antt =====
-- The linked list of CoreMark: core_list_join.c. The cells stand in one block, a `list_head*` is null
-- or an index there, and an `info` pointer is an index of the block of data.
pub mod Undo
pub mod Reverse
pub mod Items
pub mod Sort
pub mod Init
pub mod Bench
use rsicv_uvm_test.Base.{ℕ, zero, suc, Option, none, some, List, get_elem?, set, length, ◌>>=◌}

abbrev pub Ptr : Type 0
Ptr = Option ℕ

pub record Cell : Type 0 where
  pub next : Ptr
  pub info : ℕ

-- What a function returns that gives back a cell and has changed the block.
pub record Returned : Type 0 where
  pub cell : Ptr
  pub cells : List Cell

-- `p->next = v` and `p->info = v`.
abbrev pub set_next : List Cell → ℕ → Ptr → Option (List Cell)
set_next cells p v = elim (get_elem? cells p) [
  | none ↦ none
  | some c ↦ some (set cells p (record { next = v; info = c.info }))
]

abbrev pub set_info : List Cell → ℕ → ℕ → Option (List Cell)
set_info cells p v = elim (get_elem? cells p) [
  | none ↦ none
  | some c ↦ some (set cells p (record { next = c.next; info = v }))
]

-- The loop of `core_list_reverse`.
unfoldable pub reverse_from : (fuel : ℕ) → (list next : Ptr) → List Cell → Option Returned
reverse_from zero list next cells = none
reverse_from (suc fuel) none next cells = some (record { cell = next; cells = cells })
reverse_from (suc fuel) (some p) next cells = elim (get_elem? cells p) [
  | none ↦ none
  | some c ↦ reverse_from fuel c.next (some p) (set cells p (record { next = next; info = c.info }))
]

-- `fuel` bounds the steps along the list.
unfoldable pub core_list_reverse : (fuel : ℕ) → (list : Ptr) → List Cell → Option Returned
unfolding reverse_from
core_list_reverse fuel list cells = reverse_from fuel list none cells

-- Behind the two reads: the exchange of the data and the unlinking.
unfoldable pub core_list_remove : (item : ℕ) → List Cell → Option Returned
core_list_remove item cells = do
  i ← get_elem? cells item
  ret ← i.next
  r ← get_elem? cells ret
  cells1 ← set_info cells item r.info
  cells2 ← set_info cells1 ret i.info
  i2 ← get_elem? cells2 item
  second ← i2.next
  s ← get_elem? cells2 second
  cells3 ← set_next cells2 item s.next
  cells4 ← set_next cells3 ret none
  some (record { cell = some ret; cells = cells4 })

unfoldable pub core_list_undo_remove :
    (item_removed item_modified : ℕ) → List Cell → Option Returned
core_list_undo_remove item_removed item_modified cells = do
  removed ← get_elem? cells item_removed
  modified ← get_elem? cells item_modified
  cells1 ← set_info cells item_removed modified.info
  cells2 ← set_info cells1 item_modified removed.info
  m ← get_elem? cells2 item_modified
  cells3 ← set_next cells2 item_removed m.next
  cells4 ← set_next cells3 item_modified (some item_removed)
  some (record { cell = some item_removed; cells = cells4 })
