-- ===== src/CoreMark/List/Undo.antt =====
-- `core_list_undo_remove` undoes `core_list_remove`.
use native.Mathlib.Decide.{ℕ_discrete}
use rsicv_uvm_test.Base.{
  ℕ, ◌<◌, ◌≡◌, ◌≢◌, refl, sym, ap, ◌∙◌, arith, Option, none, some, List, length, length-set,
  get_elem?, get_elem?-eq-get_or, get_or_ext, set-set, get_or-set_self, get_or-set_ne, set,
}
use rsicv_uvm_test.CoreMark.List.{
  ◌>>=◌, Ptr, Cell, Returned, core_list_remove, core_list_undo_remove, set_next, set_info,
}
use rsicv_uvm_test.CoreMark.List.Reverse.{at, no_cell}

get-set_self :
    (cells : List Cell) (p : ℕ) (c : Cell) → p < length cells → get_elem? (set cells p c) p ≡ some c
get-set_self cells p c h =
    get_elem?-eq-get_or (set cells p c) p no_cell (omega (arith, length-set cells p c))
    ∙ ap some (get_or-set_self cells p c no_cell h)

get-set_ne :
    (cells : List Cell) (p q : ℕ) (c : Cell)
    → p ≢ q
    → q < length cells
    → get_elem? (set cells p c) q ≡ some (at cells q)
get-set_ne cells p q c ne h =
    get_elem?-eq-get_or (set cells p c) q no_cell (omega (arith, length-set cells p c))
    ∙ ap some (get_or-set_ne cells p q c no_cell ne)

module _ (cells : List Cell) (item ret : ℕ) (inside : item < length cells)
    (inside' : ret < length cells) (ne : item ≢ ret) (next : (at cells item).next ≡ some ret) where
  abbrev i : Cell
  i = at cells item

  abbrev r : Cell
  r = at cells ret

  -- A block in which only the two cells have changed.
  abbrev both : (a b : Cell) → List Cell
  both a b = set (set cells item a) ret b

  both-at_ret : (a b : Cell) → at (both a b) ret ≡ b
  both-at_ret a b =
      get_or-set_self (set cells item a) ret b no_cell (omega (arith, length-set cells item a))

  both-at_item : (a b : Cell) → at (both a b) item ≡ a
  both-at_item a b =
      get_or-set_ne (set cells item a) ret item b no_cell (λ e. ne (sym e))
      ∙ get_or-set_self cells item a no_cell inside

  both-at_other : (a b : Cell) (q : ℕ) → item ≢ q → ret ≢ q → at (both a b) q ≡ at cells q
  both-at_other a b q n m =
      get_or-set_ne (set cells item a) ret q b no_cell m ∙ get_or-set_ne cells item q a no_cell n

  length-both : (a b : Cell) → length (both a b) ≡ length cells
  length-both a b = length-set (set cells item a) ret b ∙ length-set cells item a

  at_item : (a b : Cell) → get_elem? (both a b) item ≡ some a
  at_item a b =
      get-set_ne (set cells item a) ret item b (λ e. ne (sym e))
        (omega (arith, length-set cells item a))
      ∙ ap some (get_or-set_self cells item a no_cell inside)

  at_ret : (a b : Cell) → get_elem? (both a b) ret ≡ some b
  at_ret a b = get-set_self (set cells item a) ret b (omega (arith, length-set cells item a))

  set_item : (a b c : Cell) → set (both a b) item c ≡ both c b
  set_item a b c =
      get_or_ext no_cell (set (both a b) item c) (both c b)
        (length-set (both a b) item c ∙ length-both a b ∙ sym (length-both c b))
        (λ q. elim (ℕ_discrete item q) [
          | yes e ↦ rw (← e) (
              get_or-set_self (both a b) item c no_cell (omega (arith, length-both a b))
              ∙ sym (both-at_item c b))
          | no n ↦ get_or-set_ne (both a b) item q c no_cell n ∙ elim (ℕ_discrete ret q) [
            | yes e ↦ rw (← e) (both-at_ret a b ∙ sym (both-at_ret c b))
            | no m ↦ both-at_other a b q n m ∙ sym (both-at_other c b q n m)
          ]
        ])

  set_ret : (a b c : Cell) → set (both a b) ret c ≡ both a c
  set_ret a b c = set-set (set cells item a) ret b c

  unchanged : both i r ≡ cells
  unchanged = get_or_ext no_cell (both i r) cells (length-both i r) (λ q. elim (ℕ_discrete item q) [
    | yes e ↦ rw (← e) (both-at_item i r)
    | no n ↦ elim (ℕ_discrete ret q) [
      | yes e ↦ rw (← e) (both-at_ret i r)
      | no m ↦ both-at_other i r q n m
    ]
  ])

  info_item :
      (a b : Cell) (v : ℕ)
      → set_info (both a b) item v ≡ some (both (record { next = a.next; info = v }) b)
  info_item a b v =
      rw (set_info, at_item a b) (ap some (set_item a b (record { next = a.next; info = v })))

  info_ret :
      (a b : Cell) (v : ℕ)
      → set_info (both a b) ret v ≡ some (both a (record { next = b.next; info = v }))
  info_ret a b v =
      rw (set_info, at_ret a b) (ap some (set_ret a b (record { next = b.next; info = v })))

  next_item :
      (a b : Cell) (v : Ptr)
      → set_next (both a b) item v ≡ some (both (record { next = v; info = a.info }) b)
  next_item a b v =
      rw (set_next, at_item a b) (ap some (set_item a b (record { next = v; info = a.info })))

  next_ret :
      (a b : Cell) (v : Ptr)
      → set_next (both a b) ret v ≡ some (both a (record { next = v; info = b.info }))
  next_ret a b v =
      rw (set_next, at_ret a b) (ap some (set_ret a b (record { next = v; info = b.info })))

  remove_lem :
      (x : ℕ) (b : Cell)
      → core_list_remove item (both (record { next = some ret; info = x }) b)
        ≡ some (record { cell = some ret; cells = both b (record { next = none; info = x }) })
  unfolding core_list_remove
  remove_lem x b =
      let start : Cell = record { next = some ret; info = x } in
      let one : Cell = record { next = some ret; info = b.info } in
      let two_cell : Cell = record { next = b.next; info = x } in
      simp
        (
          core_list_remove,
          ◌>>=◌,
          at_item start b,
          at_ret start b,
          info_item start b b.info,
          info_ret one b x,
          at_item one two_cell,
          at_ret one two_cell,
          next_item one two_cell b.next,
          next_ret (record { next = b.next; info = b.info }) two_cell none,
        )
        refl

  undo_lem :
      (m n : Cell)
      → core_list_undo_remove ret item (both m n)
        ≡ some (record {
          cell = some ret;
          cells =
              both
                (record { next = some ret; info = n.info })
                (record { next = m.next; info = m.info });
        })
  unfolding core_list_undo_remove
  undo_lem m n =
      let one : Cell = record { next = n.next; info = m.info } in
      let two_cell : Cell = record { next = m.next; info = n.info } in
      simp
        (
          core_list_undo_remove,
          ◌>>=◌,
          at_ret m n,
          at_item m n,
          info_ret m n m.info,
          info_item m one n.info,
          at_item two_cell one,
          next_ret two_cell one m.next,
          next_item two_cell (record { next = m.next; info = m.info }) (some ret),
        )
        refl

  whole : both (record { next = some ret; info = i.info }) r ≡ cells
  whole = ap (λ (p : Ptr). both (record { next = p; info = i.info }) r) (sym next) ∙ unchanged

  -- For an item of the block with another cell of the block behind it, `core_list_remove` returns,
  -- and `core_list_undo_remove` of that cell and the item gives back the block as it was.
  pub remove_undo :
      core_list_remove item cells >>= (λ (t : Returned). core_list_undo_remove ret item t.cells)
      ≡ some (record { cell = some ret; cells = cells })
  remove_undo =
      ap (λ (o : Option Returned). o >>= (λ (t : Returned). core_list_undo_remove ret item t.cells))
        (ap (core_list_remove item) (sym whole) ∙ remove_lem i.info r)
      ∙ undo_lem r (record { next = none; info = i.info })
      ∙ ap (λ (l : List Cell). some (record { cell = some ret; cells = l })) whole
