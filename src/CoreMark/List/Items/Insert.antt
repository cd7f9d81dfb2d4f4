-- ===== src/CoreMark/List/Items/Insert.antt =====
-- core_list_insert_new puts an item behind another one, or reports a full block.
use native.Mathlib.Decide.{ℕ_discrete}
use rsicv_uvm_test.Base.{
  ℕ, ◌+◌, ◌≤◌, ◌<◌, ◌≡◌, ◌≢◌, ◌⊎◌, refl, sym, ap, ◌∙◌, arith, false, leb, leb→le, Bool-cases, inl,
  inr, Option, none, some, List, ◌∷◌, length, length-set, set, get_elem?-eq-get_or, get_or,
  get_or-set_self, get_or-set_ne, store_of_lt,
}
use rsicv_uvm_test.CoreMark.List.{Ptr, Cell, set_next, set_info}
use rsicv_uvm_test.CoreMark.List.Reverse.{at, no_cell, IsChain, IsChain-set, IsSimple, Avoids}
use rsicv_uvm_test.CoreMark.List.Items.{ListData, copy_info, Blocks, Inserted, core_list_insert_new}
use rsicv_uvm_test.CoreMark.List.Items.Find.{no_data}

pub record IsInserted (point : ℕ) (xs : List ℕ) (info : ListData) (s s' : Blocks) : Type 0 where
  pub chain : IsChain s'.cells (some point) (point ∷ (s.memblock ∷ xs))
  pub new_info : (at s'.cells s.memblock).info ≡ s.datablock
  pub new_data : get_or s'.datas s.datablock no_data ≡ info
  pub others : (p : ℕ) → p ≢ s.memblock → (at s'.cells p).info ≡ (at s.cells p).info
  pub other_data : (d : ℕ) → d ≢ s.datablock → get_or s'.datas d no_data ≡ get_or s.datas d no_data
  pub same_cells : length s'.cells ≡ length s.cells
  pub same_datas : length s'.datas ≡ length s.datas
  pub next_memblock : s'.memblock ≡ s.memblock + 1
  pub next_datablock : s'.datablock ≡ s.datablock + 1

pub data Inserts (point : ℕ) (xs : List ℕ) (info : ListData) (memblock_end datablock_end : ℕ)
    (s : Blocks) : Option Inserted → Type 0 where
  full :
      (memblock_end ≤ s.memblock + 1) ⊎ (datablock_end ≤ s.datablock + 1)
      → Inserts point xs info memblock_end datablock_end s
          (some (record { newitem = none; blocks = s }))
  inserts :
      (s' : Blocks)
      → s.memblock + 1 < memblock_end
      → s.datablock + 1 < datablock_end
      → IsInserted point xs info s s'
      → Inserts point xs info memblock_end datablock_end s
          (some (record { newitem = some s.memblock; blocks = s' }))

pub set_next_of_lt :
    (cells : List Cell) (p : ℕ) (v : Ptr)
    → p < length cells
    → set_next cells p v ≡ some (set cells p (record { next = v; info = (at cells p).info }))
set_next_of_lt cells p v h = rw (set_next, get_elem?-eq-get_or cells p no_cell h) refl

pub set_info_of_lt :
    (cells : List Cell) (p v : ℕ)
    → p < length cells
    → set_info cells p v ≡ some (set cells p (record { next = (at cells p).next; info = v }))
set_info_of_lt cells p v h = rw (set_info, get_elem?-eq-get_or cells p no_cell h) refl

pub copy_info_of_lt :
    (to : ℕ) (from : ListData) (datas : List ListData)
    → to < length datas
    → copy_info to from datas ≡ some (set datas to from)
copy_info_of_lt to from datas h =
    rw (get_elem?-eq-get_or datas to no_data h) (store_of_lt datas to from h)

-- The cells with a new one linked in.
module _ (cells : List Cell) (point new datablock : ℕ) where
  abbrev linked : List Cell
  linked = set cells new (record { next = (at cells point).next; info = (at cells new).info })

  abbrev pointed : List Cell
  pointed = set linked point (record { next = some new; info = (at linked point).info })

  abbrev filled : List Cell
  filled = set pointed new (record { next = (at pointed new).next; info = datablock })

  length-filled : length filled ≡ length cells
  length-filled = length-set pointed new _ ∙ length-set linked point _ ∙ length-set cells new _

  at-filled-other : (p : ℕ) → p ≢ new → p ≢ point → at filled p ≡ at cells p
  at-filled-other p h k =
      get_or-set_ne pointed new p _ no_cell (λ e. h (sym e))
      ∙ get_or-set_ne linked point p _ no_cell (λ e. k (sym e))
      ∙ get_or-set_ne cells new p _ no_cell (λ e. h (sym e))

  at-filled-point :
      point ≢ new
      → point < length cells
      → at filled point ≡ record { next = some new; info = (at cells point).info }
  at-filled-point h lt =
      get_or-set_ne pointed new point _ no_cell (λ e. h (sym e))
      ∙ get_or-set_self linked point _ no_cell (
          omega (
            arith,
            length-set cells new
                (record { next = (at cells point).next; info = (at cells new).info }),
          ))
      ∙ ap (λ c. record { next = some new; info = c.info })
          (get_or-set_ne cells new point _ no_cell (λ e. h (sym e)))

  at-filled-new :
      point ≢ new
      → new < length cells
      → at filled new ≡ record { next = (at cells point).next; info = datablock }
  at-filled-new h lt =
      get_or-set_self pointed new _ no_cell (
        omega (
          arith,
          length-set pointed new (record { next = (at pointed new).next; info = datablock }),
          length-filled,
        ))
      ∙ ap (λ c. record { next = c.next; info = datablock })
          (get_or-set_ne linked point new _ no_cell h ∙ get_or-set_self cells new _ no_cell lt)

new_blocks : (point : ℕ) (info : ListData) → Blocks → Blocks
new_blocks point info s = record {
  cells = filled s.cells point s.memblock s.datablock;
  datas = set s.datas s.datablock info;
  memblock = s.memblock + 1;
  datablock = s.datablock + 1;
}

insert_steps :
    (point memblock_end datablock_end : ℕ) (info : ListData) (s : Blocks)
    → s.memblock + 1 < memblock_end
    → s.datablock + 1 < datablock_end
    → point < length s.cells
    → s.memblock < length s.cells
    → s.datablock < length s.datas
    → core_list_insert_new point info memblock_end datablock_end s
      ≡ some (record { newitem = some s.memblock; blocks = new_blocks point info s })
unfolding core_list_insert_new new_blocks
insert_steps point memblock_end datablock_end info s room room2 lt new free =
    let here : leb memblock_end (s.memblock + 1) ≡ false = ground (arith, room) in
    let there : leb datablock_end (s.datablock + 1) ≡ false = ground (arith, room2) in
    let cells = s.cells in
    let sizes =
      length-set cells s.memblock
        (record { next = (at cells point).next; info = (at cells s.memblock).info }) in
    let sizes2 = length-set (linked cells point s.memblock s.datablock) point (record {
      next = some s.memblock;
      info = (at (linked cells point s.memblock s.datablock) point).info;
    }) in
    rw
      (
        here,
        there,
        get_elem?-eq-get_or cells point no_cell lt,
        set_next_of_lt cells s.memblock (at cells point).next new,
        set_next_of_lt (linked cells point s.memblock s.datablock) point (some s.memblock)
            (omega arith),
        set_info_of_lt (pointed cells point s.memblock s.datablock) s.memblock s.datablock
            (omega arith),
        copy_info_of_lt s.datablock info s.datas free,
      )
      refl

new_blocks-IsInserted :
    (point : ℕ) (xs : List ℕ) (info : ListData) (s : Blocks)
    → IsChain s.cells (some point) (point ∷ xs)
    → IsSimple (point ∷ xs)
    → Avoids s.memblock (point ∷ xs)
    → s.memblock < length s.cells
    → s.datablock < length s.datas
    → IsInserted point xs info s (new_blocks point info s)
unfolding new_blocks
new_blocks-IsInserted point xs info s chain simple apart new free =
    let cells = s.cells in
    let point_in = chain.1.0 in
    let size = length-filled cells point s.memblock s.datablock in
    let tail =
      IsChain-set (pointed cells point s.memblock s.datablock) s.memblock _ (at cells point).next xs
        apart.1
        (IsChain-set (linked cells point s.memblock s.datablock) point _ (at cells point).next xs
          simple.0 (IsChain-set cells s.memblock _ (at cells point).next xs apart.1 chain.1.1)) in
    record {
      chain = (
        refl,
        (
          omega (arith, size, chain.1.0),
          rw (at-filled-point cells point s.memblock s.datablock apart.0 chain.1.0) (
            refl,
            (
              omega (arith, size),
              rw (at-filled-new cells point s.memblock s.datablock apart.0 new) tail,
            ),
          ),
        ),
      );
      new_info = ap (λ c. c.info) (at-filled-new cells point s.memblock s.datablock apart.0 new);
      new_data = get_or-set_self s.datas s.datablock info no_data free;
      others = λ p h. elim (ℕ_discrete p point) [
        | yes e ↦ rw e (
            ap (λ c. c.info) (at-filled-point cells point s.memblock s.datablock apart.0 chain.1.0))
        | no ne ↦ ap (λ c. c.info) (at-filled-other cells point s.memblock s.datablock p h ne)
      ];
      other_data = λ d h. get_or-set_ne s.datas s.datablock d info no_data (λ e. h (sym e));
      same_cells = size;
      same_datas = length-set s.datas s.datablock info;
      next_memblock = refl;
      next_datablock = refl;
    }

-- For an insert point at the head of a list without a cycle, free places that the list does not use, and
-- ends inside their blocks, core_list_insert_new returns. If another place after the free one is not left
-- in both blocks, it gives null and changes nothing. Otherwise it gives the free cell, which is then
-- linked between the insert point and its old successors and has a copy of the data; no other cell has
-- other data than before, and both free places move on by one.
pub core_list_insert_new-Inserts :
    (point memblock_end datablock_end : ℕ) (xs : List ℕ) (info : ListData) (s : Blocks)
    → IsChain s.cells (some point) (point ∷ xs)
    → IsSimple (point ∷ xs)
    → Avoids s.memblock (point ∷ xs)
    → memblock_end ≤ length s.cells
    → datablock_end ≤ length s.datas
    → Inserts point xs info memblock_end datablock_end s
        (core_list_insert_new point info memblock_end datablock_end s)
unfolding core_list_insert_new
core_list_insert_new-Inserts point memblock_end datablock_end xs info s chain simple apart fits
      fits2 =
    elim (Bool-cases (leb memblock_end (s.memblock + 1))) [
      | inl none_left ↦
          rw (core_list_insert_new, none_left)
            (full (inl (leb→le memblock_end (s.memblock + 1) none_left)))
      | inr room ↦ elim (Bool-cases (leb datablock_end (s.datablock + 1))) [
        | inl none_left ↦
            rw (core_list_insert_new, room, none_left)
              (full (inr (leb→le datablock_end (s.datablock + 1) none_left)))
        | inr room2 ↦
            let more : s.memblock + 1 < memblock_end = ground (arith, room) in
            let more2 : s.datablock + 1 < datablock_end = ground (arith, room2) in
            rw
              (insert_steps point memblock_end datablock_end info s more more2 chain.1.0
                (omega arith) (omega arith))
              (inserts (new_blocks point info s) more more2 (
                new_blocks-IsInserted point xs info s chain simple apart (omega arith)
                  (omega arith)))
      ]
    ]
