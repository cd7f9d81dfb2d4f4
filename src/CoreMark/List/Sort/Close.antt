-- ===== src/CoreMark/List/Sort/Close.antt =====
-- `tail->next = NULL` behind a pass of core_list_mergesort.
use rsicv_uvm_test.Base.{
  count, count-append, count_self, ℕ, ◌≤◌, ◌≡◌, refl, ap, arith, none, some, List, [], ◌∷◌, ◌++◌,
  length, length-set, set, get_elem?-eq-get_or, get_or-set_self,
}
use rsicv_uvm_test.CoreMark.List.{Ptr, Cell, set_next}
use rsicv_uvm_test.CoreMark.List.Reverse.{at, no_cell}
use rsicv_uvm_test.CoreMark.List.Sort.Links.{Linked, Linked-set, Linked-extend, Out, info_kept}

pub record IsClosed (cells : List Cell) (list tail : Ptr) (out : List ℕ) : Type 0 where
  pub t : ℕ
  pub is_tail : tail ≡ some t
  pub cells' : List Cell
  pub written : set_next cells t none ≡ some cells'
  pub links : Linked cells' list out none
  pub same_length : length cells' ≡ length cells
  pub same_info : (x : ℕ) → (at cells' x).info ≡ (at cells x).info

pub Out-IsClosed :
    (cells : List Cell) (list tail : Ptr) (out : List ℕ)
    → Out cells list tail out
    → 1 ≤ length out
    → ((x : ℕ) → count x out ≤ 1)
    → IsClosed cells list tail out
Out-IsClosed cells list none out h some_cell once = absurd (omega (arith, ap length h.1))
Out-IsClosed cells list (some t) out (before, (shape, (links, inside))) some_cell once =
    let cell : Cell = record { next = none; info = (at cells t).info } in
    let size = length-set cells t cell in
    let here = get_or-set_self cells t cell no_cell inside in
    let alone : count t before ≡ 0 =
      omega (arith, once t, ap (count t) shape, count-append t before (t ∷ []), count_self t) in
    let shorter = Linked-set cells t cell list before (some t) alone links in
    let longer : Linked (set cells t cell) list (before ++ (t ∷ [])) none =
      rw (ap (λ (c : Cell). c.next) here) at
        (Linked-extend (set cells t cell) list before t shorter (omega (arith, size, inside))) in
    record {
      t = t;
      is_tail = refl;
      cells' = set cells t cell;
      written = rw (set_next, get_elem?-eq-get_or cells t no_cell inside) refl;
      links = rw shape longer;
      same_length = size;
      same_info = λ x. info_kept cells t none x inside;
    }
