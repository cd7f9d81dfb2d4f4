-- ===== src/CoreMark/List/Sort/Links.antt =====
-- Stretches of cells that are linked one behind the other, and the end of the merged list.
use native.Mathlib.Decide.{ℕ_discrete}
use rsicv_uvm_test.Base.{
  count, count-append, count_self, ℕ, ◌+◌, ◌≤◌, ◌<◌, ◌≡◌, refl, sym, ap, arith, ◌==◌, ==_iff,
  ==_refl, ==_of_ne, true, Option, none, some, List, [], ◌∷◌, ◌++◌, length, length-set, set,
  get_elem?-eq-get_or, get_or-set_self, get_or-set_ne,
}
use rsicv_uvm_test.CoreMark.List.{Ptr, Cell, set_next}
use rsicv_uvm_test.CoreMark.List.Reverse.{at, no_cell, IsChain, IsSimple, Avoids}
use rsicv_uvm_test.CoreMark.List.Sort.{Merging, append}

pub count-Avoids : (x : ℕ) (xs : List ℕ) → Avoids x xs → count x xs ≡ 0
count-Avoids x [] h = refl
count-Avoids x (y ∷ xs) h = rw (==_of_ne x y (λ e. h.0 (sym e)), count-Avoids x xs h.1) refl

pub count-IsSimple : (xs : List ℕ) → IsSimple xs → (x : ℕ) → count x xs ≤ 1
count-IsSimple [] h x = omega arith
count-IsSimple (y ∷ xs) h x = elim (ℕ_discrete x y) [
  | yes e ↦
      let one : (x == y) ≡ true = (==_iff x y).1 e in
      let others : count x xs ≡ 0 = rw e (count-Avoids y xs h.0) in rw (one, others) (omega arith)
  | no ne ↦ rw (==_of_ne x y ne) (omega (arith, count-IsSimple xs h.1 x))
]

-- From a pointer through the cells in order to a pointer.
abbrev pub Linked : List Cell → Ptr → List ℕ → (end : Ptr) → Type 0
Linked cells p [] end = p ≡ end
Linked cells p (x ∷ xs) end =
    (p ≡ some x) × ((x < length cells) × Linked cells (at cells x).next xs end)

pub IsChain-Linked :
    (cells : List Cell) (p : Ptr) (xs : List ℕ) → IsChain cells p xs → Linked cells p xs none
IsChain-Linked cells p [] h = h
IsChain-Linked cells p (x ∷ xs) h = (h.0, (h.1.0, IsChain-Linked cells (at cells x).next xs h.1.1))

pub Linked-IsChain :
    (cells : List Cell) (p : Ptr) (xs : List ℕ) → Linked cells p xs none → IsChain cells p xs
Linked-IsChain cells p [] h = h
Linked-IsChain cells p (x ∷ xs) h = (h.0, (h.1.0, Linked-IsChain cells (at cells x).next xs h.1.1))

pub Linked-set :
    (cells : List Cell) (t : ℕ) (c : Cell) (p : Ptr) (xs : List ℕ) (end : Ptr)
    → count t xs ≡ 0
    → Linked cells p xs end
    → Linked (set cells t c) p xs end
Linked-set cells t c p [] end h k = k
Linked-set cells t c p (x ∷ xs) end h k = elim (ℕ_discrete t x) [
  | yes e ↦ absurd (omega (arith, rw (e, ==_refl x) at h))
  | no ne ↦
      let absent : count t xs ≡ 0 = omega (arith, h) in
      let kept = get_or-set_ne cells t x c no_cell ne in
      let rest = Linked-set cells t c (at cells x).next xs end absent k.1.1 in
      (k.0, (omega (arith, length-set cells t c, k.1.0), rw kept rest))
]

pub Linked-extend :
    (cells : List Cell) (p : Ptr) (xs : List ℕ) (t : ℕ)
    → Linked cells p xs (some t)
    → t < length cells
    → Linked cells p (xs ++ (t ∷ [])) (at cells t).next
Linked-extend cells p [] t h k = (h, (k, refl))
Linked-extend cells p (x ∷ xs) t h k =
    (h.0, (h.1.0, Linked-extend cells (at cells x).next xs t h.1.1 k))

-- The cells merged so far: the last one, whose link is still to be written, is the tail.
abbrev pub Out : List Cell → (list tail : Ptr) → List ℕ → Type 0
Out cells list none out = (list ≡ none) × (out ≡ [])
Out cells list (some t) out =
    (before : List ℕ) × ((out ≡ before ++ (t ∷ []))
      × (Linked cells list before (some t) × (t < length cells)))

-- What an append leaves as it was, for cells that are not merged yet.
pub record Extends (cells : List Cell) (out : List ℕ) (cells' : List Cell) : Type 0 where
  pub same_length : length cells' ≡ length cells
  pub same_info : (x : ℕ) → (at cells' x).info ≡ (at cells x).info
  pub kept :
      (p : Ptr) (xs : List ℕ) (end : Ptr)
      → ((x : ℕ) → count x out + count x xs ≤ 1)
      → Linked cells p xs end
      → Linked cells' p xs end

pub record IsAppended {D : Type 0} (e : ℕ) (out : List ℕ) (s : Merging D)
    (result : Option (Merging D)) : Type 0 where
  pub list : Ptr
  pub cells : List Cell
  pub returned : result ≡ some (record s { list = list; tail = some e; cells = cells })
  pub extended : Out cells list (some e) (out ++ (e ∷ []))
  pub extends : Extends s.cells out cells

pub info_kept :
    (cells : List Cell) (t : ℕ) (next : Ptr) (x : ℕ)
    → t < length cells
    → (at (set cells t (record { next = next; info = (at cells t).info })) x).info
      ≡ (at cells x).info
info_kept cells t next x h = elim (ℕ_discrete t x) [
  | yes e ↦ rw (← e) (
      ap (λ (c : Cell). c.info)
        (get_or-set_self cells t (record { next = next; info = (at cells t).info }) no_cell h))
  | no ne ↦
      ap (λ (c : Cell). c.info)
        (get_or-set_ne cells t x (record { next = next; info = (at cells t).info }) no_cell ne)
]

pub append-IsAppended :
    {D : Type 0} (e : ℕ) (out : List ℕ) (list tail p q : Ptr) (psize qsize : ℕ) (cells : List Cell)
    (datas : D)
    → Out cells list tail out
    → e < length cells
    → ((x : ℕ) → count x out ≤ 1)
    → IsAppended e out
        (record {
          list = list;
          tail = tail;
          p = p;
          q = q;
          psize = psize;
          qsize = qsize;
          cells = cells;
          datas = datas;
        })
        (append e (record {
          list = list;
          tail = tail;
          p = p;
          q = q;
          psize = psize;
          qsize = qsize;
          cells = cells;
          datas = datas;
        }))
append-IsAppended e out list none p q psize qsize cells datas h lt once = record {
  list = some e;
  cells = cells;
  returned = refl;
  extended = ([], (ap (λ t. t ++ (e ∷ [])) h.1, (refl, lt)));
  extends = record { same_length = refl; same_info = λ x. refl; kept = λ p xs end apart k. k };
}
append-IsAppended e out list (some t) p q psize qsize cells datas (before, (shape, (links, inside)))
      lt once =
    let cell : Cell = record { next = some e; info = (at cells t).info } in
    let size = length-set cells t cell in
    let here = get_or-set_self cells t cell no_cell inside in
    let alone : count t before ≡ 0 =
      omega (arith, once t, ap (count t) shape, count-append t before (t ∷ []), count_self t) in
    let shorter = Linked-set cells t cell list before (some t) alone links in
    let longer : Linked (set cells t cell) list (before ++ (t ∷ [])) (some e) =
      rw (ap (λ (c : Cell). c.next) here) at
        (Linked-extend (set cells t cell) list before t shorter (omega (arith, size, inside))) in
    record {
      list = list;
      cells = set cells t cell;
      returned = rw (append, set_next, get_elem?-eq-get_or cells t no_cell inside) refl;
      extended = (out, (refl, (rw shape longer, omega (arith, size, lt))));
      extends = record {
        same_length = size;
        same_info = λ x. info_kept cells t (some e) x inside;
        kept = λ p xs end apart k.
            Linked-set cells t cell p xs end
              (omega
                (arith, apart t, ap (count t) shape, count-append t before (t ∷ []), count_self t))
              k;
      };
    }
