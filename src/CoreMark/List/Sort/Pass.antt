-- ===== src/CoreMark/List/Sort/Pass.antt =====
-- A pass of core_list_mergesort doubles the length of the sorted stretches.
use rsicv_uvm_test.Base.{
  count, count-append, ℕ, zero, suc, ◌+◌, ◌≤◌, ◌<◌, ◌≡◌, ◌⊎◌, refl, ap, arith, inl, inr, false,
  Option, none, some, List, [], ◌∷◌, ◌++◌, length, All, get_elem?-eq-get_or, Returns, returns,
  Returns-then,
}
use rsicv_uvm_test.CoreMark.List.{Ptr, Cell}
use rsicv_uvm_test.CoreMark.List.Reverse.{at, no_cell}
use rsicv_uvm_test.CoreMark.List.Items.{Compared}
use rsicv_uvm_test.CoreMark.List.Sort.{Passing, Stepped, is_null, step_along, one_merge}
use rsicv_uvm_test.CoreMark.List.Sort.Reference.{merge}
use rsicv_uvm_test.CoreMark.List.Sort.Blocks.{All-append}
use rsicv_uvm_test.CoreMark.List.Sort.Links.{Linked, Out}
use rsicv_uvm_test.CoreMark.List.Sort.Merge.{IsOrder}
use rsicv_uvm_test.CoreMark.List.Sort.Loop.{merge_loop-IsMerging}

record IsStepped (cells : List Cell) (p : Ptr) (xs more : List ℕ) (psize : ℕ) (out : Option Stepped)
    : Type 0 where
  q : Ptr
  returned : out ≡ some (record { q = q; psize = psize + length xs })
  links_p : Linked cells p xs q
  links_q : Linked cells q more none

pub not_null :
    (cells : List Cell) (p : Ptr) (x : ℕ) (xs : List ℕ) (end : Ptr)
    → Linked cells p (x ∷ xs) end
    → is_null p ≡ false
not_null cells p x xs end h = rw h.0 refl

step_along-IsStepped :
    (left x : ℕ) (xs more : List ℕ) (p : Ptr) (psize : ℕ) (cells : List Cell)
    → suc (length xs) ≤ left
    → (left ≡ suc (length xs)) ⊎ (more ≡ [])
    → Linked cells p ((x ∷ xs) ++ more) none
    → IsStepped cells p (x ∷ xs) more psize (step_along left p psize cells)
step_along-IsStepped zero x xs more p psize cells h e k = absurd (omega arith)
step_along-IsStepped (suc left) x (x2 ∷ xs) more p psize cells h e k =
    let there = get_elem?-eq-get_or cells x no_cell k.1.0 in
    let next = (at cells x).next in
    let rest =
      step_along-IsStepped left x2 xs more next (psize + 1) cells (omega arith) (shorter e) k.1.1 in
    let total : psize + 1 + suc (length xs) ≡ psize + suc (suc (length xs)) = omega arith in
    rw
      (k.0, step_along, there, not_null cells next x2 (xs ++ more) none k.1.1, rest.returned, total)
      (record {
        q = rest.q;
        returned = refl;
        links_p = (refl, (k.1.0, rest.links_p));
        links_q = rest.links_q;
      })
  where
    shorter :
        (suc left ≡ suc (suc (length xs))) ⊎ (more ≡ []) → (left ≡ suc (length xs)) ⊎ (more ≡ [])
    shorter (inl same) = inl (omega arith)
    shorter (inr none_left) = inr none_left
step_along-IsStepped (suc left) x [] [] p psize cells h e k =
    let there = get_elem?-eq-get_or cells x no_cell k.1.0 in
    rw (k.0, step_along, there, k.1.1)
      (record { q = none; returned = refl; links_p = (refl, (k.1.0, k.1.1)); links_q = refl })
step_along-IsStepped (suc left) x [] (y ∷ more) p psize cells h (inr e) k =
    absurd (omega (arith, ap length e))
step_along-IsStepped (suc left) x [] (y ∷ more) p psize cells h (inl e) k =
    let there = get_elem?-eq-get_or cells x no_cell k.1.0 in
    let next = (at cells x).next in
    let no_more : left ≡ 0 = omega arith in
    rw (k.0, step_along, there, not_null cells next y more none k.1.1, no_more)
      (record { q = next; returned = refl; links_p = (refl, (k.1.0, refl)); links_q = k.1.1 })

-- The cells merged in this pass so far, and those left.
pub record IsPassing {D : Type 0} (Inv : D → Type 0) (Valid : ℕ → Type 0) (info : ℕ → ℕ) (size : ℕ)
    (out current : List ℕ) (s : Passing D) : Type 0 where
  pub merged : Out s.cells s.list s.tail out
  pub links : Linked s.cells s.p current none
  pub once : (x : ℕ) → count x out + count x current ≤ 1
  pub infos : (x : ℕ) → (at s.cells x).info ≡ info x
  pub valid : All (λ x. Valid (info x)) current
  pub inv : Inv s.datas
  pub same_size : length s.cells ≡ size

-- After a merge.
pub record IsMerged {D : Type 0} (Inv : D → Type 0) (Valid : ℕ → Type 0) (info : ℕ → ℕ) (size : ℕ)
    (out current : List ℕ) (nmerges : ℕ) (s : Passing D) : Type 0 where
  pub passing : IsPassing Inv Valid info size out current s
  pub counted : s.nmerges ≡ nmerges

module _ {D : Type 0} (cmp : (a b : ℕ) → D → Option (Compared D)) (Inv : D → Type 0)
    (Valid : ℕ → Type 0) (key : ℕ → ℕ) (order : IsOrder cmp Inv Valid key) (info : ℕ → ℕ)
    (size : ℕ) where
  pub one_merge-IsMerged :
      (fuel k x : ℕ) (out xs ys rest : List ℕ) (s : Passing D)
      → suc (length xs) ≤ k
      → (k ≡ suc (length xs)) ⊎ (ys ++ rest ≡ [])
      → length ys ≤ k
      → (k ≡ length ys) ⊎ (rest ≡ [])
      → suc (length xs) + length ys < fuel
      → IsPassing Inv Valid info size out ((x ∷ xs) ++ (ys ++ rest)) s
      → Returns
          (IsMerged Inv Valid info size
            (out ++ merge (λ y. key (info y)) (x ∷ xs) ys)
            rest
            (s.nmerges + 1))
          (one_merge cmp fuel k s)
  unfolding one_merge
  one_merge-IsMerged fuel k x out xs ys rest s h1 e1 h2 e2 enough i =
      let st = step_along-IsStepped k x xs (ys ++ rest) s.p 0 s.cells h1 e1 i.links in
      let valid = All-append (λ y. Valid (info y)) (x ∷ xs) (ys ++ rest) i.valid in
      let valid2 = All-append (λ y. Valid (info y)) ys rest valid.1 in
      rw st.returned (
        Returns-then _
          (merge_loop-IsMerging cmp Inv Valid key order info size fuel out (x ∷ xs) ys rest
            (record {
              list = s.list;
              tail = s.tail;
              p = s.p;
              q = st.q;
              psize = 0 + suc (length xs);
              qsize = k;
              cells = s.cells;
              datas = s.datas;
            })
            enough
            (record {
              merged = i.merged;
              end = st.q;
              links_p = st.links_p;
              links_q = st.links_q;
              psize_is = omega arith;
              qsize_le = h2;
              bounded = e2;
              once = λ y. omega (arith, i.once y, count-append y (x ∷ xs) (ys ++ rest));
              infos = i.infos;
              valid_p = valid.0;
              valid_q = valid2.0;
              inv = i.inv;
              same_size = i.same_size;
            }))
          (λ t m. returns _ (record {
            passing = record {
              merged = m.merged;
              links = m.links_q;
              once = λ y. omega (arith, m.once y);
              infos = m.infos;
              valid = valid2.1;
              inv = m.inv;
              same_size = m.same_size;
            };
            counted = refl;
          })))
