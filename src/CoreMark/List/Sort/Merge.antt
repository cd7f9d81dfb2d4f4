-- ===== src/CoreMark/List/Sort/Merge.antt =====
-- One merge of core_list_mergesort, for a comparison by keys.
use rsicv_uvm_test.Base.{
  count, count-append, ℕ, suc, ◌+◌, ◌-◌, ◌≤◌, ◌≡◌, ◌⊎◌, ◌∙◌, arith, leb, inl, inr, Option, none,
  some, List, [], ◌∷◌, ◌++◌, length, All, get_elem?-eq-get_or, Returns, returns,
}
use rsicv_uvm_test.CoreMark.List.{Ptr}
use rsicv_uvm_test.CoreMark.List.Reverse.{at, no_cell}
use rsicv_uvm_test.CoreMark.List.Items.{Compared}
use rsicv_uvm_test.CoreMark.List.Sort.{Merging, from_p, from_q}
use rsicv_uvm_test.CoreMark.List.Sort.Links.{Linked, Out, append-IsAppended}

-- A comparison by keys of valid data, which may change the data within `Inv`.
pub record IsOrder {D : Type 0} (cmp : (a b : ℕ) → D → Option (Compared D)) (Inv : D → Type 0)
    (Valid : ℕ → Type 0) (key : ℕ → ℕ) : Type 0 where
  pub after : (a b : ℕ) → D → D
  pub compares :
      (a b : ℕ) (datas : D)
      → Valid a
      → Valid b
      → Inv datas
      → cmp a b datas ≡ some (record { at_most = leb (key a) (key b); datas = after a b datas })
  pub keeps : (a b : ℕ) (datas : D) → Valid a → Valid b → Inv datas → Inv (after a b datas)

-- The cells merged so far, those left of `p` and of `q`, and the chain behind.
pub record IsMerging {D : Type 0} (Inv : D → Type 0) (Valid : ℕ → Type 0) (info : ℕ → ℕ) (size : ℕ)
    (out xs ys rest : List ℕ) (s : Merging D) : Type 0 where
  pub merged : Out s.cells s.list s.tail out
  pub end : Ptr
  pub links_p : Linked s.cells s.p xs end
  pub links_q : Linked s.cells s.q (ys ++ rest) none
  pub psize_is : s.psize ≡ length xs
  pub qsize_le : length ys ≤ s.qsize
  pub bounded : (s.qsize ≡ length ys) ⊎ (rest ≡ [])
  pub once : (x : ℕ) → count x out + (count x xs + count x (ys ++ rest)) ≤ 1
  pub infos : (x : ℕ) → (at s.cells x).info ≡ info x
  pub valid_p : All (λ x. Valid (info x)) xs
  pub valid_q : All (λ x. Valid (info x)) ys
  pub inv : Inv s.datas
  pub same_size : length s.cells ≡ size

module _ {D : Type 0} (Inv : D → Type 0) (Valid : ℕ → Type 0) (info : ℕ → ℕ) (size : ℕ) where
  pub compared-IsMerging :
      (out xs ys rest : List ℕ) (s : Merging D) (datas : D)
      → Inv datas
      → IsMerging Inv Valid info size out xs ys rest s
      → IsMerging Inv Valid info size out xs ys rest (record s { datas = datas })
  compared-IsMerging out xs ys rest s datas h i = record {
    merged = i.merged;
    end = i.end;
    links_p = i.links_p;
    links_q = i.links_q;
    psize_is = i.psize_is;
    qsize_le = i.qsize_le;
    bounded = i.bounded;
    once = i.once;
    infos = i.infos;
    valid_p = i.valid_p;
    valid_q = i.valid_q;
    inv = h;
    same_size = i.same_size;
  }

  pub from_p-IsMerging :
      (out : List ℕ) (x : ℕ) (xs ys rest : List ℕ) (s : Merging D)
      → IsMerging Inv Valid info size out (x ∷ xs) ys rest s
      → Returns (IsMerging Inv Valid info size (out ++ (x ∷ [])) xs ys rest) (from_p s)
  from_p-IsMerging out x xs ys rest s i =
      let next = (at s.cells x).next in
      let a =
        append-IsAppended x out s.list s.tail next s.q (s.psize - 1) s.qsize s.cells s.datas
          i.merged i.links_p.1.0 (λ y. omega (arith, i.once y)) in
      rw (i.links_p.0, get_elem?-eq-get_or s.cells x no_cell i.links_p.1.0, a.returned)
        (returns _ (record {
          merged = a.extended;
          end = i.end;
          links_p = a.extends.kept next xs i.end (λ y. omega (arith, i.once y)) i.links_p.1.1;
          links_q = a.extends.kept s.q (ys ++ rest) none (λ y. omega (arith, i.once y)) i.links_q;
          psize_is = omega (arith, i.psize_is);
          qsize_le = i.qsize_le;
          bounded = i.bounded;
          once = λ y. omega (arith, i.once y, count-append y out (x ∷ []));
          infos = λ y. a.extends.same_info y ∙ i.infos y;
          valid_p = i.valid_p.1;
          valid_q = i.valid_q;
          inv = i.inv;
          same_size = a.extends.same_length ∙ i.same_size;
        }))

  pub from_q-IsMerging :
      (out : List ℕ) (y : ℕ) (xs ys rest : List ℕ) (s : Merging D)
      → IsMerging Inv Valid info size out xs (y ∷ ys) rest s
      → Returns (IsMerging Inv Valid info size (out ++ (y ∷ [])) xs ys rest) (from_q s)
  from_q-IsMerging out y xs ys rest s i =
      let next = (at s.cells y).next in
      let a =
        append-IsAppended y out s.list s.tail s.p next s.psize (s.qsize - 1) s.cells s.datas
          i.merged i.links_q.1.0 (λ z. omega (arith, i.once z)) in
      rw (i.links_q.0, get_elem?-eq-get_or s.cells y no_cell i.links_q.1.0, a.returned)
        (returns _ (record {
          merged = a.extended;
          end = i.end;
          links_p = a.extends.kept s.p xs i.end (λ z. omega (arith, i.once z)) i.links_p;
          links_q =
              a.extends.kept next (ys ++ rest) none (λ z. omega (arith, i.once z)) i.links_q.1.1;
          psize_is = i.psize_is;
          qsize_le = omega (arith, i.qsize_le);
          bounded = fewer i.bounded;
          once = λ z. omega (arith, i.once z, count-append z out (y ∷ []));
          infos = λ z. a.extends.same_info z ∙ i.infos z;
          valid_p = i.valid_p;
          valid_q = i.valid_q.1;
          inv = i.inv;
          same_size = a.extends.same_length ∙ i.same_size;
        }))
    where
      fewer : (s.qsize ≡ suc (length ys)) ⊎ (rest ≡ []) → (s.qsize - 1 ≡ length ys) ⊎ (rest ≡ [])
      fewer (inl e) = inl (omega arith)
      fewer (inr e) = inr e
