-- ===== src/CoreMark/List/Sort/Double.antt =====
-- The loop of a pass of core_list_mergesort.
use mathlib.Core.List.{append_assoc, append-nil}
use rsicv_uvm_test.Base.{
  ℕ, zero, suc, ◌+◌, ◌≤◌, ◌<◌, ◌≡◌, ◌⊎◌, refl, arith, inl, inr, Option, none, some, List, [], ◌∷◌,
  ◌++◌, length, length-append, Returns, returns, Returns-then, Returns-weaken,
}
use rsicv_uvm_test.CoreMark.List.Items.{Compared}
use rsicv_uvm_test.CoreMark.List.Sort.{Passing, pass_loop}
use rsicv_uvm_test.CoreMark.List.Sort.Reference.{merge, sorted, merge-sorted}
use rsicv_uvm_test.CoreMark.List.Sort.Blocks.{Blocks, empty, last, block, length-sorted}
use rsicv_uvm_test.CoreMark.List.Sort.Merge.{IsOrder}
use rsicv_uvm_test.CoreMark.List.Sort.Pass.{IsPassing, IsMerged, one_merge-IsMerged, not_null}

module _ {D : Type 0} (cmp : (a b : ℕ) → D → Option (Compared D)) (Inv : D → Type 0)
    (Valid : ℕ → Type 0) (key : ℕ → ℕ) (order : IsOrder cmp Inv Valid key) (info : ℕ → ℕ)
    (size k : ℕ) where
  abbrev cell_key : ℕ → ℕ
  cell_key y = key (info y)

  -- After a pass: the list in sorted stretches of twice the length, and their number.
  pub record IsDoubled (stretches : ℕ) (xs out : List ℕ) (nmerges : ℕ) (s : Passing D)
      : Type 0 where
    pub m : ℕ
    pub current : List ℕ
    pub halved : m + m ≤ stretches + 1
    pub blocks : Blocks cell_key (k + k) m xs current
    pub counted : s.nmerges ≡ nmerges + m
    pub passing : IsPassing Inv Valid info size (out ++ current) [] s

  -- A merge, and then the rest of the pass.
  merge_then :
      (Q : Passing D → Type 0) (fuel : ℕ) (out xs ys rest : List ℕ) (s : Passing D)
      → 1 ≤ length xs
      → length xs ≤ k
      → (k ≡ length xs) ⊎ (ys ++ rest ≡ [])
      → length ys ≤ k
      → (k ≡ length ys) ⊎ (rest ≡ [])
      → length xs + length ys ≤ fuel
      → IsPassing Inv Valid info size out (xs ++ (ys ++ rest)) s
      → ((t : Passing D)
          → IsMerged Inv Valid info size (out ++ merge cell_key xs ys) rest (s.nmerges + 1) t
          → Returns Q (pass_loop cmp fuel k t))
      → Returns Q (pass_loop cmp (suc fuel) k s)
  unfolding pass_loop
  merge_then Q fuel out [] ys rest s h0 h1 e1 h2 e2 enough i next = absurd (omega arith)
  merge_then Q fuel out (x ∷ xs) ys rest s h0 h1 e1 h2 e2 enough i next =
      rw (not_null s.cells s.p x (xs ++ (ys ++ rest)) none i.links) (
        Returns-then (pass_loop cmp fuel k)
          (one_merge-IsMerged cmp Inv Valid key order info size (suc fuel) k x out xs ys rest s h1
            e1 h2 e2 (omega arith) i)
          next)

  pass_loop_end :
      (fuel : ℕ) (out : List ℕ) (s : Passing D)
      → 1 ≤ fuel
      → IsPassing Inv Valid info size out [] s
      → pass_loop cmp fuel k s ≡ some s
  unfolding pass_loop
  pass_loop_end zero out s h i = absurd (omega arith)
  pass_loop_end (suc fuel) out s h i = rw i.links refl

  -- The last merge of a pass.
  last_merge :
      (fuel stretches : ℕ) (b b2 out : List ℕ) (s : Passing D)
      → 1 ≤ stretches
      → 1 ≤ length b
      → length b ≤ k
      → (k ≡ length b) ⊎ (b2 ≡ [])
      → length b2 ≤ k
      → length b + length b2 ≤ fuel
      → IsPassing Inv Valid info size out (sorted cell_key b ++ (sorted cell_key b2 ++ [])) s
      → Returns (IsDoubled stretches (b ++ b2) out s.nmerges) (pass_loop cmp (suc fuel) k s)
  last_merge fuel stretches b b2 out s some_left h0 h1 e h2 enough i =
      let size1 = length-sorted cell_key b in
      let size2 = length-sorted cell_key b2 in
      merge_then (IsDoubled stretches (b ++ b2) out s.nmerges) fuel out (sorted cell_key b)
        (sorted cell_key b2) [] s (omega arith) (omega arith) (full e) (omega arith) (inr refl)
        (omega arith) i
        (λ t merged.
          rw
            (pass_loop_end fuel (out ++ merge cell_key (sorted cell_key b) (sorted cell_key b2)) t
              (omega arith) merged.passing)
            (returns t (record {
              m = 1;
              halved = omega arith;
              current = sorted cell_key (b ++ b2);
              blocks =
                  last (b ++ b2) (omega (arith, length-append b b2))
                    (omega (arith, length-append b b2));
              counted = merged.counted;
              passing = rw (← merge-sorted cell_key b b2) merged.passing;
            })))
    where
      full :
          (k ≡ length b) ⊎ (b2 ≡ [])
          → (k ≡ length (sorted cell_key b)) ⊎ (sorted cell_key b2 ++ [] ≡ [])
      full (inl same) = inl (omega (arith, length-sorted cell_key b))
      full (inr none_left) = inr (rw none_left refl)

  pub pass_loop-IsDoubled :
      (fuel m : ℕ) (xs current out : List ℕ) (s : Passing D)
      → 1 ≤ k
      → length current < fuel
      → Blocks cell_key k m xs current
      → IsPassing Inv Valid info size out current s
      → Returns (IsDoubled m xs out s.nmerges) (pass_loop cmp fuel k s)
  pass_loop-IsDoubled zero m xs current out s pos enough bs i = absurd (omega arith)
  pass_loop-IsDoubled (suc fuel) _ _ _ out s pos enough empty i =
      rw (pass_loop_end (suc fuel) out s (omega arith) i) (
        returns s (record {
          m = 0;
          halved = omega arith;
          current = [];
          blocks = empty;
          counted = omega arith;
          passing = rw (append-nil out) i;
        }))
  pass_loop-IsDoubled (suc fuel) _ _ _ out s pos enough (last b h1 h2) i =
      let size1 = length-sorted cell_key b in
      rw (← append-nil b) (
        last_merge fuel 1 b [] out s (omega arith) h1 h2 (inr refl) (omega arith) (omega arith)
          (rw (append-nil (sorted cell_key b)) i))
  pass_loop-IsDoubled (suc fuel) _ _ _ out s pos enough (block b _ _ _ e empty) i =
      let size1 = length-sorted cell_key b in
      let total = length-append (sorted cell_key b) [] in
      last_merge fuel 1 b [] out s (omega arith) (omega arith) (omega arith) (inr refl)
        (omega arith) (omega arith) i
  pass_loop-IsDoubled (suc fuel) _ _ _ out s pos enough (block b _ _ _ e (last b2 h1 h2)) i =
      let size1 = length-sorted cell_key b in
      let size2 = length-sorted cell_key b2 in
      let total = length-append (sorted cell_key b) (sorted cell_key b2) in
      last_merge fuel 2 b b2 out s (omega arith) (omega arith) (omega arith) (inl (omega arith)) h2
        (omega arith) (rw (append-nil (sorted cell_key b2)) i)
  pass_loop-IsDoubled (suc fuel) _ _ _ out s pos enough
        (block b _ _ _ e (block b2 m xs current e2 bs)) i =
      let size1 = length-sorted cell_key b in
      let size2 = length-sorted cell_key b2 in
      let total = length-append (sorted cell_key b) (sorted cell_key b2 ++ current) in
      let total2 = length-append (sorted cell_key b2) current in
      let merged = merge cell_key (sorted cell_key b) (sorted cell_key b2) in
      merge_then (IsDoubled (suc (suc m)) (b ++ (b2 ++ xs)) out s.nmerges) fuel out
        (sorted cell_key b) (sorted cell_key b2) current s (omega arith) (omega arith)
        (inl (omega arith)) (omega arith) (inl (omega arith)) (omega arith) i
        (λ t n.
          Returns-weaken
            (λ u d. record {
              m = suc d.m;
              halved = omega (arith, d.halved);
              current = sorted cell_key (b ++ b2) ++ d.current;
              blocks =
                  rw (← append_assoc b b2 xs)
                    (block (b ++ b2) d.m xs d.current (omega (arith, length-append b b2)) d.blocks);
              counted = omega (arith, d.counted, n.counted);
              passing =
                  rw (← merge-sorted cell_key b b2, ← append_assoc out merged d.current) d.passing;
            })
            (pass_loop-IsDoubled fuel m xs current (out ++ merged) t pos (omega arith) bs
              n.passing))
