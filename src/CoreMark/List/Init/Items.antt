-- ===== src/CoreMark/List/Init/Items.antt =====
-- The items that core_list_init inserts behind the head, before they have their indices.
use rsicv_uvm_test.Base.{
  ℕ, zero, suc, ◌+◌, ◌-◌, ◌^◌, ◌≤◌, ◌<◌, ◌≡◌, ◌≢◌, refl, sym, ap, ◌∙◌, arith, inl, inr,
  if◌then◌else◌, leb, Option, none, some, List, [], ◌∷◌, length, get_or, count, Returns, returns,
  Returns-then, for, for-Returns, min,
}
use native.Mathlib.Decide.{ℕ_discrete}
use rsicv_uvm_test.CoreMark.List.Reverse.{at, IsChain, IsSimple, Avoids}
use rsicv_uvm_test.CoreMark.List.Items.{ListData, Blocks, Inserted, core_list_insert_new}
use rsicv_uvm_test.CoreMark.List.Items.Find.{no_data}
use rsicv_uvm_test.CoreMark.List.Items.Insert.{
  IsInserted, Inserts, full, inserts, core_list_insert_new-Inserts,
}
use rsicv_uvm_test.CoreMark.List.Init.{insert_round, item_data}

-- m, m - 1, ..., 1.
abbrev pub down : ℕ → List ℕ
down zero = []
down (suc m) = suc m ∷ down m

pub length-down : (m : ℕ) → length (down m) ≡ m
length-down zero = refl
length-down (suc m) = ap suc (length-down m)

pub down-Avoids : (x m : ℕ) → m < x → Avoids x (down m)
down-Avoids x zero h = tt
down-Avoids x (suc m) h = (λ e. absurd (omega arith), down-Avoids x m (omega arith))

Avoids-zero : (m : ℕ) → Avoids 0 (down m)
Avoids-zero zero = tt
Avoids-zero (suc m) = (λ e. absurd (omega arith), Avoids-zero m)

pub down-IsSimple : (m : ℕ) → IsSimple (0 ∷ down m)
down-IsSimple m = (Avoids-zero m, simple m)
  where
    simple : (m : ℕ) → IsSimple (down m)
    simple zero = tt
    simple (suc m) = (down-Avoids (suc m) m (omega arith), simple m)

pub count-down : (x m : ℕ) → 1 ≤ x → count x (down m) ≡ (if leb x m then 1 else 0)
count-down zero m h = absurd (omega arith)
count-down (suc x) zero h = ground arith
count-down (suc x) (suc m) h = ground (arith, count-down (suc x) m)

abbrev pub idx_at : List ListData → ℕ → ℕ
idx_at datas a = (get_or datas a no_data).idx

-- The list of the first `m + 1` cells, where the cell `p` has the data `p`.
pub record IsFilled (size m : ℕ) (s : Blocks) : Type 0 where
  pub cells_fit : size ≤ length s.cells
  pub datas_fit : size ≤ length s.datas
  pub memblock : s.memblock ≡ suc m
  pub datablock : s.datablock ≡ suc m
  pub chain : IsChain s.cells (some 0) (0 ∷ down m)
  pub infos : (p : ℕ) → p ≤ m → (at s.cells p).info ≡ p
  pub head_idx : idx_at s.datas 0 ≡ 0
  pub new_idx : (p : ℕ) → 1 ≤ p → p ≤ m → idx_at s.datas p ≡ 0x7fff
  pub small : (a : ℕ) → idx_at s.datas a < 2 ^ 16

abbrev IsGrown : (size m : ℕ) → Inserted → Type 0
IsGrown size m r = IsFilled size (min (suc m) (size - 2)) r.blocks

grown :
    (size m : ℕ) (info : ListData) (s s' : Blocks)
    → info.idx ≡ 0x7fff
    → IsFilled size m s
    → IsInserted 0 (down m) info s s'
    → IsFilled size (suc m) s'
grown size m info s s' tail f i =
    let new : idx_at s'.datas (suc m) ≡ 0x7fff =
      rw (← f.datablock) (ap (λ (d : ListData). d.idx) i.new_data ∙ tail) in
    let kept : (p : ℕ) → p ≢ suc m → idx_at s'.datas p ≡ idx_at s.datas p =
      λ p ne. ap (λ (d : ListData). d.idx) (i.other_data p (λ e. ne (e ∙ f.datablock))) in
    record {
      cells_fit = omega (arith, f.cells_fit, i.same_cells);
      datas_fit = omega (arith, f.datas_fit, i.same_datas);
      memblock = omega (arith, f.memblock, i.next_memblock);
      datablock = omega (arith, f.datablock, i.next_datablock);
      chain = rw (← f.memblock) i.chain;
      infos = λ p h. elim (ℕ_discrete p (suc m)) [
        | yes e ↦ rw (e, ← f.memblock) (i.new_info ∙ f.datablock ∙ sym f.memblock)
        | no ne ↦ i.others p (λ e. ne (e ∙ f.memblock)) ∙ f.infos p (omega arith)
      ];
      head_idx = kept 0 (λ e. absurd (omega arith)) ∙ f.head_idx;
      new_idx = λ p h k. elim (ℕ_discrete p (suc m)) [
        | yes e ↦ rw e new
        | no ne ↦ kept p ne ∙ f.new_idx p h (omega arith)
      ];
      small = λ a. elim (ℕ_discrete a (suc m)) [
        | yes e ↦ rw (e, new) (omega arith)
        | no ne ↦ rw (kept a ne) (f.small a)
      ];
    }

-- One more item, if another place after it is left.
pub insert-IsGrown :
    (size m : ℕ) (info : ListData) (s : Blocks)
    → info.idx ≡ 0x7fff
    → m + 2 ≤ size
    → IsFilled size m s
    → Returns (IsGrown size m) (core_list_insert_new 0 info size size s)
insert-IsGrown size m info s tail room f =
    let apart : Avoids s.memblock (0 ∷ down m) = (
      λ e. absurd (omega (arith, f.memblock)),
      down-Avoids s.memblock m (omega (arith, f.memblock)),
    ) in
    go (
      core_list_insert_new-Inserts 0 size size (down m) info s f.chain (down-IsSimple m) apart
        f.cells_fit f.datas_fit)
  where
    go :
        {out : Option Inserted}
        → Inserts 0 (down m) info size size s out
        → Returns (IsGrown size m) out
    go (full h) =
        let tight : size ≤ m + 2 = elim h [
          | inl k ↦ omega (arith, f.memblock)
          | inr k ↦ omega (arith, f.datablock)
        ] in
        let same : m ≡ min (suc m) (size - 2) = omega arith in
        returns (record { newitem = none; blocks = s }) (rw (← same) f)
    go (inserts s' h k i) =
        let more : suc m ≡ min (suc m) (size - 2) = omega (arith, f.memblock) in
        returns (record { newitem = some s.memblock; blocks = s' })
          (rw (← more) (grown size m info s s' tail f i))

insert_round-Returns :
    (size seed i m : ℕ) (s : Blocks)
    → m + 2 ≤ size
    → IsFilled size m s
    → Returns (IsFilled size (min (suc m) (size - 2))) (insert_round size seed i s)
unfolding insert_round
insert_round-Returns size seed i m s room f =
    Returns-then _
      (insert-IsGrown size m (record { data16 = item_data seed i; idx = 0x7fff }) s refl room f)
      (λ r g. returns r.blocks g)

pub fill_list :
    (size seed : ℕ) (s : Blocks)
    → 3 ≤ size
    → IsFilled size 1 s
    → Returns (IsFilled size (size - 2)) (for size 0 (insert_round size seed) s)
fill_list size seed s enough f =
    let first : 1 ≡ min (0 + 1) (size - 2) = omega arith in
    let last : min (size + 1) (size - 2) ≡ size - 2 = omega arith in
    rw (← last) (
      for-Returns (λ i. IsFilled size (min (i + 1) (size - 2))) (insert_round size seed) size 0 size
        (omega arith)
        (λ i t low high g.
          let next : min (suc (min (i + 1) (size - 2))) (size - 2) ≡ min (i + 1 + 1) (size - 2) =
            omega arith in
          rw (← next) (insert_round-Returns size seed i (min (i + 1) (size - 2)) t (omega arith) g))
        s (rw (← first) f))
