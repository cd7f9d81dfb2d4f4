-- ===== src/CoreMark/List/Items/Find.antt =====
-- What core_list_find finds.
use rsicv_uvm_test.Base.{
  ℕ, zero, suc, ◌^◌, ◌%◌, ◌≤◌, ◌<◌, ◌≡◌, ltb, arith, true, false, Bool-cases, inl, inr, Option,
  none, some, List, [], ◌∷◌, ◌++◌, length, get_elem?-eq-get_or, get_or, All,
}
use rsicv_uvm_test.Bits.Fields.{bit_and_low_mask}
use rsicv_uvm_test.CoreMark.List.{Ptr, Cell}
use rsicv_uvm_test.CoreMark.List.Reverse.{at, no_cell, IsChain}
use rsicv_uvm_test.CoreMark.List.Items.{ListData, is_wanted, core_list_find}

abbrev pub no_data : ListData
no_data = record { data16 = 0; idx = 0 }

-- The data of a cell.
abbrev pub data_of : List Cell → List ListData → (cell : ℕ) → ListData
data_of cells datas x = get_or datas (at cells x).info no_data

abbrev pub HaveData : List Cell → List ListData → List ℕ → Type 0
HaveData cells datas = All (λ x. (at cells x).info < length datas)

-- An item has the index that is looked for, where that is not negative as a 16-bit number, and else the
-- low byte that is.
abbrev pub Matches : (info item : ListData) → Type 0
Matches info item =
    (info.idx < 2 ^ 15 → item.idx ≡ info.idx)
    × (2 ^ 15 ≤ info.idx → item.data16 % 2 ^ 8 ≡ info.data16)

is_wanted-Matches : (info item : ListData) → is_wanted info item ≡ true → Matches info item
is_wanted-Matches info item h =
    let low = bit_and_low_mask 8 item.data16 in
    (λ k. ground (arith, h, k), λ k. ground (arith, h, k, low))

not_wanted : (info item : ListData) → is_wanted info item ≡ false → ¬ Matches info item
not_wanted info item h m = elim (Bool-cases (ltb info.idx (2 ^ 15))) [
  | inl by_index ↦ let same = m.0 (ground (arith, by_index)) in ground (arith, h, by_index, same)
  | inr by_byte ↦
      let same = m.1 (ground (arith, by_byte)) in
      let low = bit_and_low_mask 8 item.data16 in ground (arith, h, by_byte, same, low)
]

abbrev IsMissed : ListData → List Cell → List ListData → ℕ → Type 0
IsMissed info cells datas x = ¬ Matches info (data_of cells datas x)

-- The first item of a list that matches, or none.
pub data Finds (info : ListData) (cells : List Cell) (datas : List ListData)
    : (xs : List ℕ) → Option Ptr → Type 0 where
  misses :
      (xs : List ℕ) → All (IsMissed info cells datas) xs → Finds info cells datas xs (some none)
  finds :
      (before : List ℕ) (x : ℕ) (behind : List ℕ)
      → All (IsMissed info cells datas) before
      → Matches info (data_of cells datas x)
      → Finds info cells datas (before ++ (x ∷ behind)) (some (some x))

Finds-later :
    (info : ListData) (cells : List Cell) (datas : List ListData) (y : ℕ) (xs : List ℕ)
    (out : Option Ptr)
    → IsMissed info cells datas y
    → Finds info cells datas xs out
    → Finds info cells datas (y ∷ xs) out
Finds-later info cells datas y _ out h (misses xs k) = misses (y ∷ xs) (h, k)
Finds-later info cells datas y _ out h (finds before x behind k e) =
    finds (y ∷ before) x behind (h, k) e

-- On a list without a cycle whose cells all have data in the block, core_list_find returns after at most one
-- step for each cell and one more. It gives the first cell whose item has the given index, if that is not
-- negative as a 16-bit number, and whose data16 otherwise has the given data16 as its low byte; it gives null
-- exactly if there is none.
pub core_list_find-Finds :
    (fuel : ℕ) (list : Ptr) (info : ListData) (cells : List Cell) (datas : List ListData)
    (xs : List ℕ)
    → length xs < fuel
    → IsChain cells list xs
    → HaveData cells datas xs
    → Finds info cells datas xs (core_list_find fuel list info cells datas)
unfolding core_list_find
core_list_find-Finds zero list info cells datas xs h k l = absurd (omega arith)
core_list_find-Finds (suc fuel) list info cells datas [] h k l = rw k (misses [] tt)
core_list_find-Finds (suc fuel) list info cells datas (x ∷ xs) h k l =
    let there = get_elem?-eq-get_or cells x no_cell k.1.0 in
    let item = get_elem?-eq-get_or datas (at cells x).info no_data l.0 in
    let rest =
      core_list_find-Finds fuel (at cells x).next info cells datas xs (omega arith) k.1.1 l.1 in
    rw (k.0, core_list_find, there, item)
      (elim (Bool-cases (is_wanted info (data_of cells datas x))) [
        | inl wanted ↦
            rw wanted (finds [] x xs tt (is_wanted-Matches info (data_of cells datas x) wanted))
        | inr missed ↦ rw missed (
            Finds-later info cells datas x xs _ (not_wanted info (data_of cells datas x) missed)
              rest)
      ])
