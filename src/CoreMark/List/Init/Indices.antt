-- ===== src/CoreMark/List/Init/Indices.antt =====
-- The loop of core_list_init that gives the items their indices.
use rsicv_uvm_test.Base.{
  ℕ, zero, suc, ◌+◌, ◌-◌, ◌/◌, ◌^◌, ◌≤◌, ◌<◌, ◌≡◌, refl, ap, ◌∙◌, arith, ◌⊎◌, inl, inr, ltb,
  Bool-cases, some, List, length, length-set, get_or, get_or-set_self, get_or-set_ne,
  get_elem?-eq-get_or, store_of_lt, set, Returns, returns, Returns-weaken, u16, u32, bit_and,
  bit_or, bit_xor, ◌<<<◌,
}
use native.Mathlib.Decide.{ℕ_discrete}
use native.Mathlib.Nat.{pow-suc, one-le-pow}
use rsicv_uvm_test.Bits.Step.{bit_and_step, bit_and_of_nothing}
use rsicv_uvm_test.CoreMark.List.{Cell}
use rsicv_uvm_test.CoreMark.List.Reverse.{at, no_cell, IsChain}
use rsicv_uvm_test.CoreMark.List.Items.{ListData, extend16}
use rsicv_uvm_test.CoreMark.List.Items.Find.{no_data}
use rsicv_uvm_test.CoreMark.List.Init.{item_idx, index_loop}
use rsicv_uvm_test.CoreMark.List.Init.Items.{down, idx_at}

bit_and_below : (k a : ℕ) → bit_and (2 ^ k - 1) a < 2 ^ k
bit_and_below zero a = omega (arith, bit_and_of_nothing a)
bit_and_below (suc k) a =
    ground
      (arith, pow-suc 2 k, one-le-pow k 2, bit_and_step (2 ^ suc k - 1) a, bit_and_below k (a / 2))

pub item_idx_small : (size seed i : ℕ) → item_idx size seed i < 2 ^ 16
unfolding item_idx
item_idx_small size seed i = elim (Bool-cases (ltb i (size / 5))) [
  | inl first ↦ rw first (omega arith)
  | inr later ↦
      let pat = u16 (bit_xor i (extend16 seed)) in
      rw later (omega (arith, bit_and_below 14 (bit_or (bit_and (u32 (i + 1)) 0x07 <<< 8) pat)))
]

-- The cells from `m` down to 2 get the indices from `i` on.
pub record IsIndexed (size seed i m : ℕ) (start datas : List ListData) : Type 0 where
  pub same_length : length datas ≡ length start
  pub items : (p : ℕ) → 2 ≤ p → p ≤ m → idx_at datas p ≡ item_idx size seed (i + (m - p))
  pub others : (p : ℕ) → (p ≤ 1) ⊎ (m < p) → idx_at datas p ≡ idx_at start p

pub index_loop-Returns :
    (fuel size seed i m : ℕ) (cells : List Cell) (datas : List ListData)
    → m < fuel
    → i + m < 2 ^ 32
    → IsChain cells (some (suc m)) (down (suc m))
    → ((p : ℕ) → p ≤ suc m → (at cells p).info ≡ p)
    → suc m < length datas
    → Returns
        (IsIndexed size seed i (suc m) datas)
        (index_loop fuel size seed i (some (suc m)) cells datas)
unfolding index_loop
index_loop-Returns zero size seed i m cells datas enough low chain infos fit = absurd (omega arith)
index_loop-Returns (suc fuel) size seed i zero cells datas enough low chain infos fit =
    rw (get_elem?-eq-get_or cells 1 no_cell chain.1.0, chain.1.1)
      (returns datas (record {
        same_length = refl;
        items = λ p h k. absurd (omega arith);
        others = λ p h. refl;
      }))
index_loop-Returns (suc fuel) size seed i (suc m) cells datas enough low chain infos fit =
    let p = suc (suc m) in
    let item : ListData = record {
      data16 = (get_or datas p no_data).data16;
      idx = item_idx size seed i;
    } in
    let next : u32 (i + 1) ≡ i + 1 = omega arith in
    rw
      (
        get_elem?-eq-get_or cells p no_cell chain.1.0,
        chain.1.1.0,
        infos p (omega arith),
        get_elem?-eq-get_or datas p no_data fit,
        store_of_lt datas p item fit,
        next,
      )
      (Returns-weaken
        (λ d (r : IsIndexed size seed (i + 1) (suc m) (set datas p item) d). record {
          same_length = r.same_length ∙ length-set datas p item;
          items = λ q h k. elim (ℕ_discrete q p) [
            | yes e ↦
                let here : idx_at (set datas p item) p ≡ item_idx size seed i =
                  ap (λ (d : ListData). d.idx) (get_or-set_self datas p item no_data fit) in
                let first : i + (suc (suc m) - p) ≡ i = omega arith in
                rw (e, first) (r.others p (inr (omega arith)) ∙ here)
            | no ne ↦
                let same : i + 1 + (suc m - q) ≡ i + (suc (suc m) - q) = omega arith in
                rw (← same) (r.items q h (omega arith))
          ];
          others = λ q h.
              let outside : (q ≤ 1) ⊎ (suc m < q) = elim h [
                | inl a ↦ inl a
                | inr b ↦ inr (omega arith)
              ] in
              r.others q outside
              ∙ ap (λ (d : ListData). d.idx)
                  (get_or-set_ne datas p q item no_data
                    (λ e. elim h [ inl a ↦ absurd (omega arith) | inr b ↦ absurd (omega arith) ]));
        })
        (index_loop-Returns fuel size seed (i + 1) m cells (set datas p item) (omega arith)
          (omega arith) (refl, chain.1.1.1) (λ q h. infos q (omega arith))
          (omega (arith, length-set datas p item))))
