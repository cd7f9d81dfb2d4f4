-- ===== src/Vm/Fault.antt =====
-- The faults that the hardware can raise, and the new entry of a page that is mapped already.
use rsicv_uvm_test.Base.{
  ℕ, ◌+◌, ◌*◌, ◌/◌, ◌≤◌, ◌<◌, ◌≡◌, ◌≢◌, sym, ◌∙◌, arith, ◌⊎◌, ◌==◌, if◌then◌else◌, bit_and, bit_or,
  length, length-set, get_or, set,
}
use rsicv_uvm_test.Bits.Fields.{bit_and_bit, bit_or_bit}
use rsicv_uvm_test.Vm.{pgsize, max_test_pages, pte_a, pte_d, cause_store_page_fault, Vm}
use rsicv_uvm_test.Vm.Count.{mapped-set_kept}
use rsicv_uvm_test.Vm.Map.{entry_at}
use rsicv_uvm_test.Vm.Invariant.{Inv, IsMapped, pte_at, frame_of}

-- The accessed and the dirty bit lie below the frame number.
pub set_a_frame :
    (pte : ℕ)
    → (bit_or pte pte_a / 1024 ≡ pte / 1024)
      × (pte ≤ bit_or pte pte_a)
      × (bit_and pte pte_a ≡ 0 → bit_or pte pte_a ≡ pte + 64)
set_a_frame pte = omega (arith, bit_or_bit 6 pte, bit_and_bit 6 pte)

pub set_d_frame :
    (pte : ℕ)
    → (bit_or pte pte_d / 1024 ≡ pte / 1024)
      × (pte ≤ bit_or pte pte_d)
      × (bit_and pte pte_d ≡ 0 → bit_or pte pte_d ≡ pte + 128)
set_d_frame pte = omega (arith, bit_or_bit 7 pte, bit_and_bit 7 pte)

-- A new entry with the same frame in a mapped page's place keeps the invariant.
pub retag-Inv :
    (s : Vm) (page pte : ℕ)
    → IsMapped s page
    → pte / 1024 ≡ frame_of s page
    → pte ≢ 0
    → Inv s
    → Inv (record s { user_l3pt = set s.user_l3pt page pte })
retag-Inv s page pte m same ne v = record {
  seed = v.seed;
  is_seed = v.is_seed;
  nodes = v.nodes;
  tail = v.tail;
  used = v.used;
  head = v.head;
  counted = v.counted ∙ sym (mapped-set_kept 63 page pte s.user_l3pt inside m.1 ne);
  table_length = rw (length-set s.user_l3pt page pte) v.table_length;
  mapping_length = v.mapping_length;
  page_zero = ground (arith, v.page_zero, entry 0);
  owner = v.owner;
  owned = λ q mq. ground (arith, entry q, v.owned q, v.owned page m);
  unowned = λ q h e. ground (arith, entry q, v.unowned q);
  apart = λ p q mp mq different. v.apart p q (before p mp) (before q mq) different;
}
  where
    inside : page < length s.user_l3pt
    inside = omega (arith, v.table_length, m.0)

    entry :
        (q : ℕ)
        → get_or (set s.user_l3pt page pte) q 0
          ≡ (if q == page then pte else get_or s.user_l3pt q 0)
    entry q = entry_at s.user_l3pt page pte q inside

    before : (q : ℕ) → IsMapped (record s { user_l3pt = set s.user_l3pt page pte }) q → IsMapped s q
    before q mq = ground (arith, entry q, m)

-- What the hardware can raise: a fault on a user page of the test, and on a mapped page only for
-- a clear accessed bit, or for a store with a clear dirty bit.
pub record IsFault (s : Vm) (addr cause : ℕ) : Type 0 where
  pub low : pgsize ≤ addr
  pub high : addr < max_test_pages * pgsize
  pub why :
      pte_at s (addr / pgsize) ≢ 0
      → (bit_and (pte_at s (addr / pgsize)) pte_a ≡ 0)
        ⊎ ((bit_and (pte_at s (addr / pgsize)) pte_d ≡ 0) × (cause ≡ cause_store_page_fault))
