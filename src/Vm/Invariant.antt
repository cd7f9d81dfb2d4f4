-- ===== src/Vm/Invariant.antt =====
-- What holds of the fault handler's state between two faults, until the program ends.
use rsicv_uvm_test.Base.{
  ℕ, ◌/◌, ◌≤◌, ◌<◌, ◌≡◌, ◌≢◌, ◌==◌, ltb, Bool, true, if◌then◌else◌, length, get_or,
}
use rsicv_uvm_test.Vm.{NodePtr, null, user_node, free_node, FreeNode, Vm}
use rsicv_uvm_test.Vm.Lfsr.{lfsr_after, IsSeed}
use rsicv_uvm_test.Vm.Boot.{page_addr, boot_nodes}
use rsicv_uvm_test.Vm.Count.{mapped}

-- The head of the free list when `used` frames are taken.
abbrev pub head_at : ℕ → NodePtr
head_at used = if used == 63 then null else free_node used

abbrev pub no_node : FreeNode
no_node = record { addr = 0; next = null }

abbrev pub pte_at : Vm → ℕ → ℕ
pte_at s page = get_or s.user_l3pt page 0

-- The user page is mapped.
abbrev pub IsMapped : Vm → ℕ → Type 0
IsMapped s page = (page < 63) × (pte_at s page ≢ 0)

-- The physical page number that the table gives for a user page.
abbrev pub frame_of : Vm → ℕ → ℕ
frame_of s page = pte_at s page / 1024

abbrev pub mapping_addr : Vm → ℕ → ℕ
mapping_addr s page = (get_or s.user_mapping page no_node).addr

-- The pointer is null or points to a node.
abbrev pub is_node_or_null : NodePtr → Bool
is_node_or_null null = true
is_node_or_null (user_node i) = ltb i 63
is_node_or_null (free_node i) = ltb i 63

pub record Inv (s : Vm) : Type 0 where
  pub seed : ℕ
  pub is_seed : IsSeed seed
  pub nodes : s.freelist_nodes ≡ boot_nodes 63 0 seed
  pub tail : is_node_or_null s.freelist_tail ≡ true
  pub used : ℕ
  pub head : s.freelist_head ≡ head_at used
  pub counted : used ≡ mapped 63 s.user_l3pt
  pub table_length : 63 ≤ length s.user_l3pt
  pub mapping_length : length s.user_mapping ≡ 63
  pub page_zero : pte_at s 0 ≡ 0
  -- The index of the frame that a mapped page was given.
  pub owner : ℕ → ℕ
  pub owned :
      (page : ℕ)
      → IsMapped s page
      → (owner page < used)
        × (mapping_addr s page ≡ page_addr (lfsr_after (owner page) seed))
        × (frame_of s page ≡ mapping_addr s page / 4096)
  pub unowned : (page : ℕ) → page < 63 → pte_at s page ≡ 0 → mapping_addr s page ≡ 0
  pub apart : (p q : ℕ) → IsMapped s p → IsMapped s q → p ≢ q → owner p ≢ owner q
