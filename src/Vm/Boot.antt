-- ===== src/Vm/Boot.antt =====
-- What `vm_boot` makes of the free list and the tables before it starts the program. The writes to
-- control registers and the two upper page tables have no part in the fault handler.
use rsicv_uvm_test.Base.{
  ℕ, zero, suc, ◌+◌, ◌*◌, ◌%◌, ◌<◌, ◌≡◌, refl, ap, arith, ◌==◌, if◌then◌else◌, some, List, [], ◌∷◌,
  length, get_elem?, replicate,
}
use rsicv_uvm_test.Vm.{pgsize, max_test_pages, null, free_node, FreeNode, Vm}
use rsicv_uvm_test.Vm.Lfsr.{lfsr_next, lfsr_after}

abbrev pub dram_base : ℕ
dram_base = 0x8000_0000

abbrev pub ptes_per_pt : ℕ
ptes_per_pt = 512

-- The physical address of the free page that `random` selects.
abbrev pub page_addr : ℕ → ℕ
page_addr random = dram_base + (max_test_pages + random) * pgsize

-- The loop that fills `freelist_nodes`, from the index `i`; the last link is written null after it.
unfoldable pub boot_nodes : (left i random : ℕ) → List FreeNode
boot_nodes zero i random = []
boot_nodes (suc left) i random =
    record { addr = page_addr random; next = if left == 0 then null else free_node (i + 1) }
    ∷ boot_nodes left (i + 1) (lfsr_next random)

-- `random = 1 + (random % MAX_TEST_PAGES)`.
abbrev pub first_random : ℕ → ℕ
first_random entropy = 1 + entropy % max_test_pages

unfoldable pub boot : (entropy : ℕ) → (frames image : ℕ → List ℕ) → Vm
unfolding boot_nodes
boot entropy frames image = record {
  user_l3pt = replicate ptes_per_pt 0;
  user_mapping = replicate max_test_pages (record { addr = 0; next = null });
  freelist_nodes = boot_nodes max_test_pages 0 (first_random entropy);
  freelist_head = free_node 0;
  freelist_tail = free_node 62;
  frames = frames;
  image = image;
}

-- The node at an index of the filled array.
pub boot_nodes_at :
    (left i random j : ℕ)
    → j < left
    → get_elem? (boot_nodes left i random) j
      ≡ some (record {
        addr = page_addr (lfsr_after j random);
        next = if suc j == left then null else free_node (i + j + 1);
      })
unfolding boot_nodes lfsr_after
boot_nodes_at zero i random j lt = absurd (omega arith)
boot_nodes_at (suc left) i random zero lt = ground arith
boot_nodes_at (suc left) i random (suc j) lt =
    ground (arith, boot_nodes_at left (i + 1) (lfsr_next random) j)

pub length-boot_nodes : (left i random : ℕ) → length (boot_nodes left i random) ≡ left
unfolding boot_nodes
length-boot_nodes zero i random = refl
length-boot_nodes (suc left) i random = ap suc (length-boot_nodes left (i + 1) (lfsr_next random))
