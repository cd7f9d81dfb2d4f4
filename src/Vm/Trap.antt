-- ===== src/Vm/Trap.antt =====
-- The way out of the test: `evict`, and `handle_trap` with the fault handler below it.
-- `terminate` ends the test with the 32 bits of its argument. The word at an address of the program,
-- and the instruction `fssr x0` as the assembler encodes it, are arguments.
pub mod Release
pub mod Evict
pub mod Exit
use rsicv_uvm_test.Base.{
  ℕ, zero, suc, ◌+◌, ◌*◌, ◌/◌, ◌%◌, ◌^◌, ltb, leb, ◌==◌, if◌then◌else◌, Bool, true, false, ◌&&◌,
  ◌||◌, not, bit_and, ◌>>>◌, Option, none, some, List, [], ◌∷◌, get_elem?, get_or, set,
}
use rsicv_uvm_test.Vm.{
  pgsize, max_test_pages, pte_a, pte_d, pte_ppn_shift, cause_store_page_fault, NodePtr, null,
  user_node, free_node, FreeNode, Vm, Outcome, resumed, ended, halted, stray, assert, is_null,
  update, handle_fault,
}

abbrev pub cause_illegal_instruction : ℕ
cause_illegal_instruction = 0x2

abbrev pub cause_user_ecall : ℕ
cause_user_ecall = 0x8

abbrev pub cause_fetch_page_fault : ℕ
cause_fetch_page_fault = 0xc

abbrev pub cause_load_page_fault : ℕ
cause_load_page_fault = 0xd

-- The fields of `trapframe_t` that the handler reads; `a0` is `gpr[10]`.
pub record Trapframe : Type 0 where
  pub a0 : ℕ
  pub epc : ℕ
  pub badvaddr : ℕ
  pub cause : ℕ

-- `memcmp(p, q, PGSIZE) == 0`.
abbrev pub same_page : List ℕ → List ℕ → Bool
same_page [] [] = true
same_page [] (y ∷ ys) = false
same_page (x ∷ xs) [] = false
same_page (x ∷ xs) (y ∷ ys) = x == y && same_page xs ys

-- `p->next = q`.
pub link : (p q : NodePtr) → Vm → Option Vm
link null q s = none
link (user_node i) q s = elim (get_elem? s.user_mapping i) [
  | none ↦ none
  | some node ↦
      some
        (record s { user_mapping = set s.user_mapping i (record { addr = node.addr; next = q }) })
]
link (free_node i) q s = elim (get_elem? s.freelist_nodes i) [
  | none ↦ none
  | some node ↦
      some (record s {
        freelist_nodes = set s.freelist_nodes i (record { addr = node.addr; next = q });
      })
]

-- `user_mapping[page].addr = 0`.
abbrev pub unused : (page : ℕ) → FreeNode → Vm → Vm
unused page node s = record s {
  user_mapping = set s.user_mapping page (record { addr = 0; next = node.next });
}

-- Mark the page's node unused and append it to the free list.
pub release : (page : ℕ) → (node : FreeNode) → Vm → Outcome
unfolding link
release page node s =
    let s1 = unused page node s in
    if is_null s.freelist_tail
    then resumed (record s1 { freelist_head = user_node page; freelist_tail = user_node page })
    else (elim (link s.freelist_tail (user_node page) s1) [
      | none ↦ stray
      | some s2 ↦ resumed (record s2 { freelist_tail = user_node page })
    ])

-- `evict` behind the test of its address.
pub evict_node : (page : ℕ) → Vm → Outcome
unfolding release
evict_node page s = elim (get_elem? s.user_mapping page) [
  | none ↦ stray
  | some node ↦
      let pte = get_or s.user_l3pt page 0 in
      let frame = pte >>> pte_ppn_shift in
      if node.addr == 0
      then resumed s
      else assert (not (bit_and pte pte_a == 0)) (
          if same_page (s.frames frame) (s.image page)
          then release page node s
          else assert (not (bit_and pte pte_d == 0))
              (release page node (record s { frames = update s.frames frame (s.image page) })))
]

pub evict : (addr : ℕ) → Vm → Outcome
unfolding evict_node
evict addr s =
    assert (leb pgsize addr && ltb addr (max_test_pages * pgsize)) (evict_node (addr / pgsize) s)

abbrev pub and_then : Outcome → (Vm → Outcome) → Outcome
and_then (resumed s) k = k s
and_then (ended code s) k = ended code s
and_then (halted code) k = halted code
and_then stray k = stray

-- `for (long i = 1; i < MAX_TEST_PAGES; i++) evict(i*PGSIZE);` from `i`, with `left` rounds to go.
pub evict_pages : (left i : ℕ) → Vm → Outcome
unfolding evict
evict_pages zero i s = resumed s
evict_pages (suc left) i s = and_then (evict (i * pgsize) s) (evict_pages left (i + 1))

pub handle_trap : (word_at : ℕ → ℕ) → (fssr : ℕ) → Trapframe → Vm → Outcome
unfolding evict_pages handle_fault
handle_trap word_at fssr tf s =
    if tf.cause == cause_user_ecall
    then and_then (evict_pages 62 1 s) (ended (tf.a0 % 2 ^ 32))
    else if tf.cause == cause_illegal_instruction
    then assert (tf.epc % 4 == 0) (if word_at tf.epc == fssr then halted 1 else halted 3)
    else if tf.cause == cause_fetch_page_fault
        || (tf.cause == cause_load_page_fault || tf.cause == cause_store_page_fault)
    then handle_fault tf.badvaddr tf.cause s
    else halted 3
