-- ===== src/Vm.antt =====
-- The supervisor of the virtual-memory test environment: riscv-tests/env/v/vm.c.
-- Modelled at 64 bits. `pa2kva` and `uva2kva` move an address between two mappings of one object,
-- so a node is named by its array and index, and a page by its number.
pub mod Strings
pub mod Lfsr
pub mod Boot
pub mod Count
pub mod Invariant
pub mod Map
pub mod Fault
pub mod Serve
pub mod Run
pub mod Isolation
pub mod Trap
use rsicv_uvm_test.Base.{
  ℕ, zero, suc, ◌+◌, ◌*◌, ◌/◌, ◌^◌, ltb, leb, ◌==◌, if◌then◌else◌, Bool, true, false, ◌&&◌, not,
  bit_and, bit_or, ◌<<<◌, ◌>>>◌, Option, none, some, List, [], ◌∷◌, get_elem?, get_or, set,
}

abbrev pub pgshift : ℕ
pgshift = 12

abbrev pub pgsize : ℕ
pgsize = 2 ^ 12

abbrev pub max_test_pages : ℕ
max_test_pages = 63

abbrev pub pte_a : ℕ
pte_a = 0x040

abbrev pub pte_d : ℕ
pte_d = 0x080

abbrev pub pte_ppn_shift : ℕ
pte_ppn_shift = 10

abbrev pub cause_store_page_fault : ℕ
cause_store_page_fault = 0xf

-- A `freelist_t*`.
pub data NodePtr : Type 0 where
  null : NodePtr
  user_node free_node : ℕ → NodePtr

pub record FreeNode : Type 0 where
  pub addr : ℕ
  pub next : NodePtr

-- The globals of the file. `frames` holds the physical pages by page number, `image` the pages of
-- the test as the kernel maps them, by the number of the user page.
pub record Vm : Type 0 where
  pub user_l3pt : List ℕ
  pub user_mapping : List FreeNode
  pub freelist_nodes : List FreeNode
  pub freelist_head : NodePtr
  pub freelist_tail : NodePtr
  pub frames : ℕ → List ℕ
  pub image : ℕ → List ℕ

-- A handler returns to the program, or a failed `assert` ends the test by `terminate(3)`.
-- `ended` is the `terminate` behind the eviction of the pages, with the state that it leaves. `stray` is an
-- access through a null or dangling pointer.
pub data Outcome : Type 0 where
  resumed : Vm → Outcome
  ended : (code : ℕ) → Vm → Outcome
  halted : ℕ → Outcome
  stray : Outcome

abbrev pub assert : Bool → Outcome → Outcome
assert c k = if c then k else halted 3

abbrev pub same_node : NodePtr → NodePtr → Bool
same_node null null = true
same_node (user_node i) (user_node j) = i == j
same_node (free_node i) (free_node j) = i == j
same_node _ _ = false

abbrev pub is_null : NodePtr → Bool
is_null null = true
is_null _ = false

-- `*p`.
abbrev pub deref : Vm → NodePtr → Option FreeNode
deref s null = none
deref s (user_node i) = get_elem? s.user_mapping i
deref s (free_node i) = get_elem? s.freelist_nodes i

abbrev pub update : (ℕ → List ℕ) → ℕ → List ℕ → ℕ → List ℕ
update f i v j = if j == i then v else f j

-- `(node->addr >> PGSHIFT << PTE_PPN_SHIFT) | PTE_V | PTE_U | PTE_R | PTE_W | PTE_X`.
unfoldable pub new_pte : ℕ → ℕ
new_pte addr =
    bit_or
      (bit_or (bit_or (bit_or (bit_or ((addr >>> pgshift) <<< pte_ppn_shift) 0x001) 0x010) 0x002)
        0x004)
      0x008

-- `handle_fault` on a page that is mapped: set the accessed or the dirty bit.
unfoldable pub touch : (page cause : ℕ) → Vm → Outcome
touch page cause s =
    let pte = get_or s.user_l3pt page 0 in
    if bit_and pte pte_a == 0
    then resumed (record s { user_l3pt = set s.user_l3pt page (bit_or pte pte_a) })
    else assert (bit_and pte pte_d == 0 && cause == cause_store_page_fault)
        (resumed (record s { user_l3pt = set s.user_l3pt page (bit_or pte pte_d) }))

-- `handle_fault` on a page that is not mapped: take a frame and copy the page into it. While the
-- page is copied its entry has the accessed and dirty bits too.
unfoldable pub map_page : (page : ℕ) → Vm → Outcome
map_page page s = elim (is_null s.freelist_head) [
  | true ↦ halted 3
  | false ↦ elim (deref s s.freelist_head) [
    | none ↦ stray
    | some node ↦
        let s1 = record s {
          freelist_head = node.next;
          freelist_tail = if same_node node.next s.freelist_tail then null else s.freelist_tail;
        } in
        let pte = new_pte node.addr in
        let s2 = record s1 {
          user_l3pt = set s1.user_l3pt page (bit_or (bit_or pte pte_a) pte_d);
        } in
        elim (get_elem? s2.user_mapping page) [
          | none ↦ stray
          | some old ↦ assert (old.addr == 0) (
              resumed (record s2 {
                user_mapping = set s2.user_mapping page node;
                frames = update s2.frames (node.addr >>> pgshift) (s2.image page);
                user_l3pt = set s2.user_l3pt page pte;
              }))
        ]
  ]
]

unfoldable pub handle_fault : (addr cause : ℕ) → Vm → Outcome
unfolding touch map_page
handle_fault addr cause s =
    let page = addr / pgsize in
    assert (leb pgsize addr && ltb addr (max_test_pages * pgsize))
      (if get_or s.user_l3pt page 0 == 0 then map_page page s else touch page cause s)
