-- ===== src/Vm/Map.antt =====
-- Mapping a page: `handle_fault` on an entry that is 0.
use native.Mathlib.Decide.{ℕ_discrete}
use rsicv_uvm_test.Base.{
  ℕ, suc, ◌+◌, ◌*◌, ◌/◌, ◌≤◌, ◌<◌, ◌≡◌, ◌≢◌, refl, sym, ap, ◌∙◌, arith, ◌==◌, if◌then◌else◌, true,
  false, bit_or, ◌>>>◌, some, List, length, length-set, get_or, get_or-set_self, get_or-set_ne,
  set-set, get_elem?, get_elem?-eq-get_or, set,
}
use rsicv_uvm_test.Bits.Fields.{bit_or_bit}
use rsicv_uvm_test.Vm.{
  pte_a, pte_d, null, free_node, FreeNode, Vm, resumed, new_pte, map_page, update, same_node,
  is_null, deref,
}
use rsicv_uvm_test.Vm.Lfsr.{lfsr_after}
use rsicv_uvm_test.Vm.Boot.{page_addr, boot_nodes_at}
use rsicv_uvm_test.Vm.Count.{mapped-set_new, mapped_two_free}
use rsicv_uvm_test.Vm.Invariant.{
  Inv, IsMapped, pte_at, frame_of, mapping_addr, no_node, head_at, is_node_or_null,
}

-- The entry of a fresh page: its frame's number over the permission bits.
pub new_pte_lem : (addr : ℕ) → new_pte addr ≡ addr / 4096 * 1024 + 31
unfolding new_pte
new_pte_lem addr =
    let base : ℕ = addr / 4096 * 1024 in
    let valid : bit_or base 0x001 ≡ base + 1 = omega (arith, bit_or_bit 0 base) in
    let user : bit_or (base + 1) 0x010 ≡ base + 17 = omega (arith, bit_or_bit 4 (base + 1)) in
    let read : bit_or (base + 17) 0x002 ≡ base + 19 = omega (arith, bit_or_bit 1 (base + 17)) in
    let written : bit_or (base + 19) 0x004 ≡ base + 23 = omega (arith, bit_or_bit 2 (base + 19)) in
    let run : bit_or (base + 23) 0x008 ≡ base + 31 = omega (arith, bit_or_bit 3 (base + 23)) in
    rw (valid, user, read, written) run

pub entry_at :
    (table : List ℕ) (page pte q : ℕ)
    → page < length table
    → get_or (set table page pte) q 0 ≡ (if q == page then pte else get_or table q 0)
entry_at table page pte q h = elim (ℕ_discrete q page) [
  | yes e ↦ ground (arith, get_or-set_self table page pte 0)
  | no e ↦ ground (arith, get_or-set_ne table page q pte 0)
]

-- The node that the free list holds out next.
abbrev pub next_node : (seed used : ℕ) → FreeNode
next_node seed used = record { addr = page_addr (lfsr_after used seed); next = head_at (suc used) }

-- The state that mapping a page to the frame of `node` leaves.
abbrev pub after_map : Vm → (page : ℕ) → FreeNode → Vm
after_map s page node = record s {
  freelist_head = node.next;
  freelist_tail = if same_node node.next s.freelist_tail then null else s.freelist_tail;
  user_l3pt = set s.user_l3pt page (new_pte node.addr);
  user_mapping = set s.user_mapping page node;
  frames = update s.frames (node.addr >>> 12) (s.image page);
}

map_page_steps :
    (s : Vm) (page : ℕ) (node old : FreeNode)
    → is_null s.freelist_head ≡ false
    → deref s s.freelist_head ≡ some node
    → get_elem? s.user_mapping page ≡ some old
    → old.addr ≡ 0
    → map_page page s ≡ resumed (after_map s page node)
unfolding map_page
map_page_steps s page node old present points at clear =
    rw (map_page, present, points, at, clear)
      (ap (λ (t : List ℕ). resumed (record (after_map s page node) { user_l3pt = t }))
        (set-set s.user_l3pt page (bit_or (bit_or (new_pte node.addr) pte_a) pte_d)
          (new_pte node.addr)))

module _ (s : Vm) (page : ℕ) (v : Inv s) (first : 1 ≤ page) (last : page < 63)
    (free : pte_at s page ≡ 0) where
  frame_left : v.used ≤ 61
  frame_left =
      omega (arith, v.counted, mapped_two_free 63 0 page s.user_l3pt first last v.page_zero free)

  node_at_head : get_elem? s.freelist_nodes v.used ≡ some (next_node v.seed v.used)
  node_at_head = rw v.nodes (ground (arith, frame_left, boot_nodes_at 63 0 v.seed v.used))

  head_node : s.freelist_head ≡ free_node v.used
  head_node = ground (arith, frame_left, v.head)

  slot : get_elem? s.user_mapping page ≡ some (get_or s.user_mapping page no_node)
  slot = get_elem?-eq-get_or s.user_mapping page no_node (omega (arith, v.mapping_length))

  pub map_page_lem : map_page page s ≡ resumed (after_map s page (next_node v.seed v.used))
  map_page_lem =
      map_page_steps s page (next_node v.seed v.used) (get_or s.user_mapping page no_node)
        (ap is_null head_node) (ap (deref s) head_node ∙ node_at_head) slot
        (v.unowned page last free)

  abbrev mapped_now : Vm
  mapped_now = after_map s page (next_node v.seed v.used)

  inside : page < length s.user_l3pt
  inside = omega (arith, v.table_length)

  abbrev fresh : ℕ
  fresh = new_pte (page_addr (lfsr_after v.used v.seed))

  fresh-ne : fresh ≢ 0
  fresh-ne = omega (arith, new_pte_lem (page_addr (lfsr_after v.used v.seed)))

  entry : (q : ℕ) → pte_at mapped_now q ≡ (if q == page then fresh else pte_at s q)
  entry q = entry_at s.user_l3pt page fresh q inside

  addr_now :
      (q : ℕ)
      → mapping_addr mapped_now q
        ≡ (if q == page then page_addr (lfsr_after v.used v.seed) else mapping_addr s q)
  addr_now q = elim (ℕ_discrete q page) [
    | yes e ↦ ground (
      arith,
      get_or-set_self s.user_mapping page (next_node v.seed v.used) no_node,
      v.mapping_length,
    )
    | no e ↦ ground (arith, get_or-set_ne s.user_mapping page q (next_node v.seed v.used) no_node)
  ]

  abbrev owner_now : ℕ → ℕ
  owner_now q = if q == page then v.used else v.owner q

  before : (q : ℕ) → IsMapped mapped_now q → q ≢ page → IsMapped s q
  before q m ne = ground (arith, entry q)

  apart_now :
      (p q : ℕ) → IsMapped mapped_now p → IsMapped mapped_now q → p ≢ q → owner_now p ≢ owner_now q
  apart_now p q mp mq ne same = elim (ℕ_discrete p page) [
    | yes e ↦ elim (ℕ_discrete q page) [
      | yes e' ↦ ne (e ∙ sym e')
      | no q_old ↦ ground (arith, v.owned q (before q mq q_old))
    ]
    | no p_old ↦ elim (ℕ_discrete q page) [
      | yes e' ↦ ground (arith, v.owned p (before p mp p_old))
      | no q_old ↦ ground (arith, v.apart p q (before p mp p_old) (before q mq q_old) ne)
    ]
  ]

  owned_now :
      (q : ℕ)
      → IsMapped mapped_now q
      → (owner_now q < suc v.used)
        × (mapping_addr mapped_now q ≡ page_addr (lfsr_after (owner_now q) v.seed))
        × (frame_of mapped_now q ≡ mapping_addr mapped_now q / 4096)
  owned_now q m = elim (ℕ_discrete q page) [
    | yes e ↦
        let owner_is : owner_now q ≡ v.used = ground arith in
        let entry_is : pte_at mapped_now q ≡ fresh = ground (arith, entry q) in
        let addr_is : mapping_addr mapped_now q ≡ page_addr (lfsr_after v.used v.seed) =
          ground (arith, addr_now q) in
        (
          omega (arith, owner_is),
          addr_is ∙ ap (λ (t : ℕ). page_addr (lfsr_after t v.seed)) (sym owner_is),
          omega (arith, entry_is, addr_is, new_pte_lem (page_addr (lfsr_after v.used v.seed))),
        )
    | no q_old ↦
        let owner_is : owner_now q ≡ v.owner q = ground arith in
        let entry_is : pte_at mapped_now q ≡ pte_at s q = ground (arith, entry q) in
        let addr_is : mapping_addr mapped_now q ≡ mapping_addr s q = ground (arith, addr_now q) in
        let was = v.owned q (before q m q_old) in
        (
          omega (arith, owner_is, was.0),
          addr_is ∙ was.1 ∙ ap (λ (t : ℕ). page_addr (lfsr_after t v.seed)) (sym owner_is),
          ap (λ (t : ℕ). t / 1024) entry_is ∙ was.2 ∙ sym (ap (λ (t : ℕ). t / 4096) addr_is),
        )
  ]

  unowned_now : (q : ℕ) → q < 63 → pte_at mapped_now q ≡ 0 → mapping_addr mapped_now q ≡ 0
  unowned_now q h e = ground (arith, entry q, addr_now q, fresh-ne, v.unowned q)

  tail_now : is_node_or_null mapped_now.freelist_tail ≡ true
  tail_now = ground (arith, v.tail)

  pub after_map-Inv : Inv mapped_now
  after_map-Inv = record {
    seed = v.seed;
    is_seed = v.is_seed;
    nodes = v.nodes;
    tail = tail_now;
    used = suc v.used;
    head = refl;
    counted =
        omega
          (arith, v.counted, mapped-set_new 63 page fresh s.user_l3pt last inside free fresh-ne);
    table_length = rw (length-set s.user_l3pt page fresh) v.table_length;
    mapping_length = length-set s.user_mapping page (next_node v.seed v.used) ∙ v.mapping_length;
    page_zero = ground (arith, v.page_zero, entry 0);
    owner = owner_now;
    owned = owned_now;
    unowned = unowned_now;
    apart = apart_now;
  }
