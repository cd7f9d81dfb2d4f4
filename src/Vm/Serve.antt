-- ===== src/Vm/Serve.antt =====
-- `handle_fault` on every fault that the hardware can raise.
use rsicv_uvm_test.Base.{
  ℕ, ◌+◌, ◌*◌, ◌/◌, ◌≤◌, ◌<◌, ◌≡◌, ◌≢◌, refl, sym, ap, ◌∙◌, arith, ◌⊎◌, inl, inr, ◌==◌, ltb, leb,
  ◌&&◌, Bool-cases, true, bit_and, bit_or, ◌>>>◌, length, get_or, get_or-set_self, get_or-set_ne,
  set,
}
use rsicv_uvm_test.Bits.Fields.{bit_and_bit}
use rsicv_uvm_test.Vm.{
  pgsize, max_test_pages, pte_a, pte_d, cause_store_page_fault, Vm, Outcome, resumed, new_pte,
  touch, handle_fault,
}
use rsicv_uvm_test.Vm.Lfsr.{lfsr_after, lfsr_period}
use rsicv_uvm_test.Vm.Boot.{page_addr}
use rsicv_uvm_test.Vm.Count.{mapped-le, level}
use rsicv_uvm_test.Vm.Map.{new_pte_lem, next_node, after_map, map_page_lem, after_map-Inv}
use rsicv_uvm_test.Vm.Invariant.{Inv, IsMapped, pte_at, frame_of}
use rsicv_uvm_test.Vm.Fault.{IsFault, set_a_frame, set_d_frame, retag-Inv}

-- What a fault on a page leaves when the handler comes back.
pub record Served (s t : Vm) (page : ℕ) : Type 0 where
  pub keeps : Inv t
  pub present : IsMapped t page
  pub climbs : level (pte_at t page) ≡ level (pte_at s page) + 1
  pub in_table : page < length s.user_l3pt
  pub table : t.user_l3pt ≡ set s.user_l3pt page (pte_at t page)
  pub filled : pte_at s page ≡ 0 → t.frames (frame_of t page) ≡ s.image page
  pub stays : pte_at s page ≢ 0 → frame_of t page ≡ frame_of s page
  pub others : (q : ℕ) → IsMapped s q → t.frames (frame_of s q) ≡ s.frames (frame_of s q)
  pub same_image : t.image ≡ s.image

-- The handler comes back.
pub record Serves (s : Vm) (page : ℕ) (o : Outcome) : Type 0 where
  pub state : Vm
  pub returned : o ≡ resumed state
  pub served : Served s state page

-- Two mapped pages have two frames.
pub frames_apart :
    (s : Vm) (p q : ℕ) → Inv s → IsMapped s p → IsMapped s q → p ≢ q → frame_of s p ≢ frame_of s q
frames_apart s p q v mp mq ne =
    let (_, _, different) = lfsr_period v.seed v.is_seed in
    let bound = mapped-le 63 s.user_l3pt in
    let (up, ap_is, fp) = v.owned p mp in
    let (uq, aq_is, fq) = v.owned q mq in
    let apart =
      different (v.owner p) (v.owner q) (omega (arith, v.counted)) (omega (arith, v.counted))
        (v.apart p q mp mq ne) in
    omega arith

level_a : (pte : ℕ) → pte ≢ 0 → bit_and pte pte_a ≡ 0 → level (bit_or pte pte_a) ≡ level pte + 1
level_a pte ne clear = rw ((set_a_frame pte).2 clear) (ground (arith, bit_and_bit 6 pte))

level_d : (pte : ℕ) → pte ≢ 0 → bit_and pte pte_d ≡ 0 → level (bit_or pte pte_d) ≡ level pte + 1
level_d pte ne clear = rw ((set_d_frame pte).2 clear) (ground (arith, bit_and_bit 7 pte))

retagged : (s : Vm) (page pte : ℕ) → Vm
retagged s page pte = record s { user_l3pt = set s.user_l3pt page pte }

retag-Served :
    (s : Vm) (page pte : ℕ)
    → Inv s
    → IsMapped s page
    → pte / 1024 ≡ frame_of s page
    → pte ≢ 0
    → level pte ≡ level (pte_at s page) + 1
    → Served s (retagged s page pte) page
unfolding retagged
retag-Served s page pte v m frame ne climb =
    let inside : page < length s.user_l3pt = omega (arith, v.table_length, m.0) in
    let at : pte_at (retagged s page pte) page ≡ pte =
      get_or-set_self s.user_l3pt page pte 0 inside in
    record {
      keeps = retag-Inv s page pte m frame ne v;
      present = (m.0, λ e. ne (sym at ∙ e));
      climbs = ap level at ∙ climb;
      in_table = inside;
      table = ap (set s.user_l3pt page) (sym at);
      filled = λ e. absurd (m.1 e);
      stays = λ _. ap (λ (x : ℕ). x / 1024) at ∙ frame;
      others = λ q mq. refl;
      same_image = refl;
    }

touch-Serves :
    (s : Vm) (page cause : ℕ)
    → Inv s
    → IsMapped s page
    → (bit_and (pte_at s page) pte_a ≡ 0)
      ⊎ ((bit_and (pte_at s page) pte_d ≡ 0) × (cause ≡ cause_store_page_fault))
    → Serves s page (touch page cause s)
unfolding touch retagged
touch-Serves s page cause v m why = elim (Bool-cases (bit_and (pte_at s page) pte_a == 0)) [
  | inl clear ↦
      let (frame, more, _) = set_a_frame (pte_at s page) in
      let a_clear : bit_and (pte_at s page) pte_a ≡ 0 = ground arith in
      rw clear (record {
        state = retagged s page (bit_or (pte_at s page) pte_a);
        returned = refl;
        served =
            retag-Served s page (bit_or (pte_at s page) pte_a) v m frame (ground arith)
              (level_a (pte_at s page) m.1 a_clear);
      })
  | inr marked ↦
      let (frame, more, _) = set_d_frame (pte_at s page) in
      let d_clear : bit_and (pte_at s page) pte_d ≡ 0 = ground arith in
      let allowed : (bit_and (pte_at s page) pte_d == 0 && cause == cause_store_page_fault) ≡ true =
        ground arith in
      rw (marked, allowed)
        (record {
          state = retagged s page (bit_or (pte_at s page) pte_d);
          returned = refl;
          served =
              retag-Served s page (bit_or (pte_at s page) pte_d) v m frame (ground arith)
                (level_d (pte_at s page) m.1 d_clear);
        })
]

map-Served :
    (s : Vm) (page : ℕ) (v : Inv s)
    → 1 ≤ page
    → page < 63
    → pte_at s page ≡ 0
    → Served s (after_map s page (next_node v.seed v.used)) page
map-Served s page v first last free =
    let inside : page < length s.user_l3pt = omega (arith, v.table_length) in
    let addr = page_addr (lfsr_after v.used v.seed) in
    let pte = new_pte addr in
    let value : pte ≡ addr / 4096 * 1024 + 31 = new_pte_lem addr in
    let at : get_or (set s.user_l3pt page pte) page 0 ≡ pte =
      get_or-set_self s.user_l3pt page pte 0 inside in
    let keep = after_map-Inv s page v first last free in
    let mapped_page : IsMapped (after_map s page (next_node v.seed v.used)) page =
      (last, λ e. omega (arith, at, e)) in
    let new_frame : frame_of (after_map s page (next_node v.seed v.used)) page ≡ addr >>> 12 =
      omega (arith, at, value) in
    record {
      keeps = keep;
      present = mapped_page;
      climbs = ap level at ∙ ground (arith, value);
      in_table = inside;
      table = ap (set s.user_l3pt page) (sym at);
      filled = λ e. ground (arith, value, at);
      stays = λ ne. absurd (ne free);
      others = λ q mq.
          let ne : q ≢ page = λ e. mq.1 (ap (pte_at s) e ∙ free) in
          let kept : get_or (set s.user_l3pt page pte) q 0 ≡ pte_at s q =
            get_or-set_ne s.user_l3pt page q pte 0 (λ e. ne (sym e)) in
          let apart =
            frames_apart (after_map s page (next_node v.seed v.used)) q page keep
              (mq.0, λ e. mq.1 (sym kept ∙ e)) mapped_page ne in
          let other : frame_of s q ≢ addr >>> 12 =
            λ e. apart (ap (λ (x : ℕ). x / 1024) kept ∙ e ∙ sym new_frame) in
          ground (arith, other);
      same_image = refl;
    }

-- From a state with the invariant, `handle_fault` comes back from every fault that the hardware can
-- raise, and it has served the page: see Served.
pub handle_fault-Serves :
    (s : Vm) (addr cause : ℕ)
    → Inv s
    → IsFault s addr cause
    → Serves s (addr / pgsize) (handle_fault addr cause s)
unfolding handle_fault
handle_fault-Serves s addr cause v f =
    let page = addr / pgsize in
    let in_range : (leb pgsize addr && ltb addr (max_test_pages * pgsize)) ≡ true =
      ground (arith, f.low, f.high) in
    let first : 1 ≤ page = omega (arith, f.low) in
    let last : page < 63 = omega (arith, f.high) in
    rw in_range (elim (Bool-cases (pte_at s page == 0)) [
      | inl free ↦
          let unmapped : pte_at s page ≡ 0 = ground arith in
          rw (free, map_page_lem s page v first last unmapped)
            (record {
              state = after_map s page (next_node v.seed v.used);
              returned = refl;
              served = map-Served s page v first last unmapped;
            })
      | inr present ↦
          let used : pte_at s page ≢ 0 = ground arith in
          rw present (touch-Serves s page cause v (last, used) (f.why used))
    ])
