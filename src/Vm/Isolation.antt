-- ===== src/Vm/Isolation.antt =====
-- What holds in every state that the test environment can be in while its program runs.
use native.Mathlib.Decide.{ℕ_discrete}
use rsicv_uvm_test.Base.{
  ℕ, ◌/◌, ◌≤◌, ◌≡◌, ◌≢◌, sym, ap, ◌∙◌, arith, bit_and, List, get_or, get_or-set_ne,
}
use rsicv_uvm_test.Bits.Fields.{bit_and_bit}
use rsicv_uvm_test.Vm.{pgsize, pte_d, Vm, handle_fault}
use rsicv_uvm_test.Vm.Boot.{boot}
use rsicv_uvm_test.Vm.Count.{levels, levels-set, levels-le, levels-none}
use rsicv_uvm_test.Vm.Invariant.{IsMapped, pte_at, frame_of}
use rsicv_uvm_test.Vm.Fault.{IsFault}
use rsicv_uvm_test.Vm.Serve.{Served, Serves, handle_fault-Serves, frames_apart}
use rsicv_uvm_test.Vm.Run.{
  Run, started, faulted, stored, step-Served, Run-Inv, Run-image, get_or-replicate,
}

abbrev IsClean : Vm → ℕ → Type 0
IsClean s page = bit_and (pte_at s page) pte_d ≡ 0

-- A page that is clean after its fault was served was clean before.
IsClean-before :
    (s t : Vm) (page : ℕ) → Served s t page → IsClean t page → IsMapped s page → IsClean s page
IsClean-before s t page v clean m =
    ground
      (arith, v.climbs, v.present, bit_and_bit 7 (pte_at s page), bit_and_bit 7 (pte_at t page))

other_entry : (s t : Vm) (page q : ℕ) → Served s t page → page ≢ q → pte_at t q ≡ pte_at s q
other_entry s t page q v ne =
    ap (λ (l : List ℕ). get_or l q 0) v.table
    ∙ get_or-set_ne s.user_l3pt page q (pte_at t page) 0 ne

module _ (entropy : ℕ) (frames image : ℕ → List ℕ) where
  -- In every state of a run, `handle_fault` comes back from each fault that the hardware can raise.
  -- The page is then mapped and one level higher, of mapped, accessed and dirty; no other entry of
  -- the table and no frame of another mapped page has changed; and a page that was not mapped has
  -- the contents that it was loaded with.
  pub Run-fault-Serves :
      (n : ℕ) (s : Vm) (addr cause : ℕ)
      → Run entropy frames image n s
      → IsFault s addr cause
      → Serves s (addr / pgsize) (handle_fault addr cause s)
  Run-fault-Serves n s addr cause r f =
      handle_fault-Serves s addr cause (Run-Inv entropy frames image n s r) f

  -- In every state of a run, two mapped pages have different frames.
  pub Run-isolated :
      (n : ℕ) (s : Vm) (p q : ℕ)
      → Run entropy frames image n s
      → IsMapped s p
      → IsMapped s q
      → p ≢ q
      → frame_of s p ≢ frame_of s q
  Run-isolated n s p q r = frames_apart s p q (Run-Inv entropy frames image n s r)

  pub Run-levels : (n : ℕ) (s : Vm) → Run entropy frames image n s → levels 63 s.user_l3pt ≡ n
  unfolding boot
  Run-levels _ _ started =
      levels-none 63 (boot entropy frames image).user_l3pt (λ i. get_or-replicate 512 i 0)
  Run-levels _ _ (faulted n s t addr cause r f e) =
      let page = addr / pgsize in
      let v = step-Served s t addr cause (Run-Inv entropy frames image n s r) f e in
      let sum = levels-set 63 page (pte_at t page) s.user_l3pt v.present.0 v.in_table in
      let climbs = v.climbs in
      let before = Run-levels n s r in rw v.table (omega (arith, sum, climbs, before))
  Run-levels _ _ (stored n s page contents r m d) = Run-levels n s r

  -- A run has at most 186 faults.
  pub Run-fault_bound : (n : ℕ) (s : Vm) → Run entropy frames image n s → n ≤ 186
  Run-fault_bound n s r = omega (
    arith,
    Run-levels n s r,
    levels-le 62 s.user_l3pt (Run-Inv entropy frames image n s r).page_zero,
  )

  Served-clean :
      (n : ℕ) (s t : Vm) (page : ℕ)
      → Run entropy frames image n s
      → Served s t page
      → IsClean t page
      → (IsMapped s page → IsClean s page → s.frames (frame_of s page) ≡ image page)
      → t.frames (frame_of t page) ≡ image page
  Served-clean n s t page r v clean before = elim (ℕ_discrete (pte_at s page) 0) [
    | yes free ↦
        v.filled free ∙ ap (λ (f : ℕ → List ℕ). f page) (Run-image entropy frames image n s r)
    | no used ↦
        let m : IsMapped s page = (v.present.0, used) in
        ap t.frames (v.stays used) ∙ v.others page m ∙ before m (IsClean-before s t page v clean m)
  ]

  -- In every state of a run, a mapped page that is not marked dirty has the contents that the test
  -- was loaded with in its frame.
  pub Run-clean_pristine :
      (n : ℕ) (s : Vm) (q : ℕ)
      → Run entropy frames image n s
      → IsMapped s q
      → bit_and (pte_at s q) pte_d ≡ 0
      → s.frames (frame_of s q) ≡ image q
  unfolding boot
  Run-clean_pristine _ _ q started m clean = absurd (m.1 (get_or-replicate 512 q 0))
  Run-clean_pristine _ _ q (stored n s page contents r m d) mq clean =
      let ne : q ≢ page = λ z. d (ap (λ (x : ℕ). bit_and (pte_at s x) pte_d) (sym z) ∙ clean) in
      let apart = Run-isolated n s q page r mq m ne in
      let before = Run-clean_pristine n s q r mq clean in ground (arith, before)
  Run-clean_pristine _ _ q (faulted n s t addr cause r f e) mq clean =
      let page = addr / pgsize in
      let v = step-Served s t addr cause (Run-Inv entropy frames image n s r) f e in
      elim (ℕ_discrete page q) [
        | yes same ↦
            let mp : IsMapped t page = v.present in
            let cp : IsClean t page = ap (λ (x : ℕ). bit_and (pte_at t x) pte_d) same ∙ clean in
            rw (← same) (Served-clean n s t page r v cp (Run-clean_pristine n s page r))
        | no ne ↦
            let entry = other_entry s t page q v ne in
            let m : IsMapped s q = (mq.0, λ z. mq.1 (entry ∙ z)) in
            ap (λ (x : ℕ). t.frames (x / 1024)) entry
            ∙ v.others q m
            ∙ Run-clean_pristine n s q r m (ap (λ (x : ℕ). bit_and x pte_d) (sym entry) ∙ clean)
      ]
