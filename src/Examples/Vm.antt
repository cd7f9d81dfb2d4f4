-- ===== src/Examples/Vm.antt =====
-- The fault handler on concrete faults.
use rsicv_uvm_test.Base.{
  ℕ, zero, suc, ◌≡◌, ◌≢◌, ◌≤◌, ◌<◌, ◌/◌, refl, arith, inl, List, [], ◌∷◌, bit_and,
}
use rsicv_uvm_test.Vm.{
  Vm, Outcome, resumed, halted, handle_fault, map_page, touch, new_pte, pte_a, pte_d, pgsize,
}
use rsicv_uvm_test.Vm.Lfsr.{lfsr_next, lfsr_after, IsSeed, lfsr_period}
use rsicv_uvm_test.Vm.Boot.{boot, boot_nodes}
use rsicv_uvm_test.Vm.Invariant.{IsMapped, pte_at, frame_of}
use rsicv_uvm_test.Vm.Fault.{IsFault}
use rsicv_uvm_test.Vm.Serve.{Serves}
use rsicv_uvm_test.Vm.Run.{Run, started, faulted, get_or-replicate}
use rsicv_uvm_test.Vm.Trap.{Trapframe, handle_trap}
use rsicv_uvm_test.Vm.Trap.Exit.{Ends, Run-ecall-Ends}
use rsicv_uvm_test.Vm.Isolation.{
  Run-fault-Serves, Run-isolated, Run-fault_bound, Run-clean_pristine,
}

abbrev no_frames : ℕ → List ℕ
no_frames i = []

abbrev test_image : ℕ → List ℕ
test_image i = i ∷ []

abbrev state_of : Outcome → Vm
state_of (resumed s) = s
state_of _ = boot 5 no_frames test_image

abbrev booted : Vm
booted = boot 5 no_frames test_image

abbrev one_mapped : Vm
one_mapped = state_of (handle_fault 0x1004 12 booted)

abbrev two_mapped : Vm
two_mapped = state_of (handle_fault 0x3ffc 15 one_mapped)

entries : (pte_at two_mapped 1 ≡ 0x2001141f) × (pte_at two_mapped 3 ≡ 0x2001881f)
unfolding boot boot_nodes handle_fault map_page touch new_pte lfsr_next
entries = (refl, refl)

-- A load fault on a mapped page with its accessed bit set halts the test.
rejected : handle_fault 0x1004 12 (state_of (handle_fault 0x1004 12 one_mapped)) ≡ halted 3
unfolding boot boot_nodes handle_fault map_page touch new_pte lfsr_next
rejected = refl

first-IsFault : IsFault booted 0x1004 12
unfolding boot boot_nodes
first-IsFault = record { low = omega arith; high = omega arith; why = λ ne. absurd (ne refl) }

after_first : Run 5 no_frames test_image 1 one_mapped
unfolding boot boot_nodes handle_fault map_page touch new_pte lfsr_next
after_first = faulted 0 booted one_mapped 0x1004 12 started first-IsFault refl

second-IsFault : IsFault one_mapped 0x3ffc 15
unfolding boot boot_nodes handle_fault map_page touch new_pte lfsr_next
second-IsFault = record { low = omega arith; high = omega arith; why = λ ne. absurd (ne refl) }

after_second : Run 5 no_frames test_image 2 two_mapped
unfolding boot boot_nodes handle_fault map_page touch new_pte lfsr_next
after_second = faulted 1 one_mapped two_mapped 0x3ffc 15 after_first second-IsFault refl

page_one : IsMapped two_mapped 1
page_one = (omega arith, ground (arith, entries))

page_three : IsMapped two_mapped 3
page_three = (omega arith, ground (arith, entries))

one_clean : bit_and (pte_at two_mapped 1) pte_d ≡ 0
one_clean = rw entries.0 refl

Run-fault-Serves_example : Serves one_mapped (0x3ffc / pgsize) (handle_fault 0x3ffc 15 one_mapped)
Run-fault-Serves_example =
    Run-fault-Serves 5 no_frames test_image 1 one_mapped 0x3ffc 15 after_first second-IsFault

Run-isolated_example : frame_of two_mapped 1 ≢ frame_of two_mapped 3
Run-isolated_example =
    Run-isolated 5 no_frames test_image 2 two_mapped 1 3 after_second page_one page_three
      (omega arith)

Run-fault_bound_example : 2 ≤ 186
Run-fault_bound_example = Run-fault_bound 5 no_frames test_image 2 two_mapped after_second

Run-clean_pristine_example : two_mapped.frames (frame_of two_mapped 1) ≡ 1 ∷ []
Run-clean_pristine_example =
    Run-clean_pristine 5 no_frames test_image 2 two_mapped 1 after_second page_one one_clean

lfsr_period_example :
    (lfsr_after 63 6 ≡ 6)
    × ((i : ℕ) → IsSeed (lfsr_after i 6))
    × ((i j : ℕ) → i < 63 → j < 63 → i ≢ j → lfsr_after i 6 ≢ lfsr_after j 6)
lfsr_period_example = lfsr_period 6 (omega arith, omega arith)

abbrev ecall_frame : Trapframe
ecall_frame = record { a0 = 0x1_0000_0005; epc = 0x1004; badvaddr = 0; cause = 8 }

abbrev one_accessed : Vm
one_accessed = state_of (handle_fault 0x1004 12 one_mapped)

third-IsFault : IsFault one_mapped 0x1004 12
unfolding boot boot_nodes handle_fault map_page touch new_pte lfsr_next
third-IsFault = record { low = omega arith; high = omega arith; why = λ _. inl refl }

after_third : Run 5 no_frames test_image 2 one_accessed
unfolding boot boot_nodes handle_fault map_page touch new_pte lfsr_next
after_third = faulted 1 one_mapped one_accessed 0x1004 12 after_first third-IsFault refl

-- Only page 1 is mapped.
all_accessed : (q : ℕ) → IsMapped one_accessed q → bit_and (pte_at one_accessed q) pte_a ≢ 0
unfolding boot boot_nodes handle_fault map_page touch new_pte lfsr_next
all_accessed zero m = absurd (m.1 refl)
all_accessed (suc zero) m = omega arith
all_accessed (suc (suc q)) m = absurd (m.1 (get_or-replicate 510 q 0))

Run-ecall-Ends_example : Ends one_accessed 5 (handle_trap (λ _. 0) 0 ecall_frame one_accessed)
Run-ecall-Ends_example =
    Run-ecall-Ends 5 no_frames test_image 2 one_accessed (λ _. 0) 0 ecall_frame after_third
      all_accessed refl
