-- ===== src/Vm/Trap/Exit.antt =====
-- The end of a test: the call of the environment evicts every page and ends with its code.
use rsicv_uvm_test.Base.{
  ℕ, zero, suc, ◌+◌, ◌*◌, ◌%◌, ◌^◌, ◌≤◌, ◌<◌, ◌≡◌, ◌≢◌, refl, sym, ap, ◌∙◌, arith, bit_and, List,
  length,
}
use rsicv_uvm_test.Vm.{pgsize, pte_a, Vm, Outcome, ended}
use rsicv_uvm_test.Vm.Boot.{length-boot_nodes}
use rsicv_uvm_test.Vm.Invariant.{IsMapped, pte_at, frame_of, mapping_addr}
use rsicv_uvm_test.Vm.Run.{Run, Run-Inv, Run-image}
use rsicv_uvm_test.Vm.Isolation.{Run-clean_pristine}
use rsicv_uvm_test.Vm.Trap.{Trapframe, cause_user_ecall, evict, evict_pages, and_then, handle_trap}
use rsicv_uvm_test.Vm.Trap.Evict.{IsReady, Evicting, Evicted, evict_page}

-- The test ends with a code, all pages evicted.
pub record Ends (start : Vm) (code : ℕ) (o : Outcome) : Type 0 where
  pub state : Vm
  pub returned : o ≡ ended code state
  pub unused : (q : ℕ) → 1 ≤ q → q < 63 → mapping_addr state q ≡ 0
  pub restored : (q : ℕ) → IsMapped start q → state.frames (frame_of start q) ≡ start.image q
  pub outside :
      (f : ℕ)
      → ((q : ℕ) → IsMapped start q → frame_of start q ≢ f)
      → state.frames f ≡ start.frames f
  pub table : state.user_l3pt ≡ start.user_l3pt
  pub image : state.image ≡ start.image

module _ (start : Vm) (r : IsReady start) where
  and_then-Evicted :
      (i j : ℕ) (o : Outcome) (k : Vm → Outcome)
      → Evicted start i o
      → ((t : Vm) → Evicting start t i → Evicted start j (k t))
      → Evicted start j (and_then o k)
  and_then-Evicted i j o k e next = rw e.returned (next e.state e.evicting)

  evict_pages_lem :
      (left i : ℕ) (s : Vm)
      → 1 ≤ i
      → i + left ≡ 63
      → Evicting start s i
      → Evicted start 63 (evict_pages left i s)
  unfolding evict_pages
  evict_pages_lem zero i s first total v =
      let at_end : i ≡ 63 = omega arith in
      record { state = s; returned = refl; evicting = rw (← at_end) v }
  evict_pages_lem (suc left) i s first total v =
      and_then-Evicted (i + 1) 63 (evict (i * pgsize) s) (evict_pages left (i + 1))
        (evict_page start s i r v first (omega arith))
        (λ t w. evict_pages_lem left (i + 1) t (omega arith) (omega arith) w)

  page_zero_unmapped : (q : ℕ) → q < 1 → ¬ IsMapped start q
  page_zero_unmapped zero h m = m.1 r.inv.page_zero
  page_zero_unmapped (suc q) h m = absurd (omega arith)

  started-Evicting : Evicting start start 1
  started-Evicting = record {
    linked = record {
      mapping_length = r.inv.mapping_length;
      nodes_length = ap length r.inv.nodes ∙ length-boot_nodes 63 0 r.inv.seed;
      tail = r.inv.tail;
    };
    table = refl;
    image = refl;
    addrs = λ q h. refl;
    contents = λ q h m. refl;
    unused = λ q low high. absurd (omega arith);
    restored = λ q high m. absurd (page_zero_unmapped q high m);
    outside = λ f apart. refl;
  }

  ecall-Ends :
      (word_at : ℕ → ℕ) (fssr : ℕ) (tf : Trapframe)
      → tf.cause ≡ cause_user_ecall
      → Ends start (tf.a0 % 2 ^ 32) (handle_trap word_at fssr tf start)
  unfolding handle_trap
  ecall-Ends word_at fssr tf e =
      let out = evict_pages_lem 62 1 start (omega arith) refl started-Evicting in
      let v = out.evicting in
      rw (e, out.returned)
        (record {
          state = out.state;
          returned = refl;
          unused = λ q low high. v.unused q low high;
          restored = λ q m. v.restored q m.0 m;
          outside = v.outside;
          table = v.table;
          image = v.image;
        })

-- In every state of a run in which the mapped pages are marked accessed, a call of the environment
-- fails no assertion and ends the test with the low 32 bits of its argument. It leaves no page from 1 to
-- 62 with an address in the mapping, and every frame of a mapped page with the contents that the page was
-- loaded with; the frames of no mapped page and the page table are as before.
pub Run-ecall-Ends :
    (entropy : ℕ) (frames image : ℕ → List ℕ) (n : ℕ) (s : Vm) (word_at : ℕ → ℕ) (fssr : ℕ)
    (tf : Trapframe)
    → Run entropy frames image n s
    → ((q : ℕ) → IsMapped s q → bit_and (pte_at s q) pte_a ≢ 0)
    → tf.cause ≡ cause_user_ecall
    → Ends s (tf.a0 % 2 ^ 32) (handle_trap word_at fssr tf s)
Run-ecall-Ends entropy frames image n s word_at fssr tf r accessed e =
    ecall-Ends s
      (record {
        inv = Run-Inv entropy frames image n s r;
        accessed = accessed;
        pristine = λ q m clean.
            Run-clean_pristine entropy frames image n s q r m clean
            ∙ ap (λ (f : ℕ → List ℕ). f q) (sym (Run-image entropy frames image n s r));
      })
      word_at fssr tf e
