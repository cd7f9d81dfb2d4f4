-- ===== src/Vm/Run.antt =====
-- The states that the test environment can be in while its program runs, from `vm_boot` on.
use rsicv_uvm_test.Base.{
  ℕ, zero, suc, ◌/◌, ◌≡◌, ◌≢◌, refl, sym, ap, ◌∙◌, arith, bit_and, List, length-replicate, get_or,
  replicate,
}
use rsicv_uvm_test.Vm.{pgsize, pte_d, update, FreeNode, Vm, resumed, handle_fault}
use rsicv_uvm_test.Vm.Boot.{boot, first_random}
use rsicv_uvm_test.Vm.Count.{mapped-none}
use rsicv_uvm_test.Vm.Invariant.{Inv, IsMapped, pte_at, frame_of, no_node}
use rsicv_uvm_test.Vm.Fault.{IsFault}
use rsicv_uvm_test.Vm.Serve.{Served, handle_fault-Serves}

pub get_or-replicate {ℓ} : {A : Type ℓ} → (n i : ℕ) (x : A) → get_or (replicate n x) i x ≡ x
get_or-replicate zero i x = refl
get_or-replicate (suc n) zero x = refl
get_or-replicate (suc n) (suc i) x = get_or-replicate n i x

boot-Inv : (entropy : ℕ) (frames image : ℕ → List ℕ) → Inv (boot entropy frames image)
unfolding boot
boot-Inv entropy frames image = record {
  seed = first_random entropy;
  is_seed = (omega arith, omega arith);
  nodes = refl;
  tail = refl;
  used = 0;
  head = refl;
  counted = sym (mapped-none 63 (replicate 512 0) (λ i. get_or-replicate 512 i 0));
  table_length = omega (arith, length-replicate {A = ℕ} 512 0);
  mapping_length = length-replicate 63 no_node;
  page_zero = get_or-replicate 512 0 0;
  owner = λ q. 0;
  owned = λ q m. absurd (m.1 (get_or-replicate 512 q 0));
  unowned = λ q h e. ap (λ (n : FreeNode). n.addr) (get_or-replicate 63 q no_node);
  apart = λ p q mp mq ne. absurd (mp.1 (get_or-replicate 512 p 0));
}

-- The program stores to a page.
abbrev pub store_page : Vm → (page : ℕ) → List ℕ → Vm
store_page s page contents = record s { frames = update s.frames (frame_of s page) contents }

-- The state after a number of faults, each one that the hardware can raise. Between them the
-- program stores to mapped pages that are marked dirty.
pub data Run (entropy : ℕ) (frames image : ℕ → List ℕ) : ℕ → Vm → Type 0 where
  started : Run entropy frames image 0 (boot entropy frames image)
  faulted :
      (n : ℕ) (s t : Vm) (addr cause : ℕ)
      → Run entropy frames image n s
      → IsFault s addr cause
      → handle_fault addr cause s ≡ resumed t
      → Run entropy frames image (suc n) t
  stored :
      (n : ℕ) (s : Vm) (page : ℕ) (contents : List ℕ)
      → Run entropy frames image n s
      → IsMapped s page
      → bit_and (pte_at s page) pte_d ≢ 0
      → Run entropy frames image n (store_page s page contents)

resumed-injective : (s t : Vm) → resumed s ≡ resumed t → s ≡ t
resumed-injective s t e = cc

-- Each kind of step from a state with the invariant serves its fault.
pub step-Served :
    (s t : Vm) (addr cause : ℕ)
    → Inv s
    → IsFault s addr cause
    → handle_fault addr cause s ≡ resumed t
    → Served s t (addr / pgsize)
step-Served s t addr cause v f e =
    let r = handle_fault-Serves s addr cause v f in
    let same : t ≡ r.state = resumed-injective t r.state (sym e ∙ r.returned) in rw same r.served

pub store_page-Inv :
    (s : Vm) (page : ℕ) (contents : List ℕ) → Inv s → Inv (store_page s page contents)
store_page-Inv s page contents v = record {
  seed = v.seed;
  is_seed = v.is_seed;
  nodes = v.nodes;
  tail = v.tail;
  used = v.used;
  head = v.head;
  counted = v.counted;
  table_length = v.table_length;
  mapping_length = v.mapping_length;
  page_zero = v.page_zero;
  owner = v.owner;
  owned = v.owned;
  unowned = v.unowned;
  apart = v.apart;
}

module _ (entropy : ℕ) (frames image : ℕ → List ℕ) where
  pub Run-Inv : (n : ℕ) (s : Vm) → Run entropy frames image n s → Inv s
  Run-Inv _ _ started = boot-Inv entropy frames image
  Run-Inv _ _ (faulted n s t addr cause r f e) =
      (step-Served s t addr cause (Run-Inv n s r) f e).keeps
  Run-Inv _ _ (stored n s page contents r m d) = store_page-Inv s page contents (Run-Inv n s r)

  pub Run-image : (n : ℕ) (s : Vm) → Run entropy frames image n s → s.image ≡ image
  unfolding boot
  Run-image _ _ started = refl
  Run-image _ _ (faulted n s t addr cause r f e) =
      (step-Served s t addr cause (Run-Inv n s r) f e).same_image ∙ Run-image n s r
  Run-image _ _ (stored n s page contents r m d) = Run-image n s r
