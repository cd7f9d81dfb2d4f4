-- ===== src/Vm/Trap/Evict.antt =====
-- What `evict` does to one page of a state in which the test can end.
use native.Mathlib.Decide.{ℕ_discrete}
use rsicv_uvm_test.Base.{
  ℕ, ◌+◌, ◌*◌, ◌/◌, ◌≤◌, ◌<◌, ◌≡◌, ◌≢◌, refl, sym, ap, ◌∙◌, arith, ltb, leb, ◌==◌, ==_refl, ◌&&◌,
  true, false, Bool-cases, inl, inr, bit_and, ◌>>>◌, some, List, [], ◌∷◌, get_elem?,
  get_elem?-eq-get_or, get_or,
}
use rsicv_uvm_test.Vm.{pgsize, max_test_pages, pte_a, pte_d, FreeNode, Vm, Outcome, resumed, update}
use rsicv_uvm_test.Vm.Invariant.{Inv, IsMapped, pte_at, frame_of, mapping_addr, no_node}
use rsicv_uvm_test.Vm.Serve.{frames_apart}
use rsicv_uvm_test.Vm.Trap.{same_page, release, evict_node, evict}
use rsicv_uvm_test.Vm.Trap.Release.{IsLinked, release-Released}

same_page_refl : (p : List ℕ) → same_page p p ≡ true
same_page_refl [] = refl
same_page_refl (x ∷ xs) = rw (==_refl x) (same_page_refl xs)

same_page-eq : (p q : List ℕ) → same_page p q ≡ true → p ≡ q
same_page-eq [] [] h = refl
same_page-eq [] (y ∷ ys) h = absurd (ground (arith, h))
same_page-eq (x ∷ xs) [] h = absurd (ground (arith, h))
same_page-eq (x ∷ xs) (y ∷ ys) h =
    let head : x ≡ y = ground (arith, h) in
    let tail : same_page xs ys ≡ true = ground (arith, h) in
    rw head (ap (◌∷◌ y) (same_page-eq xs ys tail))

-- A state in which the test can end: the mapped pages are marked accessed, and those that are not
-- marked dirty are as they were loaded.
pub record IsReady (s : Vm) : Type 0 where
  pub inv : Inv s
  pub accessed : (q : ℕ) → IsMapped s q → bit_and (pte_at s q) pte_a ≢ 0
  pub pristine :
      (q : ℕ) → IsMapped s q → bit_and (pte_at s q) pte_d ≡ 0 → s.frames (frame_of s q) ≡ s.image q

-- The pages below `i` are unmapped and their frames are as they were loaded, and the pages from `i` on
-- and the frames of no page are still as they were in `start`.
pub record Evicting (start s : Vm) (i : ℕ) : Type 0 where
  pub linked : IsLinked s
  pub table : s.user_l3pt ≡ start.user_l3pt
  pub image : s.image ≡ start.image
  pub addrs : (q : ℕ) → i ≤ q → mapping_addr s q ≡ mapping_addr start q
  pub contents :
      (q : ℕ)
      → i ≤ q
      → IsMapped start q
      → s.frames (frame_of start q) ≡ start.frames (frame_of start q)
  pub unused : (q : ℕ) → 1 ≤ q → q < i → mapping_addr s q ≡ 0
  pub restored : (q : ℕ) → q < i → IsMapped start q → s.frames (frame_of start q) ≡ start.image q
  pub outside :
      (f : ℕ) → ((q : ℕ) → IsMapped start q → frame_of start q ≢ f) → s.frames f ≡ start.frames f

pub record Evicted (start : Vm) (i : ℕ) (o : Outcome) : Type 0 where
  pub state : Vm
  pub returned : o ≡ resumed state
  pub evicting : Evicting start state i

module _ (start s : Vm) (i : ℕ) (r : IsReady start) (v : Evicting start s i) (first : 1 ≤ i)
    (last : i < 63) where
  abbrev node : FreeNode
  node = get_or s.user_mapping i no_node

  abbrev pte : ℕ
  pte = get_or s.user_l3pt i 0

  in_place : get_elem? s.user_mapping i ≡ some node
  in_place = get_elem?-eq-get_or s.user_mapping i no_node (omega (arith, v.linked.mapping_length))

  pte_is : pte ≡ pte_at start i
  pte_is = ap (λ (t : List ℕ). get_or t i 0) v.table

  mapped_page : node.addr ≢ 0 → IsMapped start i
  mapped_page ne = (last, λ e. ne (v.addrs i (omega arith) ∙ r.inv.unowned i last e))

  not_mapped : node.addr ≡ 0 → ¬ IsMapped start i
  not_mapped e m = omega (arith, e, v.addrs i (omega arith), (r.inv.owned i m).1)

  accessed_page : node.addr ≢ 0 → bit_and pte pte_a == 0 ≡ false
  accessed_page ne = let a = r.accessed i (mapped_page ne) in rw pte_is (ground arith)

  clean_page :
      node.addr ≢ 0 → bit_and pte pte_d ≡ 0 → same_page (s.frames (pte >>> 10)) (s.image i) ≡ true
  clean_page ne clean =
      let m = mapped_page ne in
      let loaded = r.pristine i m (ap (λ (x : ℕ). bit_and x pte_d) (sym pte_is) ∙ clean) in
      let equal : s.frames (pte >>> 10) ≡ s.image i =
        ap (λ (x : ℕ). s.frames (x >>> 10)) pte_is
        ∙ v.contents i (omega arith) m
        ∙ loaded
        ∙ ap (λ (f : ℕ → List ℕ). f i) (sym v.image) in
      rw equal (same_page_refl (s.image i))

  skipped : node.addr ≡ 0 → Evicting start s (i + 1)
  skipped none_there = record {
    linked = v.linked;
    table = v.table;
    image = v.image;
    addrs = λ q h. v.addrs q (omega arith);
    contents = λ q h. v.contents q (omega arith);
    unused = λ q low high. elim (ℕ_discrete q i) [
      | yes same ↦ rw same none_there
      | no other ↦ v.unused q low (omega arith)
    ];
    restored = λ q high m. elim (ℕ_discrete q i) [
      | yes same ↦ absurd (not_mapped none_there (rw same at m))
      | no other ↦ v.restored q (omega arith) m
    ];
    outside = v.outside;
  }

  -- What `release` leaves, on the state or with the page's frame written back.
  after_release :
      (frames : ℕ → List ℕ)
      → node.addr ≢ 0
      → ((q : ℕ)
          → i ≢ q
          → IsMapped start q
          → frames (frame_of start q) ≡ s.frames (frame_of start q))
      → frames (frame_of start i) ≡ start.image i
      → ((f : ℕ) → frame_of start i ≢ f → frames f ≡ s.frames f)
      → Evicted start (i + 1) (release i node (record s { frames = frames }))
  after_release frames ne same own others =
      let linked : IsLinked (record s { frames = frames }) = record {
        mapping_length = v.linked.mapping_length;
        nodes_length = v.linked.nodes_length;
        tail = v.linked.tail;
      } in
      let out = release-Released i node (record s { frames = frames }) linked last in
      let at : (f : ℕ) → out.state.frames f ≡ frames f =
        λ f. ap (λ (g : ℕ → List ℕ). g f) out.kept.frames in
      record {
        state = out.state;
        returned = out.returned;
        evicting = record {
          linked = out.kept.linked;
          table = out.kept.table ∙ v.table;
          image = out.kept.image ∙ v.image;
          addrs = λ q h. out.kept.others q (omega arith) ∙ v.addrs q (omega arith);
          contents = λ q h m.
              at (frame_of start q) ∙ same q (omega arith) m ∙ v.contents q (omega arith) m;
          unused = λ q low high. elim (ℕ_discrete i q) [
            | yes here ↦ rw (← here) out.kept.freed
            | no other ↦ out.kept.others q other ∙ v.unused q low (omega arith)
          ];
          restored = λ q high m. at (frame_of start q) ∙ elim (ℕ_discrete i q) [
            | yes here ↦ rw (← here) own
            | no other ↦ same q other m ∙ v.restored q (omega arith) m
          ];
          outside = λ f apart. at f ∙ others f (apart i (mapped_page ne)) ∙ v.outside f apart;
        };
      }

  frame_is : frame_of start i ≡ pte >>> 10
  frame_is = sym (ap (λ (x : ℕ). x >>> 10) pte_is)

  written_back : Vm → ℕ → List ℕ
  written_back t = update t.frames (pte >>> 10) (t.image i)

  elsewhere : (f : ℕ) → frame_of start i ≢ f → written_back s f ≡ s.frames f
  unfolding written_back
  elsewhere f ne = let other : f ≢ pte >>> 10 = λ e. ne (frame_is ∙ sym e) in ground (arith, other)

  of_others :
      node.addr ≢ 0
      → (q : ℕ) → i ≢ q
      → IsMapped start q
      → written_back s (frame_of start q) ≡ s.frames (frame_of start q)
  of_others ne q other m =
      elsewhere (frame_of start q)
        (λ e. frames_apart start q i r.inv m (mapped_page ne) (λ z. other (sym z)) (sym e))

  of_own : written_back s (frame_of start i) ≡ start.image i
  unfolding written_back
  of_own = rw (frame_is, ==_refl (pte >>> 10)) (ap (λ (f : ℕ → List ℕ). f i) v.image)

  unchanged :
      same_page (s.frames (pte >>> 10)) (s.image i) ≡ true
      → s.frames (frame_of start i) ≡ start.image i
  unchanged h =
      ap s.frames frame_is
      ∙ same_page-eq (s.frames (pte >>> 10)) (s.image i) h
      ∙ ap (λ (f : ℕ → List ℕ). f i) v.image

  evict_node_lem : Evicted start (i + 1) (evict_node i s)
  unfolding evict_node written_back
  evict_node_lem =
      rw (evict_node, in_place)
        (elim (Bool-cases (node.addr == 0)) [
          | inl free ↦
              rw free
                (record { state = s; returned = refl; evicting = skipped (ground (arith, free)) })
          | inr taken ↦
              let ne : node.addr ≢ 0 = ground arith in
              rw (taken, accessed_page ne)
                (elim (Bool-cases (same_page (s.frames (pte >>> 10)) (s.image i))) [
                  | inl same ↦ rw same (
                      after_release s.frames ne (λ q other m. refl) (unchanged same)
                        (λ f other. refl))
                  | inr changed ↦
                      let dirty : bit_and pte pte_d == 0 ≡ false = ground (arith, clean_page ne) in
                      rw (changed, dirty)
                        (after_release (written_back s) ne (of_others ne) of_own elsewhere)
                ])
        ])

  pub evict_page : Evicted start (i + 1) (evict (i * pgsize) s)
  unfolding evict
  evict_page =
      let in_range : (leb pgsize (i * pgsize) && ltb (i * pgsize) (max_test_pages * pgsize))
          ≡ true =
        ground (arith, first, last) in
      let page : i * pgsize / pgsize ≡ i = omega arith in rw (in_range, page) evict_node_lem
