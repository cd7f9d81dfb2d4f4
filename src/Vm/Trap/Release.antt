-- ===== src/Vm/Trap/Release.antt =====
-- What `release` and `evict` leave of the state.
use native.Mathlib.Decide.{ℕ_discrete}
use rsicv_uvm_test.Base.{
  ℕ, ◌<◌, ◌≡◌, ◌≢◌, refl, ap, ◌∙◌, arith, true, some, List, get_elem?, get_elem?-eq-get_or, get_or,
  set, length, length-set, get_or-set_self, get_or-set_ne,
}
use rsicv_uvm_test.Vm.{NodePtr, null, user_node, free_node, FreeNode, Vm, Outcome, resumed}
use rsicv_uvm_test.Vm.Invariant.{mapping_addr, no_node, is_node_or_null}
use rsicv_uvm_test.Vm.Trap.{link, unused, release}

-- The arrays of nodes have their size, and the tail is null or a node.
pub record IsLinked (s : Vm) : Type 0 where
  pub mapping_length : length s.user_mapping ≡ 63
  pub nodes_length : length s.freelist_nodes ≡ 63
  pub tail : is_node_or_null s.freelist_tail ≡ true

-- Everything but the links stays, the page has no address, and the others keep theirs.
pub record Keeps (s t : Vm) (page : ℕ) : Type 0 where
  pub linked : IsLinked t
  pub table : t.user_l3pt ≡ s.user_l3pt
  pub frames : t.frames ≡ s.frames
  pub image : t.image ≡ s.image
  pub freed : mapping_addr t page ≡ 0
  pub others : (q : ℕ) → page ≢ q → mapping_addr t q ≡ mapping_addr s q

pub record Released (s : Vm) (page : ℕ) (o : Outcome) : Type 0 where
  pub state : Vm
  pub returned : o ≡ resumed state
  pub kept : Keeps s state page

relink_addr :
    (nodes : List FreeNode) (i q : ℕ) (next : NodePtr)
    → i < length nodes
    → (get_or
        (set nodes i (record { addr = (get_or nodes i no_node).addr; next = next }))
        q
        no_node).addr
      ≡ (get_or nodes q no_node).addr
relink_addr nodes i q next h = elim (ℕ_discrete i q) [
  | yes e ↦ rw (← e) (
      ap (λ (n : FreeNode). n.addr)
        (get_or-set_self nodes i (record { addr = (get_or nodes i no_node).addr; next = next })
          no_node h))
  | no ne ↦
      ap (λ (n : FreeNode). n.addr)
        (get_or-set_ne nodes i q (record { addr = (get_or nodes i no_node).addr; next = next })
          no_node ne)
]

module _ (page : ℕ) (node : FreeNode) (s : Vm) (v : IsLinked s) (last : page < 63) where
  abbrev marked : Vm
  marked = unused page node s

  marked_length : length marked.user_mapping ≡ 63
  marked_length =
      length-set s.user_mapping page (record { addr = 0; next = node.next }) ∙ v.mapping_length

  marked_others : (q : ℕ) → page ≢ q → mapping_addr marked q ≡ mapping_addr s q
  marked_others q ne =
      ap (λ (n : FreeNode). n.addr)
        (get_or-set_ne s.user_mapping page q (record { addr = 0; next = node.next }) no_node ne)

  marked_freed : mapping_addr marked page ≡ 0
  marked_freed =
      ap (λ (n : FreeNode). n.addr)
        (get_or-set_self s.user_mapping page (record { addr = 0; next = node.next }) no_node
          (omega (arith, last, v.mapping_length)))

  release_empty : s.freelist_tail ≡ null → Released s page (release page node s)
  unfolding release
  release_empty e = rw e (record {
    state = record marked { freelist_head = user_node page; freelist_tail = user_node page };
    returned = refl;
    kept = record {
      linked = record {
        mapping_length = marked_length;
        nodes_length = v.nodes_length;
        tail = ground arith;
      };
      table = refl;
      frames = refl;
      image = refl;
      freed = marked_freed;
      others = marked_others;
    };
  })

  release_user :
      (i : ℕ) → s.freelist_tail ≡ user_node i → i < 63 → Released s page (release page node s)
  unfolding release link
  release_user i e h =
      let there : get_elem? marked.user_mapping i ≡ some (get_or marked.user_mapping i no_node) =
        get_elem?-eq-get_or marked.user_mapping i no_node (omega (arith, marked_length)) in
      rw (e, there)
        (record {
          state = record marked {
            user_mapping = set marked.user_mapping i (record {
              addr = (get_or marked.user_mapping i no_node).addr;
              next = user_node page;
            });
            freelist_tail = user_node page;
          };
          returned = refl;
          kept = record {
            linked = record {
              mapping_length =
                  length-set marked.user_mapping i (record {
                    addr = (get_or marked.user_mapping i no_node).addr;
                    next = user_node page;
                  })
                  ∙ marked_length;
              nodes_length = v.nodes_length;
              tail = ground arith;
            };
            table = refl;
            frames = refl;
            image = refl;
            freed =
                relink_addr marked.user_mapping i page (user_node page)
                  (omega (arith, marked_length))
                ∙ marked_freed;
            others = λ q ne.
                relink_addr marked.user_mapping i q (user_node page) (omega (arith, marked_length))
                ∙ marked_others q ne;
          };
        })

  release_free :
      (i : ℕ) → s.freelist_tail ≡ free_node i → i < 63 → Released s page (release page node s)
  unfolding release link
  release_free i e h =
      let there : get_elem? s.freelist_nodes i ≡ some (get_or s.freelist_nodes i no_node) =
        get_elem?-eq-get_or s.freelist_nodes i no_node (omega (arith, v.nodes_length)) in
      rw (e, there)
        (record {
          state = record marked {
            freelist_nodes =
                set s.freelist_nodes i (record {
                  addr = (get_or s.freelist_nodes i no_node).addr;
                  next = user_node page;
                });
            freelist_tail = user_node page;
          };
          returned = refl;
          kept = record {
            linked = record {
              mapping_length = marked_length;
              nodes_length =
                  length-set s.freelist_nodes i (record {
                    addr = (get_or s.freelist_nodes i no_node).addr;
                    next = user_node page;
                  })
                  ∙ v.nodes_length;
              tail = ground arith;
            };
            table = refl;
            frames = refl;
            image = refl;
            freed = marked_freed;
            others = marked_others;
          };
        })

  by_tail :
      (p : NodePtr)
      → s.freelist_tail ≡ p
      → is_node_or_null p ≡ true
      → Released s page (release page node s)
  by_tail null e h = release_empty e
  by_tail (user_node i) e h = release_user i e (ground (arith, h))
  by_tail (free_node i) e h = release_free i e (ground (arith, h))

  pub release-Released : Released s page (release page node s)
  release-Released = by_tail s.freelist_tail refl v.tail
