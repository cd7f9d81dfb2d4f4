-- ===== src/Benchmarks/Towers/Stacks.antt =====
-- The discs of the three pegs as lists of pool indices, and the move of one disc.
use rsicv_uvm_test.Base.{
  ℕ, ◌+◌, ◌-◌, ◌^◌, ◌≤◌, ◌<◌, ◌≡◌, refl, ap, ◌∙◌, arith, ◌==◌, ==_refl, if◌then◌else◌, false,
  Bool-cases, inl, inr, Option, none, some, List, [], ◌∷◌, length, length-set, set,
  get_elem?-eq-get_or, get_or, get_or-set_self, get_or-set_ne, set-set, u32, get_elem?, count,
}
use native.Mathlib.Decide.{ℕ_discrete}
use rsicv_uvm_test.Benchmarks.Towers.{
  Node, Peg, peg_a, peg_b, peg_c, same, Towers, set_peg, list_push, list_pop, move_disc,
}

abbrev pub no_node : Node
no_node = record { val = 0; next = none }

abbrev pub at : List Node → ℕ → Node
at nodes x = get_or nodes x no_node

abbrev pub Chain : List Node → Option ℕ → List ℕ → Type 0
Chain nodes head [] = head ≡ none
Chain nodes head (x ∷ xs) =
    (head ≡ some x) × ((x < length nodes) × Chain nodes (at nodes x).next xs)

Chain-set :
    (nodes : List Node) (t : ℕ) (node : Node) (head : Option ℕ) (xs : List ℕ)
    → count t xs ≡ 0
    → Chain nodes head xs
    → Chain (set nodes t node) head xs
Chain-set nodes t node head [] h k = k
Chain-set nodes t node head (x ∷ xs) h k = elim (ℕ_discrete t x) [
  | yes e ↦ absurd (omega (arith, rw (e, ==_refl x) at h))
  | no ne ↦
      let absent : count t xs ≡ 0 = omega (arith, h) in
      let kept = get_or-set_ne nodes t x node no_node ne in
      let rest = Chain-set nodes t node (at nodes x).next xs absent k.1.1 in
      (k.0, (omega (arith, length-set nodes t node, k.1.0), rw kept rest))
]

-- The three pegs in a state: each its own discs, with values that do not change.
pub record IsHolding (stacks : Peg → List ℕ) (vals : ℕ → ℕ) (num_discs : ℕ) (s : Towers)
    : Type 0 where
  pub chains : (p : Peg) → Chain s.nodes (s.pegs p).head (stacks p)
  pub sizes : (p : Peg) → (s.pegs p).size ≡ length (stacks p)
  pub once :
      (x : ℕ) → count x (stacks peg_a) + (count x (stacks peg_b) + count x (stacks peg_c)) ≤ 1
  pub few : length (stacks peg_a) + (length (stacks peg_b) + length (stacks peg_c)) < 2 ^ 31
  pub values : (x : ℕ) → (at s.nodes x).val ≡ vals x
  pub discs : s.num_discs ≡ num_discs

-- The pegs after a move.
abbrev pub moved :
    (stacks : Peg → List ℕ) → (start dest : Peg) → (disc : ℕ) → (rest : List ℕ) → Peg → List ℕ
moved stacks start dest disc rest q =
    if same dest q then disc ∷ stacks dest else if same start q then rest else stacks q

-- The state after a move, written out.
abbrev pub after_move : (start dest : Peg) → (disc : ℕ) → Towers → Towers
after_move start dest disc s = record s {
  nodes = set s.nodes disc (record { val = (at s.nodes disc).val; next = (s.pegs dest).head });
  pegs =
      set_peg dest (record { size = u32 ((s.pegs dest).size + 1); head = some disc })
        (set_peg start
          (record {
            size = u32 ((s.pegs start).size + (2 ^ 32 - 1));
            head = (at s.nodes disc).next;
          })
          s.pegs);
  num_moves = u32 (s.num_moves + 1);
}

pub move_disc_lem :
    (start dest : Peg) (disc : ℕ) (rest : List ℕ) (s : Towers)
    → same start dest ≡ false
    → Chain s.nodes (s.pegs start).head (disc ∷ rest)
    → move_disc start dest s ≡ some (after_move start dest disc s)
unfolding move_disc list_pop list_push
move_disc_lem start dest disc rest s ne chain =
    let node : Node = record { val = (at s.nodes disc).val; next = s.free } in
    let here = get_or-set_self s.nodes disc node no_node chain.1.0 in
    let size = length-set s.nodes disc node in
    let there : get_elem? (set s.nodes disc node) disc ≡ some node =
      get_elem?-eq-get_or (set s.nodes disc node) disc no_node (omega (arith, size, chain.1.0))
      ∙ ap some here in
    rw
      (
        chain.0,
        get_elem?-eq-get_or s.nodes disc no_node chain.1.0,
        there,
        ne,
        set-set s.nodes disc node
            (record { val = (at s.nodes disc).val; next = (s.pegs dest).head }),
      )
      refl

abbrev total : (List ℕ → ℕ) → (Peg → List ℕ) → ℕ
total f stacks = f (stacks peg_a) + (f (stacks peg_b) + f (stacks peg_c))

-- A move keeps what adds up over the discs.
moved-total :
    (f : List ℕ → ℕ) (c : ℕ) (stacks : Peg → List ℕ) (start dest : Peg) (disc : ℕ) (rest : List ℕ)
    → ((xs : List ℕ) → f (disc ∷ xs) ≡ c + f xs)
    → same start dest ≡ false
    → stacks start ≡ disc ∷ rest
    → total f (moved stacks start dest disc rest) ≡ total f stacks
moved-total f c stacks peg_a peg_a disc rest h ne e = ground (arith, ne)
moved-total f c stacks peg_b peg_b disc rest h ne e = ground (arith, ne)
moved-total f c stacks peg_c peg_c disc rest h ne e = ground (arith, ne)
moved-total f c stacks peg_a peg_b disc rest h ne e =
    omega (arith, ap f e, h rest, h (stacks peg_b))
moved-total f c stacks peg_a peg_c disc rest h ne e =
    omega (arith, ap f e, h rest, h (stacks peg_c))
moved-total f c stacks peg_b peg_a disc rest h ne e =
    omega (arith, ap f e, h rest, h (stacks peg_a))
moved-total f c stacks peg_b peg_c disc rest h ne e =
    omega (arith, ap f e, h rest, h (stacks peg_c))
moved-total f c stacks peg_c peg_a disc rest h ne e =
    omega (arith, ap f e, h rest, h (stacks peg_a))
moved-total f c stacks peg_c peg_b disc rest h ne e =
    omega (arith, ap f e, h rest, h (stacks peg_b))

two-le_total :
    (f : List ℕ → ℕ) (stacks : Peg → List ℕ) (p q : Peg)
    → same p q ≡ false
    → f (stacks p) + f (stacks q) ≤ total f stacks
two-le_total f stacks peg_a peg_a ne = ground (arith, ne)
two-le_total f stacks peg_b peg_b ne = ground (arith, ne)
two-le_total f stacks peg_c peg_c ne = ground (arith, ne)
two-le_total f stacks peg_a peg_b ne = omega arith
two-le_total f stacks peg_a peg_c ne = omega arith
two-le_total f stacks peg_b peg_a ne = omega arith
two-le_total f stacks peg_b peg_c ne = omega arith
two-le_total f stacks peg_c peg_a ne = omega arith
two-le_total f stacks peg_c peg_b ne = omega arith

pub after_move-IsHolding :
    (stacks : Peg → List ℕ) (vals : ℕ → ℕ) (num_discs : ℕ) (start dest : Peg) (disc : ℕ)
    (rest : List ℕ) (s : Towers)
    → same start dest ≡ false
    → stacks start ≡ disc ∷ rest
    → IsHolding stacks vals num_discs s
    → IsHolding (moved stacks start dest disc rest) vals num_discs (after_move start dest disc s)
after_move-IsHolding stacks vals num_discs start dest disc rest s ne e i =
    let node : Node = record { val = (at s.nodes disc).val; next = (s.pegs dest).head } in
    let chain : Chain s.nodes (s.pegs start).head (disc ∷ rest) = rw e at (i.chains start) in
    let here = get_or-set_self s.nodes disc node no_node chain.1.0 in
    let size = length-set s.nodes disc node in
    let held : count disc (stacks start) ≡ 1 + count disc rest =
      ap (count disc) e ∙ rw (==_refl disc) refl in
    let lone = two-le_total (count disc) stacks start dest ne in
    let lengths = two-le_total length stacks start dest ne in
    let long = ap length e in
    record {
      chains = λ q. elim (Bool-cases (same dest q)) [
        | inl to ↦ rw to (
          refl,
          (
            omega (arith, size, chain.1.0),
            rw here (
                Chain-set s.nodes disc node (s.pegs dest).head (stacks dest)
                  (omega (arith, i.once disc, held, lone)) (i.chains dest)),
          ),
        )
        | inr not_to ↦ elim (Bool-cases (same start q)) [
          | inl from ↦
              rw (not_to, from)
                (Chain-set s.nodes disc node (at s.nodes disc).next rest
                  (omega (arith, i.once disc, held, lone)) chain.1.1)
          | inr not_from ↦
              rw (not_to, not_from)
                (Chain-set s.nodes disc node (s.pegs q).head (stacks q)
                  (omega
                    (arith, i.once disc, held, two-le_total (count disc) stacks start q not_from))
                  (i.chains q))
        ]
      ];
      sizes = λ q. elim (Bool-cases (same dest q)) [
        | inl to ↦ rw to (omega (arith, i.sizes dest, i.few, lengths))
        | inr not_to ↦ elim (Bool-cases (same start q)) [
          | inl from ↦ rw (not_to, from) (omega (arith, i.sizes start, long, i.few, lengths))
          | inr not_from ↦ rw (not_to, not_from) (i.sizes q)
        ]
      ];
      once = λ x. omega (
        arith,
        i.once x,
        moved-total (count x) (if x == disc then 1 else 0) stacks start dest disc rest (λ xs. refl)
            ne e,
      );
      few =
          omega (
            arith,
            i.few,
            moved-total length 1 stacks start dest disc rest (λ xs. omega arith) ne e,
          );
      values = λ x. elim (ℕ_discrete disc x) [
        | yes eq ↦ rw (← eq) (ap (λ (n : Node). n.val) here ∙ i.values disc)
        | no other ↦
            ap (λ (n : Node). n.val) (get_or-set_ne s.nodes disc x node no_node other) ∙ i.values x
      ];
      discs = i.discs;
    }
