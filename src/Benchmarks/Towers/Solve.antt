-- ===== src/Benchmarks/Towers/Solve.antt =====
-- The solution of the towers, and that towers_verify accepts it.
use mathlib.Core.List.{append_assoc, append-nil}
use native.Mathlib.Nat.{two-pow-succ, one-le-pow, pow-le-pow_right}
use rsicv_uvm_test.Base.{
  ℕ, zero, suc, ◌+◌, ◌-◌, ◌^◌, ◌≤◌, ◌<◌, ◌≡◌, refl, sym, ap, ◌∙◌, arith, ==_refl, ltb, true, false,
  Option, some, List, [], ◌∷◌, ◌++◌, length, get_elem?-eq-get_or, u32, Returns, returns,
  Returns-then, Returns-weaken,
}
use rsicv_uvm_test.Benchmarks.Towers.{
  Node, Peg, peg_a, peg_b, peg_c, same, Towers, move_disc, towers_solve_h, towers_solve,
  towers_verify, verify_discs,
}
use rsicv_uvm_test.Benchmarks.Towers.Stacks.{
  Chain, at, no_node, IsHolding, moved, after_move, after_move-IsHolding, move_disc_lem,
}

-- The last of some discs.
record HasLast (discs : List ℕ) (n : ℕ) : Type 0 where
  upper : List ℕ
  bottom : ℕ
  splits : discs ≡ upper ++ (bottom ∷ [])
  fewer : length upper ≡ n

last_disc : (discs : List ℕ) (n : ℕ) → length discs ≡ suc n → HasLast discs n
last_disc [] n h = absurd (omega arith)
last_disc (x ∷ []) n h = record { upper = []; bottom = x; splits = refl; fewer = omega arith }
last_disc (x ∷ (y ∷ discs)) zero h = absurd (omega arith)
last_disc (x ∷ (y ∷ discs)) (suc n) h =
    let r = last_disc (y ∷ discs) n (omega arith) in
    record {
      upper = x ∷ r.upper;
      bottom = r.bottom;
      splits = ap (◌∷◌ x) r.splits;
      fewer = ap suc r.fewer;
    }

-- The discs on top of one peg have gone to another, and the third peg is as it was.
pub record IsMoved (stacks : Peg → List ℕ) (vals : ℕ → ℕ) (num_discs moves : ℕ)
    (start temp dest : Peg) (top rest : List ℕ) (s : Towers) : Type 0 where
  pub stacks' : Peg → List ℕ
  pub holding : IsHolding stacks' vals num_discs s
  pub at_start : stacks' start ≡ rest
  pub at_temp : stacks' temp ≡ stacks temp
  pub at_dest : stacks' dest ≡ top ++ stacks dest
  pub counted : s.num_moves ≡ u32 moves

record AreThree (start temp dest : Peg) : Type 0 where
  start-temp : same start temp ≡ false
  start-dest : same start dest ≡ false
  temp-dest : same temp dest ≡ false
  dest-temp : same dest temp ≡ false
  dest-start : same dest start ≡ false
  temp-start : same temp start ≡ false

same_refl : (p : Peg) → same p p ≡ true
same_refl peg_a = refl
same_refl peg_b = refl
same_refl peg_c = refl

move_disc-IsMoved :
    (stacks : Peg → List ℕ) (vals : ℕ → ℕ) (num_discs moves : ℕ) (start temp dest : Peg) (disc : ℕ)
    (rest : List ℕ) (s : Towers)
    → AreThree start temp dest
    → stacks start ≡ disc ∷ rest
    → s.num_moves ≡ u32 moves
    → IsHolding stacks vals num_discs s
    → Returns
        (IsMoved stacks vals num_discs (moves + 1) start temp dest (disc ∷ []) rest)
        (move_disc start dest s)
move_disc-IsMoved stacks vals num_discs moves start temp dest disc rest s three e k i =
    let chain : Chain s.nodes (s.pegs start).head (disc ∷ rest) = rw e at (i.chains start) in
    rw (move_disc_lem start dest disc rest s three.start-dest chain) (
      returns (after_move start dest disc s) (record {
        stacks' = moved stacks start dest disc rest;
        holding =
            after_move-IsHolding stacks vals num_discs start dest disc rest s three.start-dest e i;
        at_start = rw (three.dest-start, same_refl start) refl;
        at_temp = rw (three.dest-temp, three.start-temp) refl;
        at_dest = rw (same_refl dest) refl;
        counted = omega (arith, k);
      }))

towers_solve_h-IsMoved :
    (n : ℕ) (stacks : Peg → List ℕ) (vals : ℕ → ℕ) (num_discs moves : ℕ) (start temp dest : Peg)
    (top rest : List ℕ) (s : Towers)
    → length top ≡ suc n
    → AreThree start temp dest
    → stacks start ≡ top ++ rest
    → s.num_moves ≡ u32 moves
    → IsHolding stacks vals num_discs s
    → Returns
        (IsMoved stacks vals num_discs (moves + (2 ^ suc n - 1)) start temp dest top rest)
        (towers_solve_h (suc n) start temp dest s)
unfolding towers_solve_h
towers_solve_h-IsMoved zero stacks vals num_discs moves start temp dest [] rest s h three e k i =
    absurd (omega arith)
towers_solve_h-IsMoved zero stacks vals num_discs moves start temp dest (d ∷ (d2 ∷ top)) rest s h
      three e k i =
    absurd (omega arith)
towers_solve_h-IsMoved zero stacks vals num_discs moves start temp dest (d ∷ []) rest s h three e k
      i =
    move_disc-IsMoved stacks vals num_discs moves start temp dest d rest s three e k i
towers_solve_h-IsMoved (suc n) stacks vals num_discs moves start temp dest top rest s h three e k
      i =
    let l = last_disc top (suc n) h in
    let split : stacks start ≡ l.upper ++ (l.bottom ∷ rest) =
      e ∙ ap (λ t. t ++ rest) l.splits ∙ append_assoc l.upper (l.bottom ∷ []) rest in
    Returns-then _
      (towers_solve_h-IsMoved n stacks vals num_discs moves start dest temp l.upper
        (l.bottom ∷ rest) s l.fewer (turned three) split k i)
      (λ s1 a.
        Returns-then _
          (move_disc-IsMoved a.stacks' vals num_discs (moves + (2 ^ suc n - 1)) start temp dest
            l.bottom rest s1 three a.at_start a.counted a.holding)
          (λ s2 b.
            Returns-weaken
              (λ s3 c. record {
                stacks' = c.stacks';
                holding = c.holding;
                at_start = c.at_temp ∙ b.at_start;
                at_temp = c.at_start;
                at_dest =
                    c.at_dest
                    ∙ ap (λ t. l.upper ++ t) (b.at_dest ∙ ap (◌∷◌ l.bottom) a.at_temp)
                    ∙ sym (append_assoc l.upper (l.bottom ∷ []) (stacks dest))
                    ∙ ap (λ t. t ++ stacks dest) (sym l.splits);
                counted =
                    c.counted
                    ∙ ap u32
                        (omega (arith, two-pow-succ (suc n), one-le-pow (suc n) 2 (omega arith)));
              })
              (towers_solve_h-IsMoved n b.stacks' vals num_discs (moves + (2 ^ suc n - 1) + 1) temp
                start dest l.upper (stacks temp) s2 l.fewer (shifted three) (b.at_temp ∙ a.at_dest)
                b.counted b.holding)))
  where
    turned : AreThree start temp dest → AreThree start dest temp
    turned t = record {
      start-temp = t.start-dest;
      start-dest = t.start-temp;
      temp-dest = t.dest-temp;
      dest-temp = t.temp-dest;
      dest-start = t.temp-start;
      temp-start = t.dest-start;
    }

    shifted : AreThree start temp dest → AreThree temp start dest
    shifted t = record {
      start-temp = t.temp-start;
      start-dest = t.temp-dest;
      temp-dest = t.start-dest;
      dest-temp = t.dest-start;
      dest-start = t.dest-temp;
      temp-start = t.start-temp;
    }

-- The discs' values from the top down, counted on from a number.
abbrev pub IsNumbered : (vals : ℕ → ℕ) → (counted : ℕ) → List ℕ → Type 0
IsNumbered vals counted [] = Unit
IsNumbered vals counted (x ∷ xs) = (vals x ≡ counted + 1) × IsNumbered vals (counted + 1) xs

verify_discs_lem :
    (vals : ℕ → ℕ) (nodes : List Node) (fuel counted : ℕ) (ptr : Option ℕ) (discs : List ℕ)
    → length discs < fuel
    → counted + length discs < 2 ^ 31
    → Chain nodes ptr discs
    → IsNumbered vals counted discs
    → ((x : ℕ) → (at nodes x).val ≡ vals x)
    → verify_discs fuel ptr counted nodes ≡ some 0
verify_discs_lem vals nodes zero counted ptr discs h few chain numbers values = absurd (omega arith)
verify_discs_lem vals nodes (suc fuel) counted ptr [] h few chain numbers values = rw chain refl
verify_discs_lem vals nodes (suc fuel) counted ptr (x ∷ discs) h few chain numbers values =
    let next : u32 (counted + 1) ≡ counted + 1 = omega arith in
    let rest =
      verify_discs_lem vals nodes fuel (counted + 1) (at nodes x).next discs (omega arith)
        (omega arith) chain.1.1 numbers.1 values in
    rw
      (
        chain.0,
        verify_discs,
        get_elem?-eq-get_or nodes x no_node chain.1.0,
        next,
        values x,
        numbers.0,
        ==_refl (counted + 1),
      )
      rest

towers_solve_sized :
    (s : Towers) (n : ℕ) → s.num_discs ≡ n → towers_solve s ≡ towers_solve_h n peg_a peg_b peg_c s
unfolding towers_solve
towers_solve_sized s n e = ap (λ k. towers_solve_h k peg_a peg_b peg_c s) e

-- From 1 to 30 discs on peg A, numbered from the top, none on the others, and no move counted: towers_solve
-- returns, and towers_verify, with one unit of fuel for each disc and one more, then gives 0.
pub towers_solve-verify :
    (stacks : Peg → List ℕ) (vals : ℕ → ℕ) (fuel : ℕ) (s : Towers)
    → 1 ≤ length (stacks peg_a)
    → length (stacks peg_a) ≤ 30
    → stacks peg_b ≡ []
    → stacks peg_c ≡ []
    → IsNumbered vals 0 (stacks peg_a)
    → IsHolding stacks vals (length (stacks peg_a)) s
    → s.num_moves ≡ 0
    → length (stacks peg_a) < fuel
    → Returns (λ solved. towers_verify fuel solved ≡ some 0) (towers_solve s)
unfolding towers_verify
towers_solve-verify stacks vals fuel s some_disc most none_b none_c numbers i start enough =
    let n = length (stacks peg_a) - 1 in
    let discs : length (stacks peg_a) ≡ suc n = omega arith in
    let count_is : s.num_discs ≡ suc n = i.discs ∙ discs in
    rw (towers_solve_sized s (suc n) count_is) (
      Returns-weaken
        (λ t m.
          let c : m.stacks' peg_c ≡ stacks peg_a =
            m.at_dest ∙ ap (λ l. stacks peg_a ++ l) none_c ∙ append-nil (stacks peg_a) in
          let size_a : (t.pegs peg_a).size ≡ 0 = m.holding.sizes peg_a ∙ ap length m.at_start in
          let size_b : (t.pegs peg_b).size ≡ 0 =
            m.holding.sizes peg_b ∙ ap length (m.at_temp ∙ none_b) in
          let size_c : (t.pegs peg_c).size ≡ t.num_discs =
            m.holding.sizes peg_c ∙ ap length c ∙ sym m.holding.discs in
          let chain : Chain t.nodes (t.pegs peg_c).head (stacks peg_a) =
            rw c at (m.holding.chains peg_c) in
          let walked =
            verify_discs_lem vals t.nodes fuel 0 (t.pegs peg_c).head (stacks peg_a) enough
              (omega (arith, i.few)) chain numbers m.holding.values in
          let number : t.num_discs ≡ suc n = m.holding.discs ∙ discs in
          let thirty : suc n ≤ 30 = omega (arith, most) in
          let small : 2 ^ suc n ≤ 2 ^ 30 = pow-le-pow_right (omega arith) thirty in
          let defined : ltb (suc n) 31 ≡ true = ground (arith, most, discs) in
          let moves : t.num_moves ≡ 2 ^ suc n - 1 =
            omega (arith, m.counted, one-le-pow (suc n) 2 (omega arith), small) in
          rw
            (
              size_a,
              size_b,
              size_c,
              ==_refl t.num_discs,
              walked,
              number,
              defined,
              moves,
              ==_refl (2 ^ suc n - 1),
            )
            refl)
        (towers_solve_h-IsMoved n stacks vals (length (stacks peg_a)) 0 peg_a peg_b peg_c
          (stacks peg_a) [] s discs
          (record {
            start-temp = refl;
            start-dest = refl;
            temp-dest = refl;
            dest-temp = refl;
            dest-start = refl;
            temp-start = refl;
          })
          (sym (append-nil (stacks peg_a))) start i))
