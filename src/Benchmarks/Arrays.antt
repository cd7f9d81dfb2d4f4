-- ===== src/Benchmarks/Arrays.antt =====
-- Vector addition: benchmarks/vvadd/vvadd_main.c.
use native.Mathlib.Decide.{ℕ_discrete}
use rsicv_uvm_test.Base.{
  ℕ, store, zero, suc, ◌+◌, ◌≤◌, ◌<◌, ◌≡◌, ◌≢◌, refl, ◌∙◌, arith, ◌⊎◌, inl, inr, Option, none, some,
  List, get_elem?, get_elem?-eq-get_or, get_or, set, length, length-set, get_or-set_self,
  get_or-set_ne, u32, lt→ltb,
}

-- The loop from the index `i`, with `left` rounds to go.
unfoldable pub vvadd_from : (left i : ℕ) → (a b c : List ℕ) → Option (List ℕ)
vvadd_from zero i a b c = some c
vvadd_from (suc left) i a b c = elim (get_elem? a i) [
  | none ↦ none
  | some x ↦ elim (get_elem? b i) [
    | none ↦ none
    | some y ↦ elim (store c i (u32 (x + y))) [
      | none ↦ none
      | some c' ↦ vvadd_from left (i + 1) a b c'
    ]
  ]
]

unfoldable pub vvadd : (n : ℕ) → (a b c : List ℕ) → Option (List ℕ)
unfolding vvadd_from
vvadd n a b c = vvadd_from n 0 a b c

abbrev pub at : List ℕ → ℕ → ℕ
at xs i = get_or xs i 0

record Added (a b c : List ℕ) (left i : ℕ) (out : Option (List ℕ)) : Type 0 where
  sums : List ℕ
  returned : out ≡ some sums
  same_length : length sums ≡ length c
  inside : (j : ℕ) → i ≤ j → j < i + left → at sums j ≡ u32 (at a j + at b j)
  outside : (j : ℕ) → (j < i) ⊎ (i + left ≤ j) → at sums j ≡ at c j

vvadd_from-Added :
    (left i : ℕ) (a b c : List ℕ)
    → i + left ≤ length a
    → i + left ≤ length b
    → i + left ≤ length c
    → Added a b c left i (vvadd_from left i a b c)
unfolding vvadd_from
vvadd_from-Added zero i a b c ha hb hc = record {
  sums = c;
  returned = refl;
  same_length = refl;
  inside = λ j low high. absurd (omega arith);
  outside = λ j h. refl;
}
vvadd_from-Added (suc left) i a b c ha hb hc =
    let x = get_elem?-eq-get_or a i 0 (omega arith) in
    let y = get_elem?-eq-get_or b i 0 (omega arith) in
    let sum = u32 (at a i + at b i) in
    let stored = lt→ltb i (length c) (omega arith) in
    let kept = length-set c i sum in
    let rest =
      vvadd_from-Added left (i + 1) a b (set c i sum) (omega arith) (omega arith)
        (omega (arith, kept)) in
    rw (vvadd_from, x, y, stored)
      (record {
        sums = rest.sums;
        returned = rest.returned;
        same_length = rest.same_length ∙ kept;
        inside = λ j low high. elim (ℕ_discrete i j) [
          | yes e ↦
              rw (← e)
                (rest.outside i (inl (omega arith)) ∙ get_or-set_self c i sum 0 (omega arith))
          | no ne ↦ rest.inside j (omega arith) (omega arith)
        ];
        outside = λ j h.
            let ne : i ≢ j = elim h [ inl below ↦ omega arith | inr above ↦ omega arith ] in
            rest.outside j
              (elim h [ inl below ↦ inl (omega arith) | inr above ↦ inr (omega arith) ])
            ∙ get_or-set_ne c i j sum 0 ne;
      })

pub record IsSum (n : ℕ) (a b c : List ℕ) (out : Option (List ℕ)) : Type 0 where
  pub sums : List ℕ
  pub returned : out ≡ some sums
  pub same_length : length sums ≡ length c
  pub added : (j : ℕ) → j < n → at sums j ≡ u32 (at a j + at b j)
  pub behind : (j : ℕ) → n ≤ j → at sums j ≡ at c j

-- With three arrays of at least `n` elements, `vvadd` returns. Each of the first `n` elements of the
-- third is then the sum of the two others modulo 2 to the 32, and no element behind them has changed.
pub vvadd-IsSum :
    (n : ℕ) (a b c : List ℕ)
    → n ≤ length a
    → n ≤ length b
    → n ≤ length c
    → IsSum n a b c (vvadd n a b c)
unfolding vvadd
vvadd-IsSum n a b c ha hb hc =
    let r = vvadd_from-Added n 0 a b c (omega arith) (omega arith) (omega arith) in
    record {
      sums = r.sums;
      returned = r.returned;
      same_length = r.same_length;
      added = λ j h. r.inside j (omega arith) (omega arith);
      behind = λ j h. r.outside j (inr (omega arith));
    }
