-- ===== src/Benchmarks/Median.antt =====
-- The median filter: benchmarks/median/median.c.
use native.Mathlib.Decide.{ℕ_discrete}
use rsicv_uvm_test.Base.{
  ℕ, store, zero, suc, ◌+◌, ◌-◌, ◌^◌, ◌≤◌, ◌<◌, ◌≡◌, ◌≢◌, refl, ◌∙◌, arith, ◌⊎◌, inl, inr, leb,
  if◌then◌else◌, true, false, Option, none, some, List, get_elem?, get_elem?-eq-get_or, get_or, set,
  length, length-set, get_or-set_self, get_or-set_ne, u32, lt→ltb,
}
use rsicv_uvm_test.Benchmarks.{signed_lt}

-- The value that the round writes.
unfoldable pub middle : (a b c : ℕ) → ℕ
middle a b c =
    if signed_lt a b
    then (if signed_lt b c then b else if signed_lt c a then a else c)
    else (if signed_lt a c then a else if signed_lt c b then b else c)

-- The filter's loop from the index `i`, with `left` rounds to go.
unfoldable pub median_from : (left i : ℕ) → (input results : List ℕ) → Option (List ℕ)
unfolding middle
median_from zero i input results = some results
median_from (suc left) i input results = elim (get_elem? input (i - 1)) [
  | none ↦ none
  | some a ↦ elim (get_elem? input i) [
    | none ↦ none
    | some b ↦ elim (get_elem? input (i + 1)) [
      | none ↦ none
      | some c ↦ elim (store results i (middle a b c)) [
        | none ↦ none
        | some results' ↦ median_from left (i + 1) input results'
      ]
    ]
  ]
]

-- For `n` of at least 1; `results[n-1]` lies outside otherwise.
unfoldable pub median : (n : ℕ) → (input results : List ℕ) → Option (List ℕ)
unfolding median_from
median n input results = elim (leb 1 n) [
  | false ↦ none
  | true ↦ elim (store results 0 0) [
    | none ↦ none
    | some r ↦ elim (store r (n - 1) 0) [ none ↦ none | some r' ↦ median_from (n - 2) 1 input r' ]
  ]
]

-- The order of two `int`s.
abbrev pub key : ℕ → ℕ
key a = u32 (a + 2 ^ 31)

-- `m` is one of the three, one of the others is at most `m`, and the remaining one at least `m`.
abbrev pub IsBetween : (m lower upper : ℕ) → Type 0
IsBetween m lower upper = (key lower ≤ key m) × (key m ≤ key upper)

abbrev pub IsMedian : (m a b c : ℕ) → Type 0
IsMedian m a b c =
    ((m ≡ a) × (IsBetween m b c ⊎ IsBetween m c b))
    ⊎ (((m ≡ b) × (IsBetween m a c ⊎ IsBetween m c a))
        ⊎ ((m ≡ c) × (IsBetween m a b ⊎ IsBetween m b a)))

middle-IsMedian : (a b c : ℕ) → IsMedian (middle a b c) a b c
unfolding middle
middle-IsMedian a b c = ground arith

abbrev pub at : List ℕ → ℕ → ℕ
at xs i = get_or xs i 0

-- What the loop leaves when it covers the indices from `i` on.
record Filtered (input results : List ℕ) (left i : ℕ) (out : Option (List ℕ)) : Type 0 where
  filtered : List ℕ
  returned : out ≡ some filtered
  same_length : length filtered ≡ length results
  inside :
      (j : ℕ)
      → i ≤ j
      → j < i + left
      → IsMedian (at filtered j) (at input (j - 1)) (at input j) (at input (j + 1))
  outside : (j : ℕ) → (j < i) ⊎ (i + left ≤ j) → at filtered j ≡ at results j

store_inside : (xs : List ℕ) (i v : ℕ) → i < length xs → store xs i v ≡ some (set xs i v)
store_inside xs i v h = rw (lt→ltb i (length xs) h) refl

median_from-Filtered :
    (left i : ℕ) (input results : List ℕ)
    → 1 ≤ i
    → i + left + 1 ≤ length input
    → i + left ≤ length results
    → Filtered input results left i (median_from left i input results)
unfolding median_from
median_from-Filtered zero i input results first hi hr = record {
  filtered = results;
  returned = refl;
  same_length = refl;
  inside = λ j low high. absurd (omega arith);
  outside = λ j h. refl;
}
median_from-Filtered (suc left) i input results first hi hr =
    let a = get_elem?-eq-get_or input (i - 1) 0 (omega arith) in
    let b = get_elem?-eq-get_or input i 0 (omega arith) in
    let c = get_elem?-eq-get_or input (i + 1) 0 (omega arith) in
    let m = middle (at input (i - 1)) (at input i) (at input (i + 1)) in
    let stored = store_inside results i m (omega arith) in
    let kept = length-set results i m in
    let rest =
      median_from-Filtered left (i + 1) input (set results i m) (omega arith) (omega arith)
        (omega (arith, kept)) in
    let same = get_or-set_self results i m 0 (omega arith) in
    rw (median_from, a, b, c, stored)
      (record {
        filtered = rest.filtered;
        returned = rest.returned;
        same_length = rest.same_length ∙ kept;
        inside = λ j low high. elim (ℕ_discrete i j) [
          | yes e ↦
              let here : at rest.filtered i ≡ m = rest.outside i (inl (omega arith)) ∙ same in
              rw (← e, here) (middle-IsMedian (at input (i - 1)) (at input i) (at input (i + 1)))
          | no ne ↦ rest.inside j (omega arith) (omega arith)
        ];
        outside = λ j h.
            let ne : i ≢ j = elim h [ inl below ↦ omega arith | inr above ↦ omega arith ] in
            rest.outside j
              (elim h [ inl below ↦ inl (omega arith) | inr above ↦ inr (omega arith) ])
            ∙ get_or-set_ne results i j m 0 ne;
      })

pub record IsFiltered (n : ℕ) (input results : List ℕ) (out : Option (List ℕ)) : Type 0 where
  pub filtered : List ℕ
  pub returned : out ≡ some filtered
  pub same_length : length filtered ≡ length results
  pub first : at filtered 0 ≡ 0
  pub last : at filtered (n - 1) ≡ 0
  pub medians :
      (j : ℕ)
      → 1 ≤ j
      → j + 1 < n
      → IsMedian (at filtered j) (at input (j - 1)) (at input j) (at input (j + 1))
  pub behind : (j : ℕ) → n ≤ j → at filtered j ≡ at results j

median_single :
    (input results : List ℕ)
    → 1 ≤ length results
    → IsFiltered 1 input results (median 1 input results)
unfolding median median_from
median_single input results h =
    let cleared = set results 0 0 in
    let kept = length-set results 0 0 in
    let again = store_inside cleared 0 0 (omega (arith, kept)) in
    let zeroed : at (set cleared 0 0) 0 ≡ 0 = get_or-set_self cleared 0 0 0 (omega (arith, kept)) in
    rw (median, store_inside results 0 0 h, again)
      (record {
        filtered = set cleared 0 0;
        returned = refl;
        same_length = length-set cleared 0 0 ∙ kept;
        first = zeroed;
        last = zeroed;
        medians = λ j low high. absurd (omega arith);
        behind = λ j k.
            get_or-set_ne cleared 0 j 0 0 (omega arith)
            ∙ get_or-set_ne results 0 j 0 0 (omega arith);
      })

-- With at least one element and both arrays of at least `n`, the filter returns. It sets the first
-- and the last of the `n` results to 0 and each one between them to the median of the three inputs
-- around it, in the order of `int`, and changes no result behind them.
pub median-IsFiltered :
    (n : ℕ) (input results : List ℕ)
    → 1 ≤ n
    → n ≤ length input
    → n ≤ length results
    → IsFiltered n input results (median n input results)
unfolding median
median-IsFiltered n input results positive hi hr =
    let cleared = set results 0 0 in
    let first_store = store_inside results 0 0 (omega arith) in
    let kept = length-set results 0 0 in
    let last_store = store_inside cleared (n - 1) 0 (omega (arith, kept)) in
    let kept' = length-set cleared (n - 1) 0 in
    let ends = set cleared (n - 1) 0 in
    let at_first : at cleared 0 ≡ 0 = get_or-set_self results 0 0 0 (omega arith) in
    let at_last : at ends (n - 1) ≡ 0 = get_or-set_self cleared (n - 1) 0 0 (omega (arith, kept)) in
    let enough : leb 1 n ≡ true = ground (arith, positive) in
    elim (ℕ_discrete n 1) [
      | yes one ↦ rw one (median_single input results (omega arith))
      | no more ↦
          let rest =
            median_from-Filtered (n - 2) 1 input ends (omega arith) (omega arith)
              (omega (arith, kept, kept')) in
          rw (median, enough, first_store, last_store)
            (record {
              filtered = rest.filtered;
              returned = rest.returned;
              same_length = rest.same_length ∙ kept' ∙ kept;
              first =
                  rest.outside 0 (inl (omega arith))
                  ∙ get_or-set_ne cleared (n - 1) 0 0 0 (omega arith)
                  ∙ at_first;
              last = rest.outside (n - 1) (inr (omega arith)) ∙ at_last;
              medians = λ j low high. rest.inside j low (omega arith);
              behind = λ j h.
                  rest.outside j (inr (omega arith))
                  ∙ get_or-set_ne cleared (n - 1) j 0 0 (omega arith)
                  ∙ get_or-set_ne results 0 j 0 0 (omega arith);
            })
    ]
