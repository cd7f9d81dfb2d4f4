-- ===== src/Benchmarks/Verify.antt =====
-- The comparison with the expected results that the programs end with: `verify` of
-- benchmarks/common/util.h.
use native.Mathlib.Decide.{ℕ_discrete}
use rsicv_uvm_test.Base.{
  ℕ, zero, suc, ◌+◌, ◌-◌, ◌*◌, ◌/◌, ◌%◌, ◌≤◌, ◌<◌, ◌≡◌, ◌≢◌, arith, inl, inr, ◌==◌, not,
  if◌then◌else◌, Bool-cases, Option, none, some, List, get_elem?, get_elem?-eq-get_or, length,
}
use rsicv_uvm_test.Benchmarks.Arrays.{at}

-- The unrolled loop: `pairs` rounds of two elements each from the index `i`.
-- `some` of the place of a difference returns from the function.
unfoldable pub verify_pairs : (pairs i : ℕ) → (test verify : List ℕ) → Option (Option ℕ)
verify_pairs zero i test expected = some none
verify_pairs (suc pairs) i test expected = elim (get_elem? test i) [
  | none ↦ none
  | some t0 ↦ elim (get_elem? test (i + 1)) [
    | none ↦ none
    | some t1 ↦ elim (get_elem? expected i) [
      | none ↦ none
      | some v0 ↦ elim (get_elem? expected (i + 1)) [
        | none ↦ none
        | some v1 ↦
            let rest = verify_pairs pairs (i + 2) test expected in
            if not (t0 == v0)
            then some (some (i + 1))
            else if not (t1 == v1)
            then some (some (i + 2))
            else rest
      ]
    ]
  ]
]

-- `if (n % 2 != 0 && test[n-1] != verify[n-1]) return n; return 0;`
unfoldable pub verify_last : (n : ℕ) → (test verify : List ℕ) → Option ℕ
verify_last n test expected = if n % 2 == 0 then some 0 else (elim (get_elem? test (n - 1)) [
  | none ↦ none
  | some t ↦ elim (get_elem? expected (n - 1)) [
    | none ↦ none
    | some v ↦ if t == v then some 0 else some n
  ]
])

-- What follows the loop.
abbrev after_pairs : (n : ℕ) → (test verify : List ℕ) → Option (Option ℕ) → Option ℕ
after_pairs n test expected none = none
after_pairs n test expected (some (some place)) = some place
after_pairs n test expected (some none) = verify_last n test expected

unfoldable pub verify : (n : ℕ) → (test verify : List ℕ) → Option ℕ
unfolding verify_pairs verify_last
verify n test expected = after_pairs n test expected (verify_pairs (n / 2) 0 test expected)

-- No element from `i` up to `j` differs.
abbrev pub Agree : (test verify : List ℕ) → (i j : ℕ) → Type 0
Agree test expected i j = (k : ℕ) → i ≤ k → k < j → at test k ≡ at expected k

-- The place, counted from 1, is that of the first difference from `i` up to `j`.
pub record IsFirst (test verify : List ℕ) (i j place : ℕ) : Type 0 where
  pub low : i < place
  pub high : place ≤ j
  pub differs : at test (place - 1) ≢ at verify (place - 1)
  pub before : Agree test verify i (place - 1)

data Checked (test verify : List ℕ) (i j : ℕ) : Option (Option ℕ) → Type 0 where
  agreed : Agree test verify i j → Checked test verify i j (some none)
  found : (place : ℕ) → IsFirst test verify i j place → Checked test verify i j (some (some place))

agree_later :
    (test expected : List ℕ) (i j : ℕ)
    → at test i ≡ at expected i
    → at test (i + 1) ≡ at expected (i + 1)
    → Agree test expected (i + 2) j
    → Agree test expected i j
agree_later test expected i j e0 e1 h k low high = elim (ℕ_discrete k i) [
  | yes first ↦ rw first e0
  | no later ↦ elim (ℕ_discrete k (i + 1)) [
    | yes second ↦ rw second e1
    | no rest ↦ h k (omega arith) high
  ]
]

-- Two equal elements in front leave the verdict.
Checked-later :
    (test expected : List ℕ) (i j : ℕ) (o : Option (Option ℕ))
    → at test i ≡ at expected i
    → at test (i + 1) ≡ at expected (i + 1)
    → Checked test expected (i + 2) j o
    → Checked test expected i j o
Checked-later test expected i j _ e0 e1 (agreed h) = agreed (agree_later test expected i j e0 e1 h)
Checked-later test expected i j _ e0 e1 (found place f) = found place (record {
  low = omega (arith, f.low);
  high = f.high;
  differs = f.differs;
  before = agree_later test expected i (place - 1) e0 e1 f.before;
})

verify_pairs-Checked :
    (pairs i : ℕ) (test expected : List ℕ)
    → i + 2 * pairs ≤ length test
    → i + 2 * pairs ≤ length expected
    → Checked test expected i (i + 2 * pairs) (verify_pairs pairs i test expected)
unfolding verify_pairs
verify_pairs-Checked zero i test expected ht he = agreed (λ k low high. absurd (omega arith))
verify_pairs-Checked (suc pairs) i test expected ht he =
    let t0 = get_elem?-eq-get_or test i 0 (omega arith) in
    let t1 = get_elem?-eq-get_or test (i + 1) 0 (omega arith) in
    let v0 = get_elem?-eq-get_or expected i 0 (omega arith) in
    let v1 = get_elem?-eq-get_or expected (i + 1) 0 (omega arith) in
    let rest = verify_pairs-Checked pairs (i + 2) test expected (omega arith) (omega arith) in
    let end : i + 2 + 2 * pairs ≡ i + 2 * suc pairs = omega arith in
    rw (verify_pairs, t0, t1, v0, v1)
      (elim (Bool-cases (at test i == at expected i)) [
        | inr first ↦ rw first (
            found (i + 1) (record {
              low = omega arith;
              high = omega arith;
              differs = ground arith;
              before = λ k low high. absurd (omega arith);
            }))
        | inl same ↦ elim (Bool-cases (at test (i + 1) == at expected (i + 1))) [
          | inr second ↦
              rw (same, second)
                (found (i + 2) (record {
                  low = omega arith;
                  high = omega arith;
                  differs = ground arith;
                  before = λ k low high. let here : k ≡ i = omega arith in rw here (ground arith);
                }))
          | inl same' ↦
              rw (same, same')
                (Checked-later test expected i (i + 2 * suc pairs)
                  (verify_pairs pairs (i + 2) test expected) (ground arith) (ground arith)
                  (rw (← end) rest))
        ]
      ])

pub data IsVerdict (n : ℕ) (test verify : List ℕ) : Option ℕ → Type 0 where
  all_equal : Agree test verify 0 n → IsVerdict n test verify (some 0)
  first : (place : ℕ) → IsFirst test verify 0 n place → IsVerdict n test verify (some place)

verify_last-IsVerdict :
    (n : ℕ) (test expected : List ℕ)
    → n ≤ length test
    → n ≤ length expected
    → Agree test expected 0 (2 * (n / 2))
    → IsVerdict n test expected (verify_last n test expected)
unfolding verify_last
verify_last-IsVerdict n test expected ht he pairs = elim (Bool-cases (n % 2 == 0)) [
  | inl even ↦
      let whole : 2 * (n / 2) ≡ n = ground arith in
      rw even (all_equal (λ k low high. pairs k low (omega arith)))
  | inr odd ↦
      let whole : 2 * (n / 2) + 1 ≡ n = ground arith in
      let t = get_elem?-eq-get_or test (n - 1) 0 (omega arith) in
      let v = get_elem?-eq-get_or expected (n - 1) 0 (omega arith) in
      rw (odd, t, v)
        (elim (Bool-cases (at test (n - 1) == at expected (n - 1))) [
          | inl same ↦ rw same (
              all_equal (λ k low high. elim (ℕ_discrete k (n - 1)) [
                | yes last ↦ rw last (ground arith)
                | no earlier ↦ pairs k low (omega arith)
              ]))
          | inr differ ↦ rw differ (
              first n (record {
                low = omega arith;
                high = omega arith;
                differs = ground arith;
                before = λ k low high. pairs k low (omega arith);
              }))
        ])
]

after_pairs-IsVerdict :
    (n : ℕ) (test expected : List ℕ) (o : Option (Option ℕ))
    → n ≤ length test
    → n ≤ length expected
    → Checked test expected 0 (0 + 2 * (n / 2)) o
    → IsVerdict n test expected (after_pairs n test expected o)
after_pairs-IsVerdict n test expected _ ht he (agreed h) =
    verify_last-IsVerdict n test expected ht he (λ k low high. h k low (omega arith))
after_pairs-IsVerdict n test expected _ ht he (found place f) =
    first place
      (record { low = f.low; high = omega (arith, f.high); differs = f.differs; before = f.before })

-- On two arrays of at least `n` elements, `verify` returns: 0 when their first `n` elements are
-- equal, and otherwise the place, counted from 1, of the first difference among them.
pub verify-IsVerdict :
    (n : ℕ) (test expected : List ℕ)
    → n ≤ length test
    → n ≤ length expected
    → IsVerdict n test expected (verify n test expected)
unfolding verify
verify-IsVerdict n test expected ht he =
    after_pairs-IsVerdict n test expected (verify_pairs (n / 2) 0 test expected) ht he
      (verify_pairs-Checked (n / 2) 0 test expected (omega arith) (omega arith))
