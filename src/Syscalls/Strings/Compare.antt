-- ===== src/Syscalls/Strings/Compare.antt =====
-- memcmp: the loop over words leaves the result of the loop over bytes.
use rsicv_uvm_test.Base.{
  ℕ, zero, suc, ◌-◌, ◌*◌, ◌/◌, ◌^◌, ◌≤◌, ◌<◌, ◌≡◌, ◌≢◌, refl, sym, ap, ◌∙◌, arith, ==_refl,
  ==_of_ne, Bool-cases, inl, inr, Option, some, List, [], ◌∷◌, length, take, drop, length-drop,
  All-drop, get_or, bit_or,
}
use native.Mathlib.Decide.{ℕ_discrete}
use rsicv_uvm_test.Syscalls.Strings.{is_aligned, difference, compare_bytes, compare_words, memcmp}
use rsicv_uvm_test.Syscalls.Strings.Copy.{AreBytes, word_of, load_lem}

-- Two equal words are the same bytes, which the loop over bytes passes.
compare_bytes-word :
    (k n : ℕ) (s1 s2 : List ℕ)
    → k ≤ n
    → k ≤ length s1
    → k ≤ length s2
    → AreBytes s1
    → AreBytes s2
    → word_of k s1 ≡ word_of k s2
    → compare_bytes s1 s2 n ≡ compare_bytes (drop k s1) (drop k s2) (n - k)
compare_bytes-word zero n s1 s2 hn h1 h2 b1 b2 e = ap (compare_bytes s1 s2) (omega arith)
compare_bytes-word (suc k) zero s1 s2 hn h1 h2 b1 b2 e = absurd (omega arith)
compare_bytes-word (suc k) (suc n) [] s2 hn h1 h2 b1 b2 e = absurd (omega arith)
compare_bytes-word (suc k) (suc n) (c1 ∷ s1) [] hn h1 h2 b1 b2 e = absurd (omega arith)
compare_bytes-word (suc k) (suc n) (c1 ∷ s1) (c2 ∷ s2) hn h1 h2 b1 b2 e =
    let first : c1 ≡ c2 = omega (arith, b1.0, b2.0) in
    let upper : word_of k s1 ≡ word_of k s2 = omega (arith, b1.0, b2.0) in
    let count : suc n - suc k ≡ n - k = omega arith in
    rw (first, ==_refl c2, count)
      (compare_bytes-word k n s1 s2 (omega arith) (omega arith) (omega arith) b1.1 b2.1 upper)

compare_words_lem :
    (words n : ℕ) (s1 s2 : List ℕ)
    → words * 8 ≤ n
    → n ≤ length s1
    → n ≤ length s2
    → AreBytes s1
    → AreBytes s2
    → compare_words words s1 s2 n ≡ compare_bytes s1 s2 n
unfolding compare_words
compare_words_lem zero n s1 s2 hn h1 h2 b1 b2 = refl
compare_words_lem (suc words) n s1 s2 hn h1 h2 b1 b2 =
    let left1 = length-drop 8 s1 in
    let left2 = length-drop 8 s2 in
    let rest =
      compare_words_lem words (n - 8) (drop 8 s1) (drop 8 s2) (omega arith) (omega arith)
        (omega arith) (All-drop (λ c. c < 2 ^ 8) 8 s1 b1) (All-drop (λ c. c < 2 ^ 8) 8 s2 b2) in
    rw (load_lem 8 s1 (omega arith), load_lem 8 s2 (omega arith))
      (elim (ℕ_discrete (word_of 8 s1) (word_of 8 s2)) [
        | yes e ↦
            rw (e, ==_refl (word_of 8 s2))
              (rest
                ∙ sym (
                    compare_bytes-word 8 n s1 s2 (omega arith) (omega arith) (omega arith) b1 b2 e))
        | no ne ↦ rw (==_of_ne (word_of 8 s1) (word_of 8 s2) ne) refl
      ])

-- What memcmp may give for the first `n` bytes of two objects.
pub data Compared (s1 s2 : List ℕ) (n : ℕ) : Option ℕ → Type 0 where
  same : take n s1 ≡ take n s2 → Compared s1 s2 n (some 0)
  differ :
      (i : ℕ)
      → i < n
      → take i s1 ≡ take i s2
      → get_or s1 i 0 ≢ get_or s2 i 0
      → Compared s1 s2 n (some (difference (get_or s1 i 0) (get_or s2 i 0)))

behind_equal :
    (c : ℕ) (s1 s2 : List ℕ) (n : ℕ) (out : Option ℕ)
    → Compared s1 s2 n out
    → Compared (c ∷ s1) (c ∷ s2) (suc n) out
behind_equal c s1 s2 n out (same e) = same (ap (◌∷◌ c) e)
behind_equal c s1 s2 n out (differ i h e ne) = differ (suc i) (omega arith) (ap (◌∷◌ c) e) ne

compare_bytes-Compared :
    (n : ℕ) (s1 s2 : List ℕ)
    → n ≤ length s1
    → n ≤ length s2
    → Compared s1 s2 n (compare_bytes s1 s2 n)
compare_bytes-Compared zero s1 s2 h1 h2 = same refl
compare_bytes-Compared (suc n) [] s2 h1 h2 = absurd (omega arith)
compare_bytes-Compared (suc n) (c1 ∷ s1) [] h1 h2 = absurd (omega arith)
compare_bytes-Compared (suc n) (c1 ∷ s1) (c2 ∷ s2) h1 h2 = elim (ℕ_discrete c1 c2) [
  | yes e ↦
      rw (e, ==_refl c2)
        (behind_equal c2 s1 s2 n (compare_bytes s1 s2 n)
          (compare_bytes-Compared n s1 s2 (omega arith) (omega arith)))
  | no ne ↦ rw (==_of_ne c1 c2 ne) (differ 0 (omega arith) refl ne)
]

-- On two objects of at least `n` bytes, memcmp returns, whatever their alignment: 0 if their first n
-- bytes are the same, and otherwise the difference of the first two bytes that differ, as an `int`.
pub memcmp-Compared :
    (s1_at s2_at : ℕ) (s1 s2 : List ℕ) (n : ℕ)
    → n ≤ length s1
    → n ≤ length s2
    → AreBytes s1
    → AreBytes s2
    → Compared s1 s2 n (memcmp s1_at s2_at s1 s2 n)
unfolding memcmp
memcmp-Compared s1_at s2_at s1 s2 n h1 h2 b1 b2 =
    let bytes = compare_bytes-Compared n s1 s2 h1 h2 in
    elim (Bool-cases (is_aligned (bit_or s1_at s2_at))) [
      | inl words ↦ rw (words, compare_words_lem (n / 8) n s1 s2 (omega arith) h1 h2 b1 b2) bytes
      | inr single ↦ rw single bytes
    ]
