-- ===== src/Syscalls/Strings/Text.antt =====
-- Texts that end with a 0: strcpy, strlen and strcmp on each other's results.
use rsicv_uvm_test.Base.{
  ℕ, zero, suc, ◌^◌, ◌≤◌, ◌<◌, ◌≡◌, ◌≢◌, refl, ap, arith, ==_refl, ==_of_ne, Option, some, min,
  List, [], ◌∷◌, ◌++◌, length, drop, All, Returns, returns,
}
use rsicv_uvm_test.Syscalls.Strings.{strlen, strnlen, strcmp, strcpy, difference}

abbrev pub IsText : List ℕ → Type 0
IsText = All (λ c. c ≢ 0)

pub strcpy_lem :
    (text : List ℕ) (behind dest : List ℕ)
    → IsText text
    → length text < length dest
    → strcpy dest (text ++ (0 ∷ behind)) ≡ some (text ++ (0 ∷ drop (suc (length text)) dest))
strcpy_lem [] behind [] h k = absurd (omega arith)
strcpy_lem [] behind (o ∷ dest) h k = refl
strcpy_lem (c ∷ text) behind [] h k = absurd (omega arith)
strcpy_lem (c ∷ text) behind (o ∷ dest) h k =
    rw (==_of_ne c 0 h.0, strcpy_lem text behind dest h.1 (omega arith)) refl

strlen_lem :
    (text behind : List ℕ) → IsText text → strlen (text ++ (0 ∷ behind)) ≡ some (length text)
strlen_lem [] behind h = refl
strlen_lem (c ∷ text) behind h = rw (==_of_ne c 0 h.0, strlen_lem text behind h.1) refl

pub strnlen_lem :
    (text behind : List ℕ) (n : ℕ)
    → IsText text
    → strnlen (text ++ (0 ∷ behind)) n ≡ some (min n (length text))
strnlen_lem [] behind zero h = refl
strnlen_lem [] behind (suc n) h = ap some (omega arith)
strnlen_lem (c ∷ text) behind zero h = ap some (omega arith)
strnlen_lem (c ∷ text) behind (suc n) h =
    rw (==_of_ne c 0 h.0, strnlen_lem text behind n h.1) (ap some (omega arith))

strcmp_same :
    (text a b : List ℕ) → IsText text → strcmp (text ++ (0 ∷ a)) (text ++ (0 ∷ b)) ≡ some 0
strcmp_same [] a b h = refl
strcmp_same (c ∷ text) a b h = rw (==_of_ne c 0 h.0, ==_refl c) (strcmp_same text a b h.1)

-- Of two texts, the one whose first byte that differs is less comes first.
pub strcmp_less :
    (text : List ℕ) (a b : ℕ) (behind_1 behind_2 : List ℕ)
    → IsText text
    → 0 < a
    → a < b
    → b < 2 ^ 8
    → Returns
        (λ c. (2 ^ 31 ≤ c) × (c < 2 ^ 32))
        (strcmp (text ++ (a ∷ behind_1)) (text ++ (b ∷ behind_2)))
strcmp_less [] a b behind_1 behind_2 h above less low =
    rw (==_of_ne a 0 (omega arith), ==_of_ne a b (omega arith))
      (returns (difference a b) (omega arith, omega arith))
strcmp_less (c ∷ text) a b behind_1 behind_2 h above less low =
    rw (==_of_ne c 0 h.0, ==_refl c) (strcmp_less text a b behind_1 behind_2 h.1 above less low)

pub record IsCopied (text dest source : List ℕ) (out : Option (List ℕ)) : Type 0 where
  pub copy : List ℕ
  pub returned : out ≡ some copy
  pub copied : copy ≡ text ++ (0 ∷ drop (suc (length text)) dest)
  pub same_text : strcmp copy source ≡ some 0
  pub same_length : strlen copy ≡ some (length text)
  pub limited : (n : ℕ) → strnlen copy n ≡ some (min n (length text))

-- For a text without a 0 that ends with one, and a destination with room for both, strcpy returns and
-- keeps what stands behind the copy. strcmp finds the copy equal to the source, strlen gives the
-- text's length on it, and strnlen that length or its limit, whichever is less.
pub strcpy-strcmp :
    (text behind dest : List ℕ)
    → IsText text
    → length text < length dest
    → IsCopied text dest (text ++ (0 ∷ behind)) (strcpy dest (text ++ (0 ∷ behind)))
strcpy-strcmp text behind dest h k =
    let kept = drop (suc (length text)) dest in
    record {
      copy = text ++ (0 ∷ kept);
      returned = strcpy_lem text behind dest h k;
      copied = refl;
      same_text = strcmp_same text kept behind h;
      same_length = strlen_lem text kept h;
      limited = λ n. strnlen_lem text kept n h;
    }
