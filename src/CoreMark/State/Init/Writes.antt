-- ===== src/CoreMark/State/Init/Writes.antt =====
-- The writing loops of `core_init_state`, as operations on what stands before and after the
-- place where they write.
use mathlib.Core.List.{append_assoc}
use rsicv_uvm_test.Base.{
  ℕ, zero, suc, ◌+◌, ◌≤◌, ◌<◌, ◌≡◌, refl, ap, ◌∙◌, arith, lt→ltb, ltb_of_le, some, List, [], ◌∷◌,
  ◌++◌, set, length, drop, length-append, replicate,
}
use rsicv_uvm_test.CoreMark.State.Init.{write, copy_bytes, clear}

set-append :
    (done : List ℕ) (old v : ℕ) (rest : List ℕ)
    → set (done ++ old ∷ rest) (length done) v ≡ done ++ v ∷ rest
set-append [] old v rest = refl
set-append (x ∷ done) old v rest = ap (◌∷◌ x) (set-append done old v rest)

-- A write just behind what is done.
pub write_next :
    (i v : ℕ) (done : List ℕ) (old : ℕ) (rest : List ℕ)
    → i ≡ length done
    → write i v (done ++ old ∷ rest) ≡ some ((done ++ v ∷ []) ++ rest)
unfolding write
write_next i v done old rest e =
    let inside : length done < length (done ++ old ∷ rest) =
      omega (arith, length-append done (old ∷ rest)) in
    rw (e, lt→ltb _ _ inside, set-append done old v rest, append_assoc done (v ∷ []) rest)

-- Copying a whole pattern behind what is done.
pub copy_bytes_next :
    (buf : List ℕ) (i : ℕ) (done rest : List ℕ)
    → i ≡ length done
    → length buf ≤ length rest
    → copy_bytes (length buf) buf i (done ++ rest) ≡ some (done ++ (buf ++ drop (length buf) rest))
unfolding copy_bytes
copy_bytes_next [] i done rest e le = refl
copy_bytes_next (b ∷ buf) i done [] e le = absurd (omega arith)
copy_bytes_next (b ∷ buf) i done (old ∷ rest) e le =
    rw (copy_bytes, write_next i b done old rest e)
      (copy_bytes_next buf (i + 1) (done ++ b ∷ []) rest
          (omega (arith, length-append done (b ∷ []))) (omega arith)
        ∙ ap some (append_assoc done (b ∷ []) (buf ++ drop (length buf) rest)))

-- The last loop writes zeros from `total` on, up to `size`.
pub clear_next :
    (k fuel size total : ℕ) (done rest : List ℕ)
    → total ≡ length done
    → total + k ≡ size
    → k ≤ length rest
    → k < fuel
    → clear fuel size total (done ++ rest) ≡ some (done ++ (replicate k 0 ++ drop k rest))
unfolding clear
clear_next k zero size total done rest e s le lt = absurd (omega arith)
clear_next zero (suc fuel) size total done rest e s le lt =
    rw (clear, ltb_of_le total size (omega arith))
clear_next (suc k) (suc fuel) size total done [] e s le lt = absurd (omega arith)
clear_next (suc k) (suc fuel) size total done (old ∷ rest) e s le lt =
    rw (clear, lt→ltb total size (omega arith), write_next total 0 done old rest e)
      (clear_next k fuel size (total + 1) (done ++ 0 ∷ []) rest
          (omega (arith, length-append done (0 ∷ []))) (omega arith) (omega arith) (omega arith)
        ∙ ap some (append_assoc done (0 ∷ []) (replicate k 0 ++ drop k rest)))
