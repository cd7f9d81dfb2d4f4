-- ===== src/Examples/Vvadd.antt =====
-- The shares of several harts, and the elements that vvadd0 leaves out.
use rsicv_uvm_test.Base.{ℕ, ◌+◌, ◌≡◌, refl, arith, some, [], ◌∷◌, set}
use rsicv_uvm_test.Vvadd.{vvadd_0, vvadd_2, vvadd_3, vvadd_4, strided}
use rsicv_uvm_test.Vvadd.Harts.{System, turn_of, Run, stay, go_on, stores}
use rsicv_uvm_test.Vvadd.Shares.{IsSummed, at_start, vvadd_4-IsSummed}

abbrev doubled : ℕ → ℕ
doubled i = i + i

abbrev start : System ℕ
start = at_start (vvadd_4 4 3 2) 2 (7 ∷ (7 ∷ (7 ∷ (7 ∷ []))))

-- Hart 1 stores the element 1, and then hart 0 the element 0.
abbrev first_stored : System ℕ
first_stored = record { left = turn_of 1 [] start.left; z = set start.z 1 2 }

abbrev second_stored : System ℕ
second_stored = record { left = turn_of 0 (2 ∷ []) first_stored.left; z = set first_stored.z 0 0 }

two_steps : Run doubled start second_stored
unfolding vvadd_4 strided
two_steps = go_on start first_stored second_stored (stores 1 1 [] start refl (omega arith)) (
    go_on first_stored second_stored second_stored
      (stores 0 0 (2 ∷ []) first_stored refl (omega arith)) (stay second_stored))

vvadd_4-IsSummed_example : IsSummed doubled 3 (7 ∷ (7 ∷ (7 ∷ (7 ∷ [])))) start second_stored
vvadd_4-IsSummed_example =
    vvadd_4-IsSummed doubled 4 3 2 (7 ∷ (7 ∷ (7 ∷ (7 ∷ [])))) second_stored (omega arith)
      (omega arith) (omega arith) two_steps

-- With 10 elements and 4 harts, no hart of vvadd0 stores the elements 8 and 9.
left_out :
    (vvadd_0 11 10 4 0 ≡ some (0 ∷ (1 ∷ [])))
    × ((vvadd_0 11 10 4 1 ≡ some (2 ∷ (3 ∷ [])))
        × ((vvadd_0 11 10 4 2 ≡ some (4 ∷ (5 ∷ []))) × (vvadd_0 11 10 4 3 ≡ some (6 ∷ (7 ∷ [])))))
unfolding vvadd_0 strided
left_out = (refl, (refl, (refl, refl)))

-- With 11 elements and 2 harts, no hart of vvadd3 stores the element 10.
left_out_behind :
    (vvadd_3 11 2 0 ≡ some (0 ∷ (1 ∷ (2 ∷ (3 ∷ (4 ∷ []))))))
    × (vvadd_3 11 2 1 ≡ some (5 ∷ (6 ∷ (7 ∷ (8 ∷ (9 ∷ []))))))
unfolding vvadd_3
left_out_behind = (refl, refl)

-- With 5 elements and 2 harts, hart 0 of vvadd2 stores the element 6.
stored_behind : vvadd_2 6 5 2 0 ≡ some (0 ∷ (2 ∷ (4 ∷ (6 ∷ []))))
unfolding vvadd_2 strided
stored_behind = refl
