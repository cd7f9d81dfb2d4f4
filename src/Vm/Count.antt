-- ===== src/Vm/Count.antt =====
-- How many of the first entries of a page table are in use.
use rsicv_uvm_test.Base.{
  ℕ, zero, suc, ◌+◌, ◌*◌, ◌/◌, ◌%◌, ◌≤◌, ◌<◌, ◌≡◌, ◌≢◌, refl, arith, ◌==◌, if◌then◌else◌, List,
  length, get_or, set, get_or-set_self, get_or-set_ne,
}
use native.Mathlib.Decide.{ℕ_discrete}

abbrev one_if_used : ℕ → ℕ
one_if_used pte = if pte == 0 then 0 else 1

pub mapped : ℕ → List ℕ → ℕ
mapped zero table = 0
mapped (suc n) table = one_if_used (get_or table n 0) + mapped n table

mapped-set_above : (n i v : ℕ) (table : List ℕ) → n ≤ i → mapped n (set table i v) ≡ mapped n table
unfolding mapped
mapped-set_above zero i v table h = refl
mapped-set_above (suc n) i v table h =
    ground (arith, get_or-set_ne table i n v 0, mapped-set_above n i v table)

-- Filling a free entry counts one more.
pub mapped-set_new :
    (n i v : ℕ) (table : List ℕ)
    → i < n
    → i < length table
    → get_or table i 0 ≡ 0
    → v ≢ 0
    → mapped n (set table i v) ≡ mapped n table + 1
unfolding mapped
mapped-set_new zero i v table h k free new = absurd (omega arith)
mapped-set_new (suc n) i v table h k free new = elim (ℕ_discrete i n) [
  | yes e ↦ ground (arith, get_or-set_self table i v 0, mapped-set_above n i v table)
  | no e ↦ ground (arith, get_or-set_ne table i n v 0, mapped-set_new n i v table)
]

-- Changing an entry that stays in use counts the same.
pub mapped-set_kept :
    (n i v : ℕ) (table : List ℕ)
    → i < length table
    → get_or table i 0 ≢ 0
    → v ≢ 0
    → mapped n (set table i v) ≡ mapped n table
unfolding mapped
mapped-set_kept zero i v table k used new = refl
mapped-set_kept (suc n) i v table k used new = elim (ℕ_discrete i n) [
  | yes e ↦ ground (arith, get_or-set_self table i v 0, mapped-set_above n i v table)
  | no e ↦ ground (arith, get_or-set_ne table i n v 0, mapped-set_kept n i v table)
]

pub mapped-le : (n : ℕ) (table : List ℕ) → mapped n table ≤ n
unfolding mapped
mapped-le zero table = omega arith
mapped-le (suc n) table = ground (arith, mapped-le n table)

mapped_one_free : (n i : ℕ) (table : List ℕ) → i < n → get_or table i 0 ≡ 0 → mapped n table + 1 ≤ n
unfolding mapped
mapped_one_free zero i table h e = absurd (omega arith)
mapped_one_free (suc n) i table h e = elim (ℕ_discrete i n) [
  | yes same ↦ ground (arith, mapped-le n table)
  | no other ↦ ground (arith, mapped_one_free n i table)
]

-- Two free entries leave room for two.
pub mapped_two_free :
    (n i j : ℕ) (table : List ℕ)
    → i < j
    → j < n
    → get_or table i 0 ≡ 0
    → get_or table j 0 ≡ 0
    → mapped n table + 2 ≤ n
unfolding mapped
mapped_two_free zero i j table less h ei ej = absurd (omega arith)
mapped_two_free (suc n) i j table less h ei ej = elim (ℕ_discrete j n) [
  | yes same ↦ ground (arith, mapped_one_free n i table)
  | no other ↦ ground (arith, mapped_two_free n i j table)
]

pub mapped-none : (n : ℕ) (table : List ℕ) → ((i : ℕ) → get_or table i 0 ≡ 0) → mapped n table ≡ 0
unfolding mapped
mapped-none zero table h = refl
mapped-none (suc n) table h = ground (arith, h n, mapped-none n table h)

-- How far a page has come: 0 when it is not mapped, and then one more for each of the accessed and
-- the dirty bit.
abbrev pub level : ℕ → ℕ
level pte = if pte == 0 then 0 else (1 + pte / 64 % 2 + pte / 128 % 2)

-- The sum of the levels of the first entries.
pub levels : ℕ → List ℕ → ℕ
levels zero table = 0
levels (suc n) table = level (get_or table n 0) + levels n table

levels-set_above : (n i v : ℕ) (table : List ℕ) → n ≤ i → levels n (set table i v) ≡ levels n table
unfolding levels
levels-set_above zero i v table h = refl
levels-set_above (suc n) i v table h =
    ground (arith, get_or-set_ne table i n v 0, levels-set_above n i v table)

levels-set_last :
    (n v : ℕ) (table : List ℕ)
    → n < length table
    → levels (suc n) (set table n v) + level (get_or table n 0) ≡ levels (suc n) table + level v
unfolding levels
levels-set_last n v table k =
    let kept = levels-set_above n n v table (omega arith) in
    rw (get_or-set_self table n v 0 k) (omega (arith, kept))

pub levels-set :
    (n i v : ℕ) (table : List ℕ)
    → i < n
    → i < length table
    → levels n (set table i v) + level (get_or table i 0) ≡ levels n table + level v
unfolding levels
levels-set zero i v table h k = absurd (omega arith)
levels-set (suc n) i v table h k = elim (ℕ_discrete i n) [
  | yes e ↦ rw e (levels-set_last n v table (omega arith))
  | no e ↦
      rw (get_or-set_ne table i n v 0 e) (omega (arith, levels-set n i v table (omega arith) k))
]

level-le : (pte : ℕ) → level pte ≤ 3
level-le pte = ground arith

pub levels-le : (n : ℕ) (table : List ℕ) → get_or table 0 0 ≡ 0 → levels (suc n) table ≤ 3 * n
unfolding levels
levels-le zero table free = ground arith
levels-le (suc n) table free =
    omega (arith, level-le (get_or table (suc n) 0), levels-le n table free)

pub levels-none : (n : ℕ) (table : List ℕ) → ((i : ℕ) → get_or table i 0 ≡ 0) → levels n table ≡ 0
unfolding levels
levels-none zero table h = refl
levels-none (suc n) table h = ground (arith, h n, levels-none n table h)
