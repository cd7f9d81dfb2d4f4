-- ===== src/Vvadd/Shares.antt =====
-- The shares of the harts in vvadd4 cover the arrays, whatever the order of the steps.
use rsicv_uvm_test.Base.{
  ℕ, zero, suc, ◌+◌, ◌*◌, ◌/◌, ◌%◌, ◌≤◌, ◌<◌, ◌≡◌, refl, sym, arith, ltb, lt→ltb, ltb→lt,
  Bool-cases, if◌then◌else◌, ◌⊎◌, inl, inr, Option, none, some, List, [], ◌∷◌, length, get_or,
  Returns, returns, Returns-value, Returns-then, true,
}
use mathlib.Core.Path.{subst}
use native.Mathlib.Nat.{div-add-mod, mod-lt}
use rsicv_uvm_test.Vvadd.{strided, once, vvadd_4}
use rsicv_uvm_test.Vvadd.Harts.{System, In, Run, Completes, Run-Completes}

-- The indices from `i` on in steps, below `n`.
pub record IsStrided (i n step : ℕ) (is : List ℕ) : Type 0 where
  pub below : (j : ℕ) → In j is → j < n
  pub reached : (k : ℕ) → i + k * step < n → In (i + k * step) is

zero_or_suc : (k : ℕ) → (k ≡ 0) ⊎ ((k' : ℕ) × (k ≡ suc k'))
zero_or_suc zero = inl refl
zero_or_suc (suc k) = inr (k, refl)

reached_at : {i j : ℕ} (is : List ℕ) → In i is → i ≡ j → In j is
reached_at is member e = subst (λ k. In k is) e member

strided-Returns :
    (fuel i n step : ℕ)
    → 1 ≤ step
    → 1 ≤ fuel
    → n < fuel + i
    → Returns (IsStrided i n step) (strided once fuel i n step)
unfolding strided
strided-Returns zero i n step some_step some_fuel enough = absurd (omega arith)
strided-Returns (suc fuel) i n step some_step some_fuel enough = elim (Bool-cases (ltb i n)) [
  | inl more ↦
      let low : i < n = ltb→lt i n more in
      rw more (
        Returns-then _
          (strided-Returns fuel (i + step) n step some_step (omega arith) (omega arith))
          (λ is r. returns (i ∷ is) (record {
            below = λ j member. elim member [ inl e ↦ rw e low | inr later ↦ r.below j later ];
            reached = λ k h. elim (zero_or_suc k) [
              | inl e ↦ inl (rw e (omega arith))
              | inr (k', e) ↦
                  let next : i + k * step ≡ i + step + k' * step = rw e (grind arith) in
                  inr (reached_at is (r.reached k' (rw (← next) h)) (sym next))
            ];
          })))
  | inr ended ↦
      let high : n ≤ i = ground (arith, ended) in
      rw ended (
        returns []
          (record { below = λ j member. absurd member; reached = λ k h. absurd (omega arith) }))
]

-- The share of each hart at the start.
abbrev pub launch : (ℕ → Option (List ℕ)) → (ncores : ℕ) → ℕ → List ℕ
launch share ncores hart =
    if ltb hart ncores then (elim (share hart) [ none ↦ [] | some is ↦ is ]) else []

-- The harts have stored everything.
abbrev pub AreDone : {A : Type 0} → System A → Type 0
AreDone s = (hart : ℕ) → s.left hart ≡ []

-- The run of vvadd4 from its start: it does not get stuck, and at its end the array is the sum.
pub record IsSummed {A : Type 0} (sum : ℕ → A) (n : ℕ) (z : List A) (start s : System A)
    : Type 0 where
  pub completes : Completes sum start s
  pub summed : AreDone s → (j : ℕ) (d : A) → j < n → get_or s.z j d ≡ sum j
  pub kept : (j : ℕ) (d : A) → n ≤ j → get_or s.z j d ≡ get_or z j d

module _ (fuel n ncores : ℕ) (some_core : 1 ≤ ncores) (enough : n < fuel) where
  share : (hart : ℕ) → Returns (IsStrided hart n ncores) (vvadd_4 fuel n ncores hart)
  unfolding vvadd_4
  share hart = strided-Returns fuel hart n ncores some_core (omega arith) (omega arith)

  shares-below : (hart j : ℕ) → In j (launch (vvadd_4 fuel n ncores) ncores hart) → j < n
  shares-below hart j = elim (Bool-cases (ltb hart ncores)) [
    | inl runs ↦
        let (is, e, r) = Returns-value (share hart) in rw (runs, e) (λ member. r.below j member)
    | inr idle ↦ rw idle (λ member. absurd member)
  ]

  shares-cover : (j : ℕ) → j < n → (hart : ℕ) × In j (launch (vvadd_4 fuel n ncores) ncores hart)
  shares-cover j low =
      let hart = j % ncores in
      let runs : ltb hart ncores ≡ true = lt→ltb hart ncores (mod-lt j some_core) in
      let (is, e, r) = Returns-value (share hart) in
      let place : hart + j / ncores * ncores ≡ j = grind (arith, div-add-mod j ncores) in
      (hart, rw (runs, e) (reached_at is (r.reached (j / ncores) (rw place low)) place))

abbrev pub at_start :
    {A : Type 0} → (share : ℕ → Option (List ℕ)) → (ncores : ℕ) → List A → System A
at_start share ncores z = record { left = launch share ncores; z = z }

-- For harts 0 to ncores - 1 that run vvadd4 on arrays of at least n elements, in any order of their
-- stores, with fuel above n: in every state on the way, each hart that has something left can go on
-- inside the array, and no element behind the first n has changed. Where nothing is left, each of
-- the first n elements is its sum.
pub vvadd_4-IsSummed :
    {A : Type 0} (sum : ℕ → A) (fuel n ncores : ℕ) (z : List A) (s : System A)
    → 1 ≤ ncores
    → n < fuel
    → n ≤ length z
    → Run sum (at_start (vvadd_4 fuel n ncores) ncores z) s
    → IsSummed sum n z (at_start (vvadd_4 fuel n ncores) ncores z) s
vvadd_4-IsSummed sum fuel n ncores z s some_core enough fits run =
    let start = at_start (vvadd_4 fuel n ncores) ncores z in
    let low = shares-below fuel n ncores some_core enough in
    let c =
      Run-Completes sum start s
        (λ hart j member. let inside : j < n = low hart j member in omega arith) run in
    record {
      completes = c;
      summed = λ nothing_left j d h.
          let (hart, member) = shares-cover fuel n ncores some_core enough j h in
          c.sums nothing_left hart j d member;
      kept = λ j d h.
          c.others j d
            (λ hart member. let inside : j < n = low hart j member in absurd (omega arith));
    }
