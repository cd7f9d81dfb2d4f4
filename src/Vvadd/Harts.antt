-- ===== src/Vvadd/Harts.antt =====
-- Several harts that store their sums in any order of their steps.
use rsicv_uvm_test.Base.{
  ℕ, ◌<◌, ◌≡◌, ◌≢◌, refl, sym, ap, ◌∙◌, arith, ◌==◌, ==_cases, if◌then◌else◌, ◌⊎◌, inl, inr, List,
  [], ◌∷◌, length, length-set, get_or, get_or-set_self, get_or-set_ne, set,
}
use mathlib.Core.Path.{subst}
use native.Mathlib.Decide.{ℕ_discrete}

-- What every hart has yet to store, and the destination.
pub record System (A : Type 0) : Type 0 where
  pub left : ℕ → List ℕ
  pub z : List A

abbrev pub turn_of : (hart : ℕ) → List ℕ → (ℕ → List ℕ) → ℕ → List ℕ
turn_of hart rest left h = if h == hart then rest else left h

abbrev pub In : ℕ → List ℕ → Type 0
In j [] = ⊥
In j (i ∷ is) = (j ≡ i) ⊎ In j is

In-along : (j : ℕ) (xs ys : List ℕ) → xs ≡ ys → In j xs → In j ys
In-along j xs ys e member = subst (In j) e member

turn_cases :
    (hart : ℕ) (rest : List ℕ) (left : ℕ → List ℕ) (h : ℕ)
    → ((h ≡ hart) × (turn_of hart rest left h ≡ rest)) ⊎ (turn_of hart rest left h ≡ left h)
turn_cases hart rest left h = elim (==_cases h hart) [
  | inl (same, e) ↦ inl (same, rw e refl)
  | inr (other, e) ↦ inr (rw e refl)
]

module _ {A : Type 0} (sum : ℕ → A) where
  -- A hart's next store, inside the array.
  pub data Step : System A → System A → Type 0 where
    stores :
        (hart i : ℕ) (rest : List ℕ) (s : System A)
        → s.left hart ≡ i ∷ rest
        → i < length s.z
        → Step s (record { left = turn_of hart rest s.left; z = set s.z i (sum i) })

  pub data Run : System A → System A → Type 0 where
    stay : (s : System A) → Run s s
    go_on : (s t u : System A) → Step s t → Run t u → Run s u

  -- From the start on, every index is still to be stored by the hart that has it, or is summed; and
  -- no other element has changed.
  pub record Follows (start s : System A) : Type 0 where
    pub same_length : length s.z ≡ length start.z
    pub summed :
        (hart j : ℕ) (d : A)
        → In j (start.left hart)
        → In j (s.left hart) ⊎ (get_or s.z j d ≡ sum j)
    pub within : (hart j : ℕ) → In j (s.left hart) → In j (start.left hart)
    pub others :
        (j : ℕ) (d : A)
        → ((hart : ℕ) → In j (start.left hart) → ⊥)
        → get_or s.z j d ≡ get_or start.z j d

  -- What is left behind a step was left before it.
  still :
      (s : System A) (hart i : ℕ) (rest : List ℕ) (h j : ℕ)
      → s.left hart ≡ i ∷ rest
      → In j (turn_of hart rest s.left h)
      → In j (s.left h)
  still s hart i rest h j here member = elim (turn_cases hart rest s.left h) [
    | inl (same, e) ↦
        In-along j (i ∷ rest) (s.left h) (sym here ∙ ap s.left (sym same))
          (inr (In-along j (turn_of hart rest s.left h) rest e member))
    | inr e ↦ In-along j (turn_of hart rest s.left h) (s.left h) e member
  ]

  -- What is left before a step is stored by it or still left.
  stored_or_left :
      (s : System A) (hart i : ℕ) (rest : List ℕ) (h j : ℕ)
      → s.left hart ≡ i ∷ rest
      → In j (s.left h)
      → (j ≡ i) ⊎ In j (turn_of hart rest s.left h)
  stored_or_left s hart i rest h j here member = elim (turn_cases hart rest s.left h) [
    | inl (same, e) ↦ elim (In-along j (s.left h) (i ∷ rest) (ap s.left same ∙ here) member) [
      | inl now ↦ inl now
      | inr later ↦ inr (In-along j rest (turn_of hart rest s.left h) (sym e) later)
    ]
    | inr e ↦ inr (In-along j (s.left h) (turn_of hart rest s.left h) (sym e) member)
  ]

  Step-Follows : (start s t : System A) → Step s t → Follows start s → Follows start t
  Step-Follows start _ _ (stores hart i rest s here inside) f = record {
    same_length = length-set s.z i (sum i) ∙ f.same_length;
    summed = λ h j d member. elim (f.summed h j d member) [
      | inl waiting ↦ elim (stored_or_left s hart i rest h j here waiting) [
        | inl now ↦ inr (rw now (get_or-set_self s.z i (sum i) d inside))
        | inr later ↦ inl later
      ]
      | inr kept ↦ inr (elim (ℕ_discrete i j) [
        | yes e ↦ rw (← e) (get_or-set_self s.z i (sum i) d inside)
        | no ne ↦ get_or-set_ne s.z i j (sum i) d ne ∙ kept
      ])
    ];
    within = λ h j member. f.within h j (still s hart i rest h j here member);
    others = λ j d none_has.
        let ne : i ≢ j = λ e. none_has hart (f.within hart j (rw (here, e) (inl refl))) in
        get_or-set_ne s.z i j (sum i) d ne ∙ f.others j d none_has;
  }

  pub Run-Follows : (start s t : System A) → Run s t → Follows start s → Follows start t
  Run-Follows start _ _ (stay s) f = f
  Run-Follows start _ _ (go_on s t u step run) f =
      Run-Follows start t u run (Step-Follows start s t step f)

  start-Follows : (start : System A) → Follows start start
  start-Follows start = record {
    same_length = refl;
    summed = λ h j d member. inl member;
    within = λ h j member. member;
    others = λ j d none_has. refl;
  }

  -- Where the harts' shares lie inside the array, no order of the steps gets stuck, and in every state
  -- that is reached with nothing left to store, exactly the elements of the shares are sums.
  pub record Completes (start s : System A) : Type 0 where
    pub moves :
        (hart i : ℕ) (rest : List ℕ)
        → s.left hart ≡ i ∷ rest
        → Step s (record { left = turn_of hart rest s.left; z = set s.z i (sum i) })
    pub sums :
        ((hart : ℕ) → s.left hart ≡ [])
        → (hart j : ℕ) (d : A) → In j (start.left hart)
        → get_or s.z j d ≡ sum j
    pub others :
        (j : ℕ) (d : A)
        → ((hart : ℕ) → In j (start.left hart) → ⊥)
        → get_or s.z j d ≡ get_or start.z j d

  pub Run-Completes :
      (start s : System A)
      → ((hart j : ℕ) → In j (start.left hart) → j < length start.z)
      → Run start s
      → Completes start s
  Run-Completes start s inside run =
      let f = Run-Follows start start s run (start-Follows start) in
      record {
        moves = λ hart i rest here.
            let mine : In i (s.left hart) =
              In-along i (i ∷ rest) (s.left hart) (sym here) (inl refl) in
            let low : i < length start.z = inside hart i (f.within hart i mine) in
            stores hart i rest s here (omega (arith, f.same_length));
        sums = λ nothing_left hart j d member. elim (f.summed hart j d member) [
          | inl waiting ↦ absurd (In-along j (s.left hart) [] (nothing_left hart) waiting)
          | inr stored ↦ stored
        ];
        others = f.others;
      }
