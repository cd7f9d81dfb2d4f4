-- ===== src/CoreMark/Driver/Validation.antt =====
-- What the last message of main of core_main.c says of the run.
use rsicv_uvm_test.Base.{
  ℕ, zero, suc, ◌+◌, ◌≤◌, ◌≡◌, ◌≢◌, ◌↔◌, ◌⊎◌, refl, sym, ap, ◌∙◌, arith, Bool, true, false, Option,
  none, some, List, [], ◌∷◌, u16, get_elem?, Bool-cases, ==_cases, inl, inr, eq_of_some-eq, Returns,
  returns, Returns-weaken,
}
use rsicv_uvm_test.CoreMark.List.Bench.{CoreResults}
use rsicv_uvm_test.CoreMark.Driver.Seeds.{DataTypes, check_data_types}
use rsicv_uvm_test.CoreMark.Driver.Known.{
  KnownRun, known_runs, checksum, by_run, by_id, IsUnknown, IsUnknown-iff, IsChosen, list_iff,
  matrix_iff, state_iff,
}
use rsicv_uvm_test.CoreMark.Driver.{
  has_algorithm, one_if, list_known_crc, matrix_known_crc, state_known_crc, seed_crc, known_id,
  is_wrong, Judged, judge, validated, cannot_validate, verdict,
}

-- An algorithm that was run has the checksum of the table.
abbrev Agrees : (execs i crc id : ℕ) → List ℕ → Type 0
Agrees execs i crc id table = has_algorithm execs i ≡ true → get_elem? table id ≡ some crc

-- The same by the number of a known run.
record KnownById (res : CoreResults) : Type 0 where
  pub id : ℕ
  pub known : known_id (seed_crc res) ≡ some id
  pub list_agrees : Agrees res.execs 0 res.crclist id list_known_crc
  pub matrix_agrees : Agrees res.execs 1 res.crcmatrix id matrix_known_crc
  pub state_agrees : Agrees res.execs 2 res.crcstate id state_known_crc

known_id_lt : (seedcrc id : ℕ) → known_id seedcrc ≡ some id → id ≤ 4
unfolding known_id
known_id_lt seedcrc id h = ground (arith, h)

differ : {b : Bool} → b ≡ true → b ≡ false → ⊥
differ h k = ground (arith, h, k)

right_iff :
    (execs i crc id known : ℕ) (table : List ℕ)
    → get_elem? table id ≡ some known
    → (one_if (is_wrong execs i crc known) ≡ 0) ↔ Agrees execs i crc id table
right_iff execs i crc id known table h = elim (Bool-cases (has_algorithm execs i)) [
  | inl run ↦ elim (==_cases crc known) [
    | inl (same, e) ↦ (λ _ _. rw (h, same) refl, λ _. rw (run, e) refl)
    | inr (other, e) ↦ (
      λ z. absurd (ground (arith, z, run, e)),
      λ agrees. absurd (other (sym (eq_of_some-eq (sym h ∙ agrees run)))),
    )
  ]
  | inr not_run ↦ (λ _ run. absurd (differ run not_run), λ _. rw not_run refl)
]

-- The verdict by the number of a known run.
record JudgedById (res : CoreResults) (wrong_types : ℕ) (j : Judged) : Type 0 where
  pub passes : (verdict j.total_errors ≡ validated) ↔ (
      (KnownById res × (wrong_types ≡ 0)) ⊎ ((known_id (seed_crc res) ≡ none) × (wrong_types ≡ 1)))
  pub unknown :
      (verdict j.total_errors ≡ cannot_validate)
      ↔ ((known_id (seed_crc res) ≡ none) × (wrong_types ≡ 0))

abbrev HasTable : (id : ℕ) → List ℕ → Type 0
HasTable id table = (crc : ℕ) × (get_elem? table id ≡ some crc)

in_table : (id a b c d e : ℕ) → id ≤ 4 → HasTable id (a ∷ (b ∷ (c ∷ (d ∷ (e ∷ [])))))
in_table zero a b c d e h = (a, refl)
in_table (suc zero) a b c d e h = (b, refl)
in_table (suc (suc zero)) a b c d e h = (c, refl)
in_table (suc (suc (suc zero))) a b c d e h = (d, refl)
in_table (suc (suc (suc (suc zero)))) a b c d e h = (e, refl)
in_table (suc (suc (suc (suc (suc id))))) a b c d e h = absurd (omega arith)

verdict_small :
    (t : ℕ)
    → t ≤ 9
    → ((verdict (u16 t) ≡ validated) ↔ (t ≡ 0)) × (verdict (u16 t) ≢ cannot_validate)
verdict_small t h =
    let same : u16 t ≡ t = omega arith in
    rw same ((λ e. ground (arith, h, e), λ e. rw e refl), λ e. ground (arith, h, e))

one_if_le : (b : Bool) → one_if b ≤ 1
one_if_le b = ground arith

beyond :
    (w : ℕ)
    → w ≤ 6
    → ((verdict (u16 (0xffff + w)) ≡ validated) ↔ (w ≡ 1))
      × ((verdict (u16 (0xffff + w)) ≡ cannot_validate) ↔ (w ≡ 0))
beyond zero h = ((λ e. ground (arith, e), λ e. absurd (omega arith)), (λ e. refl, λ e. refl))
beyond (suc w) h =
    let wrapped : u16 (0xffff + suc w) ≡ w = omega arith in
    rw wrapped (
      (λ e. ground (arith, h, e), λ e. ground (arith, h, e)),
      (λ e. ground (arith, h, e), λ e. absurd (omega arith)),
    )

no_value {ℓ} : {A : Type ℓ} {a : A} → some a ≡ none → ⊥
no_value e = cc

known_id_cases : (o : Option ℕ) → ((id : ℕ) × (o ≡ some id)) ⊎ (o ≡ none)
known_id_cases (some id) = inl (id, refl)
known_id_cases none = inr refl

all_right :
    (res : CoreResults) (wrong_types id e0 e1 e2 : ℕ)
    → known_id (seed_crc res) ≡ some id
    → (e0 ≡ 0) ↔ Agrees res.execs 0 res.crclist id list_known_crc
    → (e1 ≡ 0) ↔ Agrees res.execs 1 res.crcmatrix id matrix_known_crc
    → (e2 ≡ 0) ↔ Agrees res.execs 2 res.crcstate id state_known_crc
    → (KnownById res × (wrong_types ≡ 0)) ⊎ ((known_id (seed_crc res) ≡ none) × (wrong_types ≡ 1))
    → e0 + e1 + e2 + wrong_types ≡ 0
all_right res wrong_types id e0 e1 e2 known f0 f1 f2 (inl (run, w)) =
    let same : run.id ≡ id = eq_of_some-eq (sym run.known ∙ known) in
    let z0 : e0 ≡ 0 = f0.1 (rw (← same) run.list_agrees) in
    let z1 : e1 ≡ 0 = f1.1 (rw (← same) run.matrix_agrees) in
    let z2 : e2 ≡ 0 = f2.1 (rw (← same) run.state_agrees) in omega arith
all_right res wrong_types id e0 e1 e2 known f0 f1 f2 (inr (unknown, w)) =
    absurd (no_value (sym known ∙ unknown))

known-JudgedById :
    (res : CoreResults) (wrong_types id : ℕ)
    → wrong_types ≤ 6
    → known_id (seed_crc res) ≡ some id
    → Returns (JudgedById res wrong_types) (judge wrong_types res)
unfolding judge
known-JudgedById res wrong_types id few known =
    let low : id ≤ 4 = known_id_lt (seed_crc res) id known in
    let (a, ha) = in_table id 0xd4b0 0x3340 0x6a79 0xe714 0xe3c1 low in
    let (b, hb) = in_table id 0xbe52 0x1199 0x5608 0x1fd7 0x0747 low in
    let (c, hc) = in_table id 0x5e47 0x39bf 0xe5a4 0x8e3a 0x8d84 low in
    let e0 = one_if (is_wrong res.execs 0 res.crclist a) in
    let e1 = one_if (is_wrong res.execs 1 res.crcmatrix b) in
    let e2 = one_if (is_wrong res.execs 2 res.crcstate c) in
    let list_right = right_iff res.execs 0 res.crclist id a list_known_crc ha in
    let matrix_right = right_iff res.execs 1 res.crcmatrix id b matrix_known_crc hb in
    let state_right = right_iff res.execs 2 res.crcstate id c state_known_crc hc in
    let n0 : e0 ≤ 1 = one_if_le (is_wrong res.execs 0 res.crclist a) in
    let n1 : e1 ≤ 1 = one_if_le (is_wrong res.execs 1 res.crcmatrix b) in
    let n2 : e2 ≤ 1 = one_if_le (is_wrong res.execs 2 res.crcstate c) in
    let total = verdict_small (e0 + e1 + e2 + wrong_types) (omega arith) in
    rw (judge, known, ha, hb, hc)
      (returns _ (record {
        passes = (
          λ v.
              let none_wrong : e0 + e1 + e2 + wrong_types ≡ 0 = total.0.0 v in
              inl (
                record {
                  id = id;
                  known = known;
                  list_agrees = list_right.0 (omega arith);
                  matrix_agrees = matrix_right.0 (omega arith);
                  state_agrees = state_right.0 (omega arith);
                },
                omega arith,
              ),
          λ r.
              total.0.1
                (all_right res wrong_types id e0 e1 e2 known list_right matrix_right state_right r),
        );
        unknown = (λ v. absurd (total.1 v), λ r. absurd (no_value (sym known ∙ r.0)));
      }))

unknown-JudgedById :
    (res : CoreResults) (wrong_types : ℕ)
    → wrong_types ≤ 6
    → known_id (seed_crc res) ≡ none
    → Returns (JudgedById res wrong_types) (judge wrong_types res)
unfolding judge
unknown-JudgedById res wrong_types few unknown =
    let j : Judged = record { results = res; total_errors = u16 (0xffff + wrong_types) } in
    rw (judge, unknown)
      (returns j (record {
        passes = (
          λ v. inr (unknown, (beyond wrong_types few).0.0 v),
          λ r. elim r [
            | inl (run, w) ↦ absurd (no_value (sym run.known ∙ unknown))
            | inr (_, w) ↦ (beyond wrong_types few).0.1 w
          ],
        );
        unknown =
            (λ v. (unknown, (beyond wrong_types few).1.0 v), λ r. (beyond wrong_types few).1.1 r.1);
      }))

check_data_types_le : (t : DataTypes) → check_data_types t ≤ 6
unfolding check_data_types
check_data_types_le t = ground arith

-- The seeds and the size have the checksum of a known run, and each algorithm that was run has the
-- checksum of that run.
pub record IsKnownRun (res : CoreResults) : Type 0 where
  pub id : ℕ
  pub run : KnownRun
  pub known : get_elem? known_runs id ≡ some run
  pub seeds_agree : seed_crc res ≡ checksum run
  pub list_agrees : IsChosen res.execs 0 → res.crclist ≡ run.crclist
  pub matrix_agrees : IsChosen res.execs 1 → res.crcmatrix ≡ run.crcmatrix
  pub state_agrees : IsChosen res.execs 2 → res.crcstate ≡ run.crcstate

-- What the last message says, for a number of types of a wrong size.
pub record IsJudged (res : CoreResults) (wrong_types : ℕ) (j : Judged) : Type 0 where
  pub passes :
      (verdict j.total_errors ≡ validated)
      ↔ ((IsKnownRun res × (wrong_types ≡ 0)) ⊎ (IsUnknown (seed_crc res) × (wrong_types ≡ 1)))
  pub unknown :
      (verdict j.total_errors ≡ cannot_validate) ↔ (IsUnknown (seed_crc res) × (wrong_types ≡ 0))

Agrees-iff :
    (execs i crc id known : ℕ) (table : List ℕ)
    → (has_algorithm execs i ≡ true) ↔ IsChosen execs i
    → get_elem? table id ≡ some known
    → Agrees execs i crc id table ↔ (IsChosen execs i → crc ≡ known)
Agrees-iff execs i crc id known table chosen h = (
  λ agrees c. sym (eq_of_some-eq (sym h ∙ agrees (chosen.1 c))),
  λ same run. h ∙ ap some (sym (same (chosen.0 run))),
)

to_run : (res : CoreResults) → KnownById res → IsKnownRun res
to_run res k =
    let r = by_id (seed_crc res) k.id k.known in
    let t = r.is_run.tables in
    record {
      id = k.id;
      run = r.run;
      known = r.is_run.place;
      seeds_agree = r.is_run.same_crc;
      list_agrees =
          (Agrees-iff res.execs 0 res.crclist k.id r.run.crclist list_known_crc (list_iff res.execs)
              t.list_crc).0
            k.list_agrees;
      matrix_agrees =
          (Agrees-iff res.execs 1 res.crcmatrix k.id r.run.crcmatrix matrix_known_crc
              (matrix_iff res.execs) t.matrix_crc).0
            k.matrix_agrees;
      state_agrees =
          (Agrees-iff res.execs 2 res.crcstate k.id r.run.crcstate state_known_crc
              (state_iff res.execs) t.state_crc).0
            k.state_agrees;
    }

to_id : (res : CoreResults) → IsKnownRun res → KnownById res
to_id res k =
    let r = by_run (seed_crc res) k.id k.run k.known k.seeds_agree in
    record {
      id = k.id;
      known = r.known;
      list_agrees =
          (Agrees-iff res.execs 0 res.crclist k.id k.run.crclist list_known_crc (list_iff res.execs)
              r.tables.list_crc).1
            k.list_agrees;
      matrix_agrees =
          (Agrees-iff res.execs 1 res.crcmatrix k.id k.run.crcmatrix matrix_known_crc
              (matrix_iff res.execs) r.tables.matrix_crc).1
            k.matrix_agrees;
      state_agrees =
          (Agrees-iff res.execs 2 res.crcstate k.id k.run.crcstate state_known_crc
              (state_iff res.execs) r.tables.state_crc).1
            k.state_agrees;
    }

JudgedById-IsJudged :
    (res : CoreResults) (wrong_types : ℕ) (j : Judged)
    → JudgedById res wrong_types j
    → IsJudged res wrong_types j
JudgedById-IsJudged res wrong_types j v =
    let none_iff = IsUnknown-iff (seed_crc res) in
    record {
      passes = (
        λ e. elim (v.passes.0 e) [
          | inl (k, w) ↦ inl (to_run res k, w)
          | inr (u, w) ↦ inr (none_iff.0 u, w)
        ],
        λ r. elim r [
          | inl (k, w) ↦ v.passes.1 (inl (to_id res k, w))
          | inr (u, w) ↦ v.passes.1 (inr (none_iff.1 u, w))
        ],
      );
      unknown = (
        λ e. let r = v.unknown.0 e in (none_iff.0 r.0, r.1),
        λ r. v.unknown.1 (none_iff.1 r.0, r.1),
      );
    }

-- The last message says that the run is validated in two cases. Either the 16-bit checksum of its seeds
-- and its size is that of one of the five known runs, each algorithm that was run has the checksum known
-- for that run, and check_data_types counts no type of a wrong size; or it is that of no known run, and
-- exactly one type of a wrong size is counted. The message says that the run cannot be validated exactly if
-- the checksum is that of no known run and no type of a wrong size is counted.
pub judge-IsJudged :
    (res : CoreResults) (t : DataTypes)
    → Returns (IsJudged res (check_data_types t)) (judge (check_data_types t) res)
judge-IsJudged res t =
    Returns-weaken (λ j v. JudgedById-IsJudged res (check_data_types t) j v)
      (elim (known_id_cases (known_id (seed_crc res))) [
        | inl (id, known) ↦
            known-JudgedById res (check_data_types t) id (check_data_types_le t) known
        | inr unknown ↦ unknown-JudgedById res (check_data_types t) (check_data_types_le t) unknown
      ])
