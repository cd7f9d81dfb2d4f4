-- ===== src/CoreMark/Driver/Known.antt =====
-- The five runs whose checksums main of core_main.c knows, by the seeds and sizes that its comments name.
use rsicv_uvm_test.Base.{
  ℕ, zero, suc, ◌*◌, ◌/◌, ◌%◌, ◌^◌, ◌≡◌, ◌≢◌, ◌↔◌, refl, sym, ap, ◌∙◌, arith, true, none, some,
  List, [], ◌∷◌, All, Option, get_elem?, ==_cases, inl, inr, eq_of_some-eq, bit_and,
}
use rsicv_uvm_test.Bits.Step.{bit_and_step, bit_and_of_nothing}
use rsicv_uvm_test.CoreMark.Crc.{crc16, crcu16, crcu8}
use rsicv_uvm_test.CoreMark.Driver.{
  has_algorithm, list_known_crc, matrix_known_crc, state_known_crc, known_id,
}

-- The seeds, the size for each algorithm, and the checksums that the algorithms should have.
pub record KnownRun : Type 0 where
  pub seed1 : ℕ
  pub seed2 : ℕ
  pub seed3 : ℕ
  pub size : ℕ
  pub crclist : ℕ
  pub crcmatrix : ℕ
  pub crcstate : ℕ

abbrev run_of : (seed1 seed2 seed3 size crclist crcmatrix crcstate : ℕ) → KnownRun
run_of seed1 seed2 seed3 size crclist crcmatrix crcstate = record {
  seed1 = seed1;
  seed2 = seed2;
  seed3 = seed3;
  size = size;
  crclist = crclist;
  crcmatrix = crcmatrix;
  crcstate = crcstate;
}

abbrev performance_6k : KnownRun
performance_6k = run_of 0 0 0x66 2000 0xd4b0 0xbe52 0x5e47

abbrev validation_6k : KnownRun
validation_6k = run_of 0x3415 0x3415 0x66 2000 0x3340 0x1199 0x39bf

abbrev profile : KnownRun
profile = run_of 8 8 8 400 0x6a79 0x5608 0xe5a4

abbrev performance_2k : KnownRun
performance_2k = run_of 0 0 0x66 666 0xe714 0x1fd7 0x8e3a

abbrev validation_2k : KnownRun
validation_2k = run_of 0x3415 0x3415 0x66 666 0xe3c1 0x0747 0x8d84

abbrev pub known_runs : List KnownRun
known_runs = performance_6k ∷ validation_6k ∷ profile ∷ performance_2k ∷ validation_2k ∷ []

-- The checksum of the seeds and the size.
unfoldable pub checksum : KnownRun → ℕ
checksum k = crc16 k.size (crc16 k.seed3 (crc16 k.seed2 (crc16 k.seed1 0)))

checksums :
    (checksum performance_6k ≡ 0x8a02)
    × ((checksum validation_6k ≡ 0x7b05)
        × ((checksum profile ≡ 0x4eaf)
            × ((checksum performance_2k ≡ 0xe9f5) × (checksum validation_2k ≡ 0x18f2))))
unfolding checksum crc16 crcu16 crcu8
checksums = (refl, (refl, (refl, (refl, refl))))

-- The tables have the checksums of a run.
pub record HasTables (id : ℕ) (run : KnownRun) : Type 0 where
  pub list_crc : get_elem? list_known_crc id ≡ some run.crclist
  pub matrix_crc : get_elem? matrix_known_crc id ≡ some run.crcmatrix
  pub state_crc : get_elem? state_known_crc id ≡ some run.crcstate

pub record IsRunOf (seedcrc id : ℕ) (run : KnownRun) : Type 0 where
  pub known : known_id seedcrc ≡ some id
  pub place : get_elem? known_runs id ≡ some run
  pub same_crc : seedcrc ≡ checksum run
  pub tables : HasTables id run

at_id :
    (seedcrc id : ℕ) (run : KnownRun)
    → get_elem? known_runs id ≡ some run
    → seedcrc ≡ checksum run
    → known_id (checksum run) ≡ some id
    → HasTables id run
    → IsRunOf seedcrc id run
at_id seedcrc id run p s k t = record {
  known = ap known_id s ∙ k;
  place = p;
  same_crc = s;
  tables = t;
}

own_tables : (id : ℕ) (run : KnownRun) → get_elem? known_runs id ≡ some run → HasTables id run
own_tables zero run h =
    rw (← eq_of_some-eq h) (record { list_crc = refl; matrix_crc = refl; state_crc = refl })
own_tables (suc zero) run h =
    rw (← eq_of_some-eq h) (record { list_crc = refl; matrix_crc = refl; state_crc = refl })
own_tables (suc (suc zero)) run h =
    rw (← eq_of_some-eq h) (record { list_crc = refl; matrix_crc = refl; state_crc = refl })
own_tables (suc (suc (suc zero))) run h =
    rw (← eq_of_some-eq h) (record { list_crc = refl; matrix_crc = refl; state_crc = refl })
own_tables (suc (suc (suc (suc zero)))) run h =
    rw (← eq_of_some-eq h) (record { list_crc = refl; matrix_crc = refl; state_crc = refl })
own_tables (suc (suc (suc (suc (suc id))))) run h = absurd (no_some h)
  where
    no_some : none ≡ some run → ⊥
    no_some e = cc

own_id :
    (id : ℕ) (run : KnownRun)
    → get_elem? known_runs id ≡ some run
    → known_id (checksum run) ≡ some id
unfolding known_id
own_id zero run h = rw (← eq_of_some-eq h, checksums.0) refl
own_id (suc zero) run h = rw (← eq_of_some-eq h, checksums.1.0) refl
own_id (suc (suc zero)) run h = rw (← eq_of_some-eq h, checksums.1.1.0) refl
own_id (suc (suc (suc zero))) run h = rw (← eq_of_some-eq h, checksums.1.1.1.0) refl
own_id (suc (suc (suc (suc zero)))) run h = rw (← eq_of_some-eq h, checksums.1.1.1.1) refl
own_id (suc (suc (suc (suc (suc id))))) run h = absurd (no_some h)
  where
    no_some : none ≡ some run → ⊥
    no_some e = cc

-- A seed checksum that is the one of a known run has its place.
pub by_run :
    (seedcrc id : ℕ) (run : KnownRun)
    → get_elem? known_runs id ≡ some run
    → seedcrc ≡ checksum run
    → IsRunOf seedcrc id run
by_run seedcrc id run p s = at_id seedcrc id run p s (own_id id run p) (own_tables id run p)

pub record HasRun (seedcrc id : ℕ) : Type 0 where
  pub run : KnownRun
  pub is_run : IsRunOf seedcrc id run

run_at :
    (seedcrc id k : ℕ) (run : KnownRun)
    → id ≡ k
    → get_elem? known_runs k ≡ some run
    → seedcrc ≡ checksum run
    → HasRun seedcrc id
run_at seedcrc id k run e p s = rw e (record { run = run; is_run = by_run seedcrc k run p s })

pub by_id : (seedcrc id : ℕ) → known_id seedcrc ≡ some id → HasRun seedcrc id
unfolding known_id
by_id c id h = elim (==_cases c 0x8a02) [
  | inl (e, t0) ↦ run_at c id 0 performance_6k (ground (arith, h, t0)) refl (e ∙ sym checksums.0)
  | inr (_, t0) ↦ elim (==_cases c 0x7b05) [
    | inl (e, t1) ↦
        run_at c id 1 validation_6k (ground (arith, h, t0, t1)) refl (e ∙ sym checksums.1.0)
    | inr (_, t1) ↦ elim (==_cases c 0x4eaf) [
      | inl (e, t2) ↦
          run_at c id 2 profile (ground (arith, h, t0, t1, t2)) refl (e ∙ sym checksums.1.1.0)
      | inr (_, t2) ↦ elim (==_cases c 0xe9f5) [
        | inl (e, t3) ↦
            run_at c id 3 performance_2k (ground (arith, h, t0, t1, t2, t3)) refl
              (e ∙ sym checksums.1.1.1.0)
        | inr (_, t3) ↦ elim (==_cases c 0x18f2) [
          | inl (e, t4) ↦
              run_at c id 4 validation_2k (ground (arith, h, t0, t1, t2, t3, t4)) refl
                (e ∙ sym checksums.1.1.1.1)
          | inr (_, t4) ↦ absurd (ground (arith, h, t0, t1, t2, t3, t4))
        ]
      ]
    ]
  ]
]

-- No known run has the checksum.
abbrev pub IsUnknown : (seedcrc : ℕ) → Type 0
IsUnknown seedcrc = All (λ run. seedcrc ≢ checksum run) known_runs

All-at :
    (P : KnownRun → Type 0) (runs : List KnownRun) (id : ℕ) (run : KnownRun)
    → All P runs
    → get_elem? runs id ≡ some run
    → P run
All-at P [] id run h e = absurd (no_some e)
  where
    no_some : none ≡ some run → ⊥
    no_some z = cc
All-at P (r ∷ runs) zero run h e = rw (← eq_of_some-eq e) h.0
All-at P (r ∷ runs) (suc id) run h e = All-at P runs id run h.1 e

not_known : {A : Type 0} (o : Option A) (a : A) → o ≡ some a → o ≡ none → ⊥
not_known o a h k = cc

known_or_none : (o : Option ℕ) → ((id : ℕ) → o ≡ some id → ⊥) → o ≡ none
known_or_none none h = refl
known_or_none (some id) h = absurd (h id refl)

pub IsUnknown-iff : (seedcrc : ℕ) → (known_id seedcrc ≡ none) ↔ IsUnknown seedcrc
IsUnknown-iff c = (
  λ h.
      let other =
        λ (id : ℕ) (run : KnownRun) (p : get_elem? known_runs id ≡ some run) (e : c ≡ checksum run).
          not_known (known_id c) id (by_run c id run p e).known h in
      (
        other 0 performance_6k refl,
        (
          other 1 validation_6k refl,
          (other 2 profile refl, (other 3 performance_2k refl, (other 4 validation_2k refl, tt))),
        ),
      ),
  λ u. known_or_none (known_id c) (λ id e.
      let r = by_id c id e in
      All-at (λ run. c ≢ checksum run) known_runs id r.run u r.is_run.place r.is_run.same_crc),
)

-- The bit of an algorithm.
abbrev pub IsChosen : (execs i : ℕ) → Type 0
IsChosen execs i = execs / 2 ^ i % 2 ≡ 1

bit_0 : (e : ℕ) → bit_and 1 e ≡ e % 2
bit_0 e = ground (arith, bit_and_step 1 e, bit_and_of_nothing (e / 2))

bit_1 : (e : ℕ) → bit_and 2 e ≡ e / 2 % 2 * 2
bit_1 e = ground (arith, bit_and_step 2 e, bit_0 (e / 2))

bit_2 : (e : ℕ) → bit_and 4 e ≡ e / 4 % 2 * 4
bit_2 e = ground (arith, bit_and_step 4 e, bit_1 (e / 2))

pub list_iff : (execs : ℕ) → (has_algorithm execs 0 ≡ true) ↔ IsChosen execs 0
list_iff e = (λ h. ground (arith, h, bit_0 e), λ h. ground (arith, h, bit_0 e))

pub matrix_iff : (execs : ℕ) → (has_algorithm execs 1 ≡ true) ↔ IsChosen execs 1
matrix_iff e = (λ h. ground (arith, h, bit_1 e), λ h. ground (arith, h, bit_1 e))

pub state_iff : (execs : ℕ) → (has_algorithm execs 2 ≡ true) ↔ IsChosen execs 2
state_iff e = (λ h. ground (arith, h, bit_2 e), λ h. ground (arith, h, bit_2 e))
