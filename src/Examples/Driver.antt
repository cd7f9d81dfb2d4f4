-- ===== src/Examples/Driver.antt =====
-- CoreMark's driver with the seeds of core_portme.c, and the known runs that core_main.c names.
use rsicv_uvm_test.Base.{
  ℕ, ◌≡◌, refl, arith, some, none, List, [], ◌∷◌, Returns, codes, ◌++◌, u32, ◌*◌, ◌-◌, ◌^◌,
}
use rsicv_uvm_test.CoreMark.Crc.{crc16, crcu16, crcu8}
use rsicv_uvm_test.CoreMark.List.Bench.{CoreResults}
use rsicv_uvm_test.CoreMark.Driver.{seed_crc, known_id, part_size, parts, judge}
use rsicv_uvm_test.CoreMark.Driver.Seeds.{
  SeedValues, DataTypes, check_data_types, parseval, parse_hex, parse_decimal,
}
use rsicv_uvm_test.CoreMark.Driver.Seeds.Decimal.{characters, letters_of, kilo, parseval-decimal}
use rsicv_uvm_test.CoreMark.Driver.Places.{ArePlaced, parts-ArePlaced}
use rsicv_uvm_test.CoreMark.Driver.Validation.{IsJudged, judge-IsJudged}

abbrev volatile_seeds : SeedValues
volatile_seeds = record {
  seed1_volatile = 0;
  seed2_volatile = 0;
  seed3_volatile = 0x66;
  seed4_volatile = 10000;
  seed5_volatile = 0;
}

abbrev types : DataTypes
types = record {
  ee_u8 = 1;
  ee_u16 = 2;
  ee_s16 = 2;
  ee_s32 = 4;
  ee_u32 = 4;
  ee_ptr_int = 4;
  int_ptr = 4;
}

abbrev ran : (seed3 size : ℕ) → CoreResults
ran seed3 size = record {
  seed1 = 0;
  seed2 = 0;
  seed3 = seed3;
  state_block = [];
  size = size;
  iterations = 2;
  execs = 7;
  list = none;
  cells = [];
  datas = [];
  mat = record { n = 9; a_at = 0; b_at = 0; c_at = 0; a = []; b = [] };
  mat_c = [];
  crc = 0;
  crclist = 0xe714;
  crcmatrix = 0x1fd7;
  crcstate = 0x8e3a;
  err = 0;
}

parts-ArePlaced_example : Returns (λ size. ArePlaced (parts 7 size) size) (part_size 7)
parts-ArePlaced_example = parts-ArePlaced 7 (omega arith)

judge-IsJudged_example :
    Returns
      (IsJudged (ran 0x66 666) (check_data_types types))
      (judge (check_data_types types) (ran 0x66 666))
judge-IsJudged_example = judge-IsJudged (ran 0x66 666) types

parseval-decimal_example :
    (parseval (characters (4 ∷ (2 ∷ [])) ++ letters_of kilo) ≡ some (u32 (42 * 1024)))
    × (parseval (45 ∷ (characters (4 ∷ (2 ∷ [])) ++ letters_of kilo))
        ≡ some (u32 (2 ^ 32 - u32 (42 * 1024))))
parseval-decimal_example = parseval-decimal 4 (2 ∷ []) kilo (omega arith, (omega arith, tt))

-- The performance run of 2 KB.
performance_run : known_id (seed_crc (ran 0x66 666)) ≡ some 3
unfolding known_id seed_crc crc16 crcu16 crcu8
performance_run = refl

-- The performance run of 6 KB.
performance_run_6k : known_id (seed_crc (ran 0x66 2000)) ≡ some 0
unfolding known_id seed_crc crc16 crcu16 crcu8
performance_run_6k = refl

-- Other seeds with the checksum of the performance run of 2 KB count as it.
same_checksum : known_id (seed_crc (record (ran 0x9c65 666) { seed1 = 5; seed2 = 5 })) ≡ some 3
unfolding known_id seed_crc crc16 crcu16 crcu8
same_checksum = refl

-- Unknown seeds with one type of a wrong size are called a validated run.
validated_unknown :
    judge 1 (ran 0x67 666) ≡ some (record { results = ran 0x67 666; total_errors = 0 })
unfolding judge known_id seed_crc crc16 crcu16 crcu8
validated_unknown = refl

abbrev argument : List ℕ
argument = codes "-0x1aK" ++ (0 ∷ [])

-- `-0x1aK` is -26 * 1024.
parsed_argument : parseval argument ≡ some 4294940672
unfolding parseval parse_hex parse_decimal
parsed_argument = refl
