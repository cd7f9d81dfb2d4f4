-- ===== src/Examples/Strings.antt =====
-- The string functions and the formatted output at concrete inputs.
use rsicv_uvm_test.Base.{
  ◌≡◌, refl, arith, true, some, codes, List, [], ◌∷◌, ◌++◌, replicate, Returns, All, ℕ,
}
use rsicv_uvm_test.Syscalls.{printnum, fill_digits}
use rsicv_uvm_test.Syscalls.Console.{Console, printf}
use rsicv_uvm_test.Syscalls.Strings.{memcpy, memset, memcmp, strcpy}
use rsicv_uvm_test.Syscalls.Strings.Copy.{AreBytes, memcpy-memset}
use rsicv_uvm_test.Syscalls.Strings.Compare.{Compared, memcmp-Compared}
use rsicv_uvm_test.Syscalls.Strings.Text.{IsCopied, strcpy-strcmp}
use rsicv_uvm_test.Syscalls.Format.{
  sprintf, vprintfmt, format_item, escape, switch, convert, unsigned_number, number,
}
use rsicv_uvm_test.Syscalls.Format.Grammar.{
  Piece, plain, string, numeric, hexadecimal, format_all, args_all, IsPiece,
}
use rsicv_uvm_test.Syscalls.Format.Output.{Prints, printf-Prints, Writes, sprintf-Writes}

abbrev ten : List ℕ
ten = codes "0123456789"

memcpy-memset_example :
    (memcpy 0x1000 0x2000 ten (codes "abcdefgh") 8 ≡ some (codes "abcdefgh89"))
    × (memset 0x1000 ten 0x141 8 ≡ some (codes "AAAAAAAA89"))
memcpy-memset_example =
    memcpy-memset 0x1000 0x2000 ten (codes "abcdefgh") 0x141 8 (omega arith) (omega arith) (
      omega arith,
      (
        omega arith,
        (
          omega arith,
          (omega arith, (omega arith, (omega arith, (omega arith, (omega arith, tt))))),
        ),
      ),
    )

first_bytes : AreBytes (codes "abcdefgh1")
first_bytes = (
  omega arith,
  (
    omega arith,
    (
      omega arith,
      (omega arith, (omega arith, (omega arith, (omega arith, (omega arith, (omega arith, tt)))))),
    ),
  ),
)

second_bytes : AreBytes (codes "abcdefgh2")
second_bytes = (
  omega arith,
  (
    omega arith,
    (
      omega arith,
      (omega arith, (omega arith, (omega arith, (omega arith, (omega arith, (omega arith, tt)))))),
    ),
  ),
)

memcmp-Compared_example :
    Compared
      (codes "abcdefgh1")
      (codes "abcdefgh2")
      9
      (memcmp 8 16 (codes "abcdefgh1") (codes "abcdefgh2") 9)
memcmp-Compared_example =
    memcmp-Compared 8 16 (codes "abcdefgh1") (codes "abcdefgh2") 9 (omega arith) (omega arith)
      first_bytes second_bytes

strcpy-strcmp_example :
    IsCopied (codes "ab") ten (codes "ab" ++ (0 ∷ [])) (strcpy ten (codes "ab" ++ (0 ∷ [])))
strcpy-strcmp_example =
    strcpy-strcmp (codes "ab") [] ten (λ e. omega (arith, e), (λ e. omega (arith, e), tt))
      (omega arith)

-- `<%05x %s>`
abbrev pieces : List Piece
pieces =
    plain b'<'
    ∷ (numeric hexadecimal true (5 ∷ []) 0 0xbeef
        ∷ (plain b' ' ∷ (string (codes "ok") [] ∷ (plain b'>' ∷ []))))

pieces-ArePieces : All IsPiece pieces
unfolding IsPiece
pieces-ArePieces = (
  (λ e. omega (arith, e), λ e. omega (arith, e)),
  (
    (omega arith, (omega arith, (omega arith, (tt, omega arith)))),
    (
      (λ e. omega (arith, e), λ e. omega (arith, e)),
      (
        ((λ e. omega (arith, e), (λ e. omega (arith, e), tt)), omega arith),
        ((λ e. omega (arith, e), λ e. omega (arith, e)), tt),
      ),
    ),
  ),
)

abbrev console : Console
console = record { buf = replicate 64 0; buflen = 60; written = [] }

printf-Prints_example :
    Returns
      (Prints pieces console)
      (printf (format_all pieces (0 ∷ [])) (args_all pieces (number 9 ∷ [])) console)
printf-Prints_example =
    printf-Prints pieces [] (number 9 ∷ []) console pieces-ArePieces
      (record { size = refl; room = omega arith })

sprintf-Writes_example :
    Writes pieces
      (replicate 20 1)
      (sprintf (replicate 20 1) (format_all pieces (0 ∷ [])) (args_all pieces []))
sprintf-Writes_example = sprintf-Writes pieces [] (replicate 20 1) [] pieces-ArePieces

printed_to :
    sprintf (replicate 20 1) (codes "<%05x>" ++ (0 ∷ [])) (number 0xbeef ∷ [])
    ≡ some (record { str = codes "<0beef>" ++ (0 ∷ replicate 12 1); result = 7 })
unfolding sprintf vprintfmt format_item escape switch convert unsigned_number printnum fill_digits
printed_to = refl
