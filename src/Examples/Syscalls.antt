-- ===== src/Examples/Syscalls.antt =====
-- Numbers printed and read.
use rsicv_uvm_test.Base.{◌≡◌, ◌^◌, ◌-◌, refl, arith, none, some, codes, [], ◌∷◌, ◌++◌}
use rsicv_uvm_test.Syscalls.{fill_digits, printnum, atol, atol_digits}
use rsicv_uvm_test.Syscalls.Format.{
  vprintfmt, format_item, escape, switch, convert, format_string, unsigned_number, signed_number,
  number, text,
}
use rsicv_uvm_test.Syscalls.Print.{IsPrinted, printnum-IsPrinted}

printed : printnum 0xbeef 16 6 b'0' ≡ some (codes "00beef")
unfolding printnum fill_digits
printed = refl

read_back : atol (codes "  -42" ++ (0 ∷ [])) ≡ some (2 ^ 64 - 42)
unfolding atol atol_digits
read_back = refl

printnum-IsPrinted_example : IsPrinted 0xbeef 16 6 b'0' (printnum 0xbeef 16 6 b'0')
printnum-IsPrinted_example = printnum-IsPrinted 0xbeef 16 6 b'0' (omega arith) (omega arith)

formatted :
    vprintfmt 40 (codes "%d%% of <%05x> %s|%-4s|%q\n" ++ (0 ∷ [])) (
      number (2 ^ 64 - 7)
      ∷ (number 0xbee ∷ (text none ∷ (text (some (codes "ab" ++ (0 ∷ []))) ∷ []))))
    ≡ some (codes "-7% of <00bee> (null)|ab  |%q\n")
unfolding vprintfmt format_item escape switch convert format_string unsigned_number signed_number
    printnum fill_digits
formatted = refl
