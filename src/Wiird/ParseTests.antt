-- ===== src/Wiird/ParseTests.antt =====
-- `wiird_codes` of src/wiird.rs on a small codeset, and its theorems at concrete inputs.
use brawllib_rs.Prelude.{ℕ, ◌≡◌, refl, true, false, List, [], ◌∷◌, some}
use brawllib_rs.Outcome.{Ends, ok}
use brawllib_rs.Bytes.{get, u32_at, u16_at, slice_from}
use brawllib_rs.Wiird.Code.{classify, mask_code, test_bit}
use brawllib_rs.Wiird.Entry.{reader}
use brawllib_rs.Wiird.Arms
use brawllib_rs.Wiird.Arms.{if_test}
use brawllib_rs.Wiird.OtherArms
use brawllib_rs.Bytes.Reference.{big_endian, bytes_of}
use brawllib_rs.Wiird.Block.{IfTest, WiirdCode, empty, cons, no_else, push}
use brawllib_rs.Wiird.Parse.{
  process_lines, round, read_line, end_line, decrement, more_endif, read_code, end_test,
  process_block, wiird_codes,
}
use brawllib_rs.Wiird.Terminates.{IsProcessed, process_block-Ends}
use brawllib_rs.Wiird.Flattening.{Finishes}
use brawllib_rs.Wiird.Faithful.{wiird_codes-Finishes}

-- A test with a byte written in its block, the end of the block, and a word written after it.
abbrev codeset : List ℕ
codeset =
    0x20 ∷ 0x00 ∷ 0x00 ∷ 0x10 ∷ 0x00 ∷ 0x00 ∷ 0x00 ∷ 0x05 ∷ 0x00 ∷ 0x00 ∷ 0x00 ∷ 0x20 ∷ 0x00 ∷ 0x00
    ∷ 0x00 ∷ 0x07 ∷ 0xE2 ∷ 0x00 ∷ 0x00 ∷ 0x01 ∷ 0x80 ∷ 0x00 ∷ 0x80 ∷ 0x00 ∷ 0x04 ∷ 0x00 ∷ 0x00
    ∷ 0x30 ∷ 0x00 ∷ 0x00 ∷ 0x00 ∷ 0x01 ∷ []

wiird_codes_test :
    wiird_codes big_endian (bytes_of codeset)
    ≡ some (
        ok (
          cons
            (WiirdCode.if_statement
              (IfTest.is_equal true 0x10 5)
              (cons (WiirdCode.write_and_fill8 true 0x20 7 1) empty)
              no_else
              0x8000
              0x8000)
            (cons
              (WiirdCode.reset_address_high 0x8000 0x8000)
              (cons (WiirdCode.write_and_fill32 true 0x30 1) empty))))
unfolding wiird_codes process_block process_lines round read_line reader get u32_at slice_from
    classify mask_code Arms.if_statement u16_at end_line Arms.write_and_fill8 OtherArms.endif
    end_test Arms.write_and_fill32 if_test push test_bit decrement more_endif read_code
wiird_codes_test = refl

process_block-Ends_example :
    Ends (IsProcessed false 32) (process_block big_endian (bytes_of codeset) false)
process_block-Ends_example = process_block-Ends big_endian (bytes_of codeset) false

wiird_codes-Finishes_example :
    Ends (Finishes big_endian (bytes_of codeset)) (wiird_codes big_endian (bytes_of codeset))
wiird_codes-Finishes_example = wiird_codes-Finishes big_endian (bytes_of codeset)
