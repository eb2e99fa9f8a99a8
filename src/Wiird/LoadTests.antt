-- ===== src/Wiird/LoadTests.antt =====
-- The loaders of src/wiird.rs on small files, and their theorems at concrete inputs.
use brawllib_rs.Prelude.{ℕ, ◌*◌, ◌≡◌, refl, List, [], ◌∷◌, arith}
use brawllib_rs.Outcome.{Ends, ok, index}
use brawllib_rs.Bytes.{Bytes}
use brawllib_rs.Bytes.Reference.{big_endian, bytes_of}
use brawllib_rs.Wiird.Load.{
  Loaded, loaded, failed, less_than_16, lines, starts_with, remove, to_digit, is_digit, any_non_hex,
  digit_at, hex_bytes, load_line, load_lines, load_text, wiird_load_txt, wiird_load_gct,
}
use brawllib_rs.Wiird.LoadLaws.{IsLoaded, count_codes, load_text-total}
use brawllib_rs.Wiird.Print.{print_codes}
use brawllib_rs.Wiird.PrintLaws.{code_bytes, load_text-print_codes}
use brawllib_rs.Wiird.Loaders.{IsFromText, IsFromBytes, wiird_load_txt-Ends, wiird_load_gct-Ends}

-- A name, and a code with small letters, ended by a carriage return and a line feed.
abbrev text : List ℕ
text =
    0x4D ∷ 0x6F ∷ 0x64 ∷ 0x0A ∷ 0x2A ∷ 0x20 ∷ 0x30 ∷ 0x34 ∷ 0x61 ∷ 0x62 ∷ 0x30 ∷ 0x30 ∷ 0x33 ∷ 0x30
    ∷ 0x20 ∷ 0x30 ∷ 0x30 ∷ 0x30 ∷ 0x30 ∷ 0x30 ∷ 0x30 ∷ 0x46 ∷ 0x46 ∷ 0x0D ∷ 0x0A ∷ []

load_text_test :
    load_text text ≡ ok (loaded (0x04 ∷ 0xAB ∷ 0x00 ∷ 0x30 ∷ 0x00 ∷ 0x00 ∷ 0x00 ∷ 0xFF ∷ []))
unfolding load_text load_lines lines starts_with load_line remove any_non_hex is_digit to_digit
    hex_bytes digit_at index
load_text_test = refl

-- A code with one digit.
short_text_test : load_text (0x2A ∷ 0x31 ∷ []) ≡ ok (failed less_than_16)
unfolding load_text load_lines lines starts_with load_line remove any_non_hex is_digit to_digit
short_text_test = refl

load_text-total_example :
    (r : Loaded (List ℕ)) × (load_text text ≡ ok r) × IsLoaded (8 * count_codes (lines text)) r
load_text-total_example = load_text-total text

abbrev codes : List (List ℕ × List ℕ)
codes = (0x04 ∷ 0xAB ∷ 0x00 ∷ 0x30 ∷ [], 0x00 ∷ 0x00 ∷ 0x00 ∷ 0xFF ∷ []) ∷ []

load_text-print_codes_example : load_text (print_codes codes) ≡ ok (loaded (code_bytes codes))
load_text-print_codes_example = load_text-print_codes codes (refl, omega arith, omega arith, tt)

wiird_load_txt-Ends_example :
    Ends (IsFromText big_endian (loaded text)) (wiird_load_txt big_endian (loaded text))
wiird_load_txt-Ends_example = wiird_load_txt-Ends big_endian (loaded text)

-- A header and one word write.
abbrev gct : Bytes
gct = bytes_of (
    0x00 ∷ 0xD0 ∷ 0xC0 ∷ 0xDE ∷ 0x00 ∷ 0xD0 ∷ 0xC0 ∷ 0xDE ∷ 0x04 ∷ 0x00 ∷ 0x00 ∷ 0x30 ∷ 0x00 ∷ 0x00
    ∷ 0x00 ∷ 0x01 ∷ [])

wiird_load_gct-Ends_example :
    Ends (IsFromBytes big_endian (loaded gct)) (wiird_load_gct big_endian (loaded gct))
wiird_load_gct-Ends_example = wiird_load_gct-Ends big_endian (loaded gct)
