-- ===== src/Wiird/Tests.antt =====
-- The theorems on src/wiird.rs at concrete inputs.
use brawllib_rs.Prelude.{ℕ, ◌≡◌, refl, true, List, [], ◌∷◌, arith}
use brawllib_rs.Outcome.{ok}
use brawllib_rs.Bytes.Reference.{big_endian, bytes_of}
use brawllib_rs.Wiird.Entry.{reader, code}
use brawllib_rs.Wiird.Parse.{read_line}
use brawllib_rs.Wiird.OperandLaws.{operation_at, read_line-operation}

-- 86: the flags' high bits are 3, the and operation.
abbrev and_line : List ℕ
and_line = 0x86 ∷ 0x30 ∷ 0x00 ∷ 0x01 ∷ 0x00 ∷ 0x00 ∷ 0x00 ∷ 0x05 ∷ []

read_line-operation_example :
    read_line (reader big_endian (bytes_of and_line) 0)
    ≡ ok (code (operation_at (bytes_of and_line) 0 true) 8)
read_line-operation_example =
    read_line-operation (bytes_of and_line) 0 big_endian true refl refl (omega arith)
