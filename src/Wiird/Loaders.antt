-- ===== src/Wiird/Loaders.antt =====
-- The two loaders of src/wiird.rs end, and what they return was read from the file.
use brawllib_rs.Prelude.{
  ℕ, ◌≡◌, ◌<◌, refl, inl, inr, List, Option, none, some, ltb, Bool-cases, ltb→lt,
}
use brawllib_rs.Outcome.{Ends, Outcome, ok, panic, Post-ok, Post-mono, returns, panics}
use brawllib_rs.Bytes.{Bytes, BigEndian, slice_from}
use brawllib_rs.Bytes.Reference.{bytes_of}
use brawllib_rs.Wiird.Block.{WiirdBlock}
use brawllib_rs.Wiird.Flattening.{Finishes}
use brawllib_rs.Wiird.Faithful.{wiird_codes-Finishes}
use brawllib_rs.Wiird.Load.{
  less_than_8_bytes, Loaded, loaded, failed, lines, parsed, wiird_load_txt, wiird_load_gct,
}
use brawllib_rs.Wiird.Texts.{Reads, Fails}
use brawllib_rs.Wiird.TextLaws.{TextGives, load_text-TextGives}

module _ (be : BigEndian) where
  -- A block that was loaded has the lines of these bytes.
  abbrev pub IsFrom : Bytes → Loaded WiirdBlock → Type 0
  IsFrom bytes (loaded block) = Finishes be bytes block
  IsFrom bytes (failed e) = ⊥

  parsed-Ends :
      (bytes : Bytes) (result : Option (Outcome WiirdBlock))
      → Ends (Finishes be bytes) result
      → Ends (IsFrom bytes) (elim result [
        | none ↦ none
        | some panic ↦ some panic
        | some (ok block) ↦ some (ok (loaded block))
      ])
  parsed-Ends bytes result (panic, e, h) = rw e (panic, refl, panics)
  parsed-Ends bytes result (ok block, e, h) = rw e (ok (loaded block), refl, returns (Post-ok h))

  -- What a text gives: the error of the file or of a line, or the tree of the bytes of its codes.
  abbrev pub IsFromText : Loaded (List ℕ) → Loaded WiirdBlock → Type 0
  IsFromText (failed e) r = r ≡ failed e
  IsFromText (loaded text) (failed e) = Fails (lines text) e
  IsFromText (loaded text) (loaded block) =
      (bytes : List ℕ) × Reads (lines text) bytes × Finishes be (bytes_of bytes) block

  text-Ends :
      (text : List ℕ) (result : Loaded (List ℕ))
      → TextGives text result
      → Ends (IsFromText (loaded text)) (elim result [
        | failed e ↦ some (ok (failed e))
        | loaded bytes ↦ parsed be (bytes_of bytes)
      ])
  text-Ends text (failed e) failing = (ok (failed e), refl, returns failing)
  text-Ends text (loaded bytes) reading =
      let (r, ends, h) =
        parsed-Ends (bytes_of bytes) _ (wiird_codes-Finishes be (bytes_of bytes)) in
      (r, ends, Post-mono h from_bytes)
    where
      from_bytes : (r : Loaded WiirdBlock) → IsFrom (bytes_of bytes) r → IsFromText (loaded text) r
      from_bytes (loaded block) h = (bytes, reading, h)
      from_bytes (failed e) h = absurd h

  -- `wiird_load_txt` ends on every file. If it does not panic, it gives the error of reading the
  -- file; or the error of a line, which starts with a star and has a character that is no
  -- hexadecimal digit, or more or fewer than 16 digits, the lines with a star before it being
  -- codes; or, if every line with a star has the 16 digits of a code, a tree with the lines of the
  -- bytes these digits spell, in order.
  pub wiird_load_txt-Ends :
      (file : Loaded (List ℕ)) → Ends (IsFromText file) (wiird_load_txt be file)
  unfolding wiird_load_txt
  wiird_load_txt-Ends (failed e) = (ok (failed e), refl, returns refl)
  wiird_load_txt-Ends (loaded text) =
      let (result, e, gives) = load_text-TextGives text in
      rw (e, wiird_load_txt) (text-Ends text result gives)

  -- What the bytes of a file give.
  abbrev pub IsFromBytes : Loaded Bytes → Loaded WiirdBlock → Type 0
  IsFromBytes (failed e) r = r ≡ failed e
  IsFromBytes (loaded bytes) (failed e) = (e ≡ less_than_8_bytes) × (bytes.len < 8)
  IsFromBytes (loaded bytes) (loaded block) =
      (codes : Bytes) × (slice_from bytes 8 ≡ ok codes) × Finishes be codes block

  bytes-Ends :
      (bytes : Bytes) (result : Outcome Bytes)
      → slice_from bytes 8 ≡ result
      → Ends
          (IsFromBytes (loaded bytes))
          (elim result [ panic ↦ some panic | ok codes ↦ parsed be codes ])
  bytes-Ends bytes panic eq = (panic, refl, panics)
  bytes-Ends bytes (ok codes) eq =
      let (r, ends, h) = parsed-Ends codes _ (wiird_codes-Finishes be codes) in
      (r, ends, Post-mono h after_header)
    where
      after_header : (r : Loaded WiirdBlock) → IsFrom codes r → IsFromBytes (loaded bytes) r
      after_header (loaded block) h = (codes, eq, h)
      after_header (failed e) h = absurd h

  -- `wiird_load_gct` ends on every file. If it does not panic, it gives the error of reading the
  -- file, or an error on fewer than 8 bytes, or a tree with the lines after the first 8 bytes.
  pub wiird_load_gct-Ends : (file : Loaded Bytes) → Ends (IsFromBytes file) (wiird_load_gct be file)
  unfolding wiird_load_gct slice_from
  wiird_load_gct-Ends (failed e) = (ok (failed e), refl, returns refl)
  wiird_load_gct-Ends (loaded bytes) = elim (Bool-cases (ltb bytes.len 8)) [
    | inl h ↦
        rw (h, wiird_load_gct) (ok (failed less_than_8_bytes), refl, returns (refl, ltb→lt _ _ h))
    | inr h ↦ rw (h, wiird_load_gct) (bytes-Ends bytes (slice_from bytes 8) refl)
  ]
