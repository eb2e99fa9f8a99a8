-- ===== src/Script/TableLaws.antt =====
-- `scripts` of src/script.rs ends, with a script for every entry of the table.
use brawllib_rs.Prelude.{
  ℕ, zero, suc, ◌+◌, ◌*◌, ◌≡◌, refl, ap, List, [], ◌∷◌, length, All, Option, none, some, Bool, true,
  false, leb, if◌then◌else◌, ◌∙◌,
}
use brawllib_rs.Outcome.{Ends, Outcome, ok, panic, Post-ok, returns, panics}
use brawllib_rs.Bytes.{Bytes}
use brawllib_rs.Bytes.Words.{IsBytes, word_at}
use brawllib_rs.Slice.{FancySlice}
use brawllib_rs.WiiMemory.{WiiMemory}
use brawllib_rs.WiiMemory.View.{IsWii}
use brawllib_rs.Script.Argument.{Script}
use brawllib_rs.Script.Read.{new_script}
use brawllib_rs.Script.ReadLaws.{IsEvent, IsScript}
use brawllib_rs.Script.ReadEnds.{new_script-Ends}
use brawllib_rs.Script.Fragments.{scripts}

module _ (fs : FancySlice) {F : Type 0} (scalar_of : ℕ → F) (parent_data : Bytes)
    (wii_memory : WiiMemory) where
  -- The scripts are those that the offsets in the table lead to, from an entry on: each offset is the
  -- big-endian word of its entry, and its script is what `new_script` reads there.
  abbrev pub Follows : Bytes → ℕ → List (Script F) → Type 0
  Follows table i [] = Unit
  Follows table i (s ∷ ss) =
      (leb (i * 4 + 4) table.len ≡ true)
      × (s.offset ≡ word_at table.at (i * 4))
      × (new_script fs scalar_of parent_data s.offset wii_memory ≡ some (ok s))
      × Follows table (i + 1) ss

  -- A script for every entry, with well formed events.
  abbrev pub IsTable : Bytes → ℕ → ℕ → List (Script F) → Type 0
  IsTable table i n ss = (length ss ≡ n) × All (λ s. All IsEvent s.events) ss × Follows table i ss

  module _ (parent_bytes : IsBytes parent_data) (wii : IsWii wii_memory) where
    after-Ends :
        (table : Bytes) (i n : ℕ) (s : Script F) {result : Option (Outcome (List (Script F)))}
        → leb (i * 4 + 4) table.len ≡ true
        → s.offset ≡ word_at table.at (i * 4)
        → new_script fs scalar_of parent_data s.offset wii_memory ≡ some (ok s)
        → All IsEvent s.events
        → Ends (IsTable table (i + 1) n) result
        → Ends (IsTable table i (suc n)) (elim result [
          | none ↦ none
          | some panic ↦ some panic
          | some (ok rest) ↦ some (ok (s ∷ rest))
        ])
    after-Ends table i n s room at read wf (panic, e, h) = rw e (panic, refl, panics)
    after-Ends table i n s room at read wf (ok rest, e, h) =
        let (len, all, follows) = Post-ok h in
        rw e (ok _, refl, returns (ap suc len, (wf, all), (room, at, read, follows)))

    -- The script of an entry, then those of the entries after it.
    loaded-Ends :
        (table : Bytes) (i n o : ℕ) {rest : Option (Outcome (List (Script F)))}
        (result : Option (Outcome (Script F)))
        → leb (i * 4 + 4) table.len ≡ true
        → o ≡ word_at table.at (i * 4)
        → new_script fs scalar_of parent_data o wii_memory ≡ result
        → Ends (IsTable table (i + 1) n) rest
        → Ends (IsScript o) result
        → Ends (IsTable table i (suc n)) (elim result [
          | none ↦ none
          | some panic ↦ some panic
          | some (ok script) ↦ elim rest [
            | none ↦ none
            | some panic ↦ some panic
            | some (ok rest) ↦ some (ok (script ∷ rest))
          ]
        ])
    loaded-Ends table i n o result room at read later (panic, e, h) = rw e (panic, refl, panics)
    loaded-Ends table i n o result room at read later (ok script, e, h) =
        let same : script.offset ≡ o = (Post-ok h).0 in
        let found : new_script fs scalar_of parent_data script.offset wii_memory
            ≡ some (ok script) =
          ap (λ (k : ℕ). new_script fs scalar_of parent_data k wii_memory) same ∙ (read ∙ e) in
        rw e (after-Ends table i n script room (same ∙ at) found (Post-ok h).1 later)

    entry-Ends :
        (table : Bytes) (i n : ℕ) (rest : Option (Outcome (List (Script F)))) (fits : Bool)
        → leb (i * 4 + 4) table.len ≡ fits
        → Ends (IsTable table (i + 1) n) rest
        → Ends
            (IsTable table i (suc n))
            (elim (if fits then ok (word_at table.at (i * 4)) else panic) [
              | panic ↦ some panic
              | ok o ↦ elim (new_script fs scalar_of parent_data o wii_memory) [
                | none ↦ none
                | some panic ↦ some panic
                | some (ok script) ↦ elim rest [
                  | none ↦ none
                  | some panic ↦ some panic
                  | some (ok rest) ↦ some (ok (script ∷ rest))
                ]
              ]
            ])
    entry-Ends table i n rest false room later = (panic, refl, panics)
    entry-Ends table i n rest true room later =
        let o = word_at table.at (i * 4) in
        loaded-Ends table i n o (new_script fs scalar_of parent_data o wii_memory) room refl refl
          later (new_script-Ends fs parent_data wii_memory parent_bytes wii scalar_of o)

    -- `scripts` ends on every table. If it does not panic, there is a script for each entry: the one that
    -- `new_script` reads at the big-endian word of the entry, which lies in the table. The events of all
    -- are well formed.
    pub scripts-Ends :
        (n : ℕ) (offset_data : Bytes) (i : ℕ)
        → Ends
            (IsTable offset_data i n)
            (scripts fs scalar_of parent_data wii_memory n offset_data i)
    unfolding scripts
    scripts-Ends zero offset_data i = (ok [], refl, returns (refl, tt, tt))
    scripts-Ends (suc n) offset_data i =
        rw (fs.u32_be_lem offset_data (i * 4), scripts)
          (entry-Ends offset_data i n _ (leb (i * 4 + 4) offset_data.len) refl
            (scripts-Ends n offset_data (i + 1)))
