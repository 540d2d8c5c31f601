-- ===== src/Tools/Binary.antt =====
-- src/tools/sandbox.rs: sniff_magic and check_binary, on the bytes of a file.
use anser.Prelude.{
  ◌≡◌, refl, ◌++◌, ℕ, zero, suc, Bool, true, false, ◌&&◌, ◌||◌, Option, none, some, List, [], ◌∷◌,
  nat_eqb, if◌then◌else◌, ◌==◌,
}
use anser.Prelude.Text.{text_key, Text, codes, strip_prefix, is_some}

abbrev pub take_bytes : ℕ → Text → Text
take_bytes zero t = []
take_bytes (suc n) [] = []
take_bytes (suc n) (b ∷ t) = b ∷ take_bytes n t

abbrev pub skip_bytes : ℕ → Text → Text
skip_bytes zero t = t
skip_bytes (suc n) [] = []
skip_bytes (suc n) (b ∷ t) = skip_bytes n t

-- The prefixes with the type that each one gives.
abbrev pub magic_signatures : List (Text × Text)
magic_signatures =
    (codes "%PDF-", codes "application/pdf")
    ∷ (0x89 ∷ 80 ∷ 78 ∷ 71 ∷ 13 ∷ 10 ∷ 26 ∷ 10 ∷ [], codes "image/png")
    ∷ (0xff ∷ 0xd8 ∷ 0xff ∷ [], codes "image/jpeg")
    ∷ (codes "GIF8", codes "image/gif")
    ∷ (80 ∷ 75 ∷ 3 ∷ 4 ∷ [], codes "application/zip")
    ∷ (0x1f ∷ 0x8b ∷ [], codes "application/gzip")
    ∷ (0x37 ∷ 0x7a ∷ 0xbc ∷ 0xaf ∷ 0x27 ∷ 0x1c ∷ [], codes "application/x-7z")
    ∷ (codes "BZh", codes "application/x-bzip2")
    ∷ (0xfd ∷ 0x37 ∷ 0x7a ∷ 0x58 ∷ 0x5a ∷ 0 ∷ [], codes "application/x-xz")
    ∷ (0x7f ∷ 69 ∷ 76 ∷ 70 ∷ [], codes "application/x-elf")
    ∷ (codes "MZ", codes "application/x-dosexec")
    ∷ (codes "ID3", codes "audio/mpeg")
    ∷ (codes "SQLite format 3" ++ 0 ∷ [], codes "application/x-sqlite3")
    ∷ (0 ∷ 97 ∷ 115 ∷ 109 ∷ [], codes "application/wasm")
    ∷ (codes "wOF2", codes "font/woff2")
    ∷ (codes "wOFF", codes "font/woff")
    ∷ (codes "RIFF", codes "audio/wav")
    ∷ []

unfoldable pub first_signature : List (Text × Text) → Text → Option Text
unfolding strip_prefix
first_signature [] b = none
first_signature ((sig, mime) ∷ more) b =
    let rest = first_signature more b in if is_some (strip_prefix b sig) then some mime else rest

unfoldable pub is_mp3_frame : Text → Bool
is_mp3_frame (a ∷ b ∷ t) = nat_eqb a 0xff && (nat_eqb b 0xfb || nat_eqb b 0xf3 || nat_eqb b 0xf7)
is_mp3_frame _ = false

-- At least twelve bytes, of which four to seven spell `ftyp`.
unfoldable pub is_mp4 : Text → Bool
is_mp4 b = is_long (skip_bytes 11 b) && (take_bytes 4 (skip_bytes 4 b) == codes "ftyp")
  where
    is_long : Text → Bool
    is_long [] = false
    is_long (x ∷ xs) = true

unfoldable pub sniff_magic : Text → Option Text
unfolding first_signature is_mp3_frame is_mp4
sniff_magic b = elim (first_signature magic_signatures b) [
  | some mime ↦ some mime
  | none ↦
      if is_mp3_frame b
      then some (codes "audio/mpeg")
      else if is_mp4 b
      then some (codes "video/mp4")
      else none
]

-- What `check_binary` makes of a file's bytes; one read gives at most 4,100 of them.
unfoldable pub check_binary : Text → Option Text
unfolding sniff_magic
check_binary content = sniff_magic (take_bytes 4100 content)

pdf_runs : check_binary (codes "%PDF-1.7") ≡ some (codes "application/pdf")
unfolding check_binary sniff_magic first_signature strip_prefix
pdf_runs = refl
