-- ===== src/Bridge/Png.antt =====
-- `rgba_png` of examples/codex_vision_bridge.py. zlib is a parameter: its compression and its CRC.
pub mod Reading
pub mod RoundTrip
mod Tests
use chers.Base.{
  ℕ, zero, suc, ◌+◌, ◌*◌, ◌/◌, ◌%◌, ◌^◌, Bool, not, Option, none, some, List, [], ◌∷◌, ◌++◌, ◌==◌,
  drop, length, if◌then◌else◌,
}

abbrev pub take : ℕ → List ℕ → List ℕ
take zero xs = []
take (suc n) [] = []
take (suc n) (x ∷ xs) = x ∷ take n xs

abbrev pub png_width : ℕ
png_width = 640

abbrev pub png_height : ℕ
png_height = 360

-- `struct.pack(">I", n)`, for numbers below 2 ^ 32.
unfoldable pub pack32 : ℕ → List ℕ
pack32 n = n / 2 ^ 24 % 256 ∷ n / 2 ^ 16 % 256 ∷ n / 2 ^ 8 % 256 ∷ n % 256 ∷ []

-- The rows from one on, each behind a byte for no filter.
unfoldable pub png_rows : ℕ → ℕ → ℕ → List ℕ → List ℕ
png_rows stride y zero rgba = []
png_rows stride y (suc n) rgba =
    0 ∷ take stride (drop (y * stride) rgba) ++ png_rows stride (suc y) n rgba

abbrev pub png_signature : List ℕ
png_signature = 0x89 ∷ b'P' ∷ b'N' ∷ b'G' ∷ 13 ∷ 10 ∷ 26 ∷ 10 ∷ []

abbrev pub ihdr : List ℕ
ihdr = b'I' ∷ b'H' ∷ b'D' ∷ b'R' ∷ []

abbrev pub idat : List ℕ
idat = b'I' ∷ b'D' ∷ b'A' ∷ b'T' ∷ []

abbrev pub iend : List ℕ
iend = b'I' ∷ b'E' ∷ b'N' ∷ b'D' ∷ []

-- `struct.pack(">IIBBBBB", width, height, 8, 6, 0, 0, 0)`
unfoldable pub png_header : List ℕ
unfolding pack32
png_header = pack32 png_width ++ pack32 png_height ++ 8 ∷ 6 ∷ 0 ∷ 0 ∷ 0 ∷ []

module _ (compress : List ℕ → List ℕ) (crc32 : List ℕ → ℕ) where
  -- `chunk`
  unfoldable pub png_chunk : List ℕ → List ℕ → List ℕ
  unfolding pack32
  png_chunk kind payload =
      pack32 (length payload) ++ kind ++ payload ++ pack32 (crc32 (kind ++ payload) % 2 ^ 32)

  -- `rgba_png`; `none` is its `ValueError`.
  unfoldable pub rgba_png : List ℕ → Option (List ℕ)
  unfolding png_chunk png_rows png_header
  rgba_png rgba =
      if not (length rgba == png_width * png_height * 4)
      then none
      else some (
          png_signature
          ++ png_chunk ihdr png_header
          ++ png_chunk idat (compress (png_rows (png_width * 4) 0 png_height rgba))
          ++ png_chunk iend [])
