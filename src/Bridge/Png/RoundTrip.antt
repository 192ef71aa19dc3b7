-- ===== src/Bridge/Png/RoundTrip.antt =====
-- That the reader gives back the pixels of an encoded image.
use chers.Base.{
  ℕ, ◌*◌, ◌^◌, ◌<◌, ◌≡◌, sym, ap, ◌∙◌, Bool, Option, none, some, List, [], ◌++◌, ◌==◌, ==_iff, not,
  length, append_assoc, append-nil, arith, Bool-cases, inl, inr, if◌then◌else◌, subst,
}
use chers.Bridge.Operations.Observations.{same_codes_refl}
use chers.Bridge.Png.{
  png_width, png_height, png_rows, png_signature, ihdr, idat, iend, png_header, png_chunk, rgba_png,
}
use chers.Bridge.Png.Reading.{
  strip_prefix-append, unfilter, unfilter-png_rows, read_chunk-png_chunk, read_start, read_header,
  read_data, read_end, read_chunk, read_image, read_png,
}

module _ (compress : List ℕ → List ℕ) (decompress : List ℕ → List ℕ) (crc32 : List ℕ → ℕ) where
  -- The reader on the three chunks of an image.
  read_image-chunks :
      (header packed : List ℕ) (stride n : ℕ)
      → length header < 2 ^ 32
      → length packed < 2 ^ 32
      → read_image crc32 decompress header stride n (
          ((png_signature ++ png_chunk compress crc32 ihdr header)
            ++ png_chunk compress crc32 idat packed)
          ++ png_chunk compress crc32 iend [])
        ≡ unfilter stride n (decompress packed)
  read_image-chunks header packed stride n small fits =
      ap (λ bs. read_image crc32 decompress header stride n bs)
        (append_assoc (png_signature ++ first) second last
          ∙ append_assoc png_signature first (second ++ last))
      ∙ ap (read_start crc32 decompress header stride n)
          (strip_prefix-append png_signature (first ++ (second ++ last)))
      ∙ ap (read_header crc32 decompress header stride n)
          (read_chunk-png_chunk crc32 compress ihdr header (second ++ last) small)
      ∙ ap
          (λ b.
            if b
            then read_data crc32 decompress stride n (read_chunk crc32 idat (second ++ last))
            else none)
          (same_codes_refl header)
      ∙ ap (read_data crc32 decompress stride n)
          (read_chunk-png_chunk crc32 compress idat packed last fits)
      ∙ ap (λ bs. read_end crc32 stride n (decompress packed) (read_chunk crc32 iend bs))
          (sym (append-nil last))
      ∙ ap (read_end crc32 stride n (decompress packed))
          (read_chunk-png_chunk crc32 compress iend [] [] (omega arith))
    where
      first : List ℕ
      first = png_chunk compress crc32 ihdr header

      second : List ℕ
      second = png_chunk compress crc32 idat packed

      last : List ℕ
      last = png_chunk compress crc32 iend []

  -- The image that `rgba_png` writes is read back to the same pixels, if decompression gives back
  -- what was compressed and the compressed rows are shorter than 2^32 bytes.
  pub rgba_png-read :
      (rgba png : List ℕ)
      → ((bytes : List ℕ) → decompress (compress bytes) ≡ bytes)
      → length (compress (png_rows (png_width * 4) 0 png_height rgba)) < 2 ^ 32
      → rgba_png compress crc32 rgba ≡ some png
      → read_png crc32 decompress png ≡ some rgba
  unfolding rgba_png
  rgba_png-read rgba png restores fits e =
      elim (Bool-cases (length rgba == png_width * png_height * 4)) [
        | inl size ↦
            let it : some written ≡ rgba_png compress crc32 rgba = sym (ap choice size) in
            let same : written ≡ png = cc (it ∙ e) in
            subst (λ p. read_png crc32 decompress p ≡ some rgba) same
              (read_image-chunks png_header (compress rows) (png_width * 4) png_height (omega arith)
                  fits
                ∙ ap (unfilter (png_width * 4) png_height) (restores rows)
                ∙ unfilter-png_rows (png_width * 4) 0 png_height rgba
                    ((==_iff (length rgba) (png_width * png_height * 4)).0 size))
        | inr wrong ↦
            let it : none ≡ rgba_png compress crc32 rgba = sym (ap choice wrong) in
            absurd (cc (it ∙ e))
      ]
    where
      rows : List ℕ
      rows = png_rows (png_width * 4) 0 png_height rgba

      written : List ℕ
      written =
          ((png_signature ++ png_chunk compress crc32 ihdr png_header)
            ++ png_chunk compress crc32 idat (compress rows))
          ++ png_chunk compress crc32 iend []

      choice : Bool → Option (List ℕ)
      choice b = if not b then none else some written
