-- ===== src/Bridge/Png/Tests.antt =====
-- The encoder on a small chunk, and a black observation read back.
use chers.Base.{
  ℕ, zero, suc, ◌+◌, ◌*◌, ◌^◌, ◌<◌, ◌≤◌, ◌≡◌, refl, ap, some, none, List, [], ◌∷◌, ◌++◌, drop,
  length, not, ==_iff, if◌then◌else◌, length-append, arith,
}
use chers.Bridge.Png.{
  png_signature, take, png_width, png_height, pack32, png_rows, ihdr, idat, iend, png_header,
  png_chunk, rgba_png,
}
use chers.Bridge.Png.Reading.{read_png}
use chers.Bridge.Png.RoundTrip.{rgba_png-read}

-- A checksum for the tests.
abbrev sum_of : List ℕ → ℕ
sum_of [] = 0
sum_of (x ∷ xs) = x + sum_of xs

chunk_test :
    png_chunk (λ bs. bs) (λ bs. length bs) iend []
    ≡ 0 ∷ 0 ∷ 0 ∷ 0 ∷ b'I' ∷ b'E' ∷ b'N' ∷ b'D' ∷ 0 ∷ 0 ∷ 0 ∷ 4 ∷ []
unfolding png_chunk pack32
chunk_test = refl

rows_test : png_rows 2 0 2 (1 ∷ 2 ∷ 3 ∷ 4 ∷ []) ≡ 0 ∷ 1 ∷ 2 ∷ 0 ∷ 3 ∷ 4 ∷ []
unfolding png_rows
rows_test = refl

short_test : rgba_png (λ bs. bs) (λ bs. 0) (1 ∷ 2 ∷ 3 ∷ []) ≡ none
unfolding rgba_png
short_test = refl

zeros : ℕ → List ℕ
zeros zero = []
zeros (suc n) = 0 ∷ zeros n

length-zeros : (n : ℕ) → length (zeros n) ≡ n
unfolding zeros
length-zeros zero = refl
length-zeros (suc n) = ap suc (length-zeros n)

length-take : (n : ℕ) (xs : List ℕ) → length (take n xs) ≤ n
length-take zero xs = omega arith
length-take (suc n) [] = omega arith
length-take (suc n) (x ∷ xs) = omega (arith, length-take n xs)

length-png_rows :
    (stride y n : ℕ) (rgba : List ℕ) → length (png_rows stride y n rgba) ≤ n * suc stride
unfolding png_rows
length-png_rows stride y zero rgba = omega arith
length-png_rows stride y (suc n) rgba =
    let row = take stride (drop (y * stride) rgba) in
    let below = length-png_rows stride (suc y) n rgba in
    let both_parts = length-append row (png_rows stride (suc y) n rgba) in
    let short = length-take stride (drop (y * stride) rgba) in
    grind (arith, below, both_parts, short)

-- An observation of black pixels, and its image.
abbrev black : List ℕ
black = zeros (png_width * png_height * 4)

abbrev black_png : List ℕ
black_png =
    ((png_signature ++ png_chunk (λ bs. bs) sum_of ihdr png_header)
      ++ png_chunk (λ bs. bs) sum_of idat (png_rows (png_width * 4) 0 png_height black))
    ++ png_chunk (λ bs. bs) sum_of iend []

black-encoded : rgba_png (λ bs. bs) sum_of black ≡ some black_png
unfolding rgba_png
black-encoded =
    ap (λ b. if not b then none else some black_png)
      ((==_iff (length black) (png_width * png_height * 4)).1
        (length-zeros (png_width * png_height * 4)))

rgba_png-read_example : read_png sum_of (λ bs. bs) black_png ≡ some black
rgba_png-read_example =
    rgba_png-read (λ bs. bs) (λ bs. bs) sum_of black black_png (λ bytes. refl)
      (fits (length-png_rows (png_width * 4) 0 png_height black)) black-encoded
  where
    fits : {n : ℕ} → n ≤ png_height * suc (png_width * 4) → n < 2 ^ 32
    fits h = omega (arith, h)
