-- ===== src/Bridge/Png/Reading.antt =====
-- A reader of such images, and that it gives back the pixels.
use chers.Base.{
  ℕ, zero, suc, ◌+◌, ◌-◌, ◌*◌, ◌%◌, ◌^◌, ◌≤◌, ◌<◌, ◌≡◌, refl, sym, ap, ◌∙◌, subst, Option, none,
  some, List, [], ◌∷◌, ◌++◌, ◌==◌, ==_iff, drop, length, append_assoc, if◌then◌else◌, arith,
}
use chers.Bridge.Operations.{same_codes}
use chers.Bridge.Png.{
  take, png_width, png_height, pack32, png_rows, png_signature, ihdr, idat, iend, png_header,
  png_chunk,
}

take-append : (xs ys : List ℕ) → take (length xs) (xs ++ ys) ≡ xs
take-append [] ys = refl
take-append (x ∷ xs) ys = ap (λ zs. x ∷ zs) (take-append xs ys)

drop-append : (xs ys : List ℕ) → drop (length xs) (xs ++ ys) ≡ ys
drop-append [] ys = refl
drop-append (x ∷ xs) ys = drop-append xs ys

-- The number of four bytes, and what is left.
abbrev pub read32 : List ℕ → Option (ℕ × List ℕ)
read32 (a ∷ b ∷ c ∷ d ∷ rest) = some (a * 2 ^ 24 + b * 2 ^ 16 + c * 2 ^ 8 + d, rest)
read32 _ = none

read32-pack32 : (n : ℕ) (rest : List ℕ) → n < 2 ^ 32 → read32 (pack32 n ++ rest) ≡ some (n, rest)
unfolding pack32
read32-pack32 n rest h = ap (λ (m : ℕ). some (m, rest)) (omega arith)

-- A prefix taken away.
abbrev pub strip_prefix : List ℕ → List ℕ → Option (List ℕ)
strip_prefix [] bytes = some bytes
strip_prefix (p ∷ ps) [] = none
strip_prefix (p ∷ ps) (b ∷ bytes) = if p == b then strip_prefix ps bytes else none

pub strip_prefix-append : (ps rest : List ℕ) → strip_prefix ps (ps ++ rest) ≡ some rest
strip_prefix-append [] rest = refl
strip_prefix-append (p ∷ ps) rest = rw ((==_iff p p).1 refl) (strip_prefix-append ps rest)

-- The rows without their filter bytes.
abbrev pub unfilter : ℕ → ℕ → List ℕ → Option (List ℕ)
unfilter stride zero [] = some []
unfilter stride zero (b ∷ bytes) = none
unfilter stride (suc n) [] = none
unfilter stride (suc n) (filter ∷ bytes) =
    let rest = unfilter stride n (drop stride bytes) in
    if filter == 0
    then elim rest [ none ↦ none | some pixels ↦ some (take stride bytes ++ pixels) ]
    else none

drop_nil : (n : ℕ) → drop {A = ℕ} n [] ≡ []
drop_nil zero = refl
drop_nil (suc n) = refl

drop_add : (m n : ℕ) (xs : List ℕ) → drop (m + n) xs ≡ drop n (drop m xs)
drop_add zero n xs = ap (λ (k : ℕ). drop k xs) (omega arith)
drop_add (suc m) n [] = drop_nil (suc m + n) ∙ sym (drop_nil n)
drop_add (suc m) n (x ∷ xs) =
    let shift : suc m + n ≡ suc (m + n) = omega arith in
    ap (λ (k : ℕ). drop k (x ∷ xs)) shift ∙ drop_add m n xs

length-take : (n : ℕ) (xs : List ℕ) → n ≤ length xs → length (take n xs) ≡ n
length-take zero xs h = refl
length-take (suc n) [] h = absurd (omega arith)
length-take (suc n) (x ∷ xs) h = ap suc (length-take n xs (omega arith))

length-drop : (n : ℕ) (xs : List ℕ) → length (drop n xs) ≡ length xs - n
length-drop zero xs = omega arith
length-drop (suc n) [] = omega arith
length-drop (suc n) (x ∷ xs) = omega (arith, length-drop n xs)

take-drop : (n : ℕ) (xs : List ℕ) → take n xs ++ drop n xs ≡ xs
take-drop zero xs = refl
take-drop (suc n) [] = refl
take-drop (suc n) (x ∷ xs) = ap (λ ys. x ∷ ys) (take-drop n xs)

-- A row of the stride's length is read whole.
unfilter-row :
    (stride n : ℕ) (row rest pixels : List ℕ)
    → length row ≡ stride
    → unfilter stride n rest ≡ some pixels
    → unfilter stride (suc n) (0 ∷ row ++ rest) ≡ some (row ++ pixels)
unfilter-row stride n row rest pixels size h =
    let cut : drop stride (row ++ rest) ≡ rest =
      subst (λ k. drop k (row ++ rest) ≡ rest) size (drop-append row rest) in
    let kept : take stride (row ++ rest) ≡ row =
      subst (λ k. take k (row ++ rest) ≡ row) size (take-append row rest) in
    rw (cut, h, kept) refl

pub unfilter-png_rows :
    (stride y n : ℕ) (rgba : List ℕ)
    → length (drop (y * stride) rgba) ≡ n * stride
    → unfilter stride n (png_rows stride y n rgba) ≡ some (drop (y * stride) rgba)
unfolding png_rows
unfilter-png_rows stride y zero rgba size =
    ap some (sym (empty (drop (y * stride) rgba) (omega (arith, size))))
  where
    empty : (xs : List ℕ) → length xs ≡ 0 → xs ≡ []
    empty [] e = refl
    empty (x ∷ xs) e = absurd (omega arith)
unfilter-png_rows stride y (suc n) rgba size =
    let zs = drop (y * stride) rgba in
    let next : drop (suc y * stride) rgba ≡ drop stride zs =
      ap (λ (k : ℕ). drop k rgba) (grind arith) ∙ drop_add (y * stride) stride rgba in
    let room : stride ≤ length zs = grind (arith, size) in
    let rest : length (drop (suc y * stride) rgba) ≡ n * stride =
      ap length next ∙ length-drop stride zs ∙ left_over (length zs) stride n size in
    unfilter-row stride n (take stride zs) (png_rows stride (suc y) n rgba)
      (drop (suc y * stride) rgba) (length-take stride zs room)
      (unfilter-png_rows stride (suc y) n rgba rest)
    ∙ ap some (ap (λ ys. take stride zs ++ ys) next ∙ take-drop stride zs)
  where
    left_over : (k s n : ℕ) → k ≡ suc n * s → k - s ≡ n * s
    left_over k s n e = grind (arith, e)

append4 :
    (xs ys zs us vs : List ℕ) → (((xs ++ ys) ++ zs) ++ us) ++ vs ≡ xs ++ (ys ++ (zs ++ (us ++ vs)))
append4 xs ys zs us vs =
    append_assoc ((xs ++ ys) ++ zs) us vs
    ∙ append_assoc (xs ++ ys) zs (us ++ vs)
    ∙ append_assoc xs ys (zs ++ (us ++ vs))

module _ (crc32 : List ℕ → ℕ) where
  -- The payload of a chunk of a kind, whose checksum is right, and what follows.
  abbrev check_crc : List ℕ → List ℕ → Option (ℕ × List ℕ) → Option (List ℕ × List ℕ)
  check_crc kind payload none = none
  check_crc kind payload (some (c, after)) =
      if c == crc32 (kind ++ payload) % 2 ^ 32 then some (payload, after) else none

  abbrev read_body : List ℕ → ℕ → Option (List ℕ) → Option (List ℕ × List ℕ)
  read_body kind n none = none
  read_body kind n (some body) = check_crc kind (take n body) (read32 (drop n body))

  abbrev read_sized : List ℕ → Option (ℕ × List ℕ) → Option (List ℕ × List ℕ)
  read_sized kind none = none
  read_sized kind (some (n, rest)) = read_body kind n (strip_prefix kind rest)

  abbrev pub read_chunk : List ℕ → List ℕ → Option (List ℕ × List ℕ)
  read_chunk kind bytes = read_sized kind (read32 bytes)

  -- What a written chunk holds is read back.
  pub read_chunk-png_chunk :
      (compress : List ℕ → List ℕ) (kind payload rest : List ℕ)
      → length payload < 2 ^ 32
      → read_chunk kind (png_chunk compress crc32 kind payload ++ rest) ≡ some (payload, rest)
  unfolding png_chunk
  read_chunk-png_chunk compress kind payload rest size =
      ap (λ bs. read_sized kind (read32 bs))
        (append4 (pack32 (length payload)) kind payload check rest)
      ∙ ap (read_sized kind)
          (read32-pack32 (length payload) (kind ++ (payload ++ (check ++ rest))) size)
      ∙ ap (read_body kind (length payload)) (strip_prefix-append kind (payload ++ (check ++ rest)))
      ∙ body
    where
      check : List ℕ
      check = pack32 (crc32 (kind ++ payload) % 2 ^ 32)

      body :
          read_body kind (length payload) (some (payload ++ (check ++ rest))) ≡ some (payload, rest)
      body =
          ap (λ bs. check_crc kind bs (read32 (drop (length payload) (payload ++ (check ++ rest)))))
            (take-append payload (check ++ rest))
          ∙ ap (λ bs. check_crc kind payload (read32 bs)) (drop-append payload (check ++ rest))
          ∙ ap (check_crc kind payload)
              (read32-pack32 (crc32 (kind ++ payload) % 2 ^ 32) rest (omega arith))
          ∙ rw
              ((==_iff (crc32 (kind ++ payload) % 2 ^ 32) (crc32 (kind ++ payload) % 2 ^ 32)).1
                refl)
              refl

  -- Nothing stands behind the last chunk, and it is empty.
  abbrev pub read_end : ℕ → ℕ → List ℕ → Option (List ℕ × List ℕ) → Option (List ℕ)
  read_end stride n rows (some ([], [])) = unfilter stride n rows
  read_end stride n rows _ = none

  module _ (decompress : List ℕ → List ℕ) where
    abbrev pub read_data : ℕ → ℕ → Option (List ℕ × List ℕ) → Option (List ℕ)
    read_data stride n none = none
    read_data stride n (some (packed, rest)) =
        read_end stride n (decompress packed) (read_chunk iend rest)

    abbrev pub read_header : List ℕ → ℕ → ℕ → Option (List ℕ × List ℕ) → Option (List ℕ)
    read_header header stride n none = none
    read_header header stride n (some (h, rest)) =
        if same_codes h header then read_data stride n (read_chunk idat rest) else none

    abbrev pub read_start : List ℕ → ℕ → ℕ → Option (List ℕ) → Option (List ℕ)
    read_start header stride n none = none
    read_start header stride n (some bytes) = read_header header stride n (read_chunk ihdr bytes)

    -- The pixels of an image with a header, a number of bytes in a row and a number of rows.
    abbrev pub read_image : List ℕ → ℕ → ℕ → List ℕ → Option (List ℕ)
    read_image header stride n bytes = read_start header stride n (strip_prefix png_signature bytes)

    abbrev pub read_png : List ℕ → Option (List ℕ)
    read_png = read_image png_header (png_width * 4) png_height
