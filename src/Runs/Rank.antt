-- ===== src/Runs/Rank.antt =====
-- The order of the chronology.
use chers.Base.{◌≡◌, refl, true, false, [], ◌∷◌, arith}
use chers.Runs.{Row, Text, same_text, text_le, rank_le}

text_le_total : (a b : Text) → text_le a b ≡ false → text_le b a ≡ true
text_le_total [] b e = absurd (ground arith)
text_le_total (x ∷ a) [] e = refl
text_le_total (x ∷ a) (y ∷ b) e = ground (arith, text_le_total a b)

text_le_trans : (a b c : Text) → text_le a b ≡ true → text_le b c ≡ true → text_le a c ≡ true
text_le_trans [] b c p q = refl
text_le_trans (x ∷ a) [] c p q = absurd (ground arith)
text_le_trans (x ∷ a) (y ∷ b) [] p q = absurd (ground arith)
text_le_trans (x ∷ a) (y ∷ b) (z ∷ c) p q = ground (arith, text_le_trans a b c)

text_le_refl : (a : Text) → text_le a a ≡ true
text_le_refl [] = refl
text_le_refl (x ∷ a) = ground (arith, text_le_refl a)

pub same_text-eq : (a b : Text) → same_text a b ≡ true → a ≡ b
same_text-eq [] [] e = refl
same_text-eq [] (y ∷ b) e = absurd (ground arith)
same_text-eq (x ∷ a) [] e = absurd (ground arith)
same_text-eq (x ∷ a) (y ∷ b) e = ground (arith, same_text-eq a b)

pub same_text_refl : (a : Text) → same_text a a ≡ true
same_text_refl [] = refl
same_text_refl (x ∷ a) = ground (arith, same_text_refl a)

pub rank_le_total : (a b : Row) → rank_le a b ≡ false → rank_le b a ≡ true
unfolding rank_le
rank_le_total a b e = ground (arith, text_le_total a.directory b.directory)

pub rank_le_trans : (a b c : Row) → rank_le a b ≡ true → rank_le b c ≡ true → rank_le a c ≡ true
unfolding rank_le
rank_le_trans a b c p q = ground (arith, text_le_trans a.directory b.directory c.directory)

pub rank_le_refl : (a : Row) → rank_le a a ≡ true
unfolding rank_le
rank_le_refl a = ground (arith, text_le_refl a.directory)
