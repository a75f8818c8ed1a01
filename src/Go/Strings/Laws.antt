-- ===== src/Go/Strings/Laws.antt =====
-- Lower-cased texts.
use Prim.Native.Char.{Char, code}
use Prim.Native.String.{[], ◌∷◌}
use topovgm.Prelude.{ℕ, zero, suc, String, ◌-◌, ◌<◌, ◌≡◌, refl, Bool, true, false, ◌&&◌, not, arith}
use topovgm.Go.Strings.{is_upper, letter, lower_char, to_lower}

-- Whether the first `count` letters are all lower case.
are_lower : ℕ → Bool
are_lower zero = true
are_lower (suc count) = are_lower count && not (is_upper (letter count))

alphabet-are_lower : are_lower 26 ≡ true
unfolding are_lower is_upper letter
alphabet-are_lower = refl

letter-are_lower :
    (count k : ℕ) → k < count → are_lower count ≡ true → not (is_upper (letter k)) ≡ true
unfolding are_lower
letter-are_lower (suc count) k below h = ground (arith, letter-are_lower count k)
letter-are_lower zero k below h = absurd (omega arith)

letter-is_upper : (k : ℕ) → k < 26 → not (is_upper (letter k)) ≡ true
letter-is_upper k below = letter-are_lower 26 k below alphabet-are_lower

upper_offset : (c : Char) → is_upper c ≡ true → code c - b'A' < 26
unfolding is_upper
upper_offset c h = ground arith

lower_char-is_upper : (c : Char) → is_upper (lower_char c) ≡ false
unfolding lower_char
lower_char-is_upper c = ground (arith, upper_offset c, letter-is_upper (code c - b'A'))

lower_char_fixed : (c : Char) → is_upper c ≡ false → lower_char c ≡ c
unfolding lower_char
lower_char_fixed c h = rw h

-- No character is one of A to Z.
unfoldable pub has_no_upper : String → Bool
unfolding is_upper
has_no_upper [] = true
has_no_upper (c ∷ s) = not (is_upper c) && has_no_upper s

pub has_no_upper-to_lower : (s : String) → has_no_upper (to_lower s) ≡ true
unfolding has_no_upper to_lower
has_no_upper-to_lower [] = refl
has_no_upper-to_lower (c ∷ s) = ground (arith, lower_char-is_upper c, has_no_upper-to_lower s)

pub to_lower_fixed : (s : String) → has_no_upper s ≡ true → to_lower s ≡ s
unfolding has_no_upper to_lower
to_lower_fixed [] h = refl
to_lower_fixed (c ∷ s) h = ground (arith, lower_char_fixed c, to_lower_fixed s)
