-- ===== src/Go/Strings.antt =====
-- `strings.ToLower`, for texts of ASCII characters.
pub mod Laws
use Prim.Native.Nat.{compare, Ordering}
use Prim.Native.Char.{Char, code}
use Prim.Native.String.{[], ◌∷◌, char_at}
use topovgm.Prelude.{ℕ, String, ◌-◌, Bool, true, false, ◌&&◌, if◌then◌else◌}

abbrev pub leb : ℕ → ℕ → Bool
leb a b = elim (compare a b) [ Ordering.gt ↦ false | _ ↦ true ]

unfoldable pub is_upper : Char → Bool
is_upper c = leb b'A' (code c) && leb (code c) b'Z'

unfoldable pub letter : ℕ → Char
letter = char_at "abcdefghijklmnopqrstuvwxyz"

unfoldable pub lower_char : Char → Char
unfolding letter is_upper
lower_char c = if is_upper c then letter (code c - b'A') else c

-- `strings.ToLower`
unfoldable pub to_lower : String → String
unfolding lower_char
to_lower [] = []
to_lower (c ∷ s) = lower_char c ∷ to_lower s
