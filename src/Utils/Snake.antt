-- ===== src/Utils/Snake.antt =====
-- internal/utils/utils.go: `ToSnakeCase`, for texts of ASCII characters. Each `ReplaceAllString` is
-- one pass over the text.
pub mod Laws
use Prim.Native.Char.{Char, char, code}
use Prim.Native.String.{[], ◌∷◌}
use topovgm.Prelude.{String, Bool, true, false, ◌&&◌, ◌||◌, not, if◌then◌else◌}
use topovgm.Go.{leb, is_upper, to_lower}

abbrev underscore : Char
underscore = char b'_' tt

is_lower : Char → Bool
is_lower c = leb b'a' (code c) && leb (code c) b'z'

is_digit : Char → Bool
is_digit c = leb b'0' (code c) && leb (code c) b'9'

-- `.` matches every character but this one.
is_newline : Char → Bool
is_newline c = leb b'\n' (code c) && leb (code c) b'\n'

-- What `([A-Z][a-z]+)` needs next.
cap_follows : String → Bool
cap_follows (u ∷ l ∷ s) = is_upper u && is_lower l
cap_follows _ = false

upper_follows : String → Bool
upper_follows (u ∷ s) = is_upper u
upper_follows [] = false

-- Where the scan stands: outside of a match, at its upper case letter, or in its `[a-z]+`.
pub data Mode : Type 0 where
  scan cap lowers : Mode

is_consumed : Mode → Char → Bool
is_consumed scan c = false
is_consumed cap c = true
is_consumed lowers c = is_lower c

-- A match of `(.)([A-Z][a-z]+)` begins at `c`.
begins_match : Mode → Char → String → Bool
unfolding is_consumed
begins_match m c s = not (is_consumed m c) && not (is_newline c) && cap_follows s

next_mode : Mode → Char → String → Mode
unfolding begins_match
next_mode m c s = if is_consumed m c then lowers else if begins_match m c s then cap else scan

-- `matchFirstCap.ReplaceAllString(str, "${1}_${2}")`
match_first_cap : Mode → String → String
unfolding next_mode
match_first_cap m [] = []
match_first_cap m (c ∷ s) =
    let rest = match_first_cap (next_mode m c s) s in
    c ∷ (if begins_match m c s then underscore ∷ rest else rest)

-- `matchAllCap.ReplaceAllString(snake, "${1}_${2}")`. The upper case letter that a match takes
-- begins no other match.
match_all_cap : String → String
match_all_cap [] = []
match_all_cap (c ∷ s) =
    let rest = match_all_cap s in
    c ∷ (if (is_lower c || is_digit c) && upper_follows s then underscore ∷ rest else rest)

unfoldable pub to_snake_case : String → String
unfolding match_first_cap match_all_cap to_lower is_upper is_lower is_digit is_newline cap_follows
    upper_follows
to_snake_case str = to_lower (match_all_cap (match_first_cap scan str))
