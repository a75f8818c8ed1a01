-- ===== src/Utils/Snake/Laws.antt =====
-- What the snake case of a text keeps of it and what it holds.
use Prim.Native.Char.{code}
use Prim.Native.String.{[], ◌∷◌}
use topovgm.Prelude.{String, ◌≡◌, refl, ◌∙◌, true, false, ◌&&◌, arith, if◌then◌else◌}
use topovgm.Utils.Snake.{
  Mode, scan, cap_follows, upper_follows, begins_match, next_mode, match_first_cap, match_all_cap,
  to_snake_case,
}
use topovgm.Go.{leb, to_lower}
use topovgm.Go.Strings.Laws.{has_no_upper, has_no_upper-to_lower, to_lower_fixed}

cap_follows-has_no_upper : (s : String) → has_no_upper s ≡ true → cap_follows s ≡ false
unfolding has_no_upper cap_follows
cap_follows-has_no_upper [] h = refl
cap_follows-has_no_upper (u ∷ []) h = refl
cap_follows-has_no_upper (u ∷ (l ∷ s)) h = ground arith

upper_follows-has_no_upper : (s : String) → has_no_upper s ≡ true → upper_follows s ≡ false
unfolding has_no_upper upper_follows
upper_follows-has_no_upper [] h = refl
upper_follows-has_no_upper (u ∷ s) h = ground arith

match_first_cap_fixed : (m : Mode) (s : String) → has_no_upper s ≡ true → match_first_cap m s ≡ s
unfolding has_no_upper match_first_cap begins_match
match_first_cap_fixed m [] h = refl
match_first_cap_fixed m (c ∷ s) h =
    ground (arith, cap_follows-has_no_upper s, match_first_cap_fixed (next_mode m c s) s)

match_all_cap_fixed : (s : String) → has_no_upper s ≡ true → match_all_cap s ≡ s
unfolding has_no_upper match_all_cap
match_all_cap_fixed [] h = refl
match_all_cap_fixed (c ∷ s) h = ground (arith, upper_follows-has_no_upper s, match_all_cap_fixed s)

-- A text with no upper case letter is its own snake case.
pub to_snake_case_fixed : (s : String) → has_no_upper s ≡ true → to_snake_case s ≡ s
unfolding to_snake_case
to_snake_case_fixed s h =
    rw (match_first_cap_fixed scan s h, match_all_cap_fixed s h) (to_lower_fixed s h)

-- The snake case of a text has no upper case letter, and taking it again changes nothing.
pub to_snake_case_idem :
    (s : String)
    → (has_no_upper (to_snake_case s) ≡ true) × (to_snake_case (to_snake_case s) ≡ to_snake_case s)
to_snake_case_idem s =
    let lowered : has_no_upper (to_snake_case s) ≡ true =
      unfold to_snake_case in has_no_upper-to_lower _ in
    (lowered, to_snake_case_fixed _ lowered)

-- A text without its underscores.
pub squeeze : String → String
squeeze [] = []
squeeze (c ∷ s) =
    let rest = squeeze s in if leb b'_' (code c) && leb (code c) b'_' then rest else c ∷ rest

squeeze-match_all_cap : (s : String) → squeeze (to_lower (match_all_cap s)) ≡ squeeze (to_lower s)
unfolding squeeze to_lower match_all_cap
squeeze-match_all_cap [] = refl
squeeze-match_all_cap (c ∷ s) = ground (arith, squeeze-match_all_cap s)

squeeze-match_first_cap :
    (m : Mode) (s : String) → squeeze (to_lower (match_first_cap m s)) ≡ squeeze (to_lower s)
unfolding squeeze to_lower match_first_cap
squeeze-match_first_cap m [] = refl
squeeze-match_first_cap m (c ∷ s) = ground (arith, squeeze-match_first_cap (next_mode m c s) s)

-- The snake case of a text only adds underscores to its lower case: without underscores the two
-- are the same.
pub squeeze-to_snake_case : (s : String) → squeeze (to_snake_case s) ≡ squeeze (to_lower s)
unfolding to_snake_case
squeeze-to_snake_case s =
    squeeze-match_all_cap (match_first_cap scan s) ∙ squeeze-match_first_cap scan s
