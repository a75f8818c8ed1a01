-- ===== src/Tests/Slices.antt =====
-- Differences of slices and the two-way synchronisation of two short ones.
use topovgm.Prelude.{
  ◌↔◌, String, ◌≡◌, refl, List, [], ◌∷◌, ◌++◌, string_eq, contains, contains-append,
}
use topovgm.Go.{⊤, message, ok, fail, M}
use topovgm.Utils.{in_left_but_not_in_right, sequential_two_way_sync}
use topovgm.Utils.Diff.{without, contains-without}
use topovgm.Utils.TwoWay.{
  Adds, Removes, sequential_two_way_sync_converges, Runs, sequential_two_way_sync-Runs,
}

abbrev left : List String
left = "a" ∷ "b" ∷ "c" ∷ []

abbrev right : List String
right = "b" ∷ "d" ∷ "b" ∷ []

difference : in_left_but_not_in_right left right ≡ "a" ∷ "c" ∷ []
unfolding in_left_but_not_in_right string_eq
difference = refl

-- The state is the slice itself.
abbrev append : List String → M (List String) ⊤
append xs w = (ok tt, w ++ xs)

abbrev drop_all : List String → M (List String) ⊤
drop_all xs w = (ok tt, without xs w)

abbrev refuse : List String → M (List String) ⊤
refuse xs w = (fail (message "refused"), w)

append-Adds : Adds (λ w. w) append drop_all
append-Adds xs w = (w ++ xs, refl, λ a. contains-append a w xs)

drop_all-Removes : Removes (λ w. w) append drop_all
drop_all-Removes xs w = (without xs w, refl, λ a. contains-without a w xs)

sequential_two_way_sync_converges_example :
    (w : List String) × (sequential_two_way_sync left right append drop_all right ≡ (ok tt, w))
    × ((a : String) → contains w a ≡ contains left a)
sequential_two_way_sync_converges_example =
    sequential_two_way_sync_converges (λ w. w) append drop_all append-Adds drop_all-Removes left
      right

sequential_two_way_sync-Runs_example :
    (sequential_two_way_sync left right refuse drop_all right ≡ (fail (message "refused"), right))
    ↔ Runs refuse drop_all
        (without right left)
        (without left right)
        right
        (fail (message "refused"))
        right
sequential_two_way_sync-Runs_example =
    sequential_two_way_sync-Runs left right refuse drop_all right (fail (message "refused")) right
