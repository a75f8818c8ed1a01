-- ===== src/Utils.antt =====
-- internal/utils/utils.go: differences of slices and the two-way synchronisation.
pub mod Diff
pub mod Snake
pub mod TwoWay
use topovgm.Prelude.{List, [], ◌∷◌, Bool, false, true, not, Eq, contains, if◌then◌else◌}
use topovgm.Go.{⊤, M, ◌>>◌, when}

module _ {ℓ} {T : Type ℓ} ⦃e : Eq T⦄ where
  -- The keys of the Go map `m`: writing a key twice leaves one.
  set_of : List T → List T → List T
  set_of seen [] = seen
  set_of seen (x ∷ right) = set_of (if contains seen x then seen else x ∷ seen) right

  -- The loop over `left`.
  keep_absent : List T → List T → List T
  keep_absent m [] = []
  keep_absent m (x ∷ left) =
      let diff = keep_absent m left in if contains m x then diff else x ∷ diff

  -- `InLeftButNotInRight`
  unfoldable pub in_left_but_not_in_right : List T → List T → List T
  unfolding set_of keep_absent
  in_left_but_not_in_right [] right = []
  in_left_but_not_in_right (x ∷ left) [] = x ∷ left
  in_left_but_not_in_right (x ∷ left) (y ∷ right) = keep_absent (set_of [] (y ∷ right)) (x ∷ left)

abbrev pub is_empty {ℓ} : {T : Type ℓ} → List T → Bool
is_empty [] = true
is_empty (_ ∷ _) = false

-- `SequentialTwoWaySync`; the callbacks `new` and `old` may change the state `W`.
unfoldable pub sequential_two_way_sync {ℓ} :
    {T : Type ℓ} {W : Type 0} ⦃e : Eq T⦄
    → List T
    → List T
    → (List T → M W ⊤)
    → (List T → M W ⊤)
    → M W ⊤
sequential_two_way_sync desired current new old = do
  let new_from_a = in_left_but_not_in_right desired current
  let old_from_b = in_left_but_not_in_right current desired
  when (not (is_empty new_from_a)) (new new_from_a)
  when (not (is_empty old_from_b)) (old old_from_b)
