-- ===== src/Utils/Diff.antt =====
-- What a difference of two slices holds, and in which order.
use topovgm.Prelude.{
  List, [], ◌∷◌, ◌≡◌, refl, sym, ap, ◌∙◌, true, ◌&&◌, ◌||◌, not, Eq, contains, arith, if◌then◌else◌,
}
use topovgm.Utils.{set_of, keep_absent, in_left_but_not_in_right}

module _ {ℓ} {T : Type ℓ} ⦃e : Eq T⦄ where
  -- The reference: the elements of the left slice that the right one lacks, in order.
  abbrev pub without : List T → List T → List T
  without right [] = []
  without right (x ∷ left) =
      let rest = without right left in if contains right x then rest else x ∷ rest

  contains-set_of :
      (a : T) (seen right : List T)
      → contains (set_of seen right) a ≡ (contains right a || contains seen a)
  unfolding set_of
  contains-set_of a seen [] = refl
  contains-set_of a seen (x ∷ right) =
      ground (arith, contains-set_of a seen right, contains-set_of a (x ∷ seen) right)

  contains-set_of_nil : (a : T) (right : List T) → contains (set_of [] right) a ≡ contains right a
  contains-set_of_nil a right = ground (arith, contains-set_of a [] right)

  keep_absent-eq-without :
      (left right : List T) → keep_absent (set_of [] right) left ≡ without right left
  unfolding keep_absent
  keep_absent-eq-without [] right = refl
  keep_absent-eq-without (x ∷ left) right =
      ground (arith, contains-set_of_nil x right, keep_absent-eq-without left right)

  pub without-nil : (left : List T) → without [] left ≡ left
  without-nil [] = refl
  without-nil (x ∷ left) = ap (λ l. x ∷ l) (without-nil left)

  -- The early returns and the map make no difference: what is returned is the sublist of the left
  -- slice, in its order and with its repetitions, of the elements that the right slice lacks.
  pub in_left_but_not_in_right-eq-without :
      (left right : List T) → in_left_but_not_in_right left right ≡ without right left
  unfolding in_left_but_not_in_right
  in_left_but_not_in_right-eq-without [] right = refl
  in_left_but_not_in_right-eq-without (x ∷ left) [] = sym (without-nil (x ∷ left))
  in_left_but_not_in_right-eq-without (x ∷ left) (y ∷ right) =
      keep_absent-eq-without (x ∷ left) (y ∷ right)

  pub contains-without :
      (a : T) (left right : List T)
      → contains (without right left) a ≡ (contains left a && not (contains right a))
  contains-without a [] right = refl
  contains-without a (x ∷ left) right = ground (arith, contains-without a left right)

  -- An element is in the difference exactly when it is in the left slice and not in the right one.
  pub contains-in_left_but_not_in_right :
      (a : T) (left right : List T)
      → contains (in_left_but_not_in_right left right) a
        ≡ (contains left a && not (contains right a))
  contains-in_left_but_not_in_right a left right =
      rw in_left_but_not_in_right-eq-without (contains-without a left right)

  without-eq-nil :
      (left right : List T)
      → ((a : T) → contains left a ≡ true → contains right a ≡ true)
      → without right left ≡ []
  without-eq-nil [] right h = refl
  without-eq-nil (x ∷ left) right h =
      ground (arith, h x, without-eq-nil left right (λ a c. h a (ground arith)))

  -- Nothing is in the difference if the right slice holds all that the left one holds.
  pub in_left_but_not_in_right-eq-nil :
      (left right : List T)
      → ((a : T) → contains left a ≡ true → contains right a ≡ true)
      → in_left_but_not_in_right left right ≡ []
  in_left_but_not_in_right-eq-nil left right h =
      in_left_but_not_in_right-eq-without left right ∙ without-eq-nil left right h

  without_idem : (right left : List T) → without right (without right left) ≡ without right left
  without_idem right [] = refl
  without_idem right (x ∷ left) = ground (arith, without_idem right left)

  -- What is in the difference is all lacking.
  pub without-in_left_but_not_in_right :
      (left right : List T)
      → without right (in_left_but_not_in_right left right) ≡ in_left_but_not_in_right left right
  without-in_left_but_not_in_right left right =
      rw in_left_but_not_in_right-eq-without (without_idem right left)
