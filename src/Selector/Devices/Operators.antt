-- ===== src/Selector/Devices/Operators.antt =====
-- Terms with an operator that the program does not name.
use topovgm.Prelude.{String, ◌≡◌, refl, inl, inr, true, List, [], ◌∷◌, string_eq, contains, arith}
use topovgm.Go.{ok}
use topovgm.Api.Selector.{LsblkSelectorRequirement, PvSelectorTerm, other_operator}
use topovgm.Lsblk.{BlockDevice}
use topovgm.Selector.Quantity.{Quantities}
use topovgm.Selector.Requirement.{matches_lsblk_requirement}
use topovgm.Selector.Devices.{select}
use topovgm.Selector.Devices.Terms.{AnyOf, Meets, Picks, contains-select}

module _ (qs : Quantities) where
  -- Some requirement has an operator other than In, Exists, DoesNotExist and Gt.
  abbrev pub HasOtherOperator : List LsblkSelectorRequirement → Type 0
  HasOtherOperator = AnyOf (λ r. (s : String) × (r.operator ≡ other_operator s))

  not-Meets :
      (dev : BlockDevice) (rs : List LsblkSelectorRequirement)
      → HasOtherOperator rs
      → ¬ Meets qs dev rs
  unfolding matches_lsblk_requirement
  not-Meets dev [] h m = h
  not-Meets dev (r ∷ rs) (inl (s, e)) m = cc (rw e at (m.0))
  not-Meets dev (r ∷ rs) (inr h) m = not-Meets dev rs h m.1

  not-AnyOf :
      (term : PvSelectorTerm) (p : String) (devices : List BlockDevice)
      → HasOtherOperator term.match_lsblk
      → ¬ AnyOf (Picks qs term p) devices
  not-AnyOf term p [] h a = a
  not-AnyOf term p (dev ∷ devices) h (inl k) = not-Meets dev term.match_lsblk h k.0
  not-AnyOf term p (dev ∷ devices) h (inr a) = not-AnyOf term p devices h a

  -- A term with an operator other than In, Exists, DoesNotExist and Gt, NotIn or Lt among them,
  -- picks no device: a selection by it alone that returns without an error is empty, whatever its
  -- other requirements are and whatever devices there are.
  pub other_operator_selects_none :
      (term : PvSelectorTerm) (devices : List BlockDevice) {selected : List String}
      → HasOtherOperator term.match_lsblk
      → select qs (term ∷ []) devices ≡ ok selected
      → selected ≡ []
  other_operator_selects_none term devices {selected = selected} h e = none_of selected λ p c.
      elim ((contains-select qs p (term ∷ []) devices e).0 c) [
        | inl a ↦ not-AnyOf term p devices h a
        | inr a ↦ a
      ]
    where
      none_of : (l : List String) → ((p : String) → ¬ (contains l p ≡ true)) → l ≡ []
      none_of [] n = refl
      none_of (x ∷ l) n = absurd (n x (ground arith))
