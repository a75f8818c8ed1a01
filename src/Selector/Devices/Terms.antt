-- ===== src/Selector/Devices/Terms.antt =====
-- The loops of the selection: which device a term picks.
use topovgm.Prelude.{
  ℕ, ◌+◌, ◌≤◌, String, ◌≡◌, refl, ◌↔◌, ◌⊎◌, inl, inr, true, List, [], ◌∷◌, ◌++◌, length, string_eq,
  contains, arith, Bool-cases, contains-append,
}
use topovgm.Go.{Outcome, ok, fail, panic, bind}
use topovgm.Api.Selector.{LsblkSelectorRequirement, PvSelectorTerm, PhysicalVolumeSelector}
use topovgm.Lsblk.{BlockDevice, column_path, get_string}
use topovgm.Selector.Quantity.{Quantities}
use topovgm.Selector.Requirement.{matches_lsblk_requirement}
use topovgm.Selector.Devices.{count_matches, select_device, select_term, select}

-- Some element, and every element, by recursion on the list.
abbrev pub AnyOf : {A : Type 0} → (A → Type 0) → List A → Type 0
AnyOf P [] = ⊥
AnyOf P (x ∷ xs) = P x ⊎ AnyOf P xs

abbrev pub AllOf : {A : Type 0} → (A → Type 0) → List A → Type 0
AllOf P [] = Unit
AllOf P (x ∷ xs) = P x × AllOf P xs

module _ (qs : Quantities) where
  -- The device meets every requirement of the term.
  abbrev pub Meets : BlockDevice → List LsblkSelectorRequirement → Type 0
  Meets dev = AllOf (λ r. matches_lsblk_requirement qs dev r ≡ ok true)

  -- The term picks the device, whose path is `p`.
  abbrev pub Picks : PvSelectorTerm → String → BlockDevice → Type 0
  Picks term p dev = Meets dev term.match_lsblk × (get_string dev column_path ≡ ok (p, true))

  count_matches-le :
      (dev : BlockDevice) (rs : List LsblkSelectorRequirement) (n m : ℕ)
      → count_matches qs dev rs n ≡ ok m
      → m ≤ n + length rs
  unfolding count_matches
  count_matches-le dev [] n m h = ground arith
  count_matches-le dev (r ∷ rs) n m h =
      ground (arith, count_matches-le dev rs n m, count_matches-le dev rs (n + 1) m)

  count_matches-Meets :
      (dev : BlockDevice) (rs : List LsblkSelectorRequirement) (n m : ℕ)
      → Meets dev rs
      → m ≡ n + length rs
      → count_matches qs dev rs n ≡ ok m
  unfolding count_matches
  count_matches-Meets dev [] n m h e = ground arith
  count_matches-Meets dev (r ∷ rs) n m h e =
      ground (arith, count_matches-Meets dev rs (n + 1) m h.1)

  Meets-count_matches :
      (dev : BlockDevice) (rs : List LsblkSelectorRequirement) (n m : ℕ)
      → count_matches qs dev rs n ≡ ok m
      → m ≡ n + length rs
      → Meets dev rs
  unfolding count_matches
  Meets-count_matches dev [] n m h e = tt
  Meets-count_matches dev (r ∷ rs) n m h e =
      ground (arith, count_matches-le dev rs n m, Meets-count_matches dev rs (n + 1) m)

module _ (qs : Quantities) (p : String) where
  select_device-count :
      (term : PvSelectorTerm) (dev : BlockDevice) {l : List String}
      → select_device qs term dev ≡ ok l
      → contains l p ≡ true
      → count_matches qs dev term.match_lsblk 0 ≡ ok (0 + length term.match_lsblk)
  unfolding select_device
  select_device-count term dev h c = ground arith

  -- What one round of the inner loop appends is the path of the device, if the term picks it.
  select_device-Picks :
      (term : PvSelectorTerm) (dev : BlockDevice) {l : List String}
      → select_device qs term dev ≡ ok l
      → contains l p ≡ true
      → Picks qs term p dev
  unfolding select_device
  select_device-Picks term dev h c = (
    Meets-count_matches qs dev term.match_lsblk 0 _ (select_device-count term dev h c) refl,
    ground arith,
  )

  Picks-select_device :
      (term : PvSelectorTerm) (dev : BlockDevice) {l : List String}
      → select_device qs term dev ≡ ok l
      → Picks qs term p dev
      → contains l p ≡ true
  unfolding select_device
  Picks-select_device term dev h (m, path) =
      ground (arith, count_matches-Meets qs dev term.match_lsblk 0 _ m refl)

-- What two appended results are made of.
appended :
    (r s : Outcome (List String)) {l : List String}
    → (bind r λ here. bind s λ later. ok (here ++ later)) ≡ ok l
    → (here later : List String) × (r ≡ ok here) × (s ≡ ok later) × (here ++ later ≡ l)
appended (ok here) (ok later) h = (here, later, refl, refl, ground arith)
appended (ok here) (fail e) h = cc
appended (ok here) (panic e) h = cc
appended (fail e) s h = cc
appended (panic e) s h = cc

module _ (p : String) where
  contains_appended :
      {P Q : Type 0} (here later : List String) {l : List String}
      → here ++ later ≡ l
      → (contains here p ≡ true) ↔ P
      → (contains later p ≡ true) ↔ Q
      → (contains l p ≡ true) ↔ (P ⊎ Q)
  contains_appended here later {l} e f g = (
    λ c. elim (Bool-cases (contains here p)) [
      | inl y ↦ inl (f.0 y)
      | inr n ↦ inr (g.0 (ground (arith, contains-append p here later)))
    ],
    elim [
      | inl x ↦ ground (arith, contains-append p here later, f.1 x)
      | inr x ↦ ground (arith, contains-append p here later, g.1 x)
    ],
  )

module _ (qs : Quantities) (p : String) where
  contains-select_term :
      (term : PvSelectorTerm) (devices : List BlockDevice) {l : List String}
      → select_term qs term devices ≡ ok l
      → (contains l p ≡ true) ↔ AnyOf (Picks qs term p) devices
  unfolding select_term
  contains-select_term term [] h = (λ c. ground arith, λ a. absurd a)
  contains-select_term term (dev ∷ devices) h =
      let (here, later, r, s, e) = appended (select_device qs term dev) _ h in
      contains_appended p here later e
        (select_device-Picks qs p term dev r, Picks-select_device qs p term dev r)
        (contains-select_term term devices s)

  pub contains-select :
      (selector : PhysicalVolumeSelector) (devices : List BlockDevice) {l : List String}
      → select qs selector devices ≡ ok l
      → (contains l p ≡ true) ↔ AnyOf (λ term. AnyOf (Picks qs term p) devices) selector
  unfolding select
  contains-select [] devices h = (λ c. ground arith, λ a. absurd a)
  contains-select (term ∷ selector) devices h =
      let (here, later, r, s, e) = appended (select_term qs term devices) _ h in
      contains_appended p here later e (contains-select_term term devices r)
        (contains-select selector devices s)
