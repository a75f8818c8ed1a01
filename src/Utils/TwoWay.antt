-- ===== src/Utils/TwoWay.antt =====
-- The two-way synchronisation, over callbacks that add to and remove from what a state shows.
use mathlib.Core.Path.{subst}
use topovgm.Prelude.{
  ap, sym, ◌⊎◌, inl, inr, ◌↔◌, List, [], ◌∷◌, ◌≡◌, refl, ◌∙◌, ◌&&◌, ◌||◌, not, Eq, contains, arith,
}
use topovgm.Go.{⊤, Outcome, ok, fail, panic, M, pure, lift, when, ◌>>◌, >>=-ok}
use topovgm.Utils.{is_empty, in_left_but_not_in_right, sequential_two_way_sync}
use topovgm.Utils.Diff.{
  without, in_left_but_not_in_right-eq-without, contains-in_left_but_not_in_right,
}

module _ {ℓ} {T : Type ℓ} {W : Type 0} ⦃e : Eq T⦄ (view : W → List T)
    (new old : List T → M W ⊤) where
  -- `new` succeeds and adds the elements that it is given to what the state shows.
  abbrev pub Adds : Type ℓ
  Adds =
      (xs : List T) (w : W)
      → (w' : W) × (new xs w ≡ (ok tt, w'))
        × ((a : T) → contains (view w') a ≡ (contains (view w) a || contains xs a))

  -- `old` succeeds and removes them.
  abbrev pub Removes : Type ℓ
  Removes =
      (xs : List T) (w : W)
      → (w' : W) × (old xs w ≡ (ok tt, w'))
        × ((a : T) → contains (view w') a ≡ (contains (view w) a && not (contains xs a)))

  added :
      Adds
      → (xs : List T) (w : W)
      → (w' : W) × (when (not (is_empty xs)) (new xs) w ≡ (ok tt, w'))
        × ((a : T) → contains (view w') a ≡ (contains (view w) a || contains xs a))
  added adds [] w = (w, refl, λ a. ground arith)
  added adds (x ∷ xs) w = adds (x ∷ xs) w

  removed :
      Removes
      → (xs : List T) (w : W)
      → (w' : W) × (when (not (is_empty xs)) (old xs) w ≡ (ok tt, w'))
        × ((a : T) → contains (view w') a ≡ (contains (view w) a && not (contains xs a)))
  removed removes [] w = (w, refl, λ a. ground arith)
  removed removes (x ∷ xs) w = removes (x ∷ xs) w

  -- From any state, the synchronisation succeeds and leaves a state that shows exactly the desired
  -- elements, if the callbacks succeed and add and remove what they are given.
  pub sequential_two_way_sync_converges :
      Adds
      → Removes
      → (desired : List T) (w : W)
      → (w' : W) × (sequential_two_way_sync desired (view w) new old w ≡ (ok tt, w'))
        × ((a : T) → contains (view w') a ≡ contains desired a)
  unfolding sequential_two_way_sync
  sequential_two_way_sync_converges adds removes desired w =
      let new_from_a = in_left_but_not_in_right desired (view w) in
      let old_from_b = in_left_but_not_in_right (view w) desired in
      let (w1, ran, shown) = added adds new_from_a w in
      let (w2, ran', shown') = removed removes old_from_b w1 in
      (
        w2,
        >>=-ok (when (not (is_empty new_from_a)) (new new_from_a))
              (λ _. when (not (is_empty old_from_b)) (old old_from_b)) w ran
            ∙ ran',
        λ a. ground (
          arith,
          shown a,
          shown' a,
          contains-in_left_but_not_in_right a desired (view w),
          contains-in_left_but_not_in_right a (view w) desired,
        ),
      )

abbrev pub IsError : Outcome ⊤ → Type 0
IsError (ok _) = ⊥
IsError (fail _) = Unit
IsError (panic _) = Unit

-- A sequence ends with its first call if that does not succeed, and else with its second one.
abbrev Ends : {W : Type 0} → Outcome ⊤ × W → M W ⊤ → Outcome ⊤ → W → Type 0
Ends {W} out k r w' =
    (IsError r × (out ≡ (r, w'))) ⊎ ((w1 : W) × (out ≡ (ok tt, w1)) × (k w1 ≡ (r, w')))

>>-Ends :
    {W : Type 0} (m k : M W ⊤) (w : W) (r : Outcome ⊤) (w' : W)
    → ((m >> k) w ≡ (r, w')) ↔ Ends (m w) k r w'
>>-Ends {W} m k w r w' = from (m w)
  where
    from : (out : Outcome ⊤ × W) → ((lift out.0 >> k) out.1 ≡ (r, w')) ↔ Ends out k r w'
    from (ok tt, v) = (
      λ e. inr (v, refl, e),
      λ c. elim c [
        | inl (i, e) ↦ absurd (subst IsError (sym (ap (λ o. o.0) e)) i)
        | inr (w1, e, e') ↦ subst (λ u. k u ≡ (r, w')) (sym (ap (λ o. o.1) e)) e'
      ],
    )
    from (fail x, v) = (
      λ e. inl (subst IsError (ap (λ o. o.0) e) tt, e),
      λ c. elim c [ inl (i, e) ↦ e | inr (w1, e, e') ↦ cc ],
    )
    from (panic x, v) = (
      λ e. inl (subst IsError (ap (λ o. o.0) e) tt, e),
      λ c. elim c [ inl (i, e) ↦ e | inr (w1, e, e') ↦ cc ],
    )

module _ {ℓ} {T : Type ℓ} {W : Type 0} ⦃e : Eq T⦄ where
  -- A callback is called if there is anything to call it with, and returns `r` in the state `w'`.
  abbrev pub Called : (List T → M W ⊤) → List T → W → Outcome ⊤ → W → Type 0
  Called call [] w r w' = ◌≡◌ {A = Outcome ⊤ × W} (ok tt, w) (r, w')
  Called call (x ∷ xs) w r w' = call (x ∷ xs) w ≡ (r, w')

  abbrev pub Runs :
      (new old : List T → M W ⊤) (added removed : List T) (w : W) (r : Outcome ⊤) (w' : W) → Type 0
  Runs new old added removed w r w' =
      (IsError r × Called new added w r w')
      ⊎ ((w1 : W) × Called new added w (ok tt) w1 × Called old removed w1 r w')

  in_turn-Runs :
      (new old : List T → M W ⊤) (added removed : List T) (w : W) (r : Outcome ⊤) (w' : W)
      → ((when (not (is_empty added)) (new added) >> when (not (is_empty removed)) (old removed)) w
          ≡ (r, w'))
        ↔ Runs new old added removed w r w'
  in_turn-Runs new old [] [] w r w' = >>-Ends (pure tt) (pure tt) w r w'
  in_turn-Runs new old [] (y ∷ removed) w r w' = >>-Ends (pure tt) (old (y ∷ removed)) w r w'
  in_turn-Runs new old (x ∷ added) [] w r w' = >>-Ends (new (x ∷ added)) (pure tt) w r w'
  in_turn-Runs new old (x ∷ added) (y ∷ removed) w r w' =
      >>-Ends (new (x ∷ added)) (old (y ∷ removed)) w r w'

  -- What the synchronisation returns, and the state that it leaves, are those of `new` if that does
  -- not succeed, and `old` is not called then; and else those of `old`, called in the state that `new`
  -- leaves. `new` is given the desired elements that are not there and `old` those that are not
  -- desired, and neither is called with none.
  pub sequential_two_way_sync-Runs :
      (desired current : List T) (new old : List T → M W ⊤) (w : W) (r : Outcome ⊤) (w' : W)
      → (sequential_two_way_sync desired current new old w ≡ (r, w'))
        ↔ Runs new old (without current desired) (without desired current) w r w'
  unfolding sequential_two_way_sync
  sequential_two_way_sync-Runs desired current new old w r w' =
      rw
        (
          ← in_left_but_not_in_right-eq-without desired current,
          ← in_left_but_not_in_right-eq-without current desired,
        )
        (in_turn-Runs new old (in_left_but_not_in_right desired current)
          (in_left_but_not_in_right current desired) w r w')
