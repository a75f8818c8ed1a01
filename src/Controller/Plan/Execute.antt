-- ===== src/Controller/Plan/Execute.antt =====
-- Running plans one after another, and two-way synchronisations that run plans.
use mathlib.Core.Path.{fun_ext}
use topovgm.Prelude.{String, ◌≡◌, refl, sym, ◌∙◌, ap, not, List, [], ◌∷◌, ◌++◌, string_eq}
use topovgm.Go.{⊤, Outcome, ok, fail, panic, M, pure, when, ◌>>=◌, ◌>>◌}
use topovgm.Utils.{is_empty, in_left_but_not_in_right, sequential_two_way_sync}
use topovgm.Lvm.{Command}
use topovgm.Controller.Platform.{Platform, Host}
use topovgm.Controller.Syncers.{run}
use topovgm.Controller.Plan.{unless_empty, execute}

module _ {W : Type 0} where
  abbrev pub resume : {A B : Type 0} → (A → M W B) → Outcome A × W → Outcome B × W
  resume f s = elim s.0 [ ok a ↦ f a s.1 | fail e ↦ (fail e, s.1) | panic p ↦ (panic p, s.1) ]

  resume-pure : (s : Outcome ⊤ × W) → resume (λ _. pure tt) s ≡ s
  resume-pure (ok tt, w) = refl
  resume-pure (fail e, w) = refl
  resume-pure (panic p, w) = refl

  resume-resume :
      {A : Type 0} (k : M W ⊤) (l : M W A) (s : Outcome ⊤ × W)
      → resume (λ _. l) (resume (λ _. k) s) ≡ resume (λ _. k >>= λ _. l) s
  resume-resume k l (ok a, w) = refl
  resume-resume k l (fail e, w) = refl
  resume-resume k l (panic p, w) = refl

module _ (P : Platform) {W : Type 0} (h : Host P W) where
  pub execute_one : (c : Command P.lvm) (w : W) → execute P h (c ∷ []) w ≡ run P h c w
  unfolding execute
  execute_one c w = resume-pure (run P h c w)

  pub execute-append :
      (a b : List (Command P.lvm)) (w : W)
      → execute P h (a ++ b) w ≡ (execute P h a >> execute P h b) w
  unfolding execute
  execute-append [] b w = refl
  execute-append (c ∷ a) b w =
      ap (λ k. resume (λ _. k) (run P h c w)) (fun_ext (execute-append a b))
      ∙ sym (resume-resume (execute P h a) (execute P h b) (run P h c w))

  when-unless_empty :
      (m : List String → M W ⊤) (plan : List String → List (Command P.lvm)) (xs : List String)
      → ((xs : List String) (w : W) → m xs w ≡ execute P h (plan xs) w)
      → (w : W) → when (not (is_empty xs)) (m xs) w ≡ execute P h (unless_empty plan xs) w
  unfolding execute
  when-unless_empty m plan [] e w = refl
  when-unless_empty m plan (x ∷ xs) e w = e (x ∷ xs) w

  pub sequential_two_way_sync-execute :
      (desired current : List String) (new old : List String → M W ⊤)
      (new_plan old_plan : List String → List (Command P.lvm))
      → ((xs : List String) (w : W) → new xs w ≡ execute P h (new_plan xs) w)
      → ((xs : List String) (w : W) → old xs w ≡ execute P h (old_plan xs) w)
      → (w : W)
      → sequential_two_way_sync desired current new old w
        ≡ execute P h
            (unless_empty new_plan (in_left_but_not_in_right desired current)
              ++ unless_empty old_plan (in_left_but_not_in_right current desired))
            w
  unfolding sequential_two_way_sync
  sequential_two_way_sync-execute desired current new old new_plan old_plan n o w =
      let new_from_a = in_left_but_not_in_right desired current in
      let old_from_b = in_left_but_not_in_right current desired in
      ap (λ k. resume (λ _. k) (when (not (is_empty new_from_a)) (new new_from_a) w))
        (fun_ext (when-unless_empty old old_plan old_from_b o))
      ∙ ap (resume (λ _. execute P h (unless_empty old_plan old_from_b)))
          (when-unless_empty new new_plan new_from_a n w)
      ∙ sym (execute-append (unless_empty new_plan new_from_a) _ w)
