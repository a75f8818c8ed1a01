-- ===== src/Controller/Convergence/Commands.antt =====
-- Running a plan whose commands succeed.
use mathlib.Core.List.{append-nil}
use topovgm.Prelude.{String, ◌≡◌, refl, ap, sym, ◌∙◌, List, [], ◌∷◌, ◌++◌, string_eq}
use topovgm.Go.{⊤, Outcome, ok, >>=-ok, >>=-eq-ok}
use topovgm.Utils.Diff.{without, without-nil}
use topovgm.Api.Spec.{DeviceRemovalVolumePolicy, move_and_reduce, reduce}
use topovgm.Lvm.{LvmTypes, Command}
use topovgm.Controller.Platform.{Platform, Resource, Host}
use topovgm.Controller.Syncers.{run}
use topovgm.Controller.Plan.{
  unless_empty, add_tags, remove_tags, extend, moves, moves_first, removal, execute,
}
use topovgm.Controller.Convergence.{MayChange}
use topovgm.Controller.Convergence.{Group, apply, Documents}

abbrev pub AllOf : {A : Type 0} → (A → Type 0) → List A → Type 0
AllOf Q [] = Unit
AllOf Q (x ∷ xs) = Q x × AllOf Q xs

pub AllOf-append :
    {A : Type 0} (Q : A → Type 0) (xs ys : List A) → AllOf Q xs → AllOf Q ys → AllOf Q (xs ++ ys)
AllOf-append Q [] ys p q = q
AllOf-append Q (x ∷ xs) ys p q = (p.0, AllOf-append Q xs ys p.1 q)

module _ (T : LvmTypes) where
  abbrev pub apply_all : List (Command T) → Group → Group
  apply_all [] g = g
  apply_all (c ∷ cs) g = apply_all cs (apply T c g)

  pub apply_all-append :
      (cs ds : List (Command T)) (g : Group)
      → apply_all (cs ++ ds) g ≡ apply_all ds (apply_all cs g)
  apply_all-append [] ds g = refl
  apply_all-append (c ∷ cs) ds g = apply_all-append cs ds (apply T c g)

  pub apply_all-add_tags :
      (name : String) (xs : List String) (g : Group)
      → without g.tags xs ≡ xs
      → apply_all (unless_empty (add_tags T name) xs) g ≡ record g { tags = g.tags ++ xs }
  apply_all-add_tags name [] g new = ap (λ l. record g { tags = l }) (sym (append-nil g.tags))
  apply_all-add_tags name (x ∷ xs) g new = ap (λ l. record g { tags = g.tags ++ l }) new

  pub apply_all-remove_tags :
      (name : String) (xs : List String) (g : Group)
      → apply_all (unless_empty (remove_tags T name) xs) g ≡ record g { tags = without xs g.tags }
  apply_all-remove_tags name [] g = ap (λ l. record g { tags = l }) (sym (without-nil g.tags))
  apply_all-remove_tags name (x ∷ xs) g = refl

  pub apply_all-extend :
      (name : String) (xs : List String) (g : Group)
      → apply_all (unless_empty (extend T name) xs) g ≡ record g { volumes = g.volumes ++ xs }
  apply_all-extend name [] g = ap (λ l. record g { volumes = l }) (sym (append-nil g.volumes))
  apply_all-extend name (x ∷ xs) g = refl

  apply_all-moves :
      (desired names : List String) (g : Group) → apply_all (moves T desired names) g ≡ g
  apply_all-moves desired [] g = refl
  apply_all-moves desired (pv ∷ names) g = apply_all-moves desired names g

  apply_all-moves_first :
      (policy : DeviceRemovalVolumePolicy) (desired names : List String) (g : Group)
      → apply_all (moves_first T policy desired names) g ≡ g
  apply_all-moves_first move_and_reduce desired names g = apply_all-moves desired names g
  apply_all-moves_first reduce desired names g = refl
  apply_all-moves_first _ desired names g = refl

  pub apply_all-removal :
      (policy : DeviceRemovalVolumePolicy) (name : String) (desired xs : List String) (g : Group)
      → apply_all (unless_empty (removal T policy name desired) xs) g
        ≡ record g { volumes = without xs g.volumes }
  apply_all-removal policy name desired [] g =
      ap (λ l. record g { volumes = l }) (sym (without-nil g.volumes))
  apply_all-removal policy name desired (x ∷ xs) g =
      apply_all-append (moves_first T policy desired (x ∷ xs)) _ g
      ∙ ap (λ (k : Group). record k { volumes = without (x ∷ xs) k.volumes })
          (apply_all-moves_first policy desired (x ∷ xs) g)

module _ (P : Platform) {W : Type 0} (h : Host P W) where
  pub execute-append :
      (cs ds : List (Command P.lvm)) (w w' : W)
      → execute P h (cs ++ ds) w ≡ (ok tt, w')
      → (v : W) × (execute P h cs w ≡ (ok tt, v)) × (execute P h ds v ≡ (ok tt, w'))
  unfolding execute
  execute-append [] ds w w' ran = (w, refl, ran)
  execute-append (c ∷ cs) ds w w' ran =
      let (u, w1, first, rest) = >>=-eq-ok (run P h c) (λ _. execute P h (cs ++ ds)) w ran in
      let (v, others, last) = execute-append cs ds w1 w' rest in
      (v, >>=-ok (run P h c) (λ _. execute P h cs) w first ∙ others, last)

  pub append-execute :
      (cs ds : List (Command P.lvm)) (w v w' : W)
      → execute P h cs w ≡ (ok tt, v)
      → execute P h ds v ≡ (ok tt, w')
      → execute P h (cs ++ ds) w ≡ (ok tt, w')
  unfolding execute
  append-execute [] ds w v w' first rest =
      ap (λ (out : Outcome ⊤ × W). execute P h ds out.1) first ∙ rest
  append-execute (c ∷ cs) ds w v w' first rest =
      let (u, w1, ran, others) = >>=-eq-ok (run P h c) (λ _. execute P h cs) w first in
      >>=-ok (run P h c) (λ _. execute P h (cs ++ ds)) w ran
      ∙ append-execute cs ds w1 v w' others rest

  pub execute-one :
      (c : Command P.lvm) (w w' : W)
      → execute P h (c ∷ []) w ≡ (ok tt, w')
      → run P h c w ≡ (ok tt, w')
  unfolding execute
  execute-one c w w' ran =
      let (u, w1, first, rest) = >>=-eq-ok (run P h c) (λ _. execute P h []) w ran in first ∙ rest

module _ (P : Platform) {W : Type 0} (h : Host P W) {view : W → Group} (vg : Resource P)
    (documents : Documents P h view vg) where
  -- If all commands of a plan succeed, the volume group is what they make of it.
  pub execute-apply_all :
      (cs : List (Command P.lvm)) (w w' : W)
      → AllOf (MayChange P vg) cs
      → execute P h cs w ≡ (ok tt, w')
      → view w' ≡ apply_all P.lvm cs (view w)
  unfolding execute
  execute-apply_all [] w w' may ran = ap (λ (out : Outcome ⊤ × W). view out.1) (sym ran)
  execute-apply_all (c ∷ cs) w w' (m, may) ran =
      let (u, v, first, rest) = >>=-eq-ok (run P h c) (λ _. execute P h cs) w ran in
      execute-apply_all cs v w' may rest ∙ ap (apply_all P.lvm cs) (documents c w v m first)
