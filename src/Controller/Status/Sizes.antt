-- ===== src/Controller/Status/Sizes.antt =====
-- Assignments of converted sizes, one after another.
use topovgm.Prelude.{◌≡◌, refl, sym, ap, ◌∙◌, Option, none, some, List, [], ◌∷◌}
use topovgm.Go.{⊤, Outcome, ok, fail, panic, M, ◌>>=◌}
use topovgm.Lvm.{LvmTypes}
use topovgm.Controller.Platform.{Platform, Quantity}
use topovgm.Controller.Convert.{convert_size_to_quantity}
use topovgm.Controller.Status.{assign_size}

module _ (P : Platform) where
  -- Sizes that are assigned one after another, and then what is assigned last.
  abbrev pub assign_sizes :
      {S : Type 0} → List (LvmTypes.Size P.lvm × (Option (Quantity P) → S → S)) → M S ⊤ → M S ⊤
  assign_sizes [] rest = rest
  assign_sizes ((size, put) ∷ sizes) rest = assign_size P size put >>= λ _. assign_sizes sizes rest

  -- Each of the sizes was converted, and the states between them lead from one state to the other.
  abbrev pub Assigned :
      {S : Type 0} → List (LvmTypes.Size P.lvm × (Option (Quantity P) → S → S)) → S → S → Type 0
  Assigned [] s s' = s ≡ s'
  Assigned ((size, put) ∷ sizes) s s' =
      (q : Quantity P) × (convert_size_to_quantity P size ≡ ok q)
      × Assigned sizes (put (some q) s) s'

  abbrev pub put_result :
      {S : Type 0} → Outcome (Quantity P) → (Option (Quantity P) → S → S) → M S ⊤
  put_result r put s = elim r [
    | ok q ↦ (ok tt, put (some q) s)
    | fail e ↦ (fail e, put none s)
    | panic p ↦ (panic p, s)
  ]

  put_result-ok :
      {S : Type 0} (r : Outcome (Quantity P)) (put : Option (Quantity P) → S → S) (rest : M S ⊤)
      (s : S)
      → ((put_result r put >>= λ _. rest) s).0 ≡ ok tt
      → (q : Quantity P) × (r ≡ ok q) × ((put_result r put >>= λ _. rest) s ≡ rest (put (some q) s))
  put_result-ok (ok q) put rest s h = (q, refl, refl)
  put_result-ok (fail x) put rest s h = cc
  put_result-ok (panic x) put rest s h = cc

  -- If assignments of sizes succeed, each of the sizes was converted.
  pub assign_sizes-Assigned :
      {S : Type 0} (sizes : List (LvmTypes.Size P.lvm × (Option (Quantity P) → S → S)))
      (rest : M S ⊤) (s : S)
      → (assign_sizes sizes rest s).0 ≡ ok tt
      → (s' : S) × Assigned sizes s s' × (assign_sizes sizes rest s ≡ rest s')
  assign_sizes-Assigned [] rest s h = (s, refl, refl)
  assign_sizes-Assigned ((size, put) ∷ sizes) rest s h =
      let (q, e, same) =
        put_result-ok (convert_size_to_quantity P size) put (assign_sizes sizes rest) s h in
      let (s', assigned, end) =
        assign_sizes-Assigned sizes rest (put (some q) s) (sym (ap (λ o. o.0) same) ∙ h) in
      (s', (q, e, assigned), same ∙ end)
