-- ===== src/Go/Preserves.antt =====
-- What every call keeps of the state, whatever it returns.
use topovgm.Prelude.{◌≡◌, refl, Bool, true, false, Option, none, some, if◌then◌else◌}
use topovgm.Go.Errors.{Error}
use topovgm.Go.Effects.{
  ⊤, Outcome, ok, fail, panic, M, pure, lift, wrapping, when, as_value, ◌>>=◌, ◌>>◌,
}

module _ {W : Type 0} (Inv : W → Type 0) where
  -- The state that the call leaves has the property if the state before it has.
  pub record Preserves {A : Type 0} (m : M W A) : Type 0 where
    pub keeps : (w : W) → Inv w → Inv (m w).1

  pub pure-Preserves : {A : Type 0} (a : A) → Preserves (pure a)
  pure-Preserves a = record { keeps = λ w i. i }

  pub lift-Preserves : {A : Type 0} (r : Outcome A) → Preserves (lift r)
  lift-Preserves r = record { keeps = λ w i. i }

  abbrev resumed : {A B : Type 0} → (A → M W B) → Outcome A × W → Outcome B × W
  resumed f s = elim s.0 [ ok a ↦ f a s.1 | fail e ↦ (fail e, s.1) | panic p ↦ (panic p, s.1) ]

  resumed-Inv :
      {A B : Type 0} (f : A → M W B) (s : Outcome A × W)
      → ((a : A) → Preserves (f a))
      → Inv s.1
      → Inv (resumed f s).1
  resumed-Inv f (ok a, w) k i = (k a).keeps w i
  resumed-Inv f (fail e, w) k i = i
  resumed-Inv f (panic p, w) k i = i

  pub >>=-Preserves :
      {A B : Type 0} {m : M W A} {f : A → M W B}
      → Preserves m
      → ((a : A) → Preserves (f a))
      → Preserves (m >>= f)
  >>=-Preserves {m = m} {f = f} p k = record { keeps = λ w i. resumed-Inv f (m w) k (p.keeps w i) }

  pub >>-Preserves :
      {B : Type 0} {m : M W ⊤} {k : M W B} → Preserves m → Preserves k → Preserves (m >> k)
  >>-Preserves {m = m} {k = k} p q = record {
    keeps = λ w i. resumed-Inv (λ _. k) (m w) (λ _. q) (p.keeps w i);
  }

  abbrev valued : Outcome ⊤ × W → Outcome (Option Error) × W
  valued s = elim s.0 [
    | ok _ ↦ (ok none, s.1)
    | fail e ↦ (ok (some e), s.1)
    | panic p ↦ (panic p, s.1)
  ]

  valued-Inv : (s : Outcome ⊤ × W) → Inv s.1 → Inv (valued s).1
  valued-Inv (ok a, w) i = i
  valued-Inv (fail e, w) i = i
  valued-Inv (panic p, w) i = i

  pub as_value-Preserves : {m : M W ⊤} → Preserves m → Preserves (as_value m)
  as_value-Preserves {m = m} p = record { keeps = λ w i. valued-Inv (m w) (p.keeps w i) }

  pub wrapping-Preserves :
      {A : Type 0} (f : Error → Error) {m : M W A} → Preserves m → Preserves (wrapping f m)
  wrapping-Preserves f p = record { keeps = λ w i. p.keeps w i }

  pub if-Preserves :
      {A : Type 0} (b : Bool) {m n : M W A}
      → Preserves m
      → Preserves n
      → Preserves (if b then m else n)
  if-Preserves true p q = p
  if-Preserves false p q = q

  pub when-Preserves : (b : Bool) {m : M W ⊤} → Preserves m → Preserves (when b m)
  when-Preserves true p = p
  when-Preserves false p = pure-Preserves tt

  -- The same, where what follows depends on what the call returned.
  pub >>=-Inv :
      {A B : Type 0} (m : M W A) (f : A → M W B) (w : W)
      → Inv (m w).1
      → ((a : A) (v : W) → m w ≡ (ok a, v) → Inv v → Inv (f a v).1)
      → Inv ((m >>= f) w).1
  >>=-Inv {A} m f w i k = from (m w) refl i
    where
      from : (s : Outcome A × W) → m w ≡ s → Inv s.1 → Inv (resumed f s).1
      from (ok a, v) e j = k a v e j
      from (fail e', v) e j = j
      from (panic p, v) e j = j
