-- ===== src/Go/Inversion.antt =====
-- What a call that returned without an error went through, for proofs where the parts stay shut.
use topovgm.Prelude.{String, ◌≡◌, refl, ap, Option, none, some}
use topovgm.Go.Errors.{Error}
use topovgm.Go.Effects.{⊤, as_value, Outcome, ok, fail, panic, bind, M, wrapping, ◌>>=◌, map_error}

pub bind-eq-ok :
    {A B : Type 0} (r : Outcome A) (f : A → Outcome B) {b : B}
    → bind r f ≡ ok b
    → (a : A) × (r ≡ ok a) × (f a ≡ ok b)
bind-eq-ok (ok a) f h = (a, refl, h)
bind-eq-ok (fail e) f h = cc
bind-eq-ok (panic p) f h = cc

resumed :
    {W A B : Type 0} (s : Outcome A × W) (f : A → M W B) {b : B} {w' : W}
    → (elim s.0 [ ok a ↦ f a s.1 | fail e ↦ (fail e, s.1) | panic p ↦ (panic p, s.1) ]) ≡ (ok b, w')
    → (a : A) × (w : W) × (s ≡ (ok a, w)) × (f a w ≡ (ok b, w'))
resumed (ok a, w) f h = (a, w, refl, h)
resumed (fail e, w) f h = cc
resumed (panic p, w) f h = cc

pub >>=-eq-ok :
    {W A B : Type 0} (m : M W A) (f : A → M W B) (w : W) {b : B} {w' : W}
    → (m >>= f) w ≡ (ok b, w')
    → (a : A) × (v : W) × (m w ≡ (ok a, v)) × (f a v ≡ (ok b, w'))
>>=-eq-ok m f w h = resumed (m w) f h

unwrapped :
    {W A : Type 0} (f : Error → Error) (s : Outcome A × W) {a : A} {w' : W}
    → ◌≡◌ {A = Outcome A × W} (map_error f s.0, s.1) (ok a, w')
    → s ≡ (ok a, w')
unwrapped f (ok a, w) h = h
unwrapped f (fail e, w) h = cc
unwrapped f (panic p, w) h = cc

pub wrapping-eq-ok :
    {W A : Type 0} (f : Error → Error) (m : M W A) (w : W) {a : A} {w' : W}
    → wrapping f m w ≡ (ok a, w')
    → m w ≡ (ok a, w')
wrapping-eq-ok f m w h = unwrapped f (m w) h

-- The same read forwards.
module _ {W A B : Type 0} (m : M W A) (f : A → M W B) (w : W) where
  resume : Outcome A × W → Outcome B × W
  resume s = elim s.0 [ ok a ↦ f a s.1 | fail e ↦ (fail e, s.1) | panic p ↦ (panic p, s.1) ]

  pub >>=-ok : {a : A} {v : W} → m w ≡ (ok a, v) → (m >>= f) w ≡ f a v
  unfolding resume
  >>=-ok h = ap resume h

  pub >>=-fail : {e : Error} {v : W} → m w ≡ (fail e, v) → (m >>= f) w ≡ (fail e, v)
  unfolding resume
  >>=-fail h = ap resume h

  pub >>=-panic : {p : String} {v : W} → m w ≡ (panic p, v) → (m >>= f) w ≡ (panic p, v)
  unfolding resume
  >>=-panic h = ap resume h

module _ {W A : Type 0} (f : Error → Error) (m : M W A) (w : W) where
  wrap_state : Outcome A × W → Outcome A × W
  wrap_state s = (map_error f s.0, s.1)

  pub wrapping-ok : {a : A} {v : W} → m w ≡ (ok a, v) → wrapping f m w ≡ (ok a, v)
  unfolding wrap_state
  wrapping-ok h = ap wrap_state h

  pub wrapping-fail : {e : Error} {v : W} → m w ≡ (fail e, v) → wrapping f m w ≡ (fail (f e), v)
  unfolding wrap_state
  wrapping-fail h = ap wrap_state h

  pub wrapping-panic : {p : String} {v : W} → m w ≡ (panic p, v) → wrapping f m w ≡ (panic p, v)
  unfolding wrap_state
  wrapping-panic h = ap wrap_state h

module _ {W : Type 0} (m : M W ⊤) (w : W) where
  value_state : Outcome ⊤ × W → Outcome (Option Error) × W
  value_state s = elim s.0 [
    | ok _ ↦ (ok none, s.1)
    | fail e ↦ (ok (some e), s.1)
    | panic p ↦ (panic p, s.1)
  ]

  pub as_value-ok : {v : W} → m w ≡ (ok tt, v) → as_value m w ≡ (ok none, v)
  unfolding value_state
  as_value-ok h = ap value_state h

  pub as_value-fail : {e : Error} {v : W} → m w ≡ (fail e, v) → as_value m w ≡ (ok (some e), v)
  unfolding value_state
  as_value-fail h = ap value_state h

  pub as_value-panic : {p : String} {v : W} → m w ≡ (panic p, v) → as_value m w ≡ (panic p, v)
  unfolding value_state
  as_value-panic h = ap value_state h
