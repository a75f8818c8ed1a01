-- ===== src/Go/Effects.antt =====
-- A call with effects: a state that it may change, and a result, an error or a panic. The state
-- comes back in every case, since what was written stays written.
use topovgm.Prelude.{String, Bool, Option, none, some, if◌then◌else◌}
use topovgm.Go.Errors.{Error}

abbrev pub ⊤ : Type 0
⊤ = Unit

pub data Outcome {ℓ} (A : Type ℓ) : Type ℓ where
  ok : A → Outcome A
  -- A return of an error that is not nil.
  fail : Error → Outcome A
  -- A run-time panic: a failed type assertion, an index out of range or a nil dereference.
  panic : String → Outcome A

-- A function without effects that may fail or panic.
abbrev pub bind {ℓ κ} : {A : Type ℓ} {B : Type κ} → Outcome A → (A → Outcome B) → Outcome B
bind (ok a) f = f a
bind (fail e) f = fail e
bind (panic p) f = panic p

-- `if err != nil { return fmt.Errorf("...: %w", err) }`
abbrev pub map_error {ℓ} : {A : Type ℓ} → (Error → Error) → Outcome A → Outcome A
map_error f (ok a) = ok a
map_error f (fail e) = fail (f e)
map_error f (panic p) = panic p

-- A returned value of type `error`.
abbrev pub returned : Option Error → Outcome ⊤
returned none = ok tt
returned (some e) = fail e

abbrev pub M : Type 0 → Type 0 → Type 0
M W A = W → Outcome A × W

module _ {W A : Type 0} where
  abbrev pub pure : A → M W A
  pure a w = (ok a, w)

  -- A result that needs no state.
  abbrev pub lift : Outcome A → M W A
  lift r w = (r, w)

  -- A call that returns values only.
  abbrev pub reading : (W → A × W) → M W A
  reading f w = let (a, w') = f w in (ok a, w')

  abbrev pub wrapping : (Error → Error) → M W A → M W A
  wrapping f m w = let (r, w') = m w in (map_error f r, w')

infixl 5 ◌>>=◌ ◌>>◌
abbrev pub ◌>>=◌ : {W A B : Type 0} → M W A → (A → M W B) → M W B
◌>>=◌ m f w =
    let (r, w') = m w in elim r [ ok a ↦ f a w' | fail e ↦ (fail e, w') | panic p ↦ (panic p, w') ]

abbrev pub ◌>>◌ : {W B : Type 0} → M W ⊤ → M W B → M W B
m >> k = m >>= λ _. k

abbrev pub when : {W : Type 0} → Bool → M W ⊤ → M W ⊤
when b m = if b then m else pure tt

-- The returned error as a value, nil or not, that the caller goes on with.
abbrev pub as_value : {W : Type 0} → M W ⊤ → M W (Option Error)
as_value m w =
    let (r, w') = m w in
    elim r [ ok _ ↦ (ok none, w') | fail e ↦ (ok (some e), w') | panic p ↦ (panic p, w') ]
