-- ===== src/Manager/Process.antt =====
-- A process that may end with an exit status instead of a result.
use topovgm.Prelude.{ℕ}
use topovgm.Go.{⊤, Error, ok, fail, panic, M}

pub data Ended (A : Type 0) : Type 0 where
  returned : A → Ended A
  -- `os.Exit`
  exited : ℕ → Ended A

abbrev pub Process : Type 0 → Type 0 → Type 0
Process W A = W → Ended A × W

abbrev pub pure : {W A : Type 0} → A → Process W A
pure a w = (returned a, w)

infixl 5 ◌>>=◌ ◌>>◌
unfoldable pub ◌>>=◌ : {W A B : Type 0} → Process W A → (A → Process W B) → Process W B
◌>>=◌ m f w = let (r, w') = m w in elim r [ returned a ↦ f a w' | exited n ↦ (exited n, w') ]

abbrev pub ◌>>◌ : {W B : Type 0} → Process W ⊤ → Process W B → Process W B
m >> k = m >>= λ _. k

-- A statement that only acts on the world, such as a line of the log.
abbrev pub acting : {W : Type 0} → (W → W) → Process W ⊤
acting f w = (returned tt, f w)

-- What reads the world.
abbrev pub asking : {W A : Type 0} → (W → A) → Process W A
asking f w = (returned (f w), w)

-- A panic ends a Go program with status 2.
abbrev panicked : ℕ
panicked = 2

-- `if err != nil { setupLog.Error(err, text); os.Exit(1) }`
unfoldable pub or_exit : {W A : Type 0} → (Error → W → W) → M W A → Process W A
or_exit log m w =
    let (r, w') = m w in
    elim r [
      | ok a ↦ (returned a, w')
      | fail e ↦ (exited 1, log e w')
      | panic p ↦ (exited panicked, w')
    ]

-- `utilruntime.Must`, which panics at an error.
unfoldable pub must : {W A : Type 0} → M W A → Process W A
must m w =
    let (r, w') = m w in
    elim r [
      | ok a ↦ (returned a, w')
      | fail e ↦ (exited panicked, w')
      | panic p ↦ (exited panicked, w')
    ]
