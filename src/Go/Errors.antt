-- ===== src/Go/Errors.antt =====
-- Error values: `fmt.Errorf`, `errors.Join`, `errors.Is` and `Error()`.
use Prim.Native.Nat.{compare, Ordering}
use topovgm.Prelude.{ℕ, String, ◌<>◌, Bool, true, false, ◌||◌, Option, none, some, List, [], ◌∷◌}

mutual
  pub data Error : Type 0 where
    -- An error value made outside of the program: its identity, as `==` on the interface compares
    -- it, and its text.
    external : ℕ → String → Error
    -- `fmt.Errorf` without `%w`.
    message : String → Error
    -- `fmt.Errorf("text: %w", err)`.
    wrapped : String → Error → Error
    -- What `errors.Join` makes of at least one error.
    joined : Error → Errors → Error

  pub data Errors : Type 0 where
    end : Errors
    also : Error → Errors → Errors

-- `err.Error()`
unfoldable mutual
  pub text : Error → String
  text (external _ s) = s
  text (message s) = s
  text (wrapped s e) = s <> ": " <> text e
  text (joined e es) = text e <> texts es

  pub texts : Errors → String
  texts end = ""
  texts (also e es) = "\n" <> text e <> texts es

abbrev same_identity : ℕ → ℕ → Bool
same_identity a b = elim (compare a b) [ Ordering.eq ↦ true | _ ↦ false ]

-- `errors.Is(err, target)` for a target that is an error value made outside of the program.
unfoldable mutual
  pub is_error : Error → ℕ → Bool
  is_error (external i _) target = same_identity i target
  is_error (message _) target = false
  is_error (wrapped _ e) target = is_error e target
  is_error (joined e es) target = is_error e target || is_any_error es target

  pub is_any_error : Errors → ℕ → Bool
  is_any_error end target = false
  is_any_error (also e es) target = is_error e target || is_any_error es target

-- The errors among values of type `error`, of which `none` is nil.
abbrev non_nil : List (Option Error) → Errors
non_nil [] = end
non_nil (none ∷ errs) = non_nil errs
non_nil (some e ∷ errs) = also e (non_nil errs)

abbrev join_of : Errors → Option Error
join_of end = none
join_of (also e es) = some (joined e es)

-- `errors.Join(errs...)`
unfoldable pub join : List (Option Error) → Option Error
join errs = join_of (non_nil errs)
