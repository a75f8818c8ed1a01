-- ===== src/Api/Copies/Memory.antt =====
-- Go's memory as the deep copies use it: a pointer or a slice is nil, or an address with what is
-- stored there. An object is a tree of such cells. Memory is taken from a counter of addresses.
use topovgm.Prelude.{ℕ, suc, List, [], ◌∷◌, ◌++◌, map}

abbrev pub Address : Type 0
Address = ℕ

pub data Pointer (L A : Type 0) : Type 0 where
  nil : Pointer L A
  at : L → A → Pointer L A

-- A slice that is not nil may be empty.
pub data Slice (L A : Type 0) : Type 0 where
  nil_slice : Slice L A
  slice : L → List A → Slice L A

abbrev pub elements : {L A : Type 0} → Slice L A → List A
elements nil_slice = []
elements (slice _ xs) = xs

-- A computation that may allocate.
abbrev pub New : Type 0 → Type 0
New A = Address → A × Address

abbrev pub pure : {A : Type 0} → A → New A
pure x next = (x, next)

infixl 5 ◌>>=◌
abbrev pub ◌>>=◌ : {A B : Type 0} → New A → (A → New B) → New B
◌>>=◌ m f next = f (m next).0 (m next).1

-- `new(T)`, `make([]T, n)`, or a variable whose address is taken.
abbrev pub allocate : New Address
allocate next = (next, suc next)

-- A type of objects `A` with what an object means, addresses forgotten, the addresses of its cells,
-- and `DeepCopyInto`: what it writes into `out`.
pub record Copying (A V : Type 0) : Type 0 where
  pub value : A → V
  pub cells : A → List Address
  pub deep_copy_into : A → New A

-- A type without pointers, which is copied by assignment.
abbrev pub plain : {A : Type 0} → Copying A A
plain = record { value = λ x. x; cells = λ _. []; deep_copy_into = pure }

module _ {A V : Type 0} (c : Copying A V) where
  abbrev pub pointer_value : Pointer Address A → Pointer Unit V
  pointer_value nil = nil
  pointer_value (at _ x) = at tt (c.value x)

  abbrev pub pointer_cells : Pointer Address A → List Address
  pointer_cells nil = []
  pointer_cells (at a x) = a ∷ c.cells x

  -- `if in.F != nil { *out = new(T); **out = **in }`, and the like with `DeepCopy`. It is also
  -- `in.DeepCopy()`, which returns nil for nil and else allocates `out` and calls `DeepCopyInto`.
  unfoldable pub deep_copy : Pointer Address A → New (Pointer Address A)
  deep_copy nil = pure nil
  deep_copy (at _ x) = do out ← allocate; y ← c.deep_copy_into x; pure (at out y)

  abbrev pub pointer : Copying (Pointer Address A) (Pointer Unit V)
  pointer = record { value = pointer_value; cells = pointer_cells; deep_copy_into = deep_copy }

  unfoldable pub list_value : List A → List V
  list_value xs = map c.value xs

  unfoldable pub list_cells : List A → List Address
  list_cells [] = []
  list_cells (x ∷ xs) = c.cells x ++ list_cells xs

  -- `for i := range *in { (*in)[i].DeepCopyInto(&(*out)[i]) }`, or `copy(*out, *in)`.
  unfoldable pub copy_elements : List A → New (List A)
  copy_elements [] = pure []
  copy_elements (x ∷ xs) = do y ← c.deep_copy_into x; ys ← copy_elements xs; pure (y ∷ ys)

  abbrev pub slice_value : Slice Address A → Slice Unit V
  slice_value nil_slice = nil_slice
  slice_value (slice _ xs) = slice tt (list_value xs)

  abbrev pub slice_cells : Slice Address A → List Address
  slice_cells nil_slice = []
  slice_cells (slice a xs) = a ∷ list_cells xs

  -- `if in.F != nil { *out = make([]T, len(*in)); ... }`
  unfoldable pub copy_slice : Slice Address A → New (Slice Address A)
  unfolding copy_elements
  copy_slice nil_slice = pure nil_slice
  copy_slice (slice _ xs) = do out ← allocate; ys ← copy_elements xs; pure (slice out ys)

  abbrev pub sliced : Copying (Slice Address A) (Slice Unit V)
  sliced = record { value = slice_value; cells = slice_cells; deep_copy_into = copy_slice }
