-- ===== src/Api/Copies/Laws.antt =====
-- What a deep copy is, and that the copies of pointers, slices and lists are deep if those of their
-- elements are.
use topovgm.Prelude.{ℕ, suc, ◌≤◌, ◌<◌, ◌≡◌, refl, ap, List, [], ◌∷◌, ◌++◌, arith}
use topovgm.Api.Copies.Memory.{
  Address, Pointer, nil, at, Slice, nil_slice, slice, Copying, plain, deep_copy, pointer,
  pointer_value, pointer_cells, slice_value, slice_cells, list_value, list_cells, copy_elements,
  sliced, copy_slice,
}

abbrev pub All : (Address → Type 0) → List Address → Type 0
All Q [] = Unit
All Q (a ∷ l) = Q a × All Q l

-- Every address of `l` was allocated when the counter went from `first` to `last`.
pub record AreNew (first last : ℕ) (l : List Address) : Type 0 where
  pub grows : first ≤ last
  pub inside : All (λ a. (first ≤ a) × (a < last)) l

-- The copy of `x` made from `next` on means what `x` means, and all its cells are new.
abbrev pub IsDeepCopy : {A V : Type 0} → Copying A V → A → Address → A × Address → Type 0
IsDeepCopy c x next out =
    (Copying.value c out.0 ≡ Copying.value c x) × AreNew next out.1 (Copying.cells c out.0)

abbrev pub IsDeep : {A V : Type 0} → Copying A V → Type 0
IsDeep c = (x : _) (next : Address) → IsDeepCopy c x next (Copying.deep_copy_into c x next)

All-append : (Q : Address → Type 0) (l m : List Address) → All Q l → All Q m → All Q (l ++ m)
All-append Q [] m ps qs = qs
All-append Q (a ∷ l) m ps qs = (ps.0, All-append Q l m ps.1 qs)

pub All-weaken :
    {Q R : Address → Type 0} → ((a : Address) → Q a → R a) → (l : List Address) → All Q l → All R l
All-weaken f [] ps = tt
All-weaken f (a ∷ l) ps = (f a ps.0, All-weaken f l ps.1)

-- What two steps in turn allocate is new after both.
infixr 20 ◌⨾◌
pub ◌⨾◌ :
    {first middle last : ℕ} {l m : List Address}
    → AreNew first middle l
    → AreNew middle last m
    → AreNew first last (l ++ m)
◌⨾◌ {l = l} {m = m} p q = record {
  grows = omega (arith, p.grows, q.grows);
  inside =
      All-append _ l m (All-weaken (λ a b. (b.0, omega (arith, q.grows))) l p.inside)
        (All-weaken (λ a b. (omega (arith, p.grows), b.1)) m q.inside);
}

AreNew-nil : (next : ℕ) → AreNew next next []
AreNew-nil next = record { grows = omega arith; inside = tt }

pub AreNew-later :
    (first last : ℕ) (l : List Address) → AreNew (suc first) last l → AreNew first last l
AreNew-later first last l p = record {
  grows = omega (arith, p.grows);
  inside = All-weaken (λ a b. (omega arith, b.1)) l p.inside;
}

-- A cell is allocated before what it holds.
pub AreNew-cons :
    (first last : ℕ) (l : List Address) → AreNew (suc first) last l → AreNew first last (first ∷ l)
AreNew-cons first last l p = record {
  grows = omega (arith, p.grows);
  inside = ((omega arith, omega (arith, p.grows)), (AreNew-later first last l p).inside);
}

pub plain-IsDeep : {A : Type 0} → IsDeep (plain {A = A})
plain-IsDeep x next = (refl, AreNew-nil next)

module _ {A V : Type 0} (c : Copying A V) (deep : IsDeep c) where
  pub pointer-IsDeep : IsDeep (pointer c)
  unfolding deep_copy
  pointer-IsDeep nil next = (refl, AreNew-nil next)
  pointer-IsDeep (at a x) next =
      let (same, new) = deep x (suc next) in (ap (at tt) same, AreNew-cons _ _ _ new)

  elements-IsDeep :
      (xs : List A) (next : Address)
      → (list_value c (copy_elements c xs next).0 ≡ list_value c xs)
        × AreNew next (copy_elements c xs next).1 (list_cells c (copy_elements c xs next).0)
  unfolding list_value list_cells copy_elements
  elements-IsDeep [] next = (refl, AreNew-nil next)
  elements-IsDeep (x ∷ xs) next =
      let (same, new) = deep x next in
      let (sames, news) = elements-IsDeep xs (Copying.deep_copy_into c x next).1 in
      (rw (same, sames), new ⨾ news)

  pub sliced-IsDeep : IsDeep (sliced c)
  unfolding copy_slice
  sliced-IsDeep nil_slice next = (refl, AreNew-nil next)
  sliced-IsDeep (slice a xs) next =
      let (same, new) = elements-IsDeep xs (suc next) in (ap (slice tt) same, AreNew-cons _ _ _ new)

module _ {A V : Type 0} (c : Copying A V) (deep : IsDeep c) where
  pub deep_copy-value :
      (p : Pointer Address A) (next : Address)
      → pointer_value c (deep_copy c p next).0 ≡ pointer_value c p
  deep_copy-value p next = (pointer-IsDeep c deep p next).0

  pub deep_copy-AreNew :
      (p : Pointer Address A) (next : Address)
      → AreNew next (deep_copy c p next).1 (pointer_cells c (deep_copy c p next).0)
  deep_copy-AreNew p next = (pointer-IsDeep c deep p next).1

  pub copy_slice-value :
      (s : Slice Address A) (next : Address)
      → slice_value c (copy_slice c s next).0 ≡ slice_value c s
  copy_slice-value s next = (sliced-IsDeep c deep s next).0

  pub copy_slice-AreNew :
      (s : Slice Address A) (next : Address)
      → AreNew next (copy_slice c s next).1 (slice_cells c (copy_slice c s next).0)
  copy_slice-AreNew s next = (sliced-IsDeep c deep s next).1
