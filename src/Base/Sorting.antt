-- ===== src/Base/Sorting.antt =====
-- `Array.prototype.sort` with a comparator: a stable sort, here by insertion. A comparator is read
-- through `le`, which says that its result is not positive.
use mathlib.Core.Path.{◌≡◌, refl, ap₂, ◌∙◌}
use mathlib.Core.Logic.{◌⊎◌, inl, inr, ∥∥₁_elim}
use mathlib.Core.Bool.{Bool, true, false}
use mathlib.Core.List.{List, [], ◌∷◌, Perm, Permᴰ, Mem, mem-cons_self, mem-cons_of_mem, is_set}
use mathlib.Core.List.Perm
use mathlib.Core.List.Permᴰ
use native.Mathlib.Omega.{arith}
use stellar_agentic.Base.Tests.{if◌then◌else◌, Bool-cases}
use stellar_agentic.Base.Lists.{All, All-imp, count}

-- What a comparator must be for the sort to be determined by it.
pub record IsTotal {ℓ} {A : Type ℓ} (le : A → A → Bool) : Type ℓ where
  pub total : (x y : A) → (le x y ≡ true) ⊎ (le y x ≡ true)
  pub trans : (x y z : A) → le x y ≡ true → le y z ≡ true → le x z ≡ true

module _ {ℓ} {A : Type ℓ} (le : A → A → Bool) where
  unfoldable pub insert : A → List A → List A
  insert x [] = x ∷ []
  insert x (y ∷ ys) = if le x y then x ∷ y ∷ ys else y ∷ insert x ys

  unfoldable pub sort : List A → List A
  unfolding insert
  sort [] = []
  sort (x ∷ xs) = insert x (sort xs)

  -- Every element is at most each later one.
  abbrev pub IsSorted : List A → Type ℓ
  IsSorted [] = Unit
  IsSorted (x ∷ xs) = All (λ y. le x y ≡ true) xs × IsSorted xs

  insert-perm : (x : A) (xs : List A) → Perm (insert x xs) (x ∷ xs)
  unfolding insert
  insert-perm x [] = Perm.refl _
  insert-perm x (y ∷ ys) = elim (Bool-cases (le x y)) [
    | inl e ↦ rw e (Perm.refl _)
    | inr e ↦ rw e (Perm.trans (Perm.cons y (insert-perm x ys)) (Perm.swap x y ys))
  ]

  pub sort-perm : (xs : List A) → Perm (sort xs) xs
  unfolding sort
  sort-perm [] = Perm.refl _
  sort-perm (x ∷ xs) = Perm.trans (insert-perm x (sort xs)) (Perm.cons x (sort-perm xs))

  insert-All {κ} : (P : A → Type κ) (x : A) (xs : List A) → P x → All P xs → All P (insert x xs)
  unfolding insert
  insert-All P x [] p h = (p, tt)
  insert-All P x (y ∷ ys) p h = elim (Bool-cases (le x y)) [
    | inl e ↦ rw e (p, h)
    | inr e ↦ rw e (h.0, insert-All P x ys p h.1)
  ]

  pub sort-All {κ} : (P : A → Type κ) (xs : List A) → All P xs → All P (sort xs)
  unfolding sort
  sort-All P [] h = tt
  sort-All P (x ∷ xs) h = insert-All P x (sort xs) h.0 (sort-All P xs h.1)

  count-insert : (f : A → Bool) (x : A) (xs : List A) → count f (insert x xs) ≡ count f (x ∷ xs)
  unfolding insert
  count-insert f x [] = refl
  count-insert f x (y ∷ ys) = elim (Bool-cases (le x y)) [
    | inl e ↦ rw e refl
    | inr e ↦ rw e (omega (arith, count-insert f x ys))
  ]

  pub count-sort : (f : A → Bool) (xs : List A) → count f (sort xs) ≡ count f xs
  unfolding sort
  count-sort f [] = refl
  count-sort f (x ∷ xs) = omega (arith, count-insert f x (sort xs), count-sort f xs)

  module _ (t : IsTotal le) where
    at_most_of_not : (x y : A) → le x y ≡ false → le y x ≡ true
    at_most_of_not x y e = ground (arith, t.total x y)

    insert-IsSorted : (x : A) (xs : List A) → IsSorted xs → IsSorted (insert x xs)
    unfolding insert
    insert-IsSorted x [] s = (tt, tt)
    insert-IsSorted x (y ∷ ys) s = elim (Bool-cases (le x y)) [
      | inl e ↦ rw e ((e, All-imp ys (λ z h. t.trans x y z e h) s.0), s)
      | inr e ↦ rw e (
        insert-All (λ z. le y z ≡ true) x ys (at_most_of_not x y e) s.0,
        insert-IsSorted x ys s.1,
      )
    ]

    pub sort-IsSorted : (xs : List A) → IsSorted (sort xs)
    unfolding sort
    sort-IsSorted [] = tt
    sort-IsSorted (x ∷ xs) = insert-IsSorted x (sort xs) (sort-IsSorted xs)

    insert_comm :
        (x y : A) (xs : List A)
        → (le x y ≡ true → le y x ≡ true → x ≡ y)
        → insert x (insert y xs) ≡ insert y (insert x xs)
    unfolding insert
    insert_comm x y [] same = ground (arith, t.total x y)
    insert_comm x y (z ∷ zs) same =
        ground (arith, t.total x y, t.trans x y z, t.trans y x z, insert_comm x y zs same)

    -- Elements that the comparator cannot tell apart are equal, in this list.
    abbrev pub Separates : List A → Type ℓ
    Separates xs = (x y : A) → Mem x xs → Mem y xs → le x y ≡ true → le y x ≡ true → x ≡ y

    sort-eq : {xs ys : List A} → Permᴰ xs ys → Separates xs → sort xs ≡ sort ys
    unfolding sort
    sort-eq Permᴰ.nil sep = refl
    sort-eq (Permᴰ.cons {a} {b} e p) sep =
        ap₂ insert e (sort-eq p λ x y mx my. sep x y (mem-cons_of_mem a mx) (mem-cons_of_mem a my))
    sort-eq (Permᴰ.swap {a} {b} {l = l} e f) sep =
        insert_comm a b (sort l) (sep a b mem-cons_self (mem-cons_of_mem a mem-cons_self))
        ∙ ap₂ (λ u v. insert u (insert v (sort l))) f e
    sort-eq (Permᴰ.trans p q) sep =
        sort-eq p sep
        ∙ sort-eq q λ x y mx my. sep x y (Permᴰ.mem (Permᴰ.symm p) mx) (Permᴰ.mem (Permᴰ.symm p) my)

    -- The result does not depend on the order in which the elements come.
    pub sort-eq_of_perm : {xs ys : List A} → IsSet A → Perm xs ys → Separates xs → sort xs ≡ sort ys
    sort-eq_of_perm s p sep = ∥∥₁_elim p (is_set s _ _) λ q. sort-eq q sep
