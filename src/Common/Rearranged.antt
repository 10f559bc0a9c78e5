-- ===== src/Common/Rearranged.antt =====
-- Lists that hold the same elements in another order.
use mathlib.Core.Path.{◌≡◌, refl}
use mathlib.Core.Bool.{Bool, not}
use mathlib.Core.Logic.{inl, inr}
use mathlib.Core.List.{List, [], ◌∷◌, ◌++◌, Perm, perm_middle, append_assoc}
use mathlib.Core.List.Perm
use workgraph.Common.Tests.{if◌then◌else◌, Bool-cases}
use workgraph.Common.Lists.{select}

unfoldable pub concat_map {ℓ κ} : {A : Type ℓ} {B : Type κ} → (A → List B) → List A → List B
concat_map f [] = []
concat_map f (x ∷ xs) = f x ++ concat_map f xs

module _ {ℓ} {A : Type ℓ} where
  pub perm_exchange : (xs ys zs : List A) → Perm (xs ++ (ys ++ zs)) (ys ++ (xs ++ zs))
  perm_exchange [] ys zs = Perm.rfl
  perm_exchange (x ∷ xs) ys zs =
      Perm.trans (Perm.cons x (perm_exchange xs ys zs)) (Perm.symm (perm_middle ys (xs ++ zs)))

  -- What passes a test and what does not make up the list.
  pub select-perm :
      (p : A → Bool) (xs : List A) → Perm (select p xs ++ select (λ x. not (p x)) xs) xs
  select-perm p [] = Perm.rfl
  select-perm p (x ∷ xs) = elim (Bool-cases (p x)) [
    | inl h ↦ rw h (Perm.cons x (select-perm p xs))
    | inr h ↦ rw h (
        Perm.trans (perm_middle (select p xs) (select (λ y. not (p y)) xs))
          (Perm.cons x (select-perm p xs)))
  ]

  -- A stable sort by a test for the wrong order of two.
  module _ (wrong : A → A → Bool) where
    unfoldable pub insert_after : A → List A → List A
    insert_after x [] = x ∷ []
    insert_after x (y ∷ ys) =
        let rest = insert_after x ys in if wrong x y then y ∷ rest else x ∷ y ∷ ys

    unfoldable pub sort_slice : List A → List A
    unfolding insert_after
    sort_slice [] = []
    sort_slice (x ∷ xs) = insert_after x (sort_slice xs)

module _ {ℓ κ} {A : Type ℓ} {B : Type κ} (f : A → List B) where
  pub concat_map-append :
      (xs ys : List A) → concat_map f (xs ++ ys) ≡ concat_map f xs ++ concat_map f ys
  unfolding concat_map
  concat_map-append [] ys = refl
  concat_map-append (x ∷ xs) ys = rw (concat_map-append xs ys, append_assoc) refl

  insert_after-concat_map :
      (wrong : A → A → Bool) (x : A) (ys : List A)
      → Perm (concat_map f (insert_after wrong x ys)) (f x ++ concat_map f ys)
  unfolding concat_map insert_after
  insert_after-concat_map wrong x [] = Perm.rfl
  insert_after-concat_map wrong x (y ∷ ys) = elim (Bool-cases (wrong x y)) [
    | inl h ↦ rw h (
        Perm.trans (Perm.append_left (f y) (insert_after-concat_map wrong x ys))
          (perm_exchange (f y) (f x) (concat_map f ys)))
    | inr h ↦ rw h Perm.rfl
  ]

  -- A sort rearranges what its elements hold.
  pub sort_slice-concat_map :
      (wrong : A → A → Bool) (xs : List A)
      → Perm (concat_map f (sort_slice wrong xs)) (concat_map f xs)
  unfolding concat_map sort_slice
  sort_slice-concat_map wrong [] = Perm.rfl
  sort_slice-concat_map wrong (x ∷ xs) =
      Perm.trans (insert_after-concat_map wrong x (sort_slice wrong xs))
        (Perm.append_left (f x) (sort_slice-concat_map wrong xs))
