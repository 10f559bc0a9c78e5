-- ===== src/Common/Keyed.antt =====
-- Lists of values that each have a text for a key: the first of a key, a change to it, and the sort
-- by keys.
use Prim.Native.String.{String, compare}
use Prim.Native.Nat.{Ordering}
use mathlib.Core.Path.{◌≡◌, refl, sym, ◌∙◌}
use mathlib.Core.Logic.{inl, inr}
use mathlib.Core.Bool.{true, false, true≢false}
use mathlib.Core.Option.{Option, none, some, map as map_option}
use mathlib.Core.List.{List, [], ◌∷◌, ◌++◌, map}
use native.Mathlib.Omega.{arith}
use text.Mathlib.Text.{◌==◌}
use text.Mathlib.TextEquality.{eq_iff}
use text.Mathlib.TextPositions.{eq_refl}
use workgraph.Common.Tests.{if◌then◌else◌, Bool-cases}

-- Of two texts that differ, one at most is a third.
pub not_both : (a b c : String) → (a == b) ≡ false → (a == c) ≡ true → (b == c) ≡ false
not_both a b c h g = elim (Bool-cases (b == c)) [
  | inl k ↦
      absurd (true≢false (sym ((eq_iff a b).1 ((eq_iff a c).0 g ∙ sym ((eq_iff b c).0 k))) ∙ h))
  | inr k ↦ k
]

-- The value there is, or else a new one.
unfoldable pub value_or {ℓ} : {A : Type ℓ} → A → Option A → A
value_or new none = new
value_or new (some x) = x

module _ {ℓ} {A : Type ℓ} (key : A → String) where
  unfoldable pub first_with : String → List A → Option A
  first_with name [] = none
  first_with name (x ∷ xs) = let rest = first_with name xs in if key x == name then some x else rest

  -- The first of a key is changed; where there is none, a new one is, and put at the end.
  unfoldable pub upsert : String → A → (A → A) → List A → List A
  upsert name new f [] = f new ∷ []
  upsert name new f (x ∷ xs) =
      let rest = upsert name new f xs in if key x == name then f x ∷ xs else x ∷ rest

  unfoldable pub insert_by : A → List A → List A
  insert_by x [] = x ∷ []
  insert_by x (y ∷ ys) =
      let rest = insert_by x ys in
      elim (compare (key y) (key x)) [ Ordering.lt ↦ y ∷ rest | _ ↦ x ∷ y ∷ ys ]

  unfoldable pub sort_by : List A → List A
  unfolding insert_by
  sort_by [] = []
  sort_by (x ∷ xs) = insert_by x (sort_by xs)

  pub first_with-here :
      (name : String) (x : A) (xs : List A)
      → (key x == name) ≡ true
      → first_with name (x ∷ xs) ≡ some x
  unfolding first_with
  first_with-here name x xs h = rw h refl

  pub first_with-past :
      (name : String) (x : A) (xs : List A)
      → (key x == name) ≡ false
      → first_with name (x ∷ xs) ≡ first_with name xs
  unfolding first_with
  first_with-past name x xs h = rw h refl

  pub first_with-key :
      (name : String) (xs : List A) (x : A) → first_with name xs ≡ some x → key x ≡ name
  unfolding first_with
  first_with-key name [] x h = absurd (cc h)
  first_with-key name (y ∷ xs) x h = elim (Bool-cases (key y == name)) [
    | inl k ↦
        let same : some y ≡ some x = sym (first_with-here name y xs k) ∙ h in
        cc ((eq_iff (key y) name).0 k, same)
    | inr k ↦ first_with-key name xs x (sym (first_with-past name y xs k) ∙ h)
  ]

  pub first_with-upsert :
      (name : String) (new : A) (f : A → A)
      → key new ≡ name
      → ((x : A) → key (f x) ≡ key x)
      → (xs : List A) (other : String)
      → first_with other (upsert name new f xs) ≡ (
          if name == other
          then some (f (value_or new (first_with name xs)))
          else first_with other xs)
  unfolding first_with upsert value_or
  first_with-upsert name new f n k [] other = rw (k new, n) refl
  first_with-upsert name new f n k (x ∷ xs) other = elim (Bool-cases (key x == name)) [
    | inl h ↦ rw (h, k x, (eq_iff (key x) name).0 h) (ground arith)
    | inr h ↦ elim (Bool-cases (key x == other)) [
      | inl g ↦ rw (h, g, not_both (key x) name other h g) refl
      | inr g ↦ rw (h, g) (first_with-upsert name new f n k xs other)
    ]
  ]

  insert_by-past :
      (x y : A) (xs : List A)
      → compare (key y) (key x) ≡ Ordering.lt
      → insert_by x (y ∷ xs) ≡ y ∷ insert_by x xs
  unfolding insert_by
  insert_by-past x y xs e = rw (insert_by, e) refl

  insert_by-first :
      (name : String) (x y : A) (xs : List A) (o : Ordering)
      → compare (key y) (key x) ≡ o
      → first_with name (insert_by x xs) ≡ first_with name (x ∷ xs)
      → first_with name (insert_by x (y ∷ xs)) ≡ first_with name (x ∷ y ∷ xs)
  unfolding first_with insert_by
  insert_by-first name x y xs Ordering.gt e ih = rw (insert_by, e) refl
  insert_by-first name x y xs Ordering.eq e ih = rw (insert_by, e) refl
  insert_by-first name x y xs Ordering.lt e ih = elim (Bool-cases (key y == name)) [
    | inl k ↦ rw (insert_by-past x y xs e, k, not_both (key y) (key x) name (rw e refl) k) refl
    | inr k ↦ rw (insert_by-past x y xs e, k, ih) refl
  ]

  -- The sort keeps the first value of each key.
  first_with-insert_by :
      (name : String) (x : A) (xs : List A)
      → first_with name (insert_by x xs) ≡ first_with name (x ∷ xs)
  unfolding first_with insert_by
  first_with-insert_by name x [] = refl
  first_with-insert_by name x (y ∷ xs) =
      insert_by-first name x y xs _ refl (first_with-insert_by name x xs)

  pub first_with-sort_by :
      (name : String) (xs : List A) → first_with name (sort_by xs) ≡ first_with name xs
  unfolding first_with sort_by
  first_with-sort_by name [] = refl
  first_with-sort_by name (x ∷ xs) =
      first_with-insert_by name x (sort_by xs) ∙ rw (first_with-sort_by name xs) refl

  -- No two of the values have one key.
  abbrev pub Unrepeated : List A → Type ℓ
  Unrepeated [] = Unit
  Unrepeated (x ∷ xs) = (first_with (key x) xs ≡ none) × Unrepeated xs

  pub upsert-Unrepeated :
      (name : String) (new : A) (f : A → A)
      → key new ≡ name
      → ((x : A) → key (f x) ≡ key x)
      → (xs : List A) → Unrepeated xs
      → Unrepeated (upsert name new f xs)
  unfolding upsert first_with
  upsert-Unrepeated name new f n k [] u = (refl, tt)
  upsert-Unrepeated name new f n k (x ∷ xs) u = elim (Bool-cases (key x == name)) [
    | inl h ↦ rw h (rw (k x) u.0, u.1)
    | inr h ↦ rw h (
      first_with-upsert name new f n k xs (key x)
          ∙ rw (not_both (key x) name (key x) h (eq_refl (key x))) u.0,
      upsert-Unrepeated name new f n k xs u.1,
    )
  ]

  first_with-append :
      (name : String) (xs : List A) (y : A)
      → first_with name xs ≡ none
      → (key y == name) ≡ false
      → first_with name (xs ++ y ∷ []) ≡ none
  unfolding first_with
  first_with-append name [] y h k = rw k refl
  first_with-append name (x ∷ xs) y h k = elim (Bool-cases (key x == name)) [
    | inl g ↦ absurd (cc (sym (first_with-here name x xs g) ∙ h))
    | inr g ↦ rw g (first_with-append name xs y (sym (first_with-past name x xs g) ∙ h) k)
  ]

  -- A value of a new key may stand at the end.
  pub append-Unrepeated :
      (xs : List A) (y : A)
      → first_with (key y) xs ≡ none
      → Unrepeated xs
      → Unrepeated (xs ++ y ∷ [])
  unfolding first_with
  append-Unrepeated [] y h u = (refl, tt)
  append-Unrepeated (x ∷ xs) y h u = elim (Bool-cases (key x == key y)) [
    | inl g ↦ absurd (cc (sym (first_with-here (key y) x xs g) ∙ h))
    | inr g ↦
        let apart : (key y == key x) ≡ false =
          not_both (key x) (key y) (key x) g (eq_refl (key x)) in
        (
          first_with-append (key x) xs y u.0 apart,
          append-Unrepeated xs y (sym (first_with-past (key y) x xs g) ∙ h) u.1,
        )
  ]

  pub first_with-map :
      (f : A → A)
      → ((x : A) → key (f x) ≡ key x)
      → (name : String) (xs : List A)
      → first_with name (map f xs) ≡ map_option f (first_with name xs)
  unfolding first_with
  first_with-map f k name [] = refl
  first_with-map f k name (x ∷ xs) = elim (Bool-cases (key x == name)) [
    | inl h ↦ rw (k x, h) refl
    | inr h ↦ rw (k x, h) (first_with-map f k name xs)
  ]

  pub map-Unrepeated :
      (f : A → A)
      → ((x : A) → key (f x) ≡ key x)
      → (xs : List A) → Unrepeated xs
      → Unrepeated (map f xs)
  map-Unrepeated f k [] u = tt
  map-Unrepeated f k (x ∷ xs) u =
      (rw (k x, first_with-map f k (key x) xs, u.0) refl, map-Unrepeated f k xs u.1)

  insert_by-keeps :
      (x y : A) (xs : List A) (o : Ordering)
      → compare (key y) (key x) ≡ o
      → first_with (key x) (y ∷ xs) ≡ none
      → Unrepeated (y ∷ xs)
      → (first_with (key x) xs ≡ none → Unrepeated (insert_by x xs))
      → Unrepeated (insert_by x (y ∷ xs))
  unfolding insert_by first_with
  insert_by-keeps x y xs Ordering.gt e h u ih = rw (insert_by, e) (h, u)
  insert_by-keeps x y xs Ordering.eq e h u ih = rw (insert_by, e) (h, u)
  insert_by-keeps x y xs Ordering.lt e h u ih =
      let apart : (key y == key x) ≡ false = rw e refl in
      rw (insert_by-past x y xs e) (
        first_with-insert_by (key y) x xs
            ∙ rw (not_both (key y) (key x) (key y) apart (eq_refl (key y))) u.0,
        ih (sym (first_with-past (key x) y xs apart) ∙ h),
      )

  insert_by-Unrepeated :
      (x : A) (xs : List A)
      → first_with (key x) xs ≡ none
      → Unrepeated xs
      → Unrepeated (insert_by x xs)
  unfolding insert_by
  insert_by-Unrepeated x [] h u = (h, tt)
  insert_by-Unrepeated x (y ∷ xs) h u =
      insert_by-keeps x y xs _ refl h u λ k. insert_by-Unrepeated x xs k u.1

  pub sort_by-Unrepeated : (xs : List A) → Unrepeated xs → Unrepeated (sort_by xs)
  unfolding sort_by
  sort_by-Unrepeated [] u = tt
  sort_by-Unrepeated (x ∷ xs) u =
      insert_by-Unrepeated x (sort_by xs) (first_with-sort_by (key x) xs ∙ u.0)
        (sort_by-Unrepeated xs u.1)
