-- ===== src/Suggestions/Rows.antt =====
-- What a history of decisions keeps of each row, and what it puts on record.
use workgraph.Common.{Bool, true, false, ◌≡◌, refl, ◌∙◌, List, [], ◌∷◌, ◌++◌, map, All}
use workgraph.Suggestions.{
  Suggestion, SuggestionStatus, proposed, reviewed, approved, dismissed, snoozed, acted,
}

-- The statuses that a status can come to: an approved suggestion is only completed, and one that is
-- dismissed or completed is settled.
unfoldable pub leads : SuggestionStatus → SuggestionStatus → Bool
leads approved approved = true
leads approved acted = true
leads approved _ = false
leads dismissed dismissed = true
leads dismissed _ = false
leads acted acted = true
leads acted _ = false
leads _ _ = true

pub leads_refl : (s : SuggestionStatus) → leads s s ≡ true
unfolding leads
leads_refl proposed = refl
leads_refl reviewed = refl
leads_refl approved = refl
leads_refl dismissed = refl
leads_refl snoozed = refl
leads_refl acted = refl

leads_trans : (s t u : SuggestionStatus) → leads s t ≡ true → leads t u ≡ true → leads s u ≡ true
unfolding leads
leads_trans proposed t u h g = refl
leads_trans reviewed t u h g = refl
leads_trans snoozed t u h g = refl
leads_trans approved approved u h g = g
leads_trans approved acted acted h g = refl
leads_trans approved acted proposed h g = cc
leads_trans approved acted reviewed h g = cc
leads_trans approved acted approved h g = refl
leads_trans approved acted dismissed h g = cc
leads_trans approved acted snoozed h g = cc
leads_trans approved proposed u h g = absurd (cc h)
leads_trans approved reviewed u h g = absurd (cc h)
leads_trans approved dismissed u h g = absurd (cc h)
leads_trans approved snoozed u h g = absurd (cc h)
leads_trans dismissed dismissed u h g = g
leads_trans dismissed proposed u h g = absurd (cc h)
leads_trans dismissed reviewed u h g = absurd (cc h)
leads_trans dismissed approved u h g = absurd (cc h)
leads_trans dismissed snoozed u h g = absurd (cc h)
leads_trans dismissed acted u h g = absurd (cc h)
leads_trans acted acted u h g = g
leads_trans acted proposed u h g = absurd (cc h)
leads_trans acted reviewed u h g = absurd (cc h)
leads_trans acted approved u h g = absurd (cc h)
leads_trans acted snoozed u h g = absurd (cc h)
leads_trans acted dismissed u h g = absurd (cc h)

abbrev pub Keeps : Suggestion → Suggestion → Type 0
Keeps a b =
    (b.id ≡ a.id)
    × (b.type_name ≡ a.type_name)
    × (b.pattern_key ≡ a.pattern_key)
    × (leads a.status b.status ≡ true)

-- Each row is still there, in its place; new ones are at the end.
abbrev pub Grows : List Suggestion → List Suggestion → Type 0
Grows [] ys = Unit
Grows (x ∷ xs) [] = ⊥
Grows (x ∷ xs) (y ∷ ys) = Keeps x y × Grows xs ys

pub Grows-map :
    (f : Suggestion → Suggestion) (xs : List Suggestion)
    → All (λ x. Keeps x (f x)) xs
    → Grows xs (map f xs)
Grows-map f [] a = tt
Grows-map f (x ∷ xs) a = (a.0, Grows-map f xs a.1)

pub Grows-append : (xs ys : List Suggestion) → Grows xs (xs ++ ys)
Grows-append [] ys = tt
Grows-append (x ∷ xs) ys = ((refl, refl, refl, leads_refl x.status), Grows-append xs ys)

pub Grows-refl : (xs : List Suggestion) → Grows xs xs
Grows-refl [] = tt
Grows-refl (x ∷ xs) = ((refl, refl, refl, leads_refl x.status), Grows-refl xs)

Keeps-trans : (a b c : Suggestion) → Keeps a b → Keeps b c → Keeps a c
Keeps-trans a b c p q =
    (q.0 ∙ p.0, q.1 ∙ p.1, q.2 ∙ p.2, leads_trans a.status b.status c.status p.3 q.3)

pub Grows-trans : (xs ys zs : List Suggestion) → Grows xs ys → Grows ys zs → Grows xs zs
Grows-trans [] ys zs p q = tt
Grows-trans (x ∷ xs) [] zs p q = absurd p
Grows-trans (x ∷ xs) (y ∷ ys) [] p q = absurd q
Grows-trans (x ∷ xs) (y ∷ ys) (z ∷ zs) p q =
    (Keeps-trans x y z p.0 q.0, Grows-trans xs ys zs p.1 q.1)
