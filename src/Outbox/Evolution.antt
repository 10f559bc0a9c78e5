-- ===== src/Outbox/Evolution.antt =====
-- What an operation makes of the rows of capture_requests: each goes on as it may.
use workgraph.Common.{
  String, ◌≡◌, Bool, true, some, List, [], ◌∷◌, ◌++◌, ok, arith, inl, inr, Bool-cases, All,
  if◌then◌else◌,
}
use workgraph.Outbox.{Request, has_id, update, find, insert}
use workgraph.Outbox.Rows.{
  IsSound, IsWellFormed, Follows, Follows-refl, Follows-trans, KeepsRows, changed-Follows,
  update-IsWellFormed, insert-eq-ok, insert-IsWellFormed,
}

-- The rows after an operation: well formed if they were, and every row is still there, under its id.
pub record Evolves (rows after : List Request) : Type 0 where
  pub keeps : IsWellFormed rows → IsWellFormed after
  pub follows :
      (id : String) (r : Request)
      → find (has_id id) rows ≡ some r
      → (s : Request) × (find (has_id id) after ≡ some s) × Follows r s

pub Evolves-refl : (rows : List Request) → Evolves rows rows
Evolves-refl rows = record { keeps = λ w. w; follows = λ id r e. (r, e, Follows-refl r) }

pub Evolves-trans :
    (rows mid after : List Request) → Evolves rows mid → Evolves mid after → Evolves rows after
Evolves-trans rows mid after a b = record {
  keeps = λ w. b.keeps (a.keeps w);
  follows = λ id r e.
      let (s, found, f) = a.follows id r e in
      let (t, found', g) = b.follows id s found in (t, found', Follows-trans r s t f g);
}

module _ (p : Request → Bool) (f : Request → Request) (keeps : KeepsRows p f) where
  pub find-update :
      (id : String) (rows : List Request) (r : Request)
      → find (has_id id) rows ≡ some r
      → find (has_id id) (update p f rows) ≡ some (if p r then f r else r)
  unfolding find update
  find-update id [] r e = cc
  find-update id (x ∷ rows) r e =
      let same = (changed-Follows p f keeps x).same_id in
      elim (Bool-cases (has_id id x)) [
        | inl hit ↦ rw (same, hit) (let eq : x ≡ r = ground arith in rw eq)
        | inr miss ↦ rw (same, miss) (find-update id rows r (ground arith))
      ]

  pub update-Evolves : (rows : List Request) → Evolves rows (update p f rows)
  update-Evolves rows = record {
    keeps = update-IsWellFormed p f keeps rows;
    follows = λ id r e. (_, find-update id rows r e, changed-Follows p f keeps r);
  }

find-append :
    (p : Request → Bool) (rows more : List Request) (r : Request)
    → find p rows ≡ some r
    → find p (rows ++ more) ≡ some r
unfolding find
find-append p [] more r e = cc
find-append p (x ∷ rows) more r e = ground (arith, find-append p rows more r)

pub insert-Evolves :
    (r : Request) (rows after : List Request)
    → IsSound r
    → insert r rows ≡ ok after
    → Evolves rows after
insert-Evolves r rows after s h = record {
  keeps = insert-IsWellFormed r rows after h s;
  follows = λ id x e. (
    x,
    rw (← (insert-eq-ok r rows after h).1) (find-append (has_id id) rows _ x e),
    Follows-refl x,
  );
}

-- A row that passes a test is among the rows.
pub find-All :
    (p : Request → Bool) (P : Request → Type 0) (rows : List Request) {r : Request}
    → All P rows
    → find p rows ≡ some r
    → P r × (p r ≡ true)
unfolding find
find-All p P [] a h = absurd (cc h)
find-All p P (x ∷ rows) {r} a h = elim (Bool-cases (p x)) [
  | inl e ↦ (let same : x ≡ r = ground arith in rw (← same) (a.0, e))
  | inr e ↦ find-All p P rows a.1 (ground arith)
]
