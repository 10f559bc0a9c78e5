-- ===== src/Outbox/Single.antt =====
-- An update that goes by a request's id changes that one row: what it finds, and what it leaves.
use workgraph.Common.{
  ◌≤◌, String, ◌≡◌, ◌≢◌, refl, Bool, true, false, some, List, [], ◌∷◌, ok, arith, eq_iff, inl, inr,
  Bool-cases, All, exactly_one-eq-ok,
}
use workgraph.Outbox.{Request, has_id, update, find, affected, conflicts}
use workgraph.Outbox.Rows.{IsWellFormed, Distinct, KeepsRows}
use workgraph.Outbox.Evolution.{find-update}
use workgraph.Outbox.Capability.{update_one}

-- The test goes by the id.
abbrev pub ById : String → (Request → Bool) → Type 0
ById id p = (r : Request) → p r ≡ true → has_id id r ≡ true

-- One row, found under the id, passed the test and was changed; every other id finds what it found.
pub record ChangesOne (id : String) (p : Request → Bool) (f : Request → Request)
    (rows after : List Request) : Type 0 where
  pub before : Request
  pub found : find (has_id id) rows ≡ some before
  pub passed : p before ≡ true
  pub changed : find (has_id id) after ≡ some (f before)
  pub others : (other : String) → other ≢ id → find (has_id other) after ≡ find (has_id other) rows

misses :
    (id : String) (p : Request → Bool) (x : Request) → ById id p → has_id id x ≡ false → p x ≡ false
misses id p x by e = elim (Bool-cases (p x)) [ inl h ↦ absurd (cc (by x h, e)) | inr h ↦ h ]

pub same_id-conflicts :
    (id : String) (r s : Request)
    → has_id id r ≡ true
    → has_id id s ≡ true
    → conflicts r s ≡ false
    → ⊥
unfolding conflicts
same_id-conflicts id r s a b h = ground (arith, eq_iff r.id id, eq_iff s.id id, eq_iff r.id s.id)

affected-none :
    (id : String) (p : Request → Bool) (x : Request) (rows : List Request)
    → ById id p
    → has_id id x ≡ true
    → All (λ s. conflicts x s ≡ false) rows
    → affected p rows ≡ 0
unfolding affected
affected-none id p x [] by h a = refl
affected-none id p x (y ∷ rows) by h a = elim (Bool-cases (p y)) [
  | inl e ↦ absurd (same_id-conflicts id x y h (by y e) a.0)
  | inr e ↦ rw e (affected-none id p x rows by h a.1)
]

pub affected-found :
    (id : String) (p : Request → Bool) (rows : List Request)
    → ById id p
    → Distinct rows
    → 1 ≤ affected p rows
    → (r : Request) × (find (has_id id) rows ≡ some r) × (p r ≡ true)
unfolding affected find
affected-found id p [] by d h = absurd (omega arith)
affected-found id p (x ∷ rows) by d h = elim (Bool-cases (has_id id x)) [
  | inl e ↦ let rest = affected-none id p x rows by e d.0 in (x, rw e, ground arith)
  | inr e ↦
      (let missed : p x ≡ false = misses id p x by e in
        let (r, found, passed) = affected-found id p rows by d.1 (ground arith) in
        (r, rw e found, passed))
]

-- The number of rows that such an update affects: one if the row under the id passes the test.
pub affected-one :
    (id : String) (p : Request → Bool) (rows : List Request) (r : Request)
    → ById id p
    → Distinct rows
    → find (has_id id) rows ≡ some r
    → p r ≡ true
    → affected p rows ≡ 1
unfolding affected find
affected-one id p [] r by d e h = absurd (cc e)
affected-one id p (x ∷ rows) r by d e h = elim (Bool-cases (has_id id x)) [
  | inl hit ↦
      (let same : x ≡ r = ground arith in
        let rest = affected-none id p x rows by hit d.0 in rw (same, h) (ground arith))
  | inr miss ↦
      (let missed : p x ≡ false = misses id p x by miss in
        rw missed (affected-one id p rows r by d.1 (ground arith) h))
]

find-update_other :
    (id other : String) (p : Request → Bool) (f : Request → Request) (rows : List Request)
    → ById id p
    → KeepsRows p f
    → other ≢ id
    → find (has_id other) (update p f rows) ≡ find (has_id other) rows
unfolding find update
find-update_other id other p f [] by keeps ne = refl
find-update_other id other p f (x ∷ rows) by keeps ne = elim (Bool-cases (p x)) [
  | inl e ↦
      let kept = (keeps x e).0.same_id in
      let mine = by x e in
      let off : has_id other x ≡ false = ground (arith, eq_iff x.id other, eq_iff x.id id) in
      rw (e, kept, off) (find-update_other id other p f rows by keeps ne)
  | inr e ↦ rw e (ground (arith, find-update_other id other p f rows by keeps ne))
]

pub find-update_passed :
    (id : String) (p : Request → Bool) (f : Request → Request) (rows : List Request) (r : Request)
    → KeepsRows p f
    → find (has_id id) rows ≡ some r
    → p r ≡ true
    → find (has_id id) (update p f rows) ≡ some (f r)
find-update_passed id p f rows r keeps found passed =
    let here = find-update p f keeps id rows r found in rw (here, passed) refl

pub update_one-ChangesOne :
    (id : String) (p : Request → Bool) (f : Request → Request) (rows after : List Request)
    → ById id p
    → KeepsRows p f
    → IsWellFormed rows
    → update_one p f rows ≡ ok after
    → ChangesOne id p f rows after
unfolding update_one
update_one-ChangesOne id p f rows after by keeps w h =
    let (one, same) = exactly_one-eq-ok _ _ _ h in
    let (r, found, passed) = affected-found id p rows by w.distinct (omega (arith, one)) in
    record {
      before = r;
      found = found;
      passed = passed;
      changed = rw (← same) (find-update_passed id p f rows r keeps found passed);
      others = λ other ne. rw (← same) (find-update_other id other p f rows by keeps ne);
    }
