-- ===== src/Outbox/Watermark.antt =====
-- The watermarks of capture_cursors: a completed request moves its connector's forward only, and no
-- other.
use workgraph.Common.{
  ℕ, ◌≤◌, String, ◌≡◌, ◌≢◌, refl, Bool, true, false, Option, none, some, List, [], ◌∷◌, ◌++◌, ◌==◌,
  arith, eq_iff, eq_refl, if◌then◌else◌, Bool-cases, inl, inr, ltb, ltb→lt, Ensures, returns,
  Ensures-bind, Ensures-of_ok,
}
use workgraph.Clock.{Stamp, format, parse}
use workgraph.Clock.RoundTrip.{parse-format}
use workgraph.Outbox.{Cursor, cursor_of, move_cursor}
use workgraph.Outbox.Holder.{parsed-eq-ok}
use workgraph.Outbox.Complete.{advance_from, advance_cursor}

-- The watermark of a connector, as the instant that its text names.
abbrev pub IsWatermark : String → List Cursor → ℕ → Type 0
IsWatermark connector cursors t =
    (cursor : Cursor) × (cursor_of connector cursors ≡ some cursor)
    × (parse cursor.completed_through ≡ some t)

cursor_of-move_cursor_same :
    (connector : String) (through now : Stamp) (cursors : List Cursor) (cursor : Cursor)
    → cursor_of connector cursors ≡ some cursor
    → cursor_of connector (move_cursor connector through now cursors)
      ≡ some (record cursor { completed_through = through; updated_at = now })
unfolding cursor_of move_cursor
cursor_of-move_cursor_same connector through now [] cursor e = absurd (cc e)
cursor_of-move_cursor_same connector through now (c ∷ cursors) cursor e =
    elim (Bool-cases (c.connector_id == connector)) [
      | inl hit ↦ (let same : c ≡ cursor = ground arith in rw (hit, hit) (rw same refl))
      | inr miss ↦
          let rest =
            cursor_of-move_cursor_same connector through now cursors cursor (ground arith) in
          rw (miss, miss) rest
    ]

cursor_of-move_cursor_other :
    (connector other : String) (through now : Stamp) (cursors : List Cursor)
    → other ≢ connector
    → cursor_of other (move_cursor connector through now cursors) ≡ cursor_of other cursors
unfolding cursor_of move_cursor
cursor_of-move_cursor_other connector other through now [] ne = refl
cursor_of-move_cursor_other connector other through now (c ∷ cursors) ne =
    elim (Bool-cases (c.connector_id == connector)) [
      | inl hit ↦
          let off : (c.connector_id == other) ≡ false =
            ground (arith, eq_iff c.connector_id connector, eq_iff c.connector_id other) in
          rw (hit, off) (cursor_of-move_cursor_other connector other through now cursors ne)
      | inr miss ↦
          rw miss
            (ground (arith, cursor_of-move_cursor_other connector other through now cursors ne))
    ]

cursor_of-append_other :
    (other : String) (c : Cursor) (cursors : List Cursor)
    → (c.connector_id == other) ≡ false
    → cursor_of other (cursors ++ c ∷ []) ≡ cursor_of other cursors
unfolding cursor_of
cursor_of-append_other other c [] ne = rw ne refl
cursor_of-append_other other c (d ∷ cursors) ne =
    ground (arith, cursor_of-append_other other c cursors ne)

cursor_of-append_same :
    (connector : String) (c : Cursor) (cursors : List Cursor)
    → (c.connector_id == connector) ≡ true
    → cursor_of connector cursors ≡ none
    → cursor_of connector (cursors ++ c ∷ []) ≡ some c
unfolding cursor_of
cursor_of-append_same connector c [] hit e = rw hit refl
cursor_of-append_same connector c (d ∷ cursors) hit e =
    ground (arith, cursor_of-append_same connector c cursors hit)

-- The connector's watermark is at the end of the window or past it, no watermark moved back, and those
-- of the other connectors are the same.
pub record Advanced (connector : String) (until : ℕ) (cursors after : List Cursor) : Type 0 where
  pub reached : (t : ℕ) × IsWatermark connector after t × (until ≤ t)
  pub kept :
      (t : ℕ)
      → IsWatermark connector cursors t
      → (t' : ℕ) × IsWatermark connector after t' × (t ≤ t')
  pub others :
      (other : String) → other ≢ connector → cursor_of other after ≡ cursor_of other cursors

new_cursor-Advanced :
    (connector : String) (until : ℕ) (now : Stamp) (cursors : List Cursor)
    → cursor_of connector cursors ≡ none
    → Advanced connector until cursors (
        cursors
        ++ record { connector_id = connector; completed_through = format until; updated_at = now }
          ∷ [])
new_cursor-Advanced connector until now cursors e =
    let there =
      cursor_of-append_same connector
        (record { connector_id = connector; completed_through = format until; updated_at = now })
        cursors (eq_refl connector) e in
    record {
      reached = (until, (_, there, parse-format until), omega arith);
      kept = λ t w. absurd (cc (e, w.1));
      others = λ other ne.
          cursor_of-append_other other _ cursors (ground (arith, eq_iff connector other));
    }

same_instant :
    (connector : String) (cursors : List Cursor) (cursor : Cursor) (t t' : ℕ)
    → cursor_of connector cursors ≡ some cursor
    → parse cursor.completed_through ≡ some t
    → IsWatermark connector cursors t'
    → t' ≡ t
same_instant connector cursors cursor t t' e p (c, e', p') =
    let same : c ≡ cursor = cc in
    let here : parse cursor.completed_through ≡ some t' = rw (← same) p' in cc

move_cursor-Advanced :
    (connector : String) (until t : ℕ) (now : Stamp) (cursors : List Cursor) (cursor : Cursor)
    (behind : Bool)
    → cursor_of connector cursors ≡ some cursor
    → parse cursor.completed_through ≡ some t
    → ltb t until ≡ behind
    → Advanced connector until cursors
        (if behind then move_cursor connector (format until) now cursors else cursors)
move_cursor-Advanced connector until t now cursors cursor true e p b =
    let there = cursor_of-move_cursor_same connector (format until) now cursors cursor e in
    record {
      reached = (until, (_, there, parse-format until), omega arith);
      kept = λ t' w. (
        until,
        (_, there, parse-format until),
        (let eq : t' ≡ t = same_instant connector cursors cursor t t' e p w in
            omega (arith, eq, ltb→lt t until b)),
      );
      others =
          λ other ne. cursor_of-move_cursor_other connector other (format until) now cursors ne;
    }
move_cursor-Advanced connector until t now cursors cursor false e p b = record {
  reached = (t, (cursor, e, p), ground arith);
  kept = λ t' w. (t', w, omega arith);
  others = λ other ne. refl;
}

advance_from-Advanced :
    (o : Option Cursor) (connector : String) (until : ℕ) (now : Stamp) (cursors : List Cursor)
    → cursor_of connector cursors ≡ o
    → Ensures (Advanced connector until cursors) (advance_from o connector until now cursors)
unfolding advance_from
advance_from-Advanced none connector until now cursors e =
    returns _ (new_cursor-Advanced connector until now cursors e)
advance_from-Advanced (some cursor) connector until now cursors e =
    Ensures-bind _ (Ensures-of_ok _ (parsed-eq-ok cursor.completed_through)) λ t p.
      returns _ (move_cursor-Advanced connector until t now cursors cursor (ltb t until) e p refl)

pub advance_cursor-Advanced :
    (connector : String) (until : ℕ) (now : Stamp) (cursors : List Cursor)
    → Ensures (Advanced connector until cursors) (advance_cursor connector until now cursors)
unfolding advance_cursor
advance_cursor-Advanced connector until now cursors =
    advance_from-Advanced (cursor_of connector cursors) connector until now cursors refl
