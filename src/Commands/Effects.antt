-- ===== src/Commands/Effects.antt =====
-- What the commands' parts do to the active requests, the watermarks and the entries.
use workgraph.Common.{
  ℕ, String, ◌≡◌, refl, ap, ◌∙◌, Bool, true, false, Option, none, some, List, [], ◌∷◌, ◌==◌, arith,
  eq_iff, eq_refl, Bool-cases, inl, inr, if◌then◌else◌, All, All-mono, subst,
}
use workgraph.Clock.{Stamp, format}
use workgraph.Runtime.{RuntimeEntry, RuntimeFile, entry, set_entry}
use workgraph.Outbox.{
  Request, Cursor, Store, conflicts, is_active_for, find, update, cursor_of, reset_capture_cursor,
}
use workgraph.Outbox.Rows.{Distinct}
use workgraph.Outbox.Cancel.{
  is_open, cancel_row, cancel_active_row, cancel_active_found, cancel_connector_capture_request,
  cancel_active_capture_requests,
}

-- The connector has no active request.
abbrev pub NoneActive : String → List Request → Type 0
NoneActive id rows = find (is_active_for id) rows ≡ none

cancelled-inactive :
    (id : String) (now : Stamp) (r : Request)
    → is_active_for id (if is_active_for id r then cancel_active_row now r else r) ≡ false
unfolding is_active_for cancel_active_row
cancelled-inactive id now r = elim (Bool-cases (is_active_for id r)) [
  | inl h ↦ rw h (ground arith)
  | inr h ↦ rw h h
]

update_cancel-NoneActive :
    (id : String) (now : Stamp) (rows : List Request)
    → NoneActive id (update (is_active_for id) (cancel_active_row now) rows)
unfolding update find
update_cancel-NoneActive id now [] = refl
update_cancel-NoneActive id now (r ∷ rows) =
    rw (cancelled-inactive id now r) (update_cancel-NoneActive id now rows)

pub cancel_active_capture_requests-NoneActive :
    (id : String) (now : ℕ) (store : Store)
    → NoneActive id (cancel_active_capture_requests id now store).requests
unfolding cancel_active_capture_requests
cancel_active_capture_requests-NoneActive id now store =
    update_cancel-NoneActive id (format now) store.requests

-- The connector has no watermark.
pub cursor_of-reset_capture_cursor :
    (id : String) (cursors : List Cursor) → cursor_of id (reset_capture_cursor id cursors) ≡ none
unfolding reset_capture_cursor cursor_of
cursor_of-reset_capture_cursor id [] = refl
cursor_of-reset_capture_cursor id (c ∷ cs) = elim (Bool-cases (c.connector_id == id)) [
  | inl h ↦ rw h (cursor_of-reset_capture_cursor id cs)
  | inr h ↦ rw (h, h) (cursor_of-reset_capture_cursor id cs)
]

pub entry-set_entry :
    (file : RuntimeFile) (id : String) (e : RuntimeEntry) → entry (set_entry file id e) id ≡ e
unfolding entry set_entry
entry-set_entry [] id e = rw (eq_refl id) refl
entry-set_entry ((k, old) ∷ file) id e = elim (Bool-cases (k == id)) [
  | inl h ↦ rw (h, h) refl
  | inr h ↦ rw (h, h) (entry-set_entry file id e)
]

not_first : (k id other : String) → k ≡ id → (id == other) ≡ false → (k == other) ≡ false
not_first k id other e h = ap (λ x. x == other) e ∙ h

pub entry-set_entry_other :
    (file : RuntimeFile) (id : String) (e : RuntimeEntry) (other : String)
    → (id == other) ≡ false
    → entry (set_entry file id e) other ≡ entry file other
unfolding entry set_entry
entry-set_entry_other [] id e other h = rw h refl
entry-set_entry_other ((k, old) ∷ file) id e other h = elim (Bool-cases (k == id)) [
  | inl g ↦ rw (g, not_first k id other ((eq_iff k id).0 g) h) refl
  | inr g ↦ elim (Bool-cases (k == other)) [
    | inl f ↦ rw (g, f) refl
    | inr f ↦ rw (g, f) (entry-set_entry_other file id e other h)
  ]
]

cancel_row-inactive :
    (id : String) (now : Stamp) (reason : Option String) (b : Bool) (r : Request)
    → is_active_for id r ≡ false
    → is_active_for id (if b then cancel_row now reason r else r) ≡ false
unfolding is_active_for cancel_row
cancel_row-inactive id now reason true r h = ground arith
cancel_row-inactive id now reason false r h = h

-- Beside an active row of a connector there is none that is active for it.
apart-inactive :
    (id : String) (r s : Request)
    → is_active_for id r ≡ true
    → conflicts r s ≡ false
    → is_active_for id s ≡ false
unfolding is_active_for conflicts
apart-inactive id r s h c = ground (
  arith,
  eq_iff r.connector_id id,
  eq_iff s.connector_id id,
  eq_iff r.connector_id s.connector_id,
)

update-NoneActive :
    (id : String) (p : Request → Bool) (now : Stamp) (reason : Option String) (rows : List Request)
    → All (λ s. is_active_for id s ≡ false) rows
    → NoneActive id (update p (cancel_row now reason) rows)
unfolding update find
update-NoneActive id p now reason [] a = refl
update-NoneActive id p now reason (s ∷ rows) a =
    rw (cancel_row-inactive id now reason (p s) s a.0) (update-NoneActive id p now reason rows a.1)

open_cancelled-inactive :
    (id : String) (now : Stamp) (reason : Option String) (r : Request)
    → is_active_for id r ≡ true
    → is_active_for id (if is_open r.id r then cancel_row now reason r else r) ≡ false
unfolding is_active_for is_open cancel_row
open_cancelled-inactive id now reason r h = ground (arith, eq_refl r.id)

cancel_one-NoneActive :
    (id : String) (now : Stamp) (reason : Option String) (rows : List Request) (a : Request)
    → Distinct rows
    → find (is_active_for id) rows ≡ some a
    → NoneActive id (update (is_open a.id) (cancel_row now reason) rows)
unfolding find update
cancel_one-NoneActive id now reason [] a d h = absurd (cc h)
cancel_one-NoneActive id now reason (r ∷ rows) a d h = elim (Bool-cases (is_active_for id r)) [
  | inl e ↦
      let first : some r ≡ some a = (rw e at h) in
      let same : r ≡ a = cc first in
      subst
        (λ (x : Request). NoneActive id (update (is_open x.id) (cancel_row now reason) (r ∷ rows)))
        same
        (rw (open_cancelled-inactive id now reason r e) (
          update-NoneActive id (is_open r.id) now reason rows
            (All-mono _ _ (λ s c. apart-inactive id r s e c) rows d.0)))
  | inr e ↦
      let later : find (is_active_for id) rows ≡ some a = (rw e at h) in
      rw (cancel_row-inactive id now reason (is_open a.id r) r e)
        (cancel_one-NoneActive id now reason rows a d.1 later)
]

cancel_found-NoneActive :
    (id reason : String) (now : Stamp) (o : Option Request) (store : Store)
    → Distinct store.requests
    → find (is_active_for id) store.requests ≡ o
    → NoneActive id (cancel_active_found reason now o store).0.requests
unfolding cancel_active_found
cancel_found-NoneActive id reason now none store d h = h
cancel_found-NoneActive id reason now (some a) store d h =
    cancel_one-NoneActive id now (some reason) store.requests a d h

pub cancel_connector_capture_request-NoneActive :
    (id reason : String) (now : ℕ) (store : Store)
    → Distinct store.requests
    → NoneActive id (cancel_connector_capture_request id reason now store).0.requests
unfolding cancel_connector_capture_request
cancel_connector_capture_request-NoneActive id reason now store d =
    cancel_found-NoneActive id reason (format now) _ store d refl
