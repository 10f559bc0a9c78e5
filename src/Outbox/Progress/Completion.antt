-- ===== src/Outbox/Progress/Completion.antt =====
-- A completion moves its connector's watermark to its request's end, and keeps what was reached.
use workgraph.Common.{
  ℕ, ◌≤◌, String, ◌≡◌, refl, sym, ap, subst, ◌∙◌, true, false, ◌&&◌, some, List, [], ◌∷◌, arith,
  inl, inr, Bool-cases, All, All-mono, eq_iff, ◌==◌, Ensures, returns, Ensures-bind, Ensures-of_ok,
  Ensures-exactly_one, not, trim_space,
}
use workgraph.Clock.{Stamp, format, parse}
use workgraph.Outbox.{Request, Store, Cursor, is_capture, has_id, find, update, affected}
use workgraph.Outbox.Rows.{IsWellFormed, Distinct}
use workgraph.Outbox.Watermark.{IsWatermark, Advanced, advance_cursor-Advanced}
use workgraph.Outbox.Covered.{Covered, Quiet, update_one-Quiet}
use workgraph.Outbox.Capability.{holds_live_claim, update_one}
use workgraph.Outbox.Progress.{Progresses, rows-Progresses}
use workgraph.Outbox.Complete.{
  complete_row, complete_claimed_capture_request, IngestConfig, ingest_claimed, complete_llm_task,
}
use workgraph.Outbox.Single.{same_id-conflicts}
use workgraph.Outbox.Holder.{found_request-eq-ok, parsed-eq-ok, find-has_id, holds_live_claim-ById}
use workgraph.Outbox.Ingest.{validly_claimed-same, store_events-Keeps}

pub complete_task-Progresses :
    (id token : String) (now : ℕ) (store : Store)
    → Ensures (Progresses store) (complete_llm_task id token now store)
unfolding complete_llm_task complete_row
complete_task-Progresses id token now store =
    Ensures-bind (Quiet store.requests)
      (update_one-Quiet _ _ store.requests
        λ r h cursors c done capture. absurd (cc (capture, not_capture r h)))
      λ rows q. returns _ (rows-Progresses store _ refl refl q)
  where
    not_capture :
        (r : Request)
        → (not (is_capture r.kind) && holds_live_claim id token (format now) r) ≡ true
        → is_capture r.kind ≡ false
    not_capture r h = ground arith

-- The row of an id is the one that is found under it.
only_row :
    (id : String) (rows : List Request) (c : Request)
    → Distinct rows
    → find (has_id id) rows ≡ some c
    → All (λ r. has_id id r ≡ true → r ≡ c) rows
unfolding find
only_row id [] c d h = tt
only_row id (x ∷ rows) c d h = elim (Bool-cases (has_id id x)) [
  | inl e ↦ (
    λ _. ground arith,
    All-mono _ _ (λ r apart k. absurd (same_id-conflicts id x r e k apart)) rows d.0,
  )
  | inr e ↦ ((λ k. absurd (cc (e, k))), only_row id rows c d.1 (ground arith))
]

-- A watermark that is reached, and others that are kept, cover a row that they covered.
Advanced-Covered :
    (connector : String) (until : ℕ) (cursors after : List Cursor) (r : Request)
    → Advanced connector until cursors after
    → Covered cursors r
    → Covered after r
Advanced-Covered connector until cursors after r a c done capture u p =
    let (t, w, le) = c done capture u p in
    elim (Bool-cases (r.connector_id == connector)) [
      | inl e ↦
          let same : r.connector_id ≡ connector = (eq_iff r.connector_id connector).0 e in
          let (t', w', le') = a.kept t (subst (λ id. IsWatermark id cursors t) same w) in
          (t', subst (λ id. IsWatermark id after t') (sym same) w', omega (arith, le, le'))
      | inr e ↦
          let other =
            a.others r.connector_id
              λ same. absurd (cc (e, (eq_iff r.connector_id connector).1 same)) in
          (t, (w.0, other ∙ w.1, w.2), le)
    ]

kept-Advanced :
    (connector : String) (until : ℕ) (cursors after : List Cursor) (other : String) (t : ℕ)
    → Advanced connector until cursors after
    → IsWatermark other cursors t
    → (t' : ℕ) × IsWatermark other after t' × (t ≤ t')
kept-Advanced connector until cursors after other t a w = elim (Bool-cases (other == connector)) [
  | inl e ↦
      let same : other ≡ connector = (eq_iff other connector).0 e in
      let (t', w', le) = a.kept t (subst (λ id. IsWatermark id cursors t) same w) in
      (t', subst (λ id. IsWatermark id after t') (sym same) w', le)
  | inr e ↦
      let kept = a.others other λ same. absurd (cc (e, (eq_iff other connector).1 same)) in
      (t, (w.0, kept ∙ w.1, w.2), omega arith)
]

-- The row of the claim ends by the watermark that its completion reached, and the others did before.
complete_rows-Covered :
    (claim : Request) (token : String) (now : Stamp) (until : ℕ) (cursors after : List Cursor)
    (rows : List Request)
    → Advanced claim.connector_id until cursors after
    → parse claim.until ≡ some until
    → All (λ r. has_id claim.id r ≡ true → r ≡ claim) rows
    → All (Covered cursors) rows
    → All (Covered after) (update (holds_live_claim claim.id token now) (complete_row now) rows)
unfolding update complete_row
complete_rows-Covered claim token now until cursors after [] a p only c = tt
complete_rows-Covered claim token now until cursors after (r ∷ rows) a p only c =
    let rest = complete_rows-Covered claim token now until cursors after rows a p only.1 c.1 in
    elim (Bool-cases (holds_live_claim claim.id token now r)) [
      | inl e ↦
          let same : r ≡ claim = only.0 (holds_live_claim-ById claim.id token now r e) in
          let (t, w, le) = a.reached in
          rw e (
            (λ done capture u q.
                let here : parse claim.until ≡ some u = rw (← same) q in
                let ends : u ≡ until = ground arith in
                (
                  t,
                  subst (λ id. IsWatermark id after t) (ap (λ x. x.connector_id) (sym same)) w,
                  omega (arith, le, ends),
                )),
            rest,
          )
      | inr e ↦ rw e (Advanced-Covered claim.connector_id until cursors after r a c.0, rest)
    ]

complete-Progresses :
    (claim : Request) (token : String) (now : Stamp) (store : Store)
    → All (λ r. has_id claim.id r ≡ true → r ≡ claim) store.requests
    → Ensures (Progresses store) (complete_claimed_capture_request claim token now store)
unfolding complete_claimed_capture_request update_one
complete-Progresses claim token now store only =
    let held = holds_live_claim claim.id token now in
    Ensures-bind (λ rows. rows ≡ update held (complete_row now) store.requests)
      (Ensures-exactly_one _ (affected held store.requests) _ refl)
      λ rows e. Ensures-bind _ (Ensures-of_ok _ (parsed-eq-ok claim.until)) λ until p.
        Ensures-bind _ (advance_cursor-Advanced claim.connector_id until now store.cursors)
          λ cursors a. returns _ (record {
            watermarks = λ other t w.
                kept-Advanced claim.connector_id until store.cursors cursors other t a w;
            events = λ id h. h;
            covered = λ c.
                subst (λ rows. All (Covered cursors) rows) (sym e)
                  (complete_rows-Covered claim token now until store.cursors cursors store.requests
                    a p only c);
          })

pub ingest-Progresses :
    (config : IngestConfig) (store : Store)
    → IsWellFormed store.requests
    → Ensures (λ r. Progresses store r.0) (ingest_claimed config store)
unfolding ingest_claimed
ingest-Progresses config store w =
    let id = trim_space config.request_id in
    Ensures-bind _ (Ensures-of_ok _ λ row e. found_request-eq-ok _ _ row e) λ row found.
      Ensures-bind (λ c. (c ≡ row) × (is_capture row.kind ≡ true))
        (Ensures-of_ok _ λ c e. validly_claimed-same row c config.claim_token config.checked_at e)
        λ claim same.
          let named : claim.id ≡ id =
            ap (λ r. r.id) same.0 ∙ find-has_id id store.requests row found in
          let only = only_row id store.requests row w.distinct found in
          let grown =
            store_events-Keeps config.events
              (record { events = store.events; inserted = 0; duplicate = 0 }) in
          Ensures-bind _
            (complete-Progresses claim config.claim_token (format config.now) _ (
              All-mono _ _ (λ r k h. k (subst (λ i. has_id i r ≡ true) named h) ∙ sym same.0)
                store.requests only))
            λ done p. returns _ (record {
              watermarks = p.watermarks;
              events = λ event h. p.events event (grown.lost_none event h);
              covered = p.covered;
            })
