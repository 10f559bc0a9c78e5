-- ===== src/Commands/Scope.antt =====
-- A change of a connector's scope starts its captures anew.
use workgraph.Common.{
  ℕ, zero, suc, ◌-◌, String, ◌≡◌, refl, ap, ◌∙◌, true, false, ◌&&◌, Option, none, some, List, [],
  ◌∷◌, Result, ok, ◌>>=◌, Bool-cases, inl, inr, if◌then◌else◌, arith, ◌==◌, trim_space, Ensures,
  returns, Ensures-bind, Ensures-after, Ensures-guard, Ensures-of_ok, Ensures-ok, select,
}
use workgraph.Clock.{format, Stamp, day}
use workgraph.Registry.{normalize_connector_id}
use workgraph.Runtime.{RuntimeEntry, entry}
use workgraph.Outbox.{
  Request, Store, with_requests, find, update, is_active_for, is_claimed, has_id, cursor_of,
}
use workgraph.Outbox.Recycle.{requeue, requeue_each, has_expired, recycle_expired_capture_claims}
use workgraph.Outbox.Emit.{
  Emitted, emit_bridged_capture_request, emit_for, join_or_emit, window_request, emit_new,
  capture_since, new_request,
}
use workgraph.Commands.{
  Checks, BridgeConfig, with_entry_of, set_up, with_interval, reset_scope, scope_changed,
  configure_scope, configure_bridged_connector,
}
use workgraph.Commands.Effects.{
  NoneActive, cancel_active_capture_requests-NoneActive, cursor_of-reset_capture_cursor,
}
use workgraph.Commands.Outcomes.{entry-with_entry_of}

requeue-inactive :
    (id other : String) (at : Stamp) (error : String) (r : Request)
    → is_active_for id r ≡ false
    → is_active_for id (if has_id other r && is_claimed r.status then requeue at error r else r)
      ≡ false
unfolding is_active_for requeue
requeue-inactive id other at error r h = ground arith

update_requeue-NoneActive :
    (id other : String) (at : Stamp) (error : String) (rows : List Request)
    → NoneActive id rows
    → NoneActive id (update (λ r. has_id other r && is_claimed r.status) (requeue at error) rows)
unfolding update find
update_requeue-NoneActive id other at error [] h = refl
update_requeue-NoneActive id other at error (r ∷ rows) h = elim (Bool-cases (is_active_for id r)) [
  | inl e ↦ let found : some r ≡ none = (rw e at h) in absurd (cc found)
  | inr e ↦
      let rest : NoneActive id rows = (rw e at h) in
      rw (requeue-inactive id other at error r e)
        (update_requeue-NoneActive id other at error rows rest)
]

requeue_each-NoneActive :
    (id : String) (now : ℕ) (claims rows : List Request)
    → NoneActive id rows
    → NoneActive id (requeue_each now claims rows)
unfolding requeue_each
requeue_each-NoneActive id now [] rows h = h
requeue_each-NoneActive id now (c ∷ claims) rows h =
    requeue_each-NoneActive id now claims _ (update_requeue-NoneActive id c.id _ _ rows h)

recycle-NoneActive :
    (id : String) (now : ℕ) (rows : List Request)
    → NoneActive id rows
    → NoneActive id (recycle_expired_capture_claims now rows)
unfolding recycle_expired_capture_claims
recycle-NoneActive id now rows h =
    requeue_each-NoneActive id now (select (has_expired (format now)) rows) rows h

-- The capture of a connector that has no watermark and no active request.
abbrev pub IsFirst : ℕ → Store × Emitted → Type 0
IsFirst now result = (result.1.created ≡ true) × (result.1.request.since ≡ format (now - day))

window_request-first :
    (validated : String → String → Result String) (new id : String) (now : ℕ) (store : Store)
    → cursor_of id store.cursors ≡ none
    → Ensures (λ r. r.since ≡ format (now - day)) (window_request validated new id now store)
unfolding window_request capture_since new_request ◌>>=◌
window_request-first validated new id now store h =
    rw h
      (Ensures-after (validated id (entry store.runtime id).bridge_params) λ params. returns _ refl)

join-IsFirst :
    (validated : String → String → Result String) (new id : String) (now : ℕ) (o : Option Request)
    (store : Store)
    → o ≡ none
    → cursor_of id store.cursors ≡ none
    → Ensures (IsFirst now) (join_or_emit o validated new id now store)
unfolding join_or_emit emit_new
join-IsFirst validated new id now (some a) store o h = absurd (cc o)
join-IsFirst validated new id now none store o h =
    Ensures-bind _ (window_request-first validated new id now store h)
      λ request s. Ensures-after _ λ rows. returns _ (refl, s)

emit-IsFirst :
    (validated : String → String → Result String) (new raw id : String) (now : ℕ) (store : Store)
    → normalize_connector_id raw ≡ ok id
    → NoneActive id store.requests
    → cursor_of id store.cursors ≡ none
    → Ensures (IsFirst now) (emit_bridged_capture_request validated new raw now store)
unfolding emit_bridged_capture_request emit_for ◌>>=◌
emit-IsFirst validated new raw id now store n a c = rw n (
    Ensures-after _ λ _. Ensures-guard _ _ _ λ _.
      join-IsFirst validated new id now _
        (with_requests store (recycle_expired_capture_claims now store.requests))
        (recycle-NoneActive id now store.requests a) c)

-- What a configuration leaves of a connector: of one that was bridged with another text for its
-- scope, of one that was bridged with the same text, and of one that was not bridged.
pub record ScopeSet (checks : Checks) (config : BridgeConfig) (id params : String)
    (before after : Store) : Type 0 where
  pub stored : (entry after.runtime id).bridge_params ≡ checks.laid_out params
  pub enabled : (entry after.runtime id).enabled ≡ some true
  pub anew :
      (entry before.runtime id).capture_mode ≡ "bridged"
      → (trim_space (entry before.runtime id).bridge_params == trim_space params) ≡ false
      → (validated : String → String → Result String) (new : String) (now : ℕ)
      → Ensures (IsFirst now) (emit_bridged_capture_request validated new config.id now after)
  pub same_text :
      (trim_space (entry before.runtime id).bridge_params == trim_space params) ≡ true
      → (after.requests ≡ before.requests) × (after.cursors ≡ before.cursors)
  pub not_bridged :
      ((entry before.runtime id).capture_mode == "bridged") ≡ false
      → (after.requests ≡ before.requests) × (after.cursors ≡ before.cursors)
  pub again :
      (trim_space (checks.laid_out params) == trim_space params) ≡ false
      → scope_changed (entry after.runtime id) params ≡ true

with_interval-params :
    (n : ℕ) (e : RuntimeEntry)
    → ((with_interval n e).bridge_params ≡ e.bridge_params)
      × ((with_interval n e).enabled ≡ e.enabled)
      × ((with_interval n e).capture_mode ≡ e.capture_mode)
unfolding with_interval
with_interval-params zero e = (refl, refl, refl)
with_interval-params (suc n) e = (refl, refl, refl)

text-scope_changed :
    (e : RuntimeEntry) (params : String)
    → e.capture_mode ≡ "bridged"
    → (trim_space e.bridge_params == trim_space params) ≡ false
    → scope_changed e params ≡ true
unfolding scope_changed
text-scope_changed e params h g = rw (h, g) refl

same-scope_changed :
    (e : RuntimeEntry) (params : String)
    → (trim_space e.bridge_params == trim_space params) ≡ true
    → scope_changed e params ≡ false
unfolding scope_changed
same-scope_changed e params h = ground arith

direct-scope_changed :
    (e : RuntimeEntry) (params : String)
    → (e.capture_mode == "bridged") ≡ false
    → scope_changed e params ≡ false
unfolding scope_changed
direct-scope_changed e params h = ground arith

configured_entry :
    (checks : Checks) (id params : String) (interval now : ℕ) (store : Store)
    → entry (configure_scope checks id params interval now store).runtime id
      ≡ with_interval interval
          (record (set_up (entry store.runtime id)) { bridge_params = checks.laid_out params })
unfolding configure_scope
configured_entry checks id params interval now store =
    entry-with_entry_of id _
      (if scope_changed (entry store.runtime id) params then reset_scope id now store else store)

configure_scope-reset :
    (checks : Checks) (id params : String) (interval now : ℕ) (store : Store)
    → scope_changed (entry store.runtime id) params ≡ true
    → NoneActive id (configure_scope checks id params interval now store).requests
      × (cursor_of id (configure_scope checks id params interval now store).cursors ≡ none)
unfolding configure_scope with_entry_of reset_scope
configure_scope-reset checks id params interval now store h = rw h (
  cancel_active_capture_requests-NoneActive id now store,
  cursor_of-reset_capture_cursor id store.cursors,
)

configure_scope-kept :
    (checks : Checks) (id params : String) (interval now : ℕ) (store : Store)
    → scope_changed (entry store.runtime id) params ≡ false
    → ((configure_scope checks id params interval now store).requests ≡ store.requests)
      × ((configure_scope checks id params interval now store).cursors ≡ store.cursors)
unfolding configure_scope with_entry_of
configure_scope-kept checks id params interval now store h = rw h (refl, refl)

configure_scope-ScopeSet :
    (checks : Checks) (config : BridgeConfig) (id params : String) (interval : ℕ) (store : Store)
    → normalize_connector_id config.id ≡ ok id
    → ScopeSet checks config id params store
        (configure_scope checks id params interval config.now store)
unfolding set_up
configure_scope-ScopeSet checks config id params interval store n =
    let written = configured_entry checks id params interval config.now store in
    let kept =
      with_interval-params interval
        (record (set_up (entry store.runtime id)) { bridge_params = checks.laid_out params }) in
    record {
      stored = ap (λ e. e.bridge_params) written ∙ kept.0;
      enabled = ap (λ e. e.enabled) written ∙ kept.1;
      anew = λ bridged other validated new now.
          let r =
            configure_scope-reset checks id params interval config.now store
              (text-scope_changed _ params bridged other) in
          emit-IsFirst validated new config.id id now _ n r.0 r.1;
      same_text = λ same.
          configure_scope-kept checks id params interval config.now store
            (same-scope_changed _ params same);
      not_bridged = λ direct.
          configure_scope-kept checks id params interval config.now store
            (direct-scope_changed _ params direct);
      again = λ moved. text-scope_changed _ params (ap (λ e. e.capture_mode) written ∙ kept.2) (
          ap (λ e. trim_space e.bridge_params == trim_space params) written
          ∙ ap (λ p. trim_space p == trim_space params) kept.0
          ∙ moved);
    }

abbrev pub Configured : Checks → BridgeConfig → Store → Store → Type 0
Configured checks config before after =
    (id : String) × (params : String) × (normalize_connector_id config.id ≡ ok id)
    × ((input : String) × (checks.validated id input ≡ ok params))
    × ScopeSet checks config id params before after

-- A configuration that succeeds stores the scope as it was validated, laid out as connectors.json has
-- it, and enables the connector. If the connector was bridged, and the text of its stored scope is
-- not that of the validated one, the old request and watermark are gone: the next emission that
-- succeeds makes a new request, which starts a day before it. If the texts are the same, or the
-- connector was not bridged, whatever its scope was, no request and no watermark changes. Where
-- connectors.json lays the scope out anew, the same scope configured once more counts as another.
pub configure_bridged_connector_lem :
    (checks : Checks) (config : BridgeConfig) (store after : Store)
    → configure_bridged_connector checks config store ≡ ok after
    → Configured checks config store after
unfolding configure_bridged_connector
configure_bridged_connector_lem checks config store after =
    Ensures-ok {P = Configured checks config store} (
      Ensures-bind _ (Ensures-of_ok (normalize_connector_id config.id) λ id h. h) λ id h.
        Ensures-guard _ _ _ λ _. Ensures-after _ λ input.
          Ensures-bind _ (Ensures-of_ok (checks.validated id input) λ p v. v) λ params v.
            Ensures-after _ λ interval. Ensures-after _ λ _. Ensures-after _ λ _. returns _ (
              id,
              params,
              h,
              (input, v),
              configure_scope-ScopeSet checks config id params interval store h,
            ))
