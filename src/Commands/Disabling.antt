-- ===== src/Commands/Disabling.antt =====
-- A connector that is disabled has no active request, and none is made.
use workgraph.Common.{
  ℕ, String, ◌≡◌, refl, sym, ap, ◌∙◌, false, Option, none, some, ◌==◌, Result, ok, ◌>>=◌, guard,
  Bool-cases, inl, inr, Ensures, returns, refuses, Ensures-bind, Ensures-after, Ensures-of_ok,
  Ensures-ok,
}
use workgraph.Clock.{Stamp}
use workgraph.Registry.{normalize_connector_id, validate_bridgeable_connector}
use workgraph.Runtime.{connector_enabled, connector_capture_mode}
use workgraph.Outbox.{Request, Store}
use workgraph.Outbox.Rows.{IsWellFormed}
use workgraph.Outbox.Cancel.{cancel_active_found, cancel_connector_capture_request}
use workgraph.Outbox.Emit.{emit_bridged_capture_request}
use workgraph.Commands.{Checks, with_entry_of, disable, set_connector_enabled}
use workgraph.Commands.Effects.{NoneActive, cancel_connector_capture_request-NoneActive}
use workgraph.Commands.Outcomes.{enabled-by, entry-with_entry_of}

-- An operation that fails.
abbrev pub Refuses {ℓ} : {A : Type ℓ} → Result A → Type ℓ
Refuses {A} m = Ensures {A = A} (λ a. ⊥) m

-- A connector that is out of service.
pub record IsDisabled (raw id : String) (before store : Store) : Type 0 where
  pub stopped : connector_enabled store.runtime id ≡ false
  pub idle : connector_capture_mode store.runtime id ≡ "bridged" → NoneActive id store.requests
  pub not_bridged :
      (connector_capture_mode store.runtime id == "bridged") ≡ false
      → store.requests ≡ before.requests
  pub cursors : store.cursors ≡ before.cursors
  pub closed :
      (validated : String → String → Result String) (new : String) (now : ℕ)
      → Refuses (emit_bridged_capture_request validated new raw now store)

emit-Refuses :
    (validated : String → String → Result String) (new raw id : String) (now : ℕ) (store : Store)
    → normalize_connector_id raw ≡ ok id
    → connector_enabled store.runtime id ≡ false
    → Refuses (emit_bridged_capture_request validated new raw now store)
unfolding emit_bridged_capture_request ◌>>=◌ guard
emit-Refuses validated new raw id now store h e =
    rw h (Ensures-after (validate_bridgeable_connector id) λ _. rw e (refuses _))

cancel_found-runtime :
    (reason : String) (now : Stamp) (o : Option Request) (store : Store)
    → (cancel_active_found reason now o store).0.runtime ≡ store.runtime
unfolding cancel_active_found
cancel_found-runtime reason now none store = refl
cancel_found-runtime reason now (some a) store = refl

disable-runtime :
    (id : String) (now : ℕ) (store : Store) → (disable id now store).0.runtime ≡ store.runtime
unfolding disable cancel_connector_capture_request
disable-runtime id now store =
    elim (Bool-cases (connector_capture_mode store.runtime id == "bridged")) [
      | inl h ↦ rw h (cancel_found-runtime _ _ _ store)
      | inr h ↦ rw h refl
    ]

disable-NoneActive :
    (id : String) (now : ℕ) (store : Store)
    → IsWellFormed store.requests
    → connector_capture_mode store.runtime id ≡ "bridged"
    → NoneActive id (disable id now store).0.requests
unfolding disable
disable-NoneActive id now store w h =
    rw h (cancel_connector_capture_request-NoneActive id "connector disabled" now store w.distinct)

cancel_found-cursors :
    (reason : String) (now : Stamp) (o : Option Request) (store : Store)
    → (cancel_active_found reason now o store).0.cursors ≡ store.cursors
unfolding cancel_active_found
cancel_found-cursors reason now none store = refl
cancel_found-cursors reason now (some a) store = refl

disable-cursors :
    (id : String) (now : ℕ) (store : Store) → (disable id now store).0.cursors ≡ store.cursors
unfolding disable cancel_connector_capture_request
disable-cursors id now store =
    elim (Bool-cases (connector_capture_mode store.runtime id == "bridged")) [
      | inl h ↦ rw h (cancel_found-cursors _ _ _ store)
      | inr h ↦ rw h refl
    ]

disable-not_bridged :
    (id : String) (now : ℕ) (store : Store)
    → (connector_capture_mode store.runtime id == "bridged") ≡ false
    → (disable id now store).0.requests ≡ store.requests
unfolding disable
disable-not_bridged id now store h = rw h refl

disable-IsDisabled :
    (raw id : String) (now : ℕ) (before store : Store)
    → normalize_connector_id raw ≡ ok id
    → IsWellFormed store.requests
    → connector_enabled store.runtime id ≡ false
    → store.requests ≡ before.requests
    → store.cursors ≡ before.cursors
    → IsDisabled raw id before (disable id now store).0
disable-IsDisabled raw id now before store n w e rows cursors =
    let same = disable-runtime id now store in
    let stopped = ap (λ file. connector_enabled file id) same ∙ e in
    record {
      stopped = stopped;
      idle = λ h.
          disable-NoneActive id now store w
            (ap (λ file. connector_capture_mode file id) (sym same) ∙ h);
      not_bridged = λ h.
          disable-not_bridged id now store
            (ap (λ file. connector_capture_mode file id == "bridged") (sym same) ∙ h)
          ∙ rows;
      cursors = disable-cursors id now store ∙ cursors;
      closed = λ validated new t. emit-Refuses validated new raw id t _ n stopped;
    }

abbrev pub Disabled : String → Store → Store × Option Request → Type 0
Disabled raw before result =
    (id : String) × (normalize_connector_id raw ≡ ok id) × IsDisabled raw id before result.0

-- Where the outbox is well formed, a connector that is disabled is not enabled, and no capture can be
-- emitted for it, whatever its mode. If its mode is bridged, it has no active request; if it is not, an
-- active request stays as it was, since no request changes. No watermark changes.
pub set_connector_enabled_off :
    (checks : Checks) (raw : String) (now : ℕ) (store : Store) (result : Store × Option Request)
    → IsWellFormed store.requests
    → set_connector_enabled checks raw false now store ≡ ok result
    → Disabled raw store result
unfolding set_connector_enabled with_entry_of
set_connector_enabled_off checks raw now store result w = Ensures-ok {P = Disabled raw store} (
    Ensures-bind _ (Ensures-of_ok (normalize_connector_id raw) λ id h. h) λ id h.
      Ensures-after _ λ _. Ensures-after _ λ _. returns _ (
        id,
        h,
        disable-IsDisabled raw id now store _ h w
            (enabled-by _ id false (ap (λ e. e.enabled) (entry-with_entry_of id _ store))) refl
            refl,
      ))
