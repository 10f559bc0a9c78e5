-- ===== src/Commands/Outcomes.antt =====
-- What each command leaves behind.
use workgraph.Common.{
  ℕ, String, ◌≡◌, refl, ap, ◌∙◌, Bool, true, false, some, ◌==◌, Result, ok, arith, if◌then◌else◌,
  trim_space, to_lower, Ensures, returns, Ensures-bind, Ensures-after, Ensures-guard, Ensures-of_ok,
  Ensures-ok, Ensures-mono,
}
use workgraph.Registry.{
  normalize_connector_id, validate_bridgeable_connector, validate_directable_connector,
}
use workgraph.Runtime.{RuntimeEntry, RuntimeFile, entry, connector_enabled, connector_capture_mode}
use workgraph.Outbox.{Store}
use workgraph.Commands.{
  Checks, with_entry_of, set_up, set_direct, set_bridged, validate_mode, set_connector_mode,
}
use workgraph.Commands.Polling.{connector_ready_for_polling, has_no_issue, may_poll}
use workgraph.Commands.Effects.{
  NoneActive, cancel_active_capture_requests-NoneActive, entry-set_entry,
}

-- A connector in direct mode, which no worker captures for.
pub record IsDirect (id : String) (store : Store) : Type 0 where
  pub mode : connector_capture_mode store.runtime id ≡ "direct"
  pub idle : NoneActive id store.requests

-- A connector in bridged mode that the daemon captures for.
pub record IsBridged (validated : String → String → Result String) (id : String) (store : Store)
    : Type 0 where
  pub mode : connector_capture_mode store.runtime id ≡ "bridged"
  pub enabled : connector_enabled store.runtime id ≡ true
  pub ready : connector_ready_for_polling validated store.runtime id ≡ true

pub entry-with_entry_of :
    (id : String) (e : RuntimeEntry) (store : Store)
    → entry (with_entry_of id e store).runtime id ≡ e
unfolding with_entry_of
entry-with_entry_of id e store = entry-set_entry store.runtime id e

pub mode-by :
    (file : RuntimeFile) (id : String) (mode : String)
    → (entry file id).capture_mode ≡ mode
    → connector_capture_mode file id
      ≡ (if to_lower (trim_space mode) == "bridged" then "bridged" else "direct")
unfolding connector_capture_mode
mode-by file id mode h = rw h refl

set_direct-IsDirect :
    (id : String) (now : ℕ) (store : Store) → IsDirect id (set_direct id now store)
unfolding set_direct with_entry_of to_lower trim_space
set_direct-IsDirect id now store = record {
  mode = mode-by _ id "direct" (ap (λ e. e.capture_mode) (entry-set_entry store.runtime id _));
  idle = cancel_active_capture_requests-NoneActive id now store;
}

ready-by :
    (validated : String → String → Result String) (file : RuntimeFile) (id : String)
    (e : RuntimeEntry)
    → entry file id ≡ e
    → e.setup_state ≡ "ready"
    → has_no_issue validated id e.bridge_params ≡ true
    → connector_capture_mode file id ≡ "bridged"
    → connector_ready_for_polling validated file id ≡ true
unfolding connector_ready_for_polling may_poll trim_space
ready-by validated file id e h s i m =
    let state : (entry file id).setup_state ≡ "ready" = ap (λ d. d.setup_state) h ∙ s in
    let issue : has_no_issue validated id (entry file id).bridge_params ≡ true =
      ap (λ d. has_no_issue validated id d.bridge_params) h ∙ i in
    rw (m, issue, state) (ground arith)

pub enabled-by :
    (file : RuntimeFile) (id : String) (b : Bool)
    → (entry file id).enabled ≡ some b
    → connector_enabled file id ≡ b
unfolding connector_enabled
enabled-by file id b h = rw (connector_enabled, h) refl

pub entry-IsBridged :
    (validated : String → String → Result String) (id : String) (store : Store) (e : RuntimeEntry)
    → entry store.runtime id ≡ e
    → e.capture_mode ≡ "bridged"
    → e.enabled ≡ some true
    → e.setup_state ≡ "ready"
    → has_no_issue validated id e.bridge_params ≡ true
    → IsBridged validated id store
unfolding to_lower trim_space
entry-IsBridged validated id store e h c n s i =
    let mode = mode-by store.runtime id "bridged" (ap (λ d. d.capture_mode) h ∙ c) in
    record {
      mode = mode;
      enabled = enabled-by store.runtime id true (ap (λ d. d.enabled) h ∙ n);
      ready = ready-by validated store.runtime id e h s i mode;
    }

pub no_issue-by :
    (validated : String → String → Result String) (id params out : String) (u : Unit {0})
    → validate_bridgeable_connector id ≡ ok u
    → validated id params ≡ ok out
    → has_no_issue validated id params ≡ true
unfolding has_no_issue
no_issue-by validated id params out u b h = rw (b, h) refl

set_bridged-IsBridged :
    (checks : Checks) (id : String) (u : Unit {0}) (store : Store)
    → validate_bridgeable_connector id ≡ ok u
    → Ensures (IsBridged checks.validated id) (set_bridged checks id store)
unfolding set_bridged set_up
set_bridged-IsBridged checks id u store b =
    Ensures-bind _
      (Ensures-of_ok (checks.validated id (entry store.runtime id).bridge_params) λ out h. h)
      λ out h. returns _ (
        entry-IsBridged checks.validated id _ _
          (entry-with_entry_of id (set_up (entry store.runtime id)) store) refl refl refl
          (no_issue-by checks.validated id _ out u b h))

-- What the mode of a connector comes to.
abbrev pub AsMode : Bool → Checks → String → Store → Type 0
AsMode true checks id store = IsDirect id store
AsMode false checks id store = IsBridged checks.validated id store

set_mode-AsMode :
    (direct : Bool) (checks : Checks) (id : String) (u : Unit {0}) (now : ℕ) (store : Store)
    → (if direct then validate_directable_connector id else validate_bridgeable_connector id) ≡ ok u
    → Ensures
        (AsMode direct checks id)
        (if direct then ok (set_direct id now store) else set_bridged checks id store)
set_mode-AsMode true checks id u now store h = returns _ (set_direct-IsDirect id now store)
set_mode-AsMode false checks id u now store h = set_bridged-IsBridged checks id u store h

abbrev pub ModeSet : Checks → String → String → Store → Type 0
ModeSet checks raw_id raw_mode after =
    (id : String) × (normalize_connector_id raw_id ≡ ok id)
    × AsMode (to_lower (trim_space raw_mode) == "direct") checks id after

-- A mode that is set is in force: in direct mode the connector has no active request; in bridged mode it
-- is enabled and ready for polling.
pub set_connector_mode_lem :
    (checks : Checks) (raw_id raw_mode : String) (now : ℕ) (store after : Store)
    → set_connector_mode checks raw_id raw_mode now store ≡ ok after
    → ModeSet checks raw_id raw_mode after
unfolding set_connector_mode validate_mode
set_connector_mode_lem checks raw_id raw_mode now store after =
    let mode = to_lower (trim_space raw_mode) in
    Ensures-ok {P = ModeSet checks raw_id raw_mode} (
      Ensures-bind _ (Ensures-of_ok (normalize_connector_id raw_id) λ id h. h) λ id h.
        Ensures-guard _ _ _ λ _.
          Ensures-bind _ (Ensures-of_ok (validate_mode mode id) λ u v. v) λ u v.
            Ensures-after _ λ _.
              Ensures-mono _ (set_mode-AsMode (mode == "direct") checks id u now store v)
                λ s m. (id, h, m))
