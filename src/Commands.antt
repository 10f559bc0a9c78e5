-- ===== src/Commands.antt =====
-- The commands that configure a connector (connector.go): its mode, its scope, whether it is enabled,
-- and its interval. They change the runtime file, and the outbox with it.
--
-- The managed settings, the checks on a scope's JSON and on the Azure CLI, and the tables of the PR
-- watch are arguments. An interval is none where it is below 0. The texts of the answers are left out.
pub mod Polling
pub mod Settings
pub mod Effects
pub mod Outcomes
pub mod Scope
pub mod Disabling
pub mod History
mod Examples
use workgraph.Common.{
  ℕ, zero, suc, String, Bool, true, false, not, ◌&&◌, ◌||◌, Option, none, some, ◌==◌, Result, ok,
  err, ◌>>=◌, guard, ltb, trim_space, to_lower, if◌then◌else◌, bad_capture_mode,
  authentication_unsupported, bad_interval,
}
use workgraph.Clock.{Stamp, format_seconds, second, minute}
use workgraph.Registry.{
  github_pr_watch_connector_id, normalize_connector_id, validate_bridgeable_connector,
  validate_directable_connector,
}
use workgraph.Runtime.{
  RuntimeEntry, RuntimeFile, Interval, span, entry, set_entry, connector_capture_mode,
}
use workgraph.Outbox.{Request, Store, Cursor, reset_capture_cursor}
use workgraph.Outbox.Cancel.{cancel_connector_capture_request, cancel_active_capture_requests}

-- What the commands ask of code that is not modelled.
pub record Checks : Type 0 where
  -- enforceConnectorManagedSettings
  pub managed : String → Result (Unit {0})
  -- validatedBridgeParams
  pub validated : String → String → Result String
  -- bridgeParamsWithAuthentication
  pub with_authentication : String → String → Result String
  -- bridgeAuthentication
  pub authentication : String → String
  -- validateAzureCLIAuthentication
  pub azure_cli : Result (Unit {0})
  -- The text of a scope as connectors.json has it, where it is read back: json.MarshalIndent lays it
  -- out on lines of their own, whatever its layout was. A text that is laid out so is left as it is,
  -- so a command that does not set a scope keeps it.
  pub laid_out : String → String
  -- setGitHubPRWatchEnabled, by the watch's scope
  pub watch_enabled : String → Bool → Result (Unit {0})

unfoldable pub with_entry_of : String → RuntimeEntry → Store → Store
unfolding set_entry
with_entry_of id e store = record store { runtime = set_entry store.runtime id e }

-- What a bridged connector's entry has once it is set up.
unfoldable pub set_up : RuntimeEntry → RuntimeEntry
set_up e = record e {
  enabled = some true;
  capture_mode = "bridged";
  setup_state = "ready";
  last_validation_error = "";
  last_error = "";
  next_poll = none;
  consecutive_failures = 0;
}

unfoldable pub set_direct : String → ℕ → Store → Store
unfolding cancel_active_capture_requests with_entry_of entry
set_direct id now store =
    with_entry_of id (record (entry store.runtime id) { capture_mode = "direct" })
      (cancel_active_capture_requests id now store)

unfoldable pub set_bridged : Checks → String → Store → Result Store
unfolding with_entry_of entry set_up
set_bridged checks id store = do
  _ ← checks.validated id (entry store.runtime id).bridge_params
  ok (with_entry_of id (set_up (entry store.runtime id)) store)

unfoldable pub validate_mode : String → String → Result (Unit {0})
unfolding validate_directable_connector validate_bridgeable_connector
validate_mode mode id =
    if mode == "direct" then validate_directable_connector id else validate_bridgeable_connector id

unfoldable pub set_connector_mode : Checks → String → String → ℕ → Store → Result Store
unfolding normalize_connector_id trim_space to_lower validate_mode set_direct set_bridged
set_connector_mode checks raw_id raw_mode now store = do
  id ← normalize_connector_id raw_id
  let mode = to_lower (trim_space raw_mode)
  _ ← guard (mode == "direct" || mode == "bridged") bad_capture_mode
  _ ← validate_mode mode id
  _ ← checks.managed id
  if mode == "direct" then ok (set_direct id now store) else set_bridged checks id store

-- The active requests of a connector are cancelled and its watermark is forgotten.
unfoldable pub reset_scope : String → ℕ → Store → Store
unfolding cancel_active_capture_requests reset_capture_cursor
reset_scope id now store =
    let cancelled = cancel_active_capture_requests id now store in
    record cancelled { cursors = reset_capture_cursor id cancelled.cursors }

unfoldable pub with_interval : ℕ → RuntimeEntry → RuntimeEntry
with_interval zero e = e
with_interval (suc n) e = record e { interval = span (suc n) }

unfoldable pub interval_given : Option ℕ → Result ℕ
interval_given none = err bad_interval
interval_given (some n) = ok n

pub record BridgeConfig : Type 0 where
  pub id : String
  pub bridge_params : String
  pub authentication : String
  pub interval : Option ℕ
  pub now : ℕ

-- The scope of the entry, as connectors.json has it, against a new one, as it was validated.
unfoldable pub scope_changed : RuntimeEntry → String → Bool
unfolding trim_space
scope_changed e params =
    e.capture_mode == "bridged" && not (trim_space e.bridge_params == trim_space params)

-- The part of ConfigureBridgedConnector that holds the lock.
unfoldable pub configure_scope : Checks → String → String → ℕ → ℕ → Store → Store
unfolding scope_changed reset_scope with_entry_of entry set_up with_interval
configure_scope checks id params interval now store =
    let e = entry store.runtime id in
    with_entry_of id
      (with_interval interval (record (set_up e) { bridge_params = checks.laid_out params }))
      (if scope_changed e params then reset_scope id now store else store)

unfoldable pub configure_bridged_connector : Checks → BridgeConfig → Store → Result Store
unfolding normalize_connector_id trim_space interval_given configure_scope
configure_bridged_connector checks config store = do
  id ← normalize_connector_id config.id
  _ ←
      guard (trim_space config.authentication == "" || id == "azure.boards")
        authentication_unsupported
  input ← checks.with_authentication config.bridge_params config.authentication
  params ← checks.validated id input
  interval ← interval_given config.interval
  _ ← checks.managed id
  _ ←
      if id == "azure.boards" && checks.authentication params == "azcli"
      then checks.azure_cli
      else ok tt
  ok (configure_scope checks id params interval config.now store)

abbrev github_default_params : String
github_default_params =
    "{\"scope\":\"participant\",\"identity\":\"@me\",\"include\":[\"involves\",\"review_requested\"],\"always_repositories\":[],\"bootstrap_lookback\":\"168h\"}"

unfoldable pub set_github_params : Checks → String → ℕ → Store → Store
unfolding trim_space with_entry_of entry reset_scope
set_github_params checks params now store =
    let e = entry store.runtime "github" in
    let written =
      with_entry_of "github" (record e { bridge_params = checks.laid_out params }) store in
    if not (trim_space e.bridge_params == "")
      && not (trim_space e.bridge_params == trim_space params)
    then reset_scope "github" now written
    else written

unfoldable pub configure_github_capture_params : Checks → String → ℕ → Store → Result Store
unfolding trim_space set_github_params
configure_github_capture_params checks raw now store = do
  params ← checks.validated "github" (if trim_space raw == "" then github_default_params else raw)
  ok (set_github_params checks params now store)

-- Disabling a bridged connector cancels its active request, which is returned.
unfoldable pub disable : String → ℕ → Store → Store × Option Request
unfolding connector_capture_mode cancel_connector_capture_request
disable id now store =
    if connector_capture_mode store.runtime id == "bridged"
    then cancel_connector_capture_request id "connector disabled" now store
    else (store, none)

unfoldable pub set_connector_enabled :
    Checks → String → Bool → ℕ → Store → Result (Store × Option Request)
unfolding normalize_connector_id with_entry_of entry disable
set_connector_enabled checks raw_id enabled now store = do
  id ← normalize_connector_id raw_id
  _ ← if enabled then checks.managed id else ok tt
  _ ←
      if id == github_pr_watch_connector_id
      then checks.watch_enabled (entry store.runtime id).bridge_params enabled
      else ok tt
  let written = with_entry_of id (record (entry store.runtime id) { enabled = some enabled }) store
  ok (if enabled then (written, none) else disable id now written)
