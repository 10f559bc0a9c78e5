-- ===== src/Commands/History.antt =====
-- Histories of the outbox in which the connectors are also configured.
use workgraph.Common.{
  ℕ, String, Bool, true, false, List, [], ◌∷◌, ◌==◌, ◌≡◌, ok, Bool-cases, inl, inr, Ensures,
  returns, Ensures-after, Ensures-guard, if◌then◌else◌, trim_space, to_lower, some,
}
use workgraph.Runtime.{entry, connector_capture_mode}
use workgraph.Outbox.{Request, Store, find, has_id}
use workgraph.Outbox.Rows.{IsWellFormed, Follows}
use workgraph.Outbox.Evolution.{Evolves-refl, Evolves-trans}
use workgraph.Outbox.Invariant.Claims.{StoreEvolves}
use workgraph.Outbox.Invariant.Requests.{cancel_active-Evolves, cancel_connector-Evolves}
use workgraph.Outbox.Calls.{Call, step, settle, settle_with}
use workgraph.Outbox.History.{step-Evolves, settle-Evolves, settle_with-Evolves}
use workgraph.Commands.{
  Checks, BridgeConfig, with_entry_of, set_direct, set_bridged, set_connector_mode, reset_scope,
  configure_scope, configure_bridged_connector, set_github_params, configure_github_capture_params,
  disable, set_connector_enabled,
}

pub data Action : Type 0 where
  calls : Call → Action
  sets_mode : String → String → ℕ → Action
  configures : BridgeConfig → Action
  configures_github : String → ℕ → Action
  sets_enabled : String → Bool → ℕ → Action

reset_scope-Evolves :
    (id : String) (now : ℕ) (store : Store) → StoreEvolves store (reset_scope id now store)
unfolding reset_scope
reset_scope-Evolves id now store = cancel_active-Evolves id now store

set_mode-Evolves :
    (direct : Bool) (checks : Checks) (id : String) (now : ℕ) (store : Store)
    → Ensures
        (StoreEvolves store)
        (if direct then ok (set_direct id now store) else set_bridged checks id store)
unfolding set_direct set_bridged with_entry_of
set_mode-Evolves true checks id now store = returns _ (cancel_active-Evolves id now store)
set_mode-Evolves false checks id now store = Ensures-after _ λ _. returns _ (Evolves-refl _)

mode-Evolves :
    (checks : Checks) (raw_id raw_mode : String) (now : ℕ) (store : Store)
    → Ensures (StoreEvolves store) (set_connector_mode checks raw_id raw_mode now store)
unfolding set_connector_mode
mode-Evolves checks raw_id raw_mode now store = Ensures-after _ λ id. Ensures-guard _ _ _ λ _.
    Ensures-after _ λ _.
      Ensures-after _
        λ _. set_mode-Evolves (to_lower (trim_space raw_mode) == "direct") checks id now store

if-Evolves :
    (b : Bool) (store changed : Store)
    → StoreEvolves store changed
    → StoreEvolves store (if b then changed else store)
if-Evolves true store changed h = h
if-Evolves false store changed h = Evolves-refl _

configure-Evolves :
    (checks : Checks) (config : BridgeConfig) (store : Store)
    → Ensures (StoreEvolves store) (configure_bridged_connector checks config store)
unfolding configure_bridged_connector configure_scope with_entry_of
configure-Evolves checks config store = Ensures-after _ λ id. Ensures-guard _ _ _ λ _.
    Ensures-after _ λ _. Ensures-after _ λ _. Ensures-after _ λ _. Ensures-after _ λ _.
      Ensures-after _
        λ _. returns _ (if-Evolves _ store _ (reset_scope-Evolves id config.now store))

github-Evolves :
    (checks : Checks) (raw : String) (now : ℕ) (store : Store)
    → Ensures (StoreEvolves store) (configure_github_capture_params checks raw now store)
unfolding configure_github_capture_params set_github_params with_entry_of
github-Evolves checks raw now store = Ensures-after _ λ params.
    let e = record (entry store.runtime "github") { bridge_params = checks.laid_out params } in
    let written = with_entry_of "github" e store in
    returns _ (
      if-Evolves _ written (reset_scope "github" now written)
        (reset_scope-Evolves "github" now written))

disable-Evolves :
    (id : String) (now : ℕ) (store : Store) → StoreEvolves store (disable id now store).0
unfolding disable
disable-Evolves id now store =
    elim (Bool-cases (connector_capture_mode store.runtime id == "bridged")) [
      | inl h ↦ rw h (cancel_connector-Evolves id "connector disabled" now store)
      | inr h ↦ rw h (Evolves-refl _)
    ]

enabled-Evolves :
    (checks : Checks) (raw : String) (enabled : Bool) (now : ℕ) (store : Store)
    → Ensures (λ r. StoreEvolves store r.0) (set_connector_enabled checks raw enabled now store)
unfolding set_connector_enabled with_entry_of
enabled-Evolves checks raw true now store =
    Ensures-after _ λ id. Ensures-after _ λ _. Ensures-after _ λ _. returns _ (Evolves-refl _)
enabled-Evolves checks raw false now store =
    Ensures-after _
      λ id. Ensures-after _ λ _. Ensures-after _ λ _. returns _ (disable-Evolves id now _)

module _ (checks : Checks) where
  unfoldable pub act : Store → Action → Store
  unfolding step set_connector_mode configure_bridged_connector configure_github_capture_params
      set_connector_enabled
  act store (calls c) = step checks.validated store c
  act store (sets_mode id mode now) = settle store (set_connector_mode checks id mode now store)
  act store (configures config) = settle store (configure_bridged_connector checks config store)
  act store (configures_github params now) =
      settle store (configure_github_capture_params checks params now store)
  act store (sets_enabled id enabled now) =
      settle_with store (set_connector_enabled checks id enabled now store)

  unfoldable pub act_all : Store → List Action → Store
  unfolding act
  act_all store [] = store
  act_all store (a ∷ rest) = act_all (act store a) rest

  act-Evolves : (store : Store) (a : Action) → StoreEvolves store (act store a)
  unfolding act
  act-Evolves store (calls c) = step-Evolves checks.validated store c
  act-Evolves store (sets_mode id mode now) =
      settle-Evolves store _ (mode-Evolves checks id mode now store)
  act-Evolves store (configures config) =
      settle-Evolves store _ (configure-Evolves checks config store)
  act-Evolves store (configures_github params now) =
      settle-Evolves store _ (github-Evolves checks params now store)
  act-Evolves store (sets_enabled id enabled now) =
      settle_with-Evolves store _ (enabled-Evolves checks id enabled now store)

  act_all-Evolves :
      (store : Store) (actions : List Action) → StoreEvolves store (act_all store actions)
  unfolding act_all
  act_all-Evolves store [] = Evolves-refl _
  act_all-Evolves store (a ∷ rest) =
      Evolves-trans _ _ _ (act-Evolves store a) (act_all-Evolves (act store a) rest)

  -- Whatever calls and commands follow each other, from well-formed rows: the rows stay well formed, and
  -- each request is still found under its id, as one that it may have become: with its connector, its
  -- kind and its start, no fewer attempts, and the same row if it was completed or cancelled.
  pub act_all-Follows :
      (store : Store) (actions : List Action)
      → IsWellFormed store.requests
      → IsWellFormed (act_all store actions).requests
        × ((id : String) (r : Request)
            → find (has_id id) store.requests ≡ some r
            → (s : Request) × (find (has_id id) (act_all store actions).requests ≡ some s)
              × Follows r s)
  act_all-Follows store actions w =
      let e = act_all-Evolves store actions in (e.keeps w, λ id r h. e.follows id r h)
