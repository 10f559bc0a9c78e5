-- ===== src/Commands/Examples.antt =====
-- Concrete commands on slack, bridged and with a request that a worker holds.
use workgraph.Common.{
  ◌*◌, String, ◌≡◌, refl, false, Option, none, some, List, [], ◌∷◌, Result, ok, err, ◌>>=◌, guard,
  arith, ◌==◌, if◌then◌else◌, true,
}
use workgraph.Clock.{day, minute, format}
use workgraph.Runtime.{empty_entry, entry}
use workgraph.Outbox.{Request, Store, claimed, capture, Params, find, has_id, conflicts}
use workgraph.Outbox.Rows.{IsWellFormed, Follows}
use workgraph.Commands.{
  Checks, BridgeConfig, scope_changed, set_connector_mode, configure_bridged_connector,
  set_connector_enabled,
}
use workgraph.Commands.Outcomes.{ModeSet, set_connector_mode_lem}
use workgraph.Commands.Disabling.{Disabled, set_connector_enabled_off}
use workgraph.Commands.Scope.{Configured, configure_bridged_connector_lem}
use workgraph.Commands.History.{
  Action, sets_mode, configures, sets_enabled, act_all, act_all-Follows,
}

abbrev value {ℓ} : {A : Type ℓ} → A → Result A → A
value d (ok a) = a
value d (err e) = d

-- json.MarshalIndent on the scopes of these runs.
abbrev indented : String → String
indented params = if params == "{\"scope\":\"all\"}" then "{\n  \"scope\": \"all\"\n}" else params

abbrev checks : Checks
checks = record {
  managed = λ id. ok tt;
  validated = λ id params. ok params;
  with_authentication = λ params authentication. ok params;
  authentication = λ params. "";
  azure_cli = ok tt;
  laid_out = indented;
  watch_enabled = λ scope enabled. ok tt;
}

abbrev request : Request
request = record {
  id = "r1";
  connector_id = "slack";
  kind = capture;
  since = format (99 * day);
  until = format (100 * day);
  params = Params.scope "{}";
  status = claimed;
  attempts = 1;
  available_at = format (100 * day);
  last_error = none;
  created_at = format (100 * day);
  claim_token = some "t1";
  claimed_by = some "w1";
  claimed_at = some (format (100 * day));
  lease_expires_at = some (format (101 * day));
  completed_at = none;
  cancelled_at = none;
}

abbrev store : Store
store = record {
  requests = request ∷ [];
  cursors =
      record {
        connector_id = "slack";
        completed_through = format (99 * day);
        updated_at = format (99 * day);
      }
      ∷ [];
  events = [];
  runtime = ("slack", record empty_entry { capture_mode = "bridged"; bridge_params = "{}" }) ∷ [];
}

store-IsWellFormed : IsWellFormed store.requests
unfolding conflicts
store-IsWellFormed = record {
  distinct = (tt, tt);
  sound = ((refl, refl, refl, refl, omega arith), tt);
}

abbrev direct : Store
unfolding set_connector_mode ◌>>=◌ guard
direct = value store (set_connector_mode checks "Slack" "direct" (100 * day) store)

mode_example : ModeSet checks "Slack" "direct" direct
unfolding set_connector_mode ◌>>=◌ guard
mode_example = set_connector_mode_lem checks "Slack" "direct" (100 * day) store direct refl

abbrev disabled : Store × Option Request
unfolding set_connector_enabled ◌>>=◌
disabled = value (store, none) (set_connector_enabled checks "slack" false (100 * day) store)

disabled_example : Disabled "slack" store disabled
unfolding set_connector_enabled ◌>>=◌
disabled_example =
    set_connector_enabled_off checks "slack" (100 * day) store disabled store-IsWellFormed refl

-- Another scope.
abbrev config : BridgeConfig
config = record {
  id = "slack";
  bridge_params = "{\"scope\":\"all\"}";
  authentication = "";
  interval = some (5 * minute);
  now = 100 * day;
}

abbrev configured : Store
unfolding configure_bridged_connector ◌>>=◌ guard
configured = value store (configure_bridged_connector checks config store)

configured_example : Configured checks config store configured
unfolding configure_bridged_connector ◌>>=◌ guard
configured_example = configure_bridged_connector_lem checks config store configured refl

-- The same scope, configured once more, counts as another.
configured_again : scope_changed (entry configured.runtime "slack") config.bridge_params ≡ true
unfolding scope_changed configure_bridged_connector ◌>>=◌ guard
configured_again = refl

abbrev actions : List Action
actions =
    configures config
    ∷ sets_mode "slack" "direct" (100 * day)
    ∷ sets_enabled "slack" false (100 * day)
    ∷ []

actions_example :
    IsWellFormed (act_all checks store actions).requests
    × ((id : String) (r : Request)
        → find (has_id id) store.requests ≡ some r
        → (s : Request) × (find (has_id id) (act_all checks store actions).requests ≡ some s)
          × Follows r s)
actions_example = act_all-Follows checks store actions store-IsWellFormed
