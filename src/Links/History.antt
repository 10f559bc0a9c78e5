-- ===== src/Links/History.antt =====
-- Histories of runs and decisions on links, each in its own transaction.
use workgraph.Common.{ℕ, String, Bool, List, [], ◌∷◌, Result, ok, err, returns, refuses}
use workgraph.Links.{ProjectLink, LinkStore}
use workgraph.Links.Rows.{IsWellFormed}
use workgraph.Links.Current.{
  KeepsStore, approve-keeps, approve_new-keeps, approve_listed-keeps, assign-keeps, reject-keeps,
  undo-keeps, undo_run-keeps, record-keeps, decide_each-keeps,
}
use workgraph.Links.Decide.{
  Assignment, approve_project_link, approve_new_project_link, assign_project_link,
  undo_project_link, undo_project_link_run,
}
use workgraph.Links.Record.{ProjectLinkRun, record_project_link_run}
use workgraph.Links.Review.{approve_as_listed, reject_project_link, decide_each}

pub data LinkCall : Type 0 where
  records : String → ProjectLinkRun → LinkCall
  approves : ℕ → LinkCall
  approves_each : List ℕ → LinkCall
  approves_listed : List ProjectLink → LinkCall
  assigns : Assignment → LinkCall
  assigns_each : List Assignment → LinkCall
  rejects_each : List ℕ → LinkCall
  undoes : ℕ → LinkCall
  undoes_run : String → LinkCall

-- A transaction that fails leaves the store as it was.
after_tx {ℓ} : {A : Type ℓ} → LinkStore → Result (LinkStore × A) → LinkStore
after_tx store (ok a) = a.0
after_tx store (err e) = store

after_tx-keeps {ℓ} :
    {A : Type ℓ} (store : LinkStore) (m : Result (LinkStore × A))
    → IsWellFormed store
    → KeepsStore m
    → IsWellFormed (after_tx store m)
unfolding after_tx
after_tx-keeps store _ w (returns a h) = h
after_tx-keeps store _ w (refuses e) = w

module _ (is_format : ℕ → Bool) where
  unfoldable pub link_step : LinkStore → ℕ × LinkCall → LinkStore
  unfolding after_tx record_project_link_run approve_project_link approve_new_project_link
      approve_as_listed assign_project_link reject_project_link undo_project_link
      undo_project_link_run decide_each
  link_step store (now, records drawn run) =
      after_tx store (record_project_link_run is_format now drawn run store)
  link_step store (now, approves id) = after_tx store (approve_project_link now id store)
  link_step store (now, approves_each ids) =
      (decide_each (approve_new_project_link now) ids store).0
  link_step store (now, approves_listed listed) =
      (decide_each (approve_as_listed now) listed store).0
  link_step store (now, assigns a) = after_tx store (assign_project_link is_format now a store)
  link_step store (now, assigns_each assignments) =
      (decide_each (assign_project_link is_format now) assignments store).0
  link_step store (now, rejects_each ids) =
      (decide_each (reject_project_link is_format now) ids store).0
  link_step store (now, undoes id) = after_tx store (undo_project_link is_format now id store)
  link_step store (now, undoes_run run_id) =
      after_tx store (undo_project_link_run is_format now run_id store)

  unfoldable pub link_run : LinkStore → List (ℕ × LinkCall) → LinkStore
  unfolding link_step
  link_run store [] = store
  link_run store (c ∷ cs) = link_run (link_step store c) cs

  link_step-IsWellFormed :
      (store : LinkStore) (c : ℕ × LinkCall) → IsWellFormed store → IsWellFormed (link_step store c)
  unfolding link_step
  link_step-IsWellFormed store (now, records drawn run) w =
      after_tx-keeps store _ w (record-keeps is_format now drawn run store w)
  link_step-IsWellFormed store (now, approves id) w =
      after_tx-keeps store _ w (approve-keeps now id store w)
  link_step-IsWellFormed store (now, approves_each ids) w =
      decide_each-keeps _ (λ id s. approve_new-keeps now id s) ids store w
  link_step-IsWellFormed store (now, approves_listed listed) w =
      decide_each-keeps _ (λ l s. approve_listed-keeps now l s) listed store w
  link_step-IsWellFormed store (now, assigns a) w =
      after_tx-keeps store _ w (assign-keeps is_format now a store w)
  link_step-IsWellFormed store (now, assigns_each assignments) w =
      decide_each-keeps _ (λ a s. assign-keeps is_format now a s) assignments store w
  link_step-IsWellFormed store (now, rejects_each ids) w =
      decide_each-keeps _ (λ id s. reject-keeps is_format now id s) ids store w
  link_step-IsWellFormed store (now, undoes id) w =
      after_tx-keeps store _ w (undo-keeps is_format now id store w)
  link_step-IsWellFormed store (now, undoes_run run_id) w =
      after_tx-keeps store _ w (undo_run-keeps is_format now run_id store w)

  -- After any history of runs and decisions on well-formed links, the keys differ and are below the
  -- next one, and no unit has two links that are proposed or applied.
  pub link_run-IsWellFormed :
      (store : LinkStore) (cs : List (ℕ × LinkCall))
      → IsWellFormed store
      → IsWellFormed (link_run store cs)
  unfolding link_run
  link_run-IsWellFormed store [] w = w
  link_run-IsWellFormed store (c ∷ cs) w =
      link_run-IsWellFormed (link_step store c) cs (link_step-IsWellFormed store c w)
