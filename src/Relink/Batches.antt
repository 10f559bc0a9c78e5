-- ===== src/Relink/Batches.antt =====
-- A list of changes, applied batch by batch.
use workgraph.Common.{
  All, ℕ, ◌+◌, ◌≤◌, String, Bool, true, ◌||◌, ◌≡◌, refl, sym, subst, Option, none, some, List, [],
  ◌∷◌, ◌++◌, arith, Result, Ensures, returns, refuses, Ensures-guard, Ensures-ok, Ensures-bind,
  Ensures-after, length, length-append,
}
use workgraph.Links.{ProjectLink, LinkStore, Verification}
use workgraph.Links.Rows.{IsWellFormed}
use workgraph.Links.Current.{record-keeps}
use workgraph.Links.Record.{
  ProjectLinkProposal, ProjectLinkRun, record_verification, record_one, record_each,
  record_project_link_run,
}
use workgraph.Accuracy.{Database, AutoApplyThresholds}
use workgraph.Accuracy.Record.{
  with_project_links_tx, record_project_auto_apply_state, record_auto_apply_pause_transition,
}
use workgraph.Relink.{ProjectRelinkChange}
use workgraph.Relink.Apply.{
  supersede_project_link, supersede_each, record_replacements, apply_batch, left_over,
  RelinkOutcome, after_batch, apply_batches, has_replacement,
}
use workgraph.Relink.Superseded.{
  is_planned, Replaced, Replaced-refl, Replaced-trans, supersede-Replaced, insert-Replaced,
}

Ensures-both {ℓ κ μ} :
    {A : Type ℓ} (P : A → Type κ) (Q : A → Type μ) (m : Result A)
    → Ensures P m
    → Ensures Q m
    → Ensures (λ a. P a × Q a) m
Ensures-both P Q _ (refuses e) q = refuses e
Ensures-both P Q _ (returns a p) q = returns a (p, Ensures-ok q refl)

module _ (now : ℕ) (changes : List ProjectRelinkChange) where
  -- The links are replaced and still well formed.
  unfoldable pub Moves : LinkStore → LinkStore → Type 0
  Moves store after = Replaced now changes store.links after.links × IsWellFormed after

  Moves-refl : (store : LinkStore) → IsWellFormed store → Moves store store
  unfolding Moves
  Moves-refl store w = (Replaced-refl now changes store.links, w)

  Moves-trans : (a b c : LinkStore) → Moves a b → Moves b c → Moves a c
  unfolding Moves
  Moves-trans a b c p q = (Replaced-trans now changes a.links b.links c.links p.0 q.0, q.1)

  moved-IsWellFormed : (a b : LinkStore) → Moves a b → IsWellFormed b
  unfolding Moves
  moved-IsWellFormed a b m = m.1

  supersede_each-length :
      (batch : List ProjectRelinkChange) (store : LinkStore)
      → length (supersede_each now batch store).1 ≤ length batch
  unfolding supersede_each
  supersede_each-length [] store = omega arith
  supersede_each-length (change ∷ batch) store =
      ground (arith, supersede_each-length batch (supersede_project_link now change store).0)

  -- Each of these changes is one of all.
  unfoldable pub AreAmong : List ProjectRelinkChange → Type 0
  AreAmong some_changes =
      (link : ProjectLink) → is_planned some_changes link ≡ true → is_planned changes link ≡ true

  supersede_each-Moves :
      (batch : List ProjectRelinkChange) (store : LinkStore)
      → AreAmong batch
      → IsWellFormed store
      → Moves store (supersede_each now batch store).0
  unfolding supersede_each supersede_project_link is_planned Moves AreAmong
  supersede_each-Moves [] store a w = Moves-refl store w
  supersede_each-Moves (change ∷ batch) store a w =
      let one =
        supersede-Replaced now changes change.unit.id change.current _ store refl
          (λ link h. a link (ground arith)) w in
      Moves-trans store _ _ one (
        supersede_each-Moves batch (supersede_project_link now change store).0
          (λ link h. a link (ground arith)) one.1)

  record_verification-Replaced :
      (v : Option (ℕ → Verification)) (id : ℕ) (store : LinkStore)
      → Replaced now changes store.links (record_verification v id store).links
  unfolding record_verification
  record_verification-Replaced none id store = Replaced-refl now changes store.links
  record_verification-Replaced (some v) id store = Replaced-refl now changes store.links

  module _ (is_format : ℕ → Bool) where
    record_one-Replaced :
        (o : Option ProjectLink) (link : ProjectLink) (v : Option (ℕ → Verification))
        (store : LinkStore)
        → Ensures
            (λ r. Replaced now changes store.links r.0.links)
            (record_one is_format now o link v store)
    unfolding record_one
    record_one-Replaced (some current) link v store =
        returns _ (Replaced-refl now changes store.links)
    record_one-Replaced none link v store =
        Ensures-bind _ (insert-Replaced now changes is_format link store) (λ written p. returns _ (
          Replaced-trans now changes store.links written.0.links _ p
            (record_verification-Replaced v written.1.id written.0)))

    record_each-Replaced :
        (run : ProjectLinkRun) (run_id : String) (ps : List ProjectLinkProposal) (store : LinkStore)
        → Ensures
            (λ r. Replaced now changes store.links r.0.links)
            (record_each is_format now run run_id ps store)
    unfolding record_each
    record_each-Replaced run run_id [] store = returns _ (Replaced-refl now changes store.links)
    record_each-Replaced run run_id (p ∷ ps) store =
        Ensures-bind _ (record_one-Replaced _ _ p.verification store) (λ one a.
          Ensures-bind _ (record_each-Replaced run run_id ps one.0) (λ rest b.
            returns _ (Replaced-trans now changes store.links one.0.links rest.0.links a b)))

    record-Moves :
        (drawn : String) (run : ProjectLinkRun) (store : LinkStore)
        → IsWellFormed store
        → Ensures (λ r. Moves store r.0) (record_project_link_run is_format now drawn run store)
    unfolding Moves
    record-Moves drawn run store w =
        Ensures-both _ _ _
          (unfold record_project_link_run in
            Ensures-guard _ _ _ (λ g. record_each-Replaced run _ run.links store))
          (record-keeps is_format now drawn run store w)

    record_replacements-Moves :
        (run_id : String) (ps : List ProjectLinkProposal) (store : LinkStore)
        → IsWellFormed store
        → Ensures (Moves store) (record_replacements is_format now run_id ps store)
    unfolding record_replacements
    record_replacements-Moves run_id [] store w = returns _ (Moves-refl store w)
    record_replacements-Moves run_id (p ∷ ps) store w =
        Ensures-bind _
          (record-Moves run_id
            (record { source = "deterministic"; profile = ""; run_id = run_id; links = p ∷ ps })
            store w)
          (λ written m. returns _ m)

    -- What a batch does, and how many of its changes it makes.
    apply_batch-Moves :
        (run_id : String) (batch : List ProjectRelinkChange) (db : Database)
        → AreAmong batch
        → IsWellFormed db.store
        → Ensures
            (λ r. Moves db.store r.0.store × (length r.1 ≤ length batch))
            (apply_batch is_format now run_id batch db)
    unfolding apply_batch
    apply_batch-Moves run_id batch db a w =
        let one = supersede_each-Moves batch db.store a w in
        Ensures-bind _ (record_replacements-Moves run_id _ _ (moved-IsWellFormed db.store _ one))
          (λ store m.
            returns _ (Moves-trans db.store _ store one m, supersede_each-length batch db.store))

    -- The transaction around a batch changes no link by itself.
    pauses-store :
        (thresholds : AutoApplyThresholds) (db : Database)
        → Ensures
            (λ after. after.store ≡ db.store)
            (record_project_auto_apply_state now thresholds db)
    unfolding record_project_auto_apply_state record_auto_apply_pause_transition
    pauses-store thresholds db = Ensures-after _ (λ report. returns _ refl)

    tx-Moves :
        (thresholds : AutoApplyThresholds) (run_id : String) (batch : List ProjectRelinkChange)
        (db : Database)
        → AreAmong batch
        → IsWellFormed db.store
        → Ensures
            (λ r. Moves db.store r.0.store × (length r.1 ≤ length batch))
            (with_project_links_tx now thresholds (apply_batch is_format now run_id batch) db)
    unfolding with_project_links_tx
    tx-Moves thresholds run_id batch db a w =
        Ensures-bind _ (apply_batch-Moves run_id batch db a w) (λ done m.
          Ensures-bind _ (pauses-store thresholds done.0)
            (λ after e. returns _ (subst (Moves db.store) (sym e) m.0, m.1)))

    -- What is known of an outcome.
    unfoldable pub Outcome : LinkStore → ℕ → RelinkOutcome → Type 0
    unfolding Moves
    Outcome store total out =
        Moves store out.db.store
        × (length out.done + out.unfinished ≤ total)
        × (out.failure ≡ none → out.unfinished ≡ 0)

    after_batch-Outcome :
        (db : Database) (done batch : List ProjectRelinkChange) (wrote : Bool) (more : ℕ)
        → (next : Database → List ProjectRelinkChange → Bool → RelinkOutcome)
        → (m : Result (Database × List ProjectRelinkChange)) → IsWellFormed db.store
        → Ensures (λ r. Moves db.store r.0.store × (length r.1 ≤ length batch)) m
        → ((after : Database) (done : List ProjectRelinkChange) (wrote : Bool)
            → IsWellFormed after.store
            → Outcome after.store (length done + more) (next after done wrote))
        → Outcome db.store
            (length done + (length batch + more))
            (after_batch db done wrote (length batch + more) next m)
    unfolding after_batch Outcome
    after_batch-Outcome db done batch wrote more next _ w (refuses e) h =
        (Moves-refl db.store w, omega arith, λ no. absurd (cc no))
    after_batch-Outcome db done batch wrote more next _ w (returns after a) h =
        let (moves, bound, whole) =
          h after.0 (done ++ after.1) (wrote || has_replacement after.1)
            (moved-IsWellFormed db.store _ a.0) in
        let longer = length-append done after.1 in
        let few = a.1 in (Moves-trans db.store _ _ a.0 moves, omega arith, whole)

    pub apply_batches-Outcome :
        (thresholds : AutoApplyThresholds) (run_id : String)
        (parts : List (List ProjectRelinkChange))
        → (db : Database) (done : List ProjectRelinkChange) (wrote : Bool) → All AreAmong parts
        → IsWellFormed db.store
        → Outcome db.store
            (length done + left_over parts)
            (apply_batches is_format now thresholds run_id parts db done wrote)
    unfolding apply_batches
    apply_batches-Outcome thresholds run_id [] db done wrote a w =
        unfold Outcome in (Moves-refl db.store w, omega arith, λ no. refl)
    apply_batches-Outcome thresholds run_id (batch ∷ rest) db done wrote a w =
        after_batch-Outcome db done batch wrote (left_over rest) _ _ w
          (tx-Moves thresholds run_id batch db a.0 w)
          (λ after made wrote v.
            apply_batches-Outcome thresholds run_id rest after made wrote a.1 v)
