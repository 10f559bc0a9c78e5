-- ===== src/Accuracy/AutoApply.antt =====
-- A run of the linker applies a link by itself only where it may.
use workgraph.Common.{
  ℕ, ◌-◌, String, ◌≡◌, refl, sym, ap, subst, ◌∙◌, Bool, true, false, not, ◌&&◌, ◌||◌, List, [], ◌∷◌,
  ◌==◌, ok, All, arith, Ensures, returns, Ensures-bind, Ensures-of_ok, Ensures-ok, if◌then◌else◌,
}
use workgraph.Links.{ProjectLink, LinkStore, applied, proposed, is_applied, first_non_empty}
use workgraph.Links.Review.{below}
use workgraph.Links.Write.{is_empty, written_link}
use workgraph.Links.Record.{ProjectLinkProposal, ProjectLinkRun, RunResult, proposed_link}
use workgraph.Links.Written.{record_project_link_run-written}
use workgraph.Accuracy.{
  Database, AutoApplyThresholds, threshold_of, ProjectLinkAccuracyReport,
  auto_apply_rejection_window,
}
use workgraph.Accuracy.Report.{project_link_accuracy, for_profile}
use workgraph.Accuracy.Record.{
  was_rejected, associate_auto_applies, apply_proposals, record_auto_apply_pause_transition,
  write_links,
}

-- What a link meets that is applied by itself.
pub record MayApply (now : ℕ) (thresholds : AutoApplyThresholds)
    (report : ProjectLinkAccuracyReport) (store : LinkStore) (link : ProjectLink) : Type 0 where
  pub not_paused : (for_profile link.profile report).paused ≡ false
  pub sure : below link.confidence (threshold_of link.profile thresholds) ≡ false
  pub known : (link.target == "new_project") ≡ false
  pub not_rejected :
      was_rejected
        (now - auto_apply_rejection_window)
        link.container
        link.target
        link.project
        store.links
      ≡ false

-- A link that is applied may be.
pub record AppliesRightly (now : ℕ) (thresholds : AutoApplyThresholds)
    (report : ProjectLinkAccuracyReport) (store : LinkStore) (link : ProjectLink) : Type 0 where
  pub allowed : is_applied link.state ≡ true → MayApply now thresholds report store link

four-false :
    (a b c d : Bool)
    → (not (a || b || c) && not d) ≡ true
    → (a ≡ false) × (b ≡ false) × (c ≡ false) × (d ≡ false)
four-false a b c d h = ground arith

is_applied-if : (b : Bool) → is_applied (if b then applied else proposed) ≡ b
is_applied-if true = refl
is_applied-if false = refl

-- A run of proposals of a second model, under a profile of its own.
llm_run : String → List ProjectLinkProposal → ProjectLinkRun
llm_run profile proposals = record {
  source = "llm";
  profile = profile;
  run_id = "";
  links = proposals;
}

first_non_empty-first : (a b : String) → is_empty a ≡ false → first_non_empty a b ≡ a
unfolding first_non_empty is_empty
first_non_empty-first a b h = rw h refl

applied-Rightly :
    (is_format : ℕ → Bool) (now : ℕ) (thresholds : AutoApplyThresholds)
    (report : ProjectLinkAccuracyReport) (store : LinkStore) (profile : String)
    (proposals : List ProjectLinkProposal) (p : ProjectLinkProposal)
    → is_empty p.profile ≡ false
    → (id : ℕ) (run_id : String)
    → AppliesRightly now thresholds report store (
        written_link is_format id now (
          proposed_link (llm_run profile proposals) run_id (record p {
            apply = associate_auto_applies now (for_profile p.profile report) thresholds p store;
          })))
unfolding written_link proposed_link llm_run associate_auto_applies
applied-Rightly is_format now thresholds report store profile proposals p e id run_id = record {
  allowed = λ a.
      let name = first_non_empty-first p.profile profile e in
      let (awake, sure, known, never) = four-false _ _ _ _ (sym (is_applied-if _) ∙ a) in
      record {
        not_paused = ap (λ n. (for_profile n report).paused) name ∙ awake;
        sure = ap (λ n. below p.confidence (threshold_of n thresholds)) name ∙ sure;
        known = known;
        not_rejected = never;
      };
}

apply_proposals-Rightly :
    (is_format : ℕ → Bool) (now : ℕ) (thresholds : AutoApplyThresholds)
    (report : ProjectLinkAccuracyReport) (store : LinkStore) (profile : String)
    (all ps : List ProjectLinkProposal)
    → All (λ p. is_empty p.profile ≡ false) ps
    → All
        (λ p.
          (id : ℕ) (run_id : String)
          → AppliesRightly now thresholds report store
              (written_link is_format id now (proposed_link (llm_run profile all) run_id p)))
        (apply_proposals now thresholds report store ps)
unfolding apply_proposals
apply_proposals-Rightly is_format now thresholds report store profile all [] e = tt
apply_proposals-Rightly is_format now thresholds report store profile all (p ∷ ps) e = (
  applied-Rightly is_format now thresholds report store profile all p e.0,
  apply_proposals-Rightly is_format now thresholds report store profile all ps e.1,
)

-- What a run writes, by the report that it is given.
write_links-Rightly :
    (is_format : ℕ → Bool) (now : ℕ) (thresholds : AutoApplyThresholds) (requested : List String)
    (drawn profile : String) (proposals : List ProjectLinkProposal) (db : Database)
    → All (λ p. is_empty p.profile ≡ false) proposals
    → Ensures
        (λ w.
          (report : ProjectLinkAccuracyReport) × (project_link_accuracy now thresholds requested db
            ≡ ok report)
          × All (AppliesRightly now thresholds report db.store) w.1.written)
        (write_links is_format now thresholds requested drawn profile proposals db)
unfolding write_links record_auto_apply_pause_transition llm_run
write_links-Rightly is_format now thresholds requested drawn profile proposals db e =
    Ensures-bind _ (Ensures-of_ok (project_link_accuracy now thresholds requested db) λ s k. k)
      λ s k.
        let run = llm_run profile (apply_proposals now thresholds s db.store proposals) in
        Ensures-bind _
          (record_project_link_run-written is_format now run
            (AppliesRightly now thresholds s db.store) drawn db.store
            (apply_proposals-Rightly is_format now thresholds s db.store profile run.links proposals
              e))
          λ w a. returns _ (s, k, a)

-- A run of the linker, whose proposals each name a profile, applies a link by itself only where the
-- profile is not paused in the report that the run is given, the confidence is not below the profile's
-- threshold, the target is no new project, and no link of the container to the same target was corrected
-- or undone in the last thirty days.
pub write_links_lem :
    (is_format : ℕ → Bool) (now : ℕ) (thresholds : AutoApplyThresholds) (requested : List String)
    (drawn profile : String) (proposals : List ProjectLinkProposal) (db after : Database)
    (result : RunResult) (report : ProjectLinkAccuracyReport)
    → All (λ p. is_empty p.profile ≡ false) proposals
    → project_link_accuracy now thresholds requested db ≡ ok report
    → write_links is_format now thresholds requested drawn profile proposals db ≡ ok (after, result)
    → All (AppliesRightly now thresholds report db.store) result.written
write_links_lem is_format now thresholds requested drawn profile proposals db after result report e
      r h =
    let (s, k, a) =
      Ensures-ok
        (write_links-Rightly is_format now thresholds requested drawn profile proposals db e) h in
    subst (λ t. All (AppliesRightly now thresholds t db.store) result.written) (cc (k, r)) a
