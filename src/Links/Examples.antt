-- ===== src/Links/Examples.antt =====
-- Concrete runs: a run of the linker, then a user's decisions on what it wrote.
use workgraph.Common.{
  runes, ◌≤◌, ℕ, ◌≡◌, refl, Bool, false, none, List, [], ◌∷◌, Result, ok, err, ◌>>=◌, guard,
  link_decided, arith, some,
}
use workgraph.Links.{ProjectLink, LinkStore, plus, one, applied, undecided}
use workgraph.Links.Summary.{sanitize_project_link_summary, runes-sanitize_project_link_summary}
use workgraph.Links.Rows.{IsWellFormed, clash}
use workgraph.Links.Review.{decide_each}
use workgraph.Links.Placement.{placement, replay, assignments_refine}
use workgraph.Links.Decide.{Assignment, assign_project_link, approve_project_link}
use workgraph.Links.Record.{
  ProjectLinkProposal, ProjectLinkRun, RunResult, run_id_or_new, record_project_link_run,
}
use workgraph.Links.History.{
  LinkCall, records, approves, assigns, undoes, link_run, link_run-IsWellFormed,
}
use workgraph.Links.Outcomes.{IsAssigned, assign_project_link_lem, approve_project_link_once}
use workgraph.Links.Recorded.{IsAccounted, record_project_link_run_lem}
use workgraph.Links.Proposals.{current_units}

abbrev no_format : ℕ → Bool
no_format c = false

abbrev value {ℓ} : {A : Type ℓ} → A → Result A → A
value d (ok a) = a
value d (err e) = d

abbrev no_links : LinkStore
no_links = record { links = []; next_id = 1; verifications = [] }

abbrev proposal : ProjectLinkProposal
proposal = record {
  unit_id = "u1";
  unit_kind = "thread";
  container = "";
  target = "project";
  project = "atlas";
  new_project = none;
  kind = "review";
  summary = "a  thread";
  confidence = plus one;
  evidence = "e1" ∷ [];
  rule = "r";
  apply = false;
  profile = "";
  verification = none;
}

abbrev the_run : ProjectLinkRun
the_run = record {
  source = "llm";
  profile = "p";
  run_id = "run_1";
  links = proposal ∷ proposal ∷ [];
}

abbrev written : LinkStore × RunResult
unfolding record_project_link_run ◌>>=◌ guard
written =
    value (no_links, record { written = []; skipped = [] })
      (record_project_link_run no_format 5 "x" the_run no_links)

-- The second proposal is for a unit that has its link.
record_example :
    IsAccounted no_format 5 the_run
      (run_id_or_new "x" the_run.run_id)
      (current_units no_links.links)
      the_run.links
      no_links
      written
unfolding written
record_example = record_project_link_run_lem no_format 5 "x" the_run no_links written refl

record_skips : written.1.skipped ≡ "u1" ∷ []
unfolding written
record_skips = refl

abbrev first_link : ProjectLink
unfolding written
first_link =
    value
      (record {
        id = 0;
        unit_id = "";
        unit_kind = "";
        container = "";
        target = "";
        project = "";
        new_project = none;
        source = "";
        kind = "";
        summary = "";
        confidence = plus 0;
        evidence = [];
        state = applied;
        auto = false;
        rule = "";
        profile = "";
        run_id = "";
        created_at = 0;
        decided_at = none;
        decision = undecided;
      })
      (elim written.0.links [ [] ↦ err (link_decided 0) | l ∷ ls ↦ ok l ])

abbrev approved_link : LinkStore × ProjectLink
unfolding first_link approve_project_link
approved_link = value (written.0, first_link) (approve_project_link 6 1 written.0)

approve_example : approve_project_link 7 1 approved_link.0 ≡ err (link_decided 1)
unfolding approved_link
approve_example = approve_project_link_once 6 7 1 written.0 approved_link refl

abbrev assignment : Assignment
assignment = record {
  unit_id = "u1";
  unit_kind = "";
  container = "";
  evidence = [];
  target = "project";
  project = "beta";
  new_project = none;
  summary = "";
}

abbrev assigned : LinkStore × ProjectLink
unfolding first_link assign_project_link
assigned = value (written.0, first_link) (assign_project_link no_format 6 assignment written.0)

assign_example : IsAssigned 6 assignment assigned
unfolding assigned
assign_example = assign_project_link_lem no_format 6 assignment written.0 assigned refl

abbrev link_calls : List (ℕ × LinkCall)
link_calls =
    (5, records "x" the_run) ∷ (6, approves 1) ∷ (7, assigns assignment) ∷ (8, undoes 2) ∷ []

link_run_example : IsWellFormed (link_run no_format no_links link_calls)
link_run_example =
    link_run-IsWellFormed no_format no_links link_calls (record { distinct = tt; drawn = tt })

summary_example : runes (sanitize_project_link_summary no_format " a  thread ") ≤ 120
summary_example = runes-sanitize_project_link_summary no_format " a  thread "

written-IsWellFormed : IsWellFormed written.0
unfolding written clash
written-IsWellFormed = record { distinct = (tt, tt); drawn = (omega arith, tt) }

-- The second one is refused: it names a kind of target that there is not.
abbrev assignments : List Assignment
assignments = assignment ∷ record assignment { target = "nowhere"; project = "" } ∷ []

placement_example :
    (let after = decide_each (assign_project_link no_format 6) assignments written.0 in
      placement after.0 "u1" ≡ replay assignments after.1 (placement written.0) "u1")
placement_example = assignments_refine no_format 6 assignments written.0 "u1" written-IsWellFormed

placement_test :
    placement (decide_each (assign_project_link no_format 6) assignments written.0).0 "u1"
    ≡ some ("project", "beta")
unfolding placement decide_each first_link assign_project_link
placement_test = refl
