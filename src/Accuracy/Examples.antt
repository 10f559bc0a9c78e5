-- ===== src/Accuracy/Examples.antt =====
-- Concrete reports: twenty links of one profile, of which eighteen were confirmed.
use Prim.Native.Nat.{zero, suc}
use workgraph.Common.{
  ℕ, ◌+◌, ◌*◌, String, leb, ◌==◌, if◌then◌else◌, ◌≡◌, refl, Bool, true, false, none, some, List, [],
  ◌∷◌, ◌++◌, Result, ok, err, ◌>>=◌, guard, All, subst, map,
}
use workgraph.Clock.{day, format}
use workgraph.Links.{ProjectLink, plus, one, applied, Decision}
use workgraph.Links.Record.{ProjectLinkProposal, RunResult}
use workgraph.Accuracy.{
  Database, ProjectLinkAccuracyReport, AutoApplyPauseState, latest_auto_apply_pause_states,
  state_before, auto_apply_minimum_sample, threshold_of,
}
use workgraph.Accuracy.Quotient.{quotient}
use workgraph.Accuracy.Measure.{new_entry, measure_profile_accuracy}
use workgraph.Accuracy.Report.{project_link_accuracy, for_profile, summary}
use workgraph.Accuracy.Record.{
  record_auto_apply_pause_transition, with_project_links_tx, write_links,
}
use workgraph.Accuracy.Counts.{with_numbers, count_so, to_confirmed, to_corrected, to_undone}
use workgraph.Accuracy.Newest.{Until}
use workgraph.Links.Review.{below}
use workgraph.Links.Write.{is_empty}
use workgraph.Accuracy.Verdicts.{for_profile_lem, for_profile-paused}
use workgraph.Accuracy.Pauses.{
  IsOnRecord, record_auto_apply_pause_transition_lem, with_project_links_tx_lem,
}
use workgraph.Accuracy.AutoApply.{AppliesRightly, write_links_lem}

abbrev value {ℓ} : {A : Type ℓ} → A → Result A → A
value d (ok a) = a
value d (err e) = d

abbrev now : ℕ
now = 800000 * day

abbrev decided_link : Decision → ProjectLink
decided_link decision = record {
  id = 1;
  unit_id = "u1";
  unit_kind = "thread";
  container = "c";
  target = "project";
  project = "atlas";
  new_project = none;
  source = "llm";
  kind = "review";
  summary = "a thread";
  confidence = plus one;
  evidence = "e1" ∷ [];
  state = applied;
  auto = true;
  rule = "";
  profile = "p";
  run_id = "run_1";
  created_at = now;
  decided_at = some now;
  decision = decision;
}

abbrev confirmed_links : ℕ → List ProjectLink
confirmed_links zero = []
confirmed_links (suc n) = decided_link Decision.confirmed ∷ confirmed_links n

abbrev db : Database
db = record {
  store = record {
    links =
        confirmed_links 18 ++ decided_link Decision.corrected ∷ decided_link Decision.undone ∷ [];
    next_id = 2;
    verifications = [];
  };
  events = [];
}

abbrev no_report : ProjectLinkAccuracyReport
no_report = record {
  since = 0;
  profiles = [];
  paused = false;
  pause_reason = "";
  thresholds = [];
  legacy = record { paused = false; reason = ""; profile = none };
}

abbrev the_report : ProjectLinkAccuracyReport
unfolding project_link_accuracy ◌>>=◌
the_report = value no_report (project_link_accuracy now [] [] db)

is_reported : project_link_accuracy now [] [] db ≡ ok the_report
unfolding project_link_accuracy ◌>>=◌
is_reported = refl

summary_test :
    summary the_report.profiles
    ≡ "Project auto-apply accuracy for p: 0.90 (18/20 decided auto links, 14 day window, required 0.95)\nAuto-apply paused: p accuracy 0.90 over 20 decided auto links in the last 14 days is below 0.95"
unfolding project_link_accuracy ◌>>=◌ summary
summary_test = refl

for_profile_example :
    (states : List AutoApplyPauseState) × (latest_auto_apply_pause_states db.events ≡ ok states)
    × ((name : String)
        → for_profile name the_report
          ≡ measure_profile_accuracy
              (state_before name states)
              (with_numbers now name db.store.links (new_entry [] name)))
for_profile_example = for_profile_lem now [] [] db the_report is_reported

paused_example :
    (states : List AutoApplyPauseState) × (latest_auto_apply_pause_states db.events ≡ ok states)
    × ((for_profile "p" the_report).paused ≡ (
        let confirmed = count_so to_confirmed now "p" db.store.links in
        let decided =
          confirmed
          + count_so to_corrected now "p" db.store.links
          + count_so to_undone now "p" db.store.links in
        if leb auto_apply_minimum_sample decided
        then below (quotient confirmed decided) (threshold_of "p" [])
        else (state_before "p" states).paused))
paused_example = for_profile-paused now [] [] db the_report "p" is_reported

recorded_example :
    (states : List AutoApplyPauseState) × (latest_auto_apply_pause_states
        (record_auto_apply_pause_transition now the_report db).events
      ≡ ok states)
    × ((name : String) → (state_before name states).paused ≡ (for_profile name the_report).paused)
recorded_example = record_auto_apply_pause_transition_lem now [] [] db the_report is_reported tt

-- A transaction that changes nothing.
abbrev idle : Database → Result (Database × Unit {0})
idle db = ok (db, tt)

abbrev after_idle : Database × Unit {0}
unfolding with_project_links_tx ◌>>=◌
after_idle = value (db, tt) (with_project_links_tx now [] idle db)

is_after_idle : with_project_links_tx now [] idle db ≡ ok (after_idle.0, tt)
unfolding with_project_links_tx ◌>>=◌
is_after_idle = refl

idle-Until : (done : Database × Unit {0}) → idle db ≡ ok done → Until (format now) done.0.events
idle-Until done h =
    let same : (db, tt) ≡ done = cc h in
    subst (λ (d : Database × Unit {0}). Until (format now) d.0.events) same tt

tx_example :
    IsOnRecord now [] after_idle.0
    × (done : Database × Unit {0}) × (idle db ≡ ok done)
    × (after_idle.0.store ≡ done.0.store)
tx_example = with_project_links_tx_lem now [] idle db after_idle.0 tt idle-Until is_after_idle

abbrev no_format : ℕ → Bool
no_format c = false

abbrev proposal : String → ProjectLinkProposal
proposal unit = record {
  unit_id = unit;
  unit_kind = "thread";
  container = "d";
  target = "project";
  project = "atlas";
  new_project = none;
  kind = "review";
  summary = "a thread";
  confidence = plus one;
  evidence = "e1" ∷ [];
  rule = "r";
  apply = false;
  profile = if unit == "u2" then "p" else "q";
  verification = none;
}

abbrev proposals : List ProjectLinkProposal
proposals = proposal "u2" ∷ proposal "u3" ∷ []

abbrev written : Database × RunResult
unfolding write_links ◌>>=◌ guard
written =
    value (db, record { written = []; skipped = [] })
      (write_links no_format now [] [] "x" "p" proposals db)

is_written : write_links no_format now [] [] "x" "p" proposals db ≡ ok written
unfolding write_links ◌>>=◌ guard
is_written = refl

-- The link of the paused profile is proposed, that of the other one applied.
written_test : map (λ link. link.auto) written.1.written ≡ false ∷ true ∷ []
unfolding write_links ◌>>=◌ guard
written_test = refl

write_links_example : All (AppliesRightly now [] the_report db.store) written.1.written
unfolding is_empty
write_links_example =
    write_links_lem no_format now [] [] "x" "p" proposals db written.0 written.1 the_report
      (refl, (refl, tt)) is_reported is_written
