-- ===== src/Links/Recorded.antt =====
-- What a run of the linker makes of its proposals (RecordProjectLinkRun): which ones it writes, which
-- ones it skips, and what it leaves in the tables.
use mathlib.Core.List.{append_assoc, append-nil}
use workgraph.Common.{
  ℕ, ◌+◌, String, ◌≡◌, refl, sym, ap, ◌∙◌, Bool, true, false, ◌||◌, Option, none, some, List, [],
  ◌∷◌, ◌++◌, ok, ◌==◌, arith, Ensures, returns, Ensures-bind, Ensures-after, Ensures-guard,
  Ensures-ok, length, ◌>>=◌,
}
use workgraph.Links.{
  ProjectLink, LinkStore, Verification, is_current, find_link, is_current_of, current_project_link,
}
use workgraph.Links.Write.{written_link, insert_project_link}
use workgraph.Links.Record.{
  ProjectLinkProposal, ProjectLinkRun, RunResult, run_id_or_new, proposed_link, record_verification,
  record_one, record_each, record_project_link_run,
}
use workgraph.Links.Proposals.{
  listed, current_units, first_proposals, other_units, verification_of, verified, is_found,
  AreTaken, current_units-AreTaken, find_link-append,
}

record_verification-kept :
    (v : Option (ℕ → Verification)) (id : ℕ) (store : LinkStore)
    → ((record_verification v id store).links ≡ store.links)
      × ((record_verification v id store).next_id ≡ store.next_id)
unfolding record_verification
record_verification-kept none id store = (refl, refl)
record_verification-kept (some v) id store = (refl, refl)

record_verification-verifications :
    (v : Option (ℕ → Verification)) (id : ℕ) (store : LinkStore)
    → (record_verification v id store).verifications ≡ store.verifications ++ verification_of v id
unfolding record_verification
record_verification-verifications none id store = sym (append-nil store.verifications)
record_verification-verifications (some v) id store = refl

-- What an insert leaves, once it succeeds.
abbrev with_link : LinkStore → ProjectLink → LinkStore × ProjectLink
with_link store written =
    (record store { links = store.links ++ written ∷ []; next_id = store.next_id + 1 }, written)

insert_project_link-with_link :
    (is_format : ℕ → Bool) (now : ℕ) (link : ProjectLink) (store : LinkStore)
    → Ensures
        (λ r. with_link store (written_link is_format store.next_id now link) ≡ r)
        (insert_project_link is_format now link store)
unfolding insert_project_link
insert_project_link-with_link is_format now link store =
    Ensures-after _ λ _. Ensures-guard _ _ _ λ _. returns _ refl

module _ (is_format : ℕ → Bool) (now : ℕ) (run : ProjectLinkRun) (run_id : String) where
  abbrev pub link_of : ℕ → ProjectLinkProposal → ProjectLink
  link_of id p = written_link is_format id now (proposed_link run run_id p)

  -- The links of proposals that are written in turn, from a key on.
  abbrev pub numbered : ℕ → List ProjectLinkProposal → List ProjectLink
  numbered id [] = []
  numbered id (p ∷ ps) = link_of id p ∷ numbered (id + 1) ps

  -- What proposals leave, where some units have a current link before them.
  pub record IsAccounted (units : List String) (ps : List ProjectLinkProposal) (store : LinkStore)
      (result : LinkStore × RunResult) : Type 0 where
    pub written : result.1.written ≡ numbered store.next_id (first_proposals units ps)
    pub skipped : result.1.skipped ≡ other_units units ps
    pub links : result.0.links ≡ store.links ++ numbered store.next_id (first_proposals units ps)
    pub next_id : result.0.next_id ≡ store.next_id + length (first_proposals units ps)
    pub verifications :
        result.0.verifications
        ≡ store.verifications ++ verified store.next_id (first_proposals units ps)

  -- What one proposal leaves that is written.
  record IsWritten (p : ProjectLinkProposal) (store : LinkStore) (one : LinkStore × RunResult)
      : Type 0 where
    written : one.1.written ≡ link_of store.next_id p ∷ []
    skipped : one.1.skipped ≡ []
    links : one.0.links ≡ store.links ++ link_of store.next_id p ∷ []
    next_id : one.0.next_id ≡ store.next_id + 1
    verifications :
        one.0.verifications ≡ store.verifications ++ verification_of p.verification store.next_id

  record_one-IsWritten :
      (p : ProjectLinkProposal) (store : LinkStore)
      → Ensures
          (IsWritten p store)
          (record_one is_format now none (proposed_link run run_id p) p.verification store)
  unfolding record_one written_link
  record_one-IsWritten p store =
      let link = proposed_link run run_id p in
      let (after, written) = with_link store (written_link is_format store.next_id now link) in
      let kept = record_verification-kept p.verification store.next_id after in
      Ensures-bind _ (insert_project_link-with_link is_format now link store) λ r e. rw (← e) (
        returns _ (record {
          written = refl;
          skipped = refl;
          links = kept.0;
          next_id = kept.1;
          verifications = record_verification-verifications p.verification store.next_id after;
        }))

  proposed_link-current :
      (id : ℕ) (p : ProjectLinkProposal) → is_current (link_of id p).state ≡ true
  unfolding written_link proposed_link
  proposed_link-current id p = ground arith

  written-AreTaken :
      (p : ProjectLinkProposal) (units : List String) (store : LinkStore)
      (one : LinkStore × RunResult)
      → IsWritten p store one
      → AreTaken units store
      → AreTaken (p.unit_id ∷ units) one.0
  unfolding current_project_link written_link proposed_link
  written-AreTaken p units store one w a unit =
      ap (λ links. is_found (find_link (is_current_of unit) links)) w.links
      ∙ find_link-append unit store.links _ (proposed_link-current store.next_id p)
      ∙ ap (λ b. p.unit_id == unit || b) (a unit)

  IsAccounted-skip :
      (p : ProjectLinkProposal) (ps : List ProjectLinkProposal) (units : List String)
      (store : LinkStore) (rest : LinkStore × RunResult)
      → listed p.unit_id units ≡ true
      → IsAccounted units ps store rest
      → IsAccounted units
          (p ∷ ps)
          store
          (rest.0, record { written = rest.1.written; skipped = p.unit_id ∷ rest.1.skipped })
  IsAccounted-skip p ps units store rest h a = record {
    written = rw h a.written;
    skipped = rw h (ap (λ us. p.unit_id ∷ us) a.skipped);
    links = rw h a.links;
    next_id = rw h a.next_id;
    verifications = rw h a.verifications;
  }

  IsAccounted-write :
      (p : ProjectLinkProposal) (ps : List ProjectLinkProposal) (units : List String)
      (store : LinkStore) (one rest : LinkStore × RunResult)
      → listed p.unit_id units ≡ false
      → IsWritten p store one
      → IsAccounted (p.unit_id ∷ units) ps one.0 rest
      → IsAccounted units (p ∷ ps) store (
        rest.0,
        record {
          written = one.1.written ++ rest.1.written;
          skipped = one.1.skipped ++ rest.1.skipped;
        },
      )
  IsAccounted-write p ps units store one rest h w a = record {
    written = rw (h, w.written, a.written, w.next_id) refl;
    skipped = rw (h, w.skipped, a.skipped) refl;
    links = rw (h, a.links, w.links, w.next_id, append_assoc) refl;
    next_id = rw (h, a.next_id, w.next_id) (omega arith);
    verifications = rw (h, a.verifications, w.verifications, w.next_id, append_assoc) refl;
  }

  -- A proposal, by its unit's current link, and the others after it.
  then-IsAccounted :
      (o : Option ProjectLink) (p : ProjectLinkProposal) (ps : List ProjectLinkProposal)
      (units : List String) (store : LinkStore)
      → current_project_link p.unit_id store ≡ o
      → AreTaken units store
      → ((units : List String) (store : LinkStore)
          → AreTaken units store
          → Ensures (IsAccounted units ps store) (record_each is_format now run run_id ps store))
      → Ensures (IsAccounted units (p ∷ ps) store) (
          record_one is_format now o (proposed_link run run_id p) p.verification store >>= λ one.
          record_each is_format now run run_id ps one.0 >>= λ rest. ok (
            rest.0,
            record {
              written = one.1.written ++ rest.1.written;
              skipped = one.1.skipped ++ rest.1.skipped;
            },
          ))
  unfolding record_one ◌>>=◌ proposed_link
  then-IsAccounted none p ps units store e a others =
      let free = sym (a p.unit_id) ∙ ap is_found e in
      Ensures-bind _ (record_one-IsWritten p store) λ one w.
        Ensures-bind _ (others (p.unit_id ∷ units) one.0 (written-AreTaken p units store one w a))
          λ rest b. returns _ (IsAccounted-write p ps units store one rest free w b)
  then-IsAccounted (some current) p ps units store e a others =
      let taken = sym (a p.unit_id) ∙ ap is_found e in
      Ensures-bind _ (others units store a)
        λ rest b. returns _ (IsAccounted-skip p ps units store rest taken b)

  record_each-IsAccounted :
      (ps : List ProjectLinkProposal) (units : List String) (store : LinkStore)
      → AreTaken units store
      → Ensures (IsAccounted units ps store) (record_each is_format now run run_id ps store)
  unfolding record_each
  record_each-IsAccounted [] units store a = returns _ (record {
    written = refl;
    skipped = refl;
    links = sym (append-nil store.links);
    next_id = omega arith;
    verifications = sym (append-nil store.verifications);
  })
  record_each-IsAccounted (p ∷ ps) units store a =
      then-IsAccounted (current_project_link p.unit_id store) p ps units store refl a
        (record_each-IsAccounted ps)

-- A run that is recorded accounts for each of its proposals. It writes those for units that had no
-- current link, for each unit the first one: each as the link it says, in order, undecided and under
-- the next keys. It skips the others, and names their units in order. The links it writes and the
-- verifications that came with their proposals are what it adds to the tables.
pub record_project_link_run_lem :
    (is_format : ℕ → Bool) (now : ℕ) (drawn : String) (run : ProjectLinkRun) (store : LinkStore)
    (result : LinkStore × RunResult)
    → record_project_link_run is_format now drawn run store ≡ ok result
    → IsAccounted is_format now run
        (run_id_or_new drawn run.run_id)
        (current_units store.links)
        run.links
        store
        result
unfolding record_project_link_run
record_project_link_run_lem is_format now drawn run store result h =
    Ensures-ok
      (Ensures-guard _ _ _ λ _.
        record_each-IsAccounted is_format now run (run_id_or_new drawn run.run_id) run.links _ store
          (current_units-AreTaken store))
      h
