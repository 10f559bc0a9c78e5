-- ===== src/Links/Written.antt =====
-- Each link that a run writes is made from one of its proposals.
use workgraph.Common.{
  ℕ, String, ◌≡◌, refl, Bool, Option, none, some, List, [], ◌∷◌, All, All-append, Ensures, returns,
  Ensures-bind, Ensures-after, Ensures-guard,
}
use workgraph.Links.{ProjectLink, LinkStore}
use workgraph.Links.Write.{written_link, insert_project_link}
use workgraph.Links.Record.{
  ProjectLinkProposal, ProjectLinkRun, proposed_link, record_one, record_each,
  record_project_link_run,
}

insert_project_link-written :
    (is_format : ℕ → Bool) (now : ℕ) (link : ProjectLink) (store : LinkStore)
    → Ensures
        (λ r. r.1 ≡ written_link is_format store.next_id now link)
        (insert_project_link is_format now link store)
unfolding insert_project_link
insert_project_link-written is_format now link store =
    Ensures-after _ λ _. Ensures-guard _ _ _ λ _. returns _ refl

-- What holds of each link that is written for a proposal holds of all that a run writes.
module _ {ℓ} (is_format : ℕ → Bool) (now : ℕ) (run : ProjectLinkRun)
    (P : ProjectLink → Type ℓ) where
  Written : ProjectLinkProposal → Type ℓ
  Written p =
      (id : ℕ) (run_id : String) → P (written_link is_format id now (proposed_link run run_id p))

  record_one-written :
      (o : Option ProjectLink) (run_id : String) (p : ProjectLinkProposal) (store : LinkStore)
      → Written p
      → Ensures
          (λ r. All P r.1.written)
          (record_one is_format now o (proposed_link run run_id p) p.verification store)
  unfolding record_one Written
  record_one-written (some current) run_id p store h = returns _ tt
  record_one-written none run_id p store h =
      Ensures-bind _ (insert_project_link-written is_format now (proposed_link run run_id p) store)
        λ w e. returns _ (rw e (h store.next_id run_id), tt)

  record_each-written :
      (run_id : String) (ps : List ProjectLinkProposal) (store : LinkStore)
      → All Written ps
      → Ensures (λ r. All P r.1.written) (record_each is_format now run run_id ps store)
  unfolding record_each
  record_each-written run_id [] store h = returns _ tt
  record_each-written run_id (p ∷ ps) store h =
      Ensures-bind _ (record_one-written _ run_id p store h.0) λ one a.
        Ensures-bind _ (record_each-written run_id ps one.0 h.1)
          λ rest b. returns _ (All-append P one.1.written rest.1.written a b)

  pub record_project_link_run-written :
      (drawn : String) (store : LinkStore)
      → All
          (λ p.
            (id : ℕ) (run_id : String)
            → P (written_link is_format id now (proposed_link run run_id p)))
          run.links
      → Ensures (λ r. All P r.1.written) (record_project_link_run is_format now drawn run store)
  unfolding record_project_link_run Written
  record_project_link_run-written drawn store h =
      Ensures-guard _ _ _ λ _. record_each-written _ run.links store h
