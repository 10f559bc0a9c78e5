-- ===== src/Links/Current.antt =====
-- Each operation on links keeps their rows well formed.
use workgraph.Common.{
  ℕ, String, ◌≡◌, refl, Bool, true, false, Option, none, some, List, [], ◌∷◌, ◌==◌, ok, All-mono,
  All-always, Bool-cases, inl, inr, Ensures, returns, refuses, Ensures-bind, Ensures-after,
  Ensures-guard, Ensures-of_ok, Result,
}
use workgraph.Links.{
  ProjectLink, ProposedProject, LinkStore, LinkState, proposed, applied, rejected, Decision,
  undecided, approved, confirmed, corrected, undone, Verification, is_current, found_link,
  read_project_link,
}
use workgraph.Links.Rows.{
  IsWellFormed, update_link-IsWellFormed, find_link-only, insert-IsWellFormed, decide-IsWellFormed,
}
use workgraph.Links.Write.{decide_project_link}
use workgraph.Links.Decide.{
  Assignment, approval, approve_project_link, named_project, name_new_project,
  approve_new_project_link, inherit, assign_over, assign_project_link, rejected_as, undo_link,
  undo_project_link, undo_each, undo_project_link_run,
}
use workgraph.Links.Record.{
  ProjectLinkProposal, ProjectLinkRun, record_verification, record_one, record_each,
  record_project_link_run,
}
use workgraph.Links.Review.{approve_as_listed, reject_project_link, released, decide_each}

abbrev pub KeepsStore {ℓ} : {A : Type ℓ} → Result (LinkStore × A) → Type ℓ
KeepsStore m = Ensures (λ r. IsWellFormed r.0) m

pub found_link-eq-ok :
    (id : ℕ) (o : Option ProjectLink) (r : ProjectLink) → found_link id o ≡ ok r → o ≡ some r
unfolding found_link
found_link-eq-ok id none r h = absurd (cc h)
found_link-eq-ok id (some s) r h = cc

-- What an approval makes of a link: it keeps the key, and the link was current.
approval-current :
    (now : ℕ) (s : LinkState) (auto : Bool) (d : Decision) (link : ProjectLink)
    → Ensures
        (λ decided. (decided.id ≡ link.id) × (is_current s ≡ true))
        (approval now s auto d link)
unfolding approval
approval-current now proposed auto d link = returns _ (refl, refl)
approval-current now applied true undecided link = returns _ (refl, refl)
approval-current now applied true approved link = refuses _
approval-current now applied true confirmed link = refuses _
approval-current now applied true corrected link = refuses _
approval-current now applied true undone link = refuses _
approval-current now applied false d link = refuses _
approval-current now rejected auto d link = refuses _

pub approve-keeps :
    (now id : ℕ) (store : LinkStore)
    → IsWellFormed store
    → KeepsStore (approve_project_link now id store)
unfolding approve_project_link read_project_link
approve-keeps now id store w =
    Ensures-bind _ (Ensures-of_ok _ λ link e. found_link-eq-ok _ _ link e) λ link found.
      let only = find_link-only _ store.links link w.distinct found in
      Ensures-bind _ (approval-current now link.state link.auto link.decision link) λ decided d.
        returns _ (
          decide-IsWellFormed decided store w
            (All-mono _ _ (λ l same k c. rw (same (rw (← d.0) k)) d.1) store.links only))

name_new_project-keeps :
    (p : Option ProposedProject) (store : LinkStore) (link : ProjectLink)
    → IsWellFormed store
    → IsWellFormed (name_new_project p store link).0
unfolding name_new_project named_project
name_new_project-keeps none store link w = w
name_new_project-keeps (some p) store link w = elim (Bool-cases (link.target == "new_project")) [
  | inl e ↦ rw e (
      update_link-IsWellFormed link.id (named_project p.slug) store
        (All-always _ (λ l k. record { id = refl; unit = refl; current = λ h. h }) store.links) w)
  | inr e ↦ rw e w
]

pub approve_new-keeps :
    (now id : ℕ) (store : LinkStore)
    → IsWellFormed store
    → KeepsStore (approve_new_project_link now id store)
unfolding approve_new_project_link
approve_new-keeps now id store w =
    Ensures-bind _ (approve-keeps now id store w)
      λ a v. returns _ (name_new_project-keeps a.1.new_project a.0 a.1 v)

rejected-keeps :
    (d : Decision) (now : ℕ) (link : ProjectLink) (store : LinkStore)
    → IsWellFormed store
    → IsWellFormed (decide_project_link (rejected_as d now link) store)
unfolding rejected_as
rejected-keeps d now link store w =
    decide-IsWellFormed (rejected_as d now link) store w
      (All-always _ (λ l k c. absurd (cc c)) store.links)

assign_over-keeps :
    (is_format : ℕ → Bool) (now : ℕ) (o : Option ProjectLink) (link : ProjectLink)
    (store : LinkStore)
    → IsWellFormed store
    → KeepsStore (assign_over is_format now o link store)
unfolding assign_over
assign_over-keeps is_format now none link store w = insert-IsWellFormed is_format now link store w
assign_over-keeps is_format now (some current) link store w =
    insert-IsWellFormed is_format now (inherit current link) _
      (rejected-keeps corrected now current store w)

pub assign-keeps :
    (is_format : ℕ → Bool) (now : ℕ) (a : Assignment) (store : LinkStore)
    → IsWellFormed store
    → KeepsStore (assign_project_link is_format now a store)
unfolding assign_project_link
assign-keeps is_format now a store w = assign_over-keeps is_format now _ _ store w

undo_link-keeps :
    (is_format : ℕ → Bool) (now : ℕ) (link : ProjectLink) (store : LinkStore)
    → IsWellFormed store
    → KeepsStore (undo_link is_format now link store)
unfolding undo_link
undo_link-keeps is_format now link store w = Ensures-guard _ _ _ λ _.
    insert-IsWellFormed is_format now (record link { state = proposed; auto = false }) _
      (rejected-keeps undone now link store w)

pub undo-keeps :
    (is_format : ℕ → Bool) (now id : ℕ) (store : LinkStore)
    → IsWellFormed store
    → KeepsStore (undo_project_link is_format now id store)
unfolding undo_project_link
undo-keeps is_format now id store w =
    Ensures-after _ λ link. undo_link-keeps is_format now link store w

undo_each-keeps :
    (is_format : ℕ → Bool) (now : ℕ) (links : List ProjectLink) (store : LinkStore)
    → IsWellFormed store
    → KeepsStore (undo_each is_format now links store)
unfolding undo_each
undo_each-keeps is_format now [] store w = returns _ w
undo_each-keeps is_format now (link ∷ links) store w =
    Ensures-bind _ (undo_link-keeps is_format now link store w)
      λ one v. Ensures-bind _ (undo_each-keeps is_format now links one.0 v) λ rest u. returns _ u

pub undo_run-keeps :
    (is_format : ℕ → Bool) (now : ℕ) (run_id : String) (store : LinkStore)
    → IsWellFormed store
    → KeepsStore (undo_project_link_run is_format now run_id store)
unfolding undo_project_link_run
undo_run-keeps is_format now run_id store w =
    Ensures-guard _ _ _ λ _. undo_each-keeps is_format now _ store w

record_verification-keeps :
    (v : Option (ℕ → Verification)) (id : ℕ) (store : LinkStore)
    → IsWellFormed store
    → IsWellFormed (record_verification v id store)
unfolding record_verification
record_verification-keeps none id store w = w
record_verification-keeps (some v) id store w = record { distinct = w.distinct; drawn = w.drawn }

record_one-keeps :
    (is_format : ℕ → Bool) (now : ℕ) (o : Option ProjectLink) (link : ProjectLink)
    (v : Option (ℕ → Verification)) (store : LinkStore)
    → IsWellFormed store
    → KeepsStore (record_one is_format now o link v store)
unfolding record_one
record_one-keeps is_format now (some current) link v store w = returns _ w
record_one-keeps is_format now none link v store w =
    Ensures-bind _ (insert-IsWellFormed is_format now link store w)
      λ written u. returns _ (record_verification-keeps v _ written.0 u)

record_each-keeps :
    (is_format : ℕ → Bool) (now : ℕ) (run : ProjectLinkRun) (run_id : String)
    (proposals : List ProjectLinkProposal) (store : LinkStore)
    → IsWellFormed store
    → KeepsStore (record_each is_format now run run_id proposals store)
unfolding record_each
record_each-keeps is_format now run run_id [] store w = returns _ w
record_each-keeps is_format now run run_id (p ∷ proposals) store w =
    Ensures-bind _ (record_one-keeps is_format now _ _ p.verification store w) λ one v.
      Ensures-bind _ (record_each-keeps is_format now run run_id proposals one.0 v)
        λ rest u. returns _ u

pub record-keeps :
    (is_format : ℕ → Bool) (now : ℕ) (drawn : String) (run : ProjectLinkRun) (store : LinkStore)
    → IsWellFormed store
    → KeepsStore (record_project_link_run is_format now drawn run store)
unfolding record_project_link_run
record-keeps is_format now drawn run store w =
    Ensures-guard _ _ _ λ _. record_each-keeps is_format now run _ run.links store w

pub approve_listed-keeps :
    (now : ℕ) (listed : ProjectLink) (store : LinkStore)
    → IsWellFormed store
    → KeepsStore (approve_as_listed now listed store)
unfolding approve_as_listed
approve_listed-keeps now listed store w =
    Ensures-after _ λ current. Ensures-guard _ _ _ λ _. approve-keeps now current.id store w

pub reject-keeps :
    (is_format : ℕ → Bool) (now id : ℕ) (store : LinkStore)
    → IsWellFormed store
    → KeepsStore (reject_project_link is_format now id store)
unfolding reject_project_link
reject-keeps is_format now id store w =
    Ensures-after _ λ link. Ensures-guard _ _ _ λ _. assign-keeps is_format now _ store w

pub released-keeps :
    (store : LinkStore) (m : Result (LinkStore × ProjectLink))
    → IsWellFormed store
    → KeepsStore m
    → IsWellFormed (released store m).0
unfolding released
released-keeps store _ w (returns a h) = h
released-keeps store _ w (refuses e) = w

pub decide_each-keeps {ℓ} :
    {A : Type ℓ} (decide : A → LinkStore → Result (LinkStore × ProjectLink))
    → ((a : A) (store : LinkStore) → IsWellFormed store → KeepsStore (decide a store))
    → (items : List A) (store : LinkStore) → IsWellFormed store
    → IsWellFormed (decide_each decide items store).0
unfolding decide_each
decide_each-keeps decide h [] store w = w
decide_each-keeps decide h (a ∷ items) store w =
    decide_each-keeps decide h items _ (released-keeps store (decide a store) w (h a store w))
