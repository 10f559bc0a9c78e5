-- ===== src/Links/Outcomes.antt =====
-- What a decision leaves as the unit's current link.
use workgraph.Common.{
  ℕ, String, ◌≡◌, refl, Bool, true, false, Option, none, some, List, [], ◌∷◌, ◌++◌, ok, err, arith,
  Bool-cases, All-always, inl, inr, Ensures, returns, refuses, Ensures-bind, Ensures-after,
  Ensures-guard, Ensures-of_ok, Ensures-ok, Ensures-mono, ◌∙◌, ◌>>=◌, link_decided, eq_refl,
}
use workgraph.Links.{
  ProjectLink, LinkStore, LinkState, proposed, applied, rejected, Decision, undecided, approved,
  confirmed, corrected, undone, is_current, has_link_id, find_link, is_current_of,
  current_project_link, read_project_link, found_link, update_link,
}
use workgraph.Links.Write.{
  taken_unit, written_link, insert_project_link, decide_project_link, decided_row,
}
use workgraph.Links.Rows.{find_link-All}
use workgraph.Links.Current.{found_link-eq-ok}
use workgraph.Links.Decide.{
  Assignment, assigned_link, inherit, assign_over, assign_project_link, approval,
  approve_project_link,
}

find_link-free :
    (unit : String) (w : ProjectLink) (links : List ProjectLink)
    → taken_unit unit links ≡ false
    → is_current_of unit w ≡ true
    → find_link (is_current_of unit) (links ++ w ∷ []) ≡ some w
unfolding find_link taken_unit
find_link-free unit w [] e h = rw h refl
find_link-free unit w (l ∷ links) e h = ground (arith, find_link-free unit w links, e, h)

-- The link that an insert returns is stored with the new key, undecided; if it is current, it is its
-- unit's current link.
record IsInserted (now : ℕ) (link : ProjectLink) (result : LinkStore × ProjectLink) : Type 0 where
  unit : result.1.unit_id ≡ link.unit_id
  target : (result.1.target ≡ link.target) × (result.1.project ≡ link.project)
  source : result.1.source ≡ link.source
  state : (result.1.state ≡ link.state) × (result.1.auto ≡ link.auto)
  undecided : (result.1.decision ≡ undecided) × (result.1.created_at ≡ now)
  current :
      is_current link.state ≡ true → current_project_link link.unit_id result.0 ≡ some result.1

insert-IsInserted :
    (is_format : ℕ → Bool) (now : ℕ) (link : ProjectLink) (store : LinkStore)
    → Ensures (IsInserted now link) (insert_project_link is_format now link store)
unfolding insert_project_link written_link current_project_link is_current_of
insert-IsInserted is_format now link store = Ensures-after _ λ valid. Ensures-guard _ _ _ λ free.
    returns _ (record {
      unit = refl;
      target = (refl, refl);
      source = refl;
      state = (refl, refl);
      undecided = (refl, refl);
      current = λ h.
          find_link-free link.unit_id _ store.links (ground (arith, free, h))
            (rw (eq_refl link.unit_id, h) refl);
    })

-- The link that an assignment leaves its unit with.
pub record IsAssigned (now : ℕ) (assignment : Assignment) (result : LinkStore × ProjectLink)
    : Type 0 where
  pub current : current_project_link assignment.unit_id result.0 ≡ some result.1
  pub target : (result.1.target ≡ assignment.target) × (result.1.project ≡ assignment.project)
  pub by_user : result.1.source ≡ "user"
  pub state : (result.1.state ≡ applied) × (result.1.auto ≡ false) × (result.1.decision ≡ undecided)

of_inserted :
    (now : ℕ) (assignment : Assignment) (link : ProjectLink) (result : LinkStore × ProjectLink)
    → link.unit_id ≡ assignment.unit_id
    → (link.target ≡ assignment.target) × (link.project ≡ assignment.project)
    → link.source ≡ "user"
    → (link.state ≡ applied) × (link.auto ≡ false)
    → IsInserted now link result
    → IsAssigned now assignment result
of_inserted now assignment link result unit target source state i = record {
  current = rw (← unit) (i.current (rw state.0 refl));
  target = (i.target.0 ∙ target.0, i.target.1 ∙ target.1);
  by_user = i.source ∙ source;
  state = (i.state.0 ∙ state.0, i.state.1 ∙ state.1, i.undecided.0);
}

assign_over-IsAssigned :
    (is_format : ℕ → Bool) (now : ℕ) (o : Option ProjectLink) (assignment : Assignment)
    (store : LinkStore)
    → Ensures
        (IsAssigned now assignment)
        (assign_over is_format now o (assigned_link assignment) store)
unfolding assign_over assigned_link inherit
assign_over-IsAssigned is_format now none assignment store =
    Ensures-mono _ (insert-IsInserted is_format now (assigned_link assignment) store) (λ r i.
      of_inserted now assignment (assigned_link assignment) r refl (refl, refl) refl (refl, refl) i)
assign_over-IsAssigned is_format now (some c) assignment store =
    Ensures-mono _ (insert-IsInserted is_format now (inherit c (assigned_link assignment)) _)
      (λ r i.
        of_inserted now assignment (inherit c (assigned_link assignment)) r refl (refl, refl) refl
          (refl, refl) i)

-- After an assignment that succeeds, the unit's current link is the one returned: applied by the user,
-- not automatic, undecided, with the target and the project that were assigned.
pub assign_project_link_lem :
    (is_format : ℕ → Bool) (now : ℕ) (assignment : Assignment) (store : LinkStore)
    (result : LinkStore × ProjectLink)
    → assign_project_link is_format now assignment store ≡ ok result
    → IsAssigned now assignment result
unfolding assign_project_link
assign_project_link_lem is_format now assignment store result h =
    Ensures-ok (assign_over-IsAssigned is_format now _ assignment store) h

find_link-decided :
    (id : ℕ) (d : ProjectLink) (links : List ProjectLink) (r : ProjectLink)
    → find_link (has_link_id id) links ≡ some r
    → find_link (has_link_id id) (update_link id (decided_row d) links) ≡ some (decided_row d r)
unfolding find_link update_link decided_row
find_link-decided id d [] r e = absurd (cc e)
find_link-decided id d (x ∷ links) r e = elim (Bool-cases (has_link_id id x)) [
  | inl hit ↦ (let same : x ≡ r = ground arith in rw (hit, hit) (rw same refl))
  | inr miss ↦ rw (miss, miss) (find_link-decided id d links r (ground arith))
]

-- An approved link is refused by the next approval.
approval-final :
    (now later : ℕ) (s : LinkState) (auto : Bool) (d : Decision) (link row : ProjectLink)
    → link.state ≡ s
    → link.auto ≡ auto
    → Ensures
        (λ decided.
          (decided.id ≡ link.id)
          × (approval later decided.state decided.auto decided.decision (decided_row decided row)
              ≡ err (link_decided row.id)))
        (approval now s auto d link)
unfolding approval decided_row
approval-final now later proposed auto d link row e f = returns _ (refl, refl)
approval-final now later applied true undecided link row e f = returns _ (refl, rw (e, f) refl)
approval-final now later applied true approved link row e f = refuses _
approval-final now later applied true confirmed link row e f = refuses _
approval-final now later applied true corrected link row e f = refuses _
approval-final now later applied true undone link row e f = refuses _
approval-final now later applied false d link row e f = refuses _
approval-final now later rejected auto d link row e f = refuses _

link-named :
    (id : ℕ) (links : List ProjectLink) (r : ProjectLink)
    → find_link (has_link_id id) links ≡ some r
    → r.id ≡ id
link-named id links r e =
    let passed =
      (find_link-All (has_link_id id) (λ l. Unit) links (All-always _ (λ l. tt) links) e).1 in
    ground arith

decided-refused :
    (later id : ℕ) (store : LinkStore) (link decided : ProjectLink)
    → find_link (has_link_id id) store.links ≡ some link
    → decided.id ≡ id
    → link.id ≡ id
    → approval later decided.state decided.auto decided.decision (decided_row decided link)
      ≡ err (link_decided link.id)
    → approve_project_link later id (decide_project_link decided store) ≡ err (link_decided id)
unfolding approve_project_link read_project_link decide_project_link decided_row found_link ◌>>=◌
decided-refused later id store link decided found same named refused =
    let there = find_link-decided id decided store.links link found in
    rw (same, there) (rw (refused, named) refl)

approve-final :
    (now later id : ℕ) (store : LinkStore)
    → Ensures
        (λ result. approve_project_link later id result.0 ≡ err (link_decided id))
        (approve_project_link now id store)
unfolding approve_project_link read_project_link
approve-final now later id store =
    Ensures-bind _ (Ensures-of_ok _ λ link e. found_link-eq-ok _ _ link e) λ link found.
      let named = link-named id store.links link found in
      Ensures-bind _
        (approval-final now later link.state link.auto link.decision link link refl refl)
        λ decided d.
          returns _ (decided-refused later id store link decided found (d.0 ∙ named) named d.1)

-- An approval that succeeds leaves a link that every further approval refuses as already decided.
pub approve_project_link_once :
    (now later id : ℕ) (store : LinkStore) (result : LinkStore × ProjectLink)
    → approve_project_link now id store ≡ ok result
    → approve_project_link later id result.0 ≡ err (link_decided id)
approve_project_link_once now later id store result h =
    Ensures-ok (approve-final now later id store) h
