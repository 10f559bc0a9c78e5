-- ===== src/Outbox/Invariant/Updates.antt =====
-- Each update that the outbox makes, by the rows that it may change and what it makes of them.
use workgraph.Common.{String, ◌≡◌, refl, Bool, true, Option, some, arith}
use workgraph.Clock.{Stamp}
use workgraph.Outbox.{
  Request, Status, pending, claimed, completed, cancelled, is_active, is_claimed,
}
use workgraph.Outbox.Rows.{ClaimColumns, KeepsRows}
use workgraph.Outbox.Recycle.{requeue}
use workgraph.Outbox.Claim.{take_claim, may_take}
use workgraph.Outbox.Capability.{holds_live_claim, shrink_window}
use workgraph.Outbox.Cancel.{cancel_row, cancel_active_row}
use workgraph.Outbox.Complete.{complete_row}

abbrev pub OnlyClaimed : (Request → Bool) → Type 0
OnlyClaimed p = (r : Request) → p r ≡ true → is_claimed r.status ≡ true

abbrev pub OnlyActive : (Request → Bool) → Type 0
OnlyActive p = (r : Request) → p r ≡ true → is_active r.status ≡ true

pub requeue-KeepsRows :
    (p : Request → Bool) (available : Stamp) (error : String)
    → OnlyClaimed p
    → KeepsRows p (requeue available error)
unfolding requeue
requeue-KeepsRows p available error only r h = (ground (arith, only r h), λ s. (refl, refl))

pub shrink_window-KeepsRows :
    (p : Request → Bool) (until now : Stamp) (detail : String)
    → OnlyClaimed p
    → KeepsRows p (shrink_window until now detail)
unfolding shrink_window
shrink_window-KeepsRows p until now detail only r h = (ground (arith, only r h), λ s. (refl, refl))

pub take_claim-KeepsRows :
    (id token worker : String) (now expires : Stamp)
    → KeepsRows (may_take id now) (take_claim token worker now expires)
unfolding take_claim may_take
take_claim-KeepsRows id token worker now expires r h =
    (ground arith, λ s. (refl, refl, refl, refl, omega arith))

pub cancel_row-KeepsRows :
    (p : Request → Bool) (now : Stamp) (error : Option String)
    → OnlyActive p
    → KeepsRows p (cancel_row now error)
unfolding cancel_row
cancel_row-KeepsRows p now error only r h = (ground (arith, only r h), λ s. (refl, refl))

pub cancel_active_row-KeepsRows :
    (p : Request → Bool) (now : Stamp) → OnlyActive p → KeepsRows p (cancel_active_row now)
unfolding cancel_active_row
cancel_active_row-KeepsRows p now only r h = (ground (arith, only r h), λ s. (refl, refl))

pub complete_row-KeepsRows :
    (p : Request → Bool) (now : Stamp) → OnlyActive p → KeepsRows p (complete_row now)
unfolding complete_row
complete_row-KeepsRows p now only r h = (ground (arith, only r h), λ s. (refl, refl))

renewed-IsSound :
    (st : Status) (r : Request) (expires : Stamp)
    → is_claimed st ≡ true
    → ClaimColumns st r
    → ClaimColumns st (record r { lease_expires_at = some expires })
renewed-IsSound pending r expires h s = cc
renewed-IsSound claimed r expires h s = (s.0, s.1, s.2, refl, s.4)
renewed-IsSound completed r expires h s = cc
renewed-IsSound cancelled r expires h s = cc

pub renewed-KeepsRows :
    (id token : String) (now expires : Stamp)
    → KeepsRows (holds_live_claim id token now) (λ r. record r { lease_expires_at = some expires })
unfolding holds_live_claim
renewed-KeepsRows id token now expires r h =
    (ground arith, renewed-IsSound r.status r expires (ground arith))
