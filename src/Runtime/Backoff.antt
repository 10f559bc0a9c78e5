-- ===== src/Runtime/Backoff.antt =====
-- A poll that has to wait is not tried before its deadline.
use workgraph.Common.{
  ℕ, ◌≤◌, String, ◌≡◌, refl, Bool, true, false, Option, none, some, arith, ◌⊎◌, inl, inr,
  if◌then◌else◌,
}
use workgraph.Clock.{format}
use workgraph.Runtime.{
  RuntimeEntry, PollError, deferred, retry_after, failed, pending_deadline, note_deadline,
  note_auth, note_outcome, attempted_entry, no_earlier, is_deferred, asked_poll,
  connector_auth_failure, stop_polls,
}

-- The next poll is not set, or not before the deadline.
abbrev pub WaitsFor : RuntimeEntry → ℕ → Type 0
WaitsFor e t = (e.next_poll ≡ none) ⊎ ((p : ℕ) × (e.next_poll ≡ some (format p)) × (t ≤ p))

no_earlier-le : (next : Option ℕ) (t : ℕ) → t ≤ no_earlier next t
no_earlier-le none t = omega arith
no_earlier-le (some n) t = ground arith

note_deadline-WaitsFor :
    (e : RuntimeEntry) (deadline next : Option ℕ) (is_deferred : Bool) (now t : ℕ)
    → pending_deadline e.not_before now ≡ deadline
    → pending_deadline (note_deadline e deadline is_deferred next).not_before now ≡ some t
    → WaitsFor (note_deadline e deadline is_deferred next) t
unfolding note_deadline pending_deadline
note_deadline-WaitsFor e none next true now t same h = absurd (cc (same, h))
note_deadline-WaitsFor e none next false now t same h = absurd (cc h)
note_deadline-WaitsFor e (some d) next b now t same h =
    let eq : d ≡ t = cc (same, h) in inr (no_earlier next d, refl, rw (← eq) (no_earlier-le next d))

stop_polls-WaitsFor : (e : RuntimeEntry) (id : String) (t : ℕ) → WaitsFor (stop_polls e id) t
unfolding stop_polls
stop_polls-WaitsFor e id t = inl refl

stopped_if-WaitsFor :
    (b : Bool) (e : RuntimeEntry) (id : String) (now t : ℕ)
    → (pending_deadline e.not_before now ≡ some t → WaitsFor e t)
    → pending_deadline (if b then stop_polls e id else e).not_before now ≡ some t
    → WaitsFor (if b then stop_polls e id else e) t
stopped_if-WaitsFor true e id now t k h = stop_polls-WaitsFor e id t
stopped_if-WaitsFor false e id now t k h = k h

note_auth-WaitsFor :
    (e : RuntimeEntry) (id : String) (outcome : Option PollError) (now t : ℕ)
    → (pending_deadline e.not_before now ≡ some t → WaitsFor e t)
    → pending_deadline (note_auth e id outcome).not_before now ≡ some t
    → WaitsFor (note_auth e id outcome) t
unfolding note_auth
note_auth-WaitsFor e id none now t k h = k h
note_auth-WaitsFor e id (some (deferred reason until)) now t k h = k h
note_auth-WaitsFor e id (some (failed message)) now t k h =
    stopped_if-WaitsFor (connector_auth_failure message) e id now t k h
note_auth-WaitsFor e id (some (retry_after message delay)) now t k h =
    stopped_if-WaitsFor (connector_auth_failure message) e id now t k h

-- After a poll is recorded, whatever its outcome: where the entry then holds a deadline that is still to
-- come, the next poll is not set, or is at the deadline or after it.
pub attempted_entry-WaitsFor :
    (e : RuntimeEntry) (id : String) (now : ℕ) (next failures : Option ℕ)
    (outcome : Option PollError) (t : ℕ)
    → pending_deadline (attempted_entry e id now next failures outcome).not_before now ≡ some t
    → WaitsFor (attempted_entry e id now next failures outcome) t
unfolding attempted_entry
attempted_entry-WaitsFor e id now next failures outcome t h =
    let noted = note_outcome e now failures outcome in
    note_auth-WaitsFor _ id outcome now t
      (note_deadline-WaitsFor noted (pending_deadline noted.not_before now)
        (asked_poll next outcome) (is_deferred outcome) now t refl)
      h
