-- ===== src/Common/Outcome.antt =====
-- What a fallible operation returns: a value, or the error that the source formats as a message.
use mathlib.Core.Path.{◌≡◌, refl, subst}
use native.Mathlib.Omega.{arith}
use Prim.Native.String.{String}
use Prim.Native.Nat.{ℕ, zero, suc}
use mathlib.Core.Bool.{Bool, true, false}

-- One constructor for each error that the modelled functions return.
pub data Failure : Type 0 where
  stale_claim : Failure
  lease_expired : Failure
  not_validly_claimed : Failure
  request_not_found : String → Failure
  request_id_required : Failure
  request_settled : Failure
  unknown_failure_reason : Failure
  unknown_kind : Failure
  unknown_connector : String → Failure
  direct_only : String → Failure
  not_bridged : String → Failure
  worker_required : Failure
  claim_max_too_large : Failure
  bad_time : Failure
  unique_violation : Failure
  source_required : Failure
  wrong_kind : Failure
  no_randomness : Failure
  unsupported_run_source : Failure
  link_not_found : ℕ → Failure
  link_decided : ℕ → Failure
  link_not_current : ℕ → Failure
  link_changed : ℕ → Failure
  not_auto_applied : ℕ → Failure
  run_id_required : Failure
  unit_required : Failure
  bad_project : Failure
  bad_new_project : Failure
  bad_no_project : Failure
  unsupported_target : Failure
  unsupported_link_kind : Failure
  bad_confidence : Failure
  evidence_required : Failure
  empty_evidence : Failure
  bad_pause_event : Failure
  bad_capture_mode : Failure
  bridged_only : String → Failure
  authentication_unsupported : Failure
  bad_interval : Failure
  suggestion_id_required : Failure
  bad_suggestion : Failure
  bad_suggestion_status : String → Failure
  bad_transition : Failure
  no_rows : Failure
  pattern_key_required : Failure
  bad_until : Failure
  until_past : Failure
  dismiss_reason_required : Failure
  bad_feedback_action : String → Failure
  bad_suggestion_type : String → Failure

pub data Result {ℓ} (A : Type ℓ) : Type ℓ where
  ok : A → Result A
  err : Failure → Result A

infixl 5 ◌>>=◌
unfoldable pub ◌>>=◌ {ℓ κ} : {A : Type ℓ} {B : Type κ} → Result A → (A → Result B) → Result B
err e >>= next = err e
ok a >>= next = next a

-- What holds of the value, where there is one.
pub data Ensures {ℓ κ} {A : Type ℓ} (P : A → Type κ) : Result A → Type (ℓ ⊔ κ) where
  returns : (a : A) → P a → Ensures P (ok a)
  refuses : (e : Failure) → Ensures P (err e)

pub Ensures-bind {ℓ κ μ ν} :
    {A : Type ℓ} {B : Type κ} {Q : B → Type ν} (P : A → Type μ) {m : Result A} {f : A → Result B}
    → Ensures P m
    → ((a : A) → P a → Ensures Q (f a))
    → Ensures Q (m >>= f)
unfolding ◌>>=◌
Ensures-bind P (returns a h) k = k a h
Ensures-bind P (refuses e) k = refuses e

-- The same where nothing is to be known of the value.
pub Ensures-after {ℓ κ ν} :
    {A : Type ℓ} {B : Type κ} {Q : B → Type ν} (m : Result A) {f : A → Result B}
    → ((a : A) → Ensures Q (f a))
    → Ensures Q (m >>= f)
unfolding ◌>>=◌
Ensures-after (ok a) k = k a
Ensures-after (err e) k = refuses e

pub Ensures-mono {ℓ κ ν} :
    {A : Type ℓ} {Q : A → Type ν} (P : A → Type κ) {m : Result A}
    → Ensures P m
    → ((a : A) → P a → Q a)
    → Ensures Q m
Ensures-mono P (returns a h) k = returns a (k a h)
Ensures-mono P (refuses e) k = refuses e

pub Ensures-of_ok {ℓ κ} :
    {A : Type ℓ} {P : A → Type κ} (m : Result A) → ((a : A) → m ≡ ok a → P a) → Ensures P m
Ensures-of_ok (ok a) h = returns a (h a refl)
Ensures-of_ok (err e) h = refuses e

-- An early return of an error, unless the test holds.
unfoldable pub guard : Bool → Failure → Result (Unit {0})
guard true e = ok tt
guard false e = err e

pub Ensures-guard {ℓ κ} :
    {A : Type ℓ} {P : A → Type κ} (b : Bool) (e : Failure) (f : Unit {0} → Result A)
    → (b ≡ true → Ensures P (f tt))
    → Ensures P (guard b e >>= f)
unfolding guard ◌>>=◌
Ensures-guard true e f h = h refl
Ensures-guard false e f h = refuses e

-- RowsAffected() must be 1.
unfoldable pub exactly_one {ℓ} : {A : Type ℓ} → Failure → ℕ → A → Result A
exactly_one e zero x = err e
exactly_one e (suc zero) x = ok x
exactly_one e (suc (suc n)) x = err e

pub Ensures-exactly_one {ℓ κ} :
    {A : Type ℓ} {P : A → Type κ} (e : Failure) (n : ℕ) (x : A)
    → P x
    → Ensures P (exactly_one e n x)
unfolding exactly_one
Ensures-exactly_one e zero x h = refuses e
Ensures-exactly_one e (suc zero) x h = returns x h
Ensures-exactly_one e (suc (suc n)) x h = refuses e

pub exactly_one-eq-ok {ℓ} :
    {A : Type ℓ} (e : Failure) (n : ℕ) (x : A) {a : A}
    → exactly_one e n x ≡ ok a
    → (n ≡ 1) × (x ≡ a)
unfolding exactly_one
exactly_one-eq-ok e zero x h = absurd (cc h)
exactly_one-eq-ok e (suc zero) x h = (refl, cc)
exactly_one-eq-ok e (suc (suc n)) x h = absurd (cc h)

Ensures-value {ℓ κ} :
    {A : Type ℓ} (P : A → Type κ) (m : Result A) (a : A) → Ensures P m → m ≡ ok a → P a
Ensures-value P m a (returns b h) e = subst P (ground arith) h
Ensures-value P m a (refuses b) e = absurd (cc e)

pub Ensures-ok {ℓ κ} :
    {A : Type ℓ} {P : A → Type κ} {m : Result A} {a : A} → Ensures P m → m ≡ ok a → P a
Ensures-ok {P} {m} {a} h e = Ensures-value P m a h e

-- A chain that ends well has a first part that does.
pub >>=-eq-ok {ℓ κ} :
    {A : Type ℓ} {B : Type κ} {b : B} (first : Result A) (next : A → Result B)
    → (first >>= next) ≡ ok b
    → (x : A) × (first ≡ ok x) × (next x ≡ ok b)
unfolding ◌>>=◌
>>=-eq-ok (err e) next h = cc
>>=-eq-ok (ok x) next h = (x, refl, h)
