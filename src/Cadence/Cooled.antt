-- ===== src/Cadence/Cooled.antt =====
-- Which units a recorded cooldown keeps out of the next requests.
use workgraph.Common.{
  ℕ, ◌+◌, ◌≤◌, String, true, false, ◌≡◌, refl, sym, ◌∙◌, Option, none, some, List, [], ◌∷◌, ◌==◌,
  first_with, first_with-past, first_with-here, first_with-upsert, upsert-Unrepeated, Unrepeated,
  if◌then◌else◌, Bool-cases, inl, inr, eq_iff, eq_refl, arith,
}
use workgraph.Clock.{Stamp, format, before, second, day}
use workgraph.Clock.Order.{before_of_second, before-seconds}
use workgraph.Links.Record.{RunResult}
use workgraph.Cadence.Cooldowns.{
  AssociateUnit, Cooldown, SentUnit, llm_associate_cooldown, associate_members_hash, is_passed_over,
  cool, cool_each, record_associate_cooldowns, active_associate_cooldowns, is_cooled,
}
use workgraph.Cadence.Open.{is_open, row_id, is_hash-active_since}

abbrev link_id : AssociateUnit → String
link_id unit = unit.link_unit_id

module _ (digest : String → String) where
  cool-Unrepeated :
      (until : Stamp) (unit : AssociateUnit) (rows : List Cooldown)
      → Unrepeated row_id rows
      → Unrepeated row_id (cool digest until unit rows)
  unfolding cool
  cool-Unrepeated until unit rows u =
      upsert-Unrepeated row_id unit.link_unit_id _ _ refl (λ row. refl) rows u

  cool_each-Unrepeated :
      (until : Stamp) (result : RunResult) (sent : Option (List SentUnit))
      → (units : List AssociateUnit) (rows : List Cooldown) → Unrepeated row_id rows
      → Unrepeated row_id (cool_each digest until result sent units rows)
  unfolding cool_each
  cool_each-Unrepeated until result sent [] rows u = u
  cool_each-Unrepeated until result sent (unit ∷ units) rows u =
      elim (Bool-cases (is_passed_over digest result sent unit)) [
        | inl h ↦ rw h (cool_each-Unrepeated until result sent units rows u)
        | inr h ↦
            rw h
              (cool_each-Unrepeated until result sent units _ (cool-Unrepeated until unit rows u))
      ]

  cool-other :
      (until : Stamp) (unit : AssociateUnit) (rows : List Cooldown) (id : String)
      → (unit.link_unit_id == id) ≡ false
      → first_with row_id id (cool digest until unit rows) ≡ first_with row_id id rows
  unfolding cool
  cool-other until unit rows id h =
      first_with-upsert row_id unit.link_unit_id _ _ refl (λ row. refl) rows id ∙ rw h refl

  cool-here :
      (until now : Stamp) (unit : AssociateUnit) (rows : List Cooldown)
      → is_open now
          (associate_members_hash digest unit)
          (first_with row_id unit.link_unit_id (cool digest until unit rows))
        ≡ before now until
  unfolding cool is_open
  cool-here until now unit rows =
      rw
        (
          first_with-upsert row_id unit.link_unit_id
              (record {
                unit_id = unit.link_unit_id;
                members_hash = associate_members_hash digest unit;
                until = until;
              })
              (λ row. record row {
                members_hash = associate_members_hash digest unit;
                until = until;
              })
              refl (λ row. refl) rows unit.link_unit_id,
          eq_refl unit.link_unit_id,
        )
        (rw (eq_refl (associate_members_hash digest unit)) (ground arith))

  cool_each-other :
      (until : Stamp) (result : RunResult) (sent : Option (List SentUnit))
      → (units : List AssociateUnit) (rows : List Cooldown) (id : String)
      → first_with link_id id units ≡ none
      → first_with row_id id (cool_each digest until result sent units rows)
        ≡ first_with row_id id rows
  unfolding cool_each first_with
  cool_each-other until result sent [] rows id h = refl
  cool_each-other until result sent (unit ∷ units) rows id h =
      elim (Bool-cases (link_id unit == id)) [
        | inl k ↦ absurd (cc (sym (first_with-here link_id id unit units k) ∙ h))
        | inr k ↦
            let past : first_with link_id id units ≡ none =
              sym (first_with-past link_id id unit units k) ∙ h in
            elim (Bool-cases (is_passed_over digest result sent unit)) [
              | inl p ↦ rw p (cool_each-other until result sent units rows id past)
              | inr p ↦ rw p (
                  cool_each-other until result sent units (cool digest until unit rows) id past
                  ∙ cool-other until unit rows id k)
            ]
      ]

  cool_each-first :
      (until now : Stamp) (result : RunResult) (sent : Option (List SentUnit))
      → (unit : AssociateUnit) (units : List AssociateUnit) (rows : List Cooldown)
      → first_with link_id unit.link_unit_id units ≡ none
      → is_open now (associate_members_hash digest unit) (
          first_with row_id unit.link_unit_id
            (cool_each digest until result sent (unit ∷ units) rows))
        ≡ (if is_passed_over digest result sent unit
            then is_open now
                (associate_members_hash digest unit)
                (first_with row_id unit.link_unit_id rows)
            else before now until)
  unfolding cool_each
  cool_each-first until now result sent unit units rows h =
      elim (Bool-cases (is_passed_over digest result sent unit)) [
        | inl p ↦ rw (p, cool_each-other until result sent units rows unit.link_unit_id h) refl
        | inr p ↦
            rw
              (
                p,
                cool_each-other until result sent units (cool digest until unit rows)
                    unit.link_unit_id h,
              )
              (cool-here until now unit rows)
      ]

  cool_each-here :
      (until now : Stamp) (result : RunResult) (sent : Option (List SentUnit))
      → (units : List AssociateUnit) (rows : List Cooldown) (unit : AssociateUnit)
      → Unrepeated link_id units
      → first_with link_id unit.link_unit_id units ≡ some unit
      → is_open now
          (associate_members_hash digest unit)
          (first_with row_id unit.link_unit_id (cool_each digest until result sent units rows))
        ≡ (if is_passed_over digest result sent unit
            then is_open now
                (associate_members_hash digest unit)
                (first_with row_id unit.link_unit_id rows)
            else before now until)
  unfolding cool_each first_with
  cool_each-here until now result sent [] rows unit u h = absurd (cc h)
  cool_each-here until now result sent (other ∷ units) rows unit u h =
      elim (Bool-cases (link_id other == unit.link_unit_id)) [
        | inl k ↦
            let same : some other ≡ some unit =
              sym (first_with-here link_id unit.link_unit_id other units k) ∙ h in
            let is_unit : other ≡ unit = cc same in
            let past : first_with link_id unit.link_unit_id units ≡ none =
              rw (sym ((eq_iff other.link_unit_id unit.link_unit_id).0 k)) u.0 in
            rw is_unit (cool_each-first until now result sent unit units rows past)
        | inr k ↦
            let past = sym (first_with-past link_id unit.link_unit_id other units k) ∙ h in
            elim (Bool-cases (is_passed_over digest result sent other)) [
              | inl p ↦ rw p (cool_each-here until now result sent units rows unit u.1 past)
              | inr p ↦ rw p (
                  cool_each-here until now result sent units (cool digest until other rows) unit u.1
                    past
                  ∙ rw (cool-other until other rows unit.link_unit_id k) refl)
            ]
      ]

-- After a run is recorded, a unit of it is kept out at a later time just in this case: where the run
-- made it a link or skipped it, or its members are not those that were sent, as it was before; else
-- while that time's text is before the one of a day after the run. The units have distinct ids, and so
-- have the rows there were.
pub record_associate_cooldowns_lem :
    (digest : String → String) (now later : ℕ) (result : RunResult)
    → (sent : Option (List SentUnit)) (units : List AssociateUnit) (rows : List Cooldown)
    → (unit : AssociateUnit) → Unrepeated (λ u. u.link_unit_id) units
    → Unrepeated (λ row. row.unit_id) rows
    → first_with (λ u. u.link_unit_id) unit.link_unit_id units ≡ some unit
    → is_cooled digest
        (active_associate_cooldowns later
          (record_associate_cooldowns digest now result sent units rows))
        unit
      ≡ (if is_passed_over digest result sent unit
          then is_cooled digest (active_associate_cooldowns later rows) unit
          else before (format later) (format (now + llm_associate_cooldown)))
unfolding is_cooled active_associate_cooldowns record_associate_cooldowns
record_associate_cooldowns_lem digest now later result sent units rows unit u r h =
    let until = format (now + llm_associate_cooldown) in
    let hash = associate_members_hash digest unit in
    rw
      (
        is_hash-active_since (format later) hash unit.link_unit_id
            (cool_each digest until result sent units rows)
            (cool_each-Unrepeated digest until result sent units rows r),
        is_hash-active_since (format later) hash unit.link_unit_id rows r,
      )
      (cool_each-here digest until (format later) result sent units rows unit u h)

format_not_before : (t u : ℕ) → u + second ≤ t → before (format t) (format u) ≡ false
unfolding format
format_not_before t u h = elim (Bool-cases (before (format t) (format u))) [
  | inl b ↦ absurd (omega (arith, before-seconds (format t) (format u) b))
  | inr b ↦ b
]

-- A unit that a run sent, left without a link and did not skip is kept out at every time that is a
-- second or more before the day after the run ends, and at none from a second after that on. The units
-- have distinct ids, and so have the rows there were.
pub record_associate_cooldowns-day :
    (digest : String → String) (now early late : ℕ) (result : RunResult)
    → (sent : Option (List SentUnit)) (units : List AssociateUnit) (rows : List Cooldown)
    → (unit : AssociateUnit) → Unrepeated (λ u. u.link_unit_id) units
    → Unrepeated (λ row. row.unit_id) rows
    → first_with (λ u. u.link_unit_id) unit.link_unit_id units ≡ some unit
    → is_passed_over digest result sent unit ≡ false
    → early + second ≤ now + day
    → now + day + second ≤ late
    → (is_cooled digest
          (active_associate_cooldowns early
            (record_associate_cooldowns digest now result sent units rows))
          unit
        ≡ true)
      × (is_cooled digest
            (active_associate_cooldowns late
              (record_associate_cooldowns digest now result sent units rows))
            unit
          ≡ false)
record_associate_cooldowns-day digest now early late result sent units rows unit u r h p soon
      after =
    let law =
      λ (at : ℕ). record_associate_cooldowns_lem digest now at result sent units rows unit u r h in
    (
      law early ∙ rw p (before_of_second early (now + day) soon),
      law late ∙ rw p (format_not_before late (now + day) after),
    )
