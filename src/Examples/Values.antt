-- ===== src/Examples/Values.antt =====
-- Concrete values: instants as texts, the retry delay, a split window and a poll that waits.
use workgraph.Common.{
  ◌+◌, ◌-◌, ◌*◌, ◌^◌, ◌≤◌, ◌<◌, ◌≡◌, refl, true, false, none, some, arith, min, ◌⊎◌, ◌↔◌,
}
use workgraph.Clock.{second, hour, minute, day, format, before}
use workgraph.Clock.Order.{before-whole_second}
use workgraph.Retry.{retry_initial, retry_max, connector_retry_delay}
use workgraph.Retry.Bounds.{connector_retry_delay-closed}
use workgraph.Window.{narrowed_capture_until, bridged_min_split_window}
use workgraph.Window.Halving.{narrowed_capture_until_lem, repeated_until, repeated_until_settles}
use workgraph.Runtime.{empty_entry, retry_after, pending_deadline, attempted_entry}
use workgraph.Runtime.Backoff.{WaitsFor, attempted_entry-WaitsFor}

whole_second_example : before (format (7 * second + 1)) (format (7 * second)) ≡ true
whole_second_example = before-whole_second 7 1 (omega arith) (omega arith)

delay_example :
    connector_retry_delay retry_initial retry_max 3 ≡ min (retry_initial * 2 ^ (3 - 1)) retry_max
delay_example = connector_retry_delay-closed retry_initial retry_max 3 (omega arith)

narrowed_example :
    let (narrowed, split) = narrowed_capture_until 0 (3 * hour) in
    ((split ≡ true) ↔ (bridged_min_split_window < 3 * hour - 0))
    × (split ≡ true
        → (0 + bridged_min_split_window ≤ narrowed)
          × (narrowed < 3 * hour)
          × (2 * (narrowed - 0) ≤ 3 * hour - 0 ⊎ narrowed ≡ 0 + bridged_min_split_window))
    × (split ≡ false → narrowed ≡ 3 * hour)
narrowed_example = narrowed_capture_until_lem 0 (3 * hour)

settles_example : (narrowed_capture_until 0 (repeated_until 2 0 (3 * hour))).1 ≡ false
settles_example = repeated_until_settles 2 0 (3 * hour) (omega arith)

-- A provider asks for a minute's pause; the poll was planned for ten seconds later.
waits_example :
    WaitsFor
      (attempted_entry empty_entry "slack"
        (101 * day)
        (some (101 * day + 10 * second))
        none
        (some (retry_after "limited" minute)))
      (101 * day + minute)
unfolding attempted_entry pending_deadline
waits_example =
    attempted_entry-WaitsFor empty_entry "slack" (101 * day) (some (101 * day + 10 * second)) none
      (some (retry_after "limited" minute)) (101 * day + minute) refl
