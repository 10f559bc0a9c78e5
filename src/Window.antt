-- ===== src/Window.antt =====
-- The split of a capture window that was too large (bridged_window_split.go). Instants are
-- nanoseconds; a window that ends before it starts has length 0 here and a negative one there, and
-- both are refused.
pub mod Halving
use workgraph.Common.{ℕ, zero, suc, ◌+◌, ◌-◌, ◌/◌, Bool, true, false, ltb, leb, if◌then◌else◌}
use workgraph.Clock.{hour}

abbrev pub bridged_min_split_window : ℕ
bridged_min_split_window = hour

unfoldable pub narrowed_capture_until : ℕ → ℕ → ℕ × Bool
narrowed_capture_until since until =
    let window = until - since in
    let half = window / 2 in
    let narrowed = if ltb half bridged_min_split_window then bridged_min_split_window else half in
    if leb window narrowed then (until, false) else (since + narrowed, true)
