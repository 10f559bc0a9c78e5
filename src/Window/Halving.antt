-- ===== src/Window/Halving.antt =====
-- What a split leaves of a window, and that splitting comes to an end.
use native.Mathlib.Nat.{pow-succ'}
use workgraph.Common.{
  pow_two_pos, ℕ, zero, suc, ◌+◌, ◌-◌, ◌*◌, ◌^◌, ◌≤◌, ◌<◌, ◌≡◌, true, false, arith, ◌⊎◌, ◌↔◌,
}
use workgraph.Clock.{hour}
use workgraph.Window.{bridged_min_split_window, narrowed_capture_until}

-- A window is split exactly if it is longer than the smallest one; then the new window keeps its
-- start, is at least the smallest, is shorter than before, and is at most the half or the smallest.
-- A window that is not split keeps its end.
pub narrowed_capture_until_lem :
    (since until : ℕ)
    → let (narrowed, split) = narrowed_capture_until since until in
      ((split ≡ true) ↔ (bridged_min_split_window < until - since))
      × (split ≡ true
          → (since + bridged_min_split_window ≤ narrowed)
            × (narrowed < until)
            × (2 * (narrowed - since) ≤ until - since
                ⊎ narrowed ≡ since + bridged_min_split_window))
      × (split ≡ false → narrowed ≡ until)
unfolding narrowed_capture_until
narrowed_capture_until_lem since until = ground arith

-- The end of the window after so many splits in a row.
unfoldable pub repeated_until : ℕ → ℕ → ℕ → ℕ
repeated_until zero since until = until
repeated_until (suc n) since until = repeated_until n since (narrowed_capture_until since until).0

narrow-le :
    (since until p : ℕ)
    → 1 ≤ p
    → until ≤ since + hour * (2 * p)
    → (narrowed_capture_until since until).0 ≤ since + hour * p
unfolding narrowed_capture_until
narrow-le since until p o h = ground arith

-- Splitting ends: a window of at most 2 ^ n hours is split no further after n splits in a row.
pub repeated_until_settles :
    (n since until : ℕ)
    → until ≤ since + hour * 2 ^ n
    → (narrowed_capture_until since (repeated_until n since until)).1 ≡ false
unfolding repeated_until narrowed_capture_until
repeated_until_settles zero since until h = ground arith
repeated_until_settles (suc n) since until h =
    repeated_until_settles n since _
      (narrow-le since until (2 ^ n) (pow_two_pos n) (rw (← pow-succ' 2 n) h))
