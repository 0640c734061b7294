-- ===== src/Runtime/KeyTests.antt =====
-- The theorem about the last key combinations at a concrete input.
use macrohelp.Base.{take, [], ◌∷◌, true, false, ◌≡◌, refl, arith}
use macrohelp.Runtime.KeyHistory.{
  History, Tracker, max_history, max_visible, shown_entries, status_text, signature_from,
  push_history, track_up, display_down,
}
use macrohelp.Runtime.KeyHistory.Recent.{recent, status_of}
use macrohelp.Runtime.KeyHistory.Ring.{IsInOrder, recent-push_history}

abbrev history : History
history = record {
  slots = λ i. record { keys = "Shift" ∷ "Tab" ∷ []; tick = i };
  head = 2;
  count = 15;
  last_signature = "Shift+Tab";
  last_tick = 1;
}

history-IsInOrder : IsInOrder history
unfolding signature_from
history-IsInOrder = record {
  ring = record { head_in = omega arith; count_in = omega arith };
  signature_of_newest = refl;
  tick_of_newest = refl;
}

abbrev copied : History
copied = push_history ("Ctrl" ∷ "C" ∷ []) 1000 history

recent-push_history_example :
    IsInOrder copied
    × (recent copied
        ≡ take max_history (record { keys = "Ctrl" ∷ "C" ∷ []; tick = 1000 } ∷ recent history))
    × (shown_entries copied ≡ take max_visible (recent copied))
    × (status_text true 6001 copied ≡ status_of 6001 (recent copied))
unfolding signature_from
recent-push_history_example =
    recent-push_history "Ctrl" ("C" ∷ []) 1000 6001 history history-IsInOrder

faded : status_text true 6001 copied ≡ "Key HUD: on, waiting"
unfolding status_text push_history
faded = refl

fresh : status_text true 6000 copied ≡ "Key HUD: Ctrl+C"
unfolding status_text push_history
fresh = refl

-- A modifier that is pressed and released alone is recorded, one held with a key is not.
abbrev idle : Tracker
idle = record { active_combo = []; finalized = true; history = history }

alone :
    (track_up "Ctrl" 500 (display_down true 17 false false "Ctrl" 400 idle)).history.last_signature
    ≡ "Ctrl"
unfolding track_up display_down
alone = refl

held :
    (track_up "Ctrl" 900 (
      display_down false 67 false false "C" 500
        (display_down true 17 false false "Ctrl" 400 idle))).history.last_signature
    ≡ "Ctrl+C"
unfolding track_up display_down
held = refl
