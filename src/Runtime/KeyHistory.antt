-- ===== src/Runtime/KeyHistory.antt =====
-- `PushKeyHistory`, `TrackKeyDown`, `TrackKeyUp` and `FinalizeKeyCombo` of runtime/source/src/main.cpp:
-- the keys that are held, and the ring of the last combinations; and what `RenderKeyDisplay` and
-- `GetKeyHudStatusText` take from the ring. The array of the ring is a function of its index. The time is a `DWORD` of milliseconds; the name of a key, empty for one without, is an
-- argument. A call is one step: where a function leaves one mutex before it takes the other, no other
-- thread comes between.
pub mod Recent
pub mod Ring
use Prim.Native.String.{◌++◌ as ◌<>◌}
use text.Mathlib.Text.{◌==◌ as str_eq}
use macrohelp.Base.{
  ℕ, zero, suc, ◌+◌, ◌-◌, ◌%◌, ◌==◌, ltb, String, Bool, true, false, ◌&&◌, ◌||◌, not, List, [], ◌∷◌,
  ◌++◌, any, select, length, if◌then◌else◌,
}

pub record Entry : Type 0 where
  pub keys : List String
  pub tick : ℕ

pub record History : Type 0 where
  pub slots : ℕ → Entry
  pub head : ℕ
  pub count : ℕ
  pub last_signature : String
  pub last_tick : ℕ

pub record Tracker : Type 0 where
  pub active_combo : List String
  pub finalized : Bool
  pub history : History

abbrev pub max_history : ℕ
max_history = 15

abbrev pub max_visible : ℕ
max_visible = 11

abbrev pub fade_ms : ℕ
fade_ms = 5000

-- The names with a `+` before each but the first; an empty text gets none.
unfoldable pub signature_from : String → List String → String
signature_from out [] = out
signature_from out (k ∷ ks) = signature_from (if str_eq out "" then k else (out <> "+") <> k) ks

abbrev pub update : (ℕ → Entry) → ℕ → Entry → ℕ → Entry
update slots i e j = if j == i then e else slots j

-- The entry goes to the head of the ring.
unfoldable pub store : Entry → History → History
store e h = record h {
  slots = update h.slots h.head e;
  head = (h.head + 1) % max_history;
  count = if ltb h.count max_history then h.count + 1 else h.count;
}

-- The same combination within 80 milliseconds is dropped; the difference of two ticks wraps around.
unfoldable pub push_history : List String → ℕ → History → History
unfolding signature_from store
push_history [] now h = h
push_history (k ∷ ks) now h =
    let signature = signature_from "" (k ∷ ks) in
    if str_eq signature h.last_signature && ltb ((now + 4294967296 - h.last_tick) % 4294967296) 80
    then h
    else store (record { keys = k ∷ ks; tick = now })
        (record h { last_signature = signature; last_tick = now })

-- Shift and Alt with a digit up to 8 is a hotkey of the program.
abbrev is_hotkey : ℕ → Bool → Bool → Bool
is_hotkey vk shift alt = not (ltb vk b'0') && (not (ltb b'8' vk) && (shift && alt))

unfoldable pub track_down : ℕ → Bool → Bool → String → Tracker → Tracker
track_down vk shift alt name t =
    if is_hotkey vk shift alt || (str_eq name "" || any (λ k. str_eq k name) t.active_combo)
    then t
    else record t { active_combo = t.active_combo ++ (name ∷ []); finalized = false }

abbrev is_alone : String → List String → Bool
is_alone name (k ∷ []) = str_eq k name
is_alone name _ = false

unfoldable pub track_up : String → ℕ → Tracker → Tracker
unfolding push_history
track_up name now t =
    if str_eq name ""
    then t
    else (let lone = not t.finalized && is_alone name t.active_combo in
        record {
          active_combo = select (λ k. not (str_eq k name)) t.active_combo;
          finalized = lone || t.finalized;
          history = if lone then push_history t.active_combo now t.history else t.history;
        })

abbrev is_empty : List String → Bool
is_empty [] = true
is_empty (k ∷ ks) = false

unfoldable pub finalize : Bool → ℕ → Tracker → Tracker
unfolding push_history
finalize clear now t = if is_empty t.active_combo then t else record {
  active_combo = if clear then [] else t.active_combo;
  finalized = true;
  history = push_history t.active_combo now t.history;
}

-- `TrackDisplayKeyDown`.
unfoldable pub display_down : Bool → ℕ → Bool → Bool → String → ℕ → Tracker → Tracker
unfolding track_down finalize
display_down modifier vk shift alt name now t =
    let held = track_down vk shift alt name t in if modifier then held else finalize true now held

-- The entries that `RenderKeyDisplay` copies, from the one `i` places before the newest; a difference of
-- the source that could be below 0 has the length of the ring added first.
abbrev pub shown_from : ℕ → ℕ → History → List Entry
shown_from zero i h = []
shown_from (suc n) i h =
    h.slots ((h.head + max_history - 1 - i) % max_history) ∷ shown_from n (i + 1) h

unfoldable pub shown_entries : History → List Entry
shown_entries h = shown_from (if ltb h.count max_visible then h.count else max_visible) 0 h

-- The widening of a name is left out.
unfoldable pub format_from : ℕ → String → List String → String
format_from i out [] = out
format_from i out (k ∷ ks) =
    format_from (i + 1) (if ltb 0 i then (out <> "+") <> k else out <> k) ks

unfoldable pub status_text : Bool → ℕ → History → String
unfolding format_from
status_text visible now h =
    if not visible
    then "Key HUD: off"
    else if h.count == 0
    then "Key HUD: on, waiting"
    else (let e = h.slots ((h.head + max_history - 1) % max_history) in
        if ltb fade_ms ((now + 4294967296 - e.tick) % 4294967296)
        then "Key HUD: on, waiting"
        else "Key HUD: " <> format_from 0 "" e.keys)
