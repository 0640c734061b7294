-- ===== src/Control/Normalize.antt =====
-- `normalize` of control_protocol.hpp. The bytes of a text, a text of bytes and the size of a
-- serialized document are nlohmann's and the encoding's: parameters.
pub mod Accepted
use mathlib.Core.Option
use text.Mathlib.Text.{◌==◌ as str_eq}
use macrohelp.Base.{
  ℤ, pos, ℕ, suc, ltb, leb, ◌==◌, String, Option, none, some, Bool, true, false, ◌&&◌, ◌||◌, not,
  List, [], ◌∷◌, any, map, length, if◌then◌else◌,
}
use macrohelp.Base.Json.{
  Json, Items, Fields, null, bool, num, real, str, arr, obj, nil, cons, end, field, value,
  set_field, fields_of, items_of, contains,
}
use macrohelp.Control.Checked.{Checked, done, thrown, then_with, refuse}
use macrohelp.Control.Csv.{Command, csv}
use macrohelp.Control.Checks.{
  Verdict, before, require, integer, size, is_string, is_boolean, fields, coordinates, text_safety,
  patch, values_of,
}

-- What the protocol takes from std::string and nlohmann: bytes, texts and `dump().size()`.
pub record Encoding : Type 0 where
  pub bytes : String → List ℕ
  pub text : List ℕ → String
  pub dump_size : Json → ℕ

abbrev menus : List String
menus =
    "save_cursor" ∷ "paste_buffers" ∷ "registry_hub" ∷ "circle_placer" ∷ "click_left"
    ∷ "click_right" ∷ "click_middle" ∷ "stop_all" ∷ "view_toggles" ∷ "record_keys" ∷ []

abbrev actions : List String
actions =
    "submit" ∷ "accept" ∷ "cancel" ∷ "play" ∷ "clear" ∷ "export" ∷ "import" ∷ "save_schedule"
    ∷ "paste" ∷ "paste_enter" ∷ "add_point" ∷ "save_click" ∷ "add_step" ∷ "capture" ∷ "manual"
    ∷ "add_paste" ∷ "replay" ∷ []

abbrev digits : List String
digits = "0" ∷ "1" ∷ "2" ∷ "3" ∷ "4" ∷ "5" ∷ "6" ∷ "7" ∷ "8" ∷ "9" ∷ []

-- The last index at which a name stands: the loop goes on after a match.
unfoldable pub index_of : String → ℕ → List String → Option ℕ
index_of name i [] = none
index_of name i (m ∷ ms) = elim (index_of name (suc i) ms) [
  | some j ↦ some j
  | none ↦ if str_eq name m then some i else none
]

unfoldable pub menu_index : String → Option ℕ
unfolding index_of
menu_index name = elim (index_of name 0 menus) [ some i ↦ some i | none ↦ index_of name 0 digits ]

-- A check of a field that may be missing.
abbrev pub if_given : String → Fields → (Json → Verdict) → Verdict
if_given k fs check = elim (value k fs) [ none ↦ done tt | some v ↦ check v ]

abbrev text_of : Json → String
text_of (str t) = t
text_of _ = ""

abbrev is_array : Json → Bool
is_array (arr vs) = true
is_array _ = false

abbrev items : Json → Items
items (arr vs) = vs
items _ = nil

-- A field that gets a default where it is missing.
abbrev with_default : String → Json → Fields → Fields
with_default k v fs = if contains k fs then fs else set_field k v fs

-- A field, or a default.
abbrev value_or : String → Json → Fields → Json
value_or k d fs = elim (value k fs) [ none ↦ d | some v ↦ v ]

abbrev check_no_replace : Json → Verdict
check_no_replace v = require (is_boolean v) "no_replace must be boolean"

abbrev check_origin : Json → Verdict
check_origin v = coordinates v 2

-- The flag is set, to false where it is missing, unless only a run is asked for.
abbrev with_flag : Fields → Fields
with_flag fs =
    if not (contains "run" fs) || contains "no_replace" fs
    then set_field "no_replace" (value_or "no_replace" (bool false) fs) fs
    else fs

-- The menu by its number.
unfoldable pub with_menu : Fields → Checked Fields
unfolding menu_index
with_menu fs = elim (value "menu" fs) [
  | none ↦ done fs
  | some v ↦
      let by_number : Checked Json =
        (if is_string v
          then elim (menu_index (text_of v)) [
            | none ↦ refuse "Menu must be 0–9 or a canonical menu name"
            | some i ↦ done (num (pos i))
          ]
          else done v) in
      then_with by_number (λ w.
        before (require (integer w (pos 0) (pos 9)) "Menu must be 0–9 or a canonical menu name")
          (done (set_field "menu" w fs)))
]

module _ (e : Encoding) where
  abbrev long_text : ℕ → Json → Bool
  long_text limit v =
      is_string v && (not (str_eq (text_of v) "") && leb (length (e.bytes (text_of v))) limit)

  unfoldable pub all_keys : Items → Verdict
  all_keys nil = done tt
  all_keys (cons v vs) = before (require (long_text 128 v) "Choose 1–16 key names") (all_keys vs)

  unfoldable pub check_keys : Json → Verdict
  unfolding all_keys
  check_keys v =
      before
        (require (is_array v && (ltb 0 (size (items v)) && leb (size (items v)) 16))
          "Choose 1–16 key names")
        (all_keys (items v))

  abbrev action_of : Fields → Verdict
  action_of fs = elim (value "action" fs) [
    | none ↦ refuse "Missing input action"
    | some v ↦
        before (require (is_string v) "Missing input action")
          (require (any (str_eq (text_of v)) actions) "Unknown input action")
  ]

  unfoldable pub check_input : Json → Verdict
  unfolding check_keys
  check_input v =
      let fs = values_of v in
      if is_string v
      then done tt
      else before (fields v ("action" ∷ "value" ∷ "keys" ∷ "delay" ∷ [])) (
          before (action_of fs) (
            before (if_given "value" fs (λ w. require (is_string w) "Action value must be text")) (
              before (if_given "keys" fs check_keys) (
                if_given "delay" fs (λ w.
                  require (integer w (pos 10) (pos 600000)) "Step delay must be 10–600000 ms")))))

  unfoldable pub all_inputs : Items → Verdict
  unfolding check_input
  all_inputs nil = done tt
  all_inputs (cons v vs) = before (check_input v) (all_inputs vs)

  abbrev check_run : Json → Verdict
  check_run v = require (long_text 80 v) "Invalid control run ID"

  -- What is left once the menu has its number.
  unfoldable pub finish : Fields → Checked Json
  unfolding all_inputs coordinates
  finish given =
      let fs = with_default "inputs" (arr nil) given in
      let inputs = value_or "inputs" null fs in
      let gs = with_default "config" (obj end) fs in
      before
        (require (is_array inputs && leb (size (items inputs)) 256)
          "inputs must be an array of at most 256 entries")
        (before
          (require (contains "menu" fs || (contains "run" fs || size (items inputs) == 0))
            "Choose a menu when supplying inputs")
          (before (all_inputs (items inputs)) (
            before (if_given "no_replace" fs check_no_replace) (
              before (patch (value_or "config" null gs)) (
                before (if_given "origin" gs check_origin) (
                  if leb (e.dump_size (obj gs)) 1048576
                  then done (obj (with_flag gs))
                  else thrown (pos 413) "Control request exceeds 1 MiB"))))))

  -- The request that a line stands for.
  abbrev request_of : Command → Json
  request_of c = obj (
      fields_of (
        ("menu", str (e.text c.menu))
        ∷ ("inputs", arr (items_of (map (λ v. str (e.text v)) c.inputs)))
        ∷ ("no_replace", bool c.no_replace)
        ∷ []))

  unfoldable pub normalize_object : Json → Checked Json
  unfolding finish with_menu
  normalize_object request =
      before (fields request ("menu" ∷ "inputs" ∷ "config" ∷ "no_replace" ∷ "origin" ∷ "run" ∷ []))
        (before (if_given "run" (values_of request) check_run)
          (then_with (with_menu (values_of request)) finish))

  -- `none` would be a loop of `csv` without end, which there is not.
  unfoldable pub normalize : Json → Option (Checked Json)
  unfolding normalize_object csv
  normalize (str t) = elim (text_safety (str t) 0) [
    | thrown status message ↦ some (thrown status message)
    | done tt ↦
        Option.map (λ c. then_with c (λ d. normalize_object (request_of d))) (csv (e.bytes t))
  ]
  normalize request = some (before (text_safety request 0) (normalize_object request))
