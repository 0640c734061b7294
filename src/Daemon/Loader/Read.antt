-- ===== src/Daemon/Loader/Read.antt =====
-- `jsonToAction` of http-daemon/src/TaskJsonLoader.cpp. A value that goes through a QVariant keeps its
-- content, so that `toMap` and `toJsonArray` see the fields and the entries of the JSON value.
use text.Mathlib.Text.{◌==◌ as str_eq}
use macrohelp.Base.{ℤ, pos, String, Option, none, some, List, [], ◌∷◌, map, if◌then◌else◌}
use macrohelp.Base.Dict.{Dict, int_key, insert}
use macrohelp.Base.Json.{
  Json, arr, obj, str, Items, nil, cons, Fields, end, field, value, to_string, to_int,
}
use macrohelp.Daemon.Platform.{Platform}
use macrohelp.Daemon.Loader.{
  Kind, paste, wait, keys_sequence, system_command, cursor_movements, running_other_task,
  Parameters, Tasket,
}

unfoldable pub list_of : Items → List Json
list_of nil = []
list_of (cons v vs) = v ∷ list_of vs

-- `toArray()`, and `toJsonArray()` of a variant: no entries for any other value.
abbrev pub entries_of : Option Json → List Json
entries_of (some (arr vs)) = list_of vs
entries_of (some _) = []
entries_of none = []

-- `toVariant().toMap()`.
abbrev pub map_of : Option Json → Fields
map_of (some (obj fs)) = fs
map_of (some _) = end
map_of none = end

-- The four numbers of a movement; an entry with fewer is left out.
abbrev pub add_movement : List Json → List (List ℤ) → List (List ℤ)
add_movement (a ∷ b ∷ c ∷ d ∷ rest) ms =
    (to_int (pos 0) (some a)
      ∷ to_int (pos 0) (some b)
      ∷ to_int (pos 0) (some c)
      ∷ to_int (pos 0) (some d)
      ∷ [])
    ∷ ms
add_movement _ ms = ms

unfoldable pub read_movements : List Json → List (List ℤ)
unfolding list_of to_int
read_movements [] = []
read_movements (v ∷ vs) = add_movement (entries_of (some v)) (read_movements vs)

module _ {F A D : Type 0} (p : Platform F) (t : Tasket A D) where
  abbrev pub text_of : Json → String
  text_of (str s) = s
  text_of v = t.text_of v

  -- `toVariant().toStringList()`: a text alone is a list of one.
  unfoldable pub strings_of : Option Json → List String
  unfolding list_of
  strings_of (some (arr vs)) = map text_of (list_of vs)
  strings_of (some (str s)) = s ∷ []
  strings_of (some _) = []
  strings_of none = []

  -- A step has its release delay and its keys; an entry with fewer values is left out.
  abbrev pub add_step : String → List Json → Dict ℤ (ℤ × List String) → Dict ℤ (ℤ × List String)
  add_step key (a ∷ b ∷ rest) m =
      insert (p.to_int key) (to_int (pos 0) (some a), strings_of (some b)) m
  add_step key _ m = m

  unfoldable pub read_keys : Fields → Dict ℤ (ℤ × List String) → Dict ℤ (ℤ × List String)
  unfolding list_of to_int strings_of insert
  read_keys end m = m
  read_keys (field key v rest) m = read_keys rest (add_step key (entries_of (some v)) m)

  unfoldable pub kind_of_type : String → Option Kind
  kind_of_type s =
      if str_eq s t.words.paste_value
      then some paste
      else if str_eq s t.words.wait_value
      then some wait
      else if str_eq s t.words.keys_value
      then some keys_sequence
      else if str_eq s t.words.system_value
      then some system_command
      else if str_eq s t.words.cursor_value
      then some cursor_movements
      else if str_eq s t.words.other_value
      then some running_other_task
      else none

  -- What is not set keeps the value of new parameters.
  unfoldable pub read_parameters : Kind → Fields → Parameters D
  unfolding value to_string to_int read_keys strings_of read_movements
  read_parameters paste fs = record t.new_parameters {
    paste_content = to_string (value t.words.content fs);
    data_id = to_string (value t.words.content_id fs);
    times_to_run = to_int (pos 1) (value t.words.paste_loop fs);
  }
  read_parameters wait fs = record t.new_parameters {
    wait_duration = t.duration_of (value t.words.duration fs);
  }
  read_parameters keys_sequence fs = record t.new_parameters {
    keys_seq_map = read_keys (map_of (value t.words.keys_map fs)) [];
    data_id = to_string (value t.words.keys_id fs);
    times_to_run = to_int (pos 0) (value t.words.keys_loop fs);
  }
  read_parameters system_command fs = record t.new_parameters {
    sys_cmd_type = to_string (value t.words.command_type fs);
    sys_cmd_param1 = to_string (value t.words.command_param1 fs);
    sys_cmd_param2 = to_string (value t.words.command_param2 fs);
  }
  read_parameters cursor_movements fs = record t.new_parameters {
    movements = read_movements (entries_of (value t.words.movs_map fs));
    data_id = to_string (value t.words.movs_id fs);
    times_to_run = to_int (pos 0) (value t.words.movs_loop fs);
    optional_keys = strings_of (value t.words.movs_keys fs);
  }
  read_parameters running_other_task fs = record t.new_parameters {
    task_name = to_string (value t.words.other_filename fs);
    delay = to_int (pos 0) (value t.words.other_delay fs);
    times_to_run = to_int (pos 0) (value t.words.other_loops fs);
  }

  abbrev pub build : Kind → Parameters D → A
  build k q = t.optional_processes (t.set_parameters q (t.make k))

  -- `none` is the null pointer.
  unfoldable pub json_to_action : Fields → Option A
  unfolding kind_of_type read_parameters
  json_to_action fs = elim (kind_of_type (to_string (value t.words.action_type fs))) [
    | none ↦ none
    | some k ↦ some (build k (read_parameters k fs))
  ]
