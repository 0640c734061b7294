-- ===== src/Daemon/Loader/Write.antt =====
-- `actionToJson` of http-daemon/src/TaskJsonLoader.cpp.
use macrohelp.Base.{ℤ, String, none, some, List, [], ◌∷◌, map, if◌then◌else◌}
use macrohelp.Base.Dict.{Dict}
use macrohelp.Base.Json.{Json, num, str, arr, obj, Fields, end, set_field, items_of}
use macrohelp.Daemon.Platform.{Platform}
use macrohelp.Daemon.Loader.{
  Kind, paste, wait, keys_sequence, system_command, cursor_movements, running_other_task,
  Parameters, Tasket,
}

-- Insertions in their order.
unfoldable pub insert_fields : List (String × Json) → Fields → Fields
unfolding set_field
insert_fields [] fs = fs
insert_fields ((k, v) ∷ rest) fs = insert_fields rest (set_field k v fs)

unfoldable pub write_strings : List String → Json
unfolding items_of
write_strings ss = arr (items_of (map str ss))

unfoldable pub write_movements : List (List ℤ) → List Json
unfolding items_of
write_movements [] = []
write_movements ((a ∷ b ∷ c ∷ d ∷ rest) ∷ ms) =
    arr (items_of (num a ∷ num b ∷ num c ∷ num d ∷ [])) ∷ write_movements ms
write_movements (_ ∷ ms) = write_movements ms

module _ {F A D : Type 0} (p : Platform F) (t : Tasket A D) where
  unfoldable pub write_keys : Dict ℤ (ℤ × List String) → Fields → Fields
  unfolding set_field items_of write_strings
  write_keys [] fs = fs
  write_keys ((key, (delay, names)) ∷ m) fs =
      write_keys m
        (set_field (p.show_int key) (arr (items_of (num delay ∷ write_strings names ∷ []))) fs)

  abbrev pub type_value : Kind → String
  type_value paste = t.words.paste_value
  type_value wait = t.words.wait_value
  type_value keys_sequence = t.words.keys_value
  type_value system_command = t.words.system_value
  type_value cursor_movements = t.words.cursor_value
  type_value running_other_task = t.words.other_value

  -- What is inserted after the type.
  abbrev pub written_parameters : Kind → Parameters D → List (String × Json)
  written_parameters paste q =
      (t.words.content, str q.paste_content)
      ∷ (t.words.content_id, str q.data_id)
      ∷ (t.words.paste_loop, num q.times_to_run)
      ∷ []
  written_parameters wait q = (t.words.duration, t.double_of q.wait_duration) ∷ []
  written_parameters keys_sequence q =
      (t.words.keys_map, obj (write_keys q.keys_seq_map end))
      ∷ (t.words.keys_id, str q.data_id)
      ∷ (t.words.keys_loop, num q.times_to_run)
      ∷ []
  written_parameters system_command q =
      (t.words.command_type, str q.sys_cmd_type)
      ∷ (t.words.command_param1, str q.sys_cmd_param1)
      ∷ (t.words.command_param2, str q.sys_cmd_param2)
      ∷ []
  written_parameters cursor_movements q =
      (t.words.movs_map, arr (items_of (write_movements q.movements)))
      ∷ (t.words.movs_id, str q.data_id)
      ∷ (t.words.movs_loop, num q.times_to_run)
      ∷ (t.words.movs_keys, write_strings q.optional_keys)
      ∷ []
  written_parameters running_other_task q =
      (t.words.other_filename, str q.task_name)
      ∷ (t.words.other_delay, num q.delay)
      ∷ (t.words.other_loops, num q.times_to_run)
      ∷ []

  unfoldable pub action_to_json : A → Fields
  unfolding insert_fields write_keys write_movements write_strings items_of
  action_to_json a = elim (t.type_of a) [
    | none ↦ end
    | some k ↦
        insert_fields
          ((t.words.action_type, str (type_value k))
            ∷ (if t.is_a k a then written_parameters k (t.generate_parameters a) else []))
          end
  ]
