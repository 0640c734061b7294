-- ===== src/Daemon/Loader/RoundTrip.antt =====
-- An action that http-daemon/src/TaskJsonLoader.cpp writes is read back with its parameters.
use text.Mathlib.Text.{◌==◌ as str_eq}
use text.Mathlib.TextEquality.{eq_iff}
use macrohelp.Base.{
  ℤ, String, some, true, false, List, [], ◌∷◌, map, All, length, ◌≡◌, refl, ap, subst, ◌∙◌, arith,
}
use macrohelp.Base.Dict.{Ascending}
use macrohelp.Base.Json.{
  Json, str, Fields, end, value, items_of, fits_int, to_int, to_string, value-set_field,
}
use macrohelp.Daemon.Platform.{Platform}
use macrohelp.Daemon.Loader.{
  Kind, paste, wait, keys_sequence, system_command, cursor_movements, running_other_task,
  Parameters, Tasket,
}
use macrohelp.Daemon.Loader.Read.{
  read_movements, read_parameters, kind_of_type, build, json_to_action,
}
use macrohelp.Daemon.Loader.Write.{
  insert_fields, write_movements, type_value, written_parameters, action_to_json,
}
use macrohelp.Daemon.Loader.Keys.{
  list_of-items_of, strings_of-write_strings, read_keys-write_keys, StepsFit,
}

self : (s : String) → str_eq s s ≡ true
self s = (eq_iff s s).1 refl

-- No key is an earlier one.
abbrev pub Distinct : List String → Type 0
Distinct [] = Unit
Distinct (k ∷ ks) = All (λ j. str_eq j k ≡ false) ks × Distinct ks

abbrev Holds : List (String × Json) → Fields → Type 0
Holds [] fs = Unit
Holds ((k, v) ∷ rest) fs = (value k fs ≡ some v) × Holds rest fs

abbrev pub keys_of : List (String × Json) → List String
keys_of = map (λ e. e.0)

value-insert_fields :
    (k : String) (es : List (String × Json)) (fs : Fields)
    → All (λ j. str_eq j k ≡ false) (keys_of es)
    → value k (insert_fields es fs) ≡ value k fs
unfolding insert_fields
value-insert_fields k [] fs h = refl
value-insert_fields k ((j, v) ∷ es) fs (e, h) =
    value-insert_fields k es _ h ∙ (value-set_field j k v fs ∙ rw e refl)

insert_fields-Holds :
    (es : List (String × Json)) (fs : Fields)
    → Distinct (keys_of es)
    → Holds es (insert_fields es fs)
unfolding insert_fields
insert_fields-Holds [] fs d = tt
insert_fields-Holds ((k, v) ∷ es) fs (a, d) = (
  value-insert_fields k es _ a ∙ (value-set_field k k v fs ∙ rw (self k) refl),
  insert_fields-Holds es _ d,
)

-- A movement has its four numbers, in the range of `int`.
abbrev pub MovementsFit : List (List ℤ) → Type 0
MovementsFit [] = Unit
MovementsFit (m ∷ ms) = (length m ≡ 4) × All (λ n. fits_int n ≡ true) m × MovementsFit ms

read_movement :
    (m : List ℤ) (ms : List (List ℤ))
    → length m ≡ 4
    → All (λ n. fits_int n ≡ true) m
    → read_movements (write_movements (m ∷ ms)) ≡ m ∷ read_movements (write_movements ms)
unfolding read_movements write_movements items_of
read_movement (a ∷ b ∷ c ∷ d ∷ []) ms h (fa, (fb, (fc, (fd, _)))) = rw (fa, fb, fc, fd) refl
read_movement (a ∷ b ∷ c ∷ d ∷ e ∷ m) ms h f = absurd (omega arith)
read_movement (a ∷ b ∷ c ∷ []) ms h f = absurd (omega arith)
read_movement (a ∷ b ∷ []) ms h f = absurd (omega arith)
read_movement (a ∷ []) ms h f = absurd (omega arith)
read_movement [] ms h f = absurd (omega arith)

read_movements-write_movements :
    (ms : List (List ℤ)) → MovementsFit ms → read_movements (write_movements ms) ≡ ms
unfolding read_movements write_movements
read_movements-write_movements [] h = refl
read_movements-write_movements (m ∷ ms) (l, f, h) =
    read_movement m ms l f ∙ ap (λ r. m ∷ r) (read_movements-write_movements ms h)

module _ {F A D : Type 0} (p : Platform F) (t : Tasket A D) where
  abbrev every_kind : List Kind
  every_kind =
      paste ∷ wait ∷ keys_sequence ∷ system_command ∷ cursor_movements ∷ running_other_task ∷ []

  -- The words for the types differ, and so do the keys of each kind of action.
  abbrev pub AreDistinct : Type 0
  AreDistinct =
      Distinct (map (type_value p t) every_kind)
      × ((k : Kind)
          → Distinct (t.words.action_type ∷ keys_of (written_parameters p t k t.new_parameters)))

  -- The parameters of a kind, and new ones for the others.
  abbrev pub kept : Kind → Parameters D → Parameters D
  kept paste q = record t.new_parameters {
    paste_content = q.paste_content;
    data_id = q.data_id;
    times_to_run = q.times_to_run;
  }
  kept wait q = record t.new_parameters { wait_duration = q.wait_duration }
  kept keys_sequence q = record t.new_parameters {
    keys_seq_map = q.keys_seq_map;
    data_id = q.data_id;
    times_to_run = q.times_to_run;
  }
  kept system_command q = record t.new_parameters {
    sys_cmd_type = q.sys_cmd_type;
    sys_cmd_param1 = q.sys_cmd_param1;
    sys_cmd_param2 = q.sys_cmd_param2;
  }
  kept cursor_movements q = record t.new_parameters {
    movements = q.movements;
    data_id = q.data_id;
    times_to_run = q.times_to_run;
    optional_keys = q.optional_keys;
  }
  kept running_other_task q = record t.new_parameters {
    task_name = q.task_name;
    delay = q.delay;
    times_to_run = q.times_to_run;
  }

  -- What a kind's parameters need: numbers in the range of `int`, a duration that a double holds, steps
  -- in ascending order of their keys, as a QMap has them.
  abbrev pub Fits : Kind → Parameters D → Type 0
  Fits paste q = fits_int q.times_to_run ≡ true
  Fits wait q = t.duration_of (some (t.double_of q.wait_duration)) ≡ q.wait_duration
  Fits keys_sequence q =
      (fits_int q.times_to_run ≡ true) × Ascending q.keys_seq_map × StepsFit q.keys_seq_map
  Fits system_command q = Unit
  Fits cursor_movements q = (fits_int q.times_to_run ≡ true) × MovementsFit q.movements
  Fits running_other_task q = (fits_int q.times_to_run ≡ true) × (fits_int q.delay ≡ true)

  module _ (read_back : (n : ℤ) → fits_int n ≡ true → p.to_int (p.show_int n) ≡ n) where
    read-written :
        (k : Kind) (q : Parameters D) (fs : Fields)
        → Fits k q
        → Holds (written_parameters p t k q) fs
        → read_parameters p t k fs ≡ kept k q
    unfolding read_parameters to_int to_string
    read-written paste q fs f (a, (b, (c, _))) = rw (a, b, c, f) refl
    read-written wait q fs f (a, _) = rw (a, f) refl
    read-written keys_sequence q fs (f, asc, fit) (a, (b, (c, _))) =
        rw (a, b, c, f, read_keys-write_keys p t read_back q.keys_seq_map asc fit) refl
    read-written system_command q fs f (a, (b, (c, _))) = rw (a, b, c) refl
    read-written cursor_movements q fs (f, fit) (a, (b, (c, (d, _)))) =
        rw
          (
            a,
            b,
            c,
            d,
            f,
            list_of-items_of,
            read_movements-write_movements q.movements fit,
            strings_of-write_strings p t,
          )
          refl
    read-written running_other_task q fs (f, g) (a, (b, (c, _))) = rw (a, b, c, f, g) refl

  kind_of_type-type_value : (k : Kind) → AreDistinct → kind_of_type p t (type_value p t k) ≡ some k
  unfolding kind_of_type
  kind_of_type-type_value paste (d, _) = ground (arith, d, self t.words.paste_value)
  kind_of_type-type_value wait (d, _) = ground (arith, d, self t.words.wait_value)
  kind_of_type-type_value keys_sequence (d, _) = ground (arith, d, self t.words.keys_value)
  kind_of_type-type_value system_command (d, _) = ground (arith, d, self t.words.system_value)
  kind_of_type-type_value cursor_movements (d, _) = ground (arith, d, self t.words.cursor_value)
  kind_of_type-type_value running_other_task (d, _) = ground (arith, d, self t.words.other_value)

  keys-written :
      (k : Kind) (q r : Parameters D)
      → keys_of (written_parameters p t k q) ≡ keys_of (written_parameters p t k r)
  keys-written paste q r = refl
  keys-written wait q r = refl
  keys-written keys_sequence q r = refl
  keys-written system_command q r = refl
  keys-written cursor_movements q r = refl
  keys-written running_other_task q r = refl

  abbrev written : Kind → Parameters D → Fields
  written k q =
      insert_fields ((t.words.action_type, str (type_value p t k)) ∷ written_parameters p t k q) end

  action_to_json-written :
      (k : Kind) (a : A)
      → t.type_of a ≡ some k
      → t.is_a k a ≡ true
      → action_to_json p t a ≡ written k (t.generate_parameters a)
  unfolding action_to_json
  action_to_json-written k a e c = rw (e, action_to_json) (rw c refl)

  json_to_action-typed :
      (k : Kind) (fs : Fields)
      → value t.words.action_type fs ≡ some (str (type_value p t k))
      → kind_of_type p t (type_value p t k) ≡ some k
      → json_to_action p t fs ≡ some (build p t k (read_parameters p t k fs))
  unfolding json_to_action to_string
  json_to_action-typed k fs e f = rw (e, json_to_action) (rw (f, json_to_action) refl)

  -- For an action of a class that the loader knows, under words that differ and decimal texts that are
  -- read back: reading what was written builds an action of that class with the same parameters, if
  -- they fit.
  pub json_to_action-action_to_json :
      ((n : ℤ) → fits_int n ≡ true → p.to_int (p.show_int n) ≡ n)
      → AreDistinct
      → (k : Kind) (a : A) → t.type_of a ≡ some k
      → t.is_a k a ≡ true
      → Fits k (t.generate_parameters a)
      → json_to_action p t (action_to_json p t a)
        ≡ some (build p t k (kept k (t.generate_parameters a)))
  json_to_action-action_to_json back d k a e c f =
      let q = t.generate_parameters a in
      let keys : Distinct (t.words.action_type ∷ keys_of (written_parameters p t k q)) =
        subst (λ ks. Distinct (t.words.action_type ∷ ks)) (keys-written k t.new_parameters q)
          (d.1 k) in
      let (typed, held) =
        insert_fields-Holds
          ((t.words.action_type, str (type_value p t k)) ∷ written_parameters p t k q) end keys in
      ap (json_to_action p t) (action_to_json-written k a e c)
      ∙ json_to_action-typed k (written k q) typed (kind_of_type-type_value k d)
      ∙ ap (λ r. some (build p t k r)) (read-written back k q (written k q) f held)
