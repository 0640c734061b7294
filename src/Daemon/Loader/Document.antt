-- ===== src/Daemon/Loader/Document.antt =====
-- `loadTaskFromFile` and `loadTaskFromJson` of http-daemon/src/TaskJsonLoader.cpp, and what
-- http-daemon/src/TaskRunner.cpp takes from them. A load gives `lastError` and the actions of the task;
-- no actions stand for the null pointer.
use Prim.Native.String.{count, ◌++◌ as ◌<>◌}
use text.Mathlib.Text.{◌==◌ as str_eq}
use text.Mathlib.TextLemmas.{length-append}
use text.Mathlib.TextEquality.{eq_iff}
use mathlib.Core.Option.{some-ne-none}
use macrohelp.Base.{
  ℤ, String, Option, none, some, true, List, [], ◌∷◌, ◌++◌, map, if◌then◌else◌, All, ◌≡◌, ◌≢◌, refl,
  ap, sym, ◌∙◌, arith, Option-cases, Bool-cases, inl, inr,
}
use macrohelp.Base.Json.{Json, obj, arr, Fields, value, to_string, object_of, items_of, fits_int}
use macrohelp.Daemon.Platform.{Platform}
use macrohelp.Daemon.Types.{TaskInstance, failed}
use macrohelp.Daemon.Registry.{get_task, with_state, task_failed, state_signals, mark_failed}
use macrohelp.Daemon.Registry.Lifecycle.{update_state_signals}
use macrohelp.Daemon.Runner.{Loaded, refused, loaded, Disk, Engine, execute_task, of_registry}
use macrohelp.Daemon.Loader.{Kind, Tasket}
use macrohelp.Daemon.Loader.Read.{list_of, entries_of, build, json_to_action}
use macrohelp.Daemon.Loader.Write.{action_to_json}
use macrohelp.Daemon.Loader.Keys.{list_of-items_of}
use macrohelp.Daemon.Loader.RoundTrip.{AreDistinct, Fits, kept, json_to_action-action_to_json}

append-ne-empty : (path : String) → "Cannot open file: " <> path ≢ ""
append-ne-empty path h = absurd (omega (arith, length-append "Cannot open file: " path, ap count h))

module _ {F A D : Type 0} (p : Platform F) (t : Tasket A D) where
  -- Actions of an unknown type are left out.
  unfoldable pub read_actions : List Json → List A
  unfolding json_to_action
  read_actions [] = []
  read_actions (v ∷ vs) = elim (json_to_action p t (object_of v)) [
    | none ↦ read_actions vs
    | some a ↦ a ∷ read_actions vs
  ]

  unfoldable pub load_task_from_json : String → String × Option (List A)
  unfolding read_actions list_of object_of value to_string
  load_task_from_json content = elim (p.parse_json content) [
    | none ↦ ("JSON parse error: document is null", none)
    | some j ↦
        if str_eq (to_string (value p.keywords.identification (object_of j)))
          p.keywords.identification_value
        then ("", some (read_actions (entries_of (value p.keywords.actions_array (object_of j)))))
        else ("File format error: not a valid Tasket++ task file", none)
  ]

  unfoldable pub load_task_from_file : F → String → String × Option (List A)
  unfolding load_task_from_json
  load_task_from_file files path = elim (p.read files path) [
    | none ↦ ("Cannot open file: " <> path, none)
    | some content ↦ load_task_from_json content
  ]

  -- What `executeTask` does with it: the error, or the actions, none of them null.
  unfoldable pub load : F → String → Loaded
  unfolding load_task_from_file
  load files path =
      let (error, task) = load_task_from_file files path in
      elim task [
        | none ↦ refused error
        | some actions ↦ loaded (map (λ a. some (t.reference a)) actions)
      ]

  abbrev pub disk : F → Disk
  disk files = record { exists = p.exists files; load = load files }

  -- An action whose class the loader knows and whose parameters fit.
  abbrev pub IsKnown : A → Type 0
  IsKnown a =
      (k : Kind) × (t.type_of a ≡ some k)
      × (t.is_a k a ≡ true)
      × Fits p t k (t.generate_parameters a)

  abbrev pub rebuilt : A → A
  rebuilt a = elim (t.type_of a) [
    | none ↦ a
    | some k ↦ build p t k (kept p t k (t.generate_parameters a))
  ]

  module _ (back : (n : ℤ) → fits_int n ≡ true → p.to_int (p.show_int n) ≡ n)
      (d : AreDistinct p t) where
    read_actions-written :
        (as' : List A)
        → All IsKnown as'
        → read_actions (map (λ a. obj (action_to_json p t a)) as') ≡ map rebuilt as'
    unfolding read_actions object_of
    read_actions-written [] h = refl
    read_actions-written (a ∷ as') ((k, e, c, f), h) =
        rw (json_to_action-action_to_json p t back d k a e c f, read_actions)
          (rw (e, rebuilt)
            (ap (λ r. build p t k (kept p t k (t.generate_parameters a)) ∷ r)
              (read_actions-written as' h)))

    -- Under words that differ and decimal texts that are read back, a task file whose actions were
    -- written by `actionToJson`, and are all of known classes with parameters that fit, loads without an
    -- error, with every action built again in its place with the parameters of its class.
    pub load_task_from_file-written :
        (files : F) (path content : String) (fs : Fields) (as' : List A)
        → p.read files path ≡ some content
        → p.parse_json content ≡ some (obj fs)
        → to_string (value p.keywords.identification fs) ≡ p.keywords.identification_value
        → value p.keywords.actions_array fs
          ≡ some (arr (items_of (map (λ a. obj (action_to_json p t a)) as')))
        → All IsKnown as'
        → load_task_from_file files path ≡ ("", some (map rebuilt as'))
    unfolding load_task_from_file object_of
    load_task_from_file-written files path content fs as' r e i v h =
        let same =
          (eq_iff p.keywords.identification_value p.keywords.identification_value).1 refl in
        rw (r, load_task_from_file)
          (rw (e, load_task_from_json, i, same, v, list_of-items_of)
            (ap (λ l. ("", some l)) (read_actions-written as' h)))

  json_error :
      (content : String)
      → (load_task_from_json content).1 ≡ none
      → (load_task_from_json content).0 ≢ ""
  unfolding load_task_from_json
  json_error content r = elim (Option-cases (p.parse_json content)) [
    | inl e ↦ rw (e, load_task_from_json) (λ h. cc)
    | inr (j, e) ↦
        elim (Bool-cases (
          str_eq (to_string (value p.keywords.identification (object_of j)))
            p.keywords.identification_value)) [
              | inl i ↦
                  let l : (load_task_from_json content).1
                      ≡ some (
                          read_actions
                            (entries_of (value p.keywords.actions_array (object_of j)))) =
                    rw (e, load_task_from_json) (rw i refl) in
                  absurd (some-ne-none _ (sym l ∙ r))
              | inr i ↦ rw (e, load_task_from_json) (rw i (λ h. cc))
            ]
  ]

  error-ne-empty :
      (files : F) (path : String)
      → (load_task_from_file files path).1 ≡ none
      → (load_task_from_file files path).0 ≢ ""
  unfolding load_task_from_file
  error-ne-empty files path r = elim (Option-cases (p.read files path)) [
    | inl e ↦ rw (e, load_task_from_file) (append-ne-empty path)
    | inr (content, e) ↦
        rw (e, load_task_from_file) (json_error content (rw (e, load_task_from_file) at r))
  ]

  load-refused :
      (files : F) (path : String)
      → (load_task_from_file files path).1 ≡ none
      → load files path ≡ refused (load_task_from_file files path).0
  unfolding load
  load-refused files path r = rw (r, load) refl

  -- For a task with a record, a file that is there but does not load fails the task, with the loader's
  -- error, which is no empty text, and one signal; no executor is made.
  pub execute_task_refused :
      (files : F) (n : ℤ) (path : String) (loops now : ℤ) (ti : TaskInstance) (s : Engine)
      → p.exists files path ≡ true
      → (load_task_from_file files path).1 ≡ none
      → get_task n s.registry ≡ some ti
      → let q = execute_task (disk files) n path loops now s in
        let error = (load_task_from_file files path).0 in
        (error ≢ "")
        × (get_task n q.registry ≡ some (with_state failed error now ti))
        × (q.emitted
            ≡ s.emitted
              ++ (of_registry
                    (task_failed n ti.task_name (with_state failed error now ti).error_message)
                  ∷ []))
        × (q.executors ≡ s.executors)
  unfolding execute_task mark_failed state_signals with_state
  execute_task_refused files n path loops now ti s e r f =
      let error = (load_task_from_file files path).0 in
      let (got, sent, _) = update_state_signals s.registry n now failed error ti f in
      (
        error-ne-empty files path r,
        rw (e, load-refused files path r) got,
        rw (e, load-refused files path r) (ap (λ l. s.emitted ++ map of_registry l) sent),
        rw (e, load-refused files path r) refl,
      )
