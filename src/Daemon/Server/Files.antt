-- ===== src/Daemon/Server/Files.antt =====
-- The helpers of `HttpServer` that look at the tasks directory, and those that keep and remove the
-- files of temporary tasks.
use Prim.Native.String.{◌++◌ as ◌<>◌}
use text.Mathlib.Text.{◌==◌ as str_eq}
use macrohelp.Base.{ℤ, String, Option, none, some, List, [], ◌∷◌, if◌then◌else◌, map}
use macrohelp.Base.Dict.{Dict, int_key, lookup, insert, erase}
use macrohelp.Base.Json.{Json, Fields, object_of, value, contains, to_string, to_int, is_double}
use macrohelp.Daemon.Platform.{Platform, Entry}
use macrohelp.Daemon.Server.State.{Server}
use macrohelp.Daemon.Server.TempName.{safe_temp_task_name}

module _ {F : Type 0} (p : Platform F) where
  unfoldable pub scan_task_names : Server F → List String
  scan_task_names s =
      if p.dir_exists s.files s.tasks_dir
      then map (λ e. e.base_name) (p.schedules s.files s.tasks_dir)
      else []

  first_named : String → List Entry → String
  first_named name [] = ""
  first_named name (e ∷ es) =
      if p.same_ignoring_case e.base_name name then e.path else first_named name es

  clean_name : String → String
  clean_name name = if p.has_extension name then p.chop_extension name else name

  -- The path of a task, the empty text where there is none.
  unfoldable pub resolve_task_path : String → Server F → String
  unfolding first_named clean_name
  resolve_task_path name s =
      let clean = clean_name name in
      let path = p.file_in s.tasks_dir (clean <> p.keywords.extension) in
      if p.exists s.files path then path else first_named clean (p.schedules s.files s.tasks_dir)

  pub data Written : Type 0 where
    not_written : F → String → Written
    written : F → String → Written

  unfoldable pub write_task_file : String → Json → Server F → Written
  unfolding safe_temp_task_name
  write_task_file name task s =
      let clean = safe_temp_task_name p name in
      let path = p.file_in s.tasks_dir (clean <> p.keywords.extension) in
      let made : Option F =
        (if p.dir_exists s.files s.tasks_dir
          then some s.files
          else p.make_dir s.files s.tasks_dir) in
      if str_eq clean "" then not_written s.files "Invalid task name" else elim made [
        | none ↦ not_written s.files ("Cannot create tasks directory: " <> s.tasks_dir)
        | some files ↦
            if str_eq (p.directory_of path) (p.absolute_dir s.tasks_dir)
            then (if p.can_write files path
                then elim (p.write files path (p.print_json task)) [
                  | none ↦ not_written files ("Failed to commit task file: " <> path)
                  | some files' ↦ written files' path
                ]
                else not_written files ("Cannot write task file: " <> path))
            else not_written files "Resolved task path escaped tasks directory"
      ]

  unfoldable pub remember_temp_task_file : ℤ → String → Server F → Server F
  remember_temp_task_file n path s = record s { temp_task_files = insert n path s.temp_task_files }

  -- `QFile::remove`, of a path that is not empty.
  unfoldable pub remove_path : String → F → F
  remove_path path files = if str_eq path "" then files else p.remove files path

  unfoldable pub cleanup_temp_task_file : ℤ → Server F → Server F
  unfolding remove_path
  cleanup_temp_task_file n s = elim (lookup n s.temp_task_files) [
    | none ↦ s
    | some path ↦ record s {
      temp_task_files = erase n s.temp_task_files;
      files = remove_path path s.files;
    }
  ]

  unfoldable pub remove_all : Dict ℤ String → F → F
  unfolding remove_path
  remove_all [] files = files
  remove_all ((n, path) ∷ rest) files = remove_all rest (remove_path path files)

  unfoldable pub cleanup_all_temp_task_files : Server F → Server F
  unfolding remove_all
  cleanup_all_temp_task_files s = record s {
    temp_task_files = [];
    files = remove_all s.temp_task_files s.files;
  }

  -- The document of a task file, if it can be read and is JSON.
  abbrev document : String → F → Option Json
  document path files = elim (p.read files path) [ none ↦ none | some text ↦ p.parse_json text ]

  delay_of : Fields → ℤ → ℤ
  delay_of fs d =
      if contains "http_delay" fs
      then to_int d (value "http_delay" fs)
      else if contains "delay" fs
      then (if is_double (value "delay" fs) then to_int (ℤ.pos 0) (value "delay" fs) else d)
      else d

  unfoldable pub read_task_delay : String → ℤ → F → ℤ
  unfolding delay_of
  read_task_delay path d files = elim (document path files) [
    | none ↦ d
    | some doc ↦ delay_of (object_of doc) d
  ]

  unfoldable pub read_task_description : String → F → String
  read_task_description path files = elim (document path files) [
    | none ↦ ""
    | some doc ↦ to_string (value p.keywords.description (object_of doc))
  ]
