-- ===== src/Runtime/Environment/Write.antt =====
-- `RegistryHubEnvironmentToText`, `WriteRegistryHubExportLine` and `RegistryHubStageName` of
-- runtime/source/src/main.cpp.
use macrohelp.Base.{ℕ, zero, suc, ℤ, pos, Bool, List, [], ◌∷◌, ◌++◌, if◌then◌else◌}
use macrohelp.Runtime.Text.{Text, bytes}
use macrohelp.Runtime.Escapes.{escape_value}
use macrohelp.Runtime.Decimal.{print_int}
use macrohelp.Runtime.Coordinates.{print_point, print_zone}
use macrohelp.Runtime.Environment.{System, Environment, Zone, Spot}

pub data Stage : Type 0 where
  command : Stage
  script : Stage
  help : Stage
  registry_path : Stage
  export_path : Stage
  import_path : Stage
  power_shell_path : Stage
  cmd_path : Stage
  regedited_path : Stage
  var_edit : Stage
  paste_buffer_select : Stage
  paste_buffer_edit : Stage
  zone_select : Stage
  zone_edit : Stage
  point_edit : Stage

unfoldable pub stage_name : Stage → Text
stage_name command = bytes "Command"
stage_name script = bytes "Script"
stage_name help = bytes "Help"
stage_name registry_path = bytes "RegistryPath"
stage_name export_path = bytes "ExportPath"
stage_name import_path = bytes "ImportPath"
stage_name power_shell_path = bytes "ShellAliasX"
stage_name cmd_path = bytes "ShellAliasC"
stage_name regedited_path = bytes "ShellAliasG"
stage_name var_edit = bytes "VarEdit"
stage_name paste_buffer_select = bytes "PasteBufferSelect"
stage_name paste_buffer_edit = bytes "PasteBufferEdit"
stage_name zone_select = bytes "ZoneSelect"
stage_name zone_edit = bytes "ZoneEdit"
stage_name point_edit = bytes "PointEdit"

-- What is written and not read: the time's text, the paths, and the dialog's state.
pub record Shown : Type 0 where
  pub stamp : Text
  pub resolved_export : Text
  pub resolved_import : Text
  pub state_path : Text
  pub stage : Stage
  pub active_var : ℤ
  pub active_paste : ℤ
  pub active_zone : ℤ
  pub active_point : ℤ
  pub visible_lines : ℤ

abbrev pub flag : Bool → Text
flag b = if b then bytes "1" else bytes "0"

abbrev pub key_at : Text → ℕ → Text
key_at [] i = bytes "?"
key_at (c ∷ cs) zero = c ∷ []
key_at (c ∷ cs) (suc i) = key_at cs i

abbrev pub var_key : ℕ → Text
var_key = key_at (bytes "ASDF")

abbrev pub paste_key : ℕ → Text
paste_key = key_at (bytes "ZXCV")

abbrev pub zone_value : Zone → Text
zone_value z = if z.set then print_zone z.corners else []

abbrev pub spot_value : Spot → Text
spot_value p = if p.set then print_point p.point else []

module _ (sys : System) where
  unfoldable pub var_lines : ℕ → List Text → List (Text × Text)
  var_lines i [] = []
  var_lines i (v ∷ vs) = (bytes "Var" ++ var_key i, sys.utf8 v) ∷ var_lines (suc i) vs

  unfoldable pub paste_lines : ℕ → List Text → List (Text × Text)
  paste_lines i [] = []
  paste_lines i (v ∷ vs) = (bytes "Paste" ++ paste_key i, sys.utf8 v) ∷ paste_lines (suc i) vs

unfoldable pub zone_lines : ℕ → List Zone → List (Text × Text)
unfolding print_zone
zone_lines i [] = []
zone_lines i (z ∷ zs) =
    (bytes "Zone" ++ (paste_key i ++ bytes "Set"), flag z.set)
    ∷ (bytes "Zone" ++ paste_key i, zone_value z)
    ∷ zone_lines (suc i) zs

abbrev pub spot_name : ℕ → Text
spot_name i = bytes "Point" ++ print_int (pos (suc i))

unfoldable pub spot_lines : ℕ → List Spot → List (Text × Text)
unfolding print_int print_point
spot_lines i [] = []
spot_lines i (p ∷ ps) =
    (spot_name i ++ bytes "Set", flag p.set) ∷ (spot_name i, spot_value p) ∷ spot_lines (suc i) ps

abbrev pub scalar_lines : System → Shown → Environment → List (Text × Text)
scalar_lines sys w e =
    (bytes "MacrohelpRegistryHubExportVersion", bytes "1")
    ∷ (bytes "GeneratedLocal", w.stamp)
    ∷ (bytes "ExportPath", sys.utf8 e.export_path)
    ∷ (bytes "ImportPath", sys.utf8 e.import_path)
    ∷ (bytes "ResolvedExportPath", sys.utf8 w.resolved_export)
    ∷ (bytes "ResolvedImportPath", sys.utf8 w.resolved_import)
    ∷ (bytes "StatePath", sys.utf8 w.state_path)
    ∷ (bytes "RegistryFilePath", sys.utf8 e.registry_path)
    ∷ (bytes "ShellAliasX", sys.utf8 e.shell_x)
    ∷ (bytes "ShellAliasC", sys.utf8 e.shell_c)
    ∷ (bytes "ShellAliasG", sys.utf8 e.shell_g)
    ∷ (bytes "Script", sys.utf8 e.script)
    ∷ (bytes "Status", sys.utf8 e.status)
    ∷ (bytes "LastTasketTaskNumber", print_int e.task_number)
    ∷ (bytes "LastTasketTaskState", sys.utf8 e.task_state)
    ∷ (bytes "LastTasketTaskMessage", sys.utf8 e.task_message)
    ∷ (bytes "RegistryHubStage", stage_name w.stage)
    ∷ (bytes "ActiveVar", print_int w.active_var)
    ∷ (bytes "ActivePasteSlot", print_int w.active_paste)
    ∷ (bytes "ActiveZoneSlot", print_int w.active_zone)
    ∷ (bytes "ActivePoint", print_int w.active_point)
    ∷ (bytes "VisibleLines", print_int w.visible_lines)
    ∷ (bytes "CrosshairVisible", flag e.crosshair)
    ∷ (bytes "CoordinatePanelVisible", flag e.coord_panel)
    ∷ (bytes "KeyHudVisible", flag e.key_hud)
    ∷ (bytes "GridVisible", flag e.grid)
    ∷ (bytes "CoordinatesOnlyMode", flag e.coordinates_only)
    ∷ []

unfoldable pub environment_lines : System → Shown → Environment → List (Text × Text)
unfolding stage_name print_int var_lines paste_lines zone_lines spot_lines
environment_lines sys w e =
    scalar_lines sys w e
    ++ (var_lines sys 0 e.vars
        ++ (paste_lines sys 0 e.pastes ++ (zone_lines 0 e.zones ++ spot_lines 0 e.spots)))

unfoldable pub write_lines : List (Text × Text) → Text
unfolding escape_value
write_lines [] = []
write_lines ((name, v) ∷ rest) = name ++ (b'=' ∷ (escape_value v ++ (10 ∷ write_lines rest)))

unfoldable pub environment_to_text : System → Shown → Environment → Text
unfolding environment_lines write_lines
environment_to_text sys w e = write_lines (environment_lines sys w e)
