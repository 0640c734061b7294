-- ===== src/Runtime/EnvironmentTests.antt =====
-- The theorems about exported environments at concrete inputs.
use macrohelp.Base.{pos, negsuc, true, false, some, [], ◌∷◌, ◌≡◌, refl, arith}
use macrohelp.Runtime.Text.{bytes}
use macrohelp.Runtime.Coordinates.{numbers}
use macrohelp.Runtime.Environment.{
  System, Environment, Zone, Spot, set_at, trim_wide, import_environment, clear_environment,
}
use macrohelp.Runtime.Settings.{read_line}
use macrohelp.Runtime.Environment.Set.{done, apply_set}
use macrohelp.Runtime.Environment.Set.OneWrite.{WritesOnce, apply_set-WritesOnce}
use macrohelp.Runtime.Environment.Write.{Shown, help, environment_to_text}
use macrohelp.Runtime.Environment.Names.{HasLengths}
use macrohelp.Runtime.Environment.RoundTrip.{IsExportable, restored, import-export}

abbrev system : System
system = record {
  utf8 = λ w. w;
  wide = λ t. t;
  expand_path = λ p. p;
  default_registry = bytes "registry.txt";
  default_environment = bytes "environment.txt";
}

abbrev no_spot : Spot
no_spot = record { set = false; point = (pos 0, pos 0) }

abbrev no_zone : Zone
no_zone = record { set = false; corners = ((pos 0, pos 0), (pos 0, pos 0)) }

abbrev environment : Environment
environment = record {
  registry_path = bytes "r.txt";
  export_path = bytes "e.txt";
  import_path = bytes "i.txt";
  shell_x = [];
  shell_c = bytes "cmd";
  shell_g = [];
  script = b'a' ∷ 13 ∷ 10 ∷ b'=' ∷ b'\\' ∷ b'n' ∷ [];
  status = bytes "Ready.";
  task_number = negsuc 0;
  task_state = [];
  task_message = [];
  crosshair = true;
  coord_panel = false;
  key_hud = true;
  grid = false;
  coordinates_only = false;
  vars = bytes "x" ∷ [] ∷ [] ∷ [] ∷ [];
  pastes = [] ∷ bytes "p" ∷ [] ∷ [] ∷ [];
  zones =
      record { set = true; corners = ((pos 1, negsuc 1), (pos 30, pos 40)) }
      ∷ no_zone
      ∷ no_zone
      ∷ no_zone
      ∷ [];
  spots =
      record { set = true; point = (negsuc 119, pos 7) }
      ∷ no_spot
      ∷ no_spot
      ∷ no_spot
      ∷ no_spot
      ∷ no_spot
      ∷ no_spot
      ∷ no_spot
      ∷ no_spot
      ∷ no_spot
      ∷ no_spot
      ∷ no_spot
      ∷ no_spot
      ∷ no_spot
      ∷ no_spot
      ∷ no_spot
      ∷ [];
}

abbrev shown : Shown
shown = record {
  stamp = bytes "2024-01-02 03:04:05";
  resolved_export = bytes "e.txt";
  resolved_import = bytes "i.txt";
  state_path = bytes "s.txt";
  stage = help;
  active_var = pos 0;
  active_paste = pos 0;
  active_zone = pos 0;
  active_point = pos 0;
  visible_lines = pos 12;
}

abbrev blank : Environment
unfolding clear_environment
blank = clear_environment system environment

environment-HasLengths : HasLengths environment
environment-HasLengths = omega arith

blank-HasLengths : HasLengths blank
unfolding clear_environment
blank-HasLengths = omega arith

environment-IsExportable : IsExportable system environment
unfolding trim_wide
environment-IsExportable = ground arith

import-export_example :
    import_environment system (environment_to_text system shown environment) blank
    ≡ some (restored system environment blank)
import-export_example =
    import-export system (λ t h. refl) shown environment blank environment-IsExportable
      environment-HasLengths blank-HasLengths

-- A loose text of numbers.
loose : numbers (bytes "(12, -7) and +300000000000") ≡ pos 12 ∷ negsuc 6 ∷ pos 2147483647 ∷ []
unfolding numbers
loose = refl

setting_line : read_line (bytes "Script=a\\nb") ≡ some (bytes "Script", b'a' ∷ 10 ∷ b'b' ∷ [])
unfolding read_line
setting_line = refl

apply_set-WritesOnce_example :
    WritesOnce environment (apply_set system (bytes "set point 4 12,34") environment)
apply_set-WritesOnce_example = apply_set-WritesOnce system environment (bytes "set point 4 12,34")

-- Two numbers with a space between them are the number of a point, if that is set.
abbrev twelfth_set : Environment
twelfth_set = record environment {
  spots = set_at environment.spots 11 (λ o. record { set = true; point = (pos 700, pos 800) });
}

spaced_coordinates :
    apply_set system (bytes "set point 5 1 2") twelfth_set
    ≡ done (record twelfth_set {
      spots = set_at twelfth_set.spots 4 (λ o. record { set = true; point = (pos 700, pos 800) });
    })
unfolding apply_set
spaced_coordinates = refl

-- `c` names a paste buffer, so that it never sets the command shell.
set_c_is_paste :
    apply_set system (bytes "set c powershell") environment
    ≡ done (record environment { pastes = set_at environment.pastes 2 (λ o. bytes "powershell") })
unfolding apply_set
set_c_is_paste = refl
