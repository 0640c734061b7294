-- ===== src/Control/Tests.antt =====
-- The theorems about the control protocol at concrete inputs.

use text.Mathlib.Text.{◌==◌ as str_eq}
use macrohelp.Base.Json.{Json, null, num, arr, obj, nil, cons, end, field, value}
use macrohelp.Control.Checks.{coordinates, text_safety, patch, values_of, sections, point_numbers}
use macrohelp.Control.Checks.Coordinates.{IsCoordinates, coordinates_lem}
use macrohelp.Control.Checks.Safety.{levels, TextsPass, no_nul, text_safety_lem}
use macrohelp.Control.Checks.Patch.{patch-sections, patch-points, patch-zones}
use macrohelp.Base.{
  pos, negsuc, any, ◌↔◌, ◌⊎◌, ◌<◌, some, true, false, [], ◌∷◌, map, ◌≡◌, refl, arith,
}
use macrohelp.Control.Checked.{Checked, done}
use macrohelp.Control.Text.{codes, trim, starts_well, ends_well, trim_lem}
use macrohelp.Control.Csv.{Cell, Command, command, csv}
use macrohelp.Control.Csv.Termination.{csv-total}
use macrohelp.Control.Csv.Fields.{print_cells, read_cell}
use macrohelp.Control.Csv.RoundTrip.{print_command, csv-print, csv-print_command}

trim_example :
    (starts_well (trim (codes " a b ")) ≡ true)
    × (ends_well (trim (codes " a b ")) ≡ true)
    × (trim (trim (codes " a b ")) ≡ trim (codes " a b "))
trim_example = trim_lem (codes " a b ")

total_example : (r : Checked Command) × (csv (codes "paste_buffers, x") ≡ some r)
total_example = csv-total (codes "paste_buffers, x")

abbrev bare_menu : Cell
bare_menu = (codes " 7 ", false)

abbrev quoted_input : Cell
quoted_input = (b'"' ∷ codes "a,b", true)

print_example :
    csv (print_cells (bare_menu ∷ quoted_input ∷ []))
    ≡ some (command (map read_cell (bare_menu ∷ quoted_input ∷ [])))
print_example =
    csv-print bare_menu (quoted_input ∷ []) ((refl, (refl, (refl, tt))), (tt, tt)) (omega arith)

abbrev replay : Command
replay = record {
  menu = codes "registry_hub";
  inputs = (b'"' ∷ codes " ,") ∷ [];
  no_replace = true;
}

command_example : csv (print_command replay) ≡ some (done replay)
command_example = csv-print_command replay (omega arith)

abbrev pair : Json
pair = arr (cons (num (pos 5)) (cons (num (negsuc 0)) nil))

-- The second number is 2^64 - 7: the check takes it for -7.
abbrev wrapped_pair : Json
wrapped_pair = arr (cons (num (pos 5)) (cons (num (pos 18446744073709551609)) nil))

coordinates_example : (coordinates wrapped_pair 2 ≡ done tt) ↔ IsCoordinates 2 wrapped_pair
coordinates_example = coordinates_lem wrapped_pair 2

wrapped_accepted : coordinates wrapped_pair 2 ≡ done tt
unfolding coordinates
wrapped_accepted = refl

safety_example : (text_safety pair 0 ≡ done tt) ↔ ((levels pair < 64) × TextsPass no_nul pair)
safety_example = text_safety_lem pair

abbrev all_points_json : Json
all_points_json = obj (field "3" pair end)

abbrev zones_json : Json
zones_json = obj (field "X" null end)

abbrev config : Json
config = obj (field "points" all_points_json (field "zones" zones_json end))

config_passes : patch config ≡ done tt
unfolding patch
config_passes = refl

points_given : value "points" (values_of config) ≡ some all_points_json
unfolding value
points_given = refl

zones_given : value "zones" (values_of config) ≡ some zones_json
unfolding value
zones_given = refl

third_given : value "3" (values_of all_points_json) ≡ some pair
unfolding value
third_given = refl

zone_given : value "X" (values_of zones_json) ≡ some null
unfolding value
zone_given = refl

sections_example : any (str_eq "points") sections ≡ true
sections_example = patch-sections config "points" all_points_json config_passes points_given

points_example : (any (str_eq "3") point_numbers ≡ true) × ((pair ≡ null) ⊎ IsCoordinates 2 pair)
points_example = patch-points config all_points_json pair "3" config_passes points_given third_given

zones_example :
    (any (str_eq "X") ("Z" ∷ "X" ∷ "C" ∷ "V" ∷ []) ≡ true)
    × ((Json.null ≡ null) ⊎ IsCoordinates 4 null)
zones_example = patch-zones config zones_json null "X" config_passes zones_given zone_given
