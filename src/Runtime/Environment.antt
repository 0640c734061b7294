-- ===== src/Runtime/Environment.antt =====
-- The environment of the Registry Hub in runtime/source/src/main.cpp:
-- `RegistryHubEnvironmentToText`, `ImportRegistryHubEnvironment` and `ClearRegistryHubState`, over the
-- variables that they read and write. A wide text is the list of its code units; what Windows does is
-- the parameter `System`. Its spaces are those of ASCII, and its arrays have their length as lists.
pub mod Write
pub mod Lines
pub mod Slots
pub mod Arrays
pub mod Names
pub mod RoundTrip
pub mod Set
use macrohelp.Base.{
  ℕ, zero, suc, ◌-◌, ◌<◌, ◌==◌, ltb, leb, ℤ, pos, Bool, true, false, ◌&&◌, ◌||◌, not, Option, none,
  some, List, [], ◌∷◌, map, take, drop, get_elem?, select, length, all, if◌then◌else◌,
}
use macrohelp.Runtime.Text.{
  Text, bytes, text_eq, starts_with, is_space, trim_end, trim_ascii, lower_ascii,
}
use macrohelp.Runtime.Escapes.{unescape_value}
use macrohelp.Runtime.Decimal.{is_digit, atoi}
use macrohelp.Runtime.Coordinates.{Point, parse_point, parse_zone}
use macrohelp.Runtime.Places.{var_slot, paste_slot, point_index}
use macrohelp.Runtime.Settings.{lines_of, read_lines}

pub record System : Type 0 where
  -- `WStringToUtf8`, `Utf8ToWString`
  pub utf8 : Text → Text
  pub wide : Text → Text
  -- `ExpandMacrohelpPath`, `DefaultRegistryFilePath`, `DefaultRegistryHubEnvironmentPath`
  pub expand_path : Text → Text
  pub default_registry : Text
  pub default_environment : Text

pub record Zone : Type 0 where
  pub set : Bool
  pub corners : Point × Point

pub record Spot : Type 0 where
  pub set : Bool
  pub point : Point

pub record Environment : Type 0 where
  pub registry_path : Text
  pub export_path : Text
  pub import_path : Text
  pub shell_x : Text
  pub shell_c : Text
  pub shell_g : Text
  pub script : Text
  pub status : Text
  pub task_number : ℤ
  pub task_state : Text
  pub task_message : Text
  pub crosshair : Bool
  pub coord_panel : Bool
  pub key_hud : Bool
  pub grid : Bool
  pub coordinates_only : Bool
  pub vars : List Text
  pub pastes : List Text
  pub zones : List Zone
  pub spots : List Spot

-- `values[i] = v`; the index is in range wherever the code writes.
abbrev pub set_at {ℓ} : {A : Type ℓ} → List A → ℕ → (A → A) → List A
set_at [] i f = []
set_at (x ∷ xs) zero f = f x ∷ xs
set_at (x ∷ xs) (suc i) f = x ∷ set_at xs i f

abbrev strip_start : Text → Text
strip_start [] = []
strip_start (c ∷ cs) = if is_space c || c == 65279 then strip_start cs else c ∷ cs

unfoldable pub trim_wide : Text → Text
unfolding trim_end
trim_wide t = trim_end (strip_start t)

abbrev pub is_blank : Text → Bool
is_blank t = text_eq (trim_wide t) []

unfoldable pub parse_bool : Text → Bool
unfolding trim_ascii lower_ascii
parse_bool raw =
    let v = lower_ascii (trim_ascii raw) in
    text_eq v (bytes "1")
    || (text_eq v (bytes "true") || (text_eq v (bytes "yes") || text_eq v (bytes "on")))

-- The byte at a place as a text.
abbrev byte_at : ℕ → Text → Text
byte_at i t = take 1 (drop i t)

abbrev ends_in_set : Text → Bool
ends_in_set key = text_eq (drop (length key - 3) key) (bytes "set")

abbrev pub if_slot {ℓ} : {A : Type ℓ} → Option ℕ → (ℕ → A) → A → A
if_slot none f d = d
if_slot (some i) f d = f i

abbrev pub if_parsed {ℓ κ} : {A : Type ℓ} {B : Type κ} → Option B → (B → A) → A → A
if_parsed none f d = d
if_parsed (some v) f d = f v

module _ (sys : System) where
  abbrev pub or_default : Text → Text → Text
  or_default d w = if is_blank w then d else w

  abbrev pub set_zone : Text → ℕ → Environment → Environment
  set_zone w i s =
      if_parsed (parse_zone w)
        (λ z. record s { zones = set_at s.zones i (λ o. record { set = true; corners = z }) }) s

  abbrev pub set_spot : Text → ℕ → Environment → Environment
  set_spot w i s =
      if_parsed (parse_point w)
        (λ p. record s { spots = set_at s.spots i (λ o. record { set = true; point = p }) }) s

  -- The names of the arrays' entries.
  unfoldable pub apply_entry : Text → Text → Environment → Environment
  unfolding parse_bool var_slot paste_slot point_index parse_zone parse_point
  apply_entry key v s =
      if length key == 4 && starts_with (bytes "var") key
      then if_slot (var_slot (byte_at 3 key))
          (λ i. record s { vars = set_at s.vars i (λ o. sys.wide v) }) s
      else if length key == 6 && starts_with (bytes "paste") key
      then if_slot (paste_slot (byte_at 5 key))
          (λ i. record s { pastes = set_at s.pastes i (λ o. sys.wide v) }) s
      else if length key == 8
          && (starts_with (bytes "zone") key && text_eq (drop 5 key) (bytes "set"))
      then if_slot (paste_slot (byte_at 4 key))
          (λ i. record s { zones = set_at s.zones i (λ o. record o { set = parse_bool v }) }) s
      else if length key == 5 && starts_with (bytes "zone") key
      then if_slot (paste_slot (byte_at 4 key)) (λ i. set_zone (sys.wide v) i s) s
      else if starts_with (bytes "point") key && (ltb 8 (length key) && ends_in_set key)
      then if_slot (point_index (take (length key - 3) key))
          (λ i. record s { spots = set_at s.spots i (λ o. record o { set = parse_bool v }) }) s
      else if starts_with (bytes "point") key
      then if_slot (point_index key) (λ i. set_spot (sys.wide v) i s) s
      else s

  unfoldable pub apply_setting : Text → Text → Environment → Environment
  unfolding apply_entry parse_bool atoi trim_wide
  apply_setting key v s =
      let w = sys.wide v in
      if text_eq key (bytes "registryfilepath")
      then record s {
        registry_path = if is_blank w then sys.default_registry else sys.expand_path w;
      }
      else if text_eq key (bytes "exportpath")
      then record s { export_path = or_default sys.default_environment w }
      else if text_eq key (bytes "importpath")
      then record s { import_path = or_default sys.default_environment w }
      else if text_eq key (bytes "shellaliasx")
      then record s { shell_x = w }
      else if text_eq key (bytes "shellaliasc")
      then record s { shell_c = or_default (bytes "cmd") w }
      else if text_eq key (bytes "shellaliasg")
      then record s { shell_g = w }
      else if text_eq key (bytes "script")
      then record s { script = w }
      else if text_eq key (bytes "status")
      then record s { status = w }
      else if text_eq key (bytes "lasttaskettasknumber")
      then record s { task_number = atoi v }
      else if text_eq key (bytes "lasttaskettaskstate")
      then record s { task_state = w }
      else if text_eq key (bytes "lasttaskettaskmessage")
      then record s { task_message = w }
      else if text_eq key (bytes "crosshairvisible")
      then record s { crosshair = parse_bool v }
      else if text_eq key (bytes "coordinatepanelvisible")
      then record s { coord_panel = parse_bool v }
      else if text_eq key (bytes "keyhudvisible")
      then record s { key_hud = parse_bool v }
      else if text_eq key (bytes "gridvisible")
      then record s { grid = parse_bool v }
      else if text_eq key (bytes "coordinatesonlymode")
      then record s { coordinates_only = parse_bool v }
      else apply_entry key v s

  unfoldable pub apply_all : List (Text × Text) → Environment → Environment
  unfolding apply_setting lower_ascii
  apply_all [] s = s
  apply_all ((name, v) ∷ rest) s = apply_all rest (apply_setting (lower_ascii name) v s)

-- The import of a file's text; an empty one is refused.
unfoldable pub import_environment : System → Text → Environment → Option Environment
unfolding apply_all read_lines lines_of
import_environment sys [] s = none
import_environment sys (c ∷ cs) s = some (apply_all sys (read_lines (lines_of (c ∷ cs))) s)

unfoldable pub clear_environment : System → Environment → Environment
clear_environment sys s = record s {
  script = [];
  vars = map (λ v. []) s.vars;
  spots = map (λ p. record { set = false; point = (pos 0, pos 0) }) s.spots;
  shell_x = [];
  shell_c = bytes "cmd";
  shell_g = [];
  registry_path = sys.default_registry;
  export_path = sys.default_environment;
  import_path = sys.default_environment;
}
