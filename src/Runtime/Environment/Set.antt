-- ===== src/Runtime/Environment/Set.antt =====
-- `ApplyRegistryHubSetToken` of runtime/source/src/main.cpp with the references that its values may
-- hold: `{set ...}` in a script.
pub mod OneWrite
use macrohelp.Base.{
  ℕ, ◌==◌, ltb, leb, Bool, true, false, ◌&&◌, ◌||◌, not, is_some, Option, none, some, List, [], ◌∷◌,
  take, drop, get_elem?, select, length, if◌then◌else◌,
}
use macrohelp.Runtime.Text.{
  Text, bytes, text_eq, starts_with, is_space, trim_start, trim_ascii, lower_ascii,
}
use macrohelp.Runtime.Arguments.{split_args}
use macrohelp.Runtime.Coordinates.{Point, parse_point, parse_zone, print_point}
use macrohelp.Runtime.Environment.{
  System, Environment, Zone, Spot, set_at, if_slot, or_default, trim_wide,
}
use macrohelp.Runtime.Places.{var_slot, paste_slot, point_index}
use macrohelp.Runtime.Environment.Write.{spot_value}

pub data Outcome : Type 0 where
  refused : Text → Outcome
  done : Environment → Outcome

abbrev set_spot_at : Option Spot → Option Point
set_spot_at none = none
set_spot_at (some p) = if p.set then some p.point else none

abbrev set_zone_at : Option Zone → Option (Point × Point)
set_zone_at none = none
set_zone_at (some z) = if z.set then some z.corners else none

-- `ResolveRegistryPointReference` and `ResolveRegistryZoneReference`.
unfoldable pub point_reference : Text → Environment → Option Point
unfolding point_index
point_reference raw s = if_slot (point_index raw) (λ i. set_spot_at (get_elem? s.spots i)) none

abbrev without_zone : Text → Text
without_zone t = if starts_with (bytes "zone") t then drop 4 t else t

unfoldable pub zone_reference : Text → Environment → Option (Point × Point)
unfolding paste_slot lower_ascii trim_ascii
zone_reference raw s =
    let key = lower_ascii (trim_ascii raw) in
    let compact = select (λ c. not (c == b'_' || (c == b'-' || is_space c))) key in
    if_slot (paste_slot (without_zone compact)) (λ i. set_zone_at (get_elem? s.zones i)) none

abbrev or_else {ℓ} : {A : Type ℓ} → Option A → Option A → Option A
or_else none o = o
or_else (some a) o = some a

abbrev both : Option Point → Option Point → Option (Point × Point)
both (some a) (some b) = some (a, b)
both (some a) none = none
both none o = none

abbrev zone_of_args : List Text → Environment → Option (Point × Point)
zone_of_args (a ∷ []) s = zone_reference a s
zone_of_args (a ∷ b ∷ []) s = both (point_reference a s) (point_reference b s)
zone_of_args _ s = none

-- Up to the next space or `=`, behind spaces; and the rest.
abbrev pub push_field : ℕ → Text × Text → Text × Text
push_field c (f, rest) = (c ∷ f, rest)

unfoldable pub field_of : Text → Text × Text
field_of [] = ([], [])
field_of (c ∷ cs) = if is_space c || c == b'=' then ([], c ∷ cs) else push_field c (field_of cs)

unfoldable pub field : Text → Text × Text
unfolding field_of trim_start
field t = field_of (trim_start t)

abbrev without_equals : Text → Text
without_equals [] = []
without_equals (c ∷ cs) = if c == b'=' then cs else c ∷ cs

abbrev is_qualified : Text → Bool
is_qualified t =
    text_eq t (bytes "paste")
    || (text_eq t (bytes "buffer")
        || (text_eq t (bytes "zone")
            || (text_eq t (bytes "point")
                || (text_eq t (bytes "shell") || text_eq t (bytes "var")))))

pub record Parts : Type 0 where
  pub target : Text
  pub qualified : Bool
  pub argument : Text
  pub value : Text

unfoldable pub parts_of : Text → Parts
unfolding field lower_ascii trim_ascii trim_start
parts_of token =
    let (t, r) = field (trim_ascii (drop 4 token)) in
    let target = lower_ascii t in
    let (a, rest) = (if is_qualified target then field r else ([], r)) in
    record {
      target = target;
      qualified = is_qualified target;
      argument = lower_ascii a;
      value = trim_ascii (without_equals (trim_start rest));
    }

-- The word before `buf` in a name like `zbuf`.
abbrev pub without_buf : Text → Text
without_buf t =
    if length t == 4 && (text_eq (drop 1 t) (bytes "buf") && is_some (paste_slot (take 1 t)))
    then take 1 t
    else t

module _ (sys : System) where
  -- `LookupScriptTextValue`.
  unfoldable pub script_text : Text → Environment → Option Text
  unfolding lower_ascii trim_ascii var_slot paste_slot
  script_text raw s =
      let key = lower_ascii (trim_ascii raw) in
      if text_eq key (bytes "registry")
        || (text_eq key (bytes "registrypath")
            || (text_eq key (bytes "registry_path") || text_eq key (bytes "regfile")))
      then some s.registry_path
      else if text_eq key (bytes "shellg")
          || (text_eq key (bytes "shell_g")
              || (text_eq key (bytes "regedited") || text_eq key (bytes "regbin")))
      then some s.shell_g
      else if_slot (var_slot key) (get_elem? s.vars)
          (if_slot (paste_slot key) (get_elem? s.pastes) none)

  abbrev non_empty : Text → Option Text
  non_empty [] = none
  non_empty (c ∷ cs) = some (c ∷ cs)

  abbrev text_or : Text → Option Text → Text
  text_or d none = d
  text_or d (some w) = w

  abbrev spot_text : Option Spot → Option Text
  spot_text none = none
  spot_text (some p) = non_empty (spot_value p)

  abbrev utf8_of : Option Text → Option Text
  utf8_of none = none
  utf8_of (some w) = some (sys.utf8 w)

  -- `ExpandRegistryHubValueReferences`.
  abbrev is_reference : Text → Bool
  is_reference [] = false
  is_reference (c ∷ cs) = c == b'$' && not (text_eq cs [])

  unfoldable pub expand_value : Text → Environment → Text
  unfolding trim_ascii point_index script_text print_point
  expand_value value s =
      let t = trim_ascii value in
      if is_reference t
      then text_or value (
          or_else (if_slot (point_index (drop 1 t)) (λ i. spot_text (get_elem? s.spots i)) none)
            (utf8_of (script_text (drop 1 t) s)))
      else value

  -- `ParsePointCoordinatesOrReference` and `ParseZoneCoordinatesOrPointRefs`.
  unfoldable pub point_of : Text → Environment → Option Point
  unfolding point_reference trim_ascii parse_point
  point_of raw s = or_else (point_reference (trim_ascii (sys.utf8 raw)) s) (parse_point raw)

  unfoldable pub zone_of : Text → Environment → Option (Point × Point)
  unfolding zone_reference point_reference parse_zone split_args
  zone_of raw s = or_else (parse_zone raw) (zone_of_args (split_args (sys.utf8 raw)) s)

  abbrev pub if_some {ℓ} : {A : Type ℓ} → Option A → (A → Outcome) → Outcome → Outcome
  if_some none f d = d
  if_some (some a) f d = f a

  abbrev pub put_var : Text → Environment → ℕ → Outcome
  put_var v s i = done (record s { vars = set_at s.vars i (λ o. sys.wide v) })

  abbrev pub put_paste : Text → Environment → ℕ → Outcome
  put_paste v s i = done (record s { pastes = set_at s.pastes i (λ o. sys.wide v) })

  abbrev pub put_zone : Environment → ℕ → Point × Point → Outcome
  put_zone s i c =
      done (record s { zones = set_at s.zones i (λ o. record { set = true; corners = c }) })

  abbrev pub put_point : Environment → ℕ → Point → Outcome
  put_point s i c =
      done (record s { spots = set_at s.spots i (λ o. record { set = true; point = c }) })

  -- The names without an argument at the end of the function.
  unfoldable pub set_shell : Text → Text → Environment → Outcome
  unfolding trim_wide
  set_shell target v s =
      if text_eq target (bytes "x") || text_eq target (bytes "bash")
      then done (record s { shell_x = sys.wide v })
      else if text_eq target (bytes "c") || text_eq target (bytes "cmd")
      then done (record s { shell_c = or_default sys (bytes "cmd") (sys.wide v) })
      else if text_eq target (bytes "g")
          || (text_eq target (bytes "python")
              || (text_eq target (bytes "py")
                  || (text_eq target (bytes "regedited") || text_eq target (bytes "regbin"))))
      then done (record s { shell_g = sys.wide v })
      else refused (bytes "Unknown {set ...} target.")

  -- `{set shell ...}`; any other argument goes on to the names above.
  unfoldable pub set_shell_slot : Text → Text → Environment → Outcome → Outcome
  unfolding trim_wide
  set_shell_slot slot v s others =
      if text_eq slot (bytes "x") || text_eq slot (bytes "bash")
      then done (record s { shell_x = sys.wide v })
      else if text_eq slot (bytes "c") || text_eq slot (bytes "cmd")
      then done (record s { shell_c = or_default sys (bytes "cmd") (sys.wide v) })
      else if text_eq slot (bytes "g")
          || (text_eq slot (bytes "python") || text_eq slot (bytes "py"))
      then done (record s { shell_g = sys.wide v })
      else others

  -- What follows the variables and the buffers under their own names.
  unfoldable pub set_named : Text → Parts → Text → Environment → Outcome
  unfolding paste_slot point_index point_of zone_of set_shell set_shell_slot lower_ascii
  set_named target p v s =
      let shells = set_shell target v s in
      let shell =
        (if text_eq target (bytes "shell") && p.qualified
          then set_shell_slot (lower_ascii p.argument) v s shells
          else shells) in
      let registry =
        (if text_eq target (bytes "registry")
          then done (record s { registry_path = sys.expand_path (sys.wide v) })
          else shell) in
      let point =
        (if text_eq target (bytes "point") && p.qualified
          then if_slot (point_index p.argument)
              (λ i. if_some (point_of (sys.wide v) s) (put_point s i) registry) registry
          else registry) in
      let zone =
        (if text_eq target (bytes "zone") && p.qualified
          then if_slot (paste_slot (lower_ascii p.argument))
              (λ i. if_some (zone_of (sys.wide v) s) (put_zone s i) point) point
          else point) in
      if (text_eq target (bytes "paste") || text_eq target (bytes "buffer")) && p.qualified
      then if_slot (paste_slot p.argument) (put_paste v s) zone
      else zone

  unfoldable pub set_target : Text → Parts → Text → Environment → Outcome
  unfolding var_slot paste_slot set_named
  set_target target p v s =
      if_slot (var_slot target) (put_var v s)
        (if_slot (paste_slot target) (put_paste v s) (set_named target p v s))

  abbrev pub lacks_part : Parts → Bool
  lacks_part p =
      text_eq p.target [] || (text_eq p.value [] || (p.qualified && text_eq p.argument []))

  -- With the value that has its reference resolved.
  unfoldable pub set_parts : Parts → Text → Environment → Outcome
  unfolding var_slot paste_slot set_target lower_ascii
  set_parts p v s =
      if lacks_part p
      then refused (bytes "{set ...} needs a target and value.")
      else if text_eq p.target (bytes "var")
      then (if is_some (var_slot (lower_ascii p.argument))
          then set_target (without_buf (lower_ascii p.argument)) p v s
          else refused (bytes "Unknown variable target."))
      else set_target (without_buf p.target) p v s

  unfoldable pub apply_set : Text → Environment → Outcome
  unfolding parts_of expand_value set_parts
  apply_set token s = set_parts (parts_of token) (expand_value (parts_of token).value s) s
