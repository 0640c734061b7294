-- ===== src/Control/Checks.antt =====
-- `integer`, `fields`, `coordinates`, `textSafety` and `patch` of control_protocol.hpp. A `num` within
-- 64 bits is what `is_number_integer` accepts; a `real` is any other number.
pub mod Coordinates
pub mod Patch
pub mod Safety
use Prim.Native.String.{◌++◌ as ◌<>◌}
use text.Mathlib.Text.{◌==◌ as str_eq}
use macrohelp.Base.{
  ℤ, pos, negsuc, ltb_ℤ, ℕ, suc, ltb, ◌==◌, ◌+◌, ◌-◌, String, Bool, true, false, ◌&&◌, ◌||◌, not,
  List, [], ◌∷◌, any, if◌then◌else◌,
}
use macrohelp.Base.Json.{
  Json, Items, Fields, null, bool, num, real, str, arr, obj, nil, cons, end, field,
}
use macrohelp.Control.Checked.{Checked, done, thrown, then_with, refuse}
use macrohelp.Control.Text.{codes}

-- What a check comes to.
abbrev pub Verdict : Type 0
Verdict = Checked (Unit {0})

-- A check that is passed before the rest.
abbrev pub before {ℓ} : {A : Type ℓ} → Verdict → Checked A → Checked A
before (done tt) rest = rest
before (thrown status message) rest = thrown status message

abbrev pub require : Bool → String → Verdict
require b message = if b then done tt else refuse message

-- A whole number that the library cannot hold in 64 bits, with or without a sign, is a `double` there.
abbrev pub is_held : ℤ → Bool
is_held (pos n) = ltb n 18446744073709551616
is_held (negsuc n) = ltb n 9223372036854775808

-- The 64 bits of a number as a signed number: the library casts a number without a sign to it before
-- it compares it with an `int`.
abbrev pub as_signed : ℤ → ℤ
as_signed (pos n) = if ltb n 9223372036854775808 then pos n else negsuc (18446744073709551615 - n)
as_signed (negsuc n) = negsuc n

abbrev pub integer : Json → ℤ → ℤ → Bool
integer (num n) lo hi = is_held n && (not (ltb_ℤ (as_signed n) lo) && not (ltb_ℤ hi (as_signed n)))
integer null lo hi = false
integer (bool b) lo hi = false
integer (real t) lo hi = false
integer (str t) lo hi = false
integer (arr vs) lo hi = false
integer (obj fs) lo hi = false

unfoldable pub all_known : List String → Fields → Verdict
all_known allowed end = done tt
all_known allowed (field k v fs) =
    before (require (any (str_eq k) allowed) ("Unknown field: " <> k)) (all_known allowed fs)

unfoldable pub fields : Json → List String → Verdict
unfolding all_known
fields (obj fs) allowed = all_known allowed fs
fields _ allowed = refuse "Expected an object"

abbrev pub size : Items → ℕ
size nil = 0
size (cons v vs) = suc (size vs)

abbrev pub is_string : Json → Bool
is_string (str t) = true
is_string _ = false

unfoldable pub all_coordinates : Items → Verdict
all_coordinates nil = done tt
all_coordinates (cons v vs) =
    before
      (require (not (is_string v))
        "Windows coordinates require integer physical pixels; board codes are Wayland-only. Use macrohelp_coords.")
      (before (require (integer v (negsuc 99999) (pos 100000)) "Invalid integer coordinates")
        (all_coordinates vs))

unfoldable pub coordinates : Json → ℕ → Verdict
unfolding all_coordinates
coordinates (arr vs) count =
    before (require (size vs == count) "Invalid integer coordinates") (all_coordinates vs)
coordinates _ count = refuse "Invalid integer coordinates"

abbrev pub has_nul : String → Bool
has_nul t = any (λ c. c == 0) (codes t)

unfoldable mutual
  pub text_safety : Json → ℕ → Verdict
  text_safety (str t) depth =
      before (require (ltb depth 64) "JSON nesting exceeds 64 levels")
        (require (not (has_nul t)) "NUL text is not supported")
  text_safety (arr vs) depth =
      before (require (ltb depth 64) "JSON nesting exceeds 64 levels") (items_safety vs (depth + 1))
  text_safety (obj fs) depth =
      before (require (ltb depth 64) "JSON nesting exceeds 64 levels")
        (fields_safety fs (depth + 1))
  text_safety null depth = require (ltb depth 64) "JSON nesting exceeds 64 levels"
  text_safety (bool b) depth = require (ltb depth 64) "JSON nesting exceeds 64 levels"
  text_safety (num n) depth = require (ltb depth 64) "JSON nesting exceeds 64 levels"
  text_safety (real t) depth = require (ltb depth 64) "JSON nesting exceeds 64 levels"

  pub items_safety : Items → ℕ → Verdict
  items_safety nil depth = done tt
  items_safety (cons v vs) depth = before (text_safety v depth) (items_safety vs depth)

  -- The keys are not looked at.
  pub fields_safety : Fields → ℕ → Verdict
  fields_safety end depth = done tt
  fields_safety (field k v fs) depth = before (text_safety v depth) (fields_safety fs depth)

abbrev pub point_numbers : List String
point_numbers =
    "1" ∷ "2" ∷ "3" ∷ "4" ∷ "5" ∷ "6" ∷ "7" ∷ "8" ∷ "9" ∷ "10" ∷ "11" ∷ "12" ∷ "13" ∷ "14" ∷ "15"
    ∷ "16" ∷ []

-- A value that may be null, and is coordinates otherwise.
abbrev pub null_or_coordinates : Json → ℕ → Verdict
null_or_coordinates null count = done tt
null_or_coordinates v count = coordinates v count

unfoldable pub all_points : Fields → Verdict
unfolding coordinates
all_points end = done tt
all_points (field k v fs) =
    before (require (any (str_eq k) point_numbers) "Point number must be 1–16")
      (before (null_or_coordinates v 2) (all_points fs))

unfoldable pub points : Json → Verdict
unfolding all_points
points (obj fs) = all_points fs
points _ = refuse "points uses numbered keys 1–16"

abbrev pub keys_of : String → List String
keys_of section =
    if str_eq section "vars"
    then "A" ∷ "S" ∷ "D" ∷ "F" ∷ []
    else if str_eq section "shells"
    then "X" ∷ "C" ∷ "G" ∷ "P" ∷ "T" ∷ []
    else if str_eq section "paths"
    then "import" ∷ "export" ∷ []
    else if str_eq section "view"
    then "crosshair" ∷ "grid" ∷ "coordinates" ∷ "panel" ∷ "keys" ∷ "coordinates_only" ∷ []
    else "Z" ∷ "X" ∷ "C" ∷ "V" ∷ []

abbrev pub is_boolean : Json → Bool
is_boolean (bool b) = true
is_boolean _ = false

unfoldable pub section_value : String → Json → Verdict
section_value section v =
    if str_eq section "zones"
    then null_or_coordinates v 4
    else if str_eq section "view"
    then require (is_boolean v) "View values must be boolean"
    else require (is_string v) "Config value must be text"

unfoldable pub section_values : String → Fields → Verdict
unfolding section_value
section_values section end = done tt
section_values section (field k v fs) = before (section_value section v) (section_values section fs)

-- `for (const auto& v : values)` after `fields` has passed, so that the values are an object.
abbrev pub values_of : Json → Fields
values_of (obj fs) = fs
values_of _ = end

unfoldable pub patch_section : String → Json → Verdict
unfolding points section_values fields
patch_section section values =
    if str_eq section "script" || str_eq section "registry"
    then require (is_string values) "script and registry must be text"
    else if str_eq section "points"
    then points values
    else before (fields values (keys_of section)) (section_values section (values_of values))

unfoldable pub all_sections : Fields → Verdict
unfolding patch_section
all_sections end = done tt
all_sections (field k v fs) = before (patch_section k v) (all_sections fs)

abbrev pub sections : List String
sections =
    "script" ∷ "registry" ∷ "points" ∷ "vars" ∷ "buffers" ∷ "zones" ∷ "shells" ∷ "paths" ∷ "view"
    ∷ []

unfoldable pub patch : Json → Verdict
unfolding all_sections
patch config = before (fields config sections) (all_sections (values_of config))
