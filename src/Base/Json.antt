-- ===== src/Base/Json.antt =====
-- JSON values, as QJsonValue and nlohmann::json hold them: a number that is whole is an integer, any
-- other number is its literal. An object keeps its fields in the order of their keys.
use macrohelp.Base.Tests.{if◌then◌else◌, is_some, ltb, leb}
use macrohelp.Base.Int.{ℤ, pos_part, neg_part}
use macrohelp.Base.Dict.{string_key}
use Prim.Native.String.{String}
use mathlib.Core.Bool.{Bool, true, false, ◌&&◌}
use mathlib.Core.Option.{Option, none, some}
use mathlib.Core.List.{List, [], ◌∷◌}
use mathlib.Core.Path.{◌≡◌, refl}
use native.Mathlib.Omega.{arith}
use text.Mathlib.Text.{◌==◌ as str_eq}
use text.Mathlib.TextEquality.{eq_iff}

mutual
  pub data Json : Type 0 where
    null : Json
    bool : Bool → Json
    num : ℤ → Json
    real : String → Json
    str : String → Json
    arr : Items → Json
    obj : Fields → Json

  pub data Items : Type 0 where
    nil : Items
    cons : Json → Items → Items

  pub data Fields : Type 0 where
    end : Fields
    field : String → Json → Fields → Fields

-- `object[key] = value`.
unfoldable pub set_field : String → Json → Fields → Fields
set_field k v end = field k v end
set_field k v (field j w fs) =
    if str_eq j k
    then field k v fs
    else if string_key.before k j
    then field k v (field j w fs)
    else field j w (set_field k v fs)

unfoldable pub fields_of : List (String × Json) → Fields
unfolding set_field
fields_of [] = end
fields_of ((k, v) ∷ rest) = set_field k v (fields_of rest)

unfoldable pub items_of : List Json → Items
items_of [] = nil
items_of (v ∷ vs) = cons v (items_of vs)

-- `value(key)`: `none` is the undefined value.
unfoldable pub value : String → Fields → Option Json
value k end = none
value k (field j v fs) = if str_eq j k then some v else value k fs

pub value-set_field :
    (k j : String) (v : Json) (fs : Fields)
    → value j (set_field k v fs) ≡ (if str_eq k j then some v else value j fs)
unfolding value set_field
value-set_field k j v end = refl
value-set_field k j v (field i w fs) =
    ground (arith, eq_iff k j, eq_iff i k, eq_iff i j, value-set_field k j v fs)

unfoldable pub contains : String → Fields → Bool
unfolding value
contains k fs = is_some (value k fs)

-- `toObject()`: the empty object for any other value.
unfoldable pub object_of : Json → Fields
object_of (obj fs) = fs
object_of null = end
object_of _ = end

abbrev pub is_object : Option Json → Bool
is_object (some (obj fs)) = true
is_object (some _) = false
is_object none = false

abbrev pub is_array : Option Json → Bool
is_array (some (arr vs)) = true
is_array (some _) = false
is_array none = false

abbrev pub is_string : Option Json → Bool
is_string (some (str s)) = true
is_string (some _) = false
is_string none = false

abbrev pub is_double : Option Json → Bool
is_double (some (num n)) = true
is_double (some (real s)) = true
is_double (some _) = false
is_double none = false

-- `toString(default)`.
unfoldable pub to_string_or : String → Option Json → String
to_string_or d (some (str s)) = s
to_string_or d (some _) = d
to_string_or d none = d

unfoldable pub to_string : Option Json → String
unfolding to_string_or
to_string = to_string_or ""

-- `toInt(default)`: the default for what is no whole number in the range of `int`.
abbrev pub fits_int : ℤ → Bool
fits_int n = ltb (pos_part n) 2147483648 && leb (neg_part n) 2147483648

unfoldable pub to_int : ℤ → Option Json → ℤ
to_int d (some (num n)) = if fits_int n then n else d
to_int d (some _) = d
to_int d none = d

unfoldable pub to_bool : Bool → Option Json → Bool
to_bool d (some (bool b)) = b
to_bool d (some _) = d
to_bool d none = d
