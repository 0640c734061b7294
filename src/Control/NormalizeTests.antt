-- ===== src/Control/NormalizeTests.antt =====
-- The theorems about `normalize` at concrete requests.
use macrohelp.Base.{pos, some, false, ◌≡◌, refl}
use macrohelp.Base.Json.{Json, bool, num, str, arr, obj, nil, end, field}
use macrohelp.Base.Json.{value, contains, set_field}
use macrohelp.Control.Checks.{text_safety, fields, patch}
use macrohelp.Control.Checked.{Checked, done}
use macrohelp.Control.Text.{codes}
use macrohelp.Control.Normalize.{Encoding, normalize}
use macrohelp.Control.Normalize.Accepted.{HasConfig, normalize-total, normalize-HasConfig}

abbrev encoding : Encoding
encoding = record { bytes = codes; text = λ cs. "circle_placer"; dump_size = λ v. 0 }

-- The fourth menu, by its name.
abbrev by_name : Json
by_name = obj (field "menu" (str "circle_placer") end)

abbrev by_number : Json
by_number = obj (
    field "config" (obj end)
      (field "inputs" (arr nil) (field "menu" (num (pos 3)) (field "no_replace" (bool false) end))))

by_name_runs : normalize encoding by_name ≡ some (done by_number)
unfolding normalize text_safety fields value contains set_field patch
by_name_runs = refl

normalize_example : HasConfig by_number
normalize_example = normalize-HasConfig encoding by_name by_number by_name_runs

line_example : (x : Checked Json) × (normalize encoding (str "circle_placer") ≡ some x)
line_example = normalize-total encoding (str "circle_placer")
