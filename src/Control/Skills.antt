-- ===== src/Control/Skills.antt =====
-- `skillName`, `skillRequest` and `validateSkills` of runtime/source/src/control_skills.hpp. A request
-- is an object's fields in order, each a text or no text at all, with names and texts as bytes.
pub mod Requests
use macrohelp.Base.{
  ℕ, pos, ltb, leb, ◌==◌, Bool, true, false, ◌&&◌, ◌||◌, not, Option, none, some, List, [], ◌∷◌,
  any, map, length, if◌then◌else◌,
}
use macrohelp.Runtime.Text.{Text, bytes, text_eq, to_lower}
use macrohelp.Control.Checked.{Checked, done, thrown, then_with, refuse}
use macrohelp.Control.Checks.{Verdict, before, require}
use macrohelp.Control.Text.{trim}

abbrev pub Request : Type 0
Request = List (Text × Option Text)

abbrev pub is_control : ℕ → Bool
is_control c = ltb c 32 || c == 127

abbrev pub text_of : Option Text → Text
text_of none = []
text_of (some t) = trim t

-- Not empty, at most 128 bytes, on one line.
abbrev pub is_name : Text → Bool
is_name [] = false
is_name (c ∷ cs) = leb (length (c ∷ cs)) 128 && not (any is_control (c ∷ cs))

unfoldable pub skill_name : Option Text → Checked Text
unfolding trim
skill_name v =
    let t = text_of v in
    if is_name t then done t else refuse "Skill names must be 1–128 bytes on one line"

-- `value.value(key, Json())`; none is a value that is missing or no text.
abbrev pub text_at : Text → Request → Option Text
text_at k [] = none
text_at k ((j, v) ∷ rest) = if text_eq j k then v else text_at k rest

unfoldable pub known_fields : List Text → Request → Verdict
known_fields allowed [] = done tt
known_fields allowed ((k, v) ∷ rest) =
    before (require (any (text_eq k) allowed) "Unknown field") (known_fields allowed rest)

abbrev pub is_number : ℕ → Bool
is_number c = leb b'0' c && leb c b'9'

-- From `at` on, past the digits.
abbrev pub past_digits : Text → Text
past_digits [] = []
past_digits (c ∷ cs) = if is_number c then past_digits cs else c ∷ cs

-- Whether a digit was passed.
abbrev pub begins_with_digit : Text → Bool
begins_with_digit [] = false
begins_with_digit (c ∷ cs) = is_number c

abbrev pub is_end : Text → Bool
is_end [] = true
is_end (c ∷ cs) = false

abbrev pub part_of : Text → Bool
part_of [] = false
part_of (c ∷ cs) = (c == b's' || c == b'z') && (is_end (past_digits cs) && begins_with_digit cs)

unfoldable pub is_skill_reference : Text → Bool
is_skill_reference [] = false
is_skill_reference (c ∷ cs) = c == b'i' && (begins_with_digit cs && part_of (past_digits cs))

abbrev pub is_removal : Text → Bool
is_removal title = text_eq (map to_lower title) (bytes "remove")

unfoldable pub reference_for : Text → Text → Checked (Text × Option Text)
unfolding is_skill_reference
reference_for title ref =
    if is_removal title
    then done (title, some ref)
    else if is_skill_reference (map to_lower ref)
    then done (title, some (map to_lower ref))
    else refuse "Use an rgd reference such as i7s1 or i8z1"

-- The name, and the reference where it was asked for.
unfoldable pub skill_request : Request → Bool → Checked (Text × Option Text)
unfolding skill_name known_fields reference_for
skill_request r query =
    let allowed : List Text =
      (if query then bytes "name" ∷ [] else bytes "name" ∷ bytes "rgd" ∷ []) in
    before (known_fields allowed r) (
      then_with (skill_name (text_at (bytes "name") r)) (λ title.
        if query
        then done (title, none)
        else then_with (skill_name (text_at (bytes "rgd") r)) (λ ref. reference_for title ref)))

abbrev pub entry_request : Text → Option Text → Request
entry_request k v = (bytes "name", some k) ∷ (bytes "rgd", v) ∷ []

abbrev pub same_value : Option Text → Option Text → Bool
same_value (some s) (some t) = text_eq s t
same_value (some s) none = false
same_value none (some t) = false
same_value none none = true

unfoldable pub saved_skill : Text → Option Text → Verdict
unfolding skill_request
saved_skill k v = then_with (skill_request (entry_request k v) false) (λ found.
    require (text_eq found.0 k && (same_value found.1 v && not (is_removal k)))
      "Invalid saved skill")

unfoldable pub saved_skills : Request → Verdict
unfolding saved_skill
saved_skills [] = done tt
saved_skills ((k, v) ∷ rest) = before (saved_skill k v) (saved_skills rest)

unfoldable pub validate_skills : Request → Verdict
unfolding saved_skills
validate_skills m =
    if leb (length m) 256 then saved_skills m else thrown (pos 413) "At most 256 saved skills"
