-- ===== src/Control/Checks/Patch.antt =====
-- What a configuration that `patch` accepts is.
use Prim.Native.String.{◌++◌ as ◌<>◌}
use text.Mathlib.Text.{◌==◌ as str_eq}
use text.Mathlib.TextEquality.{eq_iff}
use macrohelp.Base.{
  String, some, Bool, true, false, List, [], ◌∷◌, any, ◌≡◌, ◌≢◌, ◌⊎◌, inl, inr, refl, subst, arith,
  Bool-cases,
}
use macrohelp.Base.Json.{Json, Fields, null, bool, num, real, str, arr, obj, end, field, value}
use macrohelp.Control.Checked.{done, thrown}
use macrohelp.Control.Checks.{
  Verdict, before, require, all_known, fields, null_or_coordinates, all_points, points,
  point_numbers, keys_of, section_value, section_values, values_of, patch_section, all_sections,
  patch, sections,
}
use macrohelp.Control.Checks.Coordinates.{IsCoordinates, null_or_coordinates_lem}

value-field :
    (k j : String) (v w : Json) (fs : Fields)
    → value k (field j w fs) ≡ some v
    → ((j ≡ k) × (w ≡ v)) ⊎ (value k fs ≡ some v)
unfolding value
value-field k j v w fs e = elim (Bool-cases (str_eq j k)) [
  | inl same ↦ inl ((eq_iff j k).0 same, some-injective (rw same at e))
  | inr other ↦ inr (rw other at e)
]
  where
    some-injective : some w ≡ some v → w ≡ v
    some-injective q = cc

before_done : (c d : Verdict) → before c d ≡ done tt → (c ≡ done tt) × (d ≡ done tt)
before_done (done tt) d h = (refl, h)
before_done (thrown s m) d h = cc

require_done : (b : Bool) (m : String) → require b m ≡ done tt → b ≡ true
require_done true m h = refl
require_done false m h = cc

nothing : (k : String) (v : Json) → value k end ≢ some v
unfolding value
nothing k v e = absurd (ground arith)

-- Lookups in an object that passes a check of every field.
all_sections-value :
    (k : String) (v : Json) (fs : Fields)
    → all_sections fs ≡ done tt
    → value k fs ≡ some v
    → patch_section k v ≡ done tt
unfolding all_sections
all_sections-value k v end h e = absurd (nothing k v e)
all_sections-value k v (field j w fs) h e =
    let (a, b) = before_done (patch_section j w) (all_sections fs) h in
    elim (value-field k j v w fs e) [
      | inl (jk, wv) ↦
          subst (λ x. patch_section x v ≡ done tt) jk
            (subst (λ x. patch_section j x ≡ done tt) wv a)
      | inr later ↦ all_sections-value k v fs b later
    ]

section_values-value :
    (section k : String) (v : Json) (fs : Fields)
    → section_values section fs ≡ done tt
    → value k fs ≡ some v
    → section_value section v ≡ done tt
unfolding section_values
section_values-value section k v end h e = absurd (nothing k v e)
section_values-value section k v (field j w fs) h e =
    let (a, b) = before_done (section_value section w) (section_values section fs) h in
    elim (value-field k j v w fs e) [
      | inl (jk, wv) ↦ subst (λ x. section_value section x ≡ done tt) wv a
      | inr later ↦ section_values-value section k v fs b later
    ]

all_known-value :
    (k : String) (v : Json) (allowed : List String) (fs : Fields)
    → all_known allowed fs ≡ done tt
    → value k fs ≡ some v
    → any (str_eq k) allowed ≡ true
unfolding all_known
all_known-value k v allowed end h e = absurd (nothing k v e)
all_known-value k v allowed (field j w fs) h e =
    let (a, b) =
      before_done (require (any (str_eq j) allowed) ("Unknown field: " <> j)) (all_known allowed fs)
        h in
    elim (value-field k j v w fs e) [
      | inl (jk, wv) ↦
          subst (λ x. any (str_eq x) allowed ≡ true) jk (require_done (any (str_eq j) allowed) _ a)
      | inr later ↦ all_known-value k v allowed fs b later
    ]

all_points-value :
    (k : String) (v : Json) (fs : Fields)
    → all_points fs ≡ done tt
    → value k fs ≡ some v
    → (any (str_eq k) point_numbers ≡ true) × (null_or_coordinates v 2 ≡ done tt)
unfolding all_points
all_points-value k v end h e = absurd (nothing k v e)
all_points-value k v (field j w fs) h e =
    let known = any (str_eq j) point_numbers in
    let (a, b) =
      before_done (require known "Point number must be 1–16")
        (before (null_or_coordinates w 2) (all_points fs)) h in
    let (c, d) = before_done (null_or_coordinates w 2) (all_points fs) b in
    elim (value-field k j v w fs e) [
      | inl (jk, wv) ↦ (
        subst (λ x. any (str_eq x) point_numbers ≡ true) jk
            (require_done known "Point number must be 1–16" a),
        subst (λ x. null_or_coordinates x 2 ≡ done tt) wv c,
      )
      | inr later ↦ all_points-value k v fs d later
    ]

fields-known :
    (v : Json) (allowed : List String)
    → fields v allowed ≡ done tt
    → all_known allowed (values_of v) ≡ done tt
unfolding fields
fields-known (obj fs) allowed h = h
fields-known null allowed h = cc
fields-known (bool b) allowed h = cc
fields-known (num z) allowed h = cc
fields-known (real t) allowed h = cc
fields-known (str t) allowed h = cc
fields-known (arr vs) allowed h = cc

patch-section :
    (config : Json) (s : String) (w : Json)
    → patch config ≡ done tt
    → value s (values_of config) ≡ some w
    → (any (str_eq s) sections ≡ true) × (patch_section s w ≡ done tt)
unfolding patch
patch-section config s w h e =
    let (a, b) = before_done (fields config sections) (all_sections (values_of config)) h in
    (
      all_known-value s w sections (values_of config) (fields-known config sections a) e,
      all_sections-value s w (values_of config) b e,
    )

-- A configuration that `patch` accepts has no section of another name.
pub patch-sections :
    (config : Json) (s : String) (w : Json)
    → patch config ≡ done tt
    → value s (values_of config) ≡ some w
    → any (str_eq s) sections ≡ true
patch-sections config s w h e = (patch-section config s w h e).0

points_accepted : (w : Json) → points w ≡ done tt → all_points (values_of w) ≡ done tt
unfolding points
points_accepted (obj fs) h = h
points_accepted null h = cc
points_accepted (bool b) h = cc
points_accepted (num z) h = cc
points_accepted (real t) h = cc
points_accepted (str t) h = cc
points_accepted (arr vs) h = cc

-- Every point of a configuration that `patch` accepts has a number from 1 to 16, and is null or a
-- pair of integers between -100000 and 100000.
pub patch-points :
    (config w v : Json) (k : String)
    → patch config ≡ done tt
    → value "points" (values_of config) ≡ some w
    → value k (values_of w) ≡ some v
    → (any (str_eq k) point_numbers ≡ true) × ((v ≡ null) ⊎ IsCoordinates 2 v)
unfolding patch_section
patch-points config w v k h e f =
    let accepted : points w ≡ done tt = (patch-section config "points" w h e).1 in
    let (known, fine) = all_points-value k v (values_of w) (points_accepted w accepted) f in
    (known, null_or_coordinates_lem v 2 fine)

-- Every zone of a configuration that `patch` accepts is Z, X, C or V, and is null or four integers
-- between -100000 and 100000.
pub patch-zones :
    (config w v : Json) (k : String)
    → patch config ≡ done tt
    → value "zones" (values_of config) ≡ some w
    → value k (values_of w) ≡ some v
    → (any (str_eq k) ("Z" ∷ "X" ∷ "C" ∷ "V" ∷ []) ≡ true) × ((v ≡ null) ⊎ IsCoordinates 4 v)
unfolding patch_section section_value
patch-zones config w v k h e f =
    let (a, b) =
      before_done (fields w (keys_of "zones")) (section_values "zones" (values_of w))
        (patch-section config "zones" w h e).1 in
    let fine : null_or_coordinates v 4 ≡ done tt =
      section_values-value "zones" k v (values_of w) b f in
    (
      all_known-value k v (keys_of "zones") (values_of w) (fields-known w (keys_of "zones") a) f,
      null_or_coordinates_lem v 4 fine,
    )
