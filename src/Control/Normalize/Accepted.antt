-- ===== src/Control/Normalize/Accepted.antt =====
-- What a normalized request is.

use text.Mathlib.TextEquality.{eq_iff}
use macrohelp.Base.{
  ℤ, pos, leb, ◌==◌, String, some, ◌&&◌, ◌||◌, not, ◌≡◌, inl, inr, refl, sym, ◌∙◌, subst, arith,
  if◌then◌else◌, Bool-cases, Option-cases, [], ◌∷◌,
}
use macrohelp.Base.Json.{
  Json, Fields, null, bool, num, real, str, arr, obj, nil, end, value, contains, value-set_field,
}
use macrohelp.Control.Checked.{Checked, done, thrown, then_with, Checked-cases}
use macrohelp.Control.Csv.{Command}
use macrohelp.Control.Csv.Termination.{csv-total}
use macrohelp.Control.Checks.{Verdict, before, require, fields, text_safety, patch, values_of, size}
use macrohelp.Control.Normalize.{
  Encoding, with_default, value_or, with_flag, finish, with_menu, normalize_object, normalize,
  all_inputs, if_given, is_array, items, check_run, check_no_replace, check_origin, request_of,
}

before_done :
    {A : Type 0} (c : Verdict) (d : Checked A) (x : A)
    → before c d ≡ done x
    → (c ≡ done tt) × (d ≡ done x)
before_done (done tt) d x h = (refl, h)
before_done (thrown s m) d x h = cc

done-injective : {A : Type 0} {x y : A} → done x ≡ done y → x ≡ y
done-injective p = cc

some-injective : {A : Type 0} {x y : A} → some x ≡ some y → x ≡ y
some-injective p = cc

thrown-done : {A : Type 0} {x : A} {s : ℤ} {m : String} → thrown s m ≡ done x → ⊥
thrown-done p = cc

-- A field with a default is there.
with_default_there :
    (k : String) (d : Json) (fs : Fields)
    → value k (with_default k d fs) ≡ some (value_or k null (with_default k d fs))
unfolding contains
with_default_there k d fs = elim (Option-cases (value k fs)) [
  | inl e ↦ ground (arith, e, value-set_field k k d fs, eq_iff k k)
  | inr (v, e) ↦ ground (arith, e)
]

-- The flag leaves the configuration.
config_stays : (fs : Fields) → value "config" (with_flag fs) ≡ value "config" fs
config_stays fs = elim (Bool-cases (not (contains "run" fs) || contains "no_replace" fs)) [
  | inl e ↦ rw (e, with_flag) (value-set_field "no_replace" "config" _ fs)
  | inr e ↦ rw (e, with_flag)
]

-- An accepted request: a configuration that `patch` accepts.
abbrev pub HasConfig : Json → Type 0
HasConfig q = (c : Json) × (value "config" (values_of q) ≡ some c) × (patch c ≡ done tt)

module _ (e : Encoding) where
  finish-HasConfig : (given : Fields) (q : Json) → finish e given ≡ done q → HasConfig q
  unfolding finish
  finish-HasConfig given q h =
      let fs = with_default "inputs" (arr nil) given in
      let inputs = value_or "inputs" null fs in
      let gs = with_default "config" (obj end) fs in
      let config = value_or "config" null gs in
      let last : Checked Json =
        (if leb (e.dump_size (obj gs)) 1048576
          then done (obj (with_flag gs))
          else thrown (pos 413) "Control request exceeds 1 MiB") in
      let c6 = if_given "origin" gs check_origin in
      let c4 = if_given "no_replace" fs check_no_replace in
      let c3 = all_inputs e (items inputs) in
      let c2 =
        require (contains "menu" fs || (contains "run" fs || size (items inputs) == 0))
          "Choose a menu when supplying inputs" in
      let c1 =
        require (is_array inputs && leb (size (items inputs)) 256)
          "inputs must be an array of at most 256 entries" in
      let d5 = before (patch config) (before c6 last) in
      let d4 = before c4 d5 in
      let d3 = before c3 d4 in
      let h1 = (before_done c1 (before c2 d3) q h).1 in
      let h2 = (before_done c2 d3 q h1).1 in
      let h3 = (before_done c3 d4 q h2).1 in
      let h4 = (before_done c4 d5 q h3).1 in
      let (passes, h5) = before_done (patch config) (before c6 last) q h4 in
      let h6 = (before_done c6 last q h5).1 in
      elim (Bool-cases (leb (e.dump_size (obj gs)) 1048576)) [
        | inl fits ↦
            let same : obj (with_flag gs) ≡ q = done-injective (rw fits at h6) in
            (
              config,
              subst (λ x. value "config" (values_of x) ≡ some config) same
                  (config_stays gs ∙ with_default_there "config" (obj end) fs),
              passes,
            )
        | inr large ↦ absurd (thrown-done (rw large at h6))
      ]

  object-HasConfig : (r q : Json) → normalize_object e r ≡ done q → HasConfig q
  unfolding normalize_object
  object-HasConfig r q h =
      let fs = values_of r in
      let rest : Checked Json = then_with (with_menu fs) (finish e) in
      let run = if_given "run" fs (check_run e) in
      let names = fields r ("menu" ∷ "inputs" ∷ "config" ∷ "no_replace" ∷ "origin" ∷ "run" ∷ []) in
      let h1 = (before_done names (before run rest) q h).1 in
      let h2 = (before_done run rest q h1).1 in
      elim (Checked-cases (with_menu fs)) [
        | inl (gs, k) ↦ finish-HasConfig gs q (rw k at h2)
        | inr (status, message, k) ↦ absurd (thrown-done (rw k at h2))
      ]

  json-HasConfig :
      (r q : Json) → before (text_safety r 0) (normalize_object e r) ≡ done q → HasConfig q
  json-HasConfig r q h =
      object-HasConfig r q (before_done (text_safety r 0) (normalize_object e r) q h).1

  line-HasConfig :
      (c : Checked Command) (q : Json)
      → then_with c (λ d. normalize_object e (request_of e d)) ≡ done q
      → HasConfig q
  line-HasConfig (done d) q h = object-HasConfig (request_of e d) q h
  line-HasConfig (thrown status message) q h = absurd (thrown-done h)

  outcome :
      (r : Json)
      → (x : Checked Json) × (normalize e r ≡ some x) × ((q : Json) → x ≡ done q → HasConfig q)
  unfolding normalize
  outcome (str t) = elim (Checked-cases (text_safety (str t) 0)) [
    | inr (status, message, k) ↦
        (thrown status message, rw (k, normalize), λ q h. absurd (thrown-done h))
    | inl (u, k) ↦
        let (c, read) = csv-total (e.bytes t) in
        (
          then_with c (λ d. normalize_object e (request_of e d)),
          rw (k, normalize) (rw read),
          λ q h. line-HasConfig c q h,
        )
  ]
  outcome null = (_, refl, json-HasConfig null)
  outcome (bool b) = (_, refl, json-HasConfig (bool b))
  outcome (num z) = (_, refl, json-HasConfig (num z))
  outcome (real t) = (_, refl, json-HasConfig (real t))
  outcome (arr vs) = (_, refl, json-HasConfig (arr vs))
  outcome (obj fs) = (_, refl, json-HasConfig (obj fs))

  -- `normalize` returns on every request: a request or an error.
  pub normalize-total : (r : Json) → (x : Checked Json) × (normalize e r ≡ some x)
  normalize-total r = let (x, returns, accepted) = outcome r in (x, returns)

  -- A request that `normalize` returns, from an object or from a line, has a configuration, and
  -- `patch` accepts it.
  pub normalize-HasConfig : (r q : Json) → normalize e r ≡ some (done q) → HasConfig q
  normalize-HasConfig r q h =
      let (x, returns, accepted) = outcome r in accepted q (some-injective (sym returns ∙ h))
