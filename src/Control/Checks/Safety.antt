-- ===== src/Control/Checks/Safety.antt =====
-- What `textSafety` accepts: a document of fewer than 64 levels whose texts have no NUL.
use macrohelp.Base.{ℕ, ◌+◌, ◌<◌, ltb, String, Bool, true, not, ◌≡◌, ◌↔◌, refl, arith, if◌then◌else◌}
use macrohelp.Base.Json.{
  Json, Items, Fields, null, bool, num, real, str, arr, obj, nil, cons, end, field,
}
use macrohelp.Control.Checked.{done}
use macrohelp.Control.Checks.{has_nul, text_safety, items_safety, fields_safety}

abbrev larger : ℕ → ℕ → ℕ
larger a b = if ltb a b then b else a

-- The levels of nesting below a document.
unfoldable mutual
  pub levels : Json → ℕ
  levels (arr vs) = items_levels vs
  levels (obj fs) = fields_levels fs
  levels null = 0
  levels (bool b) = 0
  levels (num n) = 0
  levels (real t) = 0
  levels (str t) = 0

  items_levels : Items → ℕ
  items_levels nil = 0
  items_levels (cons v vs) = larger (levels v + 1) (items_levels vs)

  fields_levels : Fields → ℕ
  fields_levels end = 0
  fields_levels (field k v fs) = larger (levels v + 1) (fields_levels fs)

-- Every text of a document passes a test.
unfoldable mutual
  pub TextsPass : (String → Bool) → Json → Type 0
  TextsPass p (str t) = p t ≡ true
  TextsPass p (arr vs) = ItemsPass p vs
  TextsPass p (obj fs) = FieldsPass p fs
  TextsPass p null = Unit
  TextsPass p (bool b) = Unit
  TextsPass p (num n) = Unit
  TextsPass p (real t) = Unit

  ItemsPass : (String → Bool) → Items → Type 0
  ItemsPass p nil = Unit
  ItemsPass p (cons v vs) = TextsPass p v × ItemsPass p vs

  FieldsPass : (String → Bool) → Fields → Type 0
  FieldsPass p end = Unit
  FieldsPass p (field k v fs) = TextsPass p v × FieldsPass p fs

abbrev pub no_nul : String → Bool
no_nul t = not (has_nul t)

mutual
  unfolding text_safety levels TextsPass

  safe_there :
      (v : Json) (d : ℕ) → text_safety v d ≡ done tt → (d + levels v < 64) × TextsPass no_nul v
  safe_there (str t) d h = ground arith
  safe_there null d h = ground arith
  safe_there (bool b) d h = ground arith
  safe_there (num n) d h = ground arith
  safe_there (real t) d h = ground arith
  safe_there (arr vs) d h = ground (arith, items_there vs (d + 1))
  safe_there (obj fs) d h = ground (arith, fields_there fs (d + 1))

  items_there :
      (vs : Items) (d : ℕ)
      → d < 65
      → items_safety vs d ≡ done tt
      → (d + items_levels vs < 65) × ItemsPass no_nul vs
  items_there nil d l h = (omega arith, tt)
  items_there (cons v vs) d l h = ground (arith, safe_there v d, items_there vs d)

  fields_there :
      (fs : Fields) (d : ℕ)
      → d < 65
      → fields_safety fs d ≡ done tt
      → (d + fields_levels fs < 65) × FieldsPass no_nul fs
  fields_there end d l h = (omega arith, tt)
  fields_there (field k v fs) d l h = ground (arith, safe_there v d, fields_there fs d)

mutual
  unfolding text_safety levels TextsPass

  safe_back :
      (v : Json) (d : ℕ) → d + levels v < 64 → TextsPass no_nul v → text_safety v d ≡ done tt
  safe_back (str t) d l h = ground arith
  safe_back null d l h = ground arith
  safe_back (bool b) d l h = ground arith
  safe_back (num n) d l h = ground arith
  safe_back (real t) d l h = ground arith
  safe_back (arr vs) d l h = ground (arith, items_back vs (d + 1))
  safe_back (obj fs) d l h = ground (arith, fields_back fs (d + 1))

  items_back :
      (vs : Items) (d : ℕ)
      → d + items_levels vs < 65
      → ItemsPass no_nul vs
      → items_safety vs d ≡ done tt
  items_back nil d l h = refl
  items_back (cons v vs) d l (p, q) = ground (arith, safe_back v d, items_back vs d)

  fields_back :
      (fs : Fields) (d : ℕ)
      → d + fields_levels fs < 65
      → FieldsPass no_nul fs
      → fields_safety fs d ≡ done tt
  fields_back end d l h = refl
  fields_back (field k v fs) d l (p, q) = ground (arith, safe_back v d, fields_back fs d)

-- `textSafety` accepts exactly the documents of fewer than 64 levels of nesting in which no text,
-- keys aside, has a NUL.
pub text_safety_lem :
    (v : Json) → (text_safety v 0 ≡ done tt) ↔ ((levels v < 64) × TextsPass no_nul v)
text_safety_lem v = (
  λ h. (omega (arith, (safe_there v 0 h).0), (safe_there v 0 h).1),
  λ q. safe_back v 0 (omega (arith, q.0)) q.1,
)
