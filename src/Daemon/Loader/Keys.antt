-- ===== src/Daemon/Loader/Keys.antt =====
-- The steps of a keys sequence, a map that http-daemon/src/TaskJsonLoader.cpp writes with its keys as
-- texts: the map that is read back is the one written.
use text.Mathlib.Text.{◌==◌ as str_eq}
use text.Mathlib.TextEquality.{eq_iff}
use macrohelp.Base.{
  ℤ, String, some, Bool, true, false, ◌||◌, List, [], ◌∷◌, map, if◌then◌else◌, is_some, eqb_ℤ,
  eqb_ℤ_iff, ◌≡◌, refl, ap, ◌∙◌, arith,
}
use macrohelp.Base.Dict.{
  Dict, int_key, string_key, lookup, insert, lookup-insert, insert-Ascending, Ascending, KeysAbove,
  beq_refl,
}
use macrohelp.Base.Dict.Equal.{Ascending-ext}
use macrohelp.Base.Json.{
  Json, num, str, arr, Fields, end, field, set_field, items_of, fits_int, to_int,
}
use macrohelp.Daemon.Platform.{Platform}
use macrohelp.Daemon.Loader.{Tasket}
use macrohelp.Daemon.Loader.Read.{list_of, text_of, strings_of, add_step, entries_of, read_keys}
use macrohelp.Daemon.Loader.Write.{write_strings, write_keys}

pub list_of-items_of : (vs : List Json) → list_of (items_of vs) ≡ vs
unfolding list_of items_of
list_of-items_of [] = refl
list_of-items_of (v ∷ vs) = ap (λ r. v ∷ r) (list_of-items_of vs)

abbrev Steps : Type 0
Steps = Dict ℤ (ℤ × List String)

abbrev pub StepsFit : Steps → Type 0
StepsFit [] = Unit
StepsFit ((key, (delay, names)) ∷ m) = (fits_int key ≡ true) × (fits_int delay ≡ true) × StepsFit m

either : (P : Fields → Type 0) (b : Bool) (x y : Fields) → P x → P y → P (if b then x else y)
either P true x y px py = px
either P false x y px py = py

-- Each of these steps is that of `all`.
abbrev EntriesOf : Steps → Steps → Type 0
EntriesOf all [] = Unit
EntriesOf all ((key, q) ∷ m) = (lookup key all ≡ some q) × EntriesOf all m

EntriesOf-cons :
    (key : ℤ) (q : ℤ × List String) (all m : Steps)
    → KeysAbove key m
    → EntriesOf all m
    → EntriesOf ((key, q) ∷ all) m
unfolding lookup
EntriesOf-cons key q all [] a e = tt
EntriesOf-cons key q all ((k, r) ∷ m) (lt, a) (e, es) =
    (ground (arith, e, lt), EntriesOf-cons key q all m a es)

EntriesOf-self : (m : Steps) → Ascending m → EntriesOf m m
unfolding lookup
EntriesOf-self [] a = tt
EntriesOf-self ((k, q) ∷ m) (a, rest) =
    (rw (beq_refl int_key k) refl, EntriesOf-cons k q m m a (EntriesOf-self m rest))

module _ {F A D : Type 0} (p : Platform F) (t : Tasket A D) where
  map-text_of : (ss : List String) → map (text_of p t) (map str ss) ≡ ss
  map-text_of [] = refl
  map-text_of (s ∷ ss) = ap (λ r. s ∷ r) (map-text_of ss)

  pub strings_of-write_strings : (ss : List String) → strings_of p t (some (write_strings ss)) ≡ ss
  unfolding strings_of write_strings
  strings_of-write_strings ss = rw list_of-items_of (map-text_of ss)

  abbrev written_step : ℤ × List String → Json
  written_step q = arr (items_of (num q.0 ∷ write_strings q.1 ∷ []))

  -- Reading the entry of a step sets the step.
  add_step-written :
      (key : String) (q : ℤ × List String) (m : Steps)
      → fits_int q.0 ≡ true
      → add_step p t key (entries_of (some (written_step q))) m ≡ insert (p.to_int key) q m
  unfolding to_int
  add_step-written key (d, names) m h =
      rw list_of-items_of (rw h (rw strings_of-write_strings refl))

  add_step-Ascending :
      (key : String) (vs : List Json) (m : Steps) → Ascending m → Ascending (add_step p t key vs m)
  add_step-Ascending key [] m a = a
  add_step-Ascending key (x ∷ []) m a = a
  add_step-Ascending key (x ∷ y ∷ vs) m a = insert-Ascending _ _ m a

  -- Each field is the entry of a step of `m`.
  abbrev FieldsOf : Steps → Fields → Type 0
  FieldsOf m end = Unit
  FieldsOf m (field key v fs) =
      ((q : ℤ × List String) × (lookup (p.to_int key) m ≡ some q)
        × (v ≡ written_step q)
        × (fits_int q.0 ≡ true))
      × FieldsOf m fs

  abbrev occurs : ℤ → Fields → Bool
  occurs k end = false
  occurs k (field key v fs) = eqb_ℤ (p.to_int key) k || occurs k fs

  lookup-read_keys :
      (m : Steps) (fs : Fields) (acc : Steps) (k : ℤ)
      → FieldsOf m fs
      → lookup k (read_keys p t fs acc) ≡ (if occurs k fs then lookup k m else lookup k acc)
  unfolding read_keys
  lookup-read_keys m end acc k _ = refl
  lookup-read_keys m (field key v fs) acc k ((q, found, e, f), rest) =
      rw (e, add_step-written key q acc f, lookup-read_keys m fs _ k rest, lookup-insert)
        (ground (arith, found, eqb_ℤ_iff (p.to_int key) k))

  occurs-set_field :
      (k : ℤ) (key : String) (v : Json) (fs : Fields)
      → occurs k (set_field key v fs) ≡ (eqb_ℤ (p.to_int key) k || occurs k fs)
  unfolding set_field
  occurs-set_field k key v end = refl
  occurs-set_field k key v (field j w fs) =
      ground (arith, eq_iff j key, occurs-set_field k key v fs)

  FieldsOf-set_field :
      (m : Steps) (key : String) (q : ℤ × List String) (fs : Fields)
      → lookup (p.to_int key) m ≡ some q
      → fits_int q.0 ≡ true
      → FieldsOf m fs
      → FieldsOf m (set_field key (written_step q) fs)
  unfolding set_field
  FieldsOf-set_field m key q end h f _ = ((q, h, refl, f), tt)
  FieldsOf-set_field m key q (field j w fs) h f (a, rest) =
      let v = written_step q in
      let new : (q' : ℤ × List String) × (lookup (p.to_int key) m ≡ some q')
          × (v ≡ written_step q')
          × (fits_int q'.0 ≡ true) =
        (q, h, refl, f) in
      let rest' = FieldsOf-set_field m key q fs h f rest in
      either (FieldsOf m) (str_eq j key) (field key v fs) _ (new, rest)
        (either (FieldsOf m) (string_key.before key j) (field key v (field j w fs))
          (field j w (set_field key v fs)) (new, (a, rest)) (a, rest'))

  module _ (read_back : (n : ℤ) → fits_int n ≡ true → p.to_int (p.show_int n) ≡ n) where
    occurs-write_keys :
        (k : ℤ) (m : Steps) (fs : Fields)
        → StepsFit m
        → occurs k (write_keys p t m fs) ≡ (is_some (lookup k m) || occurs k fs)
    unfolding write_keys lookup
    occurs-write_keys k [] fs h = refl
    occurs-write_keys k ((key, (delay, names)) ∷ m) fs (f, _, rest) =
        occurs-write_keys k m _ rest ∙ rw (occurs-set_field, read_back key f) (ground (arith))

    FieldsOf-write_keys :
        (all m : Steps) (fs : Fields)
        → StepsFit m
        → EntriesOf all m
        → FieldsOf all fs
        → FieldsOf all (write_keys p t m fs)
    unfolding write_keys
    FieldsOf-write_keys all [] fs h e a = a
    FieldsOf-write_keys all ((key, (delay, names)) ∷ m) fs (f, g, rest) (e, es) a =
        FieldsOf-write_keys all m _ rest es
          (FieldsOf-set_field all (p.show_int key) (delay, names) fs (rw (read_back key f) e) g a)

    read_keys-Ascending :
        (fs : Fields) (acc : Steps) → Ascending acc → Ascending (read_keys p t fs acc)
    unfolding read_keys
    read_keys-Ascending end acc a = a
    read_keys-Ascending (field key v fs) acc a =
        read_keys-Ascending fs _ (add_step-Ascending key (entries_of (some v)) acc a)

    pub read_keys-write_keys :
        (m : Steps) → Ascending m → StepsFit m → read_keys p t (write_keys p t m end) [] ≡ m
    unfolding lookup
    read_keys-write_keys m a f =
        Ascending-ext _ m (read_keys-Ascending (write_keys p t m end) [] tt) a λ k.
          lookup-read_keys m (write_keys p t m end) [] k
            (FieldsOf-write_keys m m end f (EntriesOf-self m a) tt)
          ∙ rw (occurs-write_keys k m end f) (ground arith)
