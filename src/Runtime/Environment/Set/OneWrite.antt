-- ===== src/Runtime/Environment/Set/OneWrite.antt =====
-- `{set ...}` of runtime/source/src/main.cpp writes one variable, within its array, or none.
use macrohelp.Base.{
  ℕ, ◌<◌, ℤ, pos, negsuc, Bool, true, false, ◌&&◌, ◌||◌, Option, none, some, [], is_some, all,
  if◌then◌else◌, ◌≡◌, refl, arith,
}
use macrohelp.Runtime.Text.{Text, bytes, text_eq, lower_ascii}
use macrohelp.Runtime.Decimal.{is_digit, atoi}
use macrohelp.Runtime.Coordinates.{Point}
use macrohelp.Runtime.Environment.{System, Environment, set_at, if_slot, or_default}
use macrohelp.Runtime.Places.{
  in_range, var_slot, paste_slot, point_index, point_number, compact_name,
}
use macrohelp.Runtime.Environment.Set.{
  Outcome, refused, done, if_some, Parts, point_of, zone_of, set_shell, set_shell_slot, set_named,
  set_target, set_parts, lacks_part, without_buf, parts_of, expand_value, apply_set, put_var,
  put_paste, put_zone, put_point,
}

-- The single writes, each with its value.
pub data OneWrite : Type 0 where
  var : ℕ → Text → OneWrite
  paste : ℕ → Text → OneWrite
  zone : ℕ → Point × Point → OneWrite
  point : ℕ → Point → OneWrite
  registry : Text → OneWrite
  shell_x : Text → OneWrite
  shell_c : Text → OneWrite
  shell_g : Text → OneWrite

abbrev pub perform : OneWrite → Environment → Environment
perform (var i v) s = record s { vars = set_at s.vars i (λ o. v) }
perform (paste i v) s = record s { pastes = set_at s.pastes i (λ o. v) }
perform (zone i c) s = record s {
  zones = set_at s.zones i (λ o. record { set = true; corners = c });
}
perform (point i c) s = record s {
  spots = set_at s.spots i (λ o. record { set = true; point = c });
}
perform (registry v) s = record s { registry_path = v }
perform (shell_x v) s = record s { shell_x = v }
perform (shell_c v) s = record s { shell_c = v }
perform (shell_g v) s = record s { shell_g = v }

abbrev pub IsInRange : OneWrite → Type 0
IsInRange (var i v) = i < 4
IsInRange (paste i v) = i < 4
IsInRange (zone i c) = i < 4
IsInRange (point i c) = i < 16
IsInRange _ = Unit

-- An outcome that is done is one write in range.
pub record WritesOnce (s : Environment) (o : Outcome) : Type 0 where
  pub write : (e : Environment) → o ≡ done e → (w : OneWrite) × IsInRange w × (e ≡ perform w s)

refused-WritesOnce : (s : Environment) (m : Text) → WritesOnce s (refused m)
refused-WritesOnce s m = record { write = λ e h. absurd (cc) }

perform-WritesOnce :
    (s : Environment) (w : OneWrite) → IsInRange w → WritesOnce s (done (perform w s))
perform-WritesOnce s w r = record { write = λ e h. (w, r, cc) }

either {ℓ κ} :
    {A : Type ℓ} (P : A → Type κ) (b : Bool) (x y : A) → P x → P y → P (if b then x else y)
either P true x y px py = px
either P false x y px py = py

slot_cases :
    (P : Outcome → Type 0) (o : Option ℕ) (f : ℕ → Outcome) (d : Outcome)
    → ((i : ℕ) → o ≡ some i → P (f i))
    → P d
    → P (if_slot o f d)
slot_cases P none f d h k = k
slot_cases P (some i) f d h k = h i refl

some_cases {ℓ} :
    {A : Type ℓ} (sys : System) (P : Outcome → Type 0) (o : Option A) (f : A → Outcome)
    (d : Outcome)
    → ((a : A) → P (f a))
    → P d
    → P (if_some sys o f d)
some_cases sys P none f d h k = k
some_cases sys P (some a) f d h k = h a

-- A slot that is found is under a bound.
record Under (b : ℕ) (o : Option ℕ) : Type 0 where
  bound : (i : ℕ) → o ≡ some i → i < b

none-Under : (b : ℕ) → Under b none
none-Under b = record { bound = λ i h. absurd (cc) }

some-Under : (b i : ℕ) → i < b → Under b (some i)
some-Under b i l = record { bound = λ j h. ground (arith, l, h) }

four_slots :
    (a b c d : Bool)
    → Under 4 (
        if a
        then some 0
        else if b
        then some 1
        else if c
        then some 2
        else if d
        then some 3
        else none)
four_slots true b c d = some-Under 4 0 (omega arith)
four_slots false true c d = some-Under 4 1 (omega arith)
four_slots false false true d = some-Under 4 2 (omega arith)
four_slots false false false true = some-Under 4 3 (omega arith)
four_slots false false false false = none-Under 4

var_slot-Under : (t : Text) → Under 4 (var_slot t)
unfolding var_slot
var_slot-Under t = four_slots _ _ _ _

paste_slot-Under : (t : Text) → Under 4 (paste_slot t)
unfolding paste_slot
paste_slot-Under t = four_slots _ _ _ _

in_range-Under : (n : ℤ) → Under 16 (in_range n)
in_range-Under (pos n) = record { bound = λ i h. ground (arith, h) }
in_range-Under (negsuc n) = none-Under 16

index_cases : (a b : Bool) (n : ℤ) → Under 16 (if a then none else if b then in_range n else none)
index_cases true b n = none-Under 16
index_cases false true n = in_range-Under n
index_cases false false n = none-Under 16

point_number-Under : (t : Text) → Under 16 (point_number t)
unfolding point_number
point_number-Under t = index_cases (text_eq t []) (all is_digit t) (atoi t)

point_index-Under : (t : Text) → Under 16 (point_index t)
unfolding point_index
point_index-Under t = point_number-Under (compact_name t)

module _ (sys : System) (s : Environment) where
  set_shell-WritesOnce : (target v : Text) → WritesOnce s (set_shell sys target v s)
  unfolding set_shell
  set_shell-WritesOnce target v =
      either (WritesOnce s) _ _ _ (perform-WritesOnce s (shell_x (sys.wide v)) tt) (
        either (WritesOnce s) _ _ _
          (perform-WritesOnce s (shell_c (or_default sys (bytes "cmd") (sys.wide v))) tt)
          (either (WritesOnce s) _ _ _ (perform-WritesOnce s (shell_g (sys.wide v)) tt)
            (refused-WritesOnce s _)))

  set_shell_slot-WritesOnce :
      (slot v : Text) (o : Outcome) → WritesOnce s o → WritesOnce s (set_shell_slot sys slot v s o)
  unfolding set_shell_slot
  set_shell_slot-WritesOnce slot v o h =
      either (WritesOnce s) _ _ _ (perform-WritesOnce s (shell_x (sys.wide v)) tt) (
        either (WritesOnce s) _ _ _
          (perform-WritesOnce s (shell_c (or_default sys (bytes "cmd") (sys.wide v))) tt)
          (either (WritesOnce s) _ _ _ (perform-WritesOnce s (shell_g (sys.wide v)) tt) h))

  put_var-WritesOnce :
      (v t : Text) (d : Outcome)
      → WritesOnce s d
      → WritesOnce s (if_slot (var_slot t) (put_var sys v s) d)
  put_var-WritesOnce v t d h =
      slot_cases (WritesOnce s) (var_slot t) (put_var sys v s) d
        (λ i e. perform-WritesOnce s (var i (sys.wide v)) ((var_slot-Under t).bound i e)) h

  put_paste-WritesOnce :
      (v t : Text) (d : Outcome)
      → WritesOnce s d
      → WritesOnce s (if_slot (paste_slot t) (put_paste sys v s) d)
  put_paste-WritesOnce v t d h =
      slot_cases (WritesOnce s) (paste_slot t) (put_paste sys v s) d
        (λ i e. perform-WritesOnce s (paste i (sys.wide v)) ((paste_slot-Under t).bound i e)) h

  put_zone-WritesOnce :
      (o : Option (Point × Point)) (t : Text) (d : Outcome)
      → WritesOnce s d
      → WritesOnce s (if_slot (paste_slot t) (λ i. if_some sys o (put_zone sys s i) d) d)
  put_zone-WritesOnce o t d h =
      slot_cases (WritesOnce s) (paste_slot t) (λ i. if_some sys o (put_zone sys s i) d) d
        (λ i e.
          some_cases sys (WritesOnce s) o (put_zone sys s i) d
            (λ c. perform-WritesOnce s (zone i c) ((paste_slot-Under t).bound i e)) h)
        h

  put_point-WritesOnce :
      (o : Option Point) (t : Text) (d : Outcome)
      → WritesOnce s d
      → WritesOnce s (if_slot (point_index t) (λ i. if_some sys o (put_point sys s i) d) d)
  put_point-WritesOnce o t d h =
      slot_cases (WritesOnce s) (point_index t) (λ i. if_some sys o (put_point sys s i) d) d
        (λ i e.
          some_cases sys (WritesOnce s) o (put_point sys s i) d
            (λ c. perform-WritesOnce s (point i c) ((point_index-Under t).bound i e)) h)
        h

  set_named-WritesOnce :
      (target : Text) (p : Parts) (v : Text) → WritesOnce s (set_named sys target p v s)
  unfolding set_named
  set_named-WritesOnce target p v =
      let shells = set_shell-WritesOnce target v in
      let shell =
        either (WritesOnce s) (text_eq target (bytes "shell") && p.qualified) _ _
          (set_shell_slot-WritesOnce (lower_ascii p.argument) v _ shells) shells in
      let registry' =
        either (WritesOnce s) (text_eq target (bytes "registry")) _ _
          (perform-WritesOnce s (registry (sys.expand_path (sys.wide v))) tt) shell in
      let point' =
        either (WritesOnce s) (text_eq target (bytes "point") && p.qualified) _ _
          (put_point-WritesOnce (point_of sys (sys.wide v) s) p.argument _ registry') registry' in
      let zone' =
        either (WritesOnce s) (text_eq target (bytes "zone") && p.qualified) _ _
          (put_zone-WritesOnce (zone_of sys (sys.wide v) s) (lower_ascii p.argument) _ point')
          point' in
      either (WritesOnce s)
        ((text_eq target (bytes "paste") || text_eq target (bytes "buffer")) && p.qualified) _ _
        (put_paste-WritesOnce v p.argument _ zone') zone'

  set_target-WritesOnce :
      (target : Text) (p : Parts) (v : Text) → WritesOnce s (set_target sys target p v s)
  unfolding set_target
  set_target-WritesOnce target p v =
      put_var-WritesOnce v target _
        (put_paste-WritesOnce v target _ (set_named-WritesOnce target p v))

  set_parts-WritesOnce : (p : Parts) (v : Text) → WritesOnce s (set_parts sys p v s)
  unfolding set_parts
  set_parts-WritesOnce p v = either (WritesOnce s) (lacks_part sys p) _ _ (refused-WritesOnce s _) (
      either (WritesOnce s) (text_eq p.target (bytes "var")) _ _
        (either (WritesOnce s) (is_some (var_slot (lower_ascii p.argument))) _ _
          (set_target-WritesOnce (without_buf (lower_ascii p.argument)) p v)
          (refused-WritesOnce s _))
        (set_target-WritesOnce (without_buf p.target) p v))

  -- Whatever the token and the environment: what `{set ...}` does is one write of one variable, within
  -- its array, or it is refused.
  pub apply_set-WritesOnce : (token : Text) → WritesOnce s (apply_set sys token s)
  unfolding apply_set
  apply_set-WritesOnce token =
      set_parts-WritesOnce (parts_of token) (expand_value sys (parts_of token).value s)
