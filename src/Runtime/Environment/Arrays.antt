-- ===== src/Runtime/Environment/Arrays.antt =====
-- The lines of a whole array of an environment, read one after the other.
use macrohelp.Base.{
  ℕ, suc, ◌+◌, ◌≤◌, ◌<◌, Bool, true, false, List, [], ◌∷◌, ◌++◌, length, All, if◌then◌else◌, ◌≡◌,
  refl, ap, ◌∙◌, arith,
}
use macrohelp.Runtime.Text.{Text, bytes}
use macrohelp.Runtime.Decimal.{is_ascii}
use macrohelp.Runtime.Coordinates.{
  Point, PointFits, print_point, print_zone, parse_point-print_point, parse_zone-print_zone,
  parse_point_empty, parse_zone_empty, print_point_ascii, print_zone_ascii,
}
use macrohelp.Runtime.Environment.{
  System, Environment, Zone, Spot, set_at, parse_bool, apply_all, set_zone, set_spot,
}
use macrohelp.Runtime.Environment.Write.{
  var_lines, paste_lines, zone_lines, spot_lines, paste_key, spot_name, flag, zone_value,
  spot_value,
}
use macrohelp.Runtime.Environment.Slots.{
  merge, named, set_at-set_at, apply_var, apply_paste, apply_zone_set, apply_zone, apply_spot_set,
  apply_spot,
}

pub parse_bool-flag : (b : Bool) → parse_bool (flag b) ≡ b
unfolding parse_bool
parse_bool-flag true = refl
parse_bool-flag false = refl

-- What a written zone and a written point leave of the old one: the coordinates, if none are set.
abbrev pub over_zone : Zone → Zone → Zone
over_zone z o = record { set = z.set; corners = if z.set then z.corners else o.corners }

abbrev pub over_spot : Spot → Spot → Spot
over_spot p o = record { set = p.set; point = if p.set then p.point else o.point }

abbrev pub ZoneFits : Zone → Type 0
ZoneFits z = PointFits z.corners.0 × PointFits z.corners.1

abbrev pub SpotFits : Spot → Type 0
SpotFits p = PointFits p.point

module _ (sys : System) where
  abbrev with_vars : List Text → Environment → Environment
  with_vars vs s = record s { vars = vs }

  abbrev pub rewritten : Text → Text → Text
  rewritten v o = sys.wide (sys.utf8 v)

  pub apply_all-var_lines :
      (i : ℕ) (vs : List Text) (rest : List (Text × Text)) (s : Environment)
      → i + length vs ≤ 4
      → apply_all sys (var_lines sys i vs ++ rest) s
        ≡ apply_all sys rest (record s { vars = merge rewritten i vs s.vars })
  unfolding apply_all var_lines
  apply_all-var_lines i [] rest s h = refl
  apply_all-var_lines i (v ∷ vs) rest s h =
      ap (apply_all sys (var_lines sys (suc i) vs ++ rest))
        (apply_var sys (sys.utf8 v) s i (omega arith))
      ∙ apply_all-var_lines (suc i) vs rest _ (omega arith)

  pub apply_all-paste_lines :
      (i : ℕ) (vs : List Text) (rest : List (Text × Text)) (s : Environment)
      → i + length vs ≤ 4
      → apply_all sys (paste_lines sys i vs ++ rest) s
        ≡ apply_all sys rest (record s { pastes = merge rewritten i vs s.pastes })
  unfolding apply_all paste_lines
  apply_all-paste_lines i [] rest s h = refl
  apply_all-paste_lines i (v ∷ vs) rest s h =
      ap (apply_all sys (paste_lines sys (suc i) vs ++ rest))
        (apply_paste sys (sys.utf8 v) s i (omega arith))
      ∙ apply_all-paste_lines (suc i) vs rest _ (omega arith)

  module _ (ascii : (t : Text) → is_ascii t ≡ true → sys.wide t ≡ t) where
    set_zone-written :
        (b : Bool) (c : Point × Point) (i : ℕ) (s : Environment)
        → PointFits c.0
        → PointFits c.1
        → set_zone sys
            (sys.wide (zone_value (record { set = b; corners = c })))
            i
            (record s { zones = set_at s.zones i (λ o. record o { set = b }) })
          ≡ record s { zones = set_at s.zones i (over_zone (record { set = b; corners = c })) }
    set_zone-written true c i s h k =
        rw (ascii (print_zone c) (print_zone_ascii c), parse_zone-print_zone c h k)
          (ap (λ zs. record s { zones = zs }) (set_at-set_at s.zones i _ _))
    set_zone-written false c i s h k = rw (ascii [] refl, parse_zone_empty) refl

    pub apply_all-zone_lines :
        (i : ℕ) (zs : List Zone) (rest : List (Text × Text)) (s : Environment)
        → i + length zs ≤ 4
        → All ZoneFits zs
        → apply_all sys (zone_lines i zs ++ rest) s
          ≡ apply_all sys rest (record s { zones = merge over_zone i zs s.zones })
    unfolding apply_all zone_lines
    apply_all-zone_lines i [] rest s h f = refl
    apply_all-zone_lines i (z ∷ zs) rest s h ((f, g), fs) =
        let lt : i < 4 = omega arith in
        let first =
          apply_zone_set sys (flag z.set) s i lt
          ∙ ap (λ b. record s { zones = set_at s.zones i (λ o. record o { set = b }) })
              (parse_bool-flag z.set) in
        ap
          (λ r.
            apply_all sys (zone_lines (suc i) zs ++ rest)
              (named sys (bytes "Zone" ++ paste_key i) (zone_value z) r))
          first
        ∙ (ap (apply_all sys (zone_lines (suc i) zs ++ rest))
              (apply_zone sys (zone_value z) _ i lt ∙ set_zone-written z.set z.corners i s f g)
            ∙ apply_all-zone_lines (suc i) zs rest _ (omega arith) fs)

    set_spot-written :
        (b : Bool) (c : Point) (i : ℕ) (s : Environment)
        → PointFits c
        → set_spot sys
            (sys.wide (spot_value (record { set = b; point = c })))
            i
            (record s { spots = set_at s.spots i (λ o. record o { set = b }) })
          ≡ record s { spots = set_at s.spots i (over_spot (record { set = b; point = c })) }
    set_spot-written true c i s h =
        rw (ascii (print_point c) (print_point_ascii c), parse_point-print_point c h)
          (ap (λ ps. record s { spots = ps }) (set_at-set_at s.spots i _ _))
    set_spot-written false c i s h = rw (ascii [] refl, parse_point_empty) refl

    pub apply_all-spot_lines :
        (i : ℕ) (ps : List Spot) (rest : List (Text × Text)) (s : Environment)
        → i + length ps ≤ 16
        → All SpotFits ps
        → apply_all sys (spot_lines i ps ++ rest) s
          ≡ apply_all sys rest (record s { spots = merge over_spot i ps s.spots })
    unfolding apply_all spot_lines
    apply_all-spot_lines i [] rest s h f = refl
    apply_all-spot_lines i (p ∷ ps) rest s h (f, fs) =
        let lt : i < 16 = omega arith in
        let first =
          apply_spot_set sys (flag p.set) s i lt
          ∙ ap (λ b. record s { spots = set_at s.spots i (λ o. record o { set = b }) })
              (parse_bool-flag p.set) in
        ap
          (λ r.
            apply_all sys (spot_lines (suc i) ps ++ rest)
              (named sys (spot_name i) (spot_value p) r))
          first
        ∙ (ap (apply_all sys (spot_lines (suc i) ps ++ rest))
              (apply_spot sys (spot_value p) _ i lt ∙ set_spot-written p.set p.point i s f)
            ∙ apply_all-spot_lines (suc i) ps rest _ (omega arith) fs)
