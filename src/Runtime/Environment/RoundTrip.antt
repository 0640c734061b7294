-- ===== src/Runtime/Environment/RoundTrip.antt =====
-- An exported environment is imported as it was, over any other.
use macrohelp.Base.{
  true, false, some, List, [], ◌∷◌, ◌++◌, length, All, append-nil, if◌then◌else◌, ◌≡◌, refl, ap,
  sym, ◌∙◌, arith,
}
use macrohelp.Base.Json.{fits_int}
use macrohelp.Runtime.Text.{Text, bytes}
use macrohelp.Runtime.Decimal.{is_ascii, atoi, print_int, atoi-print_int}
use macrohelp.Runtime.Environment.{
  System, Environment, is_blank, or_default, parse_bool, apply_setting, apply_all,
  import_environment,
}
use macrohelp.Runtime.Environment.Write.{
  Shown, flag, scalar_lines, environment_lines, environment_to_text, var_lines, paste_lines,
  zone_lines, spot_lines,
}
use macrohelp.Runtime.Environment.Lines.{read_lines-write_lines}
use macrohelp.Runtime.Environment.Names.{HasLengths, environment_lines-ArePlain}
use macrohelp.Runtime.Environment.Slots.{merge, zip_over, merge-zip_over}
use macrohelp.Runtime.Environment.Arrays.{
  over_zone, over_spot, ZoneFits, SpotFits, rewritten, parse_bool-flag, apply_all-var_lines,
  apply_all-paste_lines, apply_all-zone_lines, apply_all-spot_lines,
}

module _ (sys : System) where
  abbrev pub Kept : Text → Type 0
  Kept w = sys.wide (sys.utf8 w) ≡ w

  -- Its texts survive UTF-8, its numbers fit in `int`, and what an import replaces by a default or
  -- expands is not blank and has nothing to expand.
  pub record IsExportable (e : Environment) : Type 0 where
    pub registry_kept : Kept e.registry_path
    pub registry_there : is_blank e.registry_path ≡ false
    pub registry_expanded : sys.expand_path e.registry_path ≡ e.registry_path
    pub export_kept : Kept e.export_path
    pub export_there : is_blank e.export_path ≡ false
    pub import_kept : Kept e.import_path
    pub import_there : is_blank e.import_path ≡ false
    pub shell_x_kept : Kept e.shell_x
    pub shell_c_kept : Kept e.shell_c
    pub shell_c_there : is_blank e.shell_c ≡ false
    pub shell_g_kept : Kept e.shell_g
    pub script_kept : Kept e.script
    pub status_kept : Kept e.status
    pub number_fits : fits_int e.task_number ≡ true
    pub state_kept : Kept e.task_state
    pub message_kept : Kept e.task_message
    pub vars_kept : All Kept e.vars
    pub pastes_kept : All Kept e.pastes
    pub zones_fit : All ZoneFits e.zones
    pub spots_fit : All SpotFits e.spots

  -- The environment with the arrays of another.
  abbrev scalars_of : Environment → Environment → Environment
  scalars_of e s = record e { vars = s.vars; pastes = s.pastes; zones = s.zones; spots = s.spots }

  -- What the lines give before anything is known of the texts.
  abbrev imported : Environment → Environment → Environment
  imported e s = record s {
    registry_path =
        if is_blank (sys.wide (sys.utf8 e.registry_path))
        then sys.default_registry
        else sys.expand_path (sys.wide (sys.utf8 e.registry_path));
    export_path = or_default sys sys.default_environment (sys.wide (sys.utf8 e.export_path));
    import_path = or_default sys sys.default_environment (sys.wide (sys.utf8 e.import_path));
    shell_x = sys.wide (sys.utf8 e.shell_x);
    shell_c = or_default sys (bytes "cmd") (sys.wide (sys.utf8 e.shell_c));
    shell_g = sys.wide (sys.utf8 e.shell_g);
    script = sys.wide (sys.utf8 e.script);
    status = sys.wide (sys.utf8 e.status);
    task_number = atoi (print_int e.task_number);
    task_state = sys.wide (sys.utf8 e.task_state);
    task_message = sys.wide (sys.utf8 e.task_message);
    crosshair = parse_bool (flag e.crosshair);
    coord_panel = parse_bool (flag e.coord_panel);
    key_hud = parse_bool (flag e.key_hud);
    grid = parse_bool (flag e.grid);
    coordinates_only = parse_bool (flag e.coordinates_only);
  }

  apply_all-scalar_lines :
      (w : Shown) (e : Environment) (rest : List (Text × Text)) (s : Environment)
      → apply_all sys (scalar_lines sys w e ++ rest) s ≡ apply_all sys rest (imported e s)
  unfolding apply_all apply_setting
  apply_all-scalar_lines w e rest s = refl

  imported-scalars_of : (e s : Environment) → IsExportable e → imported e s ≡ scalars_of e s
  imported-scalars_of e s x =
      rw
        (
          x.registry_kept,
          x.registry_there,
          x.registry_expanded,
          x.export_kept,
          x.export_there,
          x.import_kept,
          x.import_there,
          x.shell_x_kept,
          x.shell_c_kept,
          x.shell_c_there,
          x.shell_g_kept,
          x.script_kept,
          x.status_kept,
          atoi-print_int e.task_number x.number_fits,
          x.state_kept,
          x.message_kept,
          parse_bool-flag e.crosshair,
          parse_bool-flag e.coord_panel,
          parse_bool-flag e.key_hud,
          parse_bool-flag e.grid,
          parse_bool-flag e.coordinates_only,
        )
        refl

  zip_over-rewritten :
      (vs old : List Text)
      → length vs ≡ length old
      → All Kept vs
      → zip_over (rewritten sys) vs old ≡ vs
  zip_over-rewritten [] old h k = refl
  zip_over-rewritten (v ∷ vs) [] h k = absurd (omega (arith, h))
  zip_over-rewritten (v ∷ vs) (o ∷ old) h (k, ks) =
      rw k (ap (λ r. v ∷ r) (zip_over-rewritten vs old (omega (arith, h)) ks))

  -- The environment that was written, with what the other has where no zone and no point is set.
  abbrev pub restored : Environment → Environment → Environment
  restored e s = record e {
    zones = zip_over over_zone e.zones s.zones;
    spots = zip_over over_spot e.spots s.spots;
  }

  abbrev merged_zones : Environment → Environment → Environment
  merged_zones e s = record e {
    vars = merge (rewritten sys) 0 e.vars s.vars;
    pastes = merge (rewritten sys) 0 e.pastes s.pastes;
    zones = merge over_zone 0 e.zones s.zones;
    spots = s.spots;
  }

  merged-restored :
      (e s : Environment)
      → IsExportable e
      → HasLengths e
      → HasLengths s
      → record (merged_zones e s) { spots = merge over_spot 0 e.spots s.spots } ≡ restored e s
  merged-restored e s x h k =
      rw
        (
          merge-zip_over (rewritten sys) e.vars s.vars (h.four_vars ∙ sym k.four_vars),
          merge-zip_over (rewritten sys) e.pastes s.pastes (h.four_pastes ∙ sym k.four_pastes),
          merge-zip_over over_zone e.zones s.zones (h.four_zones ∙ sym k.four_zones),
          merge-zip_over over_spot e.spots s.spots (h.sixteen_spots ∙ sym k.sixteen_spots),
          zip_over-rewritten e.vars s.vars (h.four_vars ∙ sym k.four_vars) x.vars_kept,
          zip_over-rewritten e.pastes s.pastes (h.four_pastes ∙ sym k.four_pastes) x.pastes_kept,
        )
        refl

  module _ (ascii : (t : Text) → is_ascii t ≡ true → sys.wide t ≡ t) where
    apply_all-environment_lines :
        (w : Shown) (e s : Environment)
        → IsExportable e
        → HasLengths e
        → HasLengths s
        → apply_all sys (environment_lines sys w e) s ≡ restored e s
    unfolding environment_lines apply_all
    apply_all-environment_lines w e s x h k =
        let spots = spot_lines 0 e.spots in
        let zones = zone_lines 0 e.zones ++ spots in
        let pastes = paste_lines sys 0 e.pastes ++ zones in
        apply_all-scalar_lines w e (var_lines sys 0 e.vars ++ pastes) s
        ∙ (ap (apply_all sys (var_lines sys 0 e.vars ++ pastes)) (imported-scalars_of e s x)
            ∙ (apply_all-var_lines sys 0 e.vars pastes _ (omega (arith, h.four_vars))
                ∙ (apply_all-paste_lines sys 0 e.pastes zones _ (omega (arith, h.four_pastes))
                    ∙ (apply_all-zone_lines sys ascii 0 e.zones spots _
                          (omega (arith, h.four_zones)) x.zones_fit
                        ∙ (ap (λ ls. apply_all sys ls (merged_zones e s)) (sym (append-nil spots))
                            ∙ (apply_all-spot_lines sys ascii 0 e.spots [] _
                                  (omega (arith, h.sixteen_spots)) x.spots_fit
                                ∙ merged-restored e s x h k))))))

    -- For an exportable environment, under a conversion that keeps ASCII: the text that it is exported to
    -- is imported, over any environment, as the one exported; only the coordinates of a zone or a point
    -- that is not set stay those of the other.
    pub import-export :
        (w : Shown) (e s : Environment)
        → IsExportable e
        → HasLengths e
        → HasLengths s
        → import_environment sys (environment_to_text sys w e) s ≡ some (restored e s)
    unfolding import_environment environment_to_text
    import-export w e s x h k =
        ap (λ ls. some (apply_all sys ls s))
          (read_lines-write_lines (environment_lines sys w e)
            (environment_lines-ArePlain sys w e h))
        ∙ ap some (apply_all-environment_lines w e s x h k)
