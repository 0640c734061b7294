-- ===== src/Daemon/Server/Stores.antt =====
-- What is read back of the values that requests store.
use Prim.Native.String.{◌++◌ as ◌<>◌}
use text.Mathlib.Text.{◌==◌ as str_eq}
use text.Mathlib.TextEquality.{eq_iff}
use mathlib.Core.Option
use macrohelp.Base.{
  ℤ, pos, String, Option, none, some, Bool, true, false, [], ◌∷◌, length, ◌≡◌, ◌≢◌, inl, inr, refl,
  sym, ◌∙◌, ap, arith, if◌then◌else◌,
}
use macrohelp.Base.Dict.{Dict, string_key, lookup, insert, lookup-insert}
use macrohelp.Base.Json.{
  Json, Fields, null, bool, num, real, str, arr, obj, fields_of, set_field, value, value-set_field,
  contains, to_string, object_of,
}
use macrohelp.Daemon.Platform.{Platform}
use macrohelp.Daemon.Responses.{status_number, to_json_bytes}
use macrohelp.Daemon.Server.State.{Request, Server, send_response}
use macrohelp.Daemon.Server.Values.{handle_set_entrypoint, handle_list_entrypoints, map_json}
use macrohelp.Daemon.Server.Routes.{Route, route_of, serve, respond}
use macrohelp.Daemon.Server.Access.{HasKey, check_auth-none, guarded-none}

-- The text that is kept of a value: itself, and the empty text for what is no text or is missing.
pub record IsText (v : Option Json) (kept : String) : Type 0 where
  pub text : (t : String) → v ≡ some (str t) → kept ≡ t
  pub other : ((t : String) → v ≢ some (str t)) → kept ≡ ""

to_string-IsText : (v : Option Json) → IsText v (to_string v)
unfolding to_string
to_string-IsText none = record { text = λ t e. cc; other = λ h. refl }
to_string-IsText (some (str s)) = record {
  text = λ t e. ground (arith, e);
  other = λ h. absurd (h s refl);
}
to_string-IsText (some null) = record { text = λ t e. cc; other = λ h. refl }
to_string-IsText (some (bool b)) = record { text = λ t e. cc; other = λ h. refl }
to_string-IsText (some (num n)) = record { text = λ t e. cc; other = λ h. refl }
to_string-IsText (some (real r)) = record { text = λ t e. cc; other = λ h. refl }
to_string-IsText (some (arr vs)) = record { text = λ t e. cc; other = λ h. refl }
to_string-IsText (some (obj fs)) = record { text = λ t e. cc; other = λ h. refl }

-- An object that a map was copied into has its values.
value-map_json :
    (k : String) (m : Dict String String) → value k (map_json m) ≡ Option.map str (lookup k m)
unfolding map_json lookup value
value-map_json k [] = refl
value-map_json k ((j, v) ∷ m) =
    value-set_field j k (str v) (map_json m) ∙ ground (arith, value-map_json k m)

module _ {F : Type 0} (p : Platform F) where
  -- A response with the stored values, under their names.
  pub record Lists (m : Dict String String) (content : String) : Type 0 where
    pub root : Fields
    pub data_fields : Fields
    pub values : Fields
    pub printed : content ≡ p.print_json (obj root)
    pub has_data : value "data" root ≡ some (obj data_fields)
    pub has_values : value "entrypoints" data_fields ≡ some (obj values)
    pub each : (k : String) → value k values ≡ Option.map str (lookup k m)

  listed-Lists :
      (req : Request) (s : Server F)
      → HasKey req s
      → ((handle_list_entrypoints p req s).0 ≡ s)
        × ((handle_list_entrypoints p req s).1.status ≡ pos 200)
        × Lists s.entrypoints (handle_list_entrypoints p req s).1.content
  unfolding handle_list_entrypoints send_response status_number to_json_bytes fields_of set_field
      value
  listed-Lists req s key =
      let n : ℤ = pos (length s.entrypoints) in
      let listing : Fields =
        fields_of (("entrypoints", obj (map_json s.entrypoints)) ∷ ("count", num n) ∷ []) in
      rw (guarded-none p req s _ (check_auth-none p req s key)) (
        refl,
        refl,
        record {
          root = set_field "data" (obj listing) (
              fields_of (
                ("success", bool true) ∷ ("message", str (p.show_int n <> " entrypoint(s)")) ∷ []));
          data_fields = listing;
          values = map_json s.entrypoints;
          printed = refl;
          has_data = refl;
          has_values = refl;
          each = λ k. value-map_json k s.entrypoints;
        },
      )

  -- What a request with an id writes.
  set-entrypoints :
      (req : Request) (fs : Fields) (s : Server F) (id : String)
      → HasKey req s
      → p.parse_json req.body ≡ some (obj fs)
      → value "id" fs ≡ some (str id)
      → id ≢ ""
      → let o = handle_set_entrypoint p req s in
        (o.0.entrypoints ≡ insert id (to_string (value "value" fs)) s.entrypoints)
        × (o.0.engine ≡ s.engine)
        × (o.0.files ≡ s.files)
        × (o.0.grid_cells ≡ s.grid_cells)
        × (o.0.api_key ≡ s.api_key)
        × (o.1.status ≡ pos 200)
  unfolding handle_set_entrypoint object_of contains send_response status_number
  set-entrypoints req fs s id key doc named full =
      let blank : str_eq id "" ≡ false = ground (arith, full, eq_iff id "") in
      rw (guarded-none p req s _ (check_auth-none p req s key))
        (rw doc (rw named (unfold to_string in rw blank (refl, refl, refl, refl, refl, refl))))

set_route :
    (cors : Bool) (m path : String)
    → m ≡ "POST"
    → path ≡ "/entrypoint"
    → route_of cors m path ≡ Route.set_entrypoint
unfolding route_of
set_route cors m path e q = rw (e, q) refl

list_route :
    (cors : Bool) (m path : String)
    → m ≡ "GET"
    → path ≡ "/entrypoints"
    → route_of cors m path ≡ Route.list_entrypoints
unfolding route_of
list_route cors m path e q = rw (e, q) refl

module _ {F : Type 0} (p : Platform F) (version : String) where
  HasKey-same :
      (req : Request) (s q : Server F) → q.api_key ≡ s.api_key → HasKey req s → HasKey req q
  HasKey-same req s q e (inl h) = inl (e ∙ h)
  HasKey-same req s q e (inr h) = inr (h ∙ ap some (sym e))

  -- POST /entrypoint with the key and an id that is a text and not empty, and then GET
  -- /entrypoints with the key: both are answered with 200. The listing has under the id the text that was
  -- sent as the value, or the empty text if the value was no text or missing, and under every other name
  -- what the store had; the tasks, the files and the grid stay as they were.
  pub set-list_entrypoints :
      (cors : Bool) (post get : Request) (now later : ℤ) (s : Server F) (fs : Fields) (id : String)
      → HasKey post s
      → HasKey get s
      → post.http_method ≡ "POST"
      → post.path ≡ "/entrypoint"
      → get.http_method ≡ "GET"
      → get.path ≡ "/entrypoints"
      → p.parse_json post.body ≡ some (obj fs)
      → value "id" fs ≡ some (str id)
      → id ≢ ""
      → let (q, first) = respond p version cors post now s in
        let (after, answer) = respond p version cors get later q in
        (first.status ≡ pos 200)
        × (answer.status ≡ pos 200)
        × (after.engine ≡ s.engine)
        × (after.files ≡ s.files)
        × (after.grid_cells ≡ s.grid_cells)
        × (kept : String) × IsText (value "value" fs) kept
        × (m : Dict String String) × Lists p m answer.content
        × ((k : String) → lookup k m ≡ (if str_eq id k then some kept else lookup k s.entrypoints))
  unfolding respond serve
  set-list_entrypoints cors post get now later s fs id key key' m at m' at' doc named full =
      let q = (handle_set_entrypoint p post s).0 in
      let (e, engine, files, grid, api, code) = set-entrypoints p post fs s id key doc named full in
      let (same, code', lists) = listed-Lists p get q (HasKey-same get s q api key') in
      let kept = to_string (value "value" fs) in
      rw (set_route cors post.http_method post.path m at) (
        rw (list_route cors get.http_method get.path m' at') (
          code,
          code',
          ap (λ (x : Server F). x.engine) same ∙ engine,
          ap (λ (x : Server F). x.files) same ∙ files,
          ap (λ (x : Server F). x.grid_cells) same ∙ grid,
          kept,
          to_string-IsText (value "value" fs),
          q.entrypoints,
          lists,
          λ k. ap (lookup k) e ∙ lookup-insert id k kept s.entrypoints,
        ))
