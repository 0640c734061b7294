-- ===== src/Daemon/Server/Values.antt =====
-- The in-memory stores: `handleSetEntrypoint`, `handleListEntrypoints`, `handleSetGrid` and
-- `handleListGrid`.
use Prim.Native.String.{◌++◌ as ◌<>◌}
use text.Mathlib.Text.{◌==◌ as str_eq}
use macrohelp.Base.{pos, String, Option, none, some, [], ◌∷◌, length, if◌then◌else◌}
use macrohelp.Base.Dict.{Dict, string_key, insert}
use macrohelp.Base.Json.{
  Fields, end, obj, str, num, fields_of, set_field, object_of, value, contains, to_string,
  to_string_or,
}
use macrohelp.Daemon.Platform.{Platform}
use macrohelp.Daemon.Responses.{ApiResponse, bad_request, ok_response, error_response}
use macrohelp.Daemon.Server.State.{Request, Server, Outcome, send_response, guarded, receive}

-- The loop that copies a map into an object.
unfoldable pub map_json : Dict String String → Fields
map_json [] = end
map_json ((k, v) ∷ m) = set_field k (str v) (map_json m)

module _ {F : Type 0} (p : Platform F) where
  abbrev body_fields : Request → Option Fields
  body_fields req = elim (p.parse_json req.body) [ none ↦ none | some doc ↦ some (object_of doc) ]

  abbrev failing : ApiResponse → Server F → Outcome F
  failing api s = (s, send_response p api)

  unfoldable pub set_entrypoint : Fields → Server F → Outcome F
  set_entrypoint fs s =
      let id = to_string (value "id" fs) in
      let v = to_string (value "value" fs) in
      let kind = to_string_or "string" (value "type" fs) in
      if str_eq id "" then failing (error_response bad_request "'id' cannot be empty") s else (
        receive "POST" "/entrypoint" (id <> ("=" <> (v <> (" [" <> (kind <> "]")))))
            (record s { entrypoints = insert id v s.entrypoints }),
        send_response p
            (record (ok_response ("Entrypoint '" <> (id <> ("' set to '" <> (v <> "'"))))) {
              content = fields_of (("id", str id) ∷ ("value", str v) ∷ ("type", str kind) ∷ []);
            }),
      )

  abbrev entrypoint_body : ApiResponse
  entrypoint_body =
      error_response bad_request
        "Invalid JSON: need { 'id': string, 'value': string, 'type'?: string }"

  unfoldable pub handle_set_entrypoint : Request → Server F → Outcome F
  unfolding set_entrypoint
  handle_set_entrypoint req s = guarded p req s (elim (body_fields req) [
    | none ↦ failing entrypoint_body s
    | some fs ↦ if contains "id" fs then set_entrypoint fs s else failing entrypoint_body s
  ])

  listed : String → String → Dict String String → ApiResponse
  listed name unit m =
      let n = pos (length m) in
      record (ok_response (p.show_int n <> unit)) {
        content = fields_of ((name, obj (map_json m)) ∷ ("count", num n) ∷ []);
      }

  unfoldable pub handle_list_entrypoints : Request → Server F → Outcome F
  unfolding listed
  handle_list_entrypoints req s =
      guarded p req s (s, send_response p (listed "entrypoints" " entrypoint(s)" s.entrypoints))

  unfoldable pub set_grid : Fields → Server F → Outcome F
  set_grid fs s =
      let id = to_string (value "id" fs) in
      let v = to_string (value "value" fs) in
      if str_eq id "" then failing (error_response bad_request "'id' cannot be empty") s else (
        receive "POST" "/grid" (id <> ("=" <> v))
            (record s { grid_cells = insert id v s.grid_cells }),
        send_response p
            (record (ok_response ("Grid cell '" <> (id <> ("' set to '" <> (v <> "'"))))) {
              content = fields_of (("id", str id) ∷ ("value", str v) ∷ []);
            }),
      )

  abbrev grid_body : ApiResponse
  grid_body = error_response bad_request "Invalid JSON: need { 'id': string, 'value': string }"

  unfoldable pub handle_set_grid : Request → Server F → Outcome F
  unfolding set_grid
  handle_set_grid req s = guarded p req s (elim (body_fields req) [
    | none ↦ failing grid_body s
    | some fs ↦ if contains "id" fs then set_grid fs s else failing grid_body s
  ])

  unfoldable pub handle_list_grid : Request → Server F → Outcome F
  unfolding listed
  handle_list_grid req s =
      guarded p req s (s, send_response p (listed "cells" " grid cell(s)" s.grid_cells))
