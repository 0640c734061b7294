-- ===== src/Control/Api.antt =====
-- `equalKey` and the pre-routing handler of `Server::Impl` of runtime/source/src/control_api.cpp. What
-- the HTTP library says of a request is a record: its lines, its headers, and the library's answers
-- about them.
pub mod Keys
pub mod Media
pub mod Access
use macrohelp.Base.{
  ℕ, zero, suc, ◌+◌, ◌*◌, ◌/◌, ◌%◌, ltb, ◌==◌, String, Bool, true, false, ◌&&◌, ◌||◌, not, Option,
  none, some, List, [], ◌∷◌, ◌++◌, any, map, length, if◌then◌else◌,
}
use macrohelp.Runtime.Text.{Text, bytes, text_eq, to_lower}
use macrohelp.Control.Text.{trim}

-- `^` and `|` on the lowest bits of two numbers.
unfoldable pub xor_bits : ℕ → ℕ → ℕ → ℕ
xor_bits zero a b = 0
xor_bits (suc f) a b = (a % 2 + b % 2) % 2 + 2 * xor_bits f (a / 2) (b / 2)

unfoldable pub or_bits : ℕ → ℕ → ℕ → ℕ
or_bits zero a b = 0
or_bits (suc f) a b = (if a % 2 == 0 && b % 2 == 0 then 0 else 1) + 2 * or_bits f (a / 2) (b / 2)

-- The loop over `b`; beyond the end of `a` a byte is 0.
unfoldable pub difference : ℕ → Text → Text → ℕ
unfolding or_bits xor_bits
difference diff a [] = diff
difference diff [] (d ∷ ds) = difference (or_bits 64 diff (xor_bits 64 0 d)) [] ds
difference diff (c ∷ cs) (d ∷ ds) = difference (or_bits 64 diff (xor_bits 64 c d)) cs ds

unfoldable pub equal_key : Text → Text → Bool
unfolding difference xor_bits
equal_key a b = difference (xor_bits 64 (length a) (length b)) a b == 0

pub record Incoming : Type 0 where
  pub method : Text
  pub target : Text
  pub path : Text
  pub headers : List (Text × Text)
  -- `get_header_value_count`, `get_header_value` and `has_header`.
  pub count : String → ℕ
  pub header : String → Text
  pub has_header : String → Bool

unfoldable pub header_bytes : List (Text × Text) → ℕ
header_bytes [] = 0
header_bytes ((k, v) ∷ hs) = length k + length v + 4 + header_bytes hs

-- Up to the first semicolon.
abbrev pub before_semicolon : Text → Text
before_semicolon [] = []
before_semicolon (c ∷ cs) = if c == b';' then [] else c ∷ before_semicolon cs

-- What the handler answers itself, or `none` where the request goes on to its route.
pub data Answer : Type 0 where
  preflight : Bool → Answer
  refused : ℕ → String → Answer

abbrev is_path : Text → List String → Bool
is_path p [] = false
is_path p (q ∷ qs) = text_eq p (bytes q) || is_path p qs

unfoldable pub is_route : Text → Text → Bool
is_route method path =
    (text_eq method (bytes "GET")
      && is_path path (
          "/v1/health" ∷ "/v1/state" ∷ "/v1/schema" ∷ "/v1/coords" ∷ "/v1/help" ∷ "/v1/skills"
          ∷ []))
    || (text_eq method (bytes "POST")
        && is_path path ("/v1/control" ∷ "/v1/stop" ∷ "/v1/skills" ∷ "/v1/skills/query" ∷ []))

-- The settings' key and `cors`, and the port in decimal.
module _ (key : Text) (cors : Bool) (port : Text) where
  abbrev pub is_authorized : Incoming → Bool
  unfolding equal_key
  is_authorized r =
      r.count "Authorization" == 1 && equal_key (r.header "Authorization") (bytes "Bearer " ++ key)

  abbrev pub is_loopback : Incoming → Bool
  is_loopback r =
      let host = map to_lower (r.header "Host") in
      r.count "Host" == 1
      && (text_eq host (bytes "127.0.0.1:" ++ port) || text_eq host (bytes "localhost:" ++ port))

  abbrev pub is_framed : Incoming → Bool
  is_framed r = not (r.has_header "Transfer-Encoding") && not (ltb 1 (r.count "Content-Length"))

  abbrev pub is_preflight : Incoming → Bool
  is_preflight r = cors && text_eq r.method (bytes "OPTIONS")

  abbrev pub is_small : Incoming → Bool
  is_small r = not (ltb 16384 (length r.method + length r.target + 16 + header_bytes r.headers))

  abbrev pub is_json : Incoming → Bool
  unfolding trim
  is_json r =
      not (text_eq r.method (bytes "POST"))
      || text_eq (map to_lower (trim (before_semicolon (r.header "Content-Type"))))
          (bytes "application/json")

  unfoldable pub pre_routing : Incoming → Option Answer
  unfolding is_authorized is_json is_route header_bytes
  pre_routing r =
      if not (is_preflight r) && not (is_authorized r)
      then some (refused 401 "Bearer authentication required")
      else if not (is_small r)
      then some (refused 431 "Headers exceed 16 KiB")
      else if not (is_loopback r)
      then some (refused 400 "Invalid loopback Host")
      else if not (is_framed r)
      then some (refused 400 "Ambiguous request framing")
      else if is_preflight r
      then some (preflight (is_route (r.header "Access-Control-Request-Method") r.path))
      else if is_json r
      then none
      else some (refused 415 "Use application/json")
