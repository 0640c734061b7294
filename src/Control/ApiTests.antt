-- ===== src/Control/ApiTests.antt =====
-- The theorem about the control API at a concrete input.
use text.Mathlib.Text.{◌==◌ as str_eq}
use macrohelp.Base.{false, none, some, [], ◌∷◌, ◌≡◌, refl, arith, if◌then◌else◌}
use macrohelp.Runtime.Text.{Text, bytes}
use macrohelp.Control.Text.{trim, trim_start, trim_end}
use macrohelp.Control.Api.{Incoming, refused, pre_routing, equal_key, header_bytes}
use macrohelp.Control.Api.Access.{IsAdmitted, pre_routing-IsAdmitted}

abbrev stop_request : Text → Incoming
stop_request authorization = record {
  method = bytes "POST";
  target = bytes "/v1/stop";
  path = bytes "/v1/stop";
  headers = (bytes "Authorization", authorization) ∷ [];
  count = λ k. if str_eq k "Content-Length" then 0 else 1;
  header = λ k.
      if str_eq k "Authorization"
      then authorization
      else if str_eq k "Host"
      then bytes "LocalHost:8123"
      else bytes "application/json; charset=utf-8";
  has_header = λ k. false;
}

admitted : pre_routing (bytes "key") false (bytes "8123") (stop_request (bytes "Bearer key")) ≡ none
unfolding pre_routing equal_key header_bytes trim trim_start trim_end
admitted = refl

turned_away :
    pre_routing (bytes "key") false (bytes "8123") (stop_request (bytes "Bearer kez"))
    ≡ some (refused 401 "Bearer authentication required")
unfolding pre_routing equal_key
turned_away = refl

pre_routing-IsAdmitted_example :
    IsAdmitted (bytes "key") false (bytes "8123") (stop_request (bytes "Bearer key"))
pre_routing-IsAdmitted_example =
    pre_routing-IsAdmitted (bytes "key") false (bytes "8123") (stop_request (bytes "Bearer key"))
      (ground arith) (ground arith) (omega arith) (omega arith) admitted
