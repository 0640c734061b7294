-- ===== src/Control/Api/Access.antt =====
-- What the control API lets through.
use macrohelp.Base.{
  ℕ, ◌+◌, ◌≤◌, ◌<◌, Bool, true, false, ◌&&◌, ◌||◌, not, none, some, List, [], ◌∷◌, ◌++◌, map,
  length, if◌then◌else◌, ◌≡◌, ◌≢◌, ◌⊎◌, inl, inr, refl, subst, sym, arith, ==_iff,
}
use macrohelp.Runtime.Text.{Text, bytes, text_eq, to_lower}
use macrohelp.Runtime.Text.Words.{text_eq_sound}
use macrohelp.Control.Text.{trim}
use macrohelp.Control.Api.{
  Incoming, Answer, header_bytes, pre_routing, is_loopback, is_framed, is_authorized, is_preflight,
  is_small, is_json,
}
use macrohelp.Control.Api.Keys.{AreBytes, equal_key_sound}
use macrohelp.Control.Api.Media.{IsMedia, trim-IsMedia}

-- The lengths of the names and the values, and 4 for each header.
abbrev pub sum_of : List ℕ → ℕ
sum_of [] = 0
sum_of (n ∷ ns) = n + sum_of ns

abbrev pub size_of : List (Text × Text) → ℕ
size_of hs = sum_of (map (λ (h : Text × Text). length h.0 + length h.1 + 4) hs)

-- A request that goes on to its route.
pub record IsAdmitted (key : Text) (cors : Bool) (port : Text) (r : Incoming) : Type 0 where
  pub one_authorization : r.count "Authorization" ≡ 1
  pub bearer : r.header "Authorization" ≡ bytes "Bearer " ++ key
  pub one_host : r.count "Host" ≡ 1
  pub loopback :
      (map to_lower (r.header "Host") ≡ bytes "127.0.0.1:" ++ port)
      ⊎ (map to_lower (r.header "Host") ≡ bytes "localhost:" ++ port)
  pub no_transfer_encoding : r.has_header "Transfer-Encoding" ≡ false
  pub one_length : r.count "Content-Length" ≤ 1
  pub small : length r.method + length r.target + 16 + size_of r.headers ≤ 16384
  pub json : r.method ≡ bytes "POST" → IsMedia (bytes "application/json") (r.header "Content-Type")
  pub no_preflight : cors ≡ true → r.method ≢ bytes "OPTIONS"

all_passed :
    (p a s l f j : Bool) (x y z u v w : Answer)
    → (if not p && not a
        then some x
        else if not s
        then some y
        else if not l
        then some z
        else if not f
        then some u
        else if p
        then some v
        else if j
        then none
        else some w)
      ≡ none
    → (p ≡ false) × (a ≡ true) × (s ≡ true) × (l ≡ true) × (f ≡ true) × (j ≡ true)
all_passed p a s l f j x y z u v w e = ground (arith, e)

header_bytes_lem : (hs : List (Text × Text)) → header_bytes hs ≡ size_of hs
unfolding header_bytes
header_bytes_lem [] = refl
header_bytes_lem ((k, v) ∷ hs) = omega (arith, header_bytes_lem hs)

implied : (a b : Bool) → (not a || b) ≡ true → a ≡ true → b ≡ true
implied a b h k = ground (arith, h, k)

or_cases : (a b : Bool) → (a || b) ≡ true → (a ≡ true) ⊎ (b ≡ true)
or_cases true b h = inl refl
or_cases false b h = inr h

module _ (key : Text) (cors : Bool) (port : Text) (r : Incoming) where
  loopback_named :
      is_loopback key cors port r ≡ true
      → (r.count "Host" ≡ 1)
        × ((map to_lower (r.header "Host") ≡ bytes "127.0.0.1:" ++ port)
            ⊎ (map to_lower (r.header "Host") ≡ bytes "localhost:" ++ port))
  loopback_named h =
      let host = map to_lower (r.header "Host") in
      let either : (text_eq host (bytes "127.0.0.1:" ++ port)
            || text_eq host (bytes "localhost:" ++ port))
          ≡ true =
        ground (arith, h) in
      (
        (==_iff (r.count "Host") 1).0 (ground (arith, h)),
        elim (or_cases _ _ either) [
          | inl e ↦ inl (text_eq_sound _ _ e)
          | inr e ↦ inr (text_eq_sound _ _ e)
        ],
      )

  framed_once :
      is_framed key cors port r ≡ true
      → (r.has_header "Transfer-Encoding" ≡ false) × (r.count "Content-Length" ≤ 1)
  framed_once h = (ground (arith, h), ground (arith, h))

  few_bytes :
      is_small key cors port r ≡ true
      → length r.method + length r.target + 16 + size_of r.headers ≤ 16384
  few_bytes h = ground (arith, h, header_bytes_lem r.headers)

  json_posted :
      is_json key cors port r ≡ true
      → r.method ≡ bytes "POST"
      → IsMedia (bytes "application/json") (r.header "Content-Type")
  unfolding trim
  json_posted h posted =
      let same = subst (λ m. text_eq m (bytes "POST") ≡ true) (sym posted) refl in
      trim-IsMedia (bytes "application/json") (r.header "Content-Type")
        (text_eq_sound _ _ (implied (text_eq r.method (bytes "POST")) _ h same))

  no_options : is_preflight key cors port r ≡ false → cors ≡ true → r.method ≢ bytes "OPTIONS"
  no_options h c e =
      let same = subst (λ m. text_eq m (bytes "OPTIONS") ≡ true) (sym e) refl in
      ground (arith, h, c, same)

-- For keys and header values of bytes whose lengths fit in 64 bits: a request reaches its route only
-- with exactly one Authorization header, which is Bearer and the key, and exactly one Host header, which
-- is 127.0.0.1 or localhost, in any case, with the port; without a Transfer-Encoding header and with at
-- most one Content-Length; with a request line and headers of at most 16 KiB by the handler's count; if
-- it is a POST, with the media type application/json, in any case, blanks around it and parameters after
-- it aside; and, with browser access on, not as OPTIONS.
pub pre_routing-IsAdmitted :
    (key : Text) (cors : Bool) (port : Text) (r : Incoming)
    → AreBytes (r.header "Authorization")
    → AreBytes (bytes "Bearer " ++ key)
    → length (r.header "Authorization") < 18446744073709551616
    → length (bytes "Bearer " ++ key) < 18446744073709551616
    → pre_routing key cors port r ≡ none
    → IsAdmitted key cors port r
unfolding pre_routing
pre_routing-IsAdmitted key cors port r ha hk la lk e =
    let (p, a, s, l, f, j) =
      all_passed (is_preflight key cors port r) (is_authorized key cors port r)
        (is_small key cors port r) (is_loopback key cors port r) (is_framed key cors port r)
        (is_json key cors port r) _ _ _ _ _ _ e in
    let (one, named) = loopback_named key cors port r l in
    let (whole, once) = framed_once key cors port r f in
    record {
      one_authorization = (==_iff (r.count "Authorization") 1).0 (ground (arith, a));
      bearer =
          equal_key_sound (r.header "Authorization") (bytes "Bearer " ++ key) ha hk la lk
            (ground (arith, a));
      one_host = one;
      loopback = named;
      no_transfer_encoding = whole;
      one_length = once;
      small = few_bytes key cors port r s;
      json = json_posted key cors port r j;
      no_preflight = no_options key cors port r p;
    }
