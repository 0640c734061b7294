-- ===== src/Hub/Rgd.antt =====
-- runtime/source/src/registry_rgd.inc: the reference of an include, and its tokens.
pub mod Bounds
use macrohelp.Base.{
  ℕ, ◌+◌, ◌-◌, ◌%◌, ◌==◌, ltb, leb, Bool, true, false, ◌&&◌, ◌||◌, not, List, [], ◌∷◌, ◌++◌, length,
  any, drop, map, if◌then◌else◌,
}
use macrohelp.Control.Checked.{done, thrown, then_with}
use macrohelp.Runtime.Text.{Text, bytes, text_eq, trim_ascii, lower_ascii}
use macrohelp.Hub.Tokens.{extract_tokens}
use macrohelp.Hub.Branches.{validate}
use macrohelp.Hub.Host.{Host, Reading, read, unreadable, cancelled}

abbrev is_digit : ℕ → Bool
is_digit c = leb b'0' c && leb c b'9'

abbrev pub skip_digits : Text → Text
skip_digits [] = []
skip_digits (c ∷ cs) = if is_digit c then skip_digits cs else c ∷ cs

abbrev pub digits_only : Text → Bool
digits_only [] = true
digits_only (c ∷ cs) = is_digit c && digits_only cs

-- An `s` or a `z`, and digits up to the end.
abbrev pub part_and_entry : Text → Bool
part_and_entry [] = false
part_and_entry (d ∷ []) = false
part_and_entry (d ∷ e ∷ es) = (d == b's' || d == b'z') && (is_digit e && digits_only es)

-- From the first digit on.
unfoldable pub index_and_part : Text → Bool
index_and_part [] = false
index_and_part (c ∷ cs) = is_digit c && part_and_entry (skip_digits cs)

unfoldable pub is_reference : Text → Bool
unfolding index_and_part
is_reference [] = false
is_reference (c ∷ cs) = ltb 2 (length cs) && (c == b'i' && index_and_part cs)

pub record SourceToken : Type 0 where
  pub text : Text
  pub source : Text
  pub ancestry : List Text

abbrev pub texts : List SourceToken → List Text
texts = map (λ t. t.text)

-- `1024*1024-expandedBytes` in `size_t`.
unfoldable pub room_after : ℕ → ℕ
room_after n = (18446744073710600192 - n) % 18446744073709551616

pub data Expansion : Type 0 where
  included : List SourceToken → Expansion
  -- An error text, and whether the dispatch was cancelled meanwhile.
  failed : Text → Bool → Expansion

unfoldable pub under : Text → Text → Text
under reference message = bytes "rgd " ++ (reference ++ (bytes ": " ++ message))

-- The tokens of the text that an include has read.
unfoldable pub included_tokens : Text → Text → List Text → Text → Expansion
unfolding under validate extract_tokens
included_tokens text reference ancestry key =
    elim (then_with (extract_tokens text) (λ ts. then_with (validate ts) (λ _. done ts))) [
      | thrown status message ↦ failed (under reference (bytes message)) false
      | done raw ↦ included (
          map (λ t. record { text = t; source = reference; ancestry = ancestry ++ (key ∷ []) }) raw)
    ]

-- What the reader's result makes of the bytes expanded so far.
unfoldable pub received : Text → List Text → Text → ℕ → Reading → ℕ × Expansion
unfolding included_tokens under
received reference ancestry key expanded (unreadable message) =
    (expanded, failed (under reference message) false)
received reference ancestry key expanded cancelled =
    (expanded, failed (under reference (bytes "rgd read cancelled")) true)
received reference ancestry key expanded (read text) =
    if leb (length text) (room_after expanded)
    then (expanded + length text, included_tokens text reference ancestry key)
    else (expanded, failed (under reference (bytes "Expanded workflow exceeds 1 MiB")) false)

abbrev pub key_of : Text → Text → Text
key_of file reference = file ++ (bytes "\n" ++ reference)

-- No file path, or one that would be read as an option.
abbrev pub no_file : Text → Bool
no_file [] = true
no_file (c ∷ cs) = c == b'-'

module _ {G A : Type 0} (h : Host G A) where
  unfoldable pub reference_of : G → SourceToken → Text
  reference_of g t = lower_ascii (trim_ascii (h.expand g (trim_ascii (drop 3 t.text))))

  -- The state afterwards, the bytes expanded so far, and what came of it.
  unfoldable pub rgd_tokens : SourceToken → ℕ → G → G × ℕ × Expansion
  unfolding received under reference_of
  rgd_tokens t expanded g =
      let reference = reference_of g t in
      let file = h.file_path g in
      let key = key_of file reference in
      if not (is_reference reference)
      then (g, expanded, failed (bytes "Use {rgd i6s6} or {rgd i6z6}") false)
      else if no_file file
      then (
        g,
        expanded,
        failed (bytes "Set the Registry Hub file path before using {rgd ...}") false,
      )
      else if leb 16 (length t.ancestry) || any (text_eq key) t.ancestry
      then (g, expanded, failed (under reference (bytes "Recursive rgd include")) false)
      else (let (g1, r) = h.read_rgd file reference g in
          let (n, e) = received reference t.ancestry key expanded r in (g1, n, e))
