-- ===== src/Runtime/Environment/Lines.antt =====
-- The lines of an exported environment are read back, whatever bytes the values hold.
use macrohelp.Base.{
  ℕ, ◌==◌, Bool, true, false, ◌&&◌, not, some, List, [], ◌∷◌, ◌++◌, all, All, ◌≡◌, refl, ap, sym,
  ◌∙◌, arith, append_assoc, all-append,
}
use macrohelp.Runtime.Text.{Text, is_space, trim_ascii, put, trim_end}
use macrohelp.Runtime.Text.Words.{trim_ascii-word, trim_start-word}
use macrohelp.Runtime.Escapes.{
  escape_value, unescape_value, unescape-escape, escape_one_line, is_line_end,
}
use macrohelp.Runtime.Settings.{
  lines_of, without_return, split_at_equals, read_line, read_lines, is_comment,
}
use macrohelp.Runtime.Environment.Write.{write_lines}

-- A name has no space and no `=`, and starts with a byte other than `#`.
abbrev pub is_plain : Text → Bool
is_plain t = not (is_comment t) && all (λ c. not (is_space c) && not (c == b'=')) t

abbrev one_line : Text → Bool
one_line = all (λ c. not (is_line_end c))

lines_of-line :
    (l rest : Text) → one_line l ≡ true → lines_of (l ++ (10 ∷ rest)) ≡ l ∷ lines_of rest
unfolding lines_of
lines_of-line [] rest h = refl
lines_of-line (c ∷ cs) rest h = ground (arith, h, lines_of-line cs rest)

without_return-line : (l : Text) → one_line l ≡ true → without_return l ≡ l
unfolding without_return
without_return-line [] h = refl
without_return-line (c ∷ []) h = ground (arith, h)
without_return-line (c ∷ d ∷ cs) h =
    ap (λ r. c ∷ r) (without_return-line (d ∷ cs) (ground (arith, h)))

split_at_equals-name :
    (name rest : Text)
    → all (λ c. not (is_space c) && not (c == b'=')) name ≡ true
    → split_at_equals (name ++ (b'=' ∷ rest)) ≡ some (name, rest)
unfolding split_at_equals
split_at_equals-name [] rest h = refl
split_at_equals-name (c ∷ cs) rest h = ground (arith, h, split_at_equals-name cs rest)

one_line-name :
    (name : Text)
    → all (λ c. not (is_space c) && not (c == b'=')) name ≡ true
    → one_line name ≡ true
one_line-name [] h = refl
one_line-name (c ∷ cs) h = ground (arith, h, one_line-name cs)

not_space-name :
    (name : Text)
    → all (λ c. not (is_space c) && not (c == b'=')) name ≡ true
    → all (λ c. not (is_space c)) name ≡ true
not_space-name [] h = refl
not_space-name (c ∷ cs) h = ground (arith, h, not_space-name cs)

comment-put :
    (c : ℕ) (ds : Text) → is_space c ≡ false → (c == b'#') ≡ false → is_comment (put c ds) ≡ false
comment-put c [] h k = ground (arith, h, k)
comment-put c (d ∷ ds) h k = k

-- Trimming keeps a first byte that is no space.
comment-trim :
    (c : ℕ) (cs : Text)
    → is_space c ≡ false
    → (c == b'#') ≡ false
    → is_comment (trim_ascii (c ∷ cs)) ≡ false
unfolding trim_ascii trim_end
comment-trim c cs h k =
    ap (λ t. is_comment (trim_end t)) (trim_start-word c cs h) ∙ comment-put c (trim_end cs) h k

-- A line without its end, that a test has passed and that splits, gives its parts.
read_line-split :
    (raw name v : Text)
    → without_return raw ≡ raw
    → is_comment (trim_ascii raw) ≡ false
    → split_at_equals raw ≡ some (name, v)
    → read_line raw ≡ some (trim_ascii name, unescape_value v)
unfolding read_line
read_line-split raw name v e f g = rw (e, read_line) (rw (f, read_line) (rw e (rw g refl)))

pub read_line-written :
    (name v : Text)
    → is_plain name ≡ true
    → one_line (name ++ (b'=' ∷ escape_value v)) ≡ true
    → read_line (name ++ (b'=' ∷ escape_value v)) ≡ some (name, v)
read_line-written [] v h l = absurd (ground (arith, h))
read_line-written (c ∷ cs) v h l =
    let named : all (λ c. not (is_space c) && not (c == b'=')) (c ∷ cs) ≡ true =
      ground (arith, h) in
    read_line-split ((c ∷ cs) ++ (b'=' ∷ escape_value v)) (c ∷ cs) (escape_value v)
      (without_return-line ((c ∷ cs) ++ (b'=' ∷ escape_value v)) l)
      (comment-trim c (cs ++ (b'=' ∷ escape_value v)) (ground (arith, h)) (ground (arith, h)))
      (split_at_equals-name (c ∷ cs) (escape_value v) named)
    ∙ rw (trim_ascii-word (c ∷ cs) (not_space-name (c ∷ cs) named)) (rw unescape-escape refl)

plain_named :
    (name : Text)
    → is_plain name ≡ true
    → all (λ c. not (is_space c) && not (c == b'=')) name ≡ true
plain_named name h = ground (arith, h)

line_end-append :
    (name v rest : Text)
    → name ++ (b'=' ∷ (escape_value v ++ (10 ∷ rest)))
      ≡ (name ++ (b'=' ∷ escape_value v)) ++ (10 ∷ rest)
line_end-append name v rest = sym (append_assoc name (b'=' ∷ escape_value v) (10 ∷ rest))

-- Written settings with plain names are the settings that are read.
pub read_lines-write_lines :
    (settings : List (Text × Text))
    → All (λ s. is_plain s.0 ≡ true) settings
    → read_lines (lines_of (write_lines settings)) ≡ settings
unfolding read_lines write_lines lines_of
read_lines-write_lines [] h = refl
read_lines-write_lines ((name, v) ∷ rest) (p, ps) =
    let l =
      all-append (λ c. not (is_line_end c)) name (b'=' ∷ escape_value v)
        (one_line-name name (plain_named name p)) (escape_one_line v) in
    ap (λ t. read_lines (lines_of t)) (line_end-append name v (write_lines rest))
    ∙ (ap read_lines (lines_of-line (name ++ (b'=' ∷ escape_value v)) (write_lines rest) l)
        ∙ rw (read_line-written name v p l, read_lines)
            (ap (λ r. (name, v) ∷ r) (read_lines-write_lines rest ps)))
