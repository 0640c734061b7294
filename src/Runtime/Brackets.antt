-- ===== src/Runtime/Brackets.antt =====
-- `FindMatchingJsonBracket` of runtime/source/src/main.cpp. The position of the closing bracket is
-- given by the texts before and after it. The brackets are bytes other than the quote, as at its call.
use macrohelp.Base.{
  ℕ, zero, suc, ◌==◌, Bool, true, false, ◌&&◌, not, Option, none, some, List, [], ◌∷◌, ◌++◌,
  append_assoc, if◌then◌else◌, ◌≡◌, refl, ap, sym, ◌∙◌, arith,
}
use macrohelp.Runtime.Text.{Text}
use macrohelp.Runtime.Escapes.{escape_json, json_byte}

abbrev pub push : ℕ → Option (Text × Text) → Option (Text × Text)
push c none = none
push c (some (before, after)) = some (c ∷ before, after)

module _ (open_byte close_byte : ℕ) where
  -- Outside a string, in one, and in one after a backslash. There is one bracket open more than the
  -- number says.
  unfoldable mutual
    pub outside : ℕ → Text → Option (Text × Text)
    outside d [] = none
    outside d (c ∷ cs) = elim (c == b'"') [
      | true ↦ push c (inside d cs)
      | false ↦ elim (c == open_byte) [
        | true ↦ push c (outside (suc d) cs)
        | false ↦ elim (c == close_byte) [
          | true ↦ elim d [ zero ↦ some ([], cs) | suc e ↦ push c (outside e cs) ]
          | false ↦ push c (outside d cs)
        ]
      ]
    ]

    pub inside : ℕ → Text → Option (Text × Text)
    inside d [] = none
    inside d (c ∷ cs) = elim (c == b'\\') [
      | true ↦ push c (after_backslash d cs)
      | false ↦ elim (c == b'"') [ true ↦ push c (outside d cs) | false ↦ push c (inside d cs) ]
    ]

    pub after_backslash : ℕ → Text → Option (Text × Text)
    after_backslash d [] = none
    after_backslash d (c ∷ cs) = push c (inside d cs)

  -- From the opening bracket on.
  unfoldable pub find_matching : Text → Option (Text × Text)
  unfolding outside
  find_matching [] = none
  find_matching (c ∷ cs) = if c == open_byte then outside 0 cs else none

  -- What may stand between brackets: a text in quotes, a byte that is no quote and no bracket, or
  -- brackets around more.
  pub data Piece : Type 0 where
    quoted : Text → Piece
    opening : Piece
    closing : Piece
    plain : ℕ → Piece

  abbrev pub print_piece : Piece → Text
  print_piece (quoted v) = b'"' ∷ (escape_json v ++ (b'"' ∷ []))
  print_piece opening = open_byte ∷ []
  print_piece closing = close_byte ∷ []
  print_piece (plain c) = c ∷ []

  abbrev pub print_pieces : List Piece → Text
  print_pieces [] = []
  print_pieces (p ∷ ps) = print_piece p ++ print_pieces ps

  abbrev pub are_brackets : Bool
  are_brackets =
      not (open_byte == b'"') && (not (close_byte == b'"') && not (close_byte == open_byte))

  -- The brackets match, under so many open ones, and the plain bytes are plain.
  abbrev pub are_matched : ℕ → List Piece → Bool
  are_matched zero [] = true
  are_matched (suc d) [] = false
  are_matched d (quoted v ∷ ps) = are_matched d ps
  are_matched d (opening ∷ ps) = are_matched (suc d) ps
  are_matched zero (closing ∷ ps) = false
  are_matched (suc d) (closing ∷ ps) = are_matched d ps
  are_matched d (plain c ∷ ps) =
      not (c == b'"') && (not (c == open_byte) && (not (c == close_byte) && are_matched d ps))

  abbrev push_all : Text → Option (Text × Text) → Option (Text × Text)
  push_all [] o = o
  push_all (c ∷ cs) o = push c (push_all cs o)

  inside-byte :
      (d c : ℕ) (xs : Text) → inside d (json_byte c ++ xs) ≡ push_all (json_byte c) (inside d xs)
  unfolding outside json_byte
  inside-byte d c xs = ground arith

  push_all-append :
      (xs ys : Text) (o : Option (Text × Text))
      → push_all (xs ++ ys) o ≡ push_all xs (push_all ys o)
  push_all-append [] ys o = refl
  push_all-append (x ∷ xs) ys o = ap (push x) (push_all-append xs ys o)

  push_all-some :
      (xs before after : Text) → push_all xs (some (before, after)) ≡ some (xs ++ before, after)
  push_all-some [] before after = refl
  push_all-some (x ∷ xs) before after = ap (push x) (push_all-some xs before after)

  inside-escaped :
      (d : ℕ) (v rest : Text)
      → inside d (escape_json v ++ (b'"' ∷ rest))
        ≡ push_all (escape_json v ++ (b'"' ∷ [])) (outside d rest)
  unfolding outside escape_json
  inside-escaped d [] rest = refl
  inside-escaped d (c ∷ cs) rest =
      ap (inside d) (append_assoc (json_byte c) (escape_json cs) (b'"' ∷ rest))
      ∙ (inside-byte d c (escape_json cs ++ (b'"' ∷ rest))
          ∙ (ap (push_all (json_byte c)) (inside-escaped d cs rest)
              ∙ (sym
                    (push_all-append (json_byte c) (escape_json cs ++ (b'"' ∷ [])) (outside d rest))
                  ∙ ap (λ x. push_all x (outside d rest))
                      (sym (append_assoc (json_byte c) (escape_json cs) (b'"' ∷ []))))))

  outside-quoted :
      (d : ℕ) (v xs : Text)
      → outside d (print_piece (quoted v) ++ xs) ≡ push_all (print_piece (quoted v)) (outside d xs)
  unfolding outside
  outside-quoted d v xs =
      ap (push b'"')
        (ap (inside d) (append_assoc (escape_json v) (b'"' ∷ []) xs) ∙ inside-escaped d v xs)

  outside-end :
      (rest : Text) → are_brackets ≡ true → outside 0 (close_byte ∷ rest) ≡ some ([], rest)
  unfolding outside
  outside-end rest b = ground (arith, b)

  outside-opening :
      (d : ℕ) (xs : Text)
      → are_brackets ≡ true
      → outside d (open_byte ∷ xs) ≡ push open_byte (outside (suc d) xs)
  unfolding outside
  outside-opening d xs b = ground (arith, b)

  outside-closing :
      (d : ℕ) (xs : Text)
      → are_brackets ≡ true
      → outside (suc d) (close_byte ∷ xs) ≡ push close_byte (outside d xs)
  unfolding outside
  outside-closing d xs b = ground (arith, b)

  outside-plain :
      (d c : ℕ) (xs : Text)
      → (not (c == b'"') && (not (c == open_byte) && not (c == close_byte))) ≡ true
      → outside d (c ∷ xs) ≡ push c (outside d xs)
  unfolding outside
  outside-plain d c xs b = ground (arith, b)

  matched_quoted :
      (d : ℕ) (v : Text) (ps : List Piece)
      → are_matched d (quoted v ∷ ps) ≡ true
      → are_matched d ps ≡ true
  matched_quoted zero v ps h = h
  matched_quoted (suc d) v ps h = h

  matched_opening :
      (d : ℕ) (ps : List Piece)
      → are_matched d (opening ∷ ps) ≡ true
      → are_matched (suc d) ps ≡ true
  matched_opening zero ps h = h
  matched_opening (suc d) ps h = h

  matched_plain :
      (d c : ℕ) (ps : List Piece)
      → are_matched d (plain c ∷ ps) ≡ true
      → ((not (c == b'"') && (not (c == open_byte) && not (c == close_byte))) ≡ true)
        × (are_matched d ps ≡ true)
  matched_plain zero c ps h = (ground (arith, h), ground (arith, h))
  matched_plain (suc d) c ps h = (ground (arith, h), ground (arith, h))

  same_open : (open_byte == open_byte) ≡ true
  same_open = ground arith

  outside-pieces :
      (d : ℕ) (ps : List Piece) (rest : Text)
      → are_brackets ≡ true
      → are_matched d ps ≡ true
      → outside d (print_pieces ps ++ (close_byte ∷ rest)) ≡ some (print_pieces ps, rest)
  outside-pieces zero [] rest b h = outside-end rest b
  outside-pieces (suc d) [] rest b h = absurd (ground (arith, h))
  outside-pieces d (quoted v ∷ ps) rest b h =
      ap (outside d) (append_assoc (print_piece (quoted v)) (print_pieces ps) (close_byte ∷ rest))
      ∙ (outside-quoted d v (print_pieces ps ++ (close_byte ∷ rest))
          ∙ (ap (push_all (print_piece (quoted v)))
                (outside-pieces d ps rest b (matched_quoted d v ps h))
              ∙ push_all-some (print_piece (quoted v)) (print_pieces ps) rest))
  outside-pieces d (opening ∷ ps) rest b h =
      outside-opening d (print_pieces ps ++ (close_byte ∷ rest)) b
      ∙ ap (push open_byte) (outside-pieces (suc d) ps rest b (matched_opening d ps h))
  outside-pieces zero (closing ∷ ps) rest b h = absurd (ground (arith, h))
  outside-pieces (suc d) (closing ∷ ps) rest b h =
      outside-closing d (print_pieces ps ++ (close_byte ∷ rest)) b
      ∙ ap (push close_byte) (outside-pieces d ps rest b h)
  outside-pieces d (plain c ∷ ps) rest b h =
      outside-plain d c (print_pieces ps ++ (close_byte ∷ rest)) (matched_plain d c ps h).0
      ∙ ap (push c) (outside-pieces d ps rest b (matched_plain d c ps h).1)

  -- For brackets that are two bytes other than the quote: the closing bracket that is found is the one
  -- that matches, whatever texts stand in quotes before it.
  pub find_matching-pieces :
      (ps : List Piece) (rest : Text)
      → are_brackets ≡ true
      → are_matched 0 ps ≡ true
      → find_matching (open_byte ∷ (print_pieces ps ++ (close_byte ∷ rest)))
        ≡ some (print_pieces ps, rest)
  unfolding find_matching
  find_matching-pieces ps rest b h = rw same_open (outside-pieces 0 ps rest b h)
