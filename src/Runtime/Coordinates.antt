-- ===== src/Runtime/Coordinates.antt =====
-- `ParsePointCoordinates`, `ParseZoneBufferCoordinates`, `PointValueUtf8` and `ZoneValueUtf8` of
-- runtime/source/src/main.cpp: the numbers that stand in a text.
use macrohelp.Base.{
  ℕ, zero, suc, ◌*◌, ◌≤◌, ◌==◌, ℤ, true, false, Option, none, some, List, [], ◌∷◌, ◌++◌, All, ◌≡◌,
  refl, ap, sym, subst, append-nil, length-append, all-append, ltb, Bool-cases, Option-cases, inl,
  inr, ◌∙◌, arith, length,
}
use macrohelp.Base.Json.{fits_int}
use macrohelp.Runtime.Text.{Text}
use macrohelp.Runtime.Decimal.{
  print_int, scan_long, scan_long-print_int, print_int_head, scan_long-Shorter, no_digit, is_ascii,
  print_int_ascii,
}

-- A number where one starts, or else a step over one byte, up to a byte 0. Each round takes a byte at
-- least, so the length of the text is fuel enough.
unfoldable pub numbers_from : ℕ → Text → List ℤ
unfolding scan_long
numbers_from zero t = []
numbers_from (suc f) [] = []
numbers_from (suc f) (c ∷ cs) = elim (c == 0) [
  | true ↦ []
  | false ↦ elim (scan_long (c ∷ cs)) [
    | none ↦ numbers_from f cs
    | some (n, rest) ↦ n ∷ numbers_from f rest
  ]
]

unfoldable pub numbers : Text → List ℤ
unfolding numbers_from
numbers t = numbers_from (length t) t

abbrev pub Point : Type 0
Point = ℤ × ℤ

abbrev two_first : List ℤ → Option Point
two_first (x ∷ y ∷ rest) = some (x, y)
two_first _ = none

abbrev exactly_four : List ℤ → Option (Point × Point)
exactly_four (a ∷ b ∷ c ∷ d ∷ []) = some ((a, b), (c, d))
exactly_four _ = none

unfoldable pub parse_point : Text → Option Point
unfolding numbers
parse_point t = two_first (numbers t)

unfoldable pub parse_zone : Text → Option (Point × Point)
unfolding numbers
parse_zone t = exactly_four (numbers t)

-- Numbers with commas between them.
unfoldable pub print_numbers : List ℤ → Text
unfolding print_int
print_numbers [] = []
print_numbers (n ∷ []) = print_int n
print_numbers (n ∷ m ∷ ns) = print_int n ++ (b',' ∷ print_numbers (m ∷ ns))

unfoldable pub print_point : Point → Text
unfolding print_numbers
print_point (x, y) = print_numbers (x ∷ y ∷ [])

unfoldable pub print_zone : Point × Point → Text
unfolding print_numbers
print_zone ((a, b), (c, d)) = print_numbers (a ∷ b ∷ c ∷ d ∷ [])

numbers_from_nil : (f : ℕ) → numbers_from f [] ≡ []
unfolding numbers_from
numbers_from_nil zero = refl
numbers_from_nil (suc f) = refl

numbers_from-print_int :
    (f : ℕ) (n : ℤ) (rest : Text)
    → fits_int n ≡ true
    → no_digit rest ≡ true
    → numbers_from (suc f) (print_int n ++ rest) ≡ n ∷ numbers_from f rest
unfolding numbers_from
numbers_from-print_int f n rest h e =
    let (c, cs, shape, nonzero) = print_int_head n in
    let read : scan_long (c ∷ (cs ++ rest)) ≡ some (n, rest) =
      subst (λ t. scan_long (t ++ rest) ≡ some (n, rest)) shape (scan_long-print_int n rest h e) in
    rw shape (rw (nonzero, numbers_from) (rw (read, numbers_from) refl))

-- A comma is stepped over.
numbers_from-comma : (f : ℕ) (t : Text) → numbers_from (suc f) (b',' ∷ t) ≡ numbers_from f t
unfolding numbers_from
numbers_from-comma f t = refl

numbers_from-print_numbers :
    (f : ℕ) (ns : List ℤ)
    → All (λ n. fits_int n ≡ true) ns
    → 2 * length ns ≤ suc f
    → numbers_from f (print_numbers ns) ≡ ns
unfolding print_numbers numbers_from
numbers_from-print_numbers zero [] h b = refl
numbers_from-print_numbers (suc f) [] h b = refl
numbers_from-print_numbers zero (n ∷ ns) h b = absurd (omega arith)
numbers_from-print_numbers (suc f) (n ∷ []) (h, _) b =
    ap (numbers_from (suc f)) (sym (append-nil (print_int n)))
    ∙ (numbers_from-print_int f n [] h refl ∙ ap (λ r. n ∷ r) (numbers_from_nil f))
numbers_from-print_numbers (suc zero) (n ∷ m ∷ ns) h b = absurd (omega arith)
numbers_from-print_numbers (suc (suc f)) (n ∷ m ∷ ns) (h, hs) b =
    numbers_from-print_int (suc f) n (b',' ∷ print_numbers (m ∷ ns)) h refl
    ∙ ap (λ r. n ∷ r)
        (numbers_from-comma f (print_numbers (m ∷ ns))
          ∙ numbers_from-print_numbers f (m ∷ ns) hs (omega arith))

length-print_int : (n : ℤ) → 1 ≤ length (print_int n)
length-print_int n = let (c, cs, shape, _) = print_int_head n in rw shape (omega arith)

length-print_numbers :
    (n : ℤ) (ns : List ℤ) → 2 * length (n ∷ ns) ≤ suc (length (print_numbers (n ∷ ns)))
unfolding print_numbers
length-print_numbers n [] = omega (arith, length-print_int n)
length-print_numbers n (m ∷ ns) = omega (
  arith,
  length-print_int n,
  length-append (print_int n) (b',' ∷ print_numbers (m ∷ ns)),
  length-print_numbers m ns,
)

numbers_from_agree :
    (f g : ℕ) (t : Text) → length t ≤ f → length t ≤ g → numbers_from f t ≡ numbers_from g t
unfolding numbers_from
numbers_from_agree f g [] h k = numbers_from_nil f ∙ sym (numbers_from_nil g)
numbers_from_agree zero g (c ∷ cs) h k = absurd (omega arith)
numbers_from_agree (suc f) zero (c ∷ cs) h k = absurd (omega arith)
numbers_from_agree (suc f) (suc g) (c ∷ cs) h k = elim (Bool-cases (c == 0)) [
  | inl e ↦ rw (e, numbers_from) refl
  | inr e ↦ elim (Option-cases (scan_long (c ∷ cs))) [
    | inl l ↦ rw (e, l, numbers_from) (numbers_from_agree f g cs (omega arith) (omega arith))
    | inr ((n, rest), l) ↦
        let shorter = scan_long-Shorter (c ∷ cs) rest n l in
        rw (e, l, numbers_from)
          (ap (λ r. n ∷ r) (numbers_from_agree f g rest (omega arith) (omega arith)))
  ]
]

-- Any fuel from the length of the text on gives the same numbers.
pub numbers_from_enough : (f : ℕ) (t : Text) → length t ≤ f → numbers_from f t ≡ numbers t
unfolding numbers
numbers_from_enough f t h = numbers_from_agree f (length t) t h (omega arith)

numbers-print_numbers :
    (ns : List ℤ) → All (λ n. fits_int n ≡ true) ns → numbers (print_numbers ns) ≡ ns
unfolding numbers print_numbers
numbers-print_numbers [] h = refl
numbers-print_numbers (n ∷ ns) h =
    numbers_from-print_numbers (length (print_numbers (n ∷ ns))) (n ∷ ns) h
      (length-print_numbers n ns)

abbrev pub PointFits : Point → Type 0
PointFits p = (fits_int p.0 ≡ true) × (fits_int p.1 ≡ true)

-- Printed points and zones are read back.
pub parse_point-print_point : (p : Point) → PointFits p → parse_point (print_point p) ≡ some p
unfolding parse_point print_point
parse_point-print_point (x, y) (h, k) =
    ap two_first (numbers-print_numbers (x ∷ y ∷ []) (h, (k, tt)))

pub parse_zone-print_zone :
    (z : Point × Point) → PointFits z.0 → PointFits z.1 → parse_zone (print_zone z) ≡ some z
unfolding parse_zone print_zone
parse_zone-print_zone ((a, b), (c, d)) (h, k) (l, m) =
    ap exactly_four (numbers-print_numbers (a ∷ b ∷ c ∷ d ∷ []) (h, (k, (l, (m, tt)))))

pub parse_point_empty : parse_point [] ≡ none
unfolding parse_point
parse_point_empty = refl

pub parse_zone_empty : parse_zone [] ≡ none
unfolding parse_zone
parse_zone_empty = refl

print_numbers_ascii : (ns : List ℤ) → is_ascii (print_numbers ns) ≡ true
unfolding print_numbers
print_numbers_ascii [] = refl
print_numbers_ascii (n ∷ []) = print_int_ascii n
print_numbers_ascii (n ∷ m ∷ ns) =
    all-append (λ c. ltb c 128) (print_int n) (b',' ∷ print_numbers (m ∷ ns)) (print_int_ascii n)
      (print_numbers_ascii (m ∷ ns))

pub print_point_ascii : (p : Point) → is_ascii (print_point p) ≡ true
unfolding print_point
print_point_ascii (x, y) = print_numbers_ascii (x ∷ y ∷ [])

pub print_zone_ascii : (z : Point × Point) → is_ascii (print_zone z) ≡ true
unfolding print_zone
print_zone_ascii ((a, b), (c, d)) = print_numbers_ascii (a ∷ b ∷ c ∷ d ∷ [])
