-- ===== src/Control/Api/Media.antt =====
-- The media type that a Content-Type header names, as the control API reads it.
use macrohelp.Base.{
  ◌==◌, [], ◌∷◌, ◌++◌, append_assoc, map, ◌≡◌, refl, ap, ◌∙◌, ==_iff, Bool-cases, inl, inr,
}
use macrohelp.Runtime.Text.{Text, to_lower}
use macrohelp.Control.Text.{AreBlank, trim, trim_start, trim_end, trim_start-front, trim_end-back}
use macrohelp.Control.Api.{before_semicolon}

-- Nothing, or parameters after a semicolon.
abbrev pub AreParameters : Text → Type 0
AreParameters [] = Unit
AreParameters (c ∷ cs) = c ≡ b';'

-- A media type with blanks around it, of these letters in any case, and the parameters after it.
pub record IsMedia (name t : Text) : Type 0 where
  pub front : Text
  pub media : Text
  pub back : Text
  pub parameters : Text
  pub written : t ≡ front ++ (media ++ (back ++ parameters))
  pub front_blank : AreBlank front
  pub back_blank : AreBlank back
  pub are_parameters : AreParameters parameters
  pub named : map to_lower media ≡ name

before_semicolon-rest :
    (t : Text) → (rest : Text) × (t ≡ before_semicolon t ++ rest) × AreParameters rest
before_semicolon-rest [] = ([], refl, tt)
before_semicolon-rest (c ∷ cs) = elim (Bool-cases (c == b';')) [
  | inl e ↦ rw (e, before_semicolon) (c ∷ cs, refl, (==_iff c b';').0 e)
  | inr e ↦
      let (rest, w, b) = before_semicolon-rest cs in
      rw (e, before_semicolon) (rest, ap (λ l. c ∷ l) w, b)
]

-- What is compared with a name was written as a media type of that name.
pub trim-IsMedia :
    (name t : Text) → map to_lower (trim (before_semicolon t)) ≡ name → IsMedia name t
unfolding trim
trim-IsMedia name t e =
    let (rest, w, p) = before_semicolon-rest t in
    let (front, x, b) = trim_start-front (before_semicolon t) in
    let (back, y, d) = trim_end-back (trim_start (before_semicolon t)) in
    let m : Text = trim_end (trim_start (before_semicolon t)) in
    record {
      front = front;
      media = m;
      back = back;
      parameters = rest;
      written =
          w
          ∙ ap (λ l. l ++ rest) (x ∙ ap (λ l. front ++ l) y)
          ∙ append_assoc front (m ++ back) rest
          ∙ ap (λ l. front ++ l) (append_assoc m back rest);
      front_blank = b;
      back_blank = d;
      are_parameters = p;
      named = e;
    }
