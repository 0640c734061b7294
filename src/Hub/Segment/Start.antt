-- ===== src/Hub/Segment/Start.antt =====
-- The cursor that `PrepareRegistryDispatch` makes.
use macrohelp.Base.{
  ◌+◌, leb, true, false, [], ◌∷◌, length, ◌≡◌, refl, ap, sym, subst, arith, Bool-cases, leb→le, inl,
  inr,
}
use macrohelp.Control.Checked.{WhenDone, Checked-cases}
use macrohelp.Runtime.Text.{Text}
use macrohelp.Hub.Tokens.{extract_tokens}
use macrohelp.Hub.Branches.{validate}
use macrohelp.Hub.Branches.Nesting.{balanced, is_accepted, validate-balanced}
use macrohelp.Hub.Rgd.Bounds.{distinct, texts-labelled, labelled-IsApart}
use macrohelp.Hub.Segment.{Cursor, prepare, waits}
use macrohelp.Hub.Segment.Bounds.{IsProper}
use macrohelp.Hub.Segment.Loop.{List-cases}

pub record IsFresh (c : Cursor) : Type 0 where
  pub proper : IsProper c
  pub counted : c.total ≡ c.index + waits c.tokens
  pub first : c.index ≡ 1
  pub unsplit : c.leading_wait ≡ false

-- A script that is accepted gives a proper cursor at the first of as many sequences as its waits.
pub prepare-IsFresh : (script : Text) → WhenDone IsFresh (prepare script)
unfolding prepare is_accepted distinct
prepare-IsFresh script = elim (Checked-cases (extract_tokens script)) [
  | inr (status, message, e) ↦ rw (e, prepare) tt
  | inl (tokens, e) ↦ elim (Bool-cases (leb (length script) 1048576)) [
    | inr b ↦ rw (e, b, prepare) tt
    | inl b ↦ elim (List-cases tokens) [
      | inl n ↦ rw (e, b, n, prepare) tt
      | inr (t, ts, n) ↦ elim (Checked-cases (validate (t ∷ ts))) [
        | inr (status, message, v) ↦ rw (e, b, n, v, prepare) tt
        | inl (u, v) ↦
            rw (e, b, n, v, prepare)
              (record {
                proper = record {
                  nested =
                      subst (λ x. balanced x 0 ≡ true) (sym (texts-labelled [] [] (t ∷ ts)))
                        (validate-balanced (t ∷ ts) (ap is_accepted v));
                  within = leb→le _ _ b;
                  apart = labelled-IsApart [] [] (t ∷ ts) (omega arith, refl);
                };
                counted = refl;
                first = refl;
                unsplit = refl;
              })
      ]
    ]
  ]
]
