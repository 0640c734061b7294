-- ===== src/Hub/Segment/Bounds.antt =====
-- The compiler never looks for a branch that is not there, and it ends.
use macrohelp.Base.{
  ℕ, zero, suc, ◌≢◌, ◌≤◌, ◌<◌, ltb, Bool, true, false, ◌&&◌, List, [], ◌∷◌, ◌++◌, length,
  length-append, All, All-append, ◌≡◌, refl, sym, ap, subst, arith, Bool-cases, inl, inr, drop, ◌⊎◌,
}
use macrohelp.Runtime.Text.{Text, trim_ascii}
use macrohelp.Hub.Branches.{opening, switching, closing, plain, kind_of, Kind, branches_active}
use macrohelp.Hub.Branches.Nesting.{balanced, balanced-append}
use macrohelp.Hub.Host.{Host, Reply, answer, rejected, raised}
use macrohelp.Hub.Rgd.{SourceToken, texts, Expansion, included, failed, rgd_tokens}
use macrohelp.Hub.Rgd.Bounds.{IsApart, Fits, rgd_tokens-Fits}
use macrohelp.Hub.Segment.{
  Cursor, Work, round, take_off, work_left, compile_segment, open_branch, do_plain, spliced,
  emitted, opened, emit_token, is_wait, is_include,
}
use macrohelp.Hub.Segment.Loop.{List-cases, Settles, Settles-mono, run_rounds-Settles}

pub record IsProper (c : Cursor) : Type 0 where
  pub nested : balanced (texts c.tokens) (length c.branches) ≡ true
  pub within : c.expanded_bytes ≤ 1048576
  pub apart : All IsApart c.tokens

pub Kind-cases : (k : Kind) → (k ≡ opening) ⊎ (k ≡ switching) ⊎ (k ≡ closing) ⊎ (k ≡ plain)
Kind-cases opening = inl refl
Kind-cases switching = inr (inl refl)
Kind-cases closing = inr (inr (inl refl))
Kind-cases plain = inr (inr (inr refl))

module _ (t : Text) (ts : List Text) where
  balanced-opening : (d : ℕ) → kind_of t ≡ opening → balanced (t ∷ ts) d ≡ balanced ts (suc d)
  unfolding balanced
  balanced-opening d e = rw (e, balanced) refl

  balanced-plain : (d : ℕ) → kind_of t ≡ plain → balanced (t ∷ ts) d ≡ balanced ts d
  unfolding balanced
  balanced-plain d e = rw (e, balanced) refl

  -- Tokens that switch or close stand in a branch.
  balanced-switching :
      (d : ℕ)
      → kind_of t ≡ switching
      → balanced (t ∷ ts) d ≡ true
      → (d ≢ 0) × (balanced ts d ≡ true)
  unfolding balanced
  balanced-switching zero e = rw (e, balanced) (ground arith)
  balanced-switching (suc d) e = rw (e, balanced) (ground arith)

  balanced-closing :
      (d : ℕ)
      → kind_of t ≡ closing
      → balanced (t ∷ ts) d ≡ true
      → (k : ℕ) × (d ≡ suc k) × (balanced ts k ≡ true)
  unfolding balanced
  balanced-closing zero e = rw (e, balanced) (ground arith)
  balanced-closing (suc d) e = rw (e, balanced) (λ q. (d, refl, q))

texts-append : (xs ys : List SourceToken) → texts (xs ++ ys) ≡ texts xs ++ texts ys
texts-append [] ys = refl
texts-append (t ∷ xs) ys = ap (λ r. t.text ∷ r) (texts-append xs ys)

-- An include's tokens put in front of a proper cursor's.
spliced-IsProper :
    (c : Cursor) (n1 total : ℕ) (cs : List SourceToken)
    → IsProper c
    → Fits c.expanded_bytes n1 (included cs)
    → IsProper (record c { expanded_bytes = n1; tokens = cs ++ c.tokens; total = total })
spliced-IsProper c n1 total cs p (few, within, nested, apart) = record {
  nested =
      subst (λ x. balanced x (length c.branches) ≡ true) (sym (texts-append cs c.tokens))
        (balanced-append (texts cs) (texts c.tokens) (length c.branches) nested p.nested);
  within = within;
  apart = All-append IsApart cs c.tokens apart p.apart;
}

spliced-work_left :
    (c : Cursor) (n1 total : ℕ) (cs : List SourceToken)
    → IsProper c
    → Fits c.expanded_bytes n1 (included cs)
    → work_left (record c { expanded_bytes = n1; tokens = cs ++ c.tokens; total = total })
      ≤ work_left c
unfolding work_left
spliced-work_left c n1 total cs p (few, within, nested, apart) =
    omega (arith, length-append cs c.tokens, p.within)

-- A cursor that has one branch more to close.
abbrev IsDeeper : Cursor → Type 0
IsDeeper c =
    (balanced (texts c.tokens) (suc (length c.branches)) ≡ true)
    × (c.expanded_bytes ≤ 1048576)
    × All IsApart c.tokens

module _ {G A : Type 0} where
  -- A round leaves a proper cursor with no more to do; only a wait is put back.
  abbrev pub Onward : Cursor → Work G A → Type 0
  Onward c w1 = IsProper w1.cursor × (work_left w1.cursor ≤ work_left c)

  abbrev pub Halted : Work G A → Work G A → Type 0
  Halted w w1 =
      IsProper w1.cursor × (work_left w1.cursor ≤ suc (work_left w.cursor)) × (w.leading ≡ false)

  spliced-Settles :
      (w : Work G A) (n : ℕ) (e : Expansion)
      → IsProper w.cursor
      → Fits w.cursor.expanded_bytes n e
      → Settles (Onward w.cursor) (Halted w) (spliced w n e)
  unfolding spliced
  spliced-Settles w n (failed message stop) p f = tt
  spliced-Settles w n (included cs) p f =
      (spliced-IsProper w.cursor n _ cs p f, spliced-work_left w.cursor n _ cs p f)

  emitted-Settles :
      (Q : Work G A → Type 0) (source : Text) (w : Work G A) (r : Reply (List A × Bool))
      → IsProper w.cursor
      → Settles (Onward w.cursor) Q (emitted source w r)
  unfolding emitted work_left
  emitted-Settles Q source w (answer (actions, focus)) p =
      (record { nested = p.nested; within = p.within; apart = p.apart }, omega arith)
  emitted-Settles Q source w (rejected message) p = tt
  emitted-Settles Q source w (raised message) p = tt

  opened-Settles :
      (source : Text) (w : Work G A) (r : Reply Bool)
      → IsDeeper w.cursor
      → Settles (Onward w.cursor) (Halted w) (opened source w r)
  unfolding opened work_left
  opened-Settles source w (answer condition) p =
      (record { nested = p.0; within = p.1; apart = p.2 }, omega arith)
  opened-Settles source w (rejected message) p = tt
  opened-Settles source w (raised message) p = tt

module _ {G A : Type 0} (h : Host G A) where
  open_branch-Settles :
      (t : SourceToken) (w : Work G A)
      → IsDeeper w.cursor
      → Settles (Onward w.cursor) (Halted w) (open_branch h t w)
  unfolding open_branch work_left
  open_branch-Settles t w p = elim (Bool-cases (ltb (length w.cursor.branches) 16)) [
    | inr e ↦ rw (e, open_branch) tt
    | inl e ↦ elim (Bool-cases (branches_active w.cursor.branches)) [
      | inr f ↦
          rw (e, f, open_branch) (record { nested = p.0; within = p.1; apart = p.2 }, omega arith)
      | inl f ↦
          rw (e, f, open_branch)
            (let (g, r) = h.evaluate (drop 3 (trim_ascii t.text)) w.env in
              opened-Settles t.source (record w { env = g }) r p)
    ]
  ]

  emit_token-Settles :
      (Q : Work G A → Type 0) (t : SourceToken) (w : Work G A)
      → IsProper w.cursor
      → Settles (Onward w.cursor) Q (emit_token h t w)
  unfolding emit_token
  emit_token-Settles Q t w p = emitted-Settles Q t.source _ _ p

  do_plain-Settles :
      (split : Bool) (t : SourceToken) (w : Work G A)
      → kind_of t.text ≡ plain
      → IsApart t
      → IsProper w.cursor
      → Settles (Onward w.cursor) (Halted w) (do_plain h split t w)
  unfolding do_plain work_left balanced
  do_plain-Settles split t w k a p = elim (Bool-cases (branches_active w.cursor.branches)) [
    | inr e ↦ elim (Bool-cases (is_wait t.text)) [
      | inl f ↦
          rw (e, f, do_plain)
            (record { nested = p.nested; within = p.within; apart = p.apart }, omega arith)
      | inr f ↦ rw (e, f, do_plain) (p, omega arith)
    ]
    | inl e ↦ elim (Bool-cases (is_include t.text)) [
      | inl f ↦
          rw (e, f, do_plain)
            (spliced-Settles (record w { env = (rgd_tokens h t w.cursor.expanded_bytes w.env).0 }) _
              _ p (rgd_tokens-Fits h t w.cursor.expanded_bytes w.env p.within a))
      | inr f ↦ elim (Bool-cases (split && is_wait t.text)) [
        | inr g ↦ rw (e, f, g, do_plain) (emit_token-Settles _ t w p)
        | inl g ↦ elim (Bool-cases w.leading) [
          | inl l ↦
              rw (e, f, g, l, do_plain) (emit_token-Settles _ t (record w { leading = false }) p)
          | inr l ↦
              rw (e, f, g, l, do_plain)
                (
                  record {
                    nested = rw (k, balanced) p.nested;
                    within = p.within;
                    apart = (a, p.apart);
                  },
                  omega arith,
                  refl,
                )
        ]
      ]
    ]
  ]

  round-Settles :
      (split : Bool) (t : SourceToken) (w : Work G A)
      → balanced (t.text ∷ texts w.cursor.tokens) (length w.cursor.branches) ≡ true
      → w.cursor.expanded_bytes ≤ 1048576
      → IsApart t
      → All IsApart w.cursor.tokens
      → Settles (Onward w.cursor) (Halted w) (round h split t w)
  unfolding round work_left
  round-Settles split t w n b a rest = elim (Kind-cases (kind_of t.text)) [
    | inl e ↦
        rw (e, round)
          (open_branch-Settles t w (
            subst (λ x. x ≡ true)
                (balanced-opening t.text (texts w.cursor.tokens) (length w.cursor.branches) e) n,
            b,
            rest,
          ))
    | inr (inl e) ↦ elim (List-cases w.cursor.branches) [
      | inl f ↦ absurd (
          ground (
            arith,
            balanced-switching t.text (texts w.cursor.tokens) (length w.cursor.branches) e n,
            f,
          ))
      | inr (x, xs, f) ↦
          rw (e, f, round)
            (
              record {
                nested = ground (
                  arith,
                  balanced-switching t.text (texts w.cursor.tokens) (length w.cursor.branches) e n,
                  f,
                );
                within = b;
                apart = rest;
              },
              omega arith,
            )
    ]
    | inr (inr (inl e)) ↦ elim (List-cases w.cursor.branches) [
      | inl f ↦ absurd (
          ground (
            arith,
            balanced-closing t.text (texts w.cursor.tokens) (length w.cursor.branches) e n,
            f,
          ))
      | inr (x, xs, f) ↦
          rw (e, f, round)
            (
              record {
                nested = ground (
                  arith,
                  balanced-closing t.text (texts w.cursor.tokens) (length w.cursor.branches) e n,
                  f,
                );
                within = b;
                apart = rest;
              },
              omega arith,
            )
    ]
    | inr (inr (inr e)) ↦
        rw (e, round)
          (do_plain-Settles split t w e a (record {
            nested =
                subst (λ x. x ≡ true)
                  (balanced-plain t.text (texts w.cursor.tokens) (length w.cursor.branches) e) n;
            within = b;
            apart = rest;
          }))
  ]

  pub round_taken-Settles :
      (split : Bool) (t : SourceToken) (ts : List SourceToken) (w : Work G A)
      → w.cursor.tokens ≡ t ∷ ts
      → IsProper w.cursor
      → Settles
          (λ w1. IsProper w1.cursor × (work_left w1.cursor < work_left w.cursor))
          (λ w1.
            IsProper w1.cursor × (work_left w1.cursor ≤ work_left w.cursor) × (w.leading ≡ false))
          (round h split t (take_off ts w))
  unfolding work_left take_off
  round_taken-Settles split t ts w e q =
      let n = subst (λ x. balanced (texts x) (length w.cursor.branches) ≡ true) e q.nested in
      let a : All IsApart (t ∷ ts) = subst (All IsApart) e q.apart in
      Settles-mono (Onward (take_off ts w).cursor) (Halted (take_off ts w)) _ _
        (round h split t (take_off ts w)) (λ w1 (r, b). (r, omega (arith, ap length e)))
        (λ w1 (r, b, l). (r, omega (arith, ap length e), l))
        (round-Settles split t (take_off ts w) n q.within a.0 a.1)

  -- From a proper cursor the compiler ends, and never asks for a branch where none is open; the
  -- cursor that it leaves is proper again.
  pub compile_segment-Settles :
      (split : Bool) (c : Cursor) (g : G)
      → IsProper c
      → Settles (λ _. ⊥) (λ w1. IsProper w1.cursor) (compile_segment h split c g)
  unfolding compile_segment
  compile_segment-Settles split c g p =
      run_rounds-Settles h split (λ w1. IsProper w1.cursor) (λ w1. IsProper w1.cursor)
        (λ t ts w e q.
          Settles-mono _ _ _ _ (round h split t (take_off ts w)) (λ w1 r. r) (λ w1 r. r.0)
            (round_taken-Settles split t ts w e q))
        (λ w e q. q) (suc (work_left c)) _ (omega arith)
        (record { nested = p.nested; within = p.within; apart = p.apart })
