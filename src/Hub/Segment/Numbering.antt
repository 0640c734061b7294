-- ===== src/Hub/Segment/Numbering.antt =====
-- The number of sequences stays right while branches are skipped and includes are put in.
use macrohelp.Base.{
  ℕ, ◌+◌, ◌-◌, ◌||◌, ltb, Bool, true, false, List, [], ◌∷◌, ◌++◌, ◌≡◌, ◌⊎◌, refl, length, drop,
  arith, Bool-cases, inl, inr,
}
use macrohelp.Runtime.Text.{Text, bytes, text_eq, trim_ascii, lower_ascii}
use macrohelp.Hub.Branches.{plain, kind_of_lower, kind_of, branches_active}
use macrohelp.Hub.Host.{Host, Reply, answer, rejected, raised}
use macrohelp.Hub.Rgd.{SourceToken, Expansion, included, failed, rgd_tokens}
use macrohelp.Hub.Segment.{
  Cursor, Work, is_wait, is_include, waits, word_then_space, round, opened, spliced, emitted,
  open_branch, do_plain,
}
use macrohelp.Hub.Segment.Loop.{Keeps, List-cases}
use macrohelp.Hub.Segment.Bounds.{Kind-cases}

wait_word :
    (lower : Text)
    → word_then_space (bytes "wait") lower ≡ true
    → (kind_of_lower lower ≡ plain)
      × ((text_eq lower (bytes "rgd") || word_then_space (bytes "rgd") lower) ≡ false)
unfolding kind_of_lower
wait_word [] e = ground arith
wait_word (c ∷ cs) e = ground arith

-- A wait stands at no branch, and is no include.
wait_plain : (t : Text) → is_wait t ≡ true → (kind_of t ≡ plain) × (is_include t ≡ false)
unfolding kind_of is_wait is_include
wait_plain t e = wait_word (lower_ascii (trim_ascii t)) e

abbrev pub one_if : Bool → ℕ
one_if false = 0
one_if true = 1

-- The next token is a wait that counts.
abbrev pub IsAtWait : Cursor → Type 0
IsAtWait c = elim c.tokens [
  | [] ↦ ⊥
  | t ∷ ts ↦ (is_wait t.text ≡ true) × (branches_active c.branches ≡ true)
]

-- In a segment: the waits ahead are the sequences to come, but one that begins this segment.
pub record Numbered (lead : Bool) (c : Cursor) : Type 0 where
  pub counted : c.total + one_if lead ≡ c.index + waits c.tokens
  pub at_wait : lead ≡ true → IsAtWait c
  pub cleared : c.leading_wait ≡ false

-- After a segment: the waits ahead are the sequences to come.
pub record Resumable (c : Cursor) : Type 0 where
  pub counted : c.total ≡ c.index + waits c.tokens
  pub at_wait :
      ((c.leading_wait ≡ false) × (c.tokens ≡ [])) ⊎ ((c.leading_wait ≡ true) × IsAtWait c)

waits-append : (xs ys : List SourceToken) → waits (xs ++ ys) ≡ waits xs + waits ys
unfolding waits
waits-append [] ys = omega arith
waits-append (t ∷ xs) ys = ground (arith, waits-append xs ys)

between :
    (lead : Bool) (c : Cursor)
    → c.total ≡ c.index + waits c.tokens
    → lead ≡ false
    → c.leading_wait ≡ false
    → Numbered lead c
between lead c counted off cleared = record {
  counted = rw off (omega (arith, counted));
  at_wait = λ e. ground (arith, e, off);
  cleared = cleared;
}

module _ {G A : Type 0} where
  -- A work at whose first token no wait is.
  abbrev IsBetween : Work G A → Type 0
  IsBetween w =
      (w.cursor.total ≡ w.cursor.index + waits w.cursor.tokens)
      × (w.leading ≡ false)
      × (w.cursor.leading_wait ≡ false)

  abbrev pub Onward : Work G A → Type 0
  Onward w = Numbered w.leading w.cursor

  abbrev pub Halted : Work G A → Type 0
  Halted w = Resumable w.cursor

  opened-Keeps :
      (source : Text) (w : Work G A) (r : Reply Bool)
      → IsBetween w
      → Keeps Onward Halted (opened source w r)
  unfolding opened
  opened-Keeps source w (answer condition) b = between _ _ b.0 b.1 b.2
  opened-Keeps source w (rejected message) b = tt
  opened-Keeps source w (raised message) b = tt

  spliced-Keeps :
      (w : Work G A) (n : ℕ) (e : Expansion) → IsBetween w → Keeps Onward Halted (spliced w n e)
  unfolding spliced
  spliced-Keeps w n (included cs) b =
      between _ _ (omega (arith, waits-append cs w.cursor.tokens)) b.1 b.2
  spliced-Keeps w n (failed message stop) b = tt

  emitted-Keeps :
      (source : Text) (w : Work G A) (r : Reply (List A × Bool))
      → IsBetween w
      → Keeps Onward Halted (emitted source w r)
  unfolding emitted
  emitted-Keeps source w (answer (actions, focus)) b = between _ _ b.0 b.1 b.2
  emitted-Keeps source w (rejected message) b = tt
  emitted-Keeps source w (raised message) b = tt

module _ {G A : Type 0} (h : Host G A) where
  open_branch-Keeps :
      (t : SourceToken) (w : Work G A) → IsBetween w → Keeps Onward Halted (open_branch h t w)
  unfolding open_branch
  open_branch-Keeps t w b = elim (Bool-cases (ltb (length w.cursor.branches) 16)) [
    | inr e ↦ rw (e, open_branch) tt
    | inl e ↦ elim (Bool-cases (branches_active w.cursor.branches)) [
      | inr f ↦ rw (e, f, open_branch) (between _ _ b.0 b.1 b.2)
      | inl f ↦
          rw (e, f, open_branch)
            (let (g, r) = h.evaluate (drop 3 (trim_ascii t.text)) w.env in
              opened-Keeps t.source (record w { env = g }) r b)
    ]
  ]

  -- What stands before a round on a token, which is taken off.
  abbrev pub IsDue : SourceToken → Work G A → Type 0
  IsDue t w =
      (w.cursor.total + one_if w.leading ≡ w.cursor.index + waits (t ∷ w.cursor.tokens))
      × (w.leading ≡ true → (is_wait t.text ≡ true) × (branches_active w.cursor.branches ≡ true))
      × (w.cursor.leading_wait ≡ false)

  -- A token that is no wait stands between sequences.
  due-IsBetween :
      (t : SourceToken) (w : Work G A) → IsDue t w → is_wait t.text ≡ false → IsBetween w
  unfolding waits
  due-IsBetween t w d e = elim (Bool-cases w.leading) [
    | inl l ↦ absurd (ground (arith, d.1 l, e))
    | inr l ↦ (ground (arith, d.0, l, e), l, d.2)
  ]

  -- A wait that begins the segment, one that ends it, and one in a branch that is not taken.
  due_leading :
      (t : SourceToken) (w : Work G A)
      → IsDue t w
      → is_wait t.text ≡ true
      → w.leading ≡ true
      → w.cursor.total ≡ w.cursor.index + waits w.cursor.tokens
  unfolding waits
  due_leading t w d f l = ground (arith, d.0, f, l)

  due_waiting :
      (t : SourceToken) (w : Work G A)
      → IsDue t w
      → w.leading ≡ false
      → w.cursor.total ≡ w.cursor.index + waits (t ∷ w.cursor.tokens)
  due_waiting t w d l = ground (arith, d.0, l)

  due_dead :
      (t : SourceToken) (w : Work G A)
      → IsDue t w
      → is_wait t.text ≡ true
      → w.leading ≡ false
      → w.cursor.total - 1 ≡ w.cursor.index + waits w.cursor.tokens
  unfolding waits
  due_dead t w d f l = ground (arith, d.0, f, l)

  do_plain-Keeps :
      (t : SourceToken) (w : Work G A) → IsDue t w → Keeps Onward Halted (do_plain h true t w)
  unfolding do_plain
  do_plain-Keeps t w d = elim (Bool-cases (branches_active w.cursor.branches)) [
    | inr e ↦ elim (Bool-cases (is_wait t.text)) [
      | inl f ↦ elim (Bool-cases w.leading) [
        | inl l ↦ absurd (ground (arith, d.1 l, e))
        | inr l ↦ rw (e, f, do_plain) (between _ _ (due_dead t w d f l) l d.2)
      ]
      | inr f ↦ rw (e, f, do_plain) (let b = due-IsBetween t w d f in between _ _ b.0 b.1 b.2)
    ]
    | inl e ↦ elim (Bool-cases (is_wait t.text)) [
      | inl f ↦ elim (Bool-cases w.leading) [
        | inl l ↦
            rw (e, (wait_plain t.text f).1, f, l, do_plain)
              (emitted-Keeps t.source _ _ (due_leading t w d f l, refl, d.2))
        | inr l ↦
            rw (e, (wait_plain t.text f).1, f, l, do_plain)
              (record { counted = due_waiting t w d l; at_wait = inr (refl, (f, e)) })
      ]
      | inr f ↦ elim (Bool-cases (is_include t.text)) [
        | inl g ↦
            rw (e, g, do_plain)
              (spliced-Keeps (record w { env = (rgd_tokens h t w.cursor.expanded_bytes w.env).0 }) _
                _ (due-IsBetween t w d f))
        | inr g ↦ rw (e, g, f, do_plain) (emitted-Keeps t.source _ _ (due-IsBetween t w d f))
      ]
    ]
  ]

  pub round-Keeps :
      (t : SourceToken) (w : Work G A) → IsDue t w → Keeps Onward Halted (round h true t w)
  unfolding round
  round-Keeps t w d = elim (Bool-cases (is_wait t.text)) [
    | inl f ↦ rw ((wait_plain t.text f).0, round) (do_plain-Keeps t w d)
    | inr f ↦
        let b = due-IsBetween t w d f in
        elim (Kind-cases (kind_of t.text)) [
          | inl e ↦ rw (e, round) (open_branch-Keeps t w b)
          | inr (inl e) ↦ elim (List-cases w.cursor.branches) [
            | inl g ↦ rw (e, g, round) tt
            | inr (x, xs, g) ↦ rw (e, g, round) (between _ _ b.0 b.1 b.2)
          ]
          | inr (inr (inl e)) ↦ elim (List-cases w.cursor.branches) [
            | inl g ↦ rw (e, g, round) tt
            | inr (x, xs, g) ↦ rw (e, g, round) (between _ _ b.0 b.1 b.2)
          ]
          | inr (inr (inr e)) ↦ rw (e, round) (do_plain-Keeps t w d)
        ]
  ]
