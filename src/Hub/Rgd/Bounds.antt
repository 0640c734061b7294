-- ===== src/Hub/Rgd/Bounds.antt =====
-- What an include may add: no more tokens than its bytes, balanced branches, and ancestries without a
-- repetition.
use macrohelp.Base.{
  ℕ, leb→le, ◌+◌, ◌≤◌, leb, Bool, true, false, ◌&&◌, ◌||◌, not, List, [], ◌∷◌, ◌++◌, length, any,
  map, All, length-append, ◌≡◌, refl, ap, subst, sym, arith, Bool-cases, inl, inr,
}
use macrohelp.Control.Checked.{Checked-cases}
use macrohelp.Runtime.Text.{Text, text_eq}
use macrohelp.Hub.Tokens.{extract_tokens}
use macrohelp.Hub.Tokens.Size.{AtMost, extract_tokens-AtMost}
use macrohelp.Hub.Branches.{validate}
use macrohelp.Hub.Branches.Nesting.{balanced, is_accepted, validate-balanced}
use macrohelp.Hub.Host.{Host, Reading, read, unreadable, cancelled}
use macrohelp.Hub.Rgd.{
  SourceToken, texts, room_after, Expansion, included, failed, included_tokens, received,
  rgd_tokens, is_reference, reference_of, no_file, key_of,
}

-- No two entries alike.
unfoldable pub distinct : List Text → Bool
distinct [] = true
distinct (k ∷ ks) = not (any (text_eq k) ks) && distinct ks

abbrev pub IsAncestry : List Text → Type 0
IsAncestry ks = (length ks ≤ 16) × (distinct ks ≡ true)

abbrev pub IsApart : SourceToken → Type 0
IsApart t = IsAncestry t.ancestry

-- What `n1` bytes after `n` have made.
abbrev pub Fits : ℕ → ℕ → Expansion → Type 0
Fits n n1 (included cs) =
    (length cs + n ≤ n1) × (n1 ≤ 1048576) × (balanced (texts cs) 0 ≡ true) × All IsApart cs
Fits n n1 (failed message stop) = (n ≤ n1) × (n1 ≤ 1048576)

room_after_le : (n : ℕ) → n ≤ 1048576 → room_after n + n ≡ 1048576
unfolding room_after
room_after_le n h = omega arith

text_eq_sym : (s t : Text) → text_eq s t ≡ text_eq t s
text_eq_sym [] [] = refl
text_eq_sym [] (d ∷ ds) = refl
text_eq_sym (c ∷ cs) [] = refl
text_eq_sym (c ∷ cs) (d ∷ ds) = ground (arith, text_eq_sym cs ds)

any-end :
    (k j : Text) (ks : List Text)
    → any (text_eq k) ks ≡ false
    → text_eq k j ≡ false
    → any (text_eq k) (ks ++ (j ∷ [])) ≡ false
any-end k j [] h e = ground arith
any-end k j (i ∷ ks) h e = ground (arith, any-end k j ks)

distinct-end :
    (key : Text) (ks : List Text)
    → distinct ks ≡ true
    → any (text_eq key) ks ≡ false
    → distinct (ks ++ (key ∷ [])) ≡ true
unfolding distinct
distinct-end key [] h e = refl
distinct-end key (k ∷ ks) h e =
    ground (arith, distinct-end key ks, any-end k key ks, text_eq_sym key k)

-- The tokens of an include, given their texts.
abbrev pub labelled : Text → List Text → List Text → List SourceToken
labelled reference ancestry =
    map (λ t. record { text = t; source = reference; ancestry = ancestry })

pub texts-labelled :
    (reference : Text) (ancestry ts : List Text) → texts (labelled reference ancestry ts) ≡ ts
texts-labelled reference ancestry [] = refl
texts-labelled reference ancestry (t ∷ ts) = ap (λ r. t ∷ r) (texts-labelled reference ancestry ts)

length-labelled :
    (reference : Text) (ancestry ts : List Text)
    → length (labelled reference ancestry ts) ≡ length ts
length-labelled reference ancestry [] = refl
length-labelled reference ancestry (t ∷ ts) = omega (arith, length-labelled reference ancestry ts)

pub labelled-IsApart :
    (reference : Text) (ancestry ts : List Text)
    → IsAncestry ancestry
    → All IsApart (labelled reference ancestry ts)
labelled-IsApart reference ancestry [] h = tt
labelled-IsApart reference ancestry (t ∷ ts) h = (h, labelled-IsApart reference ancestry ts h)

module _ (reference : Text) (ancestry : List Text) (key : Text) where
  included_tokens-Fits :
      (text : Text) (n : ℕ)
      → IsAncestry (ancestry ++ (key ∷ []))
      → n + length text ≤ 1048576
      → Fits n (n + length text) (included_tokens text reference ancestry key)
  unfolding included_tokens is_accepted
  included_tokens-Fits text n fresh room = elim (Checked-cases (extract_tokens text)) [
    | inr (status, message, e) ↦ rw (e, included_tokens) (omega arith, room)
    | inl (ts, e) ↦
        let few : length ts ≤ length text =
          subst (AtMost (length text)) e (extract_tokens-AtMost text) in
        elim (Checked-cases (validate ts)) [
          | inr (status, message, v) ↦ rw (e, v, included_tokens) (omega arith, room)
          | inl (u, v) ↦
              rw (e, v, included_tokens)
                (
                  omega (arith, length-labelled reference (ancestry ++ (key ∷ [])) ts),
                  room,
                  subst (λ x. balanced x 0 ≡ true)
                      (sym (texts-labelled reference (ancestry ++ (key ∷ [])) ts))
                      (validate-balanced ts (ap is_accepted v)),
                  labelled-IsApart reference (ancestry ++ (key ∷ [])) ts fresh,
                )
        ]
  ]

  received-Fits :
      (n : ℕ) (r : Reading)
      → n ≤ 1048576
      → IsAncestry (ancestry ++ (key ∷ []))
      → Fits n (received reference ancestry key n r).0 (received reference ancestry key n r).1
  unfolding received
  received-Fits n (unreadable message) h fresh = (omega arith, h)
  received-Fits n cancelled h fresh = (omega arith, h)
  received-Fits n (read text) h fresh = elim (Bool-cases (leb (length text) (room_after n))) [
    | inl e ↦
        rw (e, received)
          (included_tokens-Fits text n fresh (omega (arith, leb→le _ _ e, room_after_le n h)))
    | inr e ↦ rw (e, received) (omega arith, h)
  ]

-- An ancestry that an include may be put under.
extended-IsAncestry :
    (ancestry : List Text) (key : Text)
    → IsAncestry ancestry
    → (leb 16 (length ancestry) || any (text_eq key) ancestry) ≡ false
    → IsAncestry (ancestry ++ (key ∷ []))
extended-IsAncestry ancestry key (short, apart) e = (
  ground (arith, length-append ancestry (key ∷ [])),
  distinct-end key ancestry apart (ground arith),
)

module _ {G A : Type 0} (h : Host G A) where
  pub rgd_tokens-Fits :
      (t : SourceToken) (n : ℕ) (g : G)
      → n ≤ 1048576
      → IsApart t
      → Fits n (rgd_tokens h t n g).1 (rgd_tokens h t n g).2
  unfolding rgd_tokens
  rgd_tokens-Fits t n g b apart =
      let reference = reference_of h g t in
      let file = h.file_path g in
      let key = key_of file reference in
      elim (Bool-cases (is_reference reference)) [
        | inr e ↦ rw (e, rgd_tokens) (omega arith, b)
        | inl e ↦ elim (Bool-cases (no_file file)) [
          | inl f ↦ rw (e, f, rgd_tokens) (omega arith, b)
          | inr f ↦ elim (Bool-cases (leb 16 (length t.ancestry) || any (text_eq key) t.ancestry)) [
            | inl a ↦ rw (e, f, a, rgd_tokens) (omega arith, b)
            | inr a ↦
                rw (e, f, a, rgd_tokens)
                  (received-Fits reference t.ancestry key n (h.read_rgd file reference g).1 b
                    (extended-IsAncestry t.ancestry key apart a))
          ]
        ]
      ]
