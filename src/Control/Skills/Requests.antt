-- ===== src/Control/Skills/Requests.antt =====
-- What an accepted skill is.
use macrohelp.Base.{
  any, leb, ◌≤◌, Bool, true, false, ◌&&◌, ◌||◌, not, Option, none, some, [], ◌∷◌, map, length, All,
  ◌≡◌, ◌≢◌, refl, ap, ◌∙◌, sym, subst, arith, Bool-cases, leb→le, inl, inr,
}
use macrohelp.Runtime.Text.{Text, bytes, text_eq, to_lower}
use macrohelp.Runtime.Text.Words.{text_eq_sound}
use macrohelp.Control.Checked.{Checked-cases, WhenDone}
use macrohelp.Control.Skills.{
  Request, skill_name, skill_request, known_fields, is_control, is_name, is_skill_reference,
  reference_for, entry_request, saved_skill, saved_skills, validate_skills, text_of, same_value,
  is_removal, past_digits, is_end, part_of, is_number,
}
use macrohelp.Hub.Rgd.{is_reference, part_and_entry, index_and_part, skip_digits, digits_only}

digits_same : (cs : Text) → skip_digits cs ≡ past_digits cs
digits_same [] = refl
digits_same (c ∷ cs) = ground (arith, digits_same cs)

digits_end : (cs : Text) → digits_only cs ≡ is_end (past_digits cs)
digits_end [] = refl
digits_end (c ∷ cs) = ground (arith, digits_end cs)

past_digits_le : (cs : Text) → length (past_digits cs) ≤ length cs
past_digits_le [] = omega arith
past_digits_le (c ∷ cs) = ground (arith, past_digits_le cs)

part_same : (ds : Text) → part_of ds ≡ part_and_entry ds
part_same [] = refl
part_same (d ∷ []) = ground arith
part_same (d ∷ e ∷ fs) = ground (arith, digits_end fs)

part_long : (ds : Text) → part_of ds ≡ true → 2 ≤ length ds
part_long [] h = absurd (ground (arith, h))
part_long (d ∷ []) h = absurd (ground (arith, h))
part_long (d ∷ e ∷ fs) h = omega arith

-- The references that a skill may have are those of an include.
pub reference_same : (t : Text) → is_skill_reference t ≡ is_reference t
unfolding is_skill_reference is_reference index_and_part
reference_same [] = refl
reference_same (c ∷ []) = ground arith
reference_same (c ∷ d ∷ ds) =
    let same = digits_same ds in
    let part = part_same (past_digits ds) in
    let long = part_long (past_digits ds) in
    let le = past_digits_le ds in
    elim (Bool-cases (is_number d)) [
      | inr e ↦ ground (arith, e)
      | inl e ↦ ground (arith, e, same, part, long, le)
    ]

skill_name_found :
    (v : Option Text) → WhenDone (λ t. (t ≡ text_of v) × (is_name t ≡ true)) (skill_name v)
unfolding skill_name
skill_name_found v = elim (Bool-cases (is_name (text_of v))) [
  | inl e ↦ rw (e, skill_name) (refl, e)
  | inr e ↦ rw (e, skill_name) tt
]

-- What a request for a skill is found to be.
abbrev IsFound : Text × Option Text → Type 0
IsFound f =
    (is_name f.0 ≡ true) × (r : Text) × (f.1 ≡ some r) × ((is_removal f.0 || is_reference r) ≡ true)

reference_for-IsFound :
    (title ref : Text) → is_name title ≡ true → WhenDone IsFound (reference_for title ref)
unfolding reference_for
reference_for-IsFound title ref n = elim (Bool-cases (is_removal title)) [
  | inl e ↦ rw (e, reference_for) (n, ref, refl, rw e refl)
  | inr e ↦ elim (Bool-cases (is_skill_reference (map to_lower ref))) [
    | inl f ↦
        rw (e, f, reference_for)
          (n, map to_lower ref, refl, ground (arith, f, reference_same (map to_lower ref)))
    | inr f ↦ rw (e, f, reference_for) tt
  ]
]

skill_request-IsFound :
    (k : Text) (v : Option Text) → WhenDone IsFound (skill_request (entry_request k v) false)
unfolding skill_request known_fields
skill_request-IsFound k v = elim (Checked-cases (skill_name (some k))) [
  | inr (status, message, e) ↦ rw (e, skill_request) tt
  | inl (title, e) ↦
      let n =
        subst (WhenDone (λ t. (t ≡ text_of (some k)) × (is_name t ≡ true))) e
          (skill_name_found (some k)) in
      elim (Checked-cases (skill_name v)) [
        | inr (status, message, f) ↦ rw (e, f, skill_request) tt
        | inl (ref, f) ↦ rw (e, f, skill_request) (reference_for-IsFound title ref n.1)
      ]
]

-- From 1 to 128 bytes on one line, without a control byte.
abbrev pub IsTitle : Text → Type 0
IsTitle t = (t ≢ []) × (length t ≤ 128) × All (λ c. (32 ≤ c) × (c ≢ 127)) t

no_control : (t : Text) → any is_control t ≡ false → All (λ c. (32 ≤ c) × (c ≢ 127)) t
no_control [] h = tt
no_control (c ∷ cs) h = ((ground (arith, h), ground (arith, h)), no_control cs (ground (arith, h)))

is_name-IsTitle : (t : Text) → is_name t ≡ true → IsTitle t
is_name-IsTitle [] h = absurd (ground (arith, h))
is_name-IsTitle (c ∷ cs) h =
    (λ e. cc, leb→le _ _ (ground (arith, h)), no_control (c ∷ cs) (ground (arith, h)))

not_removal : (t : Text) → is_removal t ≡ false → map to_lower t ≢ bytes "remove"
not_removal t h e =
    let same = subst (λ x. text_eq x (bytes "remove") ≡ true) (sym e) refl in
    ground (arith, h, same)

-- A saved skill: its name is one, and its text is a reference that an include accepts.
pub IsSkill : Text × Option Text → Type 0
IsSkill entry =
    IsTitle entry.0
    × (map to_lower entry.0 ≢ bytes "remove")
    × (r : Text) × (entry.1 ≡ some r)
    × (is_reference r ≡ true)

same_value_sound : (a b : Option Text) → same_value a b ≡ true → a ≡ b
same_value_sound (some s) (some t) h = ap some (text_eq_sound s t h)
same_value_sound (some s) none h = absurd (ground (arith, h))
same_value_sound none (some t) h = absurd (ground (arith, h))
same_value_sound none none h = refl

or_right : (a b : Bool) → a ≡ false → (a || b) ≡ true → b ≡ true
or_right a b e h = ground (arith, e, h)

-- An entry that its request is found to be.
kept-IsSkill :
    (k : Text) (v : Option Text) (f : Text × Option Text)
    → IsFound f
    → (text_eq f.0 k && (same_value f.1 v && not (is_removal k))) ≡ true
    → IsSkill (k, v)
unfolding IsSkill
kept-IsSkill k v (title, found) (n, r, e, good) h =
    let t : title ≡ k = text_eq_sound title k (ground (arith, h)) in
    let w : found ≡ v = same_value_sound found v (ground (arith, h)) in
    let off : is_removal k ≡ false = ground (arith, h) in
    (
      is_name-IsTitle k (subst (λ x. is_name x ≡ true) t n),
      not_removal k off,
      r,
      sym w ∙ e,
      or_right (is_removal k) (is_reference r) off
          (subst (λ x. (is_removal x || is_reference r) ≡ true) t good),
    )

saved_skill-IsSkill :
    (k : Text) (v : Option Text) → WhenDone (λ u. IsSkill (k, v)) (saved_skill k v)
unfolding saved_skill
saved_skill-IsSkill k v = elim (Checked-cases (skill_request (entry_request k v) false)) [
  | inr (status, message, e) ↦ rw (e, saved_skill) tt
  | inl (f, e) ↦
      let found = subst (WhenDone IsFound) e (skill_request-IsFound k v) in
      elim (Bool-cases (text_eq f.0 k && (same_value f.1 v && not (is_removal k)))) [
        | inl b ↦ rw (e, b, saved_skill) (kept-IsSkill k v f found b)
        | inr b ↦ rw (e, b, saved_skill) tt
      ]
]

saved_skills-All : (m : Request) → WhenDone (λ u. All IsSkill m) (saved_skills m)
unfolding saved_skills
saved_skills-All [] = tt
saved_skills-All ((k, v) ∷ rest) = elim (Checked-cases (saved_skill k v)) [
  | inr (status, message, e) ↦ rw (e, saved_skills) tt
  | inl (u, e) ↦
      let first = subst (WhenDone (λ x. IsSkill (k, v))) e (saved_skill-IsSkill k v) in
      elim (Checked-cases (saved_skills rest)) [
        | inr (status, message, f) ↦ rw (e, f, saved_skills) tt
        | inl (w, f) ↦
            rw (e, f, saved_skills)
              (first, subst (WhenDone (λ x. All IsSkill rest)) f (saved_skills-All rest))
      ]
]

-- Saved skills that are accepted are at most 256, and each has a name of 1 to 128 bytes on one line, none
-- of them a control byte, which is not `remove` in any case, and a reference that an include of the
-- Registry Hub accepts.
pub validate_skills-All :
    (m : Request) → WhenDone (λ u. (length m ≤ 256) × All IsSkill m) (validate_skills m)
unfolding validate_skills
validate_skills-All m = elim (Bool-cases (leb (length m) 256)) [
  | inr e ↦ rw (e, validate_skills) tt
  | inl e ↦ elim (Checked-cases (saved_skills m)) [
    | inr (status, message, f) ↦ rw (e, f, validate_skills) tt
    | inl (u, f) ↦
        rw (e, f, validate_skills)
          (leb→le _ _ e, subst (WhenDone (λ x. All IsSkill m)) f (saved_skills-All m))
  ]
]
