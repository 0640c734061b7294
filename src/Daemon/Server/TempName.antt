-- ===== src/Daemon/Server/TempName.antt =====
-- `HttpServer::safeTempTaskName`: the file name that a temporary task may have.
use macrohelp.Base.{
  ℕ, zero, suc, ◌≡◌, ◌≤◌, ◌==◌, leb, Bool, ◌||◌, ◌&&◌, true, false, String, List, [], ◌∷◌, map,
  take, length, if◌then◌else◌, All, arith, Bool-cases, inl, inr,
}
use macrohelp.Daemon.Platform.{Platform}

abbrev is_word : ℕ → Bool
is_word c =
    (leb b'A' c && leb c b'Z')
    || ((leb b'a' c && leb c b'z') || ((leb b'0' c && leb c b'9') || (c == b'_' || c == b'-')))

-- `replace(QRegularExpression("[^A-Za-z0-9 _-]"), "_")`.
sanitize : List ℕ → List ℕ
sanitize = map (λ c. if is_word c || c == b' ' then c else b'_')

-- `replace(" ", "_")`.
underscored : List ℕ → List ℕ
underscored = map (λ c. if c == b' ' then b'_' else c)

abbrev is_dots : List ℕ → Bool
is_dots [] = true
is_dots (c ∷ []) = c == b'.'
is_dots (c ∷ d ∷ []) = c == b'.' && d == b'.'
is_dots (c ∷ d ∷ e ∷ cs) = false

-- The name after the extension is gone: `simplify` is `QString::simplified`.
unfoldable pub safe_name : (List ℕ → List ℕ) → List ℕ → List ℕ
unfolding sanitize underscored
safe_name simplify cs =
    let name = underscored (simplify (sanitize cs)) in if is_dots name then [] else take 80 name

unfoldable pub safe_temp_task_name : {F : Type 0} → Platform F → String → String
unfolding safe_name
safe_temp_task_name p name =
    let t = p.trimmed name in
    let clean = (if p.has_extension t then p.chop_extension t else t) in
    p.text (safe_name (λ cs. p.codes (p.simplified (p.text cs))) (p.codes clean))

-- The characters that a file name of a temporary task can have.
abbrev pub IsWord : ℕ → Type 0
IsWord c = is_word c ≡ true

abbrev pub IsWordOrSpace : ℕ → Type 0
IsWordOrSpace c = (is_word c || c == b' ') ≡ true

sanitize-All : (cs : List ℕ) → All IsWordOrSpace (sanitize cs)
unfolding sanitize
sanitize-All [] = tt
sanitize-All (c ∷ cs) = ground (arith, sanitize-All cs)

underscored-All : (cs : List ℕ) → All IsWordOrSpace cs → All IsWord (underscored cs)
unfolding underscored
underscored-All [] a = tt
underscored-All (c ∷ cs) (h, a) = ground (arith, underscored-All cs a)

take-All : (P : ℕ → Type 0) (n : ℕ) (cs : List ℕ) → All P cs → All P (take n cs)
take-All P zero cs a = tt
take-All P (suc n) [] a = tt
take-All P (suc n) (c ∷ cs) (h, a) = (h, take-All P n cs a)

length-take-le : (n : ℕ) (cs : List ℕ) → length (take n cs) ≤ n
length-take-le zero cs = omega arith
length-take-le (suc n) [] = omega arith
length-take-le (suc n) (c ∷ cs) = omega (arith, length-take-le n cs)

-- Whatever text a request names, the file name has at most 80 characters, each of them a letter, a
-- digit, `_` or `-`: no separator and no dot. `simplified` is taken to bring in no character but
-- the space.
pub safe_name_lem :
    (simplify : List ℕ → List ℕ) (cs : List ℕ)
    → ((ds : List ℕ) → All IsWordOrSpace ds → All IsWordOrSpace (simplify ds))
    → All IsWord (safe_name simplify cs) × (length (safe_name simplify cs) ≤ 80)
unfolding safe_name
safe_name_lem simplify cs h =
    let name = underscored (simplify (sanitize cs)) in
    let words = underscored-All _ (h (sanitize cs) (sanitize-All cs)) in
    elim (Bool-cases (is_dots name)) [
      | inl dots ↦ rw dots (tt, omega arith)
      | inr fine ↦ rw fine (take-All IsWord 80 name words, length-take-le 80 name)
    ]
