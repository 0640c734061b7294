-- ===== src/Runtime/KeyHistory/Recent.antt =====
-- The entries of the ring of runtime/source/src/main.cpp, newest first, and what is drawn of them.
use macrohelp.Base.{
  ℕ, zero, suc, ◌+◌, ◌-◌, ◌%◌, ◌≤◌, ◌<◌, ◌==◌, ltb, List, [], ◌∷◌, take, if◌then◌else◌, ◌≡◌, refl,
  ap, sym, subst, ◌∙◌, arith, true, false, String, Bool-cases, inl, inr,
}
use macrohelp.Runtime.KeyHistory.{
  Entry, History, max_history, update, fade_ms, format_from, status_text, max_visible, shown_from,
  shown_entries, store,
}
use Prim.Native.String.{◌++◌ as ◌<>◌}

-- So many entries, backwards from before a place.
abbrev pub recent_from : ℕ → ℕ → (ℕ → Entry) → List Entry
recent_from zero p slots = []
recent_from (suc n) p slots = let q = (p + (15 - 1)) % 15 in slots q ∷ recent_from n q slots

abbrev pub recent : History → List Entry
recent h = recent_from h.count h.head h.slots

pub record IsRing (h : History) : Type 0 where
  pub head_in : h.head < max_history
  pub count_in : h.count ≤ max_history

pub store-IsRing : (e : Entry) (h : History) → IsRing h → IsRing (store e h)
unfolding store
store-IsRing e h v = ground arith

take-recent_from :
    (n m p : ℕ) (slots : ℕ → Entry) → n ≤ m → take n (recent_from m p slots) ≡ recent_from n p slots
take-recent_from zero m p slots h = refl
take-recent_from (suc n) zero p slots h = absurd (omega arith)
take-recent_from (suc n) (suc m) p slots h =
    let q = (p + (15 - 1)) % 15 in
    ap (λ r. slots q ∷ r) (take-recent_from n m q slots (omega arith))

take_more :
    (n m p : ℕ) (slots : ℕ → Entry) → m ≤ n → take n (recent_from m p slots) ≡ recent_from m p slots
take_more zero zero p slots h = refl
take_more (suc n) zero p slots h = refl
take_more zero (suc m) p slots h = absurd (omega arith)
take_more (suc n) (suc m) p slots h =
    let q = (p + (15 - 1)) % 15 in ap (λ r. slots q ∷ r) (take_more n m q slots (omega arith))

suc_eq : (n : ℕ) → suc n ≡ n + 1
suc_eq n = omega arith

-- A write at a place that the entries do not reach: it is `k` places behind the start.
recent_from-update :
    (n k i p : ℕ) (e : Entry) (slots : ℕ → Entry)
    → i < 15
    → p < 15
    → (p + k) % 15 ≡ i
    → k + n < 15
    → recent_from n p (update slots i e) ≡ recent_from n p slots
recent_from-update zero k i p e slots li lp at b = refl
recent_from-update (suc n) k i p e slots li lp at b =
    let q : ℕ = (p + (15 - 1)) % 15 in
    let apart : (q == i) ≡ false = ground arith in
    rw apart (
      ap (λ r. slots q ∷ r)
        (recent_from-update n (suc k) i q e slots li (omega arith) (omega arith) (omega arith)))

recent_from-next :
    (n p : ℕ) (e : Entry) (slots : ℕ → Entry)
    → p < 15
    → n < 15
    → recent_from (suc n) ((p + 1) % 15) (update slots p e) ≡ e ∷ recent_from n p slots
recent_from-next n p e slots l b =
    let back : ((p + 1) % 15 + 14) % 15 ≡ p = omega arith in
    let same : (p == p) ≡ true = ground arith in
    rw back (
      rw same
        (ap (λ r. e ∷ r) (recent_from-update n 0 p p e slots l l (omega arith) (omega arith))))

-- Storing puts the entry before the others, of which the oldest goes where there is no room.
pub recent-store :
    (e : Entry) (h : History) → IsRing h → recent (store e h) ≡ take max_history (e ∷ recent h)
unfolding store
recent-store e h v = elim (Bool-cases (ltb h.count 15)) [
  | inl room ↦
      let few : h.count ≤ 14 = ground (arith, room) in
      rw room (
        subst
          (λ c.
            recent_from c ((h.head + 1) % 15) (update h.slots h.head e) ≡ take 15 (e ∷ recent h))
          (suc_eq h.count)
          (recent_from-next h.count h.head e h.slots v.head_in (omega arith)
            ∙ ap (λ r. e ∷ r) (sym (take_more 14 h.count h.head h.slots few))))
  | inr full ↦
      let all_used : h.count ≡ 15 = ground (arith, full, v.count_in) in
      rw full (
        rw all_used (
          recent_from-next 14 h.head e h.slots v.head_in (omega arith)
          ∙ ap (λ r. e ∷ r) (sym (take-recent_from 14 15 h.head h.slots (omega arith)))))
]

shown_from-recent :
    (n i p : ℕ) (h : History)
    → h.head < 15
    → i + n ≤ 15
    → p < 15
    → (p + i) % 15 ≡ h.head
    → shown_from n i h ≡ recent_from n p h.slots
shown_from-recent zero i p h l b lp at = refl
shown_from-recent (suc n) i p h l b lp at =
    let q : ℕ = (p + (15 - 1)) % 15 in
    let place : (h.head + 15 - 1 - i) % 15 ≡ q = omega arith in
    rw place (
      ap (λ r. h.slots q ∷ r)
        (shown_from-recent n (i + 1) q h l (omega arith) (omega arith) (omega arith)))

-- What is drawn are the first of the recent ones.
pub shown-recent : (h : History) → IsRing h → shown_entries h ≡ take max_visible (recent h)
unfolding shown_entries
shown-recent h v = elim (Bool-cases (ltb h.count 11)) [
  | inl few ↦
      let l : h.count ≤ 11 = ground (arith, few) in
      rw few (
        shown_from-recent h.count 0 h.head h v.head_in (omega (arith, v.count_in)) v.head_in
          (omega (arith, v.head_in))
        ∙ sym (take_more 11 h.count h.head h.slots l))
  | inr many ↦
      let l : 11 ≤ h.count = ground (arith, many) in
      rw many (
        shown_from-recent 11 0 h.head h v.head_in (omega arith) v.head_in (omega (arith, v.head_in))
        ∙ sym (take-recent_from 11 h.count h.head h.slots l))
]

-- The status that belongs to the newest entry.
abbrev pub status_of : ℕ → List Entry → String
status_of now [] = "Key HUD: on, waiting"
status_of now (e ∷ es) =
    if ltb fade_ms ((now + 4294967296 - e.tick) % 4294967296)
    then "Key HUD: on, waiting"
    else "Key HUD: " <> format_from 0 "" e.keys

status_text-count :
    (n now : ℕ) (h : History)
    → h.count ≡ n
    → status_text true now h ≡ status_of now (recent_from n h.head h.slots)
unfolding status_text
status_text-count zero now h e = rw e refl
status_text-count (suc n) now h e =
    let place : (h.head + 15 - 1) % 15 ≡ (h.head + (15 - 1)) % 15 = omega arith in
    let some_in : (suc n == 0) ≡ false = ground arith in rw (e, place, some_in) refl

pub status_text-recent : (now : ℕ) (h : History) → status_text true now h ≡ status_of now (recent h)
status_text-recent now h = status_text-count h.count now h refl
