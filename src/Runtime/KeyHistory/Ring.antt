-- ===== src/Runtime/KeyHistory/Ring.antt =====
-- The ring of runtime/source/src/main.cpp holds the last combinations, newest first.
use macrohelp.Base.{
  ℕ, ◌+◌, ◌-◌, ◌%◌, ltb, List, [], ◌∷◌, take, if◌then◌else◌, ◌≡◌, refl, ap, sym, ◌∙◌, Bool, true,
  ◌&&◌, String, Bool-cases, inl, inr,
}
use macrohelp.Runtime.KeyHistory.{
  Entry, History, max_history, signature_from, status_text, max_visible, shown_entries, store,
  push_history,
}
use macrohelp.Runtime.KeyHistory.Recent.{
  recent, IsRing, store-IsRing, recent-store, shown-recent, status_of, status_text-recent,
}
use text.Mathlib.Text.{◌==◌ as str_eq}

-- The newest entry; where there is none, one of no keys at time 0.
abbrev pub newest : List Entry → Entry
newest [] = record { keys = []; tick = 0 }
newest (e ∷ es) = e

-- A ring whose last signature and time are those of its newest entry.
pub record IsInOrder (h : History) : Type 0 where
  pub ring : IsRing h
  pub signature_of_newest : h.last_signature ≡ signature_from "" (newest (recent h)).keys
  pub tick_of_newest : h.last_tick ≡ (newest (recent h)).tick

-- Keys that are spelled like those of the newest entry, within 80 milliseconds of it.
abbrev pub repeats : List String → ℕ → List Entry → Bool
repeats keys now es =
    str_eq (signature_from "" keys) (signature_from "" (newest es).keys)
    && ltb ((now + 4294967296 - (newest es).tick) % 4294967296) 80

-- The history of a combination that is not dropped.
abbrev stored : String → List String → ℕ → History → History
stored k ks now h =
    store (record { keys = k ∷ ks; tick = now })
      (record h { last_signature = signature_from "" (k ∷ ks); last_tick = now })

stored-recent :
    (k : String) (ks : List String) (now : ℕ) (h : History)
    → IsRing h
    → recent (stored k ks now h)
      ≡ take max_history (record { keys = k ∷ ks; tick = now } ∷ recent h)
stored-recent k ks now h v =
    recent-store (record { keys = k ∷ ks; tick = now })
      (record h { last_signature = signature_from "" (k ∷ ks); last_tick = now })
      (record { head_in = v.head_in; count_in = v.count_in })

stored-IsInOrder :
    (k : String) (ks : List String) (now : ℕ) (h : History)
    → IsRing h
    → IsInOrder (stored k ks now h)
unfolding store
stored-IsInOrder k ks now h v =
    let first = ap newest (stored-recent k ks now h v) in
    record {
      ring =
          store-IsRing (record { keys = k ∷ ks; tick = now })
            (record h { last_signature = signature_from "" (k ∷ ks); last_tick = now })
            (record { head_in = v.head_in; count_in = v.count_in });
      signature_of_newest = sym (ap (λ (e : Entry). signature_from "" e.keys) first);
      tick_of_newest = sym (ap (λ (e : Entry). e.tick) first);
    }

-- The test of the source is that of the newest entry.
push_history-repeats :
    (k : String) (ks : List String) (now : ℕ) (h : History)
    → IsInOrder h
    → push_history (k ∷ ks) now h
      ≡ (if repeats (k ∷ ks) now (recent h) then h else stored k ks now h)
unfolding push_history
push_history-repeats k ks now h v = λ i.
    if str_eq (signature_from "" (k ∷ ks)) (v.signature_of_newest i)
      && ltb ((now + 4294967296 - v.tick_of_newest i) % 4294967296) 80
    then h
    else stored k ks now h

push_history-IsInOrder :
    (k : String) (ks : List String) (now : ℕ) (h : History)
    → IsInOrder h
    → IsInOrder (push_history (k ∷ ks) now h)
push_history-IsInOrder k ks now h v =
    rw (push_history-repeats k ks now h v) (elim (Bool-cases (repeats (k ∷ ks) now (recent h))) [
      | inl same ↦ rw same v
      | inr new ↦ rw new (stored-IsInOrder k ks now h v.ring)
    ])

recent-pushed :
    (k : String) (ks : List String) (now : ℕ) (h : History)
    → IsInOrder h
    → recent (push_history (k ∷ ks) now h) ≡ (
        if repeats (k ∷ ks) now (recent h)
        then recent h
        else take max_history (record { keys = k ∷ ks; tick = now } ∷ recent h))
recent-pushed k ks now h v =
    ap recent (push_history-repeats k ks now h v)
    ∙ elim (Bool-cases (repeats (k ∷ ks) now (recent h))) [
      | inl same ↦ rw same refl
      | inr new ↦ rw new (stored-recent k ks now h v.ring)
    ]

-- For a ring that is in order, whose last signature and time are those of its newest entry: it stays in
-- order, a combination spelled like the newest within 80 milliseconds of it leaves the recent ones as they
-- are, and any other comes first among them, of which 15 at most are kept; the first 11 of them are drawn,
-- and a visible display has the status of the newest.
pub recent-push_history :
    (k : String) (ks : List String) (now later : ℕ) (h : History)
    → IsInOrder h
    → IsInOrder (push_history (k ∷ ks) now h)
      × (recent (push_history (k ∷ ks) now h) ≡ (
          if repeats (k ∷ ks) now (recent h)
          then recent h
          else take max_history (record { keys = k ∷ ks; tick = now } ∷ recent h)))
      × (shown_entries (push_history (k ∷ ks) now h)
          ≡ take max_visible (recent (push_history (k ∷ ks) now h)))
      × (status_text true later (push_history (k ∷ ks) now h)
          ≡ status_of later (recent (push_history (k ∷ ks) now h)))
recent-push_history k ks now later h v =
    let pushed = push_history-IsInOrder k ks now h v in
    (
      pushed,
      recent-pushed k ks now h v,
      shown-recent (push_history (k ∷ ks) now h) pushed.ring,
      status_text-recent later (push_history (k ∷ ks) now h),
    )
