-- ===== src/Hub/Segment/Whole.antt =====
-- `CompileRegistryHubScriptToTaskJson` of runtime/source/src/main.cpp: a script as a single task.
use macrohelp.Base.{
  ℕ, suc, ltb, Bool, true, false, Option, none, some, List, [], length, ◌≡◌, subst, arith,
  Bool-cases, Option-cases, inl, inr, if◌then◌else◌,
}
use macrohelp.Control.Checked.{WhenDone, done, thrown, Checked-cases}
use macrohelp.Runtime.Text.{Text, bytes}
use macrohelp.Hub.Branches.{kind_of, branches_active}
use macrohelp.Hub.Host.{Host, Document, Reply, answer, rejected, raised}
use macrohelp.Hub.Rgd.{SourceToken, Expansion, included, failed, rgd_tokens}
use macrohelp.Hub.Segment.{
  Cursor, Work, Course, onward, compiled, turned_down, thrown_out, fault, out_of_fuel, round,
  open_branch, do_plain, opened, spliced, emitted, is_include, prepare, compile_segment,
  document_of, take_off, work_left,
}
use macrohelp.Hub.Segment.Bounds.{IsProper, Kind-cases, round_taken-Settles}
use macrohelp.Hub.Segment.Loop.{
  Settles, Settles-Keeps, Settles-mono, Keeps, List-cases, run_rounds-Settles,
}
use macrohelp.Hub.Segment.Start.{IsFresh, prepare-IsFresh}

-- The document, if the script emits actions; or why there is none.
pub data Script (A : Type 0) : Type 0 where
  scripted : Option (Document A) → Cursor → Script A
  unscripted : Text → Script A
  busy : Script A
  never : Script A

-- The document is parsed again to count its actions. What the library throws for one is a parameter.
module _ {G A : Type 0} (h : Host G A) (parse_error : Document A → Option Text) where
  abbrev parsed : Cursor → Option (Document A) → Script A
  parsed c none = scripted none c
  parsed c (some d) = elim (parse_error d) [
    | none ↦ scripted (some d) c
    | some message ↦ unscripted message
  ]

  abbrev whole : Course G A → Script A
  whole (compiled w) = parsed w.cursor (document_of false w)
  whole (turned_down w message) = unscripted message
  whole (thrown_out w message stop) = unscripted message
  whole (onward w) = never
  whole fault = never
  whole out_of_fuel = never

  unfoldable pub compile_script : Text → Bool → G → Script A
  unfolding compile_segment prepare document_of
  compile_script script reading g = if reading then busy else elim (prepare script) [
    | thrown status message ↦ unscripted (bytes message)
    | done c ↦ whole (compile_segment h false c g)
  ]

  abbrev pub IsWhole : Script A → Type 0
  IsWhole (scripted d c) = c.tokens ≡ []
  IsWhole (unscripted message) = Unit
  IsWhole busy = Unit
  IsWhole never = ⊥

  opened-unsplit :
      (source : Text) (w : Work G A) (r : Reply Bool)
      → Keeps (λ _. Unit) (λ _. ⊥) (opened source w r)
  unfolding opened
  opened-unsplit source w (answer condition) = tt
  opened-unsplit source w (rejected message) = tt
  opened-unsplit source w (raised message) = tt

  spliced-unsplit :
      (w : Work G A) (n : ℕ) (e : Expansion) → Keeps (λ _. Unit) (λ _. ⊥) (spliced w n e)
  unfolding spliced
  spliced-unsplit w n (included cs) = tt
  spliced-unsplit w n (failed message stop) = tt

  emitted-unsplit :
      (source : Text) (w : Work G A) (r : Reply (List A × Bool))
      → Keeps (λ _. Unit) (λ _. ⊥) (emitted source w r)
  unfolding emitted
  emitted-unsplit source w (answer (actions, focus)) = tt
  emitted-unsplit source w (rejected message) = tt
  emitted-unsplit source w (raised message) = tt

  -- Where waits do not split, no round ends the segment.
  round-unsplit : (t : SourceToken) (w : Work G A) → Keeps (λ _. Unit) (λ _. ⊥) (round h false t w)
  unfolding round open_branch do_plain
  round-unsplit t w = elim (Kind-cases (kind_of t.text)) [
    | inl e ↦ elim (Bool-cases (ltb (length w.cursor.branches) 16)) [
      | inr f ↦ rw (e, f, round) tt
      | inl f ↦ elim (Bool-cases (branches_active w.cursor.branches)) [
        | inl a ↦ rw (e, f, a, round) (opened-unsplit t.source _ _)
        | inr a ↦ rw (e, f, a, round) tt
      ]
    ]
    | inr (inl e) ↦ elim (List-cases w.cursor.branches) [
      | inl f ↦ rw (e, f, round) tt
      | inr (b, bs, f) ↦ rw (e, f, round) tt
    ]
    | inr (inr (inl e)) ↦ elim (List-cases w.cursor.branches) [
      | inl f ↦ rw (e, f, round) tt
      | inr (b, bs, f) ↦ rw (e, f, round) tt
    ]
    | inr (inr (inr e)) ↦ elim (Bool-cases (branches_active w.cursor.branches)) [
      | inr a ↦ rw (e, a, round) tt
      | inl a ↦ elim (Bool-cases (is_include t.text)) [
        | inl f ↦
            rw (e, a, f, round)
              (spliced-unsplit (record w { env = (rgd_tokens h t w.cursor.expanded_bytes w.env).0 })
                _ _)
        | inr f ↦ rw (e, a, f, round) (emitted-unsplit t.source _ _)
      ]
    ]
  ]

  compile_segment-unsplit :
      (c : Cursor) (g : G)
      → IsProper c
      → Settles (λ _. ⊥) (λ w. w.cursor.tokens ≡ []) (compile_segment h false c g)
  unfolding compile_segment
  compile_segment-unsplit c g p =
      run_rounds-Settles h false (λ w. IsProper w.cursor) (λ w. w.cursor.tokens ≡ [])
        (λ t ts w e q.
          Settles-mono _ _ _ _ (round h false t (take_off ts w)) (λ w1 r. r.0) (λ w1 r. absurd r.1)
            (Settles-Keeps _ _ _ _ _ (round_taken-Settles h false t ts w e q)
              (round-unsplit t (take_off ts w))))
        (λ w e q. e) (suc (work_left c)) _ (omega arith)
        (record { nested = p.nested; within = p.within; apart = p.apart })

  parsed-IsWhole : (c : Cursor) (d : Option (Document A)) → c.tokens ≡ [] → IsWhole (parsed c d)
  parsed-IsWhole c none e = e
  parsed-IsWhole c (some d) e = elim (Option-cases (parse_error d)) [
    | inl f ↦ rw (f, parsed) e
    | inr (message, f) ↦ rw (f, parsed) tt
  ]

  whole-IsWhole :
      (c : Course G A) → Settles (λ _. ⊥) (λ w. w.cursor.tokens ≡ []) c → IsWhole (whole c)
  whole-IsWhole (compiled w) p = parsed-IsWhole w.cursor (document_of false w) p
  whole-IsWhole (turned_down w message) p = tt
  whole-IsWhole (thrown_out w message stop) p = tt
  whole-IsWhole (onward w) p = p
  whole-IsWhole fault p = p
  whole-IsWhole out_of_fuel p = p

  -- Every compilation of a script ends, and one that succeeds has taken in every token.
  pub compile_script-IsWhole :
      (script : Text) (reading : Bool) (g : G) → IsWhole (compile_script script reading g)
  unfolding compile_script
  compile_script-IsWhole script true g = tt
  compile_script-IsWhole script false g = elim (Checked-cases (prepare script)) [
    | inr (status, message, e) ↦ rw (e, compile_script) tt
    | inl (c, e) ↦
        rw (e, compile_script)
          (whole-IsWhole (compile_segment h false c g) (
            compile_segment-unsplit c g
              (subst (WhenDone IsFresh) e (prepare-IsFresh script)).proper))
  ]
