-- ===== src/Hub/Segment.antt =====
-- `RegistryHubDispatch`, `RegistryWaitToken`, `PrepareRegistryDispatch` and
-- `CompileRegistryDispatchSegment` of runtime/source/src/registry_dispatch.inc. A cursor holds the
-- tokens from `at` on, and the last branch of a vector is the first here. `total` is a number; it is
-- lowered once for each wait that it counts.
pub mod Loop
pub mod Bounds
pub mod Start
pub mod Numbering
pub mod Resumption
pub mod Skipping
pub mod Whole
use macrohelp.Base.{
  ℕ, zero, suc, ◌+◌, ◌-◌, ◌==◌, ltb, leb, Bool, true, false, ◌&&◌, ◌||◌, Option, none, some, List,
  [], ◌∷◌, ◌++◌, length, drop, map, if◌then◌else◌,
}
use macrohelp.Control.Checked.{Checked, done, then_with, refuse}
use macrohelp.Runtime.Text.{Text, bytes, text_eq, is_space, trim_ascii, lower_ascii}
use macrohelp.Hub.Tokens.{extract_tokens}
use macrohelp.Hub.Branches.{
  opening, switching, closing, plain, kind_of, Frame, branches_active, validate,
}
use macrohelp.Hub.Host.{Host, Reply, answer, rejected, raised, Document}
use macrohelp.Hub.Rgd.{SourceToken, Expansion, rgd_tokens, included, failed, under}

-- `prefix` and then a space.
abbrev pub word_then_space : Text → Text → Bool
word_then_space [] [] = false
word_then_space [] (c ∷ cs) = is_space c
word_then_space (p ∷ ps) [] = false
word_then_space (p ∷ ps) (c ∷ cs) = p == c && word_then_space ps cs

unfoldable pub is_wait : Text → Bool
is_wait token = word_then_space (bytes "wait") (lower_ascii (trim_ascii token))

unfoldable pub is_include : Text → Bool
is_include token =
    let lower = lower_ascii (trim_ascii token) in
    text_eq lower (bytes "rgd") || word_then_space (bytes "rgd") lower

pub record Cursor : Type 0 where
  pub tokens : List SourceToken
  pub expanded_bytes : ℕ
  pub branches : List Frame
  pub index : ℕ
  pub total : ℕ
  pub leading_wait : Bool
  pub focus_click : Bool

unfoldable pub waits : List SourceToken → ℕ
waits [] = 0
waits (t ∷ ts) = if is_wait t.text then suc (waits ts) else waits ts

abbrev pub from_script : List Text → List SourceToken
from_script = map (λ t. record { text = t; source = []; ancestry = [] })

unfoldable pub prepare : Text → Checked Cursor
unfolding extract_tokens validate
prepare script = then_with (extract_tokens script) (λ tokens.
    if leb (length script) 1048576
    then elim tokens [
      | [] ↦ refuse "Registry Hub script has no {...} tokens."
      | t ∷ ts ↦ then_with (validate (t ∷ ts)) (λ _.
          let sources = from_script (t ∷ ts) in
          done (record {
            tokens = sources;
            expanded_bytes = length script;
            branches = [];
            index = 1;
            total = 1 + waits sources;
            leading_wait = false;
            focus_click = false;
          }))
    ]
    else refuse "Workflow exceeds 1 MiB")

-- The loop's variables.
pub record Work (G A : Type 0) : Type 0 where
  pub env : G
  pub cursor : Cursor
  pub actions : List A
  pub leading : Bool

-- What a round, or the whole loop, comes to. `fault` is `back()` or `pop_back()` of no branch.
pub data Course (G A : Type 0) : Type 0 where
  onward : Work G A → Course G A
  compiled : Work G A → Course G A
  turned_down : Work G A → Text → Course G A
  thrown_out : Work G A → Text → Bool → Course G A
  fault : Course G A
  out_of_fuel : Course G A

abbrev with_source : Text → Text → Text
with_source [] message = message
with_source (c ∷ cs) message = under (c ∷ cs) message

-- The rounds that are left at most: a token each, and a token at most for each byte still allowed.
unfoldable pub work_left : Cursor → ℕ
work_left c = length c.tokens + (1048576 - c.expanded_bytes)

module _ {G A : Type 0} where
  -- A condition's frame, pushed onto the branches.
  abbrev enter : Bool → Bool → Work G A → Work G A
  enter parent condition w = record w {
    cursor = record w.cursor {
      branches =
          record { parent_active = parent; condition_active = condition; else_mode = false }
          ∷ w.cursor.branches;
    };
  }

  unfoldable pub opened : Text → Work G A → Reply Bool → Course G A
  unfolding under
  opened source w (answer condition) = onward (enter true condition w)
  opened source w (rejected message) = turned_down w (with_source source message)
  opened source w (raised message) = thrown_out w message false

  -- An include's tokens, put in front of the others.
  unfoldable pub spliced : Work G A → ℕ → Expansion → Course G A
  spliced w expanded (failed message stop) =
      thrown_out (record w { cursor = record w.cursor { expanded_bytes = expanded } }) message stop
  spliced w expanded (included children) = onward (record w {
    cursor = record w.cursor {
      expanded_bytes = expanded;
      tokens = children ++ w.cursor.tokens;
      total = w.cursor.total + waits children;
    };
  })

  unfoldable pub emitted : Text → Work G A → Reply (List A × Bool) → Course G A
  unfolding under
  emitted source w (answer (actions, focus)) =
      onward (record w { actions = actions; cursor = record w.cursor { focus_click = focus } })
  emitted source w (rejected message) = turned_down w (with_source source message)
  emitted source w (raised message) = thrown_out w message false

  unfoldable pub take_off : List SourceToken → Work G A → Work G A
  take_off ts w = record w { cursor = record w.cursor { tokens = ts } }

  -- What follows a round: the loop goes on, or it has ended.
  abbrev pub proceed : (Work G A → Course G A) → Course G A → Course G A
  proceed k (onward w) = k w
  proceed k (compiled w) = compiled w
  proceed k (turned_down w message) = turned_down w message
  proceed k (thrown_out w message stop) = thrown_out w message stop
  proceed k fault = fault
  proceed k out_of_fuel = out_of_fuel

  -- The text of the document; none when there are no actions.
  unfoldable pub document_of : Bool → Work G A → Option (Document A)
  document_of split w = elim w.actions [
    | [] ↦ none
    | a ∷ more ↦ some (record {
      split = split;
      index = w.cursor.index;
      total = w.cursor.total;
      actions = a ∷ more;
      delay = if w.cursor.index == 1 then 1 else 0;
    })
  ]

module _ {G A : Type 0} (h : Host G A) where
  unfoldable pub open_branch : SourceToken → Work G A → Course G A
  unfolding branches_active opened
  open_branch t w =
      if ltb (length w.cursor.branches) 16
      then (if branches_active w.cursor.branches
          then (let (g, r) = h.evaluate (drop 3 (trim_ascii t.text)) w.env in
              opened t.source (record w { env = g }) r)
          else onward (enter false false w))
      else thrown_out w (bytes "Conditions nested too deeply") false

  unfoldable pub include_tokens : SourceToken → Work G A → Course G A
  unfolding rgd_tokens spliced
  include_tokens t w =
      let (g, expanded, e) = rgd_tokens h t w.cursor.expanded_bytes w.env in
      spliced (record w { env = g }) expanded e

  unfoldable pub emit_token : SourceToken → Work G A → Course G A
  unfolding emitted
  emit_token t w =
      let input : Text =
        (if is_wait t.text then bytes "wait " ++ trim_ascii (drop 4 t.text) else t.text) in
      let (g, r) = h.compile_token input w.actions w.cursor.focus_click w.env in
      emitted t.source (record w { env = g }) r

  -- A token that is no part of a branch.
  unfoldable pub do_plain : Bool → SourceToken → Work G A → Course G A
  unfolding branches_active is_wait is_include include_tokens emit_token
  do_plain split t w =
      if branches_active w.cursor.branches
      then (if is_include t.text
          then include_tokens t w
          else if split && is_wait t.text
          then (if w.leading
              then emit_token t (record w { leading = false })
              else compiled (record w {
                cursor = record w.cursor { tokens = t ∷ w.cursor.tokens; leading_wait = true };
              }))
          else emit_token t w)
      else onward (
          if is_wait t.text
          then record w { cursor = record w.cursor { total = w.cursor.total - 1 } }
          else w)

  -- A round of the loop, the token taken off.
  unfoldable pub round : Bool → SourceToken → Work G A → Course G A
  unfolding kind_of open_branch do_plain
  round split t w = elim (kind_of t.text) [
    | opening ↦ open_branch t w
    | switching ↦ elim w.cursor.branches [
      | [] ↦ fault
      | b ∷ bs ↦
          onward (record w {
            cursor = record w.cursor { branches = record b { else_mode = true } ∷ bs };
          })
    ]
    | closing ↦ elim w.cursor.branches [
      | [] ↦ fault
      | b ∷ bs ↦ onward (record w { cursor = record w.cursor { branches = bs } })
    ]
    | plain ↦ do_plain split t w
  ]

  unfoldable pub run_rounds : Bool → ℕ → Work G A → Course G A
  unfolding round take_off
  run_rounds split zero w = out_of_fuel
  run_rounds split (suc n) w = elim w.cursor.tokens [
    | [] ↦ compiled w
    | t ∷ ts ↦ proceed (λ w1. run_rounds split n w1) (round split t (take_off ts w))
  ]

  unfoldable pub compile_segment : Bool → Cursor → G → Course G A
  unfolding run_rounds work_left
  compile_segment split c g = run_rounds split (suc (work_left c)) (record {
    env = g;
    cursor = record c { leading_wait = false };
    actions = [];
    leading = c.leading_wait;
  })
