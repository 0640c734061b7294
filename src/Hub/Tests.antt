-- ===== src/Hub/Tests.antt =====
-- The theorems about the Registry Hub at concrete inputs. The host counts the tasks that it accepts,
-- takes `yes` as the condition that holds, and reads a wait and a token from every include.
use macrohelp.Base.{
  ℕ, ◌+◌, ℤ, pos, true, false, Option, none, some, [], ◌∷◌, ◌++◌, ◌≡◌, refl, arith, inl,
}
use macrohelp.Control.Checked.{WhenDone, Checked, done, thrown}
use macrohelp.Runtime.Text.{Text, bytes, text_eq, trim_ascii, lower_ascii}
use macrohelp.Hub.Host.{Document, Host, answer, read, accepted}
use macrohelp.Hub.Tokens.{extract_tokens, scan}
use macrohelp.Hub.Tokens.RoundTrip.{print_tokens, extract-print, matched}
use macrohelp.Hub.Segment.{Cursor, waits, prepare, compile_segment}
use macrohelp.Hub.Segment.Loop.{Settles}
use macrohelp.Hub.Segment.Start.{IsFresh, prepare-IsFresh}
use macrohelp.Hub.Segment.Resumption.{IsReady, HasMoved, compile_segment-HasMoved}
use macrohelp.Hub.Dispatch.{
  Machine, Outcome, is_finished, running, faulted, exhausted, submit, start_script, cancel, tick,
  submit_rounds, settled, begin,
}
use macrohelp.Hub.Dispatch.Order.{IsOrderly, GivesNumbers, IsSettled, Ends}
use macrohelp.Hub.Dispatch.Submission.{fresh-IsReady, submit-Ends}
use macrohelp.Hub.Dispatch.Reach.{Reach, here, next, starts, at_rest, Reach-IsOrderly}
use macrohelp.Hub.Dispatch.Staleness.{tick-outdated}
use macrohelp.Hub.Segment.Whole.{IsWhole, compile_script, compile_script-IsWhole}
use macrohelp.Hub.Branches.Nesting.{balanced}
use macrohelp.Hub.Rgd.{is_reference, room_after}

abbrev counting : Host ℕ Text
counting = record {
  evaluate = λ c g. (g, answer (text_eq c (bytes "yes")));
  compile_token = λ t actions focus g. (g, answer (actions ++ (t ∷ []), focus));
  expand = λ g t. t;
  file_path = λ g. bytes "keys.reg";
  read_rgd = λ file reference g. (g, read (bytes "{wait 5} {b}"));
  schedule = λ d g. (g + 1, accepted (some (pos (g + 1))));
}

counting-GivesNumbers : GivesNumbers counting
counting-GivesNumbers d g e = ground (arith, e)

abbrev script : Text
script = bytes "{a} {wait 5} {if no} {wait 7} {else} {rgd i6s6} {endif}"

cursor_of : Checked Cursor → Cursor → Cursor
cursor_of (done c) d = c
cursor_of (thrown status message) d = d

tokens_read : extract_tokens (bytes "{a} {if b}") ≡ done (bytes "a" ∷ bytes "if b" ∷ [])
unfolding extract_tokens scan trim_ascii
tokens_read = refl

extract-print_example :
    extract_tokens (print_tokens (bytes "a{b}" ∷ bytes "wait 5" ∷ []))
    ≡ done (bytes "a{b}" ∷ bytes "wait 5" ∷ [])
unfolding matched trim_ascii
extract-print_example =
    extract-print (bytes "a{b}" ∷ bytes "wait 5" ∷ []) ((refl, refl), ((refl, refl), tt))

prepare-IsFresh_example : WhenDone IsFresh (prepare script)
prepare-IsFresh_example = prepare-IsFresh script

started : Cursor
unfolding prepare
started = cursor_of (prepare script) (at_rest {G = ℕ} 0).cursor

started-IsFresh : IsFresh started
unfolding started prepare cursor_of lower_ascii trim_ascii
started-IsFresh = prepare-IsFresh script

started-IsReady : IsReady started
started-IsReady = fresh-IsReady started started-IsFresh

compile_segment-HasMoved_example :
    Settles (λ _. ⊥) (HasMoved counting started) (compile_segment counting true started 0)
compile_segment-HasMoved_example = compile_segment-HasMoved counting started 0 started-IsReady

-- About to submit the script's first segment.
abbrev begun : Machine ℕ
begun = begin started (at_rest 0)

submit-Ends_example : Ends IsSettled (submit counting begun)
submit-Ends_example =
    submit-Ends counting counting-GivesNumbers begun
      (record { due = refl; ready = started-IsReady })

-- Every document is one that parses.
abbrev parses : Document Text → Option Text
parses d = none

compile_script-IsWhole_example :
    IsWhole counting parses (compile_script counting parses script false 0)
compile_script-IsWhole_example = compile_script-IsWhole counting parses script false 0

-- A dispatch with a task, and a poll of it under way.
abbrev polled : Machine ℕ
polled = record (at_rest {G = ℕ} 0) {
  active = true;
  task = pos 4;
  state = running;
  poll = some (record { generation = 0; task = pos 4 });
}

polled-IsOrderly : IsOrderly polled
unfolding balanced waits
polled-IsOrderly = record {
  off = λ e. absurd (ground (arith, e));
  on = λ _. (
    λ e. absurd (ground (arith, e)),
    record { nested = refl; within = omega arith; apart = tt },
    record { counted = refl; at_wait = inl (refl, refl) },
    refl,
  );
}

tick-outdated_example :
    Ends
      (λ verdict m1.
        tick counting (some is_finished) true m1 ≡ settled true (record m1 { poll = none }))
      (start_script counting script false (cancel polled))
tick-outdated_example =
    tick-outdated counting counting-GivesNumbers script false polled
      (record { generation = 0; task = pos 4 }) is_finished true polled-IsOrderly refl refl refl
      (omega arith)

machine_of : Outcome ℕ → Machine ℕ
machine_of (settled verdict m) = m
machine_of faulted = at_rest 0
machine_of exhausted = at_rest 0

-- The script is started, and runs as task 1 then.
under_way : Machine ℕ
under_way = machine_of (start_script counting script false (at_rest 0))

started-settled : start_script counting script false (at_rest 0) ≡ settled true under_way
unfolding under_way machine_of start_script submit submit_rounds prepare lower_ascii trim_ascii
    waits
started-settled = refl

under_way-task : under_way.task ≡ pos 1
unfolding under_way machine_of start_script submit submit_rounds prepare lower_ascii trim_ascii
    waits
under_way-task = refl

under_way-Reach : Reach counting (at_rest 0) under_way
under_way-Reach = next here (starts script false true started-settled)

Reach-IsOrderly_example : IsOrderly under_way
Reach-IsOrderly_example = Reach-IsOrderly counting counting-GivesNumbers 0 under_way under_way-Reach

-- The task, the sequence's number and the number of sequences.
summary : Outcome ℕ → Option (ℤ × ℕ × ℕ)
summary (settled verdict m) = some (m.task, m.cursor.index, m.cursor.total)
summary faulted = none
summary exhausted = none

-- What follows a submission that has ended.
then_tick : Outcome ℕ → Outcome ℕ
then_tick (settled verdict m) =
    tick counting (some is_finished) false
      (record m { poll = some (record { generation = m.generation; task = m.task }) })
then_tick faulted = faulted
then_tick exhausted = exhausted

-- The script's segments become tasks 1, 2 and 3: the wait that is not taken no longer counts, and the
-- one of the include does.
first_run : summary (submit counting begun) ≡ some (pos 1, 1, 3)
unfolding summary submit submit_rounds started prepare cursor_of lower_ascii trim_ascii waits
first_run = refl

third_run : summary (then_tick (then_tick (submit counting begun))) ≡ some (pos 3, 3, 3)
unfolding summary then_tick tick submit submit_rounds started prepare cursor_of lower_ascii
    trim_ascii waits is_reference room_after
third_run = refl
