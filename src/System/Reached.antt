-- ===== src/System/Reached.antt =====
-- What holds in every state of `run_mock_mode` of src/main.cpp holds from its start on.
use mathlib.Core.List.Sublistᴰ.{slnil}
use marketdatabook.Common.{
  ℕ, ◌+◌, ◌≡◌, refl, ap, ◌∙◌, arith, List, [], ◌∷◌, ◌++◌, length, Array, done,
}
use marketdatabook.Common.{Result-cases, inl, inr, append_assoc, length-snoc}
use marketdatabook.Common.Bytes.{Bytes}
use marketdatabook.Itch.{NormalizedOrder}
use marketdatabook.Book.{Book}
use marketdatabook.Engine.{dispatch, consume}
use marketdatabook.Multicast.Ring
use marketdatabook.Multicast.Ring.{Mock, Poller}
use marketdatabook.Parser.Messages.{Message}
use marketdatabook.Parser.Stream.{handle_messages}
use marketdatabook.Spsc.Calls.{new-Holds}
use marketdatabook.Spsc.Answers.{pop-some, pop-none}
use marketdatabook.Wal.{Crc}
use marketdatabook.System.{
  System, Step, Reach, Call, work, work_of, here, next, idle, at_round, pushing,
}
use marketdatabook.System.{
  move_frame, begin_block, log_message, push_message, end_block, find_nothing, consume_order,
}
use marketdatabook.System.Blocks.{blocks_of, CallKnows, InBlock}
use marketdatabook.System.Running.{IsFile, IsRunning, queue_fits}
use marketdatabook.System.Parsing.{begin-IsRunning, log-IsRunning, push-IsRunning, end-IsRunning}

consume-snoc :
    (b : Book) (os : List NormalizedOrder) (o : NormalizedOrder) {b1 b2 : Book}
    → consume b os ≡ done b1
    → dispatch b1 o ≡ done b2
    → consume b (os ++ o ∷ []) ≡ done b2
unfolding consume
consume-snoc b [] o {b1} {b2} e f = let same : b ≡ b1 = cc in rw (same, f, consume) refl
consume-snoc b (x ∷ os) o e f = elim (Result-cases (dispatch b x)) [
  | inl (b', run) ↦ rw (run, consume) (consume-snoc b' os o (rw (run, consume) at e) f)
  | inr (err, b', run) ↦ absurd (cc (rw (run, consume) at e))
]

not_longer : (xs : List Bytes) (x : Bytes) → ¬ (xs ++ x ∷ [] ≡ xs)
not_longer xs x e = omega (arith, ap length e, length-snoc xs x)

-- The ring's steps but for the end of `parse_block` leave a poller that parses.
stays_parsing :
    {header_size : ℕ} {t u : Mock}
    → Ring.Step header_size t u
    → u.parsed ≡ t.parsed
    → t.poller ≡ Poller.parsing
    → u.poller ≡ Poller.parsing
stays_parsing (Ring.see_kernel t block rest at_loop some_left free) same e = e
stays_parsing (Ring.fill t block rest filling some_left) same e = e
stays_parsing (Ring.publish t block rest publishing some_left) same e = e
stays_parsing (Ring.see_user t at_loop used) same e = refl
stays_parsing (Ring.parse t parsing) same e = absurd (not_longer _ _ same)
stays_parsing (Ring.return_frame t returning) same e = absurd (cc)
stays_parsing (Ring.count_packet t counting) same e = absurd (cc)

moved :
    {p q : Poller} {later : List (List Message)} {part : List Message} {rest : Bytes}
    → (p ≡ Poller.parsing → q ≡ Poller.parsing)
    → InBlock p later part rest
    → InBlock q later part rest
moved f v = record {
  parsing = f v.parsing;
  left = v.left;
  more = v.more;
  first = v.first;
  ahead = v.ahead;
}

CallKnows-moved :
    (c : Call) {p q : Poller} (so_far later : List (List Message)) (part : List Message)
    (pushed : List NormalizedOrder)
    → (p ≡ Poller.parsing → q ≡ Poller.parsing)
    → CallKnows c p so_far later part pushed
    → CallKnows c q so_far later part pushed
CallKnows-moved idle so_far later part pushed f h = h
CallKnows-moved (at_round rest) so_far later part pushed f (inside, e) = (moved f inside, e)
CallKnows-moved (pushing o rest) so_far later part pushed f (inside, e) = (moved f inside, e)

module _ (header_size : ℕ) (crc : Crc) (rdtsc : ℕ → ℕ) {file : List (List Message)}
    {slots : Array NormalizedOrder} {b : Book} (good : IsFile header_size crc rdtsc file) where
  Step-IsRunning :
      {s t : System} {n : ℕ} (step : Step header_size crc rdtsc s t)
      → IsRunning header_size crc rdtsc file slots b s n
      → IsRunning header_size crc rdtsc file slots b t (n + work_of header_size crc rdtsc step)
  Step-IsRunning (move_frame s t step same) v = record {
    ring = Ring.next v.ring step;
    so_far = v.so_far;
    later = v.later;
    part = v.part;
    pushed = v.pushed;
    cut = v.cut;
    parsed = same ∙ v.parsed;
    call = CallKnows-moved s.call v.so_far v.later v.part v.pushed (stays_parsing step same) v.call;
    kept = v.kept;
    alike = v.alike;
    ran = v.ran;
    counted = omega (arith, v.counted);
  }
  Step-IsRunning (begin_block s parsing not_yet) v =
      begin-IsRunning header_size crc rdtsc good s parsing not_yet v
  Step-IsRunning (log_message s kind rest len at known more) v =
      log-IsRunning header_size crc rdtsc good s kind rest len at known v
  Step-IsRunning (push_message s o rest at) v =
      push-IsRunning header_size crc rdtsc good s o rest at v
  Step-IsRunning (end_block s rest at ends) v =
      end-IsRunning header_size crc rdtsc good s rest at ends v
  Step-IsRunning (find_nothing s empty) v = record {
    ring = v.ring;
    so_far = v.so_far;
    later = v.later;
    part = v.part;
    pushed = v.pushed;
    cut = v.cut;
    parsed = v.parsed;
    call = v.call;
    kept = record {
      waiting = v.kept.waiting;
      holds = pop-none queue_fits s.parser.queue v.kept.waiting v.kept.holds empty;
      among = v.kept.among;
    };
    alike = record { logger = v.alike.logger; curr_seq_num = v.alike.curr_seq_num };
    ran = v.ran;
    counted = omega (arith, v.counted);
  }
  Step-IsRunning (consume_order s o b' found run) v =
      let (rest, first, held) =
        pop-some queue_fits s.parser.queue v.kept.waiting o v.kept.holds found in
      record {
        ring = v.ring;
        so_far = v.so_far;
        later = v.later;
        part = v.part;
        pushed = v.pushed;
        cut = v.cut;
        parsed = v.parsed;
        call = v.call;
        kept = record {
          waiting = rest;
          holds = held;
          among = rw (append_assoc s.consumed (o ∷ []) rest) (rw (first) at v.kept.among);
        };
        alike = record { logger = v.alike.logger; curr_seq_num = v.alike.curr_seq_num };
        ran = consume-snoc b s.consumed o v.ran run;
        counted = omega (arith, v.counted, length-snoc s.consumed o);
      }

  pub Reach-IsRunning :
      {s : System} (r : Reach header_size crc rdtsc (blocks_of file) slots b s)
      → IsRunning header_size crc rdtsc file slots b s (work header_size crc rdtsc r)
  unfolding consume handle_messages
  Reach-IsRunning here = record {
    ring = Ring.here;
    so_far = [];
    later = file;
    part = [];
    pushed = [];
    cut = refl;
    parsed = refl;
    call = (refl, refl);
    kept = record { waiting = []; holds = new-Holds queue_fits slots; among = slnil };
    alike = record { logger = refl; curr_seq_num = refl };
    ran = refl;
    counted = refl;
  }
  Reach-IsRunning (next r step) = Step-IsRunning step (Reach-IsRunning r)
