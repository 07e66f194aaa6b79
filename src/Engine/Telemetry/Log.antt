-- ===== src/Engine/Telemetry/Log.antt =====
-- src/main.cpp: `log_telemetry`, a round of its loop, and the measurements that reach the file.
-- That the consumer goes on while the thread writes a buffer is not modelled.
use marketdatabook.Common.{
  ℕ, zero, suc, ◌+◌, ◌-◌, ◌≤◌, ◌<◌, ◌^◌, ◌≡◌, refl, sym, ap, ap₂, ◌∙◌, ltb, ◌||◌, arith,
}
use marketdatabook.Common.{
  List, [], ◌∷◌, ◌++◌, length, length-snoc, take, Array, update, update_self, update_ne, bit_and,
  Bool, true, false, none, some,
}
use mathlib.Core.Path.{subst}
use marketdatabook.Common.Bits.{bit_and-mask}
use marketdatabook.Spsc
use marketdatabook.Spsc.Holds.{Holds}
use marketdatabook.Spsc.Calls.{push-Agrees, pop-Agrees}
use marketdatabook.Engine.Telemetry.{
  Measurement, Telemetry, buffer_bits, buffer_size, record_measurement, record_measurements,
}

-- The measurements of a buffer from an index on.
unfoldable pub read_buffer : Array Measurement → ℕ → ℕ → List Measurement
read_buffer b at zero = []
read_buffer b at (suc n) = b at ∷ read_buffer b (at + 1) n

-- The buffer whose index is popped is written to the file whole. The file is the list of the
-- buffers written; it stays as it is where the thread waits.
unfoldable pub log_round : Telemetry × List (List Measurement) → Telemetry × List (List Measurement)
log_round (t, output_file) =
    let (q, popped) = Spsc.pop 1 t.telemetry_handoff_queue in
    let t' = record t { telemetry_handoff_queue = q } in
    elim popped [
      | none ↦ (t', output_file)
      | some buf_idx ↦ (t', output_file ++ read_buffer (t.buffers buf_idx) 0 buffer_size ∷ [])
    ]

-- The measurement for which the buffer is handed over.
abbrev pub is_slow : Measurement → Bool
is_slow x = ltb 1000 x.l1d_delta || ltb 5000 x.tsc_delta

abbrev pub AreQuick : List Measurement → Type 0
AreQuick [] = Unit
AreQuick (x ∷ xs) = (is_slow x ≡ false) × AreQuick xs

-- With the measurements `xs` recorded from an index on, in a buffer that stays active.
record HasRecorded (t t' : Telemetry) (xs : List Measurement) : Type 0 where
  active : t'.active_buf ≡ t.active_buf
  handoff : t'.telemetry_handoff_queue ≡ t.telemetry_handoff_queue
  index : t'.tel_idx ≡ t.tel_idx + length xs
  before : (j : ℕ) → j < t.tel_idx → t'.buffers t.active_buf j ≡ t.buffers t.active_buf j
  recorded : read_buffer (t'.buffers t.active_buf) t.tel_idx (length xs) ≡ xs

record_quick :
    (t : Telemetry) (x : Measurement)
    → is_slow x ≡ false
    → t.tel_idx + 1 < buffer_size
    → record_measurement t x ≡ record t {
      buffers = update t.buffers t.active_buf (update (t.buffers t.active_buf) t.tel_idx x);
      tel_idx = t.tel_idx + 1;
    }
unfolding record_measurement
record_quick t x quick room =
    let idx : bit_and (t.tel_idx + 1) (2 ^ buffer_bits - 1) ≡ t.tel_idx + 1 =
      omega (arith, bit_and-mask buffer_bits (t.tel_idx + 1)) in
    rw (quick, idx) refl

HasRecorded-cons :
    (t t' : Telemetry) (x : Measurement) (xs : List Measurement)
    → HasRecorded
        (record t {
          buffers = update t.buffers t.active_buf (update (t.buffers t.active_buf) t.tel_idx x);
          tel_idx = t.tel_idx + 1;
        })
        t'
        xs
    → HasRecorded t t' (x ∷ xs)
unfolding read_buffer
HasRecorded-cons t t' x xs v =
    let here = update_self t.buffers t.active_buf (update (t.buffers t.active_buf) t.tel_idx x) in
    record {
      active = v.active;
      handoff = v.handoff;
      index = omega (arith, v.index);
      before = λ j lt.
          v.before j (omega arith)
          ∙ ap (λ (b : Array Measurement). b j) here
          ∙ update_ne (t.buffers t.active_buf) t.tel_idx j x (omega arith);
      recorded =
          ap₂ ◌∷◌
            (v.before t.tel_idx (omega arith)
              ∙ ap (λ (b : Array Measurement). b t.tel_idx) here
              ∙ update_self (t.buffers t.active_buf) t.tel_idx x)
            v.recorded;
    }

record_measurements-HasRecorded :
    (xs : List Measurement) (t : Telemetry)
    → AreQuick xs
    → t.tel_idx + length xs < buffer_size
    → HasRecorded t (record_measurements t xs) xs
unfolding record_measurements read_buffer
record_measurements-HasRecorded [] t quick room = record {
  active = refl;
  handoff = refl;
  index = omega arith;
  before = λ j lt. refl;
  recorded = refl;
}
record_measurements-HasRecorded (x ∷ xs) t (q, quick) room =
    subst (λ v. HasRecorded t (record_measurements v xs) (x ∷ xs))
      (sym (record_quick t x q (omega arith)))
      (HasRecorded-cons t _ x xs (record_measurements-HasRecorded xs _ quick (omega arith)))

take-read_buffer :
    (b : Array Measurement) (n m at : ℕ) → n ≤ m → take n (read_buffer b at m) ≡ read_buffer b at n
unfolding read_buffer
take-read_buffer b zero m at h = refl
take-read_buffer b (suc n) zero at h = absurd (omega arith)
take-read_buffer b (suc n) (suc m) at h =
    ap (λ t. b at ∷ t) (take-read_buffer b n m (at + 1) (omega arith))

read_buffer-snoc :
    (b : Array Measurement) (n at : ℕ)
    → read_buffer b at (suc n) ≡ read_buffer b at n ++ b (at + n) ∷ []
unfolding read_buffer
read_buffer-snoc b zero at = ap (λ i. b i ∷ []) (omega arith)
read_buffer-snoc b (suc n) at =
    ap (λ t. b at ∷ t)
      (read_buffer-snoc b n (at + 1) ∙ ap (λ i. read_buffer b (at + 1) n ++ b i ∷ []) (omega arith))

read_buffer-update :
    (b : Array Measurement) (i : ℕ) (x : Measurement) (n at : ℕ)
    → at + n ≤ i
    → read_buffer (update b i x) at n ≡ read_buffer b at n
unfolding read_buffer
read_buffer-update b i x zero at h = refl
read_buffer-update b i x (suc n) at h =
    ap₂ ◌∷◌ (update_ne b i at x (omega arith)) (read_buffer-update b i x n (at + 1) (omega arith))

-- The buffer as it is handed over begins with the measurements and the slow one.
handed_over :
    (b : Array Measurement) (xs : List Measurement) (x : Measurement) (size : ℕ)
    → read_buffer b 0 (length xs) ≡ xs
    → length xs < size
    → take (length xs + 1) (read_buffer (update b (length xs) x) 0 size) ≡ xs ++ x ∷ []
handed_over b xs x size e room =
    let n = length xs in
    let b' = update b n x in
    let last : 0 + n ≡ n = omega arith in
    let count : n + 1 ≡ suc n = omega arith in
    ap (λ k. take k (read_buffer b' 0 size)) count
    ∙ take-read_buffer b' (suc n) size 0 (omega arith)
    ∙ read_buffer-snoc b' n 0
    ∙ ap₂ (λ ys y. ys ++ y ∷ []) (read_buffer-update b n x n 0 (omega arith) ∙ e)
        (ap b' last ∙ update_self b n x)

record_slow :
    (t : Telemetry) (x : Measurement)
    → is_slow x ≡ true
    → record_measurement t x ≡ record {
      buffers = update t.buffers t.active_buf (update (t.buffers t.active_buf) t.tel_idx x);
      telemetry_handoff_queue = (Spsc.push 1 t.telemetry_handoff_queue t.active_buf).0;
      active_buf = 1 - t.active_buf;
      tel_idx = 0;
    }
unfolding record_measurement
record_slow t x slow = rw (slow) refl

-- The buffer that was written begins with these measurements; the other one is next, from its
-- start, and nothing is handed over.
pub record IsLogged (before after : Telemetry) (file : List (List Measurement))
    (file' : List (List Measurement)) (xs : List Measurement) : Type 0 where
  pub block : List Measurement
  pub written : file' ≡ file ++ block ∷ []
  pub begins : take (length xs) block ≡ xs
  pub other : after.active_buf ≡ 1 - before.active_buf
  pub from_start : after.tel_idx ≡ 0
  pub idle : Holds 1 after.telemetry_handoff_queue []

log_round-some :
    (t : Telemetry) (output_file : List (List Measurement)) (i : ℕ)
    → (Spsc.pop 1 t.telemetry_handoff_queue).1 ≡ some i
    → log_round (t, output_file) ≡ (
      record t { telemetry_handoff_queue = (Spsc.pop 1 t.telemetry_handoff_queue).0 },
      output_file ++ read_buffer (t.buffers i) 0 buffer_size ∷ [],
    )
unfolding log_round
log_round-some t output_file i e = rw (log_round, e) refl

handoff_fits : 1 < 64
handoff_fits = omega arith

slow-IsLogged :
    (xs : List Measurement) (x : Measurement) (t t' : Telemetry)
    (output_file : List (List Measurement))
    → HasRecorded t t' xs
    → t.tel_idx ≡ 0
    → Holds 1 t.telemetry_handoff_queue []
    → length xs < buffer_size
    → let (after, output_file') = log_round (
      record {
        buffers = update t'.buffers t'.active_buf (update (t'.buffers t'.active_buf) t'.tel_idx x);
        telemetry_handoff_queue = (Spsc.push 1 t'.telemetry_handoff_queue t'.active_buf).0;
        active_buf = 1 - t'.active_buf;
        tel_idx = 0;
      },
      output_file,
    ) in
      IsLogged t after output_file output_file' (xs ++ x ∷ [])
slow-IsLogged xs x t t' output_file v start idle room =
    let a = t'.active_buf in
    let quiet : Holds 1 t'.telemetry_handoff_queue [] = rw (v.handoff) idle in
    let handed = (push-Agrees handoff_fits a quiet).0 in
    let (empty, found) = pop-Agrees handoff_fits handed in
    let index : t'.tel_idx ≡ length xs = omega (arith, v.index, start) in
    let recorded : read_buffer (t'.buffers a) 0 (length xs) ≡ xs =
      rw (v.active) (rw (start) at v.recorded) in
    let b = update (t'.buffers a) t'.tel_idx x in
    subst
      (λ (r : Telemetry × List (List Measurement)). IsLogged t r.0 output_file r.1 (xs ++ x ∷ []))
      (sym (log_round-some _ output_file a found))
      (record {
        block = read_buffer (update t'.buffers a b a) 0 buffer_size;
        written = refl;
        begins =
            ap
              (λ (c : Array Measurement).
                take (length (xs ++ x ∷ [])) (read_buffer c 0 buffer_size))
              (update_self t'.buffers a b)
            ∙ ap
                (λ i.
                  take (length (xs ++ x ∷ []))
                    (read_buffer (update (t'.buffers a) i x) 0 buffer_size))
                index
            ∙ ap (λ n. take n (read_buffer (update (t'.buffers a) (length xs) x) 0 buffer_size))
                (length-snoc xs x)
            ∙ handed_over (t'.buffers a) xs x buffer_size recorded room;
        other = omega (arith, v.active);
        from_start = refl;
        idle = empty;
      })

-- From an empty buffer with nothing handed over, fewer measurements than a buffer has, all but the
-- last of them quick and that one slow, leave the logging thread a buffer to write, which begins
-- with these measurements in order; then the other buffer is active, from its start, with nothing
-- handed over.
pub log_round-IsLogged :
    (xs : List Measurement) (x : Measurement) (t : Telemetry)
    (output_file : List (List Measurement))
    → AreQuick xs
    → is_slow x ≡ true
    → t.tel_idx ≡ 0
    → Holds 1 t.telemetry_handoff_queue []
    → length xs + 1 < buffer_size
    → let (t', output_file') =
        log_round (record_measurement (record_measurements t xs) x, output_file) in
      IsLogged t t' output_file output_file' (xs ++ x ∷ [])
log_round-IsLogged xs x t output_file quick slow start idle room =
    let v = record_measurements-HasRecorded xs t quick (omega arith) in
    subst
      (λ u.
        IsLogged t (log_round (u, output_file)).0 output_file (log_round (u, output_file)).1
          (xs ++ x ∷ []))
      (sym (record_slow (record_measurements t xs) x slow))
      (slow-IsLogged xs x t (record_measurements t xs) output_file v start idle (omega arith))
