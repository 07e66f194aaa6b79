-- ===== src/Spsc/Threads.antt =====
-- spscqueue.h with its two threads: each atomic load and store of `push` and of `pop` is a step,
-- and the steps of the threads interleave freely. Acquire and release make the other side's
-- earlier writes visible, so that the steps act on one memory.
pub mod Safety
use marketdatabook.Common.{ℕ, ◌==◌, ◌≡◌, if◌then◌else◌, true, false, List, [], ◌∷◌, ◌++◌, Array}
use marketdatabook.Spsc.{Queue, new, load_head, write_slot, store_tail, load_tail, store_head}
use marketdatabook.Spsc.{read_slot, looks_full, looks_empty}

-- Where the producer stands in `push`: outside, before the load of `head_` after the cached copy
-- says full, before the write to `data_`, before the store of `tail_`.
pub data Producer {ℓ} (A : Type ℓ) : Type ℓ where
  outside : Producer A
  reloading : A → Producer A
  writing : A → Producer A
  publishing : A → Producer A

-- Where the consumer stands in `pop`: outside, before the load of `tail_` after the cached copy
-- says empty, before the read of `data_`, before the store of `head_`.
pub data Consumer {ℓ} (A : Type ℓ) : Type ℓ where
  outside : Consumer A
  reloading : Consumer A
  reading : Consumer A
  releasing : A → Consumer A

-- The memory, the two program counters, and what was pushed and popped so far.
pub record Threads {ℓ} (A : Type ℓ) : Type ℓ where
  pub queue : Queue A
  pub producer : Producer A
  pub consumer : Consumer A
  pub pushed : List A
  pub popped : List A

module _ {ℓ} {A : Type ℓ} (k : ℕ) where
  abbrev pub enter_push : A → Queue A → Producer A
  enter_push x q = if looks_full k q then Producer.reloading x else Producer.writing x

  -- After the reload `push` returns `false` if the ring still looks full.
  abbrev pub retry_push : A → Queue A → Producer A
  retry_push x q = if looks_full k q then Producer.outside else Producer.writing x

  abbrev pub enter_pop : Queue A → Consumer A
  enter_pop q = if looks_empty k q then Consumer.reloading else Consumer.reading

  abbrev pub retry_pop : Queue A → Consumer A
  retry_pop q = if looks_empty k q then Consumer.outside else Consumer.reading

  pub data Step : Threads A → Threads A → Type ℓ where
    call_push :
        (t : Threads A) (x : A)
        → t.producer ≡ Producer.outside
        → Step t (record t { producer = enter_push x t.queue })
    reload_head :
        (t : Threads A) (x : A)
        → t.producer ≡ Producer.reloading x
        → Step t (record t {
          queue = load_head k t.queue;
          producer = retry_push x (load_head k t.queue);
        })
    write :
        (t : Threads A) (x : A)
        → t.producer ≡ Producer.writing x
        → Step t (record t { queue = write_slot k x t.queue; producer = Producer.publishing x })
    publish :
        (t : Threads A) (x : A)
        → t.producer ≡ Producer.publishing x
        → Step t (record t {
          queue = store_tail k t.queue;
          producer = Producer.outside;
          pushed = t.pushed ++ x ∷ [];
        })
    call_pop :
        (t : Threads A)
        → t.consumer ≡ Consumer.outside
        → Step t (record t { consumer = enter_pop t.queue })
    reload_tail :
        (t : Threads A)
        → t.consumer ≡ Consumer.reloading
        → Step t
            (record t { queue = load_tail k t.queue; consumer = retry_pop (load_tail k t.queue) })
    read :
        (t : Threads A)
        → t.consumer ≡ Consumer.reading
        → Step t (record t { consumer = Consumer.releasing (read_slot k t.queue) })
    release :
        (t : Threads A) (x : A)
        → t.consumer ≡ Consumer.releasing x
        → Step t (record t {
          queue = store_head k t.queue;
          consumer = Consumer.outside;
          popped = t.popped ++ x ∷ [];
        })

  -- Both threads outside their calls, on a queue as it is constructed.
  abbrev pub start : Array A → Threads A
  start slots = record {
    queue = new slots;
    producer = Producer.outside;
    consumer = Consumer.outside;
    pushed = [];
    popped = [];
  }

  pub data Reach (slots : Array A) : Threads A → Type ℓ where
    here : Reach slots (start slots)
    next : {t u : Threads A} → Reach slots t → Step t u → Reach slots u
