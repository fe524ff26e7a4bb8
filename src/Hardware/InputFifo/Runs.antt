-- ===== src/Hardware/InputFifo/Runs.antt =====
-- asio-master/HwInputFifo.h: sequences of calls from a reset.
use win_hook_audio.Hardware.InputFifo.Inv.{
  IsValid, reset-IsValid, push-IsValid, read-IsValid, skip-IsValid,
}
use win_hook_audio.Prelude.{ℕ, ◌+◌, ◌*◌, ◌≤◌, ◌<◌, ◌≡◌, List, [], ◌∷◌, length}
use win_hook_audio.Hardware.Floats.{Floats}
use win_hook_audio.Hardware.InputFifo.{InputFifo, reset, push, read, skip, take_latency_changed}

-- The calls of the Worker.
pub data Call (R A : Type 0) : Type 0 where
  push_call : List (List A) → ℕ → R → Call R A
  read_call : ℕ → ℕ → R → Call R A
  skip_call : ℕ → Call R A
  take_call : Call R A

module _ {R A S : Type 0} ⦃F : Floats R⦄ where
  unfoldable pub step :
      A → (S → List (List A) → R → List (List A) × S) → InputFifo R A S → Call R A → InputFifo R A S
  unfolding push read skip take_latency_changed
  step silence resample f (push_call input frames packet_sec) =
      push resample f input frames packet_sec
  step silence resample f (read_call need channels now_sec) =
      (read silence f need channels now_sec).2
  step silence resample f (skip_call frames) = skip f frames
  step silence resample f take_call = (take_latency_changed f).1

  unfoldable pub run :
      A
      → (S → List (List A) → R → List (List A) × S)
      → InputFifo R A S
      → List (Call R A)
      → InputFifo R A S
  unfolding step
  run silence resample f [] = f
  run silence resample f (c ∷ cs) = run silence resample (step silence resample f c) cs

  step-IsValid :
      {least : ℕ} (silence : A) (resample : S → List (List A) → R → List (List A) × S)
      (f : InputFifo R A S) (c : Call R A)
      → IsValid least f
      → IsValid least (step silence resample f c)
  unfolding step
  step-IsValid silence resample f (push_call input frames packet_sec) v =
      push-IsValid resample f input frames packet_sec v
  step-IsValid silence resample f (read_call need channels now_sec) v =
      read-IsValid silence f need channels now_sec v
  step-IsValid silence resample f (skip_call frames) v = skip-IsValid f frames v
  step-IsValid silence resample f take_call v = record {
    queue = v.queue;
    capacity = v.capacity;
    prime_in = v.prime_in;
    prime_from = v.prime_from;
  }

  pub run-IsValid :
      {least : ℕ} (silence : A) (resample : S → List (List A) → R → List (List A) × S)
      (f : InputFifo R A S) (cs : List (Call R A))
      → IsValid least f
      → IsValid least (run silence resample f cs)
  unfolding run
  run-IsValid silence resample f [] v = v
  run-IsValid silence resample f (c ∷ cs) v =
      run-IsValid silence resample (step silence resample f c) cs
        (step-IsValid silence resample f c v)

  -- After a reset for blocks of at least one frame, whatever is pushed, read and skipped, whatever the
  -- device's times and whatever the resampler puts out: the queue never holds more than its capacity,
  -- and the target stays between its start and its cap.
  pub run-reset-bounds :
      (silence : A) (fresh : S) (resample : S → List (List A) → R → List (List A) × S)
      (f : InputFifo R A S) (rate : R) (channels block period : ℕ) (cs : List (Call R A))
      → 0 < block
      → let f' = run silence resample (reset silence fresh f rate channels block period) cs in
        (f'.queue.count ≤ f'.queue.cap)
        × (length f'.queue.buf ≡ f'.queue.cap)
        × (2 * block + period ≤ f'.prime)
        × (f'.prime ≤ f'.max_prime)
  run-reset-bounds silence fresh resample f rate channels block period cs positive =
      let v =
        run-IsValid silence resample (reset silence fresh f rate channels block period) cs
          (reset-IsValid silence fresh f rate channels block period positive) in
      (v.queue.count_in, v.queue.storage, v.prime_from, v.prime_in)
