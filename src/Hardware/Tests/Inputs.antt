-- ===== src/Hardware/Tests/Inputs.antt =====
-- asio-master/HwInputFifo.h on concrete calls, with a resampler that copies.
use win_hook_audio.Prelude.{ℕ, ◌+◌, ◌*◌, ◌≡◌, false, List, [], ◌∷◌, ◌++◌, arith, length, ◌≤◌}
use win_hook_audio.Prelude.Int.{ℤ, pos}
use win_hook_audio.Hardware.Drift
use win_hook_audio.Hardware.Drift.{DriftParams, DriftControl, default_params}
use win_hook_audio.Hardware.Queue.{FrameQueue}
use win_hook_audio.Hardware.InputFifo.{InputFifo}
use win_hook_audio.Hardware.InputFifo
use win_hook_audio.Hardware.InputFifo.Inv
use win_hook_audio.Hardware.InputFifo.Runs.{
  push_call, read_call, skip_call, take_call, run, run-reset-bounds,
}
use win_hook_audio.Hardware.InputFifo.Runs
use win_hook_audio.Hardware.InputFifo.Flow.{Outcome, read-Outcome, push-queued}
use win_hook_audio.Hardware.InputFifo.Ready.{queued}
use win_hook_audio.Hardware.Queue.Refine.{newest}
use win_hook_audio.Hardware.Tests.{whole, params}

-- Fresh states, and a resampler that copies.
abbrev no_drift : DriftControl ℤ
no_drift = Drift.reset (pos 0) (pos 48000) params

abbrev no_frames : FrameQueue (List ℕ)
no_frames = record { buf = []; cap = 0; read_pos = 0; count = 0 }

copy : ℕ → List (List ℕ) → ℤ → List (List ℕ) × ℕ
copy s fs ratio = (fs, s)

abbrev input_state : InputFifo ℤ ℕ ℕ
input_state = record {
  rate = pos 0;
  channels = 0;
  block = 0;
  period = 0;
  prime = 0;
  max_prime = 0;
  queue = no_frames;
  primed = false;
  newest_sec = pos 0;
  frame_period = pos 0;
  have_time = false;
  resampler = 0;
  drift = no_drift;
  reads = 0;
  starved = 0;
  trims = 0;
  fill = pos 0;
  fill_sum = 0;
  ppm_milli = pos 0;
  engaged = false;
  growths = 0;
  skipped = 0;
  latency_changed = false;
}

abbrev input_calls : List (Runs.Call ℤ ℕ)
input_calls =
    push_call ((1 ∷ []) ∷ (2 ∷ []) ∷ (3 ∷ []) ∷ []) 3 (pos 0)
    ∷ read_call 2 1 (pos 0)
    ∷ skip_call 1
    ∷ take_call
    ∷ []

run-reset-bounds_example :
    let f' = run 0 copy (InputFifo.reset 0 0 input_state (pos 40) 1 2 1) input_calls in
    (f'.queue.count ≤ f'.queue.cap)
    × (length f'.queue.buf ≡ f'.queue.cap)
    × (2 * 2 + 1 ≤ f'.prime)
    × (f'.prime ≤ f'.max_prime)
run-reset-bounds_example =
    run-reset-bounds 0 0 copy input_state (pos 40) 1 2 1 input_calls (omega arith)

played : InputFifo ℤ ℕ ℕ
played = run 0 copy (InputFifo.reset 0 0 input_state (pos 40) 1 2 1) input_calls

read-Outcome_example : Outcome 0 2 1 (pos 0) played (InputFifo.read 0 played 2 1 (pos 0))
read-Outcome_example = read-Outcome 0 played 2 1 (pos 0)

push-queued_example :
    let f = InputFifo.reset 0 0 input_state (pos 40) 1 2 1 in
    queued (InputFifo.push copy f ((1 ∷ []) ∷ (2 ∷ []) ∷ []) 2 (pos 0))
    ≡ newest f.queue.cap (queued f ++ (copy f.resampler ((1 ∷ []) ∷ (2 ∷ []) ∷ []) f.drift.ratio).0)
push-queued_example =
    push-queued copy (InputFifo.reset 0 0 input_state (pos 40) 1 2 1) ((1 ∷ []) ∷ (2 ∷ []) ∷ []) 2
      (pos 0) (Inv.reset-IsValid 0 0 input_state (pos 40) 1 2 1 (omega arith))
