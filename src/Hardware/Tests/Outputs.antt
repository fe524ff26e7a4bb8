-- ===== src/Hardware/Tests/Outputs.antt =====
-- asio-master/HwOutputFifo.h on concrete calls, with a resampler that copies.
use win_hook_audio.Prelude.{
  ℕ, ◌≡◌, false, List, [], ◌∷◌, ◌++◌, arith, replicate, take, ◌⊎◌, drop, length, ◌≤◌,
}
use win_hook_audio.Prelude.Int.{ℤ, pos, ◌+ℤ◌, ◌≤ℤ◌}
use win_hook_audio.Hardware.Drift
use win_hook_audio.Hardware.Drift.{DriftParams, DriftControl, default_params}
use win_hook_audio.Hardware.Queue.{FrameQueue}
use win_hook_audio.Hardware.OutputFifo.{OutputFifo}
use win_hook_audio.Hardware.OutputFifo
use win_hook_audio.Hardware.OutputFifo.Plan
use win_hook_audio.Hardware.OutputFifo.Inv
use win_hook_audio.Hardware.OutputFifo.Inv.{
  run-reset-IsValid, push_call, prime_call, skip_call, plan_call, pop_call,
}
use win_hook_audio.Hardware.OutputFifo.Pop.{upcoming, pop-upcoming}
use win_hook_audio.Hardware.OutputFifo.Flow.{plan-upcoming}
use win_hook_audio.Hardware.Position
use win_hook_audio.Hardware.Tests.{whole, params}

abbrev no_drift : DriftControl ℤ
no_drift = Drift.reset (pos 0) (pos 48000) params

abbrev no_frames : FrameQueue (List ℕ)
no_frames = record { buf = []; cap = 0; read_pos = 0; count = 0 }

copy : ℕ → List (List ℕ) → ℤ → List (List ℕ) × ℕ
copy s fs ratio = (fs, s)

abbrev output_state : OutputFifo ℤ ℕ ℕ
output_state = record {
  rate = pos 0;
  channels = 1;
  block = 2;
  capacity = 8;
  max_block = 4;
  position = Position.reset (pos 40) 2;
  queue = no_frames;
  silence_due = 3;
  last_block = 2;
  low_since = pos 0;
  gains = 0;
  engaged_since = pos 0;
  wrote = false;
  resampler = 0;
  drift = no_drift;
  target = 4;
  blocks = 0;
  underruns = 0;
  gaps = 0;
  trims = 0;
  fill = pos 0;
  ppm_milli = pos 0;
  engaged = false;
  chunk = 0;
}

abbrev output_calls : List (Inv.Call ℤ ℕ)
output_calls =
    push_call (1 ∷ 2 ∷ []) 2 1
    ∷ prime_call (pos 1)
    ∷ plan_call (pos 0) (pos 0) (pos 3)
    ∷ pop_call 2
    ∷ skip_call 1
    ∷ []

run-reset-IsValid_example :
    Inv.IsValid (Inv.run 0 copy (OutputFifo.reset 0 0 output_state (pos 40) 1 2 8 4) output_calls)
run-reset-IsValid_example =
    run-reset-IsValid 0 0 copy output_state (pos 40) 1 2 8 4 output_calls (omega arith)

pop-upcoming_example :
    let (out, f') = OutputFifo.pop 0 output_state 5 in
    (out ≡ take 5 (upcoming 0 output_state ++ replicate 5 (replicate 1 0)))
    × (upcoming 0 f' ≡ drop 5 (upcoming 0 output_state))
pop-upcoming_example = pop-upcoming 0 output_state 5

plan-upcoming_example :
    let (n, f') = Plan.plan output_state (pos 1) (pos 4) (pos 2) in
    ((n ≡ 0) ⊎ (pos n +ℤ pos 2 ≤ℤ pos 8))
    × (n ≤ length (upcoming 0 f'))
    × (added : ℕ) × (lost : ℕ) × (upcoming 0 f'
        ≡ drop lost (replicate added (replicate 1 0) ++ upcoming 0 output_state))
plan-upcoming_example = plan-upcoming 0 output_state (pos 1) (pos 4) (pos 2)
