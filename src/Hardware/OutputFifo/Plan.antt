-- ===== src/Hardware/OutputFifo/Plan.antt =====
-- asio-master/HwOutputFifo.h: `plan`, the frames to write to the device now, in its steps.
use win_hook_audio.Prelude.{ℕ, ◌+◌, ◌-◌, Bool, ◌&&◌, ◌||◌, ltb, ◌==◌, if◌then◌else◌}
use win_hook_audio.Prelude.Int.{ℤ, pos, pos_part, ltb_ℤ, eq_ℤ, ◌-ℤ◌}
use win_hook_audio.Prelude.Words.{u64}
use win_hook_audio.Hardware.Floats.{Floats, ◌⊕◌, ◌⊖◌, ◌⊗◌, ◌⊘◌, ◌≺◌, ◌≼◌, num}
use win_hook_audio.Hardware.Drift.{DriftControl, default_params}
use win_hook_audio.Hardware.Drift
use win_hook_audio.Hardware.Position.{observe, consumed_at}
use win_hook_audio.Hardware.Queue.{lose}
use win_hook_audio.Hardware.OutputFifo.{OutputFifo, target_for, deadband, k_kp, k_ki}

module _ {R A S : Type 0} ⦃F : Floats R⦄ where
  -- The steps of `plan`, in order. The device's steps may have changed: a new setpoint.
  unfoldable pub move_target : OutputFifo R A S → ℕ → OutputFifo R A S
  unfolding deadband
  move_target f t = if t == f.target then f else record f {
    target = t;
    drift = Drift.retarget f.drift (num t) (deadband t f.chunk f.block);
  }

  unfoldable pub retarget : OutputFifo R A S → R → ℤ → ℤ → OutputFifo R A S
  unfolding observe target_for move_target ◌-ℤ◌
  retarget f now_sec written padding =
      let position = observe f.position now_sec (written -ℤ padding) in
      move_target (record f { position = position; chunk = position.chunk })
        (target_for f.capacity f.block position.chunk)

  -- The gains for how long the loop has been engaged.
  unfoldable pub gains_for : OutputFifo R A S → R → ℕ
  gains_for f now_sec =
      let engaged_for = if num 0 ≼ f.engaged_since then now_sec ⊖ f.engaged_since else num 0 in
      if num 15 ≼ engaged_for then 2 else if ltb 0 f.chunk || (num 5 ≼ engaged_for) then 1 else 0

  unfoldable pub choose_gains : OutputFifo R A S → R → OutputFifo R A S
  unfolding k_kp k_ki gains_for
  choose_gains f now_sec =
      let gains = gains_for f now_sec in
      if gains == f.gains
      then f
      else record f { gains = gains; drift = Drift.set_gains f.drift (k_kp gains) (k_ki gains) }

  -- The device's fill.
  unfoldable pub device_fill : OutputFifo R A S → R → ℤ → ℤ → R
  unfolding consumed_at
  device_fill f now_sec written padding =
      let smooth = F.of_int written ⊖ consumed_at f.position now_sec in
      let held = F.of_int padding in
      let fill = if f.position.warm then (if held ≺ smooth then held else smooth) else held in
      if fill ≺ num 0 then num 0 else fill

  unfoldable pub count_underrun : OutputFifo R A S → ℤ → OutputFifo R A S
  count_underrun f padding =
      if eq_ℤ padding (pos 0) && f.wrote then record f { underruns = u64 (f.underruns + 1) } else f

  -- A backlog below half the target for 25 ms: silence up to the target.
  unfoldable pub too_low : OutputFifo R A S → R → Bool
  too_low f backlog = backlog ≺ num f.target ⊘ num 2

  unfoldable pub low_for_long : OutputFifo R A S → R → Bool
  low_for_long f now_sec =
      F.literal 25 1000 ≼ (now_sec ⊖ (if f.low_since ≺ num 0 then now_sec else f.low_since))

  unfoldable pub add_silence : OutputFifo R A S → R → R × OutputFifo R A S
  add_silence f backlog =
      let add = pos_part (F.to_int (num f.target ⊖ backlog)) in
      (
        backlog ⊕ num add,
        record f {
          silence_due = f.silence_due + add;
          gaps = u64 (f.gaps + 1);
          low_since = F.neg (num 1);
        },
      )

  unfoldable pub refill : OutputFifo R A S → R → R → R × OutputFifo R A S
  unfolding too_low low_for_long add_silence
  refill f now_sec backlog =
      if too_low f backlog
      then (if low_for_long f now_sec then add_silence f backlog else (
        backlog,
        record f { low_since = if f.low_since ≺ num 0 then now_sec else f.low_since },
      ))
      else (backlog, record f { low_since = F.neg (num 1) })

  -- A backlog far above the target: the owed silence goes first, then the oldest frames.
  unfoldable pub too_high : OutputFifo R A S → R → Bool
  too_high f backlog = num (f.target + f.chunk) ⊕ num 4 ⊗ num f.block ≺ backlog

  unfoldable pub shed : OutputFifo R A S → R → ℕ → R × OutputFifo R A S
  unfolding lose
  shed f backlog drop =
      let from_silence = if ltb drop f.silence_due then drop else f.silence_due in
      let over = drop - from_silence in
      let from_queue = if ltb f.queue.count over then f.queue.count else over in
      (
        backlog ⊖ num (from_silence + from_queue),
        record f {
          silence_due = f.silence_due - from_silence;
          queue = lose f.queue from_queue;
          trims = u64 (f.trims + 1);
        },
      )

  unfoldable pub trim : OutputFifo R A S → R → R × OutputFifo R A S
  unfolding too_high shed
  trim f backlog =
      if too_high f backlog
      then shed f backlog (pos_part (F.to_int (backlog ⊖ num f.target)))
      else (backlog, f)

  unfoldable pub update_drift : OutputFifo R A S → R → R → OutputFifo R A S
  update_drift f now_sec backlog =
      let drift = Drift.update f.drift backlog (num f.last_block ⊘ f.rate) in
      let since = if drift.engaged && (f.engaged_since ≺ num 0) then now_sec else f.engaged_since in
      if f.position.warm
      then record f {
        drift = drift;
        ppm_milli = F.to_int (F.neg (Drift.source_ppm drift) ⊗ num 1000);
        engaged = drift.engaged;
        engaged_since = since;
      }
      else f

  -- The frames to write now, at most the device's room.
  unfoldable pub writable : OutputFifo R A S → ℤ → ℕ
  unfolding ◌-ℤ◌
  writable f padding =
      let room =
        if ltb_ℤ padding (pos f.capacity) then pos_part (pos f.capacity -ℤ padding) else 0 in
      let have = f.queue.count + f.silence_due in if ltb have room then have else room

  -- `plan(nowSec, written, padding)`: the frames to write now, and the state.
  unfoldable pub plan : OutputFifo R A S → R → ℤ → ℤ → ℕ × OutputFifo R A S
  unfolding retarget choose_gains device_fill count_underrun refill trim update_drift writable
  plan f now_sec written padding =
      let g = choose_gains (retarget f now_sec written padding) now_sec in
      let start = num (g.queue.count + g.silence_due) ⊕ device_fill g now_sec written padding in
      let (filled, h) = refill (count_underrun g padding) now_sec start in
      let (backlog, t) = trim h filled in
      let d = update_drift t now_sec backlog in
      (writable d padding, record d { fill = F.to_int backlog })
