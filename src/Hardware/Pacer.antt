-- ===== src/Hardware/Pacer.antt =====
-- asio-master/HwClockPacer.h: when the next tick of the Master Clock is due, where a hardware output
-- paces it. `R` is `double`.
pub mod Bounds
pub mod Due
use win_hook_audio.Prelude.{
  ℕ, ◌+◌, ◌-◌, ◌*◌, ◌/◌, Bool, true, false, not, ◌&&◌, ◌||◌, ltb, if◌then◌else◌,
}
use win_hook_audio.Prelude.Int.{ℤ, pos, pos_part, sub_ℕ, ltb_ℤ, ◌-ℤ◌}
use win_hook_audio.Prelude.Words.{u64}
use win_hook_audio.Hardware.Floats.{Floats, ◌⊕◌, ◌⊖◌, ◌⊗◌, ◌⊘◌, ◌≺◌, ◌≼◌, num}
use win_hook_audio.Hardware.Position.{round_chunk}

module _ (R : Type 0) where
  pub record ClockPacer : Type 0 where
    pub rate : R
    pub block : ℕ
    pub capacity : ℕ
    pub frame_period : R
    pub have : Bool
    pub anchored : Bool
    pub warm : Bool
    pub warm_until : R
    pub written : ℤ
    pub padding : ℤ
    pub consumed_newest : ℤ
    pub last_consumed : ℤ
    pub last_sec : R
    pub newest_sec : R
    pub window_start : R
    pub window_max : ℕ
    pub previous_max : ℕ
    pub chunk : ℕ
    pub mixer_period : ℕ
    pub hurries : ℕ

module _ {R : Type 0} ⦃F : Floats R⦄ where
  -- `reset(rate, block, capacity, mixerPeriod)`
  unfoldable pub reset : R → ℕ → ℕ → ℤ → ClockPacer R
  unfolding round_chunk
  reset rate block capacity mixer_period = record {
    rate = rate;
    block = block;
    capacity = capacity;
    frame_period = num 1 ⊘ rate;
    have = false;
    anchored = false;
    warm = false;
    warm_until = num 0;
    written = pos 0;
    consumed_newest = pos 0;
    last_consumed = pos 0;
    padding = pos 0;
    last_sec = num 0;
    newest_sec = num 0;
    window_start = num 0;
    window_max = 0;
    previous_max = 0;
    mixer_period = pos_part mixer_period;
    chunk = round_chunk block (2 * pos_part mixer_period);
    hurries = 0;
  }

  -- The largest excess over the last one to two seconds, at least two periods of the mixer.
  unfoldable pub learn_chunk : ClockPacer R → R → ℕ → ClockPacer R
  unfolding round_chunk
  learn_chunk f now_sec excess =
      let turned = num 1 ≼ (now_sec ⊖ f.window_start) in
      let kept = if turned then 0 else f.window_max in
      let previous = if turned then f.window_max else f.previous_max in
      let most = if ltb kept excess then excess else kept in
      let c = if ltb previous most then most else previous in
      record f {
        previous_max = previous;
        window_max = most;
        window_start = if turned then now_sec else f.window_start;
        chunk = round_chunk f.block (if ltb (2 * f.mixer_period) c then c else 2 * f.mixer_period);
      }

  -- A wild estimate is given up for the nominal period.
  unfoldable pub tame : R → R → R
  tame nominal period =
      if (period ≺ nominal ⊗ F.literal 95 100) || (nominal ⊗ F.literal 105 100 ≺ period)
      then nominal
      else period

  -- The delay-locked loop, at 1 Hz, or 0.1 Hz through the mixer after the warm-up.
  unfoldable pub track : ClockPacer R → ℤ → R → ClockPacer R
  unfolding tame
  track f step now_sec =
      let interval = F.of_int step ⊗ f.frame_period in
      let hz = if ltb 0 f.mixer_period && f.warm then F.literal 1 10 else num 1 in
      let w = num 2 ⊗ F.literal 314159265358979323846 100000000000000000000 ⊗ hz ⊗ interval in
      let predicted = f.newest_sec ⊕ interval in
      let e = now_sec ⊖ predicted in
      record f {
        newest_sec = predicted ⊕ F.literal 141421356237 100000000000 ⊗ w ⊗ e;
        frame_period = tame (num 1 ⊘ f.rate) (f.frame_period ⊕ w ⊗ w ⊗ e ⊘ F.of_int step);
      }

  -- The steps of `observe`, in order: the first look, the end of the warm-up through the mixer, the
  -- start of the timeline at a report, and a report after it.
  unfoldable pub first_look : ClockPacer R → R → ℤ → ClockPacer R
  first_look f now_sec consumed = record f {
    have = true;
    last_consumed = consumed;
    consumed_newest = consumed;
    last_sec = now_sec;
    newest_sec = now_sec;
    window_start = now_sec;
  }

  unfoldable pub end_warm_up : ClockPacer R → R → ClockPacer R
  end_warm_up f now_sec =
      if ltb 0 f.mixer_period && f.anchored && not f.warm && (f.warm_until ≼ now_sec)
      then record f { warm = true; frame_period = num 1 ⊘ f.rate }
      else f

  unfoldable pub anchor : ClockPacer R → R → ℤ → ClockPacer R
  anchor f now_sec consumed = record f {
    warm_until = if f.anchored then f.warm_until else now_sec ⊕ num 1;
    warm = f.anchored || f.warm;
    anchored = true;
    newest_sec = now_sec;
    window_start = if f.anchored || f.warm then f.window_start else now_sec;
    frame_period = num 1 ⊘ f.rate;
    consumed_newest = consumed;
  }

  unfoldable pub follow : ClockPacer R → R → R → ℤ → ℤ → ClockPacer R
  unfolding learn_chunk track
  follow f now_sec elapsed step consumed =
      let excess = F.of_int step ⊖ elapsed ⊘ f.frame_period in
      let whole = if num 0 ≺ excess then pos_part (F.to_int excess) else 0 in
      record (track (learn_chunk f now_sec whole) step now_sec) { consumed_newest = consumed }

  unfoldable pub report : ClockPacer R → R → R → ℤ → ℤ → ClockPacer R
  unfolding anchor follow
  report f now_sec elapsed step consumed =
      if not f.anchored || (not f.warm && (f.warm_until ≼ now_sec))
      then anchor f now_sec consumed
      else follow f now_sec elapsed step consumed

  -- `observe(nowSec, written, padding)`
  unfoldable pub observe : ClockPacer R → R → ℤ → ℤ → ClockPacer R
  unfolding first_look end_warm_up report ◌-ℤ◌
  observe f now_sec written padding =
      let consumed = written -ℤ padding in
      let seen = record f { written = written; padding = padding } in
      let elapsed = now_sec ⊖ f.last_sec in
      let looked = record seen { last_sec = now_sec } in
      let moved = record looked { last_consumed = consumed } in
      if not f.have
      then first_look seen now_sec consumed
      else if ltb_ℤ f.last_consumed consumed
      then report (end_warm_up moved now_sec) now_sec elapsed (consumed -ℤ f.last_consumed) consumed
      else looked

  unfoldable pub setpoint : ClockPacer R → ℕ
  setpoint f =
      let s = sub_ℕ f.capacity (f.block + (if ltb f.block f.chunk then f.chunk else f.block)) in
      if ltb_ℤ (pos f.block) s then pos_part s else f.block

  unfoldable pub expected_fill : ClockPacer R → ℕ
  unfolding setpoint
  expected_fill f = setpoint f + (if ltb 0 f.mixer_period then f.mixer_period else f.chunk) / 2

  unfoldable pub warm_fill : ClockPacer R → ℤ
  unfolding expected_fill
  warm_fill f =
      if ltb 0 f.mixer_period then pos (expected_fill f) else sub_ℕ f.capacity (2 * f.block)

  unfoldable pub smooth_fill : ClockPacer R → R → R
  smooth_fill f now_sec =
      let place = F.of_int f.consumed_newest ⊕ (now_sec ⊖ f.newest_sec) ⊘ f.frame_period in
      let consumed = if F.of_int f.written ≺ place then F.of_int f.written else place in
      if f.anchored then F.of_int f.written ⊖ consumed else F.of_int f.padding

  -- The wait for room, of 0.2 ms at least.
  unfoldable pub wait_for_room : ClockPacer R → ℤ → R
  unfolding ◌-ℤ◌
  wait_for_room f room =
      let wait = F.of_int (pos f.block -ℤ room) ⊗ f.frame_period in
      if F.literal 2 10000 ≺ wait then wait else F.literal 2 10000

  -- `untilTick(nowSec)`: the seconds until the next tick is due, and the state.
  unfoldable pub until_tick : ClockPacer R → R → R × ClockPacer R
  unfolding wait_for_room warm_fill setpoint smooth_fill ◌-ℤ◌
  until_tick f now_sec =
      let room = pos f.capacity -ℤ f.padding in
      let below =
        ltb_ℤ f.padding (pos (f.block / 2)) || ltb_ℤ f.padding (sub_ℕ (setpoint f) f.block) in
      if ltb_ℤ room (pos f.block)
      then (wait_for_room f room, f)
      else if not f.warm
      then (F.of_int (f.padding -ℤ warm_fill f) ⊗ f.frame_period, f)
      else if below
      then (num 0, record f { hurries = u64 (f.hurries + 1) })
      else ((smooth_fill f now_sec ⊖ num (setpoint f)) ⊗ f.frame_period, f)
