-- ===== src/Hardware/InputFifo.antt =====
-- asio-master/HwInputFifo.h: frames from a device on its own clock, read a block at a tick of the
-- Master Clock. `R` is `double`, `A` a sample and `S` the state of the drift resampler, which `resample`
-- runs at a ratio. The sizes are non-negative `int` values.
pub mod Inv
pub mod Runs
pub mod Ready
pub mod Flow
use win_hook_audio.Prelude.{
  ℕ, ◌+◌, ◌-◌, ◌*◌, ◌/◌, Bool, true, false, not, ◌&&◌, List, [], ◌∷◌, ltb, leb, ◌==◌, if◌then◌else◌,
  get_or, replicate, tabulate,
}
use win_hook_audio.Prelude.Int.{ℤ, pos, negsuc, pos_part, ltb_ℤ}
use win_hook_audio.Prelude.Words.{u64}
use win_hook_audio.Hardware.Floats.{Floats, ◌⊕◌, ◌⊖◌, ◌⊗◌, ◌⊘◌, ◌≺◌, ◌≼◌, num}
use win_hook_audio.Hardware.Drift.{DriftControl, default_params}
use win_hook_audio.Hardware.Drift
use win_hook_audio.Hardware.Queue.{FrameQueue, lose, put_all, overflows, frame_at}

module _ (R A S : Type 0) where
  pub record InputFifo : Type 0 where
    pub rate : R
    pub channels : ℕ
    pub block : ℕ
    pub period : ℕ
    pub prime : ℕ
    pub max_prime : ℕ
    pub queue : FrameQueue (List A)
    pub primed : Bool
    pub newest_sec : R
    pub frame_period : R
    pub have_time : Bool
    pub resampler : S
    pub drift : DriftControl R
    pub reads : ℕ
    pub starved : ℕ
    pub trims : ℕ
    pub fill : ℤ
    pub fill_sum : ℕ
    pub ppm_milli : ℤ
    pub engaged : Bool
    pub growths : ℕ
    pub skipped : ℕ
    pub latency_changed : Bool

module _ {R : Type 0} ⦃F : Floats R⦄ where
  unfoldable pub deadband : ℕ → R
  deadband prime = let d = num prime ⊘ num 5 in if num 96 ≺ d then d else num 96

  -- `prime + 16 * period`, or 100 ms when that is more.
  unfoldable pub largest_prime : R → ℕ → ℕ → ℕ
  largest_prime rate prime period =
      let limit = F.to_int (rate ⊘ num 10) in
      let most = prime + 16 * period in if ltb_ℤ limit (pos most) then most else pos_part limit

module _ {A : Type 0} where
  -- `data` as its rows, a channel each: sample `i` of channel `c` is `data[c * frames + i]`.
  unfoldable pub planar : A → ℕ → ℕ → ℕ → (ℕ → List A) → List (List A)
  planar silence channels device_channels need frame =
      tabulate channels λ c.
        tabulate need λ i. if ltb c device_channels then get_or (frame i) c silence else silence

  unfoldable pub silent : A → ℕ → ℕ → List (List A)
  silent silence channels need = replicate channels (replicate need silence)

module _ {R A S : Type 0} ⦃F : Floats R⦄ where
  -- Backlog held at a read, before the block is taken.
  unfoldable pub expected_fill : InputFifo R A S → ℕ
  expected_fill f = f.prime + f.block

  -- `reset(rate, channels, block, period)`; `fresh` is the resampler after its own reset.
  unfoldable pub reset : A → S → InputFifo R A S → R → ℕ → ℕ → ℕ → InputFifo R A S
  unfolding largest_prime deadband
  reset silence fresh f rate channels block period =
      let prime = 2 * block + period in
      let max_prime = largest_prime rate prime period in
      let cap = max_prime + period + 16 * block in
      record f {
        rate = rate;
        channels = channels;
        block = block;
        period = period;
        prime = prime;
        max_prime = max_prime;
        queue = record {
          buf = replicate cap (replicate channels silence);
          cap = cap;
          read_pos = 0;
          count = 0;
        };
        primed = false;
        have_time = false;
        resampler = fresh;
        drift =
            Drift.reset (num (prime + block)) rate
              (record (default_params) { deadband = deadband prime });
        reads = 0;
        starved = 0;
        trims = 0;
        growths = 0;
        skipped = 0;
        latency_changed = false;
        fill = pos 0;
        fill_sum = 0;
        ppm_milli = pos 0;
        engaged = false;
      }

  -- The delay-locked loop over the packet times.
  unfoldable pub track : InputFifo R A S → ℕ → R → InputFifo R A S
  track f frames packet_sec =
      let interval = num frames ⊗ f.frame_period in
      let w = num 2 ⊗ F.literal 314159265358979323846 100000000000000000000 ⊗ num 1 ⊗ interval in
      let predicted = f.newest_sec ⊕ interval in
      let e = packet_sec ⊖ predicted in
      let root_two = F.literal 141421356237 100000000000 in
      if frames == 0
      then f
      else if f.have_time
      then record f {
        newest_sec = predicted ⊕ root_two ⊗ w ⊗ e;
        frame_period = f.frame_period ⊕ w ⊗ w ⊗ e ⊘ num frames;
      }
      else record f { newest_sec = packet_sec; frame_period = num 1 ⊘ f.rate; have_time = true }

  -- Frames queued and frames produced but not delivered yet.
  unfoldable pub backlog : InputFifo R A S → R → R
  backlog f now_sec =
      let undelivered =
        if f.have_time && (f.newest_sec ≺ now_sec)
        then (now_sec ⊖ f.newest_sec) ⊘ f.frame_period
        else num 0 in
      num f.queue.count ⊕ undelivered

  -- `push(interleaved, frames, packetSec)`
  unfoldable pub push :
      (S → List (List A) → R → List (List A) × S)
      → InputFifo R A S
      → List (List A)
      → ℕ
      → R
      → InputFifo R A S
  unfolding track put_all overflows
  push resample f input frames packet_sec =
      let t = track f frames packet_sec in
      let (out, s) = resample t.resampler input t.drift.ratio in
      record t {
        resampler = s;
        queue = put_all t.queue out;
        trims = if overflows t.queue out then u64 (t.trims + 1) else t.trims;
      }

  -- Reads start with the backlog exactly at the target.
  unfoldable pub starts : InputFifo R A S → ℕ → R → Bool
  unfolding backlog
  starts f need now_sec =
      not f.primed && (num (f.prime + need) ≼ backlog f now_sec) && leb need f.queue.count

  unfoldable pub excess : InputFifo R A S → ℕ → R → ℕ
  unfolding backlog
  excess f need now_sec =
      let over = pos_part (F.to_int (backlog f now_sec ⊖ num (f.prime + need))) in
      let most = f.queue.count - need in if ltb over most then over else most

  unfoldable pub start : InputFifo R A S → ℕ → R → InputFifo R A S
  unfolding starts excess lose
  start f need now_sec =
      if starts f need now_sec
      then record f { queue = lose f.queue (excess f need now_sec); primed = true }
      else f

  -- A queue far above the target is trimmed.
  unfoldable pub far_above : InputFifo R A S → ℕ → Bool
  far_above f need = f.primed && ltb (f.prime + f.period + 8 * need) f.queue.count

  unfoldable pub resync : InputFifo R A S → ℕ → InputFifo R A S
  unfolding far_above lose
  resync f need =
      if far_above f need
      then record f {
        queue = lose f.queue (f.queue.count - (f.prime + need));
        trims = u64 (f.trims + 1);
      }
      else f

  -- Behind the Master Clock: a larger target, then reads prime again.
  unfoldable pub starve : InputFifo R A S → InputFifo R A S
  unfolding deadband expected_fill
  starve f =
      let grow = if ltb f.period (f.prime / 4) then f.prime / 4 else f.period in
      let prime = if ltb (f.prime + grow) f.max_prime then f.prime + grow else f.max_prime in
      let missed = record f { starved = u64 (f.starved + 1); primed = false } in
      if ltb f.prime f.max_prime
      then record missed {
        prime = prime;
        growths = u64 (f.growths + 1);
        latency_changed = true;
        drift = Drift.retarget f.drift (num (prime + f.block)) (deadband prime);
      }
      else missed

  -- The counters and the drift loop at a read, and the block taken from the queue.
  unfoldable pub consume : InputFifo R A S → ℕ → R → InputFifo R A S
  unfolding lose
  consume f need measured =
      let drift = Drift.update f.drift measured (num need ⊘ f.rate) in
      record f {
        drift = drift;
        ppm_milli = F.to_int (Drift.source_ppm drift ⊗ num 1000);
        engaged = drift.engaged;
        fill_sum = u64 (f.fill_sum + pos_part (F.to_int measured));
        queue = lose f.queue need;
        reads = u64 (f.reads + 1);
      }

  -- The part of `read` after the measurement.
  unfoldable pub serve : A → InputFifo R A S → ℕ → ℕ → R → Bool × List (List A) × InputFifo R A S
  unfolding starve consume planar silent frame_at
  serve silence f need channels measured =
      if not f.primed
      then (false, silent silence channels need, f)
      else if ltb f.queue.count need
      then (false, silent silence channels need, starve f)
      else (
        true,
        planar silence channels f.channels need (frame_at [] f.queue),
        consume f need measured,
      )

  -- `read(data, frames, channels, nowSec)`: whether real audio came, the data and the state.
  unfoldable pub read : A → InputFifo R A S → ℕ → ℕ → R → Bool × List (List A) × InputFifo R A S
  unfolding start resync serve
  read silence f need channels now_sec =
      let g = resync (start f need now_sec) need in
      let measured = backlog g now_sec in
      serve silence (record g { fill = F.to_int measured }) need channels measured

  -- `skip(frames)`: ticks without a read.
  unfoldable pub skip : InputFifo R A S → ℕ → InputFifo R A S
  unfolding lose
  skip f frames = if not f.primed then f else record f {
    queue = lose f.queue (if ltb frames f.queue.count then frames else f.queue.count);
    skipped = u64 (f.skipped + frames);
  }

  unfoldable pub take_latency_changed : InputFifo R A S → Bool × InputFifo R A S
  take_latency_changed f = (f.latency_changed, record f { latency_changed = false })

  unfoldable pub mean_fill : InputFifo R A S → ℤ
  mean_fill f = if f.reads == 0 then negsuc 0 else pos (f.fill_sum / f.reads)
