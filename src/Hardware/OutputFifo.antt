-- ===== src/Hardware/OutputFifo.antt =====
-- asio-master/HwOutputFifo.h: blocks of the Master Clock to a device on its own clock. `R` is `double`,
-- `A` a sample and `S` the drift resampler's state. The padding that a device reports may be negative
-- (unknown), so it is an integer.
pub mod Plan
pub mod Inv
pub mod Pop
pub mod Flow
use win_hook_audio.Prelude.{
  ℕ, zero, suc, ◌+◌, ◌-◌, ◌*◌, ◌/◌, Bool, true, false, not, ◌&&◌, ◌||◌, List, [], ◌∷◌, ◌++◌, ltb,
  leb, ◌==◌, if◌then◌else◌, get_or, replicate, tabulate, length,
}
use win_hook_audio.Prelude.Int.{ℤ, pos, sub_ℕ, pos_part, ltb_ℤ, eq_ℤ, ◌-ℤ◌}
use win_hook_audio.Prelude.Words.{u64}
use win_hook_audio.Hardware.Floats.{Floats, ◌⊕◌, ◌⊖◌, ◌⊗◌, ◌⊘◌, ◌≺◌, ◌≼◌, num}
use win_hook_audio.Hardware.Drift.{DriftControl, default_params}
use win_hook_audio.Hardware.Drift
use win_hook_audio.Hardware.Position.{PositionTracker, observe, consumed_at}
use win_hook_audio.Hardware.Position
use win_hook_audio.Hardware.Queue.{FrameQueue, lose, put_all, overflows, frame_at}

module _ (R A S : Type 0) where
  pub record OutputFifo : Type 0 where
    pub rate : R
    pub channels : ℕ
    pub block : ℕ
    pub capacity : ℕ
    pub max_block : ℕ
    pub position : PositionTracker R
    pub queue : FrameQueue (List A)
    pub silence_due : ℕ
    pub last_block : ℕ
    pub low_since : R
    pub gains : ℕ
    pub engaged_since : R
    pub wrote : Bool
    pub resampler : S
    pub drift : DriftControl R
    pub target : ℕ
    pub blocks : ℕ
    pub underruns : ℕ
    pub gaps : ℕ
    pub trims : ℕ
    pub fill : ℤ
    pub ppm_milli : ℤ
    pub engaged : Bool
    pub chunk : ℕ

-- `targetFor(chunk)`: room for the device's steps, at least two blocks.
unfoldable pub target_for : ℕ → ℕ → ℕ → ℕ
target_for capacity block chunk =
    let t = sub_ℕ capacity (if ltb block chunk then chunk else block) in
    if ltb_ℤ (pos (2 * block)) t then pos_part t else 2 * block

module _ {R : Type 0} ⦃F : Floats R⦄ where
  unfoldable pub deadband : ℕ → ℕ → ℕ → R
  deadband target chunk block =
      let fifth = num target ⊘ num 5 in
      let d = if num 96 ≺ fifth then fifth else num 96 in
      let step = if ltb 0 chunk then num (chunk + block) ⊘ num 2 else num 0 in
      if step ≺ d then d else step

  -- `kKp` and `kKi`
  unfoldable pub k_kp : ℕ → R
  k_kp gains =
      if gains == 0 then num 2 else if gains == 1 then F.literal 5 10 else F.literal 125 1000

  unfoldable pub k_ki : ℕ → R
  k_ki gains = if gains == 0 then num 1 else if gains == 1 then num 1 ⊘ num 16 else num 1 ⊘ num 256

module _ {A : Type 0} where
  -- The planar block as `frames` interleaved frames of the device's channels: sample `i` of channel `c`
  -- is read at `data[c * frames + i]`.
  unfoldable pub interleave : A → ℕ → List A → ℕ → ℕ → List (List A)
  interleave silence device_channels block frames channels = tabulate frames λ i.
      tabulate device_channels
        λ c. if ltb c channels then get_or block (c * frames + i) silence else silence

  -- The loop of `pop` over the queue, for at most `n` frames.
  unfoldable pub pop_frames : ℕ → FrameQueue (List A) → List (List A) × FrameQueue (List A)
  unfolding frame_at lose
  pop_frames zero q = ([], q)
  pop_frames (suc n) q =
      let (fs, q') = pop_frames n (lose q 1) in
      if q.count == 0 then ([], q) else (frame_at [] q 0 ∷ fs, q')

module _ {R A S : Type 0} ⦃F : Floats R⦄ where
  -- `reset(rate, channels, block, capacity, maxBlock)`; `fresh` is the resampler after its own reset.
  unfoldable pub reset : A → S → OutputFifo R A S → R → ℕ → ℕ → ℕ → ℕ → OutputFifo R A S
  unfolding target_for deadband
  reset silence fresh f rate channels block capacity max_block =
      let cap = capacity + 16 * block in
      let target = target_for capacity block 0 in
      record f {
        rate = rate;
        channels = channels;
        block = block;
        capacity = capacity;
        max_block = max_block;
        position = Position.reset rate block;
        queue = record {
          buf = replicate cap (replicate channels silence);
          cap = cap;
          read_pos = 0;
          count = 0;
        };
        silence_due = 0;
        last_block = block;
        low_since = F.neg (num 1);
        gains = 0;
        engaged_since = F.neg (num 1);
        target = target;
        resampler = fresh;
        drift =
            Drift.reset (num target) rate
              (record (default_params) { deadband = deadband target f.chunk block });
        blocks = 0;
        underruns = 0;
        gaps = 0;
        trims = 0;
        wrote = false;
        fill = pos 0;
        ppm_milli = pos 0;
        engaged = false;
        chunk = 0;
      }

  -- `push(data, frames, channels)`, the block cut to the largest that fits.
  unfoldable pub push :
      A
      → (S → List (List A) → R → List (List A) × S)
      → OutputFifo R A S
      → List A
      → ℕ
      → ℕ
      → OutputFifo R A S
  unfolding interleave put_all overflows
  push silence resample f block frames channels =
      let n = if ltb f.max_block frames then f.max_block else frames in
      let (out, s) =
        resample f.resampler (interleave silence f.channels block n channels) f.drift.ratio in
      if frames == 0 then f else record f {
        resampler = s;
        queue = put_all f.queue out;
        trims = if overflows f.queue out then u64 (f.trims + 1) else f.trims;
        last_block = n;
        blocks = u64 (f.blocks + 1);
      }

  unfoldable pub prime_silence : OutputFifo R A S → ℤ → OutputFifo R A S
  unfolding ◌-ℤ◌
  prime_silence f padding =
      let owed = not (ltb_ℤ padding (pos 0)) && ltb_ℤ padding (pos f.target) in
      record f { silence_due = if owed then pos_part (pos f.target -ℤ padding) else 0 }

  unfoldable pub skip : OutputFifo R A S → ℕ → OutputFifo R A S
  skip f frames = record f { silence_due = f.silence_due + frames }

  -- `pop(out, frames)`: owed silence, then the queue, then silence.
  unfoldable pub pop : A → OutputFifo R A S → ℕ → List (List A) × OutputFifo R A S
  unfolding pop_frames
  pop silence f n =
      let quiet = replicate f.channels silence in
      let owed = if ltb n f.silence_due then n else f.silence_due in
      let (fs, q) = pop_frames (n - owed) f.queue in
      (
        replicate owed quiet ++ fs ++ replicate (n - owed - length fs) quiet,
        record f { silence_due = f.silence_due - owed; queue = q; wrote = f.wrote || not (n == 0) },
      )
