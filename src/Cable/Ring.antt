-- ===== src/Cable/Ring.antt =====
-- common/virtual/WHACableRing.h: one direction of a Virtual Cable, a FIFO of 8-channel frames.
-- A sample is of an arbitrary type, since the ring moves samples and adds only silence. `data_` is
-- the list of its frames, `k_cable_channels` samples each. The code's `unsigned` is 32 bits wide.

pub mod Inv
pub mod Spec
pub mod Refine
pub mod Read
pub mod Runs
pub mod Laws
mod Tests
use win_hook_audio.Prelude.{
  ℕ, zero, suc, ◌+◌, ◌-◌, ◌*◌, ◌%◌, Bool, true, false, not, ◌&&◌, ◌||◌, Option, none, some, List,
  [], ◌∷◌, ◌++◌, ltb, leb, ◌==◌, if◌then◌else◌, get_or, set, replicate, tabulate,
}
use win_hook_audio.Prelude.Words.{u32, sub32}
use win_hook_audio.Cable.Format.{k_cable_channels}

abbrev pub k_frames : ℕ
k_frames = 8192

abbrev pub k_trim_after_frames : ℕ
k_trim_after_frames = 4096

-- `w + 1 == kFrames ? 0 : w + 1`
abbrev pub next_place : ℕ → ℕ
next_place w = if (w + 1) == k_frames then 0 else w + 1

-- `if (channels > kCableChannels) channels = kCableChannels;`
unfoldable pub clip_channels : ℕ → ℕ
clip_channels channels = if ltb k_cable_channels channels then k_cable_channels else channels

-- `prime += extra_; if (prime > kFrames) prime = kFrames;`
unfoldable pub effective_prime : ℕ → ℕ → ℕ
effective_prime prime extra = let p = u32 (prime + extra) in if ltb k_frames p then k_frames else p

module _ {ℓ} (A : Type ℓ) where
  -- One frame, `k_cable_channels` samples.
  abbrev pub Frame : Type ℓ
  Frame = List A

  pub record Ring : Type ℓ where
    pub buf : List Frame
    pub read_pos : ℕ
    pub fill : ℕ
    pub primed : Bool
    pub extra : ℕ
    pub over_frames : ℕ
    pub underruns : ℕ
    pub drops : ℕ

module _ {ℓ} {A : Type ℓ} where
  unfoldable pub clear : Ring A → Ring A
  clear r = record r { read_pos = 0; fill = 0; primed = false; extra = 0; over_frames = 0 }

  unfoldable pub reset_extra : Ring A → Ring A
  reset_extra r = record r { extra = 0 }

  -- The three lines that `write` and `read` use to lose the oldest `over` frames.
  unfoldable pub drop_oldest : Ring A → ℕ → Ring A
  drop_oldest r over = record r {
    read_pos = u32 (r.read_pos + over) % k_frames;
    fill = sub32 r.fill over;
    drops = u32 (r.drops + over);
  }

  -- The write loop, over the frames still to be written.
  unfoldable pub put_frames : List (Frame A) → ℕ → List (Frame A) → List (Frame A)
  put_frames buf w [] = buf
  put_frames buf w (f ∷ fs) = put_frames (set buf w f) (next_place w) fs

  -- The read loop, over the rounds left: the frames from place `r` on, and the place it ends at.
  unfoldable pub get_frames : List (Frame A) → ℕ → ℕ → List (Frame A) × ℕ
  get_frames buf r zero = ([], r)
  get_frames buf r (suc n) =
      let (fs, r') = get_frames buf (next_place r) n in (get_or buf r [] ∷ fs, r')

  -- The second `if` of `write`: the ring is full, the oldest frames go.
  unfoldable pub make_room : Ring A → ℕ → Ring A
  make_room r n = if ltb k_frames (r.fill + n) then drop_oldest r (r.fill + n - k_frames) else r

  -- The write loop and `fill_ += n`, for the `n` frames that the loop makes.
  unfoldable pub append : Ring A → ℕ → List (Frame A) → Ring A
  append r n fs = record r {
    buf = put_frames r.buf ((r.read_pos + r.fill) % k_frames) fs;
    fill = r.fill + n;
  }

  -- The reader starts: a stale backlog goes.
  unfoldable pub start : Ring A → ℕ → ℕ → Ring A
  start r prime slack =
      let r' = record r { primed = true } in
      if ltb (u32 (prime + slack)) r.fill then drop_oldest r' (sub32 r.fill prime) else r'

  -- A queue that stays above prime + slack is trimmed.
  unfoldable pub trim_drift : Ring A → ℕ → ℕ → ℕ → Ring A
  trim_drift r n prime slack =
      let over = u32 (r.over_frames + n) in
      if ltb (u32 (prime + slack)) r.fill
      then if leb k_trim_after_frames over
        then record (drop_oldest r (sub32 r.fill prime)) { over_frames = 0 }
        else record r { over_frames = over }
      else record r { over_frames = 0 }

module _ {ℓ} {A : Type ℓ} (silence : A) where
  -- Frame `i` of an interleaved source of `channels` channels that starts at sample `off`.
  unfoldable pub source_frame : Option (List A) → ℕ → ℕ → ℕ → Frame A
  source_frame none off channels i = replicate k_cable_channels silence
  source_frame (some src) off channels i =
      tabulate k_cable_channels
        λ c. if ltb c channels then get_or src (off + channels * i + c) silence else silence

  -- The first `if` of `write` keeps the newest `k_frames` frames of a longer block.
  unfoldable pub write : Ring A → Option (List A) → ℕ → ℕ → Ring A
  write r src n channels =
      let width = clip_channels channels in
      let late = n - k_frames in
      if ltb k_frames n
      then append (make_room (record r { drops = u32 (r.drops + late) }) k_frames) k_frames
          (tabulate k_frames (source_frame src (u32 (width * late)) width))
      else append (make_room r n) n (tabulate n (source_frame src 0 width))

  -- What `read` stores for one frame: `channels` samples, silence past the cable's.
  unfoldable pub output_frame : ℕ → Frame A → List A
  output_frame channels f =
      tabulate channels λ c. if ltb c k_cable_channels then get_or f c silence else silence

  unfoldable pub interleave : ℕ → List (Frame A) → List A
  interleave channels [] = []
  interleave channels (f ∷ fs) = output_frame channels f ++ interleave channels fs

  -- Hands out what there is, then silence; short is an underrun.
  unfoldable pub deliver : Ring A → ℕ → ℕ → ℕ → ℕ → ℕ → List A × Ring A
  deliver r n channels base grow max_prime =
      let taken = if ltb n r.fill then n else r.fill in
      let (frames, place) = get_frames r.buf r.read_pos taken in
      let out = interleave channels frames in
      let r' = record r { read_pos = place; fill = r.fill - taken } in
      if ltb taken n
      then (
        out ++ replicate (channels * (n - taken)) silence,
        record r' {
          underruns = u32 (r.underruns + 1);
          primed = false;
          extra =
              if not (grow == 0) && leb (u32 (base + r.extra + grow)) max_prime
              then u32 (r.extra + grow)
              else r.extra;
        },
      )
      else (out, r')

  -- `dst` as the list of the samples that `read` stores, and the ring afterwards. The number of the
  -- samples is written without its wrap: a block has fewer than 2 ^ 32 of them.
  unfoldable pub read : Ring A → ℕ → ℕ → ℕ → ℕ → ℕ → ℕ → List A × Ring A
  read r n channels base slack grow max_prime =
      let prime = effective_prime base r.extra in
      if not r.primed && (ltb r.fill prime || r.fill == 0)
      then (replicate (n * channels) silence, r)
      else let r₁ = if r.primed then r else start r prime slack in
        deliver (trim_drift r₁ n prime slack) n channels base grow max_prime
