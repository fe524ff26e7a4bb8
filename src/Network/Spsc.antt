-- ===== src/Network/Spsc.antt =====
-- common/network/WHASpscRing.h: the lock-free ring between the Worker and the network thread. The
-- buffer is the list of its frames; a frame is of an arbitrary type, since the ring only copies it.
-- `head_` and `tail_` are 64-bit counts of frames ever written and read.
pub mod Capacity
pub mod Copy
pub mod Threads
mod Tests
use Prim.Native.Nat.{bit_and}
use win_hook_audio.Prelude.{
  ℕ, zero, suc, ◌+◌, ◌-◌, ◌*◌, Bool, true, false, ◌||◌, Option, none, some, List, [], ◌∷◌, ◌++◌,
  ltb, ◌==◌, if◌then◌else◌, get_or, set, take, drop, replicate,
}
use win_hook_audio.Prelude.Words.{u32, u64, sub32, sub64}

pub record Ring {ℓ} (A : Type ℓ) : Type ℓ where
  pub buf : List A
  pub channels : ℕ
  pub capacity : ℕ
  pub head : ℕ
  pub tail : ℕ

-- `uint32_t cap = 1; while (cap < capacityFrames) cap <<= 1;` on fuel; `none`: the fuel ran out.
unfoldable pub round_up : ℕ → ℕ → ℕ → Option ℕ
round_up zero cap frames = none
round_up (suc fuel) cap frames =
    let rest = round_up fuel (u32 (cap * 2)) frames in if ltb cap frames then rest else some cap

-- The frames between two values of the counters, as `uint32_t`.
unfoldable pub distance : ℕ → ℕ → ℕ
distance head tail = u32 (sub64 head tail)

module _ {ℓ} {A : Type ℓ} where
  unfoldable pub reset : Ring A → Ring A
  reset r = record r { head = 0; tail = 0 }

  unfoldable pub readable : Ring A → ℕ
  unfolding distance
  readable r = distance r.head r.tail

  unfoldable pub writable : Ring A → ℕ
  unfolding readable
  writable r = sub32 r.capacity (readable r)

  -- One `memcpy` into the buffer, from place `at` on.
  unfoldable pub blit : List A → ℕ → List A → List A
  blit buf at [] = buf
  blit buf at (f ∷ fs) = blit (set buf at f) (at + 1) fs

  unfoldable pub copy_in : Ring A → ℕ → List A → ℕ → List A
  copy_in r at src n =
      let first = if ltb n (r.capacity - at) then n else r.capacity - at in
      let buf = blit r.buf at (take first src) in
      if ltb first n then blit buf 0 (take (n - first) (drop first src)) else buf

  -- `write`, `read` and `discard` up to their stores, with the value `seen` that the load of the other
  -- thread's counter returned: the frames to count, and what the copy does.
  unfoldable pub write_frames : ℕ → Ring A → List A → ℕ → ℕ × Ring A
  unfolding distance
  write_frames seen r src frames =
      let space = sub32 r.capacity (distance r.head seen) in
      let n = if ltb frames space then frames else space in
      (n, record r { buf = copy_in r (u32 (bit_and r.head (r.capacity - 1))) src n })

  unfoldable pub discard_frames : ℕ → Ring A → ℕ → ℕ
  unfolding distance
  discard_frames seen r frames =
      let avail = distance seen r.tail in if ltb frames avail then frames else avail

  -- The stores that publish the frames of a write, and the places of a read or a discard.
  unfoldable pub publish_head : Ring A → ℕ → Ring A
  publish_head r n = record r { head = u64 (r.head + n) }

  unfoldable pub publish_tail : Ring A → ℕ → Ring A
  publish_tail r n = record r { tail = u64 (r.tail + n) }

module _ {ℓ} {A : Type ℓ} (blank : A) where
  -- `none`: the rounding loop has not ended.
  unfoldable pub allocate : ℕ → Ring A → ℕ → ℕ → Option (Bool × Ring A)
  unfolding reset
  allocate fuel r channels frames =
      if channels == 0 || frames == 0 then some (false, r) else elim (round_up fuel 1 frames) [
        | none ↦ none
        | some cap ↦ some (
          true,
          reset (record r { buf = replicate cap blank; channels = channels; capacity = cap }),
        )
      ]

  -- One `memcpy` out of the buffer.
  unfoldable pub stretch : List A → ℕ → ℕ → List A
  stretch buf at zero = []
  stretch buf at (suc n) = get_or buf at blank ∷ stretch buf (at + 1) n

  unfoldable pub copy_out : Ring A → ℕ → ℕ → List A
  copy_out r at n =
      let first = if ltb n (r.capacity - at) then n else r.capacity - at in
      let out = stretch r.buf at first in
      if ltb first n then out ++ stretch r.buf 0 (n - first) else out

  unfoldable pub read_frames : ℕ → Ring A → ℕ → ℕ × List A
  unfolding distance
  read_frames seen r frames =
      let avail = distance seen r.tail in
      let n = if ltb frames avail then frames else avail in
      (n, copy_out r (u32 (bit_and r.tail (r.capacity - 1))) n)
