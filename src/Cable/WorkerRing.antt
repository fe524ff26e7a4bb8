-- ===== src/Cable/WorkerRing.antt =====
-- common/virtual/WHARingBuffer.h: the Worker's own ring for a Virtual Cable without a driver. It
-- takes or gives a block whole, or refuses it. `buffer_` is the list of its frames.
pub mod Refine
mod Tests
use win_hook_audio.Prelude.{
  ℕ, ◌+◌, ◌-◌, ◌*◌, ◌%◌, Bool, true, false, ◌||◌, List, [], ◌∷◌, ◌++◌, ltb, ◌==◌, if◌then◌else◌,
  get_or, tabulate,
}
use win_hook_audio.Prelude.Words.{u32, sub32}
use win_hook_audio.Prelude.Circular.{window, put_all}

abbrev pub k_virtual_channels : ℕ
k_virtual_channels = 8

abbrev pub k_ring_buffer_frames : ℕ
k_ring_buffer_frames = 8192

pub record RingBuffer {ℓ} (A : Type ℓ) : Type ℓ where
  pub buffer : List (List A)
  pub read_pos : ℕ
  pub write_pos : ℕ
  pub size : ℕ

module _ {ℓ} {A : Type ℓ} where
  unfoldable pub available : RingBuffer A → ℕ
  available b = sub32 k_ring_buffer_frames b.size

  unfoldable pub empty : RingBuffer A → Bool
  empty b = b.size == 0

  unfoldable pub clear : RingBuffer A → RingBuffer A
  clear b = record b { read_pos = 0; write_pos = 0; size = 0 }

module _ {ℓ} {A : Type ℓ} (silence : A) where
  -- Frame `f` of an interleaved block.
  unfoldable pub block_frame : List A → ℕ → List A
  block_frame block f =
      tabulate k_virtual_channels λ ch. get_or block (f * k_virtual_channels + ch) silence

  unfoldable pub write : RingBuffer A → List A → ℕ → Bool × RingBuffer A
  unfolding available
  write b block frames =
      if frames == 0 || ltb k_ring_buffer_frames frames
      then (false, b)
      else if ltb (available b) frames
      then (false, b)
      else (
        true,
        record b {
          buffer =
              put_all [] k_ring_buffer_frames b.buffer b.write_pos
                (tabulate frames (block_frame block));
          write_pos = u32 (b.write_pos + frames) % k_ring_buffer_frames;
          size = u32 (b.size + frames);
        },
      )

  unfoldable pub flat : List (List A) → List A
  flat [] = []
  flat (f ∷ fs) = tabulate k_virtual_channels (λ ch. get_or f ch silence) ++ flat fs

  -- The samples that `read` stores (none when it refuses), its result and the ring after it.
  unfoldable pub read : RingBuffer A → ℕ → List A × Bool × RingBuffer A
  read b frames =
      if frames == 0 || ltb k_ring_buffer_frames frames
      then ([], false, b)
      else if ltb b.size frames
      then ([], false, b)
      else (
        flat (window [] k_ring_buffer_frames b.buffer b.read_pos frames),
        true,
        record b {
          read_pos = u32 (b.read_pos + frames) % k_ring_buffer_frames;
          size = sub32 b.size frames;
        },
      )
