-- ===== src/Hardware/Queue.antt =====
-- asio-master/HwInputFifo.h and HwOutputFifo.h: the circular queue of frames that both keep, their
-- `fifo_` or `queue_` with its capacity, `readPos_` and `count_`.
pub mod Refine
use win_hook_audio.Prelude.{
  ℕ, ◌+◌, ◌-◌, ◌%◌, Bool, true, false, List, [], ◌∷◌, ◌==◌, if◌then◌else◌, get_or, set, tabulate,
}

module _ (A : Type 0) where
  pub record FrameQueue : Type 0 where
    pub buf : List A
    pub cap : ℕ
    pub read_pos : ℕ
    pub count : ℕ

module _ {A : Type 0} where
  -- `drop(frames)`, for at most the frames queued.
  unfoldable pub lose : FrameQueue A → ℕ → FrameQueue A
  lose q n = record q { read_pos = (q.read_pos + n) % q.cap; count = q.count - n }

  -- One round of the loop of `push`: in a full queue the oldest frame goes, then one is added.
  unfoldable pub make_room : FrameQueue A → FrameQueue A
  unfolding lose
  make_room q = if q.count == q.cap then lose q 1 else q

  unfoldable pub append : FrameQueue A → A → FrameQueue A
  append q x = record q { buf = set q.buf ((q.read_pos + q.count) % q.cap) x; count = q.count + 1 }

  unfoldable pub put : FrameQueue A → A → FrameQueue A
  put q x = append (make_room q) x

  unfoldable pub put_all : FrameQueue A → List A → FrameQueue A
  unfolding put
  put_all q [] = q
  put_all q (x ∷ xs) = put_all (put q x) xs

  -- Whether the loop drops a frame.
  unfoldable pub overflows : FrameQueue A → List A → Bool
  unfolding put
  overflows q [] = false
  overflows q (x ∷ xs) =
      let later = overflows (put q x) xs in if q.count == q.cap then true else later

  -- Frame `i` of the queue.
  unfoldable pub frame_at : A → FrameQueue A → ℕ → A
  frame_at blank q i = get_or q.buf ((q.read_pos + i) % q.cap) blank
