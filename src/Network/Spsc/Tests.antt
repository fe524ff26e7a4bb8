-- ===== src/Network/Spsc/Tests.antt =====
-- Runs of the lock-free ring at concrete inputs.
use win_hook_audio.Prelude.{
  ℕ, ◌+◌, ◌*◌, ◌^◌, ◌≤◌, ◌<◌, ◌≡◌, refl, some, none, [], ◌∷◌, ◌++◌, arith, length,
}
use win_hook_audio.Network.Spsc.{
  blit, stretch, round_up, write_frames, read_frames, publish_head, publish_tail, distance, copy_in,
  copy_out,
}
use win_hook_audio.Network.Spsc.Capacity.{round_up_lem, round_up_over}
use win_hook_audio.Network.Spsc.Threads.{
  System, Reach, here, next, copies_in, stores_head, copies_out, stores_tail, fill_in, publish,
  take_out, free, counted, pending,
}
use win_hook_audio.Network.Spsc.Threads.Fifo.{Reach-fifo, IsFresh}

round_up_example :
    (j : ℕ) × (round_up 32 1 5 ≡ some (2 ^ j)) × (j ≤ 31) × (5 ≤ 2 ^ j) × (2 ^ j < 2 * 5)
round_up_example = round_up_lem 5 (omega arith) (omega arith)

round_up_over_example : round_up 40 1 (2 ^ 31 + 1) ≡ none
round_up_over_example = round_up_over 40 (2 ^ 31 + 1) (omega arith)

abbrev quiet : System ℕ
quiet = record {
  ring = record { buf = 0 ∷ 0 ∷ 0 ∷ 0 ∷ []; channels = 1; capacity = 4; head = 0; tail = 0 };
  seen_tail = 0;
  seen_head = 0;
  writing = none;
  reading = none;
  sent = [];
  got = [];
}

quiet-IsFresh : IsFresh 0 2 quiet
quiet-IsFresh = record {
  power = refl;
  small = omega arith;
  storage = refl;
  zeroed = (refl, refl, refl, refl);
  at_rest = (refl, refl);
  nothing = (refl, refl);
}

-- Three frames are written. A read of two of them has copied, then a write of one copies before the
-- read frees its places.
abbrev filled : System ℕ
filled = fill_in 0 quiet 0 (7 ∷ 8 ∷ 9 ∷ []) 3

abbrev written : System ℕ
written = publish 0 filled 3 (7 ∷ 8 ∷ 9 ∷ [])

abbrev taking : System ℕ
taking = take_out 0 written 3 2

abbrev between : System ℕ
between = fill_in 0 taking 0 (5 ∷ []) 1

abbrev freed : System ℕ
freed = free 0 between 2 (7 ∷ 8 ∷ [])

freed_reached : Reach 0 quiet freed
unfolding write_frames read_frames publish_head publish_tail distance copy_in copy_out blit stretch
freed_reached =
    next
      (next
        (next
          (next
            (next here (
              copies_in quiet 0 (7 ∷ 8 ∷ 9 ∷ []) 3 refl (omega arith) (omega arith) (omega arith)
                (omega arith) (omega arith)))
            (stores_head filled 3 (7 ∷ 8 ∷ 9 ∷ []) refl))
          (copies_out written 3 2 refl (omega arith) (omega arith) (omega arith)))
        (copies_in taking 0 (5 ∷ []) 1 refl (omega arith) (omega arith) (omega arith) (omega arith)
          (omega arith)))
      (stores_tail between 2 (7 ∷ 8 ∷ []) refl)

Reach-fifo_example :
    (freed.sent ≡ freed.got ++ pending 0 freed)
    × (length (pending 0 freed) + counted freed.writing ≤ freed.ring.capacity)
Reach-fifo_example = Reach-fifo 0 2 quiet freed quiet-IsFresh freed_reached
