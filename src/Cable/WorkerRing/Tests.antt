-- ===== src/Cable/WorkerRing/Tests.antt =====
-- The Worker's ring at concrete inputs.
use win_hook_audio.Prelude.{
  ℕ, ◌≡◌, List, [], ◌∷◌, tabulate, arith, length, replicate, length-replicate,
}
use win_hook_audio.Cable.WorkerRing.{
  RingBuffer, k_ring_buffer_frames, block_frame, write, read, flat,
}
use win_hook_audio.Cable.WorkerRing.Refine.{
  IsValid, queued, push_all, pop_all, write_refines, read_refines,
}

storage : List (List ℕ)
storage = replicate k_ring_buffer_frames []

length-storage : length storage ≡ k_ring_buffer_frames
unfolding storage
length-storage = length-replicate {A = List ℕ} k_ring_buffer_frames []

abbrev idle : RingBuffer ℕ
idle = record { buffer = storage; read_pos = 8191; write_pos = 8191; size = 0 }

idle-IsValid : IsValid idle
idle-IsValid = omega (arith, length-storage)

write_refines_example :
    let (done, b') = write 0 idle (1 ∷ 2 ∷ []) 1 in
    let (done', q) = push_all (queued idle) (tabulate 1 (block_frame 0 (1 ∷ 2 ∷ []))) in
    (done ≡ done') × (queued b' ≡ q) × IsValid b'
write_refines_example = write_refines 0 idle (1 ∷ 2 ∷ []) 1 idle-IsValid

read_refines_example :
    let (out, done, b') = read 0 idle 3 in
    let (fs, done', q) = pop_all (queued idle) 3 in
    (out ≡ flat 0 fs) × (done ≡ done') × (queued b' ≡ q) × IsValid b'
read_refines_example = read_refines 0 idle 3 idle-IsValid
