-- ===== src/Hardware/OutputFifo/Inv.antt =====
-- asio-master/HwOutputFifo.h: the sizes and bounds of the state, call by call and from a reset.
use win_hook_audio.Prelude.{
  ℕ, zero, suc, ◌+◌, ◌-◌, ◌*◌, ◌≤◌, ◌<◌, ◌≡◌, refl, ◌∙◌, ◌&&◌, List, [], ◌∷◌, ltb, ◌==◌,
  if◌then◌else◌, replicate, length-replicate, arith, if_both,
}
use win_hook_audio.Prelude.Int.{ℤ, pos, eq_ℤ}
use win_hook_audio.Hardware.Floats.{Floats, ◌⊕◌, num}
use win_hook_audio.Hardware.Queue.{FrameQueue, lose}
use win_hook_audio.Hardware.Queue.Refine
use win_hook_audio.Hardware.Queue.Refine.{lose-IsValid, put_all-IsValid, cap-put_all}
use win_hook_audio.Hardware.OutputFifo.{
  OutputFifo, target_for, reset, push, prime_silence, skip, pop_frames, pop, interleave,
}
use win_hook_audio.Hardware.OutputFifo.Plan.{
  retarget, choose_gains, device_fill, count_underrun, refill, trim, move_target, gains_for,
  too_low, low_for_long, add_silence, too_high, shed, update_drift, plan,
}

target_for-ge : (capacity block chunk : ℕ) → 2 * block ≤ target_for capacity block chunk
unfolding target_for
target_for-ge capacity block chunk = ground arith

-- The calls of the pacer.
pub data Call (R A : Type 0) : Type 0 where
  push_call : List A → ℕ → ℕ → Call R A
  prime_call : ℤ → Call R A
  skip_call : ℕ → Call R A
  plan_call : R → ℤ → ℤ → Call R A
  pop_call : ℕ → Call R A

module _ {A : Type 0} where
  pub pop_frames-IsValid :
      (n : ℕ) (q : FrameQueue (List A))
      → Refine.IsValid q
      → Refine.IsValid (pop_frames n q).1 × ((pop_frames n q).1.cap ≡ q.cap)
  unfolding pop_frames lose
  pop_frames-IsValid zero q v = (v, refl)
  pop_frames-IsValid (suc n) q v =
      let rest = pop_frames-IsValid n (lose q 1) (lose-IsValid q 1 v) in
      if_both (λ (r : List (List A) × FrameQueue (List A)). Refine.IsValid r.1 × (r.1.cap ≡ q.cap))
        (q.count == 0) (v, refl) rest

module _ {R A S : Type 0} ⦃F : Floats R⦄ where
  pub record IsValid (f : OutputFifo R A S) : Type 0 where
    pub queue : Refine.IsValid f.queue
    pub capacity : f.queue.cap ≡ f.capacity + 16 * f.block
    pub target_from : 2 * f.block ≤ f.target

  pub reset-IsValid :
      (silence : A) (fresh : S) (f : OutputFifo R A S) (rate : R)
      (channels block capacity max_block : ℕ)
      → 0 < block
      → IsValid (reset silence fresh f rate channels block capacity max_block)
  unfolding reset
  reset-IsValid silence fresh f rate channels block capacity max_block positive = record {
    queue = record {
      room = omega arith;
      storage = length-replicate (capacity + 16 * block) (replicate channels silence);
      count_in = omega arith;
    };
    capacity = refl;
    target_from = target_for-ge capacity block 0;
  }

  module _ (f : OutputFifo R A S) (v : IsValid f) where
    move_target-IsValid : (t : ℕ) → 2 * f.block ≤ t → IsValid (move_target f t)
    unfolding move_target
    move_target-IsValid t le =
        if_both IsValid (t == f.target) v
          (record { queue = v.queue; capacity = v.capacity; target_from = le })

    choose_gains-IsValid : (now_sec : R) → IsValid (choose_gains f now_sec)
    unfolding choose_gains
    choose_gains-IsValid now_sec =
        if_both IsValid (gains_for f now_sec == f.gains) v
          (record { queue = v.queue; capacity = v.capacity; target_from = v.target_from })

    count_underrun-IsValid : (padding : ℤ) → IsValid (count_underrun f padding)
    unfolding count_underrun
    count_underrun-IsValid padding =
        if_both IsValid (eq_ℤ padding (pos 0) && f.wrote)
          (record { queue = v.queue; capacity = v.capacity; target_from = v.target_from }) v

    refill-IsValid : (now_sec backlog : R) → IsValid (refill f now_sec backlog).1
    unfolding refill add_silence
    refill-IsValid now_sec backlog =
        let P = λ (r : R × OutputFifo R A S). IsValid r.1 in
        if_both P (too_low f backlog)
          (if_both P (low_for_long f now_sec)
            (record { queue = v.queue; capacity = v.capacity; target_from = v.target_from })
            (record { queue = v.queue; capacity = v.capacity; target_from = v.target_from }))
          (record { queue = v.queue; capacity = v.capacity; target_from = v.target_from })

    trim-IsValid : (backlog : R) → IsValid (trim f backlog).1
    unfolding trim shed lose
    trim-IsValid backlog =
        if_both (λ (r : R × OutputFifo R A S). IsValid r.1) (too_high f backlog)
          (record {
            queue = lose-IsValid f.queue _ v.queue;
            capacity = v.capacity;
            target_from = v.target_from;
          })
          v

    update_drift-IsValid : (now_sec backlog : R) → IsValid (update_drift f now_sec backlog)
    unfolding update_drift
    update_drift-IsValid now_sec backlog =
        if_both IsValid f.position.warm
          (record { queue = v.queue; capacity = v.capacity; target_from = v.target_from }) v

  retarget-IsValid :
      (f : OutputFifo R A S) (now_sec : R) (written padding : ℤ)
      → IsValid f
      → IsValid (retarget f now_sec written padding)
  unfolding retarget
  retarget-IsValid f now_sec written padding v =
      move_target-IsValid _
        (record { queue = v.queue; capacity = v.capacity; target_from = v.target_from }) _
        (target_for-ge f.capacity f.block _)

  pub plan-IsValid :
      (f : OutputFifo R A S) (now_sec : R) (written padding : ℤ)
      → IsValid f
      → IsValid (plan f now_sec written padding).1
  unfolding plan
  plan-IsValid f now_sec written padding v =
      let r = retarget f now_sec written padding in
      let g = choose_gains r now_sec in
      let start = num (g.queue.count + g.silence_due) ⊕ device_fill g now_sec written padding in
      let c = count_underrun g padding in
      let h = refill c now_sec start in
      let t = trim h.1 h.0 in
      let vg = choose_gains-IsValid r (retarget-IsValid f now_sec written padding v) now_sec in
      let vh = refill-IsValid c (count_underrun-IsValid g vg padding) now_sec start in
      let vd = update_drift-IsValid t.1 (trim-IsValid h.1 vh h.0) now_sec t.0 in
      record { queue = vd.queue; capacity = vd.capacity; target_from = vd.target_from }

  pub push-IsValid :
      (silence : A) (resample : S → List (List A) → R → List (List A) × S) (f : OutputFifo R A S)
      (block : List A) (frames channels : ℕ)
      → IsValid f
      → IsValid (push silence resample f block frames channels)
  unfolding push
  push-IsValid silence resample f block frames channels v =
      let n = if ltb f.max_block frames then f.max_block else frames in
      let out =
        (resample f.resampler (interleave silence f.channels block n channels) f.drift.ratio).0 in
      if_both IsValid (frames == 0) v (record {
        queue = put_all-IsValid f.queue out v.queue;
        capacity = cap-put_all [] out f.queue ∙ v.capacity;
        target_from = v.target_from;
      })

  pop-IsValid :
      (silence : A) (f : OutputFifo R A S) (n : ℕ) → IsValid f → IsValid (pop silence f n).1
  unfolding pop
  pop-IsValid silence f n v =
      let (w, e) =
        pop_frames-IsValid (n - (if ltb n f.silence_due then n else f.silence_due)) f.queue
          v.queue in
      record { queue = w; capacity = e ∙ v.capacity; target_from = v.target_from }

  unfoldable pub step :
      A
      → (S → List (List A) → R → List (List A) × S)
      → OutputFifo R A S
      → Call R A
      → OutputFifo R A S
  unfolding push prime_silence skip plan pop
  step silence resample f (push_call block frames channels) =
      push silence resample f block frames channels
  step silence resample f (prime_call padding) = prime_silence f padding
  step silence resample f (skip_call frames) = skip f frames
  step silence resample f (plan_call now_sec written padding) = (plan f now_sec written padding).1
  step silence resample f (pop_call n) = (pop silence f n).1

  unfoldable pub run :
      A
      → (S → List (List A) → R → List (List A) × S)
      → OutputFifo R A S
      → List (Call R A)
      → OutputFifo R A S
  unfolding step
  run silence resample f [] = f
  run silence resample f (c ∷ cs) = run silence resample (step silence resample f c) cs

  step-IsValid :
      (silence : A) (resample : S → List (List A) → R → List (List A) × S) (f : OutputFifo R A S)
      (c : Call R A)
      → IsValid f
      → IsValid (step silence resample f c)
  unfolding step prime_silence skip
  step-IsValid silence resample f (push_call block frames channels) v =
      push-IsValid silence resample f block frames channels v
  step-IsValid silence resample f (prime_call padding) v = record {
    queue = v.queue;
    capacity = v.capacity;
    target_from = v.target_from;
  }
  step-IsValid silence resample f (skip_call frames) v = record {
    queue = v.queue;
    capacity = v.capacity;
    target_from = v.target_from;
  }
  step-IsValid silence resample f (plan_call now_sec written padding) v =
      plan-IsValid f now_sec written padding v
  step-IsValid silence resample f (pop_call n) v = pop-IsValid silence f n v

  run-IsValid :
      (silence : A) (resample : S → List (List A) → R → List (List A) × S) (f : OutputFifo R A S)
      (cs : List (Call R A))
      → IsValid f
      → IsValid (run silence resample f cs)
  unfolding run
  run-IsValid silence resample f [] v = v
  run-IsValid silence resample f (c ∷ cs) v =
      run-IsValid silence resample (step silence resample f c) cs
        (step-IsValid silence resample f c v)

  -- After a reset for blocks of at least one frame, whatever is pushed, planned, popped and skipped,
  -- whatever the device reports and whatever the resampler puts out: the state is valid, so the queue
  -- never holds more than its capacity, the device's buffer and 16 blocks, and the setpoint never goes
  -- below two blocks.
  pub run-reset-IsValid :
      (silence : A) (fresh : S) (resample : S → List (List A) → R → List (List A) × S)
      (f : OutputFifo R A S) (rate : R) (channels block capacity max_block : ℕ)
      (cs : List (Call R A))
      → 0 < block
      → IsValid
          (run silence resample (reset silence fresh f rate channels block capacity max_block) cs)
  run-reset-IsValid silence fresh resample f rate channels block capacity max_block cs positive =
      run-IsValid silence resample (reset silence fresh f rate channels block capacity max_block) cs
        (reset-IsValid silence fresh f rate channels block capacity max_block positive)
