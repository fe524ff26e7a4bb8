-- ===== src/Hardware/OutputFifo/Flow.antt =====
-- asio-master/HwOutputFifo.h: what is still to come before and after `plan`.
use win_hook_audio.Prelude.Padding.{take-append, drop-padded, drop-capped}
use win_hook_audio.Hardware.OutputFifo.Pop.{upcoming, pop-upcoming, skip-upcoming}
use win_hook_audio.Prelude.{
  ℕ, ◌+◌, ◌-◌, ◌≤◌, ◌≡◌, ◌⊎◌, refl, sym, ap, ap₂, subst, ◌∙◌, ◌&&◌, List, [], ◌++◌, ltb, ◌==◌,
  if◌then◌else◌, replicate, length, length-replicate, length-append, take, drop, append-nil, arith,
  if_both,
}
use win_hook_audio.Prelude.Int.{ℤ, pos, pos_part, ltb_ℤ, eq_ℤ, ◌-ℤ◌, ◌≤ℤ◌, ◌+ℤ◌}
use win_hook_audio.Hardware.Floats.{Floats, ◌⊕◌, ◌⊖◌, num}
use win_hook_audio.Hardware.Queue.Refine.{entries, entries-lose, length-entries}
use win_hook_audio.Hardware.OutputFifo.{OutputFifo, skip, pop}
use win_hook_audio.Hardware.OutputFifo.Plan.{
  retarget, choose_gains, device_fill, count_underrun, refill, trim, update_drift, plan,
  move_target, gains_for, too_low, low_for_long, add_silence, too_high, shed, writable,
}

module _ {R A S : Type 0} ⦃F : Floats R⦄ (silence : A) where
  -- A step that moves no frame.
  abbrev Same : OutputFifo R A S → OutputFifo R A S → Type 0
  Same f g =
      (g.channels ≡ f.channels)
      × (g.capacity ≡ f.capacity)
      × (upcoming silence g ≡ upcoming silence f)

  Same-trans : (f g h : OutputFifo R A S) → Same f g → Same g h → Same f h
  Same-trans f g h (c, k, u) (c', k', u') = (c' ∙ c, k' ∙ k, u' ∙ u)

  module _ (f : OutputFifo R A S) where
    move_target-Same : (t : ℕ) → Same f (move_target f t)
    unfolding move_target
    move_target-Same t = if_both (Same f) (t == f.target) (refl, refl, refl) (refl, refl, refl)

    choose_gains-Same : (now_sec : R) → Same f (choose_gains f now_sec)
    unfolding choose_gains
    choose_gains-Same now_sec =
        if_both (Same f) (gains_for f now_sec == f.gains) (refl, refl, refl) (refl, refl, refl)

    count_underrun-Same : (padding : ℤ) → Same f (count_underrun f padding)
    unfolding count_underrun
    count_underrun-Same padding =
        if_both (Same f) (eq_ℤ padding (pos 0) && f.wrote) (refl, refl, refl) (refl, refl, refl)

    update_drift-Same : (now_sec backlog : R) → Same f (update_drift f now_sec backlog)
    unfolding update_drift
    update_drift-Same now_sec backlog =
        if_both (Same f) f.position.warm (refl, refl, refl) (refl, refl, refl)

    -- Silence before all that was to come.
    Padded : OutputFifo R A S → Type 0
    Padded g =
        (g.channels ≡ f.channels)
        × (g.capacity ≡ f.capacity)
        × (added : ℕ) × (upcoming silence g
            ≡ replicate added (replicate f.channels silence) ++ upcoming silence f)

    refill-upcoming : (now_sec backlog : R) → Padded (refill f now_sec backlog).1
    unfolding refill add_silence Padded skip
    refill-upcoming now_sec backlog =
        let P = λ (r : R × OutputFifo R A S). Padded r.1 in
        let add = pos_part (F.to_int (num f.target ⊖ backlog)) in
        if_both P (too_low f backlog)
          (if_both P (low_for_long f now_sec) (refl, refl, add, skip-upcoming silence f add)
            (refl, refl, 0, refl))
          (refl, refl, 0, refl)

    -- The oldest of what was to come is gone.
    Shortened : OutputFifo R A S → Type 0
    Shortened g =
        (g.channels ≡ f.channels)
        × (g.capacity ≡ f.capacity)
        × (lost : ℕ) × (upcoming silence g ≡ drop lost (upcoming silence f))

    shed-upcoming : (backlog : R) (n : ℕ) → Shortened (shed f backlog n).1
    unfolding shed Shortened
    shed-upcoming backlog n =
        let quiet = replicate f.channels silence in
        let due = f.silence_due in
        let from_silence = if ltb n due then n else due in
        let over = n - from_silence in
        let es = entries [] f.queue in
        let from_queue = if ltb f.queue.count over then f.queue.count else over in
        let left : due - from_silence ≡ due - n = ground arith in
        let rest : over ≡ n - due = ground arith in
        (
          refl,
          refl,
          n,
          ap₂ (λ k (xs : List (List A)). replicate k quiet ++ xs) left
                (entries-lose [] f.queue from_queue
                  ∙ drop-capped over f.queue.count es (length-entries [] f.queue)
                  ∙ ap (λ k. drop k es) rest)
              ∙ sym (drop-padded n due quiet es),
        )

    trim-upcoming : (backlog : R) → Shortened (trim f backlog).1
    unfolding trim Shortened
    trim-upcoming backlog =
        if_both (λ (r : R × OutputFifo R A S). Shortened r.1) (too_high f backlog)
          (shed-upcoming backlog (pos_part (F.to_int (backlog ⊖ num f.target))))
          (refl, refl, 0, refl)

  retarget-Same :
      (f : OutputFifo R A S) (now_sec : R) (written padding : ℤ)
      → Same f (retarget f now_sec written padding)
  unfolding retarget
  retarget-Same f now_sec written padding = move_target-Same _ _

  writable-room :
      (f : OutputFifo R A S) (padding : ℤ)
      → (writable f padding ≡ 0) ⊎ (pos (writable f padding) +ℤ padding ≤ℤ pos f.capacity)
  unfolding writable ◌-ℤ◌ ◌+ℤ◌
  writable-room f padding = within f.capacity (f.queue.count + f.silence_due) padding
    where
      within :
          (capacity have : ℕ) (padding : ℤ)
          → let room =
              if ltb_ℤ padding (pos capacity) then pos_part (pos capacity -ℤ padding) else 0 in
            let n = if ltb have room then have else room in
            (n ≡ 0) ⊎ (pos n +ℤ padding ≤ℤ pos capacity)
      within capacity have padding = ground arith

  writable-have :
      (f : OutputFifo R A S) (padding : ℤ) → writable f padding ≤ length (upcoming silence f)
  unfolding writable
  writable-have f padding =
      let quiet = replicate f.channels silence in
      let len = length-append (replicate f.silence_due quiet) (entries [] f.queue) in
      let len_due = length-replicate f.silence_due quiet in
      let len_queue = length-entries [] f.queue in
      least _ (f.queue.count + f.silence_due) (length (upcoming silence f)) (omega arith)
    where
      least : (room have most : ℕ) → have ≤ most → (if ltb have room then have else room) ≤ most
      least room have most h = ground arith

  -- `plan` writes no more than the device has room for and no more than there is to come. It may put
  -- silence before what was to come, and may throw the oldest of that away, and moves nothing else.
  pub plan-upcoming :
      (f : OutputFifo R A S) (now_sec : R) (written padding : ℤ)
      → let (n, f') = plan f now_sec written padding in
        let quiet = replicate f.channels silence in
        ((n ≡ 0) ⊎ (pos n +ℤ padding ≤ℤ pos f.capacity))
        × (n ≤ length (upcoming silence f'))
        × (added : ℕ) × (lost : ℕ) × (upcoming silence f'
            ≡ drop lost (replicate added quiet ++ upcoming silence f))
  unfolding plan Padded Shortened
  plan-upcoming f now_sec written padding =
      let r = retarget f now_sec written padding in
      let g = choose_gains r now_sec in
      let start = num (g.queue.count + g.silence_due) ⊕ device_fill g now_sec written padding in
      let c = count_underrun g padding in
      let h = refill c now_sec start in
      let t = trim h.1 h.0 in
      let d = update_drift t.1 now_sec t.0 in
      let (ch, cap, same) =
        Same-trans f g c
          (Same-trans f r g (retarget-Same f now_sec written padding) (choose_gains-Same r now_sec))
          (count_underrun-Same g padding) in
      let (ch', cap', added, before) = refill-upcoming c now_sec start in
      let (ch'', cap'', lost, gone) = trim-upcoming h.1 h.0 in
      let (chd, capd, kept) = update_drift-Same t.1 now_sec t.0 in
      (
        subst (λ (k : ℕ). (writable d padding ≡ 0) ⊎ (pos (writable d padding) +ℤ padding ≤ℤ pos k))
            (capd ∙ cap'' ∙ cap' ∙ cap) (writable-room d padding),
        writable-have d padding,
        added,
        lost,
        kept
            ∙ gone
            ∙ ap (drop lost) before
            ∙ ap₂
                (λ k (xs : List (List A)). drop lost (replicate added (replicate k silence) ++ xs))
                ch same,
      )

  -- A pop of what `plan` says ends no block with silence: it gives frames still to come, in order.
  pub plan-pop :
      (f : OutputFifo R A S) (now_sec : R) (written padding : ℤ)
      → let (n, f') = plan f now_sec written padding in
        (pop silence f' n).0 ≡ take n (upcoming silence f')
  plan-pop f now_sec written padding =
      let n = (plan f now_sec written padding).0 in
      let f' = (plan f now_sec written padding).1 in
      let (room, have, added, lost, later) = plan-upcoming f now_sec written padding in
      let quiet = replicate f'.channels silence in
      let none : n - length (upcoming silence f') ≡ 0 = omega arith in
      (pop-upcoming silence f' n).0
      ∙ take-append n (upcoming silence f') (replicate n quiet)
      ∙ ap (λ k. take n (upcoming silence f') ++ take k (replicate n quiet)) none
      ∙ append-nil (take n (upcoming silence f'))
