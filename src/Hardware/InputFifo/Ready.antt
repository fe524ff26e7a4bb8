-- ===== src/Hardware/InputFifo/Ready.antt =====
-- asio-master/HwInputFifo.h: what the start and the trim of a read do to the queue.
use win_hook_audio.Prelude.{
  ℕ, ◌+◌, ◌-◌, ◌*◌, ◌≤◌, ◌≡◌, refl, ap, ◌||◌, ◌&&◌, leb, ◌∙◌, inl, inr, Bool, true, false, List, [],
  ltb, if◌then◌else◌, drop, arith, Bool-cases, drop-drop,
}
use win_hook_audio.Prelude.Words.{u64}
use win_hook_audio.Hardware.Floats.{Floats}
use win_hook_audio.Hardware.Queue.{lose}
use win_hook_audio.Hardware.Queue.Refine.{entries, entries-lose}
use win_hook_audio.Hardware.InputFifo.{InputFifo, starts, excess, start, far_above, resync}

module _ {R A S : Type 0} ⦃F : Floats R⦄ where
  abbrev pub queued : InputFifo R A S → List (List A)
  queued f = entries [] f.queue

  -- Whether a read gives audio: it starts, or it has started and the queue holds the block.
  abbrev pub speaks : InputFifo R A S → ℕ → R → Bool
  speaks f need now_sec = starts f need now_sec || (f.primed && leb need f.queue.count)

  -- The frames that a trim throws away when `left` are queued, and those that a read does, where the
  -- start comes first.
  abbrev trimmed : InputFifo R A S → ℕ → ℕ → ℕ
  trimmed f need left =
      if ltb (f.prime + f.period + 8 * need) left then left - (f.prime + need) else 0

  abbrev pub thrown : InputFifo R A S → ℕ → R → ℕ
  thrown f need now_sec =
      let k = if starts f need now_sec then excess f need now_sec else 0 in
      k + trimmed f need (f.queue.count - k)

  -- A state that gives audio, `k` frames after `f`.
  pub record Ready (f : InputFifo R A S) (need k : ℕ) (g : InputFifo R A S) : Type 0 where
    pub primed : g.primed ≡ true
    pub enough : need ≤ g.queue.count
    pub count : k + g.queue.count ≡ f.queue.count
    pub rest : queued g ≡ drop k (queued f)
    pub same : g.channels ≡ f.channels
    pub sizes : (g.prime ≡ f.prime) × (g.period ≡ f.period)

  excess_le :
      (f : InputFifo R A S) (need : ℕ) (now_sec : R) → excess f need now_sec ≤ f.queue.count - need
  unfolding excess
  excess_le f need now_sec = ground arith

  starts_enough :
      (f : InputFifo R A S) (need : ℕ) (now_sec : R)
      → starts f need now_sec ≡ true
      → need ≤ f.queue.count
  unfolding starts
  starts_enough f need now_sec e = ground arith

  far_above-Ready :
      (f : InputFifo R A S) (need k : ℕ) (g : InputFifo R A S)
      → Ready f need k g
      → far_above g need ≡ ltb (f.prime + f.period + 8 * need) (f.queue.count - k)
  unfolding far_above
  far_above-Ready f need k g v =
      let left : g.queue.count ≡ f.queue.count - k = omega (arith, v.count) in
      let sizes = v.sizes in rw (v.primed, left, sizes.0, sizes.1) refl

  pub resync-Ready :
      (f : InputFifo R A S) (need k : ℕ) (g : InputFifo R A S)
      → Ready f need k g
      → Ready f need (k + trimmed f need (f.queue.count - k)) (resync g need)
  unfolding resync far_above lose
  resync-Ready f need k g v =
      let over = g.queue.count - (g.prime + need) in
      let sizes = v.sizes in
      elim (Bool-cases (ltb (f.prime + f.period + 8 * need) (f.queue.count - k))) [
        | inl e ↦
            let far : far_above g need ≡ true = far_above-Ready f need k g v ∙ e in
            let same_over : over ≡ f.queue.count - k - (f.prime + need) =
              omega (arith, v.count, sizes.0) in
            rw (far, e)
              (record {
                primed = v.primed;
                enough = ground arith;
                count = omega (arith, v.count, sizes.0);
                rest =
                    entries-lose [] g.queue over
                    ∙ ap (drop over) v.rest
                    ∙ drop-drop over k (queued f)
                    ∙ ap (λ n. drop (k + n) (queued f)) same_over;
                same = v.same;
                sizes = sizes;
              })
        | inr e ↦
            let near : far_above g need ≡ false = far_above-Ready f need k g v ∙ e in
            let none_more : k + 0 ≡ k = omega arith in rw (near, e, none_more) v
      ]

  -- Neither start nor trim where no audio is given.
  pub quiet_state :
      (f : InputFifo R A S) (need : ℕ) (now_sec : R)
      → speaks f need now_sec ≡ false
      → resync (start f need now_sec) need ≡ f
  unfolding resync start far_above
  quiet_state f need now_sec s =
      let still : starts f need now_sec ≡ false = ground arith in
      let near : f.primed && ltb (f.prime + f.period + 8 * need) f.queue.count ≡ false =
        ground arith in
      ap
        (λ b.
          resync
            (if b
              then record f { queue = lose f.queue (excess f need now_sec); primed = true }
              else f)
            need)
        still
      ∙ ap
          (λ b.
            if b
            then record f {
              queue = lose f.queue (f.queue.count - (f.prime + need));
              trims = u64 (f.trims + 1);
            }
            else f)
          near

  -- A start, or a state that has started, is ready.
  pub start-Ready :
      (f : InputFifo R A S) (need : ℕ) (now_sec : R)
      → speaks f need now_sec ≡ true
      → Ready f need
          (if starts f need now_sec then excess f need now_sec else 0)
          (start f need now_sec)
  unfolding start lose
  start-Ready f need now_sec s = elim (Bool-cases (starts f need now_sec)) [
    | inl e ↦
        let k = excess f need now_sec in
        let most = excess_le f need now_sec in
        let held = starts_enough f need now_sec e in
        rw e (record {
          primed = refl;
          enough = omega arith;
          count = omega arith;
          rest = entries-lose [] f.queue k;
          same = refl;
          sizes = (refl, refl);
        })
    | inr e ↦
        let primed : f.primed ≡ true = ground arith in
        let held : need ≤ f.queue.count = ground arith in
        rw e (record {
          primed = primed;
          enough = held;
          count = omega arith;
          rest = refl;
          same = refl;
          sizes = (refl, refl);
        })
  ]
