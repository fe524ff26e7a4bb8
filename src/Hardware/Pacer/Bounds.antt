-- ===== src/Hardware/Pacer/Bounds.antt =====
-- asio-master/HwClockPacer.h: bounds of the learned step and of the measured period.
use win_hook_audio.Prelude.{
  ℕ, ◌+◌, ◌-◌, ◌*◌, ◌/◌, ◌≤◌, ◌<◌, ◌≡◌, ◌⊎◌, refl, inl, inr, true, false, not, ◌&&◌, ◌||◌, List, [],
  ◌∷◌, ltb, if◌then◌else◌, arith, if_both, if_cases, Bool-cases,
}
use win_hook_audio.Prelude.Int.{ℤ, pos_part, ltb_ℤ, ◌-ℤ◌}
use win_hook_audio.Hardware.Floats.{Floats, ◌⊖◌, ◌⊗◌, ◌⊘◌, ◌≺◌, ◌≼◌, num}
use win_hook_audio.Hardware.Position.{round_chunk}
use win_hook_audio.Hardware.Pacer.{
  ClockPacer, reset, learn_chunk, tame, track, first_look, end_warm_up, anchor, follow, report,
  observe,
}
use native.Mathlib.Nat.{div-add-mod', mod-lt}

-- Whole blocks, and short of c by less than half a block.
record Rounds (block c chunk : ℕ) : Type 0 where
  whole : (k : ℕ) × (chunk ≡ k * block)
  near : c ≤ chunk + block / 2

round_chunk-Rounds : (block c : ℕ) → 0 < block → Rounds block c (round_chunk block c)
unfolding round_chunk
round_chunk-Rounds block c positive =
    let n = c + block - 1 in
    if_cases (Rounds block c) (ltb c (block / 2))
      (λ (small : ltb c (block / 2) ≡ true). record {
        whole = (0, omega arith);
        near = ground arith;
      })
      (λ (large : ltb c (block / 2) ≡ false). record {
        whole = (n / block, refl);
        near = omega (arith, div-add-mod' n block, mod-lt n positive);
      })

-- A look at the device: the time, the frames written and the padding.
abbrev pub Look : Type 0 → Type 0
Look R = R × ℤ × ℤ

module _ {R : Type 0} ⦃F : Floats R⦄ where
  -- The nominal period, or one that the comparisons put within 5 % of it.
  abbrev pub Near : R → R → Type 0
  Near nominal period =
      (period ≡ nominal)
      ⊎ ((period ≺ nominal ⊗ F.literal 95 100 ≡ false)
          × (nominal ⊗ F.literal 105 100 ≺ period ≡ false))

  tame-Near : (nominal period : R) → Near nominal (tame nominal period)
  unfolding tame
  tame-Near nominal period = elim (Bool-cases (period ≺ nominal ⊗ F.literal 95 100)) [
    | inl e ↦ rw e (inl refl)
    | inr e ↦ elim (Bool-cases (nominal ⊗ F.literal 105 100 ≺ period)) [
      | inl g ↦ rw (e, g) (inl refl)
      | inr g ↦ rw (e, g) (inr (e, g))
    ]
  ]

  -- The learned step is whole blocks, and short of two periods of the mixer by less than half a block.
  pub record InBounds (f : ClockPacer R) : Type 0 where
    pub some_block : 0 < f.block
    pub whole : (k : ℕ) × (f.chunk ≡ k * f.block)
    pub two_periods : 2 * f.mixer_period ≤ f.chunk + f.block / 2
    pub period : Near (num 1 ⊘ f.rate) f.frame_period

  reset-InBounds :
      (rate : R) (block capacity : ℕ) (mixer_period : ℤ)
      → 0 < block
      → InBounds (reset rate block capacity mixer_period)
  unfolding reset
  reset-InBounds rate block capacity mixer_period positive =
      let r = round_chunk-Rounds block (2 * pos_part mixer_period) positive in
      record { some_block = positive; whole = r.whole; two_periods = r.near; period = inl refl }

  module _ (f : ClockPacer R) (v : InBounds f) where
    learn_chunk-InBounds : (now_sec : R) (excess : ℕ) → InBounds (learn_chunk f now_sec excess)
    unfolding learn_chunk
    learn_chunk-InBounds now_sec excess =
        let turned = num 1 ≼ (now_sec ⊖ f.window_start) in
        let kept = if turned then 0 else f.window_max in
        let previous = if turned then f.window_max else f.previous_max in
        let most = if ltb kept excess then excess else kept in
        let c = if ltb previous most then most else previous in
        let m = if ltb (2 * f.mixer_period) c then c else 2 * f.mixer_period in
        let r = round_chunk-Rounds f.block m v.some_block in
        let least : 2 * f.mixer_period ≤ m = at_least (2 * f.mixer_period) c in
        record {
          some_block = v.some_block;
          whole = r.whole;
          two_periods = omega (arith, r.near);
          period = v.period;
        }
      where
        at_least : (a c : ℕ) → a ≤ (if ltb a c then c else a)
        at_least a c = ground arith

    track-InBounds : (step : ℤ) (now_sec : R) → InBounds (track f step now_sec)
    unfolding track
    track-InBounds step now_sec = record {
      some_block = v.some_block;
      whole = v.whole;
      two_periods = v.two_periods;
      period = tame-Near (num 1 ⊘ f.rate) _;
    }

    end_warm_up-InBounds : (now_sec : R) → InBounds (end_warm_up f now_sec)
    unfolding end_warm_up
    end_warm_up-InBounds now_sec =
        if_both InBounds
          (ltb 0 f.mixer_period && f.anchored && not f.warm && (f.warm_until ≼ now_sec))
          (record {
            some_block = v.some_block;
            whole = v.whole;
            two_periods = v.two_periods;
            period = inl refl;
          })
          v

    anchor-InBounds : (now_sec : R) (consumed : ℤ) → InBounds (anchor f now_sec consumed)
    unfolding anchor
    anchor-InBounds now_sec consumed = record {
      some_block = v.some_block;
      whole = v.whole;
      two_periods = v.two_periods;
      period = inl refl;
    }

  follow-InBounds :
      (f : ClockPacer R) (now_sec elapsed : R) (step consumed : ℤ)
      → InBounds f
      → InBounds (follow f now_sec elapsed step consumed)
  unfolding follow
  follow-InBounds f now_sec elapsed step consumed v =
      let excess = F.of_int step ⊖ elapsed ⊘ f.frame_period in
      let whole = if num 0 ≺ excess then pos_part (F.to_int excess) else 0 in
      let w =
        track-InBounds (learn_chunk f now_sec whole) (learn_chunk-InBounds f v now_sec whole) step
          now_sec in
      record {
        some_block = w.some_block;
        whole = w.whole;
        two_periods = w.two_periods;
        period = w.period;
      }

  report-InBounds :
      (f : ClockPacer R) (now_sec elapsed : R) (step consumed : ℤ)
      → InBounds f
      → InBounds (report f now_sec elapsed step consumed)
  unfolding report
  report-InBounds f now_sec elapsed step consumed v =
      if_both InBounds (not f.anchored || (not f.warm && (f.warm_until ≼ now_sec)))
        (anchor-InBounds f v now_sec consumed) (follow-InBounds f now_sec elapsed step consumed v)

  observe-InBounds :
      (f : ClockPacer R) (now_sec : R) (written padding : ℤ)
      → InBounds f
      → InBounds (observe f now_sec written padding)
  unfolding observe first_look
  observe-InBounds f now_sec written padding v =
      let consumed = written -ℤ padding in
      let looked = record f { written = written; padding = padding; last_sec = now_sec } in
      let moved = record looked { last_consumed = consumed } in
      if_both InBounds (not f.have)
        (record {
          some_block = v.some_block;
          whole = v.whole;
          two_periods = v.two_periods;
          period = v.period;
        })
        (if_both InBounds (ltb_ℤ f.last_consumed consumed)
          (report-InBounds (end_warm_up moved now_sec) now_sec (now_sec ⊖ f.last_sec)
            (consumed -ℤ f.last_consumed) consumed
            (end_warm_up-InBounds moved
              (record {
                some_block = v.some_block;
                whole = v.whole;
                two_periods = v.two_periods;
                period = v.period;
              })
              now_sec))
          (record {
            some_block = v.some_block;
            whole = v.whole;
            two_periods = v.two_periods;
            period = v.period;
          }))

  unfoldable pub watch : ClockPacer R → List (Look R) → ClockPacer R
  unfolding observe
  watch f [] = f
  watch f ((now_sec, written, padding) ∷ looks) = watch (observe f now_sec written padding) looks

  watch-InBounds :
      (f : ClockPacer R) (looks : List (Look R)) → InBounds f → InBounds (watch f looks)
  unfolding watch
  watch-InBounds f [] v = v
  watch-InBounds f ((now_sec, written, padding) ∷ looks) v =
      watch-InBounds (observe f now_sec written padding) looks
        (observe-InBounds f now_sec written padding v)

  -- After a reset for blocks of at least one frame, whatever the device reports and whenever: the
  -- learned step is whole blocks and short of two periods of the mixer by less than half a block, and
  -- the measured period is the nominal one or within 5 % of it by the comparisons.
  pub watch-reset-InBounds :
      (rate : R) (block capacity : ℕ) (mixer_period : ℤ) (looks : List (Look R))
      → 0 < block
      → InBounds (watch (reset rate block capacity mixer_period) looks)
  watch-reset-InBounds rate block capacity mixer_period looks positive =
      watch-InBounds (reset rate block capacity mixer_period) looks
        (reset-InBounds rate block capacity mixer_period positive)
