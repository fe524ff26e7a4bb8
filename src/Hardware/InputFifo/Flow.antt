-- ===== src/Hardware/InputFifo/Flow.antt =====
-- asio-master/HwInputFifo.h: where the frames of the queue go in a read and a push.
use win_hook_audio.Prelude.{
  ℕ, ◌+◌, ◌≤◌, ◌<◌, ◌≡◌, refl, ap, ap₂, ◌||◌, not, ◌&&◌, leb, sym, subst, ◌∙◌, inl, inr, Bool, true,
  false, List, [], ◌++◌, ltb, ◌==◌, if◌then◌else◌, drop, get_or, length, arith, Bool-cases, if_both,
  tabulate-cong,
}
use win_hook_audio.Hardware.Floats.{Floats}
use win_hook_audio.Hardware.Queue.{frame_at}
use win_hook_audio.Hardware.Queue.Refine.{
  frame_at-entries, entries-lose, entries-put_all, newest, length-entries,
}
use win_hook_audio.Hardware.InputFifo.Inv.{IsValid, track-IsValid}
use win_hook_audio.Hardware.InputFifo.Ready.{
  queued, speaks, thrown, Ready, resync-Ready, start-Ready, quiet_state,
}
use win_hook_audio.Hardware.InputFifo.{
  InputFifo, planar, silent, track, push, starts, excess, start, resync, starve, serve, consume,
  backlog, read,
}

module _ {A : Type 0} where
  planar-cong :
      (silence : A) (channels device_channels need : ℕ) (f g : ℕ → List A)
      → ((i : ℕ) → i < need → f i ≡ g i)
      → planar silence channels device_channels need f
        ≡ planar silence channels device_channels need g
  unfolding planar
  planar-cong silence channels device_channels need f g h = tabulate-cong channels _ _ λ c lt.
      tabulate-cong need _ _ λ i below.
        ap (λ (x : List A). if ltb c device_channels then get_or x c silence else silence)
          (h i below)

short_of :
    (b started : Bool) (need count : ℕ)
    → started || (b && leb need count) ≡ false
    → b ≡ true
    → ltb count need ≡ true
short_of b started need count s e = ground arith

module _ {R A S : Type 0} ⦃F : Floats R⦄ where
  -- The outcome of a read: silence with the queue as it was, or a block of the oldest frames after
  -- those thrown away.
  pub data Outcome (silence : A) (need channels : ℕ) (now_sec : R) (f : InputFifo R A S)
      (r : Bool × List (List A) × InputFifo R A S) : Type 0 where
    silence_read :
        speaks f need now_sec ≡ false
        → r.0 ≡ false
        → r.1 ≡ silent silence channels need
        → queued r.2 ≡ queued f
        → Outcome silence need channels now_sec f r
    audio_read :
        speaks f need now_sec ≡ true
        → thrown f need now_sec + need ≤ length (queued f)
        → r.0 ≡ true
        → r.1
          ≡ planar silence channels f.channels need
              (λ i. get_or (drop (thrown f need now_sec) (queued f)) i [])
        → queued r.2 ≡ drop need (drop (thrown f need now_sec) (queued f))
        → Outcome silence need channels now_sec f r

  starve-queued : (f : InputFifo R A S) → queued (starve f) ≡ queued f
  unfolding starve
  starve-queued f =
      if_both (λ (g : InputFifo R A S). queued g ≡ queued f) (ltb f.prime f.max_prime) refl refl

  -- The three ways through the part of a read after the measurement.
  abbrev serve_when :
      Bool → Bool → A → InputFifo R A S → ℕ → ℕ → R → Bool × List (List A) × InputFifo R A S
  serve_when primed short silence g need channels measured =
      if not primed
      then (false, silent silence channels need, g)
      else if short
      then (false, silent silence channels need, starve g)
      else (
        true,
        planar silence channels g.channels need (frame_at [] g.queue),
        consume g need measured,
      )

  serve_cases :
      (silence : A) (g : InputFifo R A S) (need channels : ℕ) (measured : R) {primed short : Bool}
      → g.primed ≡ primed
      → ltb g.queue.count need ≡ short
      → serve_when primed short silence g need channels measured
        ≡ serve silence g need channels measured
  unfolding serve
  serve_cases silence g need channels measured e h =
      sym (ap₂ (λ b c. serve_when b c silence g need channels measured) e h)

  serve-Outcome :
      (silence : A) (f g : InputFifo R A S) (need channels : ℕ) (now_sec measured : R)
      → speaks f need now_sec ≡ true
      → Ready f need (thrown f need now_sec) g
      → Outcome silence need channels now_sec f (serve silence g need channels measured)
  unfolding consume
  serve-Outcome silence f g need channels now_sec measured s v =
      let enough : need ≤ g.queue.count = v.enough in
      let full : ltb g.queue.count need ≡ false = ground arith in
      subst (Outcome silence need channels now_sec f)
        (serve_cases silence g need channels measured v.primed full)
        (audio_read s (omega (arith, length-entries [] f.queue, v.count)) refl
          (planar-cong silence channels g.channels need (frame_at [] g.queue)
              (λ i. get_or (queued g) i []) (λ i below. frame_at-entries [] g.queue i (omega arith))
            ∙ ap₂
                (λ (c : ℕ) (q : List (List A)). planar silence channels c need (λ i. get_or q i []))
                v.same v.rest)
          (entries-lose [] g.queue need ∙ ap (drop need) v.rest))

  quiet-Outcome :
      (silence : A) (f g : InputFifo R A S) (need channels : ℕ) (now_sec measured : R)
      → speaks f need now_sec ≡ false
      → g ≡ record f { fill = g.fill }
      → Outcome silence need channels now_sec f (serve silence g need channels measured)
  quiet-Outcome silence f g need channels now_sec measured s same =
      let outcome = Outcome silence need channels now_sec f in
      let held = ap queued same in
      elim (Bool-cases g.primed) [
        | inr e ↦
            subst outcome (serve_cases silence g need channels measured e refl)
              (silence_read s refl refl held)
        | inl e ↦
            let primed = sym (ap (λ (h : InputFifo R A S). h.primed) same) ∙ e in
            let counts = ap (λ (h : InputFifo R A S). ltb h.queue.count need) same in
            let short = short_of f.primed (starts f need now_sec) need f.queue.count s primed in
            subst outcome (serve_cases silence g need channels measured e (counts ∙ short))
              (silence_read s refl refl (starve-queued g ∙ held))
      ]

  -- A read starts, or has started and finds the block in the queue: then it throws away what the start
  -- and the trim do, gives the oldest frames left, channel by channel, and takes exactly those. Else
  -- it gives silence and leaves the queue as it was.
  pub read-Outcome :
      (silence : A) (f : InputFifo R A S) (need channels : ℕ) (now_sec : R)
      → Outcome silence need channels now_sec f (read silence f need channels now_sec)
  unfolding read
  read-Outcome silence f need channels now_sec =
      let g = resync (start f need now_sec) need in
      let measured = backlog g now_sec in
      let filled = record g { fill = F.to_int measured } in
      elim (Bool-cases (speaks f need now_sec)) [
        | inl s ↦
            let k = if starts f need now_sec then excess f need now_sec else 0 in
            let v = resync-Ready f need k (start f need now_sec) (start-Ready f need now_sec s) in
            serve-Outcome silence f filled need channels now_sec measured s (record {
              primed = v.primed;
              enough = v.enough;
              count = v.count;
              rest = v.rest;
              same = v.same;
              sizes = v.sizes;
            })
        | inr s ↦ quiet-Outcome silence f filled need channels now_sec measured s (
            ap (λ (h : InputFifo R A S). record h { fill = F.to_int measured })
              (quiet_state f need now_sec s))
      ]

  -- A push queues what the resampler puts out behind the frames there, and keeps the newest frames that
  -- fit.
  pub push-queued :
      {least : ℕ} (resample : S → List (List A) → R → List (List A) × S) (f : InputFifo R A S)
      (input : List (List A)) (frames : ℕ) (packet_sec : R)
      → IsValid least f
      → queued (push resample f input frames packet_sec)
        ≡ newest f.queue.cap (queued f ++ (resample f.resampler input f.drift.ratio).0)
  unfolding push track
  push-queued resample f input frames packet_sec v =
      let t = track f frames packet_sec in
      let expected = λ (g : InputFifo R A S).
        newest g.queue.cap (queued g ++ (resample g.resampler input g.drift.ratio).0) in
      entries-put_all [] (resample t.resampler input t.drift.ratio).0 t.queue
        (track-IsValid f v frames packet_sec).queue
      ∙ if_both (λ (g : InputFifo R A S). expected g ≡ expected f) (frames == 0) refl
          (if_both (λ (g : InputFifo R A S). expected g ≡ expected f) f.have_time refl refl)
