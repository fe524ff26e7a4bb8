-- ===== src/Hardware/InputFifo/Inv.antt =====
-- asio-master/HwInputFifo.h: the sizes and bounds of the state, call by call.
use win_hook_audio.Prelude.{
  ℕ, ◌+◌, ◌-◌, ◌*◌, ◌≤◌, ◌<◌, ◌≡◌, refl, ◌∙◌, inl, inr, Bool, not, List, [], ltb, ◌==◌,
  if◌then◌else◌, replicate, length-replicate, arith, Bool-cases, if_both,
}
use win_hook_audio.Prelude.Int.{ℤ, pos, pos_part, ltb_ℤ}
use win_hook_audio.Hardware.Floats.{Floats, ◌⊘◌, num}
use win_hook_audio.Hardware.Queue.{lose}
use win_hook_audio.Hardware.Queue.Refine
use win_hook_audio.Hardware.Queue.Refine.{lose-IsValid, put_all-IsValid, cap-put_all}
use win_hook_audio.Hardware.InputFifo.{
  InputFifo, largest_prime, reset, track, push, starts, excess, start, far_above, resync, starve,
  consume, serve, backlog, read, skip,
}

largest_prime-le :
    {R : Type 0} ⦃F : Floats R⦄ (rate : R) (prime period : ℕ)
    → prime + 16 * period ≤ largest_prime rate prime period
unfolding largest_prime
largest_prime-le ⦃F⦄ rate prime period = larger (F.to_int (rate ⊘ num 10)) (prime + 16 * period)
  where
    larger : (z : ℤ) (m : ℕ) → m ≤ (if ltb_ℤ z (pos m) then m else pos_part z)
    larger z m = ground arith

module _ {R A S : Type 0} ⦃F : Floats R⦄ where
  -- `least` is the smallest target that the priming may have.
  pub record IsValid (least : ℕ) (f : InputFifo R A S) : Type 0 where
    pub queue : Refine.IsValid f.queue
    pub capacity : f.queue.cap ≡ f.max_prime + f.period + 16 * f.block
    pub prime_in : f.prime ≤ f.max_prime
    pub prime_from : least ≤ f.prime

  pub reset-IsValid :
      (silence : A) (fresh : S) (f : InputFifo R A S) (rate : R) (channels block period : ℕ)
      → 0 < block
      → IsValid (2 * block + period) (reset silence fresh f rate channels block period)
  unfolding reset
  reset-IsValid silence fresh f rate channels block period positive =
      let prime = 2 * block + period in
      let most = largest_prime rate prime period in
      let le = largest_prime-le rate prime period in
      record {
        queue = record {
          room = omega arith;
          storage = length-replicate (most + period + 16 * block) (replicate channels silence);
          count_in = omega arith;
        };
        capacity = refl;
        prime_in = omega arith;
        prime_from = omega arith;
      }

  -- A state with the sizes of a valid one and a valid queue of its capacity.
  same_sizes :
      {least : ℕ} (f g : InputFifo R A S)
      → IsValid least f
      → Refine.IsValid g.queue
      → g.queue.cap ≡ f.queue.cap
      → g.max_prime ≡ f.max_prime
      → g.period ≡ f.period
      → g.block ≡ f.block
      → g.prime ≡ f.prime
      → IsValid least g
  same_sizes f g v q cap max_prime period block prime = record {
    queue = q;
    capacity = omega (arith, v.capacity);
    prime_in = omega (arith, v.prime_in);
    prime_from = omega (arith, v.prime_from);
  }

  shortened :
      {least : ℕ} (f : InputFifo R A S) (n : ℕ)
      → IsValid least f
      → IsValid least (record f { queue = lose f.queue n })
  unfolding lose
  shortened f n v =
      same_sizes f (record f { queue = lose f.queue n }) v (lose-IsValid f.queue n v.queue) refl
        refl refl refl refl

  module _ {least : ℕ} (f : InputFifo R A S) (v : IsValid least f) where
    pub track-IsValid : (frames : ℕ) (packet_sec : R) → IsValid least (track f frames packet_sec)
    unfolding track
    track-IsValid frames packet_sec = if_both (IsValid least) (frames == 0) v (
        if_both (IsValid least) f.have_time
          (record {
            queue = v.queue;
            capacity = v.capacity;
            prime_in = v.prime_in;
            prime_from = v.prime_from;
          })
          (record {
            queue = v.queue;
            capacity = v.capacity;
            prime_in = v.prime_in;
            prime_from = v.prime_from;
          }))

    start-IsValid : (need : ℕ) (now_sec : R) → IsValid least (start f need now_sec)
    unfolding start
    start-IsValid need now_sec =
        let s = shortened f (excess f need now_sec) v in
        if_both (IsValid least) (starts f need now_sec)
          (record {
            queue = s.queue;
            capacity = s.capacity;
            prime_in = s.prime_in;
            prime_from = s.prime_from;
          })
          v

    resync-IsValid : (need : ℕ) → IsValid least (resync f need)
    unfolding resync
    resync-IsValid need =
        let s = shortened f (f.queue.count - (f.prime + need)) v in
        if_both (IsValid least) (far_above f need)
          (record {
            queue = s.queue;
            capacity = s.capacity;
            prime_in = s.prime_in;
            prime_from = s.prime_from;
          })
          v

    starve-IsValid : IsValid least (starve f)
    unfolding starve
    starve-IsValid = elim (Bool-cases (ltb f.prime f.max_prime)) [
      | inl e ↦ rw e (record {
        queue = v.queue;
        capacity = v.capacity;
        prime_in = ground (arith, v.prime_in);
        prime_from = ground (arith, v.prime_in, v.prime_from, e);
      })
      | inr e ↦ rw e (record {
        queue = v.queue;
        capacity = v.capacity;
        prime_in = v.prime_in;
        prime_from = v.prime_from;
      })
    ]

    consume-IsValid : (need : ℕ) (measured : R) → IsValid least (consume f need measured)
    unfolding consume
    consume-IsValid need measured =
        let s = shortened f need v in
        record {
          queue = s.queue;
          capacity = s.capacity;
          prime_in = s.prime_in;
          prime_from = s.prime_from;
        }

  pub push-IsValid :
      {least : ℕ} (resample : S → List (List A) → R → List (List A) × S) (f : InputFifo R A S)
      (input : List (List A)) (frames : ℕ) (packet_sec : R)
      → IsValid least f
      → IsValid least (push resample f input frames packet_sec)
  unfolding push
  push-IsValid resample f input frames packet_sec v =
      let t = track f frames packet_sec in
      let (out, s) = resample t.resampler input t.drift.ratio in
      let w = track-IsValid f v frames packet_sec in
      record {
        queue = put_all-IsValid t.queue out w.queue;
        capacity = cap-put_all [] out t.queue ∙ w.capacity;
        prime_in = w.prime_in;
        prime_from = w.prime_from;
      }

  serve-IsValid :
      {least : ℕ} (silence : A) (f : InputFifo R A S) (need channels : ℕ) (measured : R)
      → IsValid least f
      → IsValid least (serve silence f need channels measured).2
  unfolding serve
  serve-IsValid {least} silence f need channels measured v =
      if_both (λ (r : Bool × List (List A) × InputFifo R A S). IsValid least r.2) (not f.primed) v
        (if_both (λ (r : Bool × List (List A) × InputFifo R A S). IsValid least r.2)
          (ltb f.queue.count need) (starve-IsValid f v) (consume-IsValid f v need measured))

  pub read-IsValid :
      {least : ℕ} (silence : A) (f : InputFifo R A S) (need channels : ℕ) (now_sec : R)
      → IsValid least f
      → IsValid least (read silence f need channels now_sec).2
  unfolding read
  read-IsValid silence f need channels now_sec v =
      let g = resync (start f need now_sec) need in
      let w = resync-IsValid (start f need now_sec) (start-IsValid f v need now_sec) need in
      let measured = backlog g now_sec in
      serve-IsValid silence (record g { fill = F.to_int measured }) need channels measured
        (record {
          queue = w.queue;
          capacity = w.capacity;
          prime_in = w.prime_in;
          prime_from = w.prime_from;
        })

  pub skip-IsValid :
      {least : ℕ} (f : InputFifo R A S) (frames : ℕ)
      → IsValid least f
      → IsValid least (skip f frames)
  unfolding skip
  skip-IsValid {least} f frames v =
      let s = shortened f (if ltb frames f.queue.count then frames else f.queue.count) v in
      if_both (IsValid least) (not f.primed) v (record {
        queue = s.queue;
        capacity = s.capacity;
        prime_in = s.prime_in;
        prime_from = s.prime_from;
      })
