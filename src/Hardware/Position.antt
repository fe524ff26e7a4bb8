-- ===== src/Hardware/Position.antt =====
-- asio-master/HwOutputFifo.h: HwPositionTracker, a smooth consumed position for a device that may
-- report its position in steps.
use win_hook_audio.Prelude.{
  ℕ, ◌+◌, ◌-◌, ◌*◌, ◌/◌, Bool, true, false, not, ◌&&◌, ◌||◌, ltb, if◌then◌else◌,
}
use win_hook_audio.Prelude.Int.{ℤ, pos, pos_part, ◌-ℤ◌, ltb_ℤ}
use win_hook_audio.Hardware.Floats.{Floats, ◌⊕◌, ◌⊖◌, ◌⊗◌, ◌⊘◌, ◌≺◌, ◌≼◌, num}

module _ (R : Type 0) where
  pub record PositionTracker : Type 0 where
    pub nominal : R
    pub rate : R
    pub block : ℕ
    pub have : Bool
    pub anchored : Bool
    pub warm : Bool
    pub last_consumed : ℤ
    pub last_sec : R
    pub sec : R
    pub place : R
    pub warm_until : R
    pub window_start : R
    pub window_max : ℕ
    pub previous_max : ℕ
    pub chunk : ℕ

-- A step learned, rounded up to a block; below half a block it is noise.
unfoldable pub round_chunk : ℕ → ℕ → ℕ
round_chunk block c = if ltb c (block / 2) then 0 else (c + block - 1) / block * block

module _ {R : Type 0} ⦃F : Floats R⦄ where
  unfoldable pub reset : R → ℕ → PositionTracker R
  reset rate block = record {
    nominal = rate;
    rate = rate;
    block = block;
    have = false;
    anchored = false;
    warm = false;
    last_consumed = pos 0;
    last_sec = num 0;
    sec = num 0;
    place = num 0;
    warm_until = num 0;
    window_start = num 0;
    window_max = 0;
    previous_max = 0;
    chunk = 0;
  }

  -- The largest excess over the last one to two seconds.
  unfoldable pub learn_chunk : PositionTracker R → R → ℕ → PositionTracker R
  unfolding round_chunk
  learn_chunk t now_sec excess =
      let turned = num 1 ≼ (now_sec ⊖ t.window_start) in
      let kept = if turned then 0 else t.window_max in
      let previous = if turned then t.window_max else t.previous_max in
      let most = if ltb kept excess then excess else kept in
      let c = if ltb previous most then most else previous in
      record t {
        previous_max = previous;
        window_max = most;
        window_start = if turned then now_sec else t.window_start;
        chunk = round_chunk t.block c;
      }

  -- The start of the timeline at a report, again after the warm-up.
  unfoldable pub anchor : PositionTracker R → R → ℤ → PositionTracker R
  anchor t now_sec consumed = record t {
    warm_until = if t.anchored then t.warm_until else now_sec ⊕ num 1;
    warm = t.anchored || t.warm;
    anchored = true;
    sec = now_sec;
    place = F.of_int consumed;
    rate = t.nominal;
  }

  -- The second-order loop, which corrects by how far the timeline lies outside the report's step.
  unfoldable pub follow : PositionTracker R → R → ℤ → R → PositionTracker R
  follow t now_sec consumed elapsed =
      let predicted = t.place ⊕ (now_sec ⊖ t.sec) ⊗ t.rate in
      let g = if ltb 0 t.chunk then num (t.chunk + t.block) else num 0 in
      let lo = F.of_int consumed in
      let hi = lo ⊕ g in
      let e =
        if predicted ≺ lo
        then lo ⊖ predicted
        else if hi ≺ predicted
        then hi ⊖ predicted
        else num 0 in
      let w = num 2 ⊗ F.literal 314159265358979323846 100000000000000000000 ⊗ num 1 ⊗ elapsed in
      let rate = t.rate ⊕ w ⊗ w ⊗ e ⊘ elapsed in
      let wild = (rate ≺ t.nominal ⊗ F.literal 95 100) || (t.nominal ⊗ F.literal 105 100 ≺ rate) in
      record t {
        sec = now_sec;
        place = predicted ⊕ F.literal 141421356237 100000000000 ⊗ w ⊗ e;
        rate = if wild then t.nominal else rate;
      }

  unfoldable pub observe : PositionTracker R → R → ℤ → PositionTracker R
  unfolding learn_chunk anchor follow ◌-ℤ◌
  observe t now_sec consumed =
      let first = record t {
        have = true;
        last_consumed = consumed;
        last_sec = now_sec;
        window_start = now_sec;
      } in
      let elapsed = now_sec ⊖ t.last_sec in
      let step = consumed -ℤ t.last_consumed in
      let moved = ltb_ℤ (pos 0) step in
      let seen = record t { last_sec = now_sec; last_consumed = consumed } in
      let excess = F.of_int step ⊖ elapsed ⊗ t.rate in
      let learned =
        if moved && t.anchored
        then learn_chunk seen now_sec (if num 0 ≺ excess then pos_part (F.to_int excess) else 0)
        else seen in
      if not t.have
      then first
      else if not t.anchored || (not t.warm && (t.warm_until ≼ now_sec))
      then (if moved then anchor learned now_sec consumed else learned)
      else if elapsed ≼ num 0
      then learned
      else follow learned now_sec consumed elapsed

  unfoldable pub consumed_at : PositionTracker R → R → R
  consumed_at t now_sec = t.place ⊕ (now_sec ⊖ t.sec) ⊗ t.rate
