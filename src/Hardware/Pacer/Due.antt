-- ===== src/Hardware/Pacer/Due.antt =====
-- asio-master/HwClockPacer.h: the setpoint and the time of a tick against the device's room.
use win_hook_audio.Prelude.{
  ℕ, ◌+◌, ◌*◌, ◌/◌, ◌≤◌, ◌<◌, ◌≡◌, ◌⊎◌, inl, inr, true, false, not, ◌||◌, ltb, if◌then◌else◌, arith,
  if_both, if_cases,
}
use win_hook_audio.Prelude.Int.{ℤ, pos, pos_part, sub_ℕ, ltb_ℤ, ◌-ℤ◌, ◌+ℤ◌, ◌≤ℤ◌}
use win_hook_audio.Hardware.Floats.{Floats, ◌⊗◌, ◌≺◌, ◌≼◌, num}
use win_hook_audio.Hardware.Pacer.{ClockPacer, setpoint, wait_for_room, until_tick}

room_left :
    (capacity block : ℕ) (padding : ℤ)
    → ltb_ℤ (pos capacity -ℤ padding) (pos block) ≡ false
    → pos block +ℤ padding ≤ℤ pos capacity
unfolding ◌-ℤ◌ ◌+ℤ◌
room_left capacity block padding e = ground arith

-- The order of 0 and waits above 0.2 ms, which `double` has.
pub record Waits {R : Type 0} (F : Floats R) : Type 0 where
  pub least : F.le (F.literal 2 10000) (F.of_int (pos 0)) ≡ false
  pub above : (w : R) → F.lt (F.literal 2 10000) w ≡ true → F.le w (F.of_int (pos 0)) ≡ false

module _ {R : Type 0} ⦃F : Floats R⦄ where
  -- The setpoint is at least a block; where the buffer holds two blocks and the larger of a block and
  -- the step, the fill above the setpoint by that step and a block still fits it.
  pub setpoint-bounds :
      (f : ClockPacer R)
      → let step = if ltb f.block f.chunk then f.chunk else f.block in
        (f.block ≤ setpoint f)
        × ((f.capacity < 2 * f.block + step) ⊎ (setpoint f + step + f.block ≤ f.capacity))
  unfolding setpoint
  setpoint-bounds f = fits f.capacity f.block (if ltb f.block f.chunk then f.chunk else f.block)
    where
      fits :
          (capacity block step : ℕ)
          → let s = sub_ℕ capacity (block + step) in
            let n = if ltb_ℤ (pos block) s then pos_part s else block in
            (block ≤ n) × ((capacity < 2 * block + step) ⊎ (n + step + block ≤ capacity))
      fits capacity block step = ground arith

  Waits-for_room : Waits F → (f : ClockPacer R) (room : ℤ) → wait_for_room f room ≼ num 0 ≡ false
  unfolding wait_for_room
  Waits-for_room h f room =
      if_cases (λ (w : R). w ≼ num 0 ≡ false)
        (F.literal 2 10000 ≺ F.of_int (pos f.block -ℤ room) ⊗ f.frame_period) (h.above _)
        (λ _. h.least)

  -- A tick is due now only where the device has room for a block: the block written then, with what
  -- the device holds, is at most its buffer.
  pub until_tick_room :
      (f : ClockPacer R) (now_sec : R)
      → Waits F
      → ((until_tick f now_sec).0 ≼ num 0 ≡ false) ⊎ (pos f.block +ℤ f.padding ≤ℤ pos f.capacity)
  unfolding until_tick
  until_tick_room f now_sec h =
      let room = pos f.capacity -ℤ f.padding in
      let below =
        ltb_ℤ f.padding (pos (f.block / 2)) || ltb_ℤ f.padding (sub_ℕ (setpoint f) f.block) in
      let P = λ (r : R × ClockPacer R).
        (r.0 ≼ num 0 ≡ false) ⊎ (pos f.block +ℤ f.padding ≤ℤ pos f.capacity) in
      if_cases P (ltb_ℤ room (pos f.block)) (λ _. inl (Waits-for_room h f room))
        (λ (e : ltb_ℤ room (pos f.block) ≡ false).
          let fits = room_left f.capacity f.block f.padding e in
          if_both P (not f.warm) (inr fits) (if_both P below (inr fits) (inr fits)))
