-- ===== src/Hardware/Tests/Pacer.antt =====
-- asio-master/HwClockPacer.h on concrete looks: a device of 512 frames that plays in steps.
use win_hook_audio.Prelude.{◌≡◌, ◌⊎◌, refl, false, List, [], ◌∷◌, arith}
use win_hook_audio.Prelude.Int.{ℤ, pos, ◌+ℤ◌, ◌≤ℤ◌}
use win_hook_audio.Hardware.Floats.{◌≼◌, num}
use win_hook_audio.Hardware.Pacer.{ClockPacer, reset, until_tick}
use win_hook_audio.Hardware.Pacer.Bounds.{Look, InBounds, watch, watch-reset-InBounds}
use win_hook_audio.Hardware.Pacer.Due.{Waits, until_tick_room}
use win_hook_audio.Hardware.Tests.{whole}

abbrev looks : List (Look ℤ)
looks =
    (pos 0, pos 512, pos 512)
    ∷ (pos 1, pos 512, pos 256)
    ∷ (pos 3, pos 768, pos 256)
    ∷ (pos 5, pos 1024, pos 128)
    ∷ []

paced : ClockPacer ℤ
paced = watch (reset (pos 1) 64 512 (pos 96)) looks

watch-reset-InBounds_example : InBounds (watch (reset (pos 1) 64 512 (pos 96)) looks)
watch-reset-InBounds_example = watch-reset-InBounds (pos 1) 64 512 (pos 96) looks (omega arith)

-- Literals round up to whole numbers, 0.2 ms to 1.
whole-Waits : Waits whole
whole-Waits = record { least = refl; above = λ w h. ground arith }

until_tick_room_example :
    ((until_tick paced (pos 6)).0 ≼ num 0 ≡ false)
    ⊎ (pos paced.block +ℤ paced.padding ≤ℤ pos paced.capacity)
until_tick_room_example = until_tick_room paced (pos 6) whole-Waits

mixer_chunk : (reset (pos 1) 64 512 (pos 96)).chunk ≡ 192
unfolding reset
mixer_chunk = refl
