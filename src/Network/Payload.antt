-- ===== src/Network/Payload.antt =====
-- common/network/WHANetwork.cpp (BuildPcmPayload, ParsePcmPayload): the samples of a packet as bytes.
-- `A` is `float`; its four bytes in memory are arguments, and the sizes keep their 32-bit wrap.
use win_hook_audio.Prelude.{
  ℕ, zero, suc, ◌+◌, ◌-◌, ◌*◌, ◌/◌, ◌%◌, ◌<◌, ◌≡◌, refl, ap, ◌∙◌, Option, none, some, List, [], ◌∷◌,
  ◌++◌, ltb, ◌==◌, if◌then◌else◌, get_or, take, drop, length, length-append, tabulate, arith,
}
use win_hook_audio.Prelude.Int.{ℤ, pos, negsuc}
use win_hook_audio.Prelude.Words.{u32}
use win_hook_audio.Table.Data.{wha_pcm_f32, wha_pcm_i16}
use win_hook_audio.Hardware.Floats.{Floats, ◌⊗◌, ◌⊘◌, ◌≺◌, num}

-- An `int16_t` in memory, and back: two bytes, the lower first, in two's complement.
unfoldable pub i16_bytes : ℤ → List ℕ
i16_bytes (pos n) = (n % 256) ∷ (n / 256 % 256) ∷ []
i16_bytes (negsuc n) = (255 - n % 256) ∷ (255 - n / 256 % 256) ∷ []

unfoldable pub i16_of_bytes : ℕ → ℕ → ℤ
i16_of_bytes low high =
    let w = low + 256 * high in if ltb w 32768 then pos w else negsuc (65535 - w)

-- The bytes of `n` samples, one after the other.
unfoldable pub joined_bytes : ℕ → (ℕ → List ℕ) → List ℕ
joined_bytes zero bytes = []
joined_bytes (suc n) bytes = bytes 0 ++ joined_bytes n (λ i. bytes (suc i))

module _ {A : Type 0} ⦃F : Floats A⦄ where
  -- A sample cut to full scale, as a 16-bit integer.
  unfoldable pub clip_i16 : A → ℤ
  clip_i16 x =
      let high = if num 1 ≺ x then num 1 else x in
      let v = if high ≺ F.neg (num 1) then F.neg (num 1) else high in F.to_int (v ⊗ num 32767)

  -- `BuildPcmPayload(data, channels, frames, codec)`
  unfoldable pub build_pcm_payload : (A → List ℕ) → List A → ℕ → ℕ → ℕ → List ℕ
  unfolding i16_bytes joined_bytes clip_i16
  build_pcm_payload float_bytes samples channels frames codec =
      let sample = λ (i : ℕ). get_or samples i (num 0) in
      if codec == wha_pcm_f32
      then joined_bytes (u32 (channels * frames * 4) / 4) (λ i. float_bytes (sample i))
      else if codec == wha_pcm_i16
      then joined_bytes (u32 (channels * frames)) (λ i. i16_bytes (clip_i16 (sample i)))
      else []

  -- `ParsePcmPayload(payload, payloadBytes, out, channels, frames, codec)`; `none` is false.
  unfoldable pub parse_pcm_payload : (List ℕ → A) → List ℕ → ℕ → ℕ → ℕ → Option (List A)
  unfolding i16_of_bytes
  parse_pcm_payload float_of_bytes payload channels frames codec =
      let n = u32 (channels * frames) in
      if codec == wha_pcm_f32
      then (if length payload == u32 (channels * frames * 4)
          then some
              (tabulate (length payload / 4) λ i. float_of_bytes (take 4 (drop (4 * i) payload)))
          else none)
      else if codec == wha_pcm_i16
      then (if length payload == u32 (channels * frames * 2)
          then some (
              tabulate n λ i.
                F.of_int (i16_of_bytes (get_or payload (2 * i) 0) (get_or payload (2 * i + 1) 0))
                ⊘ num 32767)
          else none)
      else none

length-joined_bytes :
    (n k : ℕ) (bytes : ℕ → List ℕ)
    → ((i : ℕ) → length (bytes i) ≡ k)
    → length (joined_bytes n bytes) ≡ n * k
unfolding joined_bytes
length-joined_bytes zero k bytes h = omega arith
length-joined_bytes (suc n) k bytes h =
    let rest = length-joined_bytes n k (λ i. bytes (suc i)) (λ i. h (suc i)) in
    omega (arith, length-append (bytes 0) (joined_bytes n (λ i. bytes (suc i))), h 0, rest)

length-i16_bytes : (z : ℤ) → length (i16_bytes z) ≡ 2
unfolding i16_bytes
length-i16_bytes (pos n) = refl
length-i16_bytes (negsuc n) = refl

-- A 16-bit payload has two bytes a sample, the size that ValidateWhaaHeader asks for, where the number
-- of samples fits 32 bits.
pub length-build_pcm_payload :
    {A : Type 0} ⦃F : Floats A⦄ (float_bytes : A → List ℕ) (samples : List A) (channels frames : ℕ)
    → channels * frames < 4294967296
    → length (build_pcm_payload float_bytes samples channels frames 1) ≡ channels * frames * 2
unfolding build_pcm_payload
length-build_pcm_payload float_bytes samples channels frames small =
    let whole : u32 (channels * frames) ≡ channels * frames = omega arith in
    length-joined_bytes (u32 (channels * frames)) 2
      (λ i. i16_bytes (clip_i16 (get_or samples i (num 0))))
      (λ i. length-i16_bytes (clip_i16 (get_or samples i (num 0))))
    ∙ ap (λ n. n * 2) whole
