-- ===== src/Network/Packet/Accept.antt =====
-- common/WHAPacket.h: which audio headers are accepted.
use win_hook_audio.Prelude.Checks.{require-passed, require-pass}
use win_hook_audio.Prelude.{
  ℕ, ◌*◌, ◌≤◌, ◌<◌, ◌≡◌, ◌↔◌, refl, sym, ◌∙◌, subst, zero, suc, ltb→lt, lt→ltb, leb→le, true, false,
  not, ◌||◌, none, ltb, leb, ◌==◌, if◌then◌else◌, arith, ==_iff,
}
use native.Mathlib.Nat.{mul-le-mul}
use win_hook_audio.Prelude.Words.{u32}
use win_hook_audio.Network.Packet.{
  PacketHeader, validate_whaa_header, check_payload, is_valid_whaa_codec, is_valid_network_channels,
}

-- The bytes of a sample of a PCM codec.
abbrev pub pcm_bytes : ℕ → ℕ
pcm_bytes codec = if codec == 0 then 4 else 2

-- What an accepted audio header says, in exact arithmetic.
pub record Accepted (h : PacketHeader) : Type 0 where
  pub magic : h.magic ≡ 1094797399
  pub version : h.version ≡ 5
  pub packet_type : h.packet_type ≡ 0
  pub codec : h.codec ≤ 2
  pub some_channels : 1 ≤ h.channels
  pub max_channels : h.channels ≤ (if h.codec == 2 then 128 else 32)
  pub some_frames : 1 ≤ h.frames
  pub max_frames : h.frames ≤ 4096
  pub stream_id : h.stream_id < 8
  pub max_payload : h.payload_bytes ≤ 65507
  pub pcm_size : h.codec ≤ 1 → h.payload_bytes ≡ h.channels * h.frames * pcm_bytes h.codec

le→leb : (a b : ℕ) → a ≤ b → leb a b ≡ true
le→leb a b h = ground arith

-- 32 channels of 4096 frames stay far below 32 bits.
no_wrap4 : (n : ℕ) → n ≤ 131072 → u32 (u32 n * 4) ≡ n * 4
no_wrap4 n h = omega arith

no_wrap2 : (n : ℕ) → n ≤ 131072 → u32 (u32 n * 2) ≡ n * 2
no_wrap2 n h = omega arith

-- The checks before the payload's as propositions.
channels_iff :
    (codec channels : ℕ)
    → (is_valid_network_channels codec channels ≡ true)
      ↔ ((1 ≤ channels) × (channels ≤ (if codec == 2 then 128 else 32)))
unfolding is_valid_network_channels
channels_iff codec channels = ground arith

codec_iff : (codec : ℕ) → (is_valid_whaa_codec codec ≡ true) ↔ (codec ≤ 2)
unfolding is_valid_whaa_codec
codec_iff codec = ground arith

frames_iff :
    (frames : ℕ)
    → (not ((frames == 0) || ltb 4096 frames) ≡ true) ↔ ((1 ≤ frames) × (frames ≤ 4096))
frames_iff frames = ground arith

payload-passed :
    (codec bytes n : ℕ)
    → n ≤ 131072
    → check_payload codec bytes (u32 n) ≡ none
    → codec ≤ 1
    → bytes ≡ n * pcm_bytes codec
unfolding check_payload
payload-passed zero bytes n small h pcm =
    let (e, _) = require-passed _ _ none h in (==_iff bytes _).0 e ∙ no_wrap4 n small
payload-passed (suc zero) bytes n small h pcm =
    let (e, _) = require-passed _ _ none h in (==_iff bytes _).0 e ∙ no_wrap2 n small
payload-passed (suc (suc codec)) bytes n small h pcm = absurd (omega arith)

payload-pass :
    (codec bytes n : ℕ)
    → codec ≤ 2
    → (codec ≤ 1 → n ≤ 131072)
    → (codec ≤ 1 → bytes ≡ n * pcm_bytes codec)
    → check_payload codec bytes (u32 n) ≡ none
unfolding check_payload
payload-pass zero bytes n known small h =
    require-pass _ ((==_iff bytes _).1 (h (omega arith) ∙ sym (no_wrap4 n (small (omega arith)))))
      refl
payload-pass (suc zero) bytes n known small h =
    require-pass _ ((==_iff bytes _).1 (h (omega arith) ∙ sym (no_wrap2 n (small (omega arith)))))
      refl
payload-pass (suc (suc zero)) bytes n known small h = refl
payload-pass (suc (suc (suc codec))) bytes n known small h = absurd (omega arith)

pcm_samples :
    (codec c f : ℕ) → codec ≤ 1 → c ≤ (if codec == 2 then 128 else 32) → f ≤ 4096 → c * f ≤ 131072
pcm_samples codec c f pcm hc hf =
    let e : (codec == 2) ≡ false = ground arith in
    let narrow : c ≤ 32 = subst (λ b. c ≤ (if b then 128 else 32)) e hc in mul-le-mul narrow hf

-- ValidateWhaaHeader accepts exactly the audio headers whose fields are in range and whose PCM
-- payload is channels * frames samples; its 32-bit products never wrap on them.
pub validate_whaa_header_lem : (h : PacketHeader) → (validate_whaa_header h ≡ none) ↔ Accepted h
unfolding validate_whaa_header
validate_whaa_header_lem h = (accepted, passes)
  where
    accepted : validate_whaa_header h ≡ none → Accepted h
    accepted r =
        let (magic, r) = require-passed _ _ _ r in
        let (version, r) = require-passed _ _ _ r in
        let (audio, r) = require-passed _ _ _ r in
        let (codec, r) = require-passed _ _ _ r in
        let (channels, r) = require-passed _ _ _ r in
        let (frames, r) = require-passed _ _ _ r in
        let (stream, r) = require-passed _ _ _ r in
        let (payload, r) = require-passed _ _ _ r in
        let (lo, hi) = (channels_iff h.codec h.channels).0 channels in
        let (some_frames, max_frames) = (frames_iff h.frames).0 frames in
        record {
          magic = (==_iff h.magic 1094797399).0 magic;
          version = (==_iff h.version 5).0 version;
          packet_type = (==_iff h.packet_type 0).0 audio;
          codec = (codec_iff h.codec).0 codec;
          some_channels = lo;
          max_channels = hi;
          some_frames = some_frames;
          max_frames = max_frames;
          stream_id = ltb→lt h.stream_id 8 stream;
          max_payload = leb→le h.payload_bytes 65507 payload;
          pcm_size = λ pcm.
              payload-passed h.codec h.payload_bytes (h.channels * h.frames)
                (pcm_samples h.codec h.channels h.frames pcm hi max_frames) r pcm;
        }

    passes : Accepted h → validate_whaa_header h ≡ none
    passes a = require-pass _ ((==_iff h.magic 1094797399).1 a.magic) (
        require-pass _ ((==_iff h.version 5).1 a.version) (
          require-pass _ ((==_iff h.packet_type 0).1 a.packet_type) (
            require-pass _ ((codec_iff h.codec).1 a.codec) (
              require-pass _ ((channels_iff h.codec h.channels).1 (a.some_channels, a.max_channels))
                (require-pass _ ((frames_iff h.frames).1 (a.some_frames, a.max_frames)) (
                  require-pass _ (lt→ltb h.stream_id 8 a.stream_id) (
                    require-pass _ (le→leb h.payload_bytes 65507 a.max_payload) (
                      payload-pass h.codec h.payload_bytes (h.channels * h.frames) a.codec
                        (λ pcm.
                          pcm_samples h.codec h.channels h.frames pcm a.max_channels a.max_frames)
                        a.pcm_size))))))))
