-- ===== src/Network/Packet.antt =====
-- common/WHAPacket.h: the headers of the WHAA packets and their checks. The `float` of a codebook
-- header is of an arbitrary type with the two comparisons that its check makes.
pub mod Accept
use win_hook_audio.Prelude.Checks.{require}
use win_hook_audio.Prelude.{
  ℕ, ◌+◌, ◌*◌, ◌%◌, Bool, true, false, not, ◌&&◌, ◌||◌, Option, none, some, List, [], ◌∷◌, ltb, leb,
  ◌==◌, if◌then◌else◌,
}
use win_hook_audio.Prelude.Words.{u32}
use win_hook_audio.Table.Data.{wha_pcm_f32, wha_pcm_i16, wha_vorbis, k_net_streams}

-- 0x41414857, 'WHAA'
abbrev pub k_whaa_magic : ℕ
k_whaa_magic = 1094797399

abbrev pub k_whaa_version : ℕ
k_whaa_version = 5

abbrev pub k_whaa_max_payload : ℕ
k_whaa_max_payload = 65507

abbrev pub whaa_audio : ℕ
whaa_audio = 0

abbrev pub whaa_codebook : ℕ
whaa_codebook = 1

pub record PacketHeader : Type 0 where
  pub magic : ℕ
  pub version : ℕ
  pub packet_type : ℕ
  pub codec : ℕ
  pub channels : ℕ
  pub frames : ℕ
  pub stream_id : ℕ
  pub sequence : ℕ
  pub qpc : ℕ
  pub payload_bytes : ℕ

-- The messages of `ValidateWhaaHeader` and `ValidateWhaaCodebook`.
pub data PacketError : Type 0 where
  magic_invalid : PacketError
  version_invalid : PacketError
  type_invalid : PacketError
  codec_invalid : PacketError
  channels_invalid : PacketError
  frames_invalid : PacketError
  stream_id_invalid : PacketError
  payload_too_large : PacketError
  pcm_f32_mismatch : PacketError
  pcm_i16_mismatch : PacketError
  sample_rate_invalid : PacketError
  quality_invalid : PacketError
  headers_bytes_invalid : PacketError

abbrev pub k_max_pcm_channels : ℕ
k_max_pcm_channels = 32

abbrev pub k_max_vorbis_channels : ℕ
k_max_vorbis_channels = 128

unfoldable pub is_valid_network_channels : ℕ → ℕ → Bool
is_valid_network_channels codec channels =
    if ltb channels 1
    then false
    else if codec == wha_vorbis
    then leb channels k_max_vorbis_channels
    else leb channels k_max_pcm_channels

unfoldable pub is_valid_whaa_codec : ℕ → Bool
is_valid_whaa_codec codec =
    (codec == wha_pcm_f32) || (codec == wha_pcm_i16) || (codec == wha_vorbis)

unfoldable pub is_valid_sample_rate : ℕ → Bool
is_valid_sample_rate rate =
    (rate == 44100)
    || (rate == 48000)
    || (rate == 88200)
    || (rate == 96000)
    || (rate == 176400)
    || (rate == 192000)

-- The PCM payload size check, for the codec, the payload's bytes and the product of channels and
-- frames; a Vorbis payload varies.
unfoldable pub check_payload : ℕ → ℕ → ℕ → Option PacketError
check_payload codec bytes samples =
    if codec == wha_pcm_f32
    then require (bytes == u32 (samples * 4)) pcm_f32_mismatch none
    else if codec == wha_pcm_i16
    then require (bytes == u32 (samples * 2)) pcm_i16_mismatch none
    else none

unfoldable pub validate_whaa_header : PacketHeader → Option PacketError
unfolding check_payload is_valid_whaa_codec is_valid_network_channels
validate_whaa_header h = require (h.magic == k_whaa_magic) magic_invalid (
    require (h.version == k_whaa_version) version_invalid (
      require (h.packet_type == whaa_audio) type_invalid (
        require (is_valid_whaa_codec h.codec) codec_invalid (
          require (is_valid_network_channels h.codec h.channels) channels_invalid (
            require (not ((h.frames == 0) || ltb 4096 h.frames)) frames_invalid (
              require (ltb h.stream_id k_net_streams) stream_id_invalid (
                require (leb h.payload_bytes k_whaa_max_payload) payload_too_large
                  (check_payload h.codec h.payload_bytes (u32 (h.channels * h.frames))))))))))

module _ {Quality : Type 0} (below_min above_max : Quality → Bool) where
  pub record CodebookHeader : Type 0 where
    pub magic : ℕ
    pub version : ℕ
    pub packet_type : ℕ
    pub stream_id : ℕ
    pub sample_rate : ℕ
    pub channels : ℕ
    pub quality : Quality
    pub headers_bytes : ℕ

  unfoldable pub validate_whaa_codebook : CodebookHeader → Option PacketError
  unfolding is_valid_sample_rate is_valid_network_channels
  validate_whaa_codebook h = require (h.magic == k_whaa_magic) magic_invalid (
      require (h.version == k_whaa_version) version_invalid (
        require (h.packet_type == whaa_codebook) type_invalid (
          require (ltb h.stream_id k_net_streams) stream_id_invalid (
            require (is_valid_sample_rate h.sample_rate) sample_rate_invalid (
              require (is_valid_network_channels wha_vorbis h.channels) channels_invalid (
                require (not (below_min h.quality || above_max h.quality)) quality_invalid (
                  require (not ((h.headers_bytes == 0) || ltb k_whaa_max_payload h.headers_bytes))
                    headers_bytes_invalid none)))))))
