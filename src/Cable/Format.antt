-- ===== src/Cable/Format.antt =====
-- common/virtual/WHACableFormat.h: the sample kinds of a Virtual Cable and its speaker setups.
use win_hook_audio.Prelude.{
  ℕ, ◌*◌, Bool, ◌||◌, Option, none, List, [], ◌∷◌, ltb, leb, ◌==◌, if◌then◌else◌, get_elem?,
}
use Prim.Native.String.{String}

abbrev pub k_cable_channels : ℕ
k_cable_channels = 8

-- `enum class WHASampleKind : unsigned char`, in the order of its numbers 0 to 4.
pub data SampleKind : Type 0 where
  float32 pcm16 pcm24 pcm32 pcm24_in32 : SampleKind

abbrev pub k_sample_kinds : ℕ
k_sample_kinds = 5

unfoldable pub is_valid_cable_format : ℕ → Bool
is_valid_cable_format format = ltb format k_sample_kinds

unfoldable pub is_valid_cable_channels : ℕ → Bool
is_valid_cable_channels channels = channels == 2 || channels == 4 || channels == 6 || channels == 8

unfoldable pub sample_bytes : SampleKind → ℕ
sample_bytes pcm16 = 2
sample_bytes pcm24 = 3
sample_bytes _ = 4

unfoldable pub valid_bits : SampleKind → ℕ
valid_bits pcm16 = 16
valid_bits pcm24 = 24
valid_bits pcm24_in32 = 24
valid_bits _ = 32

unfoldable pub frame_bytes : SampleKind → ℕ → ℕ
unfolding sample_bytes
frame_bytes k channels = channels * sample_bytes k

-- `dwChannelMask`; 0 where there is no standard setup.
unfoldable pub cable_channel_mask : ℕ → ℕ
cable_channel_mask channels =
    if channels == 2
    then 0x3
    else if channels == 4
    then 0x33
    else if channels == 6
    then 0x3F
    else if channels == 8
    then 0x63F
    else 0

abbrev pub k_surround : List String
k_surround = "L" ∷ "R" ∷ "C" ∷ "LFE" ∷ "BL" ∷ "BR" ∷ "SL" ∷ "SR" ∷ []

abbrev pub k_quad : List String
k_quad = "L" ∷ "R" ∷ "BL" ∷ "BR" ∷ []

-- `none` is the null pointer.
unfoldable pub cable_channel_name : ℕ → ℕ → Option String
cable_channel_name channels index =
    if leb channels index || leb k_cable_channels index
    then none
    else if channels == 4
    then get_elem? k_quad index
    else get_elem? k_surround index
