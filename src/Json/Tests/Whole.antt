-- ===== src/Json/Tests/Whole.antt =====
-- common/WHASlotsJson.h: a first-run Slot Table, written and read back.
use win_hook_audio.Prelude.{
  ℕ, zero, suc, ◌-◌, ◌^◌, ◌<◌, ◌≡◌, refl, sym, subst, ◌∙◌, inl, inr, Bool, true, false, none, [],
  ◌∷◌, get_or, replicate, arith, if_both, leb, ltb, if◌then◌else◌,
}
use win_hook_audio.Prelude.Int.{pos}
use win_hook_audio.Table.Text.{c_string, truncate_copy}
use win_hook_audio.Table.Data.{CableSetting, default_cable, blank_chars}
use win_hook_audio.Table.Access.{hw_device_id, cable_setting, cable_at, cable_place}
use win_hook_audio.Table.Names.Visible.{blank_slot}
use win_hook_audio.Table.Defaults.{default_stream}
use win_hook_audio.Table.Validate.{validate_slots}
use win_hook_audio.Json.Arrays.{get_or-replicate, get_or-replicate_within}
use win_hook_audio.Json.Decimals.{with_point}
use win_hook_audio.Json.Slots.RoundTrip.{IsSlot}
use win_hook_audio.Json.Streams.{copy_ip}
use win_hook_audio.Json.Streams.RoundTrip.{IsStream}
use win_hook_audio.Json.Writer.{serialize_slots}
use win_hook_audio.Json.General.Values.{IsPadded}
use win_hook_audio.Json.General.Members.{IsDirection, device_id, device_id-place}
use win_hook_audio.Json.General.RoundTrip.{IsCables}
use win_hook_audio.Json.General.Settings.{IsSettings}
use win_hook_audio.Json.Loader.{deserialize_slots, loaded}
use win_hook_audio.Json.Loader.RoundTrip.{deserialize_slots-serialize_slots}
use win_hook_audio.Json.Loader.Kept.{IsStreamArray, IsTable}
use win_hook_audio.Json.Tests.{in_range, own_text, its_text, quality, first_table}

blank-IsSlot : IsSlot blank_slot
unfolding blank_slot blank_chars truncate_copy c_string
blank-IsSlot = record {
  kind_range = omega arith;
  src_range = omega arith;
  stream_range = omega arith;
  name_range = omega arith;
  name_padded = refl;
  enabled_range = inl refl;
  loopback_range = inl refl;
}

first_in-IsSlot : (i : ℕ) → IsSlot (get_or first_table.master_in i blank_slot)
unfolding first_table blank_slot blank_chars truncate_copy c_string
first_in-IsSlot zero = record {
  kind_range = omega arith;
  src_range = omega arith;
  stream_range = omega arith;
  name_range = omega arith;
  name_padded = refl;
  enabled_range = inr refl;
  loopback_range = inl refl;
}
first_in-IsSlot (suc zero) = record {
  kind_range = omega arith;
  src_range = omega arith;
  stream_range = omega arith;
  name_range = omega arith;
  name_padded = refl;
  enabled_range = inl refl;
  loopback_range = inl refl;
}
first_in-IsSlot (suc (suc i)) = subst IsSlot (sym (get_or-replicate 510 blank_slot i)) blank-IsSlot

first_out-IsSlot : (i : ℕ) → IsSlot (get_or first_table.master_out i blank_slot)
unfolding first_table blank_slot blank_chars truncate_copy c_string
first_out-IsSlot zero = record {
  kind_range = omega arith;
  src_range = omega arith;
  stream_range = omega arith;
  name_range = omega arith;
  name_padded = refl;
  enabled_range = inr refl;
  loopback_range = inl refl;
}
first_out-IsSlot (suc zero) = record {
  kind_range = omega arith;
  src_range = omega arith;
  stream_range = omega arith;
  name_range = omega arith;
  name_padded = refl;
  enabled_range = inl refl;
  loopback_range = inl refl;
}
first_out-IsSlot (suc (suc i)) = subst IsSlot (sym (get_or-replicate 510 blank_slot i)) blank-IsSlot

default-IsStream : IsStream own_text its_text (default_stream quality)
unfolding default_stream copy_ip c_string blank_chars
default-IsStream = record {
  ip_range = omega arith;
  ip_padded = refl;
  port_range = omega arith;
  codec_range = omega arith;
  quality_form = with_point 48 [] (52 ∷ []) refl refl;
  quality_kept = refl;
  channels_range = omega arith;
}

streams-IsStreamArray :
    IsStreamArray own_text in_range in_range its_text quality (replicate 8 (default_stream quality))
streams-IsStreamArray = record {
  streams_length = refl;
  are_streams = λ i.
      subst (IsStream own_text its_text) (sym (get_or-replicate 8 (default_stream quality) i))
        default-IsStream;
}

blank-IsPadded : IsPadded 64 (blank_chars 64)
unfolding blank_chars truncate_copy c_string
blank-IsPadded = record { shorter = refl; padded = refl }

first_id-IsPadded : (b : Bool) (d : ℕ) → d < 128 → IsPadded 64 (device_id first_table b d)
unfolding first_table blank_chars truncate_copy c_string device_id hw_device_id
first_id-IsPadded true zero h = record { shorter = refl; padded = refl }
first_id-IsPadded false zero h = record { shorter = refl; padded = refl }
first_id-IsPadded true (suc i) h =
    subst (IsPadded 64)
      (sym (
        device_id-place first_table true i (omega arith) refl
        ∙ get_or-replicate_within 127 (blank_chars 64) [] i (omega arith)))
      blank-IsPadded
first_id-IsPadded false (suc i) h =
    subst (IsPadded 64)
      (sym (
        device_id-place first_table false i (omega arith) refl
        ∙ get_or-replicate_within 127 (blank_chars 64) [] i (omega arith)))
      blank-IsPadded

exclusive : (d : ℕ) → get_or (replicate 128 0) d 0 < 3
exclusive d = subst (λ v. v < 3) (sym (get_or-replicate {A = ℕ} 128 0 d)) (omega arith)

first-IsDirection : (b : Bool) → IsDirection first_table b
unfolding first_table
first-IsDirection true = record {
  more_length = refl;
  extra_length = refl;
  modes_length = refl;
  ids_padded = first_id-IsPadded true;
  modes_range = exclusive;
  modes_unlisted = λ d lt none_listed. get_or-replicate {A = ℕ} 128 0 d;
}
first-IsDirection false = record {
  more_length = refl;
  extra_length = refl;
  modes_length = refl;
  ids_padded = first_id-IsPadded false;
  modes_range = exclusive;
  modes_unlisted = λ d lt none_listed. get_or-replicate {A = ℕ} 128 0 d;
}

default_in :
    (P : CableSetting → Type 0) (c : ℕ) → P default_cable → P (cable_setting first_table (pos c))
unfolding first_table cable_setting cable_at cable_place
default_in P c h =
    let p : ℕ = if leb 16 c then 0 else c in
    let all : (k : ℕ) → P (get_or (replicate 8 default_cable) k default_cable) =
      λ k. subst P (sym (get_or-replicate 8 default_cable k)) h in
    if_both P (ltb p 8) (all p) (all (p - 8))

first-IsCables : IsCables first_table
unfolding first_table
first-IsCables = record {
  cables_length = refl;
  more_length = refl;
  channels_range = λ c. default_in (λ (cs : CableSetting). cs.channels < 256) c (omega arith);
  format_range = λ c. default_in (λ (cs : CableSetting). cs.format < 256) c (omega arith);
}

bridge_in_range : (i : ℕ) → get_or (replicate 4 128) i 0 < 2 ^ 32
bridge_in_range zero = omega arith
bridge_in_range (suc zero) = omega arith
bridge_in_range (suc (suc zero)) = omega arith
bridge_in_range (suc (suc (suc zero))) = omega arith
bridge_in_range (suc (suc (suc (suc i)))) = omega arith

first-IsSettings : IsSettings first_table
unfolding first_table blank_chars truncate_copy c_string
first-IsSettings = record {
  sample_rate_range = omega arith;
  bit_depth_range = omega arith;
  asio_buffer_range = omega arith;
  hw_buffer_range = omega arith;
  virtual_buffer_range = omega arith;
  network_pcm_buffer_range = omega arith;
  network_vorbis_buffer_range = omega arith;
  jitter_pcm_range = omega arith;
  jitter_vorbis_range = omega arith;
  virtual_cables_range = omega arith;
  bridge_length = refl;
  bridge_range = bridge_in_range;
  name_padded = record { shorter = refl; padded = refl };
  render_padded = record { shorter = refl; padded = refl };
  capture_padded = record { shorter = refl; padded = refl };
  outputs = first-IsDirection false;
  inputs = first-IsDirection true;
  cables = first-IsCables;
}

first_valid : validate_slots in_range in_range (default_stream quality) first_table ≡ none
unfolding validate_slots first_table cable_at cable_place
first_valid = refl

first-IsTable : IsTable own_text in_range in_range its_text quality first_table
unfolding first_table
first-IsTable = record {
  version_range = omega arith;
  in_slots = record {
    count_range = omega arith;
    slots_length = refl;
    are_slots = first_in-IsSlot;
    unused = refl;
  };
  out_slots = record {
    count_range = omega arith;
    slots_length = refl;
    are_slots = first_out-IsSlot;
    unused = refl;
  };
  settings = first-IsSettings;
  tx_streams = streams-IsStreamArray;
  rx_streams = streams-IsStreamArray;
  valid = first_valid;
}

deserialize_slots-serialize_slots_example :
    deserialize_slots in_range in_range its_text quality
      (serialize_slots own_text (default_stream quality) first_table)
    ≡ loaded first_table
deserialize_slots-serialize_slots_example =
    deserialize_slots-serialize_slots own_text in_range in_range its_text quality first_table
      first-IsTable
