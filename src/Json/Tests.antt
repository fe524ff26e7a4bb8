-- ===== src/Json/Tests.antt =====
-- common/WHASlotsJson.h: the model on concrete text. A quality is its own text here.
mod Whole
use win_hook_audio.Prelude.{
  ℕ, ◌≤◌, ◌≡◌, ◌≢◌, refl, inl, inr, arith, Bool, false, Option, none, some, [], ◌∷◌, ◌++◌,
}
use win_hook_audio.Prelude.Int.{pos, negsuc}
use win_hook_audio.Table.Text.{Chars, codes, c_string, truncate_copy}
use win_hook_audio.Table.Data.{Slot, NetworkStream, SlotTable}
use win_hook_audio.Table.Access.{cable_at, cable_place, set_cable_at}
use win_hook_audio.Table.Defaults.{fill_default_slot_table, default_stream}
use win_hook_audio.Json.{parse_string, parse_uint, parse_int, escape_json_string}
use win_hook_audio.Json.Objects.{ok}
use win_hook_audio.Json.Strings.Ends.{StringRun}
use win_hook_audio.Json.Strings.{parse_string-escape_json_string}
use win_hook_audio.Json.Decimals.{with_point}
use win_hook_audio.Json.Slots.{slot_to_json, parse_slot}
use win_hook_audio.Json.Slots.RoundTrip.{IsSlot, parse_slot-slot_to_json}
use win_hook_audio.Json.Streams.{copy_ip, network_stream_to_json, parse_network_stream}
use win_hook_audio.Json.Streams.RoundTrip.{IsStream, parse_network_stream-to_json}
use win_hook_audio.Json.Loader.Total.{deserialize_slots_finishes}
use win_hook_audio.Json.Loader.Checked.{deserialize_slots-TableOk}
use win_hook_audio.Table.Validate.Accept.{TableOk}
use win_hook_audio.Json.Writer.{serialize_slots}
use win_hook_audio.Json.Loader.{deserialize_slots, loaded, rejected, unfinished, new_table}

abbrev in_range : Chars → Bool
in_range q = false

abbrev own_text : Chars → Chars
own_text q = q

abbrev its_text : Chars → Option Chars
its_text t = some t

abbrev quality : Chars
quality = codes "0.4"

unfoldable first_table : SlotTable Chars
unfolding fill_default_slot_table new_table
first_table = fill_default_slot_table quality (new_table its_text quality)

first_text : Chars
unfolding serialize_slots first_table
first_text = serialize_slots own_text (default_stream quality) first_table

first_load : deserialize_slots in_range in_range its_text quality first_text ≡ loaded first_table
unfolding deserialize_slots first_text first_table cable_at cable_place set_cable_at
first_load = refl

spaced_string : parse_string (codes " \"a\\u0041\\n\" ,") ≡ some (97 ∷ 65 ∷ 10 ∷ [], codes " ,")
unfolding parse_string
spaced_string = refl

low_byte : parse_string (codes "\"\\u20ac\"") ≡ some (172 ∷ [], [])
unfolding parse_string
low_byte = refl

too_large : parse_uint (codes "4294967296,") ≡ none
unfolding parse_uint
too_large = refl

smallest : parse_int (codes "-2147483648}") ≡ some (negsuc 2147483647, codes "}")
unfolding parse_int
smallest = refl

no_number : parse_int (codes "-,") ≡ none
unfolding parse_int
no_number = refl

not_an_object :
    deserialize_slots in_range in_range its_text quality (codes "[]") ≡ rejected "expected {"
unfolding deserialize_slots
not_an_object = refl

trailing_comma :
    deserialize_slots in_range in_range its_text quality (codes "{\"version\":3,}")
    ≡ rejected "missing top fields"
unfolding deserialize_slots
trailing_comma = refl

talkback : Slot
unfolding truncate_copy
talkback = record {
  kind = 4;
  src_channel = pos 17;
  stream_id = negsuc 0;
  name = truncate_copy [] 32 (some (codes "Talk \"back\""));
  enabled = 1;
  loopback = 0;
}

talkback-IsSlot : IsSlot talkback
unfolding talkback truncate_copy c_string
talkback-IsSlot = record {
  kind_range = omega arith;
  src_range = omega arith;
  stream_range = omega arith;
  name_range = omega arith;
  name_padded = refl;
  enabled_range = inr refl;
  loopback_range = inl refl;
}

parse_slot-slot_to_json_example :
    parse_slot (slot_to_json talkback (codes "]")) ≡ ok talkback (codes "]")
parse_slot-slot_to_json_example = parse_slot-slot_to_json talkback (codes "]") talkback-IsSlot

monitor : NetworkStream Chars
unfolding copy_ip
monitor = record {
  ip = copy_ip (codes "192.168.0.7");
  port = 6980;
  codec = 2;
  quality = codes "0.7";
  channels = 8;
}

monitor-IsStream : IsStream own_text its_text monitor
unfolding monitor copy_ip c_string
monitor-IsStream = record {
  ip_range = omega arith;
  ip_padded = refl;
  port_range = omega arith;
  codec_range = omega arith;
  quality_form = with_point 48 [] (55 ∷ []) refl refl;
  quality_kept = refl;
  channels_range = omega arith;
}

parse_network_stream-to_json_example :
    parse_network_stream its_text quality (network_stream_to_json own_text monitor (codes "]"))
    ≡ ok monitor (codes "]")
parse_network_stream-to_json_example =
    parse_network_stream-to_json own_text its_text quality monitor (codes "]") monitor-IsStream

deserialize_slots_finishes_example :
    (deserialize_slots in_range in_range its_text quality (codes "{\"version\":3,\"ma")
      ≢ unfinished)
    × (n : ℕ) × StringRun [] (codes "ma") n (parse_string (34 ∷ codes "ma"))
    × (n ≤ 3)
deserialize_slots_finishes_example =
    deserialize_slots_finishes in_range in_range its_text quality (codes "{\"version\":3,\"ma")
      (codes "ma")

deserialize_slots-TableOk_example : TableOk in_range in_range (default_stream quality) first_table
deserialize_slots-TableOk_example =
    deserialize_slots-TableOk in_range in_range its_text quality first_text first_table first_load
