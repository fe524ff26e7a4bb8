-- ===== src/Json/Loader/Values.antt =====
-- common/WHASlotsJson.h: the arrays of slots and streams, read as SerializeSlots writes them.
use win_hook_audio.Prelude.{
  ℕ, zero, suc, ◌-◌, ◌≤◌, ◌<◌, ◌≡◌, refl, sym, ap, ap₂, ◌∙◌, List, [], ◌∷◌, ◌++◌, take, drop,
  get_or, length, replicate, arith, take-append-drop, if◌then◌else◌,
}
use Prim.Native.String.{String}
use win_hook_audio.Table.Text.{Chars}
use win_hook_audio.Table.Data.{Slot, NetworkStream}
use win_hook_audio.Table.Names.Visible.{blank_slot}
use win_hook_audio.Prelude.{Option}
use win_hook_audio.Json.{expect, skip_ws, starts, comma, lbracket, rbracket}
use win_hook_audio.Json.Arrays.{from, from-suc, length-from}
use win_hook_audio.Json.Objects.{ok, failed, bind, ◌>>=◌, or_fail}
use win_hook_audio.Json.Objects.Entries.{fixed_list-entries}
use win_hook_audio.Json.Slots.{slot_to_json}
use win_hook_audio.Json.Slots.RoundTrip.{IsSlot, parse_slot-slot_to_json}
use win_hook_audio.Json.Streams.{network_stream_to_json, parse_network_stream}
use win_hook_audio.Json.Streams.RoundTrip.{IsStream, parse_network_stream-to_json}
use win_hook_audio.Json.Writer.{entries, later_entries}
use win_hook_audio.Json.Loader.{slot_array, parse_slots, slot_places, stream_values, parse_streams}

pub from-take :
    {A : Type 0} (n : ℕ) (xs : List A) (d : A)
    → n ≤ length xs
    → from (λ i. get_or xs i d) n 0 ≡ take n xs
from-take zero xs d h = refl
from-take (suc n) [] d h = absurd (omega arith)
from-take (suc n) (x ∷ xs) d h =
    ap (λ t. x ∷ t) (from-suc (λ i. get_or (x ∷ xs) i d) n 0 ∙ from-take n xs d (omega arith))

module _ (f : ℕ → Slot) (are_slots : (i : ℕ) → IsSlot (f i)) (too_many bad_array : String) where
  slot_array-later :
      (n room i : ℕ) (rest : Chars)
      → n < room
      → slot_array too_many bad_array room
          (slot_to_json (f i) (later_entries (λ j. slot_to_json (f j)) n (suc i) (rbracket ∷ rest)))
        ≡ ok (from f (suc n) i) rest
  unfolding slot_array later_entries skip_ws
  slot_array-later n zero i rest h = absurd (omega arith)
  slot_array-later zero (suc room) i rest h =
      ap
        (λ r. bind r λ slot u.
          let v = skip_ws u in
          if starts comma v
          then (bind (slot_array too_many bad_array room (drop 1 v)) λ slots. ok (slot ∷ slots))
          else if starts rbracket v
          then ok (slot ∷ []) (drop 1 v)
          else failed bad_array)
        (parse_slot-slot_to_json (f i) (rbracket ∷ rest) (are_slots i))
  slot_array-later (suc n) (suc room) i rest h =
      let tail =
        slot_to_json (f (suc i))
          (later_entries (λ j. slot_to_json (f j)) n (suc (suc i)) (rbracket ∷ rest)) in
      ap
        (λ r. bind r λ slot u.
          let v = skip_ws u in
          if starts comma v
          then (bind (slot_array too_many bad_array room (drop 1 v)) λ slots. ok (slot ∷ slots))
          else if starts rbracket v
          then ok (slot ∷ []) (drop 1 v)
          else failed bad_array)
        (parse_slot-slot_to_json (f i) (comma ∷ tail) (are_slots i))
      ∙ ap (λ r. bind r λ slots. ok (f i ∷ slots))
          (slot_array-later n room (suc i) rest (omega arith))

  -- At most 512 slots in an array.
  pub parse_slots-entries :
      (no_bracket : String) (n : ℕ) (rest : Chars)
      → n ≤ 512
      → parse_slots no_bracket too_many bad_array
          (lbracket ∷ entries (λ j. slot_to_json (f j)) n 0 (rbracket ∷ rest))
        ≡ ok (from f n 0) rest
  unfolding parse_slots expect skip_ws entries slot_to_json
  parse_slots-entries no_bracket zero rest h = refl
  parse_slots-entries no_bracket (suc n) rest h = slot_array-later n 512 0 rest (omega arith)

-- An array of 512 slots with blank ones from place `n` on.
pub slot_places-from :
    (n : ℕ) (xs : List Slot)
    → n ≤ 512
    → length xs ≡ 512
    → drop n xs ≡ replicate (512 - n) blank_slot
    → slot_places (from (λ i. get_or xs i blank_slot) n 0) ≡ xs
unfolding slot_places
slot_places-from n xs le l blank =
    let f = λ (i : ℕ). get_or xs i blank_slot in
    ap (λ k. from f n 0 ++ replicate (512 - k) blank_slot) (length-from f n 0)
    ∙ ap₂ ◌++◌ (from-take n xs blank_slot (omega arith)) (sym blank)
    ∙ take-append-drop n xs

module _ {Quality : Type 0} (quality_text : Quality → Chars) (stof : Chars → Option Quality)
    (default_quality : Quality) (f : ℕ → NetworkStream Quality)
    (are_streams : (i : ℕ) → IsStream quality_text stof (f i)) where
  pub parse_streams-entries :
      (no_bracket no_comma no_end : String) (rest : Chars)
      → parse_streams stof default_quality no_bracket no_comma no_end (
          lbracket ∷ entries (λ i. network_stream_to_json quality_text (f i)) 8 0 (rbracket ∷ rest))
        ≡ ok (from f 8 0) rest
  unfolding parse_streams stream_values expect skip_ws
  parse_streams-entries no_bracket no_comma no_end rest =
      ap (λ r. bind r λ streams. or_fail no_end (expect rbracket) >>= λ _. ok streams)
        (fixed_list-entries (parse_network_stream stof default_quality) no_comma
          (λ i. network_stream_to_json quality_text (f i)) f
          (λ i s e.
            parse_network_stream-to_json quality_text stof default_quality (f i) s (are_streams i))
          8 rest)
