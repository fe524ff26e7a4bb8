-- ===== src/Table/Tests/First.antt =====
-- common/WHASlotsFile.h and WHASlotsJson.h: the table of a first run, from a mapping of zeroes.
use win_hook_audio.Prelude.{
  ℕ, zero, suc, ◌+◌, ◌<◌, ◌≡◌, ◌↔◌, refl, Bool, true, false, none, some, [], ◌∷◌, ltb, leb, ◌==◌,
  get_or, arith, if_both,
}
use win_hook_audio.Prelude.Int.{pos}
use win_hook_audio.Table.Text.{c_string}
use win_hook_audio.Table.Data.{NetworkStream, SlotTable}
use win_hook_audio.Table.Access.{hw_device_id}
use win_hook_audio.Table.Names.Visible.{blank_slot}
use win_hook_audio.Table.Validate.{validate_slots, in_count}
use win_hook_audio.Table.Validate.Accept.{IdOk, TableOk, validate_slots_lem}
use win_hook_audio.Table.Defaults.{fill_default_slot_table}
use win_hook_audio.Table.Defaults.Accepted.{Prepared, validate_slots-fill_default_slot_table}

-- A quality in hundredths.
below_min : ℕ → Bool
below_min q = ltb q 10

above_max : ℕ → Bool
above_max q = ltb 100 q

abbrev no_stream : NetworkStream ℕ
no_stream = record { ip = []; port = 0; codec = 0; quality = 0; channels = 0 }

abbrev zeroed : SlotTable ℕ
zeroed = record {
  version = 0;
  master_in_count = 0;
  master_in = blank_slot ∷ blank_slot ∷ [];
  master_out_count = 0;
  master_out = blank_slot ∷ blank_slot ∷ [];
  general = record {
    sample_rate = 0;
    bit_depth = 0;
    asio_buffer = 0;
    hw_buffer = 0;
    virtual_buffer = 0;
    bridge_buffer = [];
    network_pcm_buffer = 0;
    network_vorbis_buffer = 0;
    jitter_pcm = 0;
    jitter_vorbis = 0;
    virtual_cables = 0;
    virtual_name = [];
    hw_render_id = [];
    hw_capture_id = [];
  };
  net_tx = [];
  net_rx = [];
  hw_more = record { render_id = []; capture_id = [] };
  cables = [];
  hw_extra = record { render_id = []; capture_id = [] };
  hw_modes = record { render = []; capture = [] };
  cables_more = [];
}

no_id : (i : ℕ) (is_input : Bool) → i < 127 → IdOk (hw_device_id zeroed is_input (pos (i + 1)))
unfolding hw_device_id c_string
no_id i true lt =
    let blank : IdOk (some []) = omega arith in
    let null : IdOk none = omega arith in
    if_both IdOk (i + 1 == 0) blank
      (if_both IdOk (leb 128 (i + 1)) null (if_both IdOk (leb (i + 1) 3) blank blank))
no_id i false lt =
    let blank : IdOk (some []) = omega arith in
    let null : IdOk none = omega arith in
    if_both IdOk (i + 1 == 0) blank
      (if_both IdOk (leb 128 (i + 1)) null (if_both IdOk (leb (i + 1) 3) blank blank))

no_loopback : (i : ℕ) → (get_or (blank_slot ∷ blank_slot ∷ []) i blank_slot).loopback ≡ 0
unfolding blank_slot
no_loopback zero = refl
no_loopback (suc zero) = refl
no_loopback (suc (suc i)) = refl

zeroed-Prepared : Prepared zeroed
unfolding blank_slot
zeroed-Prepared = record {
  in_places = omega arith;
  out_places = omega arith;
  in_loopback = λ i lt. no_loopback i;
  out_loopback = λ i lt. no_loopback i;
  ids = λ i lt. (no_id i false lt, no_id i true lt);
  modes = λ d lt. (omega arith, omega arith);
}

validate_slots-fill_default_slot_table_example :
    validate_slots below_min above_max no_stream (fill_default_slot_table 40 zeroed) ≡ none
unfolding below_min above_max
validate_slots-fill_default_slot_table_example =
    validate_slots-fill_default_slot_table below_min above_max 40 no_stream zeroed refl refl
      zeroed-Prepared

validate_slots_lem_example :
    (validate_slots below_min above_max no_stream zeroed ≡ none)
    ↔ TableOk below_min above_max no_stream zeroed
validate_slots_lem_example = validate_slots_lem below_min above_max no_stream zeroed

-- A table that nobody filled is refused.
zeroed_refused : validate_slots below_min above_max no_stream zeroed ≡ some in_count
unfolding validate_slots
zeroed_refused = refl
