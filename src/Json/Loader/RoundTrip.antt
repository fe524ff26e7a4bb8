-- ===== src/Json/Loader/RoundTrip.antt =====
-- common/WHASlotsJson.h: what SerializeSlots writes for a Slot Table is read back by DeserializeSlots.
use win_hook_audio.Json.Loader.Kept.{IsTable}
use win_hook_audio.Prelude.{
  ℕ, ◌≡◌, refl, ap, ap₂, ◌∙◌, Bool, true, Option, none, some, List, [], ◌∷◌, ◌++◌, ◌==◌, get_or,
  length, arith, take_all,
}
use win_hook_audio.Table.Text.{Chars, codes}
use win_hook_audio.Table.Data.{Slot, NetworkStream, SlotTable}
use win_hook_audio.Table.Names.Visible.{blank_slot}
use win_hook_audio.Table.Defaults.{default_stream}
use win_hook_audio.Json.{
  eq_text, expect, skip_ws, escape_json_string, escape_bytes, escape_byte, lbrace, rbrace, lbracket,
  rbracket,
}
use win_hook_audio.Json.Arrays.{from, length-from}
use win_hook_audio.Json.Objects.{ok, bind, blanks}
use win_hook_audio.Json.Objects.Chains.{Chain, ReadsTo, next, last, chain_text, object-chain}
use win_hook_audio.Json.Slots.{slot_to_json}
use win_hook_audio.Json.Streams.{network_stream_to_json}
use win_hook_audio.Json.Writer.{number, entries, general_to_json, lists_to_json, serialize_slots}
use win_hook_audio.Json.General.Values.{uint-number}
use win_hook_audio.Json.General.State.{GeneralParse}
use win_hook_audio.Json.General.Whole.{versioned, restored, parse_general-settings}
use win_hook_audio.Json.Loader.{
  Load, loaded, invalid, load_member, load_messages, new_load, have_all, loaded_table, slot_places,
  validated, finish_load, load, deserialize_slots,
}
use win_hook_audio.Json.Loader.Total.{load_member-Keeps}
use win_hook_audio.Json.Loader.Values.{
  parse_slots-entries, slot_places-from, parse_streams-entries, from-take,
}

same_count : (n : ℕ) {m : ℕ} → m ≡ n → (m == n) ≡ true
same_count n e = ground arith

module _ {Quality : Type 0} (quality_text : Quality → Chars) (below_min above_max : Quality → Bool)
    (stof : Chars → Option Quality) (default_quality : Quality) where
  module _ (t : SlotTable Quality) where
    abbrev in_slot : ℕ → Slot
    in_slot i = get_or t.master_in i blank_slot

    abbrev out_slot : ℕ → Slot
    out_slot i = get_or t.master_out i blank_slot

    abbrev tx : ℕ → NetworkStream Quality
    tx i = get_or t.net_tx i (default_stream default_quality)

    abbrev rx : ℕ → NetworkStream Quality
    rx i = get_or t.net_rx i (default_stream default_quality)

    abbrev write_slots : (ℕ → Slot) → ℕ → Chars → Chars
    write_slots f n rest = lbracket ∷ entries (λ i. slot_to_json (f i)) n 0 (rbracket ∷ rest)

    abbrev write_streams : (ℕ → NetworkStream Quality) → Chars → Chars
    write_streams f rest =
        lbracket ∷ entries (λ i. network_stream_to_json quality_text (f i)) 8 0 (rbracket ∷ rest)

    abbrev write_general : Chars → Chars
    write_general rest =
        lbrace ∷ general_to_json t.general (codes "," ++ lists_to_json t (rbrace ∷ rest))

    -- What is read before the checks.
    abbrev all_read : Load Quality
    all_read = record {
      table = record (restored stof default_quality t) { net_tx = t.net_tx; net_rx = t.net_rx };
      tmp_in_count = t.master_in_count;
      tmp_out_count = t.master_out_count;
      tmp_in = from in_slot t.master_in_count 0;
      tmp_out = from out_slot t.master_out_count 0;
      have_version = true;
      have_in_count = true;
      have_in = true;
      have_out_count = true;
      have_out = true;
      have_general = true;
      have_tx = true;
      have_rx = true;
      have_cables = true;
    }

    streams-from :
        (streams : List (NetworkStream Quality))
        → length streams ≡ 8
        → from (λ i. get_or streams i (default_stream default_quality)) 8 0 ≡ streams
    streams-from streams l =
        from-take 8 streams (default_stream default_quality) (omega arith)
        ∙ take_all 8 streams (omega arith)

    master_in-reads :
        IsTable quality_text below_min above_max stof default_quality t
        → (st : Load Quality)
        → ReadsTo
            (load_member stof default_quality)
            (codes "masterIn")
            (write_slots in_slot t.master_in_count)
            st
            (record st { tmp_in = from in_slot t.master_in_count 0; have_in = true })
    unfolding load_member eq_text
    master_in-reads h st rest e =
        ap (λ r. bind r λ slots. ok (record st { tmp_in = slots; have_in = true }))
          (parse_slots-entries in_slot h.in_slots.are_slots "masterIn too many" "masterIn array"
            "masterIn expected [" t.master_in_count rest h.in_slots.count_range)

    master_out-reads :
        IsTable quality_text below_min above_max stof default_quality t
        → (st : Load Quality)
        → ReadsTo
            (load_member stof default_quality)
            (codes "masterOut")
            (write_slots out_slot t.master_out_count)
            st
            (record st { tmp_out = from out_slot t.master_out_count 0; have_out = true })
    unfolding load_member eq_text
    master_out-reads h st rest e =
        ap (λ r. bind r λ slots. ok (record st { tmp_out = slots; have_out = true }))
          (parse_slots-entries out_slot h.out_slots.are_slots "masterOut too many" "masterOut array"
            "masterOut expected [" t.master_out_count rest h.out_slots.count_range)

    net_tx-reads :
        IsTable quality_text below_min above_max stof default_quality t
        → (st : Load Quality)
        → ReadsTo
            (load_member stof default_quality)
            (codes "netTx")
            (write_streams tx)
            st
            (record st { table = record (st.table) { net_tx = t.net_tx }; have_tx = true })
    unfolding load_member eq_text
    net_tx-reads h st rest e =
        ap
          (λ r. bind r λ streams.
            ok (record st { table = record (st.table) { net_tx = streams }; have_tx = true }))
          (parse_streams-entries quality_text stof default_quality tx h.tx_streams.are_streams
              "netTx [" "netTx ," "netTx ]" rest
            ∙ ap (λ streams. ok streams rest) (streams-from t.net_tx h.tx_streams.streams_length))

    net_rx-reads :
        IsTable quality_text below_min above_max stof default_quality t
        → (st : Load Quality)
        → ReadsTo
            (load_member stof default_quality)
            (codes "netRx")
            (write_streams rx)
            st
            (record st { table = record (st.table) { net_rx = t.net_rx }; have_rx = true })
    unfolding load_member eq_text
    net_rx-reads h st rest e =
        ap
          (λ r. bind r λ streams.
            ok (record st { table = record (st.table) { net_rx = streams }; have_rx = true }))
          (parse_streams-entries quality_text stof default_quality rx h.rx_streams.are_streams
              "netRx [" "netRx ," "netRx ]" rest
            ∙ ap (λ streams. ok streams rest) (streams-from t.net_rx h.rx_streams.streams_length))

    unfoldable load_chain :
        IsTable quality_text below_min above_max stof default_quality t
        → Chain (load_member stof default_quality) (new_load stof default_quality) all_read
    unfolding load_member eq_text new_load
    load_chain h =
        let st0 : Load Quality = new_load stof default_quality in
        let st1 : Load Quality = record st0 {
          table = versioned stof default_quality t;
          have_version = true;
        } in
        let in_count = t.master_in_count in
        let out_count = t.master_out_count in
        let st2 : Load Quality = record st1 { tmp_in_count = in_count; have_in_count = true } in
        let st3 : Load Quality = record st2 { tmp_in = from in_slot in_count 0; have_in = true } in
        let st4 : Load Quality = record st3 { tmp_out_count = out_count; have_out_count = true } in
        let st5 : Load Quality = record st4 {
          tmp_out = from out_slot out_count 0;
          have_out = true;
        } in
        let st6 : Load Quality = record st5 {
          table = restored stof default_quality t;
          have_general = true;
          have_cables = true;
        } in
        let st7 : Load Quality = record st6 {
          table = record (restored stof default_quality t) { net_tx = t.net_tx };
          have_tx = true;
        } in
        next (codes "version") (number t.version)
          (λ rest e.
            uint-number "version parse"
              (λ v. record st0 { table = record (st0.table) { version = v }; have_version = true })
              t.version rest h.version_range e)
          (next (codes "masterInCount") (number in_count)
            (λ rest e.
              uint-number "masterInCount parse"
                (λ v. record st1 { tmp_in_count = v; have_in_count = true }) in_count rest
                (omega (arith, h.in_slots.count_range)) e)
            (next (codes "masterIn") (write_slots in_slot in_count) (master_in-reads h st2) (
              next (codes "masterOutCount") (number out_count)
                (λ rest e.
                  uint-number "masterOutCount parse"
                    (λ v. record st3 { tmp_out_count = v; have_out_count = true }) out_count rest
                    (omega (arith, h.out_slots.count_range)) e)
                (next (codes "masterOut") (write_slots out_slot out_count) (master_out-reads h st4)
                  (next (codes "general") write_general
                    (λ rest e.
                      ap
                        (λ r. bind r λ (g : GeneralParse Quality). ok (record st5 {
                          table = g.table;
                          have_general = true;
                          have_cables = g.have_cables;
                        }))
                        (parse_general-settings stof default_quality t h.settings rest))
                    (next (codes "netTx") (write_streams tx) (net_tx-reads h st6)
                      (last (codes "netRx") (write_streams rx) (net_rx-reads h st7))))))))

    -- The chain writes what SerializeSlots writes.
    load_chain-text :
        (h : IsTable quality_text below_min above_max stof default_quality t)
        → serialize_slots quality_text (default_stream default_quality) t
          ≡ lbrace ∷ chain_text (load_member stof default_quality) (load_chain h) []
    unfolding load_chain serialize_slots escape_json_string escape_bytes escape_byte
    load_chain-text h = refl

    load-serialize_slots :
        (h : IsTable quality_text below_min above_max stof default_quality t)
        → load stof default_quality
            (serialize_slots quality_text (default_stream default_quality) t)
          ≡ ok all_read []
    unfolding load expect skip_ws blanks
    load-serialize_slots h =
        ap (load stof default_quality) (load_chain-text h)
        ∙ object-chain (load_member stof default_quality) load_messages
            (load_member-Keeps stof default_quality) (load_chain h) []

    loaded_table-all_read :
        IsTable quality_text below_min above_max stof default_quality t → loaded_table all_read ≡ t
    unfolding loaded_table
    loaded_table-all_read h =
        ap₂
          (λ n m. record t {
            master_in_count = n;
            master_in = slot_places (from in_slot t.master_in_count 0);
            master_out_count = m;
            master_out = slot_places (from out_slot t.master_out_count 0);
          })
          (length-from in_slot t.master_in_count 0) (length-from out_slot t.master_out_count 0)
        ∙ ap₂ (λ xs ys. record t { master_in = xs; master_out = ys })
            (slot_places-from t.master_in_count t.master_in h.in_slots.count_range
              h.in_slots.slots_length h.in_slots.unused)
            (slot_places-from t.master_out_count t.master_out h.out_slots.count_range
              h.out_slots.slots_length h.out_slots.unused)

    validated-valid :
        IsTable quality_text below_min above_max stof default_quality t
        → validated below_min above_max default_quality t ≡ loaded t
    unfolding validated
    validated-valid h = ap (λ o. elim o [ none ↦ loaded t | some e ↦ invalid e ]) h.valid

    -- DeserializeSlots on what SerializeSlots wrote for a Slot Table as the program keeps it, which
    -- ValidateSlots accepts, gives that table, every field of it.
    pub deserialize_slots-serialize_slots :
        IsTable quality_text below_min above_max stof default_quality t
        → deserialize_slots below_min above_max stof default_quality
            (serialize_slots quality_text (default_stream default_quality) t)
          ≡ loaded t
    unfolding deserialize_slots finish_load skip_ws have_all
    deserialize_slots-serialize_slots h =
        let ins = same_count t.master_in_count (length-from in_slot t.master_in_count 0) in
        let outs = same_count t.master_out_count (length-from out_slot t.master_out_count 0) in
        ap (finish_load below_min above_max default_quality) (load-serialize_slots h)
        ∙ rw (ins, outs)
            (ap (validated below_min above_max default_quality) (loaded_table-all_read h)
              ∙ validated-valid h)
