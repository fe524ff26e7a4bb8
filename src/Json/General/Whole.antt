-- ===== src/Json/General/Whole.antt =====
-- common/WHASlotsJson.h: the whole object "general", written and read back.
use win_hook_audio.Json.General.Settings.{
  IsSettings, bridge-reads, render_more-reads, capture_more-reads, render_modes-reads,
  capture_modes-reads, cables-reads,
}
use win_hook_audio.Prelude.{
  ◌≡◌, refl, sym, ap, ◌∙◌, true, false, Option, ◌∷◌, ◌++◌, get_or, if◌then◌else◌,
}
use win_hook_audio.Table.Text.{Chars, codes}
use win_hook_audio.Table.Data.{SlotTable, blank_chars, blank_ids}
use win_hook_audio.Table.Defaults.{default_general}
use win_hook_audio.Json.{
  eq_text, expect, skip_ws, escape_json_string, escape_bytes, escape_byte, lbrace, rbrace,
}
use win_hook_audio.Json.Objects.{Result, ok, bind, fail, object}
use win_hook_audio.Json.Objects.Chains.{Chain, next, last, chain_text, object-chain}
use win_hook_audio.Json.Writer.{number, general_to_json, lists_to_json}
use win_hook_audio.Json.General.{
  general_member, number_member, general_messages, have_general, parse_general,
}
use win_hook_audio.Json.General.State.{
  GeneralParse, put_table, new_general, put_sample_rate, put_bit_depth, put_asio_buffer,
  put_hw_buffer, put_virtual_buffer, put_network_pcm_buffer, put_network_vorbis_buffer,
  put_jitter_pcm, put_jitter_vorbis, put_virtual_cables, put_bridge_buffer, put_virtual_name,
  put_render_id, put_capture_id,
}
use win_hook_audio.Json.General.Values.{
  write_string, uint-number, virtual_name-reads, render_id-reads, capture_id-reads, write_bridge,
}
use win_hook_audio.Json.General.Places.{with_modes, two_lists}
use win_hook_audio.Json.General.Members.{modes_of, more_of, extra_of}
use win_hook_audio.Json.General.RoundTrip.{write_ids, write_modes, write_cables}
use win_hook_audio.Json.Loader.{new_table}
use win_hook_audio.Json.Loader.GeneralTotal.{general_member-Keeps}

module _ {Quality : Type 0} (stof : Chars → Option Quality) (default_quality : Quality)
    (t : SlotTable Quality) where
  -- A new table with the version and then the settings of `t`.
  abbrev pub versioned : SlotTable Quality
  versioned = record (new_table stof default_quality) { version = t.version }

  abbrev pub restored : SlotTable Quality
  restored = record (versioned) {
    general = t.general;
    hw_more = t.hw_more;
    hw_extra = t.hw_extra;
    hw_modes = t.hw_modes;
    cables = t.cables;
    cables_more = t.cables_more;
  }

  abbrev pub full : GeneralParse Quality
  full = record {
    table = restored;
    have_sr = true;
    have_bd = true;
    have_ab = true;
    have_hw = true;
    have_vb = true;
    have_bb = true;
    have_pcm = true;
    have_vorbis = true;
    have_jp = true;
    have_jv = true;
    have_vc = true;
    have_vn = true;
    have_cables = true;
  }

  unfoldable general_chain : IsSettings t → Chain general_member (new_general versioned false) full
  unfolding general_member number_member eq_text new_table blank_ids blank_chars default_general
  general_chain h =
      let g = t.general in
      let st0 : GeneralParse Quality = new_general versioned false in
      let st1 : GeneralParse Quality = put_sample_rate st0 g.sample_rate in
      let st2 : GeneralParse Quality = put_bit_depth st1 g.bit_depth in
      let st3 : GeneralParse Quality = put_asio_buffer st2 g.asio_buffer in
      let st4 : GeneralParse Quality = put_hw_buffer st3 g.hw_buffer in
      let st5 : GeneralParse Quality = put_virtual_buffer st4 g.virtual_buffer in
      let st6 : GeneralParse Quality = put_bridge_buffer st5 g.bridge_buffer in
      let st7 : GeneralParse Quality = put_network_pcm_buffer st6 g.network_pcm_buffer in
      let st8 : GeneralParse Quality = put_network_vorbis_buffer st7 g.network_vorbis_buffer in
      let st9 : GeneralParse Quality = put_jitter_pcm st8 g.jitter_pcm in
      let st10 : GeneralParse Quality = put_jitter_vorbis st9 g.jitter_vorbis in
      let st11 : GeneralParse Quality = put_virtual_cables st10 g.virtual_cables in
      let st12 : GeneralParse Quality = put_virtual_name st11 g.virtual_name in
      let st13 : GeneralParse Quality = put_render_id st12 g.hw_render_id in
      let st14 : GeneralParse Quality = put_capture_id st13 g.hw_capture_id in
      let st15 : GeneralParse Quality =
        put_table st14 (two_lists st14.table false (more_of t false) (extra_of t false)) in
      let st16 : GeneralParse Quality =
        put_table st15 (two_lists st15.table true (more_of t true) (extra_of t true)) in
      let st17 : GeneralParse Quality =
        put_table st16 (with_modes st16.table false (modes_of t false)) in
      let st18 : GeneralParse Quality =
        put_table st17 (with_modes st17.table true (modes_of t true)) in
      next (codes "sampleRate") (number g.sample_rate)
        (λ rest e.
          uint-number "sampleRate" (put_sample_rate st0) g.sample_rate rest h.sample_rate_range e)
        (next (codes "bitDepth") (number g.bit_depth)
          (λ rest e.
            uint-number "bitDepth" (put_bit_depth st1) g.bit_depth rest h.bit_depth_range e)
          (next (codes "asioBuffer") (number g.asio_buffer)
            (λ rest e.
              uint-number "asioBuffer" (put_asio_buffer st2) g.asio_buffer rest h.asio_buffer_range
                e)
            (next (codes "hwBuffer") (number g.hw_buffer)
              (λ rest e.
                uint-number "hwBuffer" (put_hw_buffer st3) g.hw_buffer rest h.hw_buffer_range e)
              (next (codes "virtualBuffer") (number g.virtual_buffer)
                (λ rest e.
                  uint-number "virtualBuffer" (put_virtual_buffer st4) g.virtual_buffer rest
                    h.virtual_buffer_range e)
                (next (codes "bridgeBuffer") (write_bridge (λ i. get_or g.bridge_buffer i 0))
                  (bridge-reads t st5 h)
                  (next (codes "networkPcmBuffer") (number g.network_pcm_buffer)
                    (λ rest e.
                      uint-number "networkPcmBuffer" (put_network_pcm_buffer st6)
                        g.network_pcm_buffer rest h.network_pcm_buffer_range e)
                    (next (codes "networkVorbisBuffer") (number g.network_vorbis_buffer)
                      (λ rest e.
                        uint-number "networkVorbisBuffer" (put_network_vorbis_buffer st7)
                          g.network_vorbis_buffer rest h.network_vorbis_buffer_range e)
                      (next (codes "jitterPcm") (number g.jitter_pcm)
                        (λ rest e.
                          uint-number "jitterPcm" (put_jitter_pcm st8) g.jitter_pcm rest
                            h.jitter_pcm_range e)
                        (next (codes "jitterVorbis") (number g.jitter_vorbis)
                          (λ rest e.
                            uint-number "jitterVorbis" (put_jitter_vorbis st9) g.jitter_vorbis rest
                              h.jitter_vorbis_range e)
                          (next (codes "virtualCables") (number g.virtual_cables)
                            (λ rest e.
                              uint-number "virtualCables" (put_virtual_cables st10) g.virtual_cables
                                rest h.virtual_cables_range e)
                            (next (codes "virtualName") (write_string g.virtual_name)
                              (virtual_name-reads st11 g.virtual_name h.name_padded)
                              (next (codes "hwRenderId") (write_string g.hw_render_id)
                                (render_id-reads st12 g.hw_render_id h.render_padded)
                                (next (codes "hwCaptureId") (write_string g.hw_capture_id)
                                  (capture_id-reads st13 g.hw_capture_id h.capture_padded)
                                  (next (codes "hwRenderMore") (write_ids t false)
                                    (render_more-reads t st14 h.outputs refl)
                                    (next (codes "hwCaptureMore") (write_ids t true)
                                      (capture_more-reads t st15 h.inputs refl)
                                      (next (codes "hwRenderModes") (write_modes t false)
                                        (render_modes-reads t st16 h.outputs refl)
                                        (next (codes "hwCaptureModes") (write_modes t true)
                                          (capture_modes-reads t st17 h.inputs refl)
                                          (last (codes "cables") (write_cables t)
                                            (cables-reads t st18 h.cables refl)))))))))))))))))))

  -- The chain writes what SerializeSlots writes.
  general_chain-text :
      (h : IsSettings t) (rest : Chars)
      → chain_text general_member (general_chain h) rest
        ≡ general_to_json t.general (codes "," ++ lists_to_json t (rbrace ∷ rest))
  unfolding general_chain general_to_json lists_to_json escape_json_string escape_bytes escape_byte
  general_chain-text h rest = refl

  -- The settings that were written, read into a new table.
  pub parse_general-settings :
      (h : IsSettings t) (rest : Chars)
      → parse_general versioned false
          (lbrace ∷ general_to_json t.general (codes "," ++ lists_to_json t (rbrace ∷ rest)))
        ≡ ok full rest
  unfolding parse_general have_general expect skip_ws
  parse_general-settings h rest =
      let all = λ (r : Result (GeneralParse Quality)).
        bind r λ st. if have_general st then ok st else fail "general missing fields" in
      ap (λ s. all (object general_messages general_member (new_general versioned false) s))
        (sym (general_chain-text h rest))
      ∙ ap all
          (object-chain general_member general_messages general_member-Keeps (general_chain h) rest)
