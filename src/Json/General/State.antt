-- ===== src/Json/General/State.antt =====
-- common/WHASlotsJson.h (DeserializeSlots): what is kept while "general" is read, and the assignments of
-- its members.
use win_hook_audio.Prelude.{ℕ, Bool, true, false, List}
use win_hook_audio.Table.Text.{Chars}
use win_hook_audio.Table.Data.{General, SlotTable}

-- The table that is filled, with the local variables.
pub record GeneralParse (Quality : Type 0) : Type 0 where
  pub table : SlotTable Quality
  pub have_sr : Bool
  pub have_bd : Bool
  pub have_ab : Bool
  pub have_hw : Bool
  pub have_vb : Bool
  pub have_bb : Bool
  pub have_pcm : Bool
  pub have_vorbis : Bool
  pub have_jp : Bool
  pub have_jv : Bool
  pub have_vc : Bool
  pub have_vn : Bool
  pub have_cables : Bool

module _ {Quality : Type 0} where
  abbrev pub put_general : GeneralParse Quality → General → GeneralParse Quality
  put_general st g = record st { table = record (st.table) { general = g } }

  abbrev pub new_general : SlotTable Quality → Bool → GeneralParse Quality
  new_general t have_cables = record {
    table = t;
    have_sr = false;
    have_bd = false;
    have_ab = false;
    have_hw = false;
    have_vb = false;
    have_bb = false;
    have_pcm = false;
    have_vorbis = false;
    have_jp = false;
    have_jv = false;
    have_vc = false;
    have_vn = false;
    have_cables = have_cables;
  }

  -- The assignments of the members that must be there.
  abbrev pub put_sample_rate : GeneralParse Quality → ℕ → GeneralParse Quality
  put_sample_rate st v = record (put_general st (record (st.table.general) { sample_rate = v })) {
    have_sr = true;
  }

  abbrev pub put_bit_depth : GeneralParse Quality → ℕ → GeneralParse Quality
  put_bit_depth st v = record (put_general st (record (st.table.general) { bit_depth = v })) {
    have_bd = true;
  }

  abbrev pub put_asio_buffer : GeneralParse Quality → ℕ → GeneralParse Quality
  put_asio_buffer st v = record (put_general st (record (st.table.general) { asio_buffer = v })) {
    have_ab = true;
  }

  abbrev pub put_hw_buffer : GeneralParse Quality → ℕ → GeneralParse Quality
  put_hw_buffer st v = record (put_general st (record (st.table.general) { hw_buffer = v })) {
    have_hw = true;
  }

  abbrev pub put_virtual_buffer : GeneralParse Quality → ℕ → GeneralParse Quality
  put_virtual_buffer st v =
      record (put_general st (record (st.table.general) { virtual_buffer = v })) { have_vb = true }

  abbrev pub put_network_pcm_buffer : GeneralParse Quality → ℕ → GeneralParse Quality
  put_network_pcm_buffer st v =
      record (put_general st (record (st.table.general) { network_pcm_buffer = v })) {
        have_pcm = true;
      }

  abbrev pub put_network_vorbis_buffer : GeneralParse Quality → ℕ → GeneralParse Quality
  put_network_vorbis_buffer st v =
      record (put_general st (record (st.table.general) { network_vorbis_buffer = v })) {
        have_vorbis = true;
      }

  abbrev pub put_jitter_pcm : GeneralParse Quality → ℕ → GeneralParse Quality
  put_jitter_pcm st v = record (put_general st (record (st.table.general) { jitter_pcm = v })) {
    have_jp = true;
  }

  abbrev pub put_jitter_vorbis : GeneralParse Quality → ℕ → GeneralParse Quality
  put_jitter_vorbis st v =
      record (put_general st (record (st.table.general) { jitter_vorbis = v })) { have_jv = true }

  abbrev pub put_virtual_cables : GeneralParse Quality → ℕ → GeneralParse Quality
  put_virtual_cables st v =
      record (put_general st (record (st.table.general) { virtual_cables = v })) { have_vc = true }

  abbrev pub put_bridge_buffer : GeneralParse Quality → List ℕ → GeneralParse Quality
  put_bridge_buffer st vs =
      record (put_general st (record (st.table.general) { bridge_buffer = vs })) { have_bb = true }

  abbrev pub put_virtual_name : GeneralParse Quality → Chars → GeneralParse Quality
  put_virtual_name st place =
      record (put_general st (record (st.table.general) { virtual_name = place })) {
        have_vn = true;
      }

  abbrev pub put_render_id : GeneralParse Quality → Chars → GeneralParse Quality
  put_render_id st place = put_general st (record (st.table.general) { hw_render_id = place })

  abbrev pub put_capture_id : GeneralParse Quality → Chars → GeneralParse Quality
  put_capture_id st place = put_general st (record (st.table.general) { hw_capture_id = place })

  abbrev pub put_table : GeneralParse Quality → SlotTable Quality → GeneralParse Quality
  put_table st t = record st { table = t }

  abbrev pub put_cables : GeneralParse Quality → SlotTable Quality → GeneralParse Quality
  put_cables st t = record st { table = t; have_cables = true }
