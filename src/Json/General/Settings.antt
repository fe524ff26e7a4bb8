-- ===== src/Json/General/Settings.antt =====
-- common/WHASlotsJson.h: the settings of a Slot Table as the program keeps them, and each array of them read
-- as a member of "general".
use win_hook_audio.Prelude.{ℕ, ◌^◌, ◌<◌, ◌≡◌, sym, ap, ◌∙◌, true, false, get_or, length, replicate}
use win_hook_audio.Table.Text.{codes}
use win_hook_audio.Table.Data.{SlotTable, default_cable, blank_chars}
use win_hook_audio.Json.{eq_text}
use win_hook_audio.Json.Arrays.{from, from-get_or}
use win_hook_audio.Json.Objects.{ok, bind}
use win_hook_audio.Json.Objects.Chains.{ReadsTo}
use win_hook_audio.Json.General.{
  general_member, number_member, string_member, list_member, device_array, mode_array, cable_array,
}
use win_hook_audio.Json.General.State.{GeneralParse, put_table, put_cables, put_bridge_buffer}
use win_hook_audio.Json.General.Values.{IsPadded, bridge_buffer-reads, write_bridge}
use win_hook_audio.Json.General.Places.{with_modes, two_lists, with_ids, with_cables}
use win_hook_audio.Json.General.Members.{IsDirection, modes_of, more_of, extra_of}
use win_hook_audio.Json.General.RoundTrip.{
  IsCables, write_ids, write_modes, write_cables, device_array-ids, mode_array-modes,
  cable_array-cables,
}

module _ {Quality : Type 0} (t : SlotTable Quality) where
  -- The settings of a table as the program keeps them.
  pub record IsSettings : Type 0 where
    pub sample_rate_range : t.general.sample_rate < 2 ^ 32
    pub bit_depth_range : t.general.bit_depth < 2 ^ 32
    pub asio_buffer_range : t.general.asio_buffer < 2 ^ 32
    pub hw_buffer_range : t.general.hw_buffer < 2 ^ 32
    pub virtual_buffer_range : t.general.virtual_buffer < 2 ^ 32
    pub network_pcm_buffer_range : t.general.network_pcm_buffer < 2 ^ 32
    pub network_vorbis_buffer_range : t.general.network_vorbis_buffer < 2 ^ 32
    pub jitter_pcm_range : t.general.jitter_pcm < 2 ^ 32
    pub jitter_vorbis_range : t.general.jitter_vorbis < 2 ^ 32
    pub virtual_cables_range : t.general.virtual_cables < 2 ^ 32
    pub bridge_length : length t.general.bridge_buffer ≡ 4
    pub bridge_range : (i : ℕ) → get_or t.general.bridge_buffer i 0 < 2 ^ 32
    pub name_padded : IsPadded 32 t.general.virtual_name
    pub render_padded : IsPadded 64 t.general.hw_render_id
    pub capture_padded : IsPadded 64 t.general.hw_capture_id
    pub outputs : IsDirection t false
    pub inputs : IsDirection t true
    pub cables : IsCables t

  pub bridge-reads :
      (st : GeneralParse Quality)
      → IsSettings
      → ReadsTo general_member
          (codes "bridgeBuffer")
          (write_bridge (λ i. get_or t.general.bridge_buffer i 0))
          st
          (put_bridge_buffer st t.general.bridge_buffer)
  bridge-reads st h rest e =
      bridge_buffer-reads st (λ i. get_or t.general.bridge_buffer i 0) h.bridge_range rest e
      ∙ ap (λ vs. ok (put_bridge_buffer st vs) rest)
          (ap (λ n. from (λ i. get_or t.general.bridge_buffer i 0) n 0) (sym h.bridge_length)
            ∙ from-get_or t.general.bridge_buffer 0)

  pub render_more-reads :
      (st : GeneralParse Quality)
      → IsDirection t false
      → with_ids st.table false (replicate 127 (blank_chars 64)) ≡ st.table
      → ReadsTo general_member
          (codes "hwRenderMore")
          (write_ids t false)
          st
          (put_table st (two_lists st.table false (more_of t false) (extra_of t false)))
  unfolding general_member number_member string_member list_member eq_text
  render_more-reads st h new rest e =
      ap (λ u. bind (device_array false u (write_ids t false rest)) λ v. ok (put_table st v))
        (sym new)
      ∙ ap (λ r. bind r λ v. ok (put_table st v)) (device_array-ids t false h st.table rest)

  pub capture_more-reads :
      (st : GeneralParse Quality)
      → IsDirection t true
      → with_ids st.table true (replicate 127 (blank_chars 64)) ≡ st.table
      → ReadsTo general_member
          (codes "hwCaptureMore")
          (write_ids t true)
          st
          (put_table st (two_lists st.table true (more_of t true) (extra_of t true)))
  unfolding general_member number_member string_member list_member eq_text
  capture_more-reads st h new rest e =
      ap (λ u. bind (device_array true u (write_ids t true rest)) λ v. ok (put_table st v))
        (sym new)
      ∙ ap (λ r. bind r λ v. ok (put_table st v)) (device_array-ids t true h st.table rest)

  pub render_modes-reads :
      (st : GeneralParse Quality)
      → IsDirection t false
      → with_modes st.table false (replicate 128 0) ≡ st.table
      → ReadsTo general_member
          (codes "hwRenderModes")
          (write_modes t false)
          st
          (put_table st (with_modes st.table false (modes_of t false)))
  unfolding general_member number_member string_member list_member eq_text
  render_modes-reads st h new rest e =
      ap (λ u. bind (mode_array false u (write_modes t false rest)) λ v. ok (put_table st v))
        (sym new)
      ∙ ap (λ r. bind r λ v. ok (put_table st v)) (mode_array-modes t false h st.table rest)

  pub capture_modes-reads :
      (st : GeneralParse Quality)
      → IsDirection t true
      → with_modes st.table true (replicate 128 0) ≡ st.table
      → ReadsTo general_member
          (codes "hwCaptureModes")
          (write_modes t true)
          st
          (put_table st (with_modes st.table true (modes_of t true)))
  unfolding general_member number_member string_member list_member eq_text
  capture_modes-reads st h new rest e =
      ap (λ u. bind (mode_array true u (write_modes t true rest)) λ v. ok (put_table st v))
        (sym new)
      ∙ ap (λ r. bind r λ v. ok (put_table st v)) (mode_array-modes t true h st.table rest)

  pub cables-reads :
      (st : GeneralParse Quality)
      → IsCables t
      → with_cables st.table (replicate 16 default_cable) ≡ st.table
      → ReadsTo general_member
          (codes "cables")
          (write_cables t)
          st
          (put_cables st (record (st.table) { cables = t.cables; cables_more = t.cables_more }))
  unfolding general_member number_member string_member list_member eq_text
  cables-reads st h new rest e =
      ap (λ u. bind (cable_array u (write_cables t rest)) λ v. ok (put_cables st v)) (sym new)
      ∙ ap (λ r. bind r λ v. ok (put_cables st v)) (cable_array-cables t h st.table rest)
