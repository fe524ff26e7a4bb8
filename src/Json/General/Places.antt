-- ===== src/Json/General/Places.antt =====
-- common/WHASlotTable.h: the lists that the Slot Table keeps in two structs each, as one list.
use win_hook_audio.Prelude.{
  ℕ, zero, suc, ◌+◌, ◌-◌, ◌≤◌, ◌<◌, ◌≡◌, refl, sym, ap, ap₂, ◌∙◌, inl, inr, Bool, true, false, List,
  ◌==◌, leb, ltb, leb→le, ltb→lt, ltb_false→le, take, drop, get_or, get_or-set_self, get_or-drop,
  set, length, length-set, arith, Bool-cases,
}
use win_hook_audio.Prelude.Int.{pos}
use win_hook_audio.Table.Text.{Chars}
use win_hook_audio.Table.Data.{SlotTable, CableSetting, default_cable}
use win_hook_audio.Table.Access.{
  cable_setting, set_cable_setting, cable_at, set_cable_at, cable_place,
}
use win_hook_audio.Json.Arrays.{set_from, take-set_below, take-set_above, get_or-take, set-set}
use win_hook_audio.Json.General.Lists.{set_hw_device_id, put_mode}
use win_hook_audio.Json.General.Loops.{put_from}
use win_hook_audio.Json.General.Cables.{put_cable, with_channels, with_format}

leb_false→ge : (i : ℕ) → leb (suc i) 3 ≡ false → 3 ≤ i
leb_false→ge i h = ground arith

module _ {Quality : Type 0} where
  -- The table with these modes, IDs of devices 1 and up, or cables.
  abbrev pub with_modes : SlotTable Quality → Bool → List ℕ → SlotTable Quality
  with_modes t true ms = record t { hw_modes = record (t.hw_modes) { capture = ms } }
  with_modes t false ms = record t { hw_modes = record (t.hw_modes) { render = ms } }

  abbrev pub two_lists : SlotTable Quality → Bool → List Chars → List Chars → SlotTable Quality
  two_lists t true more extra = record t {
    hw_more = record (t.hw_more) { capture_id = more };
    hw_extra = record (t.hw_extra) { capture_id = extra };
  }
  two_lists t false more extra = record t {
    hw_more = record (t.hw_more) { render_id = more };
    hw_extra = record (t.hw_extra) { render_id = extra };
  }

  abbrev pub with_ids : SlotTable Quality → Bool → List Chars → SlotTable Quality
  with_ids t b ids = two_lists t b (take 3 ids) (drop 3 ids)

  abbrev pub with_cables : SlotTable Quality → List CableSetting → SlotTable Quality
  with_cables t cs = record t { cables = take 8 cs; cables_more = drop 8 cs }

  pub put_modes :
      (b : Bool) (f : ℕ → ℕ) (n i : ℕ) (t : SlotTable Quality) (ms : List ℕ)
      → put_from (λ d u. put_mode u b d (f d)) n i (with_modes t b ms)
        ≡ with_modes t b (set_from ms f n i)
  unfolding put_mode
  put_modes b f zero i t ms = refl
  put_modes true f (suc n) i t ms = put_modes true f n (suc i) t (set ms i (f i))
  put_modes false f (suc n) i t ms = put_modes false f n (suc i) t (set ms i (f i))

  put_id :
      (b : Bool) (i : ℕ) (id : Chars) (t : SlotTable Quality) (ids : List Chars)
      → set_hw_device_id (with_ids t b ids) b (suc i) id ≡ with_ids t b (set ids i id)
  unfolding set_hw_device_id
  put_id true i id t ids =
      let nonzero : (suc i == 0) ≡ false = ground arith in
      elim (Bool-cases (leb (suc i) 3)) [
        | inl e ↦
            let place : suc i - 1 ≡ i = omega arith in
            let le = leb→le (suc i) 3 e in
            let both = take-set_below 3 ids i id (omega arith) in
            rw (nonzero, e)
              (ap (λ k. two_lists t true (set (take 3 ids) k id) (drop 3 ids)) place
                ∙ ap₂ (two_lists t true) (sym (both.0)) (sym (both.1)))
        | inr e ↦
            let later = leb_false→ge i e in
            let place : 3 + (suc i - 1 - 3) ≡ i = omega arith in
            let both = take-set_above 3 ids (suc i - 1 - 3) id in
            rw (nonzero, e)
              (ap₂ (two_lists t true) (sym (both.0)) (sym (both.1))
                ∙ ap (λ k. with_ids t true (set ids k id)) place)
      ]
  put_id false i id t ids =
      let nonzero : (suc i == 0) ≡ false = ground arith in
      elim (Bool-cases (leb (suc i) 3)) [
        | inl e ↦
            let place : suc i - 1 ≡ i = omega arith in
            let le = leb→le (suc i) 3 e in
            let both = take-set_below 3 ids i id (omega arith) in
            rw (nonzero, e)
              (ap (λ k. two_lists t false (set (take 3 ids) k id) (drop 3 ids)) place
                ∙ ap₂ (two_lists t false) (sym (both.0)) (sym (both.1)))
        | inr e ↦
            let later = leb_false→ge i e in
            let place : 3 + (suc i - 1 - 3) ≡ i = omega arith in
            let both = take-set_above 3 ids (suc i - 1 - 3) id in
            rw (nonzero, e)
              (ap₂ (two_lists t false) (sym (both.0)) (sym (both.1))
                ∙ ap (λ k. with_ids t false (set ids k id)) place)
      ]

  pub put_ids :
      (b : Bool) (f : ℕ → Chars) (n i : ℕ) (t : SlotTable Quality) (ids : List Chars)
      → put_from (λ d u. set_hw_device_id u b d (f d)) n (suc i) (with_ids t b ids)
        ≡ with_ids t b (set_from ids (λ j. f (suc j)) n i)
  put_ids b f zero i t ids = refl
  put_ids b f (suc n) i t ids =
      ap (λ u. put_from (λ d v. set_hw_device_id v b d (f d)) n (suc (suc i)) u)
        (put_id b i (f (suc i)) t ids)
      ∙ put_ids b f n (suc i) t (set ids i (f (suc i)))

  set_cable :
      (c : ℕ) (v : CableSetting) (t : SlotTable Quality) (cs : List CableSetting)
      → c < 16
      → set_cable_setting (with_cables t cs) (pos c) v ≡ with_cables t (set cs c v)
  unfolding set_cable_setting set_cable_at cable_place
  set_cable c v t cs h =
      let inside : leb 16 c ≡ false = ground arith in
      elim (Bool-cases (ltb c 8)) [
        | inl e ↦
            let both = take-set_below 8 cs c v (ltb→lt c 8 e) in
            rw (inside, e)
              (ap₂ (λ x y. record t { cables = x; cables_more = y }) (sym (both.0)) (sym (both.1)))
        | inr e ↦
            let le = ltb_false→le c 8 e in
            let place : 8 + (c - 8) ≡ c = omega arith in
            let both = take-set_above 8 cs (c - 8) v in
            rw (inside, e)
              (ap₂ (λ x y. record t { cables = x; cables_more = y }) (sym (both.0)) (sym (both.1))
                ∙ ap (λ k. with_cables t (set cs k v)) place)
      ]

  pub get_cable :
      (c : ℕ) (t : SlotTable Quality) (cs : List CableSetting)
      → c < 16
      → cable_setting (with_cables t cs) (pos c) ≡ get_or cs c default_cable
  unfolding cable_setting cable_at cable_place
  get_cable c t cs h =
      let inside : leb 16 c ≡ false = ground arith in
      elim (Bool-cases (ltb c 8)) [
        | inl e ↦ rw (inside, e) (get_or-take 8 cs c default_cable (ltb→lt c 8 e))
        | inr e ↦
            let le = ltb_false→le c 8 e in
            let place : 8 + (c - 8) ≡ c = omega arith in
            rw (inside, e)
              (get_or-drop 8 cs (c - 8) default_cable ∙ ap (λ k. get_or cs k default_cable) place)
      ]

  put_one_cable :
      (v : CableSetting) (c : ℕ) (t : SlotTable Quality) (cs : List CableSetting)
      → c < length cs
      → c < 16
      → put_cable v c (with_cables t cs) ≡ with_cables t (set cs c v)
  put_one_cable v c t cs l h =
      let old : CableSetting = get_or cs c default_cable in
      let half : CableSetting = record old { channels = v.channels } in
      let now : with_channels (with_cables t cs) c v.channels ≡ with_cables t (set cs c half) =
        ap
          (λ (o : CableSetting).
            set_cable_setting (with_cables t cs) (pos c) (record o { channels = v.channels }))
          (get_cable c t cs h)
        ∙ set_cable c half t cs h in
      ap (λ u. with_format u c v.format) now
      ∙ ap
          (λ (o : CableSetting).
            set_cable_setting (with_cables t (set cs c half)) (pos c)
              (record o { format = v.format }))
          (get_cable c t (set cs c half) h ∙ get_or-set_self cs c half default_cable l)
      ∙ set_cable c v t (set cs c half) h
      ∙ ap (with_cables t) (set-set cs c half v)

  pub put_cables_from :
      (f : ℕ → CableSetting) (n i : ℕ) (t : SlotTable Quality) (cs : List CableSetting)
      → i + n ≤ length cs
      → length cs ≤ 16
      → put_from (λ c. put_cable (f c) c) n i (with_cables t cs) ≡ with_cables t (set_from cs f n i)
  put_cables_from f zero i t cs h l = refl
  put_cables_from f (suc n) i t cs h l =
      let same = length-set cs i (f i) in
      ap (λ u. put_from (λ c. put_cable (f c) c) n (suc i) u)
        (put_one_cable (f i) i t cs (omega arith) (omega arith))
      ∙ put_cables_from f n (suc i) t (set cs i (f i)) (omega arith) (omega arith)
