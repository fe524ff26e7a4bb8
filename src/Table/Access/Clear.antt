-- ===== src/Table/Access/Clear.antt =====
-- common/WHASlotTable.h: what `ClearHwMoreDevices` leaves in the device lists.
use win_hook_audio.Prelude.{
  ℕ, zero, suc, ◌-◌, ◌<◌, ◌≡◌, refl, sym, ap, ◌∙◌, inl, inr, Bool, true, false, not, ◌||◌, none,
  some, [], leb, ◌==◌, if◌then◌else◌, get_or, replicate, arith, Bool-cases, ==_iff, subst,
}
use win_hook_audio.Prelude.Int.{pos}
use win_hook_audio.Table.Text.{Chars}
use win_hook_audio.Table.Data.{SlotTable, blank_ids, blank_chars, hw_mode_exclusive}
use win_hook_audio.Table.Access.{
  hw_mode_of, hw_device_mode, hw_device_id, hw_device_listed, clear_hw_more_devices,
}

-- Reading anywhere in a list of blank IDs, or past it, gives an ID that starts with a 0.
blank_first : (n k : ℕ) → get_or (get_or (replicate n (blank_chars 64)) k []) 0 0 ≡ 0
unfolding blank_chars
blank_first zero k = refl
blank_first (suc n) zero = refl
blank_first (suc n) (suc k) = blank_first n k

zeros : (n k : ℕ) → get_or (replicate n hw_mode_exclusive) k 0 ≡ 0
zeros zero k = refl
zeros (suc n) zero = refl
zeros (suc n) (suc k) = zeros n k

module _ {Quality : Type 0} (t : SlotTable Quality) where
  cleared_id :
      (i : Bool) (d : ℕ)
      → d < 128
      → (d == 0) ≡ false
      → (id : Chars) × (hw_device_id (clear_hw_more_devices t) i (pos d) ≡ some id)
        × (get_or id 0 0 ≡ 0)
  unfolding hw_device_id clear_hw_more_devices blank_ids
  cleared_id i d h e =
      let near : leb 128 d ≡ false = ground arith in
      elim (Bool-cases (leb d 3)) [
        | inl f ↦ elim (Bool-cases i) [
          | inl g ↦
              rw (e, near, f, g)
                (get_or (replicate 3 (blank_chars 64)) (d - 1) [], refl, blank_first 3 (d - 1))
          | inr g ↦
              rw (e, near, f, g)
                (get_or (replicate 3 (blank_chars 64)) (d - 1) [], refl, blank_first 3 (d - 1))
        ]
        | inr f ↦ elim (Bool-cases i) [
          | inl g ↦
              rw (e, near, f, g)
                (
                  get_or (replicate 124 (blank_chars 64)) (d - 1 - 3) [],
                  refl,
                  blank_first 124 (d - 1 - 3),
                )
          | inr g ↦
              rw (e, near, f, g)
                (
                  get_or (replicate 124 (blank_chars 64)) (d - 1 - 3) [],
                  refl,
                  blank_first 124 (d - 1 - 3),
                )
        ]
      ]

  first_listed : (i : Bool) → hw_device_listed (clear_hw_more_devices t) i (pos 0) ≡ true
  unfolding hw_device_listed hw_device_id
  first_listed i = refl

  cleared_listed :
      (i : Bool) (d : ℕ) → d < 128 → hw_device_listed (clear_hw_more_devices t) i (pos d) ≡ (d == 0)
  unfolding hw_device_listed
  cleared_listed i d h = elim (Bool-cases (d == 0)) [
    | inl e ↦
        subst (λ k. hw_device_listed (clear_hw_more_devices t) i (pos k) ≡ (k == 0))
          (sym ((==_iff d 0).0 e)) (first_listed i)
    | inr e ↦
        let (id, found, empty) = cleared_id i d h e in
        ap (λ o. elim o [ none ↦ false | some x ↦ (d == 0) || not (get_or x 0 0 == 0) ]) found
        ∙ rw (e, empty) refl
  ]

  cleared_mode :
      (i : Bool) (d : ℕ)
      → hw_device_mode (clear_hw_more_devices t) i (pos d)
        ≡ (if d == 0 then hw_device_mode t i (pos 0) else 0)
  unfolding hw_device_mode hw_mode_of clear_hw_more_devices
  cleared_mode true zero = refl
  cleared_mode false zero = refl
  cleared_mode true (suc d) =
      let e : (suc d == 0) ≡ false = ground arith in
      rw (e, zeros 127 d)
        (elim (Bool-cases (leb 128 (suc d))) [ inl f ↦ rw f refl | inr f ↦ rw f refl ])
  cleared_mode false (suc d) =
      let e : (suc d == 0) ≡ false = ground arith in
      rw (e, zeros 127 d)
        (elim (Bool-cases (leb 128 (suc d))) [ inl f ↦ rw f refl | inr f ↦ rw f refl ])

  -- After ClearHwMoreDevices the lists of both directions hold device 0 alone, with its ID and mode,
  -- and every other device is Exclusive.
  pub clear_hw_more_devices_lem :
      (i : Bool) (d : ℕ)
      → d < 128
      → let t' = clear_hw_more_devices t in
        (hw_device_listed t' i (pos d) ≡ (d == 0))
        × (hw_device_mode t' i (pos d) ≡ (if d == 0 then hw_device_mode t i (pos 0) else 0))
        × (hw_device_id t' i (pos 0) ≡ hw_device_id t i (pos 0))
  unfolding clear_hw_more_devices hw_device_id
  clear_hw_more_devices_lem i d h = (cleared_listed i d h, cleared_mode i d, refl)
