-- ===== src/Table/Access/Laws.antt =====
-- common/WHASlotTable.h: what the accessors of the Slot Table promise each other. `Shape` says that
-- the lists are as long as the arrays.
use win_hook_audio.Prelude.{
  ℕ, zero, suc, ◌-◌, ◌<◌, ◌≡◌, inl, inr, refl, sym, ap, ◌∙◌, ◌||◌, subst, Bool, true, false, not,
  ltb→lt, ◌&&◌, List, [], ◌∷◌, ltb, leb, ◌==◌, if◌then◌else◌, get_or, set, length, arith,
  Bool-cases,
}
use win_hook_audio.Prelude.Int.{ℤ, pos, negsuc}
use win_hook_audio.Table.Data.{
  SlotTable, HwModes, CableSetting, default_cable, k_hw_devices, hw_mode_exclusive, k_hw_mode_count,
}
use win_hook_audio.Table.Access.{
  cable_place, cable_at, set_cable_at, hw_mode_of, set_mode, hw_device_mode, set_hw_device_mode,
  cable_setting, set_cable_setting,
}

get_or-set :
    {A : Type 0} (xs : List A) (i j : ℕ) (v d : A)
    → i < length xs
    → get_or (set xs i v) j d ≡ (if i == j then v else get_or xs j d)
get_or-set [] i j v d h = elim h [ ]
get_or-set (x ∷ xs) zero zero v d h = refl
get_or-set (x ∷ xs) zero (suc j) v d h = ground arith
get_or-set (x ∷ xs) (suc i) zero v d h = ground arith
get_or-set (x ∷ xs) (suc i) (suc j) v d h =
    let e : (suc i == suc j) ≡ (i == j) = ground arith in rw e (get_or-set xs i j v d (omega arith))

pub record Shape {Quality : Type 0} (t : SlotTable Quality) : Type 0 where
  pub cables_length : length t.cables ≡ 8
  pub cables_more_length : length t.cables_more ≡ 8
  pub render_length : length t.hw_modes.render ≡ 128
  pub capture_length : length t.hw_modes.capture ≡ 128

pub cable_place_lt : (c : ℤ) → cable_place c < 16
unfolding cable_place
cable_place_lt (negsuc c) = omega arith
cable_place_lt (pos c) = ground arith

-- A number that means cable 1.
abbrev pub names_first : ℤ → Bool
names_first (negsuc c) = true
names_first (pos c) = (c == 0) || not (ltb c 16)

-- Two numbers that mean one cable.
abbrev pub same_cable : ℤ → ℤ → Bool
same_cable (pos c) (pos d) = (c == d) || (names_first (pos c) && names_first (pos d))
same_cable (pos c) (negsuc d) = names_first (pos c)
same_cable (negsuc c) d = names_first d

cable_place-same_cable : (c d : ℤ) → (cable_place c == cable_place d) ≡ same_cable c d
unfolding cable_place
cable_place-same_cable (pos c) (pos d) = ground arith
cable_place-same_cable (pos c) (negsuc d) = ground arith
cable_place-same_cable (negsuc c) (pos d) = ground arith
cable_place-same_cable (negsuc c) (negsuc d) = refl

module _ {Quality : Type 0} (t : SlotTable Quality) (shape : Shape t) where
  -- Within the arrays, an assignment changes its own place and no other.
  cable_at-set_cable_at :
      (p q : ℕ) (v : CableSetting)
      → p < 16
      → q < 16
      → cable_at (set_cable_at t p v) q ≡ (if p == q then v else cable_at t q)
  unfolding cable_at set_cable_at
  cable_at-set_cable_at p q v hp hq =
      let here = get_or-set t.cables p q v default_cable in
      let there = get_or-set t.cables_more (p - 8) (q - 8) v default_cable in
      let n = shape.cables_length in
      let m = shape.cables_more_length in
      elim (Bool-cases (ltb p 8)) [
        | inl a ↦ elim (Bool-cases (ltb q 8)) [
          | inl b ↦ rw (a, b) (here (subst (λ k. p < k) (sym n) (ltb→lt p 8 a)))
          | inr b ↦ let e : (p == q) ≡ false = ground arith in rw (a, b, e) refl
        ]
        | inr a ↦ elim (Bool-cases (ltb q 8)) [
          | inl b ↦ let e : (p == q) ≡ false = ground arith in rw (a, b, e) refl
          | inr b ↦
              let e : (p == q) ≡ (p - 8 == q - 8) = ground arith in
              rw (a, b, e) (there (subst (λ k. p - 8 < k) (sym m) (omega arith)))
        ]
      ]

  -- A setting written through CableSetting for a cable is read back for that cable, every number
  -- outside 0 to 15 naming cable 1 (number 0), and every other cable keeps its own.
  pub cable_setting-set_cable_setting :
      (c d : ℤ) (v : CableSetting)
      → cable_setting (set_cable_setting t c v) d
        ≡ (if same_cable c d then v else cable_setting t d)
  unfolding cable_setting set_cable_setting
  cable_setting-set_cable_setting c d v =
      cable_at-set_cable_at (cable_place c) (cable_place d) v (cable_place_lt c) (cable_place_lt d)
      ∙ ap (λ (b : Bool). if b then v else cable_at t (cable_place d)) (cable_place-same_cable c d)

-- Out of range, which is no device, and a byte that names no mode count as Exclusive.
unfoldable pub clip_mode : ℕ → ℕ
clip_mode mode = if ltb mode k_hw_mode_count then mode else hw_mode_exclusive

abbrev pub same_direction : Bool → Bool → Bool
same_direction true b = b
same_direction false b = not b

hw_mode_of-set_mode :
    (m : HwModes) (i j : Bool) (d e mode : ℕ)
    → length m.render ≡ 128
    → length m.capture ≡ 128
    → hw_mode_of (set_mode m i (pos d) mode) j (pos e) ≡ (
        if same_direction i j && ltb d k_hw_devices && (d == e)
        then clip_mode mode
        else hw_mode_of m j (pos e))
unfolding hw_mode_of set_mode clip_mode
hw_mode_of-set_mode m true true d e mode hr hc = elim (Bool-cases (leb k_hw_devices d)) [
  | inl h ↦ let k : ltb d k_hw_devices ≡ false = ground arith in rw (h, k) refl
  | inr h ↦
      let k : ltb d k_hw_devices ≡ true = ground arith in
      let in_range = subst (λ n. d < n) (sym hc) (ltb→lt d 128 k) in
      rw (h, k, get_or-set m.capture d e mode 0 in_range)
        (elim (Bool-cases (d == e)) [
          | inl same ↦ let q : leb k_hw_devices e ≡ false = ground arith in rw (same, q) refl
          | inr other ↦ rw other refl
        ])
]
hw_mode_of-set_mode m true false d e mode hr hc = elim (Bool-cases (leb k_hw_devices d)) [
  | inl h ↦ rw h refl
  | inr h ↦ rw h refl
]
hw_mode_of-set_mode m false true d e mode hr hc = elim (Bool-cases (leb k_hw_devices d)) [
  | inl h ↦ rw h refl
  | inr h ↦ rw h refl
]
hw_mode_of-set_mode m false false d e mode hr hc = elim (Bool-cases (leb k_hw_devices d)) [
  | inl h ↦ let k : ltb d k_hw_devices ≡ false = ground arith in rw (h, k) refl
  | inr h ↦
      let k : ltb d k_hw_devices ≡ true = ground arith in
      let in_range = subst (λ n. d < n) (sym hr) (ltb→lt d 128 k) in
      rw (h, k, get_or-set m.render d e mode 0 in_range)
        (elim (Bool-cases (d == e)) [
          | inl same ↦ let q : leb k_hw_devices e ≡ false = ground arith in rw (same, q) refl
          | inr other ↦ rw other refl
        ])
]

-- A mode set for a device is read back, as Exclusive when it names no mode, for that direction and
-- device alone; setting one out of range changes nothing.
pub hw_device_mode-set_hw_device_mode :
    {Quality : Type 0} (t : SlotTable Quality) (i j : Bool) (d e mode : ℕ)
    → Shape t
    → hw_device_mode (set_hw_device_mode t i (pos d) mode) j (pos e) ≡ (
        if same_direction i j && ltb d k_hw_devices && (d == e)
        then clip_mode mode
        else hw_device_mode t j (pos e))
unfolding hw_device_mode set_hw_device_mode
hw_device_mode-set_hw_device_mode t i j d e mode shape =
    hw_mode_of-set_mode t.hw_modes i j d e mode shape.render_length shape.capture_length
