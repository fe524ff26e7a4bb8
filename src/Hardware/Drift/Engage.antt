-- ===== src/Hardware/Drift/Engage.antt =====
-- common/WHADriftControl.h: the controller over sequences of calls.
use win_hook_audio.Prelude.{
  ◌≡◌, ◌⊎◌, inl, inr, refl, ap, ◌∙◌, true, false, if◌then◌else◌, List, [], ◌∷◌, Bool-cases, if_both,
}
use win_hook_audio.Hardware.Floats.{
  Floats, ◌⊕◌, ◌⊖◌, ◌⊗◌, ◌⊘◌, ◌≺◌, num, neg, abs_float, clamp_float,
}
use win_hook_audio.Hardware.Drift.{
  DriftParams, DriftControl, reset, retarget, set_gains, smooth, correct, advance, update,
}

-- A call of the controller.
pub data Call (R : Type 0) : Type 0 where
  observe : R → R → Call R
  new_target : R → R → Call R
  new_gains : R → R → Call R

module _ {R : Type 0} ⦃F : Floats R⦄ where
  unfoldable pub step : DriftControl R → Call R → DriftControl R
  unfolding update retarget set_gains
  step d (observe fill dt) = update d fill dt
  step d (new_target setpoint deadband) = retarget d setpoint deadband
  step d (new_gains kp ki) = set_gains d kp ki

  unfoldable pub run : DriftControl R → List (Call R) → DriftControl R
  unfolding step
  run d [] = d
  run d (c ∷ cs) = run (step d c) cs

  -- The ratio is 1, or 1 and a correction that the clamp allows.
  pub record IsClamped (max_ppm : R) (d : DriftControl R) : Type 0 where
    pub limit : d.p.max_ppm ≡ max_ppm
    pub ratio :
        (d.ratio ≡ num 1)
        ⊎ ((c : R) × (d.ratio ≡ num 1 ⊕ c)
            × (c ≺ neg (max_ppm ⊗ F.literal 1 1000000) ≡ false)
            × (max_ppm ⊗ F.literal 1 1000000 ≺ c ≡ false))

  clamp_float_bounds :
      (a lo hi : R)
      → lo ≺ lo ≡ false
      → hi ≺ hi ≡ false
      → hi ≺ lo ≡ false
      → (clamp_float a lo hi ≺ lo ≡ false) × (hi ≺ clamp_float a lo hi ≡ false)
  clamp_float_bounds a lo hi ll hh hl = elim (Bool-cases (a ≺ lo)) [
    | inl e ↦ rw e (ll, hl)
    | inr e ↦ elim (Bool-cases (hi ≺ a)) [ inl f ↦ rw (e, f) (hl, hh) | inr f ↦ rw (e, f) (e, f) ]
  ]

  -- The order of the clamp's two ends.
  pub record Ends (max_ppm : R) : Type 0 where
    pub low : neg (max_ppm ⊗ F.literal 1 1000000) ≺ neg (max_ppm ⊗ F.literal 1 1000000) ≡ false
    pub high : max_ppm ⊗ F.literal 1 1000000 ≺ max_ppm ⊗ F.literal 1 1000000 ≡ false
    pub apart : max_ppm ⊗ F.literal 1 1000000 ≺ neg (max_ppm ⊗ F.literal 1 1000000) ≡ false

  correct-IsClamped :
      (d : DriftControl R) (m err dt : R)
      → Ends m
      → d.p.max_ppm ≡ m
      → IsClamped m (correct d err dt)
  unfolding correct
  correct-IsClamped d m err dt ends e =
      let top = λ (k : R). k ⊗ F.literal 1 1000000 in
      let raw = neg (d.p.kp ⊗ err ⊕ d.p.ki ⊗ (d.integ ⊕ err ⊗ dt)) ⊘ d.rate in
      record {
        limit = e;
        ratio =
            let (lo, hi) =
              clamp_float_bounds raw (neg (top m)) (top m) ends.low ends.high ends.apart in
            inr (
              clamp_float raw (neg (top m)) (top m),
              ap (λ k. num 1 ⊕ clamp_float raw (neg (top k)) (top k)) e,
              lo,
              hi,
            );
      }

  update-IsClamped :
      (d : DriftControl R) (m fill dt : R) → Ends m → IsClamped m d → IsClamped m (update d fill dt)
  unfolding update smooth advance
  update-IsClamped d m fill dt ends v =
      let s = smooth d fill dt in
      let err = s.ema2 ⊖ s.setpoint in
      let outside = if abs_float err ≺ s.p.deadband then num 0 else s.outside_sec ⊕ dt in
      let waiting = record s { outside_sec = outside } in
      if_both (IsClamped m) s.engaged (correct-IsClamped s m err dt ends v.limit) (
        if_both (IsClamped m) (outside ≺ s.p.engage_sec)
          (record { limit = v.limit; ratio = v.ratio })
          (correct-IsClamped (record waiting { engaged = true }) m err dt ends v.limit))

  -- From a state whose ratio is 1 within the clamp, any observations, new targets and new gains leave
  -- the ratio within it.
  pub run-IsClamped :
      (d : DriftControl R) (m : R) (cs : List (Call R))
      → Ends m
      → IsClamped m d
      → IsClamped m (run d cs)
  unfolding run step retarget set_gains
  run-IsClamped d m [] ends v = v
  run-IsClamped d m (observe fill dt ∷ cs) ends v =
      run-IsClamped (update d fill dt) m cs ends (update-IsClamped d m fill dt ends v)
  run-IsClamped d m (new_target s b ∷ cs) ends v =
      run-IsClamped (retarget d s b) m cs ends (record { limit = v.limit; ratio = v.ratio })
  run-IsClamped d m (new_gains kp ki ∷ cs) ends v =
      run-IsClamped (set_gains d kp ki) m cs ends (record { limit = v.limit; ratio = v.ratio })

  -- The weight of an observation in the smoothing, `dt` after the last.
  abbrev pub weight : DriftParams R → R → R
  weight params dt = if dt ≺ params.fill_tau_sec then dt ⊘ params.fill_tau_sec else num 1

  -- What arithmetic has to give at a fill that is the setpoint. It does for double where the setpoint
  -- is finite and the deadband and the time to engage are positive.
  pub record AtRest (setpoint : R) (params : DriftParams R) : Type 0 where
    pub no_error : setpoint ⊖ setpoint ≡ num 0
    pub inside : abs_float (num 0) ≺ params.deadband ≡ true
    pub not_yet : num 0 ≺ params.engage_sec ≡ true

  -- Times whose weights times no error leave the setpoint: for double, a finite setpoint and a
  -- positive time constant any times that are not negative, whose weights are from 0 to 1.
  pub data Still (setpoint : R) (params : DriftParams R) : List R → Type 0 where
    no_times : Still setpoint params []
    one_more :
        {dts : List R} (dt : R)
        → setpoint ⊕ num 0 ⊗ weight params dt ≡ setpoint
        → Still setpoint params dts
        → Still setpoint params (dt ∷ dts)

  unfoldable pub observations : R → List R → List (Call R)
  observations setpoint [] = []
  observations setpoint (dt ∷ dts) = observe setpoint dt ∷ observations setpoint dts

  module _ (setpoint rate : R) (params : DriftParams R) (h : AtRest setpoint params) where
    smooth-AtRest :
        (dt : R)
        → setpoint ⊕ num 0 ⊗ weight params dt ≡ setpoint
        → smooth (reset setpoint rate params) setpoint dt ≡ reset setpoint rate params
    unfolding smooth reset
    smooth-AtRest dt no_move =
        let a = weight params dt in
        let still : setpoint ⊕ (setpoint ⊖ setpoint) ⊗ a ≡ setpoint =
          ap (λ e. setpoint ⊕ e ⊗ a) h.no_error ∙ no_move in
        let d = reset setpoint rate params in
        ap (λ m. record d { ema = m; ema2 = setpoint ⊕ (m ⊖ setpoint) ⊗ a }) still
        ∙ ap (λ m. record d { ema2 = m }) still

    update-AtRest :
        (dt : R)
        → setpoint ⊕ num 0 ⊗ weight params dt ≡ setpoint
        → update (reset setpoint rate params) setpoint dt ≡ reset setpoint rate params
    unfolding update advance reset
    update-AtRest dt no_move =
        ap (λ s. advance s dt) (smooth-AtRest dt no_move)
        ∙ rw (h.no_error, h.inside, h.not_yet) refl

  -- A source on the Master Clock never engages the loop: observations at the setpoint, however many,
  -- after times whose weights leave it, leave the controller as it was reset, its ratio 1.
  pub run-AtRest :
      (setpoint rate : R) (params : DriftParams R) (dts : List R)
      → AtRest setpoint params
      → Still setpoint params dts
      → run (reset setpoint rate params) (observations setpoint dts) ≡ reset setpoint rate params
  unfolding run step observations
  run-AtRest setpoint rate params [] h no_times = refl
  run-AtRest setpoint rate params (dt ∷ dts) h (one_more _ no_move later) =
      ap (λ d. run d (observations setpoint dts)) (update-AtRest setpoint rate params h dt no_move)
      ∙ run-AtRest setpoint rate params dts h later
