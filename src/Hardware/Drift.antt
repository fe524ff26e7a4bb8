-- ===== src/Hardware/Drift.antt =====
-- common/WHADriftControl.h: the PI loop from the fill of a queue to a resample ratio.
pub mod Engage
use win_hook_audio.Prelude.{ℕ, Bool, true, false, not, ◌&&◌, if◌then◌else◌}
use win_hook_audio.Hardware.Floats.{
  Floats, ◌⊕◌, ◌⊖◌, ◌⊗◌, ◌⊘◌, ◌≺◌, num, neg, abs_float, clamp_float,
}

module _ (R : Type 0) where
  pub record DriftParams : Type 0 where
    pub fill_tau_sec : R
    pub kp : R
    pub ki : R
    pub max_ppm : R
    pub deadband : R
    pub engage_sec : R

  pub record DriftControl : Type 0 where
    pub p : DriftParams
    pub setpoint : R
    pub rate : R
    pub ema : R
    pub ema2 : R
    pub integ : R
    pub ratio : R
    pub ratio_avg : R
    pub engaged : Bool
    pub outside_sec : R

module _ {R : Type 0} ⦃F : Floats R⦄ where
  -- `WHADriftParams{}`
  unfoldable pub default_params : DriftParams R
  default_params = record {
    fill_tau_sec = F.literal 125 1000;
    kp = num 2;
    ki = num 1;
    max_ppm = num 10000;
    deadband = num 96;
    engage_sec = F.literal 25 100;
  }

  -- `reset(setpoint, rate, params)`
  unfoldable pub reset : R → R → DriftParams R → DriftControl R
  reset setpoint rate params = record {
    p = params;
    setpoint = setpoint;
    rate = rate;
    ema = setpoint;
    ema2 = setpoint;
    integ = num 0;
    ratio = num 1;
    ratio_avg = num 1;
    engaged = false;
    outside_sec = num 0;
  }

  unfoldable pub retarget : DriftControl R → R → R → DriftControl R
  retarget d setpoint deadband = record d {
    setpoint = setpoint;
    p = record (d.p) { deadband = deadband };
    ema = setpoint;
    ema2 = setpoint;
  }

  unfoldable pub set_gains : DriftControl R → R → R → DriftControl R
  set_gains d kp ki = record d {
    integ = if (num 0 ≺ ki) && (num 0 ≺ d.p.ki) then d.integ ⊗ (d.p.ki ⊘ ki) else d.integ;
    p = record (d.p) { kp = kp; ki = ki };
  }

  -- The two smoothing stages of `update`.
  unfoldable pub smooth : DriftControl R → R → R → DriftControl R
  smooth d fill dt =
      let a = if dt ≺ d.p.fill_tau_sec then dt ⊘ d.p.fill_tau_sec else num 1 in
      let ema = d.ema ⊕ (fill ⊖ d.ema) ⊗ a in
      record d { ema = ema; ema2 = d.ema2 ⊕ (ema ⊖ d.ema2) ⊗ a }

  -- The part of `update` once engaged.
  unfoldable pub correct : DriftControl R → R → R → DriftControl R
  correct d err dt =
      let max_corr = d.p.max_ppm ⊗ F.literal 1 1000000 in
      let corr = neg (d.p.kp ⊗ err ⊕ d.p.ki ⊗ (d.integ ⊕ err ⊗ dt)) ⊘ d.rate in
      let free = (neg max_corr ≺ corr) && (corr ≺ max_corr) in
      let ratio = num 1 ⊕ clamp_float corr (neg max_corr) max_corr in
      let weight = if dt ≺ num 5 then dt ⊘ num 5 else num 1 in
      record d {
        integ = if free then d.integ ⊕ err ⊗ dt else d.integ;
        ratio = ratio;
        ratio_avg = d.ratio_avg ⊕ (ratio ⊖ d.ratio_avg) ⊗ weight;
      }

  -- The rest of `update`, from the smoothed fill on.
  unfoldable pub advance : DriftControl R → R → DriftControl R
  unfolding correct
  advance s dt =
      let err = s.ema2 ⊖ s.setpoint in
      let outside = if abs_float err ≺ s.p.deadband then num 0 else s.outside_sec ⊕ dt in
      let waiting = record s { outside_sec = outside } in
      if s.engaged
      then correct s err dt
      else if outside ≺ s.p.engage_sec
      then waiting
      else correct (record waiting { engaged = true }) err dt

  -- `update(fill, dt)`; the ratio that it returns is the new state's.
  unfoldable pub update : DriftControl R → R → R → DriftControl R
  update d fill dt = advance (smooth d fill dt) dt

  unfoldable pub source_ppm : DriftControl R → R
  source_ppm d = (num 1 ⊖ d.ratio_avg) ⊗ num 1000000
