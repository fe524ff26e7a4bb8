-- ===== src/Cable/Ring/Spec.antt =====
-- What a cable promises, on the list of its queued frames, oldest first. There is no array and no
-- index here; the control fields are those of the ring.
use win_hook_audio.Prelude.{
  ℕ, ◌+◌, ◌-◌, ◌*◌, Bool, true, false, not, ◌&&◌, ◌||◌, Option, List, [], ◌++◌, ltb, leb, ◌==◌,
  if◌then◌else◌, replicate, length, take, drop, tabulate,
}
use win_hook_audio.Prelude.Words.{u32}
use win_hook_audio.Prelude.Circular.{window}
use win_hook_audio.Cable.Ring.{
  Ring, Frame, k_frames, k_trim_after_frames, clip_channels, effective_prime, interleave,
  source_frame,
}

pub record Queue {ℓ} (A : Type ℓ) : Type ℓ where
  pub items : List (Frame A)
  pub primed : Bool
  pub extra : ℕ
  pub over_frames : ℕ
  pub underruns : ℕ
  pub drops : ℕ

module _ {ℓ} {A : Type ℓ} where
  abbrev pub view : Ring A → Queue A
  view r = record {
    items = window [] k_frames r.buf r.read_pos r.fill;
    primed = r.primed;
    extra = r.extra;
    over_frames = r.over_frames;
    underruns = r.underruns;
    drops = r.drops;
  }

  abbrev pub lose : Queue A → ℕ → Queue A
  lose q n = record q { items = drop n q.items; drops = u32 (q.drops + n) }

  -- A bounded queue that loses its oldest frames: the newest `k_frames` stay.
  unfoldable pub write : Queue A → List (Frame A) → Queue A
  write q fs =
      let all = q.items ++ fs in
      let lost = length all - k_frames in
      record q { items = drop lost all; drops = u32 (q.drops + lost) }

  -- The reader starts: of a backlog above prime + slack the newest `prime` frames stay.
  unfoldable pub start : Queue A → ℕ → ℕ → Queue A
  start q prime slack =
      let q' = record q { primed = true } in
      if ltb (prime + slack) (length q.items) then lose q' (length q.items - prime) else q'

  unfoldable pub trim_drift : Queue A → ℕ → ℕ → ℕ → Queue A
  trim_drift q n prime slack =
      let over = u32 (q.over_frames + n) in
      if ltb (prime + slack) (length q.items)
      then if leb k_trim_after_frames over
        then record (lose q (length q.items - prime)) { over_frames = 0 }
        else record q { over_frames = over }
      else record q { over_frames = 0 }

module _ {ℓ} {A : Type ℓ} (silence : A) where
  -- The frames of an interleaved source.
  abbrev pub source_frames : Option (List A) → ℕ → ℕ → List (Frame A)
  source_frames src n channels = tabulate n (source_frame silence src 0 (clip_channels channels))

  unfoldable pub deliver : Queue A → ℕ → ℕ → ℕ → ℕ → ℕ → List A × Queue A
  deliver q n channels base grow max_prime =
      let out = interleave silence channels (take n q.items) in
      let q' = record q { items = drop n q.items } in
      let have = length q.items in
      if ltb have n
      then (
        out ++ replicate (channels * (n - have)) silence,
        record q' {
          underruns = u32 (q.underruns + 1);
          primed = false;
          extra =
              if not (grow == 0) && leb (u32 (base + q.extra + grow)) max_prime
              then u32 (q.extra + grow)
              else q.extra;
        },
      )
      else (out, q')

  unfoldable pub read : Queue A → ℕ → ℕ → ℕ → ℕ → ℕ → ℕ → List A × Queue A
  read q n channels base slack grow max_prime =
      let prime = effective_prime base q.extra in
      let have = length q.items in
      if not q.primed && (ltb have prime || have == 0)
      then (replicate (n * channels) silence, q)
      else let q₁ = if q.primed then q else start q prime slack in
        deliver (trim_drift q₁ n prime slack) n channels base grow max_prime
