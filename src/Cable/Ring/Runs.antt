-- ===== src/Cable/Ring/Runs.antt =====
-- Histories: any sequence of calls on a cable ring, in the order the spin lock gives them, behaves
-- as the same calls on the queue.
use win_hook_audio.Prelude.{
  ℕ, ◌+◌, ◌-◌, ◌*◌, ◌^◌, ◌≤◌, ◌<◌, ◌≡◌, refl, ap, ap₂, ◌∙◌, false, Option, List, [], ◌∷◌, ltb,
  arith, inl, inr, Bool-cases,
}
use win_hook_audio.Prelude.Words.{u32}
use win_hook_audio.Prelude.Circular.{window}
use win_hook_audio.Cable.Format.{k_cable_channels}
use win_hook_audio.Cable.Ring.{k_frames, Ring, clear, reset_extra, write, read, make_room}
use win_hook_audio.Cable.Ring.Inv.{
  IsValid, clear-IsValid, make_room-IsValid, make_room_fits, append-IsValid,
}
use win_hook_audio.Cable.Ring.Spec
use win_hook_audio.Cable.Ring.Spec.{Queue, view, source_frames}
use win_hook_audio.Cable.Ring.Refine.{write_refines}
use win_hook_audio.Cable.Ring.Read.{read_refines, read-IsValid}

-- The public operations that change a ring, with their arguments.
pub data Call {ℓ} (A : Type ℓ) : Type ℓ where
  writes : Option (List A) → ℕ → ℕ → Call A
  reads : ℕ → ℕ → ℕ → ℕ → ℕ → ℕ → Call A
  clears : Call A
  resets : Call A

-- A block whose samples an `unsigned` counts, a slack that does not wrap with the prime.
abbrev pub IsSane {ℓ} : {A : Type ℓ} → Call A → Type 0
IsSane (writes src n channels) = n * k_cable_channels < 2 ^ 32
IsSane (reads n channels prime slack grow max_prime) = slack < 2 ^ 31
IsSane clears = Unit {0}
IsSane resets = Unit {0}

abbrev pub AllSane {ℓ} : {A : Type ℓ} → List (Call A) → Type 0
AllSane [] = Unit {0}
AllSane (c ∷ cs) = IsSane c × AllSane cs

module _ {ℓ} {A : Type ℓ} (silence : A) where
  -- A call's samples out (none but for `read`) and the ring after it.
  unfoldable pub step : Ring A → Call A → List A × Ring A
  step r (writes src n channels) = ([], write silence r src n channels)
  step r (reads n channels prime slack grow max_prime) =
      read silence r n channels prime slack grow max_prime
  step r clears = ([], clear r)
  step r resets = ([], reset_extra r)

  unfoldable pub run : Ring A → List (Call A) → List (List A) × Ring A
  run r [] = ([], r)
  run r (c ∷ cs) = let (out, r') = step r c in let (outs, r'') = run r' cs in (out ∷ outs, r'')

  unfoldable pub spec_step : Queue A → Call A → List A × Queue A
  spec_step q (writes src n channels) = ([], Spec.write q (source_frames silence src n channels))
  spec_step q (reads n channels prime slack grow max_prime) =
      Spec.read silence q n channels prime slack grow max_prime
  spec_step q clears = ([], record q { items = []; primed = false; extra = 0; over_frames = 0 })
  spec_step q resets = ([], record q { extra = 0 })

  unfoldable pub spec_run : Queue A → List (Call A) → List (List A) × Queue A
  spec_run q [] = ([], q)
  spec_run q (c ∷ cs) =
      let (out, q') = spec_step q c in let (outs, q'') = spec_run q' cs in (out ∷ outs, q'')

  pub write-IsValid :
      (r : Ring A) (src : Option (List A)) (n channels : ℕ)
      → IsValid r
      → IsValid (write silence r src n channels)
  unfolding write
  write-IsValid r src n channels v = elim (Bool-cases (ltb k_frames n)) [
    | inl e ↦
        let late = n - k_frames in
        let r' = record r { drops = u32 (r.drops + late) } in
        let v' : IsValid r' = omega arith in
        rw e (
          append-IsValid (make_room r' k_frames) k_frames _
            (make_room_fits r' k_frames (omega arith) v')
            (make_room-IsValid r' k_frames (omega arith) v'))
    | inr e ↦
        let h : n ≤ k_frames = ground arith in
        rw e
          (append-IsValid (make_room r n) n _ (make_room_fits r n h v) (make_room-IsValid r n h v))
  ]

  -- Every operation keeps the invariant.
  pub step-IsValid : (r : Ring A) (c : Call A) → IsSane c → IsValid r → IsValid (step r c).1
  unfolding step reset_extra
  step-IsValid r (writes src n channels) s v = write-IsValid r src n channels v
  step-IsValid r (reads n channels prime slack grow max_prime) s v =
      read-IsValid silence r n channels prime slack grow max_prime v s
  step-IsValid r clears s v = clear-IsValid r v
  step-IsValid r resets s v = omega arith

  step_refines :
      (r : Ring A) (c : Call A)
      → IsSane c
      → IsValid r
      → let (out, r') = step r c in (out, view r') ≡ spec_step (view r) c
  unfolding step spec_step clear reset_extra window
  step_refines r (writes src n channels) s v =
      ap (λ (q : Queue A). let out : List A = [] in (out, q))
        (write_refines silence r src n channels v s)
  step_refines r (reads n channels prime slack grow max_prime) s v =
      read_refines silence r n channels prime slack grow max_prime v s
  step_refines r clears s v = refl
  step_refines r resets s v = refl

  -- Any sequence of calls on a valid ring puts out exactly the samples of the bounded queue, leaves
  -- the queue's frames, control state and counters, and keeps the ring valid.
  pub run_refines :
      (cs : List (Call A)) (r : Ring A)
      → AllSane cs
      → IsValid r
      → ((run r cs).0 ≡ (spec_run (view r) cs).0)
        × (view (run r cs).1 ≡ (spec_run (view r) cs).1)
        × IsValid (run r cs).1
  unfolding run spec_run
  run_refines [] r s v = (refl, refl, v)
  run_refines (c ∷ cs) r s v =
      let e = step_refines r c s.0 v in
      let rest = run_refines cs (step r c).1 s.1 (step-IsValid r c s.0 v) in
      let q : view (step r c).1 ≡ (spec_step (view r) c).1 = ap (λ (p : List A × Queue A). p.1) e in
      let o : (step r c).0 ≡ (spec_step (view r) c).0 = ap (λ (p : List A × Queue A). p.0) e in
      (
        ap₂ ◌∷◌ o (rest.0 ∙ ap (λ t. (spec_run t cs).0) q),
        rest.1 ∙ ap (λ t. (spec_run t cs).1) q,
        rest.2,
      )
