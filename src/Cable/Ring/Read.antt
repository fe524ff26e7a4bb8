-- ===== src/Cable/Ring/Read.antt =====
-- `read` on the array is `read` on the queue.
use win_hook_audio.Prelude.{
  ℕ, ◌+◌, ◌-◌, ◌%◌, ◌^◌, ◌≤◌, ◌<◌, ◌≡◌, refl, sym, ap, subst, ◌∙◌, Bool, true, false, not, ◌&&◌,
  ◌||◌, [], ltb, leb, ◌==◌, if◌then◌else◌, drop, arith, drop_all, take_all, inl, inr, Bool-cases,
}
use win_hook_audio.Prelude.Words.{u32, sub32}
use win_hook_audio.Prelude.Circular.{window, window-mod, drop-window, take-window}
use win_hook_audio.Cable.Ring.{
  k_frames, Ring, get_frames, effective_prime, start, trim_drift, deliver, read,
}
use win_hook_audio.Cable.Ring.Inv.{IsValid, get_frames-window, drop_oldest-IsValid}
use win_hook_audio.Cable.Ring.Spec
use win_hook_audio.Cable.Ring.Spec.{Queue, view, lose}
use win_hook_audio.Cable.Ring.Refine.{queued, length-queued, drop_oldest_refines}

module _ {ℓ} {A : Type ℓ} where
  start_refines :
      (r : Ring A) (prime slack : ℕ)
      → IsValid r
      → prime ≤ k_frames
      → prime + slack < 2 ^ 32
      → view (start r prime slack) ≡ Spec.start (view r) prime slack
  unfolding start Spec.start
  start_refines r prime slack v p h =
      let r' = record r { primed = true } in
      let v' : IsValid r' = omega arith in
      let e : u32 (prime + slack) ≡ prime + slack = omega arith in
      rw (e, length-queued r)
        (elim (Bool-cases (ltb (prime + slack) r.fill)) [
          | inl b ↦
              let o : sub32 r.fill prime ≡ r.fill - prime = ground arith in
              rw (b, o) (drop_oldest_refines r' (r.fill - prime) v' (omega arith))
          | inr b ↦ rw b
        ])

  start-IsValid :
      (r : Ring A) (prime slack : ℕ)
      → IsValid r
      → prime ≤ k_frames
      → prime + slack < 2 ^ 32
      → IsValid (start r prime slack)
  unfolding start
  start-IsValid r prime slack v p h =
      ground (arith, drop_oldest-IsValid (record r { primed = true }) (sub32 r.fill prime))

  trim_drift_refines :
      (r : Ring A) (n prime slack : ℕ)
      → IsValid r
      → prime ≤ k_frames
      → prime + slack < 2 ^ 32
      → view (trim_drift r n prime slack) ≡ Spec.trim_drift (view r) n prime slack
  unfolding trim_drift Spec.trim_drift
  trim_drift_refines r n prime slack v p h =
      let e : u32 (prime + slack) ≡ prime + slack = omega arith in
      let over = u32 (r.over_frames + n) in
      rw (e, length-queued r)
        (elim (Bool-cases (ltb (prime + slack) r.fill)) [
          | inl b ↦
              let o : sub32 r.fill prime ≡ r.fill - prime = ground arith in
              elim (Bool-cases (leb 4096 over)) [
                | inl t ↦
                    rw (b, t, o)
                      (ap (λ (q : Queue A). record q { over_frames = 0 })
                        (drop_oldest_refines r (r.fill - prime) v (omega arith)))
                | inr t ↦ rw (b, t)
              ]
          | inr b ↦ rw b
        ])

  trim_drift-IsValid :
      (r : Ring A) (n prime slack : ℕ)
      → IsValid r
      → prime ≤ k_frames
      → prime + slack < 2 ^ 32
      → IsValid (trim_drift r n prime slack)
  unfolding trim_drift
  trim_drift-IsValid r n prime slack v p h =
      ground (arith, drop_oldest-IsValid r (sub32 r.fill prime))

  get_frames_queued :
      (r : Ring A) (n : ℕ)
      → IsValid r
      → get_frames r.buf r.read_pos n
        ≡ (window [] k_frames r.buf r.read_pos n, (r.read_pos + n) % k_frames)
  get_frames_queued r n v =
      let p : r.read_pos % k_frames ≡ r.read_pos = omega arith in
      subst
        (λ q.
          get_frames r.buf q n
          ≡ (window [] k_frames r.buf r.read_pos n, (r.read_pos + n) % k_frames))
        p (get_frames-window r.buf r.read_pos n)

  -- What is left once `n` frames are out, by the code's index and by the queue.
  queued_rest :
      (r : Ring A) (n : ℕ)
      → window [] k_frames r.buf ((r.read_pos + n) % k_frames) (r.fill - n) ≡ drop n (queued r)
  queued_rest r n =
      window-mod [] k_frames r.buf (r.read_pos + n) (r.fill - n)
      ∙ sym (drop-window [] k_frames r.buf n r.read_pos r.fill)

  queued_all : (r : Ring A) (n : ℕ) → r.fill ≤ n → drop r.fill (queued r) ≡ drop n (queued r)
  queued_all r n h =
      drop_all r.fill (queued r) (omega (arith, length-queued r))
      ∙ sym (drop_all n (queued r) (omega (arith, length-queued r)))

  abbrev started : Bool → Ring A → ℕ → ℕ → Ring A
  started primed r prime slack = if primed then r else start r prime slack

  started_refines :
      (b : Bool) (r : Ring A) (prime slack : ℕ)
      → IsValid r
      → prime ≤ k_frames
      → prime + slack < 2 ^ 32
      → view (started b r prime slack) ≡ (if b then view r else Spec.start (view r) prime slack)
  started_refines true r prime slack v p h = refl
  started_refines false r prime slack v p h = start_refines r prime slack v p h

  started-IsValid :
      (b : Bool) (r : Ring A) (prime slack : ℕ)
      → IsValid r
      → prime ≤ k_frames
      → prime + slack < 2 ^ 32
      → IsValid (started b r prime slack)
  started-IsValid true r prime slack v p h = v
  started-IsValid false r prime slack v p h = start-IsValid r prime slack v p h

module _ {ℓ} {A : Type ℓ} (silence : A) where
  deliver_refines :
      (r : Ring A) (n channels base grow max_prime : ℕ)
      → IsValid r
      → let (out, r') = deliver silence r n channels base grow max_prime in
        (out, view r') ≡ Spec.deliver silence (view r) n channels base grow max_prime
  unfolding deliver Spec.deliver
  deliver_refines r n channels base grow max_prime v = elim (Bool-cases (ltb n r.fill)) [
    | inl b ↦
        let s : ltb n n ≡ false = ground arith in
        let s' : ltb r.fill n ≡ false = ground arith in
        rw (
          b,
          get_frames_queued r n v,
          s,
          length-queued r,
          s',
          queued_rest r n,
          take-window [] k_frames r.buf n r.read_pos r.fill (ground arith),
        )
    | inr b ↦
        let rest = queued_rest r r.fill ∙ queued_all r n (ground arith) in
        let all = take_all n (queued r) (ground (arith, length-queued r)) in
        rw (b, get_frames_queued r r.fill v, length-queued r, all)
          (elim (Bool-cases (ltb r.fill n)) [ inl s ↦ rw (s, rest) | inr s ↦ rw (s, rest) ])
  ]

  deliver-IsValid :
      (r : Ring A) (n channels base grow max_prime : ℕ)
      → IsValid r
      → IsValid (deliver silence r n channels base grow max_prime).1
  unfolding deliver
  deliver-IsValid r n channels base grow max_prime v = elim (Bool-cases (ltb n r.fill)) [
    | inl b ↦ rw (b, get_frames_queued r n v) (ground arith)
    | inr b ↦ rw (b, get_frames_queued r r.fill v) (ground arith)
  ]

  effective_prime-le : (prime extra : ℕ) → effective_prime prime extra ≤ k_frames
  unfolding effective_prime
  effective_prime-le prime extra = ground arith

  -- `read` on the array is `read` on the queue: the same samples come out, and the queued frames and
  -- the control fields are the queue's.
  pub read_refines :
      (r : Ring A) (n channels base slack grow max_prime : ℕ)
      → IsValid r
      → slack < 2 ^ 31
      → let (out, r') = read silence r n channels base slack grow max_prime in
        (out, view r') ≡ Spec.read silence (view r) n channels base slack grow max_prime
  unfolding read Spec.read
  read_refines r n channels base slack grow max_prime v h =
      let prime = effective_prime base r.extra in
      let le = effective_prime-le base r.extra in
      let sum : prime + slack < 2 ^ 32 = omega arith in
      let r₁ = started r.primed r prime slack in
      let v₁ = started-IsValid r.primed r prime slack v le sum in
      let idle = not r.primed && (ltb r.fill prime || r.fill == 0) in
      rw (length-queued r) (elim (Bool-cases idle) [
        | inl b ↦ rw b
        | inr b ↦ rw b (
            deliver_refines (trim_drift r₁ n prime slack) n channels base grow max_prime
              (trim_drift-IsValid r₁ n prime slack v₁ le sum)
            ∙ ap (λ q. Spec.deliver silence q n channels base grow max_prime)
                (trim_drift_refines r₁ n prime slack v₁ le sum
                  ∙ ap (λ q. Spec.trim_drift q n prime slack)
                      (started_refines r.primed r prime slack v le sum)))
      ])

  pub read-IsValid :
      (r : Ring A) (n channels base slack grow max_prime : ℕ)
      → IsValid r
      → slack < 2 ^ 31
      → IsValid (read silence r n channels base slack grow max_prime).1
  unfolding read
  read-IsValid r n channels base slack grow max_prime v h =
      let prime = effective_prime base r.extra in
      let le = effective_prime-le base r.extra in
      elim (Bool-cases (not r.primed && (ltb r.fill prime || r.fill == 0))) [
        | inl b ↦ rw b v
        | inr b ↦ rw b (
            deliver-IsValid (trim_drift (started r.primed r prime slack) n prime slack) n channels
              base grow max_prime
              (trim_drift-IsValid (started r.primed r prime slack) n prime slack
                (started-IsValid r.primed r prime slack v le (omega arith)) le (omega arith)))
      ]
