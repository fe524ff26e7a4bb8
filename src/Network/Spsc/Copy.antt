-- ===== src/Network/Spsc/Copy.antt =====
-- The two `memcpy`s of a copy are one write, or one read, round the buffer.
use win_hook_audio.Prelude.{
  ℕ, zero, suc, ◌+◌, ◌-◌, ◌%◌, ◌≤◌, ◌<◌, ◌≡◌, refl, sym, ap, subst, ◌∙◌, false, List, [], ◌∷◌, ◌++◌,
  ltb, inl, inr, Bool-cases, arith, length, set, take, drop, get_or, length-take, take-split,
}
use win_hook_audio.Prelude.Circular.{
  put_all, window, window-append, put_all-append, put_all-cong, window-cong,
}
use native.Mathlib.Nat.{mod-eq_of_lt, mod-lt}
use win_hook_audio.Network.Spsc.{Ring, blit, stretch, copy_in, copy_out}

next_at : (cap p : ℕ) → p % cap + 1 < cap → (p + 1) % cap ≡ p % cap + 1
next_at cap p h = grind arith

turn : (cap p : ℕ) → 0 < cap → (p + (cap - p % cap)) % cap ≡ 0 % cap
turn cap p h = grind arith

module _ {ℓ} {A : Type ℓ} where
  -- A `memcpy` that stays inside the buffer.
  blit-put_all :
      (cap : ℕ) (blank : A) (buf : List A) (p : ℕ) (fs : List A)
      → p % cap + length fs ≤ cap
      → blit buf (p % cap) fs ≡ put_all blank cap buf p fs
  unfolding blit put_all
  blit-put_all cap blank buf p [] h = refl
  blit-put_all cap blank buf p (f ∷ []) h = refl
  blit-put_all cap blank buf p (f ∷ g ∷ fs) h =
      ap (λ q. blit (set buf (p % cap) f) q (g ∷ fs)) (sym (next_at cap p (omega arith)))
      ∙ blit-put_all cap blank (set buf (p % cap) f) (p + 1) (g ∷ fs)
          (omega (arith, next_at cap p (omega arith)))

  stretch-window :
      (blank : A) (cap : ℕ) (buf : List A) (p n : ℕ)
      → p % cap + n ≤ cap
      → stretch blank buf (p % cap) n ≡ window blank cap buf p n
  unfolding stretch window
  stretch-window blank cap buf p zero h = refl
  stretch-window blank cap buf p (suc zero) h = refl
  stretch-window blank cap buf p (suc (suc n)) h =
      ap (λ q. get_or buf (p % cap) blank ∷ stretch blank buf q (suc n))
        (sym (next_at cap p (omega arith)))
      ∙ ap (λ t. get_or buf (p % cap) blank ∷ t)
          (stretch-window blank cap buf (p + 1) (suc n)
            (omega (arith, next_at cap p (omega arith))))

  pub copy_in-put_all :
      (blank : A) (r : Ring A) (p : ℕ) (src : List A) (n : ℕ)
      → 0 < r.capacity
      → n ≤ r.capacity
      → n ≤ length src
      → copy_in r (p % r.capacity) src n ≡ put_all blank r.capacity r.buf p (take n src)
  unfolding copy_in
  copy_in-put_all blank r p src n pos h l =
      let cap = r.capacity in
      elim (Bool-cases (ltb n (cap - p % cap))) [
        | inl t ↦
            let s : ltb n n ≡ false = ground arith in
            rw (t, s)
              (blit-put_all cap blank r.buf p (take n src) (ground (arith, length-take n src)))
        | inr t ↦
            let c = cap - p % cap in
            let zero_at : 0 % cap ≡ 0 = mod-eq_of_lt pos in
            let n₁ : length (take c src) ≡ c = ground (arith, length-take c src) in
            let n₂ : length (take (n - c) (drop c src)) ≤ n - c =
              omega (arith, length-take (n - c) (drop c src)) in
            let one : blit r.buf (p % cap) (take c src) ≡ put_all blank cap r.buf p (take c src) =
              blit-put_all cap blank r.buf p (take c src) (omega (arith, mod-lt p pos)) in
            elim (Bool-cases (ltb c n)) [
              | inl s ↦
                  let buf = put_all blank cap r.buf p (take c src) in
                  let rest = take (n - c) (drop c src) in
                  rw (t, s, one)
                    (subst (λ q. blit buf q rest ≡ put_all blank cap buf 0 rest) zero_at
                        (blit-put_all cap blank buf 0 rest (ground (arith, zero_at)))
                      ∙ put_all-cong blank cap buf 0 (p + length (take c src)) rest
                          (sym (turn cap p pos) ∙ ap (λ k. (p + k) % cap) (sym n₁))
                      ∙ sym (put_all-append blank cap r.buf p (take c src) rest)
                      ∙ ap (put_all blank cap r.buf p) (sym (take-split c n src (ground arith))))
              | inr s ↦
                  let e : c ≡ n = ground arith in
                  rw (t, s, one) (ap (λ k. put_all blank cap r.buf p (take k src)) e)
            ]
      ]

  pub copy_out-window :
      (blank : A) (r : Ring A) (p n : ℕ)
      → 0 < r.capacity
      → n ≤ r.capacity
      → copy_out blank r (p % r.capacity) n ≡ window blank r.capacity r.buf p n
  unfolding copy_out
  copy_out-window blank r p n pos h =
      let cap = r.capacity in
      elim (Bool-cases (ltb n (cap - p % cap))) [
        | inl t ↦
            let s : ltb n n ≡ false = ground arith in
            rw (t, s) (stretch-window blank cap r.buf p n (ground arith))
        | inr t ↦
            let c = cap - p % cap in
            let zero_at : 0 % cap ≡ 0 = mod-eq_of_lt pos in
            let one : stretch blank r.buf (p % cap) c ≡ window blank cap r.buf p c =
              stretch-window blank cap r.buf p c (omega (arith, mod-lt p pos)) in
            elim (Bool-cases (ltb c n)) [
              | inl s ↦
                  let e : c + (n - c) ≡ n = ground arith in
                  rw (t, s, one)
                    (ap (λ w. window blank cap r.buf p c ++ w)
                        (subst
                            (λ q. stretch blank r.buf q (n - c) ≡ window blank cap r.buf 0 (n - c))
                            zero_at
                            (stretch-window blank cap r.buf 0 (n - c) (omega (arith, zero_at)))
                          ∙ window-cong blank cap r.buf 0 (p + c) (n - c) (sym (turn cap p pos)))
                      ∙ sym (window-append blank cap r.buf p c (n - c))
                      ∙ ap (window blank cap r.buf p) e)
              | inr s ↦
                  let e : c ≡ n = ground arith in rw (t, s, one) (ap (window blank cap r.buf p) e)
            ]
      ]
