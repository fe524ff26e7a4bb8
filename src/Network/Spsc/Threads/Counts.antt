-- ===== src/Network/Spsc/Threads/Counts.antt =====
-- The masks and counters of one thread's call, while the invariant holds: nothing wraps.
use win_hook_audio.Prelude.{
  ℕ, ◌+◌, ◌-◌, ◌%◌, ◌^◌, ◌≤◌, ◌<◌, ◌≡◌, refl, ap, none, List, ltb, if◌then◌else◌, arith, length,
  take,
}
use win_hook_audio.Prelude.Words.{u32, sub32, sub64}
use win_hook_audio.Prelude.Bits.{bit_and_mask, pow2_mono, pow2_pos}
use win_hook_audio.Prelude.Circular.{put_all, window}
use win_hook_audio.Network.Spsc.{distance, write_frames, read_frames, discard_frames}
use win_hook_audio.Network.Spsc.Copy.{copy_in-put_all, copy_out-window}
use Prim.Native.Nat.{bit_and}
use win_hook_audio.Network.Spsc.Threads.{System, Inv, counted}

pub masked : (k cap p : ℕ) → cap ≡ 2 ^ k → k ≤ 31 → u32 (bit_and p (cap - 1)) ≡ p % cap
masked k cap p e h =
    let le = pow2_mono k 31 h in let pos = pow2_pos k in rw (e, bit_and_mask k p) (omega arith)

module _ {ℓ} {A : Type ℓ} (blank : A) where
  -- What a write does, in terms of the number of frames it accepts.
  pub writes_lem :
      (k : ℕ) (s : System A) (seen : ℕ) (src : List A) (frames : ℕ)
      → Inv blank k s
      → s.writing ≡ none
      → s.seen_tail ≤ seen
      → seen ≤ s.ring.tail
      → frames ≤ length src
      → s.ring.head + frames < 2 ^ 64
      → (n : ℕ) × (write_frames seen s.ring src frames ≡ (
        n,
        record (s.ring) { buf = put_all blank s.ring.capacity s.ring.buf s.ring.head (take n src) },
      ))
        × (n ≤ frames)
        × (s.ring.head + n ≤ seen + s.ring.capacity)
  unfolding write_frames distance
  writes_lem k s seen src frames v e a b l small =
      let r = s.ring in
      let top = pow2_mono k 31 v.small in
      let low = pow2_pos k in
      let none_staged = ap counted e in
      let d : u32 (sub64 r.head seen) ≡ r.head - seen = omega (arith, v.power) in
      let room : sub32 r.capacity (r.head - seen) ≡ r.capacity - (r.head - seen) =
        omega (arith, v.power) in
      let space = r.capacity - (r.head - seen) in
      let n = if ltb frames space then frames else space in
      let le : n ≤ frames = ground arith in
      let le' : n ≤ space = ground arith in
      (
        n,
        rw (d, room, masked k r.capacity r.head v.power v.small)
            (ap (λ b'. let n' : ℕ = n in (n', record r { buf = b' }))
              (copy_in-put_all blank r r.head src n (omega (arith, v.power)) (omega arith)
                (omega arith))),
        le,
        omega arith,
      )

  pub reads_lem :
      (k : ℕ) (s : System A) (seen frames : ℕ)
      → Inv blank k s
      → s.seen_head ≤ seen
      → seen ≤ s.ring.head
      → (n : ℕ) × (read_frames blank seen s.ring frames
          ≡ (n, window blank s.ring.capacity s.ring.buf s.ring.tail n))
        × (s.ring.tail + n ≤ seen)
  unfolding read_frames distance
  reads_lem k s seen frames v a b =
      let r = s.ring in
      let top = pow2_mono k 31 v.small in
      let low = pow2_pos k in
      let d : u32 (sub64 seen r.tail) ≡ seen - r.tail = omega (arith, v.power) in
      let avail = seen - r.tail in
      let n = if ltb frames avail then frames else avail in
      let le' : n ≤ avail = ground arith in
      (
        n,
        rw (d, masked k r.capacity r.tail v.power v.small)
            (ap (λ w. let n' : ℕ = n in (n', w))
              (copy_out-window blank r r.tail n (omega (arith, v.power)) (omega (arith, v.power)))),
        omega arith,
      )

  pub discards_lem :
      (k : ℕ) (s : System A) (seen frames : ℕ)
      → Inv blank k s
      → s.seen_head ≤ seen
      → seen ≤ s.ring.head
      → (n : ℕ) × (discard_frames seen s.ring frames ≡ n) × (s.ring.tail + n ≤ seen)
  unfolding discard_frames distance
  discards_lem k s seen frames v a b =
      let r = s.ring in
      let top = pow2_mono k 31 v.small in
      let d : u32 (sub64 seen r.tail) ≡ seen - r.tail = omega (arith, v.power) in
      let avail = seen - r.tail in
      let n = if ltb frames avail then frames else avail in
      let le' : n ≤ avail = ground arith in (n, rw d refl, omega arith)
