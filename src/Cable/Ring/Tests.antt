-- ===== src/Cable/Ring/Tests.antt =====
-- Runs of the cable ring at concrete inputs.
use win_hook_audio.Prelude.{
  ℕ, ◌≡◌, refl, false, some, List, [], ◌∷◌, arith, length, replicate, length-replicate,
}
use win_hook_audio.Cable.Ring.{k_frames, Ring, write, read, effective_prime}
use win_hook_audio.Cable.Ring.Inv.{IsValid}
use win_hook_audio.Cable.Ring.Spec.{view}
use win_hook_audio.Cable.Ring.Runs.{Call, writes, reads, clears, resets, run, spec_run, run_refines}
use win_hook_audio.Cable.Ring.Laws.{read-write}

-- The ring's storage before any write.
blank : List (List ℕ)
blank = replicate k_frames []

length-blank : length blank ≡ k_frames
unfolding blank
length-blank = length-replicate {A = List ℕ} k_frames []

abbrev fresh : Ring ℕ
fresh = record {
  buf = blank;
  read_pos = 8191;
  fill = 0;
  primed = false;
  extra = 0;
  over_frames = 0;
  underruns = 0;
  drops = 0;
}

fresh-IsValid : IsValid fresh
fresh-IsValid = omega (arith, length-blank)

abbrev history : List (Call ℕ)
history = writes (some (1 ∷ 2 ∷ 3 ∷ 4 ∷ [])) 2 2 ∷ reads 3 2 1 0 64 4096 ∷ resets ∷ clears ∷ []

run_refines_example :
    ((run 0 fresh history).0 ≡ (spec_run 0 (view fresh) history).0)
    × (view (run 0 fresh history).1 ≡ (spec_run 0 (view fresh) history).1)
    × IsValid (run 0 fresh history).1
run_refines_example = run_refines 0 history fresh (omega arith) fresh-IsValid

read-write_example :
    let (out, r') = read 0 (write 0 fresh (some (1 ∷ 2 ∷ 3 ∷ 4 ∷ [])) 2 2) 2 2 2 0 0 0 in
    (out ≡ 1 ∷ 2 ∷ 3 ∷ 4 ∷ []) × (r'.fill ≡ 0)
unfolding effective_prime
read-write_example =
    read-write 0 fresh (1 ∷ 2 ∷ 3 ∷ 4 ∷ []) 2 2 2 0 0 0 fresh-IsValid refl (omega arith)
      (omega arith) (omega arith) refl (omega arith) (omega arith) (omega arith)
