-- ===== src/Master/Claim/Attempts.antt =====
-- asio-master/MasterClaim.h: the attempts of one `acquire`.
use win_hook_audio.Prelude.{
  ℕ, ◌+◌, ◌*◌, ◌≤◌, ◌<◌, ◌≡◌, Bool, false, ◌==◌, if◌then◌else◌, if_cases, refl, arith,
}
use win_hook_audio.Master.Claim.{
  Phase, idle, trying, looking, Process, Session, put_process, Step, call_acquire, create_failed,
  created, opened, map_failed, claimed, looked, call_release, exited,
}

-- Whether a step is a system call of the process `p`, and whether it is its CreateFileMapping, one of
-- which each attempt makes.
abbrev pub calls : ℕ → {s t : Session} → Step s t → Bool
calls p (call_acquire q e) = false
calls p (create_failed q n e) = p == q
calls p (created q n e none_open) = p == q
calls p (opened q n r e held) = p == q
calls p (map_failed q n exists e) = p == q
calls p (claimed q n e) = p == q
calls p (looked q n alive e) = p == q
calls p (call_release q e) = false
calls p (exited q) = false

abbrev pub creates_mapping : ℕ → {s t : Session} → Step s t → Bool
creates_mapping p (call_acquire q e) = false
creates_mapping p (create_failed q n e) = p == q
creates_mapping p (created q n e none_open) = p == q
creates_mapping p (opened q n r e held) = p == q
creates_mapping p (map_failed q n exists e) = false
creates_mapping p (claimed q n e) = false
creates_mapping p (looked q n alive e) = false
creates_mapping p (call_release q e) = false
creates_mapping p (exited q) = false

-- The step calls `acquire` in the process `p`.
abbrev pub acquires : ℕ → {s t : Session} → Step s t → Bool
acquires p (call_acquire q e) = p == q
acquires p step = false

abbrev pub one_if : Bool → ℕ
one_if b = if b then 1 else 0

-- A stretch of a session in which `p` calls no `acquire`, with the CreateFileMapping calls that `p` makes
-- in it, its attempts, and all its system calls.
pub data Stretch (p : ℕ) (s : Session) : ℕ → ℕ → Session → Type 0 where
  still : Stretch p s 0 0 s
  then_step :
      {n m : ℕ} {t u : Session}
      → Stretch p s n m t
      → (step : Step t u) → acquires p step ≡ false
      → Stretch p s (one_if (creates_mapping p step) + n) (one_if (calls p step) + m) u

pub put_process_self : (s : Session) (p : ℕ) (v : Process) → (put_process s p v).process p ≡ v
put_process_self s p v =
    if_cases (λ (w : Process). w ≡ v) (p == p) (λ e. refl)
      (λ (e : p == p ≡ false). absurd (ground arith))

-- What a process may have done since its call of `acquire`, by where it stands.
abbrev Done : Phase → ℕ → ℕ → Type 0
Done idle n m = (n ≤ 5) × (m ≤ 10)
Done (trying a) n m = (a < 5) × (n ≤ a) × (m ≤ 2 * a)
Done (looking a exists) n m = (a < 5) × (n ≤ a + 1) × (m ≤ 2 * a + 1)
