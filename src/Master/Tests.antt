-- ===== src/Master/Tests.antt =====
-- asio-master/MasterClaim.h: a session in which process 7 gets the claim and process 8 looks at it.
use win_hook_audio.Prelude.{ℕ, ◌≡◌, refl, true, false, arith}
use win_hook_audio.Master.Claim.{
  idle, trying, looking, Session, put_process, begin, claim, look_away, refuse, has_handle,
  call_acquire, created, opened, claimed, started, Reach, here, next,
}
use win_hook_audio.Master.Claim.Exclusion.{Reach-holder}

-- 7 has the claim, no other process has called.
abbrev held : Session
held = record (put_process started 7 (record { count = 1; phase = idle; acquired = true })) {
  owner = 7;
}

-- 8 opens the mapping of 7, which lives.
abbrev called : Session
called = put_process held 8 (begin (held.process 8))

abbrev opened_once : Session
opened_once = put_process called 8 (record (called.process 8) { phase = looking 0 true })

-- 7 and 8 call acquire, 7 makes the mapping and claims it, 8 opens it and looks.
abbrev s1 : Session
s1 = put_process started 7 (record { count = 0; phase = trying 0; acquired = false })

abbrev s2 : Session
s2 = put_process s1 8 (record { count = 0; phase = trying 0; acquired = false })

abbrev s3 : Session
s3 = record (put_process s2 7 (record { count = 0; phase = looking 0 false; acquired = false })) {
  owner = 0;
}

abbrev s4 : Session
s4 = record (put_process s3 7 (record { count = 1; phase = idle; acquired = true })) { owner = 7 }

abbrev s5 : Session
s5 = put_process s4 8 (record { count = 0; phase = looking 0 true; acquired = false })

none_open : (q : ℕ) → has_handle (s2.process q) ≡ false
none_open q = ground arith

reached : Reach started s5
unfolding begin claim
reached =
    next
      (next
        (next (next (next here (call_acquire 7 refl)) (call_acquire 8 refl))
          (created 7 0 refl none_open))
        (claimed 7 0 refl))
      (opened 8 0 7 refl refl)

abbrev daw : ℕ
daw = 7

Reach-holder_example : (daw ≡ daw) × (s5.owner ≡ daw)
Reach-holder_example = Reach-holder daw daw reached (omega arith) (omega arith)

-- 8 sees a living owner and is refused.
refused :
    look_away (s5.process 8) 0 s5.owner true ≡ record { count = 0; phase = idle; acquired = false }
unfolding look_away refuse
refused = refl
