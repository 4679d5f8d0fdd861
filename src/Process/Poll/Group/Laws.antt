-- ===== src/Process/Poll/Group/Laws.antt =====
-- What it means when the loop for a group, or for a child, returns.
use fs2_turbo.Base.{
  ℕ, ◌≤◌, ◌+◌, ℤ, some, ◌≡◌, ◌≢◌, ◌⊎◌, inl, inr, refl, ap, eqb_ℤ, eqb_ℤ_iff, Error, os, custom,
  wrapped, fault, raw_os_error, Result, ok, err, arith, Bool-cases,
}
use fs2_turbo.Process.{OsErrors}
use fs2_turbo.Process.Poll.{settled, pending, looks}
use fs2_turbo.Process.Poll.Ends.{Runs, poll-ends, poll-Returned}
use fs2_turbo.Process.Poll.Group.{
  eperm, esrch, still_exists, cannot_verify, group_look, GroupWaitBackend, probe,
  wait_for_process_group_exit_with,
}

-- The answers of a probe: the group is gone, or it may still have members.
pub data IsGone : Result (Unit {0}) → Type 0 where
  gone : {e : Error} → raw_os_error e ≡ some esrch → IsGone (err e)

pub data IsPresent : Result (Unit {0}) → Type 0 where
  present : {u : Unit {0}} → IsPresent (ok u)
  forbidden : {e : Error} → raw_os_error e ≡ some eperm → IsPresent (err e)

module _ (E : OsErrors) (process_group : ℤ) (timeout : ℕ) where
  look-IsGone :
      {a : Result (Unit {0})} → IsGone a → group_look E process_group timeout a ≡ settled (ok tt)
  unfolding group_look
  look-IsGone (gone h) = rw (h, group_look) refl

  look-IsPresent :
      {a : Result (Unit {0})}
      → IsPresent a
      → (e : Error) × (group_look E process_group timeout a ≡ pending (err e))
  unfolding group_look
  look-IsPresent present = (still_exists process_group timeout, refl)
  look-IsPresent (forbidden {e = e} h) = (cannot_verify process_group e, rw (h, group_look) refl)

  look_settled-IsGone :
      (a : Result (Unit {0})) → group_look E process_group timeout a ≡ settled (ok tt) → IsGone a
  unfolding group_look
  look_settled-IsGone (ok _) h = cc
  look_settled-IsGone (err (os c)) h = elim (Bool-cases (eqb_ℤ c esrch)) [
    | inl absent ↦ gone (ap some ((eqb_ℤ_iff c esrch).0 absent))
    | inr other ↦ elim (Bool-cases (eqb_ℤ c eperm)) [ inl p ↦ ground arith | inr p ↦ ground arith ]
  ]
  look_settled-IsGone (err (custom k m)) h = ground arith
  look_settled-IsGone (err (wrapped k m e)) h = ground arith
  look_settled-IsGone (err fault) h = ground arith

  look_pending-err :
      (a : Result (Unit {0})) (r : Result (Unit {0}))
      → group_look E process_group timeout a ≡ pending r
      → r ≢ ok tt
  unfolding group_look
  look_pending-err (ok _) r h = ground arith
  look_pending-err (err (os c)) r h = ground arith
  look_pending-err (err (custom k m)) r h = ground arith
  look_pending-err (err (wrapped k m e)) r h = ground arith
  look_pending-err (err fault) r h = ground arith

-- What a system must do for the loop to end, on the states that satisfy `Valid`: a probe does not turn
-- back the clock, and a sleep moves it on.
pub record IsTimed {S : Type 0} (B : GroupWaitBackend S) (process_group : ℤ) (Valid : S → Type 0)
    : Type 0 where
  pub probe_valid : (s : S) → Valid s → Valid (B.probe_group process_group s).1
  pub sleep_valid : (d : ℕ) (s : S) → Valid s → Valid (B.clock.sleep d s)
  pub probe_takes_time :
      (s : S) → Valid s → B.clock.elapsed s ≤ B.clock.elapsed (B.probe_group process_group s).1
  pub sleep_lasts :
      (d : ℕ) (s : S) → Valid s → B.clock.elapsed s + d ≤ B.clock.elapsed (B.clock.sleep d s)

module _ {S : Type 0} (E : OsErrors) (B : GroupWaitBackend S) (process_group : ℤ)
    (timeout : ℕ) where
  IsTimed-Runs :
      {Valid : S → Type 0}
      → IsTimed B process_group Valid
      → Runs B.clock (probe E B process_group timeout) Valid
  unfolding probe
  IsTimed-Runs h = record {
    look_valid = h.probe_valid;
    sleep_valid = h.sleep_valid;
    look_takes_time = h.probe_takes_time;
    sleep_lasts = h.sleep_lasts;
  }

  -- On a system whose clock does not turn back while a group is probed and moves on by at least
  -- the delay of each sleep, the wait for a group returns after at most one look for each interval
  -- of the timeout and two more.
  pub wait_for_process_group_exit_with_ends :
      {Valid : S → Type 0} (fuel : ℕ) (s : S)
      → IsTimed B process_group Valid
      → Valid s
      → looks timeout ≤ fuel
      → (r : Result (Unit {0}) × S) × (wait_for_process_group_exit_with E B fuel process_group
            timeout s
          ≡ some r)
  unfolding wait_for_process_group_exit_with
  wait_for_process_group_exit_with_ends fuel s h v enough =
      poll-ends B.clock (probe E B process_group timeout) timeout (IsTimed-Runs h) fuel s v enough

  -- When the wait for a group returns without an error, the last probe of the group failed with
  -- ESRCH.
  pub wait_for_process_group_exit_with-ok :
      (fuel : ℕ) (s s' : S)
      → wait_for_process_group_exit_with E B fuel process_group timeout s ≡ some (ok tt, s')
      → (s₀ : S) × ((B.probe_group process_group s₀).1 ≡ s')
        × IsGone (B.probe_group process_group s₀).0
  unfolding wait_for_process_group_exit_with probe
  wait_for_process_group_exit_with-ok fuel s s' h =
      let (s₀, same, how) =
        poll-Returned B.clock (probe E B process_group timeout) timeout fuel s (ok tt) s' h in
      elim how [
        | inl seen ↦ (
          s₀,
          same,
          look_settled-IsGone E process_group timeout (B.probe_group process_group s₀).0 seen,
        )
        | inr (seen, late) ↦ absurd (
            look_pending-err E process_group timeout (B.probe_group process_group s₀).0 (ok tt) seen
              refl)
      ]

  -- A group that is gone after some time, and can be asked about until then.
  pub record IsLeaving (deadline : ℕ) : Type 0 where
    pub before :
        (s : S)
        → IsPresent (B.probe_group process_group s).0 ⊎ IsGone (B.probe_group process_group s).0
    pub after :
        (s : S)
        → deadline ≤ B.clock.elapsed (B.probe_group process_group s).1
        → IsGone (B.probe_group process_group s).0

  settled_answer :
      (a : Result (Unit {0})) (r : Result (Unit {0}))
      → IsPresent a ⊎ IsGone a
      → group_look E process_group timeout a ≡ settled r
      → r ≡ ok tt
  settled_answer a r (inl here) seen =
      let (e, waits) = look-IsPresent E process_group timeout here in cc
  settled_answer a r (inr absent) seen = let over = look-IsGone E process_group timeout absent in cc

  -- On a system with such a clock: if a group is present or gone whenever it is probed, and gone
  -- once some time within the timeout has passed, the wait for it returns without an error.
  pub wait_for_process_group_exit_with-IsLeaving :
      {Valid : S → Type 0} (fuel deadline : ℕ) (s : S)
      → IsTimed B process_group Valid
      → Valid s
      → looks timeout ≤ fuel
      → deadline ≤ timeout
      → IsLeaving deadline
      → (s' : S) × (wait_for_process_group_exit_with E B fuel process_group timeout s
          ≡ some (ok tt, s'))
  unfolding wait_for_process_group_exit_with probe
  wait_for_process_group_exit_with-IsLeaving fuel deadline s h v enough in_time leaving =
      let ((r, s'), ends) =
        poll-ends B.clock (probe E B process_group timeout) timeout (IsTimed-Runs h) fuel s v
          enough in
      let (s₀, same, how) =
        poll-Returned B.clock (probe E B process_group timeout) timeout fuel s r s' ends in
      elim how [
        | inl seen ↦
            let fine =
              settled_answer (B.probe_group process_group s₀).0 r (leaving.before s₀) seen in
            (s', cc)
        | inr (seen, late) ↦
            let over =
              look-IsGone E process_group timeout
                (leaving.after s₀ (omega (arith, in_time, late, ap B.clock.elapsed same))) in
            absurd cc
      ]
