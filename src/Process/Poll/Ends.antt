-- ===== src/Process/Poll/Ends.antt =====
-- The loops come to an end when the clock runs while they sleep.
use fs2_turbo.Base.{
  ℕ, zero, suc, ◌+◌, ◌-◌, ◌*◌, ◌≤◌, ◌<◌, leb, some, ◌≡◌, ◌⊎◌, inl, inr, refl, arith, Bool-cases,
  ◌∙◌, sym,
}
use fs2_turbo.Process.Poll.{
  Look, settled, pending, Clock, min, process_group_exit_poll_interval, pause, poll, looks,
}

-- After a look and a pause the time that is left is less by a whole interval, or used up.
time_left :
    (n e e' e'' timeout : ℕ)
    → timeout ≤ e + suc n * process_group_exit_poll_interval
    → e' < timeout
    → e ≤ e'
    → e' + min process_group_exit_poll_interval (timeout - e') ≤ e''
    → timeout ≤ e'' + n * process_group_exit_poll_interval
time_left n e e' e'' timeout h early looked gained = ground arith

-- On the states that a loop meets, time does not run backwards while it looks, and a sleep lasts at
-- least as long as asked.
pub record Runs {S R : Type 0} (C : Clock S) (look : S → Look R × S) (Valid : S → Type 0)
    : Type 0 where
  pub look_valid : (s : S) → Valid s → Valid (look s).1
  pub sleep_valid : (d : ℕ) (s : S) → Valid s → Valid (C.sleep d s)
  pub look_takes_time : (s : S) → Valid s → C.elapsed s ≤ C.elapsed (look s).1
  pub sleep_lasts : (d : ℕ) (s : S) → Valid s → C.elapsed s + d ≤ C.elapsed (C.sleep d s)

pub Look-cases :
    {R : Type 0} (l : Look R) → ((r : R) × (l ≡ settled r)) ⊎ ((r : R) × (l ≡ pending r))
Look-cases (settled r) = inl (r, refl)
Look-cases (pending r) = inr (r, refl)

module _ {S R : Type 0} (C : Clock S) (look : S → Look R × S) (timeout : ℕ) where
  pub poll-settled :
      (n : ℕ) (s : S) (r : R)
      → (look s).0 ≡ settled r
      → poll C look timeout (suc n) s ≡ some (r, (look s).1)
  unfolding poll
  poll-settled n s r h = rw (h, poll) refl

  pub poll-over :
      (n : ℕ) (s : S) (r : R)
      → (look s).0 ≡ pending r
      → timeout ≤ C.elapsed (look s).1
      → poll C look timeout (suc n) s ≡ some (r, (look s).1)
  unfolding poll
  poll-over n s r h late = rw (h, poll) (ground arith)

  pub poll-again :
      (n : ℕ) (s : S) (r : R)
      → (look s).0 ≡ pending r
      → C.elapsed (look s).1 < timeout
      → poll C look timeout (suc n) s ≡ poll C look timeout n (pause C look timeout (look s).1)
  unfolding poll
  poll-again n s r h early = rw (h, poll) (ground arith)

  -- The three ways of a round.
  abbrev pub Round : S → Type 0
  Round s =
      ((r : R) × ((look s).0 ≡ settled r))
      ⊎ (((r : R) × ((look s).0 ≡ pending r) × timeout ≤ C.elapsed (look s).1)
          ⊎ ((r : R) × ((look s).0 ≡ pending r) × C.elapsed (look s).1 < timeout))

  pub Round-cases : (s : S) → Round s
  Round-cases s = elim (Look-cases (look s).0) [
    | inl done ↦ inl done
    | inr (r, h) ↦ elim (Bool-cases (leb timeout (C.elapsed (look s).1))) [
      | inl late ↦ inr (inl (r, h, ground arith))
      | inr early ↦ inr (inr (r, h, ground arith))
    ]
  ]

  module _ {Valid : S → Type 0} (runs : Runs C look Valid) where
    pub poll-enough :
        (n : ℕ) (s : S)
        → Valid s
        → timeout ≤ C.elapsed s + n * process_group_exit_poll_interval
        → (r : R × S) × (poll C look timeout (suc n) s ≡ some r)
    poll-enough zero s v h = elim (Round-cases s) [
      | inl (r, seen) ↦ ((r, (look s).1), poll-settled 0 s r seen)
      | inr (inl (r, seen, late)) ↦ ((r, (look s).1), poll-over 0 s r seen late)
      | inr (inr (r, seen, early)) ↦ absurd (omega (arith, h, early, runs.look_takes_time s v))
    ]
    poll-enough (suc n) s v h = elim (Round-cases s) [
      | inl (r, seen) ↦ ((r, (look s).1), poll-settled (suc n) s r seen)
      | inr (inl (r, seen, late)) ↦ ((r, (look s).1), poll-over (suc n) s r seen late)
      | inr (inr (r, seen, early)) ↦
          let next = pause C look timeout (look s).1 in
          let d = min process_group_exit_poll_interval (timeout - C.elapsed (look s).1) in
          let seen_valid = runs.look_valid s v in
          let gained = runs.sleep_lasts d (look s).1 seen_valid in
          let (r', ends) = poll-enough n next (runs.sleep_valid d (look s).1 seen_valid) (
            time_left n (C.elapsed s) (C.elapsed (look s).1) (C.elapsed next) timeout h early
              (runs.look_takes_time s v) gained) in
          (r', poll-again (suc n) s r seen early ∙ ends)
    ]

    -- A loop that starts now ends within `looks timeout` rounds, and more change nothing.
    pub poll-ends :
        (fuel : ℕ) (s : S)
        → Valid s
        → looks timeout ≤ fuel
        → (r : R × S) × (poll C look timeout fuel s ≡ some r)
    poll-ends zero s v h = absurd (omega (arith, h))
    poll-ends (suc n) s v h = poll-enough n s v (omega (arith, h))

module _ {S R : Type 0} (C : Clock S) (look : S → Look R × S) (timeout : ℕ) where
  -- How a loop can have returned: its last look settled the answer, or found the time run out.
  abbrev pub Returned : R → S → Type 0
  Returned r s' =
      (s : S) × ((look s).1 ≡ s')
      × (((look s).0 ≡ settled r) ⊎ (((look s).0 ≡ pending r) × timeout ≤ C.elapsed s'))

  pub poll-Returned :
      (fuel : ℕ) (s : S) (r : R) (s' : S)
      → poll C look timeout fuel s ≡ some (r, s')
      → Returned r s'
  unfolding poll
  poll-Returned zero s r s' h = cc
  poll-Returned (suc n) s r s' h = elim (Round-cases C look timeout s) [
    | inl (r₁, seen) ↦
        let same = sym (poll-settled C look timeout n s r₁ seen) ∙ h in (s, cc, inl cc)
    | inr (inl (r₁, seen, late)) ↦
        let same = sym (poll-over C look timeout n s r₁ seen late) ∙ h in
        (s, cc, inr (cc, ground arith))
    | inr (inr (r₁, seen, early)) ↦
        poll-Returned n (pause C look timeout (look s).1) r s'
          (sym (poll-again C look timeout n s r₁ seen early) ∙ h)
  ]
