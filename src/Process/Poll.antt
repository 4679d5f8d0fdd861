-- ===== src/Process/Poll.antt =====
-- Loops that look at something until it is over or their time has run out: `waitid_observe_child_exit`
-- and `wait_for_process_group_exit_with` of tools/fs2-dev/src/process.rs.
pub mod Ends
pub mod Group
use fs2_turbo.Base.{ℕ, zero, suc, ◌+◌, ◌-◌, ◌/◌, leb, if◌then◌else◌, Option, none, some}

-- What a look says: the loop returns at once, or returns this unless there is time for another look.
pub data Look (R : Type 0) : Type 0 where
  settled : R → Look R
  pending : R → Look R

-- The clock that measures the time since the loop has started, and the loop's sleep.
pub record Clock (S : Type 0) : Type 0 where
  pub elapsed : S → ℕ
  pub sleep : ℕ → S → S

abbrev pub min : ℕ → ℕ → ℕ
min a b = if leb a b then a else b

-- 10 ms.
abbrev pub process_group_exit_poll_interval : ℕ
process_group_exit_poll_interval = 10000000

module _ {S R : Type 0} (C : Clock S) (look : S → Look R × S) (timeout : ℕ) where
  abbrev pub pause : S → S
  pause s = C.sleep (min process_group_exit_poll_interval (timeout - C.elapsed s)) s

  unfoldable pub poll : ℕ → S → Option (R × S)
  poll zero s = none
  poll (suc fuel) s =
      let (seen, s') = look s in
      let again = poll fuel (pause s') in
      elim seen [
        | settled r ↦ some (r, s')
        | pending r ↦ if leb timeout (C.elapsed s') then some (r, s') else again
      ]

-- More looks than a loop that starts now can have.
abbrev pub looks : ℕ → ℕ
looks timeout = timeout / process_group_exit_poll_interval + 2
