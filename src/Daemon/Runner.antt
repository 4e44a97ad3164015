-- ===== src/Daemon/Runner.antt =====
-- internal/daemon/runner.go: the slot that a run claims and releases, each under the mutex, and every
-- order in which goroutines can do so. A step of a world is one critical section, or a Done outside it.
use gpb.Common.{
  ℕ, suc, ◌+◌, ◌-◌, Bool, true, false, not, ◌≡◌, Option, none, some, String, ◌==◌, string_eq,
  nat_eq, if◌then◌else◌,
}

-- `cancel` and `current` are whether the pointers are set, `in_flight` the counter of the WaitGroup.
pub record Runner : Type 0 where
  pub activity : String
  pub cancel : Bool
  pub current : Bool
  pub in_flight : ℕ

unfoldable pub new_runner : Runner
new_runner = record { activity = ""; cancel = false; current = false; in_flight = 0 }

-- `none` is ErrRunInProgress.
unfoldable pub claim : String → Runner → Option Runner
claim activity r =
    if not (r.activity == "")
    then none
    else some (record {
      activity = activity;
      cancel = true;
      current = r.current;
      in_flight = r.in_flight + 1;
    })

-- What release does under the mutex; it calls r.cancel, which panics where it is not set: `none`.
unfoldable pub release : Runner → Option Runner
release r =
    if not r.cancel
    then none
    else some (record { activity = ""; cancel = false; current = false; in_flight = r.in_flight })

-- What release does once it has left the mutex: Done, which panics below zero.
unfoldable pub count_off : Runner → Option Runner
count_off r = if r.in_flight == 0 then none else some (record r { in_flight = r.in_flight - 1 })

unfoldable pub now_doing : String → Runner → Runner
now_doing activity r = record r { activity = activity; current = false }

-- What run does once it is connected.
unfoldable pub connected : Runner → Runner
connected r = record r { current = true }

-- The runner, and the goroutines of launch: how many have not released it, and how many have left the
-- mutex of release and not yet called Done.
pub record World : Type 0 where
  pub runner : Runner
  pub running : ℕ
  pub leaving : ℕ

pub data Step : World → World → Type 0 where
  launched :
      (activity : String) (w : World) (after : Runner)
      → (activity == "") ≡ false
      → claim activity w.runner ≡ some after
      → Step w (record { runner = after; running = w.running + 1; leaving = w.leaving })
  renamed :
      (activity : String) (r : Runner) (others leaving : ℕ)
      → (activity == "") ≡ false
      → Step
          (record { runner = r; running = suc others; leaving = leaving })
          (record { runner = now_doing activity r; running = suc others; leaving = leaving })
  connects :
      (r : Runner) (others leaving : ℕ)
      → Step
          (record { runner = r; running = suc others; leaving = leaving })
          (record { runner = connected r; running = suc others; leaving = leaving })
  released :
      (r after : Runner) (others leaving : ℕ)
      → release r ≡ some after
      → Step
          (record { runner = r; running = suc others; leaving = leaving })
          (record { runner = after; running = others; leaving = leaving + 1 })
  counted_off :
      (r after : Runner) (running others : ℕ)
      → count_off r ≡ some after
      → Step
          (record { runner = r; running = running; leaving = suc others })
          (record { runner = after; running = running; leaving = others })

pub data Reach : World → Type 0 where
  begins : Reach (record { runner = new_runner; running = 0; leaving = 0 })
  steps : (w after : World) → Reach w → Step w after → Reach after
