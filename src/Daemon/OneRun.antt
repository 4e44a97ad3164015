-- ===== src/Daemon/OneRun.antt =====
-- internal/daemon/runner.go: one run at a time, over every order of the goroutines' steps.
use gpb.Common.{
  ℕ, suc, ◌+◌, ◌-◌, ◌≤◌, true, false, not, ◌≡◌, refl, ap, subst, none, some, String, ◌==◌,
  string_eq, nat_eq, arith, Bool-cases, inl, inr, ◌⊎◌, is_some,
}
use gpb.Daemon.Runner.{
  Runner, new_runner, claim, release, count_off, now_doing, connected, World, Step, launched,
  renamed, connects, released, counted_off, Reach, begins, steps,
}

-- The slot is taken by the one goroutine there is, or free; the WaitGroup counts it and those that leave.
IsOneRun : World → Type 0
IsOneRun w =
    (w.running ≤ 1)
    × (w.runner.in_flight ≡ w.running + w.leaving)
    × ((w.runner.activity == "") ≡ (w.running == 0))
    × (w.runner.cancel ≡ not (w.running == 0))

some-injective : {A : Type 0} {a b : A} → some a ≡ some b → a ≡ b
some-injective {A} {a} {b} e = ap (λ o. elim o [ some x ↦ x | none ↦ a ]) e

claim-IsOneRun :
    (activity : String) (r after : Runner) (running leaving : ℕ)
    → (activity == "") ≡ false
    → claim activity r ≡ some after
    → IsOneRun (record { runner = r; running = running; leaving = leaving })
    → IsOneRun (record { runner = after; running = running + 1; leaving = leaving })
unfolding claim IsOneRun
claim-IsOneRun activity r after running leaving n e h = elim (Bool-cases (r.activity == "")) [
  | inl i ↦
      let same : record {
        activity = activity;
        cancel = true;
        current = r.current;
        in_flight = r.in_flight + 1;
      }
          ≡ after =
        some-injective (rw i at e) in
      subst (λ a. IsOneRun (record { runner = a; running = running + 1; leaving = leaving })) same
        (ground (arith, n, h, i))
  | inr i ↦ ground (arith, rw i at e)
]

release-IsOneRun :
    (r after : Runner) (others leaving : ℕ)
    → release r ≡ some after
    → IsOneRun (record { runner = r; running = suc others; leaving = leaving })
    → IsOneRun (record { runner = after; running = others; leaving = leaving + 1 })
unfolding release IsOneRun
release-IsOneRun r after others leaving e h = elim (Bool-cases (not r.cancel)) [
  | inl i ↦ ground (arith, rw i at e)
  | inr i ↦
      let same : record { activity = ""; cancel = false; current = false; in_flight = r.in_flight }
          ≡ after =
        some-injective (rw i at e) in
      subst (λ a. IsOneRun (record { runner = a; running = others; leaving = leaving + 1 })) same
        (ground (arith, h))
]

count_off-IsOneRun :
    (r after : Runner) (running others : ℕ)
    → count_off r ≡ some after
    → IsOneRun (record { runner = r; running = running; leaving = suc others })
    → IsOneRun (record { runner = after; running = running; leaving = others })
unfolding count_off IsOneRun
count_off-IsOneRun r after running others e h = elim (Bool-cases (r.in_flight == 0)) [
  | inl i ↦ ground (arith, rw i at e)
  | inr i ↦
      let same : record r { in_flight = r.in_flight - 1 } ≡ after = some-injective (rw i at e) in
      subst (λ a. IsOneRun (record { runner = a; running = running; leaving = others })) same
        (ground (arith, h))
]

Step-IsOneRun : (w after : World) → Step w after → IsOneRun w → IsOneRun after
unfolding now_doing connected IsOneRun
Step-IsOneRun w after (launched activity w' a n e) h =
    claim-IsOneRun activity w.runner a w.running w.leaving n e h
Step-IsOneRun w after (renamed activity r others leaving n) h = (h.0, h.1, ground (arith, n), h.3)
Step-IsOneRun w after (connects r others leaving) h = h
Step-IsOneRun w after (released r a others leaving e) h = release-IsOneRun r a others leaving e h
Step-IsOneRun w after (counted_off r a running others e) h =
    count_off-IsOneRun r a running others e h

Reach-IsOneRun : (w : World) → Reach w → IsOneRun w
unfolding IsOneRun new_runner
Reach-IsOneRun w begins = (omega arith, refl, refl, refl)
Reach-IsOneRun w (steps before after reached step) =
    Step-IsOneRun before w step (Reach-IsOneRun before reached)

release-returns : (r : Runner) → r.cancel ≡ true → is_some (release r) ≡ true
unfolding release
release-returns r h = ground (arith, h)

count_off-returns : (r : Runner) → (r.in_flight == 0) ≡ false → is_some (count_off r) ≡ true
unfolding count_off
count_off-returns r h = rw h refl

-- In whatever order the critical sections of claims and releases, the Dones after the releases and the
-- steps of the running work interleave: at most one goroutine has claimed the slot and not released it,
-- the WaitGroup counts it and each that released the slot and has not called Done, the activity is empty
-- just where no goroutine holds the slot, and the cancel function is set just where one does. Where a
-- goroutine holds the slot its release does not panic, and where one is leaving its Done does not.
pub Reach-one_run :
    (w : World)
    → Reach w
    → (w.running ≤ 1)
      × (w.runner.in_flight ≡ w.running + w.leaving)
      × ((w.runner.activity == "") ≡ (w.running == 0))
      × (w.runner.cancel ≡ not (w.running == 0))
      × ((w.running ≡ 0) ⊎ (is_some (release w.runner) ≡ true))
      × ((w.leaving ≡ 0) ⊎ (is_some (count_off w.runner) ≡ true))
unfolding IsOneRun
Reach-one_run w reached =
    let h = Reach-IsOneRun w reached in
    (
      h.0,
      h.1,
      h.2,
      h.3,
      ground (arith, h, release-returns w.runner),
      ground (arith, h, count_off-returns w.runner),
    )
