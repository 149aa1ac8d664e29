-- ===== src/Infra/PidLock/Tests.antt =====
-- Runs of infra/pid_lock.py: two processes of which one gets the lock, and two that both run after a release.
use poly_cortex.Base.{ℕ, ◌≡◌, refl, true}
use poly_cortex.Infra.PidLock.{
  World, open_old, open_new, flock_ok, flock_fail, finish, unlock, close, unlink, Reach, start,
  later, removals, is_running,
}
use poly_cortex.Infra.PidLock.Exclusion.{running_exclusive}

abbrev first : (s : World) × Reach s
first = (
  _,
  later
      (later
        (later (later (later start (open_new 0 refl refl)) (open_old 1 0 refl refl))
          (flock_ok 0 0 refl refl))
        (flock_fail 1 0 0 refl refl))
      (finish 0 0 refl),
)

running_exclusive_example : ◌≡◌ {A = ℕ} 0 0
unfolding removals
running_exclusive_example = running_exclusive first.1 refl 0 0 refl refl

-- Process 1 opens the file while process 0 runs, and gets its lock when process 0 gives it up; then process 0
-- removes the name, process 2 makes a new file, and both run.
abbrev second : (s : World) × Reach s
second = (
  _,
  later
      (later
        (later
          (later
            (later
              (later
                (later
                  (later
                    (later (later (later start (open_new 0 refl refl)) (flock_ok 0 0 refl refl))
                      (finish 0 0 refl))
                    (open_old 1 0 refl refl))
                  (unlock 0 0 refl))
                (flock_ok 1 0 refl refl))
              (close 0 0 refl))
            (unlink 0 refl))
          (open_new 2 refl refl))
        (flock_ok 2 1 refl refl))
      (finish 2 1 refl),
)

third : (s : World) × Reach s × (is_running (s.procs 1) ≡ true) × (is_running (s.procs 2) ≡ true)
third = (_, later second.1 (finish 1 0 refl), refl, refl)
