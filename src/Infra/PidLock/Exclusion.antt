-- ===== src/Infra/PidLock/Exclusion.antt =====
-- Who may hold the lock of infra/pid_lock.py.
use poly_cortex.Base.{ℕ, ◌≡◌, refl, Bool, true, false, Option, none, some, is_some, arith}
use poly_cortex.Infra.PidLock.{
  idle, locked, PidLock, World, init, Step, open_old, open_new, flock_ok, flock_fail, finish,
  unlock, close, unlink, Reach, start, later, removals_of, removals, is_running,
}

-- A process that has the lock.
abbrev holds : PidLock → Bool
holds p = elim p.pc [ idle ↦ true | locked ↦ true | _ ↦ false ]

-- While the name has not been removed: every open file is that of the name, and a process that has got the lock of
-- its open file has it.
record Inv (s : World) : Type 0 where
  named : (p i : ℕ) → (s.procs p).file ≡ some i → s.name ≡ some i
  held : (p i : ℕ) → holds (s.procs p) ≡ true → (s.procs p).file ≡ some i → s.lock i ≡ some p
  with_file : (p : ℕ) → is_running (s.procs p) ≡ true → is_some (s.procs p).file ≡ true

Inv-init : Inv init
Inv-init = record { named = λ p i. cc; held = λ p i h. cc; with_file = λ p. cc }

Step-Inv : {s t : World} (st : Step s t) → removals_of st ≡ 0 → Inv s → Inv t
unfolding removals_of
Step-Inv (open_old p i h k) z inv = record {
  named = λ q j e. ground (arith, inv.named q j, inv.named p j);
  held = λ q j l e. ground (arith, inv.held q j);
  with_file = λ q e. ground (arith, inv.with_file q);
}
Step-Inv (open_new p h k) z inv = record {
  named = λ q j e. ground (arith, inv.named q j, inv.named p j);
  held = λ q j l e. ground (arith, inv.held q j);
  with_file = λ q e. ground (arith, inv.with_file q);
}
Step-Inv (flock_ok p i h k) z inv = record {
  named = λ q j e. ground (arith, inv.named q j, inv.named p j);
  held = λ q j l e. ground (arith, inv.held q j, inv.held q i);
  with_file = λ q e. ground (arith, inv.with_file q);
}
Step-Inv (flock_fail p i r h k) z inv = record {
  named = λ q j e. ground (arith, inv.named q j, inv.named p j);
  held = λ q j l e. ground (arith, inv.held q j);
  with_file = λ q e. ground (arith, inv.with_file q);
}
Step-Inv (finish p i h) z inv = record {
  named = λ q j e. ground (arith, inv.named q j, inv.named p j);
  held = λ q j l e. ground (arith, inv.held q j, inv.held p i);
  with_file = λ q e. ground (arith, inv.with_file q);
}
Step-Inv (unlock p i h) z inv = record {
  named = λ q j e. ground (arith, inv.named q j, inv.named p j);
  held = λ q j l e. ground (arith, inv.held q j, inv.held p i, inv.held q i);
  with_file = λ q e. ground (arith, inv.with_file q);
}
Step-Inv (close p i h) z inv = record {
  named = λ q j e. ground (arith, inv.named q j, inv.named p j);
  held = λ q j l e. ground (arith, inv.held q j);
  with_file = λ q e. ground (arith, inv.with_file q);
}
Step-Inv (unlink p h) z inv = absurd (omega arith)

Reach-Inv : {s : World} (r : Reach s) → removals r ≡ 0 → Inv s
unfolding removals
Reach-Inv start z = Inv-init
Reach-Inv (later r st) z = Step-Inv st (omega arith) (Reach-Inv r (omega arith))

is_some-eq : (o : Option ℕ) → is_some o ≡ true → (i : ℕ) × (o ≡ some i)
is_some-eq none h = cc
is_some-eq (some i) h = (i, refl)

running-holds : (x : PidLock) → is_running x ≡ true → holds x ≡ true
running-holds x h = ground (arith, h)

-- However the processes are interleaved: as long as no release has removed the name of the file, no two processes
-- run between an `acquire` that gave true and the start of their `release`.
pub running_exclusive :
    {s : World} (r : Reach s)
    → removals r ≡ 0
    → (p q : ℕ) → is_running (s.procs p) ≡ true
    → is_running (s.procs q) ≡ true
    → p ≡ q
running_exclusive {s} r z p q h k =
    let inv = Reach-Inv r z in
    let (i, fp) = is_some-eq (s.procs p).file (inv.with_file p h) in
    let (j, fq) = is_some-eq (s.procs q).file (inv.with_file q k) in
    ground (
      arith,
      inv.named p i fp,
      inv.named q j fq,
      inv.held p i (running-holds (s.procs p) h) fp,
      inv.held q j (running-holds (s.procs q) k) fq,
    )
