-- ===== src/Infra/PidLock.antt =====
-- src/polymarket_agent/infra/pid_lock.py: processes that lock the same file, interleaved in any order. A file is
-- its number, a name may come to stand for another file, and `flock` is on the file. `acquire` is called where the
-- object has no file open; the text in the file is left out.
pub mod Exclusion
mod Tests
use poly_cortex.Base.{ℕ, ◌+◌, ◌≡◌, Bool, true, false, Option, none, some, ◌==◌, if◌then◌else◌}

-- Between which of its calls of the system a process stands.
pub data Pc : Type 0 where
  idle opened locked unlocked closed : Pc

-- `_file`, `_acquired` and where the process stands.
pub record PidLock : Type 0 where
  pub file : Option ℕ
  pub acquired : Bool
  pub pc : Pc

pub record World : Type 0 where
  pub name : Option ℕ
  pub next : ℕ
  pub lock : ℕ → Option ℕ
  pub procs : ℕ → PidLock

abbrev pub update : {A : Type 0} → ℕ → A → (ℕ → A) → ℕ → A
update i a g j = if j == i then a else g j

abbrev pub fresh : PidLock
fresh = record { file = none; acquired = false; pc = idle }

abbrev pub init : World
init = record { name = none; next = 0; lock = λ i. none; procs = λ p. fresh }

pub data Step (s : World) : World → Type 0 where
  -- `acquire`: the file of the name is opened, or a new one is made.
  open_old :
      (p i : ℕ)
      → s.procs p ≡ record { file = none; acquired = false; pc = idle }
      → s.name ≡ some i
      → Step s (record s {
        procs = update p (record { file = some i; acquired = false; pc = opened }) s.procs;
      })
  open_new :
      (p : ℕ)
      → s.procs p ≡ record { file = none; acquired = false; pc = idle }
      → s.name ≡ none
      → Step s (record s {
        name = some s.next;
        next = s.next + 1;
        procs = update p (record { file = some s.next; acquired = false; pc = opened }) s.procs;
      })
  -- The lock is got, and the identifier of the process is written.
  flock_ok :
      (p i : ℕ)
      → s.procs p ≡ record { file = some i; acquired = false; pc = opened }
      → s.lock i ≡ none
      → Step s (record s {
        lock = update i (some p) s.lock;
        procs = update p (record { file = some i; acquired = false; pc = locked }) s.procs;
      })
  -- Another process has it: the file is closed, and `acquire` is false.
  flock_fail :
      (p i q : ℕ)
      → s.procs p ≡ record { file = some i; acquired = false; pc = opened }
      → s.lock i ≡ some q
      → Step s (record s { procs = update p fresh s.procs })
  -- `acquire` is true.
  finish :
      (p i : ℕ)
      → s.procs p ≡ record { file = some i; acquired = false; pc = locked }
      → Step s (record s {
        procs = update p (record { file = some i; acquired = true; pc = idle }) s.procs;
      })
  -- `release`: the lock is given up, the file closed, and the name removed.
  unlock :
      (p i : ℕ)
      → s.procs p ≡ record { file = some i; acquired = true; pc = idle }
      → Step s (record s {
        lock = update i none s.lock;
        procs = update p (record { file = some i; acquired = true; pc = unlocked }) s.procs;
      })
  close :
      (p i : ℕ)
      → s.procs p ≡ record { file = some i; acquired = true; pc = unlocked }
      → Step s (record s {
        procs = update p (record { file = none; acquired = true; pc = closed }) s.procs;
      })
  unlink :
      (p : ℕ)
      → s.procs p ≡ record { file = none; acquired = true; pc = closed }
      → Step s (record s { name = none; procs = update p fresh s.procs })

pub data Reach : World → Type 0 where
  start : Reach init
  later : {s t : World} → Reach s → Step s t → Reach t

-- How often a step has removed the name.
pub removals_of : {s t : World} → Step s t → ℕ
removals_of (unlink p h) = 1
removals_of (open_old p i h k) = 0
removals_of (open_new p h k) = 0
removals_of (flock_ok p i h k) = 0
removals_of (flock_fail p i q h k) = 0
removals_of (finish p i h) = 0
removals_of (unlock p i h) = 0
removals_of (close p i h) = 0

pub removals : {s : World} → Reach s → ℕ
unfolding removals_of
removals start = 0
removals (later r st) = removals r + removals_of st

-- From the return of `acquire` with true to the start of `release`.
abbrev pub is_running : PidLock → Bool
is_running p = elim p.pc [ idle ↦ p.acquired | _ ↦ false ]
