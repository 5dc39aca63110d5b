-- ===== src/Base/Lock.antt =====
-- pthread_rwlock_t, as the components use it: one thread of control takes and gives back the lock.
-- `none` is a call that does not get the lock: it returns an error (EDEADLK), or it never returns.
-- Either way the code that it guards is not run.
use mathlib.Core.Option.{Option, none, some}
use Prim.Native.Nat.{ℕ, zero, suc}

pub data RwLock : Type 0 where
  unlocked : RwLock
  -- one more than this number of readers
  reading : ℕ → RwLock
  writing : RwLock

abbrev pub wrlock : RwLock → Option RwLock
wrlock unlocked = some writing
wrlock (reading n) = none
wrlock writing = none

abbrev pub rdlock : RwLock → Option RwLock
rdlock unlocked = some (reading zero)
rdlock (reading n) = some (reading (suc n))
rdlock writing = none

abbrev pub unlock : RwLock → RwLock
unlock unlocked = unlocked
unlock (reading zero) = unlocked
unlock (reading (suc n)) = reading n
unlock writing = unlocked
