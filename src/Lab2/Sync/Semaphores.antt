-- ===== src/Lab2/Sync/Semaphores.antt =====
-- What KboardModule.c uses of the kernel's counting semaphores and does not implement.
use os_class.Common.{ℕ, suc, ◌≡◌, Option, none, some}

-- `down` answers `none` where the caller has to sleep. Which sleeper an `up` wakes is left open.
pub record Semaphores : Type 1 where
  pub Semaphore : Type 0
  pub initializer : ℕ → Semaphore
  pub down : Semaphore → Option Semaphore
  pub up : Semaphore → Semaphore
  -- The number of tasks that may still acquire the semaphore.
  pub value : Semaphore → ℕ
  pub value-initializer : (n : ℕ) → value (initializer n) ≡ n
  pub value-down : (s : Semaphore) {t : Semaphore} → down s ≡ some t → value s ≡ suc (value t)
  pub down-none : (s : Semaphore) → down s ≡ none → value s ≡ 0
  pub value-up : (s : Semaphore) → value (up s) ≡ suc (value s)

-- `InitializeSemaphore`, less the registration with lockdep.
abbrev pub initialize_semaphore : (sem : Semaphores) → ℕ → sem.Semaphore
initialize_semaphore sem value = sem.initializer value
