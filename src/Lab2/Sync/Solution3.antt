-- ===== src/Lab2/Sync/Solution3.antt =====
-- lab2/KboardModule.c with SYNC_SOLUTION 3, where readers and writers are to take turns.
pub mod Inv
pub mod Moves
pub mod WriterSteps
pub mod ReaderSteps
pub mod Always
pub mod Failure
pub mod Waking
pub mod Supply
pub mod Related
pub mod Calm
pub mod EnterWriter
pub mod EnterReader
pub mod Choosing
pub mod LeaveWriter
pub mod LeaveReader
pub mod Served
pub mod Progress
pub mod Section
use mathlib.Core.Option
use os_class.Common.{
  ℕ, Option, none, some, Bool, ℤ, pos, inc32, dec32, eqb_ℤ, ltb_ℤ, ◌&&◌, ◌||◌, if◌then◌else◌,
}
use os_class.Lab2.Sync.Semaphores.{Semaphores, initialize_semaphore}
use os_class.Lab2.Sync.System.{Role, Protocol}

-- The three semaphores and the four counts.
pub record Shared (Semaphore : Type 0) : Type 0 where
  pub semaphore_mutex : Semaphore
  pub semaphore_writer : Semaphore
  pub semaphore_reader : Semaphore
  pub writer_count : ℤ
  pub reader_count : ℤ
  pub writer_waiting_count : ℤ
  pub reader_waiting_count : ℤ

-- Before which statement of the four functions a thread stands.
pub data Place : Type 0 where
  outside : Place
  enter_writer : Place  -- down(&SemaphoreMutex)
  writer_check : Place  -- if (WriterCount > 0 || …)
  writer_wait_increment : Place  -- WriterWaitingCount++
  writer_wait_release : Place  -- up(&SemaphoreMutex)
  writer_wait : Place  -- down(&SemaphoreWriter)
  writer_woken : Place  -- down(&SemaphoreMutex)
  writer_wait_decrement : Place  -- WriterWaitingCount--
  writer_increment : Place  -- WriterCount++
  writer_entered : Place  -- up(&SemaphoreMutex)
  writing : Place  -- down(&SemaphoreMutex)
  writer_decrement : Place  -- WriterCount--
  writer_choose : Place  -- if (ReaderWaitingCount > 0) … else if (WriterWaitingCount > 0)
  writer_wake_readers : (index : ℤ) → Place  -- for (…; index < ReaderWaitingCount; index++)
  writer_wake_writer : Place  -- up(&SemaphoreWriter)
  writer_left : Place  -- up(&SemaphoreMutex)
  enter_reader : Place  -- down(&SemaphoreMutex)
  reader_check : Place  -- if (WriterWaitingCount > 0 || WriterCount > 0)
  reader_wait_increment : Place  -- ReaderWaitingCount++
  reader_wait_release : Place  -- up(&SemaphoreMutex)
  reader_wait : Place  -- down(&SemaphoreReader)
  reader_woken : Place  -- down(&SemaphoreMutex)
  reader_wait_decrement : Place  -- ReaderWaitingCount--
  reader_increment : Place  -- ReaderCount++
  reader_entered : Place  -- up(&SemaphoreMutex)
  reading : Place  -- down(&SemaphoreMutex)
  reader_decrement : Place  -- ReaderCount--
  reader_check_last : Place  -- if (ReaderCount == 0 && WriterWaitingCount > 0)
  reader_wake_writer : Place  -- up(&SemaphoreWriter)
  reader_left : Place  -- up(&SemaphoreMutex)

abbrev pub begin : Role → Place
begin Role.writer = enter_writer
begin Role.reader = enter_reader

abbrev pub is_positive : ℤ → Bool
is_positive v = ltb_ℤ (pos 0) v

module _ (sem : Semaphores) where
  open sem use {Semaphore, down, up}

  -- `InitializeSyncSolution`
  abbrev pub initial : Shared Semaphore
  initial = record {
    semaphore_mutex = initialize_semaphore sem 1;
    semaphore_writer = initialize_semaphore sem 0;
    semaphore_reader = initialize_semaphore sem 0;
    writer_count = pos 0;
    reader_count = pos 0;
    writer_waiting_count = pos 0;
    reader_waiting_count = pos 0;
  }

  -- `down(&SemaphoreMutex)` and `up(&SemaphoreMutex)`, on the way to a place.
  abbrev pub lock_to : Shared Semaphore → Place → Option (Shared Semaphore × Place)
  lock_to l q = Option.map (λ s. (record l { semaphore_mutex = s }, q)) (down l.semaphore_mutex)

  abbrev pub unlock_to : Shared Semaphore → Place → Option (Shared Semaphore × Place)
  unlock_to l q = some (record l { semaphore_mutex = up l.semaphore_mutex }, q)

  -- `EnterCriticalSection_Writer`, and `none` at the places of the other functions.
  pub enter_writer_step : Shared Semaphore → Place → Option (Shared Semaphore × Place)
  enter_writer_step l enter_writer = lock_to l writer_check
  enter_writer_step l writer_check = some (
    l,
    if is_positive l.writer_count
          || is_positive l.reader_count
          || is_positive l.writer_waiting_count
          || is_positive l.reader_waiting_count
        then writer_wait_increment
        else writer_increment,
  )
  enter_writer_step l writer_wait_increment =
      some (record l { writer_waiting_count = inc32 l.writer_waiting_count }, writer_wait_release)
  enter_writer_step l writer_wait_release = unlock_to l writer_wait
  enter_writer_step l writer_wait =
      Option.map (λ s. (record l { semaphore_writer = s }, writer_woken)) (down l.semaphore_writer)
  enter_writer_step l writer_woken = lock_to l writer_wait_decrement
  enter_writer_step l writer_wait_decrement =
      some (record l { writer_waiting_count = dec32 l.writer_waiting_count }, writer_increment)
  enter_writer_step l writer_increment =
      some (record l { writer_count = inc32 l.writer_count }, writer_entered)
  enter_writer_step l writer_entered = unlock_to l writing
  enter_writer_step l _ = none

  -- `LeaveCriticalSection_Writer`
  pub leave_writer_step : Shared Semaphore → Place → Option (Shared Semaphore × Place)
  leave_writer_step l writing = lock_to l writer_decrement
  leave_writer_step l writer_decrement =
      some (record l { writer_count = dec32 l.writer_count }, writer_choose)
  leave_writer_step l writer_choose = some (
    l,
    if is_positive l.reader_waiting_count
        then writer_wake_readers (pos 0)
        else if is_positive l.writer_waiting_count
        then writer_wake_writer
        else writer_left,
  )
  leave_writer_step l (writer_wake_readers index) =
      if ltb_ℤ index l.reader_waiting_count
      then some
          (record l { semaphore_reader = up l.semaphore_reader }, writer_wake_readers (inc32 index))
      else some (l, writer_left)
  leave_writer_step l writer_wake_writer =
      some (record l { semaphore_writer = up l.semaphore_writer }, writer_left)
  leave_writer_step l writer_left = unlock_to l outside
  leave_writer_step l _ = none

  -- `EnterCriticalSection_Reader`
  pub enter_reader_step : Shared Semaphore → Place → Option (Shared Semaphore × Place)
  enter_reader_step l enter_reader = lock_to l reader_check
  enter_reader_step l reader_check = some (
    l,
    if is_positive l.writer_waiting_count || is_positive l.writer_count
        then reader_wait_increment
        else reader_increment,
  )
  enter_reader_step l reader_wait_increment =
      some (record l { reader_waiting_count = inc32 l.reader_waiting_count }, reader_wait_release)
  enter_reader_step l reader_wait_release = unlock_to l reader_wait
  enter_reader_step l reader_wait =
      Option.map (λ s. (record l { semaphore_reader = s }, reader_woken)) (down l.semaphore_reader)
  enter_reader_step l reader_woken = lock_to l reader_wait_decrement
  enter_reader_step l reader_wait_decrement =
      some (record l { reader_waiting_count = dec32 l.reader_waiting_count }, reader_increment)
  enter_reader_step l reader_increment =
      some (record l { reader_count = inc32 l.reader_count }, reader_entered)
  enter_reader_step l reader_entered = unlock_to l reading
  enter_reader_step l _ = none

  -- `LeaveCriticalSection_Reader`
  pub leave_reader_step : Shared Semaphore → Place → Option (Shared Semaphore × Place)
  leave_reader_step l reading = lock_to l reader_decrement
  leave_reader_step l reader_decrement =
      some (record l { reader_count = dec32 l.reader_count }, reader_check_last)
  leave_reader_step l reader_check_last = some (
    l,
    if eqb_ℤ l.reader_count (pos 0) && is_positive l.writer_waiting_count
        then reader_wake_writer
        else reader_left,
  )
  leave_reader_step l reader_wake_writer =
      some (record l { semaphore_writer = up l.semaphore_writer }, reader_left)
  leave_reader_step l reader_left = unlock_to l outside
  leave_reader_step l _ = none

  -- One step of a thread, by the function in which it stands.
  unfoldable pub step : Shared Semaphore → Place → Option (Shared Semaphore × Place)
  unfolding enter_writer_step leave_writer_step enter_reader_step leave_reader_step
  step l outside = none
  step l enter_writer = enter_writer_step l enter_writer
  step l writer_check = enter_writer_step l writer_check
  step l writer_wait_increment = enter_writer_step l writer_wait_increment
  step l writer_wait_release = enter_writer_step l writer_wait_release
  step l writer_wait = enter_writer_step l writer_wait
  step l writer_woken = enter_writer_step l writer_woken
  step l writer_wait_decrement = enter_writer_step l writer_wait_decrement
  step l writer_increment = enter_writer_step l writer_increment
  step l writer_entered = enter_writer_step l writer_entered
  step l writing = leave_writer_step l writing
  step l writer_decrement = leave_writer_step l writer_decrement
  step l writer_choose = leave_writer_step l writer_choose
  step l (writer_wake_readers index) = leave_writer_step l (writer_wake_readers index)
  step l writer_wake_writer = leave_writer_step l writer_wake_writer
  step l writer_left = leave_writer_step l writer_left
  step l enter_reader = enter_reader_step l enter_reader
  step l reader_check = enter_reader_step l reader_check
  step l reader_wait_increment = enter_reader_step l reader_wait_increment
  step l reader_wait_release = enter_reader_step l reader_wait_release
  step l reader_wait = enter_reader_step l reader_wait
  step l reader_woken = enter_reader_step l reader_woken
  step l reader_wait_decrement = enter_reader_step l reader_wait_decrement
  step l reader_increment = enter_reader_step l reader_increment
  step l reader_entered = enter_reader_step l reader_entered
  step l reading = leave_reader_step l reading
  step l reader_decrement = leave_reader_step l reader_decrement
  step l reader_check_last = leave_reader_step l reader_check_last
  step l reader_wake_writer = leave_reader_step l reader_wake_writer
  step l reader_left = leave_reader_step l reader_left

  abbrev pub protocol : Protocol
  protocol = record {
    Shared = Shared Semaphore;
    Place = Place;
    initial = initial;
    outside = outside;
    begin = begin;
    step = step;
  }
