-- ===== src/Lab2/Sync/Solution2.antt =====
-- lab2/KboardModule.c with SYNC_SOLUTION 2, where writers come before readers.
pub mod Inv
pub mod WriterSteps
pub mod ReaderSteps
pub mod Counts
pub mod Always
pub mod Safety
pub mod Gate
pub mod Ready
pub mod Progress
pub mod Section
use mathlib.Core.Option
use os_class.Common.{ℕ, Option, none, some, ℤ, pos, inc32, dec32, eqb_ℤ, if◌then◌else◌}
use os_class.Lab2.Sync.Semaphores.{Semaphores, initialize_semaphore}
use os_class.Lab2.Sync.System.{Role, Protocol}

-- The four semaphores, `WriterCount` and `ReaderCount`.
pub record Shared (Semaphore : Type 0) : Type 0 where
  pub semaphore_writer_mutex : Semaphore
  pub semaphore_reader_mutex : Semaphore
  pub semaphore_writer : Semaphore
  pub semaphore_reader : Semaphore
  pub writer_count : ℤ
  pub reader_count : ℤ

-- Before which statement of the four functions a thread stands.
pub data Place : Type 0 where
  outside : Place
  enter_writer : Place  -- down(&SemaphoreWriterMutex)
  writer_increment : Place  -- WriterCount++
  writer_test_first : Place  -- if (WriterCount == 1)
  writer_down_reader : Place  -- down(&SemaphoreReader)
  writer_counted : Place  -- up(&SemaphoreWriterMutex)
  writer_down_writer : Place  -- down(&SemaphoreWriter)
  writing : Place  -- up(&SemaphoreWriter)
  writer_leaving : Place  -- down(&SemaphoreWriterMutex)
  writer_decrement : Place  -- WriterCount--
  writer_test_last : Place  -- if (WriterCount == 0)
  writer_up_reader : Place  -- up(&SemaphoreReader)
  writer_left : Place  -- up(&SemaphoreWriterMutex)
  enter_reader : Place  -- down(&SemaphoreReader)
  reader_passing : Place  -- up(&SemaphoreReader)
  reader_down_mutex : Place  -- down(&SemaphoreReaderMutex)
  reader_increment : Place  -- ReaderCount++
  reader_test_first : Place  -- if (ReaderCount == 1)
  reader_down_writer : Place  -- down(&SemaphoreWriter)
  reader_entered : Place  -- up(&SemaphoreReaderMutex)
  reading : Place  -- down(&SemaphoreReaderMutex)
  reader_decrement : Place  -- ReaderCount--
  reader_test_last : Place  -- if (ReaderCount == 0)
  reader_up_writer : Place  -- up(&SemaphoreWriter)
  reader_left : Place  -- up(&SemaphoreReaderMutex)

abbrev pub begin : Role → Place
begin Role.writer = enter_writer
begin Role.reader = enter_reader

module _ (sem : Semaphores) where
  open sem use {Semaphore, down, up}

  -- `InitializeSyncSolution`
  abbrev pub initial : Shared Semaphore
  initial = record {
    semaphore_writer_mutex = initialize_semaphore sem 1;
    semaphore_reader_mutex = initialize_semaphore sem 1;
    semaphore_writer = initialize_semaphore sem 1;
    semaphore_reader = initialize_semaphore sem 1;
    writer_count = pos 0;
    reader_count = pos 0;
  }

  -- `EnterCriticalSection_Writer`, and `none` at the places of the other functions.
  pub enter_writer_step : Shared Semaphore → Place → Option (Shared Semaphore × Place)
  enter_writer_step l enter_writer =
      Option.map (λ s. (record l { semaphore_writer_mutex = s }, writer_increment))
        (down l.semaphore_writer_mutex)
  enter_writer_step l writer_increment =
      some (record l { writer_count = inc32 l.writer_count }, writer_test_first)
  enter_writer_step l writer_test_first =
      some (l, if eqb_ℤ l.writer_count (pos 1) then writer_down_reader else writer_counted)
  enter_writer_step l writer_down_reader =
      Option.map (λ s. (record l { semaphore_reader = s }, writer_counted))
        (down l.semaphore_reader)
  enter_writer_step l writer_counted =
      some (record l { semaphore_writer_mutex = up l.semaphore_writer_mutex }, writer_down_writer)
  enter_writer_step l writer_down_writer =
      Option.map (λ s. (record l { semaphore_writer = s }, writing)) (down l.semaphore_writer)
  enter_writer_step l _ = none

  -- `LeaveCriticalSection_Writer`
  pub leave_writer_step : Shared Semaphore → Place → Option (Shared Semaphore × Place)
  leave_writer_step l writing =
      some (record l { semaphore_writer = up l.semaphore_writer }, writer_leaving)
  leave_writer_step l writer_leaving =
      Option.map (λ s. (record l { semaphore_writer_mutex = s }, writer_decrement))
        (down l.semaphore_writer_mutex)
  leave_writer_step l writer_decrement =
      some (record l { writer_count = dec32 l.writer_count }, writer_test_last)
  leave_writer_step l writer_test_last =
      some (l, if eqb_ℤ l.writer_count (pos 0) then writer_up_reader else writer_left)
  leave_writer_step l writer_up_reader =
      some (record l { semaphore_reader = up l.semaphore_reader }, writer_left)
  leave_writer_step l writer_left =
      some (record l { semaphore_writer_mutex = up l.semaphore_writer_mutex }, outside)
  leave_writer_step l _ = none

  -- `EnterCriticalSection_Reader`
  pub enter_reader_step : Shared Semaphore → Place → Option (Shared Semaphore × Place)
  enter_reader_step l enter_reader =
      Option.map (λ s. (record l { semaphore_reader = s }, reader_passing))
        (down l.semaphore_reader)
  enter_reader_step l reader_passing =
      some (record l { semaphore_reader = up l.semaphore_reader }, reader_down_mutex)
  enter_reader_step l reader_down_mutex =
      Option.map (λ s. (record l { semaphore_reader_mutex = s }, reader_increment))
        (down l.semaphore_reader_mutex)
  enter_reader_step l reader_increment =
      some (record l { reader_count = inc32 l.reader_count }, reader_test_first)
  enter_reader_step l reader_test_first =
      some (l, if eqb_ℤ l.reader_count (pos 1) then reader_down_writer else reader_entered)
  enter_reader_step l reader_down_writer =
      Option.map (λ s. (record l { semaphore_writer = s }, reader_entered))
        (down l.semaphore_writer)
  enter_reader_step l reader_entered =
      some (record l { semaphore_reader_mutex = up l.semaphore_reader_mutex }, reading)
  enter_reader_step l _ = none

  -- `LeaveCriticalSection_Reader`
  pub leave_reader_step : Shared Semaphore → Place → Option (Shared Semaphore × Place)
  leave_reader_step l reading =
      Option.map (λ s. (record l { semaphore_reader_mutex = s }, reader_decrement))
        (down l.semaphore_reader_mutex)
  leave_reader_step l reader_decrement =
      some (record l { reader_count = dec32 l.reader_count }, reader_test_last)
  leave_reader_step l reader_test_last =
      some (l, if eqb_ℤ l.reader_count (pos 0) then reader_up_writer else reader_left)
  leave_reader_step l reader_up_writer =
      some (record l { semaphore_writer = up l.semaphore_writer }, reader_left)
  leave_reader_step l reader_left =
      some (record l { semaphore_reader_mutex = up l.semaphore_reader_mutex }, outside)
  leave_reader_step l _ = none

  -- One step of a thread, by the function in which it stands.
  unfoldable pub step : Shared Semaphore → Place → Option (Shared Semaphore × Place)
  unfolding enter_writer_step leave_writer_step enter_reader_step leave_reader_step
  step l outside = none
  step l enter_writer = enter_writer_step l enter_writer
  step l writer_increment = enter_writer_step l writer_increment
  step l writer_test_first = enter_writer_step l writer_test_first
  step l writer_down_reader = enter_writer_step l writer_down_reader
  step l writer_counted = enter_writer_step l writer_counted
  step l writer_down_writer = enter_writer_step l writer_down_writer
  step l writing = leave_writer_step l writing
  step l writer_leaving = leave_writer_step l writer_leaving
  step l writer_decrement = leave_writer_step l writer_decrement
  step l writer_test_last = leave_writer_step l writer_test_last
  step l writer_up_reader = leave_writer_step l writer_up_reader
  step l writer_left = leave_writer_step l writer_left
  step l enter_reader = enter_reader_step l enter_reader
  step l reader_passing = enter_reader_step l reader_passing
  step l reader_down_mutex = enter_reader_step l reader_down_mutex
  step l reader_increment = enter_reader_step l reader_increment
  step l reader_test_first = enter_reader_step l reader_test_first
  step l reader_down_writer = enter_reader_step l reader_down_writer
  step l reader_entered = enter_reader_step l reader_entered
  step l reading = leave_reader_step l reading
  step l reader_decrement = leave_reader_step l reader_decrement
  step l reader_test_last = leave_reader_step l reader_test_last
  step l reader_up_writer = leave_reader_step l reader_up_writer
  step l reader_left = leave_reader_step l reader_left

  abbrev pub protocol : Protocol
  protocol = record {
    Shared = Shared Semaphore;
    Place = Place;
    initial = initial;
    outside = outside;
    begin = begin;
    step = step;
  }
