-- ===== src/Lab2/Sync/Solution1.antt =====
-- lab2/KboardModule.c with SYNC_SOLUTION 1, where readers come before writers.
pub mod Inv
pub mod Steps
pub mod Count
pub mod Always
pub mod Safety
pub mod Progress
pub mod Counter
pub mod Section
use mathlib.Core.Option
use os_class.Common.{ℕ, Option, none, some, ℤ, pos, inc32, dec32, eqb_ℤ, if◌then◌else◌}
use os_class.Lab2.Sync.Semaphores.{Semaphores, initialize_semaphore}
use os_class.Lab2.Sync.System.{Role, Protocol}

-- `SemaphoreMutex`, `SemaphoreWriter` and `ReaderCount`.
pub record Shared (Semaphore : Type 0) : Type 0 where
  pub semaphore_mutex : Semaphore
  pub semaphore_writer : Semaphore
  pub reader_count : ℤ

-- Before which statement of the four functions a thread stands; `writing` and `reading` lie between
-- the return of an Enter function and the first statement of the Leave function.
pub data Place : Type 0 where
  outside : Place
  enter_writer : Place  -- down(&SemaphoreWriter)
  writing : Place  -- up(&SemaphoreWriter)
  enter_reader : Place  -- down(&SemaphoreMutex)
  reader_increment : Place  -- ReaderCount++
  reader_test_first : Place  -- if (ReaderCount == 1)
  reader_down_writer : Place  -- down(&SemaphoreWriter)
  reader_entered : Place  -- up(&SemaphoreMutex)
  reading : Place  -- down(&SemaphoreMutex)
  reader_decrement : Place  -- ReaderCount--
  reader_test_last : Place  -- if (ReaderCount == 0)
  reader_up_writer : Place  -- up(&SemaphoreWriter)
  reader_left : Place  -- up(&SemaphoreMutex)

abbrev pub begin : Role → Place
begin Role.writer = enter_writer
begin Role.reader = enter_reader

module _ (sem : Semaphores) where
  open sem use {Semaphore, down, up}

  -- `InitializeSyncSolution`
  abbrev pub initial : Shared Semaphore
  initial = record {
    semaphore_mutex = initialize_semaphore sem 1;
    semaphore_writer = initialize_semaphore sem 1;
    reader_count = pos 0;
  }

  -- `EnterCriticalSection_Writer`
  enter_writer_step : Shared Semaphore → Option (Shared Semaphore × Place)
  enter_writer_step l =
      Option.map (λ s. (record l { semaphore_writer = s }, writing)) (down l.semaphore_writer)

  -- `LeaveCriticalSection_Writer`
  leave_writer_step : Shared Semaphore → Option (Shared Semaphore × Place)
  leave_writer_step l = some (record l { semaphore_writer = up l.semaphore_writer }, outside)

  -- `EnterCriticalSection_Reader`, and `none` at the places of the other functions.
  enter_reader_step : Shared Semaphore → Place → Option (Shared Semaphore × Place)
  enter_reader_step l enter_reader =
      Option.map (λ s. (record l { semaphore_mutex = s }, reader_increment))
        (down l.semaphore_mutex)
  enter_reader_step l reader_increment =
      some (record l { reader_count = inc32 l.reader_count }, reader_test_first)
  enter_reader_step l reader_test_first =
      some (l, if eqb_ℤ l.reader_count (pos 1) then reader_down_writer else reader_entered)
  enter_reader_step l reader_down_writer =
      Option.map (λ s. (record l { semaphore_writer = s }, reader_entered))
        (down l.semaphore_writer)
  enter_reader_step l reader_entered =
      some (record l { semaphore_mutex = up l.semaphore_mutex }, reading)
  enter_reader_step l _ = none

  -- `LeaveCriticalSection_Reader`
  leave_reader_step : Shared Semaphore → Place → Option (Shared Semaphore × Place)
  leave_reader_step l reading =
      Option.map (λ s. (record l { semaphore_mutex = s }, reader_decrement))
        (down l.semaphore_mutex)
  leave_reader_step l reader_decrement =
      some (record l { reader_count = dec32 l.reader_count }, reader_test_last)
  leave_reader_step l reader_test_last =
      some (l, if eqb_ℤ l.reader_count (pos 0) then reader_up_writer else reader_left)
  leave_reader_step l reader_up_writer =
      some (record l { semaphore_writer = up l.semaphore_writer }, reader_left)
  leave_reader_step l reader_left =
      some (record l { semaphore_mutex = up l.semaphore_mutex }, outside)
  leave_reader_step l _ = none

  -- One step of a thread, by the function in which it stands.
  unfoldable pub step : Shared Semaphore → Place → Option (Shared Semaphore × Place)
  unfolding enter_writer_step leave_writer_step enter_reader_step leave_reader_step
  step l outside = none
  step l enter_writer = enter_writer_step l
  step l writing = leave_writer_step l
  step l enter_reader = enter_reader_step l enter_reader
  step l reader_increment = enter_reader_step l reader_increment
  step l reader_test_first = enter_reader_step l reader_test_first
  step l reader_down_writer = enter_reader_step l reader_down_writer
  step l reader_entered = enter_reader_step l reader_entered
  step l reading = leave_reader_step l reading
  step l reader_decrement = leave_reader_step l reader_decrement
  step l reader_test_last = leave_reader_step l reader_test_last
  step l reader_up_writer = leave_reader_step l reader_up_writer
  step l reader_left = leave_reader_step l reader_left

  abbrev pub protocol : Protocol
  protocol = record {
    Shared = Shared Semaphore;
    Place = Place;
    initial = initial;
    outside = outside;
    begin = begin;
    step = step;
  }
