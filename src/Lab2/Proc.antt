-- ===== src/Lab2/Proc.antt =====
-- lab2/KboardModule.c: the four files under /proc/kboard, and the module's init and exit.
pub mod Api
pub mod Init
pub mod Exit
use os_class.Common.{
  ℕ, List, Bool, true, false, Option, none, some, ℤ, pos, negsuc, Outcome, done, ◌>>=◌,
}
use os_class.Lab2.Kboard as Handlers
use os_class.Lab2.Kboard.Api.{CriticalSection, UserText}
use Api.{Name, kboard, writer, reader, count, dump, ProcFs}

-- The function that an Open function gives to `single_open`.
pub data Show : Type 0 where
  writer_show reader_show counter_show dumper_show : Show

-- `open` and `write` of a `file_operations`; `read`, `llseek` and `release` are the same in all four.
pub record FileOperations : Type 0 where
  pub open_show : Show
  pub has_write : Bool

abbrev pub writer_file_operations : FileOperations
writer_file_operations = record { open_show = writer_show; has_write = true }

abbrev pub reader_file_operations : FileOperations
reader_file_operations = record { open_show = reader_show; has_write = false }

abbrev pub counter_file_operations : FileOperations
counter_file_operations = record { open_show = counter_show; has_write = false }

abbrev pub dumper_file_operations : FileOperations
dumper_file_operations = record { open_show = dumper_show; has_write = false }

module _ (cs : CriticalSection) where
  open cs use {Lock}

  -- A read of an open file, which `seq_read` passes to the Show function, with the random number that
  -- a reader draws.
  unfoldable pub show :
      Show → ℕ → ℕ → Handlers.Board Lock → Outcome (ℤ × List Handlers.Line × Handlers.Board Lock)
  show writer_show random sync_solution b = Handlers.writer_show cs b
  show reader_show random sync_solution b = Handlers.reader_show cs random b
  show counter_show random sync_solution b =
      let r = Handlers.counter_show cs b in done (r.0, r.1, b)
  show dumper_show random sync_solution b =
      Handlers.dumper_show cs sync_solution b >>= λ r. done (r.0, r.1, b)

module _ (proc : ProcFs FileOperations) where
  open proc use {
    Fs, Entry, proc_mkdir, proc_create, remove_proc_entry, remove_proc_subtree, proc_remove,
  }

  -- The file system and the five `KboardProc` pointers.
  pub record Files : Type 0 where
    pub fs : Fs
    pub directory : Option Entry
    pub writer_entry : Option Entry
    pub reader_entry : Option Entry
    pub counter_entry : Option Entry
    pub dumper_entry : Option Entry

  -- `ParentDirectory`
  abbrev pub parent_directory : Option Entry
  parent_directory = none

  -- The error path of `InitializeProc` once the directory exists.
  give_up : Files → ℤ × Files
  give_up s = (negsuc 0, record s { fs = remove_proc_entry kboard parent_directory s.fs })

  -- `InitializeProc` behind each of its five calls, with the pointer that the call gave.
  created_dumper : Option Entry → Files → ℤ × Files
  unfolding give_up
  created_dumper none s = give_up s
  created_dumper (some e) s = (pos 0, s)

  created_counter : Option Entry → Files → ℤ × Files
  unfolding created_dumper
  created_counter none s = give_up s
  created_counter (some e) s =
      let r = proc_create dump s.directory dumper_file_operations s.fs in
      created_dumper r.0 (record s { fs = r.1; dumper_entry = r.0 })

  created_reader : Option Entry → Files → ℤ × Files
  unfolding created_counter
  created_reader none s = give_up s
  created_reader (some e) s =
      let r = proc_create count s.directory counter_file_operations s.fs in
      created_counter r.0 (record s { fs = r.1; counter_entry = r.0 })

  created_writer : Option Entry → Files → ℤ × Files
  unfolding created_reader
  created_writer none s = give_up s
  created_writer (some e) s =
      let r = proc_create reader s.directory reader_file_operations s.fs in
      created_reader r.0 (record s { fs = r.1; reader_entry = r.0 })

  created_directory : Option Entry → Files → ℤ × Files
  unfolding created_writer
  created_directory none s = (negsuc 0, s)
  created_directory (some e) s =
      let r = proc_create writer s.directory writer_file_operations s.fs in
      created_writer r.0 (record s { fs = r.1; writer_entry = r.0 })

  unfoldable pub initialize_proc : Files → ℤ × Files
  unfolding created_directory
  initialize_proc s =
      let r = proc_mkdir kboard parent_directory s.fs in
      created_directory r.0 (record s { fs = r.1; directory = r.0 })

  -- `DestroyProc`
  unfoldable pub destroy_proc : Files → Outcome Files
  destroy_proc s =
      proc_remove s.directory (remove_proc_subtree kboard parent_directory s.fs)
      >>= proc_remove s.writer_entry
      >>= proc_remove s.reader_entry
      >>= proc_remove s.counter_entry
      >>= proc_remove s.dumper_entry
      >>= λ fs. done (record s { fs = fs })
