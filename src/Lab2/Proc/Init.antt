-- ===== src/Lab2/Proc/Init.antt =====
-- `InitializeProc`: what is found under /proc/kboard when it returns.
use os_class.Common.{
  ◌≡◌, ◌≢◌, refl, ◌∙◌, ◌⊎◌, inl, inr, Option, none, some, Option-cases, ℤ, pos, negsuc,
}
use os_class.Lab2.Proc.Api.{Name, kboard, writer, reader, count, dump, ProcFs}
use os_class.Lab2.Proc.{
  FileOperations, writer_file_operations, reader_file_operations, counter_file_operations,
  dumper_file_operations, Files, parent_directory, give_up, created_dumper, created_counter,
  created_reader, created_writer, created_directory, initialize_proc,
}

module _ (proc : ProcFs FileOperations) where
  open proc use {
    Fs, Entry, proc_mkdir, proc_create, find, find-proc_mkdir, find-proc_create, proc_create-other,
    find-remove_proc_entry,
  }

  -- A file with its operations stands in the directory, and its pointer is set.
  abbrev pub IsServed : Files proc → Name → Option Entry → FileOperations → Type 0
  IsServed s n pointer o =
      (e : Entry) × (pointer ≡ some e) × (find s.fs s.directory n ≡ some (e, some o))

  -- The directory exists, with its pointer set.
  abbrev pub IsMade : Files proc → Type 0
  IsMade s =
      (d : Entry) × (s.directory ≡ some d)
      × (find s.fs (parent_directory proc) kboard ≡ some (d, none))

  -- The directory with its four files.
  pub record Serves (s : Files proc) : Type 0 where
    pub made : IsMade s
    pub writes : IsServed s writer s.writer_entry writer_file_operations
    pub reads : IsServed s reader s.reader_entry reader_file_operations
    pub counts : IsServed s count s.counter_entry counter_file_operations
    pub dumps : IsServed s dump s.dumper_entry dumper_file_operations

  -- A return of 0 with everything in place, or of -1 with no directory.
  abbrev pub Settled : ℤ × Files proc → Type 0
  Settled r =
      ((r.0 ≡ pos 0) × Serves r.1)
      ⊎ ((r.0 ≡ negsuc 0)
          × ((r.1.directory ≡ none) ⊎ (find r.1.fs (parent_directory proc) kboard ≡ none)))

  give_up-Settled : (s : Files proc) → Settled (give_up proc s)
  unfolding give_up
  give_up-Settled s = inr (refl, inr (find-remove_proc_entry kboard (parent_directory proc) s.fs))

  module _ (s : Files proc) (m : IsMade s) where
    -- The creation of a file keeps the directory and the other files.
    kept :
        (n n' : Name) (o o' : FileOperations) (pointer : Option Entry)
        → n' ≢ n
        → IsServed s n' pointer o'
        → (e : Entry) × (pointer ≡ some e)
          × (find (proc_create n s.directory o s.fs).1 s.directory n' ≡ some (e, some o'))
    kept n n' o o' pointer ne (e, set, found) =
        (e, set, proc_create-other n n' s.directory s.directory o s.fs ne ∙ found)

    directory_kept :
        (n : Name) (o : FileOperations)
        → kboard ≢ n
        → (d : Entry) × (s.directory ≡ some d)
          × (find (proc_create n s.directory o s.fs).1 (parent_directory proc) kboard
              ≡ some (d, none))
    directory_kept n o ne =
        (m.0, m.1, proc_create-other n kboard s.directory (parent_directory proc) o s.fs ne ∙ m.2)

  from_counter :
      (s : Files proc) (e : Entry)
      → IsMade s
      → IsServed s writer s.writer_entry writer_file_operations
      → IsServed s reader s.reader_entry reader_file_operations
      → IsServed s count s.counter_entry counter_file_operations
      → Settled (created_counter proc (some e) s)
  unfolding created_counter created_dumper
  from_counter s e m w r c =
      elim (Option-cases (proc_create dump s.directory dumper_file_operations s.fs).0) [
        | inl fails ↦ rw fails (give_up-Settled _)
        | inr (f, made) ↦ rw made (
            inl (
              refl,
              record {
                made = directory_kept s m dump dumper_file_operations (λ h. absurd (cc h));
                writes = kept s m dump writer _ _ _ (λ h. absurd (cc h)) w;
                reads = kept s m dump reader _ _ _ (λ h. absurd (cc h)) r;
                counts = kept s m dump count _ _ _ (λ h. absurd (cc h)) c;
                dumps =
                    (f, refl, find-proc_create dump s.directory dumper_file_operations s.fs made);
              },
            ))
      ]

  from_reader :
      (s : Files proc) (e : Entry)
      → IsMade s
      → IsServed s writer s.writer_entry writer_file_operations
      → IsServed s reader s.reader_entry reader_file_operations
      → Settled (created_reader proc (some e) s)
  unfolding created_reader created_counter
  from_reader s e m w r =
      elim (Option-cases (proc_create count s.directory counter_file_operations s.fs).0) [
        | inl fails ↦ rw fails (give_up-Settled _)
        | inr (f, made) ↦ rw made (
            from_counter
              (record s {
                fs = (proc_create count s.directory counter_file_operations s.fs).1;
                counter_entry = some f;
              })
              f (directory_kept s m count counter_file_operations (λ h. absurd (cc h)))
              (kept s m count writer _ _ _ (λ h. absurd (cc h)) w)
              (kept s m count reader _ _ _ (λ h. absurd (cc h)) r)
              (f, refl, find-proc_create count s.directory counter_file_operations s.fs made))
      ]

  from_writer :
      (s : Files proc) (e : Entry)
      → IsMade s
      → IsServed s writer s.writer_entry writer_file_operations
      → Settled (created_writer proc (some e) s)
  unfolding created_writer created_reader
  from_writer s e m w =
      elim (Option-cases (proc_create reader s.directory reader_file_operations s.fs).0) [
        | inl fails ↦ rw fails (give_up-Settled _)
        | inr (f, made) ↦ rw made (
            from_reader
              (record s {
                fs = (proc_create reader s.directory reader_file_operations s.fs).1;
                reader_entry = some f;
              })
              f (directory_kept s m reader reader_file_operations (λ h. absurd (cc h)))
              (kept s m reader writer _ _ _ (λ h. absurd (cc h)) w)
              (f, refl, find-proc_create reader s.directory reader_file_operations s.fs made))
      ]

  from_directory :
      (s : Files proc) (e : Entry) → IsMade s → Settled (created_directory proc (some e) s)
  unfolding created_directory created_writer
  from_directory s e m =
      elim (Option-cases (proc_create writer s.directory writer_file_operations s.fs).0) [
        | inl fails ↦ rw fails (give_up-Settled _)
        | inr (f, made) ↦ rw made (
            from_writer
              (record s {
                fs = (proc_create writer s.directory writer_file_operations s.fs).1;
                writer_entry = some f;
              })
              f (directory_kept s m writer writer_file_operations (λ h. absurd (cc h)))
              (f, refl, find-proc_create writer s.directory writer_file_operations s.fs made))
      ]

  -- `InitializeProc` returns 0, and then /proc/kboard holds the four files, each with its own
  -- operations, and the five pointers are set; or it returns -1, and then the pointer of the directory
  -- is NULL or there is no /proc/kboard.
  pub initialize_proc-Settled : (s : Files proc) → Settled (initialize_proc proc s)
  unfolding initialize_proc created_directory
  initialize_proc-Settled s =
      elim (Option-cases (proc_mkdir kboard (parent_directory proc) s.fs).0) [
        | inl fails ↦ rw fails (inr (refl, inl refl))
        | inr (d, made) ↦ rw made (
            from_directory
              (record s {
                fs = (proc_mkdir kboard (parent_directory proc) s.fs).1;
                directory = some d;
              })
              d (d, refl, find-proc_mkdir kboard (parent_directory proc) s.fs made))
      ]
