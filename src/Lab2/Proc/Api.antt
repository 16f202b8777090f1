-- ===== src/Lab2/Proc/Api.antt =====
-- What KboardModule.c uses of the kernel's proc file system and does not implement.
use os_class.Common.{◌≡◌, ◌≢◌, Bool, false, Option, none, some, Outcome, fault}

-- `KBOARD_DIRECTORY`, `KBOARD_WRITER`, `KBOARD_READER`, `KBOARD_COUNTER` and `KBOARD_DUMPER`.
pub data Name : Type 0 where
  kboard writer reader count dump : Name

-- Directories and files, for files that carry operations of type `Operations`. A parent `none` is the
-- root of the file system, and a pointer `none` is NULL.
pub record ProcFs (Operations : Type 0) : Type 1 where
  pub Fs : Type 0
  pub Entry : Type 0
  pub proc_mkdir : Name → Option Entry → Fs → Option Entry × Fs
  pub proc_create : Name → Option Entry → Operations → Fs → Option Entry × Fs
  pub remove_proc_entry : Name → Option Entry → Fs → Fs
  pub remove_proc_subtree : Name → Option Entry → Fs → Fs
  pub proc_remove : Option Entry → Fs → Outcome Fs
  -- What stands under a name in a directory, with the operations of a file; whether the memory of an
  -- entry is still in use.
  pub find : Fs → Option Entry → Name → Option (Entry × Option Operations)
  pub is_live : Fs → Entry → Bool
  -- What is created is found, and nothing under another name changes.
  pub find-proc_mkdir :
      (n : Name) (p : Option Entry) (fs : Fs) {e : Entry}
      → (proc_mkdir n p fs).0 ≡ some e
      → find (proc_mkdir n p fs).1 p n ≡ some (e, none)
  pub find-proc_create :
      (n : Name) (p : Option Entry) (o : Operations) (fs : Fs) {e : Entry}
      → (proc_create n p o fs).0 ≡ some e
      → find (proc_create n p o fs).1 p n ≡ some (e, some o)
  pub proc_create-other :
      (n n' : Name) (p p' : Option Entry) (o : Operations) (fs : Fs)
      → n' ≢ n
      → find (proc_create n p o fs).1 p' n' ≡ find fs p' n'
  -- What is removed is not found, and a removed subtree is freed.
  pub find-remove_proc_entry :
      (n : Name) (p : Option Entry) (fs : Fs) → find (remove_proc_entry n p fs) p n ≡ none
  pub remove_proc_subtree-frees :
      (n : Name) (p : Option Entry) (fs : Fs) {e : Entry} {o : Option Operations}
      → find fs p n ≡ some (e, o)
      → is_live (remove_proc_subtree n p fs) e ≡ false
  -- `proc_remove` reads the name and the parent of its entry.
  pub proc_remove-freed :
      (e : Entry) (fs : Fs) → is_live fs e ≡ false → proc_remove (some e) fs ≡ fault
