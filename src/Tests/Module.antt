-- ===== src/Tests/Module.antt =====
-- The module of lab2/KboardModule.c from init to exit, with a file system that has one entry per name.
use mathlib.Core.Option
use mathlib.Core.Path.{subst}
use os_class.Common.{
  ◌≡◌, ◌≢◌, refl, Bool, true, false, Option, none, some, [], ◌∷◌, ℤ, pos, negsuc, Outcome, done,
  fault, if◌then◌else◌, add32, Bool-cases, ap, inl, inr,
}
use os_class.Lab2.Kboard.{initialize_kboard}
use os_class.Lab2.Kboard.Valid.{clips, IsValid}
use os_class.Lab2.Proc.Api.{Name, kboard, writer, reader, count, dump, ProcFs}
use os_class.Lab2.Proc.{FileOperations, initialize_proc}
use os_class.Lab2.Proc.Init.{Settled}
use os_class.Lab2.Module.{KboardModule, kboard_module_init, kboard_module_exit}
use os_class.Lab2.Module.Start
use os_class.Tests.Kboard.{section, three_clips}

same : Name → Name → Bool
same kboard kboard = true
same writer writer = true
same reader reader = true
same count count = true
same dump dump = true
same _ _ = false

same_refl : (n : Name) → same n n ≡ true
unfolding same
same_refl kboard = refl
same_refl writer = refl
same_refl reader = refl
same_refl count = refl
same_refl dump = refl

same-ne : (n m : Name) → n ≢ m → same n m ≡ false
unfolding same
same-ne kboard kboard h = absurd (h refl)
same-ne writer writer h = absurd (h refl)
same-ne reader reader h = absurd (h refl)
same-ne count count h = absurd (h refl)
same-ne dump dump h = absurd (h refl)
same-ne _ _ h = refl

-- What stands under each name.
abbrev Table : Type 0
Table = Name → Option (Option FileOperations)

abbrev put : Name → Option (Option FileOperations) → Table → Table
put n x fs k = if same k n then x else fs k

abbrev in_use : Option (Option FileOperations) → Bool
in_use none = false
in_use (some o) = true

abbrev entry : Name → Option (Option FileOperations) → Option (Name × Option FileOperations)
entry n none = none
entry n (some o) = some (n, o)

-- A name that is taken is refused.
abbrev create : Name → Option FileOperations → Table → Option Name × Table
create n o fs = if in_use (fs n) then (none, fs) else (some n, put n (some o) fs)

abbrev remove_tree : Name → Table → Table
remove_tree kboard fs = λ k. none
remove_tree n fs = put n none fs

abbrev remove : Option Name → Table → Outcome Table
remove none fs = done fs
remove (some n) fs = if in_use (fs n) then done (put n none fs) else fault

create_found :
    (n : Name) (o : Option FileOperations) (fs : Table) {e : Name}
    → (create n o fs).0 ≡ some e
    → entry n ((create n o fs).1 n) ≡ some (e, o)
create_found n o fs h = elim (Bool-cases (in_use (fs n))) [
  | inl taken ↦ absurd (cc (rw taken at h))
  | inr free ↦ rw (free, same_refl n) (ap (Option.map (λ k. (k, o))) (rw free at h))
]

create_others :
    (n k : Name) (o : Option FileOperations) (fs : Table)
    → k ≢ n
    → entry k ((create n o fs).1 k) ≡ entry k (fs k)
create_others n k o fs ne = elim (Bool-cases (in_use (fs n))) [
  | inl taken ↦ rw taken
  | inr free ↦ rw (free, same-ne k n ne)
]

entry_name :
    (n : Name) (x : Option (Option FileOperations)) {e : Name} {o : Option FileOperations}
    → entry n x ≡ some (e, o)
    → n ≡ e
entry_name n none h = absurd (cc h)
entry_name n (some o') h = cc h

put_freed :
    (n : Name) (fs : Table) {e : Name} {o : Option FileOperations}
    → entry n (fs n) ≡ some (e, o)
    → in_use (put n none fs e) ≡ false
put_freed n fs h =
    subst (λ k. in_use (put n none fs k) ≡ false) (entry_name n (fs n) h) (rw (same_refl n))

tree_freed :
    (n : Name) (fs : Table) {e : Name} {o : Option FileOperations}
    → entry n (fs n) ≡ some (e, o)
    → in_use (remove_tree n fs e) ≡ false
tree_freed kboard fs h = refl
tree_freed writer fs h = put_freed writer fs h
tree_freed reader fs h = put_freed reader fs h
tree_freed count fs h = put_freed count fs h
tree_freed dump fs h = put_freed dump fs h

abbrev file_system : ProcFs FileOperations
file_system = record {
  Fs = Table;
  Entry = Name;
  proc_mkdir = λ n p fs. create n none fs;
  proc_create = λ n p o fs. create n (some o) fs;
  remove_proc_entry = λ n p fs. put n none fs;
  remove_proc_subtree = λ n p fs. remove_tree n fs;
  proc_remove = remove;
  find = λ fs p n. entry n (fs n);
  is_live = λ fs e. in_use (fs e);
  find-proc_mkdir = λ n p fs h. create_found n none fs h;
  find-proc_create = λ n p o fs h. create_found n (some o) fs h;
  proc_create-other = λ n k p p' o fs ne. create_others n k (some o) fs ne;
  find-remove_proc_entry = λ n p fs. rw (same_refl n);
  remove_proc_subtree-frees = λ n p fs h. tree_freed n fs h;
  proc_remove-freed = λ e fs h. rw h;
}

-- The module as it is loaded, after the three clips of the other tests.
abbrev loaded : KboardModule section file_system
loaded = record {
  board = three_clips;
  files = record {
    fs = λ k. none;
    directory = none;
    writer_entry = none;
    reader_entry = none;
    counter_entry = none;
    dumper_entry = none;
  };
}

kboard_module_init-IsValid_example :
    (value : ℤ) × (m' : KboardModule section file_system) × (kboard_module_init section file_system
        loaded
      ≡ done (value, m'))
    × IsValid section m'.board
    × (clips m'.board ≡ [])
    × Settled file_system (value, m'.files)
kboard_module_init-IsValid_example =
    Start.kboard_module_init-IsValid section file_system loaded refl

abbrev running : KboardModule section file_system
running = record {
  board = record {
    lock = section.initial_lock;
    ring_buffer = negsuc 0 ∷ negsuc 0 ∷ negsuc 0 ∷ negsuc 0 ∷ negsuc 0 ∷ [];
    ring_buffer_count = pos 0;
    ring_buffer_current_index = pos 0;
    perform_writer = pos 0;
    perform_reader = pos 0;
  };
  files = (initialize_proc file_system loaded.files).1;
}

init_returns_zero : kboard_module_init section file_system loaded ≡ done (pos 0, running)
unfolding kboard_module_init initialize_kboard initialize_proc same add32
init_returns_zero = refl

kboard_module_exit_fails_example : kboard_module_exit section file_system running ≡ fault
kboard_module_exit_fails_example =
    Start.kboard_module_exit_fails section file_system loaded running refl init_returns_zero
