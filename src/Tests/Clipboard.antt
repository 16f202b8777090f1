-- ===== src/Tests/Clipboard.antt =====
-- lab1/kernel/os_kboard.c and the programs of lab1/user on concrete inputs, with a kernel whose lock
-- is a truth value and a process whose memory is one `int` at a good address.
use os_class.Common.{
  ℕ, ◌≡◌, refl, Bool, true, false, Option, none, some, List, [], ◌∷◌, ℤ, pos, negsuc, done, arith,
  add32, replicate,
}
use os_class.Common.Int.{wrap32}
use os_class.Ring.{ring_size, init_value}
use os_class.Fifo
use os_class.Lab1.Kernel.{Kboard, do_sys_kb_enqueue, do_sys_kb_dequeue, do_sys_kb_init}
use os_class.Lab1.Kernel.Api.{KernelApi}
use os_class.Lab1.Kernel.Inv.{clips, IsValid}
use os_class.Lab1.Kernel.Enqueue
use os_class.Lab1.Kernel.Dequeue
use os_class.Lab1.Kernel.Init
use os_class.Lab1.Kernel.Failed
use os_class.Lab1.Kernel.RoundTrip
use os_class.Lab1.User.{World, copy_main, paste_main}
use os_class.Lab1.User.Atoi.{atoi}
use os_class.Lab1.User.Calls.{queue}
use os_class.Lab1.User.Programs
use os_class.Lab1.User.Exchange.{Turn, copies, pastes, Session, exchange, InStep}
use os_class.Lab1.User.Exchange

take_lock : Bool → Option Bool
take_lock true = some false
take_lock false = none

take_lock-none : (l : Bool) → take_lock l ≡ none → l ≡ false
unfolding take_lock
take_lock-none true h = absurd (cc h)
take_lock-none false h = refl

take_lock-some : (l : Bool) {held : Bool} → take_lock l ≡ some held → held ≡ false
unfolding take_lock
take_lock-some true h = ground arith
take_lock-some false h = absurd (cc h)

-- The copy to the bad address leaves its four bytes uncopied.
copy : ℤ → Bool → ℤ → ℕ × ℤ
copy m true v = (0, v)
copy m false v = (4, m)

load-copy : (m : ℤ) (p : Bool) (v : ℤ) → (copy m p v).0 ≡ 0 → (copy m p v).1 ≡ v
unfolding copy
load-copy m true v h = refl
load-copy m false v h = absurd (omega (arith, h))

abbrev machine : KernelApi
machine = record {
  Lock = Bool;
  is_free = λ l. l;
  spin_lock_init = true;
  spin_lock = take_lock;
  spin_unlock = λ l. true;
  is_free-init = refl;
  spin_lock-none = take_lock-none;
  spin_lock-some = take_lock-some;
  is_free-unlock = λ l. refl;
  Ptr = Bool;
  Mem = ℤ;
  copy_to_user = copy;
  load_int = λ m p. m;
  load_int-copy = load-copy;
}

-- Three clips, from the fourth slot around the end of the array.
abbrev three_clips : Kboard Bool
three_clips = record {
  lock = true;
  ring = pos 9 ∷ negsuc 0 ∷ negsuc 0 ∷ pos 7 ∷ pos 8 ∷ [];
  count = pos 3;
  current_index = pos 3;
}

three_clips-IsValid : IsValid machine three_clips
three_clips-IsValid = record {
  unlocked = refl;
  in_order = record {
    size = refl;
    index_sign = refl;
    index_in = omega arith;
    count_sign = refl;
    count_in = omega arith;
  };
  nonnegative = (refl, (refl, (refl, tt)));
}

enqueue_refines_example : Enqueue.Enqueued machine (pos 4) three_clips
enqueue_refines_example = Enqueue.enqueue_refines machine (pos 4) three_clips three_clips-IsValid

dequeue_refines_example : Dequeue.Dequeued machine true (pos 0) three_clips
dequeue_refines_example =
    Dequeue.dequeue_refines machine true (pos 0) three_clips three_clips-IsValid

do_sys_kb_init_lem_example :
    (k' : Kboard Bool) × (do_sys_kb_init machine three_clips ≡ done (pos 0, k'))
    × IsValid machine k'
    × (clips k' ≡ [])
    × (k'.ring ≡ replicate ring_size init_value)
do_sys_kb_init_lem_example = Init.do_sys_kb_init_lem machine three_clips refl

-- The wrapped ring takes two clips more and then refuses.
fills_up :
    do_sys_kb_enqueue machine (pos 4) three_clips
    ≡ done (
      pos 0,
      record three_clips { ring = pos 9 ∷ pos 4 ∷ negsuc 0 ∷ pos 7 ∷ pos 8 ∷ []; count = pos 4 },
    )
unfolding do_sys_kb_enqueue take_lock add32
fills_up = refl

-- A copy to the bad address keeps the clip.
keeps_clip :
    do_sys_kb_dequeue machine false (pos 0) three_clips ≡ done (negsuc 1, three_clips, pos 0)
unfolding do_sys_kb_dequeue take_lock copy
keeps_clip = refl

dequeue-Untouched_example : Failed.Untouched three_clips three_clips × (◌≡◌ {A = Bool} true true)
dequeue-Untouched_example =
    Failed.dequeue-Untouched machine false (pos 0) (pos 0) three_clips three_clips (negsuc 1)
      keeps_clip (λ e. cc e)

abbrev full_board : Kboard Bool
full_board = record three_clips { ring = pos 9 ∷ pos 4 ∷ pos 5 ∷ pos 7 ∷ pos 8 ∷ []; count = pos 5 }

refuses : do_sys_kb_enqueue machine (pos 6) full_board ≡ done (negsuc 0, full_board)
unfolding do_sys_kb_enqueue take_lock add32
refuses = refl

enqueue-Untouched_example : Failed.Untouched full_board full_board × (◌≡◌ {A = Bool} true true)
enqueue-Untouched_example =
    Failed.enqueue-Untouched machine (pos 6) full_board full_board (negsuc 0) refl refuses
      (λ e. cc e)

good_address : (m : ℤ) (x : ℤ) → (copy m true x).0 ≡ 0
unfolding copy
good_address m x = refl

enqueued_clips-dequeued_example :
    (k₁ : Kboard Bool) × (k₂ : Kboard Bool) × (m₂ : ℤ) × (RoundTrip.enqueue_all machine
        (pos 4 ∷ pos 5 ∷ [])
        three_clips
      ≡ done (pos 0 ∷ pos 0 ∷ [], k₁))
    × (RoundTrip.dequeue_all machine 5 true (pos 0) k₁
        ≡ done (
          (pos 0, pos 7) ∷ (pos 0, pos 8) ∷ (pos 0, pos 9) ∷ (pos 0, pos 4) ∷ (pos 0, pos 5) ∷ [],
          k₂,
          m₂,
        ))
    × IsValid machine k₂
    × (clips k₂ ≡ [])
enqueued_clips-dequeued_example =
    RoundTrip.enqueued_clips-dequeued machine true good_address (pos 4 ∷ pos 5 ∷ []) (pos 0)
      three_clips three_clips-IsValid (refl, (refl, tt)) (omega arith)

abbrev world : World Bool ℤ
world = record { board = three_clips; memory = pos 0 }

abbrev forty_two : List ℕ
forty_two = b' ' ∷ b'4' ∷ b'2' ∷ b'x' ∷ []

abbrev twenty_digits : List ℕ
twenty_digits = replicate 20 b'9'

reads_number : atoi forty_two ≡ pos 42
unfolding atoi wrap32
reads_number = refl

reads_sign : atoi (b'-' ∷ b'7' ∷ []) ≡ negsuc 6
unfolding atoi wrap32
reads_sign = refl

-- A number beyond `long` is read as 2^63 - 1, whose low half is -1 as an `int`, and one below it as
-- -2^63, whose low half is 0.
reads_beyond_long : atoi twenty_digits ≡ negsuc 0
unfolding atoi wrap32
reads_beyond_long = refl

reads_below_long : atoi (b'-' ∷ twenty_digits) ≡ pos 0
unfolding atoi wrap32
reads_below_long = refl

copy_main_refines_example :
    let r = Fifo.enqueue (atoi forty_two) (queue machine world) in
    let report = Programs.copy_report (atoi forty_two) r in
    (w' : World Bool ℤ) × (copy_main machine (forty_two ∷ []) world ≡ done (report.0, report.1, w'))
    × IsValid machine w'.board
    × (queue machine w' ≡ r.1)
copy_main_refines_example =
    Programs.copy_main_refines machine forty_two [] world three_clips-IsValid

paste_main_refines_example :
    let (_, clip, rest) =
      Fifo.dequeue (Dequeue.delivers machine true (pos 0)) (queue machine world) in
    let report = Programs.paste_report clip in
    (w' : World Bool ℤ) × (paste_main machine true world ≡ done (report.0, report.1, w'))
    × IsValid machine w'.board
    × (queue machine w' ≡ rest)
paste_main_refines_example = Programs.paste_main_refines machine true world three_clips-IsValid

abbrev session : Session Bool ℤ
session = record {
  value = pos 10;
  paster = record { expect_value = pos 7; iteration = pos 0; printed = none };
  world = world;
}

session-InStep : InStep machine true 7 3 session
session-InStep = record {
  valid = three_clips-IsValid;
  expected = refl;
  next = refl;
  between = refl;
  silent = refl;
}

exchange-InStep_example :
    (s' : Session Bool ℤ) × (exchange machine true (copies ∷ pastes ∷ copies ∷ []) session
      ≡ done s')
    × (e' : ℕ) × (k' : ℕ) × InStep machine true e' k' s'
exchange-InStep_example =
    Exchange.exchange-InStep machine true (copies ∷ pastes ∷ copies ∷ []) 7 3 session session-InStep
      (omega arith)
