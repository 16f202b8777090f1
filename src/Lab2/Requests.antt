-- ===== src/Lab2/Requests.antt =====
-- Requests of processes to the files of lab2/KboardModule.c, one after the other.
pub mod Session
pub mod Alike
use os_class.Common.{
  ℕ, ◌≡◌, ◌+◌, ◌%◌, ◌⊎◌, List, [], ◌∷◌, ◌++◌, ℤ, pos, Option, some, Outcome, done, ◌>>=◌, length,
  get_elem?,
}
use os_class.Fifo
use os_class.Ring.{ring_size, init_value, contents}
use os_class.Lab2.Kboard.{
  Board, Line, random_value, kboard_count, status_title, ring_heading, status_end, count,
  current_index, performed, solution, writer_write,
}
use os_class.Lab2.Kboard.Api.{CriticalSection, UserText}
use os_class.Lab2.Kboard.Remove.{removal}
use os_class.Lab2.Kboard.Write.{written}
use os_class.Lab2.Kboard.Look.{dump_lines}
use os_class.Lab2.Proc.{Show, writer_show, reader_show, counter_show, dumper_show, show}

-- What a process gets back: the value of its write, or the value of the Show function and the text.
pub data Reply : Type 0 where
  wrote : ℤ → Reply
  shown : ℤ → List Line → Reply

module _ (t : UserText) where
  -- A write to the writer's file, with the memory of the process, its address and length, and what
  -- the kernel's stack holds; or a read of the file of a Show function, with a random number.
  pub data Request : Type 0 where
    write : t.Mem → t.Ptr → ℕ → List ℕ → Request
    read : Show → ℕ → Request

module _ (cs : CriticalSection) (t : UserText) (sync_solution : ℕ) where
  open cs use {Lock}

  unfoldable pub respond : Request t → Board Lock → Outcome (Reply × Board Lock)
  respond (write m user length stale) b =
      writer_write cs t m user length stale b >>= λ r. done (wrote r.0, r.1)
  respond (read s random) b = show cs s random sync_solution b >>= λ r. done (shown r.0 r.1, r.2)

  unfoldable pub respond_all : List (Request t) → Board Lock → Outcome (List Reply × Board Lock)
  respond_all [] b = done ([], b)
  respond_all (r ∷ rs) b = do
    (reply, b₁) ← respond r b
    (replies, b₂) ← respond_all rs b₁
    done (reply ∷ replies, b₂)

  -- The lines of a dump of the queue, from some array that holds it.
  abbrev pub IsDump : List ℤ → Reply → Type 0
  IsDump q reply =
      (ring : List ℤ) × (index : ℤ) × (writers : ℤ) × (readers : ℤ) × (contents ring index
          (pos (length q))
        ≡ q)
      × (reply
          ≡ shown (pos 0) (dump_lines cs sync_solution ring (pos (length q)) index writers readers))

  -- What a queue may answer to a request, and the queue then.
  abbrev pub Answers : Request t → List ℤ → Reply → List ℤ → Type 0
  Answers (write m user n stale) q reply q' =
      (reply ≡ wrote (written cs t m user n stale q).0) × (q' ≡ (written cs t m user n stale q).1)
  Answers (read writer_show random) q reply q' =
      (reply ≡ shown (removal (Fifo.poll q) q).0 (removal (Fifo.poll q) q).1)
      × (q' ≡ (removal (Fifo.poll q) q).2)
  Answers (read reader_show random) q reply q' =
      (item : ℤ) × (reply ≡ shown (pos 0) (random_value (random % ring_size) item ∷ []))
      × ((item ≡ init_value) ⊎ ((k : ℕ) × (get_elem? q k ≡ some item)))
      × (q' ≡ q)
  Answers (read counter_show random) q reply q' =
      (reply ≡ shown (pos 0) (kboard_count (pos (length q)) ∷ [])) × (q' ≡ q)
  Answers (read dumper_show random) q reply q' = IsDump q reply × (q' ≡ q)

  -- What a queue may answer to requests in their order.
  pub data Trace : List ℤ → List (Request t) → List Reply → List ℤ → Type 0 where
    nothing : {q : List ℤ} → Trace q [] [] q
    answers :
        {r : Request t} {rs : List (Request t)} {reply : Reply} {replies : List Reply}
        {q q' q'' : List ℤ}
        → Answers r q reply q'
        → Trace q' rs replies q''
        → Trace q (r ∷ rs) (reply ∷ replies) q''
