-- ===== src/Lab2/Requests/Session.antt =====
-- Sequences of requests to lab2/KboardModule.c against the answers of a queue.
use os_class.Common.{ℕ, ◌≡◌, refl, sym, ap, ◌∙◌, List, [], ◌∷◌, pos, done, length}
use os_class.Ring.{contents}
use os_class.Ring.Slots
use os_class.Lab2.Kboard.{Board, kboard_count, counter_show}
use os_class.Lab2.Kboard.Api.{CriticalSection, UserText}
use os_class.Lab2.Kboard.Valid.{clips, IsValid}
use os_class.Lab2.Kboard.Remove.{remove_refines}
use os_class.Lab2.Kboard.Write.{write_refines}
use os_class.Lab2.Kboard.Look.{reader_show_lem, dump_lines, dumper_show_lem}
use os_class.Lab2.Proc as Proc
use os_class.Lab2.Requests.{
  Reply, shown, Request, write, read, respond, respond_all, Answers, Trace, nothing, answers,
}

module _ (cs : CriticalSection) (t : UserText) (sync_solution : ℕ) where
  open cs use {Lock}

  abbrev Answered : Request t → Board Lock → Type 0
  Answered r b =
      (reply : Reply) × (b' : Board Lock) × (respond cs t sync_solution r b ≡ done (reply, b'))
      × IsValid cs b'
      × Answers cs t sync_solution r (clips b) reply (clips b')

  module _ (b : Board Lock) (v : IsValid cs b) where
    count_shown : b.ring_buffer_count ≡ pos (length (clips b))
    count_shown = v.in_order.count_sign ∙ ap pos (sym (Slots.length-contents v.in_order))

    answered : (r : Request t) → Answered r b
    unfolding respond Proc.show counter_show
    answered (write m user n stale) =
        let (b', e, v', q, _, _) = write_refines cs t m user n stale b v in
        (_, b', rw e, v', (refl, q))
    answered (read Proc.writer_show random) =
        let (b', e, v', q, _, _) = remove_refines cs b v in (_, b', rw e, v', (refl, q))
    answered (read Proc.reader_show random) =
        let (b', item, e, held, v', q, _, _, _) = reader_show_lem cs random b v in
        (_, b', rw e, v', (item, refl, held, q))
    answered (read Proc.counter_show random) =
        (_, b, refl, v, (ap (λ c. shown (pos 0) (kboard_count c ∷ [])) count_shown, refl))
    answered (read Proc.dumper_show random) = (
      shown (pos 0) (
          dump_lines cs sync_solution b.ring_buffer b.ring_buffer_count b.ring_buffer_current_index
            b.perform_writer b.perform_reader),
      b,
      rw (dumper_show_lem cs sync_solution b v.in_order.size),
      v,
      (
        (
          b.ring_buffer,
          b.ring_buffer_current_index,
          b.perform_writer,
          b.perform_reader,
          ap (contents b.ring_buffer b.ring_buffer_current_index) (sym count_shown),
          ap
              (λ c. shown (pos 0) (
                dump_lines cs sync_solution b.ring_buffer c b.ring_buffer_current_index
                  b.perform_writer b.perform_reader))
              count_shown,
        ),
        refl,
      ),
    )

  -- From a valid board every sequence of requests is answered, each request as a queue of the clips
  -- may answer it: no request blocks or accesses anything outside the array, and the board is valid
  -- after the last one.
  pub session_refines :
      (rs : List (Request t)) (b : Board Lock)
      → IsValid cs b
      → (replies : List Reply) × (b' : Board Lock) × (respond_all cs t sync_solution rs b
          ≡ done (replies, b'))
        × IsValid cs b'
        × Trace cs t sync_solution (clips b) rs replies (clips b')
  unfolding respond_all
  session_refines [] b v = ([], b, refl, v, nothing)
  session_refines (r ∷ rs) b v =
      let (reply, b₁, first, v₁, a) = answered b v r in
      let (replies, b₂, others, v₂, traced) = session_refines rs b₁ v₁ in
      (reply ∷ replies, b₂, rw (first, others), v₂, answers a traced)
