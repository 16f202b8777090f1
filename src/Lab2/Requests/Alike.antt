-- ===== src/Lab2/Requests/Alike.antt =====
-- Sequences of requests to lab2/KboardModule.c under two solutions of its critical section.
use os_class.Common.{
  ℕ, ◌≡◌, refl, sym, ap, ◌∙◌, ℤ, blocked, fault, List, [], ◌∷◌, done, Outcome, ◌>>=◌,
}
use os_class.Lab2.Kboard as Handlers
use os_class.Lab2.Kboard.{Board, Line, counter_show}
use os_class.Lab2.Kboard.Api.{CriticalSection, UserText}
use os_class.Lab2.Kboard.Valid.{IsValid}
use os_class.Lab2.Kboard.Bare.{
  no_section, bare, Both, Same, Both-bind, SameShown-bind, Both-done, done-Both,
}
use os_class.Lab2.Kboard.Lockless.{
  writer_show-Both, writer_write-Both, reader_show-Both, dumper_show-same,
}
use os_class.Lab2.Proc as Proc
use os_class.Lab2.Requests.{Reply, shown, Request, write, read, respond, respond_all}
use os_class.Lab2.Requests.Session.{session_refines}

-- The value and the text of a Show function beside a board, and as a reply.
abbrev beside : {B : Type 0} → B → ℤ × List Line → Outcome (ℤ × List Line × B)
beside b r = done (r.0, r.1, b)

abbrev as_reply : {B : Type 0} → ℤ × List Line × B → Outcome (Reply × B)
as_reply r = done (shown r.0 r.1, r.2)

module _ (t : UserText) (sync_solution : ℕ) where
  module _ (cs : CriticalSection) where
    open cs use {Lock, IsQuiet}

    -- A dump leaves the board alone.
    dumped :
        (b : Board Lock)
        → IsQuiet b.lock
        → (o : Outcome (ℤ × List Line))
        → Both (Same IsQuiet) (o >>= beside b >>= as_reply) (o >>= beside (bare b) >>= as_reply)
    dumped b quiet (done y) = (refl, refl, quiet)
    dumped b quiet blocked = tt
    dumped b quiet fault = tt

    respond-Both :
        (r : Request t) (b : Board Lock)
        → IsQuiet b.lock
        → Both
            (Same IsQuiet)
            (respond cs t sync_solution r b)
            (respond no_section t sync_solution r (bare b))
    unfolding respond Proc.show counter_show
    respond-Both (write m user n stale) b quiet =
        Both-bind IsQuiet (Same IsQuiet) _ _ _ _ (writer_write-Both cs b quiet t m user n stale)
          (λ value b' q. (refl, refl, q))
    respond-Both (read Proc.writer_show random) b quiet =
        SameShown-bind IsQuiet (Same IsQuiet) _ _ _ _ (writer_show-Both cs b quiet)
          (λ value lines b' q. (refl, refl, q))
    respond-Both (read Proc.reader_show random) b quiet =
        SameShown-bind IsQuiet (Same IsQuiet) _ _ _ _ (reader_show-Both cs b quiet random)
          (λ value lines b' q. (refl, refl, q))
    respond-Both (read Proc.counter_show random) b quiet = (refl, refl, quiet)
    respond-Both (read Proc.dumper_show random) b quiet =
        rw (dumper_show-same cs sync_solution b)
          (dumped b quiet (Handlers.dumper_show no_section sync_solution (bare b)))

    respond_all-Both :
        (rs : List (Request t)) (b : Board Lock)
        → IsQuiet b.lock
        → Both
            (Same IsQuiet)
            (respond_all cs t sync_solution rs b)
            (respond_all no_section t sync_solution rs (bare b))
    unfolding respond_all
    respond_all-Both [] b quiet = (refl, refl, quiet)
    respond_all-Both (r ∷ rs) b quiet =
        Both-bind IsQuiet (Same IsQuiet) _ _ _ _ (respond-Both r b quiet) (λ reply b₁ quiet₁.
          Both-bind IsQuiet (Same IsQuiet) _ _ _ _ (respond_all-Both rs b₁ quiet₁)
            (λ replies b₂ quiet₂. (refl, refl, quiet₂)))

  -- Under two solutions of the critical section, from boards that differ only in the variables of
  -- the synchronisation, one valid and the other quiet, any requests one after the other are
  -- answered in the same way, and the boards after them differ only in those variables again.
  pub solutions_alike :
      (first second : CriticalSection) (rs : List (Request t)) (b : Board first.Lock)
      (c : Board second.Lock)
      → IsValid first b
      → second.IsQuiet c.lock
      → bare b ≡ bare c
      → (replies : List Reply) × (b' : Board first.Lock) × (c' : Board second.Lock) × (respond_all
            first t sync_solution rs b
          ≡ done (replies, b'))
        × (respond_all second t sync_solution rs c ≡ done (replies, c'))
        × (bare b' ≡ bare c')
  solutions_alike first second rs b c v quiet same =
      let (replies, b', e, v', _) = session_refines first t sync_solution rs b v in
      let (y, e₀, first_same) =
        Both-done (Same first.IsQuiet) _ _ (respond_all-Both first rs b v.quiet) e in
      let (z, e₁, second_same) =
        done-Both (Same second.IsQuiet) _ _ (respond_all-Both second rs c quiet)
          (ap (respond_all no_section t sync_solution rs) (sym same) ∙ e₀) in
      (
        replies,
        b',
        z.1,
        e,
        e₁ ∙ ap (λ x. done (x, z.1)) (second_same.0 ∙ sym first_same.0),
        first_same.1 ∙ sym second_same.1,
      )
