-- ===== src/Pipeline/Slot/WorkerRun.antt =====
-- The worker of the slot pipeline on its own: its runs, and how the entries that left grow with them.
use e3controller.Common.{if_cases, ℕ, zero, suc, ◌≡◌, refl, sym, ap, ◌∙◌, List, [], ◌∷◌, ◌++◌, map}
use e3controller.Pipeline.Spsc.{QueueEntry, is_empty, front}
use mathlib.Core.List.{append-nil, append_assoc, map-append}
use e3controller.Pipeline.Slot.{
  dispatched, SlotDesc, SlotIqPipeline, Worker, queue_capacity, worker_turn, worker_loop, Event,
  worker_steps, step, run,
}

-- The worker alone, for `n` steps.
abbrev pub works : ℕ → List Event
works zero = []
works (suc n) = worker_steps ∷ works n

module _ (mem : ℕ → SlotDesc) where
  -- The worker's steps fan out entries, drain none, and accept none.
  pub record Grew (p q : SlotIqPipeline) : Type 0 where
    pub fanned : List QueueEntry
    pub left : q.left ≡ p.left ++ map dispatched fanned
    pub accepted : q.accepted ≡ p.accepted

  Grew-none : {p q : SlotIqPipeline} → q.left ≡ p.left → q.accepted ≡ p.accepted → Grew p q
  Grew-none {p} e a = record { fanned = []; left = e ∙ sym (append-nil p.left); accepted = a }

  turn-Grew : (w : Worker) (p : SlotIqPipeline) → Grew p (worker_turn mem w p)
  unfolding worker_turn
  turn-Grew Worker.absent p = Grew-none refl refl
  turn-Grew Worker.polling p =
      if_cases (Grew p) p.is_running
        (λ on.
          if_cases (Grew p) (is_empty p.queue) (λ e. Grew-none refl refl)
            (λ e. record {
              fanned = front queue_capacity p.queue ∷ [];
              left = refl;
              accepted = refl;
            }))
        (λ off. Grew-none refl refl)
  turn-Grew Worker.fanned_out p = Grew-none refl refl
  turn-Grew Worker.released_buf p = Grew-none refl refl

  pub works-Grew : (n : ℕ) (p : SlotIqPipeline) → Grew p (run mem p (works n))
  unfolding run
  works-Grew zero p = Grew-none refl refl
  works-Grew (suc n) p =
      let one = step mem p worker_steps in
      let f : Grew p one = unfold step in unfold worker_loop in turn-Grew p.worker p in
      let g = works-Grew n one in
      record {
        fanned = f.fanned ++ g.fanned;
        left =
            g.left
            ∙ ap (λ l. l ++ map dispatched g.fanned) f.left
            ∙ append_assoc p.left (map dispatched f.fanned) (map dispatched g.fanned)
            ∙ ap (λ l. p.left ++ l) (sym (map-append dispatched f.fanned g.fanned));
        accepted = g.accepted ∙ f.accepted;
      }
