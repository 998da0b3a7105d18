-- ===== src/Store/Writer/Order.antt =====
-- No accepted document is lost, doubled or moved by the writer.
use mathlib.Core.List.{append_assoc, append-nil}
use group_chat.Prelude.{
  ℕ, ◌≡◌, ◌∙◌, refl, sym, ap, List, [], ◌∷◌, ◌++◌, length, arith, ltb, Bool-cases, inl, inr,
  if◌then◌else◌,
}
use group_chat.Batch.{gather-append}
use group_chat.Store.Append.{offer_doc, write_queue_size}
use group_chat.Store.Defs.{Doc}
use group_chat.Store.Writer.{
  Phase, waiting, pending, inserting, ended, begun, begin, Writer, max_batch, wake, insertion_done,
  cancel, Event, put, woken, done, cancelled, put_nowait, step, run,
}

-- The documents of the batches, one after the other.
concat : List (List Doc) → List Doc
concat [] = []
concat (b ∷ bs) = b ++ concat bs

concat-append : (bs : List (List Doc)) (b : List Doc) → concat (bs ++ b ∷ []) ≡ concat bs ++ b
unfolding concat
concat-append [] b = append-nil b
concat-append (c ∷ bs) b = rw (concat-append bs b) (sym (append_assoc c (concat bs) b))

-- The documents of the batch at hand, which a cancellation can lose.
in_flight : Phase → List Doc
in_flight waiting = []
in_flight (pending batch) = batch
in_flight (inserting batch) = batch
in_flight (ended lost) = lost

-- The documents that the writer has inserted, that it is inserting or has lost, and that it still has to insert.
pub docs : Writer → List Doc
unfolding in_flight
docs w = concat w.inserted ++ (in_flight w.phase ++ w.queue)

-- The documents that the queue accepted, in order.
pub accepted : Event → Writer → List Doc
accepted (put doc) w = if ltb (length w.queue) write_queue_size then doc ∷ [] else []
accepted _ w = []

module _ (ins : List (List Doc)) where
  -- A writer from its parts.
  abbrev at : Phase → List Doc → Writer
  at p q = record { queue = q; phase = p; inserted = ins }

  docs-put :
      (doc : Doc) (p : Phase) (q : List Doc)
      → docs (put_nowait doc (at p q)) ≡ docs (at p q) ++ accepted (put doc) (at p q)
  unfolding docs put_nowait accepted
  docs-put doc p q = elim (Bool-cases (ltb (length q) write_queue_size)) [
    | inl room ↦ rw (room, offer_doc) (simp append_assoc)
    | inr full ↦ rw (full, offer_doc) (sym (append-nil _))
  ]

  docs-wake : (rounds : ℕ) (p : Phase) (q : List Doc) → docs (wake rounds (at p q)) ≡ docs (at p q)
  unfolding docs wake
  docs-wake rounds waiting [] = refl
  docs-wake rounds waiting (doc ∷ q) =
      ap (◌++◌ (concat ins)) (gather-append rounds (max_batch q) (doc ∷ []) q)
  docs-wake rounds (pending batch) q = refl
  docs-wake rounds (inserting batch) q = refl
  docs-wake rounds (ended lost) q = refl

  docs-begin : (p : Phase) (q : List Doc) → docs (begin (at p q)) ≡ docs (at p q)
  unfolding docs begin
  docs-begin waiting q = refl
  docs-begin (pending batch) q = refl
  docs-begin (inserting batch) q = refl
  docs-begin (ended lost) q = refl

  docs-insertion_done : (p : Phase) (q : List Doc) → docs (insertion_done (at p q)) ≡ docs (at p q)
  unfolding docs insertion_done
  docs-insertion_done waiting q = refl
  docs-insertion_done (pending batch) q = refl
  docs-insertion_done (inserting batch) q = simp (concat-append, append_assoc)
  docs-insertion_done (ended lost) q = refl

  docs-cancel : (p : Phase) (q : List Doc) → docs (cancel (at p q)) ≡ docs (at p q)
  unfolding docs cancel
  docs-cancel waiting [] = refl
  docs-cancel waiting (doc ∷ q) = simp (concat-append, append_assoc, append-nil)
  docs-cancel (pending batch) q = refl
  docs-cancel (inserting batch) q = simp (concat-append, append_assoc)
  docs-cancel (ended lost) q = refl

docs-step : (e : Event) (w : Writer) → docs (step e w) ≡ docs w ++ accepted e w
unfolding step
docs-step (put doc) w = docs-put w.inserted doc w.phase w.queue
docs-step (woken rounds) w =
    unfold accepted in (docs-wake w.inserted rounds w.phase w.queue ∙ sym (append-nil (docs w)))
docs-step begun w =
    unfold accepted in (docs-begin w.inserted w.phase w.queue ∙ sym (append-nil (docs w)))
docs-step done w =
    unfold accepted in (docs-insertion_done w.inserted w.phase w.queue ∙ sym (append-nil (docs w)))
docs-step cancelled w =
    unfold accepted in (docs-cancel w.inserted w.phase w.queue ∙ sym (append-nil (docs w)))

-- All documents that a run's queue accepted.
pub all_accepted : List Event → Writer → List Doc
all_accepted [] w = []
all_accepted (e ∷ es) w = accepted e w ++ all_accepted es (step e w)

-- In every run of the writer, however the task is scheduled and wherever it is cancelled, the documents
-- that are inserted, those of the batch at hand and those still queued are exactly those that it began with
-- and those that the queue accepted, each once and in order. The batch at hand is the one of an insertion, or
-- the one that a cancellation lost because no thread had begun it.
pub docs-run : (es : List Event) (w : Writer) → docs (run es w) ≡ docs w ++ all_accepted es w
unfolding run all_accepted
docs-run [] w = sym (append-nil (docs w))
docs-run (e ∷ es) w =
    docs-run es (step e w)
    ∙ ap (λ l. l ++ all_accepted es (step e w)) (docs-step e w)
    ∙ append_assoc (docs w) (accepted e w) (all_accepted es (step e w))

-- A shutdown that finds the writer waiting for a document writes all that was accepted.
cancel_when_idle :
    (ins : List (List Doc)) (q : List Doc)
    → ((cancel (at ins waiting q)).phase ≡ ended [])
      × ((cancel (at ins waiting q)).queue ≡ [])
      × (concat (cancel (at ins waiting q)).inserted ≡ docs (at ins waiting q))
unfolding cancel docs
cancel_when_idle ins [] = (refl, refl, sym (append-nil (concat ins)))
cancel_when_idle ins (doc ∷ q) = (refl, refl, concat-append ins (doc ∷ q))

ended_step :
    (e : Event) (w : Writer) {lost : List Doc}
    → w.phase ≡ ended lost
    → ((step e w).phase ≡ ended lost) × ((step e w).inserted ≡ w.inserted)
unfolding step
ended_step (put doc) w h = (h, refl)
ended_step _ w h = ground arith

ended_stays :
    (es : List Event) (w : Writer) {lost : List Doc}
    → w.phase ≡ ended lost
    → ((run es w).phase ≡ ended lost) × ((run es w).inserted ≡ w.inserted)
unfolding run
ended_stays [] w h = (h, refl)
ended_stays (e ∷ es) w h =
    let (still, same) = ended_step e w h in
    let (end, inserted) = ended_stays es (step e w) still in (end, inserted ∙ same)

-- A shutdown that finds the writer at an insertion that a thread has begun does not flush: the batch is
-- written, the task ends with the queue as it is, and nothing that happens later writes any document of that queue.
cancel_at_insertion :
    (w : Writer) (batch : List Doc) (es : List Event)
    → w.phase ≡ inserting batch
    → ((cancel w).queue ≡ w.queue)
      × ((run es (cancel w)).phase ≡ ended [])
      × ((run es (cancel w)).inserted ≡ w.inserted ++ batch ∷ [])
cancel_at_insertion w batch es h =
    let after = ended_stays es (cancel w) {lost = []} (unfold cancel in (ground arith)) in
    (unfold cancel in (ground arith), after.0, after.1 ∙ unfold cancel in (ground arith))

-- A shutdown that finds it at an insertion that still waits for a thread loses the batch: it is never written,
-- and neither is any document of the queue.
cancel_at_pending :
    (w : Writer) (batch : List Doc) (es : List Event)
    → w.phase ≡ pending batch
    → ((run es (cancel w)).phase ≡ ended batch) × ((run es (cancel w)).inserted ≡ w.inserted)
cancel_at_pending w batch es h =
    let after = ended_stays es (cancel w) {lost = batch} (unfold cancel in (ground arith)) in
    (after.0, after.1 ∙ unfold cancel in (ground arith))
