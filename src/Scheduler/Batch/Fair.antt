-- ===== src/Scheduler/Batch/Fair.antt =====
-- What `CoreMain` of src/eople_vm.cpp owes to the messages of a queue.
use eople.Base.{
  ℕ, zero, suc, ◌+◌, ◌-◌, ◌^◌, ◌≤◌, ◌<◌, ◌≡◌, refl, ap, Bool, not, ◌&&◌, List, [], ◌∷◌, ◌++◌, ltb,
  ◌==◌, if◌then◌else◌, length, arith, Bool-cases, inl, inr,
}
use eople.Scheduler.Batch.{
  Message, buffer_size, take_messages, queue_after, count_taken, count_done,
}

-- How many messages of a list pass a test.
unfoldable pub tally : (Message → Bool) → List Message → ℕ
tally p [] = 0
tally p (m ∷ ms) = (if p m then 1 else 0) + tally p ms

tally-append :
    (p : Message → Bool) (xs ys : List Message) → tally p (xs ++ ys) ≡ tally p xs + tally p ys
unfolding tally
tally-append p [] ys = omega arith
tally-append p (x ∷ xs) ys = ground (arith, tally-append p xs ys)

-- A list begins with another.
abbrev pub Begins : List Message → List Message → Type 0
Begins xs ys = (later : List Message) × (ys ≡ xs ++ later)

Begins-cons : (m : Message) (xs ys : List Message) → Begins xs ys → Begins (m ∷ xs) (m ∷ ys)
Begins-cons m xs ys (later, e) = (later, ap (λ l. m ∷ l) e)

module _ (locked_process current_time : ℕ) where
  taken-tally :
      (p : Message → Bool) (room : ℕ) (queue : List Message)
      → let t = take_messages locked_process current_time room queue in
        tally p t.messages + tally p t.future_messages + tally p t.queue ≡ tally p queue
  unfolding take_messages tally
  taken-tally p room [] = refl
  taken-tally p zero (m ∷ queue) = omega arith
  taken-tally p (suc room) (m ∷ queue) =
      ground (arith, taken-tally p room queue, taken-tally p (suc room) queue)

  -- Whatever a test says of messages, as many pass it in the batch and in the queue that is left
  -- as passed it in the queue before: no message is lost and none is doubled.
  pub take_messages-tally :
      (p : Message → Bool) (queue : List Message)
      → let t = take_messages locked_process current_time buffer_size queue in
        tally p t.messages + tally p (queue_after t) ≡ tally p queue
  unfolding queue_after
  take_messages-tally p queue =
      let t = take_messages locked_process current_time buffer_size queue in
      omega (arith, taken-tally p buffer_size queue, tally-append p t.queue t.future_messages)

  -- A message that the core may deliver to the process now.
  abbrev pub deliverable : Message → Bool
  deliverable m = (m.call.process_ref == locked_process) && not (ltb current_time m.time)

  unfoldable pub deliverables : List Message → List Message
  deliverables [] = []
  deliverables (m ∷ ms) = if deliverable m then m ∷ deliverables ms else deliverables ms

  batch :
      (room : ℕ) (queue : List Message)
      → Begins (take_messages locked_process current_time room queue).messages (deliverables queue)
  unfolding take_messages deliverables
  batch room [] = ([], refl)
  batch zero (m ∷ queue) = (_, refl)
  batch (suc room) (m ∷ queue) = elim (Bool-cases (m.call.process_ref == locked_process)) [
    | inr other ↦ rw (other, take_messages) (_, refl)
    | inl same ↦ (elim (Bool-cases (ltb current_time m.time)) [
      | inl early ↦ rw (same, early, take_messages, deliverables) (batch (suc room) queue)
      | inr due ↦ rw (same, due, take_messages, deliverables) (Begins-cons m _ _ (batch room queue))
    ])
  ]

  size :
      (room : ℕ) (queue : List Message)
      → length (take_messages locked_process current_time room queue).messages ≤ room
  unfolding take_messages
  size room [] = omega arith
  size zero (m ∷ queue) = omega arith
  size (suc room) (m ∷ queue) = ground (arith, size room queue, size (suc room) queue)

  -- The batch fits the buffer, and it is the first of the messages of the queue that are for the
  -- process and whose time has come, in their order: a process gets its messages first in, first
  -- out, except for those that wait for their time.
  pub take_messages-first :
      (queue : List Message)
      → let t = take_messages locked_process current_time buffer_size queue in
        (length t.messages ≤ buffer_size) × Begins t.messages (deliverables queue)
  take_messages-first queue = (size buffer_size queue, batch buffer_size queue)

-- The two adjustments of the message count take off the batch, where the messages had been counted.
pub message_count-taken :
    (n message_count : ℕ)
    → n ≤ message_count
    → message_count < 2 ^ 32
    → count_done n (count_taken n message_count) ≡ message_count - n
unfolding count_done count_taken
message_count-taken zero c h l = omega arith
message_count-taken (suc n) c h l = ground arith
