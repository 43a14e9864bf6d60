-- ===== src/Scheduler/Tests.antt =====
-- Locks and batches of src/eople_vm.cpp on concrete cores and queues.
use eople.Base.{false, ℕ, ◌+◌, ◌-◌, ◌≤◌, ◌≡◌, refl, List, [], ◌∷◌, arith, length, ltb, zero, suc}
use eople.Scheduler.Lock.{
  Phase, TryLock, free_lock, try_lock, lower, Does, tries, backs_off, unlocks, Reachable, start,
  after,
}
use eople.Scheduler.Lock.Exclusion.{mutual_exclusion, try_lock-gets}
use eople.Scheduler.Batch.{
  Message, buffer_size, take_messages, queue_after, count_taken, count_done,
}
use eople.Scheduler.Batch.Fair.{
  tally, deliverables, Begins, take_messages-tally, take_messages-first, message_count-taken,
}
use eople.Scheduler.Queues.{
  Queues, new_queues, push_at, queue_index, send_message, batch_of, serve, silent, sent, served,
}
use eople.Scheduler.Queues.Placement.{message-placed}

-- Three cores; the second takes the lock while the first fails to.
abbrev one_holds : TryLock
one_holds = try_lock 1 (free_lock 3)

abbrev contended : TryLock
contended = try_lock 0 one_holds

one_holds-Reachable : Reachable 3 one_holds
unfolding free_lock
one_holds-Reachable = after start (tries 1 refl)

contended-Reachable : Reachable 3 contended
unfolding free_lock try_lock
contended-Reachable = after one_holds-Reachable (tries 0 refl)

mutual_exclusion_example : ◌≡◌ {A = ℕ} 1 1
mutual_exclusion_example =
    mutual_exclusion 3 contended 1 1 contended-Reachable (unfold free_lock try_lock in refl)
      (unfold free_lock try_lock in refl)

-- Both cores are done.
abbrev quiet : TryLock
quiet = lower 1 (lower 0 contended)

quiet-Reachable : Reachable 3 quiet
unfolding free_lock try_lock lower
quiet-Reachable = after (after contended-Reachable (backs_off 0 refl)) (unlocks 1 refl)

quiet-idle : (i : ℕ) (p : Phase) → Does quiet i p → p ≡ Phase.idle
unfolding free_lock try_lock lower
quiet-idle zero p h = cc
quiet-idle (suc zero) p h = cc
quiet-idle (suc (suc zero)) p h = cc
quiet-idle (suc (suc (suc i))) p h = absurd (cc)

try_lock-gets_example : Does (try_lock 2 quiet) 2 Phase.holding
try_lock-gets_example =
    try_lock-gets 3 quiet 2 quiet-Reachable quiet-idle (unfold free_lock try_lock lower in refl)

-- Messages for two processes, one of which has to wait.
abbrev for_process : ℕ → ℕ → Message
for_process p t = record {
  call = record { function = 1; process_ref = p; args = []; promise = 0 };
  time = t;
  has_timer = false;
}

abbrev queue : List Message
queue = for_process 1 3 ∷ for_process 1 9 ∷ for_process 1 4 ∷ for_process 2 1 ∷ for_process 1 2 ∷ []

taken : take_messages 1 5 buffer_size queue ≡ record {
  messages = for_process 1 3 ∷ for_process 1 4 ∷ [];
  future_messages = for_process 1 9 ∷ [];
  queue = for_process 2 1 ∷ for_process 1 2 ∷ [];
  ready_timers = [];
}
unfolding take_messages
taken = refl

take_messages-tally_example :
    tally (λ m. ltb 3 m.time) (take_messages 1 5 buffer_size queue).messages
      + tally (λ m. ltb 3 m.time) (queue_after (take_messages 1 5 buffer_size queue))
    ≡ tally (λ m. ltb 3 m.time) queue
take_messages-tally_example = take_messages-tally 1 5 (λ m. ltb 3 m.time) queue

take_messages-first_example :
    (length (take_messages 1 5 buffer_size queue).messages ≤ buffer_size)
    × Begins (take_messages 1 5 buffer_size queue).messages (deliverables 1 5 queue)
take_messages-first_example = take_messages-first 1 5 queue

message_count-taken_run : count_done 2 (count_taken 2 7) ≡ 7 - 2
message_count-taken_run = message_count-taken 2 7 (omega arith) (omega arith)

-- Two messages are sent, and the queue of the first is served too early to deliver it.
abbrev two_sent : Queues
two_sent =
    serve 1 5 (send_message (for_process 4 2) (send_message (for_process 1 9) (new_queues 3)))

message-placed_example : queue_index (for_process 1 9) 3 ≡ 1
message-placed_example =
    message-placed 3 1 1 two_sent (for_process 4 2 ∷ for_process 1 9 ∷ []) (for_process 1 9)
      (served 1 5 (sent (for_process 4 2) (sent (for_process 1 9) silent)))
      (unfold serve batch_of send_message push_at queue_index new_queues take_messages
          queue_after in
        refl)
      refl
