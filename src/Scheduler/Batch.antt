-- ===== src/Scheduler/Batch.antt =====
-- The inner loop of `CoreMain` in src/eople_vm.cpp: the messages for one process that a core takes
-- from the front of a queue, the ones whose time has not come, which go to the end of the queue,
-- and the count of messages. The queue's lock is held throughout.
pub mod Fair
use eople.Base.{
  ℕ, zero, suc, ◌+◌, ◌-◌, ◌*◌, ◌%◌, ◌^◌, Bool, true, false, ◌&&◌, List, [], ◌∷◌, ◌++◌, ltb, ◌==◌,
  if◌then◌else◌, length,
}
use eople.Machine.State.{CallData}

-- A message on a queue, with the time from which it may be delivered, and whether it has a promise
-- that is a timer.
pub record Message : Type 0 where
  pub call : CallData
  pub time : ℕ
  pub has_timer : Bool

abbrev pub buffer_size : ℕ
buffer_size = 16

-- What the loop has taken and what it has left, and the promises that it has marked as ready.
pub record Taken : Type 0 where
  pub messages : List Message
  pub future_messages : List Message
  pub queue : List Message
  pub ready_timers : List ℕ

abbrev pub add_message : Message → Taken → Taken
add_message m t = record t {
  messages = m ∷ t.messages;
  ready_timers = if m.has_timer then m.call.promise ∷ t.ready_timers else t.ready_timers;
}

abbrev pub add_future : Message → Taken → Taken
add_future m t = record t { future_messages = m ∷ t.future_messages }

-- The loop, with room for some more messages in the buffer.
unfoldable pub take_messages : ℕ → ℕ → ℕ → List Message → Taken
take_messages locked_process current_time room [] = record {
  messages = [];
  future_messages = [];
  queue = [];
  ready_timers = [];
}
take_messages locked_process current_time zero (m ∷ queue) = record {
  messages = [];
  future_messages = [];
  queue = m ∷ queue;
  ready_timers = [];
}
take_messages locked_process current_time (suc room) (m ∷ queue) =
    let ready = take_messages locked_process current_time room queue in
    let waiting = take_messages locked_process current_time (suc room) queue in
    if m.call.process_ref == locked_process
    then (if ltb current_time m.time then add_future m waiting else add_message m ready)
    else record { messages = []; future_messages = []; queue = m ∷ queue; ready_timers = [] }

-- The queue when the core lets go of it.
unfoldable pub queue_after : Taken → List Message
queue_after t = t.queue ++ t.future_messages

-- `message_count`, a `u32`, while the messages are worked on, and then.
unfoldable pub count_taken : ℕ → ℕ → ℕ
count_taken zero message_count = message_count
count_taken (suc n) message_count = (message_count + (2 ^ 32 - n)) % 2 ^ 32

unfoldable pub count_done : ℕ → ℕ → ℕ
count_done zero message_count = message_count
count_done (suc n) message_count = (message_count + (2 ^ 32 - 1)) % 2 ^ 32
