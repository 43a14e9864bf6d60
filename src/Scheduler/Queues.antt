-- ===== src/Scheduler/Queues.antt =====
-- The queues of the cores in src/eople_vm.cpp: `SendMessage`, and a core that serves one of them in
-- `CoreMain`. Each happens under the lock of its queue, so it is one step. A process is named by its
-- `process_id`.
pub mod Placement
use eople.Base.{
  ℕ, zero, suc, ◌+◌, ◌%◌, ◌^◌, List, [], ◌∷◌, ◌++◌, Option, none, some, length, get_elem?, set,
  replicate,
}
use eople.Scheduler.Batch.{
  Message, Taken, buffer_size, take_messages, queue_after, count_taken, count_done,
}

pub record Queues : Type 0 where
  pub queues : List (List Message)
  pub message_count : ℕ

-- The queues of a new machine, one for each core.
unfoldable pub new_queues : ℕ → Queues
new_queues core_count = record { queues = replicate core_count []; message_count = 0 }

-- `queues[index].push( call_data )`.
unfoldable pub push_at : ℕ → Message → List (List Message) → List (List Message)
push_at i m [] = []
push_at zero m (q ∷ qs) = (q ++ m ∷ []) ∷ qs
push_at (suc i) m (q ∷ qs) = q ∷ push_at i m qs

unfoldable pub queue_index : Message → ℕ → ℕ
queue_index m queue_count = m.call.process_ref % queue_count

unfoldable pub send_message : Message → Queues → Queues
unfolding push_at queue_index
send_message m v = record {
  queues = push_at (queue_index m (length v.queues)) m v.queues;
  message_count = (v.message_count + 1) % 2 ^ 32;
}

-- The batch for the process of the first message of a queue, if it has one.
unfoldable pub batch_of : ℕ → List Message → Taken
batch_of current_time [] = record {
  messages = [];
  future_messages = [];
  queue = [];
  ready_timers = [];
}
batch_of current_time (m ∷ queue) =
    take_messages m.call.process_ref current_time buffer_size (m ∷ queue)

-- A core that has the locks of a queue and of the process of its first message.
unfoldable pub serve : ℕ → ℕ → Queues → Queues
unfolding batch_of
serve i current_time v = elim (get_elem? v.queues i) [
  | none ↦ v
  | some queue ↦
      let taken = batch_of current_time queue in
      let count = length taken.messages in
      record {
        queues = set v.queues i (queue_after taken);
        message_count = count_done count (count_taken count v.message_count);
      }
]

-- Messages that are sent and queues that are served, in any order.
pub data Traffic (core_count : ℕ) : Queues → Type 0 where
  silent : Traffic core_count (new_queues core_count)
  sent : (m : Message) {v : Queues} → Traffic core_count v → Traffic core_count (send_message m v)
  served :
      (i current_time : ℕ) {v : Queues}
      → Traffic core_count v
      → Traffic core_count (serve i current_time v)
