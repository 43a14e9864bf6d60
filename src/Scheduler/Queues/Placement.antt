-- ===== src/Scheduler/Queues/Placement.antt =====
-- Where the messages of a process are queued, after src/eople_vm.cpp.
use eople.Base.{
  ℕ, zero, suc, ◌+◌, ◌≡◌, refl, ap, subst, ◌∙◌, Bool, true, false, List, [], ◌∷◌, ◌++◌, some, arith,
  length, get_elem?, set, replicate, length-set, if◌then◌else◌, ltb, ◌==◌, Option-cases, inl, inr,
  length-replicate,
}
use eople.Scheduler.Batch.{Message, Taken, buffer_size, take_messages, queue_after}
use eople.Scheduler.Queues.{
  Queues, new_queues, push_at, queue_index, send_message, batch_of, serve, Traffic, silent, sent,
  served,
}

-- Every message of a queue belongs into the queue with a given index.
abbrev pub Belong : ℕ → ℕ → List Message → Type 0
Belong n i [] = Unit
Belong n i (m ∷ ms) = (queue_index m n ≡ i) × Belong n i ms

Belong-append :
    (n i : ℕ) (xs ys : List Message) → Belong n i xs → Belong n i ys → Belong n i (xs ++ ys)
Belong-append n i [] ys h k = k
Belong-append n i (x ∷ xs) ys (b, h) k = (b, Belong-append n i xs ys h k)

-- What is left of a queue belongs there.
LeftBelong : ℕ → ℕ → Taken → Type 0
LeftBelong n i t = Belong n i t.future_messages × Belong n i t.queue

if-LeftBelong :
    (n i : ℕ) (b : Bool) (t u : Taken)
    → LeftBelong n i t
    → LeftBelong n i u
    → LeftBelong n i (if b then t else u)
if-LeftBelong n i true t u h k = h
if-LeftBelong n i false t u h k = k

take_messages-LeftBelong :
    (n i p now room : ℕ) (queue : List Message)
    → Belong n i queue
    → LeftBelong n i (take_messages p now room queue)
unfolding take_messages LeftBelong
take_messages-LeftBelong n i p now room [] h = (tt, tt)
take_messages-LeftBelong n i p now zero (m ∷ queue) h = (tt, h)
take_messages-LeftBelong n i p now (suc room) (m ∷ queue) (b, h) =
    if-LeftBelong n i (m.call.process_ref == p) _ _
      (if-LeftBelong n i (ltb now m.time) _ _
        (let (f, q) = take_messages-LeftBelong n i p now (suc room) queue h in ((b, f), q))
        (take_messages-LeftBelong n i p now room queue h))
      (tt, (b, h))

batch_of-Belong :
    (n i now : ℕ) (queue : List Message)
    → Belong n i queue
    → Belong n i (queue_after (batch_of now queue))
unfolding batch_of queue_after LeftBelong
batch_of-Belong n i now [] h = tt
batch_of-Belong n i now (m ∷ queue) h =
    let (f, q) = take_messages-LeftBelong n i m.call.process_ref now buffer_size (m ∷ queue) h in
    Belong-append n i _ _ q f

-- The queues from an index on hold what belongs there.
abbrev AllBelong : ℕ → ℕ → List (List Message) → Type 0
AllBelong n i [] = Unit
AllBelong n i (q ∷ qs) = Belong n i q × AllBelong n (suc i) qs

AllBelong-replicate : (n i k : ℕ) → AllBelong n i (replicate k [])
AllBelong-replicate n i zero = tt
AllBelong-replicate n i (suc k) = (tt, AllBelong-replicate n (suc i) k)

AllBelong-push_at :
    (n i k : ℕ) (m : Message) (qs : List (List Message))
    → queue_index m n ≡ i + k
    → AllBelong n i qs
    → AllBelong n i (push_at k m qs)
unfolding push_at
AllBelong-push_at n i k m [] e h = tt
AllBelong-push_at n i zero m (q ∷ qs) e (h, hs) =
    (Belong-append n i q (m ∷ []) h (omega (arith, e), tt), hs)
AllBelong-push_at n i (suc k) m (q ∷ qs) e (h, hs) =
    (h, AllBelong-push_at n (suc i) k m qs (omega (arith, e)) hs)

AllBelong-at :
    (n i k : ℕ) (qs : List (List Message)) {q : List Message}
    → AllBelong n i qs
    → get_elem? qs k ≡ some q
    → Belong n (i + k) q
AllBelong-at n i k [] h e = absurd (cc)
AllBelong-at n i zero (p ∷ qs) {q = q} (h, hs) e =
    let same : p ≡ q = cc in
    let here : i ≡ i + 0 = omega arith in
    subst (λ r. Belong n (i + 0) r) same (subst (λ j. Belong n j p) here h)
AllBelong-at n i (suc k) (p ∷ qs) {q = q} (h, hs) e =
    let there : suc i + k ≡ i + suc k = omega arith in
    subst (λ j. Belong n j q) there (AllBelong-at n (suc i) k qs hs e)

AllBelong-set :
    (n i k : ℕ) (qs : List (List Message)) (q : List Message)
    → AllBelong n i qs
    → Belong n (i + k) q
    → AllBelong n i (set qs k q)
AllBelong-set n i k [] q h b = tt
AllBelong-set n i zero (p ∷ qs) q (h, hs) b =
    let here : i + 0 ≡ i = omega arith in (subst (λ j. Belong n j q) here b, hs)
AllBelong-set n i (suc k) (p ∷ qs) q (h, hs) b =
    let there : i + suc k ≡ suc i + k = omega arith in
    (h, AllBelong-set n (suc i) k qs q hs (subst (λ j. Belong n j q) there b))

length-push_at :
    (k : ℕ) (m : Message) (qs : List (List Message)) → length (push_at k m qs) ≡ length qs
unfolding push_at
length-push_at k m [] = refl
length-push_at zero m (q ∷ qs) = refl
length-push_at (suc k) m (q ∷ qs) = ap suc (length-push_at k m qs)

-- There are as many queues as cores, and each message is in the one for its process.
Sound : ℕ → Queues → Type 0
Sound n v = (length v.queues ≡ n) × AllBelong n 0 v.queues

send_message-Sound : (n : ℕ) (m : Message) (v : Queues) → Sound n v → Sound n (send_message m v)
unfolding send_message Sound
send_message-Sound n m v (e, h) =
    let same : queue_index m (length v.queues) ≡ queue_index m n = ap (queue_index m) e in
    (
      length-push_at _ m v.queues ∙ e,
      AllBelong-push_at n 0 (queue_index m (length v.queues)) m v.queues (omega (arith, same)) h,
    )

serve-Sound : (n i now : ℕ) (v : Queues) → Sound n v → Sound n (serve i now v)
unfolding serve Sound
serve-Sound n i now v (e, h) = elim (Option-cases (get_elem? v.queues i)) [
  | inl none_there ↦ rw (none_there, serve) (e, h)
  | inr (queue, there) ↦
      rw (there, serve)
        (
          length-set v.queues i _ ∙ e,
          AllBelong-set n 0 i v.queues _ h
              (batch_of-Belong n (0 + i) now queue (AllBelong-at n 0 i v.queues h there)),
        )
]

Traffic-Sound : (n : ℕ) {v : Queues} → Traffic n v → Sound n v
unfolding new_queues Sound
Traffic-Sound n silent = (length-replicate n [], AllBelong-replicate n 0 n)
Traffic-Sound n (sent m {v = v} r) = send_message-Sound n m v (Traffic-Sound n r)
Traffic-Sound n (served i now {v = v} r) = serve-Sound n i now v (Traffic-Sound n r)

Belong-at :
    (n i j : ℕ) (queue : List Message) {m : Message}
    → Belong n i queue
    → get_elem? queue j ≡ some m
    → queue_index m n ≡ i
Belong-at n i j [] h e = absurd (cc)
Belong-at n i zero (x ∷ queue) {m = m} (b, h) e =
    let same : x ≡ m = cc in subst (λ y. queue_index y n ≡ i) same b
Belong-at n i (suc j) (x ∷ queue) (b, h) e = Belong-at n i j queue h e

-- However sending and serving interleave, a message stands only in the queue that the number of its
-- process selects: all messages of a process go through one queue.
pub message-placed :
    (core_count i j : ℕ) (v : Queues) (queue : List Message) (m : Message)
    → Traffic core_count v
    → get_elem? v.queues i ≡ some queue
    → get_elem? queue j ≡ some m
    → queue_index m core_count ≡ i
unfolding Sound
message-placed core_count i j v queue m r there e =
    let (_, h) = Traffic-Sound core_count r in
    Belong-at core_count (0 + i) j queue (AllBelong-at core_count 0 i v.queues h there) e
    ∙ omega arith
