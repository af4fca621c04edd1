-- ===== src/MsgQueue/Examples.antt =====
-- Runs of the queue of shmutil/shm_msg_queue.cc on a block of 64 bytes, and its theorems there.
use shmutil.Base.{
  ℕ, ◌+◌, ◌≤◌, ◌≡◌, refl, true, false, List, [], ◌∷◌, none, some, ltb, if◌then◌else◌, length, arith,
}
use shmutil.Memory.{Memory, memcpy, store8, store32, load32, le_byte, bytes}
use shmutil.ErrorCode.{
  k_ok, k_err_not_enough_space, k_err_input_buf_not_enough_space, k_err_shm_mq_empty,
}
use shmutil.Atomic
use shmutil.MsgQueue.{
  Shm, ShmMq, Process, MqStat, zeros, check, check_proc_exist, clear_mq, getstat, is_empty,
  get_msg_count,
}
use shmutil.MsgQueue.Ring.{advance}
use shmutil.MsgQueue.Wire.{Message, frame, wire}
use shmutil.MsgQueue.Send.{
  s_head, enqueue_whole, put_magic_split, enqueue_split_data, enqueue_split_head, enqueue_data,
  enqueue,
}
use shmutil.MsgQueue.Receive.{clear_mess, read_head, read_data, dequeue}
use shmutil.MsgQueue.Spec.{Holds, push, pop}
use shmutil.MsgQueue.Push.{enqueue_refines}
use shmutil.MsgQueue.Pop.{Delivered, dequeue_refines}
use shmutil.MsgQueue.Clear.{clear_mq-Holds, dequeue_recovers}
use shmutil.MsgQueue.Refine.{Call, send, receive, clear, run, fifo, run_refines}
use shmutil.MsgQueue.Count.{getstat_used, count-enqueue, count-dequeue}
use shmutil.MsgQueue.Counted.{segment_after, fifo_after, run-is_empty}
use shmutil.MsgQueue.Attach.{Ipc, created, eexist, new_shm_mq, init}
use shmutil.MsgQueue.Endpoints.{
  comsume, LockFiles, closes, init_endpoint, fini_lock_endpoint, init_lock_producer,
  init_lock_comsumer,
}
use shmutil.MsgQueue.Lifecycle.{init_new-Holds, init_old-Holds, comsume_refines, comsume_loses}

-- all that a run calls
program : Unit {0}
unfolding memcpy store8 store32 load32 le_byte bytes check check_proc_exist clear_mq s_head
    enqueue_whole put_magic_split enqueue_split_data enqueue_split_head enqueue_data enqueue
    clear_mess read_head read_data dequeue run fifo push pop frame wire Atomic.increment
    Atomic.decrement Atomic.get_and_set
program = tt

abbrev os : Process
os = record { getpid = 42; kill = λ pid. 3 }

abbrev q : ShmMq
q = record { shm_key = 7; shm_size = 76; shm_id = 1; block_size = 64; is_init = true }

-- an empty queue whose next message goes round the end of the block
abbrev at_60 : Shm
at_60 = record { msg_count = 0; process_count = 0; head = 60; tail = 60; pid = 0; block = zeros }

abbrev source : Memory
source i = 10 + i

abbrev d : Message
d = 10 ∷ 11 ∷ 12 ∷ []

abbrev full : Shm
full = (enqueue os q at_60 source 3).1

abbrev calls : List Call
calls =
    send source 3
    ∷ send source 20
    ∷ send source 30
    ∷ receive zeros 6 0
    ∷ receive zeros 7 0
    ∷ receive zeros 99 0
    ∷ receive zeros 99 0
    ∷ send source 1
    ∷ clear
    ∷ receive zeros 99 0
    ∷ []

run-calls :
    run os q at_60 calls
    ≡ (k_ok, none)
      ∷ (k_ok, none)
      ∷ (k_err_not_enough_space, none)
      ∷ (k_err_input_buf_not_enough_space, none)
      ∷ (k_ok, some d)
      ∷ (k_ok, some (bytes source 0 20))
      ∷ (k_err_shm_mq_empty, none)
      ∷ (k_ok, none)
      ∷ (k_ok, none)
      ∷ (k_err_shm_mq_empty, none)
      ∷ []
unfolding program
run-calls = refl

at_60-Holds : Holds q at_60 []
unfolding advance wire
at_60-Holds = record {
  ready = refl;
  small = omega arith;
  head_in = omega arith;
  room = omega arith;
  tail_at = refl;
  data_at = λ i h. absurd (omega arith);
}

run_refines_example : run os q at_60 calls ≡ fifo 64 [] calls
run_refines_example = run_refines os q at_60 [] calls at_60-Holds (omega arith)

enqueue_refines_example :
    let (code, s') = enqueue os q at_60 source 3 in
    let (code', ds') = push 64 [] (bytes source 0 3) in
    (code ≡ code')
    × Holds q s' ds'
    × (s'.msg_count ≡ (if ltb (length (wire []) + 15) 64 then Atomic.increment 0 else 0))
    × ((a : ℕ) → 64 ≤ a → s'.block a ≡ zeros a)
enqueue_refines_example = enqueue_refines os q at_60 [] source 3 at_60-Holds (omega arith)

full-Holds : Holds q full (d ∷ [])
unfolding push bytes wire
full-Holds = enqueue_refines_example.1

dequeue_refines_example :
    let r = dequeue os q full zeros 7 0 in
    let (code, out, ds') = pop 7 (d ∷ []) in
    (r.code ≡ code) × Holds q r.shm ds' × Delivered zeros out r
dequeue_refines_example = dequeue_refines os q full zeros 7 0 (d ∷ []) full-Holds

-- a tail of no sense
abbrev damaged : Shm
damaged = record full { head = 1; tail = 50 }

dequeue_recovers_example : Holds q (dequeue os q damaged zeros 99 0).shm []
unfolding program
dequeue_recovers_example =
    dequeue_recovers os q damaged zeros 99 0
      (record { ready = refl; small = omega arith; pos = omega arith }) refl refl

count_full : full.msg_count ≡ 1
unfolding program
count_full = refl

comsume_refines_example :
    let r = comsume os (some q) full zeros 7 0 in
    let (code, out, ds') = pop 7 (d ∷ []) in
    (r.code ≡ code) × Holds q r.shm ds' × Delivered zeros out r
comsume_refines_example = comsume_refines os q full zeros 7 0 (d ∷ []) full-Holds count_full

comsume_loses_example :
    let r = comsume os (some q) full zeros 6 0 in
    let r' = comsume os (some q) r.shm zeros 99 0 in
    (r.code ≡ k_err_input_buf_not_enough_space)
    × (r'.code ≡ k_err_shm_mq_empty)
    × Holds q r'.shm (d ∷ [])
comsume_loses_example =
    comsume_loses os q full zeros zeros 6 99 0 d full-Holds count_full (omega arith)

count-enqueue_example :
    (enqueue os q full source 20).1.msg_count ≡ length (push 64 (d ∷ []) (bytes source 0 20)).1
count-enqueue_example =
    count-enqueue os q full (d ∷ []) source 20 full-Holds (omega arith) count_full

count-dequeue_example : (dequeue os q full zeros 7 0).shm.msg_count ≡ length (pop 7 (d ∷ [])).2
unfolding pop
count-dequeue_example =
    count-dequeue os q full zeros 7 0 (d ∷ []) full-Holds count_full (ground arith)

clear_mq-Holds_example :
    let (code, s') = clear_mq os q damaged in
    (code ≡ k_ok) × Holds q s' [] × (s'.msg_count ≡ 0) × (s'.pid ≡ 0) × (s'.block ≡ damaged.block)
clear_mq-Holds_example =
    clear_mq-Holds os q damaged (record { ready = refl; small = omega arith; pos = omega arith })

abbrev no_stat : MqStat
no_stat = record {
  used_len = 0;
  free_len = 0;
  total_len = 0;
  shm_key = 0;
  shm_id = 0;
  shm_size = 0;
}

getstat_used_example :
    let (code, stat) = getstat q full no_stat in
    (code ≡ k_ok) × (stat.used_len ≡ length (wire (d ∷ []))) × (stat.used_len + stat.free_len ≡ 64)
getstat_used_example = getstat_used q full (d ∷ []) no_stat full-Holds

-- a message taken, one refused, one received, and one more taken
abbrev few_calls : List Call
few_calls = send source 3 ∷ send source 200 ∷ receive zeros 7 0 ∷ send source 5 ∷ []

run-is_empty_example :
    (is_empty q (segment_after os q at_60 few_calls) false ≡ (k_ok, false))
    × (get_msg_count q (segment_after os q at_60 few_calls) 0 ≡ (k_ok, 1))
unfolding program fifo_after
run-is_empty_example =
    run-is_empty os q at_60 [] few_calls at_60-Holds refl
      (omega arith, (omega arith, ((λ e. cc), (omega arith, tt))))

-- a system with one segment, of 76 + 8 bytes, once without it and once with it
abbrev no_segment : Ipc
no_segment = record {
  shmget_new = λ key size. created 5;
  shmget_old = λ key. none;
  shmat = λ id. some full;
}

abbrev one_segment : Ipc
one_segment = record {
  shmget_new = λ key size. eexist;
  shmget_old = λ key. some 5;
  shmat = λ id. some full;
}

init_new-Holds_example :
    let (code, q', segment) = init no_segment new_shm_mq 7 76 in
    (code ≡ k_ok)
    × ((s : Shm) × (segment ≡ some s) × Holds q' s [] × (s.msg_count ≡ full.msg_count))
init_new-Holds_example =
    init_new-Holds no_segment new_shm_mq 7 76 5 full refl (omega arith) (omega arith) refl

init_old-Holds_example :
    let (code, q', segment) = init one_segment new_shm_mq 7 76 in
    (code ≡ k_ok)
    × ((s : Shm) × (segment ≡ some s) × Holds q' s (d ∷ []) × (s.msg_count ≡ full.msg_count))
init_old-Holds_example =
    init_old-Holds one_segment new_shm_mq 7 76 5 full refl (omega arith) (omega arith) q (d ∷ [])
      refl refl refl full-Holds

abbrev files : LockFiles
files = record { open_lock = λ key. 4; flock = λ fd. true }

-- A second `init` of a consumer closes its lock file once, that of a producer twice.
closed_twice :
    ((init_lock_comsumer one_segment files (record { mq = none; mfd = 3 }) 7 76).closed ≡ 3 ∷ [])
    × ((init_lock_producer one_segment files (record { mq = none; mfd = 3 }) 7 76).closed
        ≡ 3 ∷ 3 ∷ [])
unfolding program init_lock_comsumer init_lock_producer closes fini_lock_endpoint init_endpoint init
closed_twice = (refl, refl)
