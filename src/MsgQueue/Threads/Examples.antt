-- ===== src/MsgQueue/Threads/Examples.antt =====
-- An interleaving of `enqueue` and `dequeue` of shmutil/shm_msg_queue.cc on a block of 64 bytes.
use shmutil.Base.{
  ◌+◌, ◌≡◌, refl, true, false, Bool, List, [], ◌∷◌, ◌++◌, inr, ◌==◌, if◌then◌else◌, arith,
}
use shmutil.Memory.{Memory, memcpy, store8, store32, load32, le_byte, bytes}
use shmutil.ErrorCode.{k_ok, k_err_shm_mq_empty}
use shmutil.Atomic
use shmutil.MsgQueue.{Shm, ShmMq, Process, zeros, check, check_proc_exist, clear_mq}
use shmutil.MsgQueue.Ring.{ring_pos, advance}
use shmutil.MsgQueue.Wire.{Message, wire}
use shmutil.MsgQueue.Send.{
  s_head, enqueue_whole, put_magic_split, enqueue_split_data, enqueue_split_head, enqueue_data,
}
use shmutil.MsgQueue.Receive.{clear_mess, read_head, read_data}
use shmutil.MsgQueue.Spec.{Holds}
use shmutil.MsgQueue.Threads.{
  Producing, Consuming, System, Reach, here, next, call_enqueue, step_enqueue, write_some,
  call_dequeue, step_dequeue, produce, consume, sent_by, got_by, at_rest, OnlyFrame,
}
use shmutil.MsgQueue.Threads.Facts.{in_flight}
use shmutil.MsgQueue.Threads.Fifo.{producer_mess, consumer_mess, threads_fifo}

program : Unit {0}
unfolding memcpy store8 store32 load32 le_byte bytes check check_proc_exist clear_mq s_head
    enqueue_whole put_magic_split enqueue_split_data enqueue_split_head enqueue_data clear_mess
    read_head read_data wire Atomic.increment Atomic.decrement Atomic.get_and_set produce consume
program = tt

abbrev os : Process
os = record { getpid = 42; kill = λ pid. 3 }

abbrev q : ShmMq
q = record { shm_key = 7; shm_size = 76; shm_id = 1; block_size = 64; is_init = true }

-- an empty queue whose next message goes round the end of the block
abbrev s : Shm
s = record { msg_count = 0; process_count = 0; head = 60; tail = 60; pid = 0; block = zeros }

s-Holds : Holds q s []
unfolding advance wire
s-Holds = record {
  ready = refl;
  small = omega arith;
  head_in = omega arith;
  room = omega arith;
  tail_at = refl;
  data_at = λ i h. absurd (omega arith);
}

abbrev source : Memory
source i = 10 + i

abbrev after_producer : System → System
after_producer y = record y {
  shm = (produce os q y.shm y.producing).0;
  producing = (produce os q y.shm y.producing).1;
  sent = y.sent ++ sent_by y.producing;
}

abbrev after_consumer : System → System
after_consumer y = record y {
  shm = (consume os q y.shm y.consuming).0;
  consuming = (consume os q y.shm y.consuming).1;
  got = y.got ++ got_by y.consuming (consume os q y.shm y.consuming).1;
}

-- the steps in a given order, `true` for the producer's
abbrev walk : System → List Bool → System
walk y [] = y
walk y (true ∷ l) = walk (after_producer y) l
walk y (false ∷ l) = walk (after_consumer y) l

walk-Reach :
    (y : System) (l : List Bool) → Reach os q (at_rest s) y → Reach os q (at_rest s) (walk y l)
walk-Reach y [] r = r
walk-Reach y (true ∷ l) r = walk-Reach (after_producer y) l (next r step_enqueue)
walk-Reach y (false ∷ l) r = walk-Reach (after_consumer y) l (next r step_dequeue)

abbrev start_send : System → System
start_send y = record y { producing = Producing.started source 3 }

abbrev start_receive : System → System
start_receive y = record y { consuming = Consuming.started zeros 99 }

-- The first message is sent, while the consumer reads the tail too early and finds nothing.
abbrev y₁ : System
y₁ =
    walk (start_receive (start_send (at_rest s)))
      (false ∷ true ∷ true ∷ true ∷ false ∷ false ∷ true ∷ true ∷ true ∷ [])

-- Then a second one is sent, part of its frame being there, while the consumer takes the first.
abbrev y₂ : System
y₂ = walk (start_receive (start_send y₁)) (true ∷ false ∷ true ∷ false ∷ true ∷ false ∷ [])

abbrev part : Memory
part a = if a == 11 then 83 else y₂.shm.block a

abbrev y₃ : System
y₃ =
    walk (record y₂ { shm = record y₂.shm { block = part } })
      (false ∷ false ∷ true ∷ false ∷ false ∷ true ∷ false ∷ [])

y₁_end :
    (y₁.producing ≡ Producing.ended k_ok)
    × (y₁.consuming ≡ Consuming.failed k_err_shm_mq_empty)
    × (y₁.sent ≡ (10 ∷ 11 ∷ 12 ∷ []) ∷ [])
unfolding program
y₁_end = (refl, refl, refl)

y₂_at : (y₂.producing ≡ Producing.writing source 3 11 15) × (y₂.shm.tail ≡ 11) × (y₂.shm.head ≡ 60)
unfolding program
y₂_at = (refl, refl, refl)

part-OnlyFrame : OnlyFrame q 11 15 y₂.shm.block part
unfolding ring_pos
part-OnlyFrame a apart = ground (arith, apart 0)

y₃_end :
    (y₃.got ≡ (10 ∷ 11 ∷ 12 ∷ []) ∷ []) × (y₃.sent ≡ (10 ∷ 11 ∷ 12 ∷ []) ∷ (10 ∷ 11 ∷ 12 ∷ []) ∷ [])
unfolding program
y₃_end = (refl, refl)

y₃-Reach : Reach os q (at_rest s) y₃
unfolding program
y₃-Reach =
    walk-Reach (record y₂ { shm = record y₂.shm { block = part } })
      (false ∷ false ∷ true ∷ false ∷ false ∷ true ∷ false ∷ [])
      (next
        (walk-Reach (start_receive (start_send y₁))
          (true ∷ false ∷ true ∷ false ∷ true ∷ false ∷ [])
          (next
            (next
              (walk-Reach (start_receive (start_send (at_rest s)))
                (false ∷ true ∷ true ∷ true ∷ false ∷ false ∷ true ∷ true ∷ true ∷ [])
                (next (next here (call_enqueue k_ok source 3 refl (omega arith)))
                  (call_dequeue zeros 99 (inr (k_err_shm_mq_empty, refl)))))
              (call_enqueue k_ok source 3 refl (omega arith)))
            (call_dequeue zeros 99 (inr (k_err_shm_mq_empty, refl)))))
        (write_some source 3 11 15 part refl part-OnlyFrame))

threads_fifo_example :
    (ds : List Message) × Holds q y₃.shm ds
    × ([] ++ y₃.sent ≡ y₃.got ++ (in_flight y₃.consuming ++ ds))
    × (producer_mess y₃.producing ≡ false)
    × (consumer_mess y₃.consuming ≡ false)
threads_fifo_example = threads_fifo os q [] s y₃ s-Holds y₃-Reach
