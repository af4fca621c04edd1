-- ===== src/MsgQueue/Lifecycle.antt =====
-- `init`, and the producers and consumers, against the FIFO.
use shmutil.Base.{ℕ, ◌+◌, ◌-◌, ◌^◌, ◌<◌, ◌≡◌, ◌≢◌, refl, true, List, [], ◌∷◌, some, length, arith}
use shmutil.Memory.{Memory}
use shmutil.ErrorCode.{k_ok, k_err_input_buf_not_enough_space, k_err_shm_mq_empty}
use shmutil.MsgQueue.{Shm, ShmMq, Process, is_empty}
use shmutil.MsgQueue.Wire.{Message}
use shmutil.MsgQueue.Receive.{dequeue}
use shmutil.MsgQueue.Clear.{at_zero-Holds}
use shmutil.MsgQueue.Spec.{Holds, pop}
use shmutil.MsgQueue.Pop.{Delivered, dequeue_refines}
use shmutil.MsgQueue.Count.{miscount-dequeue}
use shmutil.MsgQueue.Attach.{Ipc, created, eexist, init}
use shmutil.MsgQueue.Endpoints.{comsume, comsume_from}

module _ (ipc : Ipc) (old : ShmMq) (shm_key shm_size id : ℕ) (old_shm : Shm)
    (attach : ipc.shmat id ≡ some old_shm) (room : 12 < shm_size)
    (size : shm_size + 8 < 2 ^ 31) where
  abbrev handle : ShmMq
  handle = record {
    shm_key = shm_key;
    shm_size = shm_size;
    shm_id = id;
    block_size = shm_size - 12;
    is_init = true;
  }

  init-created :
      ipc.shmget_new shm_key (shm_size + 8) ≡ created id
      → init ipc old shm_key shm_size
        ≡ (k_ok, handle, some (record old_shm { head = 0; tail = 0; pid = 0 }))
  unfolding init
  init-created e = ground (arith, attach)

  init-existing :
      ipc.shmget_new shm_key (shm_size + 8) ≡ eexist
      → ipc.shmget_old shm_key ≡ some id
      → init ipc old shm_key shm_size ≡ (k_ok, handle, some (record old_shm { pid = 0 }))
  unfolding init
  init-existing e f = ground (arith, attach)

  -- `init` with a key that has no segment makes an empty queue, whatever the new segment holds, and leaves its counter of messages. `shmSize_` is above 12 and below 2 ^ 31 - 8, and the new segment is attached.
  pub init_new-Holds :
      ipc.shmget_new shm_key (shm_size + 8) ≡ created id
      → let (code, q, segment) = init ipc old shm_key shm_size in
        (code ≡ k_ok)
        × ((s : Shm) × (segment ≡ some s) × Holds q s [] × (s.msg_count ≡ old_shm.msg_count))
  init_new-Holds e = rw (init-created e) (
    refl,
    (
      _,
      refl,
      at_zero-Holds handle _ (record { ready = refl; small = omega arith; pos = omega arith }) refl
          refl,
      refl,
    ),
  )

  -- `init` with the key of a queue that another handle made with the same size shows its messages, and leaves its counter of messages. `shmSize_` is above 12 and below 2 ^ 31 - 8, and the segment is attached.
  pub init_old-Holds :
      (q : ShmMq) (ds : List Message)
      → ipc.shmget_new shm_key (shm_size + 8) ≡ eexist
      → ipc.shmget_old shm_key ≡ some id
      → q.block_size ≡ shm_size - 12
      → Holds q old_shm ds
      → let (code, q', segment) = init ipc old shm_key shm_size in
        (code ≡ k_ok)
        × ((s : Shm) × (segment ≡ some s) × Holds q' s ds × (s.msg_count ≡ old_shm.msg_count))
  init_old-Holds q ds e f b v = rw (init-existing e f) (
    refl,
    (
      _,
      refl,
      record {
        ready = refl;
        small = omega arith;
        head_in = omega (arith, v.head_in);
        room = omega (arith, v.room);
        tail_at = rw b at v.tail_at;
        data_at = rw b at v.data_at;
      },
      refl,
    ),
  )

comsume-empty :
    (os : Process) (q : ShmMq) (s : Shm) (buf : Memory) (buf_size len : ℕ)
    → q.is_init ≡ true
    → s.msg_count ≡ 0
    → comsume os (some q) s buf buf_size len
      ≡ record { code = k_err_shm_mq_empty; buf = buf; data_len = len; shm = s }
unfolding comsume comsume_from is_empty
comsume-empty os q s buf buf_size len h c = ground arith

comsume-dequeue :
    (os : Process) (q : ShmMq) (s : Shm) (buf : Memory) (buf_size len : ℕ)
    → q.is_init ≡ true
    → s.msg_count ≢ 0
    → comsume os (some q) s buf buf_size len ≡ dequeue os q s buf buf_size len
unfolding comsume comsume_from is_empty
comsume-dequeue os q s buf buf_size len h c = ground arith

-- Where the counter is the number of messages, `comsume` is `Spec.pop`, as `dequeue` is.
pub comsume_refines :
    (os : Process) (q : ShmMq) (s : Shm) (buf : Memory) (buf_size len : ℕ) (ds : List Message)
    → Holds q s ds
    → s.msg_count ≡ length ds
    → let r = comsume os (some q) s buf buf_size len in
      let (code, out, ds') = pop buf_size ds in
      (r.code ≡ code) × Holds q r.shm ds' × Delivered buf out r
comsume_refines os q s buf buf_size len [] v c =
    rw (comsume-empty os q s buf buf_size len v.ready c) (unfold pop in (refl, v, refl))
comsume_refines os q s buf buf_size len (d ∷ ds) v c =
    rw (comsume-dequeue os q s buf buf_size len v.ready (omega arith))
      (dequeue_refines os q s buf buf_size len (d ∷ ds) v)

-- After a `comsume` of the only message into a buffer that is too small, a further `comsume` finds
-- the queue empty, whatever its buffer, and the message is still there.
pub comsume_loses :
    (os : Process) (q : ShmMq) (s : Shm) (small_buf buf : Memory) (small_size buf_size len : ℕ)
    (d : Message)
    → Holds q s (d ∷ [])
    → s.msg_count ≡ 1
    → small_size < length d + 4
    → let r = comsume os (some q) s small_buf small_size len in
      let r' = comsume os (some q) r.shm buf buf_size len in
      (r.code ≡ k_err_input_buf_not_enough_space)
      × (r'.code ≡ k_err_shm_mq_empty)
      × Holds q r'.shm (d ∷ [])
comsume_loses os q s small_buf buf small_size buf_size len d v c h =
    let (code, holds, count) = miscount-dequeue os q s small_buf small_size len d [] v c h in
    let s' = (dequeue os q s small_buf small_size len).shm in
    rw
      (
        comsume-dequeue os q s small_buf small_size len v.ready (omega (arith, c)),
        comsume-empty os q s' buf buf_size len v.ready count,
      )
      (code, refl, holds)
