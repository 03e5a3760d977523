-- ===== src/Mailbox/Refine.antt =====
-- No sequence of calls tells a mailbox from a bounded queue of messages.
use operativsystemer.Base.{
  ℕ, ◌+◌, ◌≡◌, refl, ap₂, inl, inr, Option, none, some, List, [], ◌∷◌, ◌++◌, arith, leb,
  if◌then◌else◌, Bool-cases, length,
}
use operativsystemer.Mailbox.{Mbox, Message, buffer_size, header_size, mbox_send, mbox_recv}
use operativsystemer.Mailbox.Fifo.{
  IsMbox, IsMessage, encode, mbox_send-snoc, mbox_send-waits, mbox_recv-cons, mbox_recv-nil,
}

pub data Call : Type 0 where
  send : Message → Call
  receive : Call

pub data Reply : Type 0 where
  sent : Reply
  received : Message → Reply
  waits : Reply

-- A call that has to wait leaves the mailbox as it is.
after_send : Mbox → Option (List ℕ × Mbox) → Reply × Mbox
after_send q none = (waits, q)
after_send q (some (woken, q')) = (sent, q')

after_recv : Mbox → Option (Message × List ℕ × Mbox) → Reply × Mbox
after_recv q none = (waits, q)
after_recv q (some (m, woken, q')) = (received m, q')

pub call : Call → Mbox → Reply × Mbox
unfolding after_send after_recv
call (send m) q = after_send q (mbox_send m q)
call receive q = after_recv q (mbox_recv q)

pub run : List Call → Mbox → List Reply
run [] q = []
run (c ∷ cs) q = let (r, q') = call c q in r ∷ run cs q'

-- The specification: a list of messages that takes at most `buffer_size` bytes.
unfoldable pub queue_call : Call → List Message → Reply × List Message
queue_call (send m) ms =
    if leb (length (encode ms) + (header_size + m.size)) buffer_size
    then (sent, ms ++ m ∷ [])
    else (waits, ms)
queue_call receive [] = (waits, [])
queue_call receive (m ∷ ms) = (received m, ms)

unfoldable pub queue_run : List Call → List Message → List Reply
queue_run [] ms = []
queue_run (c ∷ cs) ms = let (r, ms') = queue_call c ms in r ∷ queue_run cs ms'

abbrev pub IsCall : Call → Type 0
IsCall (send m) = IsMessage m
IsCall receive = Unit {0}

abbrev pub Calls : List Call → Type 0
Calls [] = Unit {0}
Calls (c ∷ cs) = IsCall c × Calls cs

-- One call gives the reply of the queue and leaves the mailbox with its messages.
call_refines :
    (c : Call) (q : Mbox) (ms : List Message)
    → IsMbox q ms
    → IsCall c
    → ((call c q).0 ≡ (queue_call c ms).0) × IsMbox (call c q).1 (queue_call c ms).1
unfolding call queue_call
call_refines (send m) q ms v w =
    elim (Bool-cases (leb (length (encode ms) + (header_size + m.size)) buffer_size)) [
      | inl fits ↦
          let (q', e, v') = mbox_send-snoc q ms m v w (ground (arith, w.1)) in
          rw (fits, e) (refl, v')
      | inr full ↦ rw (full, mbox_send-waits q ms m v w (ground (arith, w.1))) (refl, v)
    ]
call_refines receive q [] v w = rw (mbox_recv-nil q v) (refl, v)
call_refines receive q (m ∷ ms) v w = let (q', e, v') = mbox_recv-cons q m ms v in rw e (refl, v')

-- Any sequence of calls with messages whose body has the size that the header says, and whose size
-- with the header is below 2^31, on a mailbox that holds the messages `ms`, gets the replies of the
-- first-in-first-out queue that holds `ms` and takes at most 1024 bytes with the headers.
pub run_refines :
    (cs : List Call) (q : Mbox) (ms : List Message)
    → IsMbox q ms
    → Calls cs
    → run cs q ≡ queue_run cs ms
unfolding run queue_run
run_refines [] q ms v w = refl
run_refines (c ∷ cs) q ms v w =
    let (same, v') = call_refines c q ms v w.0 in
    ap₂ ◌∷◌ same (run_refines cs (call c q).1 (queue_call c ms).1 v' w.1)
