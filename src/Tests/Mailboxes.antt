-- ===== src/Tests/Mailboxes.antt =====
-- mbox.c on a mailbox that has just been opened.
use operativsystemer.Base.{◌≡◌, List, [], ◌∷◌, arith}
use operativsystemer.Mailbox.{Mbox, Message, emptied}
use operativsystemer.Mailbox.Fifo.{emptied-IsMbox}
use operativsystemer.Mailbox.Refine.{Call, send, receive, run, queue_run, run_refines}

abbrev unused_mailbox : Mbox
unused_mailbox = record {
  used = 0;
  more_space = [];
  more_data = [];
  count = 3;
  head = 9;
  tail = 9;
  buffer = λ i. 7;
}

abbrev empty_mailbox : Mbox
empty_mailbox = record (emptied unused_mailbox) { used = 1 }

abbrev hello : Message
hello = record { size = 2; body = 104 ∷ 105 ∷ [] }

abbrev some_calls : List Call
some_calls = receive ∷ send hello ∷ receive ∷ []

run_refines_example : run some_calls empty_mailbox ≡ queue_run some_calls []
run_refines_example =
    run_refines some_calls empty_mailbox [] (emptied-IsMbox unused_mailbox 1) (omega arith)
