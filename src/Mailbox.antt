-- ===== src/Mailbox.antt =====
-- The mailboxes of cos318-project6/mbox.c: messages in a circular buffer of bytes. The functions
-- run between `lock_acquire` and `lock_release` of the mailbox's lock.
pub mod Bytes
pub mod Fifo
pub mod Refine
use operativsystemer.Base.{
  ℕ, zero, suc, ◌+◌, ◌-◌, ◌*◌, ◌/◌, ◌%◌, ◌^◌, Bool, true, false, ◌&&◌, not, Option, none, some,
  List, [], ◌∷◌, ◌++◌, ◌==◌, ltb, leb, if◌then◌else◌, length,
}

abbrev pub buffer_size : ℕ
buffer_size = 1024

abbrev pub header_size : ℕ
header_size = 4

-- `msg_t`. The size is an `int`, by its bit pattern, and the body has as many bytes as it says, if it is
-- not negative.
pub record Message : Type 0 where
  pub size : ℕ
  pub body : List ℕ

-- `mbox_t`, with the tasks that wait on its two condition variables, longest waiting first.
pub record Mbox : Type 0 where
  pub used : ℕ
  pub more_space : List ℕ
  pub more_data : List ℕ
  pub count : ℕ
  pub head : ℕ
  pub tail : ℕ
  pub buffer : ℕ → ℕ

-- `MSG_SIZE`, an unsigned sum that is stored in an `int`.
abbrev pub msg_size : Message → ℕ
msg_size m = (header_size + m.size) % 2 ^ 32

-- The four bytes of an `int` in memory, low byte first.
unfoldable pub int_bytes : ℕ → List ℕ
int_bytes n = (n % 256) ∷ (n / 256 % 256) ∷ (n / 65536 % 256) ∷ (n / 16777216 % 256) ∷ []

unfoldable pub int_of_bytes : List ℕ → ℕ
int_of_bytes [] = 0
int_of_bytes (b ∷ bs) = b + 256 * int_of_bytes bs

-- A message as the bytes that it takes in memory.
unfoldable pub message_bytes : Message → List ℕ
message_bytes m = int_bytes m.size ++ m.body

pub space_available : Mbox → ℕ
space_available q =
    if (q.tail == q.head) && not (q.count == 0)
    then 0
    else if ltb q.head q.tail
    then q.tail - q.head
    else q.tail + buffer_size - q.head

-- The loops of `buffer_to_msg` and `msg_to_buffer`, from index `i` on.
pub buffer_to_msg : (ℕ → ℕ) → ℕ → ℕ → ℕ → List ℕ
buffer_to_msg buf start i zero = []
buffer_to_msg buf start i (suc bytes) =
    buf ((start + i) % buffer_size) ∷ buffer_to_msg buf start (i + 1) bytes

abbrev pub store : (ℕ → ℕ) → ℕ → ℕ → ℕ → ℕ
store buf p v a = if a == p then v else buf a

pub msg_to_buffer : List ℕ → (ℕ → ℕ) → ℕ → ℕ → ℕ → ℕ
msg_to_buffer [] buf start i = buf
msg_to_buffer (x ∷ msg) buf start i =
    msg_to_buffer msg (store buf ((start + i) % buffer_size) x) start (i + 1)

-- The state of the mailboxes at start-up, and after `mbox_open` of a mailbox that nobody uses. The
-- buffer is not cleared.
pub mbox_init : Mbox → Mbox
mbox_init q = record q { used = 0; more_space = []; more_data = [] }

abbrev pub emptied : Mbox → Mbox
emptied q = record q { head = 0; tail = 0; count = 0 }

-- `used` is an `int`, by its bit pattern.
abbrev pub opened : Mbox → Mbox
opened q = record (if q.used == 0 then emptied q else q) { used = (q.used + 1) % 2 ^ 32 }

abbrev pub max_mbox : ℕ
max_mbox = 5

-- The table `Q`, and a key by its bit pattern, so that a negative one is large; `none` is -1.
pub mbox_open : ℕ → (ℕ → Mbox) → Option ℕ × (ℕ → Mbox)
mbox_open key boxes =
    if ltb key max_mbox
    then (some key, λ a. if a == key then opened (boxes key) else boxes a)
    else (none, boxes)

pub mbox_close : Mbox → Mbox
mbox_close q = record q { used = (q.used + 2 ^ 32 - 1) % 2 ^ 32 }

-- The number of messages, and the space left.
unfoldable pub mbox_stat : Mbox → ℕ × ℕ
mbox_stat q = (q.count, space_available q)

abbrev pub first_waiting : List ℕ → List ℕ × List ℕ
first_waiting [] = ([], [])
first_waiting (t ∷ ts) = (t ∷ [], ts)

-- The bytes that `msg_to_buffer` copies, and the head behind them: a negative number of bytes copies
-- nothing and takes the head back, with the remainder of C, below 0 if need be.
abbrev pub copied_bytes : Message → List ℕ
copied_bytes m = if ltb (msg_size m) (2 ^ 31) then message_bytes m else []

abbrev pub next_head : ℕ → ℕ → ℕ
next_head head size =
    if ltb size (2 ^ 31)
    then (head + size) % buffer_size
    else if leb (2 ^ 32 - size) head
    then (head - (2 ^ 32 - size)) % buffer_size
    else (2 ^ 32 - (2 ^ 32 - size - head) % buffer_size) % 2 ^ 32

-- One pass of `mbox_send`: `none` where the caller waits on `moreSpace`; else the tasks that the
-- signal wakes, and the mailbox. A negative size is less than any space.
pub mbox_send : Message → Mbox → Option (List ℕ × Mbox)
mbox_send m q =
    if ltb (msg_size m) (2 ^ 31) && ltb (space_available q) (msg_size m)
    then none
    else some (
        let (woken, waiting) = first_waiting q.more_data in
        (
          woken,
          record q {
            buffer = msg_to_buffer (copied_bytes m) q.buffer q.head 0;
            head = next_head q.head (msg_size m);
            more_data = waiting;
            count = q.count + 1;
          },
        ))

-- One pass of `mbox_recv`: `none` where the caller waits on `moreData`; else the message, the tasks
-- that the broadcast wakes, and the mailbox.
pub mbox_recv : Mbox → Option (Message × List ℕ × Mbox)
mbox_recv q =
    if q.count == 0
    then none
    else some (
      record { size = size; body = body },
      q.more_space,
      record q {
        tail = (body_start + (header_size + size) - header_size) % buffer_size;
        more_space = [];
        count = q.count - 1;
      },
    )
  where
    size : ℕ
    size = int_of_bytes (buffer_to_msg q.buffer q.tail 0 header_size)

    body_start : ℕ
    body_start = (q.tail + header_size) % buffer_size

    body : List ℕ
    body = buffer_to_msg q.buffer body_start 0 size
