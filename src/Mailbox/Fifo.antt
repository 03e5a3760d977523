-- ===== src/Mailbox/Fifo.antt =====
-- A mailbox is a first-in-first-out queue of messages.
use operativsystemer.Base.{
  ℕ, ◌+◌, ◌-◌, ◌%◌, ◌^◌, ◌≤◌, ◌<◌, ◌≡◌, ◌≢◌, refl, sym, subst, ap, ◌∙◌, none, some, false, List, [],
  ◌∷◌, ◌++◌, append_assoc, append-nil, arith, ◌==◌, ltb, lt→ltb, true, length, length-append,
  append-injective,
}
use operativsystemer.Mailbox.{
  Mbox, Message, buffer_size, header_size, msg_size, message_bytes, int_bytes, int_of_bytes,
  space_available, mbox_send, mbox_recv, buffer_to_msg, msg_to_buffer, first_waiting, max_mbox,
  emptied, mbox_open,
}
use operativsystemer.Mailbox.Bytes.{
  bytes_at, length-bytes_at, bytes_at-eq, bytes_at-append, buffer_to_msg-bytes_at,
  bytes_at-msg_to_buffer, int_of_bytes-int_bytes,
}

unfoldable pub encode : List Message → List ℕ
encode [] = []
encode (m ∷ ms) = message_bytes m ++ encode ms

-- The body has the size that the header says, and with the header that size is an `int`.
abbrev pub IsMessage : Message → Type 0
IsMessage m = (length m.body ≡ m.size) × (header_size + m.size < 2 ^ 31)

abbrev pub Messages : List Message → Type 0
Messages [] = Unit {0}
Messages (m ∷ ms) = IsMessage m × Messages ms

-- The bytes from `tail` to `head` are the messages, oldest first.
pub record IsMbox (q : Mbox) (ms : List Message) : Type 0 where
  pub bytes : bytes_at q.buffer q.tail (length (encode ms)) ≡ encode ms
  pub head_at : q.head ≡ (q.tail + length (encode ms)) % buffer_size
  pub tail_at : q.tail < buffer_size
  pub fits : length (encode ms) ≤ buffer_size
  pub counted : q.count ≡ length ms
  pub sized : Messages ms

length-message_bytes : (m : Message) → IsMessage m → length (message_bytes m) ≡ msg_size m
unfolding message_bytes int_bytes
length-message_bytes m v = omega (arith, v.0, v.1)

encode-append : (xs ys : List Message) → encode (xs ++ ys) ≡ encode xs ++ encode ys
unfolding encode
encode-append [] ys = refl
encode-append (m ∷ xs) ys =
    ap (◌++◌ (message_bytes m)) (encode-append xs ys)
    ∙ sym (append_assoc (message_bytes m) (encode xs) (encode ys))

-- A mailbox with a message has bytes in the buffer: full and empty are told apart by `count`.
some_bytes : (ms : List Message) → Messages ms → ms ≢ [] → header_size ≤ length (encode ms)
unfolding encode
some_bytes [] v n = absurd (n refl)
some_bytes (m ∷ ms) v n =
    omega (arith, length-append (message_bytes m) (encode ms), length-message_bytes m v.0)

-- `space_available` is the size of the buffer less the bytes of the messages, also where head and
-- tail meet in a full buffer.
pub space_available-encode :
    (q : Mbox) (ms : List Message)
    → IsMbox q ms
    → space_available q + length (encode ms) ≡ buffer_size
unfolding space_available encode
space_available-encode q [] v = ground (arith, v.head_at, v.counted, v.tail_at)
space_available-encode q (m ∷ ms) v =
    ground (arith, v.head_at, v.counted, v.tail_at, v.fits, some_bytes (m ∷ ms) v.sized (λ e. cc))

length-encode_snoc :
    (ms : List Message) (m : Message)
    → IsMessage m
    → length (encode (ms ++ m ∷ [])) ≡ length (encode ms) + msg_size m
unfolding encode
length-encode_snoc ms m w = omega (
  arith,
  ap length (encode-append ms (m ∷ [])),
  length-append (encode ms) (message_bytes m ++ []),
  length-append (message_bytes m) [],
  length-message_bytes m w,
)

Messages-snoc :
    (ms : List Message) (m : Message) → Messages ms → IsMessage m → Messages (ms ++ m ∷ [])
Messages-snoc [] m v w = (w, tt)
Messages-snoc (x ∷ ms) m v w = (v.0, Messages-snoc ms m v.1 w)

msg_size-int : (m : Message) → IsMessage m → ltb (msg_size m) (2 ^ 31) ≡ true
msg_size-int m w = lt→ltb (msg_size m) (2 ^ 31) (omega (arith, w.1))

-- A message that fits is sent at once: it goes behind the others, nothing of them is overwritten,
-- and one reader that waits is woken.
pub mbox_send-snoc :
    (q : Mbox) (ms : List Message) (m : Message)
    → IsMbox q ms
    → IsMessage m
    → length (encode ms) + msg_size m ≤ buffer_size
    → (q' : Mbox) × (mbox_send m q ≡ some ((first_waiting q.more_data).0, q'))
      × IsMbox q' (ms ++ m ∷ [])
unfolding mbox_send
mbox_send-snoc q ms m v w h = (
  q',
  (let room : ltb (space_available q) (msg_size m) ≡ false =
        ground (arith, space_available-encode q ms v) in
      rw (msg_size-int m w, room)),
  record {
    bytes =
        rw (length-encode_snoc ms m w, ← length-message_bytes m w)
          (bytes_at-msg_to_buffer (message_bytes m) q.buffer q.tail (length (encode ms)) q.head 0
              (omega (arith, length-message_bytes m w)) (omega (arith, v.head_at))
            ∙ ap (λ l. l ++ message_bytes m) v.bytes
            ∙ encoded);
    head_at = omega (arith, v.head_at, length-encode_snoc ms m w);
    tail_at = v.tail_at;
    fits = omega (arith, length-encode_snoc ms m w);
    counted = omega (arith, v.counted, length-append ms (m ∷ []));
    sized = Messages-snoc ms m v.sized w;
  },
)
  where
    q' : Mbox
    q' = record q {
      buffer = msg_to_buffer (message_bytes m) q.buffer q.head 0;
      head = (q.head + msg_size m) % buffer_size;
      more_data = (first_waiting q.more_data).1;
      count = q.count + 1;
    }

    encoded : encode ms ++ message_bytes m ≡ encode (ms ++ m ∷ [])
    encoded = sym (
        encode-append ms (m ∷ [])
        ∙ ap (◌++◌ (encode ms)) (unfold encode in append-nil (message_bytes m)))

-- A message that does not fit is not sent, and the caller waits.
pub mbox_send-waits :
    (q : Mbox) (ms : List Message) (m : Message)
    → IsMbox q ms
    → IsMessage m
    → buffer_size < length (encode ms) + msg_size m
    → mbox_send m q ≡ none
unfolding mbox_send
mbox_send-waits q ms m v w h =
    let full : ltb (space_available q) (msg_size m) ≡ true =
      ground (arith, space_available-encode q ms v) in
    rw (msg_size-int m w, full)

-- What the buffer holds of the first message.
module _ (q : Mbox) (m : Message) (ms : List Message) (v : IsMbox q (m ∷ ms)) where
  pieces :
      (bytes_at q.buffer q.tail header_size ≡ int_bytes m.size)
      × (bytes_at q.buffer (q.tail + header_size) m.size ≡ m.body)
      × (bytes_at q.buffer (q.tail + header_size + m.size) (length (encode ms)) ≡ encode ms)
  pieces = (split.0, split'.0, split'.1)
    where
      n : ℕ
      n = length (encode ms)

      front : List ℕ
      front = bytes_at q.buffer q.tail header_size

      back : List ℕ
      back = bytes_at q.buffer (q.tail + header_size) m.size

      rest : List ℕ
      rest = bytes_at q.buffer (q.tail + header_size + m.size) n

      total : length (encode (m ∷ ms)) ≡ header_size + (m.size + n)
      total =
          unfold encode in
          omega
            (arith, length-append (message_bytes m) (encode ms), length-message_bytes m v.sized.0)

      read : front ++ (back ++ rest) ≡ bytes_at q.buffer q.tail (length (encode (m ∷ ms)))
      read = rw total (
          sym (
            bytes_at-append q.buffer q.tail header_size (m.size + n)
            ∙ ap (◌++◌ front) (bytes_at-append q.buffer (q.tail + header_size) m.size n)))

      written : encode (m ∷ ms) ≡ int_bytes m.size ++ (m.body ++ encode ms)
      written = unfold encode message_bytes in append_assoc (int_bytes m.size) m.body (encode ms)

      split : (front ≡ int_bytes m.size) × (back ++ rest ≡ m.body ++ encode ms)
      split =
          append-injective front (back ++ rest) (int_bytes m.size) (m.body ++ encode ms)
            (length-bytes_at q.buffer q.tail header_size ∙ unfold int_bytes in refl)
            (read ∙ v.bytes ∙ written)

      split' : (back ≡ m.body) × (rest ≡ encode ms)
      split' =
          append-injective back rest m.body (encode ms)
            (length-bytes_at q.buffer (q.tail + header_size) m.size ∙ sym v.sized.0.0) split.1

  read_size : int_of_bytes (buffer_to_msg q.buffer q.tail 0 header_size) ≡ m.size
  read_size =
      ap int_of_bytes (
        buffer_to_msg-bytes_at q.buffer q.tail 0 header_size
        ∙ bytes_at-eq q.buffer (q.tail + 0) q.tail header_size (omega arith)
        ∙ pieces.0)
      ∙ int_of_bytes-int_bytes m.size (omega (arith, v.sized.0))

  read_body : buffer_to_msg q.buffer ((q.tail + header_size) % buffer_size) 0 m.size ≡ m.body
  read_body =
      buffer_to_msg-bytes_at q.buffer ((q.tail + header_size) % buffer_size) 0 m.size
      ∙ bytes_at-eq q.buffer ((q.tail + header_size) % buffer_size + 0) (q.tail + header_size)
          m.size (omega arith)
      ∙ pieces.1

-- The oldest message is received as it was sent, all writers that wait are woken, and the others stay.
pub mbox_recv-cons :
    (q : Mbox) (m : Message) (ms : List Message)
    → IsMbox q (m ∷ ms)
    → (q' : Mbox) × (mbox_recv q ≡ some (m, q.more_space, q')) × IsMbox q' ms
unfolding mbox_recv
mbox_recv-cons q m ms v = (
  q',
  rw (some_message, read_size q m ms v, read_body q m ms v),
  record {
    bytes =
        bytes_at-eq q.buffer q'.tail (q.tail + header_size + m.size) (length (encode ms))
          (omega arith)
        ∙ (pieces q m ms v).2;
    head_at = omega (arith, v.head_at, total);
    tail_at = omega arith;
    fits = omega (arith, v.fits, total);
    counted = omega (arith, v.counted);
    sized = v.sized.1;
  },
)
  where
    q' : Mbox
    q' = record q {
      tail =
          ((q.tail + header_size) % buffer_size + (header_size + m.size) - header_size)
          % buffer_size;
      more_space = [];
      count = q.count - 1;
    }

    some_message : (q.count == 0) ≡ false
    some_message = ground (arith, v.counted)

    total : length (encode (m ∷ ms)) ≡ msg_size m + length (encode ms)
    total =
        unfold encode in
        omega (arith, length-append (message_bytes m) (encode ms), length-message_bytes m v.sized.0)

-- From an empty mailbox nothing is received, and the caller waits.
pub mbox_recv-nil : (q : Mbox) → IsMbox q [] → mbox_recv q ≡ none
unfolding mbox_recv
mbox_recv-nil q v = ground (arith, v.counted)

pub emptied-IsMbox : (q : Mbox) (u : ℕ) → IsMbox (record (emptied q) { used = u }) []
unfolding encode bytes_at
emptied-IsMbox q u = record {
  bytes = refl;
  head_at = refl;
  tail_at = omega arith;
  fits = omega arith;
  counted = refl;
  sized = tt;
}

mbox_open-emptied :
    (key : ℕ) (boxes : ℕ → Mbox)
    → key < max_mbox
    → (boxes key).used ≡ 0
    → (mbox_open key boxes).1 key ≡ record (emptied (boxes key)) { used = 1 }
unfolding mbox_open
mbox_open-emptied key boxes h e = ground arith

-- A legal key opens a mailbox, and the first to open it finds it empty, whatever was in the buffer;
-- any other key opens none and changes nothing.
mbox_open-IsMbox :
    (key : ℕ) (boxes : ℕ → Mbox)
    → (key < max_mbox
        → (boxes key).used ≡ 0
        → ((mbox_open key boxes).0 ≡ some key) × IsMbox ((mbox_open key boxes).1 key) [])
      × (max_mbox ≤ key → mbox_open key boxes ≡ (none, boxes))
mbox_open-IsMbox key boxes = (
  λ h e. (
    unfold mbox_open in ground arith,
    subst (λ q. IsMbox q []) (sym (mbox_open-emptied key boxes h e)) (emptied-IsMbox (boxes key) 1),
  ),
  λ h. unfold mbox_open in ground arith,
)
