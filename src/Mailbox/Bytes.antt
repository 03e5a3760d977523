-- ===== src/Mailbox/Bytes.antt =====
-- Bytes in the circular buffer: what is read back is what was written.
use operativsystemer.Base.{
  ℕ, zero, suc, ◌+◌, ◌%◌, ◌^◌, ◌≤◌, ◌<◌, ◌≡◌, refl, sym, ap, ap₂, ◌∙◌, List, [], ◌∷◌, ◌++◌,
  append_assoc, append-nil, arith, length,
}
use operativsystemer.Mailbox.{
  buffer_size, store, int_bytes, int_of_bytes, buffer_to_msg, msg_to_buffer,
}

-- The `n` bytes from position `u` on; positions count on past the end of the buffer.
unfoldable pub bytes_at : (ℕ → ℕ) → ℕ → ℕ → List ℕ
bytes_at buf u zero = []
bytes_at buf u (suc n) = buf (u % buffer_size) ∷ bytes_at buf (u + 1) n

pub bytes_at-eq :
    (buf : ℕ → ℕ) (u v n : ℕ)
    → u % buffer_size ≡ v % buffer_size
    → bytes_at buf u n ≡ bytes_at buf v n
unfolding bytes_at
bytes_at-eq buf u v zero e = refl
bytes_at-eq buf u v (suc n) e = ap₂ ◌∷◌ (ap buf e) (bytes_at-eq buf (u + 1) (v + 1) n (omega arith))

pub length-bytes_at : (buf : ℕ → ℕ) (u n : ℕ) → length (bytes_at buf u n) ≡ n
unfolding bytes_at
length-bytes_at buf u zero = refl
length-bytes_at buf u (suc n) = ap suc (length-bytes_at buf (u + 1) n)

pub bytes_at-append :
    (buf : ℕ → ℕ) (u m n : ℕ) → bytes_at buf u (m + n) ≡ bytes_at buf u m ++ bytes_at buf (u + m) n
unfolding bytes_at
bytes_at-append buf u zero n =
    let here : u ≡ u + 0 = omega arith in
    let same : 0 + n ≡ n = omega arith in ap₂ (bytes_at buf) here same
bytes_at-append buf u (suc m) n =
    let count : suc m + n ≡ suc (m + n) = omega arith in
    let next : u + 1 + m ≡ u + suc m = omega arith in
    ap (bytes_at buf u) count
    ∙ ap (λ l. buf (u % buffer_size) ∷ l)
        (bytes_at-append buf (u + 1) m n
          ∙ ap (λ p. bytes_at buf (u + 1) m ++ bytes_at buf p n) next)

pub buffer_to_msg-bytes_at :
    (buf : ℕ → ℕ) (start i n : ℕ) → buffer_to_msg buf start i n ≡ bytes_at buf (start + i) n
unfolding buffer_to_msg bytes_at
buffer_to_msg-bytes_at buf start i zero = refl
buffer_to_msg-bytes_at buf start i (suc n) =
    ap (λ l. buf ((start + i) % buffer_size) ∷ l)
      (buffer_to_msg-bytes_at buf start (i + 1) n
        ∙ bytes_at-eq buf (start + (i + 1)) (start + i + 1) n (omega arith))

-- A byte written behind the last one of a window is the next byte of the window.
bytes_at-store :
    (buf : ℕ → ℕ) (u n p x : ℕ)
    → n < buffer_size
    → p ≡ (u + n) % buffer_size
    → bytes_at (store buf p x) u (suc n) ≡ bytes_at buf u n ++ x ∷ []
unfolding bytes_at
bytes_at-store buf u zero p x h e = ground arith
bytes_at-store buf u (suc n) p x h e = ground (arith, bytes_at-store buf (u + 1) n p x)

pub bytes_at-msg_to_buffer :
    (msg : List ℕ) (buf : ℕ → ℕ) (u n start i : ℕ)
    → n + length msg ≤ buffer_size
    → (start + i) % buffer_size ≡ (u + n) % buffer_size
    → bytes_at (msg_to_buffer msg buf start i) u (n + length msg) ≡ bytes_at buf u n ++ msg
unfolding msg_to_buffer
bytes_at-msg_to_buffer [] buf u n start i h e =
    let same : n + 0 ≡ n = omega arith in
    ap (bytes_at buf u) same ∙ sym (append-nil (bytes_at buf u n))
bytes_at-msg_to_buffer (x ∷ msg) buf u n start i h e =
    ap (bytes_at (msg_to_buffer msg buf' start (i + 1)) u) count
    ∙ bytes_at-msg_to_buffer msg buf' u (suc n) start (i + 1) (omega arith) (omega arith)
    ∙ ap (λ l. l ++ msg) (bytes_at-store buf u n ((start + i) % buffer_size) x (omega arith) e)
    ∙ append_assoc (bytes_at buf u n) (x ∷ []) msg
  where
    count : n + suc (length msg) ≡ suc n + length msg
    count = omega arith

    buf' : ℕ → ℕ
    buf' = store buf ((start + i) % buffer_size) x

pub int_of_bytes-int_bytes : (n : ℕ) → n < 2 ^ 32 → int_of_bytes (int_bytes n) ≡ n
unfolding int_bytes int_of_bytes
int_of_bytes-int_bytes n h = omega arith
