-- ===== src/Bios/Words.antt =====
-- `read` and `write` of cos318-project6/usb.c as memory.c uses them: the disk of 32-bit words that the
-- pages of a process go to, the lowest byte of a word first.
use operativsystemer.Base.{
  ℕ, ◌+◌, ◌*◌, ◌/◌, ◌%◌, ◌^◌, ◌<◌, ◌≡◌, ◌≢◌, refl, sym, ◌∙◌, false, Option, none, some, arith,
}
use operativsystemer.Text.{Cells}
use operativsystemer.Bios.{Bios, DiskParams, Usb, copy_sector, head_of, read, sector_size, write}
use operativsystemer.Bios.Geometry.{IsDisk, block_at-block, limit}
use operativsystemer.Bios.Sectors.{
  SameBytes, Works, contents, copied, cx_at, read-given, registers-differ, write-kept,
}
use operativsystemer.Memory.{Disk}

-- The bytes of words, and the words of bytes.
unfoldable pub byte_of : (ℕ → ℕ) → Cells
byte_of f j = f (j / 4) / 256 ^ (j % 4) % 256

abbrev pub word_of : Cells → ℕ → ℕ
word_of b i = b (4 * i) + 256 * b (4 * i + 1) + 65536 * b (4 * i + 2) + 16777216 * b (4 * i + 3)

byte-at : (f : ℕ → ℕ) (i j : ℕ) → j < 4 → byte_of f (4 * i + j) ≡ f i / 256 ^ j % 256
unfolding byte_of
byte-at f i j h =
    let quotient : (4 * i + j) / 4 ≡ i = omega arith in
    let rest : (4 * i + j) % 4 ≡ j = omega arith in rw quotient (rw rest refl)

byte-first : (f : ℕ → ℕ) (i : ℕ) → byte_of f (4 * i) ≡ f i % 256
unfolding byte_of
byte-first f i =
    let quotient : 4 * i / 4 ≡ i = omega arith in
    let rest : 4 * i % 4 ≡ 0 = omega arith in rw quotient (rw rest (omega arith))

word_of-byte_of : (f : ℕ → ℕ) (i : ℕ) → f i < 2 ^ 32 → word_of (byte_of f) i ≡ f i
word_of-byte_of f i small = rw (byte-first f i) (
    rw (byte-at f i 1 (omega arith))
      (rw (byte-at f i 2 (omega arith)) (rw (byte-at f i 3 (omega arith)) (omega arith))))

word_of-same :
    (b c : Cells) (i : ℕ)
    → i < 128
    → ((j : ℕ) → j < sector_size → b j ≡ c j)
    → word_of b i ≡ word_of c i
word_of-same b c i h same = rw (same (4 * i) (omega arith)) (
    rw (same (4 * i + 1) (omega arith))
      (rw (same (4 * i + 2) (omega arith)) (rw (same (4 * i + 3) (omega arith)) refl)))

-- The lock is free between the calls, and no call relies on what the buffer of the BIOS held.
abbrev pub fresh : {D : Type 0} → D → Usb D
fresh d = record { locked = false; dh = 0; cx = 0; v86_buf = λ j. 0; disk = d }

-- A call that does not go on leaves nothing to read, and the disk as it was.
unfoldable pub words_or_zero : {D : Type 0} → Option (Cells × Usb D) → ℕ → ℕ
words_or_zero none i = 0
words_or_zero (some r) i = word_of r.0 i

unfoldable pub disk_or : {D : Type 0} → D → Option (Usb D) → D
disk_or d none = d
disk_or d (some u) = u.disk

module _ {D : Type 0} (bios : Bios D) (params : DiskParams) where
  abbrev pub read_words : D → ℕ → ℕ → ℕ
  read_words d n = words_or_zero (read bios params n (λ j. 0) (fresh d))

  abbrev pub write_words : D → ℕ → (ℕ → ℕ) → D
  write_words d n f = disk_or d (write bios params n (byte_of f) (fresh d))

  read_words-seen :
      (d : D) (n i : ℕ) (c : Cells)
      → IsDisk params
      → SameBytes (contents bios params d n) c
      → i < 128
      → read_words d n i ≡ word_of c i
  unfolding words_or_zero
  read_words-seen d n i c geometry seen inside =
      let (w, out, got, same_disk, unlocked, bytes) =
        read-given bios params n (λ j. 0) (fresh d) c geometry refl seen in
      rw got (word_of-same out c i inside bytes)

  -- What write leaves on the disk.
  write_words-kept :
      (d : D) (n : ℕ) (f : ℕ → ℕ) (kept : D)
      → IsDisk params
      → bios.write_sector (head_of params n) (cx_at params n) (copy_sector (byte_of f) (λ j. 0)) d
        ≡ some kept
      → write_words d n f ≡ kept
  unfolding disk_or
  write_words-kept d n f kept geometry wrote =
      let (w, run, at, unlocked) =
        write-kept bios params n (byte_of f) (fresh d) kept geometry refl wrote in
      rw run at

  pub written :
      (d : D) (n i : ℕ) (f : ℕ → ℕ)
      → Works bios params
      → IsDisk params
      → n < limit params
      → i < 128
      → ((j : ℕ) → f j < 2 ^ 32)
      → read_words (write_words d n f) n i ≡ f i
  written d n i f works geometry below inside small =
      let given : Cells = copy_sector (byte_of f) (λ j. 0) in
      let (kept, wrote, back, others) =
        works.writes (head_of params n) (cx_at params n) given d
          (block_at-block params n geometry below).1 in
      rw (write_words-kept d n f kept geometry wrote) (
        read_words-seen kept n i given geometry back inside
        ∙ word_of-same given (byte_of f) i inside (copied (byte_of f) (λ j. 0))
        ∙ word_of-byte_of f i (small i))

  pub kept-elsewhere :
      (d : D) (n t i : ℕ) (f : ℕ → ℕ)
      → Works bios params
      → IsDisk params
      → n < limit params
      → t < limit params
      → t ≢ n
      → i < 128
      → read_words (write_words d n f) t i ≡ read_words d t i
  kept-elsewhere d n t i f works geometry below here ne inside =
      let given : Cells = copy_sector (byte_of f) (λ j. 0) in
      let (kept, wrote, back, others) =
        works.writes (head_of params n) (cx_at params n) given d
          (block_at-block params n geometry below).1 in
      let (c, had) =
        works.reads (head_of params t) (cx_at params t) d
          (block_at-block params t geometry here).1 in
      let still : contents bios params kept t ≡ some c =
        others (head_of params t) (cx_at params t) (block_at-block params t geometry here).1
          (registers-differ params n t geometry below here ne)
        ∙ had in
      rw (write_words-kept d n f kept geometry wrote) (
        read_words-seen kept t i c geometry (c, still, (λ j h. refl)) inside
        ∙ sym (read_words-seen d t i c geometry (c, had, (λ j h. refl)) inside))

  -- The disk of memory.c.
  abbrev pub bios_disk : Works bios params → IsDisk params → Disk D
  bios_disk works geometry = record {
    read = read_words;
    write = write_words;
    capacity = limit params;
    read-write = λ c s f i below inside small. written c s i f works geometry below inside small;
    read-write_other = λ c s t f i below here ne inside.
        kept-elsewhere c s t i f works geometry below here ne inside;
  }
