-- ===== src/Allocator.antt =====
-- The memory allocator of cos318-project5/usb/allocator.c: chunks of 64 bytes, each with a word on
-- the block that it belongs to. The array of these words is read at any index; behind index
-- `chunk_num` stands what the linker put there. The functions run between `spinlock_acquire` and
-- `spinlock_release` of `memlock`. A loop that is left without fuel gives none.
pub mod Alloc
pub mod Blocks
pub mod Free
pub mod Loops
pub mod Padding
pub mod Room
pub mod Search
pub mod Start
use operativsystemer.Base.{
  ℕ, zero, suc, ◌+◌, ◌-◌, ◌*◌, ◌/◌, ◌%◌, ◌^◌, ◌&&◌, Option, none, some, ◌>>=◌, ◌==◌, ltb, leb,
  if◌then◌else◌,
}
use operativsystemer.Text.{bzero}

abbrev pub chunk_size : ℕ
chunk_size = 64

abbrev pub kernel_alloc_start : ℕ
kernel_alloc_start = 0x30000

abbrev pub kernel_alloc_stop : ℕ
kernel_alloc_stop = 0x40000

abbrev pub chunk_num : ℕ
chunk_num = (kernel_alloc_stop - kernel_alloc_start) / chunk_size

-- `struct mem_chunk`: a byte and two words of 32 bits.
pub record MemChunk : Type 0 where
  pub is_free : ℕ
  pub total_size : ℕ
  pub size : ℕ

-- `mem_chunk_list`.
abbrev pub Chunks : Type 0
Chunks = ℕ → MemChunk

abbrev pub wrap : ℕ → ℕ
wrap x = x % 2 ^ 32

abbrev pub write : Chunks → ℕ → MemChunk → Chunks
write c i v j = if j == i then v else c j

abbrev pub set_total : ℕ → ℕ → Chunks → Chunks
set_total i t c = write c i (record (c i) { total_size = t })

abbrev pub set_free : ℕ → ℕ → Chunks → Chunks
set_free i f c = write c i (record (c i) { is_free = f })

abbrev pub set_size : ℕ → ℕ → Chunks → Chunks
set_size i n c = write c i (record (c i) { size = n })

-- The loop over the blocks in use before chunk `i`, on fuel.
unfoldable pub update_allocated : ℕ → ℕ → ℕ → Chunks → Option Chunks
update_allocated zero i total c = none
update_allocated (suc fuel) i total c =
    let at : ℕ = wrap (i + 2 ^ 32 - (c (i - 1)).size) in
    let total' : ℕ = wrap (total + (c at).size) in
    let rest = update_allocated fuel at total' (set_total at total' c) in
    if ltb 0 i && ((c (i - 1)).is_free == 0) then rest else some c

-- The loop over the free chunks before chunk `i`.
unfoldable pub update_free : ℕ → ℕ → Chunks → Chunks
update_free zero total c = c
update_free (suc i) total c =
    let rest = update_free i (wrap (total + 1)) (set_total i (wrap (total + 1)) c) in
    if (c i).is_free == 1 then rest else c

-- `req_to_align`.
abbrev pub padding : ℕ → ℕ → ℕ
padding chunk_align chunk =
    if chunk_align == 0 then 0 else (chunk_align - chunk % chunk_align) % chunk_align

-- The first loop of `kzalloc_align`, on fuel: `chunk` and `req_to_align` as it leaves them.
unfoldable pub find_space : ℕ → Chunks → ℕ → ℕ → ℕ → ℕ → Option (ℕ × ℕ)
find_space zero c req_chunks chunk_align chunk req_to_align = none
find_space (suc fuel) c req_chunks chunk_align chunk req_to_align =
    let pad : ℕ = padding chunk_align chunk in
    let next : ℕ = wrap (chunk + (c chunk).total_size) in
    let skip_used = find_space fuel c req_chunks chunk_align next req_to_align in
    let skip_free = find_space fuel c req_chunks chunk_align next pad in
    if ltb chunk chunk_num
    then if (c chunk).is_free == 0
      then skip_used
      else if leb (wrap (req_chunks + pad)) (c chunk).total_size
      then some (chunk, pad)
      else skip_free
    else some (chunk, req_to_align)

-- The first and the last chunk of a block become used, and the first one gets the size of the used
-- space that begins there.
unfoldable pub mark_used : ℕ → ℕ → Chunks → Chunks
mark_used chunk req_chunks c =
    if (edges (chunk + req_chunks)).is_free == 0
    then set_total chunk (wrap (req_chunks + (edges (chunk + req_chunks)).total_size)) edges
    else set_total chunk req_chunks edges
  where
    edges : Chunks
    edges =
        set_size (chunk + req_chunks - 1) req_chunks
          (set_free (chunk + req_chunks - 1) 0 (set_size chunk req_chunks (set_free chunk 0 c)))

-- The update of the chunks before a block that is now in use.
unfoldable pub update_previous : ℕ → Chunks → Option Chunks
update_previous chunk c =
    if ltb 0 chunk
    then if (c (chunk - 1)).is_free == 0
      then update_allocated (chunk_num + 1) chunk (c chunk).total_size c
      else some (update_free chunk 0 c)
    else some c

-- The chunks and the bytes of the memory.
pub record Heap : Type 0 where
  pub chunks : Chunks
  pub bytes : ℕ → ℕ

-- The number of chunks for `size` bytes, an `int` that is not negative: 1 for no bytes.
abbrev pub chunks_for : ℕ → ℕ
chunks_for size = (size - 1) / chunk_size + 1

abbrev pub address : ℕ → ℕ
address chunk = kernel_alloc_start + chunk * chunk_size

-- The part of `kzalloc_align` behind its loop.
unfoldable pub take_space : ℕ → ℕ × ℕ → Heap → Option (Option ℕ × Heap)
take_space req_chunks (chunk, req_to_align) h =
    if chunk == chunk_num
    then some (none, h)
    else (update_previous at (mark_used at req_chunks h.chunks) >>= λ c. some (
      some (address at),
      record { chunks = c; bytes = bzero (address at) (req_chunks * chunk_size) h.bytes },
    ))
  where
    at : ℕ
    at = wrap (chunk + req_to_align)

unfoldable pub kzalloc_align : ℕ → ℕ → Heap → Option (Option ℕ × Heap)
kzalloc_align size alignment h =
    find_space (chunk_num + 1) h.chunks (chunks_for size) (alignment / chunk_size) 0 0 >>= λ place.
    take_space (chunks_for size) place h

pub kzalloc : ℕ → Heap → Option (Option ℕ × Heap)
kzalloc size h = kzalloc_align size 0 h

-- `kfree` of a pointer by its bit pattern: `none` also where ASSERT fails.
unfoldable pub free_chunks : ℕ → Chunks → Option Chunks
free_chunks chunk c =
    if (ltb 0 chunk) && ((freed (chunk - 1)).is_free == 0)
    then update_allocated (chunk_num + 1) chunk 0 freed
    else some freed
  where
    size : ℕ
    size = (c chunk).size

    edges : Chunks
    edges = set_free (chunk + size - 1) 1 (set_free chunk 1 c)

    total_size : ℕ
    total_size =
        if ltb (chunk + size) chunk_num && ((edges (chunk + size)).is_free == 1)
        then (edges (chunk + size)).total_size
        else 0

    freed : Chunks
    freed = update_free (chunk + size) total_size edges

unfoldable pub kfree : ℕ → Heap → Option Heap
kfree ptr h =
    if ltb chunk chunk_num
    then (free_chunks chunk h.chunks >>= λ c. some (record h { chunks = c }))
    else none
  where
    chunk : ℕ
    chunk = wrap (ptr + 2 ^ 32 - kernel_alloc_start) / chunk_size

-- The loop of `allocator_init`, for the chunks below `n`.
pub init_chunks : ℕ → Chunks → Chunks
init_chunks zero c = c
init_chunks (suc n) c =
    write (init_chunks n c) n
      (record { is_free = 1; total_size = chunk_num - n; size = chunk_num - n })

pub allocator_init : Heap → Heap
allocator_init h = record h { chunks = init_chunks chunk_num h.chunks }
