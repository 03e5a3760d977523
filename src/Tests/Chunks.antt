-- ===== src/Tests/Chunks.antt =====
-- The allocator of the USB stack at small inputs: a block of 1000 chunks in use, and 24 free ones.
use operativsystemer.Base.{
  ℕ, ◌-◌, ◌≡◌, refl, Option, none, some, List, ◌∷◌, arith, ◌||◌, ◌==◌, if◌then◌else◌, replicate,
}
use operativsystemer.Allocator.{
  Chunks, Heap, MemChunk, chunk_num, address, kzalloc_align, kfree, find_space, take_space,
  mark_used, update_previous, update_allocated, update_free,
}
use operativsystemer.Text.{bzero}
use operativsystemer.Allocator.Blocks.{Block, free, used, Holds, IsUsed}
use operativsystemer.Allocator.Start.{kfree-kzalloc_align}

abbrev chunk : ℕ → ℕ → ℕ → MemChunk
chunk f t n = record { is_free = f; total_size = t; size = n }

abbrev chunks : Chunks
chunks j = if (j == 0) || (j == 999) then chunk 0 1000 1000 else chunk 1 (chunk_num - j) 0

abbrev heap : Heap
heap = record { chunks = chunks; bytes = λ a. 7 }

abbrev blocks : List Block
blocks = used 1000 ∷ replicate 24 free

blocks-IsUsed : IsUsed chunks 0 1000
blocks-IsUsed = record {
  some_chunk = omega arith;
  first = refl;
  first_size = refl;
  last = refl;
  last_size = refl;
  inner = λ j b h. ground arith;
}

blocks-Holds : Holds chunks blocks
blocks-Holds = (blocks-IsUsed, refl, omega arith)

abbrev state : Option (Option ℕ × Heap) → Option ℕ × Heap
state none = (none, heap)
state (some r) = r

abbrev taken : Heap
unfolding kzalloc_align find_space take_space mark_used update_previous update_allocated update_free
taken = (state (kzalloc_align 100 256 heap)).1

kzalloc_align-taken : kzalloc_align 100 256 heap ≡ some (some (address 1000), taken)
unfolding kzalloc_align find_space take_space mark_used update_previous update_allocated update_free
    bzero taken
kzalloc_align-taken = refl

-- The block in use begins the sizes of the space in use, and the rest of the free space follows it.
taken_sizes :
    ((taken.chunks 0).total_size ≡ 1002)
    × ((taken.chunks 1000).total_size ≡ 2)
    × ((taken.chunks 1002).total_size ≡ 22)
unfolding kzalloc_align find_space take_space mark_used update_previous update_allocated update_free
    bzero taken
taken_sizes = (refl, refl, refl)

kfree-kzalloc_align_example :
    (h'' : Heap) × (kfree (address 1000) taken ≡ some h'')
    × Holds h''.chunks blocks
    × (h''.bytes ≡ taken.bytes)
kfree-kzalloc_align_example =
    kfree-kzalloc_align heap taken blocks 100 256 (address 1000) blocks-Holds (λ e. omega arith)
      (omega arith) (omega arith) kzalloc_align-taken
