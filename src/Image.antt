-- ===== src/Image.antt =====
-- The image builder cos318-project6/createimage.c, and readdir of kernel.c, which reads what it
-- wrote. The image file is its bytes by their offset; with a boot block that is not empty,
-- it ends at `nbytes`, except for the four bytes that `create_images` writes last. The headers of
-- an executable are given: elf.h reads them. `none` is an assertion that fails or an error that
-- ends the program; what is printed is left out.
pub mod Bytes
pub mod Segments
pub mod Directory
pub mod Listing
pub mod Reading
use operativsystemer.Base.{
  ℕ, zero, suc, ◌+◌, ◌-◌, ◌*◌, ◌/◌, ◌%◌, ◌^◌, Bool, true, false, ◌||◌, ◌&&◌, not, Option, none,
  some, ◌>>=◌, List, [], ◌∷◌, ◌==◌, ltb, leb, if◌then◌else◌,
}

abbrev pub Cells : Type 0
Cells = ℕ → ℕ

abbrev pub put : Cells → ℕ → ℕ → Cells
put m p v a = if a == p then v else m a

abbrev pub sector_size : ℕ
sector_size = 512

abbrev pub os_mem_loc : ℕ
os_mem_loc = 4096

abbrev pub align_page_down : ℕ → ℕ
align_page_down addr = addr / 4096 * 4096

-- The fields of an `Elf32_Phdr` that the program uses.
pub record Segment : Type 0 where
  pub p_offset : ℕ
  pub p_vaddr : ℕ
  pub p_filesz : ℕ
  pub p_memsz : ℕ

-- An input file: its program headers and its bytes.
pub record Executable : Type 0 where
  pub segments : List Segment
  pub bytes : Cells

-- The options `--vm` and `--kernel`.
pub record Options : Type 0 where
  pub vm : Bool
  pub kernel : Bool

-- `struct image_t`, with the fields of `struct directory_t`. `offset` is an `int`, by its bit
-- pattern.
pub record Image : Type 0 where
  pub img : Cells
  pub nbytes : ℕ
  pub offset : ℕ
  pub pd_loc : ℕ
  pub pd_lim : ℕ
  pub location : ℕ
  pub size : ℕ

abbrev pub aligned : Image → Bool
aligned im = im.nbytes % sector_size == 0

-- `fputc(c, im->img); im->nbytes++`.
abbrev pub put_byte : ℕ → Image → Image
put_byte c im = record im { img = put im.img im.nbytes c; nbytes = im.nbytes + 1 }

-- The loops that write `n` zero bytes.
unfoldable pub put_zeros : ℕ → Image → Image
put_zeros zero im = im
put_zeros (suc n) im = put_zeros n (put_byte 0 im)

-- The loop that writes `n` bytes of the input file, from `p` on.
unfoldable pub put_file : Cells → ℕ → ℕ → Image → Image
put_file file p zero im = im
put_file file p (suc n) im = put_file file (p + 1) n (put_byte (file p) im)

-- The loop of `process_end`, on fuel.
unfoldable pub pad_sector : ℕ → Image → Option Image
pad_sector zero im = none
pad_sector (suc fuel) im =
    let rest = pad_sector fuel (put_byte 0 im) in if aligned im then some im else rest

-- Bytes that `fwrite` puts at `p`, low byte first.
unfoldable pub write16 : Cells → ℕ → ℕ → Cells
write16 m p v = put (put m p (v % 256)) (p + 1) (v / 256 % 256)

unfoldable pub write32 : Cells → ℕ → ℕ → Cells
write32 m p v = write16 (write16 m p (v % 65536)) (p + 2) (v / 65536 % 65536)

-- What `*(uint16_t *)` and `int` read.
abbrev pub read16 : Cells → ℕ → ℕ
read16 m p = m p + 256 * m (p + 1)

abbrev pub read32 : Cells → ℕ → ℕ
read32 m p = read16 m p + 65536 * read16 m (p + 2)

unfoldable pub process_start : Options → ℕ → Image → Option Image
process_start o vaddr im =
    if not (aligned im)
    then none
    else if im.nbytes == 0
    then (if vaddr == 0 then some (record located { offset = 0 }) else none)
    else if not o.vm
    then some (record located { offset = sector_size + 2 ^ 32 - os_mem_loc })
    else some (record located { offset = (im.nbytes + 2 ^ 32 - align_page_down vaddr) % 2 ^ 32 })
  where
    located : Image
    located = record im { location = im.nbytes / sector_size }

unfoldable pub process_end : Image → Option Image
process_end im =
    pad_sector (sector_size + 1) im
    >>= (λ n. some (record n { size = n.nbytes / sector_size - n.location }))

-- A physical address is an `int`: from 2 ^ 31 on it is negative, and below `nbytes`.
unfoldable pub write_segment : Cells → Segment → Image → Option Image
write_segment file s im =
    if s.p_memsz == 0
    then some im
    else if leb (2 ^ 31) phyaddr || ltb phyaddr im.nbytes
    then none
    else some (
        put_zeros ((s.p_memsz + 2 ^ 32 - s.p_filesz) % 2 ^ 32)
          (put_file file s.p_offset s.p_filesz (put_zeros (phyaddr - im.nbytes) im)))
  where
    phyaddr : ℕ
    phyaddr = (s.p_vaddr + im.offset) % 2 ^ 32

unfoldable pub write_segments : Cells → List Segment → Image → Option Image
write_segments file [] im = some im
write_segments file (s ∷ ss) im = write_segment file s im >>= (λ n. write_segments file ss n)

unfoldable pub create_image : Options → Executable → Image → Option Image
create_image o x im = started x.segments >>= process_end
  where
    started : List Segment → Option Image
    started [] = some im
    started (s ∷ ss) = process_start o s.p_vaddr im >>= (λ n. write_segments x.bytes (s ∷ ss) n)

unfoldable pub write_os_size : Image → Option Image
write_os_size im =
    if aligned im
    then some (record im {
      img = write16 (write16 im.img 2 ((im.nbytes / sector_size + 2 ^ 16 - 1) % 2 ^ 16)) 510 43605;
    })
    else none

unfoldable pub prepare_process_directory : Image → Option Image
prepare_process_directory im =
    if aligned im
    then some
        (put_zeros sector_size (record im { pd_loc = im.nbytes; pd_lim = im.nbytes + sector_size }))
    else none

unfoldable pub write_process_directory : Image → Option Image
write_process_directory im =
    if leb im.pd_lim (im.pd_loc + 8)
    then none
    else some (record im {
      img = write32 (write32 im.img im.pd_loc im.location) (im.pd_loc + 4) im.size;
      pd_loc = im.pd_loc + 8;
    })

-- The loop of `create_images` over the files that are left.
unfoldable pub create_rest : Options → List Executable → Image → Option Image
create_rest o [] im = some im
create_rest o (x ∷ xs) im =
    create_image o x im
    >>= (λ n. (if o.vm then write_process_directory n else some n) >>= (λ k. create_rest o xs k))

-- The last bytes of the image and of a file system behind it.
abbrev pub fs_end : ℕ
fs_end = 256 * 1024 + 2048 * sector_size

unfoldable pub finish : Image → Option Image
finish im = if aligned im then some (record im { img = write32 im.img (fs_end - 4) 0 }) else none

unfoldable pub create_images : Options → List Executable → Image → Option Image
create_images o [] im = none
create_images o (boot ∷ files) im =
    create_image o boot (record im { nbytes = 0 }) >>= (λ n. after o.vm o.kernel files n)
  where
    prepared : List Executable → Image → Option Image
    prepared xs n =
        write_os_size n
        >>= (λ k. prepare_process_directory k >>= (λ d. create_rest o xs d >>= finish))

    after : Bool → Bool → List Executable → Image → Option Image
    after true true [] n = none
    after true true (k ∷ xs) n = create_image o k n >>= prepared xs
    after true false xs n = prepared xs n
    after false _ xs n = create_rest o xs n >>= (λ r. write_os_size r >>= finish)

-- `read` of a sector of the image, by its number.
abbrev pub sector : Cells → ℕ → Cells
sector img s i = img (s * sector_size + i)

-- The sector that `readdir` of kernel.c copies to its caller.
unfoldable pub readdir : (ℕ → Cells) → Cells
readdir read = let os_size = read16 (read 0) 2 in read (os_size + 1)
