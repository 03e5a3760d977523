-- ===== src/Tests/Images.antt =====
-- createimage.c of cos318-project6 on a boot block, a kernel of two segments and two processes.
use operativsystemer.Base.{
  ℕ, ◌+◌, ◌-◌, ◌^◌, ◌≡◌, inr, refl, Option, some, none, ◌>>=◌, List, [], ◌∷◌, arith,
}
use operativsystemer.Image.{
  Image, Segment, Executable, create_images, write_segment, put_zeros, put_file,
}
use operativsystemer.Image.Segments.{IsPlaced, image_end}
use operativsystemer.Image.Directory.{IsGood}
use operativsystemer.Image.Listing.{AllGood, room}
use operativsystemer.Image.Reading.{Built, vm_kernel, create_images-Built}

abbrev boot_segment : Segment
boot_segment = record { p_offset = 0; p_vaddr = 0; p_filesz = 20; p_memsz = 30 }

abbrev boot_block : Executable
boot_block = record { segments = boot_segment ∷ []; bytes = λ a. a + 1 }

abbrev kernel_text : Segment
kernel_text = record { p_offset = 5; p_vaddr = 4096; p_filesz = 10; p_memsz = 10 }

abbrev kernel_data : Segment
kernel_data = record { p_offset = 15; p_vaddr = 4128; p_filesz = 8; p_memsz = 600 }

abbrev kernel_file : Executable
kernel_file = record { segments = kernel_text ∷ kernel_data ∷ []; bytes = λ a. a + 2 }

abbrev process_segment : Segment
process_segment = record { p_offset = 4; p_vaddr = 8200; p_filesz = 6; p_memsz = 7 }

abbrev process : Executable
process = record { segments = process_segment ∷ []; bytes = λ a. a + 3 }

abbrev blank_image : Image
blank_image = record {
  img = λ a. 7;
  nbytes = 3;
  offset = 0;
  pd_loc = 0;
  pd_lim = 0;
  location = 0;
  size = 0;
}

boot_block-IsGood : IsGood boot_block
unfolding IsPlaced
boot_block-IsGood = record {
  head = boot_segment;
  tail = [];
  shape = refl;
  placed = inr (omega arith, omega arith, omega arith, omega arith, omega arith, tt);
  virtual = omega arith;
}

kernel_file-IsGood : IsGood kernel_file
unfolding IsPlaced
kernel_file-IsGood = record {
  head = kernel_text;
  tail = kernel_data ∷ [];
  shape = refl;
  placed = inr (
    omega arith,
    omega arith,
    omega arith,
    omega arith,
    omega arith,
    inr (omega arith, omega arith, omega arith, omega arith, omega arith, tt),
  );
  virtual = omega arith;
}

process-IsGood : IsGood process
unfolding IsPlaced
process-IsGood = record {
  head = process_segment;
  tail = [];
  shape = refl;
  placed = inr (omega arith, omega arith, omega arith, omega arith, omega arith, tt);
  virtual = omega arith;
}

create_images-Built_example :
    (k : Image) × (create_images vm_kernel
        (boot_block ∷ kernel_file ∷ process ∷ process ∷ [])
        blank_image
      ≡ some k)
    × Built boot_block kernel_file (process ∷ process ∷ []) k
unfolding AllGood room image_end
create_images-Built_example =
    create_images-Built boot_block kernel_file (process ∷ process ∷ []) blank_image
      boot_block-IsGood kernel_file-IsGood (process-IsGood, (process-IsGood, tt)) refl (omega arith)
      (omega arith) (omega arith)

-- A segment of two bytes of the file and one zero at its place, behind a gap.
bytes_of : Option Image → Option (List ℕ)
bytes_of r = r >>= (λ k. some (k.nbytes ∷ k.img 2 ∷ k.img 3 ∷ k.img 4 ∷ k.img 5 ∷ k.img 6 ∷ []))

bytes_of-write_segment :
    bytes_of (
      write_segment
        (λ a. a + 3)
        (record { p_offset = 4; p_vaddr = 8196; p_filesz = 2; p_memsz = 3 })
        (record blank_image { offset = 2 ^ 32 - 8192 }))
    ≡ some (7 ∷ 7 ∷ 0 ∷ 7 ∷ 8 ∷ 0 ∷ [])
unfolding bytes_of write_segment put_zeros put_file
bytes_of-write_segment = refl

-- A segment before the end of the image is an error.
write_segment-behind :
    write_segment
      (λ a. a)
      (record { p_offset = 0; p_vaddr = 8194; p_filesz = 2; p_memsz = 3 })
      (record blank_image { offset = 2 ^ 32 - 8192 })
    ≡ none
unfolding write_segment
write_segment-behind = refl
