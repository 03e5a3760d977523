-- ===== src/Image/Reading.antt =====
-- The process directory that createimage.c writes is what readdir of the kernel returns.
use operativsystemer.Base.{
  ℕ, ◌+◌, ◌-◌, ◌*◌, ◌/◌, ◌%◌, ◌^◌, ◌≤◌, ◌<◌, ◌≡◌, inl, refl, sym, subst, ◌∙◌, ap, true, some, List,
  [], ◌∷◌, arith, length,
}
use operativsystemer.Image.{
  Cells, Image, Segment, Executable, Options, put_zeros, read16, write16, write32, create_image,
  write_os_size, prepare_process_directory, create_rest, finish, create_images, fs_end, sector,
  readdir,
}
use operativsystemer.Image.Bytes.{Grown, put_zeros-Grown, write32-other}
use operativsystemer.Image.Segments.{HoldsAll, HoldsAll-frame}
use operativsystemer.Image.Directory.{base_of, extent, IsGood, Created, create_image-Created}
use operativsystemer.Image.Listing.{Listed, room, AllGood, Ready, Continues, create_rest-Listed}

-- The image with the size of the kernel and the signature of a boot sector.
signed : Image → Image
signed im = record im {
  img = write16 (write16 im.img 2 ((im.nbytes / 512 + 2 ^ 16 - 1) % 2 ^ 16)) 510 43605;
}

write_os_size-signed : (im : Image) → im.nbytes % 512 ≡ 0 → write_os_size im ≡ some (signed im)
unfolding write_os_size signed
write_os_size-signed im h = rw h refl

signed-other : (im : Image) (a : ℕ) → 512 ≤ a → (signed im).img a ≡ im.img a
unfolding signed write16
signed-other im a h = ground arith

signed-size :
    (im : Image)
    → 0 < im.nbytes / 512
    → im.nbytes / 512 < 2 ^ 16
    → read16 (signed im).img 2 + 1 ≡ im.nbytes / 512
unfolding signed write16
signed-size im pos small =
    let v : (im.nbytes / 512 + 2 ^ 16 - 1) % 2 ^ 16 ≡ im.nbytes / 512 - 1 = omega arith in
    let b0 : (signed im).img 2 ≡ (im.nbytes / 512 - 1) % 256 = rw v (ground arith) in
    let b1 : (signed im).img 3 ≡ (im.nbytes / 512 - 1) / 256 % 256 = rw v (ground arith) in
    omega (arith, b0, b1)

-- The image with an empty directory.
begun : Image → Image
begun im = put_zeros 512 (record im { pd_loc = im.nbytes; pd_lim = im.nbytes + 512 })

prepare_process_directory-begun :
    (im : Image) → im.nbytes % 512 ≡ 0 → prepare_process_directory im ≡ some (begun im)
unfolding prepare_process_directory begun
prepare_process_directory-begun im h = rw h refl

begun-Grown :
    (im : Image)
    → Grown (record im { pd_loc = im.nbytes; pd_lim = im.nbytes + 512 }) (begun im) 512 (λ j. 0)
unfolding begun
begun-Grown im = put_zeros-Grown 512 (record im { pd_loc = im.nbytes; pd_lim = im.nbytes + 512 })

begun-Ready :
    (im : Image) (entries more : ℕ)
    → im.nbytes % 512 ≡ 0
    → entries < 64
    → im.nbytes + 512 + more < 2 ^ 31
    → Ready (begun im) entries more
begun-Ready im entries more whole fit small =
    let b : Grown (record im { pd_loc = im.nbytes; pd_lim = im.nbytes + 512 }) (begun im) 512
        (λ j. 0) =
      begun-Grown im in
    record {
      whole = omega (arith, whole, b.end);
      some_bytes = omega (arith, b.end);
      behind = omega (arith, b.end, b.pd_lim);
      entries_fit = omega (arith, fit, b.pd_loc, b.pd_lim);
      blank = λ a from to.
          subst (λ p. (begun im).img p ≡ 0) (omega (arith, b.pd_loc, from))
            (b.added (a - im.nbytes) (omega (arith, from, to, b.pd_loc, b.pd_lim)));
      small = omega (arith, b.end, small);
    }

finished : Image → Image
finished im = record im { img = write32 im.img (fs_end - 4) 0 }

finish-finished : (im : Image) → im.nbytes % 512 ≡ 0 → finish im ≡ some (finished im)
unfolding finish finished
finish-finished im h = rw h refl

finished-other : (im : Image) (a : ℕ) → a < fs_end - 4 → (finished im).img a ≡ im.img a
unfolding finished
finished-other im a h = write32-other im.img (fs_end - 4) 0 a (inl h)

-- The address that the first segment asks for.
abbrev pub first_vaddr : List Segment → ℕ
first_vaddr [] = 0
first_vaddr (s ∷ ss) = s.p_vaddr

-- The options of the Makefile: `--vm --kernel`.
abbrev pub vm_kernel : Options
vm_kernel = record { vm = true; kernel = true }

create_images-run :
    (boot kernel : Executable) (xs : List Executable) (im n k r : Image)
    → create_image vm_kernel boot (record im { nbytes = 0 }) ≡ some n
    → create_image vm_kernel kernel n ≡ some k
    → k.nbytes % 512 ≡ 0
    → create_rest vm_kernel xs (begun (signed k)) ≡ some r
    → r.nbytes % 512 ≡ 0
    → create_images vm_kernel (boot ∷ kernel ∷ xs) im ≡ some (finished r)
unfolding create_images signed
create_images-run boot kernel xs im n k r a b c d e = rw a (
    rw b (
      rw (write_os_size-signed k c)
        (rw (prepare_process_directory-begun (signed k) c) (rw d (finish-finished r e)))))

-- An image with a boot block, the kernel, and a directory of the processes behind it.
pub record Built (boot kernel : Executable) (xs : List Executable) (k : Image) : Type 0 where
  pub first : ℕ
  pub first_le : extent boot ≤ first * 512
  pub first_short : first * 512 ≤ extent boot + 511
  pub kernel_held :
      HoldsAll k.img kernel.bytes (first * 512) (base_of kernel.segments) kernel.segments
  pub os_size_le : first * 512 + extent kernel ≤ (read16 k.img 2 + 1) * 512
  pub os_size_short : (read16 k.img 2 + 1) * 512 ≤ first * 512 + extent kernel + 511
  pub entries : Listed (readdir (sector k.img)) k.img 0 (read16 k.img 2 + 2) xs

-- What stood in the signed image is in the finished one.
finished-signed :
    (s r : Image) (entries more : ℕ)
    → Continues (begun s) r entries more
    → r.nbytes ≤ fs_end - 4
    → (a : ℕ) → a < s.nbytes
    → (finished r).img a ≡ s.img a
finished-signed s r entries more c small a h =
    let b : Grown (record s { pd_loc = s.nbytes; pd_lim = s.nbytes + 512 }) (begun s) 512 (λ j. 0) =
      begun-Grown s in
    finished-other r a (omega (arith, h, c.le, b.end, small))
    ∙ c.same a (omega (arith, h, b.end)) (inl (omega (arith, h, b.pd_loc)))
    ∙ b.below a h

readdir-sector :
    (img : Cells) (l : ℕ) → (read16 img 2 + 1) * 512 ≡ l → readdir (sector img) ≡ (λ a. img (l + a))
unfolding readdir
readdir-sector img l e = ap (λ l a. img (l + a)) e

Built-finished :
    (boot kernel : Executable) (xs : List Executable) (im n k r : Image)
    → im.nbytes ≡ 0
    → IsGood kernel
    → 0 < extent boot
    → Created boot im n
    → Created kernel n k
    → Continues (begun (signed k)) r (length xs) (room xs)
    → r.nbytes ≤ fs_end - 4
    → ((m : Cells)
        → ((a : ℕ) → a < r.nbytes → m a ≡ r.img a)
        → Listed (λ a. m (k.nbytes + a)) m 0 ((k.nbytes + 512) / 512) xs)
    → Built boot kernel xs (finished r)
unfolding signed
Built-finished boot kernel xs im n k r empty g some_boot b c rest small listed = record {
  first = n.nbytes / 512;
  first_le = omega (arith, empty, b.le, b.whole);
  first_short = omega (arith, empty, b.short, b.whole);
  kernel_held =
      subst
        (λ p. HoldsAll (finished r).img kernel.bytes p (base_of kernel.segments) kernel.segments)
        (omega (arith, b.whole))
        (HoldsAll-frame k.img (finished r).img kernel.bytes n.nbytes (base_of kernel.segments) 0
          kernel.segments g.placed
          (λ a from to.
            kept a (omega (arith, to, c.le)) ∙ signed-other k a (omega (arith, from, big)))
          c.held);
  os_size_le =
      subst (λ v. n.nbytes / 512 * 512 + extent kernel ≤ v * 512) (sym size)
        (omega (arith, b.whole, c.le, c.whole));
  os_size_short =
      subst (λ v. v * 512 ≤ n.nbytes / 512 * 512 + extent kernel + 511) (sym size)
        (omega (arith, b.whole, c.short, c.whole));
  entries =
      subst (λ dir. Listed dir (finished r).img 0 (read16 (finished r).img 2 + 2) xs)
        (sym (readdir-sector (finished r).img k.nbytes (omega (arith, size, c.whole))))
        (subst (λ v. Listed (λ a. (finished r).img (k.nbytes + a)) (finished r).img 0 v xs)
          (omega (arith, size, c.whole))
          (listed (finished r).img (λ a h. finished-other r a (omega (arith, h, small)))));
}
  where
    big : 512 ≤ n.nbytes
    big = omega (arith, empty, b.le, b.whole, some_boot)

    kept : (a : ℕ) → a < k.nbytes → (finished r).img a ≡ (signed k).img a
    kept a h = finished-signed (signed k) r (length xs) (room xs) rest small a h

    size : read16 (finished r).img 2 + 1 ≡ k.nbytes / 512
    size =
        let m2 : (finished r).img 2 ≡ (signed k).img 2 = kept 2 (omega (arith, big, c.le)) in
        let m3 : (finished r).img 3 ≡ (signed k).img 3 = kept 3 (omega (arith, big, c.le)) in
        rw m2 (
          rw m3 (
            signed-size k (omega (arith, big, c.le, c.whole))
              (omega (arith, rest.le, small, (begun-Grown (signed k)).end))))

-- With `--vm --kernel`, a boot block whose first segment starts at address 0, a kernel and less than
-- 64 processes, all with segments that do not overlap, that fit below the last four bytes with a
-- sector of padding each: create_images succeeds. The sectors of the kernel come behind those of
-- the boot block, as many as the number in the boot block says; and the sector that readdir of the
-- kernel copies lists the processes in their order, each with the sector at which its segments stand in
-- the image and with its number of sectors, and ends with a zero.
pub create_images-Built :
    (boot kernel : Executable) (xs : List Executable) (im : Image) (b : IsGood boot)
    → IsGood kernel
    → AllGood xs
    → first_vaddr boot.segments ≡ 0
    → 0 < extent boot
    → length xs < 64
    → extent boot + extent kernel + room xs + 2048 ≤ fs_end
    → (k : Image) × (create_images vm_kernel (boot ∷ kernel ∷ xs) im ≡ some k)
      × Built boot kernel xs k
unfolding signed
create_images-Built boot kernel xs im b g gs first pos count fit =
    let empty : Image = record im { nbytes = 0 } in
    let n : (n : Image) × (create_image vm_kernel boot empty ≡ some n) × Created boot empty n =
      create_image-Created vm_kernel boot empty b refl refl
        (λ z. sym (ap first_vaddr b.shape) ∙ first) (omega arith) in
    let c : Created boot empty n.0 = n.2 in
    let k : (k : Image) × (create_image vm_kernel kernel n.0 ≡ some k) × Created kernel n.0 k =
      create_image-Created vm_kernel kernel n.0 g refl c.whole
        (λ z. absurd (omega (arith, z, c.le, pos))) (omega (arith, c.short)) in
    let d : Created kernel n.0 k.0 = k.2 in
    let grown : Grown (record (signed k.0) { pd_loc = k.0.nbytes; pd_lim = k.0.nbytes + 512 })
        (begun (signed k.0)) 512 (λ j. 0) =
      begun-Grown (signed k.0) in
    let r : (r : Image) × (create_rest vm_kernel xs (begun (signed k.0)) ≡ some r)
        × Continues (begun (signed k.0)) r (length xs) (room xs)
        × ((m : Cells)
            → ((a : ℕ) → a < r.nbytes → m a ≡ r.img a)
            → Listed (λ a. m (k.0.nbytes + a)) m 0 ((begun (signed k.0)).nbytes / 512) xs) =
      create_rest-Listed vm_kernel xs (begun (signed k.0)) k.0.nbytes 0 refl gs
        (begun-Ready (signed k.0) (length xs) (room xs) d.whole count
          (omega (arith, c.short, d.short)))
        (omega (arith, grown.pd_loc)) in
    (
      finished r.0,
      create_images-run boot kernel xs im n.0 k.0 r.0 n.1 k.1 d.whole r.1 r.2.whole,
      Built-finished boot kernel xs empty n.0 k.0 r.0 refl g pos c d r.2
          (omega (arith, c.short, d.short, r.2.short, grown.end))
          (λ m h.
            subst (λ v. Listed (λ a. m (k.0.nbytes + a)) m 0 (v / 512) xs) grown.end (r.3 m h)),
    )
