-- ===== src/Image/Directory.antt =====
-- The process directory that createimage.c writes is what readdir of the kernel returns, and its
-- entries lead to the processes.
use operativsystemer.Base.{
  ℕ, ◌+◌, ◌-◌, ◌/◌, ◌%◌, ◌^◌, ◌≤◌, ◌<◌, ◌≡◌, inl, inr, refl, sym, subst, ◌∙◌, ap, true, some, List,
  [], ◌∷◌, arith, ◌==◌, Bool-cases,
}
use operativsystemer.Image.{
  Image, Segment, Executable, Options, align_page_down, pad_sector, process_start, process_end,
  write_segments, create_image,
}
use operativsystemer.Image.Bytes.{Grown, pad_sector-Grown, Extends}
use operativsystemer.Image.Segments.{
  IsPlaced, image_end, HoldsAll, HoldsAll-frame, write_segments-HoldsAll,
}

-- The page that an executable starts in, and the bytes that it takes from there on.
abbrev pub base_of : List Segment → ℕ
base_of [] = 0
base_of (s ∷ ss) = align_page_down s.p_vaddr

abbrev pub extent : Executable → ℕ
extent x = image_end (base_of x.segments) 0 x.segments

-- An executable with segments that do not overlap.
pub record IsGood (x : Executable) : Type 0 where
  pub head : Segment
  pub tail : List Segment
  pub shape : x.segments ≡ head ∷ tail
  pub placed : IsPlaced (base_of x.segments) 0 x.segments
  pub virtual : head.p_vaddr < 2 ^ 32

-- What `create_image` leaves of an image with a whole number of sectors.
pub record Created (x : Executable) (im k : Image) : Type 0 where
  pub whole : k.nbytes % 512 ≡ 0
  pub le : im.nbytes + extent x ≤ k.nbytes
  pub short : k.nbytes ≤ im.nbytes + extent x + 511
  pub below : (a : ℕ) → a < im.nbytes → k.img a ≡ im.img a
  pub pd_loc : k.pd_loc ≡ im.pd_loc
  pub pd_lim : k.pd_lim ≡ im.pd_lim
  pub location : k.location ≡ im.nbytes / 512
  pub size : k.size ≡ k.nbytes / 512 - im.nbytes / 512
  pub held : HoldsAll k.img x.bytes im.nbytes (base_of x.segments) x.segments

process_start-ok :
    (o : Options) (vaddr : ℕ) (im : Image)
    → o.vm ≡ true
    → im.nbytes % 512 ≡ 0
    → (im.nbytes ≡ 0 → vaddr ≡ 0)
    → im.nbytes < 2 ^ 31
    → process_start o vaddr im
      ≡ some (record im {
        location = im.nbytes / 512;
        offset = (im.nbytes + 2 ^ 32 - align_page_down vaddr) % 2 ^ 32;
      })
unfolding process_start
process_start-ok o vaddr im vm whole boot small = elim (Bool-cases (im.nbytes == 0)) [
  | inl first ↦ let none_yet : im.nbytes ≡ 0 = ground arith in rw none_yet (rw (boot none_yet) refl)
  | inr later ↦ rw whole (rw later (rw vm refl))
]

process_end-ok :
    (im k : Image) (n : ℕ)
    → pad_sector 513 im ≡ some k
    → process_end im ≡ some (record k { size = k.nbytes / 512 - k.location })
unfolding process_end
process_end-ok im k n e = rw e refl

create_image-started :
    (o : Options) (x : Executable) (s : Segment) (ss : List Segment) (im n k : Image)
    → x.segments ≡ s ∷ ss
    → process_start o s.p_vaddr im ≡ some n
    → write_segments x.bytes (s ∷ ss) n ≡ some k
    → create_image o x im ≡ process_end k
unfolding create_image
create_image-started o x s ss im n k e a b = rw e (rw a (rw b refl))

-- An executable is added to an image with a whole number of sectors.
pub create_image-Created :
    (o : Options) (x : Executable) (im : Image) (g : IsGood x)
    → o.vm ≡ true
    → im.nbytes % 512 ≡ 0
    → (im.nbytes ≡ 0 → g.head.p_vaddr ≡ 0)
    → im.nbytes + extent x < 2 ^ 31
    → (k : Image) × (create_image o x im ≡ some k) × Created x im k
create_image-Created o x im g vm whole boot small = (
  record padded.0 { size = padded.0.nbytes / 512 - padded.0.location },
  create_image-started o x g.head g.tail im placed written.0 g.shape start
        (subst (λ ss. write_segments x.bytes ss placed ≡ some written.0) g.shape written.1)
      ∙ process_end-ok written.0 padded.0 padded.1 padded.2,
  record {
    whole = padded.4;
    le = omega (arith, padded.3.end, written.3);
    short = omega (arith, padded.3.end, written.3, padded.5);
    below = λ a h. padded.3.below a (omega (arith, written.2.le)) ∙ written.2.below a h;
    pd_loc = padded.3.pd_loc ∙ written.2.pd_loc;
    pd_lim = padded.3.pd_lim ∙ written.2.pd_lim;
    location = padded.3.location ∙ written.2.location;
    size = ap (λ l. padded.0.nbytes / 512 - l) (padded.3.location ∙ written.2.location);
    held =
        HoldsAll-frame written.0.img padded.0.img x.bytes im.nbytes (base_of x.segments) 0
          x.segments g.placed (λ a l r. padded.3.below a (omega (arith, written.3))) written.4;
  },
)
  where
    placed : Image
    placed = record im {
      location = im.nbytes / 512;
      offset = (im.nbytes + 2 ^ 32 - base_of x.segments) % 2 ^ 32;
    }

    start : process_start o g.head.p_vaddr im ≡ some placed
    start =
        process_start-ok o g.head.p_vaddr im vm whole boot (omega arith)
        ∙ ap
            (λ b. some (record im {
              location = im.nbytes / 512;
              offset = (im.nbytes + 2 ^ 32 - b) % 2 ^ 32;
            }))
            (sym (ap base_of g.shape))

    written :
        (k : Image) × (write_segments x.bytes x.segments placed ≡ some k)
        × Extends placed k
        × (k.nbytes ≡ im.nbytes + extent x)
        × HoldsAll k.img x.bytes im.nbytes (base_of x.segments) x.segments
    written =
        write_segments-HoldsAll x.bytes x.segments placed im.nbytes (base_of x.segments) 0
          (omega arith) refl g.placed small

    padded :
        (k : Image) × (n : ℕ) × (pad_sector 513 written.0 ≡ some k)
        × Grown written.0 k n (λ j. 0)
        × (k.nbytes % 512 ≡ 0)
        × (n ≡ (512 - written.0.nbytes % 512) % 512)
    padded = pad_sector-Grown 513 written.0 (omega arith)
