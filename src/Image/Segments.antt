-- ===== src/Image/Segments.antt =====
-- Where createimage.c puts the segments of an executable.
use operativsystemer.Base.{
  ℕ, ◌+◌, ◌-◌, ◌%◌, ◌^◌, ◌≤◌, ◌<◌, ◌≡◌, ◌⊎◌, inl, inr, refl, sym, subst, ◌∙◌, ap, false, ◌||◌, some,
  List, [], ◌∷◌, arith, ltb, leb, ◌==◌, ==_ne, if◌then◌else◌,
}
use operativsystemer.Image.{
  Cells, Image, Segment, put_zeros, put_file, write_segment, write_segments,
}
use operativsystemer.Image.Bytes.{
  Grown, Grown-none, Grown-trans, put_zeros-Grown, put_file-Grown, Extends, Grown-Extends,
  Extends-trans,
}

-- Byte `j` of a segment in memory.
abbrev pub byte_at : Cells → Segment → ℕ → ℕ
byte_at file s j = if ltb j s.p_filesz then file (s.p_offset + j) else 0

-- From `at` bytes behind the address `base` on, the segments follow each other without overlap.
unfoldable pub IsPlaced : ℕ → ℕ → List Segment → Type 0
IsPlaced base at [] = Unit {0}
IsPlaced base at (s ∷ ss) =
    ((s.p_memsz ≡ 0) × IsPlaced base at ss)
    ⊎ ((base ≤ s.p_vaddr)
        × (at ≤ s.p_vaddr - base)
        × (s.p_vaddr < 2 ^ 32)
        × (s.p_filesz ≤ s.p_memsz)
        × (0 < s.p_memsz)
        × IsPlaced base (s.p_vaddr - base + s.p_memsz) ss)

-- Where they end.
unfoldable pub image_end : ℕ → ℕ → List Segment → ℕ
image_end base at [] = at
image_end base at (s ∷ ss) =
    if s.p_memsz == 0
    then image_end base at ss
    else image_end base (s.p_vaddr - base + s.p_memsz) ss

-- The bytes of the segments stand in the image, behind `start`.
unfoldable pub HoldsAll : Cells → Cells → ℕ → ℕ → List Segment → Type 0
HoldsAll img file start base [] = Unit {0}
HoldsAll img file start base (s ∷ ss) =
    ((j : ℕ) → j < s.p_memsz → img (start + (s.p_vaddr - base) + j) ≡ byte_at file s j)
    × HoldsAll img file start base ss

image_end-skip :
    (base at : ℕ) (s : Segment) (ss : List Segment)
    → s.p_memsz ≡ 0
    → image_end base at (s ∷ ss) ≡ image_end base at ss
unfolding image_end
image_end-skip base at s ss z = rw z refl

image_end-next :
    (base at : ℕ) (s : Segment) (ss : List Segment)
    → 0 < s.p_memsz
    → image_end base at (s ∷ ss) ≡ image_end base (s.p_vaddr - base + s.p_memsz) ss
unfolding image_end
image_end-next base at s ss m = rw (==_ne s.p_memsz 0 (omega arith)) refl

image_end-le : (base at : ℕ) (ss : List Segment) → IsPlaced base at ss → at ≤ image_end base at ss
unfolding IsPlaced image_end
image_end-le base at [] p = omega arith
image_end-le base at (s ∷ ss) (inl (z, p)) = rw z (image_end-le base at ss p)
image_end-le base at (s ∷ ss) (inr (b, a, v, f, m, p)) =
    let rest : s.p_vaddr - base + s.p_memsz ≤ image_end base (s.p_vaddr - base + s.p_memsz) ss =
      image_end-le base (s.p_vaddr - base + s.p_memsz) ss p in
    rw (==_ne s.p_memsz 0 (omega arith)) (omega arith)

write_segment-empty :
    (file : Cells) (s : Segment) (im : Image) → s.p_memsz ≡ 0 → write_segment file s im ≡ some im
unfolding write_segment
write_segment-empty file s im z = rw z refl

-- A segment that fits goes to its place, with zeros before and behind the bytes of the file.
write_segment-Extends :
    (file : Cells) (s : Segment) (im : Image) (start base at : ℕ)
    → im.nbytes ≡ start + at
    → im.offset ≡ (start + 2 ^ 32 - base) % 2 ^ 32
    → base ≤ s.p_vaddr
    → at ≤ s.p_vaddr - base
    → s.p_vaddr < 2 ^ 32
    → s.p_filesz ≤ s.p_memsz
    → 0 < s.p_memsz
    → start + (s.p_vaddr - base) + s.p_memsz < 2 ^ 31
    → (k : Image) × (write_segment file s im ≡ some k)
      × Extends im k
      × (k.nbytes ≡ start + (s.p_vaddr - base + s.p_memsz))
      × ((j : ℕ) → j < s.p_memsz → k.img (start + (s.p_vaddr - base) + j) ≡ byte_at file s j)
unfolding write_segment
write_segment-Extends file s im start base at e o b a v f m small = (
  k,
  rw (==_ne s.p_memsz 0 (omega arith)) (rw place (rw fits (rw fill refl))),
  Extends-trans im padded k (Grown-Extends im padded _ _ (put_zeros-Grown gap im))
      (Grown-Extends padded k _ _ body),
  omega (arith, body.end, start_at),
  λ j h. subst (λ p. k.img (p + j) ≡ byte_at file s j) start_at (body.added j (omega arith)),
)
  where
    phys : ℕ
    phys = start + (s.p_vaddr - base)

    gap : ℕ
    gap = phys - im.nbytes

    padded : Image
    padded = put_zeros gap im

    copied : Image
    copied = put_file file s.p_offset s.p_filesz padded

    k : Image
    k = put_zeros (s.p_memsz - s.p_filesz) copied

    body :
        Grown padded k
          (s.p_filesz + (s.p_memsz - s.p_filesz))
          (λ j. if ltb j s.p_filesz then file (s.p_offset + j) else 0)
    body =
        Grown-trans padded copied k s.p_filesz (s.p_memsz - s.p_filesz) (λ j. file (s.p_offset + j))
          (λ j. 0) (put_file-Grown file s.p_offset s.p_filesz padded)
          (put_zeros-Grown (s.p_memsz - s.p_filesz) copied)

    place : (s.p_vaddr + im.offset) % 2 ^ 32 ≡ phys
    place = rw o (omega arith)

    start_at : padded.nbytes ≡ phys
    start_at = omega (arith, (put_zeros-Grown gap im).end)

    fits : (leb (2 ^ 31) phys || ltb phys im.nbytes) ≡ false
    fits = ground arith

    fill : (s.p_memsz + 2 ^ 32 - s.p_filesz) % 2 ^ 32 ≡ s.p_memsz - s.p_filesz
    fill = omega arith

-- What was written stays where the image is added to.
pub HoldsAll-frame :
    (img img' file : Cells) (start base at : ℕ) (ss : List Segment)
    → IsPlaced base at ss
    → ((a : ℕ) → start ≤ a → a < start + image_end base at ss → img' a ≡ img a)
    → HoldsAll img file start base ss
    → HoldsAll img' file start base ss
unfolding HoldsAll IsPlaced image_end
HoldsAll-frame img img' file start base at [] p same h = tt
HoldsAll-frame img img' file start base at (s ∷ ss) (inl (z, p)) same h = (
  λ j i. absurd (omega arith),
  HoldsAll-frame img img' file start base at ss p
      (λ a l r. same a l (subst (λ e. a < start + e) (sym (image_end-skip base at s ss z)) r)) h.1,
)
HoldsAll-frame img img' file start base at (s ∷ ss) (inr (b, a, v, f, m, p)) same h =
    let le : s.p_vaddr - base + s.p_memsz ≤ image_end base (s.p_vaddr - base + s.p_memsz) ss =
      image_end-le base (s.p_vaddr - base + s.p_memsz) ss p in
    let wide : (a : ℕ)
        → start ≤ a
        → a < start + image_end base (s.p_vaddr - base + s.p_memsz) ss
        → img' a ≡ img a =
      λ a l r. same a l (subst (λ e. a < start + e) (sym (image_end-next base at s ss m)) r) in
    (
      λ j i. wide (start + (s.p_vaddr - base) + j) (omega arith) (omega arith) ∙ h.0 j i,
      HoldsAll-frame img img' file start base (s.p_vaddr - base + s.p_memsz) ss p wide h.1,
    )

pub write_segments-HoldsAll :
    (file : Cells) (ss : List Segment) (im : Image) (start base at : ℕ)
    → im.nbytes ≡ start + at
    → im.offset ≡ (start + 2 ^ 32 - base) % 2 ^ 32
    → IsPlaced base at ss
    → start + image_end base at ss < 2 ^ 31
    → (k : Image) × (write_segments file ss im ≡ some k)
      × Extends im k
      × (k.nbytes ≡ start + image_end base at ss)
      × HoldsAll k.img file start base ss
unfolding write_segments IsPlaced image_end HoldsAll
write_segments-HoldsAll file [] im start base at e o p small =
    (im, refl, Grown-Extends im im 0 (λ j. 0) (Grown-none im (λ j. 0)), e, tt)
write_segments-HoldsAll file (s ∷ ss) im start base at e o (inl (z, p)) small =
    let rest : (k : Image) × (write_segments file ss im ≡ some k)
        × Extends im k
        × (k.nbytes ≡ start + image_end base at ss)
        × HoldsAll k.img file start base ss =
      write_segments-HoldsAll file ss im start base at e o p
        (subst (λ e. start + e < 2 ^ 31) (image_end-skip base at s ss z) small) in
    (
      rest.0,
      rw (write_segment-empty file s im z) (rest.1),
      rest.2,
      rest.3 ∙ ap (λ e. start + e) (sym (image_end-skip base at s ss z)),
      ((λ j i. absurd (omega arith)), rest.4),
    )
write_segments-HoldsAll file (s ∷ ss) im start base at e o (inr (b, a, v, f, m, p)) small =
    let le : s.p_vaddr - base + s.p_memsz ≤ image_end base (s.p_vaddr - base + s.p_memsz) ss =
      image_end-le base (s.p_vaddr - base + s.p_memsz) ss p in
    let fits : start + image_end base (s.p_vaddr - base + s.p_memsz) ss < 2 ^ 31 =
      subst (λ e. start + e < 2 ^ 31) (image_end-next base at s ss m) small in
    let one : (k : Image) × (write_segment file s im ≡ some k)
        × Extends im k
        × (k.nbytes ≡ start + (s.p_vaddr - base + s.p_memsz))
        × ((j : ℕ) → j < s.p_memsz → k.img (start + (s.p_vaddr - base) + j) ≡ byte_at file s j) =
      write_segment-Extends file s im start base at e o b a v f m (omega arith) in
    let rest : (k : Image) × (write_segments file ss one.0 ≡ some k)
        × Extends one.0 k
        × (k.nbytes ≡ start + image_end base (s.p_vaddr - base + s.p_memsz) ss)
        × HoldsAll k.img file start base ss =
      write_segments-HoldsAll file ss one.0 start base (s.p_vaddr - base + s.p_memsz) one.3
        (one.2.offset ∙ o) p fits in
    (
      rest.0,
      rw (one.1) (rest.1),
      Extends-trans im one.0 rest.0 one.2 rest.2,
      rest.3 ∙ ap (λ e. start + e) (sym (image_end-next base at s ss m)),
      (
        (λ j i. rest.2.below (start + (s.p_vaddr - base) + j) (omega (arith, one.3)) ∙ one.4 j i),
        rest.4,
      ),
    )
