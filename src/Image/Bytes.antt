-- ===== src/Image/Bytes.antt =====
-- What the loops of createimage.c that write bytes add to the image.
use operativsystemer.Base.{
  ℕ, zero, suc, ◌+◌, ◌-◌, ◌/◌, ◌%◌, ◌^◌, ◌≤◌, ◌<◌, ◌≡◌, refl, subst, ◌∙◌, ap, some, arith, ltb,
  ◌==◌, ==_ne, ==_refl, Bool-cases, inl, inr, ◌⊎◌, if◌then◌else◌,
}
use operativsystemer.Image.{
  Cells, Image, put_byte, put_zeros, put_file, pad_sector, write16, write32, read32,
}

-- `n` bytes were added at the end: byte `j` of them is `f j`.
pub record Grown (im k : Image) (n : ℕ) (f : ℕ → ℕ) : Type 0 where
  pub end : k.nbytes ≡ im.nbytes + n
  pub below : (a : ℕ) → a < im.nbytes → k.img a ≡ im.img a
  pub added : (j : ℕ) → j < n → k.img (im.nbytes + j) ≡ f j
  pub offset : k.offset ≡ im.offset
  pub pd_loc : k.pd_loc ≡ im.pd_loc
  pub pd_lim : k.pd_lim ≡ im.pd_lim
  pub location : k.location ≡ im.location

pub Grown-none : (im : Image) (f : ℕ → ℕ) → Grown im im 0 f
Grown-none im f = record {
  end = omega arith;
  below = λ a h. refl;
  added = λ j h. absurd (omega arith);
  offset = refl;
  pd_loc = refl;
  pd_lim = refl;
  location = refl;
}

pub Grown-trans :
    (im k l : Image) (n n' : ℕ) (f g : ℕ → ℕ)
    → Grown im k n f
    → Grown k l n' g
    → Grown im l (n + n') (λ j. if ltb j n then f j else g (j - n))
Grown-trans im k l n n' f g a b = record {
  end = omega (arith, a.end, b.end);
  below = λ p h. b.below p (omega (arith, a.end)) ∙ a.below p h;
  added = λ j h. elim (Bool-cases (ltb j n)) [
    | inl early ↦
        let small : j < n = ground arith in
        rw early (b.below (im.nbytes + j) (omega (arith, a.end, small)) ∙ a.added j small)
    | inr late ↦
        let big : n ≤ j = ground arith in
        let at : k.nbytes + (j - n) ≡ im.nbytes + j = omega (arith, a.end, big) in
        rw late (subst (λ p. l.img p ≡ g (j - n)) at (b.added (j - n) (omega (arith, big))))
  ];
  offset = b.offset ∙ a.offset;
  pd_loc = b.pd_loc ∙ a.pd_loc;
  pd_lim = b.pd_lim ∙ a.pd_lim;
  location = b.location ∙ a.location;
}

put_byte-Grown : (im : Image) (c : ℕ) → Grown im (put_byte c im) 1 (λ j. c)
put_byte-Grown im c = record {
  end = refl;
  below = λ a h. rw (==_ne a im.nbytes (omega arith)) refl;
  added = λ j h.
      (let at : im.nbytes + j ≡ im.nbytes = omega arith in rw at (rw (==_refl im.nbytes) refl));
  offset = refl;
  pd_loc = refl;
  pd_lim = refl;
  location = refl;
}

-- The data of a growth may be written in another way.
pub Grown-data :
    (im k : Image) (n m : ℕ) (f g : ℕ → ℕ)
    → Grown im k n f
    → n ≡ m
    → ((j : ℕ) → j < n → f j ≡ g j)
    → Grown im k m g
Grown-data im k n m f g a e same = record {
  end = a.end ∙ ap (λ n. im.nbytes + n) e;
  below = a.below;
  added = λ j h. a.added j (omega arith) ∙ same j (omega arith);
  offset = a.offset;
  pd_loc = a.pd_loc;
  pd_lim = a.pd_lim;
  location = a.location;
}

pub put_zeros-Grown : (n : ℕ) (im : Image) → Grown im (put_zeros n im) n (λ j. 0)
unfolding put_zeros
put_zeros-Grown zero im = Grown-none im (λ j. 0)
put_zeros-Grown (suc n) im =
    Grown-data im (put_zeros n (put_byte 0 im)) (1 + n) (suc n) _ (λ j. 0)
      (Grown-trans im (put_byte 0 im) (put_zeros n (put_byte 0 im)) 1 n (λ j. 0) (λ j. 0)
        (put_byte-Grown im 0) (put_zeros-Grown n (put_byte 0 im)))
      (omega arith) (λ j h. ground arith)

pub put_file-Grown :
    (file : Cells) (p n : ℕ) (im : Image) → Grown im (put_file file p n im) n (λ j. file (p + j))
unfolding put_file
put_file-Grown file p zero im = Grown-none im (λ j. file (p + j))
put_file-Grown file p (suc n) im =
    Grown-data im (put_file file (p + 1) n (put_byte (file p) im)) (1 + n) (suc n) _
      (λ j. file (p + j))
      (Grown-trans im (put_byte (file p) im) (put_file file (p + 1) n (put_byte (file p) im)) 1 n
        (λ j. file p) (λ j. file (p + 1 + j)) (put_byte-Grown im (file p))
        (put_file-Grown file (p + 1) n (put_byte (file p) im)))
      (omega arith)
      (λ j h. elim (Bool-cases (ltb j 1)) [
        | inl first ↦ (let at : p ≡ p + j = ground arith in rw first (ap file at))
        | inr later ↦ (let at : p + 1 + (j - 1) ≡ p + j = ground arith in rw later (ap file at))
      ])

-- With fuel for a sector, the padding ends at a whole number of sectors.
pub pad_sector-Grown :
    (fuel : ℕ) (im : Image)
    → (512 - im.nbytes % 512) % 512 < fuel
    → (k : Image) × (n : ℕ) × (pad_sector fuel im ≡ some k)
      × Grown im k n (λ j. 0)
      × (k.nbytes % 512 ≡ 0)
      × (n ≡ (512 - im.nbytes % 512) % 512)
unfolding pad_sector
pad_sector-Grown zero im h = absurd (omega arith)
pad_sector-Grown (suc fuel) im h = elim (Bool-cases (im.nbytes % 512 == 0)) [
  | inl whole ↦ (im, 0, rw whole refl, Grown-none im (λ j. 0), ground arith, ground arith)
  | inr part ↦
      let rest : (k : Image) × (n : ℕ) × (pad_sector fuel (put_byte 0 im) ≡ some k)
          × Grown (put_byte 0 im) k n (λ j. 0)
          × (k.nbytes % 512 ≡ 0)
          × (n ≡ (512 - (im.nbytes + 1) % 512) % 512) =
        pad_sector-Grown fuel (put_byte 0 im) (ground arith) in
      (
        rest.0,
        1 + rest.1,
        rw part (rest.2),
        Grown-data im rest.0 (1 + rest.1) (1 + rest.1) _ (λ j. 0)
            (Grown-trans im (put_byte 0 im) rest.0 1 rest.1 (λ j. 0) (λ j. 0) (put_byte-Grown im 0)
              rest.3)
            refl (λ j h. ground arith),
        rest.4,
        ground (arith, rest.5),
      )
]

-- The image was added to, and nothing else of it changed.
pub record Extends (im k : Image) : Type 0 where
  pub le : im.nbytes ≤ k.nbytes
  pub below : (a : ℕ) → a < im.nbytes → k.img a ≡ im.img a
  pub offset : k.offset ≡ im.offset
  pub pd_loc : k.pd_loc ≡ im.pd_loc
  pub pd_lim : k.pd_lim ≡ im.pd_lim
  pub location : k.location ≡ im.location

pub Grown-Extends : (im k : Image) (n : ℕ) (f : ℕ → ℕ) → Grown im k n f → Extends im k
Grown-Extends im k n f g = record {
  le = omega (arith, g.end);
  below = g.below;
  offset = g.offset;
  pd_loc = g.pd_loc;
  pd_lim = g.pd_lim;
  location = g.location;
}

pub Extends-trans : (im k l : Image) → Extends im k → Extends k l → Extends im l
Extends-trans im k l a b = record {
  le = omega (arith, a.le, b.le);
  below = λ p h. b.below p (omega (arith, a.le)) ∙ a.below p h;
  offset = b.offset ∙ a.offset;
  pd_loc = b.pd_loc ∙ a.pd_loc;
  pd_lim = b.pd_lim ∙ a.pd_lim;
  location = b.location ∙ a.location;
}

-- `fwrite` of 32 bits changes four bytes.
pub write32-other : (m : Cells) (p v a : ℕ) → (a < p) ⊎ (p + 4 ≤ a) → write32 m p v a ≡ m a
unfolding write32 write16
write32-other m p v a out = ground arith

pub read32-write32 : (m : Cells) (p v : ℕ) → v < 2 ^ 32 → read32 (write32 m p v) p ≡ v
unfolding write32 write16
read32-write32 m p v h =
    let b0 : write32 m p v p ≡ v % 65536 % 256 = ground arith in
    let b1 : write32 m p v (p + 1) ≡ v % 65536 / 256 % 256 = ground arith in
    let b2 : write32 m p v (p + 2) ≡ v / 65536 % 65536 % 256 = ground arith in
    let b3 : write32 m p v (p + 2 + 1) ≡ v / 65536 % 65536 / 256 % 256 = ground arith in
    omega (arith, b0, b1, b2, b3)

pub read32-same :
    (m m' : Cells) (p q : ℕ) → ((i : ℕ) → i < 4 → m' (q + i) ≡ m (p + i)) → read32 m' q ≡ read32 m p
read32-same m m' p q same =
    let a0 : q ≡ q + 0 = omega arith in
    let c0 : p + 0 ≡ p = omega arith in
    let a3 : q + 2 + 1 ≡ q + 3 = omega arith in
    let c3 : p + 3 ≡ p + 2 + 1 = omega arith in
    let e0 : m' q ≡ m p = ap m' a0 ∙ same 0 (omega arith) ∙ ap m c0 in
    let e1 : m' (q + 1) ≡ m (p + 1) = same 1 (omega arith) in
    let e2 : m' (q + 2) ≡ m (p + 2) = same 2 (omega arith) in
    let e3 : m' (q + 2 + 1) ≡ m (p + 2 + 1) = ap m' a3 ∙ same 3 (omega arith) ∙ ap m c3 in
    rw e0 (rw e1 (rw e2 (rw e3 refl)))
