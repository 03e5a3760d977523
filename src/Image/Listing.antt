-- ===== src/Image/Listing.antt =====
-- The entries that create_images of createimage.c writes for the processes.
use operativsystemer.Base.{
  ℕ, suc, ◌+◌, ◌*◌, ◌/◌, ◌%◌, ◌^◌, ◌≤◌, ◌<◌, ◌≡◌, ◌⊎◌, inl, inr, refl, sym, subst, ◌∙◌, ap, true,
  false, Option, some, ◌>>=◌, List, [], ◌∷◌, arith, length, leb, if◌then◌else◌,
}
use operativsystemer.Image.{
  Cells, Image, Executable, Options, read32, write32, create_image, write_process_directory,
  create_rest,
}
use operativsystemer.Image.Bytes.{write32-other, read32-write32, read32-same}
use operativsystemer.Image.Segments.{HoldsAll, HoldsAll-frame}
use operativsystemer.Image.Directory.{base_of, extent, IsGood, Created, create_image-Created}

write_process_directory-entry :
    (im : Image)
    → im.pd_loc + 8 < im.pd_lim
    → write_process_directory im
      ≡ some (record im {
        img = write32 (write32 im.img im.pd_loc im.location) (im.pd_loc + 4) im.size;
        pd_loc = im.pd_loc + 8;
      })
unfolding write_process_directory
write_process_directory-entry im h =
    (let fits : leb im.pd_lim (im.pd_loc + 8) ≡ false = ground arith in rw fits refl)

-- What the loop over the processes needs of each of them: its segments and the padding.
unfoldable pub room : List Executable → ℕ
room [] = 0
room (x ∷ xs) = extent x + 512 + room xs

unfoldable pub AllGood : List Executable → Type 0
AllGood [] = Unit {0}
AllGood (x ∷ xs) = IsGood x × AllGood xs

-- The entries of the directory from offset `d` on lead to the files: each has the sector where the
-- file starts, which is the one behind the file before it, and the number of its sectors, and
-- the segments of the file stand there. The first entry leads to sector `start`; behind the last
-- one stands a zero.
unfoldable pub Listed : Cells → Cells → ℕ → ℕ → List Executable → Type 0
Listed dir img d start [] = read32 dir d ≡ 0
Listed dir img d start (x ∷ xs) =
    (read32 dir d ≡ start)
    × (extent x ≤ read32 dir (d + 4) * 512)
    × (read32 dir (d + 4) * 512 ≤ extent x + 511)
    × HoldsAll img x.bytes (start * 512) (base_of x.segments) x.segments
    × Listed dir img (d + 8) (start + read32 dir (d + 4)) xs

-- An image whose directory stands before its end, with room for more entries.
pub record Ready (im : Image) (entries : ℕ) (more : ℕ) : Type 0 where
  pub whole : im.nbytes % 512 ≡ 0
  pub some_bytes : 0 < im.nbytes
  pub behind : im.pd_lim ≤ im.nbytes
  pub entries_fit : im.pd_loc + 8 * entries + 8 ≤ im.pd_lim
  pub blank : (a : ℕ) → im.pd_loc ≤ a → a < im.pd_lim → im.img a ≡ 0
  pub small : im.nbytes + more < 2 ^ 31

-- The image after the loop: what stood before its end and is not of the entries that the
-- loop writes is as it was.
pub record Continues (im k : Image) (entries : ℕ) (more : ℕ) : Type 0 where
  pub whole : k.nbytes % 512 ≡ 0
  pub le : im.nbytes ≤ k.nbytes
  pub short : k.nbytes ≤ im.nbytes + more
  pub same :
      (a : ℕ) → a < im.nbytes → (a < im.pd_loc) ⊎ (im.pd_loc + 8 * entries ≤ a) → k.img a ≡ im.img a

-- The entry that is written, and what it leaves.
entry_img : Image → Cells
entry_img im = write32 (write32 im.img im.pd_loc im.location) (im.pd_loc + 4) im.size

entry-other :
    (im : Image) (a : ℕ) → (a < im.pd_loc) ⊎ (im.pd_loc + 8 ≤ a) → entry_img im a ≡ im.img a
unfolding entry_img
entry-other im a (inl l) =
    write32-other (write32 im.img im.pd_loc im.location) (im.pd_loc + 4) im.size a
      (inl (omega arith))
    ∙ write32-other im.img im.pd_loc im.location a (inl l)
entry-other im a (inr r) =
    write32-other (write32 im.img im.pd_loc im.location) (im.pd_loc + 4) im.size a
      (inr (omega arith))
    ∙ write32-other im.img im.pd_loc im.location a (inr (omega arith))

entry-location : (im : Image) → im.location < 2 ^ 32 → read32 (entry_img im) im.pd_loc ≡ im.location
unfolding entry_img
entry-location im h =
    read32-same (write32 im.img im.pd_loc im.location) (entry_img im) im.pd_loc im.pd_loc (λ i l.
      write32-other (write32 im.img im.pd_loc im.location) (im.pd_loc + 4) im.size (im.pd_loc + i)
        (inl (omega arith)))
    ∙ read32-write32 im.img im.pd_loc im.location h

entry-size : (im : Image) → im.size < 2 ^ 32 → read32 (entry_img im) (im.pd_loc + 4) ≡ im.size
unfolding entry_img
entry-size im h = read32-write32 (write32 im.img im.pd_loc im.location) (im.pd_loc + 4) im.size h

-- The segments of the file that was added stand in the image with the entry.
entry-HoldsAll :
    (x : Executable) (im n : Image)
    → IsGood x
    → Created x im n
    → n.pd_loc + 8 ≤ im.nbytes
    → HoldsAll (entry_img n) x.bytes im.nbytes (base_of x.segments) x.segments
entry-HoldsAll x im n g c before =
    HoldsAll-frame n.img (entry_img n) x.bytes im.nbytes (base_of x.segments) 0 x.segments g.placed
      (λ a l r. entry-other n a (inr (omega arith))) c.held

-- A reader's copy of the image, as far as it reaches.
abbrev pub Agrees : Cells → Image → Type 0
Agrees m k = (a : ℕ) → a < k.nbytes → m a ≡ k.img a

-- The image behind the entry.
listed : Image → Image
listed n = record n { img = entry_img n; pd_loc = n.pd_loc + 8 }

write_process_directory-listed :
    (n : Image) → n.pd_loc + 8 < n.pd_lim → write_process_directory n ≡ some (listed n)
unfolding listed entry_img
write_process_directory-listed n h = write_process_directory-entry n h

listed-Ready :
    (x : Executable) (xs : List Executable) (im n : Image)
    → Ready im (suc (length xs)) (extent x + 512 + room xs)
    → Created x im n
    → Ready (listed n) (length xs) (room xs)
unfolding listed
listed-Ready x xs im n r c = record {
  whole = c.whole;
  some_bytes = omega (arith, r.some_bytes, c.le);
  behind = omega (arith, r.behind, c.le, c.pd_lim);
  entries_fit = omega (arith, c.pd_loc, c.pd_lim, r.entries_fit);
  blank = λ a from to.
      entry-other n a (inr (omega (arith, from)))
      ∙ c.below a (omega (arith, to, c.pd_lim, r.behind))
      ∙ r.blank a (omega (arith, from, c.pd_loc)) (omega (arith, to, c.pd_lim));
  small = omega (arith, r.small, c.short);
}

create_rest-next :
    (o : Options) (x : Executable) (xs : List Executable) (im n : Image)
    → o.vm ≡ true
    → n.pd_loc + 8 < n.pd_lim
    → create_image o x im ≡ some n
    → create_rest o (x ∷ xs) im ≡ create_rest o xs (listed n)
unfolding create_rest
create_rest-next o x xs im n vm h e =
    ap (λ r. r >>= entry) e
    ∙ ap (λ b. (if b then write_process_directory n else some n) >>= create_rest o xs) vm
    ∙ ap (λ r. r >>= create_rest o xs) (write_process_directory-listed n h)
  where
    entry : Image → Option Image
    entry n = (if o.vm then write_process_directory n else some n) >>= (λ k. create_rest o xs k)

listed-Continues :
    (x : Executable) (im n k : Image) (entries more : ℕ)
    → Created x im n
    → Continues (listed n) k entries more
    → Continues im k (suc entries) (extent x + 512 + more)
unfolding listed
listed-Continues x im n k entries more c r = record {
  whole = r.whole;
  le = omega (arith, r.le, c.le);
  short = omega (arith, r.short, c.short);
  same = λ a h out. elim out [
    | inl before ↦
        r.same a (omega (arith, c.le)) (inl (omega (arith, c.pd_loc)))
        ∙ entry-other n a (inl (omega (arith, c.pd_loc)))
        ∙ c.below a h
    | inr behind ↦
        r.same a (omega (arith, c.le)) (inr (omega (arith, c.pd_loc)))
        ∙ entry-other n a (inr (omega (arith, c.pd_loc)))
        ∙ c.below a h
  ];
}

-- A reader finds the entry, the file that it leads to, and the entries behind it.
listed-Listed :
    (x : Executable) (xs : List Executable) (im n k : Image) (l d : ℕ)
    → IsGood x
    → Ready im (suc (length xs)) (extent x + 512 + room xs)
    → n.pd_loc + 8 < n.pd_lim
    → Created x im n
    → Continues (listed n) k (length xs) (room xs)
    → im.pd_loc ≡ l + d
    → (m : Cells) → Agrees m k
    → Listed (λ a. m (l + a)) m (d + 8) (n.nbytes / 512) xs
    → Listed (λ a. m (l + a)) m d (im.nbytes / 512) (x ∷ xs)
unfolding Listed listed
listed-Listed x xs im n k l d g r fits c s e m h more = (
  first ∙ c.location,
  subst (λ v. extent x ≤ v * 512) (sym second) (omega (arith, c.le, r.whole, c.whole, c.size)),
  subst (λ v. v * 512 ≤ extent x + 511) (sym second)
      (omega (arith, c.short, r.whole, c.whole, c.size)),
  subst (λ p. HoldsAll m x.bytes p (base_of x.segments) x.segments) (omega (arith, r.whole))
      (HoldsAll-frame (entry_img n) m x.bytes im.nbytes (base_of x.segments) 0 x.segments g.placed
        (λ a q t.
          at a (omega (arith, c.le)) (inr (omega (arith, r.behind, r.entries_fit, c.pd_loc))))
        (entry-HoldsAll x im n g c (omega (arith, r.behind, c.pd_lim, fits)))),
  subst (λ q. Listed (λ a. m (l + a)) m (d + 8) q xs) next more,
)
  where
    at :
        (a : ℕ)
        → a < n.nbytes
        → (a < n.pd_loc + 8) ⊎ (n.pd_loc + 8 + 8 * length xs ≤ a)
        → m a ≡ entry_img n a
    at a b out = h a (omega (arith, s.le)) ∙ s.same a b out

    inside : (i : ℕ) → i < 8 → m (l + (d + i)) ≡ entry_img n (n.pd_loc + i)
    inside i b =
        subst (λ p. m p ≡ entry_img n (n.pd_loc + i)) (omega (arith, e, c.pd_loc))
          (at (n.pd_loc + i) (omega (arith, c.le, r.behind, c.pd_lim, fits))
            (inl (omega (arith, b))))

    first : read32 (λ a. m (l + a)) d ≡ n.location
    first =
        read32-same (entry_img n) (λ a. m (l + a)) n.pd_loc d (λ i b. inside i (omega (arith, b)))
        ∙ entry-location n (omega (arith, c.location, r.small))

    second : read32 (λ a. m (l + a)) (d + 4) ≡ n.size
    second =
        read32-same (entry_img n) (λ a. m (l + a)) (n.pd_loc + 4) (d + 4)
          (λ i b.
            subst (λ p. m (l + p) ≡ entry_img n (n.pd_loc + 4 + i)) (omega arith)
              (subst (λ p. m (l + (d + (4 + i))) ≡ entry_img n p) (omega arith)
                (inside (4 + i) (omega (arith, b)))))
        ∙ entry-size n (omega (arith, c.size, c.short, r.small))

    next : n.nbytes / 512 ≡ im.nbytes / 512 + read32 (λ a. m (l + a)) (d + 4)
    next = rw second (omega (arith, c.size, c.le))

-- Behind the last entry stands a zero.
read_blank :
    (im : Image) (l d : ℕ)
    → Ready im 0 0
    → im.pd_loc ≡ l + d
    → (m : Cells) → Agrees m im
    → read32 (λ a. m (l + a)) d ≡ 0
read_blank im l d r e m h =
    read32-same (λ a. 0) (λ a. m (l + a)) 0 d
      (λ i b.
        h (l + (d + i)) (omega (arith, b, e, r.behind, r.entries_fit))
        ∙ r.blank (l + (d + i)) (omega (arith, e)) (omega (arith, b, e, r.entries_fit)))

pub create_rest-Listed :
    (o : Options) (xs : List Executable) (im : Image) (l d : ℕ)
    → o.vm ≡ true
    → AllGood xs
    → Ready im (length xs) (room xs)
    → im.pd_loc ≡ l + d
    → (k : Image) × (create_rest o xs im ≡ some k)
      × Continues im k (length xs) (room xs)
      × ((m : Cells) → Agrees m k → Listed (λ a. m (l + a)) m d (im.nbytes / 512) xs)
unfolding create_rest room AllGood Listed listed
create_rest-Listed o [] im l d vm g r e = (
  im,
  refl,
  record { whole = r.whole; le = omega arith; short = omega arith; same = λ a h out. refl },
  λ m h. read_blank im l d r e m h,
)
create_rest-Listed o (x ∷ xs) im l d vm g r e =
    let one : (n : Image) × (create_image o x im ≡ some n) × Created x im n =
      create_image-Created o x im g.0 vm r.whole (λ z. absurd (omega (arith, r.some_bytes)))
        (omega (arith, r.small)) in
    let c : Created x im one.0 = one.2 in
    let fits : one.0.pd_loc + 8 < one.0.pd_lim = omega (arith, c.pd_loc, c.pd_lim, r.entries_fit) in
    let rest : (k : Image) × (create_rest o xs (listed one.0) ≡ some k)
        × Continues (listed one.0) k (length xs) (room xs)
        × ((m : Cells) → Agrees m k → Listed (λ a. m (l + a)) m (d + 8) (one.0.nbytes / 512) xs) =
      create_rest-Listed o xs (listed one.0) l (d + 8) vm g.1 (listed-Ready x xs im one.0 r c)
        (omega (arith, c.pd_loc, e)) in
    (
      rest.0,
      create_rest-next o x xs im one.0 vm fits one.1 ∙ rest.1,
      listed-Continues x im one.0 rest.0 (length xs) (room xs) c rest.2,
      λ m h. listed-Listed x xs im one.0 rest.0 l d g.0 r fits c rest.2 e m h (rest.3 m h),
    )
