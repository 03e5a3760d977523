-- ===== src/Bios/Sectors.antt =====
-- The disk as its users see it: an array of sectors, by the number of the block.
use operativsystemer.Base.{
  ℕ, ◌≤◌, ◌<◌, ◌≡◌, ◌≢◌, ◌⊎◌, inl, inr, Bool-cases, refl, sym, ap₂, ◌∙◌, false, Option, some, subst,
  arith, ◌==◌, ==_iff, if◌then◌else◌,
}
use native.Mathlib.Decide.{ℕ_discrete}
use operativsystemer.Text.{Cells}
use operativsystemer.Bios.{
  Bios, DiskParams, Usb, copy_sector, cx_of, cylinder_of, faults, head_of, read, sector_of, place,
  sector_size, write,
}
use operativsystemer.Bios.Geometry.{NamesSector, IsDisk, block_at, block_at-block, limit}

-- Two outcomes of a function of the BIOS that give the same bytes of a sector.
abbrev pub SameBytes : Option Cells → Cells → Type 0
SameBytes r c = (given : Cells) × (r ≡ some given) × ((j : ℕ) → j < sector_size → given j ≡ c j)

-- A disk with these numbers on which the BIOS reports no error: each sector can be read, and can be written;
-- a written sector is read back, and the others stay.
pub record Works {Disk : Type 0} (bios : Bios Disk) (params : DiskParams) : Type 0 where
  pub reads :
      (dh cx : ℕ) (d : Disk)
      → NamesSector params dh cx
      → (c : Cells) × (bios.read_sector dh cx d ≡ some c)
  pub writes :
      (dh cx : ℕ) (buf : Cells) (d : Disk)
      → NamesSector params dh cx
      → (d' : Disk) × (bios.write_sector dh cx buf d ≡ some d')
        × SameBytes (bios.read_sector dh cx d') buf
        × ((dh' cx' : ℕ)
            → NamesSector params dh' cx'
            → (dh' ≢ dh) ⊎ (cx' ≢ cx)
            → bios.read_sector dh' cx' d' ≡ bios.read_sector dh' cx' d)

-- The registers of a block, and what the BIOS reads there.
abbrev pub cx_at : DiskParams → ℕ → ℕ
cx_at params n = cx_of (cylinder_of params n) (sector_of params n)

abbrev pub contents : {Disk : Type 0} → Bios Disk → DiskParams → Disk → ℕ → Option Cells
contents bios params disk n = bios.read_sector (head_of params n) (cx_at params n) disk

-- Two blocks have different registers.
pub registers-differ :
    (params : DiskParams) (n k : ℕ)
    → IsDisk params
    → n < limit params
    → k < limit params
    → k ≢ n
    → (head_of params k ≢ head_of params n)
      ⊎ (cx_of (cylinder_of params k) (sector_of params k)
          ≢ cx_of (cylinder_of params n) (sector_of params n))
registers-differ params n k d hn hk ne = elim (ℕ_discrete (head_of params k) (head_of params n)) [
  | yes h ↦ inr (λ c. ne (
      sym (block_at-block params k d hk).0
      ∙ ap₂ (block_at params) h c
      ∙ (block_at-block params n d hn).0))
  | no h ↦ inl h
]

runs : (params : DiskParams) → IsDisk params → faults params ≡ false
runs params d =
    let a : 1 ≤ params.sectors = d.some_sectors in
    let b : 1 ≤ params.heads = d.some_heads in ground arith

pub copied :
    (source destin : Cells) (j : ℕ) → j < sector_size → copy_sector source destin j ≡ source j
copied source destin j h = ground arith

-- Where write finds the lock free it ends with the disk that the BIOS leaves.
pub write-kept :
    {Disk : Type 0} (bios : Bios Disk) (params : DiskParams) (n : ℕ) (buf : Cells) (s : Usb Disk)
    (kept : Disk)
    → IsDisk params
    → s.locked ≡ false
    → bios.write_sector (head_of params n) (cx_at params n) (copy_sector buf s.v86_buf) s.disk
      ≡ some kept
    → (w : Usb Disk) × (write bios params n buf s ≡ some w) × (w.disk ≡ kept) × (w.locked ≡ false)
unfolding write
write-kept bios params n buf s kept d free e = (
  record (place params n s) { v86_buf = copy_sector buf s.v86_buf; disk = kept },
  rw (runs params d, free, e),
  refl,
  free,
)

pub read-given :
    {Disk : Type 0} (bios : Bios Disk) (params : DiskParams) (n : ℕ) (buf : Cells) (s : Usb Disk)
    (c : Cells)
    → IsDisk params
    → s.locked ≡ false
    → SameBytes (contents bios params s.disk n) c
    → (w : Usb Disk) × (out : Cells) × (read bios params n buf s ≡ some (out, w))
      × (w.disk ≡ s.disk)
      × (w.locked ≡ false)
      × ((j : ℕ) → j < sector_size → out j ≡ c j)
unfolding read
read-given bios params n buf s c d free (given, e, same) = (
  record (place params n s) { v86_buf = copy_sector given s.v86_buf },
  copy_sector (copy_sector given s.v86_buf) buf,
  rw (runs params d, free, e),
  refl,
  free,
  (λ j h. copied (copy_sector given s.v86_buf) buf j h ∙ copied given s.v86_buf j h ∙ same j h),
)

-- For a disk with 1 to 63 sectors on a track, 1 to 255 heads and at most 1024 cylinders, on which the BIOS
-- reports no error, blocks of the disk, and the lock free: write succeeds and frees the lock, and a
-- read of any block after it succeeds, frees the lock, and gives what was written, if the block is the
-- same, and else what the BIOS read there before the write.
pub read-write :
    {Disk : Type 0} (bios : Bios Disk) (params : DiskParams) (n k : ℕ) (buf buf' : Cells)
    (s : Usb Disk)
    → Works bios params
    → IsDisk params
    → n < limit params
    → k < limit params
    → s.locked ≡ false
    → (before : Cells) × (written : Usb Disk) × (done : Usb Disk) × (out : Cells) × (contents bios
          params s.disk k
        ≡ some before)
      × (write bios params n buf s ≡ some written)
      × (read bios params k buf' written ≡ some (out, done))
      × (written.locked ≡ false)
      × (done.locked ≡ false)
      × (done.disk ≡ written.disk)
      × ((j : ℕ) → j < sector_size → out j ≡ (if k == n then buf j else before j))
read-write bios params n k buf buf' s works d hn hk free =
    let given : Cells = copy_sector buf s.v86_buf in
    let (before, had) =
      works.reads (head_of params k) (cx_at params k) s.disk (block_at-block params k d hk).1 in
    let (kept, wrote, back, others) =
      works.writes (head_of params n) (cx_at params n) given s.disk
        (block_at-block params n d hn).1 in
    let (w, run, at, unlocked) = write-kept bios params n buf s kept d free wrote in
    let seen : SameBytes (contents bios params kept k) (λ j. if k == n then buf j else before j) =
      elim (Bool-cases (k == n)) [
        | inl e ↦
            let same : n ≡ k = sym ((==_iff k n).0 e) in
            let (c, r, b) = back in
            (
              c,
              subst (λ q. contents bios params kept q ≡ some c) same r,
              (λ j h. b j h ∙ copied buf s.v86_buf j h ∙ rw e),
            )
        | inr e ↦
            let ne : k ≢ n = ground arith in
            (
              before,
              others (head_of params k) (cx_at params k) (block_at-block params k d hk).1
                    (registers-differ params n k d hn hk ne)
                  ∙ had,
              (λ j h. rw e),
            )
      ] in
    let (done, out, got, same_disk, unlocked', bytes) =
      read-given bios params k buf' w (λ j. if k == n then buf j else before j) d unlocked
        (subst (λ q. SameBytes (contents bios params q k) (λ j. if k == n then buf j else before j))
          (sym at) seen) in
    (before, w, done, out, had, run, got, unlocked, unlocked', same_disk, bytes)
