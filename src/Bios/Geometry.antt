-- ===== src/Bios/Geometry.antt =====
-- The numbers that the BIOS is given for a block.
use operativsystemer.Base.{ℕ, ◌+◌, ◌-◌, ◌*◌, ◌/◌, ◌%◌, ◌^◌, ◌≤◌, ◌<◌, ◌≡◌, subst, arith}
use native.Mathlib.Nat.{
  mul-pos, mod-lt, div-lt_iff_lt-mul, div-add-mod', mod-mod_of_dvd, dvd-mul_right, mul_comm,
}
use operativsystemer.Bios.{DiskParams, sector_of, head_of, cylinder_of, cx_of}

-- A disk that these numbers can name.
pub record IsDisk (params : DiskParams) : Type 0 where
  pub some_sectors : 1 ≤ params.sectors
  pub few_sectors : params.sectors ≤ 63
  pub some_heads : 1 ≤ params.heads
  pub few_heads : params.heads ≤ 255
  pub few_cylinders : params.cylinders ≤ 1024

-- The number of its blocks.
abbrev pub limit : DiskParams → ℕ
limit params = params.cylinders * (params.sectors * params.heads)

-- What the registers name: the cylinder, whose bits 8 and 9 are the bits 6 and 7 of `cx`, the head and
-- the sector, counted from 1.
abbrev pub block_at : DiskParams → ℕ → ℕ → ℕ
block_at params dh cx =
    (cx / 256 + 256 * (cx / 64 % 4)) * (params.sectors * params.heads)
    + dh * params.sectors
    + (cx % 64 - 1)

-- The registers name a sector of the disk.
pub record NamesSector (params : DiskParams) (dh cx : ℕ) : Type 0 where
  pub sector_from : 1 ≤ cx % 64
  pub sector_to : cx % 64 ≤ params.sectors
  pub head : dh < params.heads
  pub cylinder : cx / 256 + 256 * (cx / 64 % 4) < params.cylinders

cx-fields :
    (c s : ℕ)
    → c < 1024
    → s < 64
    → (cx_of c s / 256 + 256 * (cx_of c s / 64 % 4) ≡ c) × (cx_of c s % 64 ≡ s)
cx-fields c s hc hs = ground arith

head-bound :
    (n s h : ℕ)
    → 1 ≤ s
    → 1 ≤ h
    → h ≤ 255
    → (n % (s * h) / s % 2 ^ 8 ≡ n % (s * h) / s) × (n % (s * h) / s < h)
head-bound n s h hs hh few =
    let r : n % (s * h) < s * h = mod-lt n (mul-pos hs hh) in
    let q : n % (s * h) / s < h =
      (div-lt_iff_lt-mul hs).1 (subst (λ x. n % (s * h) < x) (mul_comm s h) r) in
    (omega arith, q)

-- The three numbers of a block make up the block.
pieces : (n s h : ℕ) → n / (s * h) * (s * h) + n % (s * h) / s * s + n % s ≡ n
pieces n s h =
    let inner : n % (s * h) / s * s + n % (s * h) % s ≡ n % (s * h) =
      div-add-mod' (n % (s * h)) s in
    let outer : n / (s * h) * (s * h) + n % (s * h) ≡ n = div-add-mod' n (s * h) in
    let same : n % (s * h) % s ≡ n % s = mod-mod_of_dvd s n (dvd-mul_right s h) in
    omega (arith, inner, outer, same)

-- For a disk with 1 to 63 sectors on a track, 1 to 255 heads and at most 1024 cylinders, and a block of
-- it, the registers that the BIOS is given name that block and no other, at a sector of the disk.
pub block_at-block :
    (params : DiskParams) (n : ℕ)
    → IsDisk params
    → n < limit params
    → (block_at params (head_of params n) (cx_of (cylinder_of params n) (sector_of params n)) ≡ n)
      × NamesSector params (head_of params n) (cx_of (cylinder_of params n) (sector_of params n))
block_at-block params n d h =
    let s : ℕ = params.sectors in
    let m : ℕ = params.sectors * params.heads in
    let in_track : n % params.sectors < params.sectors = mod-lt n d.some_sectors in
    let inside : n / m < params.cylinders =
      (div-lt_iff_lt-mul (mul-pos d.some_sectors d.some_heads)).1 h in
    let most : params.cylinders ≤ 1024 = d.few_cylinders in
    let few : n / m < 1024 = omega (arith, inside, most) in
    let c : cylinder_of params n ≡ n / m = let e : n / m % 2 ^ 16 ≡ n / m = omega arith in e in
    let k : sector_of params n ≡ 1 + n % s =
      let few' : params.sectors ≤ 63 = d.few_sectors in
      let e : (1 + n % s) % 2 ^ 8 ≡ 1 + n % s = omega (arith, in_track, few') in e in
    let (hd, on_disk) : (head_of params n ≡ n % m / s) × (n % m / s < params.heads) =
      head-bound n s params.heads d.some_sectors d.some_heads d.few_heads in
    let few' : params.sectors ≤ 63 = d.few_sectors in
    let (high, low) = cx-fields (n / m) (1 + n % s) few (omega (arith, in_track, few')) in
    let back : 1 + n % params.sectors - 1 ≡ n % params.sectors = omega arith in
    rw (c, k, hd, high, low, back)
      (
        pieces n s params.heads,
        record {
          sector_from = rw low (omega arith);
          sector_to = rw low (omega (arith, in_track));
          head = on_disk;
          cylinder = rw high inside;
        },
      )
