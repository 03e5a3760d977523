-- ===== src/Bios.antt =====
-- The disk access of cos318-project6/usb.c: a sector is read and written by the BIOS, in virtual 8086 mode,
-- which is a parameter here, with the laws that the documentation of its functions 2 and 3 gives. The
-- lock `usb_lock` is a flag: taking it while it is held waits, which is `none`.
pub mod Directory
pub mod Geometry
pub mod Sectors
pub mod Words
use operativsystemer.Base.{
  ℕ, ◌+◌, ◌*◌, ◌/◌, ◌%◌, ◌^◌, ◌≡◌, ◌≢◌, ◌⊎◌, ◌<◌, Bool, true, false, ◌||◌, Option, none, some,
  ◌>>=◌, ◌==◌, ltb, if◌then◌else◌,
}
use operativsystemer.Text.{Cells}

-- `usb_disk_params_t`.
pub record DiskParams : Type 0 where
  pub heads : ℕ
  pub sectors : ℕ
  pub cylinders : ℕ

abbrev pub sector_size : ℕ
sector_size = 512

-- What the functions 2 and 3 of the BIOS do with a disk, for the registers `dh` and `cx` and one sector:
-- `none` stands for a status other than 0.
pub record Bios (Disk : Type 0) : Type 0 where
  pub read_sector : ℕ → ℕ → Disk → Option Cells
  pub write_sector : ℕ → ℕ → Cells → Disk → Option Disk

-- The globals of the file: the lock, the part of `io_params` that changes, the buffer, and the disk.
pub record Usb (Disk : Type 0) : Type 0 where
  pub locked : Bool
  pub dh : ℕ
  pub cx : ℕ
  pub v86_buf : Cells
  pub disk : Disk

-- The three numbers of a block, each in the width of its variable.
abbrev pub sector_of : DiskParams → ℕ → ℕ
sector_of params block_num = (1 + block_num % params.sectors) % 2 ^ 8

abbrev pub head_of : DiskParams → ℕ → ℕ
head_of params block_num = block_num % (params.sectors * params.heads) / params.sectors % 2 ^ 8

abbrev pub cylinder_of : DiskParams → ℕ → ℕ
cylinder_of params block_num = block_num / (params.sectors * params.heads) % 2 ^ 16

-- `x | y` for two bits each.
abbrev pub or2 : ℕ → ℕ → ℕ
or2 x y =
    (if (x % 2 == 1) || (y % 2 == 1) then 1 else 0)
    + (if (x / 2 == 1) || (y / 2 == 1) then 2 else 0)

-- `(((cylinder & 0x0300) >> 2) | sector) | ((cylinder & 0xff) << 8)`, for a sector of 8 bits.
abbrev pub cx_of : ℕ → ℕ → ℕ
cx_of cylinder sector =
    sector % 64 + 64 * or2 (cylinder / 256 % 4) (sector / 64) + 256 * (cylinder % 256)

-- `bcopy` of one sector, from one buffer to another.
abbrev pub copy_sector : Cells → Cells → Cells
copy_sector source destin j = if ltb j sector_size then source j else destin j

-- Both functions divide by these numbers.
abbrev pub faults : DiskParams → Bool
faults params = (params.sectors == 0) || (params.heads == 0)

-- `io_params` for a block.
abbrev pub place : {Disk : Type 0} → DiskParams → ℕ → Usb Disk → Usb Disk
place params block_num s = record s {
  dh = head_of params block_num;
  cx = cx_of (cylinder_of params block_num) (sector_of params block_num);
}

-- The two calls of the BIOS, from usbV86.S. Where it reports an error, a message is printed, and the
-- program does not go on: `none`.
abbrev pub usb_read : {Disk : Type 0} → Bios Disk → Usb Disk → Option (Usb Disk)
usb_read bios s = bios.read_sector s.dh s.cx s.disk >>= λ given.
    some (record s { v86_buf = copy_sector given s.v86_buf })

abbrev pub usb_write : {Disk : Type 0} → Bios Disk → Usb Disk → Option (Usb Disk)
usb_write bios s =
    bios.write_sector s.dh s.cx s.v86_buf s.disk >>= λ kept. some (record s { disk = kept })

-- The lock is taken and given back.
unfoldable pub read :
    {Disk : Type 0} → Bios Disk → DiskParams → ℕ → Cells → Usb Disk → Option (Cells × Usb Disk)
read bios params block_num buf s =
    if faults params || s.locked
    then none
    else (usb_read bios (place params block_num s) >>= λ done.
        some (copy_sector done.v86_buf buf, done))

unfoldable pub write :
    {Disk : Type 0} → Bios Disk → DiskParams → ℕ → Cells → Usb Disk → Option (Usb Disk)
write bios params block_num buf s =
    if faults params || s.locked
    then none
    else usb_write bios (place params block_num (record s { v86_buf = copy_sector buf s.v86_buf }))
