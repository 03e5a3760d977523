-- ===== src/Tests/Disks.antt =====
-- The disk access of cos318-project6 with a BIOS that keeps a byte for each pair of registers.
use operativsystemer.Base.{
  ap, ℕ, ◌<◌, ◌≡◌, ◌≢◌, ◌⊎◌, inl, inr, refl, false, some, arith, ◌==◌, ==_ne, ==_refl, ◌&&◌,
  if◌then◌else◌, Bool-cases,
}
use operativsystemer.Text.{Cells}
use operativsystemer.Bios.{Bios, DiskParams, Usb, read, sector_size, write}
use operativsystemer.Bios.Geometry.{IsDisk}
use operativsystemer.Bios.Sectors.{Works, contents, read-write}

abbrev pub Disk : Type 0
Disk = ℕ → ℕ → Cells

abbrev pub array : Bios Disk
array = record {
  read_sector = λ dh cx d. some (d dh cx);
  write_sector =
      λ dh cx buf d. some (λ dh' cx'. if (dh' == dh) && (cx' == cx) then buf else d dh' cx');
}

array_other :
    (dh cx dh' cx' : ℕ) (buf : Cells) (d : Disk)
    → (dh' ≢ dh) ⊎ (cx' ≢ cx)
    → (if (dh' == dh) && (cx' == cx) then buf else d dh' cx') ≡ d dh' cx'
array_other dh cx dh' cx' buf d (inl ne) = rw (==_ne dh' dh ne)
array_other dh cx dh' cx' buf d (inr ne) = elim (Bool-cases (dh' == dh)) [
  | inl e ↦ rw (e, ==_ne cx' cx ne)
  | inr e ↦ rw e
]

abbrev pub stick : DiskParams
stick = record { heads = 255; sectors = 63; cylinders = 400 }

pub array-Works : Works array stick
array-Works = record {
  reads = λ dh cx d h. (d dh cx, refl);
  writes = λ dh cx buf d h. (
    (λ dh' cx'. if (dh' == dh) && (cx' == cx) then buf else d dh' cx'),
    refl,
    (buf, rw (==_refl dh, ==_refl cx), (λ j k. refl)),
    (λ dh' cx' h' ne. ap some (array_other dh cx dh' cx' buf d ne)),
  );
}

pub stick-IsDisk : IsDisk stick
stick-IsDisk = record {
  some_sectors = omega arith;
  few_sectors = omega arith;
  some_heads = omega arith;
  few_heads = omega arith;
  few_cylinders = omega arith;
}

abbrev ready : Usb Disk
ready = record { locked = false; dh = 0; cx = 0; v86_buf = λ j. 0; disk = λ dh cx j. 5 }

read-write_example :
    (before : Cells) × (written : Usb Disk) × (done : Usb Disk) × (out : Cells) × (contents array
        stick ready.disk 64
      ≡ some before)
    × (write array stick 5000000 (λ j. j) ready ≡ some written)
    × (read array stick 64 (λ j. 9) written ≡ some (out, done))
    × (written.locked ≡ false)
    × (done.locked ≡ false)
    × (done.disk ≡ written.disk)
    × ((j : ℕ) → j < sector_size → out j ≡ (if 64 == 5000000 then j else before j))
read-write_example =
    read-write array stick 5000000 64 (λ j. j) (λ j. 9) ready array-Works stick-IsDisk (omega arith)
      (omega arith) refl
