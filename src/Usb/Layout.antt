-- ===== src/Usb/Layout.antt =====
-- The descriptors of a configuration as a list, and what get_descriptor_ptr finds among them.
use operativsystemer.Base.{
  ℕ, zero, suc, ◌+◌, ◌-◌, ◌≤◌, ◌<◌, ◌≡◌, ◌≢◌, refl, true, false, Option, none, some, List, [], ◌∷◌,
  length, arith, ◌==◌, ltb, if◌then◌else◌, Bool-cases, inl, inr,
}
use operativsystemer.Text.{Cells}
use operativsystemer.Usb.{length_at, type_at, get_descriptor_loop, get_descriptor_ptr}

-- A descriptor: its length, with the header, and its type.
pub record Descriptor : Type 0 where
  pub len : ℕ
  pub kind : ℕ

-- The descriptors one behind the other, from an address on.
unfoldable pub LaidAt : Cells → ℕ → List Descriptor → Type 0
LaidAt m a [] = zero ≡ zero
LaidAt m a (d ∷ ds) =
    (length_at m a ≡ d.len) × (type_at m a ≡ d.kind) × (1 ≤ d.len) × LaidAt m (a + d.len) ds

unfoldable pub total : List Descriptor → ℕ
total [] = 0
total (d ∷ ds) = d.len + total ds

-- The address of the descriptor of the type with number `index` among those of that type.
unfoldable pub nth_of_kind : ℕ → ℕ → ℕ → List Descriptor → Option ℕ
nth_of_kind kind index a [] = none
nth_of_kind kind zero a (d ∷ ds) =
    let rest = nth_of_kind kind zero (a + d.len) ds in if d.kind == kind then some a else rest
nth_of_kind kind (suc index) a (d ∷ ds) =
    let found = nth_of_kind kind index (a + d.len) ds in
    let rest = nth_of_kind kind (suc index) (a + d.len) ds in if d.kind == kind then found else rest

-- The loop behind the first descriptor.
go_on :
    (fuel kind index size a scanned : ℕ) (m : Cells) (ds : List Descriptor)
    → LaidAt m a ds
    → size ≡ scanned + total ds
    → (1 ≤ length ds
        → get_descriptor_loop fuel kind index size a scanned m ≡ some (nth_of_kind kind index a ds))
    → (if ltb scanned size then get_descriptor_loop fuel kind index size a scanned m else some none)
      ≡ some (nth_of_kind kind index a ds)
unfolding LaidAt total nth_of_kind
go_on fuel kind zero size a scanned m [] at all next =
    let done : ltb scanned size ≡ false = ground arith in rw done
go_on fuel kind (suc index) size a scanned m [] at all next =
    let done : ltb scanned size ≡ false = ground arith in rw done
go_on fuel kind index size a scanned m (d ∷ ds) at all next =
    let pos : 1 ≤ d.len = at.2 in
    let more : ltb scanned size ≡ true = ground arith in rw more (next (omega arith))

get_descriptor_loop-nth_of_kind :
    (fuel kind index size a scanned : ℕ) (m : Cells) (ds : List Descriptor)
    → LaidAt m a ds
    → size ≡ scanned + total ds
    → length ds ≤ fuel
    → 1 ≤ length ds
    → get_descriptor_loop fuel kind index size a scanned m ≡ some (nth_of_kind kind index a ds)
unfolding get_descriptor_loop LaidAt total nth_of_kind
get_descriptor_loop-nth_of_kind fuel kind index size a scanned m [] at all le some_ds =
    absurd (omega arith)
get_descriptor_loop-nth_of_kind zero kind index size a scanned m (d ∷ ds) at all le some_ds =
    absurd (omega arith)
get_descriptor_loop-nth_of_kind (suc fuel) kind zero size a scanned m (d ∷ ds) at all le some_ds =
    let rest = go_on fuel kind zero size (a + d.len) (scanned + d.len) m ds at.3 (omega arith) (
      get_descriptor_loop-nth_of_kind fuel kind zero size (a + d.len) (scanned + d.len) m ds at.3
        (omega arith) (omega arith)) in
    elim (Bool-cases (d.kind == kind)) [
      | inl here ↦ rw (at.0, at.1, here) refl
      | inr other ↦ rw (at.0, at.1, other) rest
    ]
get_descriptor_loop-nth_of_kind (suc fuel) kind (suc index) size a scanned m (d ∷ ds) at all le
      some_ds =
    let rest =
      go_on fuel kind (suc index) size (a + d.len) (scanned + d.len) m ds at.3 (omega arith) (
        get_descriptor_loop-nth_of_kind fuel kind (suc index) size (a + d.len) (scanned + d.len) m
          ds at.3 (omega arith) (omega arith)) in
    let fewer = go_on fuel kind index size (a + d.len) (scanned + d.len) m ds at.3 (omega arith) (
      get_descriptor_loop-nth_of_kind fuel kind index size (a + d.len) (scanned + d.len) m ds at.3
        (omega arith) (omega arith)) in
    let down : suc index - 1 ≡ index = omega arith in
    let ne : (suc index == 0) ≡ false = ground arith in
    elim (Bool-cases (d.kind == kind)) [
      | inl here ↦ rw (at.0, at.1, here, ne, down) fewer
      | inr other ↦ rw (at.0, at.1, other) rest
    ]

-- In a configuration of at least one descriptor, whose lengths are above 0 and add up to its size, and with
-- as much fuel as descriptors: get_descriptor_ptr ends, and gives the address of the descriptor of
-- the type with the number `index`, counted from 0 among those of the type, or NULL where there are not
-- so many.
pub get_descriptor_ptr-nth_of_kind :
    (fuel kind index a : ℕ) (m : Cells) (ds : List Descriptor)
    → LaidAt m a ds
    → 1 ≤ length ds
    → length ds ≤ fuel
    → get_descriptor_ptr fuel kind index (total ds) a m ≡ some (nth_of_kind kind index a ds)
unfolding get_descriptor_ptr
get_descriptor_ptr-nth_of_kind fuel kind index a m ds at some_ds le =
    get_descriptor_loop-nth_of_kind fuel kind index (total ds) a 0 m ds at (omega arith) le some_ds

-- A descriptor of length 0 and of another type is read for ever.
get_descriptor_ptr-endless :
    (fuel kind index size a scanned : ℕ) (m : Cells)
    → length_at m a ≡ 0
    → type_at m a ≢ kind
    → scanned < size
    → get_descriptor_loop fuel kind index size a scanned m ≡ none
unfolding get_descriptor_loop
get_descriptor_ptr-endless zero kind index size a scanned m len other room = refl
get_descriptor_ptr-endless (suc fuel) kind index size a scanned m len other room =
    let ne : (type_at m a == kind) ≡ false = ground arith in
    let more : ltb scanned size ≡ true = ground arith in
    let same : a + 0 ≡ a = omega arith in
    let same' : scanned + 0 ≡ scanned = omega arith in
    rw (ne, len, same, same', more)
      (get_descriptor_ptr-endless fuel kind index size a scanned m len other room)
