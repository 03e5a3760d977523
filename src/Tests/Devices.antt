-- ===== src/Tests/Devices.antt =====
-- The search of cos318-project5/usb/usb.c in a configuration with an interface and two endpoints.
use operativsystemer.Base.{ℕ, ◌≡◌, refl, some, List, [], ◌∷◌, arith}
use operativsystemer.Text.{Cells, put}
use operativsystemer.Usb.{get_descriptor_ptr}
use operativsystemer.Usb.Layout.{
  Descriptor, LaidAt, total, nth_of_kind, get_descriptor_ptr-nth_of_kind,
}

abbrev descriptor : ℕ → ℕ → Descriptor
descriptor len kind = record { len = len; kind = kind }

abbrev configuration : List Descriptor
configuration = descriptor 9 2 ∷ descriptor 9 4 ∷ descriptor 7 5 ∷ descriptor 7 5 ∷ []

abbrev bytes : Cells
bytes =
    put (put (put (put (put (put (put (put (λ a. 0) 100 9) 101 2) 109 9) 110 4) 118 7) 119 5) 125 7)
      126 5

configuration-LaidAt : LaidAt bytes 100 configuration
unfolding LaidAt
configuration-LaidAt = (
  refl,
  refl,
  omega arith,
  (refl, refl, omega arith, (refl, refl, omega arith, (refl, refl, omega arith, refl))),
)

-- The second endpoint.
nth_of_kind_second : nth_of_kind 5 1 100 configuration ≡ some 125
unfolding nth_of_kind
nth_of_kind_second = refl

get_descriptor_ptr-nth_of_kind_example :
    get_descriptor_ptr 4 5 1 (total configuration) 100 bytes
    ≡ some (nth_of_kind 5 1 100 configuration)
get_descriptor_ptr-nth_of_kind_example =
    get_descriptor_ptr-nth_of_kind 4 5 1 100 bytes configuration configuration-LaidAt (omega arith)
      (omega arith)
