-- ===== src/Queue/Access.antt =====
-- The fields of a node that is not NULL are read and written without a fault.
use operativsystemer.Base.{◌≡◌, ◌≢◌, some, false, arith, ◌==◌}
use operativsystemer.Queue.{Ptr, null, Heap, update, get_prev, get_next, set_prev, set_next}

module _ (p : Ptr) (real : p ≢ null) where
  not_null : (p == null) ≡ false
  not_null = ground arith

  pub get_prev-ok : (h : Heap) → get_prev p h ≡ some (h.prev p, h)
  unfolding get_prev
  get_prev-ok h = rw not_null

  pub get_next-ok : (h : Heap) → get_next p h ≡ some (h.next p, h)
  unfolding get_next
  get_next-ok h = rw not_null

  pub set_prev-ok :
      (v : Ptr) (h : Heap) → set_prev p v h ≡ some (tt, record h { prev = update h.prev p v })
  unfolding set_prev
  set_prev-ok v h = rw not_null

  pub set_next-ok :
      (v : Ptr) (h : Heap) → set_next p v h ≡ some (tt, record h { next = update h.next p v })
  unfolding set_next
  set_next-ok v h = rw not_null
