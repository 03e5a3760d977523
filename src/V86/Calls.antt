-- ===== src/V86/Calls.antt =====
-- A program in virtual 8086 mode that calls an interrupt goes on behind it with the flags, the stack and
-- the segment that it had.
use operativsystemer.Base.{ℕ, ◌+◌, ◌<◌, ◌≡◌}
use operativsystemer.V86.{V86, below, down, guest_flags, low16, pushed, shown, stack}

-- What the program has back after its interrupt.
pub record Returned (v w : V86) : Type 0 where
  pub behind : w.eip ≡ low16 (v.eip + 2)
  pub segment : w.cs ≡ low16 v.cs
  pub same_stack : w.esp ≡ low16 v.esp
  pub same_if : w.v86_if ≡ v.v86_if
  pub same_flags : w.eflags ≡ guest_flags (shown v.v86_if (low16 v.eflags))

-- The handler has the stack that it began with, and left the three words on it alone.
pub record IsDone (v w : V86) : Type 0 where
  pub same_segment : w.ss ≡ v.ss
  pub same_pointer : w.esp ≡ down v.esp 6
  pub words : (j : ℕ) → j < 6 → w.memory (below (stack v) 6 + j) ≡ pushed v (below (stack v) 6 + j)
