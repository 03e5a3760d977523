-- ===== src/V86.antt =====
-- The virtual 8086 mode of cos318-project6/interrupt.c, in which the BIOS runs: gpf_handler carries out
-- the instructions that the processor does not let a program of that mode carry out. The memory is a
-- function of bytes. What a port gives is an argument, and what is put out is a list.
pub mod Guest
pub mod Calls
use operativsystemer.Base.{
  ℕ, zero, suc, ◌+◌, ◌-◌, ◌*◌, ◌/◌, ◌%◌, ◌^◌, Bool, true, false, Option, none, some, List, [], ◌∷◌,
  ◌++◌, ◌==◌, if◌then◌else◌,
}
use operativsystemer.Text.{Cells, put}

-- The part of `gpf_context_t` that the handler uses, the flag `v86_if` of the current job, the
-- memory, and the words put out with their ports, oldest first.
pub record V86 : Type 0 where
  pub edx : ℕ
  pub eax : ℕ
  pub eip : ℕ
  pub cs : ℕ
  pub eflags : ℕ
  pub esp : ℕ
  pub ss : ℕ
  pub v86_if : Bool
  pub memory : Cells
  pub out : List (ℕ × ℕ)

-- What the handler ends with: it returns to the program, leaves virtual 8086 mode, or stops the
-- machine in dump_state.
pub data Outcome : Type 0 where
  resumes : V86 → Outcome
  leaves : V86 → Outcome
  dumps : Outcome

abbrev pub low16 : ℕ → ℕ
low16 x = x % 2 ^ 16

-- The macro `FP_TO_LINEAR`.
abbrev pub linear : ℕ → ℕ → ℕ
linear seg off = low16 seg * 16 + low16 off

-- Words of 16 and of 32 bits in the memory, low byte first.
abbrev pub read16 : Cells → ℕ → ℕ
read16 m a = m a % 256 + 256 * (m (a + 1) % 256)

abbrev pub write16 : ℕ → ℕ → Cells → Cells
write16 a x m = put (put m a (x % 256)) (a + 1) (x / 256 % 256)

abbrev pub read32 : Cells → ℕ → ℕ
read32 m a = read16 m a + 2 ^ 16 * read16 m (a + 2)

abbrev pub write32 : ℕ → ℕ → Cells → Cells
write32 a x m = write16 (a + 2) (x / 2 ^ 16) (write16 a x m)

-- `EFLAG_IF` and `EFLAG_VM`.
abbrev pub eflag_if : ℕ
eflag_if = 512

abbrev pub eflag_vm : ℕ
eflag_vm = 2 ^ 17

abbrev pub has_flag : ℕ → ℕ → Bool
has_flag x flag = x / flag % 2 == 1

-- `x | EFLAG_IF` and `x & ~EFLAG_IF`.
abbrev pub set_if : ℕ → ℕ
set_if x = if has_flag x eflag_if then x else x + eflag_if

abbrev pub clear_if : ℕ → ℕ
clear_if x = if has_flag x eflag_if then x - eflag_if else x

-- The flags as the program is to see them: with `v86_if` for the flag of the processor.
abbrev pub shown : Bool → ℕ → ℕ
shown on x = if on then set_if x else clear_if x

-- `x & VALID_FLAGS`, for the mask 0xdff: the low twelve bits without `EFLAG_IF`.
abbrev pub valid_flags : ℕ → ℕ
valid_flags x = clear_if (x % 2 ^ 12)

-- `EFLAG_IF | EFLAG_VM | x`, for a word `x` of 16 bits.
abbrev pub guest_flags : ℕ → ℕ
guest_flags x = eflag_vm + set_if x

abbrev pub stack : V86 → ℕ
stack v = linear v.ss v.esp

-- `(esp & 0xffff) - n`, and `+ n`, in 16 bits.
abbrev pub down : ℕ → ℕ → ℕ
down esp n = low16 (low16 esp + 2 ^ 16 - n)

abbrev pub up : ℕ → ℕ → ℕ
up esp n = low16 (low16 esp + n)

abbrev pub skip : V86 → ℕ → ℕ
skip v n = low16 (v.eip + n)

-- A pointer to the stack, moved down by `n` bytes.
abbrev pub below : ℕ → ℕ → ℕ
below a n = (a + 2 ^ 32 - n) % 2 ^ 32

-- 0x9c. The pointer to the stack is not kept in 16 bits.
unfoldable pub pushf : Bool → V86 → V86
pushf true v = record v {
  esp = down v.esp 4;
  memory = write32 (below (stack v) 4) (shown v.v86_if (valid_flags v.eflags)) v.memory;
  eip = skip v 1;
}
pushf false v = record v {
  esp = down v.esp 2;
  memory = write16 (below (stack v) 2) (shown v.v86_if (low16 v.eflags)) v.memory;
  eip = skip v 1;
}

-- 0x9d.
unfoldable pub popf : Bool → V86 → V86
popf true v = record v {
  eflags = guest_flags (valid_flags (read32 v.memory (stack v)));
  v86_if = has_flag (read32 v.memory (stack v)) eflag_if;
  esp = up v.esp 4;
  eip = skip v 1;
}
popf false v = record v {
  eflags = guest_flags (read16 v.memory (stack v));
  v86_if = has_flag (read16 v.memory (stack v)) eflag_if;
  esp = up v.esp 2;
  eip = skip v 1;
}

-- The memory behind the three words that an interrupt of the program pushes: the flags, `cs`, and the
-- address of the next instruction.
abbrev pub pushed : V86 → Cells
pushed v =
    write16 (below (stack v) 6 + 4) (shown v.v86_if (low16 v.eflags))
      (write16 (below (stack v) 6 + 2) v.cs (write16 (below (stack v) 6) (v.eip + 2) v.memory))

-- 0xcd: an interrupt of the program with number `n`, which is read behind the three words; the table
-- of the handlers stands at 0.
unfoldable pub int_n : ℕ → V86 → V86
int_n n v = record v {
  memory = pushed v;
  esp = down v.esp 6;
  cs = read16 (pushed v) (4 * n + 2);
  eip = read16 (pushed v) (4 * n);
}

-- 0xcf.
unfoldable pub iret : V86 → V86
iret v = record v {
  eip = read16 v.memory (stack v);
  cs = read16 v.memory (stack v + 2);
  eflags = guest_flags (read16 v.memory (stack v + 4));
  v86_if = has_flag (read16 v.memory (stack v + 4)) eflag_if;
  esp = up v.esp 6;
}

-- 0xec: the byte that the port gives goes into the low byte of `eax`.
abbrev pub in_byte : ℕ → V86 → V86
in_byte given v = record v { eax = v.eax - v.eax % 256 + given % 256; eip = skip v 1 }

-- 0xee and 0xef, with the bits put out.
abbrev pub put_out : ℕ → V86 → V86
put_out x v = record v { out = v.out ++ (low16 v.edx, x) ∷ []; eip = skip v 1 }

-- The instruction at `ip`, which is no prefix, with the operand size.
unfoldable pub carry_out : ℕ → ℕ → Bool → V86 → Outcome
carry_out given ip operand32 v =
    if op == 0x9c
    then resumes (pushf operand32 v)
    else if op == 0x9d
    then resumes (popf operand32 v)
    else if op == 0xcd
    then resumes (int_n (pushed v (ip + 1) % 256) v)
    else if op == 0xcf
    then resumes (iret v)
    else if op == 0xfa
    then resumes (record v { v86_if = false; eip = skip v 1 })
    else if op == 0xfb
    then resumes (record v { v86_if = true; eip = skip v 1 })
    else if op == 0xec
    then resumes (in_byte given v)
    else if op == 0xee
    then resumes (put_out (v.eax % 256) v)
    else if op == 0xef
    then resumes (put_out v.eax v)
    else if op == 0xf4
    then leaves v
    else dumps
  where
    op : ℕ
    op = v.memory ip % 256

-- The loop over the prefixes of the instruction, on fuel.
unfoldable pub gpf_loop : ℕ → ℕ → ℕ → Bool → V86 → Option Outcome
gpf_loop zero given ip operand32 v = none
gpf_loop (suc fuel) given ip operand32 v =
    let next : V86 = record v { eip = skip v 1 } in
    let o32 = gpf_loop fuel given (ip + 1) true next in
    let a32 = gpf_loop fuel given (ip + 1) operand32 next in
    if v.memory ip % 256 == 0x66
    then o32
    else if v.memory ip % 256 == 0x67
    then a32
    else some (carry_out given ip operand32 v)

-- `gpf_handler`: a fault that does not come from virtual 8086 mode stops the machine.
unfoldable pub gpf_handler : ℕ → ℕ → V86 → Option Outcome
gpf_handler fuel given v =
    let run = gpf_loop fuel given (linear v.cs v.eip) false v in
    if has_flag v.eflags eflag_vm then run else some dumps
