-- ===== src/Descriptors/Entry.antt =====
-- What the processor reads in the tables of kernel.c when an interrupt or a system call enters the
-- kernel.
use operativsystemer.Base.{
  ℕ, zero, suc, ◌+◌, ◌-◌, ◌*◌, ◌/◌, ◌%◌, ◌^◌, ◌<◌, ◌≡◌, ◌⊎◌, inl, inr, refl, sym, subst, ◌∙◌, Bool,
  true, ◌&&◌, arith, ltb, leb, ◌==◌, if◌then◌else◌,
}
use operativsystemer.Descriptors.{
  Gate, SegmentDescriptor, Handlers, create_gate, create_segment, set_gate, set_gates, init_idt,
  init_gdt, kernel_cs, interrupt_gate, code_segment, data_segment, tss_segment, tss_size,
  kernel_data, process_cs, process_ds, tss_index,
}

-- The fields as the processor's manual has them: the privilege level is bits 5 and 6 of the access
-- byte, the type its bits 0 to 3, bit 4 is clear for a gate and a system segment, bit 7 is
-- set if the entry is present.
abbrev pub dpl : ℕ → ℕ
dpl access = access / 32 % 4

abbrev pub present : ℕ → Bool
present access = access / 128 % 2 == 1

abbrev pub kind : ℕ → ℕ
kind access = access % 32

abbrev pub gate_offset : Gate → ℕ
gate_offset g = g.offset_low + g.offset_high * 2 ^ 16

abbrev pub segment_base : SegmentDescriptor → ℕ
segment_base d = d.base_low + d.base_mid * 2 ^ 16 + d.base_high * 2 ^ 24

abbrev pub segment_limit : SegmentDescriptor → ℕ
segment_limit d = d.limit_low + d.limit_high % 16 * 2 ^ 16

-- The last byte that a segment holds, behind its base: its limit counts bytes or pages of 4 KB.
abbrev pub last_byte : SegmentDescriptor → ℕ
last_byte d = if d.limit_high / 128 % 2 == 1 then segment_limit d * 4096 + 4095 else segment_limit d

-- The segment of a selector.
abbrev pub segment_of : (ℕ → SegmentDescriptor) → ℕ → SegmentDescriptor
segment_of gdt selector = gdt (selector / 8)

-- The handler that an entry leads to.
unfoldable pub handler_of : Handlers → ℕ → ℕ
handler_of h i =
    if i == 48
    then h.syscall_entry
    else if i == 39
    then h.fake_irq7_entry
    else if i == 33
    then h.irq1_entry
    else if i == 32
    then h.irq0_entry
    else if i == 13
    then h.exception13_entry
    else if ltb i 15
    then h.exception_handler i
    else h.bogus_interrupt

set_gates-entry :
    (handler : ℕ → ℕ) (n i : ℕ) (idt : ℕ → Gate) (j : ℕ)
    → set_gates handler n i idt j ≡ (
        if leb i j && ltb j (i + n)
        then create_gate (handler j) kernel_cs interrupt_gate 0
        else idt j)
unfolding set_gates
set_gates-entry handler zero i idt j = ground arith
set_gates-entry handler (suc n) i idt j =
    set_gates-entry handler n (i + 1) (set_gate i (handler i) 0 idt) j ∙ ground arith

init_idt-gate :
    (h : Handlers) (idt : ℕ → Gate) (i : ℕ)
    → i < 49
    → init_idt h idt i
      ≡ create_gate (handler_of h i) kernel_cs interrupt_gate (if i == 48 then 3 else 0)
unfolding init_idt handler_of
init_idt-gate h idt i b =
    let all : set_gates (λ i. h.bogus_interrupt) 49 0 idt i
        ≡ create_gate h.bogus_interrupt kernel_cs interrupt_gate 0 =
      set_gates-entry (λ i. h.bogus_interrupt) 49 0 idt i ∙ ground arith in
    let some_of : set_gates h.exception_handler 15 0 (set_gates (λ i. h.bogus_interrupt) 49 0 idt) i
        ≡ create_gate (if ltb i 15 then h.exception_handler i else h.bogus_interrupt) kernel_cs
            interrupt_gate 0 =
      set_gates-entry h.exception_handler 15 0 (set_gates (λ i. h.bogus_interrupt) 49 0 idt) i
      ∙ rw all (ground arith) in
    rw some_of (ground arith)

create_gate-offset :
    (offset selector type privilege : ℕ)
    → offset < 2 ^ 32
    → gate_offset (create_gate offset selector type privilege) ≡ offset
unfolding create_gate
create_gate-offset offset selector type privilege h = omega (arith, h)

create_segment-base :
    (base limit type privilege system granularity : ℕ)
    → base < 2 ^ 32
    → segment_base (create_segment base limit type privilege system granularity) ≡ base
unfolding create_segment
create_segment-base base limit type privilege system granularity h = omega (arith, h)

-- An entry of the interrupt table: where it leads, with which rights, and who may use it.
pub record Enters (g : Gate) (gdt : ℕ → SegmentDescriptor) (handler privilege : ℕ) : Type 0 where
  pub offset : gate_offset g ≡ handler
  pub interrupt : kind g.access ≡ interrupt_gate
  pub gate_present : present g.access ≡ true
  pub callers : dpl g.access ≡ privilege
  pub code : kind (segment_of gdt g.selector).access ≡ 16 + code_segment
  pub code_present : present (segment_of gdt g.selector).access ≡ true
  pub rights : dpl (segment_of gdt g.selector).access ≡ 0
  pub flat : segment_base (segment_of gdt g.selector) ≡ 0
  pub reach : last_byte (segment_of gdt g.selector) ≡ 2 ^ 32 - 1

create_gate-Enters :
    (offset privilege tss : ℕ) (gdt : ℕ → SegmentDescriptor)
    → offset < 2 ^ 32
    → (privilege ≡ 0) ⊎ (privilege ≡ 3)
    → Enters
        (create_gate offset kernel_cs interrupt_gate privilege)
        (init_gdt tss gdt)
        offset
        privilege
unfolding create_gate init_gdt create_segment
create_gate-Enters offset privilege tss gdt small rights = record {
  offset = create_gate-offset offset kernel_cs interrupt_gate privilege small;
  interrupt = elim rights [ inl z ↦ rw z refl | inr t ↦ rw t refl ];
  gate_present = elim rights [ inl z ↦ rw z refl | inr t ↦ rw t refl ];
  callers = elim rights [ inl z ↦ rw z refl | inr t ↦ rw t refl ];
  code = refl;
  code_present = refl;
  rights = refl;
  flat = refl;
  reach = refl;
}

-- Behind init_idt and init_gdt, each entry of the interrupt table that the processor may find for a
-- vector below 49 is present and leads to the vector's handler (the system call's for 48,
-- the keyboard's and the timer's, the fake one's for 39, the exceptions' for those below 15, and
-- else bogus_interrupt) in a code segment of 4 GB from address 0 with the rights of the kernel;
-- and a process may use the entry of the system call and no other one.
pub init_idt-Enters :
    (h : Handlers) (idt : ℕ → Gate) (tss : ℕ) (gdt : ℕ → SegmentDescriptor) (i : ℕ)
    → i < 49
    → handler_of h i < 2 ^ 32
    → Enters (init_idt h idt i) (init_gdt tss gdt) (handler_of h i) (if i == 48 then 3 else 0)
init_idt-Enters h idt tss gdt i b small =
    subst (λ g. Enters g (init_gdt tss gdt) (handler_of h i) (if i == 48 then 3 else 0))
      (sym (init_idt-gate h idt i b))
      (create_gate-Enters (handler_of h i) (if i == 48 then 3 else 0) tss gdt small (ground arith))

-- What a segment register of a process or of the kernel gives.
pub record Flat (d : SegmentDescriptor) (type privilege : ℕ) : Type 0 where
  pub type_is : kind d.access ≡ 16 + type
  pub is_present : present d.access ≡ true
  pub level : dpl d.access ≡ privilege
  pub start : segment_base d ≡ 0
  pub reach : last_byte d ≡ 2 ^ 32 - 1

-- Behind init_gdt, the selectors that create_process puts in `cs` and `ds`, with the requested level 3,
-- lead to a code and a data segment of all 4 GB with the rights of a process, that of the
-- kernel's data to one with the rights of the kernel; and the selector of the task state segment leads
-- to a descriptor of its address whose limit is its size.
pub init_gdt-Flat :
    (tss : ℕ) (gdt : ℕ → SegmentDescriptor)
    → tss < 2 ^ 32
    → Flat (segment_of (init_gdt tss gdt) (process_cs + 3)) code_segment 3
      × Flat (segment_of (init_gdt tss gdt) (process_ds + 3)) data_segment 3
      × Flat (segment_of (init_gdt tss gdt) (kernel_data * 8)) data_segment 0
      × (segment_base (segment_of (init_gdt tss gdt) (tss_index * 8)) ≡ tss)
      × (last_byte (segment_of (init_gdt tss gdt) (tss_index * 8)) ≡ tss_size)
      × (kind (segment_of (init_gdt tss gdt) (tss_index * 8)).access ≡ tss_segment)
unfolding init_gdt create_segment
init_gdt-Flat tss gdt small = (
  record { type_is = refl; is_present = refl; level = refl; start = refl; reach = refl },
  record { type_is = refl; is_present = refl; level = refl; start = refl; reach = refl },
  record { type_is = refl; is_present = refl; level = refl; start = refl; reach = refl },
  create_segment-base tss tss_size tss_segment 0 0 0 small,
  refl,
  refl,
)
