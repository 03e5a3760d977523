-- ===== src/Descriptors.antt =====
-- The tables of the processor that cos318-project6/kernel.c fills: create_gate, create_segment,
-- init_idt and init_gdt, with the structures and constants of kernel.h. The addresses of handlers are
-- arguments; loading the tables into the processor's registers and the ports of the
-- interrupt controllers are left out.
pub mod Entry
use operativsystemer.Base.{ℕ, zero, suc, ◌+◌, ◌*◌, ◌/◌, ◌%◌, ◌^◌, bit_or, ◌==◌, if◌then◌else◌}

-- `struct gate_t`.
pub record Gate : Type 0 where
  pub offset_low : ℕ
  pub selector : ℕ
  pub count : ℕ
  pub access : ℕ
  pub offset_high : ℕ

-- `struct segment_t`.
pub record SegmentDescriptor : Type 0 where
  pub limit_low : ℕ
  pub base_low : ℕ
  pub base_mid : ℕ
  pub access : ℕ
  pub limit_high : ℕ
  pub base_high : ℕ

abbrev pub kernel_code : ℕ
kernel_code = 1

abbrev pub kernel_data : ℕ
kernel_data = 2

abbrev pub process_code : ℕ
process_code = 3

abbrev pub process_data : ℕ
process_data = 4

abbrev pub tss_index : ℕ
tss_index = 5

abbrev pub kernel_cs : ℕ
kernel_cs = kernel_code * 8

abbrev pub process_cs : ℕ
process_cs = process_code * 8

abbrev pub process_ds : ℕ
process_ds = process_data * 8

abbrev pub code_segment : ℕ
code_segment = 10

abbrev pub data_segment : ℕ
data_segment = 2

abbrev pub tss_segment : ℕ
tss_segment = 9

abbrev pub interrupt_gate : ℕ
interrupt_gate = 14

abbrev pub idt_size : ℕ
idt_size = 49

abbrev pub num_exceptions : ℕ
num_exceptions = 15

abbrev pub irq_start : ℕ
irq_start = 32

abbrev pub idt_syscall_pos : ℕ
idt_syscall_pos = 48

unfoldable pub create_gate : ℕ → ℕ → ℕ → ℕ → Gate
create_gate offset selector type privilege = record {
  offset_low = offset % 2 ^ 16;
  selector = selector % 2 ^ 16;
  count = 0;
  access = bit_or (bit_or type (privilege * 32)) 128 % 256;
  offset_high = offset / 2 ^ 16 % 2 ^ 16;
}

unfoldable pub create_segment : ℕ → ℕ → ℕ → ℕ → ℕ → ℕ → SegmentDescriptor
create_segment base limit type privilege system granularity = record {
  limit_low = limit % 2 ^ 16;
  base_low = base % 2 ^ 16;
  base_mid = base / 2 ^ 16 % 256;
  access = bit_or (bit_or (bit_or type (system * 16)) (privilege * 32)) 128 % 256;
  limit_high = bit_or (limit / 2 ^ 16 % 256) (bit_or (granularity * 128) 64) % 256;
  base_high = base / 2 ^ 24 % 256;
}

-- The addresses of the handlers of interrupt.c and entry.S.
pub record Handlers : Type 0 where
  pub bogus_interrupt : ℕ
  pub exception_handler : ℕ → ℕ
  pub exception13_entry : ℕ
  pub fake_irq7_entry : ℕ
  pub irq0_entry : ℕ
  pub irq1_entry : ℕ
  pub syscall_entry : ℕ

abbrev pub set_gate : ℕ → ℕ → ℕ → (ℕ → Gate) → ℕ → Gate
set_gate i offset privilege idt j =
    if j == i then create_gate offset kernel_cs interrupt_gate privilege else idt j

-- A loop of `init_idt` over `n` entries, from `i` on.
unfoldable pub set_gates : (ℕ → ℕ) → ℕ → ℕ → (ℕ → Gate) → ℕ → Gate
set_gates handler zero i idt = idt
set_gates handler (suc n) i idt = set_gates handler n (i + 1) (set_gate i (handler i) 0 idt)

unfoldable pub init_idt : Handlers → (ℕ → Gate) → ℕ → Gate
init_idt h idt = set_gate idt_syscall_pos h.syscall_entry 3 (
    set_gate (irq_start + 1) h.irq1_entry 0 (
      set_gate irq_start h.irq0_entry 0 (
        set_gate (irq_start + 7) h.fake_irq7_entry 0 (
          set_gate 13 h.exception13_entry 0 (
            set_gates h.exception_handler num_exceptions 0
              (set_gates (λ i. h.bogus_interrupt) idt_size 0 idt))))))

abbrev pub set_segment : ℕ → SegmentDescriptor → (ℕ → SegmentDescriptor) → ℕ → SegmentDescriptor
set_segment i d gdt j = if j == i then d else gdt j

-- `sizeof(tss)`: 104 bytes and the 8193 of the I/O map.
abbrev pub tss_size : ℕ
tss_size = 104 + 8193

-- `tss` is the address of the task state segment.
unfoldable pub init_gdt : ℕ → (ℕ → SegmentDescriptor) → ℕ → SegmentDescriptor
init_gdt tss gdt = set_segment tss_index (create_segment tss tss_size tss_segment 0 0 0) (
    set_segment process_data (create_segment 0 1048575 data_segment 3 1 1) (
      set_segment process_code (create_segment 0 1048575 code_segment 3 1 1) (
        set_segment kernel_data (create_segment 0 1048575 data_segment 0 1 1)
          (set_segment kernel_code (create_segment 0 1048575 code_segment 0 1 1) gdt))))
