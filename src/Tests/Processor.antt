-- ===== src/Tests/Processor.antt =====
-- The processor's tables of cos318-project6/kernel.c with made-up addresses of handlers.
use operativsystemer.Base.{◌+◌, ◌*◌, ◌≡◌, refl, arith}
use operativsystemer.Descriptors.{
  Handlers, Gate, SegmentDescriptor, init_idt, init_gdt, create_segment, create_gate, code_segment,
  data_segment, kernel_data, process_cs, process_ds, tss_index, tss_segment, tss_size,
}
use operativsystemer.Descriptors.Entry.{
  Enters, Flat, handler_of, segment_of, segment_base, last_byte, kind, init_idt-Enters,
  init_gdt-Flat,
}

abbrev handlers : Handlers
handlers = record {
  bogus_interrupt = 36864;
  exception_handler = λ i. 40960 + i * 16;
  exception13_entry = 45056;
  fake_irq7_entry = 45072;
  irq0_entry = 45088;
  irq1_entry = 45104;
  syscall_entry = 4026531840;
}

abbrev no_gate : Gate
no_gate = record { offset_low = 0; selector = 0; count = 0; access = 0; offset_high = 0 }

abbrev no_segment : SegmentDescriptor
no_segment = record {
  limit_low = 0;
  base_low = 0;
  base_mid = 0;
  access = 0;
  limit_high = 0;
  base_high = 0;
}

init_idt-Enters_example :
    Enters
      (init_idt handlers (λ j. no_gate) 48)
      (init_gdt 305419896 (λ j. no_segment))
      (handler_of handlers 48)
      3
unfolding handler_of
init_idt-Enters_example =
    init_idt-Enters handlers (λ j. no_gate) 305419896 (λ j. no_segment) 48 (omega arith)
      (omega arith)

init_gdt-Flat_example :
    Flat (segment_of (init_gdt 305419896 (λ j. no_segment)) (process_cs + 3)) code_segment 3
    × Flat (segment_of (init_gdt 305419896 (λ j. no_segment)) (process_ds + 3)) data_segment 3
    × Flat (segment_of (init_gdt 305419896 (λ j. no_segment)) (kernel_data * 8)) data_segment 0
    × (segment_base (segment_of (init_gdt 305419896 (λ j. no_segment)) (tss_index * 8)) ≡ 305419896)
    × (last_byte (segment_of (init_gdt 305419896 (λ j. no_segment)) (tss_index * 8)) ≡ tss_size)
    × (kind (segment_of (init_gdt 305419896 (λ j. no_segment)) (tss_index * 8)).access
        ≡ tss_segment)
init_gdt-Flat_example = init_gdt-Flat 305419896 (λ j. no_segment) (omega arith)

-- The bytes of the descriptor of the kernel's code are those of the manual's flat segment.
flat_code : create_segment 0 1048575 code_segment 0 1 1 ≡ record {
  limit_low = 65535;
  base_low = 0;
  base_mid = 0;
  access = 154;
  limit_high = 207;
  base_high = 0;
}
unfolding create_segment
flat_code = refl

keyboard_gate : init_idt handlers (λ j. no_gate) 33 ≡ create_gate 45104 8 14 0
unfolding init_idt
keyboard_gate = refl
