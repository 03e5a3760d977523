-- ===== src/Tests/Starts.antt =====
-- kernel.c of cos318-project6 makes two threads and a process on a table of pcbs at 5000.
use operativsystemer.Base.{◌+◌, ◌≡◌, refl, false, some, [], arith}
use operativsystemer.Memory.{Memory}
use operativsystemer.Spawn.{System, Pcb, init_pcb_table, create_threads, stack_min}
use operativsystemer.Spawn.Created.{IsStarted, as_process, with_image}
use operativsystemer.Spawn.Start.{pcbs, init_pcb_table-IsStarted, create_threads-pcbs}
use operativsystemer.Tests.Pages.{Contents, plain_disk, full}
use operativsystemer.Tests.Threads.{start}

abbrev blank_pcb : Pcb
blank_pcb = record {
  pid = 0;
  user_stack = 0;
  kernel_stack = 0;
  base_kernel_stack = 0;
  disable_count = 0;
  preempt_count = 0;
  nested_count = 0;
  start_pc = 0;
  cs = 0;
  ds = 0;
  first_time = false;
  priority = 0;
  int_controller_mask = 0;
  in_v86 = 0;
  v86_if = 0;
}

abbrev booting : System Contents
booting = record {
  machine = start;
  memory = record full { dole_ptr = 2 };
  pcb = λ p. blank_pcb;
  next_pid = 0;
  next_stack = stack_min;
}

abbrev listed : System Contents
listed = record booting { machine = init_pcb_table 5000 start }

create_threads-pcbs_example :
    (t : System Contents) × (create_threads plain_disk (λ i. 40000 + i) 2 0 listed ≡ some t)
    × IsStarted t (pcbs 2 5000) (pcbs 126 5232)
create_threads-pcbs_example =
    create_threads-pcbs plain_disk (λ i. 40000 + i) 2 5000 booting (omega arith) (omega arith) refl
      refl

abbrev image_memory : Memory Contents
image_memory = with_image (as_process 100 9) 5000 listed.memory

-- A system in which all 80 stacks were given out.
abbrev spent : System Contents
spent = record listed { next_pid = 80; next_stack = 524288 }

spent-IsStarted : IsStarted spent [] (pcbs 128 5000)
spent-IsStarted =
    let fresh : IsStarted listed [] (pcbs 128 5000) =
      init_pcb_table-IsStarted 5000 booting (omega arith) refl refl in
    record {
      ring = fresh.ring;
      list = fresh.list;
      apart = fresh.apart;
      stacks = refl;
      numbered = record {
        below = λ p h. absurd (ground arith);
        own_stack = λ p h. absurd (ground arith);
        own_pid = λ p q h. absurd (ground arith);
      };
    }
