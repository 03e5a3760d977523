-- ===== src/Tests/Guest.antt =====
-- The virtual 8086 mode of cos318-project6 with a program of two instructions.
use operativsystemer.Base.{◌≡◌, refl, true, some, [], arith}
use operativsystemer.V86.{V86, Outcome, resumes, carry_out, gpf_handler, gpf_loop, int_n, pushed}
use operativsystemer.V86.Guest.{KeepsGuest, gpf_handler-KeepsGuest}
use operativsystemer.Text.{Cells, put}

-- An interrupt with number 0 at 0x100; its handler is one instruction, the return, at 0x200.
abbrev program : Cells
program = put (put (put (λ a. 0) 1 2) 0x100 0xcd) 0x200 0xcf

abbrev before : V86
before = record {
  edx = 0;
  eax = 0;
  eip = 0x100;
  cs = 0;
  eflags = 0x20202;
  esp = 0x1000;
  ss = 0;
  v86_if = true;
  memory = program;
  out = [];
}

-- The handler of the program, at its return.
abbrev inside : V86
inside = record before { eip = 0x200; esp = 0xffa; memory = pushed before }

gpf_handler_run : gpf_handler 1 0 before ≡ some (resumes (record inside { cs = 0 }))
unfolding gpf_handler gpf_loop carry_out int_n
gpf_handler_run = refl

gpf_handler-KeepsGuest_example :
    (r : Outcome) × (gpf_handler 1 0 before ≡ some r) × KeepsGuest before.eflags 0xcd r
gpf_handler-KeepsGuest_example =
    gpf_handler-KeepsGuest 1 0 0 before refl (omega arith) ((λ j h. absurd (omega arith)), refl)
