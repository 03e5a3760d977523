-- ===== src/V86/Guest.antt =====
-- The flags of the processor behind an instruction that gpf_handler carried out.
use operativsystemer.Base.{
  ℕ, zero, suc, ◌+◌, ◌%◌, ◌^◌, ◌<◌, ◌≡◌, ◌≢◌, refl, sym, subst, Bool, true, false, ◌||◌, some,
  arith, ◌==◌, if◌then◌else◌, Bool-cases, inl, inr,
}
use operativsystemer.Text.{Cells}
use operativsystemer.V86.{
  V86, Outcome, resumes, leaves, dumps, carry_out, eflag_if, eflag_vm, gpf_handler, gpf_loop,
  guest_flags, has_flag, int_n, iret, linear, popf, pushed, pushf, read16, read32, skip,
  valid_flags,
}

-- The flags of the processor in `w`, where they were `flags` before.
pub record IsGuest (flags : ℕ) (w : V86) : Type 0 where
  pub virtual : has_flag w.eflags eflag_vm ≡ true
  pub interruptible : has_flag flags eflag_if ≡ true → has_flag w.eflags eflag_if ≡ true

-- The instructions after which the program goes on: pushf, popf, int, iret, cli, sti, in, and both forms
-- of out.
abbrev pub is_handled : ℕ → Bool
is_handled op =
    (op == 0x9c)
    || (op == 0x9d)
    || (op == 0xcd)
    || (op == 0xcf)
    || (op == 0xfa)
    || (op == 0xfb)
    || (op == 0xec)
    || (op == 0xee)
    || (op == 0xef)

-- What the instruction `op` ends with: only hlt leaves virtual 8086 mode.
abbrev pub KeepsGuest : ℕ → ℕ → Outcome → Type 0
KeepsGuest flags op (resumes w) = (is_handled op ≡ true) × IsGuest flags w
KeepsGuest flags op (leaves w) = op ≡ 0xf4
KeepsGuest flags op dumps = (is_handled op ≡ false) × (op ≢ 0xf4)

guest_flags-has :
    (x : ℕ)
    → x < 2 ^ 16
    → (has_flag (guest_flags x) eflag_vm ≡ true) × (has_flag (guest_flags x) eflag_if ≡ true)
guest_flags-has x h = ground arith

popf-IsGuest : (f : ℕ) (o : Bool) (v : V86) → IsGuest f (popf o v)
unfolding popf
popf-IsGuest f true v =
    let (a, b) =
      guest_flags-has (valid_flags (read32 v.memory (linear v.ss v.esp))) (ground arith) in
    record { virtual = a; interruptible = λ e. b }
popf-IsGuest f false v =
    let (a, b) = guest_flags-has (read16 v.memory (linear v.ss v.esp)) (omega arith) in
    record { virtual = a; interruptible = λ e. b }

iret-IsGuest : (f : ℕ) (v : V86) → IsGuest f (iret v)
unfolding iret
iret-IsGuest f v =
    let (a, b) = guest_flags-has (read16 v.memory (linear v.ss v.esp + 4)) (omega arith) in
    record { virtual = a; interruptible = λ e. b }

pushf-IsGuest : (f : ℕ) (o : Bool) (v : V86) → IsGuest f v → IsGuest f (pushf o v)
unfolding pushf
pushf-IsGuest f true v g = record { virtual = g.virtual; interruptible = g.interruptible }
pushf-IsGuest f false v g = record { virtual = g.virtual; interruptible = g.interruptible }

int_n-IsGuest : (f n : ℕ) (v : V86) → IsGuest f v → IsGuest f (int_n n v)
unfolding int_n
int_n-IsGuest f n v g = record { virtual = g.virtual; interruptible = g.interruptible }

either :
    (f op : ℕ) (b : Bool) (x y : Outcome)
    → (b ≡ true → KeepsGuest f op x)
    → (b ≡ false → KeepsGuest f op y)
    → KeepsGuest f op (if b then x else y)
either f op true x y p q = p refl
either f op false x y p q = q refl

carry_out-KeepsGuest :
    (f given ip : ℕ) (o : Bool) (v : V86)
    → IsGuest f v
    → KeepsGuest f (v.memory ip % 256) (carry_out given ip o v)
unfolding carry_out
carry_out-KeepsGuest f given ip o v g =
    either f op (op == 0x9c) _ _ (λ e. (ground (arith, e), pushf-IsGuest f o v g))
      (λ n0.
        either f op (op == 0x9d) _ _ (λ e. (ground (arith, e), popf-IsGuest f o v))
          (λ n1.
            either f op (op == 0xcd) _ _
              (λ e. (ground (arith, e), int_n-IsGuest f (pushed v (ip + 1) % 256) v g))
              (λ n2.
                either f op (op == 0xcf) _ _ (λ e. (ground (arith, e), iret-IsGuest f v))
                  (λ n3.
                    either f op (op == 0xfa) _ _
                      (λ e. (
                        ground (arith, e),
                        record { virtual = g.virtual; interruptible = g.interruptible },
                      ))
                      (λ n4.
                        either f op (op == 0xfb) _ _
                          (λ e. (
                            ground (arith, e),
                            record { virtual = g.virtual; interruptible = g.interruptible },
                          ))
                          (λ n5.
                            either f op (op == 0xec) _ _
                              (λ e. (
                                ground (arith, e),
                                record { virtual = g.virtual; interruptible = g.interruptible },
                              ))
                              (λ n6.
                                either f op (op == 0xee) _ _
                                  (λ e. (
                                    ground (arith, e),
                                    record { virtual = g.virtual; interruptible = g.interruptible },
                                  ))
                                  (λ n7.
                                    either f op (op == 0xef) _ _
                                      (λ e. (
                                        ground (arith, e),
                                        record {
                                          virtual = g.virtual;
                                          interruptible = g.interruptible;
                                        },
                                      ))
                                      (λ n8.
                                        either f op (op == 0xf4) _ _ (λ e. ground (arith, e))
                                          (λ n9. (ground arith, ground arith)))))))))))
  where
    op : ℕ
    op = v.memory ip % 256

-- A byte that is a prefix of an instruction.
abbrev pub is_prefix : ℕ → Bool
is_prefix b = (b % 256 == 0x66) || (b % 256 == 0x67)

-- The first `k` bytes from `ip` on are prefixes, and the next one is none.
abbrev pub Prefixed : Cells → ℕ → ℕ → Type 0
Prefixed m ip k =
    ((j : ℕ) → j < k → is_prefix (m (ip + j)) ≡ true) × (is_prefix (m (ip + k)) ≡ false)

Prefixed-next : (m : Cells) (ip k : ℕ) → Prefixed m ip (suc k) → Prefixed m (ip + 1) k
Prefixed-next m ip k (before, at) = (
  (λ j h. subst (λ a. is_prefix (m a) ≡ true) (omega arith) (before (j + 1) (omega arith))),
  subst (λ a. is_prefix (m a) ≡ false) (omega arith) at,
)

gpf_loop-KeepsGuest :
    (f fuel given ip k : ℕ) (o : Bool) (v : V86)
    → IsGuest f v
    → k < fuel
    → Prefixed v.memory ip k
    → (r : Outcome) × (gpf_loop fuel given ip o v ≡ some r)
      × KeepsGuest f (v.memory (ip + k) % 256) r
unfolding gpf_loop
gpf_loop-KeepsGuest f zero given ip k o v g h p = absurd (omega arith)
gpf_loop-KeepsGuest f (suc fuel) given ip zero o v g h p =
    let at : ip ≡ ip + 0 = omega arith in
    let here : is_prefix (v.memory ip) ≡ false =
      subst (λ a. is_prefix (v.memory a) ≡ false) (sym at) p.1 in
    let not_o32 : (v.memory ip % 256 == 0x66) ≡ false = ground arith in
    let not_a32 : (v.memory ip % 256 == 0x67) ≡ false = ground arith in
    (
      carry_out given ip o v,
      rw (not_o32, not_a32),
      subst (λ a. KeepsGuest f (v.memory a % 256) (carry_out given ip o v)) at
          (carry_out-KeepsGuest f given ip o v g),
    )
gpf_loop-KeepsGuest f (suc fuel) given ip (suc k) o v g h p =
    let next : V86 = record v { eip = skip v 1 } in
    let kept : IsGuest f next = record { virtual = g.virtual; interruptible = g.interruptible } in
    let p' : Prefixed v.memory (ip + 1) k = Prefixed-next v.memory ip k p in
    let first : is_prefix (v.memory ip) ≡ true =
      subst (λ a. is_prefix (v.memory a) ≡ true) (omega arith) (p.0 0 (omega arith)) in
    let (r, e, q) = gpf_loop-KeepsGuest f fuel given (ip + 1) k true next kept (omega arith) p' in
    let (r', e', q') = gpf_loop-KeepsGuest f fuel given (ip + 1) k o next kept (omega arith) p' in
    let at : ip + 1 + k ≡ ip + suc k = omega arith in
    elim (Bool-cases (v.memory ip % 256 == 0x66)) [
      | inl o32 ↦ (r, rw o32 e, subst (λ a. KeepsGuest f (v.memory a % 256) r) at q)
      | inr not_o32 ↦
          let a32 : (v.memory ip % 256 == 0x67) ≡ true = ground arith in
          (r', rw (not_o32, a32) e', subst (λ a. KeepsGuest f (v.memory a % 256) r') at q')
    ]

-- For a program in virtual 8086 mode and an instruction behind `k` prefixes, where the fuel is more than
-- `k`: gpf_handler ends. It returns to the program exactly behind the nine instructions that it
-- carries out, and then, whatever the stack of the program, the flags have virtual 8086 mode still on,
-- and the interrupts of the processor on if they were on before; it leaves virtual 8086 mode exactly for
-- hlt, and stops the machine for any other instruction.
pub gpf_handler-KeepsGuest :
    (fuel given k : ℕ) (v : V86)
    → has_flag v.eflags eflag_vm ≡ true
    → k < fuel
    → Prefixed v.memory (linear v.cs v.eip) k
    → (r : Outcome) × (gpf_handler fuel given v ≡ some r)
      × KeepsGuest v.eflags (v.memory (linear v.cs v.eip + k) % 256) r
unfolding gpf_handler
gpf_handler-KeepsGuest fuel given k v vm h p =
    let (r, e, q) =
      gpf_loop-KeepsGuest v.eflags fuel given (linear v.cs v.eip) k false v
        (record { virtual = vm; interruptible = λ on. on }) h p in
    (r, rw vm e, q)
