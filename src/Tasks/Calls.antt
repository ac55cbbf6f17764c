-- ===== src/Tasks/Calls.antt =====
-- The system calls: what each returns, prints and changes.
use samos.Base.{
  ℕ, zero, suc, ◌+◌, ◌^◌, ◌<◌, ◌≡◌, ◌≢◌, refl, arith, ne→==, ◌++◌, Memory, add64, ◌⊎◌, bytes_from,
}
use samos.Serial.{serial_puts}
use samos.Tasks.{
  Frame, Kernel, iret, write_bytes, minus_one, sam_syscall_handler, sam_interrupt_dispatcher,
}

write_bytes-bytes_from :
    (m : Memory) (buf i n : ℕ)
    → buf + i + n < 2 ^ 64
    → write_bytes m buf i n ≡ serial_puts (bytes_from m (buf + i) n)
unfolding write_bytes serial_puts
write_bytes-bytes_from m buf i zero h = refl
write_bytes-bytes_from m buf i (suc n) h =
    let a : add64 buf i ≡ buf + i = omega arith in
    let b : buf + (i + 1) ≡ buf + i + 1 = omega arith in
    rw (a, write_bytes-bytes_from m buf (i + 1) n (omega arith), b)

-- `write(1, buf, len)` sends the `len` bytes at `buf`, whatever address that is, and returns `len`;
-- nothing else changes. The buffer is not null and does not wrap round the address space.
pub write_prints :
    (m : Memory) (k : Kernel) (f : Frame)
    → f.vector ≡ 128
    → f.rax ≡ 1
    → f.rdi ≡ 1
    → 0 < f.rsi
    → f.rsi + f.rdx < 2 ^ 64
    → sam_interrupt_dispatcher m k f ≡ (
      record k { serial = k.serial ++ serial_puts (bytes_from m f.rsi f.rdx) },
      iret (record f { rax = f.rdx }),
    )
unfolding sam_interrupt_dispatcher sam_syscall_handler
write_prints m k f v a d b w =
    let e = write_bytes-bytes_from m f.rsi 0 f.rdx (omega arith) in
    let z : f.rsi + 0 ≡ f.rsi = omega arith in rw (v, a, d, ne→== f.rsi 0 (omega arith), e, z)

-- A call that fails returns -1 and changes nothing: `write` on a descriptor other than 1 or with a
-- null buffer, and every number that is no system call.
pub bad_call :
    (m : Memory) (k : Kernel) (f : Frame)
    → f.vector ≡ 128
    → ((f.rax ≡ 1) × ((f.rdi ≢ 1) ⊎ (f.rsi ≡ 0))) ⊎ ((f.rax ≢ 1) × (f.rax ≢ 2) × (f.rax ≢ 3))
    → sam_interrupt_dispatcher m k f ≡ (k, iret (record f { rax = minus_one }))
unfolding sam_interrupt_dispatcher sam_syscall_handler
bad_call m k f v bad = ground arith
