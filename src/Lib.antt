-- ===== src/Lib.antt =====
-- SAM OS kernel: a model of the C code under kernel/ and proofs of what makes it correct.
--
-- The kernel boots from GRUB, registers memory domains, finds an initrd, and runs ELF programs from
-- it in ring 3, one at a time or two side by side under a timer. Parts and files:
--
-- - Base: numbers, words of 8 to 64 bits with their wrap-around, lists as C arrays, byte-addressed
--   memory, and the lemmas that all parts share.
-- - Elf (kernel/elf.h): `elf_load_in` and `elf_load`. The image and the destination are one
--   memory, and the program header is read anew in each round, so that a segment that overwrites
--   the image is modelled too, but once in a round, while the code reads the sizes again for each
--   byte. Memory has no end, while the kernel maps the first 4 GiB: a header whose sums wrap faults
--   there. Elf/Contents: what a load leaves in memory. Elf/Safety: what it
--   leaves alone. Elf/Breach: the input for which it does not.
-- - Vmm (kernel/vmm.h): the pool of page-table pages and `vmm_create_user_as_at`. Vmm/Walk is the
--   processor's page walk, the specification; Vmm/Isolation relates the two.
-- - Serial (kernel/main.c): the bytes that `serial_puts`, `serial_puthex` and `serial_putdec` send.
-- - Tasks (kernel/syscall.h, and the await loop of `sam_run_pair` in kernel/main.c): the resident
--   task table, the timer's round-robin, the system calls. An interrupt is a function of the
--   globals and the saved frame into an `Outcome`. Tasks/Switch: preemption. Tasks/Ended: the end
--   of a task. Tasks/Calls: the system calls. Tasks/Invariant: the table stays well-formed.
-- - Vfs (kernel/vfs.h): the file table over a ustar archive, lookup, open, read and close.
--   Vfs/Archive says what an archive is. Pointers into the archive are offsets.
-- - Kbd (kernel/ps2kbd.h): the ring buffer between interrupt and reader, the scancode tables, the
--   line reader. Kbd/Fifo relates them to a queue of at most 63 characters.
-- - Domains (kernel/main.c, kernel/boot_config.h): the domain table of `domain_alloc`, and the
--   layout that `compute_domain_sizes` gives.
-- - Args (`sam_build_args` in kernel/main.c): the stack of a program that starts with arguments.
--   Words and Strings: what lies in memory. Stack: the whole.
-- - Run (`sam_run_task` and `sam_run_pair` in kernel/main.c): how the parts start a program. The
--   steps of each function are functions of the state, each called with what the one before it
--   returned, up to the entry into ring 3. Staged: loading an image. Pair and Task: what holds at that entry.
-- - Idt (kernel/idt.h): the gates that `idt_init` sets. Gates: what the processor reads from them.
-- - Stf (kernel/stf.h): the index over a tensor file. Format: what a model file is. Load: which
--   files are accepted, and bounds.
--   Find: lookup by name. Half: the fp16 conversion. Block: quantised blocks.
-- - Acpi (kernel/acpi.h): the tables in physical memory. Signature: what an RSDP
--   is. Rsdp: the search. Madt: the processors.
-- - Mcp (kernel/mcp.h): the probe, `sam_mcp_scan`. Profile: `sam_mcp_t`, memory map and framebuffer
--   tag. Cpu: CPUID. Pci: the recursive bus scan, whose recursion is an argument of the functions
--   below `_pci_scan_bus`. Ends: that it ends; Visited: its bitmap.
-- - Fb (kernel/fb.h): the framebuffer as a memory of pixels, with its font. Fill: rectangles. Ink:
--   the bits of the font. Glyph: text. Init: the boot information.
-- - Pong (kernel/game.h): the game, with `int32_t` as 32-bit words. Field: its invariant.
-- - Sched (kernel/scheduler.h): the cooperative scheduler of the three domains, with the work
--   functions as a parameter.
-- - Config (kernel/boot_config.h): the structure at 0x7000 and its reader.
-- - Shell (kernel/shell.h): the console on the text screen or in pixels. Words: the words of a
--   command line. Eval: the commands, with what `sam_run_task` and the wizard do as an argument.
--   Keys: the line editor, the history and the main loop over a list of keyboard events.
--   Cells and Console: writes stay on the screen. Keys/Invariant: the state stays in its buffers.
--   Keys/Recall: the history. Keys/Caps: the caps lock. Setup: the wizard of this model as that
--   argument.
-- - Simd (kernel/simd.h): the int8 dot product, scalar and in SSE4.2 registers, and the matrix
--   product, with the intrinsics as a parameter. Lanes: what the intrinsics are documented to do.
--   Dot: the kernels agree. Saturation: the inputs for which they do not. Matmul: the product.
-- - Wizard (kernel/wizard.h): the first-boot wizard over a list of scancodes. Draw: the drawing
--   routines; a screen is the list of its drawing calls, in Screens. Field: the input fields.
--   Handoff: what the wizard leaves at 0x7000. Safety: it writes on the screen only.
-- - Vga (kernel/main.c): the text console of the boot. Inside: it writes on the screen only.
--
-- How they interact: Run reads a program from the VFS, has Elf load it into the window of user
-- memory, has Vmm build its address space and Args its stack, and enters it; its interrupts go
-- through the gates of Idt to Tasks, which prints through Serial. Acpi and Mcp look at the machine
-- before that, Fb draws, Stf serves models to the AI domain and Simd multiplies its matrices. On the
-- first boot Wizard draws with Fb and writes the layout of Domains into Config, which the kernel
-- reads; Shell shows it, starts the wizard again and has Run start programs. Kbd, Sched and Pong
-- stand beside these.
--
-- Fuel: the loop of `elf_load_in` has 65536 rounds, more than a 16-bit `e_phnum` can ask for. The
-- loop of `vfs_init` has one round more than the archive has blocks, and each round moves on by at
-- least one block. The PCI scan has a depth of 257, one more than there are buses, each of which is
-- entered once. The loops over ACPI tables have as many rounds as the table has bytes. The loops
-- over boot information tags have no bound in the code, and their fuel is an argument. The vector
-- loop over n bytes has n rounds, and each moves on by 16. The loops of the shell and of the wizard
-- go over the list of the keys. The other loops are structural.
--
-- Not modelled: the assembly (kernel/boot.asm, kernel/userasm.asm, the interrupt stubs), whose
-- entry into ring 3 is an outcome; port I/O, of which only the bytes sent to the serial port, the
-- words sent to the display device and the scancodes read are kept, while what CPUID, the PCI
-- configuration ports and the display device answer is a parameter; the boot page tables, whose
-- address is a parameter; the panic screen (kernel/panic.h); in kernel/simd.h the AVX2 kernel, which
-- the build does not compile; kernel/ata.h and kernel/pit.h, which are port I/O; in kernel/game.h the
-- set-up of the hardware and the loop of `sam_game_run`; in kernel/main.c what follows the return of
-- a single task, and all of `kernel_main` but the order in which it registers the domains; the test
-- programs under user/ and the scripts under tools/.
pub mod Base
pub mod Elf
pub mod Vmm
pub mod Serial
pub mod Tasks
pub mod Vfs
pub mod Kbd
pub mod Domains
pub mod Sched
pub mod Stf
pub mod Fb
pub mod Mcp
pub mod Pong
pub mod Acpi
pub mod Idt
pub mod Args
pub mod Run
pub mod Config
pub mod Shell
pub mod Simd
pub mod Wizard
pub mod Vga
