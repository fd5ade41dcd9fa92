-- ===== src/Lib.antt =====
-- A verification library for MapleKernel, a hobby kernel for the 32-bit protected mode of the x86.
-- It models C sources below src/ProtectedMode of the repository; paths here are relative to that.
--
-- * `Bits` is cpu/gdt/f1_binary_operation.c: a field of bits in a 32-bit word (`getBits`,
--   `setBits`, `generateMask`). `Bits.Field` says what each function does to every binary digit.
-- * `Segment` is cpu/gdt/f3_segment_descriptor_internals.c with the constants of its header: the
--   getters and setters of a segment descriptor, each a call of `Bits`. A descriptor is a record
--   of its two words, and a setter returns the new one.
-- * `Paging` is other/virtual_memory.c. The static arrays are arguments and results: the bitmap of
--   pages is a function from index to byte, the page directory one from index to entry, and
--   memory one from the address of a word to the word. `Paging` holds the allocator,
--   `Paging.Translate` the page tables (`init_paging`, `virt_to_phys`, `phys_to_virt`), and
--   `Paging.Heap` `kmalloc` and `kfree`, which call both.
-- * `Keyboard` is drivers/ps2/keyboard/ps2_keyboard_handler.c and ps2_keyboard_key_functions.c:
--   the interrupt handler in scan code set 1. `Keyboard.Decode` turns bytes into calls of the
--   `parse` functions, `Keyboard.Keys` is what these calls do to the states of the keys, and
--   `keyboard_handler_scs1` joins the two, one byte at a time.
-- * `Strings` is stdlib/string.c: `memcpy`, `memset`, `strcmp` and `strncmp` on a memory that is a
--   function from address to byte. `strcmp` has no bound of its own and runs on fuel: more rounds
--   than its first string has bytes are enough (`Strings.Compare`).
-- * `Pic` is cpu/pic/pic.c: the start and the masks of the two 8259 interrupt controllers. The ports
--   are a parameter, `Ports`. `Pic.Masks.IsPic` is what the data ports of the controllers do with the
--   masks, and `Pic.Remap.IsPair` what the four ports do while the controllers are started.
-- * `Ps2` is the PS/2 controller's driver: ps2_controller.c, ps2_controller.h and
--   ps2_controller_public.h of drivers/ps2/controller, with the two stubs that it calls (acpi.c,
--   usb_controller.c). The hardware is a parameter: the byte that it answers to a read of a port is
--   any function of all accesses so far. A function of the driver takes the hardware and the trace
--   of accesses, and gives a value or an error with the longer trace. `Ps2.Registers` holds ports,
--   error codes and registers, `Ps2.Controller` the waits and commands, `Ps2.Device` the reset of a
--   port, and `Ps2.Setup` the ten steps of `setup_ps2_controller`, one function each. `Ps2.Rules`
--   holds the rules of pre- and postconditions by which `search` goes through the steps, and
--   `Ps2.Polite` the protocol of the controller as a test of traces. `Ps2.Generic` is
--   the deprecated way to send any command by the table of responses. `Ps2.Commands` is
--   drivers/ps2/keyboard/ps2_keyboard.c, the commands to a keyboard, which stand on the controller's.
-- * `Lock` is cpu/multicore/multicore.c, the lock that a core can take again while it holds it, and
--   `Lock.Spin` the spin lock of stdlib/atomic.h. A context, one run of code on a core, stands
--   between two accesses of the word (`Pc`), and a schedule says which context makes its next access
--   and whether a weak exchange fails without a reason. The ids of the cores are a parameter.
--   `Lock.Invariant` is the abstract lock, its holder and depth.
-- * `Terminal` is stdio/vga_terminal.c: the buffer of 1000 lines, the screen of 25, the cursor and
--   the scroll. An access outside of one of the two arrays is `none`.
-- * `Numbers` is stdio/string_helper.c: `strlen`, `uitoa` and `string_to_uint`, on a memory that is a
--   function from address to byte.
-- * `Format` is stdio/bit_hex_string.c, with `uint_to_hex` of stdio/string_helper.c: numbers as
--   hexadecimal and binary digits. The output is the list of characters that go to the terminal;
--   arrays on the stack are parts of the memory, whose content before is arbitrary.
-- * `Symbols` is kernel/symbols.c, the searches in the table of the kernel's symbols, and
--   `find_string_offset` of stdlib/stdlib.c. The linker's table is a parameter.
-- * `Idt` is cpu/idt/idt.c with the gate of cpu/idt/idt.h: the interrupt table, the marks of the
--   vectors that are set up, and the functions that switch an entry on and off.
--   The table of handlers of exception_handler.asm has 49 entries, and one word of memory behind it is
--   a parameter (`isr_stub`).
-- * `Startup` is drivers/ps2/ps2.c and cpu/idt/idt_ps2.c: it joins `Ps2.Setup`, whose end it takes, and
--   `Idt`, whose gates it writes. `Startup.Mouse` is `quick_enable_mouse` of
--   drivers/ps2/mouse/ps2_mouse.cpp, which runs on the hardware as the set-up left it. Other calls of
--   other parts are a list, in order.
--
-- `Base` holds what these share: tests on numbers, arrays as functions, counted loops with their
-- invariant rule, and the laws of single binary digits (`Base.Digit`).
--
-- Machine words are natural numbers with their wrap-around written out (`u8`, `u32`). A shift
-- reads its count modulo 32 as the 80386 does. Loops of the source run on the number of rounds
-- they have left, which starts at the bound of the source (2^20 pages, 1024 entries, 1000 polls of
-- the controller). `uitoa` starts with as many rounds as its value, which has fewer digits, so only
-- `strcmp`, `strlen` and `string_to_uint` have a choice of fuel. An access past the end of an array
-- of the keyboard handler is `none`; in `Paging` memory is one address space, and a store through NULL
-- goes to address 0.
--
-- Not modelled: messages on the terminal and the functions that only print, the processor's control
-- registers, the ports of other devices (`send_eoi` and `set_leds` are events), the wait for the
-- serial port, the set-up of the PS/2 controller without error checks, signed and floating-point
-- numbers as strings, the C++ side of the keyboard (`keycode_handler` is an event with the call's
-- key, modifiers and flags), the choice of the active keyboard, the fields of formatted output,
-- the start of the other cores, and the parts in other languages.
pub mod Base
pub mod Bits
pub mod Segment
pub mod Paging
pub mod Keyboard
pub mod Lock
pub mod Strings
pub mod Pic
pub mod Ps2
pub mod Terminal
pub mod Numbers
pub mod Format
pub mod Symbols
pub mod Idt
pub mod Startup
