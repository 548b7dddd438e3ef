-- ===== src/Lib.antt =====
-- A model of LibVMI's access to guest memory, from an access context to the bytes of a guest, and
-- of the events that a program registers for a guest.
--
-- vmi_read and vmi_write (libvmi/read.c, libvmi/write.c) turn a context into a page table, a page
-- mode and a start address, translate each page of the range, and copy. The translation asks the
-- walk of the page mode (libvmi/arch), which reads page table entries by vmi_read through a
-- physical context, and remembers results in the caches (libvmi/cache.c). Pages come from a
-- driver, here that of a memory image (libvmi/driver/file/file.c), through the page cache
-- (libvmi/driver/memory_cache.c). Events (libvmi/events.c) are kept in tables of the instance, and
-- a registration that needs the driver asks it before it enters a handler.
--
-- The files, and the code they are about:
-- - Common, Common/Lists, Common/Tests: tests on unsigned words, lists by native numbers; Bits,
--   Bits/Digits: VMI_BIT_MASK and VMI_GET_BIT of libvmi/libvmi.h in arithmetic.
-- - Types, PageMode, PageSize: libvmi/libvmi.h and libvmi/private.h. vmi_instance's fields that
--   only configuration sets are the record Conf.
-- - Arch/Entry, Arch/Steps: libvmi/x86.h, and the shape of a walk: a Step is a function of the
--   page_info_t and of the state of the machine that ends at the first failure, as `goto done`
--   does. Arch/Radix is the independent description of a walk. Arch/Modes:
--   libvmi/arch/arch_interface.c, the page mode from the registers.
-- - Arch/Intel: v2p_nopae and v2p_pae of libvmi/arch/intel.c; Arch/Amd64: v2p_ia32e of
--   libvmi/arch/amd64.c; Arch/Arm: v2p_aarch32 and v2p_aarch64 of libvmi/arch/arm_aarch32.c and
--   arm_aarch64.c. Functions have the names of the source; Arch/Amd64/Pages and Arch/Intel/Pages
--   are the listings of mapped pages, get_pages_ia32e, get_pages_nopae and get_pages_pae, whose
--   loops share Arch/Pages; Arch/Amd64/Listed puts the first against v2p_ia32e. at_pte, at_pde and
--   so on are the parts of one function's body, from the last level up.
-- - Cache: libvmi/cache.c. Cache/Table is the interface of glib's GHashTable, a parameter with its
--   documented laws, and Cache/Assoc fills it. Keys, Pid, Sym, Rva and V2p are the keys and the
--   four caches. Cache/Memory: libvmi/driver/memory_cache.c with ENABLE_PAGE_CACHE.
-- - Access: libvmi/read.c's vmi_read and libvmi/write.c's vmi_write; Access/Sized has their
--   functions of a fixed width, and Access/Sized/RoundTrip what is read after a write.
--   Access/Strings: vmi_read_str. Access/Lookup: the lookups of libvmi/accessors.c, through the
--   cache of translations. Access/Env is what reads and writes call; Access/Window and
--   Access/Paging say what memory is when a range can be translated.
-- - Access/Translate: the translations of processes and symbols in libvmi/accessors.c, through the
--   three caches of these, over the functions of an operating system; what these may change is the
--   state.
-- - Os: the process lists of libvmi/os/linux/memory.c (Os/Linux) and libvmi/os/freebsd/memory.c
--   (Os/Freebsd), and the exports of PE images in libvmi/os/windows/peparse.c (Os/Windows: Peparse
--   is about headers in a buffer, Names about strcmp and strncmp, Exports about the table and its
--   searches). Os/Kernel has what they share; an offset kept in an int is added as an addr_t.
-- - Driver/File: libvmi/driver/file/file.c, a memory image in a file, on lseek and read as
--   parameters, with Cache/Memory behind it; Driver/File/Reads puts vmi_read_pa on top.
-- - Events: libvmi/events.c and libvmi/events.h. The state is the record Vmi, with a store of the
--   events that pointers point to, and the driver is the parameter EventDriver. Events/Register,
--   Events/Clear, Events/Memory and Events/Stepping have the calls, `handler` is the view of all
--   the tables as slots, and Events/Steps is the relation of the calls a program makes.
-- - StrMatch: libvmi/strmatch.c, with the integers that go down to -1 in the source one higher,
--   and for a pattern and a text whose lengths add up to less than an int can hold.
--   StrMatch/Suffixes and StrMatch/Shifts are about its tables, StrMatch/Safe about what a shift
--   passes over, StrMatch/Laws about the search.
-- - Tests: runs of the model, and instances of the parameters.
--
-- Numbers are native. Addresses and entries are unsigned, with the wrap-around to 32 or 64 bits
-- written out where the code can meet it; a failed read is `none`. ENABLE_SAFETY_CHECKS and
-- ENABLE_ADDRESS_CACHE are on. The page walks call vmi_read and vmi_nested_pagetable_lookup
-- through the record Machine; vmi_read and vmi_write call the lookup, the driver and the
-- translations of names and processes through the record Env. The state type is a parameter of
-- both: it is what those calls change.
--
-- The loops of vmi_read and vmi_write run on fuel, and the fuel is the number of bytes: each round
-- that succeeds moves at least one byte, because the offset in a page is below its size. The
-- theorems on them give a success, so that the fuel is enough under their conditions. The search
-- of libvmi/strmatch.c has two rounds more than the text has bytes, and its theorem shows that it
-- ends within them. The loop of vmi_read_str runs on fuel that is an argument, and `none` is a
-- loop that has not ended. The loops over lists of processes run on fuel too, of which a
-- well-formed list takes a round for each process; the binary search of an export table takes one
-- more than the logarithm of the number of names. The sum of its bounds is an int: one that does
-- not fit is undefined, which is `none`, as is a read outside the buffer of a PE image. An index
-- beyond the 32 counters of step_vcpus is undefined too, and is noted in the member in_bounds; a
-- shift by the number of a vcpu is taken modulo 32, which is what x86 does where C leaves it
-- undefined. The listings of pages suppose that there is memory for what they list.
--
-- Not modelled: debug output, destruction of tables, hypervisor drivers and the work they do on
-- events that are put off, strings in Unicode, kernels' structures apart from the lists above,
-- configuration files and profiles.
pub mod Common
pub mod Driver
pub mod Events
pub mod StrMatch
pub mod Bits
pub mod Os
pub mod PageMode
pub mod PageSize
pub mod Types
pub mod Arch
pub mod Cache
pub mod Access
pub mod Tests
