-- ===== src/Lib.antt =====
-- HepOS: the kernel's core, modelled from its sources in kernel/src.
--
-- The kernel boots with a memory map from the boot loader, hands out physical pages, switches
-- between tasks on timer interrupts, decodes the keyboard and the mouse, runs jobs over the
-- network, edits texts, keeps track of user processes, and keeps a filesystem on a block device.
-- Each part is a module:
--
-- Memory (kernel/src/pmm.rs, kernel/src/heap.rs): Memory/Pmm.antt has the page bitmap and the
-- counters as a record Pmm and the functions init, alloc_page, free_page and alloc_contiguous on
-- it; a word of BITMAP is a list of 64 Booleans, bit 0 first. Memory/Pmm/Bits, Counts, Alloc, Runs
-- Boot and Pages hold the lemmas on bits, on the count of clear bits, on the two allocators, on the
-- states that are reached after init, and on the memory map of the boot loader (MemRegion of
-- kernel/src/bootinfo.rs). Memory/Heap.antt is the slab allocator of kernel/src/heap.rs over these
-- pages, with the words of memory as a function from addresses; Memory/Heap/Classes, Lists and
-- Refill are about its size classes and its free lists.
--
-- Sched (kernel/src/scheduler.rs): Sched/Tasks.antt has Task and Task::new; Sched.antt has the
-- scheduler's statics and the registers that a switch writes as a record Kernel, Scheduler::next,
-- and the callers of it: tick, sleep_ms, block_on_irq and exit_current, with spawn, set_current_cr3
-- and wake_irq_waiters. The stack pointer that context_switch saves is an argument of these
-- (`saved`), for the assembly is not modelled. Sched/Next is about the choice of the next task,
-- Sched/Invariant, Parked, Steps, Spawn and Reach about the invariant, Sched/Fair about round-robin
-- order.
--
-- Input (kernel/src/ps2.rs, kernel/src/mouse.rs): Input/Keyboard.antt has the ring of key codes,
-- the decoding of scancodes with its four flags, and poll; the controller's port is the list of the
-- bytes that wait in it. Input/Keyboard/Queue is the bounded queue that the ring implements.
-- Input/Mouse.antt has the packets of the mouse, with an i32 as its 32 bits.
--
-- HepFs (kernel/src/hepfs.rs): the disk is a function from block numbers to blocks (lists of
-- bytes), and an operation is a function of the disk that returns a result and a new disk, or none
-- where the source panics (HepFs/Disk). Each Page takes one of the frames that pmm::alloc_page can
-- still give, and the source panics when none is left; a Page is never given back (HepFs/Frames).
-- HepFs/Bitmap, Inode, Dir, File, Format, Ops and Copy follow the source from bitmap_alloc and
-- bitmap_set up to format, create_file, write_file, remove, rename, move_entry and
-- copy_entry_unique. Bits, Search, Claim, Alloc and Blocks are about the bitmaps, Slices and Table
-- about the inode table, Entries, Find, Slots, Renamed and Rename about directories. HepFs/Bytes
-- and Utf8 have what the source takes from core: little-endian numbers, slices, valid UTF-8.
--
-- Rtc (kernel/src/rtc.rs): Rtc.antt has the date and time of the CMOS clock and their text.
--
-- Net (kernel/src/net.rs): Net.antt has the internet checksum, and the IP, UDP and TCP packets as
-- ip_send, udp_send and tcp_send_seg hand them on, with tcp_parse. A u32 is folded in two rounds.
-- Net/Frames.antt has eth_send, ARP, ICMP and IP up to handle_frame, with the frames handed to the
-- card in a record NetState; Net/Dns.antt parse_ip, the DNS question and parse_dns_answer;
-- Net/Jobs.antt the jobs and the functions that build them, Net/Process.antt process_frame, and
-- Net/Poll.antt start_ping, start_wget, start_udp_cmd and poll. Readings of the time-stamp counter
-- are arguments (Clock), and so is the request that start_wget formats. Net/Echo is about
-- handle_frame and pings, Net/Answer about DNS, Net/Stream about the page that a TCP job collects.
--
-- Editor (kernel/src/editor.rs, kernel/src/clipboard.rs): Editor/Buffer.antt has the state of an
-- editor and its edits at the cursor, Select.antt the selection, the mouse and copying, Find.antt
-- find mode, Keys.antt the arms of on_key, and Editor.antt on_key itself, the clipboard and saving,
-- which calls lookup, create_file and write_file of HepFs. Vec.antt has the methods of Vec that can
-- panic; a function is none where the source panics. ps2::ctrl_held() and ps2::shift_held() are
-- arguments of on_key. Zip, Text, Typing, Writes, Erasing, Erases and Edits are about the text
-- before and after the cursor, Ranges, Cutting and Pasting about the text between two positions,
-- Valid, Moves, Keeps, Steps and Safety about the positions that stay on the text, Matches about
-- the search, Opened about a file that is opened, and Stale about an anchor that is left behind.
--
-- Process (kernel/src/process.rs): Process.antt has the captured output (PROC_OUT), the process
-- table with its lookups, and map_mmio_for_user. exec_blocking is take_proc_output, begin_exec and
-- end_exec, the code before and behind its call of run_elf; the slot of a task keeps its fields
-- user_running and mmio_next_va. Process/Output, Registry and Mapped are about these three.
--
-- Paging (kernel/src/paging.rs): Paging.antt has get_or_make_user and map_page_current_user. The
-- tables of four levels are a tree: an entry holds the table that it points to, where the source
-- has its address, and a missing table takes a frame. The indices of 9 bits and the bits of an
-- entry are the source's. Paging/Walk has the processor's walk, that takes an address to a physical
-- one.
--
-- Machine integers: u64 sums and differences that the source leaves unchecked are taken mod 2 ^ 64
-- (Prelude/U64). Loops of a fixed number of rounds recur on the rounds left. Fuel: find_ready gets
-- one round for each task, as the source's loop does; find_run one round for each page; copy_entry
-- has the nesting depth of directories as an argument, since the source recurses without a bound,
-- and fails as a panic at depth 0. The loops over the names in a DNS answer have as many rounds as
-- the answer has bytes, for each round goes at least one byte on. The rows and columns of an editor
-- do not wrap.
--
-- Not modelled: assembly (context_switch, task_trampoline, enter_ring3, the swapgs pairs), the ELF
-- loader, the mappings of the kernel itself (map_page, map_mmio) and invlpg, the blocking reads and
-- the initialisation of the keyboard, the set-up of the mouse, the wait for the clock, the drawing
-- of the editor and the opening of its windows, the network cards, the choice of the block device
-- of HepFS, a UDP message of 65528 bytes or more, whose length does not fit and makes udp_send
-- panic; and the other parts of the kernel, the boot loader and the user programs, which are
-- drivers, drawing, assembly and the shells around these parts.
pub mod Prelude
pub mod Memory
pub mod Sched
pub mod Input
pub mod Editor
pub mod HepFs
pub mod Rtc
pub mod Net
pub mod Paging
pub mod Process
