-- ===== src/Lib.antt =====
-- Verification library for the jsix kernel and its support libraries.
--
-- The program is a capability-based microkernel. Physical frames come from a bitmap allocator, each
-- processor runs threads from its run queue, blocked threads stand in wait queues, and threads call
-- each other through mailboxes. The kernel log goes through a bip buffer.
--
-- Parts, files and code:
--   Boot/MemoryMap: `build_kernel_map` and `build_frame_blocks` of src/boot/memory_map.cpp, which make
--     the memory map and the blocks that the frame allocator starts with.
--   Kernel/FrameAllocator: src/kernel/frame_allocator.cpp (`allocate`, `free`, `used`) over the
--     `frame_block` of src/libraries/bootproto/include/bootproto/kernel.h. A 64-bit word is a
--     function from bit index to Bool; `tzcnt` is what the instruction of that name returns.
--   Kernel/Threads: the blocking and waking part of src/kernel/objects/thread.cpp, thread.h and
--     kobject.h. All threads stand in a table, so that two queues that hold a thread share it.
--   Kernel/WaitQueue: src/kernel/wait_queue.cpp. Each function has the source's name.
--   Kernel/Mailbox: src/kernel/objects/mailbox.cpp over two wait queues. `call` and `receive` end
--     where the thread blocks; `receive_again` is what `receive` does when it runs again, and
--     `call_enqueue`, `call_notify`, `call_block` are the steps of `call`.
--   Kernel/Event: src/kernel/objects/event.cpp over a wait queue; `wait_enqueue` and `wait_block` are
--     the steps of `wait`.
--   Kernel/Scheduler: src/kernel/scheduler.cpp (`prune`, `check_promotions`, `balance_lists`,
--     `schedule`) and the TCB of src/kernel/objects/thread.h. `charge`, `requeue`, `first_ready` and
--     `switch_to` are the parts of `schedule` in their order. Kernel/Scheduler/Steal has the queues of
--     all processors (`steal_work`, `add_thread`, `maybe_schedule`, the whole `schedule_on`).
--   Kernel/Capabilities: src/kernel/capabilities.cpp and capabilities.h. Rights are bits; the objects
--     behind the capabilities are a table of handle counts. `derive_from`, `retain_found` and
--     `release_found` are what the functions do with what `m_caps.find` returned.
--   Kernel/Process: the handles of processes in src/kernel/objects/process.cpp over Kernel/Capabilities.
--     The set of handles is a list; `add_retained` is what `add_handle` does after `retain`.
--   Kernel/VmSpace: the areas of an address space in src/kernel/vm_space.cpp, over the sizes, spaces
--     and handles of src/kernel/objects/vm_area.cpp. Areas are named by numbers.
--   Kernel/Paging: the iterator of src/kernel/page_table.cpp, and `page_in`, `clear` and `lock` of
--     src/kernel/vm_space.cpp. The interface `Tables` stands for the entries of the last level.
--   Kernel/PageTree: src/kernel/page_tree.cpp over Util/RadixTree and Kernel/FrameAllocator.
--   Kernel/Status: the status values of src/libraries/j6/include/j6/errors.h.
--   Kernel/Heap: src/kernel/heap_allocator.cpp and heap_allocator.h. A pointer is its distance from
--     `m_start`; the block map is a function of the key, the free lists are lists. `split_at`,
--     `merge_once`, `add_free` and `add_used` are rounds and ends of the functions they stand above.
--     Kernel/Heap/Reallocate has the bytes of the blocks in use as well. The heap is below 128 GB,
--     where the 32 bits of a key end.
--   Kernel/Futex: `futex_wait` and `futex_wake` of src/kernel/syscalls/futex.cpp over wait queues.
--   Util/Log: `log2` of src/libraries/util/include/util/util.h.
--   Util/Deque: src/libraries/util/include/util/deque.h over nodes of any size. The wait queues stand
--     on it, and take it as the list that it refines.
--   Util/Vector: src/libraries/util/include/util/vector.h with 32-bit counts; `shift_up`,
--     `shift_down` and `search_sorted` are its loops.
--   Util/BipBuffer: src/libraries/util/bip_buffer.cpp and include/util/bip_buffer.h.
--   Util/RadixTree: src/libraries/util/include/util/radix_tree.h with the parameters of page_tree.cpp,
--     for keys below 2^54; a reference to an entry is a later `put_entry`.
--   Util/Spinlock: src/libraries/util/spinlock.cpp as a step relation: a step is what one thread does
--     up to its next access to the lock or to a waiter that another thread can see.
--   J6/Mutex: `lock` and `unlock` of src/libraries/j6/mutex.cpp, as a step relation: a step is one
--     atomic operation of one thread. `futex_wait` is two, as in src/kernel/syscalls/futex.cpp: it
--     compares, and later joins the queue and sleeps. A `futex_wake` is one.
--   Prelude: Boolean tests, lists, words, bits and association lists that the parts share.
--
-- Failure: `none` is a failed `assert` or `kassert`. Machine integers wrap around as written (64
-- bits for sizes and addresses, 32 for a quantum, 16 for a handle count). Lists stand for the
-- intrusive lists and the deque, association lists for the hash map.
--
-- Fuel: `align_end` is given 22 rounds, and each raises the order that the end of the heap is
-- aligned to, which `max_order` bounds; `bit_length` counts 64 digits; `search_sorted` is given
-- the size, and each round leaves fewer elements. `clear_rounds` is given one more than the length
-- of the queue, and each round takes a thread off it. The loops over blocks and priorities recurse
-- on the number that is left, and `entry_blocks` on the number of blocks that `num_blocks` counts.
--
-- Locks: an operation that holds its lock throughout is one step. The timer, the clock, task
-- switches and interrupts to other processors are arguments or left out, and so are the flushes of
-- cached translations. Not modelled: the tables above the last level of a page table, page faults,
-- threads and exit of processes, devices, the rest of the boot loader, other user programs and the C
-- library.
pub mod Prelude
pub mod Util
pub mod J6
pub mod Kernel
pub mod Boot
