-- ===== src/Lib.antt =====
-- A model of uPCIe (include/upcie): user-space NVMe driving over hugepage memory.
--
-- Bitfield.antt is include/upcie/bitfield.h. Hostmem models the hugepage memory: Hostmem/Types.antt
-- has the structs of hostmem_config.h, hostmem_hugepage.h and hostmem_heap.h, Hostmem/Dma.antt the
-- translation `hostmem_dma_v2p` of hostmem_dma.h, Hostmem/Heap.antt the release of blocks and the
-- other translations of hostmem_heap.h, Hostmem/Heap/Alloc.antt its allocation of blocks,
-- Hostmem/Heap/Init.antt its set-up and tearing down, and Hostmem/Dma/Memory.antt the interface of
-- hostmem_dma.h to these. Hostmem/Hugepage.antt is hostmem_hugepage.h and Hostmem/Pagemap.antt the
-- look-up of hostmem.h in the page map. Pci.antt is pci.h, with the addresses and their text in
-- Pci/Addr.antt. The system calls that these make are the record `Os` of Os.antt; Os/Held.antt says
-- what POSIX has them do to the open files and the mappings of a process, and that a path is gone
-- once it is unlinked. Nvme models include/upcie/nvme: Nvme/Command.antt the command and completion
-- of nvme_command.h, Nvme/Qid.antt the queue identifiers of nvme_qid.h, Nvme/Request.antt the pool
-- of requests of nvme_request.h, and Nvme/Prps.antt with its children the PRP builders there. A
-- builder takes addresses of the hugepage heap and translates them with `hostmem_dma_v2p`;
-- Nvme/Prps/Window.antt is the interface between the two, and Nvme/Prps/Host.antt fills it with the
-- heap's own translation. Nvme/Prps/Device.antt is the reading of the PRP fields by a controller,
-- taken from the NVMe specification and not from the code. Mmio.antt is mmio.h, with the device and
-- the memory shared with it as a parameter, the record `Device`. Nvme/Prps/Iov.antt is the builder
-- for an iovec. Nvme/Cap.antt, Nvme/Cc.antt and Nvme/Registers.antt are nvme_mmio.h: the fields of
-- CAP, the fields of CC, and the accesses to the registers. Nvme/Qpair.antt is nvme_qpair.h; it
-- takes requests from the pool, lets a builder fill in the command, and talks to the device.
-- Nvme/Qpair/Setup.antt is its set-up and tearing down, over the heap and Nvme/Request/Pages.antt,
-- which gives each request of a pool a page. Nvme/Controller.antt is nvme_controller.h, over the
-- functions and BARs of Pci.antt, the registers, the queue identifiers, the heap and the queue
-- pairs.
--
-- Gpu models memory of a GPU for DMA, for CUDA; Gpu/Hip.antt names the functions for HIP, which
-- have the same text. Gpu/Heap.antt is cudamem_heap.h, its allocation, release and translation,
-- Gpu/Heap/Init.antt its set-up, with the interface of cudamem_dma.h in Gpu/Dma.antt.
-- Gpu/Translate.antt views such a heap as a hugepage heap of the same layout. Gpu/Mapping.antt is
-- the registry of cudamem_mapping.h, of which the two tables are functions of the chunk index,
-- filled from a dma-buf with `dmabuf_get_lut` of Gpu/Dmabuf.antt. Gpu/Requests are the PRP builders
-- of nvme_request_cuda.h: over the heap they are those of nvme_request.h with another translation,
-- over the registry they look up each page. Gpu/Populate.antt is how a chunk of the registry gets
-- its address, and Gpu/Qpair.antt is nvme_qpair_cuda.h, the queue pair that the threads of a block
-- share.
--
-- A `uintN_t` is a number below 2 ^ N with its wrap-around written out; pointers are addresses, and
-- a pointer into an array is its index. `Outcome` of Prelude/Outcomes.antt is the result of a C
-- function: `done` a value, `aborted` a failed assertion (the assertions are compiled in), `fault`
-- an access that C leaves undefined. Loops over arrays are structural recursion on the number of
-- rounds that the C loop makes, so that no fuel is chosen; a timeout in milliseconds is such a
-- number, one round for each, and a negative one makes none. Three loops take fuel. The loop of an
-- allocation, from either heap, cuts skip blocks off a block: a round for each block and for each
-- byte of it is enough, as each cut takes a byte at least. The loops over the pages of an iovec
-- take a round for each byte, as each page takes a byte at least. The polls before a deadline of
-- the GPU's clock are a number of rounds, too.
--
-- Parameters: the system calls are `Os`, reading and writing text in the C library is the record
-- `Text` of Pci/Addr.antt, and whether calloc gives memory is an argument. The GPU driver, mmap,
-- malloc and calloc are arguments of the functions that call them: which calls of malloc succeed,
-- what the driver gives for a range, and what attaching a dma-buf returns. Detaching one clears its
-- entry in the registry.
--
-- Not modelled: printing (`*_pp`, `*_pr`), the ioctls (vfioctl.h and nvme/nvme_controller_vfio.h on
-- top of it, attaching a dma-buf), the configuration of the heaps, which reads the environment and
-- files below /proc, the tearing down of the GPU heaps and nvme/nvme_controller_cuda.h, which call
-- the driver, and barriers.
pub mod Prelude
pub mod Bitfield
pub mod Mmio
pub mod Os
pub mod Pci
pub mod Hostmem
pub mod Gpu
pub mod Nvme
