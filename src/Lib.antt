-- ===== src/Lib.antt =====
-- Astraea: the loader's view of a guest program, its memory, and its GPU commands.
--
-- An ELF file is parsed (loader/elf64), and its loadable segments become mapping intents
-- (memory/mapping), which must not contradict each other (loader/guest_image). An image view reads the
-- initial bytes of the guest's memory through them (memory/initialized_image_view). The execution
-- library rounds the intents to host pages (execution/memory_plan), and lets emulated calls read and
-- write guest memory only where both the guest's ranges and the prepared pages allow it
-- (execution/guest_memory). Command buffers found in guest memory are cut into packets
-- (graphics/packet, graphics/pm4_type3_framing), which set registers (graphics/shader_register_state),
-- and the buffers they name are looked up in the GPU's address space
-- (graphics/gpu_allocation_address_space). The guest runs in a worker process, which exchanges framed
-- messages with its controller (execution/guest_worker_wire). Headers are in include/astraea, sources in
-- src, each under the names just given.
--
-- Prelude               lists, tests, bytes, core::Result (include/astraea/core/result.hpp), std::sort
-- Loader/Headers        the structs of include/astraea/loader/elf64.hpp; Loader/Elf64 is its parser
-- Loader/GuestImage     src/loader/guest_image.cpp up to the image view
-- Loader/TlsTemplate    tls_template next to it, and GuestImage::materialize_tls
-- Loader/InitialStack   include/astraea/loader/initial_stack.hpp and its source
-- Loader/Dynamic, Loader/DynamicString, Loader/DynamicMetadata, Loader/SysvHash,
-- Loader/GnuHash        the files of these names next to it
-- Loader/DynamicSymbol  parse_dynamic_symbol of dynamic_symbols, next to it
-- Memory/Address        include/astraea/memory/guest_address.hpp: GuestRange::create, contains, ...
-- Memory/Permissions    GuestPermissions of include/astraea/memory/mapping.hpp
-- Memory/Mapping        include/astraea/memory/mapping.hpp and src/memory/mapping.cpp
-- Memory/ImageView      include/astraea/memory/initialized_image_view.hpp and its source
-- Execution/MemoryPlan  include/astraea/execution/memory_plan.hpp and its source: the data and the
--                       authorisation of writes; Execution/MemoryPlan/Build makes the plan
-- Execution/GuestMemory include/astraea/execution/guest_memory.hpp and its source; the calls that move
--                       bytes are in Execution/GuestMemory/Access
-- Execution/Prepared    the two together: memory that is prepared by a plan that is made
-- Execution/Worker      guest_worker_protocol and, in Execution/Worker/Wire, guest_worker_wire, of
--                       include/astraea/execution and src/execution
-- Graphics/AllocationSpace, Graphics/Packet   the headers and sources named above
-- Graphics/GraphicsIr   include/astraea/graphics/graphics_ir.hpp
-- Graphics/ShaderRegisters   pm4_set_sh_reg_ir and shader_register_state, next to it
--
-- A function keeps the name it has in the source; a loop is a function of its own, and a long body is
-- cut where its comment says. A 64-bit number is a natural number, with `u64_max` where the source
-- compares with the largest one and a hypothesis where a theorem needs it to be one; wrap-around is
-- written out. `std::size_t` and `std::uintptr_t` have 64 bits, so that the source's `if constexpr`
-- blocks for other widths are absent. `std::sort` is insertion sort. A class is the record of its
-- fields; a call that changes an object returns the object it leaves, and process memory is a function
-- from addresses to bytes that is passed on. The largest size of a string or a vector of the host is
-- an argument, `max_size`, where the source's outcome depends on it.
--
-- The outcome `none` of a call stands for an index outside a sequence, which the source does not
-- check, or for a loop out of fuel. GuestMemoryAccess::validate has as many rounds as bytes, and the
-- framing loop as many as words; each round takes one at least, so that neither runs out. The walk
-- along the last chain of DT_GNU_HASH has one round for each index up to the limit of a million.
--
-- A page index times the page size fits 64 bits where the plan multiplies them; an epoch is issued by a
-- call that no other thread interrupts.
--
-- Prelude/Attempts has code that can also index outside its bytes; `Ensures` says that it does not,
-- and what holds of what it returns and of its errors.
--
-- Not modelled: running out of host memory, and the parts of the program that are not named above
-- (the descriptor of the symbol table, relocations, modules, high-level emulation, the worker's
-- process, shaders, Vulkan, traces and the application).
pub mod Prelude
pub mod Loader
pub mod Memory
pub mod Execution
pub mod Graphics
