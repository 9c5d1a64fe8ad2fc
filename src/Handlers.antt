-- ===== src/Handlers.antt =====
-- The queues of handlers in kern/mm/mmu.c and kern/mm/jump.c, which the kernel calls once paging
-- is on and once it runs at high addresses. A queue is the list of its first `queue_size` entries,
-- a handler its address; a call of the handlers is the list of the addresses called, in order.
pub mod Order
use fdu_os.Common.{
  ℕ, zero, suc, ◌+◌, Bool, true, false, List, [], ◌∷◌, ◌++◌, map, length, ltb, leb, ◌==◌,
  if◌then◌else◌,
}
use fdu_os.Common.Words.{add32}
use fdu_os.Common.Outcome.{Outcome, done, panic, ◌>>=◌}

-- `MMU_HANDLER_QUEUE_LENGTH` and `JUMP_HANDLER_QUEUE_LENGTH`
abbrev pub handler_queue_length : ℕ
handler_queue_length = 10

-- `mmu_handlers_clear`
pub mmu_handlers_clear : List ℕ → List ℕ
mmu_handlers_clear queue = []

-- `mmu_handlers_add`; `false` is `EOF`.
unfoldable pub mmu_handlers_add : ℕ → List ℕ → Outcome (Bool × List ℕ)
mmu_handlers_add entry queue =
    if ltb handler_queue_length (length queue)
    then panic
    else if length queue == handler_queue_length
    then done (false, queue)
    else done (true, queue ++ (entry ∷ []))

-- `mmu_handlers_apply`
pub mmu_handlers_apply : List ℕ → List ℕ
mmu_handlers_apply queue = queue

-- `jump_handlers_clear`
pub jump_handlers_clear : List ℕ → List ℕ
jump_handlers_clear queue = []

-- `jump_handlers_add`
unfoldable pub jump_handlers_add : ℕ → List ℕ → Outcome (Bool × List ℕ)
jump_handlers_add entry queue =
    if ltb handler_queue_length (length queue)
    then panic
    else if length queue == handler_queue_length
    then done (false, queue)
    else done (true, queue ++ (entry ∷ []))

-- `postmap_addr`: a low address is moved up by `KERN_BASE`.
unfoldable pub postmap_addr : ℕ → ℕ → ℕ
postmap_addr kern_base address = if leb kern_base address then address else add32 address kern_base

-- `jump_handlers_apply`
pub jump_handlers_apply : ℕ → List ℕ → List ℕ
unfolding postmap_addr
jump_handlers_apply kern_base queue = map (postmap_addr kern_base) queue
