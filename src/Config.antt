-- ===== src/Config.antt =====
-- os/src/config.rs: the kernel's constants, and the width of `usize`. The kernel is built in
-- release mode, where arithmetic on machine integers wraps.
use bitos.Base.{ℕ, ◌+◌, ◌-◌, ◌*◌, ◌^◌, List, [], ◌∷◌}

abbrev pub usize_mod : ℕ
usize_mod = 2 ^ 64

abbrev pub kernel_stack_size : ℕ
kernel_stack_size = 4096 * 2

abbrev pub user_stack_size : ℕ
user_stack_size = 4096 * 3

abbrev pub page_size : ℕ
page_size = 0x1000

abbrev pub page_size_bits : ℕ
page_size_bits = 0xc

-- `usize::MAX - PAGE_SIZE + 1`
abbrev pub trampoline : ℕ
trampoline = 2 ^ 64 - 1 - 0x1000 + 1

abbrev pub trap_context_base : ℕ
trap_context_base = trampoline - 0x1000

abbrev pub memory_end : ℕ
memory_end = 0x88000000

abbrev pub big_stride : ℕ
big_stride = 2550

-- The base and the length of each range of device registers.
abbrev pub mmio : List (ℕ × ℕ)
mmio = (0x10001000, 0x1000) ∷ []
