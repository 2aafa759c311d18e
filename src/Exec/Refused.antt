-- ===== src/Exec/Refused.antt =====
-- `do_execve` of core/cpu/exec.c on an ELF image that `elf_load` refuses.
use uix.Pmm
use uix.Vmm.{Vmm}
