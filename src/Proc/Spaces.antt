-- ===== src/Proc/Spaces.antt =====
-- The page tables of mm/vmm.c as the address spaces that proc/proc.c uses.
use mai_unix.Mm.Vmm.{Vmm, vmm_clone, vmm_destroy_directory, vmm_get_kernel_directory}
use mai_unix.Proc.Life.{AddressSpaces}

abbrev pub vmm_spaces : AddressSpaces
vmm_spaces = record {
  Vm = Vmm;
  kernel_directory = vmm_get_kernel_directory;
  clone = vmm_clone;
  destroy = vmm_destroy_directory;
}
