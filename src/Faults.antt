-- ===== src/Faults.antt =====
-- sys.c, `pf_rsi`: the page faults, with the check of the address, and the stores of the kernel to
-- the user's memory, which may raise one.
pub mod Handled
pub mod Stores
use so2_zeos.Prelude.{
  ℕ, ◌/◌, ◌%◌, ◌^◌, ◌+◌, Bool, true, false, not, none, some, List, [], ◌∷◌, if◌then◌else◌, update,
}
use so2_zeos.Memory.{Memory, Fault, resolved, no_memory, panic, page_fault}
use so2_zeos.Kernel.{Kernel}
use so2_zeos.AccessOk.{access_ok, verify_write}

-- a `while(1)` of `pf_rsi`, with interrupts off; the messages are not modelled
abbrev pub halt : Kernel → Kernel
halt k = record k { halted = true }

-- what comes of a fault at an address that the user may write to
abbrev pub after_fault : Fault → Kernel → Kernel
after_fault (resolved m) k = record k { mem = m }
after_fault no_memory k = halt k
after_fault panic k = halt k

-- `PH_PAGE`
abbrev pub page_of : ℕ → ℕ
page_of address = address / 2 ^ 12

-- `pf_rsi`, in the page table of the current process. A process without a directory has none: the
-- access to its table faults at address 0, which `access_ok` refuses.
unfoldable pub pf_rsi : (address : ℕ) → Kernel → Kernel
pf_rsi address k =
    let x = k.tasks k.current in
    if not (access_ok verify_write address 1 x.heap_top) then halt k else elim x.dir [
      | none ↦ halt k
      | some d ↦ after_fault (page_fault d (page_of address) k.mem) k
    ]

-- the fault of a store to a page that is not there
unfoldable pub touch : (d address : ℕ) → Kernel → Kernel
unfolding pf_rsi
touch d address k = if (k.mem.page_table d (page_of address)).present then k else pf_rsi address k

-- a byte stored through the page table of directory `d`
unfoldable pub put_byte : (d address value : ℕ) → Memory → Memory
put_byte d address value m =
    let frame = (m.page_table d (page_of address)).pbase_addr in
    record m {
      frame_data =
          update m.frame_data frame (update (m.frame_data frame) (address % 2 ^ 12) (value % 256));
    }

-- The kernel stores a byte at an address of the current process. A page that is not there faults, and
-- the store is made again behind the handler. `set_pe_flag` does not set the bit WP of cr0, so a page
-- that the user may only read takes the store of the kernel.
unfoldable pub store_byte : (address value : ℕ) → Kernel → Kernel
unfolding touch put_byte
store_byte address value k = elim (k.tasks k.current).dir [
  | none ↦ halt k
  | some d ↦ let k' = touch d address k in record k' { mem = put_byte d address value k'.mem }
]

unfoldable pub store_bytes : (address : ℕ) → List ℕ → Kernel → Kernel
unfolding store_byte
store_bytes address [] k = k
store_bytes address (b ∷ bs) k = store_bytes (address + 1) bs (store_byte address b k)

-- a 32-bit word, the low byte first
abbrev pub dword_bytes : ℕ → List ℕ
dword_bytes w = (w % 256) ∷ ((w / 2 ^ 8) % 256) ∷ ((w / 2 ^ 16) % 256) ∷ ((w / 2 ^ 24) % 256) ∷ []
