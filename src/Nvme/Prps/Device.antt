-- ===== src/Nvme/Prps/Device.antt =====
-- How a controller reads the PRP fields of a command, from the NVMe specification: PRP1 is the first
-- page with an offset into it, PRP2 the second page, or the address of the list of the pages from
-- the second on if there are more than two. The list is in memory at `list_addr`, the address of
-- the request's list page, and a controller that PRP2 leads elsewhere does not find it.
use upcie.Prelude.{
  ℕ, zero, suc, ◌+◌, ◌-◌, ◌/◌, ◌%◌, Option, some, none, ◌==◌, get_elem?, leb, if◌then◌else◌,
}
use mathlib.Core.Option
use upcie.Nvme.Prps.{Prepared}

-- The pages that a transfer touches.
abbrev pub pages_of : ℕ → ℕ → ℕ → ℕ
pages_of pagesize offset nbytes = (offset + nbytes + pagesize - 1) / pagesize

-- Where the page with index `k` begins.
abbrev pub device_page : ℕ → ℕ → Prepared → ℕ → ℕ → Option ℕ
device_page pagesize list_addr prepared npages zero =
    some (prepared.cmd.prp1 - prepared.cmd.prp1 % pagesize)
device_page pagesize list_addr prepared npages (suc k) =
    if leb npages 2
    then some prepared.cmd.prp2
    else if prepared.cmd.prp2 == list_addr
    then get_elem? prepared.prp_list k
    else none

-- The address at which the controller finds byte `j` of a transfer of `nbytes`.
abbrev pub device_address : ℕ → ℕ → Prepared → ℕ → ℕ → Option ℕ
device_address pagesize list_addr prepared nbytes j =
    let offset = prepared.cmd.prp1 % pagesize in
    Option.map (λ page. page + (offset + j) % pagesize)
      (device_page pagesize list_addr prepared (pages_of pagesize offset nbytes)
        ((offset + j) / pagesize))
