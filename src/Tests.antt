-- ===== src/Tests.antt =====
-- Runs of the model, and the theorems at concrete inputs.
mod Walks
mod Caches
mod Pages
mod Lookups
mod Modes
mod Reads
mod Strings
mod StrMatch
mod Stepping
mod Events
mod Files
mod RoundTrip
mod Writes
mod Processes
mod Exports
mod Translate
mod Listed
use libvmi.Common.{ℕ, ◌+◌, ◌*◌, ◌/◌, ◌%◌, ◌^◌, Bool, true, false, ◌==◌, if◌then◌else◌, some}
use libvmi.PageMode
use libvmi.PageSize
use libvmi.Types.{Status, success, Conf, VmType, Machine}
use libvmi.Access.Window.{window}

-- Physical memory that holds tables at 0, 0x1000, 0x2000, 0x3000, 0x4000 and 0x6000.
abbrev word : ℕ → ℕ
word a =
    if a == 0
    then 0x6003 * 2 ^ 32
    else if a == 0x1008
    then 0x2003
    else if a == 0x2010
    then 0x3003
    else if a == 0x3018
    then 0x4003
    else if a == 0x4020
    then 0x5003
    else if a == 0x6008
    then 0x7003
    else 0

abbrev pub memory : ℕ → ℕ
memory a = word (a / 8 * 8) / 256 ^ (a % 8) % 256

abbrev pub machine : Machine (Unit {0})
machine = record {
  read = λ ctx n s. (some (window memory ctx.addr n), s);
  lookup = λ pt pm va out s. (success, va, s);
}

abbrev pub conf : Conf
conf = record {
  file_mode = false;
  page_shift = 12;
  page_size = 4096;
  kpgd = 0x9000;
  pse = false;
  transition_pages = false;
  page_mode = PageMode.ia32e;
  os_type = 0;
  vm_type = VmType.hvm;
  max_physical_address = 2 ^ 30;
  has_os_interface = true;
  t0sz = 16;
  t1sz = 16;
  tg0 = PageSize.kb4;
  tg1 = PageSize.kb4;
}
