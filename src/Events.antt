-- ===== src/Events.antt =====
-- libvmi/events.h and the fields of libvmi/private.h for events: the events of a program, and the
-- tables in which an instance keeps their handlers.
pub mod Register
pub mod Clear
pub mod RoundTrip
pub mod Memory
pub mod Steps
pub mod Stepping
use libvmi.Common.{
  ℕ, ◌+◌, ◌*◌, ◌^◌, ◌%◌, Bool, true, false, not, ◌&&◌, ◌==◌, ltb, List, [], Option, none, some,
  if◌then◌else◌, ◌≤◌, ◌≡◌, refl, ap, arith,
}
use libvmi.Bits.{get_bit}
use libvmi.Types.{Status, success, failure}
use libvmi.Cache.Table.{GHashTable}

-- The members of a vmi_event_t that the library reads. `intr`, `reg` to `reg_in_access`, `gfn` to
-- `gla_valid` and `vcpus` are those of its union. `intr_padding` is what the three bytes behind `intr` hold.
pub record VmiEvent : Type 0 where
  pub version : ℕ
  pub type : ℕ
  pub slat_id : ℕ
  pub has_callback : Bool
  pub vcpu_id : ℕ
  pub reg : ℕ
  pub msr : ℕ
  pub reg_in_access : ℕ
  pub gfn : ℕ
  pub generic : Bool
  pub in_access : ℕ
  pub out_access : ℕ
  pub gptw : ℕ
  pub gla_valid : ℕ
  pub vcpus : ℕ
  pub intr : ℕ
  pub intr_padding : ℕ

-- VMI_EVENT_MEMORY, VMI_EVENT_REGISTER, VMI_EVENT_SINGLESTEP, VMI_EVENT_INTERRUPT, and the first and
-- last of the types from VMI_EVENT_GUEST_REQUEST to VMI_EVENT_DOMAIN_WATCH.
abbrev pub memory : ℕ
memory = 1

abbrev pub register : ℕ
register = 2

abbrev pub singlestep : ℕ
singlestep = 3

abbrev pub interrupt : ℕ
interrupt = 4

abbrev pub guest_request : ℕ
guest_request = 5

abbrev pub debug_exception : ℕ
debug_exception = 7

abbrev pub domain_watch : ℕ
domain_watch = 11

abbrev pub events_version : ℕ
events_version = 8

-- MSR_ANY, which MSR_UNDEFINED is too.
abbrev pub msr_any : ℕ
msr_any = 153

-- The 32 bits that g_int_equal reads where the address of a member of eight bits is the key.
abbrev pub access_key : VmiEvent → ℕ
access_key e = e.in_access + 2 ^ 8 * e.out_access + 2 ^ 16 * e.gptw + 2 ^ 24 * e.gla_valid

abbrev pub intr_key : VmiEvent → ℕ
intr_key e = e.intr + 2 ^ 8 * e.intr_padding

-- The key of a register, which is a gint.
abbrev pub reg_key : VmiEvent → ℕ
reg_key e = e.reg % 2 ^ 32

-- CHECK_VCPU_SINGLESTEP, a bit of 32. The shift is undefined from 32 on, where x86 takes the
-- remainder.
abbrev pub check_vcpu : VmiEvent → ℕ → Bool
check_vcpu e vcpu = get_bit e.vcpus (vcpu % 32)

-- What the library calls of a driver, on the state `D` of the driver and of the program: a register
-- or an interrupt comes with its event. `set_single type` is driver_set_guest_requested_event,
-- driver_set_cpuid_event, ..., driver_set_watch_domain_event. `free_routine` is a vmi_event_free_t,
-- which gets the event and a status.
pub record EventDriver (D : Type 0) : Type 0 where
  pub set_reg_access : VmiEvent → D → Status × D
  pub set_intr_access : VmiEvent → Bool → D → Status × D
  pub set_mem_access : ℕ → ℕ → ℕ → D → Status × D
  pub start_single_step : ℕ → D → Status × D
  pub stop_single_step : ℕ → D → Status × D
  pub shutdown_single_step : D → Status × D
  pub set_single : ℕ → Bool → D → Status × D
  pub free_routine : ℕ → ℕ → Status → D → D

-- The fields of struct vmi_instance that stay as they are: the flags VMI_INIT_EVENTS and
-- VMI_INIT_DOMAINWATCH of init_flags, num_vcpus and page_shift.
pub record EventConf : Type 0 where
  pub init_events : Bool
  pub init_domainwatch : Bool
  pub num_vcpus : ℕ
  pub page_shift : ℕ

abbrev pub is_success : Status → Bool
is_success success = true
is_success failure = false

-- swap_wrapper_t
pub record SwapWrapper : Type 0 where
  pub swap_from : ℕ
  pub swap_to : ℕ
  pub free_routine : ℕ

-- Pointers are numbers, NULL is 0, and a table holds pointers.
module _ (t : GHashTable ℕ ℕ ◌==◌) where
  -- The fields of struct vmi_instance for events. `heap` is what the pointers to events point to.
  -- `single type` is the pointer guest_requested_event, cpuid_event, debug_event, privcall_event,
  -- descriptor_access_event, failed_emulation_event or watch_domain_event, by the type of its events.
  pub record Vmi (D : Type 0) : Type 0 where
    pub heap : ℕ → VmiEvent
    pub interrupt_events : t.Table
    pub mem_events_on_gfn : t.Table
    pub mem_events_generic : t.Table
    pub reg_events : t.Table
    pub msr_events : t.Table
    pub ss_events : t.Table
    pub clear_events : t.Table
    pub single : ℕ → Option ℕ
    pub swap_events : List SwapWrapper
    pub event_callback : Bool
    pub shutting_down : Bool
    pub max_physical_address : ℕ
    pub driver : D

  -- events_init on a fresh instance of a hypervisor that has events.
  unfoldable pub events_init : {D : Type 0} → (ℕ → VmiEvent) → ℕ → D → Vmi D
  events_init heap max_physical_address d = record {
    heap = heap;
    interrupt_events = t.new;
    mem_events_on_gfn = t.new;
    mem_events_generic = t.new;
    reg_events = t.new;
    msr_events = t.new;
    ss_events = t.new;
    clear_events = t.new;
    single = λ type. none;
    swap_events = [];
    event_callback = false;
    shutting_down = false;
    max_physical_address = max_physical_address;
    driver = d;
  }

-- Where an instance keeps a handler.
pub data Slot : Type 0 where
  on_interrupt on_gfn on_access on_reg on_msr on_vcpu on_type : ℕ → Slot

module _ (t : GHashTable ℕ ℕ ◌==◌) {D : Type 0} where
  -- The event whose callback handles what a slot stands for.
  unfoldable pub handler : Vmi t D → Slot → Option ℕ
  handler v (on_interrupt k) = t.lookup v.interrupt_events k
  handler v (on_gfn k) = t.lookup v.mem_events_on_gfn k
  handler v (on_access k) = t.lookup v.mem_events_generic k
  handler v (on_reg k) = t.lookup v.reg_events k
  handler v (on_msr k) = t.lookup v.msr_events k
  handler v (on_vcpu k) = t.lookup v.ss_events k
  handler v (on_type k) = v.single k

-- A register event for an MSR that the library does not name.
abbrev pub is_msr : VmiEvent → Bool
is_msr e = e.reg == msr_any && not (e.msr == 0)

-- Whether a slot is one that the code handles for an event.
unfoldable pub wants : EventConf → VmiEvent → Slot → Bool
wants conf e (on_interrupt k) = e.type == interrupt && e.intr == k
wants conf e (on_gfn k) = e.type == memory && not e.generic && e.gfn == k
wants conf e (on_access k) = e.type == memory && e.generic && e.in_access == k
wants conf e (on_reg k) = e.type == register && not (is_msr e) && reg_key e == k
wants conf e (on_msr k) = e.type == register && is_msr e && e.msr == k
wants conf e (on_vcpu k) = e.type == singlestep && ltb k conf.num_vcpus && check_vcpu e k
wants conf e (on_type k) = e.type == k && ltb interrupt k && ltb k 12

-- Whether an event is to be the handler of a slot: a single-step event, of the vcpus whose bit it has.
unfoldable pub is_for : EventConf → VmiEvent → Slot → Bool
is_for conf e (on_vcpu k) = e.type == singlestep && ltb k conf.num_vcpus && get_bit e.vcpus k
is_for conf e slot = wants conf e slot

-- The two agree where there are no more vcpus than bits.
pub wants-is_for :
    (conf : EventConf) (e : VmiEvent) (slot : Slot)
    → conf.num_vcpus ≤ 32
    → wants conf e slot ≡ is_for conf e slot
unfolding wants is_for
wants-is_for conf e (on_vcpu k) few =
    let bit : ltb k conf.num_vcpus ≡ true → check_vcpu e k ≡ get_bit e.vcpus k =
      λ h. ap (get_bit e.vcpus) (ground (arith, h, few)) in
    ground (arith, bit)
wants-is_for conf e slot few = refl
