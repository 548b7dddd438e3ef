-- ===== src/Tests/Events.antt =====
-- libvmi/events.c on an instance with two vcpus.
use libvmi.Common.{ℕ, true, false, ◌==◌, none, some, if◌then◌else◌, ◌≡◌, ◌⊎◌, ◌^◌, ◌-◌, refl, arith}
use libvmi.Bits.{get_bit}
use libvmi.Types.{success}
use libvmi.Cache.Table.{GHashTable}
use libvmi.Cache.Assoc.{number_table, find, erase}
use libvmi.Events.{
  VmiEvent, EventDriver, EventConf, Vmi, on_access, on_vcpu, events_init, handler, wants, is_for,
}
use libvmi.Events.Register.{
  vmi_register_event, is_registrable, register_singlestep_event, register_mem_event,
  register_mem_event_generic, any_taken, insert_vcpus,
}
use libvmi.Events.Register.Laws.{vmi_register_event-IsRegistered}
use libvmi.Events.Clear.{
  vmi_clear_event, clear_now, clear_singlestep_event, clear_vcpus, vmi_shutdown_single_step,
  clear_mem_event,
}
use libvmi.Events.Clear.Laws.{vmi_clear_event-IsCleared, vmi_clear_event-stale}
use libvmi.Events.RoundTrip.{vmi_clear_event-vmi_register_event}
use libvmi.Events.Steps.{registered, fresh, next}
use libvmi.Events.Steps.Exclusive.{Reachable-IsExclusive}

program : Unit {0}
unfolding find erase events_init handler wants is_for get_bit vmi_register_event is_registrable
    register_singlestep_event register_mem_event register_mem_event_generic any_taken insert_vcpus
    vmi_clear_event clear_now clear_singlestep_event clear_vcpus vmi_shutdown_single_step
    clear_mem_event
program = tt

abbrev pub table : GHashTable ℕ ℕ ◌==◌
table = number_table ℕ

-- A driver that does whatever it is asked.
abbrev pub driver : EventDriver (Unit {0})
driver = record {
  set_reg_access = λ e d. (success, d);
  set_intr_access = λ e enabled d. (success, d);
  set_mem_access = λ gfn access slat_id d. (success, d);
  start_single_step = λ vcpus d. (success, d);
  stop_single_step = λ vcpu d. (success, d);
  shutdown_single_step = λ d. (success, d);
  set_single = λ type enabled d. (success, d);
  free_routine = λ routine event rc d. d;
}

abbrev pub conf : EventConf
conf = record { init_events = true; init_domainwatch = false; num_vcpus = 2; page_shift = 12 }

-- Single-stepping of vcpu 1.
abbrev step_event : VmiEvent
step_event = record {
  version = 8;
  type = 3;
  slat_id = 0;
  has_callback = true;
  vcpu_id = 0;
  reg = 0;
  msr = 0;
  reg_in_access = 0;
  gfn = 0;
  generic = false;
  in_access = 0;
  out_access = 0;
  gptw = 0;
  gla_valid = 0;
  vcpus = 2;
  intr = 0;
  intr_padding = 0;
}

-- A handler of every write, before and after the event has occurred.
abbrev write_event : VmiEvent
write_event = record step_event { type = 1; gfn = 2 ^ 64 - 1; generic = true; in_access = 4 }

abbrev written_event : VmiEvent
written_event = record write_event { out_access = 4; gla_valid = 1 }

abbrev events : ℕ → VmiEvent
events p = if p == 16 then step_event else if p == 32 then write_event else written_event

abbrev pub instance_data : Vmi table (Unit {0})
instance_data = events_init table events (2 ^ 30) tt

vmi_register_event-IsRegistered_example :
    (handler table (vmi_register_event table driver conf instance_data 16).1 (on_vcpu 1) ≡ some 16)
    × (true ≡ true → handler table instance_data (on_vcpu 1) ≡ none)
unfolding program
vmi_register_event-IsRegistered_example =
    vmi_register_event-IsRegistered table driver conf instance_data 16 (on_vcpu 1) (omega arith)
      refl refl

vmi_clear_event-IsCleared_example :
    handler table
      (vmi_clear_event table driver conf
        (vmi_register_event table driver conf instance_data 16).1
        16
        0).1
      (on_vcpu 1)
    ≡ none
unfolding program
vmi_clear_event-IsCleared_example =
    vmi_clear_event-IsCleared table driver conf
      (vmi_register_event table driver conf instance_data 16).1 16 0 (on_vcpu 1) (omega arith) refl
      refl refl refl (λ msr. refl) (λ typed vcpu d. refl)

vmi_clear_event-vmi_register_event_example :
    handler table
      (vmi_clear_event table driver conf
        (vmi_register_event table driver conf instance_data 32).1
        32
        0).1
      (on_access 4)
    ≡ handler table instance_data (on_access 4)
unfolding program
vmi_clear_event-vmi_register_event_example =
    vmi_clear_event-vmi_register_event table driver conf instance_data 32 0 (on_access 4) refl refl
      refl refl (λ msr. refl) (λ typed vcpu d. refl) refl refl

-- The instance after the registration of the handler, and the event when it has occurred.
abbrev occurred : Vmi table (Unit {0})
occurred = record (vmi_register_event table driver conf instance_data 32).1 {
  heap = λ p. written_event;
}

vmi_clear_event-stale_example :
    ((vmi_clear_event table driver conf occurred 32 0).0 ≡ success)
    × (handler table (vmi_clear_event table driver conf occurred 32 0).1 (on_access 4) ≡ some 32)
unfolding program
vmi_clear_event-stale_example =
    vmi_clear_event-stale table driver conf occurred 32 0 refl (omega arith) refl refl refl
      (omega arith)

Reachable-IsExclusive_example :
    let v = (vmi_register_event table driver conf instance_data 32).1 in
    (table.lookup v.mem_events_on_gfn 5 ≡ none) ⊎ (table.lookup v.mem_events_generic 4 ≡ none)
Reachable-IsExclusive_example =
    Reachable-IsExclusive table driver conf
      (vmi_register_event table driver conf instance_data 32).1
      (next (fresh events (2 ^ 30) tt) (registered 32)) 5 4
