-- ===== src/Tests/Stepping.antt =====
-- vmi_step_event and step_and_reg_events of libvmi/events.c on an instance with two vcpus.
use libvmi.Common.{ℕ, ◌+◌, ◌%◌, ◌^◌, ◌<◌, ◌≤◌, true, [], ◌≡◌, refl, arith}
use libvmi.Events.Stepping.{StepWrapper, Stepping, vmi_step_event, step_and_reg_events}
use libvmi.Events.Stepping.Laws.{
  count, IsCounted, vmi_step_event-IsCounted, step_and_reg_events-IsCounted,
}
use libvmi.Tests.Events.{table, driver, conf, instance_data}

-- A program whose callbacks do not call the library.
abbrev call : ℕ → ℕ → Stepping table (Unit {0}) → Stepping table (Unit {0})
call cb event s = s

abbrev idle : Stepping table (Unit {0})
idle = record { vmi = instance_data; step_events = []; step_vcpus = λ k. 0; in_bounds = true }

-- The event at 32 again after one step of vcpu 1, with the single-step event at 48.
abbrev wrap : StepWrapper
wrap = record { event = 32; vcpu_id = 1; steps = 1; cb = 0 }

abbrev busy : Stepping table (Unit {0})
busy = (vmi_step_event table driver conf call 64 idle 48 wrap).1

idle_lem : IsCounted table driver conf call 64 (λ k. 0) idle
unfolding count
idle_lem = (refl, λ k h. refl, λ k h. refl)

step_and_reg_events-IsCounted_example :
    let s = step_and_reg_events table driver conf call 64 busy 48 in
    (s.in_bounds ≡ true)
    × ((k : ℕ) → k < 32 → s.step_vcpus k ≡ (0 + count k s.step_events) % 2 ^ 32)
    × ((k : ℕ) → 32 ≤ k → 0 + count k s.step_events ≡ 0)
step_and_reg_events-IsCounted_example =
    step_and_reg_events-IsCounted table driver conf call 64 busy 48 (λ more cb event s ok. ok)
      (vmi_step_event-IsCounted table driver conf call 64 (λ k. 0) idle 48 wrap (omega arith)
        idle_lem)
