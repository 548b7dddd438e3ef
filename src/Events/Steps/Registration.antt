-- ===== src/Events/Steps/Registration.antt =====
-- libvmi/events.c: a registration and the handlers of memory events.
use libvmi.Common.{
  not, ltb, if◌then◌else◌, ◌&&◌, ℕ, Bool, true, ◌==◌, if_elim, inl, inr, ◌≡◌, ap, ◌∙◌, arith,
}
use libvmi.Types.{Status, failure}
use libvmi.Cache.Table.{GHashTable}
use libvmi.Events.{memory, register, singlestep, interrupt, EventDriver, EventConf, Vmi}
use libvmi.Events.Register.{
  is_registrable, vmi_register_event, register_reg_event, register_msr_event, register_mem_event,
  register_mem_event_generic, register_mem_event_on_gfn, register_singlestep_event,
  register_interrupt_event, register_single_event,
}
use libvmi.Types.{Status-cases}
use libvmi.Events.Steps.{IsExclusive}

module _ (t : GHashTable ℕ ℕ ◌==◌) {D : Type 0} (driver : EventDriver D) (conf : EventConf) where
  abbrev pub pages : Vmi t D → t.Table × t.Table
  pages v = (v.mem_events_on_gfn, v.mem_events_generic)

  pub same_lem :
      (v v' : Vmi t D)
      → pages v' ≡ pages v
      → IsExclusive t driver conf v
      → IsExclusive t driver conf v'
  same_lem v v' same exclusive gfn access =
      let on_gfn = ap (λ (p : t.Table × t.Table). t.lookup p.0 gfn) same in
      let generic = ap (λ (p : t.Table × t.Table). t.lookup p.1 access) same in
      elim (exclusive gfn access) [ inl e ↦ inl (on_gfn ∙ e) | inr e ↦ inr (generic ∙ e) ]

  register_reg_lem :
      (v : Vmi t D) (event : ℕ) → pages (register_reg_event t driver conf v event).1 ≡ pages v
  unfolding register_reg_event register_msr_event
  register_reg_lem v event =
      let e = v.heap event in ground (arith, Status-cases (driver.set_reg_access e v.driver).0)

  register_intr_lem :
      (v : Vmi t D) (event : ℕ) → pages (register_interrupt_event t driver conf v event).1 ≡ pages v
  unfolding register_interrupt_event
  register_intr_lem v event =
      let e = v.heap event in
      ground (arith, Status-cases (driver.set_intr_access e true v.driver).0)

  register_step_lem :
      (v : Vmi t D) (event : ℕ)
      → pages (register_singlestep_event t driver conf v event).1 ≡ pages v
  unfolding register_singlestep_event
  register_step_lem v event =
      let e = v.heap event in
      ground (arith, Status-cases (driver.start_single_step e.vcpus v.driver).0)

  register_single_lem :
      (v : Vmi t D) (event : ℕ)
      → pages (register_single_event t driver conf (v.heap event).type v event).1 ≡ pages v
  unfolding register_single_event
  register_single_lem v event =
      let e = v.heap event in
      ground (arith, Status-cases (driver.set_single e.type true v.driver).0)

  register_generic_lem :
      (v : Vmi t D) (event : ℕ)
      → IsExclusive t driver conf v
      → IsExclusive t driver conf (register_mem_event_generic t driver conf v event).1
  unfolding register_mem_event_generic
  register_generic_lem v event exclusive gfn access =
      let e = v.heap event in
      ground (
        arith,
        exclusive gfn access,
        t.lookup-empty v.mem_events_on_gfn gfn,
        t.lookup-insert v.mem_events_generic e.in_access event access,
      )

  register_on_gfn_lem :
      (v : Vmi t D) (event : ℕ)
      → IsExclusive t driver conf v
      → IsExclusive t driver conf (register_mem_event_on_gfn t driver conf v event).1
  unfolding register_mem_event_on_gfn
  register_on_gfn_lem v event exclusive gfn access =
      let e = v.heap event in
      ground (
        arith,
        exclusive gfn access,
        Status-cases (driver.set_mem_access e.gfn e.in_access e.slat_id v.driver).0,
        t.lookup-empty v.mem_events_generic access,
        t.lookup-insert v.mem_events_on_gfn e.gfn event gfn,
      )

  -- A result that is kept in either branch.
  abbrev pub IsKept : Status × Vmi t D → Type 0
  IsKept r = IsExclusive t driver conf r.1

  pub either :
      (b : Bool) (x y : Status × Vmi t D) → IsKept x → IsKept y → IsKept (if b then x else y)
  either b x y kept kept' = if_elim IsKept b x y (λ yes. kept) (λ no. kept')

  register_mem_lem :
      (v : Vmi t D) (event : ℕ)
      → IsExclusive t driver conf v
      → IsKept (register_mem_event t driver conf v event)
  unfolding register_mem_event
  register_mem_lem v event exclusive =
      either (v.heap event).generic (register_mem_event_generic t driver conf v event)
        (register_mem_event_on_gfn t driver conf v event) (register_generic_lem v event exclusive)
        (register_on_gfn_lem v event exclusive)

  pub register_lem :
      (v : Vmi t D) (event : ℕ)
      → IsExclusive t driver conf v
      → IsKept (vmi_register_event t driver conf v event)
  unfolding vmi_register_event
  register_lem v event exclusive =
      let same = λ (v' : Vmi t D) (e : pages v' ≡ pages v). same_lem v v' e exclusive in
      let type = (v.heap event).type in
      let step = register_singlestep_event t driver conf v event in
      let intr = register_interrupt_event t driver conf v event in
      let single = register_single_event t driver conf type v event in
      let refused : Status × Vmi t D = (failure, v) in
      let last = if ltb interrupt type && ltb type 12 then single else refused in
      let or_intr = if type == interrupt then intr else last in
      let or_step = if type == singlestep then step else or_intr in
      let mem = register_mem_event t driver conf v event in
      let or_mem = if type == memory then mem else or_step in
      let reg = register_reg_event t driver conf v event in
      let or_reg = if type == register then reg else or_mem in
      either (not (is_registrable t driver conf v event)) refused or_reg exclusive (
        either (type == register) reg or_mem (same reg.1 (register_reg_lem v event)) (
          either (type == memory) mem or_step (register_mem_lem v event exclusive) (
            either (type == singlestep) step or_intr (same step.1 (register_step_lem v event)) (
              either (type == interrupt) intr last (same intr.1 (register_intr_lem v event)) (
                either (ltb interrupt type && ltb type 12) single refused
                  (same single.1 (register_single_lem v event)) exclusive)))))
