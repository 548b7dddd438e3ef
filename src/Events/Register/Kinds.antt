-- ===== src/Events/Register/Kinds.antt =====
-- libvmi/events.c: what each function of a kind of event does to the handlers of an instance.
use libvmi.Common.{
  ℕ, zero, suc, ◌+◌, Bool, true, false, ◌&&◌, ◌==◌, ltb, leb, ◌≤◌, ◌<◌, none, some, if◌then◌else◌,
  Bool-cases, Option-cases, inl, inr, ◌≡◌, ap, arith,
}
use libvmi.Types.{Status}
use libvmi.Cache.Table.{GHashTable}
use libvmi.Events.{
  VmiEvent, EventDriver, EventConf, Vmi, Slot, on_interrupt, on_gfn, on_access, on_reg, on_msr,
  on_vcpu, on_type, handler, wants, memory, register, singlestep, interrupt, access_key, intr_key,
  reg_key, check_vcpu, is_msr, is_success,
}
use libvmi.Types.{Status-cases}
use libvmi.Events.Register.{
  register_interrupt_event, register_msr_event, register_reg_event, register_mem_event_generic,
  register_mem_event_on_gfn, any_taken, insert_vcpus, register_singlestep_event,
  register_single_event,
}

module _ (t : GHashTable ℕ ℕ ◌==◌) {D : Type 0} (driver : EventDriver D) (conf : EventConf) where
  -- A call returned `r` for the registration of an event, which is `wanted` for a slot.
  abbrev pub IsRegisteredIf : Bool → Vmi t D → ℕ → Status × Vmi t D → Slot → Type 0
  IsRegisteredIf wanted v event r slot =
      (handler t r.1 slot ≡ (if is_success r.0 && wanted then some event else handler t v slot))
      × (is_success r.0 && wanted ≡ true → handler t v slot ≡ none)

  abbrev pub IsRegistered : Vmi t D → ℕ → Status × Vmi t D → Slot → Type 0
  IsRegistered v event r slot = IsRegisteredIf (wants conf (v.heap event) slot) v event r slot

  pub register_interrupt_event_lem :
      (v : Vmi t D) (event : ℕ) (slot : Slot)
      → (v.heap event).type ≡ interrupt
      → (v.heap event).intr_padding ≡ 0
      → IsRegistered v event (register_interrupt_event t driver conf v event) slot
  unfolding register_interrupt_event handler wants
  register_interrupt_event_lem v event (on_interrupt k) typed fresh =
      let e = v.heap event in
      let taken = Option-cases (t.lookup v.interrupt_events (intr_key e)) in
      let set = Status-cases (driver.set_intr_access e true v.driver).0 in
      (
        ground (arith, typed, fresh, taken, set, t.lookup-insert v.interrupt_events e.intr event k),
        ground (arith, typed, fresh, taken, set),
      )
  register_interrupt_event_lem v event slot typed fresh =
      let e = v.heap event in
      let taken = Option-cases (t.lookup v.interrupt_events (intr_key e)) in
      let set = Status-cases (driver.set_intr_access e true v.driver).0 in
      (ground (arith, typed, fresh, taken, set), ground (arith, typed, fresh))

  pub register_msr_event_lem :
      (v : Vmi t D) (event : ℕ) (slot : Slot)
      → (v.heap event).type ≡ register
      → is_msr (v.heap event) ≡ true
      → IsRegistered v event (register_msr_event t driver conf v event) slot
  unfolding register_msr_event handler wants
  register_msr_event_lem v event (on_msr k) typed msr =
      let e = v.heap event in
      let taken = Option-cases (t.lookup v.msr_events (e.msr)) in
      let set = Status-cases (driver.set_reg_access e v.driver).0 in
      (
        ground (arith, typed, msr, taken, set, t.lookup-insert v.msr_events e.msr event k),
        ground (arith, typed, msr, taken, set),
      )
  register_msr_event_lem v event slot typed msr =
      let e = v.heap event in
      let taken = Option-cases (t.lookup v.msr_events (e.msr)) in
      let set = Status-cases (driver.set_reg_access e v.driver).0 in
      (ground (arith, typed, msr, taken, set), ground (arith, typed, msr))

  pub register_reg_event_lem :
      (v : Vmi t D) (event : ℕ) (slot : Slot)
      → (v.heap event).type ≡ register
      → is_msr (v.heap event) ≡ false
      → IsRegistered v event (register_reg_event t driver conf v event) slot
  unfolding register_reg_event handler wants
  register_reg_event_lem v event (on_reg k) typed named =
      let e = v.heap event in
      let taken = Option-cases (t.lookup v.reg_events (reg_key e)) in
      let set = Status-cases (driver.set_reg_access e v.driver).0 in
      (
        ground (arith, typed, named, taken, set, t.lookup-insert v.reg_events (reg_key e) event k),
        ground (arith, typed, named, taken, set),
      )
  register_reg_event_lem v event slot typed named =
      let e = v.heap event in
      let taken = Option-cases (t.lookup v.reg_events (reg_key e)) in
      let set = Status-cases (driver.set_reg_access e v.driver).0 in
      (ground (arith, typed, named, taken, set), ground (arith, typed, named))

  pub register_mem_event_on_gfn_lem :
      (v : Vmi t D) (event : ℕ) (slot : Slot)
      → (v.heap event).type ≡ memory
      → (v.heap event).generic ≡ false
      → IsRegistered v event (register_mem_event_on_gfn t driver conf v event) slot
  unfolding register_mem_event_on_gfn handler wants
  register_mem_event_on_gfn_lem v event (on_gfn k) typed page =
      let e = v.heap event in
      let taken = Option-cases (t.lookup v.mem_events_on_gfn (e.gfn)) in
      let set = Status-cases (driver.set_mem_access e.gfn e.in_access e.slat_id v.driver).0 in
      (
        ground (arith, typed, page, taken, set, t.lookup-insert v.mem_events_on_gfn e.gfn event k),
        ground (arith, typed, page, taken, set),
      )
  register_mem_event_on_gfn_lem v event slot typed page =
      let e = v.heap event in
      let taken = Option-cases (t.lookup v.mem_events_on_gfn (e.gfn)) in
      let set = Status-cases (driver.set_mem_access e.gfn e.in_access e.slat_id v.driver).0 in
      (ground (arith, typed, page, taken, set), ground (arith, typed, page))

  pub register_mem_event_generic_lem :
      (v : Vmi t D) (event : ℕ) (slot : Slot)
      → (v.heap event).type ≡ memory
      → (v.heap event).generic ≡ true
      → access_key (v.heap event) ≡ (v.heap event).in_access
      → IsRegistered v event (register_mem_event_generic t driver conf v event) slot
  unfolding register_mem_event_generic handler wants
  register_mem_event_generic_lem v event (on_access k) typed every fresh =
      let e = v.heap event in
      let taken = Option-cases (t.lookup v.mem_events_generic (access_key e)) in
      let same = ap (t.lookup v.mem_events_generic) fresh in
      (
        ground
            (arith, typed, every, taken, t.lookup-insert v.mem_events_generic e.in_access event k),
        ground (arith, typed, every, same, taken),
      )
  register_mem_event_generic_lem v event slot typed every fresh =
      let e = v.heap event in
      let taken = Option-cases (t.lookup v.mem_events_generic (access_key e)) in
      (ground (arith, typed, every, taken), ground (arith, typed, every))

  any_taken_lem :
      (table : t.Table) (e : VmiEvent) (n vcpu k : ℕ)
      → any_taken t driver conf table e n vcpu ≡ false
      → vcpu ≤ k
      → k < vcpu + n
      → check_vcpu e k ≡ true
      → t.lookup table k ≡ none
  unfolding any_taken
  any_taken_lem table e zero vcpu k free lo hi on =
      let bad : ⊥ = omega (arith, lo, hi) in elim bad [ ]
  any_taken_lem table e (suc n) vcpu k free lo hi on = elim (Bool-cases (vcpu == k)) [
    | inl at ↦
        let here : vcpu ≡ k = ground (arith, at) in
        let same = ap (t.lookup table) here in
        let bit = ap (check_vcpu e) here in
        ground (arith, same, bit, on, free, Option-cases (t.lookup table k))
    | inr later ↦
        any_taken_lem table e n (vcpu + 1) k (ground (arith, free)) (ground (arith, later, lo))
          (omega (arith, hi)) on
  ]

  insert_vcpus_lem :
      (table : t.Table) (e : VmiEvent) (event n vcpu k : ℕ)
      → t.lookup (insert_vcpus t driver conf table e event n vcpu) k ≡ (
          if leb vcpu k && ltb k (vcpu + n) && check_vcpu e k then some event else t.lookup table k)
  unfolding insert_vcpus
  insert_vcpus_lem table e event zero vcpu k = ground arith
  insert_vcpus_lem table e event (suc n) vcpu k =
      let bit : (vcpu == k) ≡ true → check_vcpu e vcpu ≡ check_vcpu e k =
        λ at. ap (check_vcpu e) (ground (arith, at)) in
      let table' = if check_vcpu e vcpu then t.insert table vcpu event else table in
      ground (
        arith,
        insert_vcpus_lem table' e event n (vcpu + 1) k,
        t.lookup-insert table vcpu event k,
        Bool-cases (check_vcpu e vcpu),
        Bool-cases (check_vcpu e k),
        bit,
      )

  pub register_singlestep_event_lem :
      (v : Vmi t D) (event : ℕ) (slot : Slot)
      → (v.heap event).type ≡ singlestep
      → IsRegistered v event (register_singlestep_event t driver conf v event) slot
  unfolding register_singlestep_event handler wants
  register_singlestep_event_lem v event (on_vcpu k) typed =
      let e = v.heap event in
      let n = conf.num_vcpus in
      let taken = Bool-cases (any_taken t driver conf v.ss_events e n 0) in
      let set = Status-cases (driver.start_single_step e.vcpus v.driver).0 in
      (
        ground (arith, typed, taken, set, insert_vcpus_lem v.ss_events e event n 0 k),
        λ wanted.
            any_taken_lem v.ss_events e n 0 k (ground (arith, taken, set)) (omega arith)
              (ground (arith, taken, set)) (ground (arith, taken, set)),
      )
  register_singlestep_event_lem v event slot typed =
      let e = v.heap event in
      let taken = Bool-cases (any_taken t driver conf v.ss_events e conf.num_vcpus 0) in
      let set = Status-cases (driver.start_single_step e.vcpus v.driver).0 in
      (ground (arith, typed, taken, set), ground (arith, typed))

  pub register_single_event_lem :
      (v : Vmi t D) (event type : ℕ) (slot : Slot)
      → (v.heap event).type ≡ type
      → interrupt < type
      → type < 12
      → IsRegistered v event (register_single_event t driver conf type v event) slot
  unfolding register_single_event handler wants
  register_single_event_lem v event type (on_type k) typed lo hi =
      let taken = Option-cases (v.single type) in
      let set = Status-cases (driver.set_single type true v.driver).0 in
      let same : (type == k) ≡ true → v.single type ≡ v.single k =
        λ at. ap v.single (ground (arith, at)) in
      (ground (arith, typed, lo, hi, taken, set), ground (arith, typed, lo, hi, taken, set, same))
  register_single_event_lem v event type slot typed lo hi =
      let taken = Option-cases (v.single type) in
      let set = Status-cases (driver.set_single type true v.driver).0 in
      (ground (arith, typed, lo, hi, taken, set), ground (arith, typed, lo, hi))
