-- ===== src/Events/Stepping/Laws.antt =====
-- libvmi/events.c: step_vcpus counts the events that are being stepped.
use libvmi.Common.{
  ℕ, ◌+◌, ◌^◌, ◌%◌, ◌==◌, ◌<◌, ◌≤◌, true, false, List, [], ◌∷◌, ◌++◌, if◌then◌else◌, if_elim,
  Bool-cases, ◌≡◌, refl, arith,
}
use libvmi.Cache.Table.{GHashTable, is_some}
use libvmi.Events.{EventDriver, EventConf}
use libvmi.Events.Register.{vmi_register_event, register_singlestep_event}
use libvmi.Types.{Status-cases}
use libvmi.Events.Stepping.{
  StepWrapper, Stepping, prepend_all, indexed, counted, with_single_event, queued, vmi_step_event,
  steps_left, fire, finish, step_loop, step_and_reg_events,
}

-- How many elements of a queue are for a vcpu.
unfoldable pub count : ℕ → List StepWrapper → ℕ
count k [] = 0
count k (w ∷ ws) = (if w.vcpu_id == k then 1 else 0) + count k ws

count-append : (k : ℕ) (ws vs : List StepWrapper) → count k (ws ++ vs) ≡ count k ws + count k vs
unfolding count
count-append k [] vs = omega arith
count-append k (w ∷ ws) vs = omega (arith, count-append k ws vs)

count-prepend_all :
    (k : ℕ) (ws vs : List StepWrapper) → count k (prepend_all ws vs) ≡ count k ws + count k vs
unfolding count prepend_all
count-prepend_all k [] vs = omega arith
count-prepend_all k (w ∷ ws) vs = omega (arith, count-prepend_all k ws (w ∷ vs))

counted_copy :
    (k n : ℕ) (ws : List StepWrapper)
    → n ≡ 0 + count k ws
    → n ≡ count k (prepend_all ws []) + count k [] + count k []
unfolding count
counted_copy k n ws e = omega (arith, e, count-prepend_all k ws [])

module _ (t : GHashTable ℕ ℕ ◌==◌) {D : Type 0} (driver : EventDriver D) (conf : EventConf)
    (call : ℕ → ℕ → Stepping t D → Stepping t D) (step_event_free : ℕ) where
  -- No index beyond step_vcpus has been used, each counter of a vcpu, of 32 bits, counts the queue and
  -- `more` elements, and there are none for a vcpu that has no counter.
  abbrev pub IsCounted : (ℕ → ℕ) → Stepping t D → Type 0
  IsCounted more s =
      (s.in_bounds ≡ true)
      × ((k : ℕ) → k < 32 → s.step_vcpus k ≡ (more k + count k s.step_events) % 2 ^ 32)
      × ((k : ℕ) → 32 ≤ k → more k + count k s.step_events ≡ 0)

  -- What else is in hand when a callback runs, it stays counted.
  abbrev pub IsCounting : Type 0
  IsCounting =
      (more : ℕ → ℕ) (cb event : ℕ) (s : Stepping t D)
      → IsCounted more s
      → IsCounted more (call cb event s)

  queued-IsCounted :
      (more : ℕ → ℕ) (s : Stepping t D) (w : StepWrapper)
      → w.vcpu_id < 32
      → IsCounted more s
      → IsCounted more (queued t driver conf call step_event_free s w)
  unfolding queued counted indexed count
  queued-IsCounted more s w small (inside, ok, few) = (
    ground (arith, inside, small),
    λ k h. ground (arith, ok k h, ok w.vcpu_id small),
    λ k h. ground (arith, small, h, few k h),
  )

  indexed-IsCounted :
      (more : ℕ → ℕ) (s : Stepping t D) (vcpu : ℕ)
      → vcpu < 32
      → IsCounted more s
      → IsCounted more (indexed t driver conf call step_event_free s vcpu)
  unfolding indexed
  indexed-IsCounted more s vcpu small (inside, ok, few) = (ground (arith, inside, small), ok, few)

  -- For one of the first 32 vcpus, vmi_step_event keeps every counter of a vcpu equal to the number of
  -- the queue's elements for it, modulo 2 ^ 32, whether it succeeds or fails, and whatever else is to
  -- be counted, and uses no index beyond the counters.
  pub vmi_step_event-IsCounted :
      (more : ℕ → ℕ) (s : Stepping t D) (single : ℕ) (w : StepWrapper)
      → w.vcpu_id < 32
      → IsCounted more s
      → IsCounted more (vmi_step_event t driver conf call step_event_free s single w).1
  unfolding vmi_step_event with_single_event
  vmi_step_event-IsCounted more s single w small (inside, ok, few) =
      let s₀ = indexed t driver conf call step_event_free s w.vcpu_id in
      let s₁ = with_single_event t driver conf call step_event_free s single w.vcpu_id in
      let (rc, vmi) = register_singlestep_event t driver conf s₁.vmi single in
      let s₂ = record s₁ { vmi = vmi } in
      let (a₀, b₀, c₀) = indexed-IsCounted more s w.vcpu_id small (inside, ok, few) in
      let (a₁, b₁, c₁) = queued-IsCounted more s₀ w small (a₀, b₀, c₀) in
      let (a₂, b₂, c₂) = queued-IsCounted more s₂ w small (inside, ok, few) in
      let set = Status-cases rc in
      let on = Bool-cases (is_some (t.lookup s.vmi.ss_events w.vcpu_id)) in
      (
        ground (arith, inside, a₀, a₁, a₂, set, on),
        λ k h. ground (arith, ok k h, b₀ k h, b₁ k h, b₂ k h, set, on),
        λ k h. ground (arith, few k h, c₀ k h, c₁ k h, c₂ k h, set, on),
      )

  fire-IsCounted :
      (more : ℕ → ℕ) (s : Stepping t D) (w : StepWrapper)
      → IsCounting
      → IsCounted more s
      → IsCounted more (fire t driver conf call step_event_free s w)
  unfolding fire
  fire-IsCounted more s w fair ok =
      if_elim (IsCounted more) (w.cb == 0)
        (record s { vmi = (vmi_register_event t driver conf s.vmi w.event).1 })
        (call w.cb w.event s) (λ y. ok) (λ n. fair more w.cb w.event s ok)

  finish-IsCounted :
      (more : ℕ → ℕ) (s : Stepping t D) (single : ℕ) (w : StepWrapper)
      → IsCounting
      → IsCounted (λ k. (if w.vcpu_id == k then 1 else 0) + more k) s
      → IsCounted more (finish t driver conf call step_event_free s single w).1
  unfolding finish counted indexed
  finish-IsCounted more s single w fair ok =
      let (inside, fired, few) =
        fire-IsCounted (λ k. (if w.vcpu_id == k then 1 else 0) + more k) s w fair ok in
      let small : w.vcpu_id < 32 = ground (arith, few w.vcpu_id) in
      (
        ground (arith, inside, small),
        λ k h. ground (arith, fired k h, fired w.vcpu_id small),
        λ k h. ground (arith, few k h),
      )

  step_loop-IsCounted :
      (ws : List StepWrapper) (single : ℕ) (remain : List StepWrapper) (s : Stepping t D)
      → IsCounting
      → IsCounted (λ k. count k ws + count k remain) s
      → let (remain', s') = step_loop t driver conf call step_event_free ws single remain s in
        IsCounted (λ k. count k remain') s'
  unfolding step_loop count
  step_loop-IsCounted [] single remain s fair (inside, ok, few) =
      (inside, λ k h. omega (arith, ok k h), λ k h. omega (arith, few k h))
  step_loop-IsCounted (w ∷ ws) single remain s fair (inside, ok, few) =
      let left = steps_left t driver conf call step_event_free s single w in
      let done = finish t driver conf call step_event_free s single w in
      let next = if left == 0 then done else (single, s) in
      let kept = record w { steps = left } ∷ remain in
      let remain' = if left == 0 then remain else kept in
      let finished =
        finish-IsCounted (λ k. count k ws + count k remain) s single w fair
          (inside, λ k h. ground (arith, ok k h), λ k h. ground (arith, few k h)) in
      let stays : IsCounted (λ k. count k ws + count k kept) s =
        (inside, λ k h. ground (arith, ok k h), λ k h. ground (arith, few k h)) in
      let goes : IsCounted (λ k. count k ws + count k remain') next.1 =
        (elim (left == 0)
          as (λ b.
            IsCounted (λ k. count k ws + count k (if b then remain else kept))
              (if b then done else (single, s)).1) [ true ↦ finished | false ↦ stays ]) in
      step_loop-IsCounted ws next.0 remain' next.1 fair goes

  -- step_and_reg_events keeps every counter of a vcpu equal to the number of the queue's elements for
  -- it, modulo 2 ^ 32, and uses no index beyond the 32 counters, if the elements of the queue are all
  -- for one of the first 32 vcpus and the callbacks of the program keep this up, whatever else is to be
  -- counted: elements that a callback puts into the queue are counted with those that remain.
  pub step_and_reg_events-IsCounted :
      (s : Stepping t D) (single : ℕ)
      → IsCounting
      → IsCounted (λ k. 0) s
      → IsCounted (λ k. 0) (step_and_reg_events t driver conf call step_event_free s single)
  unfolding step_and_reg_events
  step_and_reg_events-IsCounted s single fair (inside, ok, few) =
      let start = record s { step_events = [] } in
      let copy = prepend_all s.step_events [] in
      let (remain, s') = step_loop t driver conf call step_event_free copy single [] start in
      let copied = λ (k : ℕ). counted_copy k (0 + count k s.step_events) s.step_events refl in
      let (inside', ok', few') =
        step_loop-IsCounted copy single [] start fair (
          inside,
          λ k h. omega (arith, ok k h, copied k),
          λ k h. omega (arith, few k h, copied k),
        ) in
      (
        inside',
        λ k h. omega (arith, ok' k h, count-append k remain s'.step_events),
        λ k h. omega (arith, few' k h, count-append k remain s'.step_events),
      )
