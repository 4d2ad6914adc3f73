-- ===== src/Program/Loop/Events.antt =====
-- The state changes that an actor publishes, and what adds to them.
use rsupervisord.Prelude.{
  ℕ, ◌==◌, ◌≡◌, refl, arith, Bool, true, false, Option, none, some, List, [], ◌∷◌, ◌++◌,
  if◌then◌else◌, Bool-cases, Option-cases, inl, inr, ◌⊎◌,
}
use rsupervisord.Prelude.Int.{ℤ}
use rsupervisord.Program.State.{ProgramState, state_eq}
use rsupervisord.Program.Status.{
  ProgramConfig, ProgramActor, SystemEvent, Description, Reply, publish, update_status,
}
use rsupervisord.Program.Spawn.{
  Launch, SpawnWorld, run_pre_start, launch_child, spawn_fresh, spawn_child,
}
use rsupervisord.Program.Stop.{StopWorld, run_pre_stop, stop_current_child}

-- The state changes among the events lead from `s` to `t`, each from where the last one ended.
unfoldable pub Chain : ProgramState → List SystemEvent → ProgramState → Type 0
Chain s [] t = s ≡ t
Chain s (SystemEvent.state_changed old_state new_state pid code tries ∷ es) t =
    (s ≡ old_state) × Chain new_state es t
Chain s (_ ∷ es) t = Chain s es t

state_eq_sound : (s t : ProgramState) → state_eq s t ≡ true → s ≡ t
unfolding state_eq
state_eq_sound s t h = ground arith

Chain-change :
    (s t u : ProgramState) (es : List SystemEvent) (pid : Option ℕ) (code : Option ℤ) (n : ℕ)
    → Chain s es t
    → Chain s (es ++ SystemEvent.state_changed t u pid code n ∷ []) u
unfolding Chain
Chain-change s t u [] pid code n c = (c, refl)
Chain-change s t u (SystemEvent.state_changed o v p q k ∷ es) pid code n c =
    (c.0, Chain-change v t u es pid code n c.1)
Chain-change s t u (SystemEvent.health_changed h k ∷ es) pid code n c =
    Chain-change s t u es pid code n c
Chain-change s t u (SystemEvent.process_pre_start h ∷ es) pid code n c =
    Chain-change s t u es pid code n c
Chain-change s t u (SystemEvent.process_pre_stop h ∷ es) pid code n c =
    Chain-change s t u es pid code n c
Chain-change s t u (SystemEvent.process_pre_start_failed h ∷ es) pid code n c =
    Chain-change s t u es pid code n c
Chain-change s t u (SystemEvent.process_pre_stop_failed h ∷ es) pid code n c =
    Chain-change s t u es pid code n c

-- An event that is no state change.
unfoldable pub is_other : SystemEvent → Bool
is_other (SystemEvent.state_changed old_state new_state pid code tries) = false
is_other _ = true

Chain-other :
    (s t : ProgramState) (es : List SystemEvent) (e : SystemEvent)
    → is_other e ≡ true
    → Chain s es t
    → Chain s (es ++ e ∷ []) t
unfolding Chain is_other
Chain-other s t [] (SystemEvent.state_changed o v p q k) h c = absurd (cc h)
Chain-other s t [] (SystemEvent.health_changed x y) h c = c
Chain-other s t [] (SystemEvent.process_pre_start x) h c = c
Chain-other s t [] (SystemEvent.process_pre_stop x) h c = c
Chain-other s t [] (SystemEvent.process_pre_start_failed x) h c = c
Chain-other s t [] (SystemEvent.process_pre_stop_failed x) h c = c
Chain-other s t (SystemEvent.state_changed o v p q k ∷ es) e h c = (c.0, Chain-other v t es e h c.1)
Chain-other s t (SystemEvent.health_changed x y ∷ es) e h c = Chain-other s t es e h c
Chain-other s t (SystemEvent.process_pre_start x ∷ es) e h c = Chain-other s t es e h c
Chain-other s t (SystemEvent.process_pre_stop x ∷ es) e h c = Chain-other s t es e h c
Chain-other s t (SystemEvent.process_pre_start_failed x ∷ es) e h c = Chain-other s t es e h c
Chain-other s t (SystemEvent.process_pre_stop_failed x ∷ es) e h c = Chain-other s t es e h c

update_status-state :
    (state : ProgramState) (pid : Option ℕ) (code : Option ℤ) (d : Description) (a : ProgramActor)
    → (update_status state pid code d a).status.state ≡ state
unfolding update_status
update_status-state state pid code d a = ground arith

update_status-events :
    (state : ProgramState) (pid : Option ℕ) (code : Option ℤ) (d : Description) (a : ProgramActor)
    → ((update_status state pid code d a).events
        ≡ a.events ++ SystemEvent.state_changed a.status.state state pid code a.retry_count ∷ [])
      ⊎ (((update_status state pid code d a).events ≡ a.events) × (a.status.state ≡ state))
unfolding update_status
update_status-events state pid code d a = ground (arith, state_eq_sound a.status.state state)

module _ (s : ProgramState) where
  -- The events of the actor lead from `s` to its state.
  pub record Told (a : ProgramActor) : Type 0 where
    pub chain : Chain s a.events a.status.state

  pub publish-Told :
      (e : SystemEvent) (a : ProgramActor) → is_other e ≡ true → Told a → Told (publish e a)
  unfolding publish
  publish-Told e a h t = record { chain = Chain-other s a.status.state a.events e h t.chain }

  pub update_status-Told :
      (state : ProgramState) (pid : Option ℕ) (code : Option ℤ) (d : Description) (a : ProgramActor)
      → Told a
      → Told (update_status state pid code d a)
  update_status-Told state pid code d a t = record {
    chain =
        rw (update_status-state state pid code d a)
          (elim (update_status-events state pid code d a) [
            | inl e ↦
                rw e (Chain-change s a.status.state state a.events pid code a.retry_count t.chain)
            | inr (e, same) ↦ rw e (rw same at t.chain)
          ]);
  }

  -- Only the events and the state count.
  pub Told-same :
      {a b : ProgramActor} → b.events ≡ a.events → b.status.state ≡ a.status.state → Told a → Told b
  Told-same e e' t = record { chain = rw (e, e') t.chain }

  run_pre_start-Told :
      (c : ProgramConfig) (w : SpawnWorld) (a : ProgramActor)
      → Told a
      → Told (run_pre_start c w a).1
  unfolding run_pre_start is_other
  run_pre_start-Told c w a t = elim (Option-cases c.pre_start) [
    | inl e ↦ simp (run_pre_start, e) t
    | inr (command, e) ↦
        let a1 = publish (SystemEvent.process_pre_start command) a in
        let t1 : Told a1 = publish-Told (SystemEvent.process_pre_start command) a refl t in
        elim (Option-cases w.hook) [
          | inl h ↦ simp (run_pre_start, e, h) t1
          | inr (error, h) ↦
              let t2 = publish-Told (SystemEvent.process_pre_start_failed error) a1 refl t1 in
              elim (Bool-cases c.pre_start_ignore_failure) [
                | inl b ↦ simp (run_pre_start, e, h, b) t2
                | inr b ↦
                    simp (run_pre_start, e, h, b)
                      (update_status-Told ProgramState.fatal none none
                        (Description.pre_start_failed error) _ t2)
              ]
        ]
  ]

  launch_child-Told :
      (c : ProgramConfig) (w : SpawnWorld) (a : ProgramActor) → Told a → Told (launch_child c w a).1
  unfolding launch_child
  launch_child-Told c w a t = go w.launch refl
    where
      go : (l : Launch) → w.launch ≡ l → Told (launch_child c w a).1
      go (Launch.failed error) e = simp (launch_child, e) t
      go (Launch.spawned pid has_stdin) e =
          simp (launch_child, e)
            (Told-same refl refl (
              update_status-Told
                (if c.start_secs == 0 then ProgramState.running else ProgramState.starting)
                (some pid) none
                (if c.start_secs == 0 then Description.running else Description.starting)
                (record a { started_at = some w.now; stdin_open = has_stdin })
                (Told-same refl refl t)))

  spawn_fresh-Told :
      (c : ProgramConfig) (w : SpawnWorld) (a : ProgramActor) → Told a → Told (spawn_fresh c w a).1
  unfolding spawn_fresh
  spawn_fresh-Told c w a t = go (run_pre_start c w (record a { manual_stop = false })) refl
    where
      ready : Told (run_pre_start c w (record a { manual_stop = false })).1
      ready = run_pre_start-Told c w (record a { manual_stop = false }) (Told-same refl refl t)

      go :
          (r : Reply × ProgramActor)
          → run_pre_start c w (record a { manual_stop = false }) ≡ r
          → Told (spawn_fresh c w a).1
      go (Reply.ok, b) e = simp (spawn_fresh, e) (launch_child-Told c w b (rw e at ready))
      go (Reply.err error, b) e = simp (spawn_fresh, e) (rw e at ready)

  pub spawn_child-Told :
      (c : ProgramConfig) (w : SpawnWorld) (a : ProgramActor) → Told a → Told (spawn_child c w a).1
  unfolding spawn_child
  spawn_child-Told c w a t = ground (
    arith,
    t,
    spawn_fresh-Told c w a t,
    spawn_fresh-Told c w (record a { current_child = none }) (Told-same refl refl t),
  )

  run_pre_stop-Told :
      (c : ProgramConfig) (w : StopWorld) (a : ProgramActor) → Told a → Told (run_pre_stop c w a)
  unfolding run_pre_stop is_other
  run_pre_stop-Told c w a t = elim (Option-cases c.pre_stop) [
    | inl e ↦ simp (run_pre_stop, e) t
    | inr (command, e) ↦
        let a1 = publish (SystemEvent.process_pre_stop command) a in
        let t1 : Told a1 = publish-Told (SystemEvent.process_pre_stop command) a refl t in
        elim (Option-cases w.hook) [
          | inl h ↦ simp (run_pre_stop, e, h) t1
          | inr (error, h) ↦
              simp (run_pre_stop, e, h)
                (publish-Told (SystemEvent.process_pre_stop_failed error) a1 refl t1)
        ]
  ]

  pub stop_current_child-Told :
      (c : ProgramConfig) (w : StopWorld) (a : ProgramActor)
      → Told a
      → Told (stop_current_child c w a)
  unfolding stop_current_child
  stop_current_child-Told c w a t =
      let idle : ProgramActor = record a {
        started_at = none;
        stdin_open = false;
        current_child = none;
      } in
      let t' : Told idle = Told-same refl refl t in
      elim (Option-cases a.current_child) [
        | inl e ↦
            simp (stop_current_child, e)
              (update_status-Told ProgramState.stopped none none Description.stopped idle t')
        | inr (child, e) ↦
            simp (stop_current_child, e)
              (update_status-Told ProgramState.stopped none _ _ _ (
                run_pre_stop-Told c w _ (
                  update_status-Told ProgramState.stopping (some child.pid) none
                    Description.stopping idle t')))
      ]
