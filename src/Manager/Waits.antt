-- ===== src/Manager/Waits.antt =====
-- src/manager/supervisor.rs: how long the handle waits for stops, and what the stops may take.
use rsupervisord.Prelude.{
  ℕ, ◌+◌, ◌≤◌, min, ◌≡◌, refl, sym, ap, ◌∙◌, arith, true, Option, none, some, List, [], ◌∷◌, Text,
  is_empty, Bool-cases, inl, inr, unwrap_or,
}
use rsupervisord.Dag.{names}
use rsupervisord.Manager.{ProgramConfig, Manager, find_match, stop_wait}
use rsupervisord.Manager.Registered.{Registered}
use rsupervisord.Manager.Entries.{Keyed}
use rsupervisord.Dag.Counts.{Distinct}
use rsupervisord.Manager.Timeouts.{
  Configs, find_targets_for_program, max_timeout, saturating_add, add_or_max, per_target, total_of,
  bounded, compute_stop_program_timeout, default_hook_timeout, stop_grace_extra, drain_timeout,
  await_query,
}
use rsupervisord.Manager.Targets.{
  names_of, targets-eq-find_match, Owned, Owned-find_targets_for_program,
}

add_or_max-le : (a b : ℕ) → min (a + b) max_timeout ≤ add_or_max a b
unfolding add_or_max
add_or_max-le a b = ground arith

saturating_add-le : (a b : ℕ) → min (a + b) max_timeout ≤ saturating_add a b
unfolding saturating_add
saturating_add-le a b = omega arith

-- What a stop that is granted `grace` may take.
abbrev pub stop_span : ℕ → ℕ
stop_span grace = grace + default_hook_timeout + drain_timeout + stop_grace_extra

per_target-le :
    (grace : ℕ)
    → min (stop_span grace) max_timeout ≤ per_target default_hook_timeout stop_grace_extra grace
unfolding per_target
per_target-le grace =
    let hooked = add_or_max grace default_hook_timeout in
    let drained = add_or_max hooked drain_timeout in
    omega (
      arith,
      add_or_max-le grace default_hook_timeout,
      add_or_max-le hooked drain_timeout,
      add_or_max-le drained stop_grace_extra,
    )

abbrev pub stop_spans : Option ℕ → List ProgramConfig → ℕ
stop_spans period [] = 0
stop_spans period (c ∷ cs) = stop_span (unwrap_or period c.stop_wait_secs) + stop_spans period cs

stop_spans-is_empty :
    (period : Option ℕ) (cs : List ProgramConfig) → is_empty cs ≡ true → stop_spans period cs ≡ 0
stop_spans-is_empty period [] h = refl
stop_spans-is_empty period (c ∷ cs) h = ground (arith, h)

total_of-le :
    (period : Option ℕ) (cs : List ProgramConfig) (acc : ℕ)
    → min (acc + stop_spans period cs) max_timeout ≤ total_of stop_grace_extra period cs acc
unfolding total_of
total_of-le period [] acc = omega arith
total_of-le period (c ∷ cs) acc =
    let grace = unwrap_or period c.stop_wait_secs in
    let d = per_target default_hook_timeout stop_grace_extra grace in
    omega (
      arith,
      per_target-le grace,
      saturating_add-le acc d,
      total_of-le period cs (saturating_add acc d),
    )

-- What the stops of a command may take, with the periods that the manager passes on.
abbrev pub stop_calls_span : {H W E : Type 0} → Manager H W E → Option ℕ → List Text → ℕ
stop_calls_span m period [] = 0
stop_calls_span m period (n ∷ ns) = stop_span (stop_wait m period n) + stop_calls_span m period ns

stop_calls_span-names_of :
    {H W E : Type 0} (m : Manager H W E) (period : Option ℕ) (cs : List ProgramConfig)
    → Owned m.configs cs
    → stop_calls_span m period (names_of cs) ≡ stop_spans period cs
unfolding stop_wait
stop_calls_span-names_of m period [] o = refl
stop_calls_span-names_of m none (c ∷ cs) o =
    let rest = stop_calls_span-names_of m none cs o.1 in
    rw (o.0, stop_wait) (ap (λ n. stop_span c.stop_wait_secs + n) rest)
stop_calls_span-names_of m (some p) (c ∷ cs) o =
    ap (λ n. stop_span p + n) (stop_calls_span-names_of m (some p) cs o.1)

stop_spans-le :
    (name : Text) (period : Option ℕ) (configs : Configs)
    → min (stop_spans period (find_targets_for_program name configs)) max_timeout
      ≤ compute_stop_program_timeout name period configs
unfolding compute_stop_program_timeout bounded
stop_spans-le name period configs =
    let targets = find_targets_for_program name configs in
    let total = total_of stop_grace_extra period targets 0 in
    let sum : min (stop_spans period targets) max_timeout ≤ total =
      omega (arith, total_of-le period targets 0) in
    elim (Bool-cases (is_empty targets)) [
      | inl t ↦ ground (arith, t, stop_spans-is_empty period targets t)
      | inr f ↦ ground (arith, f, sum, saturating_add-le total await_query)
    ]

-- Where programs and configurations have the same names, and each configuration stands once,
-- under its name, the handle finds the targets that the manager finds, and the time for which it
-- waits for their stop is at most a day, and at least the least of a day and the sum of what each
-- stop may take: its period in the call, and the constants for the hook, the drain and the grace.
pub compute_stop_program_timeout_covers :
    {H W E : Type 0} (name : Text) (period : Option ℕ) (m : Manager H W E)
    → Registered m
    → Distinct (names m.configs)
    → Keyed m.configs
    → (names_of (find_targets_for_program name m.configs) ≡ find_match name m)
      × (min (stop_calls_span m period (find_match name m)) max_timeout
          ≤ compute_stop_program_timeout name period m.configs)
      × (compute_stop_program_timeout name period m.configs ≤ max_timeout)
compute_stop_program_timeout_covers name period m r d k =
    let targets = find_targets_for_program name m.configs in
    let same = targets-eq-find_match name m r k in
    let spans : stop_calls_span m period (find_match name m) ≡ stop_spans period targets =
      ap (stop_calls_span m period) (sym same)
      ∙ stop_calls_span-names_of m period targets
          (Owned-find_targets_for_program name m.configs d k) in
    (
      same,
      rw spans (stop_spans-le name period m.configs),
      unfold compute_stop_program_timeout bounded in omega arith,
    )
