-- ===== src/Scheduling/Historical/Coverage.antt =====
-- What a schedule of RestrictedHistoricalScheduler.js has collected when it is resolved, through any reloads,
-- and that it can be resolved.
use mathlib.Core.Bool.{false≢true}
use wolfram_price_feed_infra.Base.{
  ℕ, All, none≢some, some-injective, ◌+◌, ◌≤◌, ◌<◌, ◌≡◌, refl, sym, ap, ◌∙◌, arith, subst, ◌⊎◌, inl,
  inr, true, false, Option, some, none, List, [], ◌∷◌, ◌++◌, ℕ_discrete, Bool-cases,
}
use wolfram_price_feed_infra.Scheduling.Historical.{
  Historical, Bounds, Cycle, reload, new, call_operations, operations_ended, backoff_cycles,
  cycle_bounds, round_date_to_minute,
}
use wolfram_price_feed_infra.Scheduling.Historical.Tiles.{
  bounds_of, new-IsPlanned, cycle_of, cycles_of,
}
use wolfram_price_feed_infra.Scheduling.Historical.Life.{
  Run, begin, tick, call, end, reloaded, Covers, AfterTick, past, last, more,
  run_operations-AfterTick, Within, Covers-here, Covers-later, All-without, All-weaken,
}

-- A cycle `k` with bounds `b` about `x`: it was collected, it is ahead, or its timeouts are armed; and no last
-- cycle is called before it was collected.
module _ (total k x : ℕ) (b : Bounds) (within : Within b x) (below : k < total) where
  record IsPlaced (h : Historical) (log : List (Option Bounds)) : Type 0 where
    counted : h.total_cycles ≡ some total
    backs : 0 < h.reload_cycles_backoff
    plan : bounds_of h total k ≡ b
    place :
        Covers log x
        ⊎ ((h.cycle_counter ≤ k)
            ⊎ ((c : Cycle) × (h.armed ≡ some c) × (h.cycle_counter ≤ k + 1) × (c.bounds ≡ some b)))
    last_armed :
        (c : Cycle) → h.armed ≡ some c → c.is_last_cycle ≡ true → Covers log x ⊎ (c.bounds ≡ some b)
    last_called : All (λ (c : Cycle). c.is_last_cycle ≡ true → Covers log x) h.under_way
    settled : h.resolved ≡ true → Covers log x

  here :
      (h : Historical) (log : List (Option Bounds))
      → IsPlaced h log
      → h.cycle_counter ≡ k
      → cycle_bounds h ≡ b
  here h log p e =
      ap (λ o. cycle_bounds (record h { total_cycles = o })) p.counted
      ∙ ap (bounds_of h total) e
      ∙ p.plan

  -- Nothing is armed: the cycle is collected or ahead.
  collected_or_ahead :
      {h : Historical} {log : List (Option Bounds)}
      → h.armed ≡ none
      → IsPlaced h log
      → Covers log x ⊎ (h.cycle_counter ≤ k)
  collected_or_ahead idle p = elim p.place [
    | inl done ↦ inl done
    | inr (inl ahead) ↦ inr ahead
    | inr (inr (c, armed, _, _)) ↦ absurd (none≢some (sym idle ∙ armed))
  ]

  tick-IsPlaced :
      {h h' : Historical} {log : List (Option Bounds)}
      → h.armed ≡ none
      → AfterTick h total h'
      → IsPlaced h log
      → IsPlaced h' log
  unfolding cycle_bounds
  tick-IsPlaced {h} {log} idle (past le) p = record {
    counted = p.counted;
    backs = p.backs;
    plan = p.plan;
    place = inl covered;
    last_armed = λ c e l. inl covered;
    last_called = p.last_called;
    settled = p.settled;
  }
    where
      covered : Covers log x
      covered = elim (collected_or_ahead idle p) [
        | inl done ↦ done
        | inr ahead ↦ absurd (omega (arith, ahead, le, below))
      ]
  tick-IsPlaced {h} {log} idle (last e) p = record {
    counted = p.counted;
    backs = p.backs;
    plan = p.plan;
    place = elim placed [
      | inl done ↦ inl done
      | inr now ↦ inr (
          inr (
            record { bounds = some (cycle_bounds h); is_last_cycle = true },
            refl,
            omega (arith, now),
            ap some (here h log p now),
          ))
    ];
    last_armed = λ c taken l. elim placed [
      | inl done ↦ inl done
      | inr now ↦ inr (
          subst (λ (c : Cycle). c.bounds ≡ some b) (some-injective taken)
            (ap some (here h log p now)))
    ];
    last_called = p.last_called;
    settled = p.settled;
  }
    where
      placed : Covers log x ⊎ (h.cycle_counter ≡ k)
      placed = elim (collected_or_ahead idle p) [
        | inl done ↦ inl done
        | inr ahead ↦ inr (omega (arith, ahead, e, below))
      ]
  tick-IsPlaced {h} {log} idle (more lt) p = record {
    counted = p.counted;
    backs = p.backs;
    plan = p.plan;
    place = elim (collected_or_ahead idle p) [
      | inl done ↦ inl done
      | inr ahead ↦ elim (ℕ_discrete h.cycle_counter k) [
        | yes now ↦ inr (
            inr (
              record { bounds = some (cycle_bounds h); is_last_cycle = false },
              refl,
              omega (arith, now),
              ap some (here h log p now),
            ))
        | no later ↦ inr (inl (omega (arith, ahead, later)))
      ]
    ];
    last_armed = λ c taken l.
        absurd (false≢true (ap (λ (c : Cycle). c.is_last_cycle) (some-injective taken) ∙ l));
    last_called = p.last_called;
    settled = p.settled;
  }

  call-IsPlaced :
      {h : Historical} {log : List (Option Bounds)} (c : Cycle)
      → h.armed ≡ some c
      → IsPlaced h log
      → IsPlaced (call_operations c h) (c.bounds ∷ log)
  unfolding call_operations cycle_bounds
  call-IsPlaced {h} {log} c armed p = record {
    counted = p.counted;
    backs = p.backs;
    plan = p.plan;
    place = elim p.place [
      | inl done ↦ inl (later done)
      | inr (inl ahead) ↦ inr (inl ahead)
      | inr (inr (d, same, near, bounds)) ↦
          inl (now (subst (λ (e : Cycle). e.bounds ≡ some b) (armed_one d same) bounds))
    ];
    last_armed = λ d taken l. absurd (none≢some taken);
    last_called = (
      λ l. elim (p.last_armed c armed l) [ inl done ↦ later done | inr bounds ↦ now bounds ],
      All-weaken (λ d. d.is_last_cycle ≡ true → Covers log x)
          (λ d. d.is_last_cycle ≡ true → Covers (c.bounds ∷ log) x) h.under_way
          (λ d covers l. later (covers l)) p.last_called,
    );
    settled = λ r. later (p.settled r);
  }
    where
      later : Covers log x → Covers (c.bounds ∷ log) x
      later = Covers-later c.bounds log x

      now : c.bounds ≡ some b → Covers (c.bounds ∷ log) x
      now e = Covers-here c.bounds log x e within

      armed_one : (d : Cycle) → h.armed ≡ some d → d ≡ c
      armed_one d same = some-injective (sym same ∙ armed)

  end-IsPlaced :
      {h : Historical} {log : List (Option Bounds)} (c : Cycle) (before after : List Cycle)
      → h.under_way ≡ before ++ c ∷ after
      → IsPlaced h log
      → IsPlaced (operations_ended c (before ++ after) h) log
  unfolding operations_ended cycle_bounds
  end-IsPlaced {h} {log} c before after parts p =
      let (mine, rest) =
        All-without (λ (d : Cycle). d.is_last_cycle ≡ true → Covers log x) before after c
          (subst (All (λ (d : Cycle). d.is_last_cycle ≡ true → Covers log x)) parts
            p.last_called) in
      record {
        counted = p.counted;
        backs = p.backs;
        plan = p.plan;
        place = p.place;
        last_armed = p.last_armed;
        last_called = rest;
        settled = λ r. elim (Bool-cases c.is_last_cycle) [
          | inl l ↦ mine l
          | inr l ↦ p.settled (rw l at r)
        ];
      }

  reload-IsPlaced :
      {h : Historical} {log : List (Option Bounds)} → IsPlaced h log → IsPlaced (reload h) log
  unfolding reload backoff_cycles cycle_bounds
  reload-IsPlaced {h} p = record {
    counted = p.counted;
    backs = p.backs;
    plan = p.plan;
    place = elim p.place [
      | inl done ↦ inl done
      | inr (inl ahead) ↦ inr (inl (omega (arith, ahead)))
      | inr (inr (d, same, near, bounds)) ↦ inr (inl (omega (arith, near, p.backs)))
    ];
    last_armed = λ d taken l. absurd (none≢some taken);
    last_called = p.last_called;
    settled = p.settled;
  }

  run-IsPlaced :
      {begins h : Historical} {log : List (Option Bounds)}
      → IsPlaced begins []
      → Run begins h log
      → IsPlaced h log
  run-IsPlaced p begin = p
  run-IsPlaced p (tick {h} run ticks idle) =
      let before = run-IsPlaced p run in
      tick-IsPlaced idle (run_operations-AfterTick h total before.counted) before
  run-IsPlaced p (call c run armed) = call-IsPlaced c armed (run-IsPlaced p run)
  run-IsPlaced p (end c before after run parts) =
      end-IsPlaced c before after parts (run-IsPlaced p run)
  run-IsPlaced p (reloaded run) = reload-IsPlaced (run-IsPlaced p run)

-- When a schedule is resolved, every instant of the rounded range is within the bounds of a run whose operations
-- were all called, whatever reloads have cleared timeouts in between: it is so where the operation limit is
-- above 0, the range does not end before it starts, a reload goes back at least one cycle, the cron task does
-- not tick while timeouts of its last run are armed, and the scheduler is stopped only to be reloaded.
pub resolved_schedule-Covers :
    (s e limit backoff : ℕ) {h : Historical} {log : List (Option Bounds)} (x : ℕ)
    → 0 < limit
    → 0 < backoff
    → s ≤ e
    → Run (new s e (some limit) none (some backoff)) h log
    → h.resolved ≡ true
    → round_date_to_minute s ≤ x
    → x < round_date_to_minute e
    → Covers log x
unfolding new
resolved_schedule-Covers s e limit backoff x pos back le run done from to =
    let begins = new s e (some limit) none (some backoff) in
    let planned = new-IsPlanned s e limit none (some backoff) pos le in
    let total = cycles_of s e limit in
    let (k, below, after, before) = cycle_of begins total planned x from to in
    let placed =
      run-IsPlaced total k x (bounds_of begins total k) (after, before) below
        (record {
          counted = planned.cycles;
          backs = back;
          plan = refl;
          place = inr (inl (omega arith));
          last_armed = λ d taken l. absurd (none≢some taken);
          last_called = tt;
          settled = λ r. absurd (false≢true r);
        })
        run in
    placed.settled done
