-- ===== src/Tasks/SrtLaws.antt =====
-- When a reconnection loop of src/srt_stream.rs gives up.
use mathlib.Core.List.{append_assoc}
use stream_gateway.Common.{
  ℕ, zero, suc, ◌+◌, ◌≤◌, ◌<◌, ◌≡◌, ◌↔◌, refl, sym, ap, ◌∙◌, true, false, Option, List, [], ◌∷◌,
  ◌++◌, inl, inr, leb, leb→le, leb→lt, Bool-cases, replicate, arith, subst,
}
use stream_gateway.Common.Texts.{Text}
use stream_gateway.Models.Status.{StreamStatus}
use stream_gateway.StateProcessor.Handlers.{StateChange}
use stream_gateway.Tasks.Messages.{Message}
use stream_gateway.Tasks.Srt.{
  Turn, failure, success, cancel, Inner, Ending, max_retries, reconnect_loop,
}

module _ {ℓ} {E : Type ℓ} (inner : List E → List Message × Inner)
    (notify : StreamStatus → Option ℕ → Option Text → StateChange) (initial : StreamStatus)
    (address : Text → Text) where
  run : ℕ → List (Turn E) → List Message × Ending
  run = reconnect_loop inner notify initial address

  -- The ending after a socket, by how the inner loop ended.
  abbrev pub ended : Ending → Inner → Ending
  ended later Inner.broken = later
  ended later Inner.cancelled = Ending.cancelled
  ended later Inner.closed = Ending.closed
  ended later Inner.ongoing = Ending.running

  pub ending-success :
      (k : ℕ) (peer : Text) (now : ℕ) (events : List E) (turns : List (Turn E))
      → (reconnect_loop inner notify initial address k (success peer now events ∷ turns)).1
        ≡ ended (reconnect_loop inner notify initial address 0 turns).1 (inner events).1
  unfolding reconnect_loop
  ending-success k peer now events turns = go (inner events).1 refl
    where
      go :
          (over : Inner)
          → (inner events).1 ≡ over
          → (reconnect_loop inner notify initial address k (success peer now events ∷ turns)).1
            ≡ ended (reconnect_loop inner notify initial address 0 turns).1 (inner events).1
      go Inner.broken h = rw (h, reconnect_loop) refl
      go Inner.cancelled h = rw (h, reconnect_loop) refl
      go Inner.closed h = rw (h, reconnect_loop) refl
      go Inner.ongoing h = rw (h, reconnect_loop) refl

  pub ending-failure :
      (k : ℕ) (turns : List (Turn E))
      → leb max_retries (suc k) ≡ false
      → (reconnect_loop inner notify initial address k (failure ∷ turns)).1
        ≡ (reconnect_loop inner notify initial address (suc k) turns).1
  unfolding reconnect_loop
  ending-failure k turns h = rw (h, reconnect_loop) refl

  -- A task that gave up has not ended with a socket that did not break.
  pub gave_up-success :
      (later : Ending) (over : Inner)
      → ended later over ≡ Ending.gave_up
      → (over ≡ Inner.broken) × (later ≡ Ending.gave_up)
  gave_up-success later Inner.broken e = (refl, e)
  gave_up-success later Inner.cancelled e = absurd (cc)
  gave_up-success later Inner.closed e = absurd (cc)
  gave_up-success later Inner.ongoing e = absurd (cc)

  -- The task goes on after every one of the turns: there is no socket, or it breaks.
  abbrev pub GoesOn : List (Turn E) → Type 0
  GoesOn [] = Unit {0}
  GoesOn (failure ∷ turns) = GoesOn turns
  GoesOn (success peer now events ∷ turns) = ((inner events).1 ≡ Inner.broken) × GoesOn turns
  GoesOn (cancel begun ∷ turns) = ⊥

  gives_up-failures :
      (n k : ℕ) (after : List (Turn E))
      → k < 10
      → 10 ≤ k + n
      → (run k (replicate n failure ++ after)).1 ≡ Ending.gave_up
  unfolding run reconnect_loop replicate
  gives_up-failures zero k after small enough = absurd (omega arith)
  gives_up-failures (suc n) k after small enough = elim (Bool-cases (leb max_retries (suc k))) [
    | inl e ↦ rw (e, reconnect_loop) refl
    | inr e ↦
        rw (e, reconnect_loop)
          (gives_up-failures n (suc k) after (leb→lt 10 (suc k) e) (omega (arith, enough)))
  ]

  gives_up-before :
      (before : List (Turn E)) (k : ℕ) (after : List (Turn E))
      → k < 10
      → GoesOn before
      → (run k (before ++ (replicate 10 failure ++ after))).1 ≡ Ending.gave_up
  unfolding run reconnect_loop
  gives_up-before [] k after small on = gives_up-failures 10 k after small (omega arith)
  gives_up-before (failure ∷ before) k after small on =
      elim (Bool-cases (leb max_retries (suc k))) [
        | inl e ↦ rw (e, reconnect_loop) refl
        | inr e ↦
            rw (e, reconnect_loop) (gives_up-before before (suc k) after (leb→lt 10 (suc k) e) on)
      ]
  gives_up-before (success peer now events ∷ before) k after small on =
      rw (on.0, reconnect_loop) (gives_up-before before 0 after (omega arith) on.1)
  gives_up-before (cancel begun ∷ before) k after small on = absurd on

  -- Ten failures in a row, after turns that the task survives.
  unfoldable pub TenFailures : List (Turn E) → Type ℓ
  unfolding replicate
  TenFailures turns =
      (before : List (Turn E)) × (after : List (Turn E)) × GoesOn before
      × (turns ≡ before ++ (replicate 10 failure ++ after))

  replicate-failure :
      (k : ℕ) (turns : List (Turn E))
      → replicate k failure ++ (failure ∷ turns) ≡ replicate (suc k) failure ++ turns
  unfolding replicate
  replicate-failure zero turns = refl
  replicate-failure (suc k) turns = ap (◌∷◌ failure) (replicate-failure k turns)

  failures-GoesOn :
      (k : ℕ) (turns : List (Turn E)) → GoesOn turns → GoesOn (replicate k failure ++ turns)
  unfolding replicate
  failures-GoesOn zero turns on = on
  failures-GoesOn (suc k) turns on = failures-GoesOn k turns on

  gives_up-TenFailures :
      (turns : List (Turn E)) (k : ℕ)
      → k < 10
      → (run k turns).1 ≡ Ending.gave_up
      → TenFailures (replicate k failure ++ turns)
  unfolding run reconnect_loop TenFailures
  gives_up-TenFailures [] k small e = absurd (cc)
  gives_up-TenFailures (failure ∷ turns) k small e = elim (Bool-cases (leb max_retries (suc k))) [
    | inl h ↦ (
      [],
      turns,
      tt,
      replicate-failure k turns ∙ ap (λ n. replicate n failure ++ turns) (tenth h),
    )
    | inr h ↦
        subst (λ (t : List (Turn E)). TenFailures t) (sym (replicate-failure k turns))
          (gives_up-TenFailures turns (suc k) (leb→lt 10 (suc k) h)
            (sym (ending-failure k turns h) ∙ e))
  ]
    where
      tenth : leb max_retries (suc k) ≡ true → suc k ≡ 10
      tenth h = omega (arith, leb→le 10 (suc k) h)
  gives_up-TenFailures (success peer now events ∷ turns) k small e =
      let (h, later) =
        gave_up-success (run 0 turns).1 (inner events).1
          (sym (ending-success k peer now events turns) ∙ e) in
      let (b, after, on, same) = gives_up-TenFailures turns 0 (omega arith) later in
      (
        replicate k failure ++ success peer now events ∷ b,
        after,
        failures-GoesOn k (success peer now events ∷ b) (h, on),
        ap (λ t. replicate k failure ++ success peer now events ∷ t) same
            ∙ sym (
                append_assoc (replicate k failure) (success peer now events ∷ b)
                  (replicate 10 failure ++ after)),
      )
  gives_up-TenFailures (cancel begun ∷ turns) k small e = absurd (cc)

  -- The loop gives up if and only if ten attempts in a row get no socket, after turns that each ended
  -- without a socket or with one that broke.
  pub reconnect_loop-gives_up :
      (turns : List (Turn E))
      → ((reconnect_loop inner notify initial address 0 turns).1 ≡ Ending.gave_up)
        ↔ TenFailures turns
  unfolding run TenFailures replicate
  reconnect_loop-gives_up turns = (
    gives_up-TenFailures turns 0 (omega arith),
    λ (before, after, on, same). rw same (gives_up-before before 0 after (omega arith) on),
  )
