-- ===== src/Routing/Lifespan/Tests.antt =====
-- The lifespan at concrete inputs.
use rustlette.Prelude.{ℕ, ◌≡◌, refl, Bool, false, none, List, [], ◌∷◌, ◌==◌}
use rustlette.Routing.Lifespan.{
  LifespanMessage, startup_complete, shutdown_failed, Context, lifespan, default_lifespan, raised,
}

abbrev works : List LifespanMessage → Bool
works sent = false

-- The second handler of the shutdown fails.
abbrev context : Context ℕ
context = default_lifespan (λ handler. handler == 3) (1 ∷ []) (2 ∷ 3 ∷ 4 ∷ [])

failing_shutdown :
    lifespan works context 2 (record { state = none; sent = [] })
    ≡ (raised, record { state = none; sent = startup_complete ∷ shutdown_failed ∷ [] })
unfolding lifespan default_lifespan
failing_shutdown = refl
