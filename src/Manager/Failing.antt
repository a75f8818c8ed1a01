-- ===== src/Manager/Failing.antt =====
-- The steps of the binary at which it exits.
use topovgm.Prelude.{◌≡◌, arith}
use topovgm.Go.{⊤, Error, Outcome, ok, fail}
use topovgm.Manager.Process.{exited, ◌>>=◌, or_exit}
use topovgm.Manager.Runtime.{Flags, Runtime}
use topovgm.Manager.Main.{manager_options, reconciler, setup_with_manager, serve}

module _ {W : Type 0} (rt : Runtime W) (flags : Flags) (scheme : Runtime.Scheme rt)
    (config : Runtime.RestConfig rt) where
  abbrev pub setup : Runtime.Manager rt → W → Outcome ⊤ × W
  setup mgr w = setup_with_manager rt (reconciler rt flags mgr (rt.getenv "NODE_NAME" w)) mgr w

  -- One step returns the error `e` after the steps before it succeeded; then the log is written.
  pub data Fails (w : W) : W → Type 0 where
    no_manager :
        {w1 : W} (e : Error)
        → rt.new_manager config (manager_options rt flags scheme) w ≡ (fail e, w1)
        → Fails w (rt.log_error "unable to start manager" e w1)
    no_controller :
        {mgr : Runtime.Manager rt} {w1 w2 : W} (e : Error)
        → rt.new_manager config (manager_options rt flags scheme) w ≡ (ok mgr, w1)
        → setup mgr w1 ≡ (fail e, w2)
        → Fails w (rt.log_error "unable to create controller" e w2)
    no_health_check :
        {mgr : Runtime.Manager rt} {w1 w2 w3 : W} (e : Error)
        → rt.new_manager config (manager_options rt flags scheme) w ≡ (ok mgr, w1)
        → setup mgr w1 ≡ (ok tt, w2)
        → rt.add_healthz_check mgr "healthz" rt.ping w2 ≡ (fail e, w3)
        → Fails w (rt.log_error "unable to set up health check" e w3)
    no_ready_check :
        {mgr : Runtime.Manager rt} {w1 w2 w3 w4 : W} (e : Error)
        → rt.new_manager config (manager_options rt flags scheme) w ≡ (ok mgr, w1)
        → setup mgr w1 ≡ (ok tt, w2)
        → rt.add_healthz_check mgr "healthz" rt.ping w2 ≡ (ok tt, w3)
        → rt.add_readyz_check mgr "readyz" rt.ping w3 ≡ (fail e, w4)
        → Fails w (rt.log_error "unable to set up ready check" e w4)
    not_running :
        {mgr : Runtime.Manager rt} {w1 w2 w3 w4 w5 : W} (e : Error)
        → rt.new_manager config (manager_options rt flags scheme) w ≡ (ok mgr, w1)
        → setup mgr w1 ≡ (ok tt, w2)
        → rt.add_healthz_check mgr "healthz" rt.ping w2 ≡ (ok tt, w3)
        → rt.add_readyz_check mgr "readyz" rt.ping w3 ≡ (ok tt, w4)
        → rt.start mgr (rt.log_info "starting manager" w4) ≡ (fail e, w5)
        → Fails w (rt.log_error "problem running manager" e w5)

  -- From `NewManager` on, the first step that returns an error ends the process with status 1: the
  -- error is logged, and no later step is called.
  pub serve_exits : {w w' : W} → Fails w w' → serve rt flags scheme config w ≡ (exited 1, w')
  unfolding serve or_exit ◌>>=◌
  serve_exits (no_manager e f) = ground (arith, f)
  serve_exits (no_controller e m f) = ground (arith, m, f)
  serve_exits (no_health_check e m c f) = ground (arith, m, c, f)
  serve_exits (no_ready_check e m c h f) = ground (arith, m, c, h, f)
  serve_exits (not_running e m c h r f) = ground (arith, m, c, h, r, f)
