-- ===== src/Manager/Serving.antt =====
-- How the binary ends: it returns exactly when each of its steps succeeds.
use topovgm.Prelude.{◌≡◌, refl, ◌↔◌, arith, true, false, none, some, [], ◌∷◌, if◌then◌else◌}
use topovgm.Prelude.Int.{pos}
use topovgm.Go.{Error, ok, M}
use topovgm.Manager.Process.{
  Ended, returned, exited, Process, ◌>>=◌, ◌>>◌, acting, asking, or_exit, must,
}
use topovgm.Manager.Runtime.{Flags, volume_group, volume_group_list, Runtime}
use topovgm.Manager.Scheme.{init_scheme}
use topovgm.Manager.Main.{serve, main, program}

module _ {W A : Type 0} where
  resumed :
      {B : Type 0} (s : Ended A × W) (f : A → Process W B) {b : B} {w' : W}
      → (elim s.0 [ returned a ↦ f a s.1 | exited n ↦ (exited n, s.1) ]) ≡ (returned b, w')
      → (a : A) × (v : W) × (s ≡ (returned a, v)) × (f a v ≡ (returned b, w'))
  resumed (returned a, w) f h = (a, w, refl, h)
  resumed (exited n, w) f h = cc

  >>=-eq-returned :
      {B : Type 0} (m : Process W A) (f : A → Process W B) (w : W) {b : B} {w' : W}
      → (m >>= f) w ≡ (returned b, w')
      → (a : A) × (v : W) × (m w ≡ (returned a, v)) × (f a v ≡ (returned b, w'))
  unfolding ◌>>=◌
  >>=-eq-returned m f w h = resumed (m w) f h

  or_exit-eq-returned :
      (log : Error → W → W) (m : M W A) (w : W) {a : A} {w' : W}
      → or_exit log m w ≡ (returned a, w')
      → m w ≡ (ok a, w')
  unfolding or_exit
  or_exit-eq-returned log m w h = ground arith

  must-eq-returned :
      (m : M W A) (w : W) {a : A} {w' : W} → must m w ≡ (returned a, w') → m w ≡ (ok a, w')
  unfolding must
  must-eq-returned m w h = ground arith

module _ {W B : Type 0} where
  asked :
      {A : Type 0} (f : W → A) (k : A → Process W B) (w : W) {r : Ended B × W}
      → (asking f >>= k) w ≡ r
      → k (f w) w ≡ r
  unfolding ◌>>=◌
  asked f k w h = h

  acted :
      (f : W → W) (k : Process W B) (w : W) {r : Ended B × W} → (acting f >> k) w ≡ r → k (f w) ≡ r
  unfolding ◌>>=◌
  acted f k w h = h

module _ {W : Type 0} (rt : Runtime W) where
  -- From `NewManager` on, every step succeeds in the world that the one before it left: the manager
  -- gets the scheme and the options of the flags, with the filter of requests for metrics only where
  -- these are served securely, and the reconciler for volume groups gets the manager's client and
  -- scheme, the node of the environment and the interval.
  pub record Serves (flags : Flags) (scheme : Runtime.Scheme rt) (config : Runtime.RestConfig rt)
      (w w' : W) : Type 0 where
    pub mgr : Runtime.Manager rt
    pub managed : W
    pub set_up : W
    pub healthy : W
    pub ready : W
    pub new_manager :
        rt.new_manager config
          (record {
            scheme = scheme;
            metrics = record {
              bind_address = flags.metrics_addr;
              secure_serving = flags.secure_metrics;
              filter_provider =
                  if flags.secure_metrics
                  then some rt.with_authentication_and_authorization
                  else none;
            };
            webhook_server = rt.new_webhook_server;
            health_probe_bind_address = flags.probe_addr;
            leader_election = flags.enable_leader_election;
            leader_election_id = "c43d834a.io";
            leader_election_release_on_cancel = true;
          })
          w
        ≡ (ok mgr, managed)
    pub complete :
        rt.complete mgr volume_group
          (record {
            client = rt.get_client mgr;
            scheme = rt.get_scheme mgr;
            lvm = rt.new_lvm_client;
            config = record {
              node_name = rt.getenv "NODE_NAME" managed;
              sync_interval = flags.volume_group_sync_interval;
            };
          })
          managed
        ≡ (ok tt, set_up)
    pub add_healthz_check : rt.add_healthz_check mgr "healthz" rt.ping set_up ≡ (ok tt, healthy)
    pub add_readyz_check : rt.add_readyz_check mgr "readyz" rt.ping healthy ≡ (ok tt, ready)
    pub start : rt.start mgr (rt.log_info "starting manager" ready) ≡ (ok tt, w')

  serve-Serves :
      (flags : Flags) (scheme : Runtime.Scheme rt) (config : Runtime.RestConfig rt) (w w' : W)
      → serve rt flags scheme config w ≡ (returned tt, w')
      → Serves flags scheme config w w'
  unfolding serve
  serve-Serves flags scheme config w w' h =
      let (mgr, managed, new, h1) = >>=-eq-returned _ _ w h in
      let (u, set_up, complete, h2) = >>=-eq-returned _ _ managed (asked _ _ managed h1) in
      let (v, healthy, healthz, h3) = >>=-eq-returned _ _ set_up h2 in
      let (x, ready, readyz, h4) = >>=-eq-returned _ _ healthy h3 in
      record {
        mgr = mgr;
        managed = managed;
        set_up = set_up;
        healthy = healthy;
        ready = ready;
        new_manager = or_exit-eq-returned _ _ w new;
        complete = or_exit-eq-returned _ _ managed complete;
        add_healthz_check = or_exit-eq-returned _ _ set_up healthz;
        add_readyz_check = or_exit-eq-returned _ _ healthy readyz;
        start = or_exit-eq-returned _ _ _ (acted _ _ ready h4);
      }

  Serves-serve :
      (flags : Flags) (scheme : Runtime.Scheme rt) (config : Runtime.RestConfig rt) (w w' : W)
      → Serves flags scheme config w w'
      → serve rt flags scheme config w ≡ (returned tt, w')
  unfolding serve or_exit ◌>>=◌
  Serves-serve flags scheme config w w' s =
      ground (arith, s.new_manager, s.complete, s.add_healthz_check, s.add_readyz_check, s.start)

  -- Client-go's types and then the volume group and its list, in the version topolvm.io/v1alpha1, are
  -- added to the scheme, the flags are parsed by the names and defaults written here, a
  -- configuration is found, and then the manager serves.
  pub record IsServed (w w' : W) : Type 0 where
    pub client_go : Runtime.Scheme rt
    pub scheme : Runtime.Scheme rt
    pub flags : Flags
    pub config : Runtime.RestConfig rt
    pub added : W
    pub initialized : W
    pub parsed : W
    pub configured : W
    pub add_client_go : rt.add_client_go_to_scheme rt.new_scheme w ≡ (ok client_go, added)
    pub add_to_scheme :
        rt.build
          (rt.register
            (volume_group ∷ volume_group_list ∷ [])
            (rt.new_builder (record { group = "topolvm.io"; version = "v1alpha1" })))
          client_go
          added
        ≡ (ok scheme, initialized)
    pub parse_flags :
        rt.parse_flags
          (record {
            metrics_addr = record { name = "metrics-bind-address"; default = "0" };
            probe_addr = record { name = "health-probe-bind-address"; default = ":8081" };
            enable_leader_election = record { name = "leader-elect"; default = false };
            secure_metrics = record { name = "metrics-secure"; default = true };
            volume_group_sync_interval = record {
              name = "volume-group-sync-interval";
              default = pos 10000000000;
            };
          })
          initialized
        ≡ (returned flags, parsed)
    pub get_config : rt.get_config_or_die (rt.set_up_logging parsed) ≡ (returned config, configured)
    pub serves : Serves flags scheme config configured w'

  program-IsServed : (w w' : W) → program rt w ≡ (returned tt, w') → IsServed w w'
  unfolding program main init_scheme
  program-IsServed w w' h =
      let (scheme, initialized, init, h1) = >>=-eq-returned _ _ w h in
      let (client_go, added, client, h2) = >>=-eq-returned _ _ w init in
      let (flags, parsed, parse, h3) = >>=-eq-returned _ _ initialized h1 in
      let (config, configured, get, h4) = >>=-eq-returned _ _ _ (acted _ _ parsed h3) in
      record {
        client_go = client_go;
        scheme = scheme;
        flags = flags;
        config = config;
        added = added;
        initialized = initialized;
        parsed = parsed;
        configured = configured;
        add_client_go = must-eq-returned _ w client;
        add_to_scheme = must-eq-returned _ added h2;
        parse_flags = parse;
        get_config = get;
        serves = serve-Serves flags scheme config configured w' h4;
      }

  IsServed-program : (w w' : W) → IsServed w w' → program rt w ≡ (returned tt, w')
  unfolding program main init_scheme must ◌>>=◌
  IsServed-program w w' s = ground (
    arith,
    s.add_client_go,
    s.add_to_scheme,
    s.parse_flags,
    s.get_config,
    Serves-serve s.flags s.scheme s.config s.configured w' s.serves,
  )

  -- The binary returns exactly if client-go's types and its own two are registered in this order, its
  -- flags parsed by their names and defaults, a configuration found, and the manager is created with the
  -- scheme and the options of the flags, given the reconciler and the two checks, and has run to its
  -- end without an error, each step in the world that the one before it left. The metrics are served
  -- behind authentication exactly if the flags ask for secure serving.
  pub program_returns_iff : (w w' : W) → (program rt w ≡ (returned tt, w')) ↔ IsServed w w'
  program_returns_iff w w' = (program-IsServed w w', IsServed-program w w')
