-- ===== src/Programs/Manager.antt =====
-- cmd/controller/main.go. `Ctor` stands for constructors of controllers, `Cfg` for configurations.
use test_concurrent_reconcil.Base.{ℕ, String, List, [], ◌∷◌, ◌≡◌, refl}
use test_concurrent_reconcil.Kube.{M, ◌>>=◌, ◌>>◌}

-- The process: `controller.DefaultThreadsPerController` of knative.dev/pkg, the value of the flag,
-- and all else.
pub record Process (Y : Type 0) : Type 0 where
  pub default_threads_per_controller : ℕ
  pub threads_per_controller : ℕ
  pub rest : Y

-- `sharedmain` of knative.dev/pkg and the flags of the command line; `ctors` are what is started.
pub record SharedMain (Y Cfg Ctx Ctor : Type 0) : Type 0 where
  pub background : Ctx
  pub parse_and_get_config_or_die : M (Process Y) Cfg
  pub main_with_config : Ctx → String → Cfg → List Ctor → M (Process Y) (Unit {0})

module _ {Y : Type 0} where
  -- `flag.Int` as the package is initialized: until the flag is parsed, it has its default.
  abbrev pub define_flag : Process Y → Process Y
  define_flag p = record p { threads_per_controller = p.default_threads_per_controller }

  -- `controller.DefaultThreadsPerController = *threadsPerController`
  abbrev pub use_flag : Process Y → Process Y
  use_flag p = record p { default_threads_per_controller = p.threads_per_controller }

  abbrev set_threads : M (Process Y) (Unit {0})
  set_threads p = (tt, use_flag p)

module _ {Y Cfg Ctx Ctor : Type 0} (lib : SharedMain Y Cfg Ctx Ctor) (new_controller : Ctor) where
  unfoldable pub main : M (Process Y) (Unit {0})
  main = do
    cfg ← lib.parse_and_get_config_or_die
    set_threads
    lib.main_with_config lib.background "controller" cfg (new_controller ∷ [])

  -- The controllers start with the number of threads that the flag has once it is parsed.
  main-threads :
      (p : Process Y)
      → let (cfg, q) = lib.parse_and_get_config_or_die (define_flag p) in
        main (define_flag p)
        ≡ lib.main_with_config lib.background "controller" cfg
            (new_controller ∷ [])
            (record q { default_threads_per_controller = q.threads_per_controller })
  unfolding main
  main-threads p = refl
