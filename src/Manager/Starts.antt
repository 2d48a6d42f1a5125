-- ===== src/Manager/Starts.antt =====
-- The order in which the program sets itself up, and how it ends.
use kink.Base.{
  String, ◌≡◌, refl, sym, ◌∙◌, ◌⊎◌, inl, inr, List, [], ◌∷◌, ◌++◌, append_assoc, Try, success,
  failed, Error, wrap, Result, ok, err, panic, Action, ◌>>=◌, ◌>>◌, >>=-ok, arith,
}
use kink.Manager.Types.{
  SchemeGroup, client_go_group, cluster_api_group, control_plane_alpha, infrastructure_alpha,
  control_plane_beta, infrastructure_beta,
}
use kink.Manager.Registrations.{
  control_plane_registration, machine_registration, cluster_registration,
}
use kink.Manager.{
  Flags, options_of, Command, add_to_scheme, get_config_or_die, new_manager, set_up_with_manager,
  add_healthz_check, add_readyz_check, start, Runtime, Process, performed, perform, must_add,
  or_exit, init, main, program,
}

-- Everything that has to be in place, and the start last.
abbrev pub plan : Flags → List Command
plan flags =
    add_to_scheme client_go_group
    ∷ add_to_scheme cluster_api_group
    ∷ add_to_scheme control_plane_alpha
    ∷ add_to_scheme infrastructure_alpha
    ∷ add_to_scheme control_plane_beta
    ∷ add_to_scheme infrastructure_beta
    ∷ get_config_or_die
    ∷ new_manager (options_of flags)
    ∷ set_up_with_manager control_plane_registration
    ∷ set_up_with_manager machine_registration
    ∷ set_up_with_manager cluster_registration
    ∷ add_healthz_check "healthz"
    ∷ add_readyz_check "readyz"
    ∷ start
    ∷ []

-- How the process ends where this command fails: a panic, or status 1 behind a log line.
abbrev pub ending : Command → Error → Result (Unit {0})
ending (add_to_scheme g) e = panic
ending get_config_or_die e = err e
ending (new_manager options) e = err (wrap e "unable to start manager")
ending (set_up_with_manager r) e = err (wrap e "unable to create controller")
ending (add_healthz_check name) e = err (wrap e "unable to set up health check")
ending (add_readyz_check name) e = err (wrap e "unable to set up ready check")
ending start e = err (wrap e "problem running manager")

module _ (R : Runtime) where
  -- The commands succeed one after the other and lead from one state to the other.
  abbrev pub AllSucceed : List Command → R.State → R.State → Type 0
  AllSucceed [] s t = s ≡ t
  AllSucceed (c ∷ cs) s t = (u : R.State) × (R.perform c s ≡ (success tt, u)) × AllSucceed cs u t

  AllSucceed-append :
      (xs ys : List Command) (s t u : R.State)
      → AllSucceed xs s t
      → AllSucceed ys t u
      → AllSucceed (xs ++ ys) s u
  AllSucceed-append [] ys s t u e k = ground arith
  AllSucceed-append (c ∷ xs) ys s t u (v, e, h) k = (v, e, AllSucceed-append xs ys v t u h k)

  -- All commands were performed and the process goes on, or one of them failed, was the last one
  -- performed, and has ended it.
  abbrev pub Ending : List Command → Process R → Result (Unit {0}) × Process R → Type 0
  Ending cs p r =
      ((s : R.State) × AllSucceed cs p.state s
        × (r ≡ (ok tt, record { state = s; commands = p.commands ++ cs })))
      ⊎ ((before after : List Command) × (c : Command) × (e : Error) × (s t : R.State) × (cs
            ≡ before ++ (c ∷ after))
          × AllSucceed before p.state s
          × (R.perform c s ≡ (failed e, t))
          × (r ≡ (ending c e, record { state = t; commands = p.commands ++ (before ++ (c ∷ [])) })))

module _ {R : Runtime} where
  abbrev Performs : List Command → Action (Process R) (Unit {0}) → Type 0
  Performs cs m = (p : Process R) → Ending R cs p (m p)

  -- One command, by an action that ends as this command's failure does.
  Performs-one :
      (c : Command) (m : Action (Process R) (Unit {0}))
      → ((p : Process R) (u : R.State)
          → R.perform c p.state ≡ (success tt, u)
          → m p ≡ (ok tt, performed c p))
      → ((p : Process R) (e : Error) (u : R.State)
          → R.perform c p.state ≡ (failed e, u)
          → m p ≡ (ending c e, performed c p))
      → Performs (c ∷ []) m
  Performs-one c m good bad p = go (R.perform c p.state) refl
    where
      go : (r : Try (Unit {0}) × R.State) → R.perform c p.state ≡ r → Ending R (c ∷ []) p (m p)
      go (success tt, u) e = inl (u, (u, e, refl), good p u e ∙ ground arith)
      go (failed x, u) e = inr ([], [], c, x, p.state, u, refl, refl, e, bad p x u e ∙ ground arith)

  Performs-must : (g : SchemeGroup) → Performs (add_to_scheme g ∷ []) (must_add g)
  Performs-must g =
      Performs-one (add_to_scheme g) (must_add g) (λ p u e. ground arith) (λ p x u e. ground arith)

  Performs-config : Performs (get_config_or_die ∷ []) (perform get_config_or_die)
  Performs-config =
      Performs-one get_config_or_die (perform get_config_or_die) (λ p u e. ground arith)
        (λ p x u e. ground arith)

  Performs-exit :
      (c : Command) (text : String)
      → ((e : Error) → ending c e ≡ err (wrap e text))
      → Performs (c ∷ []) (or_exit c text)
  Performs-exit c text same =
      Performs-one c (or_exit c text) (λ p u e. ground arith) (λ p x u e. ground (arith, same x))

  -- What follows a failure is not run.
  >>=-ending :
      (m : Action (Process R) (Unit {0})) (k : Unit {0} → Action (Process R) (Unit {0}))
      (p q : Process R) (c : Command) (e : Error)
      → m p ≡ (ending c e, q)
      → (m >>= k) p ≡ (ending c e, q)
  >>=-ending m k p q (add_to_scheme g) e h = ground arith
  >>=-ending m k p q get_config_or_die e h = ground arith
  >>=-ending m k p q (new_manager options) e h = ground arith
  >>=-ending m k p q (set_up_with_manager r) e h = ground arith
  >>=-ending m k p q (add_healthz_check name) e h = ground arith
  >>=-ending m k p q (add_readyz_check name) e h = ground arith
  >>=-ending m k p q start e h = ground arith

  Performs->>= :
      (xs ys : List Command) (m : Action (Process R) (Unit {0}))
      (k : Unit {0} → Action (Process R) (Unit {0}))
      → Performs xs m
      → Performs ys (k tt)
      → Performs (xs ++ ys) (m >>= k)
  Performs->>= xs ys m k h l p = elim (h p) [
    | inr (before, after, c, e, s, t, cut, good, bad, ran) ↦
        let q : Process R = record { state = t; commands = p.commands ++ (before ++ (c ∷ [])) } in
        inr (
          before,
          after ++ ys,
          c,
          e,
          s,
          t,
          rw cut (append_assoc before (c ∷ after) ys),
          good,
          bad,
          >>=-ending m k p q c e ran,
        )
    | inl (s, good, ran) ↦
        let q : Process R = record { state = s; commands = p.commands ++ xs } in
        elim (l q) [
          | inl (t, good', ran') ↦ inl (
            t,
            AllSucceed-append R xs ys p.state s t good good',
            >>=-ok m k p ran ∙ ran' ∙ ground (arith, append_assoc p.commands xs ys),
          )
          | inr (before, after, c, e, u, t, cut, good', bad, ran') ↦ inr (
            xs ++ before,
            after,
            c,
            e,
            u,
            t,
            rw cut (sym (append_assoc xs before (c ∷ after))),
            AllSucceed-append R xs before p.state s u good good',
            bad,
            >>=-ok m k p ran
                ∙ ran'
                ∙ ground (
                  arith,
                  append_assoc p.commands xs (before ++ (c ∷ [])),
                  append_assoc xs before (c ∷ []),
                ),
          )
        ]
  ]

  Performs-must->> :
      (g : SchemeGroup) (ys : List Command) (k : Action (Process R) (Unit {0}))
      → Performs ys k
      → Performs (add_to_scheme g ∷ ys) (must_add g >> k)
  Performs-must->> g ys k h =
      Performs->>= (add_to_scheme g ∷ []) ys (must_add g) (λ _. k) (Performs-must g) h

  Performs-exit->> :
      (c : Command) (text : String) (ys : List Command) (k : Action (Process R) (Unit {0}))
      → ((e : Error) → ending c e ≡ err (wrap e text))
      → Performs ys k
      → Performs (c ∷ ys) (or_exit c text >> k)
  Performs-exit->> c text ys k same h =
      Performs->>= (c ∷ []) ys (or_exit c text) (λ _. k) (Performs-exit c text same) h

  Performs-config->> :
      (ys : List Command) (k : Action (Process R) (Unit {0}))
      → Performs ys k
      → Performs (get_config_or_die ∷ ys) (perform get_config_or_die >> k)
  Performs-config->> ys k h =
      Performs->>= (get_config_or_die ∷ []) ys (perform get_config_or_die) (λ _. k) Performs-config
        h

  Performs-init :
      Performs
        (add_to_scheme client_go_group
          ∷ add_to_scheme cluster_api_group
          ∷ add_to_scheme control_plane_alpha
          ∷ add_to_scheme infrastructure_alpha
          ∷ add_to_scheme control_plane_beta
          ∷ add_to_scheme infrastructure_beta
          ∷ [])
        init
  unfolding init
  Performs-init = Performs-must->> client_go_group _ _ (
      Performs-must->> cluster_api_group _ _ (
        Performs-must->> control_plane_alpha _ _ (
          Performs-must->> infrastructure_alpha _ _
            (Performs-must->> control_plane_beta _ _ (Performs-must infrastructure_beta)))))

  Performs-main :
      (flags : Flags)
      → Performs
          (get_config_or_die
            ∷ new_manager (options_of flags)
            ∷ set_up_with_manager control_plane_registration
            ∷ set_up_with_manager machine_registration
            ∷ set_up_with_manager cluster_registration
            ∷ add_healthz_check "healthz"
            ∷ add_readyz_check "readyz"
            ∷ start
            ∷ [])
          (main flags)
  unfolding main
  Performs-main flags =
      let set_up : String = "unable to create controller" in
      Performs-config->> _ _ (
        Performs-exit->> (new_manager (options_of flags)) "unable to start manager" _ _ (λ e. refl)
          (Performs-exit->> (set_up_with_manager control_plane_registration) set_up _ _ (λ e. refl)
            (Performs-exit->> (set_up_with_manager machine_registration) set_up _ _ (λ e. refl)
              (Performs-exit->> (set_up_with_manager cluster_registration) set_up _ _ (λ e. refl)
                (Performs-exit->> (add_healthz_check "healthz") "unable to set up health check" _ _
                  (λ e. refl)
                  (Performs-exit->> (add_readyz_check "readyz") "unable to set up ready check" _ _
                    (λ e. refl) (Performs-exit start "problem running manager" (λ e. refl))))))))

-- The program performs the commands of the plan in their order and each at most once: the six groups
-- of types, the manager's configuration and options, the three controllers, the two checks, and the
-- start as the last one. It returns exactly if all of them have succeeded. The first command that
-- fails is the last one performed, so nothing is started in an unfinished set-up: it is a panic
-- where a group of types is added, and otherwise ends the process with status 1 behind the log line
-- of this command.
pub program_lem :
    (R : Runtime) (flags : Flags) (p : Process R) → Ending R (plan flags) p (program flags p)
unfolding program
program_lem R flags p =
    Performs->>= _ _ (init {R = R}) (λ _. main flags) Performs-init (Performs-main flags) p
