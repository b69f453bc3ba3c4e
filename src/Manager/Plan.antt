-- ===== src/Manager/Plan.antt =====
-- What `main` of cmd/manager/main.go asks of the libraries, and in which order.
use mathlib.Core.List.{append-nil}
use argora.Base.{
  none, some, inl, inr, Bool-cases, if◌then◌else◌, String, Bool, true, false, List, [], ◌∷◌, ◌++◌,
  ◌≡◌, refl, sym,
}
use argora.Errors.{Error, Result, ok, err, panic, is_not_found}
use argora.Manager.{
  FlagVariables, Reconciler, Request, creates_manager, gets_definition, sets_up, adds_healthz_check,
  adds_readyz_check, starts, Runtime, get_flag_variables, manager_options, rate_limiter_of, exited,
  panicked, Running, Boot, ◌>>=◌, pure, exit, request, or_exit, must, found_definition,
  capi_crd_exists, set_up_hosts, main,
}
use argora.Manager.Following.{Accepted, Stopped, Follows, IsStart, Follows-later, bind-IsStart}
use argora.Manager.SettingUp.{
  RateLimiter, set_up_iron_core, set_up_metal3, set_up_update, set_up_ip_pool_import,
  set_up_ip_update,
}

-- The requests for the controller that makes hosts
abbrev pub hosts_plan : Bool → Reconciler → RateLimiter → List Request
hosts_plan true r limiter = sets_up r (set_up_iron_core limiter) ∷ []
hosts_plan false r limiter =
    gets_definition "clusters.cluster.x-k8s.io" ∷ sets_up r (set_up_metal3 limiter) ∷ []

abbrev pub reconciler_of : FlagVariables → Reconciler
reconciler_of f = record { netbox_url = f.netbox_url; interval = some f.reconcile_interval }

-- All requests of a start
abbrev pub plan : FlagVariables → List Request
plan f =
    creates_manager (manager_options f)
      ∷ hosts_plan f.enable_iron_core (reconciler_of f) (rate_limiter_of f)
    ++ sets_up (reconciler_of f) (set_up_update (rate_limiter_of f))
      ∷ sets_up (reconciler_of f) (set_up_ip_pool_import (rate_limiter_of f))
      ∷ sets_up (record { netbox_url = f.netbox_url; interval = none }) set_up_ip_update
      ∷ adds_healthz_check "healthz"
      ∷ adds_readyz_check "readyz"
      ∷ starts
      ∷ []

module _ {M : Runtime} where
  -- The system after a request
  abbrev asked : Request → Running M → Running M
  asked q s = record { state = (M.answer q s.state).1; requests = s.requests ++ (q ∷ []) }

  asked-Accepted :
      (q : Request) (s : Running M)
      → (M.answer q s.state).0 ≡ ok tt
      → Accepted M (q ∷ []) s (asked q s)
  asked-Accepted q s h = record { is_done = refl; accepts = (h, tt); state = refl }

  asked-Stopped :
      {IsFailure : Result (Unit {0}) → Type 0} (q : Request) (qs : List Request) (s : Running M)
      → IsFailure (M.answer q s.state).0
      → Stopped M IsFailure (q ∷ qs) s (asked q s)
  asked-Stopped q qs s h = record {
    accepted = [];
    refused = q;
    left = qs;
    is_plan = refl;
    is_done = refl;
    accepts = tt;
    refuses = h;
  }

  -- A request whose reply is handled by `f`: with no error the rest of the plan follows, with an error
  -- the program exits, and a panic goes through.
  reply-Follows :
      {B : Type 0} (q : Request) (qs : List Request) (f : Result (Unit {0}) → Boot M B)
      (s : Running M) (r : Result (Unit {0}))
      → (M.answer q s.state).0 ≡ r
      → IsStart qs (f (ok tt))
      → ((e : Error) (s' : Running M) → (t : String) × (f (err e) s' ≡ (exited t, s')))
      → ((s' : Running M) → f panic s' ≡ (panicked, s'))
      → Follows (q ∷ qs) s (f r (asked q s)).0 (f r (asked q s)).1
  reply-Follows q qs f s (ok tt) h goes exits panics =
      Follows-later (q ∷ []) qs s (asked q s) _ _ (asked-Accepted q s h) (goes.at (asked q s))
  reply-Follows q qs f s (err e) h goes exits panics =
      rw ((exits e (asked q s)).1) (asked-Stopped q qs s (e, h))
  reply-Follows q qs f s panic h goes exits panics =
      rw (panics (asked q s)) (asked-Stopped q qs s h)

  nothing-IsStart : {A : Type 0} (a : A) → IsStart [] (pure {M = M} a)
  unfolding pure
  nothing-IsStart a = record {
    at = λ s. record { is_done = sym (append-nil s.requests); accepts = tt; state = refl };
  }

  must-IsStart : (t : String) (q : Request) → IsStart (q ∷ []) (must {M = M} t q)
  unfolding must request ◌>>=◌ exit
  must-IsStart t q = record {
    at = λ s.
        reply-Follows q [] (or_exit t) s (M.answer q s.state).0 refl (nothing-IsStart tt)
          (λ e s'. (t, refl)) (λ s'. refl);
  }

  -- What `set_up_hosts` does with the reply to the request for the definition
  abbrev with_definition : Reconciler → RateLimiter → Result (Unit {0}) → Boot M (Unit {0})
  with_definition r limiter reply = found_definition reply >>= λ exists.
      (if exists then pure tt else exit "unable to start Metal3 controller as CAPI CRD is missing")
      >>= λ _. must "unable to create controller" (sets_up r (set_up_metal3 limiter))

  without_definition :
      (r : Reconciler) (limiter : RateLimiter) (e : Error) (s : Running M)
      → (t : String) × (with_definition r limiter (err e) s ≡ (exited t, s))
  unfolding ◌>>=◌ exit pure
  without_definition r limiter e s = elim (Bool-cases (is_not_found e)) [
    | inl missing ↦ rw missing (_, refl)
    | inr other ↦ rw other (_, refl)
  ]

  with_definition-IsStart :
      (r : Reconciler) (limiter : RateLimiter)
      → IsStart (sets_up r (set_up_metal3 limiter) ∷ []) (with_definition r limiter (ok tt))
  unfolding ◌>>=◌ pure
  with_definition-IsStart r limiter = record { at = λ s. (must-IsStart _ _).at s }

  set_up_hosts-IsStart :
      (enabled : Bool) (r : Reconciler) (limiter : RateLimiter)
      → IsStart (hosts_plan enabled r limiter) (set_up_hosts {M = M} enabled r limiter)
  unfolding set_up_hosts capi_crd_exists request ◌>>=◌
  set_up_hosts-IsStart true r limiter = must-IsStart _ _
  set_up_hosts-IsStart false r limiter = record {
    at = λ s.
        reply-Follows (gets_definition "clusters.cluster.x-k8s.io")
          (sets_up r (set_up_metal3 limiter) ∷ []) (with_definition r limiter) s
          (M.answer (gets_definition "clusters.cluster.x-k8s.io") s.state).0 refl
          (with_definition-IsStart r limiter) (without_definition r limiter) (λ s'. refl);
  }

-- `main` asks the libraries for what the flags plan, in that order: the manager, then one of the two
-- controllers that make hosts, with the check for the definition of clusters before `Metal3`, then the
-- three others, the health checks, and the run of the manager. It asks for each only if the libraries
-- have answered all before it without an error, and goes on to its end only if they have answered
-- all: it exits where the last thing that it asked for, the first that was not accepted, was answered
-- with an error, and panics where that panicked. So the manager is not run without all of them.
pub main-IsStart : (M : Runtime) → IsStart (plan (get_flag_variables M)) (main M)
unfolding main
main-IsStart M =
    let f = get_flag_variables M in
    bind-IsStart (creates_manager (manager_options f) ∷ []) _ _ _ (must-IsStart _ _) (λ _.
      bind-IsStart (hosts_plan f.enable_iron_core (reconciler_of f) (rate_limiter_of f)) _ _ _
        (set_up_hosts-IsStart _ _ _)
        (λ _. bind-IsStart (_ ∷ []) _ _ _ (must-IsStart _ _) (λ _.
          bind-IsStart (_ ∷ []) _ _ _ (must-IsStart _ _) (λ _.
            bind-IsStart (_ ∷ []) _ _ _ (must-IsStart _ _) (λ _.
              bind-IsStart (_ ∷ []) _ _ _ (must-IsStart _ _)
                (λ _. bind-IsStart (_ ∷ []) _ _ _ (must-IsStart _ _) (λ _. must-IsStart _ _)))))))
