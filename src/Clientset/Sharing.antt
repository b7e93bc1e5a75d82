-- ===== src/Clientset/Sharing.antt =====
-- The two clients of a clientset share one rate limiter.
use test_concurrent_reconcil.Base.{
  true, false, Option, none, some, ◌&&◌, ◌≡◌, refl, ◌⊎◌, inl, inr, arith, Bool-cases, Option-cases,
}
use test_concurrent_reconcil.Kube.{Error}
use test_concurrent_reconcil.Clientset.{
  Config, ClientGo, Clientset, CustomV1alpha1Client, burst_error, not_positive, client_for_config,
  new_for_config, is_unset, both_clients, set_config_defaults, set_custom,
}

module _ {W L Q Se O C D : Type 0} (lib : ClientGo W L Q Se O C D) where
  -- A client that is made from a configuration with a rate limiter uses that limiter.
  pub record Documented (rest_limiter : C → Option L) (discovery_limiter : D → Option L)
      : Type 0 where
    pub rest :
        (c : Config L Q Se O) (l : L) (w : W)
        → c.rate_limiter ≡ some l
        → (lib.rest_client_for c w).0.1 ≡ none
        → rest_limiter (lib.rest_client_for c w).0.0 ≡ some l
    pub discovery :
        (c : Config L Q Se O) (l : L) (w : W)
        → c.rate_limiter ≡ some l
        → (lib.new_discovery_client_for_config c w).0.1 ≡ none
        → discovery_limiter (lib.new_discovery_client_for_config c w).0.0 ≡ some l

  -- What `NewForConfig` may return of a configuration with a rate limiter or a positive QPS.
  pub data Result (rest_limiter : C → Option L) (discovery_limiter : D → Option L)
      (c : Config L Q Se O) (w : W) : (Option (Clientset C D) × Option Error) × W → Type 0 where
    refused :
        c.rate_limiter ≡ none
        → not_positive c.burst ≡ true
        → Result rest_limiter discovery_limiter c w ((none, some burst_error), w)
    rest_failed :
        (used : Config L Q Se O) (w1 : W) (err : Error) (w' : W)
        → (lib.rest_client_for used w1).0.1 ≡ some err
        → Result rest_limiter discovery_limiter c w ((none, some err), w')
    discovery_failed :
        (used : Config L Q Se O) (w1 : W) (err : Error) (w' : W)
        → (lib.new_discovery_client_for_config used w1).0.1 ≡ some err
        → Result rest_limiter discovery_limiter c w ((none, some err), w')
    made :
        (cs : Clientset C D) (client : CustomV1alpha1Client C) (l : L) (w' : W)
        → cs.custom_v1alpha1 ≡ some client
        → rest_limiter client.rest_client ≡ some l
        → discovery_limiter cs.discovery_client ≡ some l
        → (c.rate_limiter ≡ some l) ⊎ ((c.rate_limiter ≡ none) × (not_positive c.burst ≡ false))
        → Result rest_limiter discovery_limiter c w ((some cs, none), w')

  module _ (rest_limiter : C → Option L) (discovery_limiter : D → Option L)
      (doc : Documented rest_limiter discovery_limiter) (c : Config L Q Se O) (w : W) where
    abbrev IsOrigin : L → Type 0
    IsOrigin l =
        (c.rate_limiter ≡ some l) ⊎ ((c.rate_limiter ≡ none) × (not_positive c.burst ≡ false))

    discovery_made :
        (used : Config L Q Se O) (l : L) (client : C) (w1 : W)
        → used.rate_limiter ≡ some l
        → IsOrigin l
        → rest_limiter client ≡ some l
        → (r : (D × Option Error) × W) → lib.new_discovery_client_for_config used w1 ≡ r
        → Result rest_limiter discovery_limiter c w
            (set_custom lib used (some (record { rest_client = client }), none) w1)
    discovery_made used l client w1 limited origin shared ((d, some err), w') e =
        rw e (discovery_failed used w1 err w' (cc (e)))
    discovery_made used l client w1 limited origin shared ((d, none), w') e = rw e (
        made _ (record { rest_client = client }) l w' refl shared
          (cc (doc.discovery used l w1 limited (cc (e)), e)) origin)

    rest_made :
        (used : Config L Q Se O) (l : L) (w1 : W)
        → used.rate_limiter ≡ some l
        → IsOrigin l
        → (r : (C × Option Error) × W) → lib.rest_client_for (set_config_defaults lib used).0 w1 ≡ r
        → Result rest_limiter discovery_limiter c w (both_clients lib used w1)
    unfolding client_for_config
    rest_made used l w1 limited origin ((client, some err), w') e =
        rw e (rest_failed (set_config_defaults lib used).0 w1 err w' (cc (e)))
    rest_made used l w1 limited origin ((client, none), w2) e = rw e (
        discovery_made used l client w2 limited origin
          (cc (doc.rest (set_config_defaults lib used).0 l w1 limited (cc (e)), e))
          (lib.new_discovery_client_for_config used w2) refl)

    -- `NewForConfig` of a configuration that has a rate limiter or a positive QPS, where a client
    -- made from a configuration with a limiter uses it: it returns an error for a burst that is not
    -- positive and no limiter, before anything is called, or the error of one of the two clients,
    -- or else a clientset whose two clients use one limiter: the configuration's, if it has one.
    pub new_for_config-Result :
        (is_unset c.rate_limiter ≡ false) ⊎ (lib.is_positive c.qps ≡ true)
        → Result rest_limiter discovery_limiter c w (new_for_config lib c w)
    unfolding new_for_config
    new_for_config-Result limits = elim (Option-cases c.rate_limiter) [
      | inr (l, given) ↦
          let skips : (is_unset c.rate_limiter && lib.is_positive c.qps) ≡ false =
            simp given refl in
          simp skips (
            rest_made c l w given (inl given) (lib.rest_client_for (set_config_defaults lib c).0 w)
              refl)
      | inl unset ↦
          let makes : (is_unset c.rate_limiter && lib.is_positive c.qps) ≡ true = ground arith in
          elim (Bool-cases (not_positive c.burst)) [
            | inl bad ↦ rw (makes, bad) (refused unset bad)
            | inr good ↦
                let (l, w1) = lib.new_token_bucket_rate_limiter c.qps c.burst w in
                let used : Config L Q Se O = record c { rate_limiter = some l } in
                rw (makes, good)
                  (rest_made used l w1 refl (inr (unset, good))
                    (lib.rest_client_for (set_config_defaults lib used).0 w1) refl)
          ]
    ]
