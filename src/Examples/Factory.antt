-- ===== src/Examples/Factory.antt =====
-- The theorems on the informer factory, at informers that are numbers.
use test_concurrent_reconcil.Base.{ℕ, ◌≤◌, String, none, List, [], ◌∷◌, ◌≡◌, refl, string_eq}
use test_concurrent_reconcil.Base.Maps.{lookup, insert}
use test_concurrent_reconcil.Informers.{
  SharedInformerFactory, informer_for, start_informers, new_filtered_shared_informer_factory,
  new_shared_informer_factory_with_options,
}
use test_concurrent_reconcil.Informers.Once.{
  Use, asked, starts, after_uses, runs, fresh_factory, runs_once, informer_for_again,
}

-- The newest call first: two starts around a second request.
abbrev past : List (Use String ℕ (Unit {0}))
past =
    asked (λ client period. period) "Run"
    ∷ starts
    ∷ asked (λ client period. 2) "Job"
    ∷ asked (λ client period. 1) "Job"
    ∷ []

abbrev used_factory : SharedInformerFactory String ℕ (Unit {0}) (Unit {0}) × List (String × ℕ)
used_factory = after_uses past (fresh_factory tt 30 "default" none)

runs_once_example :
    (runs "Job" used_factory.1 ≤ 1) × (runs "Job" (start_informers used_factory).1 ≡ 1)
unfolding lookup insert informer_for start_informers new_filtered_shared_informer_factory
    new_shared_informer_factory_with_options
runs_once_example = runs_once {Tw = Unit {0}} tt 30 "default" none past "Job" 1 refl

informer_for_again_example :
    (informer_for
      (λ client period. 7)
      "Run"
      (after_uses
        (starts ∷ [])
        ((informer_for (λ client period. 5) "Run" used_factory.0).1, [])).0).0
    ≡ (informer_for (λ client period. 5) "Run" used_factory.0).0
informer_for_again_example =
    informer_for_again (λ client period. 5) (λ client period. 7) "Run" (starts ∷ []) used_factory.0
      []
