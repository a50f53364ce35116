-- ===== src/Profile/Fake.antt =====
-- go/internal/profile/fake.go: the store that tests use in place of Redis.
use payment_infrastructure.Base.{List, [], ◌∷◌, ◌++◌, none, some, Map, lookup}
use payment_infrastructure.Base.Float.{Float64}
use payment_infrastructure.Contract.Event.{Event}
use payment_infrastructure.Contract.Profile.{ProfileBundle}
use payment_infrastructure.Profile.Empty.{empty_bundle}

pub record FakeProfileStore (F : Type 0) : Type 0 where
  pub bundles : Map (ProfileBundle F)
  pub applied_events : List Event

abbrev pub new_fake_profile_store : {F : Type 0} → FakeProfileStore F
new_fake_profile_store = record { bundles = []; applied_events = [] }

module _ {F : Type 0} ⦃f : Float64 F⦄ where
  unfoldable pub fake_load : Event → FakeProfileStore F → ProfileBundle F
  fake_load ev s = elim (lookup ev.debtor_account s.bundles) [ none ↦ empty_bundle | some b ↦ b ]

  unfoldable pub fake_apply : Event → FakeProfileStore F → FakeProfileStore F
  fake_apply ev s = record s { applied_events = s.applied_events ++ ev ∷ [] }
