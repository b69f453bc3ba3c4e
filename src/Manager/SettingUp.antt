-- ===== src/Manager/SettingUp.antt =====
-- The methods `SetupWithManager` of the five reconcilers in internal/controller: what each asks the
-- manager to watch, under which name, with which filter of the events and which limiter of the rate.
use argora.Base.{String, Option, none, some, ℤ}

-- `RateLimiter` of internal/controller/rate_limiter.go
pub record RateLimiter : Type 0 where
  pub burst : ℤ
  pub frequency : ℤ
  pub base_delay : ℤ
  pub failure_max_delay : ℤ

pub data Watched : Type 0 where
  cluster_imports capi_clusters updates ip_pool_imports ip_addresses : Watched

-- All events, or those where the generation or the annotations have changed
pub data EventFilter : Type 0 where
  every_event generation_or_annotation_changed : EventFilter

-- The limiter that takes the longer of two delays: one that grows with each failure, and a bucket
pub record MaxOfLimiters : Type 0 where
  pub failure_base_delay : ℤ
  pub failure_max_delay : ℤ
  pub bucket_limit : ℤ
  pub bucket_burst : ℤ

pub record Registration : Type 0 where
  pub name : String
  pub watched : Watched
  pub filter : EventFilter
  pub limiter : Option MaxOfLimiters

abbrev pub limiter_of : RateLimiter → MaxOfLimiters
limiter_of r = record {
  failure_base_delay = r.base_delay;
  failure_max_delay = r.failure_max_delay;
  bucket_limit = r.frequency;
  bucket_burst = r.burst;
}

-- `IronCoreReconciler.SetupWithManager`
abbrev pub set_up_iron_core : RateLimiter → Registration
set_up_iron_core r = record {
  name = "ironcore";
  watched = cluster_imports;
  filter = generation_or_annotation_changed;
  limiter = some (limiter_of r);
}

-- `Metal3Reconciler.SetupWithManager`
abbrev pub set_up_metal3 : RateLimiter → Registration
set_up_metal3 r = record {
  name = "metal3";
  watched = capi_clusters;
  filter = generation_or_annotation_changed;
  limiter = some (limiter_of r);
}

-- `UpdateReconciler.SetupWithManager`
abbrev pub set_up_update : RateLimiter → Registration
set_up_update r = record {
  name = "update";
  watched = updates;
  filter = generation_or_annotation_changed;
  limiter = some (limiter_of r);
}

-- `IPPoolImportReconciler.SetupWithManager`
abbrev pub set_up_ip_pool_import : RateLimiter → Registration
set_up_ip_pool_import r = record {
  name = "ippoolimport";
  watched = ip_pool_imports;
  filter = generation_or_annotation_changed;
  limiter = some (limiter_of r);
}

-- `IPUpdateReconciler.SetupWithManager`
abbrev pub set_up_ip_update : Registration
set_up_ip_update = record {
  name = "ipupdate";
  watched = ip_addresses;
  filter = every_event;
  limiter = none;
}
