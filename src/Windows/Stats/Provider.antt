-- ===== src/Windows/Stats/Provider.antt =====
-- The outcome of asking a provider: src/windows/stats/provider.rs.

pub data FallbackReason : Type 0 where
  provider_missing provider_unavailable volume_resolution : FallbackReason

pub data ProviderOutcome (T : Type 0) : Type 0 where
  value : T → ProviderOutcome T
  unavailable : FallbackReason → ProviderOutcome T
