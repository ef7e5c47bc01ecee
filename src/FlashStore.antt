-- ===== src/FlashStore.antt =====
-- `src/flash_store.rs`: where the settings lie in the flash, and what is done with a store that
-- cannot be read. The key-value store of the crate `sfkv` is a parameter.
pub mod Backend
use thermostat.Prelude.{Bool, if◌then◌else◌}
use thermostat.Platform.{Platform}
use thermostat.Channels.{Board}
use thermostat.Handler.{Host}

module _ ⦃p : Platform⦄ ⦃b : Board⦄ ⦃h : Host⦄ where
  -- What the start asks of the store beside its values: whether its bytes can be counted, and to
  -- erase it, whose error is only logged.
  pub record Sfkv : Type 0 where
    pub readable : h.Store → Bool
    pub erase : h.Store → h.Store

  -- `store`
  unfoldable pub open_store : Sfkv → h.Store → h.Store
  open_store sfkv st = if sfkv.readable st then st else sfkv.erase st
