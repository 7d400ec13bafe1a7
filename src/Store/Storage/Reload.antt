-- ===== src/Store/Storage/Reload.antt =====
-- What a page load finds in the browser's storage.
use vidhi_trading_platform.Prelude.{true, false, ◌≡◌, refl}
use vidhi_trading_platform.Store.Types.{Store, Browser, online}
use vidhi_trading_platform.Store.Storage.{load, boot, save}
use vidhi_trading_platform.Store.Telemetry.{connect_telemetry, on_connect, set_link}

-- A connection that was saved as online is online after a page load, when there is no socket; asked
-- to connect, the store does nothing, and the socket stays closed.
pub connect-boot :
    (b b' : Browser) (st : Store)
    → b.fits (set_link online st).state ≡ true
    → let loaded = boot (on_connect b st).storage in
      (loaded.state.telemetry.status ≡ online)
      × (connect_telemetry b' loaded ≡ loaded)
      × ((connect_telemetry b' loaded).socket_open ≡ false)
unfolding on_connect save boot load connect_telemetry
connect-boot b b' st fits = rw fits (refl, refl, refl)
