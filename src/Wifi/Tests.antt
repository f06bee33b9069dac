-- ===== src/Wifi/Tests.antt =====
-- A run of the task of main.rs: refused, connected, lost, and connected again.
use esp32_dap_proxy.Prelude.{◌≡◌, true, false, refl}
use esp32_dap_proxy.Wifi.{
  connecting, connected, station_disconnected, access_point, joined, refused, notice, step, Trace,
  done, next,
}
use esp32_dap_proxy.Wifi.Reconnect.{count}

lost_once : Trace connecting connected
unfolding step
lost_once = next refused (
    next joined (
      next (notice (access_point true)) (
        next (notice (station_disconnected false))
          (next (notice (station_disconnected true)) (next joined done)))))

lost_counts : count lost_once ≡ record { joins = 2; refusals = 1; losses = 1; slept = 5000 }
unfolding count lost_once step
lost_counts = refl
