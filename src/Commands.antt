-- ===== src/Commands.antt =====
-- powermand/device_private.h: the indices into the script array, and the choice between the
-- scripts of a device (device.c).
use powerman.Base.{Bool, true, false, Option, none, some, is_some, if◌then◌else◌}

-- PM_*
pub data Com : Type 0 where
  pm_log_in pm_log_out pm_status_plugs pm_status_plugs_all pm_ping : Com
  pm_power_on pm_power_on_ranged pm_power_on_all : Com
  pm_power_off pm_power_off_ranged pm_power_off_all : Com
  pm_power_cycle pm_power_cycle_ranged pm_power_cycle_all : Com
  pm_reset pm_reset_ranged pm_reset_all : Com
  pm_status_temp pm_status_temp_all pm_status_beacon pm_status_beacon_all : Com
  pm_beacon_on pm_beacon_on_ranged pm_beacon_off pm_beacon_off_ranged pm_resolve : Com

-- The index of the "all" version of a script.
unfoldable pub all_version : Com → Option Com
all_version pm_power_on = some pm_power_on_all
all_version pm_power_off = some pm_power_off_all
all_version pm_power_cycle = some pm_power_cycle_all
all_version pm_reset = some pm_reset_all
all_version pm_status_plugs = some pm_status_plugs_all
all_version pm_status_temp = some pm_status_temp_all
all_version pm_status_beacon = some pm_status_beacon_all
all_version _ = none

-- The index of the "ranged" version of a script.
unfoldable pub ranged_version : Com → Option Com
ranged_version pm_power_on = some pm_power_on_ranged
ranged_version pm_power_off = some pm_power_off_ranged
ranged_version pm_power_cycle = some pm_power_cycle_ranged
ranged_version pm_reset = some pm_reset_ranged
ranged_version pm_beacon_on = some pm_beacon_on_ranged
ranged_version pm_beacon_off = some pm_beacon_off_ranged
ranged_version _ = none

-- A version of a script, if the device has it; none for -1.
unfoldable pub if_script {ℓ} : {S : Type ℓ} → (Com → Option S) → Option Com → Option Com
if_script scripts none = none
if_script scripts (some pm) = if is_some (scripts pm) then some pm else none

unfoldable pub get_all_script {ℓ} : {S : Type ℓ} → (Com → Option S) → Com → Option Com
unfolding all_version if_script
get_all_script scripts pm = if_script scripts (all_version pm)

unfoldable pub get_ranged_script {ℓ} : {S : Type ℓ} → (Com → Option S) → Com → Option Com
unfolding ranged_version if_script
get_ranged_script scripts pm = if_script scripts (ranged_version pm)

unfoldable pub is_query_action : Com → Bool
is_query_action pm_status_plugs = true
is_query_action pm_status_plugs_all = true
is_query_action pm_status_temp = true
is_query_action pm_status_temp_all = true
is_query_action pm_status_beacon = true
is_query_action pm_status_beacon_all = true
is_query_action _ = false
