-- ===== src/Controller/Constants.antt =====
-- internal/controller/constants.go
use argora.Base.{String}

abbrev pub device_status_active : String
device_status_active = "active"

abbrev pub device_status_staged : String
device_status_staged = "staged"

abbrev pub interface_type_lag : String
interface_type_lag = "lag"

abbrev pub remoteboard_interface_name : String
remoteboard_interface_name = "remoteboard"

abbrev pub root_hint_boss : String
root_hint_boss = "BOSS"

abbrev pub annotation_value_true : String
annotation_value_true = "true"
