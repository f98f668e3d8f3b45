-- ===== src/Types/Encode/Nvme.antt =====
-- What is printed for the NVMe part of a document.
use smartmontools_go.Json.{Json, int, obj, end}
use smartmontools_go.Json.Encode.{omit_int, omit_bool, omit_pointer, omit_slice}
use smartmontools_go.Types.{NvmeSmartHealth, NvmeSmartTestLog, NvmeControllerCapabilities}

unfoldable pub encode_nvme_smart_health : NvmeSmartHealth → Json
encode_nvme_smart_health a = obj (
    omit_int "critical_warning" a.critical_warning (
      omit_int "temperature" a.temperature (
        omit_int "available_spare" a.available_spare (
          omit_int "available_spare_threshold" a.available_spare_thresh (
            omit_int "percentage_used" a.percentage_used (
              omit_int "data_units_read" a.data_units_read (
                omit_int "data_units_written" a.data_units_written (
                  omit_int "host_read_commands" a.host_read_commands (
                    omit_int "host_write_commands" a.host_write_commands (
                      omit_int "controller_busy_time" a.controller_busy_time (
                        omit_int "power_cycles" a.power_cycles (
                          omit_int "power_on_hours" a.power_on_hours (
                            omit_int "unsafe_shutdowns" a.unsafe_shutdowns (
                              omit_int "media_errors" a.media_errors (
                                omit_int "num_err_log_entries" a.num_err_log_entries (
                                  omit_int "warning_temp_time" a.warning_temp_time (
                                    omit_int "critical_comp_time" a.critical_comp_time (
                                      omit_slice int "temperature_sensors" a.temperature_sensors
                                        end))))))))))))))))))

unfoldable pub encode_nvme_smart_test_log : NvmeSmartTestLog → Json
encode_nvme_smart_test_log a = obj (
    omit_pointer int "current_operation" a.current_operation
      (omit_pointer int "current_completion" a.current_completion end))

unfoldable pub encode_nvme_controller_capabilities : NvmeControllerCapabilities → Json
encode_nvme_controller_capabilities a = obj (omit_bool "self_test" a.self_test end)
