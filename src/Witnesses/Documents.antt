-- ===== src/Witnesses/Documents.antt =====
-- Documents at concrete inputs.
use smartmontools_go.Base.{
  ℕ, pos, String, Option, none, some, List, [], ◌∷◌, if◌then◌else◌, ◌==◌, ◌≡◌, refl, lookup, arith,
}
use smartmontools_go.Types.{Device, zero_info}
use smartmontools_go.Json.{Json, int, str, arr, obj, Elems, nil, cons, end, field}
use smartmontools_go.Json.Decode.{is_int64}
use smartmontools_go.Types.Decode.{decode_info}
use smartmontools_go.Types.Decode.Status.{zero_status_field, unmarshal_status_field}
use smartmontools_go.Types.Encode.{encode_info}
use smartmontools_go.Types.Encode.Status.{encode_status_field}
use smartmontools_go.Types.RoundTrip.{SmartInfoFits, decode_info-encode_info}
use smartmontools_go.Types.RoundTrip.Status.{unmarshal_status_field-encode_status_field}
use smartmontools_go.Types.RoundTrip.Ata.{AtaSmartDataFits}
use smartmontools_go.Helpers.{classify}
use smartmontools_go.Backend.State.{Call, Reply}
use smartmontools_go.Backend.Info.{found, get_smart_info, get_smart_info_internal}
use smartmontools_go.Backend.Devices.{ok, scan_devices}
use smartmontools_go.Backend.Documents.{json_env}
use smartmontools_go.Backend.Documents.Computed.{documents-no_health_warning}
use smartmontools_go.Backend.Documents.EndToEnd.{get_smart_info-encode_info}
use smartmontools_go.Backend.Documents.ScanList.{
  Listing, listing, entry, no_entry, nowhere, here, there, scan_devices-Listing,
}
use smartmontools_go.Text.{to_lower}
use smartmontools_go.Witnesses.{an_ata, ssd_info, running_status, printed, exited, known}

an_ata-Fits : AtaSmartDataFits an_ata
unfolding is_int64
an_ata-Fits = (
  tt,
  ((refl, refl), (refl, refl, refl)),
  tt,
  ((refl, refl, refl, refl, refl, refl), ((refl, refl, refl, refl, refl, refl), tt)),
)

ssd_info-Fits : SmartInfoFits ssd_info
unfolding is_int64
ssd_info-Fits = (tt, refl, an_ata-Fits, tt, tt, tt, tt, refl, ((refl, (refl, tt)), tt, refl))

decode_info-encode_info_example :
    decode_info (encode_info ssd_info) zero_info
    ≡ some (record ssd_info { disk_type = ""; exit_code_info = none })
decode_info-encode_info_example = decode_info-encode_info ssd_info ssd_info-Fits

unmarshal_status_field-encode_status_field_example :
    unmarshal_status_field (encode_status_field running_status) zero_status_field
    ≡ some running_status
unfolding is_int64
unmarshal_status_field-encode_status_field_example =
    unmarshal_status_field-encode_status_field running_status zero_status_field (refl, refl)

-- a list of devices as smartctl prints it, with more than the program reads
abbrev an_entry : String → String → String → Json
an_entry name type protocol = obj (
    field "name" (str name) (
      field "info_name" (str name) (field "type" (str type) (field "protocol" (str protocol) end))))

abbrev entry_list : Elems
entry_list = cons (an_entry "/dev/sda" "sat" "ATA") (cons (an_entry "/dev/nvme0" "nvme" "NVMe") nil)

abbrev scan_document : Json
scan_document = obj (
    field "json_format_version" (arr (cons (int (pos 1)) nil))
      (field "smartctl" (obj end) (field "devices" (arr entry_list) end)))

abbrev two_devices : List Device
two_devices =
    record { name = "/dev/sda"; type = "sat" } ∷ record { name = "/dev/nvme0"; type = "nvme" } ∷ []

scan_document-Listing : Listing scan_document two_devices
unfolding to_lower
scan_document-Listing = listing (there refl (there refl (here refl refl nowhere))) (
    entry (here refl refl (there refl (there refl (there refl nowhere))))
      (there refl (there refl (here refl refl (there refl nowhere))))
      (entry (here refl refl (there refl (there refl (there refl nowhere))))
        (there refl (there refl (here refl refl (there refl nowhere)))) no_entry))

-- the documents of two texts
abbrev document_of : String → Option Json
document_of out =
    if out == "scan"
    then some scan_document
    else if out == "ssd"
    then some (encode_info ssd_info)
    else none

abbrev clock : ℕ → ℕ
clock n = n

abbrev prints : String → List Call → Call → Reply
prints out calls call = printed out

scan_devices-Listing_example :
    (scan_devices (json_env (prints "scan") document_of clock) known).0 ≡ ok two_devices
scan_devices-Listing_example =
    scan_devices-Listing (prints "scan") document_of clock scan_document two_devices known
      scan_document-Listing refl refl

get_smart_info-encode_info_example :
    (get_smart_info (json_env (prints "ssd") document_of clock) "/dev/sda" known).0
    ≡ found (classify (record ssd_info { disk_type = ""; exit_code_info = none }))
get_smart_info-encode_info_example =
    get_smart_info-encode_info (prints "ssd") document_of clock ssd_info "/dev/sda" known
      ssd_info-Fits refl refl

-- a drive with the health bits 0x40 in its exit status
abbrev fails : List Call → Call → Reply
fails calls call = exited (pos 0x40)

documents-no_health_warning_example :
    (get_smart_info_internal
      (json_env fails document_of clock)
      "/dev/sda"
      known).1.health_bits_cache
    ≡ known.health_bits_cache
unfolding lookup
documents-no_health_warning_example =
    documents-no_health_warning fails document_of clock "/dev/sda" known "sat" refl
      (λ i done decoded. absurd (ground arith))
