-- ===== src/Soapy/Queries.antt =====
-- src/SoapySDR/Streaming.cpp: what the stream tells about itself, and the names of the library's errors.
use Prim.Native.String.{String}
use osmo_fl2k.Prelude.{
  ℕ, ◌/◌, List, [], ◌∷◌, Option, none, some, Bool, not, if◌then◌else◌, ℤ, pos, negsuc, length,
  get_elem?, ◌>>=◌, ◌==ℤ◌,
}
use osmo_fl2k.Decimal.{to_string}
use osmo_fl2k.Device.{
  success, error_invalid_param, error_not_found, error_busy, error_timeout, error_no_mem, xfer_len,
}
use osmo_fl2k.Soapy.{TxFormat, float32, int16, int8, uint16, uint8, Soapy}

-- FL2K_TRUE and FL2K_ERROR_NO_DEVICE
abbrev pub fl2k_true : ℤ
fl2k_true = pos 1

abbrev pub error_no_device : ℤ
error_no_device = negsuc 1

abbrev pub get_stream_formats : List TxFormat
get_stream_formats = int8 ∷ int16 ∷ uint8 ∷ uint16 ∷ float32 ∷ []

-- The native format, with `fullScale`; `none` is an exception.
unfoldable pub get_native_stream_format : Bool → Option (TxFormat × ℕ)
get_native_stream_format is_tx = if not is_tx then none else some (uint8, 255)

-- `SoapySDR::ArgInfo`, as far as it is filled in.
pub data ArgType : Type 0 where
  bool int : ArgType

pub record ArgInfo : Type 0 where
  pub key : String
  pub value : String
  pub name : String
  pub description : String
  pub units : String
  pub kind : ArgType

-- `none` is an exception.
unfoldable pub get_stream_args_info : Bool → Option (List ArgInfo)
get_stream_args_info is_tx =
    if not is_tx
    then none
    else some (
        record {
          key = "bufflen";
          value = to_string xfer_len;
          name = "Buffer Size";
          description = "Number of bytes per buffer, multiples of 512 only.";
          units = "bytes";
          kind = int;
        }
        ∷ record {
          key = "buffers";
          value = to_string 4;
          name = "Ring buffers";
          description = "Number of buffers in the ring.";
          units = "buffers";
          kind = int;
        }
        ∷ record {
          key = "asyncBuffs";
          value = "0";
          name = "Async buffers";
          description = "Number of async usb buffers (advanced).";
          units = "buffers";
          kind = int;
        }
        ∷ [])

-- `bufferLength / BYTES_PER_SAMPLE`
unfoldable pub get_stream_mtu : Soapy → ℕ
get_stream_mtu s = s.buffer_length / 1

unfoldable pub get_num_direct_access_buffers : Soapy → ℕ
get_num_direct_access_buffers s = length s.buffs

-- The arrays of a buffer; `none` is a handle that is out of range.
unfoldable pub get_direct_access_buffer_addrs : Soapy → ℕ → Option (List ℕ × List ℕ × List ℕ)
get_direct_access_buffer_addrs s handle = do
  b ← get_elem? s.buffs handle
  some (b.red, b.green, b.blue)

-- The map of `fl2kErrorToString`.
abbrev pub error_names : List (ℤ × String)
error_names =
    (success, "FL2K_SUCCESS")
    ∷ (fl2k_true, "FL2K_TRUE")
    ∷ (error_invalid_param, "FL2K_ERROR_INVALID_PARAM")
    ∷ (error_no_device, "FL2K_ERROR_NO_DEVICE")
    ∷ (error_not_found, "FL2K_ERROR_NOT_FOUND")
    ∷ (error_busy, "FL2K_ERROR_BUSY")
    ∷ (error_timeout, "FL2K_ERROR_TIMEOUT")
    ∷ (error_no_mem, "FL2K_ERROR_NO_MEM")
    ∷ []

find_name : ℤ → List (ℤ × String) → Option String
find_name error [] = none
find_name error ((code, name) ∷ rest) = if code ==ℤ error then some name else find_name error rest

-- `none` is an exception.
unfoldable pub fl2k_error_to_string : ℤ → Option String
unfolding find_name
fl2k_error_to_string error = find_name error error_names
