-- ===== src/Device.antt =====
-- The types of src/libosmo-fl2k.c that its parts share: the device handle `struct fl2k_dev`, the
-- transfers it owns, and the return codes of include/osmo-fl2k.h.
use osmo_fl2k.Prelude.{ℕ, List, Option, Bool, ℤ, pos, negsuc, ◌*◌}

-- `enum fl2k_async_status`
pub data AsyncStatus : Type 0 where
  inactive canceling running : AsyncStatus

-- `enum fl2k_buf_state`
pub data BufState : Type 0 where
  empty submitted filled : BufState

-- The states of a libusb transfer that the library tells apart: LIBUSB_TRANSFER_COMPLETED,
-- LIBUSB_TRANSFER_CANCELLED, and all others.
pub data TransferStatus : Type 0 where
  completed cancelled failed : TransferStatus

-- `fl2k_xfer_info_t`, without the pointer back to the device.
pub record XferInfo : Type 0 where
  pub seq : ℕ
  pub state : BufState

-- A `libusb_transfer` with what the library reads and writes of it. `user_data` points to an entry
-- of `xfer_info` that no other transfer points to, so the entry stands here; `none` is NULL.
pub record Xfer : Type 0 where
  pub user_data : Option XferInfo
  pub buffer : List ℕ
  pub status : TransferStatus

-- `struct fl2k_dev`. `xfer` has `xfer_buf_num` entries; `has_cb` is `cb != NULL`.
pub record Dev : Type 0 where
  pub xfer : List Xfer
  pub xfer_num : ℕ
  pub xfer_buf_num : ℕ
  pub xfer_buf_len : ℕ
  pub has_cb : Bool
  pub async_status : AsyncStatus
  pub async_cancel : Bool
  pub use_zerocopy : Bool
  pub dev_lost : Bool
  pub underflow_cnt : ℕ

abbrev pub is_running : AsyncStatus → Bool
is_running running = Bool.true
is_running _ = Bool.false

abbrev pub is_inactive : AsyncStatus → Bool
is_inactive inactive = Bool.true
is_inactive _ = Bool.false

-- `a == b` on buffer states
abbrev pub same_state : BufState → BufState → Bool
same_state empty empty = Bool.true
same_state submitted submitted = Bool.true
same_state filled filled = Bool.true
same_state _ _ = Bool.false

-- FL2K_BUF_LEN and FL2K_XFER_LEN
abbrev pub buf_len : ℕ
buf_len = 1280 * 1024

abbrev pub xfer_len : ℕ
xfer_len = buf_len * 3

-- `enum fl2k_error`
abbrev pub success : ℤ
success = pos 0

abbrev pub error_invalid_param : ℤ
error_invalid_param = negsuc 0

abbrev pub error_not_found : ℤ
error_not_found = negsuc 4

abbrev pub error_busy : ℤ
error_busy = negsuc 5

abbrev pub error_timeout : ℤ
error_timeout = negsuc 6

abbrev pub error_no_mem : ℤ
error_no_mem = negsuc 10

-- LIBUSB_ERROR_NO_DEVICE
abbrev pub libusb_no_device : ℤ
libusb_no_device = negsuc 3
