-- ===== src/Error.antt =====
-- rdma_error.hpp, impl/rdma_error.ipp and ibv/ibv_error.hpp: error codes and the category's messages.
use Prim.Native.String.{String}
use rdma_on_asio.Base.{ℕ, Bool, true, false, if◌then◌else◌, ◌==◌}
use rdma_on_asio.Base.Int.{ℤ, pos, is_nonzero}

pub data RdmaErrc : Type 0 where
  no_available_device invalid_device invalid_handle already_registered : RdmaErrc
  device_not_registered disconnected device_removed connector_terminal : RdmaErrc
  too_many_sge private_data_too_large address_family_not_supported : RdmaErrc
  buffer_too_large invalid_config : RdmaErrc

-- `static_cast<int>(e)`: the enumeration starts at 1.
unfoldable pub to_int : RdmaErrc → ℕ
to_int no_available_device = 1
to_int invalid_device = 2
to_int invalid_handle = 3
to_int already_registered = 4
to_int device_not_registered = 5
to_int disconnected = 6
to_int device_removed = 7
to_int connector_terminal = 8
to_int too_many_sge = 9
to_int private_data_too_large = 10
to_int address_family_not_supported = 11
to_int buffer_too_large = 12
to_int invalid_config = 13

-- `rdma_error_category::message`: the `switch` over `static_cast<rdma_errc>(status)`.
pub message : ℕ → String
message status =
    if status == 1
    then "RDMA no available device"
    else if status == 2
    then "RDMA invalid device"
    else if status == 3
    then "RDMA invalid object handle"
    else if status == 4
    then "RDMA device already registered on this execution context"
    else if status == 5
    then "RDMA device not registered (call use_device first)"
    else if status == 6
    then "RDMA connection disconnected"
    else if status == 7
    then "RDMA local device removed"
    else if status == 8
    then "RDMA connector is terminal; create a new connector"
    else if status == 9
    then "RDMA scatter/gather list exceeds device max_sge"
    else if status == 10
    then "RDMA outgoing private_data exceeds the CM cap"
    else if status == 11
    then "RDMA device has no local address of the requested family"
    else if status == 12
    then "RDMA buffer length exceeds the supported native limit"
    else if status == 13
    then "RDMA configuration exceeds device capabilities or is incompatible"
    else "UNKNOWN_RDMA_ERROR"

-- The codes of asio that the library reports, of asio's own system and misc categories.
pub data AsioError : Type 0 where
  operation_aborted already_open bad_descriptor connection_aborted : AsioError
  connection_refused connection_reset host_unreachable : AsioError

-- The codes of `std::errc` that the library reports.
pub data StdErrc : Type 0 where
  address_not_available invalid_argument not_enough_memory : StdErrc

-- `asio::error_code`: `system v` has `std::system_category()`, which asio's own codes do not have; `nd v`
-- has the category of NetworkDirect.
pub data ErrorCode : Type 0 where
  system : ℤ → ErrorCode
  rdma : RdmaErrc → ErrorCode
  asio : AsioError → ErrorCode
  nd : ℤ → ErrorCode
  std : StdErrc → ErrorCode

-- `ec.clear()` and `error_code{}`.
abbrev pub cleared : ErrorCode
cleared = system (pos 0)

-- `if (ec)`: the value is not 0.
abbrev pub is_error : ErrorCode → Bool
is_error (system v) = is_nonzero v
is_error (rdma e) = true
is_error (asio e) = true
is_error (nd v) = is_nonzero v
is_error (std e) = true

-- `ec == asio::error::operation_aborted`.
abbrev pub is_aborted : ErrorCode → Bool
is_aborted (asio operation_aborted) = true
is_aborted (asio already_open) = false
is_aborted (asio bad_descriptor) = false
is_aborted (asio connection_aborted) = false
is_aborted (asio connection_refused) = false
is_aborted (asio connection_reset) = false
is_aborted (asio host_unreachable) = false
is_aborted (system v) = false
is_aborted (rdma e) = false
is_aborted (nd v) = false
is_aborted (std e) = false

-- `errno` values that the ibv backend names (Linux).
abbrev pub eagain : ℕ
eagain = 11

abbrev pub eio : ℕ
eio = 5

abbrev pub ehostunreach : ℕ
ehostunreach = 113
