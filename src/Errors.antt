-- ===== src/Errors.antt =====
-- framework/src/common/errors.rs: the error kinds, and the `Result` of the functions that return
-- them. A string is its bytes; the foreign `Io` errors are not modelled.
use net_bricks.Prelude.{ℕ, List}

pub data ErrorKind : Type 0 where
  failed_allocation failed_deallocation bad_queue cannot_send : ErrorKind
  failed_to_initialize_port : ℕ → ErrorKind
  bad_dev bad_vdev : List ℕ → ErrorKind
  bad_tx_queue bad_rx_queue : ℕ → ℕ → ErrorKind
  bad_offset : ℕ → ErrorKind
  metadata_too_large ring_allocation_failure : ErrorKind
  invalid_ring_size : ℕ → ErrorKind
  ring_duplication_failure : ErrorKind
  configuration_error : List ℕ → ErrorKind
  no_running_scheduler_on_core : ℕ → ErrorKind

pub data Result {ℓ} (A : Type ℓ) : Type ℓ where
  ok : A → Result A
  err : ErrorKind → Result A
