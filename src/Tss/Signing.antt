-- ===== src/Tss/Signing.antt =====
-- tss/ecdsa/signing/signing.go: the signing process.
mod Defs
pub use Defs.{Signing, RunEnv, SignatureData, EndAction, result, broadcast}
unfoldable pub use Defs.{
  new_signing, ready_participants, ready, start_params, run, process_end_message, signature_bytes,
  left_pad_bytes, monitor_signing, distribute_signature, stop,
}
mod Runs
pub use Runs.*
mod Subset
pub use Subset.*
