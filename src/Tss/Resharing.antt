-- ===== src/Tss/Resharing.antt =====
-- tss/ecdsa/resharing/resharing.go: the resharing process.
mod Defs
pub use Defs.{Resharing, StartParams, ReshareError, sort_peers}
unfoldable pub use Defs.{
  ready, valid_coordinators, start_params, validate_start_params, is_subset_valid, sort_parties,
  new_resharing,
}
mod Params
pub use Params.*
mod Newcomers
pub use Newcomers.{numbered, newcomers}
mod Order
pub use Order.*
mod Run
pub use Run.{ReshareEnv, Ran, returned, panicked, end_of}
unfoldable pub use Run.{all_placed, refused, run_parties, run}
mod NoPanic
pub use NoPanic.{SortsById, run_completes}
