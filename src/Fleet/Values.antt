-- ===== src/Fleet/Values.antt =====
-- model.py: the frozen values of the desired state.
mod Rules
mod Pools
mod Hosts
mod Work
unfoldable pub use Rules.*
unfoldable pub use Pools.*
unfoldable pub use Hosts.*
unfoldable pub use Work.*
