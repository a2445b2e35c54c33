-- ===== src/Wg.antt =====
-- The tunnel's routing policy and platform layer, src/wg.c: `Route` is the route hook, `Exit` the
-- station edge of exit mode, `Clock` the handshake timestamps.
pub mod Route
pub mod RouteLaws
pub mod Exit
pub mod Clock
mod Tests
