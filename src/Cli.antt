-- ===== src/Cli.antt =====
-- src/optisocks5/cli.py: the subcommands `connect`, `fetch` and `probe`. The timings that they print
-- are left out.
pub mod Target
pub mod Commands
pub mod Outcomes
pub mod Raises
pub mod Probing
pub mod Fetching
