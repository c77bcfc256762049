-- ===== src/Mcp.antt =====
-- src/vocode/mcp: the names under which the tools of MCP servers are given to a model, and the
-- choice of the tools.
pub mod Naming
pub mod Materialization
mod RoundTrip
mod Enabled
mod Tests
