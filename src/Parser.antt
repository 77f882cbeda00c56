-- ===== src/Parser.antt =====
-- processing/dpdk_pipeline/parser.c: the readers of the arguments of commands. A reader takes the
-- string and returns what it stores through its output pointer, or its negative status; on an error
-- nothing is stored.
pub mod Numbers
pub mod Switch
pub mod HexString
pub mod Tokens
pub mod Mpls
pub mod Mac
pub mod CpuCore
