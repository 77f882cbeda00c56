-- ===== src/Action.antt =====
-- processing/dpdk_pipeline/action.c and action.h: the profiles of actions of input ports and of
-- tables. The two halves of the file differ in the actions and share what stands here.
pub mod PortIn
pub mod Table
pub mod Hash
