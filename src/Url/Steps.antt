-- ===== src/Url/Steps.antt =====
-- The cases of the switch in `basicURLParse`: each takes the state override as a test, the code
-- points, the character at the pointer, and the variables.
pub mod Scheme
pub mod Authority
pub mod Files
pub mod Paths
