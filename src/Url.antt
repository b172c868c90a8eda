-- ===== src/Url.antt =====
-- lib/lws/url.js: the URL parser and serializer, `URL` and `URLSearchParams`. Strings are lists of
-- code points.
pub mod Result
pub mod Native
pub mod Percent
pub mod Form
pub mod Host
pub mod Record
pub mod Machine
pub mod Steps
pub mod Parser
pub mod Serialize
pub mod SearchParams
pub mod Object
